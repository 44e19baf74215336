-- ===== src/Socket/Writes.antt =====
-- `guac_socket_write` and its callers: what a successful call has delivered, and when calls succeed.
use occamy.Base.{
  ℕ, zero, suc, ◌+◌, ◌-◌, ◌≤◌, ◌≡◌, ◌≢◌, refl, sym, ap, ◌∙◌, arith, Bool, true, false, Option, none,
  some, ◌⊎◌, inl, inr, List, [], ◌∷◌, ◌++◌, length, take, drop, append-nil, append_assoc,
  length-drop, take-append-drop, Option-cases, Bool-cases, if◌then◌else◌,
}
use occamy.Base
use occamy.Socket.{Transport, Socket, write_loop, socket_write}

-- The handler never reports an error.
abbrev pub IsReliable : Transport → Type 0
IsReliable T = (s : T.State) (block : Base.Bytes) → (T.write s block).0 ≢ none

module _ (T : Transport) where
  open T use {State, write, sent, write_takes}

  -- What a call that writes `out` has done: on success exactly `out` has been delivered, behind
  -- what was, and the base64 buffer is as before; over a reliable handler it succeeds.
  pub record Delivers (socket : Socket State) (out : Base.Bytes) (result : Bool × Socket State)
      : Type 0 where
    pub delivered : result.0 ≡ false → sent result.1.handler ≡ sent socket.handler ++ out
    pub ready_kept : result.1.ready ≡ socket.ready
    pub ready_buf_kept : result.1.ready_buf ≡ socket.ready_buf
    pub succeeds : IsReliable T → result.0 ≡ false

  -- A call that hands the whole block over in two parts.
  pub Delivers-step :
      {socket socket' : Socket State} (block more : Base.Bytes) {result : Bool × Socket State}
      → sent socket'.handler ≡ sent socket.handler ++ block
      → socket'.ready ≡ socket.ready
      → socket'.ready_buf ≡ socket.ready_buf
      → Delivers socket' more result
      → Delivers socket (block ++ more) result
  Delivers-step block more e r b d = record {
    delivered = λ h. d.delivered h ∙ rw (e, append_assoc);
    ready_kept = d.ready_kept ∙ r;
    ready_buf_kept = d.ready_buf_kept ∙ b;
    succeeds = d.succeeds;
  }

  write_loop-Delivers :
      (fuel : ℕ) (socket : Socket State) (buffer : Base.Bytes)
      → length buffer ≤ fuel
      → Delivers socket buffer (write_loop T fuel socket buffer)
  unfolding write_loop
  write_loop-Delivers fuel socket [] h = record {
    delivered = λ _. sym (append-nil _);
    ready_kept = refl;
    ready_buf_kept = refl;
    succeeds = λ _. refl;
  }
  write_loop-Delivers zero socket (x ∷ buffer) h = absurd (omega arith)
  write_loop-Delivers (suc fuel) socket (x ∷ buffer) h =
      elim (Option-cases (write socket.handler (x ∷ buffer)).0) [
        | inl failed ↦
            rw (failed, write_loop)
              (record {
                delivered = λ e. cc;
                ready_kept = refl;
                ready_buf_kept = refl;
                succeeds = λ reliable. absurd (reliable _ _ failed);
              })
        | inr (n, taken) ↦
            let (some_taken, all_there, accepted) =
              write_takes socket.handler (x ∷ buffer) n taken (λ e. cc) in
            let d =
              write_loop-Delivers fuel
                (record socket { handler = (write socket.handler (x ∷ buffer)).1 })
                (drop n (x ∷ buffer)) (omega (arith, length-drop n (x ∷ buffer))) in
            rw (taken, write_loop)
              (rw (take-append-drop n (x ∷ buffer)) at
                (Delivers-step (take n (x ∷ buffer)) (drop n (x ∷ buffer)) accepted refl refl d))
      ]

  -- `guac_socket_write` delivers its block whole and in order or reports an error, however many
  -- calls the handler needs; over a handler that reports none it does deliver.
  pub socket_write-Delivers :
      (socket : Socket State) (buffer : Base.Bytes)
      → Delivers socket buffer (socket_write T buffer socket)
  unfolding socket_write
  socket_write-Delivers socket buffer =
      write_loop-Delivers (length buffer) socket buffer (omega arith)
