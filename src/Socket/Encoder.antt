-- ===== src/Socket/Encoder.antt =====
-- Writing a block in base64 and flushing it.
use occamy.Base.{
  ℕ, ◌+◌, ◌<◌, ◌≡◌, refl, sym, ap, ◌∙◌, arith, Bool, true, false, Option, none, some, inl, inr,
  List, [], ◌∷◌, ◌++◌, length, append-nil, append_assoc, Bool-cases, AreBytes,
}
use mathlib.Core.Path.{subst}
use occamy.Base
use occamy.Socket.{
  Transport, Socket, int_bits, triplet_output, socket_write, write_base64_triplet, write_ready,
  write_base64_byte, write_base64, flush_base64,
}
use occamy.Socket.Writes.{socket_write-Delivers, IsReliable}
use occamy.Socket.Base64.{encode64, triplet_one, triplet_two, triplet_three}

module _ (T : Transport) where
  open T use {State, sent}

  abbrev socket_of : State → ℕ → Option ℕ → Option ℕ → Option ℕ → Socket State
  socket_of h n x y z = record { handler = h; ready = n; ready_buf = x ∷ y ∷ z ∷ [] }

  -- `guac_socket_write_base64(…) || guac_socket_flush_base64(…)`
  abbrev pub encode_all : Base.Bytes → Socket State → Bool × Socket State
  encode_all block socket =
      let (failed, socket') = write_base64 T block socket in
      elim failed [ true ↦ (true, socket') | false ↦ flush_base64 T socket' ]

  -- On success `out` has been delivered and the ready buffer is empty again.
  pub record Encodes (socket : Socket State) (out : Base.Bytes) (result : Bool × Socket State)
      : Type 0 where
    pub delivered :
        result.0 ≡ false
        → (sent result.1.handler ≡ sent socket.handler ++ out)
          × (result.1.ready ≡ 0)
          × (length result.1.ready_buf ≡ 3)
    pub succeeds : IsReliable T → result.0 ≡ false

  module _ (h : State) (a b c : Option ℕ) where
    abbrev full : Socket State
    full = socket_of h 3 a b c

    abbrev flushed : Bool × Socket State
    flushed = socket_write T (triplet_output (int_bits a) b c) full

    ready_fails : flushed.0 ≡ true → write_ready T full ≡ (none, flushed.1)
    unfolding write_ready write_base64_triplet
    ready_fails e = rw (e, write_ready)

    ready_succeeds :
        flushed.0 ≡ false → write_ready T full ≡ (some 1, socket_of flushed.1.handler 0 a b c)
    unfolding write_ready write_base64_triplet
    ready_succeeds e = rw (e, write_ready) (rw (socket_write-Delivers T full _).ready_buf_kept)

  -- What a flushed triplet contributes, by its outcome, to the writing of a block from `h` on.
  module _ (h : State) (a b c : Option ℕ) (x y z : Option ℕ) where
    abbrev start : Socket State
    start = socket_of h 0 x y z

    abbrev after : Socket State
    after = socket_of (flushed h a b c).1.handler 0 a b c

    triplet_failed :
        (out : Base.Bytes)
        → (flushed h a b c).0 ≡ true
        → Encodes start out (true, (flushed h a b c).1)
    triplet_failed out e = record {
      delivered = λ f. cc;
      succeeds = λ reliable. cc ((socket_write-Delivers T (full h a b c) _).succeeds reliable);
    }

    triplet_last :
        (out : Base.Bytes)
        → triplet_output (int_bits a) b c ≡ out
        → (flushed h a b c).0 ≡ false
        → Encodes start out (false, after)
    triplet_last out t e = record {
      delivered =
          λ _. (rw (← t) ((socket_write-Delivers T (full h a b c) _).delivered e), refl, refl);
      succeeds = λ _. refl;
    }

    triplet_step :
        (out more : Base.Bytes) (result : Bool × Socket State)
        → triplet_output (int_bits a) b c ≡ out
        → (flushed h a b c).0 ≡ false
        → Encodes after more result
        → Encodes start (out ++ more) result
    triplet_step out more result t e m = record {
      delivered = λ f.
          let (all, empty, size) = m.delivered f in
          let before = (socket_write-Delivers T (full h a b c) _).delivered e in
          (all ∙ rw (before, t) (append_assoc (sent h) out more), empty, size);
      succeeds = m.succeeds;
    }

  -- The rest of the work, from what the flush of a full ready buffer returned.
  resume : Base.Bytes → Option ℕ × Socket State → Bool × Socket State
  resume rest result =
      let written : Bool × Socket State = elim result.0 [
        | none ↦ (true, result.1)
        | some _ ↦ write_base64 T rest result.1
      ] in
      elim written.0 [ true ↦ (true, written.1) | false ↦ flush_base64 T written.1 ]

  encode_all-lem :
      (block : Base.Bytes) (h : State) (x y z : Option ℕ)
      → AreBytes block
      → Encodes (socket_of h 0 x y z) (encode64 block) (encode_all block (socket_of h 0 x y z))
  unfolding write_base64 write_base64_byte flush_base64 resume
  encode_all-lem [] h x y z bytes = record {
    delivered = λ _. (sym (append-nil _), refl, refl);
    succeeds = λ _. refl;
  }
  encode_all-lem (a ∷ []) h x y z bytes = elim (Bool-cases (flushed h (some a) none none).0) [
    | inl failed ↦
        let e = ready_fails h (some a) none none failed in
        rw (e, encode_all) (rw e (triplet_failed h (some a) none none x y z _ failed))
    | inr written ↦
        let e = ready_succeeds h (some a) none none written in
        rw (e, encode_all)
          (rw e (triplet_last h (some a) none none x y z _ (triplet_one a bytes.0) written))
  ]
  encode_all-lem (a ∷ b ∷ []) h x y z bytes =
      elim (Bool-cases (flushed h (some a) (some b) none).0) [
        | inl failed ↦
            let e = ready_fails h (some a) (some b) none failed in
            rw (e, encode_all) (rw e (triplet_failed h (some a) (some b) none x y z _ failed))
        | inr written ↦
            let e = ready_succeeds h (some a) (some b) none written in
            rw (e, encode_all)
              (rw e (
                triplet_last h (some a) (some b) none x y z _ (triplet_two a b bytes.0 bytes.1.0)
                  written))
      ]
  encode_all-lem (a ∷ b ∷ c ∷ rest) h x y z bytes =
      elim (Bool-cases (flushed h (some a) (some b) (some c)).0) [
        | inl failed ↦
            let e = ready_fails h (some a) (some b) (some c) failed in
            subst (λ r. Encodes (socket_of h 0 x y z) (encode64 (a ∷ b ∷ c ∷ rest)) (resume rest r))
              (sym e) (triplet_failed h (some a) (some b) (some c) x y z _ failed)
        | inr written ↦
            let e = ready_succeeds h (some a) (some b) (some c) written in
            subst (λ r. Encodes (socket_of h 0 x y z) (encode64 (a ∷ b ∷ c ∷ rest)) (resume rest r))
              (sym e)
              (triplet_step h (some a) (some b) (some c) x y z (encode64 (a ∷ b ∷ c ∷ []))
                (encode64 rest) _ (triplet_three a b c bytes.0 bytes.1.0 bytes.1.1.0) written
                (encode_all-lem rest _ (some a) (some b) (some c) bytes.1.1.1))
      ]

  -- Writing a block of bytes in base64 and flushing it, from an empty ready buffer, delivers the
  -- base64 encoding of the block, padding included, and leaves the ready buffer empty, or it reports
  -- an error; over a handler that reports none it does deliver.
  pub encode_all-Encodes :
      (block : Base.Bytes) (socket : Socket State)
      → AreBytes block
      → socket.ready ≡ 0
      → length socket.ready_buf ≡ 3
      → Encodes socket (encode64 block) (encode_all block socket)
  encode_all-Encodes block socket bytes empty size = of_buffer socket.ready_buf refl size
    where
      of_buffer :
          (buf : List (Option ℕ))
          → socket.ready_buf ≡ buf
          → length buf ≡ 3
          → Encodes socket (encode64 block) (encode_all block socket)
      of_buffer [] e l = absurd (omega arith)
      of_buffer (x ∷ []) e l = absurd (omega arith)
      of_buffer (x ∷ y ∷ []) e l = absurd (omega arith)
      of_buffer (x ∷ y ∷ z ∷ []) e l =
          subst (λ s. Encodes s (encode64 block) (encode_all block s))
            (λ i. record { handler = socket.handler; ready = sym empty i; ready_buf = sym e i })
            (encode_all-lem block socket.handler x y z bytes)
      of_buffer (x ∷ y ∷ z ∷ w ∷ buf) e l = absurd (omega arith)
