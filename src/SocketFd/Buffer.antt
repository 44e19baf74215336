-- ===== src/SocketFd/Buffer.antt =====
-- The buffer of a socket over a file descriptor (guacamole/src/libguac/socket-fd.c).
use occamy.Base.{
  ℕ, zero, suc, ◌+◌, ◌-◌, ◌≤◌, ◌≡◌, ◌≢◌, refl, sym, ap, ◌∙◌, arith, ◌==◌, ltb, Bool, true, false,
  Option, none, some, ◌⊎◌, inl, inr, List, [], ◌∷◌, ◌++◌, length, take, drop, append-nil,
  append_assoc, take-length, take-append, length-take, length-append, length-drop, take-append-drop,
  Option-cases, Bool-cases, on_branches, on_cases, if◌then◌else◌,
}
use occamy.Base
use mathlib.Core.Path.{subst}
use occamy.Socket.{Transport}
use occamy.Socket.Writes.{IsReliable}
use occamy.SocketFd.{
  FdData, out_size, fd_write_loop, fd_write, fd_flush, append_chunk, buffered_loop, write_buffered,
}

module _ (F : Transport) where
  open F use {State, write, sent, write_takes}

  -- What a call that writes `out` to the descriptor has done.
  pub record Writes (fd : State) (out : Base.Bytes) (result : Bool × State) : Type 0 where
    pub written : result.0 ≡ false → sent result.1 ≡ sent fd ++ out
    pub succeeds : IsReliable F → result.0 ≡ false

  fd_write_loop-Writes :
      (fuel : ℕ) (fd : State) (buffer : Base.Bytes)
      → length buffer ≤ fuel
      → Writes fd buffer (fd_write_loop F fuel fd buffer)
  unfolding fd_write_loop
  fd_write_loop-Writes fuel fd [] h = record {
    written = λ _. sym (append-nil _);
    succeeds = λ _. refl;
  }
  fd_write_loop-Writes zero fd (x ∷ buffer) h = absurd (omega arith)
  fd_write_loop-Writes (suc fuel) fd (x ∷ buffer) h =
      elim (Option-cases (write fd (x ∷ buffer)).0) [
        | inl failed ↦
            rw (failed, fd_write_loop)
              (record { written = λ e. cc; succeeds = λ reliable. absurd (reliable _ _ failed) })
        | inr (n, taken) ↦
            let (some_taken, all_there, accepted) = write_takes fd (x ∷ buffer) n taken (λ e. cc) in
            let w =
              fd_write_loop-Writes fuel (write fd (x ∷ buffer)).1 (drop n (x ∷ buffer))
                (omega (arith, length-drop n (x ∷ buffer))) in
            rw (taken, fd_write_loop)
              (record {
                written = λ e.
                    w.written e
                    ∙ ap (λ p. p ++ drop n (x ∷ buffer)) accepted
                    ∙ append_assoc (sent fd) (take n (x ∷ buffer)) (drop n (x ∷ buffer))
                    ∙ ap (λ p. sent fd ++ p) (take-append-drop n (x ∷ buffer));
                succeeds = w.succeeds;
              })
      ]

  -- The buffer has its size, and what is written is inside it.
  pub record IsValid (data' : FdData State) : Type 0 where
    pub size : length data'.out_buf ≡ out_size
    pub inside : data'.written ≤ out_size

  -- All that was handed to the socket: what the descriptor has taken, and what is still buffered.
  abbrev pub contents : FdData State → Base.Bytes
  contents data' = sent data'.fd ++ take data'.written data'.out_buf

  -- What a call that is handed `out` has done.
  pub record Accepts (data' : FdData State) (out : Base.Bytes) (result : Bool × FdData State)
      : Type 0 where
    pub valid : IsValid result.1
    pub accepted : result.0 ≡ false → contents result.1 ≡ contents data' ++ out
    pub succeeds : IsReliable F → result.0 ≡ false

  -- A flush that succeeds leaves nothing in the buffer; over a descriptor that never fails it does.
  pub record Flushes (data' : FdData State) (result : Bool × FdData State) : Type 0 where
    pub valid : IsValid result.1
    pub empty : result.0 ≡ false → result.1.written ≡ 0
    pub flushed : result.0 ≡ false → sent result.1.fd ≡ contents data'
    pub succeeds : IsReliable F → result.0 ≡ false

  flushed-Flushes :
      (data' : FdData State) (result : Bool × State)
      → IsValid data'
      → Writes data'.fd (take data'.written data'.out_buf) result
      → Flushes data' (
        result.0,
        record data' { fd = result.1; written = if result.0 then data'.written else 0 },
      )
  flushed-Flushes data' (true, fd) v w = record {
    valid = record { size = v.size; inside = v.inside };
    empty = λ e. cc;
    flushed = w.written;
    succeeds = w.succeeds;
  }
  flushed-Flushes data' (false, fd) v w = record {
    valid = record { size = v.size; inside = omega arith };
    empty = λ _. refl;
    flushed = w.written;
    succeeds = w.succeeds;
  }

  -- A flush hands all that is buffered to the descriptor, behind what it has taken, or reports an
  -- error; over a descriptor that never fails it succeeds.
  pub fd_flush-Flushes : (data' : FdData State) → IsValid data' → Flushes data' (fd_flush F data')
  unfolding fd_flush fd_write
  fd_flush-Flushes data' v =
      let out = take data'.written data'.out_buf in
      on_branches (Flushes data') (ltb 0 data'.written) _ _
        (λ some_written.
          flushed-Flushes data' _ v (fd_write_loop-Writes (length out) data'.fd out (omega arith)))
        (λ none_written.
          let nothing : data'.written ≡ 0 = ground arith in
          record {
            valid = v;
            empty = λ _. nothing;
            flushed = λ _.
                sym (append-nil (sent data'.fd))
                ∙ ap (λ n. sent data'.fd ++ take n data'.out_buf) (sym nothing);
            succeeds = λ _. refl;
          })

  append_chunk-Accepts :
      (data' : FdData State) (current : Base.Bytes) (n : ℕ)
      → IsValid data'
      → data'.written + n ≤ out_size
      → n ≤ length current
      → Accepts data' (take n current) (false, append_chunk F data' current n)
  unfolding append_chunk
  append_chunk-Accepts data' current n v room enough =
      let kept = take data'.written data'.out_buf in
      let chunk = take n current in
      let rest = drop (data'.written + n) data'.out_buf in
      let k : length kept ≡ data'.written =
        omega (arith, length-take data'.written data'.out_buf, v.size, v.inside) in
      let m : length chunk ≡ n = omega (arith, length-take n current) in
      record {
        valid = record {
          size = omega (
            arith,
            length-append kept (chunk ++ rest),
            length-append chunk rest,
            k,
            m,
            length-drop (data'.written + n) data'.out_buf,
            v.size,
            v.inside,
          );
          inside = room;
        };
        accepted = λ _.
            ap (λ p. sent data'.fd ++ p)
              (ap (λ i. take (i + n) (kept ++ (chunk ++ rest))) (sym k)
                ∙ take-append kept (chunk ++ rest) n
                ∙ ap (λ i. kept ++ take i (chunk ++ rest)) (sym m)
                ∙ ap (λ p. kept ++ p) (take-length chunk rest))
            ∙ sym (append_assoc (sent data'.fd) kept chunk);
        succeeds = λ _. refl;
      }

  -- A call in two steps, the first one successful.
  Accepts-step :
      (data' middle : FdData State) (out more : Base.Bytes) (result : Bool × FdData State)
      → contents middle ≡ contents data' ++ out
      → Accepts middle more result
      → Accepts data' (out ++ more) result
  Accepts-step data' middle out more result e a = record {
    valid = a.valid;
    accepted = λ h. a.accepted h ∙ ap (λ p. p ++ more) e ∙ append_assoc (contents data') out more;
    succeeds = a.succeeds;
  }

  -- What follows a flush.
  after_flush :
      (data' : FdData State) (current : Base.Bytes) (result : Bool × FdData State)
      (rest : FdData State → Bool × FdData State)
      → Flushes data' result
      → (IsValid result.1 → result.1.written ≡ 0 → Accepts result.1 current (rest result.1))
      → Accepts data' current (elim result.0 as (λ _. Bool × FdData State) [
        | true ↦ (true, result.1)
        | false ↦ rest result.1
      ])
  after_flush data' current (true, flushed) rest f next = record {
    valid = f.valid;
    accepted = λ e. cc;
    succeeds = f.succeeds;
  }
  after_flush data' current (false, flushed) rest f next =
      let a = next f.valid (f.empty refl) in
      record {
        valid = a.valid;
        accepted = λ e.
            a.accepted e
            ∙ ap (λ p. p ++ current)
                (ap (λ n. sent flushed.fd ++ take n flushed.out_buf) (f.empty refl)
                  ∙ append-nil (sent flushed.fd)
                  ∙ f.flushed refl);
        succeeds = a.succeeds;
      }

  buffered_loop-Accepts :
      (fuel : ℕ) (data' : FdData State) (current : Base.Bytes)
      → IsValid data'
      → length current + length current ≤ fuel
      → (data'.written ≡ out_size → length current + length current + 1 ≤ fuel)
      → Accepts data' current (buffered_loop F fuel data' current)
  unfolding buffered_loop
  buffered_loop-Accepts fuel data' [] v h full = record {
    valid = v;
    accepted = λ _. sym (append-nil (contents data'));
    succeeds = λ _. refl;
  }
  buffered_loop-Accepts zero data' (x ∷ current) v h full = absurd (omega arith)
  buffered_loop-Accepts (suc fuel) data' (x ∷ current) v h full =
      let count = length (x ∷ current) in
      let remaining = out_size - data'.written in
      let n = if ltb remaining count then remaining else count in
      on_cases (Accepts data' (x ∷ current)) (remaining == 0) _ _
        (λ none_left.
          let is_full : data'.written ≡ out_size = ground (arith, v.inside) in
          after_flush data' (x ∷ current) (fd_flush F data')
            (λ flushed. buffered_loop F fuel flushed (x ∷ current)) (fd_flush-Flushes data' v)
            (λ v' empty.
              buffered_loop-Accepts fuel _ (x ∷ current) v' (omega (arith, full is_full))
                (λ e. absurd (omega (arith, e, empty)))))
        (λ some_left.
          let low : 1 ≤ n = ground arith in
          let high : n ≤ remaining = ground arith in
          let inside : n ≤ count = ground arith in
          let room : data'.written + n ≤ out_size = omega (arith, v.inside) in
          let first = append_chunk-Accepts data' (x ∷ current) n v room inside in
          let shorter = length-drop n (x ∷ current) in
          subst
            (λ p.
              Accepts data' p (
                buffered_loop F fuel (append_chunk F data' (x ∷ current) n) (drop n (x ∷ current))))
            (take-append-drop n (x ∷ current))
            (Accepts-step data' _ (take n (x ∷ current)) (drop n (x ∷ current)) _
              (first.accepted refl)
              (buffered_loop-Accepts fuel _ (drop n (x ∷ current)) first.valid
                (omega (arith, shorter)) (λ e. omega (arith, shorter)))))

  -- The write handler buffers its whole block behind what the socket was handed before, writing to
  -- the descriptor only what comes first, or reports an error; over a descriptor that never fails it
  -- succeeds.
  pub write_buffered-Accepts :
      (data' : FdData State) (buf : Base.Bytes)
      → IsValid data'
      → Accepts data' buf (write_buffered F data' buf)
  unfolding write_buffered
  write_buffered-Accepts data' buf v =
      buffered_loop-Accepts (length buf + length buf + 1) data' buf v (omega arith)
        (λ _. omega arith)
