-- ===== src/User/Loop.antt =====
-- guacamole/src/libguac/user.c and user-handlers.c: the end of the input loop, and what a blob's handler receives.
use occamy.Base.{
  ℕ, ◌<◌, ◌≡◌, ◌∙◌, refl, arith, ap, ◌==◌, if◌then◌else◌, on_branches, Bool, Bool-cases, inl, inr,
  true, false, not, ◌&&◌, ◌||◌, Option, some, none, List, [], ◌∷◌, ◌++◌, AreBytes,
}
use occamy.Base
use occamy.Base.Int.{ℤ, pos, ltb_ℤ}
use occamy.User.{stop}
use occamy.User.Session.{Call, Session, client_timeout}
use occamy.User.Dispatch.{
  Read, instruction, failure, status_timeout, abort, stop_user, handle_instruction, input_thread,
}

abbrev pub is_going : Session → Bool
is_going session = session.is_running && session.user.active

not_is_true : (b : Bool) → not b ≡ true → b ≡ false
not_is_true true h = absurd (ground (arith, h))
not_is_true false h = refl

not_is_false : (b : Bool) → not b ≡ false → b ≡ true
not_is_false true h = refl
not_is_false false h = absurd (ground (arith, h))

module _ (atoi : Base.Bytes → ℤ) (callback : Call → Session → ℤ × Session) where
  -- A loop that has returned: what is read later does not matter, and the user does not go on.
  abbrev pub Ends : List Read → List Read → Session → Type 0
  Ends reads more session =
      (input_thread atoi callback (reads ++ more) session
        ≡ input_thread atoi callback reads session)
      × (is_going (input_thread atoi callback reads session) ≡ false)

  stopped : (session : Session) → is_going (stop_user session) ≡ false
  unfolding stop
  stopped session = ground arith

  aborted :
      (status : ℕ) (session : Session)
      → is_going session ≡ true
      → is_going (abort status session) ≡ false
  unfolding abort stop
  aborted status session going =
      let active : session.user.active ≡ true = ground (arith, going) in rw active (ground arith)

  failed_lem :
      (status : ℕ) (reads : List Read) (session : Session)
      → is_going (input_thread atoi callback (failure status ∷ reads) session) ≡ false
  unfolding input_thread
  failed_lem status reads session =
      on_branches (λ s. is_going s ≡ false) (not (is_going session)) _ _
        (λ over. not_is_true (is_going session) over)
        (λ going.
          on_branches (λ s. is_going s ≡ false) (status == status_timeout) _ _
            (λ late. aborted client_timeout session (not_is_false (is_going session) going))
            (λ other. stopped session))

  -- Whatever instructions come before, a failure to read ends the loop: nothing that comes after it is
  -- handled, and the user is no longer active or its client no longer runs.
  pub input_thread-Ends :
      (reads more : List Read) (status : ℕ) (session : Session)
      → Ends (reads ++ (failure status ∷ [])) more session
  unfolding input_thread
  input_thread-Ends [] more status session = (refl, failed_lem status [] session)
  input_thread-Ends (failure status' ∷ reads) more status session =
      (refl, failed_lem status' (reads ++ (failure status ∷ [])) session)
  input_thread-Ends (instruction current opcode argv ∷ reads) more status session =
      let handled = handle_instruction atoi callback current opcode argv session in
      let (same, over) = input_thread-Ends reads more status handled.1 in
      elim (Bool-cases (not (is_going session))) [
        | inl idle ↦ rw idle (refl, not_is_true (is_going session) idle)
        | inr going ↦ elim (Bool-cases (ltb_ℤ handled.0 (pos 0))) [
          | inl failed ↦ rw (going, failed) (refl, stopped handled.1)
          | inr fine ↦ rw (going, fine) (same, over)
        ]
      ]
