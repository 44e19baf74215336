-- ===== src/User/Lifecycle.antt =====
-- The life of the input streams of a user (guacamole/src/libguac/user-handlers.c and user.c), over the dispatch of
-- any instruction.
use occamy.Base.{
  ℕ, ◌+◌, ◌<◌, ◌≡◌, ◌≢◌, ◌∙◌, refl, sym, ap, arith, subst, if◌then◌else◌, on_branches, Bool, true,
  false, not, ◌&&◌, ◌||◌, Bool-cases, inl, inr, Option, none, some, List, [], ◌∷◌, length, get_or,
  set, codes, equal, equal→eq, ◌==◌,
}
use occamy.Base
use occamy.Base.Int.{ℤ, pos, equal_ℤ}
use occamy.User.Session.{Call, Session, call_end}
use occamy.User.Inputs.{
  argument, input_stream_at, first_of, is_set, check_open, get_open_input_stream, with_stream,
  init_input_stream,
}
use occamy.User.Handlers.{
  handle_clipboard, handle_file, handle_pipe, handle_end, handle_put, defined_object, end_at,
  put_to,
}
use occamy.User.Effects.{
  opens, closes, keeps, Effects, HasStreams, KeepsStreams, index_at, Effects-refl, keeps-Effects,
  get_input_stream-cases, set_input_stream-Effects, outside_lem, same_user-Effects, apply_closes_ne,
  equal_ne, equal_self, plain_lem, answer_lem, with_stream-Effects, init_input_stream-Effects,
}

unset_none : (o : Option ℕ) → is_set o ≡ false → o ≡ none
unset_none none h = refl
unset_none (some i) h = absurd (ground (arith, h))

module _ (atoi : Base.Bytes → ℤ) (callback : Call → Session → ℤ × Session) where
  module _ (keeps_streams : KeepsStreams callback) (s : Session) (size : HasStreams s) where
    -- A stream that is opened, and then handed to a handler or refused.
    pub opening_lem :
        (z : ℤ) (f : ℕ → Session → ℤ × Session)
        → ((i : ℕ) (s' : Session) → Effects keeps s' (f i s').1)
        → Effects (opens z) s (with_stream (init_input_stream callback s z) f).1
    opening_lem z f h =
        with_stream-Effects (opens z) s (init_input_stream callback s z) f
          (init_input_stream-Effects callback keeps_streams s z size) h

    pub clipboard_lem :
        (argv : List Base.Bytes)
        → Effects (opens (atoi (argument argv 0))) s (handle_clipboard atoi callback argv s).1
    unfolding handle_clipboard
    clipboard_lem argv =
        opening_lem (atoi (argument argv 0)) _
          (λ i s'. answer_lem callback keeps_streams s'.clipboard_handler _ s' _ refl)

    pub file_lem :
        (argv : List Base.Bytes)
        → Effects (opens (atoi (argument argv 0))) s (handle_file atoi callback argv s).1
    unfolding handle_file
    file_lem argv =
        opening_lem (atoi (argument argv 0)) _
          (λ i s'. answer_lem callback keeps_streams s'.file_handler _ s' _ refl)

    pub pipe_lem :
        (argv : List Base.Bytes)
        → Effects (opens (atoi (argument argv 0))) s (handle_pipe atoi callback argv s).1
    unfolding handle_pipe
    pipe_lem argv =
        opening_lem (atoi (argument argv 0)) _
          (λ i s'. answer_lem callback keeps_streams s'.pipe_handler _ s' _ refl)

    pub put_to_lem :
        (argv : List Base.Bytes) (object : Option ℕ)
        → Effects
            (if is_set object then opens (atoi (argument argv 1)) else keeps)
            s
            (with_stream (object, s) (put_to atoi callback argv)).1
    unfolding put_to
    put_to_lem argv none = Effects-refl s
    put_to_lem argv (some o) =
        opening_lem (atoi (argument argv 1)) _
          (λ i s'. answer_lem callback keeps_streams _ _ s' _ refl)

    pub put_lem :
        (argv : List Base.Bytes)
        → Effects
            (if is_set (defined_object atoi callback s (atoi (argument argv 0)))
              then opens (atoi (argument argv 1))
              else keeps)
            s
            (handle_put atoi callback argv s).1
    unfolding handle_put
    put_lem argv = put_to_lem argv (defined_object atoi callback s (atoi (argument argv 0)))

    -- The end of an open stream, and of one that is not open.
    pub end_at_lem : (i : ℕ) → i < 64 → Effects (closes (pos i)) s (end_at atoi callback i s).1
    unfolding end_at
    end_at_lem i lt =
        let ended =
          plain_lem callback keeps_streams s
            (first_of (input_stream_at s i).end_handler s.end_handler) (λ h. call_end h i) in
        keeps-Effects (closes (pos i)) s _ _ ended (
          set_input_stream-Effects (closes (pos i)) _ i _ (ended.size ∙ size) lt
            (rw (equal_self i) refl) (λ j was ne. apply_closes_ne (pos i) j was (equal_ne i j ne)))

    pub not_open_lem :
        (z : ℤ) (i : ℕ) (s' : Session)
        → z ≡ pos i
        → is_set (index_at s i) ≡ false
        → s'.user ≡ s.user
        → Effects (closes z) s s'
    not_open_lem z i s' e unset same =
        let kept = same_user-Effects s s' same in
        record {
          size = kept.size;
          index = λ j lt.
              kept.index j lt
              ∙ on_branches (λ r. index_at s j ≡ r) (equal_ℤ z (pos j)) none (index_at s j)
                  (λ here.
                    let at_i = subst (λ y. equal_ℤ y (pos j) ≡ true) e here in
                    subst (λ k. index_at s k ≡ none) (ground (arith, at_i)) (unset_none _ unset))
                  (λ there. refl);
        }

    pub end_lem :
        (argv : List Base.Bytes)
        → Effects (closes (atoi (argument argv 0))) s (handle_end atoi callback argv s).1
    unfolding handle_end get_open_input_stream
    end_lem argv =
        let z = atoi (argument argv 0) in
        get_input_stream-cases
          (λ r. Effects (closes z) s (with_stream (check_open z r) (end_at atoi callback)).1) s z
          (λ out s' same. outside_lem closes s s' z (apply_closes_ne z) out same)
          (λ i lt e.
            on_branches (λ r. Effects (closes z) s (with_stream r (end_at atoi callback)).1)
              (is_set (input_stream_at s i).index) _ _
              (λ _.
                subst (λ y. Effects (closes y) s (end_at atoi callback i s).1) (sym e)
                  (end_at_lem i lt))
              (λ unset. not_open_lem z i _ e unset refl))
