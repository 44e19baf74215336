-- ===== src/User/Keeping.antt =====
-- The life of the input streams of a user (guacamole/src/libguac/user-handlers.c and user.c), which the other
-- instructions keep.
use occamy.Base.{
  ℕ, ◌+◌, ◌<◌, ◌≡◌, ◌≢◌, ◌∙◌, refl, sym, ap, arith, subst, if◌then◌else◌, on_branches, Bool, true,
  false, not, ◌&&◌, ◌||◌, Bool-cases, inl, inr, Option, none, some, List, [], ◌∷◌, length, get_or,
  set, codes, equal, equal→eq, ◌==◌,
}
use occamy.Base
use occamy.Base.Int.{ℤ, pos, pos_part, ltb_ℤ, leb_ℤ, equal_ℤ, div_ℤ, ◌*ℤ◌}
use occamy.User.{new_stream, stop}
use occamy.User.Session.{Call, Session}
use occamy.User.Lag.{update_lag, parse_int}
use occamy.User.Inputs.{
  argument, input_stream_at, first_of, is_set, get_input_stream, check_open, get_open_input_stream,
}
use occamy.User.Handlers.{
  handle_sync, handle_mouse, handle_key, handle_disconnect, handle_size, handle_ack, handle_blob,
  handle_get, defined_object,
}
use occamy.User.Effects.{
  keeps, Effects, KeepsStreams, Effects-refl, get_input_stream-cases, same_user-Effects,
  call_or-Effects, plain_lem, answer_lem, with_stream-Effects,
}

module _ (atoi : Base.Bytes → ℤ) (callback : Call → Session → ℤ × Session) where
  module _ (keeps_streams : KeepsStreams callback) (s : Session) where
    pub mouse_lem : (argv : List Base.Bytes) → Effects keeps s (handle_mouse atoi callback argv s).1
    unfolding handle_mouse
    mouse_lem argv = plain_lem callback keeps_streams s s.mouse_handler _

    pub key_lem : (argv : List Base.Bytes) → Effects keeps s (handle_key atoi callback argv s).1
    unfolding handle_key
    key_lem argv = plain_lem callback keeps_streams s s.key_handler _

    pub size_lem : (argv : List Base.Bytes) → Effects keeps s (handle_size atoi callback argv s).1
    unfolding handle_size
    size_lem argv = plain_lem callback keeps_streams s s.size_handler _

    pub update_lag-Effects :
        (current timestamp : ℤ) → Effects keeps s (update_lag current timestamp s)
    unfolding update_lag
    update_lag-Effects current timestamp =
        on_branches (Effects keeps s) (ltb_ℤ timestamp s.last_received_timestamp) _ _
          (λ _. Effects-refl s) (λ _. same_user-Effects s _ refl)

    pub sync_lem :
        (current : ℤ) (argv : List Base.Bytes)
        → Effects keeps s (handle_sync atoi callback current argv s).1
    unfolding handle_sync
    sync_lem current argv =
        let timestamp = parse_int (argument argv 0) in
        let kept = update_lag-Effects current timestamp in
        on_branches (λ (r : ℤ × Session). Effects keeps s r.1)
          (ltb_ℤ s.last_sent_timestamp timestamp) _ _ (λ _. Effects-refl s)
          (λ _. call_or-Effects callback keeps_streams _ _ _ s _ kept kept)

    pub ack_lem : (argv : List Base.Bytes) → Effects keeps s (handle_ack atoi callback argv s).1
    unfolding handle_ack
    ack_lem argv =
        let index = atoi (argument argv 0) in
        let at = div_ℤ index 2 in
        let stream = get_or s.user.output_streams (pos_part at) (new_stream none) in
        on_branches (λ (r : ℤ × Session). Effects keeps s r.1)
          (not (equal_ℤ (div_ℤ index 2 *ℤ pos 2) index)) _ _ (λ _. Effects-refl s)
          (λ _.
            on_branches (λ (r : ℤ × Session). Effects keeps s r.1)
              (ltb_ℤ at (pos 0) || leb_ℤ (pos 64) at) _ _ (λ _. Effects-refl s)
              (λ _.
                on_branches (λ (r : ℤ × Session). Effects keeps s r.1) (not (is_set stream.index)) _
                  _ (λ _. Effects-refl s)
                  (λ _.
                    plain_lem callback keeps_streams s (first_of stream.ack_handler s.ack_handler)
                      _)))

    pub blob_lem : (argv : List Base.Bytes) → Effects keeps s (handle_blob atoi callback argv s).1
    unfolding handle_blob get_open_input_stream
    blob_lem argv =
        let z = atoi (argument argv 0) in
        with_stream-Effects keeps s (check_open z (get_input_stream s z)) _
          (get_input_stream-cases (λ r. Effects keeps s (check_open z r).1) s z
            (λ out s' same. same_user-Effects s s' same)
            (λ i lt e.
              on_branches (λ (r : Option ℕ × Session). Effects keeps s r.1)
                (is_set (input_stream_at s i).index) _ _ (λ _. Effects-refl s)
                (λ _. same_user-Effects s _ refl)))
          (λ i s'. answer_lem callback keeps_streams _ _ s' _ refl)

    pub get_lem : (argv : List Base.Bytes) → Effects keeps s (handle_get atoi callback argv s).1
    unfolding handle_get
    get_lem argv =
        with_stream-Effects keeps s (defined_object atoi callback s (atoi (argument argv 0)), s) _
          (Effects-refl s) (λ i s'. answer_lem callback keeps_streams _ _ s' s' refl)

    pub disconnect_lem :
        (argv : List Base.Bytes) → Effects keeps s (handle_disconnect atoi callback argv s).1
    unfolding handle_disconnect stop
    disconnect_lem argv = record { size = refl; index = λ j lt. refl }
