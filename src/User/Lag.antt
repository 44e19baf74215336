-- ===== src/User/Lag.antt =====
-- guacamole/src/libguac/user-handlers.c: the reading of a timestamp, and the lag of a user.
use occamy.Base.{
  ℕ, zero, suc, ◌+◌, ◌-◌, ◌*◌, ◌%◌, ◌/◌, ◌==◌, if◌then◌else◌, Bool, true, false, not, ◌&&◌, ◌||◌,
  Option, none, some, List, [], ◌∷◌, ◌++◌, get_or, set, codes, equal,
}
use occamy.Base
use occamy.Base.Int.{ℤ, pos, ltb_ℤ, equal_ℤ, ◌+ℤ◌, ◌-ℤ◌, ◌*ℤ◌, wrap_int, neg_ℤ}
use occamy.User.Session.{Session}

-- A `char`, which is signed.
abbrev pub char_value : ℕ → ℤ
char_value c = wrap_int 8 (pos c)

-- The loop of `__guac_parse_int`, over numbers of 64 bits that wrap around.
unfoldable pub parse_digits : Base.Bytes → Bool → ℤ → ℤ
parse_digits [] is_negative num = if is_negative then wrap_int 64 (neg_ℤ num) else num
parse_digits (c ∷ str) is_negative num =
    let flipped = parse_digits str (not is_negative) num in
    let longer =
      parse_digits str is_negative
        (wrap_int 64 (wrap_int 64 (num *ℤ pos 10) +ℤ (char_value c -ℤ pos b'0'))) in
    if c == b'-' then flipped else longer

-- `__guac_parse_int`
unfoldable pub parse_int : Base.Bytes → ℤ
parse_int str = parse_digits str false (pos 0)

-- The comparison of two timestamps by `guac_handle_sync`, behind its check for the future.
unfoldable pub update_lag : ℤ → ℤ → Session → Session
update_lag current timestamp session =
    let frame_duration = wrap_int 32 (current -ℤ timestamp) in
    let difference = wrap_int 32 (frame_duration -ℤ session.last_frame_duration) in
    let processing_lag =
      if equal_ℤ session.last_frame_duration (pos 0)
      then session.processing_lag
      else if ltb_ℤ difference (pos 0)
      then pos 0
      else difference in
    if ltb_ℤ timestamp session.last_received_timestamp then session else record session {
      last_received_timestamp = timestamp;
      processing_lag = processing_lag;
      last_frame_duration = wrap_int 32 (frame_duration -ℤ processing_lag);
    }
