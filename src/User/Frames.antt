-- ===== src/User/Frames.antt =====
-- guacamole/src/libguac/user-handlers.c: the lag of a user over a sequence of frames.
use occamy.Base.{
  ℕ, ◌+◌, ◌-◌, ◌^◌, ◌≤◌, ◌<◌, min, ◌≡◌, ◌∙◌, refl, arith, ap, if◌then◌else◌, false, List, [], ◌∷◌,
}
use occamy.Base.Int.{pos, ◌-ℤ◌, wrap_int, ltb_ℤ, equal_ℤ}
use occamy.User.Lag.{update_lag}
use occamy.User.Session.{Session}
use occamy.User.Timestamps.{wrap32_lem, sub_lem}

-- The timestamp of a frame that is confirmed, and the milliseconds from its sending to its confirmation.
abbrev pub Frame : Type 0
Frame = ℕ × ℕ

-- The confirmations of frames, one after the other.
abbrev pub run_frames : List Frame → Session → Session
run_frames [] session = session
run_frames (frame ∷ frames) session =
    run_frames frames (update_lag (pos (frame.0 + frame.1)) (pos frame.0) session)

-- No frame is older than the one before it, and each takes a positive time that an `int` holds.
abbrev pub AreFrames : ℕ → List Frame → Type 0
AreFrames t [] = Unit
AreFrames t (frame ∷ frames) =
    ((t ≤ frame.0) × ((0 < frame.1) × (frame.1 < 2 ^ 31))) × AreFrames frame.0 frames

-- What the user keeps behind a frame of the timestamp `t`: the shortest duration so far, and by how
-- much the last one was longer.
pub record HasLag (t shortest last : ℕ) (session : Session) : Type 0 where
  pub received : session.last_received_timestamp ≡ pos t
  pub baseline : session.last_frame_duration ≡ pos shortest
  pub lag : session.processing_lag ≡ pos (last - shortest)

abbrev pub shortest_of : ℕ → List Frame → ℕ
shortest_of d [] = d
shortest_of d (frame ∷ frames) = shortest_of (min d frame.1) frames

abbrev pub last_of : Frame → List Frame → Frame
last_of frame [] = frame
last_of frame (next ∷ frames) = last_of next frames

frame_lem : (t d : ℕ) → d < 2 ^ 31 → wrap_int 32 (pos (t + d) -ℤ pos t) ≡ pos d
frame_lem t d h =
    ap (wrap_int 32) (sub_lem (t + d) t (omega arith) ∙ ap pos (omega arith)) ∙ wrap32_lem d h

-- The difference of two durations, which is brought back to zero.
difference_lem :
    (d m : ℕ)
    → d < 2 ^ 31
    → m < 2 ^ 31
    → (let difference = wrap_int 32 (pos d -ℤ pos m) in
        if ltb_ℤ difference (pos 0) then pos 0 else difference)
      ≡ pos (d - m)
unfolding wrap_int ◌-ℤ◌
difference_lem d m h k = ground arith

baseline_lem : (d m : ℕ) → d < 2 ^ 31 → wrap_int 32 (pos d -ℤ pos (d - m)) ≡ pos (min m d)
baseline_lem d m h =
    ap (wrap_int 32) (sub_lem d (d - m) (omega arith) ∙ ap pos (omega arith))
    ∙ wrap32_lem (min m d) (omega arith)

update_lag-HasLag :
    (t d t0 m e : ℕ) (session : Session)
    → t0 ≤ t
    → d < 2 ^ 31
    → 0 < m
    → m < 2 ^ 31
    → HasLag t0 m e session
    → HasLag t (min m d) d (update_lag (pos (t + d)) (pos t) session)
unfolding update_lag
update_lag-HasLag t d t0 m e session order fits some_frame small h =
    let not_late : ltb_ℤ (pos t) (pos t0) ≡ false = ground arith in
    let rendered : equal_ℤ (pos m) (pos 0) ≡ false = ground arith in
    let shorter : pos (d - m) ≡ pos (d - min m d) = ap pos (omega arith) in
    rw
      (
        h.received,
        not_late,
        h.baseline,
        rendered,
        frame_lem t d fits,
        difference_lem d m fits small,
      )
      (record { received = refl; baseline = baseline_lem d m fits; lag = shorter })

first_frame :
    (t d : ℕ) (session : Session)
    → d < 2 ^ 31
    → ltb_ℤ (pos t) session.last_received_timestamp ≡ false
    → session.last_frame_duration ≡ pos 0
    → session.processing_lag ≡ pos 0
    → HasLag t d d (update_lag (pos (t + d)) (pos t) session)
unfolding update_lag
first_frame t d session fits not_late fresh none_yet =
    rw (not_late, fresh, frame_lem t d fits, none_yet)
      (record {
        received = refl;
        baseline =
            ap (wrap_int 32) (sub_lem d 0 (omega arith) ∙ ap pos (omega arith)) ∙ wrap32_lem d fits;
        lag = ap pos (omega arith);
      })

run_frames_from :
    (frames : List Frame) (t m e : ℕ) (session : Session)
    → 0 < m
    → m < 2 ^ 31
    → AreFrames t frames
    → HasLag t m e session
    → (let (t', e') = last_of (t, e) frames in
        HasLag t' (shortest_of m frames) e' (run_frames frames session))
run_frames_from [] t m e session some_frame small h k = k
run_frames_from ((t', d) ∷ frames) t m e session some_frame small h k =
    run_frames_from frames t' (min m d) d _ (omega (arith, h.0.1.0)) (omega arith) h.1
      (update_lag-HasLag t' d t m e session h.0.0 h.0.1.1 some_frame small k)

-- Over any sequence of frames from the first of a user on, none older than the one before it and each of
-- a positive time that an `int` holds, the timestamp that is kept is that of the last frame, the
-- baseline is the shortest duration of all, and the lag is by how much the last frame took longer.
pub run_frames-HasLag :
    (t d : ℕ) (frames : List Frame) (session : Session)
    → ltb_ℤ (pos t) session.last_received_timestamp ≡ false
    → session.last_frame_duration ≡ pos 0
    → session.processing_lag ≡ pos 0
    → 0 < d
    → d < 2 ^ 31
    → AreFrames t frames
    → (let (t', e) = last_of (t, d) frames in
        HasLag t' (shortest_of d frames) e (run_frames ((t, d) ∷ frames) session))
run_frames-HasLag t d frames session not_late fresh none_yet some_frame fits h =
    run_frames_from frames t d d _ some_frame fits h
      (first_frame t d session fits not_late fresh none_yet)
