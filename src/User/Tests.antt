-- ===== src/User/Tests.antt =====
-- A user's streams at concrete states, and the theorem at one of them.
use occamy.Base.{
  ◌≡◌, refl, arith, true, false, Option, some, none, List, [], ◌∷◌, ◌++◌, codes, equal,
  length-replicate,
}
use occamy.Base
use occamy.Base.Decimal.{decimal_int}
use occamy.Base.Int.{ℤ, pos, negsuc}
use occamy.User.Session.{Call, Session}
use occamy.User.Dispatch.{instruction, failure, handle_instruction}
use occamy.User.Effects.{Effects, KeepsStreams, HasStreams, opens, same_user-Effects}
use occamy.User.Opcodes.{effect_of, handle_instruction-Effects}
use occamy.User.Loop.{Ends, input_thread-Ends}
use occamy.User.Lag.{parse_int}
use occamy.User.Timestamps.{parse_int-decimal_int}
use occamy.User.Frames.{HasLag, run_frames, run_frames-HasLag}
use occamy.Pool
use occamy.Pool.{next_int, next_of, free_int}
use occamy.User.{
  new_stream, User, alloc, alloc_stream, free_stream, alloc_object, parse_args_boolean,
}
use occamy.User.Streams.{
  StreamsAreOpen, ObjectsAreOpen, start, stream_opened, stream_closed, object_opened,
  Reachable-AreOpen,
}

-- One stream opened, closed and opened again, and an object.
abbrev opened : User
opened = (alloc_stream alloc).1

abbrev closed : User
closed = free_stream opened 0

abbrev with_object : User
with_object = (alloc_object closed).1

open_first : alloc_stream alloc ≡ (some 0, opened)
unfolding alloc_stream alloc next_int next_of Pool.alloc
open_first = refl

object_first : alloc_object closed ≡ (some 0, with_object)
unfolding alloc_stream alloc_object alloc free_stream next_int next_of free_int Pool.alloc
object_first = refl

parse_true : parse_args_boolean (codes "x" ∷ codes "true" ∷ []) 1 0 ≡ 1
unfolding parse_args_boolean equal
parse_true = refl

Reachable-AreOpen_example : StreamsAreOpen with_object [] × ObjectsAreOpen with_object (0 ∷ [])
Reachable-AreOpen_example = Reachable-AreOpen (
    object_opened closed with_object 0 [] []
      (stream_closed opened 0 (0 ∷ []) [] (stream_opened alloc opened 0 [] [] start open_first)
        (omega arith))
      object_first)

-- A user with a handler of blobs and one of files.
abbrev session : Session
session = record {
  user = alloc;
  sync_handler = none;
  mouse_handler = none;
  key_handler = none;
  clipboard_handler = none;
  size_handler = none;
  file_handler = some 6;
  pipe_handler = none;
  ack_handler = none;
  blob_handler = some 9;
  end_handler = none;
  get_handler = none;
  put_handler = none;
  last_received_timestamp = pos 1000;
  last_frame_duration = pos 0;
  processing_lag = pos 0;
  last_sent_timestamp = pos 5000;
  is_running = true;
  sent = [];
}

-- Handlers that take away the handler of the mouse, and a reading of texts by their first digit.
abbrev answer : Call → Session → ℤ × Session
answer call session = (pos 0, record session { mouse_handler = none })

abbrev first_digit : Base.Bytes → ℤ
first_digit (c ∷ _) = pos (Base.◌-◌ c b'0')
first_digit [] = pos 0

answer-KeepsStreams : KeepsStreams answer
answer-KeepsStreams c s = same_user-Effects s (answer c s).1 refl

session-HasStreams : HasStreams session
unfolding alloc
session-HasStreams = length-replicate 64 (new_stream none)

abbrev file_arguments : List Base.Bytes
file_arguments = codes "3" ∷ codes "text/plain" ∷ codes "notes" ∷ []

handle_instruction-Effects_example :
    Effects
      (effect_of first_digit answer (codes "file") file_arguments session)
      session
      (handle_instruction first_digit answer (pos 2000) (codes "file") file_arguments session).1
handle_instruction-Effects_example =
    handle_instruction-Effects first_digit answer answer-KeepsStreams (pos 2000) (codes "file")
      file_arguments session session-HasStreams

file_opens : effect_of first_digit answer (codes "file") file_arguments session ≡ opens (pos 3)
unfolding equal
file_opens = refl

input_thread-Ends_example :
    Ends first_digit answer
      ((instruction (pos 2000) (codes "file") file_arguments ∷ []) ++ (failure 2 ∷ []))
      (instruction (pos 2001) (codes "disconnect") [] ∷ [])
      session
input_thread-Ends_example =
    input_thread-Ends first_digit answer (instruction (pos 2000) (codes "file") file_arguments ∷ [])
      (instruction (pos 2001) (codes "disconnect") [] ∷ []) 2 session

parse_int-decimal_int_example : parse_int (decimal_int (negsuc 1699)) ≡ negsuc 1699
parse_int-decimal_int_example = parse_int-decimal_int (negsuc 1699) (omega arith)

-- Frames that take 40, 25 and 60 milliseconds.
run_frames-HasLag_example :
    HasLag 1200 25 60 (run_frames ((1100, 40) ∷ (1150, 25) ∷ (1200, 60) ∷ []) session)
run_frames-HasLag_example =
    run_frames-HasLag 1100 40 ((1150, 25) ∷ (1200, 60) ∷ []) session refl refl refl (omega arith)
      (omega arith)
      ((omega arith, (omega arith, omega arith)), ((omega arith, (omega arith, omega arith)), tt))
