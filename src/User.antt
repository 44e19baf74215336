-- ===== src/User.antt =====
-- guacamole/src/libguac/user.c: the streams and objects of a user. A pointer to an entry of one of the
-- user's arrays is the number of the entry, and NULL is `none`; the index -1 of an entry that is
-- not open is `none`. Handlers and data are pointers that are stored and never followed here.
pub mod Slots
pub mod Streams
pub mod Session
pub mod Lag
pub mod Inputs
pub mod Handlers
pub mod Dispatch
pub mod Effects
pub mod Keeping
pub mod Lifecycle
pub mod Opcodes
pub mod Loop
pub mod Timestamps
pub mod Frames
mod Tests
use occamy.Base.{
  ℕ, ◌+◌, ◌*◌, ◌/◌, ◌==◌, if◌then◌else◌, Bool, true, false, not, ◌||◌, Option, none, some, List,
  set, get_or, replicate,
}
use occamy.Base
use occamy.Base.{equal, codes}
use occamy.Base.Int.{ℤ, pos, negsuc, ltb_ℤ}
use occamy.Pool
use occamy.Pool.{Pool, next_int, free_int}

-- `guac_stream`; `payload` is its field `data`.
pub record Stream : Type 0 where
  pub index : Option ℕ
  pub payload : Option ℕ
  pub ack_handler : Option ℕ
  pub blob_handler : Option ℕ
  pub end_handler : Option ℕ

-- `guac_object`; `payload` is its field `data`.
pub record Object : Type 0 where
  pub index : Option ℕ
  pub payload : Option ℕ
  pub get_handler : Option ℕ
  pub put_handler : Option ℕ

abbrev pub max_streams : ℕ
max_streams = 64

abbrev pub max_objects : ℕ
max_objects = 64

-- A stream as it is initialized, and one as `malloc` left it but for its index.
abbrev pub new_stream : Option ℕ → Stream
new_stream index = record {
  index = index;
  payload = none;
  ack_handler = none;
  blob_handler = none;
  end_handler = none;
}

abbrev pub new_object : Option ℕ → Object
new_object index = record { index = index; payload = none; get_handler = none; put_handler = none }

-- The part of `guac_user` that holds streams and objects.
pub record User : Type 0 where
  pub active : Bool
  pub stream_pool : Pool
  pub output_streams : List Stream
  pub input_streams : List Stream
  pub object_pool : Pool
  pub objects : List Object

-- `guac_user_alloc`
unfoldable pub alloc : User
alloc = record {
  active = true;
  stream_pool = Pool.alloc 0;
  output_streams = replicate max_streams (new_stream none);
  input_streams = replicate max_streams (new_stream none);
  object_pool = Pool.alloc 0;
  objects = replicate max_objects (new_object none);
}

-- `guac_user_alloc_stream`
unfoldable pub alloc_stream : User → Option ℕ × User
alloc_stream user =
    let (stream_index, pool) = next_int user.stream_pool in
    if user.stream_pool.active == max_streams then (none, user) else (
      some stream_index,
      record user {
        stream_pool = pool;
        output_streams =
            set user.output_streams stream_index (new_stream (some (stream_index * 2)));
      },
    )

-- `index / 2`, which is 0 for -1.
abbrev pub half : Option ℕ → ℕ
half none = 0
half (some index) = index / 2

-- `guac_user_free_stream`, of the output stream at `at`.
unfoldable pub free_stream : User → ℕ → User
free_stream user at =
    let stream = get_or user.output_streams at (new_stream none) in
    record user {
      stream_pool = free_int user.stream_pool (half stream.index);
      output_streams = set user.output_streams at (record stream { index = none });
    }

-- `guac_user_alloc_object`
unfoldable pub alloc_object : User → Option ℕ × User
alloc_object user =
    let (object_index, pool) = next_int user.object_pool in
    if user.object_pool.active == max_objects then (none, user) else (
      some object_index,
      record user {
        object_pool = pool;
        objects = set user.objects object_index (new_object (some object_index));
      },
    )

-- The pattern of an index as an `int`.
abbrev pub index_bits : Option ℕ → ℕ
index_bits none = 0xffffffff
index_bits (some index) = index

-- `guac_user_free_object`, of the object at `at`.
unfoldable pub free_object : User → ℕ → User
free_object user at =
    let object = get_or user.objects at (new_object none) in
    record user {
      object_pool = free_int user.object_pool (index_bits object.index);
      objects = set user.objects at (record object { index = none });
    }

-- `guac_user_stop`
unfoldable pub stop : User → User
stop user = record user { active = false }

-- `guac_user_parse_args_boolean`, of the value at the given index of the arguments; its log
-- messages hold no state of this model.
unfoldable pub parse_args_boolean : List Base.Bytes → ℕ → ℕ → ℕ
parse_args_boolean argv index default_value =
    let value = get_or argv index (codes "") in
    if equal value (codes "")
    then default_value
    else if equal value (codes "true")
    then 1
    else if equal value (codes "false")
    then 0
    else default_value

-- `guac_user_parse_args_string`: a copy of the value, or of the default, which may be NULL.
unfoldable pub parse_args_string : List Base.Bytes → ℕ → Option Base.Bytes → Option Base.Bytes
parse_args_string argv index default_value =
    let value = get_or argv index (codes "") in
    if equal value (codes "") then default_value else some value

-- What `strtol` gives, base 10: the value, whether it sets `errno`, and the rest of the text.
pub record Parsed : Type 0 where
  pub value : ℤ
  pub failed : Bool
  pub rest : Base.Bytes

-- `guac_user_parse_args_int`, over `strtol` of the C library.
unfoldable pub parse_args_int : (Base.Bytes → Parsed) → List Base.Bytes → ℕ → ℤ → ℤ
parse_args_int strtol argv index default_value =
    let text = get_or argv index (codes "") in
    let parsed = strtol text in
    if equal text (codes "")
    then default_value
    else if (parsed.failed
          || (ltb_ℤ parsed.value (negsuc 0x7fffffff) || ltb_ℤ (pos 0x7fffffff) parsed.value))
        || not (equal parsed.rest (codes ""))
    then default_value
    else parsed.value
