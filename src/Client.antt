-- ===== src/Client.antt =====
-- guacamole/src/libguac/client.c: the layers, buffers and streams of a client. An index is the pattern
-- of an `int`, so that a buffer's negative index n is 2 ^ 32 + n.
pub mod Layers
pub mod Users
pub mod Links
pub mod Joined
pub mod Traversal
mod Tests
use occamy.Base.{
  ℕ, ◌+◌, ◌-◌, ◌*◌, ◌/◌, ◌%◌, ◌^◌, ◌==◌, if◌then◌else◌, Option, none, some, List, set, get_or,
  replicate,
}
use occamy.Pool
use occamy.Pool.{Pool, next_int, free_int}
use occamy.User.{Stream, new_stream}

-- The part of `guac_client` that hands out indices.
pub record Client : Type 0 where
  pub buffer_pool : Pool
  pub layer_pool : Pool
  pub stream_pool : Pool
  pub output_streams : List Stream

abbrev pub max_streams : ℕ
max_streams = 64

-- `guac_client_alloc`
unfoldable pub alloc : Client
alloc = record {
  buffer_pool = Pool.alloc 1024;
  layer_pool = Pool.alloc 1024;
  stream_pool = Pool.alloc 0;
  output_streams = replicate max_streams (new_stream none);
}

-- `guac_client_alloc_layer`, with the index of the layer.
unfoldable pub alloc_layer : Client → ℕ × Client
alloc_layer client =
    let (value, pool) = next_int client.layer_pool in
    ((value + 1) % 2 ^ 32, record client { layer_pool = pool })

-- `guac_client_alloc_buffer`: `-value - 1`.
unfoldable pub alloc_buffer : Client → ℕ × Client
alloc_buffer client =
    let (value, pool) = next_int client.buffer_pool in
    ((2 ^ 32 - value % 2 ^ 32 - 1) % 2 ^ 32, record client { buffer_pool = pool })

-- `guac_client_free_buffer`: `-index - 1`.
unfoldable pub free_buffer : Client → ℕ → Client
free_buffer client index = record client {
  buffer_pool = free_int client.buffer_pool ((2 ^ 32 - index % 2 ^ 32 - 1) % 2 ^ 32);
}

-- `guac_client_free_layer`
unfoldable pub free_layer : Client → ℕ → Client
free_layer client index = record client { layer_pool = free_int client.layer_pool index }

-- `guac_client_alloc_stream`
unfoldable pub alloc_stream : Client → Option ℕ × Client
alloc_stream client =
    let (stream_index, pool) = next_int client.stream_pool in
    if client.stream_pool.active == max_streams then (none, client) else (
      some stream_index,
      record client {
        stream_pool = pool;
        output_streams =
            set client.output_streams stream_index (new_stream (some (stream_index * 2 + 1)));
      },
    )

-- `(index - 1) / 2`, which is the pattern of -1 for -1.
abbrev pub half_below : Option ℕ → ℕ
half_below none = 0xffffffff
half_below (some index) = (index - 1) / 2

-- `guac_client_free_stream`, of the output stream at `at`.
unfoldable pub free_stream : Client → ℕ → Client
free_stream client at =
    let stream = get_or client.output_streams at (new_stream none) in
    record client {
      stream_pool = free_int client.stream_pool (half_below stream.index);
      output_streams = set client.output_streams at (record stream { index = none });
    }
