-- ===== src/Client/Layers.antt =====
-- The layers, buffers and streams of a client (guacamole/src/libguac/client.c) against those in use.
use occamy.Base.{
  ℕ, ◌+◌, ◌-◌, ◌*◌, ◌%◌, ◌^◌, ◌≤◌, ◌<◌, ◌≡◌, ◌∙◌, refl, arith, ap, sym, ◌==◌, on_branches, none,
  some, Option, List, [], ◌∷◌, length, set, get_or, take, drop, take-set_above, drop-set_above,
}
use mathlib.Core.Path.{subst}
use occamy.Pool.{next_int, free_int}
use occamy.Pool.Unique.{
  count, remove, count-append, count-remove, IsValid, next_int-IsValid, free_int-IsValid,
  next_int_bound,
}
use occamy.User.{Stream, new_stream}
use occamy.User.Slots.{IsOpen, used_below, used_index, next_int-IsOpen, free_int-IsOpen}
use occamy.Client.{
  Client, alloc_buffer, free_buffer, free_layer, alloc_stream, free_stream, max_streams, half_below,
}

-- The index of the buffer that has a value of the pool.
abbrev pub buffer_index : ℕ → ℕ
buffer_index value = 2 ^ 32 - 1 - value

-- As long as the values of the pool are those of an `int`, a new buffer has the negative index of a
-- value that was not in use, and then is; freeing the buffer of a value in use gives back that value.
pub buffers_lem :
    (client : Client) (used : List ℕ)
    → IsValid client.buffer_pool used
    → client.buffer_pool.min_size ≤ 2 ^ 31
    → client.buffer_pool.next_value < 2 ^ 31
    → (let (index, client') = alloc_buffer client in
        (value : ℕ) × (index ≡ buffer_index value)
        × (count value used ≡ 0)
        × IsValid client'.buffer_pool (value ∷ used))
      × ((value : ℕ)
          → 1 ≤ count value used
          → IsValid (free_buffer client (buffer_index value)).buffer_pool (remove value used))
unfolding alloc_buffer free_buffer
buffers_lem client used h least small =
    let (value, pool) = next_int client.buffer_pool in
    let handed = next_int-IsValid client.buffer_pool used h in
    let below =
      next_int_bound client.buffer_pool used h (2 ^ 31) least (omega arith)
        (omega (arith, h.total)) in
    (
      (value, omega (arith, below.0), handed.0, handed.1),
      λ v used_v.
          let lt : v < 2 ^ 31 = ground (arith, h.once v) in
          let e : (2 ^ 32 - buffer_index v % 2 ^ 32 - 1) % 2 ^ 32 ≡ v = omega arith in
          subst (λ k. IsValid (free_int client.buffer_pool k) (remove v used)) (sym e)
            (free_int-IsValid client.buffer_pool used h v used_v),
    )

-- The output streams in use are the open ones, and each has twice its number plus one as its index.
abbrev pub StreamsAreOpen : Client → List ℕ → Type 0
StreamsAreOpen client =
    IsOpen (λ (s : Stream). s.index) (λ i. i * 2 + 1) max_streams client.stream_pool
      client.output_streams

-- All entries but the one at `i` are the same in every field.
abbrev pub OthersKept : ℕ → List Stream → List Stream → Type 0
OthersKept i before after =
    (take i after ≡ take i before) × (drop (i + 1) after ≡ drop (i + 1) before)

set-OthersKept :
    (i : ℕ) (s : Stream) (streams : List Stream) → OthersKept i streams (set streams i s)
set-OthersKept i s streams =
    (take-set_above streams i i s (omega arith), drop-set_above streams (i + 1) i s (omega arith))

-- What an allocation of a stream does: it refuses, and changes nothing, or it opens one that was not
-- in use.
abbrev pub OpensOne : Client → List ℕ → Option ℕ × Client → Type 0
OpensOne client used (none, client') = (client' ≡ client) × (length used ≡ 64)
OpensOne client used (some i, client') =
    (i < 64)
    × (count i used ≡ 0)
    × StreamsAreOpen client' (i ∷ used)
    × OthersKept i client.output_streams client'.output_streams

-- What releasing a stream does: it closes the one and gives its number back.
abbrev pub ClosesOne : Client → List ℕ → ℕ → Client → Type 0
ClosesOne client used i client' =
    StreamsAreOpen client' (remove i used)
    × OthersKept i client.output_streams client'.output_streams

free_stream-StreamsAreOpen :
    (client : Client) (used : List ℕ)
    → StreamsAreOpen client used
    → (i : ℕ) → 1 ≤ count i used
    → StreamsAreOpen (free_stream client i) (remove i used)
unfolding free_stream
free_stream-StreamsAreOpen client used h i used_i =
    let s = get_or client.output_streams i (new_stream none) in
    let e : half_below s.index ≡ i =
      ap half_below (used_index _ _ i (new_stream none) h used_i) ∙ omega arith in
    subst
      (λ k.
        IsOpen (λ (s : Stream). s.index) (λ i. i * 2 + 1) max_streams
          (free_int client.stream_pool k) (set client.output_streams i (record s { index = none }))
          (remove i used))
      (sym e)
      (free_int-IsOpen _ _ _ client.stream_pool client.output_streams used h i _ refl
        (used_below _ _ i h used_i) used_i)

-- An allocation of a stream refuses, and changes nothing, only where all 64 streams are in use;
-- otherwise it opens a stream within the array that was not in use, of odd index. Releasing a stream
-- in use closes it and gives its number back. Both leave every other stream as it was, in all of its
-- fields.
pub client_streams_lem :
    (client : Client) (used : List ℕ)
    → StreamsAreOpen client used
    → OpensOne client used (alloc_stream client)
      × ((i : ℕ) → 1 ≤ count i used → ClosesOne client used i (free_stream client i))
unfolding alloc_stream free_stream
client_streams_lem client used h = (
  on_branches (OpensOne client used) (client.stream_pool.active == max_streams) _ _
      (λ full. (refl, ground (arith, h.valid.active)))
      (λ room.
        let (below, fresh, opened) =
          next_int-IsOpen _ _ _ client.stream_pool client.output_streams used h _ refl
            (ground (arith, h.valid.active, h.valid.total, h.below)) in
        (below, fresh, opened, set-OthersKept _ _ client.output_streams)),
  λ i used_i.
      (free_stream-StreamsAreOpen client used h i used_i, set-OthersKept i _ client.output_streams),
)

-- Freeing a layer in use always breaks the pool of layers: the pool takes back the layer's index,
-- which is the value that it handed out plus one, and so that value is lost.
pub free_layer_lem :
    (client : Client) (used : List ℕ) (value : ℕ)
    → IsValid client.layer_pool used
    → 1 ≤ count value used
    → ¬ IsValid (free_layer client (value + 1)).layer_pool (remove value used)
unfolding free_layer free_int
free_layer_lem client used value h used_value broken = ground (
  arith,
  h.once value,
  broken.once value,
  count-remove value value used used_value,
  count-append value client.layer_pool.free_ints ((value + 1) ∷ []),
)
