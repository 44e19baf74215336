-- ===== src/Clipboard/Contents.antt =====
-- The contents of the clipboard (guacamole/src/common/clipboard.c), and the blocks they are sent in.
use occamy.Base.{
  ℕ, zero, suc, ◌+◌, ◌-◌, ◌≤◌, ◌<◌, ◌≡◌, ◌∙◌, refl, arith, ap, sym, ltb, if◌then◌else◌, List, [],
  ◌∷◌, ◌++◌, length, take, drop, All, min, length-append, length-take, length-drop,
  take-append-drop, take-length, take-append, take_all, on_branches,
}
use occamy.Base
use occamy.Clipboard.{Clipboard, append, blocks, max_block}

pub record IsValid (clipboard : Clipboard) : Type 0 where
  pub buffer : length clipboard.buffer ≡ clipboard.available
  pub size : clipboard.size ≤ clipboard.available

abbrev pub contents : Clipboard → Base.Bytes
contents clipboard = take clipboard.size clipboard.buffer

abbrev pub join : List Base.Bytes → Base.Bytes
join [] = []
join (block ∷ rest) = block ++ join rest

abbrev pub IsBlock : Base.Bytes → Type 0
IsBlock block = (1 ≤ length block) × (length block ≤ max_block)

take_nil : (n : ℕ) → take {A = ℕ} n [] ≡ []
take_nil zero = refl
take_nil (suc n) = refl

take-append_take :
    (n m : ℕ) (xs : Base.Bytes) → n ≤ m → take n xs ++ take (m - n) (drop n xs) ≡ take m xs
take-append_take zero m xs h = ap (λ k. take k xs) (omega arith)
take-append_take (suc n) zero xs h = absurd (omega arith)
take-append_take (suc n) (suc m) [] h = take_nil (suc m - suc n)
take-append_take (suc n) (suc m) (x ∷ xs) h =
    ap (λ k. x ∷ (take n xs ++ take k (drop n xs))) (omega arith)
    ∙ ap (◌∷◌ x) (take-append_take n m xs (omega arith))

abbrev AreBlocks : ℕ → Base.Bytes → ℕ → Type 0
AreBlocks fuel current remaining =
    (join (blocks fuel current remaining) ≡ take remaining current)
    × All IsBlock (blocks fuel current remaining)

-- One block, in front of the others.
first-IsBlock :
    (k fuel : ℕ) (current : Base.Bytes) (remaining : ℕ)
    → 1 ≤ k
    → k ≤ max_block
    → k ≤ remaining
    → remaining ≤ length current
    → AreBlocks fuel (drop k current) (remaining - k)
    → (take k current ++ join (blocks fuel (drop k current) (remaining - k))
        ≡ take remaining current)
      × All IsBlock (take k current ∷ blocks fuel (drop k current) (remaining - k))
first-IsBlock k fuel current remaining low high le fits rest = (
  ap (λ p. take k current ++ p) rest.0 ∙ take-append_take k remaining current le,
  ((omega (arith, length-take k current), omega (arith, length-take k current)), rest.1),
)

-- Where the buffer holds the bytes that remain, and there is as much fuel as bytes, they are sent in
-- blocks of 1 to 4096 bytes that are these bytes together.
pub blocks_lem :
    (fuel : ℕ) (current : Base.Bytes) (remaining : ℕ)
    → remaining ≤ fuel
    → remaining ≤ length current
    → (join (blocks fuel current remaining) ≡ take remaining current)
      × All IsBlock (blocks fuel current remaining)
unfolding blocks
blocks_lem fuel current zero h le = (refl, tt)
blocks_lem zero current (suc remaining) h le = absurd (omega arith)
blocks_lem (suc fuel) current (suc remaining) h le =
    let k = if ltb (suc remaining) max_block then suc remaining else max_block in
    let low : 1 ≤ k = ground arith in
    let high : k ≤ max_block = ground arith in
    let inside : k ≤ suc remaining = ground arith in
    first-IsBlock k fuel current (suc remaining) low high inside le (
      blocks_lem fuel (drop k current) (suc remaining - k) (omega arith)
        (omega (arith, length-drop k current)))

take_room :
    (r : ℕ) (text : Base.Bytes)
    → take (if ltb r (length text) then r else length text) text ≡ take r text
take_room r text =
    on_branches (λ k. take k text ≡ take r text) (ltb r (length text)) _ _ (λ _. refl)
      (λ room. take_all (length text) text (omega arith) ∙ sym (take_all r text (ground arith)))

-- Appending keeps the clipboard within its buffer, and its contents are then as much of the old ones
-- followed by the text as there is room for.
pub append-contents :
    (clipboard : Clipboard) (text : Base.Bytes)
    → IsValid clipboard
    → IsValid (append clipboard text)
      × (contents (append clipboard text) ≡ take clipboard.available (contents clipboard ++ text))
unfolding append
append-contents clipboard text h =
    let s = clipboard.size in
    let r = clipboard.available - s in
    let a = if ltb r (length text) then r else length text in
    let kept = take s clipboard.buffer in
    let rest = drop (s + a) clipboard.buffer in
    let low : a ≤ length text = ground arith in
    let high : a ≤ r = ground arith in
    let n : length kept ≡ s = omega (arith, length-take s clipboard.buffer, h.buffer, h.size) in
    let m : length (take a text) ≡ a = omega (arith, length-take a text) in
    (
      record {
        buffer = omega (
          arith,
          length-append kept (take a text ++ rest),
          length-append (take a text) rest,
          n,
          m,
          length-drop (s + a) clipboard.buffer,
          h.buffer,
          h.size,
        );
        size = omega (arith, h.size);
      },
      ap (λ k. take (k + a) (kept ++ (take a text ++ rest))) (sym n)
          ∙ take-append kept (take a text ++ rest) a
          ∙ ap (λ k. kept ++ take k (take a text ++ rest)) (sym m)
          ∙ ap (λ p. kept ++ p) (take-length (take a text) rest ∙ take_room r text)
          ∙ sym (take-append kept text r)
          ∙ ap (λ k. take k (kept ++ text)) (omega (arith, h.size)),
    )
