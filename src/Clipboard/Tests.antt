-- ===== src/Clipboard/Tests.antt =====
-- The clipboard at concrete contents, and the theorems at them.
use occamy.Base.{◌≡◌, ◌++◌, refl, arith, take, codes, replicate, All}
use occamy.Clipboard.{Clipboard, alloc, append, blocks}
use occamy.Clipboard.Contents.{IsValid, contents, join, IsBlock, blocks_lem, append-contents}

-- Ten bytes, of which five hold a text.
abbrev held : Clipboard
held = append (alloc (replicate 10 0)) (codes "Hello")

held_text : contents held ≡ codes "Hello"
unfolding append alloc
held_text = refl

truncated : contents (append held (codes ", world")) ≡ codes "Hello, wor"
unfolding append alloc
truncated = refl

held-IsValid : IsValid held
unfolding append alloc
held-IsValid = record { buffer = refl; size = omega arith }

append-contents_example :
    IsValid (append held (codes ", world"))
    × (contents (append held (codes ", world"))
        ≡ take held.available (contents held ++ codes ", world"))
append-contents_example = append-contents held (codes ", world") held-IsValid

blocks_lem_example :
    (join (blocks 5 (codes "Hello") 5) ≡ codes "Hello") × All IsBlock (blocks 5 (codes "Hello") 5)
blocks_lem_example = blocks_lem 5 (codes "Hello") 5 (omega arith) (omega arith)
