-- ===== src/Parser/Element.antt =====
-- One element of an instruction, all of it available: the length prefix, the content and the
-- terminator behind it.
use occamy.Base.{
  ℕ, zero, suc, ◌+◌, ◌-◌, ◌*◌, ◌%◌, ◌^◌, ◌≤◌, ◌<◌, ◌≡◌, ◌≢◌, refl, sym, ap, ◌∙◌, arith, ◌==◌, leb,
  ltb, Bool, true, false, not, ◌&&◌, if◌then◌else◌, List, [], ◌∷◌, ◌++◌, length, set, take, drop,
  All, append_assoc, length-append, drop-length,
}
use mathlib.Core.Path.{ap₂}
use occamy.Base
use occamy.Base.Decimal.{decimal, decimal-AreDigits, value_of, value_of-decimal, IsDigit}
use occamy.Unicode.{charsize}
use occamy.Unicode.Count.{IsChar, join, charsize_whole, utf8_strlen-join}
use occamy.Unicode.{utf8_strlen}
use occamy.Protocol.Wire.{element}
use occamy.Parser.Defs.{
  Parser, length_state, content_state, period, terminator, length_loop, stopped, is_nonnegative,
  is_too_long, content_loop, end_element, append_content, after_length, append_in, max_length,
}

value_of-mod :
    (digits : Base.Bytes) (x y : ℕ)
    → x % 2 ^ 32 ≡ y % 2 ^ 32
    → value_of x digits % 2 ^ 32 ≡ value_of y digits % 2 ^ 32
value_of-mod [] x y e = e
value_of-mod (c ∷ digits) x y e =
    value_of-mod digits (x * 10 + (c - 48)) (y * 10 + (c - 48)) (omega arith)

-- The same for a model whose sum wraps around; C leaves the overflow of an `int` undefined.
length_loop-digits :
    (digits rest : Base.Bytes) (v n : ℕ)
    → All IsDigit digits
    → v < 2 ^ 32
    → length_loop (digits ++ (b'.' ∷ rest)) v n
      ≡ period (value_of v digits % 2 ^ 32) (n + length digits + 1)
unfolding length_loop
length_loop-digits [] rest v n h lt = ground arith
length_loop-digits (c ∷ digits) rest v n h lt =
    let next = (v * 10 + c - 48) % 2 ^ 32 in
    ground (
      arith,
      length_loop-digits digits rest next (n + 1) h.1 (omega arith),
      value_of-mod digits next (v * 10 + (c - 48)) (omega arith),
    )

value_of_grows : (digits : Base.Bytes) (v : ℕ) → v ≤ value_of v digits
value_of_grows [] v = omega arith
value_of_grows (c ∷ digits) v = omega (arith, value_of_grows digits (v * 10 + (c - 48)))

-- A run of digits and a period is read as its decimal value, by the number of bytes read, whatever
-- the number of digits: for a value below 2 ^ 31, with which the sum of the code never overflows.
pub length_loop-value :
    (digits rest : Base.Bytes) (v n : ℕ)
    → All IsDigit digits
    → value_of v digits < 2 ^ 31
    → length_loop (digits ++ (b'.' ∷ rest)) v n ≡ period (value_of v digits) (n + length digits + 1)
length_loop-value digits rest v n h lt =
    length_loop-digits digits rest v n h (omega (arith, value_of_grows digits v))
    ∙ ap (λ k. period k (n + length digits + 1)) (omega arith)

-- A whole character inside an element is passed.
content_loop-char :
    (fuel c : ℕ) (trailing rest : Base.Bytes) (left n : ℕ)
    → suc (length trailing) ≡ charsize c
    → suc left < 2 ^ 31
    → content_loop (suc fuel) (c ∷ (trailing ++ rest)) (suc left) n
      ≡ content_loop fuel rest left (n + suc (length trailing))
unfolding content_loop
content_loop-char fuel c trailing rest left n size h = rw (← size) (
    pass (drop (length trailing) (trailing ++ rest)) (length (trailing ++ rest))
      (drop-length trailing rest) (length-append trailing rest))
  where
    pass :
        (window : Base.Bytes) (all : ℕ)
        → window ≡ rest
        → all ≡ length trailing + length rest
        → (if not (is_nonnegative (suc left))
            then stopped (suc left) n
            else if ltb (suc all) (suc (length trailing))
            then stopped (suc left) n
            else if suc left == 0
            then terminator c n
            else content_loop fuel window (suc left - 1) (n + suc (length trailing)))
          ≡ content_loop fuel rest left (n + suc (length trailing))
    pass window all e l = rw e (ground arith)

module _ (t : ℕ) (rest : Base.Bytes) (one : charsize t ≡ 1) where
  -- The loop over the content runs up to the terminator.
  content_loop-join :
      (fuel : ℕ) (text : List Base.Bytes) (n : ℕ)
      → All IsChar text
      → length text < 2 ^ 31
      → length (join text ++ (t ∷ rest)) ≤ fuel
      → content_loop fuel (join text ++ (t ∷ rest)) (length text) n
        ≡ terminator t (n + length (join text))
  unfolding content_loop
  content_loop-join zero [] n h lt enough = absurd (omega arith)
  content_loop-join (suc fuel) [] n h lt enough = ground (arith, one)
  content_loop-join fuel ([] ∷ text) n h lt enough = elim h.0 [ ]
  content_loop-join zero ((c ∷ trailing) ∷ text) n h lt enough = absurd (omega arith)
  content_loop-join (suc fuel) ((c ∷ trailing) ∷ text) n h lt enough =
      rw (append_assoc trailing (join text) (t ∷ rest)) (
        content_loop-char fuel c trailing (join text ++ (t ∷ rest)) (length text) n
          (charsize_whole c trailing h.0) lt
        ∙ content_loop-join fuel text (n + suc (length trailing)) h.1 (omega arith) (
            omega (
              arith,
              length-append (trailing ++ join text) (t ∷ rest),
              length-append trailing (join text),
              length-append (join text) (t ∷ rest),
            ))
        ∙ ap (terminator t) (omega (arith, length-append trailing (join text))))

-- The parser once it has read a length prefix that ends just before `at`.
abbrev pub opened : Parser → ℕ → ℕ → Parser
opened p at size = record p {
  elementv = set p.elementv p.elementc at;
  elementc = p.elementc + 1;
  state = content_state;
  element_length = size;
}

not_too_long : (n : ℕ) → n ≤ max_length → is_too_long n ≡ false
not_too_long n h = ground arith

-- The parts of `append` put together, over a window whose two loops end as given.
append_in-parts :
    (p : Parser) (start t d size : ℕ) (window content : Base.Bytes) (left : ℕ)
    → p.element_length ≡ 0
    → length_loop window 0 0 ≡ period left (d + 1)
    → left ≤ max_length
    → drop (d + 1) window ≡ content
    → content_loop (length content) content left (d + 1) ≡ terminator t size
    → append_in length_state p start window
      ≡ end_element (opened p (start + (d + 1)) left) (start + size) t size
unfolding append_in after_length append_content
append_in-parts p start t d size window content left fresh prefix fits behind body =
    rw (fresh, prefix, after_length)
      (rw (not_too_long left fits) (rw behind (rw (body, append_content))))

pub drop-digits :
    (digits rest : Base.Bytes) (c : ℕ) → drop (length digits + 1) (digits ++ (c ∷ rest)) ≡ rest
drop-digits digits rest c =
    ap (λ d. drop d (digits ++ (c ∷ rest))) e
    ∙ ap (drop (length (digits ++ (c ∷ [])))) (sym (append_assoc digits (c ∷ []) rest))
    ∙ drop-length (digits ++ (c ∷ [])) rest
  where
    e : length digits + 1 ≡ length (digits ++ (c ∷ []))
    e = omega (arith, length-append digits (c ∷ []))

-- Where the whole of an element and the byte behind it are available, the length prefix is read, a
-- pointer to the content is stored, the content is passed, and the byte behind it is handled as
-- the terminator.
pub append_in-element :
    (p : Parser) (start t : ℕ) (text : List Base.Bytes) (rest : Base.Bytes)
    → charsize t ≡ 1
    → All IsChar text
    → length text ≤ max_length
    → p.element_length ≡ 0
    → append_in length_state p start (element (join text) ++ (t ∷ rest))
      ≡ end_element
          (opened p (start + (length (decimal (length text)) + 1)) (length text))
          (start + length (element (join text)))
          t
          (length (element (join text)))
unfolding append_in after_length append_content
append_in-element p start t text rest one chars fits fresh =
    let digits = decimal (length text) in
    let content = join text ++ (t ∷ rest) in
    let count : utf8_strlen (join text) ≡ length text = utf8_strlen-join text chars in
    let window : element (join text) ++ (t ∷ rest) ≡ digits ++ (b'.' ∷ content) =
      rw count (append_assoc digits (b'.' ∷ join text) (t ∷ rest)) in
    let value : value_of 0 digits ≡ length text = value_of-decimal (length text) in
    let prefix : length_loop (digits ++ (b'.' ∷ content)) 0 0
        ≡ period (length text) (length digits + 1) =
      length_loop-value digits content 0 0 (decimal-AreDigits _) (omega arith)
      ∙ ap₂ period value (omega arith) in
    let size : length digits + 1 + length (join text) ≡ length (element (join text)) =
      rw count (omega (arith, length-append digits (b'.' ∷ join text))) in
    let body =
      content_loop-join t rest one (length content) text (length digits + 1) chars (omega arith)
        (omega arith)
      ∙ ap (terminator t) size in
    rw window (
      append_in-parts p start t (length digits) (length (element (join text))) _ content
        (length text) fresh prefix fits (drop-digits digits content b'.') body)
