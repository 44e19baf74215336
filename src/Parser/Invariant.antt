-- ===== src/Parser/Invariant.antt =====
-- `guac_parser_append` stays within its data and its arrays, whatever bytes it is given.
use occamy.Base.{
  ℕ, zero, suc, ◌-◌, ◌≤◌, ◌<◌, ◌≡◌, ◌≢◌, refl, ◌∙◌, arith, ◌==◌, ltb, ◌&&◌, not, Bool, true, false,
  if◌then◌else◌, List, [], ◌∷◌, length, set, take, drop, length-set, length-take, length-drop,
  on_branches, tests, ◌+◌, ◌*◌, ◌%◌, ◌^◌,
}
use mathlib.Core.Path.{subst}
use occamy.Base
use occamy.Unicode.{charsize}
use occamy.Parser.Defs.{
  ParseState, length_state, content_state, complete_state, error_state, Parser, LengthEnd,
  exhausted, period, bad, ContentEnd, stopped, terminator, length_loop, content_loop, end_element,
  append_content, after_length, append_in, append, is_too_long, is_digit, is_nonnegative,
  is_complete, max_elements,
}

charsize-pos : (c : ℕ) → 1 ≤ charsize c
unfolding charsize
charsize-pos c = ground arith

-- The bytes that a loop has passed are bytes of its data.
abbrev LengthFits : ℕ → LengthEnd → Type 0
LengthFits all (exhausted left parsed) = parsed ≤ all
LengthFits all (period left parsed) = parsed ≤ all
LengthFits all bad = Unit

length_loop-fits :
    (window : Base.Bytes) (v n : ℕ) → LengthFits (n + length window) (length_loop window v n)
unfolding length_loop
length_loop-fits [] v n = omega arith
length_loop-fits (c ∷ window) v n =
    let next = (v * 10 + c - b'0') % 2 ^ 32 in
    let more : n + 1 + length window ≡ n + suc (length window) = omega arith in
    on_branches (LengthFits (n + suc (length window))) (is_digit c) _ _
      (λ _.
        subst (λ all. LengthFits all (length_loop window next (n + 1))) more
          (length_loop-fits window next (n + 1)))
      (λ _.
        on_branches (LengthFits (n + suc (length window))) (c == b'.') _ _ (λ _. omega arith)
          (λ _. tt))

abbrev ContentFits : ℕ → ContentEnd → Type 0
ContentFits all (stopped left parsed) = parsed ≤ all
ContentFits all (terminator c parsed) = parsed + charsize c ≤ all

content_loop-fits :
    (fuel : ℕ) (window : Base.Bytes) (left n : ℕ)
    → ContentFits (n + length window) (content_loop fuel window left n)
unfolding content_loop
content_loop-fits fuel [] left n = omega arith
content_loop-fits zero (c ∷ window) left n = omega arith
content_loop-fits (suc fuel) (c ∷ window) left n =
    let all = n + suc (length window) in
    on_branches (ContentFits all) (not (is_nonnegative left)) _ _ (λ _. omega arith)
      (λ _.
        on_branches (ContentFits all) (ltb (suc (length window)) (charsize c)) _ _
          (λ _. omega arith)
          (λ short.
            on_branches (ContentFits all) (left == 0) _ _ (λ _. omega (tests, short))
              (λ _.
                subst
                  (λ a. ContentFits a (
                    content_loop fuel (drop (charsize c) (c ∷ window)) (left - 1) (n + charsize c)))
                  (omega (tests, length-drop (charsize c) (c ∷ window), charsize-pos c, short))
                  (content_loop-fits fuel (drop (charsize c) (c ∷ window)) (left - 1)
                    (n + charsize c)))))

-- The arrays have their sizes, the elements fit, and there is one where content is awaited.
pub record IsValid (p : Parser) : Type 0 where
  pub array : length p.elementv ≡ max_elements
  pub count : p.elementc ≤ max_elements
  pub some_element : p.state ≡ content_state → 1 ≤ p.elementc

-- What every branch of `append` keeps, of a parser and a number of bytes parsed.
record Keeps (p : Parser) (all : ℕ) (result : Parser × ℕ) : Type 0 where
  valid : IsValid result.0
  parsed_within : result.1 ≤ all
  size_kept : length result.0.buf ≡ length p.buf
  places : (result.0.unparsed_start ≡ p.unparsed_start) × (result.0.unparsed_end ≡ p.unparsed_end)

end_element-Keeps :
    (p : Parser) (at c parsed all : ℕ)
    → IsValid p
    → p.state ≡ content_state
    → parsed + charsize c ≤ all
    → Keeps p all (end_element p at c parsed)
unfolding end_element
end_element-Keeps p at c parsed all v s h = ground (arith, length-set p.buf at 0, v.some_element s)

content_end-Keeps :
    (p : Parser) (start all : ℕ) (e : ContentEnd)
    → IsValid p
    → p.state ≡ content_state
    → ContentFits all e
    → Keeps p all (elim e [
      | stopped left parsed ↦ (record p { element_length = left }, parsed)
      | terminator c parsed ↦ end_element p (start + parsed) c parsed
    ])
content_end-Keeps p start all (stopped left parsed) v s h = record {
  valid = record { array = v.array; count = v.count; some_element = v.some_element };
  parsed_within = h;
  size_kept = refl;
  places = (refl, refl);
}
content_end-Keeps p start all (terminator c parsed) v s h =
    end_element-Keeps p (start + parsed) c parsed all v s h

length_end-Keeps :
    (p : Parser) (start : ℕ) (window : Base.Bytes) (e : LengthEnd)
    → IsValid p
    → p.state ≡ length_state
    → p.elementc < max_elements
    → LengthFits (length window) e
    → Keeps p (length window) (after_length p start window e)
unfolding after_length append_content
length_end-Keeps p start window (exhausted left parsed) v s room h = ground (arith, s)
length_end-Keeps p start window (period left parsed) v s room h =
    on_branches (Keeps p (length window)) (is_too_long left) _ _
      (λ _. ground (arith, length-set p.elementv p.elementc (start + parsed)))
      (λ _.
        let q : Parser = record p {
          elementv = set p.elementv p.elementc (start + parsed);
          elementc = p.elementc + 1;
          state = content_state;
          element_length = left;
        } in
        let k =
          content_end-Keeps q start (length window)
            (content_loop (length (drop parsed window)) (drop parsed window) left parsed)
            (record {
              array = length-set p.elementv p.elementc (start + parsed) ∙ v.array;
              count = omega arith;
              some_element = λ _. omega arith;
            })
            refl
            (subst
              (λ all.
                ContentFits all
                  (content_loop (length (drop parsed window)) (drop parsed window) left parsed))
              (omega (arith, length-drop parsed window))
              (content_loop-fits (length (drop parsed window)) (drop parsed window) left parsed)) in
        record {
          valid = k.valid;
          parsed_within = k.parsed_within;
          size_kept = k.size_kept;
          places = k.places;
        })
length_end-Keeps p start window bad v s room h = ground (arith, s)

append_in-Keeps :
    (s : ParseState) (p : Parser) (start : ℕ) (window : Base.Bytes)
    → p.state ≡ s
    → IsValid p
    → (is_complete s ≡ false → p.elementc < max_elements)
    → Keeps p (length window) (append_in s p start window)
unfolding append_in append_content
append_in-Keeps length_state p start window e v room =
    length_end-Keeps p start window (length_loop window p.element_length 0) v e (room refl) (
      subst (λ all. LengthFits all (length_loop window p.element_length 0)) (omega arith)
        (length_loop-fits window p.element_length 0))
append_in-Keeps content_state p start window e v room =
    content_end-Keeps p start (length window)
      (content_loop (length window) window p.element_length 0) v e
      (subst (λ all. ContentFits all (content_loop (length window) window p.element_length 0))
        (omega arith) (content_loop-fits (length window) window p.element_length 0))
append_in-Keeps complete_state p start window e v room = record {
  valid = v;
  parsed_within = omega arith;
  size_kept = refl;
  places = (refl, refl);
}
append_in-Keeps error_state p start window e v room = record {
  valid = v;
  parsed_within = omega arith;
  size_kept = refl;
  places = (refl, refl);
}

-- Whatever bytes it is given, `guac_parser_append` keeps the number of elements within the array
-- of pointers and leaves the buffer's size as it is. It never parses more bytes than there are, and
-- an element awaits content only where one has been counted, so that the number of arguments is
-- never negative.
pub append-IsValid :
    (p : Parser) (start count : ℕ)
    → IsValid p
    → let (q, parsed) = append p start count in
      IsValid q × (parsed ≤ count) × (length q.buf ≡ length p.buf)
unfolding append
append-IsValid p start count v =
    let window = take count (drop start p.buf) in
    let bound = length-take count (drop start p.buf) in
    on_branches (λ (r : Parser × ℕ). IsValid r.0 × (r.1 ≤ count) × (length r.0.buf ≡ length p.buf))
      (p.elementc == max_elements && not (is_complete p.state)) _ _
      (λ full.
        (record { array = v.array; count = v.count; some_element = λ e. cc }, omega arith, refl))
      (λ below.
        let k = append_in-Keeps p.state p start window refl v (λ going. ground arith) in
        (k.valid, omega (arith, k.parsed_within, bound), k.size_kept))
