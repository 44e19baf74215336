-- ===== src/Parser/Instruction.antt =====
-- A whole instruction in the buffer: `guac_parser_read` returns with it parsed.
use occamy.Base.{
  ℕ, zero, suc, ◌+◌, ◌-◌, ◌≤◌, ◌<◌, ◌≡◌, refl, sym, ap, ◌∙◌, arith, ◌==◌, ◌&&◌, ◌||◌, not, Bool,
  true, false, if◌then◌else◌, none, some, List, [], ◌∷◌, ◌++◌, map, length, set, take, drop, get_or,
  All, append_assoc, length-append, length-set, take-append, drop-append, drop-drop, drop-set,
  drop-set_above, set-append, take-set_next, take-length, append-nil,
}
use native.Mathlib.Nat.{add_assoc}
use native.Mathlib.Numerals.{add-one}
use mathlib.Core.Path.{subst}
use occamy.Base
use occamy.Base.Decimal.{decimal}
use occamy.Unicode.{charsize}
use occamy.Unicode.Count.{IsChar, join, utf8_strlen-join}
use occamy.Protocol.Wire.{element, after_element}
use occamy.Parser.Defs.{
  Parser, length_state, complete_state, end_element, append_in, append, is_complete, max_length,
  max_elements,
}
use occamy.Parser.Read.{Response, done, Cursor, read_loop, finish, is_error}
use occamy.Parser.Element.{opened, append_in-element, drop-digits}
use occamy.Parser.Strings.{
  c_string, HoldAll, Holds, HoldAll-set, HoldAll-concat, c_string-cut, join-nonzero,
}

-- The number of bytes of an element with its length prefix.
abbrev pub size_of : List Base.Bytes → ℕ
size_of text = length (element (join text))

-- Where the content of an element stands, from the start of its length prefix on.
abbrev pub content_at : List Base.Bytes → ℕ
content_at text = length (decimal (length text)) + 1

-- The parser behind an element, up to its state and to what the end of an instruction sets.
abbrev pub closed : Parser → ℕ → List Base.Bytes → Parser
closed p start text = record (opened p (start + content_at text) (length text)) {
  element_length = 0;
  buf = set p.buf (start + size_of text) 0;
}

module _ (p : Parser) (start count t : ℕ) (text : List Base.Bytes) (more : Base.Bytes)
    (one : charsize t ≡ 1) (chars : All IsChar text) (fits : length text ≤ max_length)
    (in_length : p.state ≡ length_state) (fresh : p.element_length ≡ 0)
    (room : p.elementc < max_elements) (here : drop start p.buf ≡ element (join text) ++ (t ∷ more))
    (enough : size_of text < count) where
  window :
      (k : ℕ)
      → count ≡ size_of text + suc k
      → take count (drop start p.buf) ≡ element (join text) ++ (t ∷ take k more)
  window k e = rw (here, e) (take-append (element (join text)) (t ∷ more) (suc k))

  pub append-element :
      append p start count
      ≡ end_element
          (opened p (start + content_at text) (length text))
          (start + size_of text)
          t
          (size_of text)
  unfolding append
  append-element =
      let k = count - size_of text - 1 in
      let w = window k (omega arith) in
      let few : (p.elementc == max_elements) ≡ false = ground arith in
      rw (few, w)
        (ap (λ s. append_in s p start (element (join text) ++ (t ∷ take k more))) in_length
          ∙ append_in-element p start t text (take k more) one chars fits fresh)

  element_size : size_of text ≡ content_at text + length (join text)
  element_size =
      rw (utf8_strlen-join text chars)
        (omega (arith, length-append (decimal (length text)) (b'.' ∷ join text)))

  pub behind : drop (start + size_of text + 1) (closed p start text).buf ≡ more
  behind =
      drop-set_above p.buf (start + size_of text + 1) (start + size_of text) 0 (omega arith)
      ∙ ap (λ n. drop n p.buf) (add_assoc start (size_of text) 1)
      ∙ sym (drop-drop start (size_of text + 1) p.buf)
      ∙ ap (drop (size_of text + 1)) here
      ∙ drop-append (element (join text)) (t ∷ more) 1

  content_here :
      drop (content_at text) (element (join text) ++ (t ∷ more)) ≡ join text ++ (t ∷ more)
  content_here = rw (utf8_strlen-join text chars) (
      ap (drop (content_at text))
        (append_assoc (decimal (length text)) (b'.' ∷ join text) (t ∷ more))
      ∙ drop-digits (decimal (length text)) (join text ++ (t ∷ more)) b'.')

  cut_content : drop (start + content_at text) (closed p start text).buf ≡ join text ++ (0 ∷ more)
  cut_content =
      drop-set p.buf (start + content_at text) (start + size_of text) 0
        (omega (arith, element_size))
      ∙ ap (λ n. set (drop (start + content_at text) p.buf) n 0) (omega (arith, element_size))
      ∙ ap (λ buf. set buf (length (join text) + 0) 0)
          (sym (drop-drop start (content_at text) p.buf)
            ∙ ap (drop (content_at text)) here
            ∙ content_here)
      ∙ set-append (join text) (t ∷ more) 0 0

  stored :
      Holds
        (closed p start text).buf
        (start + size_of text + 1)
        (start + content_at text)
        (join text)
  stored = record {
    string = ap c_string cut_content ∙ c_string-cut (join text) more (join-nonzero text chars);
    within = omega (arith, element_size);
  }

  pointers :
      p.elementc < length p.elementv
      → take (p.elementc + 1) (closed p start text).elementv
        ≡ take p.elementc p.elementv ++ ((start + content_at text) ∷ [])
  pointers h =
      ap (λ n. take n (closed p start text).elementv) (add-one p.elementc)
      ∙ take-set_next p.elementv p.elementc (start + content_at text) h

  -- All strings so far, with the new one.
  pub holding :
      (strs : List Base.Bytes)
      → p.elementc < length p.elementv
      → HoldAll p.buf start (take p.elementc p.elementv) strs
      → HoldAll
          (closed p start text).buf
          (start + size_of text + 1)
          (take (p.elementc + 1) (closed p start text).elementv)
          (strs ++ (join text ∷ []))
  holding strs h before =
      subst
        (λ ats.
          HoldAll (closed p start text).buf (start + size_of text + 1) ats
            (strs ++ (join text ∷ [])))
        (sym (pointers h))
        (HoldAll-concat (closed p start text).buf (start + size_of text + 1)
          (take p.elementc p.elementv) strs (start + content_at text) (join text)
          (HoldAll-set p.buf start (take p.elementc p.elementv) strs (start + size_of text) 0
            (start + size_of text + 1) (omega arith) (omega arith) before)
          stored)

-- A round of the loop that parses something.
pub read_loop-round :
    (fuel : ℕ) (c : Cursor) (inputs : List Response) (q : Parser) (n : ℕ)
    → c.parser.state ≡ length_state
    → append c.parser c.start (c.stop - c.start) ≡ (q, suc n)
    → read_loop (suc fuel) c inputs
      ≡ read_loop fuel (record c { parser = q; start = c.start + suc n }) inputs
unfolding read_loop
read_loop-round fuel c inputs q n s e =
    let nonzero : (suc n == 0) ≡ false = ground arith in
    rw (s, e, read_loop)
      (rw nonzero
        (ap (λ r. read_loop fuel (record c { parser = r.0; start = c.start + r.1 }) inputs) e))

pub read_loop_complete :
    (fuel : ℕ) (c : Cursor) (inputs : List Response)
    → c.parser.state ≡ complete_state
    → read_loop (suc fuel) c inputs
      ≡ done (record c.parser { unparsed_start = c.start; unparsed_end = c.stop }) inputs
unfolding read_loop finish
read_loop_complete fuel c inputs s =
    let ended : (is_complete c.parser.state || is_error c.parser.state) ≡ true = rw s in
    let good : is_error c.parser.state ≡ false = rw s in rw (ended, read_loop) (rw (good, finish))

-- What a parser holds once `guac_parser_read` has returned 0 with an instruction of these elements:
-- the pointer to each element's text, of which the first is the opcode and the rest the arguments.
pub record Parsed (p : Parser) (strs : List Base.Bytes) : Type 0 where
  pub complete : p.state ≡ complete_state
  pub elements : HoldAll p.buf p.unparsed_start (take p.elementc p.elementv) strs
  pub opcode : p.opcode ≡ some (get_or p.elementv 0 0)
  pub argv : p.argv ≡ some 1
  pub argc : p.argc + 1 ≡ length strs
  pub count : p.elementc ≡ length strs

-- The bytes from `text` to the end of the instruction.
abbrev pub rest_of : List (List Base.Bytes) → Base.Bytes
rest_of texts = after_element (map join texts)

pub comma_size : charsize b',' ≡ 1
unfolding charsize
comma_size = refl

pub semicolon_size : charsize b';' ≡ 1
unfolding charsize
semicolon_size = refl

-- The loop, in front of the elements that are left of an instruction.
pub record AtElement (c : Cursor) (strs : List Base.Bytes) (text : List Base.Bytes)
    (texts : List (List Base.Bytes)) (more : Base.Bytes) : Type 0 where
  pub in_length : c.parser.state ≡ length_state
  pub fresh : c.parser.element_length ≡ 0
  pub entries : c.parser.elementc ≡ length strs
  pub array : length c.parser.elementv ≡ max_elements
  pub room : length strs + suc (length texts) ≤ max_elements
  pub here : drop c.start c.parser.buf ≡ element (join text) ++ (rest_of texts ++ more)
  pub enough : c.start + (size_of text + length (rest_of texts)) ≤ c.stop
  pub before : HoldAll c.parser.buf c.start (take c.parser.elementc c.parser.elementv) strs
