-- ===== src/Parser/Rounds.antt =====
-- The rounds of the loop of guac_parser_read, from one element to the last (guacamole/src/libguac/parser.c).
use occamy.Base.{
  ℕ, zero, suc, ◌+◌, ◌-◌, ◌≤◌, ◌<◌, ◌≡◌, refl, sym, ap, ◌∙◌, arith, Bool, true, false,
  if◌then◌else◌, none, some, List, [], ◌∷◌, ◌++◌, map, length, set, take, drop, get_or, All,
  append_assoc, length-append, length-set,
}
use mathlib.Core.Path.{subst}
use occamy.Base
use occamy.Unicode.{charsize}
use occamy.Unicode.Count.{IsChar, join}
use occamy.Protocol.Wire.{element}
use occamy.Parser.Defs.{
  Parser, length_state, complete_state, end_element, append, max_length, max_elements,
}
use occamy.Parser.Read.{Response, Outcome, done, Cursor, read_loop}
use occamy.Parser.Strings.{HoldAll}
use occamy.Parser.Instruction.{
  AtElement, Parsed, size_of, rest_of, closed, append-element, behind, holding, read_loop-round,
  read_loop_complete, comma_size, semicolon_size,
}

-- The content of an element: whole characters, as many as the parser admits.
abbrev pub IsText : List Base.Bytes → Type 0
IsText text = All IsChar text × (length text ≤ max_length)

-- What the loop comes to from an element on.
pub record Reads (c : Cursor) (inputs : List Response) (size : ℕ) (strs : List Base.Bytes)
    (o : Outcome) : Type 0 where
  pub parser : Parser
  pub outcome : o ≡ done parser inputs
  pub parsed : Parsed parser strs
  pub start : parser.unparsed_start ≡ c.start + size
  pub stop : parser.unparsed_end ≡ c.stop

rest_of-pos : (texts : List (List Base.Bytes)) → 0 < length (rest_of texts)
rest_of-pos [] = omega arith
rest_of-pos (text ∷ texts) = omega arith

fits_count :
    (c : Cursor) (strs : List Base.Bytes) (text : List Base.Bytes) (texts : List (List Base.Bytes))
    (more : Base.Bytes)
    → AtElement c strs text texts more
    → size_of text < c.stop - c.start
fits_count c strs text texts more at = omega (arith, at.enough, rest_of-pos texts)

next_holding :
    (c : Cursor) (strs : List Base.Bytes) (text : List Base.Bytes) (texts : List (List Base.Bytes))
    (t : ℕ) (more more' : Base.Bytes)
    → charsize t ≡ 1
    → IsText text
    → AtElement c strs text texts more
    → drop c.start c.parser.buf ≡ element (join text) ++ (t ∷ more')
    → HoldAll
        (closed c.parser c.start text).buf
        (c.start + suc (size_of text))
        (take (c.parser.elementc + 1) (closed c.parser c.start text).elementv)
        (strs ++ (join text ∷ []))
next_holding c strs text texts t more more' one is_text at here =
    let p = c.parser in
    subst
      (λ bound.
        HoldAll (closed p c.start text).buf bound
          (take (p.elementc + 1) (closed p c.start text).elementv) (strs ++ (join text ∷ [])))
      (omega arith)
      (holding p c.start (c.stop - c.start) t text more' one is_text.0 is_text.1 at.in_length
        at.fresh (omega (arith, at.entries, at.room)) here (fits_count c strs text texts more at)
        strs (omega (arith, at.entries, at.room, at.array)) at.before)

next_behind :
    (c : Cursor) (strs : List Base.Bytes) (text : List Base.Bytes) (texts : List (List Base.Bytes))
    (t : ℕ) (more more' : Base.Bytes)
    → charsize t ≡ 1
    → IsText text
    → AtElement c strs text texts more
    → drop c.start c.parser.buf ≡ element (join text) ++ (t ∷ more')
    → drop (c.start + suc (size_of text)) (closed c.parser c.start text).buf ≡ more'
next_behind c strs text texts t more more' one is_text at here =
    let p = c.parser in
    ap (λ n. drop n (closed p c.start text).buf) (omega arith)
    ∙ behind p c.start (c.stop - c.start) t text more' one is_text.0 is_text.1 at.in_length at.fresh
        (omega (arith, at.entries, at.room)) here (fits_count c strs text texts more at)

-- The last element, up to the semicolon.
last_round :
    (fuel : ℕ) (c : Cursor) (inputs : List Response) (strs : List Base.Bytes)
    (text : List Base.Bytes) (more : Base.Bytes)
    → IsText text
    → AtElement c strs text [] more
    → 1 < fuel
    → Reads c inputs (size_of text + 1) (strs ++ (join text ∷ [])) (read_loop fuel c inputs)
unfolding end_element
last_round zero c inputs strs text more is_text at h = absurd (omega arith)
last_round (suc zero) c inputs strs text more is_text at h = absurd (omega arith)
last_round (suc (suc fuel)) c inputs strs text more is_text at h =
    let p = c.parser in
    let room : p.elementc < max_elements = omega (arith, at.entries, at.room) in
    let enough : size_of text < c.stop - c.start = omega (arith, at.enough) in
    let e =
      append-element p c.start (c.stop - c.start) b';' text more semicolon_size is_text.0 is_text.1
        at.in_length at.fresh room at.here enough in
    let q : Parser = record (closed p c.start text) {
      state = complete_state;
      opcode = some (get_or (closed p c.start text).elementv 0 0);
      argv = some 1;
      argc = p.elementc + 1 - 1;
    } in
    let e' : append p c.start (c.stop - c.start) ≡ (q, suc (size_of text)) =
      e ∙ ap (λ n. (q, n)) (rw semicolon_size (omega arith)) in
    record {
      parser = record q { unparsed_start = c.start + suc (size_of text); unparsed_end = c.stop };
      outcome =
          read_loop-round (suc fuel) c inputs q (size_of text) at.in_length e'
          ∙ read_loop_complete fuel (record c { parser = q; start = c.start + suc (size_of text) })
              inputs refl;
      parsed = record {
        complete = refl;
        elements = next_holding c strs text [] b';' more more semicolon_size is_text at at.here;
        opcode = refl;
        argv = refl;
        argc = omega (arith, at.entries, length-append strs (join text ∷ []));
        count = omega (arith, at.entries, length-append strs (join text ∷ []));
      };
      start = omega arith;
      stop = refl;
    }

-- All elements from one on.
pub rounds_lem :
    (texts : List (List Base.Bytes)) (fuel : ℕ) (c : Cursor) (inputs : List Response)
    (strs : List Base.Bytes) (text : List Base.Bytes) (more : Base.Bytes)
    → IsText text
    → All IsText texts
    → AtElement c strs text texts more
    → length texts + 1 < fuel
    → Reads c inputs
        (size_of text + length (rest_of texts))
        (strs ++ map join (text ∷ texts))
        (read_loop fuel c inputs)
unfolding end_element
rounds_lem [] fuel c inputs strs text more is_text are_texts at h =
    last_round fuel c inputs strs text more is_text at h
rounds_lem (text' ∷ texts) zero c inputs strs text more is_text are_texts at h =
    absurd (omega arith)
rounds_lem (text' ∷ texts) (suc fuel) c inputs strs text more is_text are_texts at h =
    let p = c.parser in
    let more' = (element (join text') ++ rest_of texts) ++ more in
    let room : p.elementc < max_elements = omega (arith, at.entries, at.room) in
    let enough = fits_count c strs text (text' ∷ texts) more at in
    let e =
      append-element p c.start (c.stop - c.start) b',' text more' comma_size is_text.0 is_text.1
        at.in_length at.fresh room at.here enough in
    let q : Parser = record (closed p c.start text) { state = length_state } in
    let e' : append p c.start (c.stop - c.start) ≡ (q, suc (size_of text)) =
      e ∙ ap (λ n. (q, n)) (rw comma_size (omega arith)) in
    let c' : Cursor = record c { parser = q; start = c.start + suc (size_of text) } in
    let at' : AtElement c' (strs ++ (join text ∷ [])) text' texts more = record {
      in_length = refl;
      fresh = refl;
      entries = omega (arith, at.entries, length-append strs (join text ∷ []));
      array = length-set p.elementv p.elementc _ ∙ at.array;
      room = omega (arith, at.room, length-append strs (join text ∷ []));
      here =
          next_behind c strs text (text' ∷ texts) b',' more more' comma_size is_text at at.here
          ∙ append_assoc (element (join text')) (rest_of texts) more;
      enough = omega (arith, at.enough, length-append (element (join text')) (rest_of texts));
      before =
          next_holding c strs text (text' ∷ texts) b',' more more' comma_size is_text at at.here;
    } in
    let r =
      rounds_lem texts fuel c' inputs (strs ++ (join text ∷ [])) text' more are_texts.0 are_texts.1
        at' (omega arith) in
    record {
      parser = r.parser;
      outcome = read_loop-round fuel c inputs q (size_of text) at.in_length e' ∙ r.outcome;
      parsed =
          subst (Parsed r.parser) (append_assoc strs (join text ∷ []) (map join (text' ∷ texts)))
            r.parsed;
      start = omega (arith, r.start, length-append (element (join text')) (rest_of texts));
      stop = r.stop;
    }
