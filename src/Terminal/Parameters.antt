-- ===== src/Terminal/Parameters.antt =====
-- Control sequences with their parameters (guacamole/src/protocols/ssh/terminal_handlers.c), as the
-- byte-driven handler takes them in.
use occamy.Base.{
  ℕ, zero, suc, ◌+◌, ◌-◌, ◌≤◌, ◌≡◌, refl, sym, ap, ◌∙◌, arith, ltb, leb, ◌==◌, ◌&&◌, ◌||◌, not,
  if◌then◌else◌, Bool, true, false, List, [], ◌∷◌, ◌++◌, length, map, set, replicate, All,
  append-nil, append_assoc, length-append, length-map, replicate-append, set_next, drop,
  drop-length, tests, lt→ltb,
}
use occamy.Base
use occamy.Base.Int.{ℤ, pos}
use occamy.Base.Decimal.{IsDigit}
use occamy.Terminal.State.{Terminal, csi, echo}
use occamy.Terminal.Csi.{
  CsiFunction, csi_byte, csi_function, perform_csi, end_sequence, end_parameter,
}
use occamy.Terminal.Write.{Environment, handle, write}
use occamy.Terminal.CsiStatics.{perform_csi-statics}

-- Parameters between semicolons, and the final byte.
abbrev pub sequence : Base.Bytes → List Base.Bytes → ℕ → Base.Bytes
sequence parameter [] final = parameter ++ (final ∷ [])
sequence parameter (next ∷ parameters) final = parameter ++ (b';' ∷ sequence next parameters final)

-- A terminal in a control sequence that has taken in these values, and has room for so many more; the
-- other statics are those of the terminal.
abbrev pub in_sequence : List ℤ → ℕ → Base.Bytes → Terminal → Terminal
in_sequence values room stored term = record term {
  char_handler = csi;
  statics = record term.statics {
    argv = values ++ replicate room (pos 0);
    argc = length values;
    argv_buffer = stored;
  };
}

-- A terminal once a sequence has ended, ready for the next one.
abbrev pub after_sequence : Terminal → Terminal → Terminal
after_sequence performed term = record performed {
  char_handler = echo;
  statics = record term.statics {
    argv = replicate 16 (pos 0);
    argc = 0;
    argv_buffer = [];
    private_mode = 0;
  };
}

-- A parameter of digits that its buffer has room for.
abbrev pub IsParameter : Base.Bytes → Type 0
IsParameter parameter = All IsDigit parameter × (length parameter ≤ 255)

-- A final byte.
abbrev pub IsFinal : ℕ → Type 0
IsFinal c = (0x40 ≤ c) × (c ≤ 0x7e)

-- The room that is left by parameters, with them.
abbrev room_with : List Base.Bytes → ℕ → ℕ
room_with [] room = room
room_with (parameter ∷ parameters) room = suc (room_with parameters room)

room_with-length :
    (parameters : List Base.Bytes) (room : ℕ) → room_with parameters room ≡ length parameters + room
room_with-length [] room = omega arith
room_with-length (parameter ∷ parameters) room = omega (arith, room_with-length parameters room)

module _ (env : Environment) where
  digit_byte :
      (c : ℕ) (values : List ℤ) (room : ℕ) (stored : Base.Bytes) (term : Terminal)
      → IsDigit c
      → length stored + 1 ≤ 255
      → csi_byte env.atoi c (in_sequence values room stored term)
        ≡ in_sequence values room (stored ++ (c ∷ [])) term
  unfolding csi_byte
  digit_byte c values room stored term digit space = grind (tests, digit, space)

  end_parameter_lem :
      (values : List ℤ) (room : ℕ) (stored : Base.Bytes) (term : Terminal)
      → length values + suc room ≡ 16
      → record (in_sequence values (suc room) stored term) {
        statics = end_parameter env.atoi (in_sequence values (suc room) stored term).statics;
      }
        ≡ in_sequence (values ++ (env.atoi stored ∷ [])) room [] term
  unfolding end_parameter
  end_parameter_lem values room stored term full =
      let room_left : ltb (length values) 16 ≡ true = lt→ltb _ 16 (omega arith) in
      let argv = set_next values (replicate room (pos 0)) (pos 0) (env.atoi stored) in
      let argc : length values + 1 ≡ length (values ++ (env.atoi stored ∷ [])) =
        omega (arith, length-append values (env.atoi stored ∷ [])) in
      cc

  semicolon_byte :
      (values : List ℤ) (room : ℕ) (stored : Base.Bytes) (term : Terminal)
      → length values + suc room ≡ 16
      → csi_byte env.atoi b';' (in_sequence values (suc room) stored term)
        ≡ in_sequence (values ++ (env.atoi stored ∷ [])) room [] term
  unfolding csi_byte
  semicolon_byte values room stored term full = end_parameter_lem values room stored term full

  final_byte :
      (c : ℕ) (values : List ℤ) (room : ℕ) (stored : Base.Bytes) (term : Terminal)
      → IsFinal c
      → length values + suc room ≡ 16
      → csi_byte env.atoi c (in_sequence values (suc room) stored term)
        ≡ end_sequence (
            perform_csi
              (csi_function c)
              (in_sequence (values ++ (env.atoi stored ∷ [])) room [] term))
  unfolding csi_byte
  final_byte c values room stored term final full =
      let t = in_sequence values (suc room) stored term in
      let ends : csi_byte env.atoi c t
          ≡ end_sequence (
              perform_csi (csi_function c)
                (record t { statics = end_parameter env.atoi t.statics })) =
        grind (tests, final) in
      ends
      ∙ ap (λ u. end_sequence (perform_csi (csi_function c) u))
          (end_parameter_lem values room stored term full)

  write_digits :
      (digits rest : Base.Bytes) (values : List ℤ) (room : ℕ) (stored : Base.Bytes)
      (term : Terminal)
      → All IsDigit digits
      → length stored + length digits ≤ 255
      → write env (digits ++ rest) (in_sequence values room stored term)
        ≡ write env rest (in_sequence values room (stored ++ digits) term)
  unfolding write handle
  write_digits [] rest values room stored term h space =
      ap (λ p. write env rest (in_sequence values room p term)) (sym (append-nil stored))
  write_digits (c ∷ digits) rest values room stored term (digit, h) space =
      ap (write env (digits ++ rest)) (digit_byte c values room stored term digit (omega arith))
      ∙ write_digits digits rest values room (stored ++ (c ∷ [])) term h
          (omega (arith, length-append stored (c ∷ [])))
      ∙ ap (λ p. write env rest (in_sequence values room p term))
          (append_assoc stored (c ∷ []) digits)

  write_sequence :
      (parameter : Base.Bytes) (parameters : List Base.Bytes) (final : ℕ) (values : List ℤ)
      (room : ℕ) (term : Terminal)
      → All IsParameter (parameter ∷ parameters)
      → IsFinal final
      → length values + suc (room_with parameters room) ≡ 16
      → write env
          (sequence parameter parameters final)
          (in_sequence values (suc (room_with parameters room)) [] term)
        ≡ end_sequence (
            perform_csi
              (csi_function final)
              (in_sequence (values ++ map env.atoi (parameter ∷ parameters)) room [] term))
  unfolding write handle
  write_sequence parameter [] final values room term ((digits, short), _) f full =
      write_digits parameter (final ∷ []) values (suc room) [] term digits (omega (arith, short))
      ∙ final_byte final values room parameter term f full
  write_sequence parameter (next ∷ parameters) final values room term ((digits, short), h) f full =
      write_digits parameter (b';' ∷ sequence next parameters final) values
        (suc (suc (room_with parameters room))) [] term digits (omega (arith, short))
      ∙ ap (write env (sequence next parameters final))
          (semicolon_byte values (suc (room_with parameters room)) parameter term full)
      ∙ write_sequence next parameters final (values ++ (env.atoi parameter ∷ [])) room term h f
          (omega (arith, full, length-append values (env.atoi parameter ∷ [])))
      ∙ ap (λ v. end_sequence (perform_csi (csi_function final) (in_sequence v room [] term)))
          (append_assoc values (env.atoi parameter ∷ []) (map env.atoi (next ∷ parameters)))

  end_sequence_lem :
      (function : CsiFunction) (values : List ℤ) (room : ℕ) (term : Terminal)
      → length values + room ≡ 16
      → end_sequence (perform_csi function (in_sequence values room [] term))
        ≡ after_sequence (perform_csi function (in_sequence values room [] term)) term
  unfolding end_sequence
  end_sequence_lem function values room term full =
      let t = in_sequence values room [] term in
      let zeros = replicate {A = ℤ} (length values) (pos 0) in
      ap
        (λ s. record (perform_csi function t) {
          char_handler = echo;
          statics = record s {
            argv = replicate s.argc (pos 0) ++ drop s.argc s.argv;
            private_mode = 0;
            argc = 0;
            argv_buffer = [];
          };
        })
        (perform_csi-statics function t)
      ∙ ap
          (λ argv. record (perform_csi function t) {
            char_handler = echo;
            statics = record term.statics {
              argv = argv;
              private_mode = 0;
              argc = 0;
              argv_buffer = [];
            };
          })
          (ap (λ rest. zeros ++ rest) (drop-length values (replicate room (pos 0)))
            ∙ replicate-append (pos 0) (length values) room 16 full)

  -- A sequence of up to 16 parameters, each of at most 255 digits, has the function of its final byte
  -- performed on the values of all its parameters in order, and 0 for those that it lacks; the terminal
  -- is then out of the sequence, with its statics ready for the next one.
  pub write-sequence :
      (parameter : Base.Bytes) (parameters : List Base.Bytes) (final : ℕ) (term : Terminal)
      → All IsParameter (parameter ∷ parameters)
      → IsFinal final
      → length parameters ≤ 15
      → let given =
          in_sequence (map env.atoi (parameter ∷ parameters)) (15 - length parameters) [] term in
        write env (sequence parameter parameters final) (in_sequence [] 16 [] term)
        ≡ after_sequence (perform_csi (csi_function final) given) term
  write-sequence parameter parameters final term h f few =
      let room = 15 - length parameters in
      let all : suc (room_with parameters room) ≡ 16 =
        omega (arith, room_with-length parameters room) in
      ap (λ n. write env (sequence parameter parameters final) (in_sequence [] n [] term)) (sym all)
      ∙ write_sequence parameter parameters final [] room term h f (omega (arith, all))
      ∙ end_sequence_lem (csi_function final) (map env.atoi (parameter ∷ parameters)) room term
          (omega (arith, length-map env.atoi parameters))
