-- ===== src/User/Effects.antt =====
-- The life of the input streams of a user (guacamole/src/libguac/user-handlers.c and user.c): which are open after
-- an instruction, by its opcode and its arguments alone.
use occamy.Base.{
  ℕ, ◌<◌, ◌≡◌, ◌≢◌, ◌∙◌, refl, sym, ap, arith, subst, if◌then◌else◌, on_branches, true, false, ◌||◌,
  Bool-cases, inl, inr, Option, none, some, length, get_or, set, length-set, get_or-set_self,
  get_or-set_ne, ◌==◌,
}
use occamy.Base.Int.{ℤ, pos, ltb_ℤ, leb_ℤ, equal_ℤ, negsuc}
use occamy.User.{new_stream, Stream}
use occamy.User.Session.{Call, Session}
use occamy.User.Inputs
use occamy.User.Inputs.{
  argument, input_stream_at, set_input_stream, first_of, is_set, get_input_stream, check_open,
  get_open_input_stream, with_stream, call_or, force_end, init_input_stream,
}

-- The index of an input stream, which is `none` where it is closed.
abbrev pub index_at : Session → ℕ → Option ℕ
index_at session j = (input_stream_at session j).index

-- What an instruction does to the input streams.
pub data Effect : Type 0 where
  opens : ℤ → Effect
  closes : ℤ → Effect
  keeps : Effect

-- The index of stream `j` behind an effect.
abbrev pub apply_effect : Effect → ℕ → Option ℕ → Option ℕ
apply_effect (opens i) j was = if equal_ℤ i (pos j) then some j else was
apply_effect (closes i) j was = if equal_ℤ i (pos j) then none else was
apply_effect keeps j was = was

-- Every stream of the array has the index that an effect gives it.
pub record Effects (effect : Effect) (before after : Session) : Type 0 where
  pub size : length after.user.input_streams ≡ length before.user.input_streams
  pub index : (j : ℕ) → j < 64 → index_at after j ≡ apply_effect effect j (index_at before j)

abbrev pub HasStreams : Session → Type 0
HasStreams session = length session.user.input_streams ≡ 64

-- A handler of other code opens and closes no input stream by itself.
abbrev pub KeepsStreams : (Call → Session → ℤ × Session) → Type 0
KeepsStreams callback = (c : Call) (s : Session) → Effects keeps s (callback c s).1

pub Effects-refl : (s : Session) → Effects keeps s s
Effects-refl s = record { size = refl; index = λ j h. refl }

-- An effect, and then one that keeps all streams.
pub Effects-keeps :
    (e : Effect) (a b c : Session) → Effects e a b → Effects keeps b c → Effects e a c
Effects-keeps e a b c f g = record {
  size = g.size ∙ f.size;
  index = λ j h. g.index j h ∙ f.index j h;
}

pub keeps-Effects :
    (e : Effect) (a b c : Session) → Effects keeps a b → Effects e b c → Effects e a c
keeps-Effects e a b c f g = record {
  size = g.size ∙ f.size;
  index = λ j h. g.index j h ∙ ap (apply_effect e j) (f.index j h);
}

-- The two ways of a stream index: it is that of no stream of the array, or a number below 64.
pub get_input_stream-cases :
    (P : Option ℕ × Session → Type 0) (s : Session) (z : ℤ)
    → (((j : ℕ) → j < 64 → equal_ℤ z (pos j) ≡ false)
        → (s' : Session) → s'.user ≡ s.user
        → P (none, s'))
    → ((i : ℕ) → i < 64 → z ≡ pos i → P (some i, s))
    → P (get_input_stream s z)
unfolding get_input_stream
get_input_stream-cases P s (pos n) outside inside =
    on_branches P (ltb_ℤ (pos n) (pos 0) || leb_ℤ (pos 64) (pos n)) _ _
      (λ out. outside (λ j lt. ground arith) _ refl) (λ within. inside n (ground arith) refl)
get_input_stream-cases P s (negsuc n) outside inside =
    on_branches P (ltb_ℤ (negsuc n) (pos 0) || leb_ℤ (pos 64) (negsuc n)) _ _
      (λ out. outside (λ j lt. ground arith) _ refl) (λ within. absurd (ground (arith, within)))

-- A stored stream, whose index is the one that the effect gives it and no other.
pub set_input_stream-Effects :
    (e : Effect) (s : Session) (i : ℕ) (stream : Stream)
    → HasStreams s
    → i < 64
    → stream.index ≡ apply_effect e i (index_at s i)
    → ((j : ℕ) (was : Option ℕ) → i ≢ j → apply_effect e j was ≡ was)
    → Effects e s (set_input_stream s i stream)
set_input_stream-Effects e s i stream size lt here others = record {
  size = length-set s.user.input_streams i stream;
  index = λ j h. elim (Bool-cases (i == j)) [
    | inl is_same ↦
        let same : i ≡ j = ground arith in
        subst
          (λ k.
            (get_or (set s.user.input_streams i stream) k (new_stream none)).index
            ≡ apply_effect e k (index_at s k))
          same
          (ap (λ (t : Stream). t.index)
              (get_or-set_self s.user.input_streams i stream (new_stream none)
                (omega (arith, size)))
            ∙ here)
    | inr is_other ↦
        let other : i ≢ j = ground arith in
        ap (λ (t : Stream). t.index)
          (get_or-set_ne s.user.input_streams i j stream (new_stream none) other)
        ∙ sym (others j (index_at s j) other)
  ];
}

abbrev IsKept : Session → Option ℕ × Session → Type 0
IsKept s r = Effects keeps s r.1

-- A session whose user is that of another.
pub same_user-Effects : (s s' : Session) → s'.user ≡ s.user → Effects keeps s s'
same_user-Effects s s' e = record {
  size = ap (λ u. length u.input_streams) e;
  index = λ j h. ap (λ u. (get_or u.input_streams j (new_stream none)).index) e;
}

-- An effect on one stream is none on an index outside of the array.
pub outside_lem :
    (e : ℤ → Effect) (s s' : Session) (z : ℤ)
    → ((j : ℕ) (was : Option ℕ) → equal_ℤ z (pos j) ≡ false → apply_effect (e z) j was ≡ was)
    → ((j : ℕ) → j < 64 → equal_ℤ z (pos j) ≡ false)
    → s'.user ≡ s.user
    → Effects (e z) s s'
outside_lem e s s' z none_else out same =
    let kept = same_user-Effects s s' same in
    record { size = kept.size; index = λ j h. kept.index j h ∙ sym (none_else j _ (out j h)) }

pub apply_opens_ne :
    (z : ℤ) (j : ℕ) (was : Option ℕ)
    → equal_ℤ z (pos j) ≡ false
    → apply_effect (opens z) j was ≡ was
apply_opens_ne z j was h = rw h refl

pub apply_closes_ne :
    (z : ℤ) (j : ℕ) (was : Option ℕ)
    → equal_ℤ z (pos j) ≡ false
    → apply_effect (closes z) j was ≡ was
apply_closes_ne z j was h = rw h refl

pub equal_ne : (i j : ℕ) → i ≢ j → equal_ℤ (pos i) (pos j) ≡ false
equal_ne i j h = ground arith

pub equal_self : (i : ℕ) → equal_ℤ (pos i) (pos i) ≡ true
equal_self i = ground arith

module _ (callback : Call → Session → ℤ × Session) (keeps_streams : KeepsStreams callback) where
  pub call_or-Effects :
      (h : Option ℕ) (call : ℕ → Call) (otherwise : ℤ × Session) (s s' : Session)
      → Effects keeps s otherwise.1
      → Effects keeps s s'
      → Effects keeps s (call_or callback h call otherwise s').1
  call_or-Effects (some h) call otherwise s s' _ kept =
      Effects-keeps keeps s s' (callback (call h) s').1 kept (keeps_streams (call h) s')
  call_or-Effects none call otherwise s s' kept _ = kept

  force_end-Effects : (i : ℕ) (s : Session) → Effects keeps s (force_end callback i s)
  unfolding force_end
  force_end-Effects i s =
      on_branches (Effects keeps s) (is_set (input_stream_at s i).index) _ _
        (λ _. call_or-Effects _ _ _ s s (Effects-refl s) (Effects-refl s)) (λ _. Effects-refl s)

  pub init_input_stream-Effects :
      (s : Session) (z : ℤ) → HasStreams s → Effects (opens z) s (init_input_stream callback s z).1
  unfolding init_input_stream
  init_input_stream-Effects s z size =
      get_input_stream-cases (λ r. Effects (opens z) s (Inputs.init_stream callback r).1) s z
        (λ out s' same. outside_lem opens s s' z (apply_opens_ne z) out same)
        (λ i lt e.
          let ended = force_end-Effects i s in
          subst
            (λ y.
              Effects (opens y) s
                (set_input_stream (force_end callback i s) i (new_stream (some i))))
            (sym e)
            (keeps-Effects (opens (pos i)) s (force_end callback i s) _ ended (
              set_input_stream-Effects (opens (pos i)) (force_end callback i s) i
                (new_stream (some i)) (ended.size ∙ size) lt (rw (equal_self i) refl)
                (λ j was ne. apply_opens_ne (pos i) j was (equal_ne i j ne)))))

  -- A handler that other code may have set, on the session as it is.
  pub plain_lem :
      (s : Session) (h : Option ℕ) (call : ℕ → Call)
      → Effects keeps s (call_or callback h call (pos 0, s) s).1
  plain_lem s h call = call_or-Effects h call (pos 0, s) s s (Effects-refl s) (Effects-refl s)

  -- A handler that is set, or a refusal, which leaves the user as it is.
  pub answer_lem :
      (h : Option ℕ) (call : ℕ → Call) (s' refused : Session)
      → refused.user ≡ s'.user
      → Effects keeps s' (call_or callback h call (pos 0, refused) s').1
  answer_lem h call s' refused same =
      call_or-Effects h call (pos 0, refused) s' s' (same_user-Effects s' refused same)
        (Effects-refl s')

pub with_stream-Effects :
    (e : Effect) (s : Session) (r : Option ℕ × Session) (f : ℕ → Session → ℤ × Session)
    → Effects e s r.1
    → ((i : ℕ) (s' : Session) → Effects keeps s' (f i s').1)
    → Effects e s (with_stream r f).1
with_stream-Effects e s (none, s') f h k = h
with_stream-Effects e s (some i, s') f h k = Effects-keeps e s s' (f i s').1 h (k i s')
