-- ===== src/Stream/Steps.antt =====
-- Results of steps in a row: one that ends well has passed each of its steps.
use prescient.Prelude.{
  ℕ, ◌<◌, ◌≡◌, refl, sym, ap, Option, none, some, Bool, true, false, ltb, leb-cases, ok, err, inl,
  inr, arith, ◌≤◌, ◌*◌, ◌+◌,
}
use prescient.Word.{word_size}
use prescient.Stream.{
  ErrorKind, IoResult, ◌>>=◌, ◌>>◌, ok_or, refuse_if, checked_mul, checked_add, address_space,
  isize_max,
}

pub refuse_if-then_ok {ℓ} :
    {B : Type ℓ} (t : Bool) (e : ErrorKind) (r : IoResult B) (b : B)
    → (refuse_if t e >> r) ≡ ok b
    → (t ≡ false) × (r ≡ ok b)
refuse_if-then_ok true e r b h = let bad : err e ≡ ok b = h in absurd (cc)
refuse_if-then_ok false e r b h = (refl, h)

pub ok_or-then_ok {ℓ κ} :
    {A : Type ℓ} {B : Type κ} (o : Option A) (e : ErrorKind) (f : A → IoResult B) (b : B)
    → (ok_or o e >>= f) ≡ ok b
    → (a : A) × (o ≡ some a) × (f a ≡ ok b)
ok_or-then_ok none e f b h = let bad : err e ≡ ok b = h in absurd (cc)
ok_or-then_ok (some a) e f b h = (a, refl, h)

pub then_ok {ℓ κ} :
    {A : Type ℓ} {B : Type κ} (r : IoResult A) (f : A → IoResult B) (b : B)
    → (r >>= f) ≡ ok b
    → (a : A) × (r ≡ ok a) × (f a ≡ ok b)
then_ok (err e) f b h = let bad : err e ≡ ok b = h in absurd (cc)
then_ok (ok a) f b h = (a, refl, h)

-- A checked product that is held is the product, and fits.
pub checked_mul-some : (a b p : ℕ) → checked_mul a b ≡ some p → (p ≡ a * b) × (a * b < word_size)
checked_mul-some a b p h = elim (leb-cases word_size (a * b)) [
  | inl (t, large) ↦
      let off : ltb (a * b) word_size ≡ false = ground arith in
      let bad : checked_mul a b ≡ none = rw off refl in absurd (cc)
  | inr (t, small) ↦
      let on : ltb (a * b) word_size ≡ true = ground arith in
      let good : checked_mul a b ≡ some (a * b) = rw on refl in (cc, small)
]

pub address_space-some :
    (o : Option ℕ) (n : ℕ) → address_space o ≡ some n → (o ≡ some n) × (n ≤ isize_max)
address_space-some none n h = absurd (cc)
address_space-some (some a) n h = elim (leb-cases a isize_max) [
  | inl (t, small) ↦
      let good : address_space (some a) ≡ some a = rw t refl in
      let same : a ≡ n = cc in rw (sym same) (refl, small)
  | inr (t, large) ↦ let bad : address_space (some a) ≡ none = rw t refl in absurd (cc)
]

pub checked_add-some : (a b s : ℕ) → checked_add a b ≡ some s → (s ≡ a + b) × (a + b < word_size)
checked_add-some a b s h = elim (leb-cases word_size (a + b)) [
  | inl (t, large) ↦
      let off : ltb (a + b) word_size ≡ false = ground arith in
      let bad : checked_add a b ≡ none = rw off refl in absurd (cc)
  | inr (t, small) ↦
      let on : ltb (a + b) word_size ≡ true = ground arith in
      let good : checked_add a b ≡ some (a + b) = rw on refl in (cc, small)
]

pub ok_or_ok {ℓ} :
    {A : Type ℓ} (o : Option A) (e : ErrorKind) (a : A) → ok_or o e ≡ ok a → o ≡ some a
ok_or_ok none e a h = absurd (cc)
ok_or_ok (some b) e a h = cc

pub refuse_if_ok : (t : Bool) (e : ErrorKind) → refuse_if t e ≡ ok tt → t ≡ false
refuse_if_ok true e h = absurd (cc)
refuse_if_ok false e h = refl

pub ok_inj {ℓ} : {A : Type ℓ} {a b : A} → ◌≡◌ {A = IoResult A} (ok a) (ok b) → a ≡ b
ok_inj {A} {a} h = ap value h
  where
    value : IoResult A → A
    value (ok b) = b
    value (err e) = a

pub skip_ok {ℓ κ} :
    {A : Type ℓ} {B : Type κ} (r : IoResult A) (s : IoResult B) (b : B) → (r >> s) ≡ ok b → s ≡ ok b
skip_ok (ok a) s b h = h
skip_ok (err e) s b h = let bad : err e ≡ ok b = h in absurd (cc)

pub first_ok {κ} :
    {B : Type κ} (r : IoResult (Unit {0})) (s : IoResult B) (b : B) → (r >> s) ≡ ok b → r ≡ ok tt
first_ok (ok tt) s b h = refl
first_ok (err e) s b h = let bad : err e ≡ ok b = h in absurd (cc)
