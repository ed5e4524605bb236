-- ===== src/Broadcast/Scan.antt =====
-- The scan for the slowest reader.
use prescient.Prelude.{
  ℕ, ◌-◌, ◌≤◌, ◌<◌, ◌≡◌, refl, List, [], ◌∷◌, true, false, ltb, Bool-cases, ◌⊎◌, inl, inr, All,
  get_elem?, some, arith, subst, sym, suc,
}
use prescient.Word.{word_size, wrapping_sub}
use prescient.Broadcast.{ReaderSlot, slowest_from, slowest}

-- A slot whose reader, if it gates, is at most at `w`.
abbrev pub NotAhead : ℕ → ReaderSlot → Type 0
NotAhead w s = s.gating ≡ true → s.cursor ≤ w

-- No reader that gates is behind `least`.
abbrev pub NotBehind : ℕ → ReaderSlot → Type 0
NotBehind least s = s.gating ≡ true → least ≤ s.cursor

-- A reader that gates stands at `c`.
abbrev pub Stands : ℕ → List ReaderSlot → Type 0
Stands c slots =
    (i : ℕ) × (s : ReaderSlot) × (get_elem? slots i ≡ some s) × (s.gating ≡ true) × (s.cursor ≡ c)

-- What a scan from `least` finds.
record Found (slots : List ReaderSlot) (w least found : ℕ) : Type 0 where
  pub below : found ≤ least
  pub bound : All (NotBehind found) slots
  pub reached : (found ≡ least) ⊎ Stands found slots

Stands-cons :
    (c : ℕ) (s : ReaderSlot) (slots : List ReaderSlot) → Stands c slots → Stands c (s ∷ slots)
Stands-cons c s slots (i, t, e, g, k) = (suc i, t, e, g, k)

slowest_from-Found :
    (slots : List ReaderSlot) (w least : ℕ)
    → w < word_size
    → least ≤ w
    → All (NotAhead w) slots
    → Found slots w least (slowest_from slots w least (w - least))
unfolding slowest_from
slowest_from-Found [] w least word start ahead = record {
  below = omega arith;
  bound = tt;
  reached = inl refl;
}
slowest_from-Found (s ∷ slots) w least word start ahead = elim (Bool-cases s.gating) [
  | inl gates ↦
      let lag : wrapping_sub w s.cursor ≡ w - s.cursor = omega (arith, ahead.0 gates) in
      elim (Bool-cases (ltb (w - least) (w - s.cursor))) [
        | inl slower ↦
            let rest = slowest_from-Found slots w s.cursor word (ahead.0 gates) ahead.1 in
            let behind : s.cursor ≤ least = ground arith in
            subst (Found (s ∷ slots) w least) (sym (step gates lag slower)) (record {
              below = omega (arith, rest.below, behind);
              bound = (λ _. rest.below, rest.bound);
              reached = elim rest.reached [
                | inl same ↦ inr (0, s, refl, gates, sym same)
                | inr found ↦ inr (Stands-cons _ s slots found)
              ];
            })
        | inr not_slower ↦
            let rest = slowest_from-Found slots w least word start ahead.1 in
            let not_behind : least ≤ s.cursor = ground (arith, ahead.0 gates) in
            subst (Found (s ∷ slots) w least) (sym (step_over gates lag not_slower)) (record {
              below = rest.below;
              bound = (λ _. omega (arith, rest.below, not_behind), rest.bound);
              reached = elim rest.reached [
                | inl same ↦ inl same
                | inr found ↦ inr (Stands-cons _ s slots found)
              ];
            })
      ]
  | inr gone ↦
      let rest = slowest_from-Found slots w least word start ahead.1 in
      subst (Found (s ∷ slots) w least) (sym (pass gone)) (record {
        below = rest.below;
        bound = (λ gates. cc, rest.bound);
        reached = elim rest.reached [
          | inl same ↦ inl same
          | inr found ↦ inr (Stands-cons _ s slots found)
        ];
      })
]
  where
    step :
        s.gating ≡ true
        → wrapping_sub w s.cursor ≡ w - s.cursor
        → ltb (w - least) (w - s.cursor) ≡ true
        → slowest_from (s ∷ slots) w least (w - least)
          ≡ slowest_from slots w s.cursor (w - s.cursor)
    step g l t = simp (g, l, t)

    step_over :
        s.gating ≡ true
        → wrapping_sub w s.cursor ≡ w - s.cursor
        → ltb (w - least) (w - s.cursor) ≡ false
        → slowest_from (s ∷ slots) w least (w - least) ≡ slowest_from slots w least (w - least)
    step_over g l t = simp (g, l, t)

    pass :
        s.gating ≡ false
        → slowest_from (s ∷ slots) w least (w - least) ≡ slowest_from slots w least (w - least)
    pass g = simp g

-- The scan finds the least cursor that gates: none is behind it, and it is a reader's cursor or `w`.
pub slowest_lem :
    (slots : List ReaderSlot) (w : ℕ)
    → w < word_size
    → All (NotAhead w) slots
    → (slowest slots w ≤ w)
      × All (NotBehind (slowest slots w)) slots
      × ((slowest slots w ≡ w) ⊎ Stands (slowest slots w) slots)
slowest_lem slots w word ahead =
    let none_yet : w - w ≡ 0 = omega arith in
    let found =
      subst (λ lag. Found slots w w (slowest_from slots w w lag)) none_yet
        (slowest_from-Found slots w w word (omega arith) ahead) in
    (found.below, found.bound, found.reached)
