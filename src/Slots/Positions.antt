-- ===== src/Slots/Positions.antt =====
-- Positions in a storage of `cap` slots that is used round and round: position `c` is slot `c % cap`.
use native.Mathlib.Nat.{
  add-zero, mul-add-mod_self_left, add-mod_left, mod-add-mod, div-add-mod, mod-eq_of_lt,
}
use prescient.Prelude.{
  ◌-◌, ◌*◌, subst, ℕ, suc, ◌+◌, ◌/◌, ◌%◌, ◌≤◌, ◌<◌, ◌≡◌, ◌≢◌, sym, ap, ◌∙◌, arith, inl, inr, ◌⊎◌,
}

-- Positions less than `m` apart are apart modulo `m`.
pub mod_ne : (i j m : ℕ) → i < j → j < i + m → i % m ≢ j % m
mod_ne i j m lt near e = elim (le_or_lt (j / m) (i / m)) [
  | inl le ↦ absurd (grind (arith, div-add-mod i m, div-add-mod j m))
  | inr gt ↦ absurd (grind (arith, div-add-mod i m, div-add-mod j m))
]
  where
    le_or_lt : (a b : ℕ) → (a ≤ b) ⊎ (b < a)
    le_or_lt a b = grind arith

-- A run that does not pass the end of the storage has consecutive indices.
pub mod-run : (t k cap : ℕ) → t % cap + k < cap → (t + k) % cap ≡ t % cap + k
mod-run t k cap h = sym (mod-add-mod t cap k) ∙ mod-eq_of_lt h

module _ (cap : ℕ) where
  -- From `i` on, `n` indices are those of the positions from `c` on.
  abbrev pub Run : ℕ → ℕ → ℕ → Type 0
  Run n i c = (k : ℕ) → k < n → i + k ≡ (c + k) % cap

  pub first_of_Run : (n i c : ℕ) → Run (suc n) i c → i ≡ c % cap
  first_of_Run n i c at = omega (arith, at 0 (omega arith), ap (λ (t : ℕ). t % cap) (add-zero c))

  pub rest_of_Run : (n i c : ℕ) → Run (suc n) i c → Run n (i + 1) (c + 1)
  rest_of_Run n i c at k h =
      let shift : c + suc k ≡ c + 1 + k = omega arith in
      omega (arith, at (suc k) (omega arith), ap (λ (t : ℕ). t % cap) shift)

  -- Consecutive indices up to the end of the storage.
  pub Run-to_end : (n c : ℕ) → c % cap + n ≤ cap → Run n (c % cap) c
  Run-to_end n c fits k h = sym (mod-run c k cap (omega arith))

-- Past the end of the storage a run goes on at slot 0.
Run-from_start : (cap c m : ℕ) → c % cap ≤ cap → m ≤ cap → Run cap m 0 (c + (cap - c % cap))
Run-from_start cap c m within small k h = omega (
  arith,
  ap (λ (t : ℕ). t % cap) around,
  mul-add-mod_self_left cap (c / cap) (cap + k),
  add-mod_left cap k,
  mod-eq_of_lt {n = k} {m = cap} (omega arith),
)
  where
    around : c + (cap - c % cap) + k ≡ cap * (c / cap) + (cap + k)
    around = omega (arith, div-add-mod c cap)

-- The second of two runs, empty unless the first reached the end of the storage.
pub Run-second :
    (cap c k m : ℕ) → c % cap ≤ cap → m ≤ cap → (m ≡ 0) ⊎ (c % cap + k ≡ cap) → Run cap m 0 (c + k)
Run-second cap c k m within small (inl none_left) j h = absurd (omega arith)
Run-second cap c k m within small (inr ended) j h =
    let reach : c + (cap - c % cap) ≡ c + k = omega arith in
    subst (λ p. Run cap m 0 p) reach (Run-from_start cap c m within small) j h
