-- ===== src/Stream/Roles/Exclusive.antt =====
-- A role of a direction is claimed at most once.
use prescient.Prelude.{
  ℕ, ◌+◌, ◌/◌, ◌%◌, ◌≤◌, ◌<◌, ◌≡◌, inl, inr, refl, List, [], ◌∷◌, true, false, ◌==◌, ok, err, arith,
  Bool-cases, Result-cases, subst, ap, ◌++◌, All,
}
use prescient.Stream.{IoResult}
use prescient.Stream.ErrorKind.{invalid_data, already_exists}
use prescient.Stream.Roles.{
  DirectionRole, claim, is_claimed, claim_once, claim_direction_role, other_role,
}
use prescient.Stream.Roles.DirectionRole.{producer, consumer}

-- A claim that is refused finds the role claimed, or bits that mean nothing; one that succeeds sets the claim of its role
-- and leaves the other.
abbrev pub Outcome : DirectionRole → ℕ → IoResult ℕ → Type 0
Outcome role current (err invalid_data) = 4 ≤ current
Outcome role current (err already_exists) = (current < 4) × (is_claimed role current ≡ true)
Outcome role current (err e) = ⊥
Outcome role current (ok next) =
    (current < 4)
    × (is_claimed role current ≡ false)
    × (next < 4)
    × (is_claimed role next ≡ true)
    × (is_claimed (other_role role) next ≡ is_claimed (other_role role) current)

-- The claim of a role sets its bit alone.
bits :
    (role : DirectionRole) (current : ℕ)
    → ((current / 4 == 0) ≡ true)
    → is_claimed role current ≡ false
    → (current + claim role < 4)
      × (is_claimed role (current + claim role) ≡ true)
      × (is_claimed (other_role role) (current + claim role) ≡ is_claimed (other_role role) current)
bits producer current t u =
    let even : current % 2 ≡ 0 = ground (arith, u) in
    let half : (current + 1) / 2 ≡ current / 2 = omega (arith, even) in
    (ground (arith, t, even), ground (arith, even), rw half refl)
bits consumer current t u =
    let low : current / 2 % 2 ≡ 0 = ground (arith, u) in
    let same : (current + 2) % 2 ≡ current % 2 = omega arith in
    let small : current / 4 ≡ 0 = ground (arith, t) in
    (omega (arith, small, low), ground (arith, low), rw same refl)

pub claim_once-Outcome :
    (role : DirectionRole) (current : ℕ) → Outcome role current (claim_once role current)
unfolding claim_once
claim_once-Outcome role current = elim (Bool-cases (current / 4 == 0)) [
  | inr t ↦ rw t (ground arith)
  | inl t ↦ elim (Bool-cases (is_claimed role current)) [
    | inl u ↦ rw (t, u) (ground (arith, t), u)
    | inr u ↦
        let (small, mine, others) = bits role current t u in
        rw (t, u) (ground (arith, t), u, small, mine, others)
  ]
]

-- How a claim ends over the words that its exchanges find: at `found`, which it reaches only past words that the role can
-- be claimed at, and where it succeeds, at the last of them, the one that its exchange does not fail at.
pub record Ended (role : DirectionRole) (words : List ℕ) (result : IoResult ℕ) : Type 0 where
  pub passed : List ℕ
  pub found : ℕ
  pub unread : List ℕ
  pub split : words ≡ passed ++ (found ∷ unread)
  pub claimable : All (λ word. (word < 4) × (is_claimed role word ≡ false)) passed
  pub outcome : Outcome role found result
  pub exchanged : (next : ℕ) → result ≡ ok next → (unread ≡ []) × (next ≡ found + claim role)

claim_once-added :
    (role : DirectionRole) (current next : ℕ)
    → claim_once role current ≡ ok next
    → next ≡ current + claim role
unfolding claim_once
claim_once-added role current next e = elim (Bool-cases (current / 4 == 0)) [
  | inr t ↦ let refused : claim_once role current ≡ err invalid_data = rw t refl in absurd (cc)
  | inl t ↦ elim (Bool-cases (is_claimed role current)) [
    | inl u ↦
        let refused : claim_once role current ≡ err already_exists = rw (t, u) refl in absurd (cc)
    | inr u ↦
        let claimed : claim_once role current ≡ ok (current + claim role) = rw (t, u) refl in cc
  ]
]

-- A claim whose exchange fails at each word before the last of `current ∷ observed`. It succeeds only with that last word,
-- to which it adds the claim of its role, not set before; the other role's stays as it is there. Where it is refused, the
-- role is claimed, or other bits are set, in a word that it has found, and the role could be claimed at all words before.
pub claim_direction_role-Outcome :
    (role : DirectionRole) (current : ℕ) (observed : List ℕ)
    → Ended role (current ∷ observed) (claim_direction_role role current observed)
unfolding claim_direction_role
claim_direction_role-Outcome role current [] = record {
  passed = [];
  found = current;
  unread = [];
  split = refl;
  claimable = tt;
  outcome = claim_once-Outcome role current;
  exchanged = λ next e. (refl, claim_once-added role current next e);
}
claim_direction_role-Outcome role current (following ∷ observed) =
    elim (Result-cases (claim_once role current)) [
      | inl (word, e) ↦
          let later = claim_direction_role-Outcome role following observed in
          let free = subst (Outcome role current) e (claim_once-Outcome role current) in
          record {
            passed = current ∷ later.passed;
            found = later.found;
            unread = later.unread;
            split = ap (λ words. current ∷ words) later.split;
            claimable = ((free.0, free.1), later.claimable);
            outcome = rw e later.outcome;
            exchanged = λ next. rw e (later.exchanged next);
          }
      | inr (fault, e) ↦ record {
        passed = [];
        found = current;
        unread = following ∷ observed;
        split = refl;
        claimable = tt;
        outcome = rw e (subst (Outcome role current) e (claim_once-Outcome role current));
        exchanged = λ next. rw e (λ impossible. absurd (cc));
      }
    ]
