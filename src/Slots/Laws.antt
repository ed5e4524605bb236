-- ===== src/Slots/Laws.antt =====
-- Which values a run of slots owns, counted round a storage of `cap` slots, and what the accesses do to it.
use native.Mathlib.Nat.{mod-add-mod, mod-lt}
use prescient.Prelude.{
  ℕ, ◌+◌, ◌%◌, ◌≤◌, ◌<◌, ◌≡◌, sym, ap, subst, ◌∙◌, Option, none, some, List, [], ◌∷◌, ◌++◌,
  get_elem?, set, length, length-set, get_elem?-set_self, get_elem?-set_ne, arith,
}
use prescient.Slots.{Slots, take_slot, put_slot}
use prescient.Slots.Positions.{mod_ne}

module _ {ℓ} {T : Type ℓ} (cap : ℕ) where
  -- The slots from position `c` on own the values `q`, in order.
  abbrev pub Owned : Slots T → ℕ → List T → Type ℓ
  Owned buf c [] = Unit {ℓ}
  Owned buf c (x ∷ q) = (get_elem? buf (c % cap) ≡ some (some x)) × Owned buf (c + 1) q

  pub Owned-congr :
      (buf : Slots T) (c d : ℕ) (q : List T) → c % cap ≡ d % cap → Owned buf c q → Owned buf d q
  Owned-congr buf c d [] e o = o
  Owned-congr buf c d (x ∷ q) e o = (
    rw (← e) o.0,
    Owned-congr buf (c + 1) (d + 1) q
        (sym (mod-add-mod c cap 1) ∙ ap (λ t. (t + 1) % cap) e ∙ mod-add-mod d cap 1) o.1,
  )

  pub Owned-append :
      (buf : Slots T) (c : ℕ) (q p : List T)
      → Owned buf c q
      → Owned buf (c + length q) p
      → Owned buf c (q ++ p)
  Owned-append buf c [] p o r = subst (λ t. Owned buf t p) (omega arith) r
  Owned-append buf c (x ∷ q) p o r =
      (o.0, Owned-append buf (c + 1) q p o.1 (subst (λ t. Owned buf t p) (omega arith) r))

  pub Owned-prefix : (buf : Slots T) (c : ℕ) (q p : List T) → Owned buf c (q ++ p) → Owned buf c q
  Owned-prefix buf c [] p o = tt
  Owned-prefix buf c (x ∷ q) p o = (o.0, Owned-prefix buf (c + 1) q p o.1)

  pub Owned-suffix :
      (buf : Slots T) (c : ℕ) (q p : List T) → Owned buf c (q ++ p) → Owned buf (c + length q) p
  Owned-suffix buf c [] p o = subst (λ t. Owned buf t p) (omega arith) o
  Owned-suffix buf c (x ∷ q) p o =
      subst (λ t. Owned buf t p) (omega arith) (Owned-suffix buf (c + 1) q p o.1)

  -- An access to a position outside of the run leaves the run alone.
  pub Owned-set :
      (buf : Slots T) (c t i : ℕ) (v : Option T) (q : List T)
      → i ≡ t % cap
      → c + length q ≤ t
      → t < c + cap
      → Owned buf c q
      → Owned (set buf i v) c q
  Owned-set buf c t i v [] e lo hi o = o
  Owned-set buf c t i v (x ∷ q) e lo hi o = (
    get_elem?-set_ne buf v (λ same. mod_ne c t cap (omega arith) hi (sym (sym e ∙ same))) ∙ o.0,
    Owned-set buf (c + 1) t i v q e (omega arith) (omega arith) o.1,
  )

  -- A read before the run leaves it alone too.
  pub Owned-set_before :
      (buf : Slots T) (c t i : ℕ) (v : Option T) (q : List T)
      → i ≡ t % cap
      → t < c
      → c + length q ≤ t + cap
      → Owned buf c q
      → Owned (set buf i v) c q
  Owned-set_before buf c t i v [] e lo hi o = o
  Owned-set_before buf c t i v (x ∷ q) e lo hi o = (
    get_elem?-set_ne buf v (λ same. mod_ne t c cap lo (omega arith) (sym e ∙ same)) ∙ o.0,
    Owned-set_before buf (c + 1) t i v q e (omega arith) (omega arith) o.1,
  )

  -- What a read of the first slot of a run gives, and leaves.
  pub record Taken (buf : Slots T) (c i : ℕ) (x : T) (q : List T) : Type ℓ where
    pub rest : Slots T
    pub result : take_slot buf i ≡ some (x, rest)
    pub size : length rest ≡ length buf
    pub owned : Owned rest (c + 1) q

  pub take_slot-Taken :
      (buf : Slots T) (c i : ℕ) (x : T) (q : List T)
      → i ≡ c % cap
      → length q < cap
      → Owned buf c (x ∷ q)
      → Taken buf c i x q
  unfolding take_slot
  take_slot-Taken buf c i x q e room o = record {
    rest = set buf i none;
    result = rw (here, take_slot);
    size = length-set buf i none;
    owned = Owned-set_before buf (c + 1) c i none q e (omega arith) (omega arith) o.1;
  }
    where
      here : get_elem? buf i ≡ some (some x)
      here = rw e o.0

  -- What a write just past a run gives.
  pub record Stored (buf : Slots T) (c i : ℕ) (x : T) (q : List T) : Type ℓ where
    pub rest : Slots T
    pub result : put_slot buf i x ≡ some rest
    pub size : length rest ≡ length buf
    pub owned : Owned rest c (q ++ (x ∷ []))

  pub put_slot-Stored :
      (buf : Slots T) (c i : ℕ) (x : T) (q : List T)
      → length buf ≡ cap
      → i ≡ (c + length q) % cap
      → length q < cap
      → Owned buf c q
      → Stored buf c i x q
  unfolding put_slot
  put_slot-Stored buf c i x q size e room o = record {
    rest = set buf i (some x);
    result = ground arith;
    size = length-set buf i (some x);
    owned =
        Owned-append (set buf i (some x)) c q (x ∷ [])
          (Owned-set buf c (c + length q) i (some x) q e (omega arith) (omega arith) o)
          (rw (← e) (get_elem?-set_self buf i (some x) inside), tt);
  }
    where
      inside : i < length buf
      inside = omega (arith, e, size, mod-lt (c + length q) {m = cap} (omega arith))
