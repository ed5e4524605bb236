-- ===== src/Broadcast/Membership.antt =====
-- Membership: readers join, suspend, resume and leave.
use mathlib.Core.Option
use prescient.Prelude.{
  ℕ, zero, suc, ◌-◌, ◌^◌, ◌≤◌, ◌<◌, ◌≡◌, refl, ap, sym, ◌∙◌, subst, List, [], ◌∷◌, true, false,
  Option, none, some, get_elem?, get_elem?-set_self, lt-length_of_get_elem?, All, All-get, arith,
  Bool-cases, Option-cases, ◌⊎◌, inl, inr, leb, replicate, min, drop, length-replicate,
}
use prescient.Word.{checked_next_power_of_two}
use prescient.Word.Rounding.{
  IsRounded, checked_next_power_of_two-IsRounded, checked_next_power_of_two-eq-some,
}
use prescient.Slots.{uninit}
use prescient.Slots.Laws.{Owned}
use prescient.Broadcast.{
  ReaderSlot, Broadcast, vacant, joined, open_broadcast, with_slot, suspend, resume, drop_reader,
  find_free, subscribe,
}
use prescient.Broadcast.Invariant.{IsPlaced, IsValid}
use prescient.Broadcast.Receive.{with_slot-IsValid}

-- Every slot is reserved.
abbrev pub AllReserved : List ReaderSlot → Type 0
AllReserved = All (λ s. s.reserved ≡ true)

-- What the search for a slot finds: none where all are reserved, or else the first that is not.
abbrev pub FirstFree : List ReaderSlot → Option ℕ → Type 0
FirstFree slots none = AllReserved slots
FirstFree slots (some i) =
    ((s : ReaderSlot) × (get_elem? slots i ≡ some s) × (s.reserved ≡ false))
    × ((j : ℕ) (s : ReaderSlot) → j < i → get_elem? slots j ≡ some s → s.reserved ≡ true)

FirstFree-cons :
    (s : ReaderSlot) (slots : List ReaderSlot) (rest : Option ℕ)
    → s.reserved ≡ true
    → FirstFree slots rest
    → FirstFree (s ∷ slots) (Option.map suc rest)
FirstFree-cons s slots none r f = (r, f)
FirstFree-cons s slots (some i) r ((t, e, free), before) = ((t, e, free), earlier)
  where
    earlier :
        (j : ℕ) (u : ReaderSlot) → j < suc i → get_elem? (s ∷ slots) j ≡ some u → u.reserved ≡ true
    earlier zero u lt here =
        let same : s ≡ u = cc in subst (λ (t : ReaderSlot). t.reserved ≡ true) same r
    earlier (suc j) u lt here = before j u (omega arith) here

pub find_free-FirstFree : (slots : List ReaderSlot) → FirstFree slots (find_free slots)
unfolding find_free
find_free-FirstFree [] = tt
find_free-FirstFree (s ∷ slots) = elim (Bool-cases s.reserved) [
  | inl r ↦
      let found : find_free (s ∷ slots) ≡ Option.map suc (find_free slots) = simp r in
      subst (FirstFree (s ∷ slots)) (sym found)
        (FirstFree-cons s slots (find_free slots) r (find_free-FirstFree slots))
  | inr free ↦
      let found : find_free (s ∷ slots) ≡ some 0 = simp free in
      subst (FirstFree (s ∷ slots)) (sym found) ((s, refl, free), λ j u lt e. absurd (omega arith))
]

module _ {ℓ} {T : Type ℓ} where
  -- A reader at the next value to be written, which gates.
  joined-IsPlaced :
      (b : Broadcast T) (log : List T) → IsValid b log → IsPlaced b.w b.min_cache (joined b.w)
  joined-IsPlaced b log v = record {
    active = λ gates. (refl, refl, refl, v.low, omega arith);
    idle = λ idle. cc;
  }

  -- `subscribe` fails exactly where every slot is reserved, and else takes the first slot that is not: the new
  -- reader gates there, awake, at the next value to be published, and the channel is valid with the same log.
  pub subscribe_refines :
      (b : Broadcast T) (log : List T)
      → IsValid b log
      → ((subscribe b ≡ none) × AllReserved b.slots)
        ⊎ ((i : ℕ) × (b' : Broadcast T) × (subscribe b ≡ some (i, b'))
            × FirstFree b.slots (some i)
            × (b' ≡ with_slot b i (joined b.w))
            × (get_elem? b'.slots i ≡ some (joined b.w))
            × IsValid b' log)
  unfolding subscribe
  subscribe_refines b log v = elim (Option-cases (find_free b.slots)) [
    | inl e ↦ inl (rw e, subst (FirstFree b.slots) e (find_free-FirstFree b.slots))
    | inr (i, e) ↦
        let found : FirstFree b.slots (some i) =
          subst (FirstFree b.slots) e (find_free-FirstFree b.slots) in
        inr (
          i,
          with_slot b i (joined b.w),
          rw e,
          found,
          refl,
          get_elem?-set_self b.slots i (joined b.w)
              (lt-length_of_get_elem? b.slots i found.0.0 found.0.1),
          with_slot-IsValid b log i (joined b.w) v (joined-IsPlaced b log v),
        )
  ]

  -- After `suspend` the reader does not gate and keeps its slot, and the channel is valid with the same log.
  pub suspend-IsValid :
      (b : Broadcast T) (log : List T) (i : ℕ) (s : ReaderSlot)
      → IsValid b log
      → get_elem? b.slots i ≡ some s
      → s.reserved ≡ true
      → IsValid (suspend b i s) log
        × (s' : ReaderSlot) × (get_elem? (suspend b i s).slots i ≡ some s')
        × (s'.gating ≡ false)
        × (s'.reserved ≡ true)
        × (s'.suspended ≡ true)
  unfolding suspend
  suspend-IsValid b log i s v e r = elim (Bool-cases s.suspended) [
    | inl asleep ↦
        let same : suspend b i s ≡ b = simp asleep in
        subst Suspended (sym same) (v, s, e, idle asleep, r, asleep)
    | inr awake ↦
        let same : suspend b i s ≡ with_slot b i off = simp awake in
        subst Suspended (sym same) (
          with_slot-IsValid b log i off v (record { active = λ gates. cc; idle = λ g o. refl }),
          off,
          get_elem?-set_self b.slots i off (lt-length_of_get_elem? b.slots i s e),
          refl,
          r,
          refl,
        )
  ]
    where
      off : ReaderSlot
      off = record s { gating = false; suspended = true }

      idle : s.suspended ≡ true → s.gating ≡ false
      idle asleep = elim (Bool-cases s.gating) [
        | inl gates ↦
            let awake =
              ((All-get (IsPlaced b.w b.min_cache) b.slots i s v.placed e).active gates).1 in
            absurd (cc)
        | inr g ↦ g
      ]

      Suspended : Broadcast T → Type ℓ
      Suspended b' =
          IsValid b' log
          × (s' : ReaderSlot) × (get_elem? b'.slots i ≡ some s')
          × (s'.gating ≡ false)
          × (s'.reserved ≡ true)
          × (s'.suspended ≡ true)

  -- After `resume` of a suspended reader it gates, awake, at the next value to be published; a reader that is
  -- awake is left as it is. The channel is valid with the same log.
  pub resume-IsValid :
      (b : Broadcast T) (log : List T) (i : ℕ) (s : ReaderSlot)
      → IsValid b log
      → get_elem? b.slots i ≡ some s
      → s.reserved ≡ true
      → IsValid (resume b i s) log
        × (((s.suspended ≡ true) × (get_elem? (resume b i s).slots i ≡ some (joined b.w)))
            ⊎ ((s.suspended ≡ false) × (resume b i s ≡ b)))
  unfolding resume
  resume-IsValid b log i s v e r = elim (Bool-cases s.suspended) [
    | inl asleep ↦
        let same : resume b i s ≡ with_slot b i (joined b.w) = simp (asleep, r) in
        (
          subst (λ b'. IsValid b' log) (sym same)
              (with_slot-IsValid b log i (joined b.w) v (joined-IsPlaced b log v)),
          inl (
            asleep,
            ap (λ (b' : Broadcast T). get_elem? b'.slots i) same
                ∙ get_elem?-set_self b.slots i (joined b.w) (lt-length_of_get_elem? b.slots i s e),
          ),
        )
    | inr awake ↦
        let same : resume b i s ≡ b = simp awake in
        (subst (λ b'. IsValid b' log) (sym same) v, inr (awake, same))
  ]

  -- A reader that leaves gives its slot back and gates no more, and the channel is valid with the same log.
  pub drop_reader-IsValid :
      (b : Broadcast T) (log : List T) (i : ℕ) (s : ReaderSlot)
      → IsValid b log
      → get_elem? b.slots i ≡ some s
      → IsValid (drop_reader b i s) log
        × (s' : ReaderSlot) × (get_elem? (drop_reader b i s).slots i ≡ some s')
        × (s'.gating ≡ false)
        × (s'.reserved ≡ false)
  unfolding drop_reader
  drop_reader-IsValid b log i s v e = (
    with_slot-IsValid b log i gone v (record { active = λ gates. cc; idle = λ idle r. cc }),
    gone,
    get_elem?-set_self b.slots i gone (lt-length_of_get_elem? b.slots i s e),
    refl,
    refl,
  )
    where
      gone : ReaderSlot
      gone = record s { gating = false; reserved = false }

  -- `open` with 1 to 64 readers and a capacity of at most 2 ^ 63: a valid channel without values, of which
  -- the first of `max_readers` slots is taken by an awake reader at the first value. Its capacity is the
  -- least power of two that is at least the requested one.
  pub open_broadcast_refines :
      (capacity max_readers : ℕ)
      → 1 ≤ max_readers
      → max_readers ≤ 64
      → capacity ≤ 2 ^ 63
      → (b : Broadcast T) × (open_broadcast capacity max_readers ≡ some b)
        × IsRounded 0 capacity b.cap
        × (b.slots ≡ joined 0 ∷ replicate (max_readers - 1) vacant)
        × IsValid b []
  unfolding open_broadcast
  open_broadcast_refines capacity max_readers one most h =
      (opened, rw (lower, upper, e), rounded, refl, valid)
    where
      lower : leb 1 max_readers ≡ true
      lower = ground arith

      upper : leb max_readers 64 ≡ true
      upper = ground arith

      size : ℕ
      size = (checked_next_power_of_two-eq-some capacity h).0

      e : checked_next_power_of_two capacity ≡ some size
      e = (checked_next_power_of_two-eq-some capacity h).1

      rounded : IsRounded 0 capacity size
      rounded = (checked_next_power_of_two-IsRounded capacity e).0

      small : rounded.exponent ≤ 63
      small = omega (arith, (checked_next_power_of_two-IsRounded capacity e).1)

      opened : Broadcast T
      opened = record {
        buf = uninit size;
        mask = size - 1;
        cap = size;
        w = 0;
        slots = joined 0 ∷ replicate (max_readers - 1) vacant;
        producer_gone = false;
        min_cache = 0;
      }

      start : 0 - min 0 size ≡ 0
      start = omega arith

      vacant-IsPlaced : (n : ℕ) → All (IsPlaced 0 0) (replicate n vacant)
      vacant-IsPlaced zero = tt
      vacant-IsPlaced (suc n) =
          (record { active = λ gates. cc; idle = λ idle r. cc }, vacant-IsPlaced n)

      valid : IsValid opened []
      valid = record {
        shape = record {
          exponent = rounded.exponent;
          small = small;
          power = rounded.power;
          low = refl;
        };
        storage = length-replicate size none;
        word = omega arith;
        count = refl;
        low = omega arith;
        window = omega arith;
        live = subst (λ c. Owned {T = T} size (uninit size) c (drop c [])) (sym start) tt;
        placed = (
          record {
            active = λ gates. (refl, refl, refl, omega arith, omega arith);
            idle = λ idle. cc;
          },
          vacant-IsPlaced (max_readers - 1),
        );
      }
