-- ===== src/Broadcast/Receive.antt =====
-- Reception: what a reader is handed, and what the release of the channel drops.
use Prim.Native.Nat.{bit_and}
use prescient.Prelude.{
  ℕ, zero, suc, ◌+◌, ◌-◌, ◌≤◌, ◌<◌, ◌≡◌, refl, ◌∙◌, subst, List, [], ◌∷◌, true, false, none, some,
  min, take, drop, map, length, length-drop, get_elem?, All-get, All-set, arith, drop-cons, ltb,
  Bool-cases, ==-cases, ◌⊎◌, inl, inr,
}
use prescient.Word.{word_size, wrapping_add, wrapping_sub}
use prescient.Slots.{Slots}
use prescient.Slots.Laws.{Owned, take_slot-Taken}
use prescient.Ring.Invariant.{IsShape}
use prescient.Broadcast.{
  ReaderSlot, Broadcast, with_slot, clone_slot, try_recv, drain_loop, drain, drop_live, drop_shared,
}
use prescient.Broadcast.Invariant.{IsPlaced, IsValid, index-eq-mod, live_value}

module _ {ℓ} {T : Type ℓ} where
  -- A change of one slot that leaves it placed.
  pub with_slot-IsValid :
      (b : Broadcast T) (log : List T) (i : ℕ) (s : ReaderSlot)
      → IsValid b log
      → IsPlaced b.w b.min_cache s
      → IsValid (with_slot b i s) log
  with_slot-IsValid b log i s v p = record {
    shape = v.shape;
    storage = v.storage;
    word = v.word;
    count = v.count;
    low = v.low;
    window = v.window;
    live = v.live;
    placed = All-set (IsPlaced b.w b.min_cache) b.slots i s v.placed p;
  }

  -- The reader in slot `i` with `n` more values behind it.
  abbrev pub advanced : Broadcast T → ℕ → ReaderSlot → ℕ → Broadcast T
  advanced b i s n = with_slot b i (record s { position = s.position + n; cursor = s.position + n })

  -- Where an active reader stands.
  record Active (b : Broadcast T) (s : ReaderSlot) : Type 0 where
    gates : s.gating ≡ true
    reserved : s.reserved ≡ true
    awake : s.suspended ≡ false
    placed : b.min_cache ≤ s.position
    near : b.w ≤ s.position + b.cap
    behind : s.position ≤ b.w

  Active-of_awake :
      (b : Broadcast T) (log : List T) (i : ℕ) (s : ReaderSlot)
      → IsValid b log
      → get_elem? b.slots i ≡ some s
      → s.reserved ≡ true
      → s.suspended ≡ false
      → Active b s
  Active-of_awake b log i s v e r awake =
      let p = All-get (IsPlaced b.w b.min_cache) b.slots i s v.placed e in
      elim (Bool-cases s.gating) [
        | inl gates ↦
            let (a, c, same, low, high) = p.active gates in
            record {
              gates = gates;
              reserved = a;
              awake = c;
              placed = omega (arith, same, low);
              near = omega (arith, same, low, v.window);
              behind = omega (arith, same, high);
            }
        | inr idle ↦ let asleep = p.idle idle r in absurd (cc)
      ]

  advanced-IsValid :
      (b : Broadcast T) (log : List T) (i : ℕ) (s : ReaderSlot) (n : ℕ)
      → IsValid b log
      → Active b s
      → s.position + n ≤ b.w
      → IsValid (advanced b i s n) log
  advanced-IsValid b log i s n v a fits =
      with_slot-IsValid b log i (record s { position = s.position + n; cursor = s.position + n }) v
        (record {
          active = λ gates. (a.reserved, a.awake, refl, omega (arith, a.placed), fits);
          idle = λ idle. absurd (idle_gates idle);
        })
    where
      idle_gates : s.gating ≡ false → ⊥
      idle_gates idle = let g = a.gates in cc

  module _ (clone : T → T) where
    clone_slot-eq :
        (buf : Slots T) (i : ℕ) (x : T)
        → get_elem? buf i ≡ some (some x)
        → clone_slot clone buf i ≡ some (clone x)
    unfolding clone_slot
    clone_slot-eq buf i x e = rw (e, clone_slot)

    -- The loop of `drain` clones consecutive published values.
    drain_loop_clones :
        (b : Broadcast T) (log : List T) (n c : ℕ)
        → IsValid b log
        → c + n ≤ b.w
        → b.w ≤ c + b.cap
        → drain_loop clone b.buf b.mask n c ≡ some (map clone (take n (drop c log)))
    unfolding drain_loop
    drain_loop_clones b log zero c v fits near = refl
    drain_loop_clones b log (suc n) c v fits near =
        let (x, split, here) = drop-cons c log (omega (arith, v.count, fits)) in
        let stored =
          clone_slot-eq b.buf (bit_and c b.mask) x
            (live_value b log c x v (omega (arith, fits)) near here) in
        let next : wrapping_add c 1 ≡ suc c = omega (arith, v.word, fits) in
        rw (
          stored,
          next,
          drain_loop_clones b log n (suc c) v (omega (arith, fits)) (omega (arith, near)),
          split,
        )

    -- `try_recv` of a subscribed reader. A suspended reader, or one that has seen every value, gets nothing and
    -- stays as it is; any other one gets a clone of the value at its position and moves on by one. The
    -- branch that skips values is never taken.
    pub try_recv_refines :
        (b : Broadcast T) (log : List T) (i : ℕ) (s : ReaderSlot)
        → IsValid b log
        → get_elem? b.slots i ≡ some s
        → s.reserved ≡ true
        → ((try_recv clone b i s ≡ some (none, b)) × ((s.suspended ≡ true) ⊎ (s.position ≡ b.w)))
          ⊎ ((x : T) × (get_elem? log s.position ≡ some x)
              × (s.suspended ≡ false)
              × (try_recv clone b i s ≡ some (some (clone x), advanced b i s 1))
              × IsValid (advanced b i s 1) log)
    unfolding try_recv
    try_recv_refines b log i s v e r = elim (Bool-cases s.suspended) [
      | inl asleep ↦ inl (rw asleep, inl asleep)
      | inr awake ↦ elim (==-cases s.position b.w) [
        | inl (t, same) ↦ inl (rw (awake, t), inr same)
        | inr (t, differ) ↦
            let a = Active-of_awake b log i s v e r awake in
            let behind : s.position < b.w = omega (arith, a.behind, differ) in
            let guard : ltb b.cap (wrapping_sub b.w s.position) ≡ false =
              ground (arith, behind, v.word, a.near) in
            let (x, split, here) = drop-cons s.position log (omega (arith, v.count, behind)) in
            let stored =
              clone_slot-eq b.buf (bit_and s.position b.mask) x
                (live_value b log s.position x v behind a.near here) in
            let next : wrapping_add s.position 1 ≡ s.position + 1 = omega (arith, v.word, behind) in
            inr (
              x,
              here,
              awake,
              rw (awake, t, guard, stored, next),
              advanced-IsValid b log i s 1 v a (omega (arith, behind)),
            )
      ]
    ]

    -- `drain` of a subscribed reader that is not suspended hands on, in order, clones of the next values of the
    -- log, `max` of them or as many as there are, and the reader has then moved past exactly those; at the end of
    -- the log the channel stays as it is.
    pub drain_refines :
        (max : ℕ) (b : Broadcast T) (log : List T) (i : ℕ) (s : ReaderSlot)
        → IsValid b log
        → get_elem? b.slots i ≡ some s
        → s.reserved ≡ true
        → s.suspended ≡ false
        → (b' : Broadcast T) × (drain clone max b i s
            ≡ some (map clone (take (min (b.w - s.position) max) (drop s.position log)), b'))
          × (((s.position ≡ b.w) × (b' ≡ b))
              ⊎ ((s.position < b.w) × (b' ≡ advanced b i s (min (b.w - s.position) max))))
          × IsValid b' log
    unfolding drain
    drain_refines max b log i s v e r awake = elim (==-cases s.position b.w) [
      | inl (t, same) ↦
          let count : min (b.w - s.position) max ≡ 0 = omega (arith, same) in
          (b, rw (awake, t, count), inl (same, refl), v)
      | inr (t, differ) ↦
          let behind : s.position < b.w = omega (arith, a.behind, differ) in
          let guard : ltb b.cap (wrapping_sub b.w s.position) ≡ false =
            ground (arith, behind, v.word, a.near) in
          let lag : wrapping_sub b.w s.position ≡ b.w - s.position =
            omega (arith, behind, v.word) in
          let n = min (b.w - s.position) max in
          let fits : s.position + n ≤ b.w = omega (arith, behind) in
          let next : wrapping_add s.position n ≡ s.position + n = omega (arith, v.word, fits) in
          let loop = drain_loop_clones b log n s.position v fits a.near in
          (
            advanced b i s n,
            rw (awake, t, guard, lag, loop, next),
            inr (behind, refl),
            advanced-IsValid b log i s n v a fits,
          )
    ]
      where
        a : Active b s
        a = Active-of_awake b log i s v e r awake

    -- A suspended reader is handed nothing.
    pub drain-suspended :
        (max : ℕ) (b : Broadcast T) (i : ℕ) (s : ReaderSlot)
        → s.suspended ≡ true
        → drain clone max b i s ≡ some ([], b)
    unfolding drain
    drain-suspended max b i s asleep = simp asleep

  -- The loop of `Shared::drop` takes what a run of slots owns.
  drop_live_all :
      (cap mask w : ℕ) (buf : Slots T) (c : ℕ) (q : List T)
      → IsShape cap mask
      → w < word_size
      → c + length q ≤ w
      → length q ≤ cap
      → Owned cap buf c q
      → drop_live (length q) buf mask c ≡ some q
  unfolding drop_live
  drop_live_all cap mask w buf c [] shape word fits room o = refl
  drop_live_all cap mask w buf c (x ∷ q) shape word fits room o =
      let here = index-eq-mod cap mask c shape (omega (arith, word, fits)) in
      let taken = take_slot-Taken cap buf c (bit_and c mask) x q here (omega arith) o in
      rw (
        taken.result,
        drop_live_all cap mask w taken.rest (c + 1) q shape word (omega arith) (omega arith)
            taken.owned,
      )

  -- The release of the channel drops exactly the last `cap` published values, or all of them if there are
  -- fewer, oldest first.
  pub drop_shared_live :
      (b : Broadcast T) (log : List T)
      → IsValid b log
      → drop_shared b ≡ some (drop (b.w - min b.w b.cap) log)
  unfolding drop_shared
  drop_shared_live b log v =
      subst (λ n. drop_live n b.buf b.mask start ≡ some kept) count
        (drop_live_all b.cap b.mask b.w b.buf start kept v.shape v.word (omega (arith, count))
          (omega (arith, count)) v.live)
    where
      start : ℕ
      start = b.w - min b.w b.cap

      kept : List T
      kept = drop start log

      count : length kept ≡ min b.w b.cap
      count = length-drop start log ∙ omega (arith, v.count)
