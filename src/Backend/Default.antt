-- ===== src/Backend/Default.antt =====
-- The default bulk move keeps the order and loses nothing, over any backend that is a queue.
use prescient.Prelude.{
  ℕ, zero, suc, ◌+◌, ◌≤◌, ◌≡◌, refl, ap, sym, subst, Option, some, List, [], ◌∷◌, ◌++◌, append-nil,
  append_assoc, length, Result, ok, err, ◌⊎◌, inl, inr, arith, Bool-cases,
}
use prescient.Batch.{Batch}
use prescient.Batch.Laws as BatchLaws
use prescient.Batch.Laws.{pop_front-nil, pop_front-restore_front}
use prescient.Backend.{default_push_from}
use prescient.Seg.{Seg, try_push}
use prescient.Seg.Refine.{Holds, try_push-Holds}

-- What a client may rely on: `try_push` appends the value, or returns it and changes nothing that is owned.
pub record TxLaws {ℓ κ μ} {S : Type ℓ} {T : Type κ}
    (try_push : S → T → Option (Result (Unit {0}) T × S)) : Type (ℓ ⊔ κ ⊔ (μ + 1)) where
  pub Owns : S → List T → Type μ
  pub push :
      (s : S) (q : List T) (x : T)
      → Owns s q
      → (s' : S) × (((try_push s x ≡ some (ok tt, s')) × Owns s' (q ++ (x ∷ [])))
          ⊎ ((try_push s x ≡ some (err x, s')) × Owns s' q))

module _ {ℓ κ μ} {S : Type ℓ} {T : Type κ} (try_push : S → T → Option (Result (Unit {0}) T × S))
    (laws : TxLaws {ℓ, κ, μ} try_push) where
  -- The endpoint, which owned `owned`, has refused the first value of `rest`.
  pub record Refused (tx : S) (owned rest : List T) : Type (ℓ ⊔ κ ⊔ μ) where
    pub before : S
    pub value : T
    pub others : List T
    pub first : rest ≡ value ∷ others
    pub held : laws.Owns before owned
    pub refused : try_push before value ≡ some (err value, tx)

  -- The outcome on an endpoint that owns `q` and a batch that holds `values`.
  pub record Moved (max : ℕ) (s : S) (source : Batch T) (q values : List T) : Type (ℓ ⊔ κ ⊔ μ) where
    pub tx : S
    pub batch : Batch T
    pub accepted : List T
    pub rest : List T
    pub result : default_push_from try_push max s source ≡ some (length accepted, tx, batch)
    pub split : values ≡ accepted ++ rest
    pub limit : length accepted ≤ max
    pub progress : (length accepted ≡ max) ⊎ ((rest ≡ []) ⊎ Refused tx (q ++ accepted) rest)
    pub owns : laws.Owns tx (q ++ accepted)
    pub unread : BatchLaws.Holds batch rest

  -- Over any endpoint with these laws, the default `push_from` moves a prefix of at most `max` values from the
  -- front of the batch to the end of the queue, in order. The others, the one that was refused included, stay
  -- in the batch in order, and the result is the count of values moved. It moves `max` values, unless the batch
  -- runs out, or `try_push` of the first value that stays refuses it behind those that were moved.
  pub default_push_from_refines :
      (max : ℕ) (s : S) (source : Batch T) (q values : List T)
      → laws.Owns s q
      → BatchLaws.Holds source values
      → Moved max s source q values
  unfolding default_push_from
  default_push_from_refines zero s source q values o h = record {
    tx = s;
    batch = source;
    accepted = [];
    rest = values;
    result = refl;
    split = refl;
    limit = omega arith;
    progress = inl refl;
    owns = subst (laws.Owns s) (sym (append-nil q)) o;
    unread = h;
  }
  default_push_from_refines (suc left) s source q [] o h = record {
    tx = s;
    batch = source;
    accepted = [];
    rest = [];
    result = rw (pop_front-nil source h) refl;
    split = refl;
    limit = omega arith;
    progress = inr (inl refl);
    owns = subst (laws.Owns s) (sym (append-nil q)) o;
    unread = h;
  }
  default_push_from_refines (suc left) s source q (x ∷ values) o h =
      let (source', popped, held, restored) = pop_front-restore_front source x values h in
      let (s', outcome) = laws.push s q x o in
      elim outcome [
        | inl (pushed, o') ↦
            let next = default_push_from_refines left s' source' (q ++ (x ∷ [])) values o' held in
            let count : length next.accepted + 1 ≡ length (x ∷ next.accepted) = omega arith in
            record {
              tx = next.tx;
              batch = next.batch;
              accepted = x ∷ next.accepted;
              rest = next.rest;
              result =
                  rw (popped, pushed, next.result) (ap (λ n. some (n, next.tx, next.batch)) count);
              split = ap (λ l. x ∷ l) next.split;
              limit = omega (arith, next.limit);
              progress = elim next.progress [
                | inl all ↦ inl (omega (arith, all))
                | inr stops ↦ elim stops [
                  | inl out ↦ inr (inl out)
                  | inr stuck ↦ inr (
                      inr (
                        subst (λ l. Refused next.tx l next.rest)
                          (append_assoc q (x ∷ []) next.accepted) stuck))
                ]
              ];
              owns = subst (laws.Owns next.tx) (append_assoc q (x ∷ []) next.accepted) next.owns;
              unread = next.unread;
            }
        | inr (refused, o') ↦ record {
          tx = s';
          batch = source;
          accepted = [];
          rest = x ∷ values;
          result = rw (popped, refused, restored) refl;
          split = refl;
          limit = omega arith;
          progress = inr (
              inr (record {
                before = s;
                value = x;
                others = values;
                first = refl;
                held = subst (laws.Owns s) (sym (append-nil q)) o;
                refused = refused;
              }));
          owns = subst (laws.Owns s') (sym (append-nil q)) o';
          unread = h;
        }
      ]

-- The segmented backend appends a value, or returns it once its consumer has gone.
pub try_push-Holds_or_back {ℓ} :
    {T : Type ℓ} (s : Seg T) (q : List T) (x : T)
    → Holds s q
    → (s' : Seg T) × (((try_push s x ≡ some (ok tt, s')) × Holds s' (q ++ (x ∷ [])))
        ⊎ ((try_push s x ≡ some (err x, s')) × Holds s' q))
unfolding try_push
try_push-Holds_or_back s q x h = elim (Bool-cases s.consumer_gone) [
  | inl gone ↦ (s, inr (rw gone refl, h))
  | inr here ↦ let (s', e, h') = try_push-Holds s q x h here in (s', inl (e, h'))
]

-- Its endpoint has no bulk move of its own.
abbrev pub seg_laws {ℓ} : {T : Type ℓ} → TxLaws {ℓ, ℓ, ℓ} (try_push {T = T})
seg_laws = record { Owns = Holds; push = try_push-Holds_or_back }
