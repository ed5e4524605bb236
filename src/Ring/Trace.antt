-- ===== src/Ring/Trace.antt =====
-- Every run of the ring, with the two halves in any order and with loads that may be stale.
use mathlib.Core.List.{append_cancel_left, append_cancel_right}
use prescient.Prelude.{
  ℕ, ◌≤◌, ◌≡◌, ◌≢◌, refl, ap, ◌∙◌, sym, subst, none, some, List, [], ◌∷◌, inl, inr, ◌++◌, length,
  arith, append_assoc, ok, err,
}
use prescient.Batch.{Batch, as_slice}
use prescient.Batch.Laws as BatchLaws
use prescient.Batch.Laws.{clear-Holds}
use prescient.Ring.{Ring, ring, try_push, try_pop}
use prescient.Ring.Bulk.{push_from, drain_into}
use prescient.Ring.Teardown.{drop_inner}
use prescient.Ring.Invariant.{Holds, ring-Holds}
use prescient.Ring.Cursors.{RecentHead, RecentTail}
use prescient.Ring.Refine.{try_push_refines, try_pop_refines}
use prescient.Ring.PushFrom.{push_from_refines}
use prescient.Ring.DrainInto.{drain_into_refines}
use prescient.Ring.TeardownRefine.{drop_inner-Holds}

-- A ring with the values that were accepted so far and those that were delivered, each in order.
pub record History {ℓ} (T : Type ℓ) : Type ℓ where
  pub ring : Ring T
  pub sent : List T
  pub received : List T

module _ {ℓ} {T : Type ℓ} where
  -- One operation of one half, with the value `seen` that its load of the other cursor returned.
  pub data Step (h : History T) : History T → Type ℓ where
    accept :
        (x : T) (seen : ℕ) (r : Ring T)
        → RecentHead h.ring seen
        → try_push seen h.ring x ≡ some (ok tt, r)
        → Step h (record { ring = r; sent = h.sent ++ (x ∷ []); received = h.received })
    refuse :
        (x y : T) (seen : ℕ) (r : Ring T)
        → RecentHead h.ring seen
        → try_push seen h.ring x ≡ some (err y, r)
        → Step h (record { ring = r; sent = h.sent; received = h.received })
    deliver :
        (x : T) (seen : ℕ) (r : Ring T)
        → RecentTail h.ring seen
        → try_pop seen h.ring ≡ some (some x, r)
        → Step h (record { ring = r; sent = h.sent; received = h.received ++ (x ∷ []) })
    find_empty :
        (seen : ℕ) (r : Ring T)
        → RecentTail h.ring seen
        → try_pop seen h.ring ≡ some (none, r)
        → Step h (record { ring = r; sent = h.sent; received = h.received })
    accept_batch :
        (seen max n : ℕ) (r : Ring T) (source rest : Batch T) (xs ys : List T)
        → RecentHead h.ring seen
        → BatchLaws.Holds source (xs ++ ys)
        → push_from seen max h.ring source ≡ some (n, r, rest)
        → as_slice rest ≡ some ys
        → Step h (record { ring = r; sent = h.sent ++ xs; received = h.received })
    deliver_batch :
        (seen max n : ℕ) (r : Ring T) (out more : Batch T) (xs ys : List T)
        → RecentTail h.ring seen
        → BatchLaws.Holds out xs
        → drain_into seen max h.ring out ≡ some (n, r, more)
        → as_slice more ≡ some (xs ++ ys)
        → Step h (record { ring = r; sent = h.sent; received = h.received ++ ys })

  pub data Reach (capacity : ℕ) : History T → Type ℓ where
    start :
        {r : Ring T}
        → ring capacity ≡ some r
        → Reach capacity (record { ring = r; sent = []; received = [] })
    next : {h k : History T} → Reach capacity h → Step h k → Reach capacity k

  -- The ring holds what was sent and not received.
  pub record InFlight (h : History T) : Type ℓ where
    pub queue : List T
    pub held : Holds h.ring queue
    pub order : h.sent ≡ h.received ++ queue

  -- Equal batches show equal values.
  same_slice :
      (b c : Batch T) (q p : List T) → BatchLaws.Holds b q → as_slice c ≡ some p → b ≡ c → q ≡ p
  same_slice b c q p h slice e =
      let shown : as_slice b ≡ some q = (clear-Holds b q h).1 in cc (ap as_slice e)

  Step-InFlight : {h k : History T} → Step h k → InFlight h → InFlight k
  Step-InFlight {h} (accept x seen r w e) f =
      elim (try_push_refines h.ring f.queue seen x f.held w).1 [
        | inl done ↦ record {
          queue = f.queue ++ (x ∷ []);
          held = subst (λ t. Holds t (f.queue ++ (x ∷ []))) (cc) done.1;
          order = rw (f.order, append_assoc);
        }
        | inr refused ↦ absurd (cc)
      ]
  Step-InFlight {h} (refuse x y seen r w e) f =
      elim (try_push_refines h.ring f.queue seen x f.held w).1 [
        | inl done ↦ absurd (cc)
        | inr refused ↦ record {
          queue = f.queue;
          held = subst (λ t. Holds t f.queue) (cc) refused.1;
          order = f.order;
        }
      ]
  Step-InFlight {h} (deliver x seen r w e) f =
      elim (try_pop_refines h.ring f.queue seen f.held w).1 [
        | inl (y, p, split, done, held) ↦ record {
          queue = p;
          held = subst (λ t. Holds t p) (cc) held;
          order =
              f.order
              ∙ ap (λ l. h.received ++ l) (split ∙ cc)
              ∙ sym (append_assoc h.received (x ∷ []) p);
        }
        | inr found ↦ absurd (cc)
      ]
  Step-InFlight {h} (find_empty seen r w e) f =
      elim (try_pop_refines h.ring f.queue seen f.held w).1 [
        | inl (y, p, split, done, held) ↦ absurd (cc)
        | inr found ↦ record {
          queue = f.queue;
          held = subst (λ t. Holds t f.queue) (cc) found.1;
          order = f.order;
        }
      ]
  Step-InFlight {h} (accept_batch seen max n r source rest xs ys w b e slice) f =
      let p = push_from_refines h.ring f.queue (xs ++ ys) seen max source f.held w b in
      let left : p.rest ≡ ys = same_slice p.batch rest p.rest ys p.unread slice (cc (p.result)) in
      let moved : xs ≡ p.accepted =
        append_cancel_right xs p.accepted ys (p.split ∙ ap (λ l. p.accepted ++ l) left) in
      record {
        queue = f.queue ++ xs;
        held =
            subst (λ l. Holds r (f.queue ++ l)) (sym moved)
              (subst (λ t. Holds t (f.queue ++ p.accepted)) (cc (p.result)) p.held);
        order = rw (f.order, append_assoc);
      }
  Step-InFlight {h} (deliver_batch seen max n r out more xs ys w b e slice) f =
      let d = drain_into_refines h.ring f.queue xs seen max out f.held w b in
      let grown : xs ++ d.taken ≡ xs ++ ys =
        same_slice d.batch more (xs ++ d.taken) (xs ++ ys) d.unread slice (cc (d.result)) in
      let moved : d.taken ≡ ys = append_cancel_left xs d.taken ys grown in
      record {
        queue = d.rest;
        held = subst (λ t. Holds t d.rest) (cc (d.result)) d.held;
        order =
            f.order
            ∙ ap (λ l. h.received ++ l) (d.split ∙ ap (λ l. l ++ d.rest) moved)
            ∙ sym (append_assoc h.received ys d.rest);
      }

  Reach-InFlight : (capacity : ℕ) (h : History T) → Reach capacity h → InFlight h
  Reach-InFlight capacity h (start built) = record {
    queue = [];
    held = (ring-Holds T capacity built).0;
    order = refl;
  }
  Reach-InFlight capacity h (next reach step) = Step-InFlight step (Reach-InFlight capacity _ reach)

  -- First in, first out, in every run of `try_push`, `try_pop`, `push_from` and `drain_into`: the values that were received are the first of those that were sent,
  -- in the order of sending and each once, and the release of the last owner drops exactly the others. Any
  -- load may be stale, as long as each half sees the other's cursor move forwards.
  pub fifo :
      (capacity : ℕ) (h : History T)
      → Reach capacity h
      → (q : List T) × (h.sent ≡ h.received ++ q)
        × (drop_inner h.ring ≡ some q)
        × (length q ≤ h.ring.cap)
  fifo capacity h reach =
      let f = Reach-InFlight capacity h reach in
      (
        f.queue,
        f.order,
        drop_inner-Holds h.ring f.queue f.held,
        omega (arith, f.held.size, f.held.valid.fits, f.held.valid.head_lags),
      )

  -- No run reaches undefined behaviour or a panic: after it, whatever recent cursor a load returns, `try_push`,
  -- `try_pop`, `push_from` and `drain_into` each have an outcome, on any batches with unread values in order.
  pub no_undefined_behaviour :
      (capacity : ℕ) (h : History T) (seen_head seen_tail max : ℕ) (x : T) (source out : Batch T)
      (s o : List T)
      → Reach capacity h
      → RecentHead h.ring seen_head
      → RecentTail h.ring seen_tail
      → BatchLaws.Holds source s
      → BatchLaws.Holds out o
      → (try_push seen_head h.ring x ≢ none)
        × (try_pop seen_tail h.ring ≢ none)
        × (push_from seen_head max h.ring source ≢ none)
        × (drain_into seen_tail max h.ring out ≢ none)
  no_undefined_behaviour capacity h seen_head seen_tail max x source out s o reach w v b c =
      let f = Reach-InFlight capacity h reach in
      (
        λ none_left. elim (try_push_refines h.ring f.queue seen_head x f.held w).1 [
          | inl done ↦ cc
          | inr refused ↦ cc
        ],
        λ none_left. elim (try_pop_refines h.ring f.queue seen_tail f.held v).1 [
          | inl (y, p, split, done, held) ↦ cc
          | inr found ↦ cc
        ],
        λ none_left.
            cc ((push_from_refines h.ring f.queue s seen_head max source f.held w b).result),
        λ none_left. cc ((drain_into_refines h.ring f.queue o seen_tail max out f.held v c).result),
      )
