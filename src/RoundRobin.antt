-- ===== src/RoundRobin.antt =====
-- src/round_robin.rs: positions of a scan over lanes.
pub mod Fairness
mod Tests
use prescient.Prelude.{ℕ, zero, suc, ◌+◌, List, [], ◌∷◌, ltb, if◌then◌else◌}

-- `index`, whose callers have `len > 0`.
unfoldable pub index : ℕ → ℕ → ℕ
index cursor len = if ltb cursor len then cursor else 0

-- `next`: the slot and the new cursor, which is at most `len`.
unfoldable pub next : ℕ → ℕ → ℕ × ℕ
unfolding index
next cursor len = let i = index cursor len in (i, i + 1)

-- The slots that `n` calls of `next` select.
unfoldable pub selected : ℕ → ℕ → ℕ → List ℕ
unfolding next
selected zero cursor len = []
selected (suc n) cursor len = (next cursor len).0 ∷ selected n (next cursor len).1 len
