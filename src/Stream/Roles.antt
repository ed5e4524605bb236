-- ===== src/Stream/Roles.antt =====
-- src/ipc/stream.rs: the flow of a direction, its roles, and their claims on the word that both processes share.
--
-- Only the low two bits of the claims are meant, so `current & !ROLE_CLAIM_MASK` is `current / 4`, bit 0 of `current` is
-- its remainder by 2, and `current | claim` for a bit that is not set adds it.
pub mod Exclusive
use prescient.Prelude.{
  ℕ, zero, suc, ◌+◌, ◌-◌, ◌*◌, ◌/◌, ◌%◌, List, [], ◌∷◌, Bool, true, false, not, ◌==◌, Result, ok,
  err, if◌then◌else◌,
}
use prescient.Stream.{ErrorKind, IoResult, ◌>>=◌, ◌>>◌, refuse_if, StreamShape, validate_shape}
use prescient.Stream.ErrorKind.{invalid_input, invalid_data, already_exists}

pub data StreamFlow : Type 0 where
  parent_to_worker : StreamFlow
  worker_to_parent : StreamFlow

abbrev pub flow_code : StreamFlow → ℕ
flow_code parent_to_worker = 1
flow_code worker_to_parent = 2

-- `StreamFlow::try_from`.
unfoldable pub flow_from : ℕ → IoResult StreamFlow
flow_from value =
    if value == 1
    then ok parent_to_worker
    else if value == 2
    then ok worker_to_parent
    else err invalid_input

-- `frame_flags`: `STREAM_FLAG` has no bit in common with a flow.
unfoldable pub frame_flags : StreamFlow → ℕ
frame_flags flow = 0x40 + flow_code flow

-- `arena_direction | RELEASE_ARENA_FLAG`.
abbrev pub release_direction : StreamFlow → ℕ
release_direction flow = 0x80000000 + flow_code flow

pub data DirectionRole : Type 0 where
  producer : DirectionRole
  consumer : DirectionRole

-- `DirectionRole::claim`.
abbrev pub claim : DirectionRole → ℕ
claim producer = 1
claim consumer = 2

-- `current & claim != 0`.
abbrev pub is_claimed : DirectionRole → ℕ → Bool
is_claimed producer current = not (current % 2 == 0)
is_claimed consumer current = not (current / 2 % 2 == 0)

-- One pass of the loop in `claim_direction_role`, whose exchange finds the value `current` that it loaded.
unfoldable pub claim_once : DirectionRole → ℕ → IoResult ℕ
claim_once role current = do
  refuse_if (not (current / 4 == 0)) invalid_data
  refuse_if (is_claimed role current) already_exists
  ok (current + claim role)

-- `claim_direction_role`, from the word that it has loaded. The exchange fails for each word of `observed`, which it finds
-- instead of the expected one (or as it, for the weak exchange), and succeeds on the pass after these.
unfoldable pub claim_direction_role :
    DirectionRole → (current : ℕ) → (observed : List ℕ) → IoResult ℕ
unfolding claim_once
claim_direction_role role current [] = claim_once role current
claim_direction_role role current (found ∷ observed) = do
  claim_once role current
  claim_direction_role role found observed

-- The other end, and the roles whose claims succeed, for claims that exchange the shared word one after the other.
abbrev pub other_role : DirectionRole → DirectionRole
other_role producer = consumer
other_role consumer = producer
