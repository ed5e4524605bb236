-- ===== src/Stream/Direction.antt =====
-- src/ipc/stream.rs: a direction, which is an arena for data and one for releases, created by one process and opened by the
-- other. Its regions are kept beside it, as `Regions`, and a region's handle is the length that it states.
pub mod Paired
pub mod Delivery
use prescient.Prelude.{ℕ, ◌+◌, ◌*◌, ◌^◌, List, [], ◌∷◌, Bool, ◌==◌, Result, ok, err}
use prescient.Stream.{
  ErrorKind, IoResult, ◌>>=◌, ◌>>◌, refuse_if, StreamShape, validate_shape, resident_bytes,
}
use prescient.Stream.ErrorKind.{invalid_input}
use prescient.Stream.Layout.{descriptor_capacity}
use prescient.Stream.Memory.{Memory}
use prescient.Stream.Arena.{Arena}
use prescient.Stream.Roles.{
  StreamFlow, flow_code, release_direction, DirectionRole, claim_direction_role,
}
use prescient.Stream.Setup.{
  Contract, role_claims_offset, read_word, write_word, create_arena, open_arena,
}
use prescient.Stream.Producer.{Regions, Report}

-- `EndpointOptions`, with the timeout in nanoseconds.
pub record EndpointOptions : Type 0 where
  pub lock_memory : Bool
  pub timeout : ℕ

unfoldable pub validate_options : EndpointOptions → IoResult (Unit {0})
validate_options options = refuse_if (options.timeout == 0) invalid_input

pub record DirectionConfig : Type 0 where
  pub shape : StreamShape
  pub transfer_id : ℕ
  pub flow : StreamFlow
  pub options : EndpointOptions

-- `DirectionConfig::validate`.
unfoldable pub validate_config : DirectionConfig → IoResult (Unit {0})
validate_config config = do
  validate_shape config.shape
  refuse_if (config.transfer_id == 0) invalid_input
  validate_options config.options

pub record DirectionHandle : Type 0 where
  pub data_len : ℕ
  pub releases_len : ℕ
  pub shape : StreamShape
  pub transfer_id : ℕ
  pub flow : StreamFlow

-- `DirectionHandle::from_parts`.
unfoldable pub from_parts :
    (data_len releases_len : ℕ)
    → StreamShape
    → (transfer_id : ℕ) → StreamFlow
    → IoResult DirectionHandle
from_parts data_len releases_len shape transfer_id flow = do
  validate_shape shape
  refuse_if (transfer_id == 0) invalid_input
  ok (record {
    data_len = data_len;
    releases_len = releases_len;
    shape = shape;
    transfer_id = transfer_id;
    flow = flow;
  })

pub record Direction : Type 0 where
  pub data_arena : Arena
  pub release_arena : Arena
  pub shape : StreamShape
  pub transfer_id : ℕ
  pub flow : StreamFlow
  pub options : EndpointOptions

-- What `Arena::create` and `Arena::open` are given for the two arenas.
abbrev pub data_contract : StreamShape → (capacity transfer_id : ℕ) → StreamFlow → Contract
data_contract shape capacity transfer_id flow = record {
  slots = shape.slots;
  slot_len = shape.chunk_bytes;
  descriptor_capacity = capacity;
  transfer_id = transfer_id;
  direction = flow_code flow;
}

abbrev pub release_contract : (capacity transfer_id : ℕ) → StreamFlow → Contract
release_contract capacity transfer_id flow = record {
  slots = 0;
  slot_len = 0;
  descriptor_capacity = capacity;
  transfer_id = transfer_id;
  direction = release_direction flow;
}

-- `Arena::claim_role`. `observed` is what failed exchanges have found.
unfoldable pub claim_role : DirectionRole → (observed : List ℕ) → Memory → IoResult Memory
claim_role role observed memory = do
  claims ← claim_direction_role role (read_word 4 role_claims_offset memory) observed
  ok (write_word 4 role_claims_offset claims memory)

abbrev pub direction_of : DirectionConfig → (bulk releases : Arena × Memory × ℕ) → Direction
direction_of config bulk releases = record {
  data_arena = bulk.0;
  release_arena = releases.0;
  shape = config.shape;
  transfer_id = config.transfer_id;
  flow = config.flow;
  options = config.options;
}

-- The last steps of `Direction::create`, with both arenas, their regions and lengths.
abbrev pub claimed_direction :
    DirectionConfig
    → (bulk releases : Arena × Memory × ℕ) → Memory
    → IoResult (Direction × DirectionHandle × Regions)
claimed_direction config bulk releases claimed =
    from_parts bulk.2 releases.2 config.shape config.transfer_id config.flow >>= (λ made. ok (
      direction_of config bulk releases,
      made,
      record { data_region = claimed; release_region = releases.1 },
    ))

abbrev pub finish_create :
    DirectionConfig
    → DirectionRole
    → (bulk releases : Arena × Memory × ℕ) → IoResult (Direction × DirectionHandle × Regions)
finish_create config role bulk releases =
    claim_role role [] bulk.1 >>= claimed_direction config bulk releases

-- The two arenas of `Direction::create`, for a capacity of descriptors.
abbrev pub create_arenas :
    (create_region : ℕ → IoResult Memory) (create_events : Memory → IoResult Memory)
    (lock : IoResult (Unit {0}))
    → DirectionConfig
    → DirectionRole
    → (capacity : ℕ) → IoResult (Direction × DirectionHandle × Regions)
create_arenas create_region create_events lock config role capacity =
    create_arena create_region create_events lock
      (data_contract config.shape capacity config.transfer_id config.flow)
      config.options.lock_memory
    >>= (λ bulk.
        create_arena create_region create_events lock
          (release_contract capacity config.transfer_id config.flow) config.options.lock_memory
        >>= (λ releases. finish_create config role bulk releases))

unfoldable pub create_direction :
    (create_region : ℕ → IoResult Memory) (create_events : Memory → IoResult Memory)
    (lock : IoResult (Unit {0}))
    → DirectionConfig
    → DirectionRole
    → IoResult (Direction × DirectionHandle × Regions)
create_direction create_region create_events lock config role =
    validate_config config
    >> (descriptor_capacity config.shape.slots
        >>= create_arenas create_region create_events lock config role)

-- `Direction::open` of regions that have been mapped.
unfoldable pub open_direction :
    (open_events lock : IoResult (Unit {0}))
    → DirectionHandle
    → Regions
    → EndpointOptions
    → DirectionRole
    → (observed : List ℕ) → IoResult (Direction × Regions)
open_direction open_events lock handle regions options role observed = do
  validate_options options
  validate_shape handle.shape
  capacity ← descriptor_capacity handle.shape.slots
  bulk ←
      open_arena regions.data_region handle.data_len open_events lock
        (data_contract handle.shape capacity handle.transfer_id handle.flow) options.lock_memory
  releases ←
      open_arena regions.release_region handle.releases_len open_events lock
        (release_contract capacity handle.transfer_id handle.flow) options.lock_memory
  claimed ← claim_role role observed regions.data_region
  ok (
    record {
      data_arena = bulk;
      release_arena = releases;
      shape = handle.shape;
      transfer_id = handle.transfer_id;
      flow = handle.flow;
      options = options;
    },
    record { data_region = claimed; release_region = regions.release_region },
  )
