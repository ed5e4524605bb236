-- ===== src/Stream/Direction/Paired.antt =====
-- A direction that was created is fit for a transfer.
use prescient.Prelude.{
  ℕ, ◌+◌, ◌*◌, ◌^◌, ◌≤◌, ◌<◌, ◌≡◌, inr, sym, ap, ◌∙◌, subst, List, [], Bool, ok, arith,
}
use prescient.Word.{word_size}
use prescient.Stream.{IoResult, ◌>>=◌, validate_shape, u32_size}
use prescient.Stream.Steps.{then_ok, skip_ok, ok_inj, first_ok}
use prescient.Stream.Bytes.{to_le_bytes, length-to_le_bytes}
use prescient.Stream.Chunks.{IsValidShape, validate_shape_iff}
use prescient.Stream.Layout.{descriptor_capacity, arena_layout}
use prescient.Stream.Layout.Bounds.{descriptor_capacity-IsRounded, arena_layout-IsLayout}
use prescient.Stream.Memory.{Memory}
use prescient.Stream.Arena.{Arena}
use prescient.Stream.Arena.Queue.{Carries, word-store, empty-Stored}
use prescient.Stream.Roles.{StreamFlow, flow_code, frame_flags, DirectionRole, claim_direction_role}
use prescient.Stream.Roles.StreamFlow.{parent_to_worker, worker_to_parent}
use prescient.Stream.Setup.{
  Contract, role_claims_offset, read_word, write_word, arena_of, fill_arena, create_arena,
}
use prescient.Stream.Setup.Handshake.{FitsHeader, create_arena-HasHeader, HasHeader-Carries}
use prescient.Stream.Producer.{Regions}
use prescient.Stream.Validate.{Terms}
use prescient.Stream.Transfer.Invariant.{IsPaired}
use prescient.Stream.Transfer.Schedule.{IsFresh}
use prescient.Stream.Direction.{
  DirectionConfig, validate_config, DirectionHandle, from_parts, Direction, data_contract,
  release_contract, claim_role, finish_create, direction_of, claimed_direction, create_arenas,
  create_direction,
}

-- A claim changes four bytes of the header, so nothing that is under way.
pub claim_role-Carries :
    (role : DirectionRole) (observed : List ℕ) (memory claimed : Memory) (capacity : ℕ)
    → claim_role role observed memory ≡ ok claimed
    → Carries capacity memory 0 []
    → Carries capacity claimed 0 []
unfolding claim_role
claim_role-Carries role observed memory claimed capacity e h =
    let (claims, _, last) =
      then_ok (claim_direction_role role (read_word 4 role_claims_offset memory) observed)
        (λ claims. ok (write_word 4 role_claims_offset claims memory)) claimed e in
    let same : write_word 4 role_claims_offset claims memory ≡ claimed = ok_inj last in
    subst (λ m. Carries capacity m 0 []) same
      (record {
        exponent = h.exponent;
        power = h.power;
        head =
            word-store 64 40 (to_le_bytes 4 claims) memory
              (inr (omega (arith, length-to_le_bytes 4 claims)))
            ∙ h.head;
        tail =
            word-store 128 40 (to_le_bytes 4 claims) memory
              (inr (omega (arith, length-to_le_bytes 4 claims)))
            ∙ h.tail;
        counted = omega arith;
        fits = omega arith;
        stored = empty-Stored capacity _ 0;
      })

flow-lt : (flow : StreamFlow) → flow_code flow < 3
flow-lt parent_to_worker = omega arith
flow-lt worker_to_parent = omega arith

validate_config-IsValidShape :
    (config : DirectionConfig) → validate_config config ≡ ok tt → IsValidShape config.shape
unfolding validate_config
validate_config-IsValidShape config h =
    (validate_shape_iff config.shape).0 (first_ok (validate_shape config.shape) _ tt h)

-- The arguments of a transfer over a direction.
abbrev pub terms_of : DirectionConfig → Bool → Terms
terms_of config has_avx2 = record {
  shape = config.shape;
  transfer_id = config.transfer_id;
  flags = frame_flags config.flow;
  has_avx2 = has_avx2;
}

created_layout :
    (create_region : ℕ → IoResult Memory) (create_events : Memory → IoResult Memory)
    (lock : IoResult (Unit {0})) (contract : Contract) (lock_memory : Bool)
    (made : Arena × Memory × ℕ)
    → create_arena create_region create_events lock contract lock_memory ≡ ok made
    → (layout : ℕ × ℕ) × (arena_layout contract.slots contract.slot_len contract.descriptor_capacity
        ≡ ok layout)
unfolding create_arena
created_layout create_region create_events lock contract lock_memory made e =
    let (layout, found, _) =
      then_ok (arena_layout contract.slots contract.slot_len contract.descriptor_capacity)
        (λ layout.
          create_region layout.0
          >>= fill_arena create_events lock contract lock_memory layout.0 layout.1)
        made e in
    (layout, found)

-- An arena that was created carries nothing yet, and its payload lies behind its descriptors.
created_empty :
    (create_region : ℕ → IoResult Memory) (create_events : Memory → IoResult Memory)
    (lock : IoResult (Unit {0})) (contract : Contract) (lock_memory : Bool)
    (made : Arena × Memory × ℕ) (exponent : ℕ)
    → contract.slots < u32_size
    → contract.slot_len < u32_size
    → contract.transfer_id < word_size
    → contract.direction < u32_size
    → contract.descriptor_capacity ≡ 2 ^ exponent
    → ((before after : Memory)
        → create_events before ≡ ok after
        → (i : ℕ) → i < 192
        → after i ≡ before i)
    → create_arena create_region create_events lock contract lock_memory ≡ ok made
    → (payload_offset : ℕ) × (made.0 ≡ arena_of contract payload_offset)
      × (448 + contract.descriptor_capacity * 48 ≤ payload_offset)
      × Carries contract.descriptor_capacity made.1 0 []
created_empty create_region create_events lock contract lock_memory (arena, memory, len) exponent s
      l t d power keep e =
    let (offset, layout) =
      created_layout create_region create_events lock contract lock_memory (arena, memory, len) e in
    let bounds =
      arena_layout-IsLayout contract.slots contract.slot_len contract.descriptor_capacity offset.0
        offset.1 layout in
    let fits : FitsHeader contract = record {
      slots = s;
      slot_len = l;
      descriptor_capacity = bounds.capacity_fits;
      transfer_id = t;
      direction = d;
    } in
    let (payload_offset, here, same, has) =
      create_arena-HasHeader create_region create_events lock contract lock_memory arena memory len
        fits keep e in
    let found =
      arena_layout-IsLayout contract.slots contract.slot_len contract.descriptor_capacity len
        payload_offset here in
    (
      payload_offset,
      same,
      found.headed,
      HasHeader-Carries contract payload_offset memory exponent has power,
    )

-- The two arenas belong together.
arenas_fit :
    (config : DirectionConfig) (has_avx2 : Bool) (capacity at0 at1 : ℕ) (bulk releases : Arena)
    (data_region release_region : Memory)
    → bulk ≡ arena_of (data_contract config.shape capacity config.transfer_id config.flow) at0
    → releases ≡ arena_of (release_contract capacity config.transfer_id config.flow) at1
    → config.shape.slots * 2 + 2 ≤ capacity
    → 448 + capacity * 48 ≤ at0
    → Carries capacity data_region 0 []
    → Carries capacity release_region 0 []
    → IsPaired (terms_of config has_avx2) bulk releases
      × IsFresh bulk releases
          (record { data_region = data_region; release_region = release_region })
arenas_fit config has_avx2 capacity at0 at1 bulk releases data_region release_region e0 e1 roomy
      behind empty0 empty1 =
    let capacity0 : bulk.descriptor_capacity ≡ capacity =
      ap (λ (a : Arena). a.descriptor_capacity) e0 in
    let capacity1 : releases.descriptor_capacity ≡ capacity =
      ap (λ (a : Arena). a.descriptor_capacity) e1 in
    let offset : bulk.payload_offset ≡ at0 = ap (λ (a : Arena). a.payload_offset) e0 in
    (
      record {
        roomy = omega (arith, roomy, capacity0);
        same_capacity = capacity1 ∙ sym capacity0;
        slots = ap (λ (a : Arena). a.slots) e0;
        slot_len = ap (λ (a : Arena). a.slot_len) e0;
        behind = omega (arith, behind, capacity0, offset);
      },
      record {
        data_empty = subst (λ c. Carries c data_region 0 []) (sym capacity0) empty0;
        releases_empty = subst (λ c. Carries c release_region 0 []) (sym capacity1) empty1;
      },
    )

-- What `Direction::create` hands out is fit for a transfer: a valid shape, arenas that belong together, and regions with nothing under
-- way.
pub create_direction-IsFresh :
    (create_region : ℕ → IoResult Memory) (create_events : Memory → IoResult Memory)
    (lock : IoResult (Unit {0})) (config : DirectionConfig) (role : DirectionRole)
    (direction : Direction) (handle : DirectionHandle) (regions : Regions) (has_avx2 : Bool)
    → config.transfer_id < word_size
    → ((before after : Memory)
        → create_events before ≡ ok after
        → (i : ℕ) → i < 192
        → after i ≡ before i)
    → create_direction create_region create_events lock config role
      ≡ ok (direction, handle, regions)
    → IsValidShape config.shape
      × IsPaired (terms_of config has_avx2) direction.data_arena direction.release_arena
      × IsFresh direction.data_arena direction.release_arena regions
unfolding create_direction
create_direction-IsFresh create_region create_events lock config role direction handle regions
      has_avx2 small keep h0 =
    let valid =
      validate_config-IsValidShape config
        (first_ok (validate_config config) _ (direction, handle, regions) h0) in
    let h1 =
      skip_ok (validate_config config)
        (descriptor_capacity config.shape.slots
          >>= create_arenas create_region create_events lock config role)
        (direction, handle, regions) h0 in
    let (capacity, e1, h2) =
      then_ok (descriptor_capacity config.shape.slots)
        (create_arenas create_region create_events lock config role) (direction, handle, regions)
        h1 in
    let (exponent, power, _, roomy) =
      descriptor_capacity-IsRounded config.shape.slots capacity e1 in
    let (bulk, e2, h3) =
      then_ok
        (create_arena create_region create_events lock
          (data_contract config.shape capacity config.transfer_id config.flow)
          config.options.lock_memory)
        (λ bulk.
          create_arena create_region create_events lock
            (release_contract capacity config.transfer_id config.flow) config.options.lock_memory
          >>= (λ releases. finish_create config role bulk releases))
        (direction, handle, regions) h2 in
    let (releases, e3, h4) =
      then_ok
        (create_arena create_region create_events lock
          (release_contract capacity config.transfer_id config.flow) config.options.lock_memory)
        (λ releases. finish_create config role bulk releases) (direction, handle, regions) h3 in
    let (claimed, e4, h5) =
      then_ok (claim_role role [] bulk.1) (claimed_direction config bulk releases)
        (direction, handle, regions) h4 in
    let (made_handle, _, h6) =
      then_ok (from_parts bulk.2 releases.2 config.shape config.transfer_id config.flow)
        (λ made. ok (
          direction_of config bulk releases,
          made,
          record { data_region = claimed; release_region = releases.1 },
        ))
        (direction, handle, regions) h5 in
    let (at0, made0, behind, empty0) =
      created_empty create_region create_events lock
        (data_contract config.shape capacity config.transfer_id config.flow)
        config.options.lock_memory bulk exponent valid.slots_fit valid.chunk_fits small
        (omega (arith, flow-lt config.flow)) power keep e2 in
    let (at1, made1, _, empty1) =
      created_empty create_region create_events lock
        (release_contract capacity config.transfer_id config.flow) config.options.lock_memory
        releases exponent (omega arith) (omega arith) small (omega (arith, flow-lt config.flow))
        power keep e3 in
    let (paired, fresh) =
      arenas_fit config has_avx2 capacity at0 at1 bulk.0 releases.0 claimed releases.1 made0 made1
        roomy behind (claim_role-Carries role [] bulk.1 claimed capacity e4 empty0) empty1 in
    let same : (
      direction_of config bulk releases,
      made_handle,
      record { data_region = claimed; release_region = releases.1 },
    )
        ≡ (direction, handle, regions) =
      ok_inj h6 in
    subst
      (λ (q : Direction × DirectionHandle × Regions).
        IsValidShape config.shape
        × IsPaired (terms_of config has_avx2) q.0.data_arena q.0.release_arena
        × IsFresh q.0.data_arena q.0.release_arena q.2)
      same (valid, paired, fresh)
