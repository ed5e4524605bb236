-- ===== src/Stream/Setup/Handshake.antt =====
-- The other process opens what the first has created, exactly under the creator's contract.
use prescient.Prelude.{
  ℕ, ◌+◌, ◌^◌, ◌≤◌, ◌<◌, ◌≡◌, ◌↔◌, refl, sym, ap, ap₂, subst, ◌∙◌, [], Bool, true, false, not, ◌==◌,
  ok, arith,
}
use prescient.Word.{word_size}
use prescient.Stream.{IoResult, ◌>>=◌, ◌>>◌, u32_size, isize_max}
use prescient.Stream.ErrorKind.{invalid_data}
use prescient.Stream.Steps.{refuse_if-then_ok, then_ok, ok_inj, skip_ok}
use prescient.Stream.Bytes.{to_le_bytes, from_le_bytes, from_le_bytes-to_le_bytes}
use prescient.Stream.Frame.{version, frame_len}
use prescient.Stream.Layout.{arena_layout}
use prescient.Stream.Layout.Bounds.{arena_layout-IsLayout}
use prescient.Stream.Memory.{Memory, store, load, load-agree}
use prescient.Stream.Arena.{Arena, head_offset, tail_offset, word}
use prescient.Stream.Arena.Queue.{Carries, empty-Stored}
use prescient.Stream.Setup.{
  arena_magic, write_word, read_word, role_claims_offset, Contract, write_header, lock_if, arena_of,
  create_arena, open_arena, fill_arena, is_mismatch, map_arena,
}

-- The numbers of a contract fit the fields of the header.
pub record FitsHeader (contract : Contract) : Type 0 where
  pub slots : contract.slots < u32_size
  pub slot_len : contract.slot_len < u32_size
  pub descriptor_capacity : contract.descriptor_capacity < u32_size
  pub transfer_id : contract.transfer_id < word_size
  pub direction : contract.direction < u32_size

-- What the header of a region says.
pub record HasHeader (contract : Contract) (payload_offset : ℕ) (memory : Memory) : Type 0 where
  pub magic : read_word 4 0 memory ≡ arena_magic
  pub ours : read_word 2 4 memory ≡ version
  pub frames : read_word 2 6 memory ≡ frame_len
  pub descriptor_capacity : read_word 4 8 memory ≡ contract.descriptor_capacity
  pub slots : read_word 4 12 memory ≡ contract.slots
  pub slot_len : read_word 4 16 memory ≡ contract.slot_len
  pub direction : read_word 4 20 memory ≡ contract.direction
  pub transfer_id : read_word 8 24 memory ≡ contract.transfer_id
  pub payload : read_word 8 32 memory ≡ payload_offset
  pub claims : read_word 4 role_claims_offset memory ≡ 0
  pub head : word head_offset memory ≡ 0
  pub tail : word tail_offset memory ≡ 0

module _ (contract : Contract) (payload_offset : ℕ) (fresh memory : Memory)
    (same : (i : ℕ)
      → i < 192
      → memory i ≡ write_word 4 0 arena_magic (write_header contract payload_offset fresh) i) where
  header_word :
      (size at value : ℕ)
      → at + size ≤ 192
      → load at size (write_word 4 0 arena_magic (write_header contract payload_offset fresh))
        ≡ to_le_bytes size value
      → value < 256 ^ size
      → read_word size at memory ≡ value
  header_word size at value inside stands fits =
      ap from_le_bytes
        (load-agree at size memory _ (λ i lo hi. same i (omega (arith, hi, inside))) ∙ stands)
      ∙ from_le_bytes-to_le_bytes size value fits

  write_header-HasHeader :
      FitsHeader contract → payload_offset < word_size → HasHeader contract payload_offset memory
  unfolding write_header store load
  write_header-HasHeader f small = record {
    magic = header_word 4 0 arena_magic (omega arith) refl (omega arith);
    ours = header_word 2 4 version (omega arith) refl (omega arith);
    frames = header_word 2 6 frame_len (omega arith) refl (omega arith);
    descriptor_capacity =
        header_word 4 8 contract.descriptor_capacity (omega arith) refl f.descriptor_capacity;
    slots = header_word 4 12 contract.slots (omega arith) refl f.slots;
    slot_len = header_word 4 16 contract.slot_len (omega arith) refl f.slot_len;
    direction = header_word 4 20 contract.direction (omega arith) refl f.direction;
    transfer_id = header_word 8 24 contract.transfer_id (omega arith) refl f.transfer_id;
    payload = header_word 8 32 payload_offset (omega arith) refl small;
    claims = header_word 4 40 0 (omega arith) refl (omega arith);
    head = header_word 8 64 0 (omega arith) refl (omega arith);
    tail = header_word 8 128 0 (omega arith) refl (omega arith);
  }

-- The magic word goes over equal bytes alike.
magic_over :
    (i : ℕ) (memory other : Memory)
    → memory i ≡ other i
    → write_word 4 0 arena_magic memory i ≡ write_word 4 0 arena_magic other i
unfolding store
magic_over i memory other e = ground (arith, e)

lock_if_ok : (b : Bool) → lock_if b (ok tt) ≡ ok tt
lock_if_ok true = refl
lock_if_ok false = refl

-- What `create_arena` leaves in the region, when the events keep to their place.
pub create_arena-HasHeader :
    (create_region : ℕ → IoResult Memory) (create_events : Memory → IoResult Memory)
    (lock : IoResult (Unit {0})) (contract : Contract) (lock_memory : Bool) (arena : Arena)
    (memory : Memory) (len : ℕ)
    → FitsHeader contract
    → ((before after : Memory)
        → create_events before ≡ ok after
        → (i : ℕ) → i < 192
        → after i ≡ before i)
    → create_arena create_region create_events lock contract lock_memory ≡ ok (arena, memory, len)
    → (payload_offset : ℕ) × (arena_layout contract.slots contract.slot_len
          contract.descriptor_capacity
        ≡ ok (len, payload_offset))
      × (arena ≡ arena_of contract payload_offset)
      × HasHeader contract payload_offset memory
unfolding create_arena
create_arena-HasHeader create_region create_events lock contract lock_memory arena memory len fits
      keep h0 =
    let (layout, e1, h1) =
      then_ok (arena_layout contract.slots contract.slot_len contract.descriptor_capacity)
        (λ layout.
          create_region layout.0
          >>= fill_arena create_events lock contract lock_memory layout.0 layout.1)
        (arena, memory, len) h0 in
    let (fresh, e2, h2) =
      then_ok (create_region layout.0)
        (fill_arena create_events lock contract lock_memory layout.0 layout.1) (arena, memory, len)
        h1 in
    let (with_events, e3, h3) =
      then_ok (create_events (write_header contract layout.1 fresh))
        (λ m.
          lock_if lock_memory lock
          >> ok (arena_of contract layout.1, write_word 4 0 arena_magic m, layout.0))
        (arena, memory, len) h2 in
    let small : layout.1 < word_size =
      omega
        (arith, inside contract.slots contract.slot_len contract.descriptor_capacity layout e1) in
    let same : (arena_of contract layout.1, write_word 4 0 arena_magic with_events, layout.0)
        ≡ (arena, memory, len) =
      ok_inj (skip_ok (lock_if lock_memory lock) _ (arena, memory, len) h3) in
    let same_memory : write_word 4 0 arena_magic with_events ≡ memory = ap (λ q. q.1) same in
    let same_len : layout.0 ≡ len = ap (λ q. q.2) same in
    (
      layout.1,
      e1 ∙ ap (λ n. ok (n, layout.1)) same_len,
      sym (ap (λ q. q.0) same),
      subst (HasHeader contract layout.1) same_memory (
          write_header-HasHeader contract layout.1 fresh _
            (λ i lo.
              magic_over i with_events (write_header contract layout.1 fresh)
                (keep _ with_events e3 i lo))
            fits small),
    )
  where
    inside :
        (slots slot_len capacity : ℕ) (layout : ℕ × ℕ)
        → arena_layout slots slot_len capacity ≡ ok layout
        → layout.1 ≤ isize_max
    inside slots slot_len capacity (n, offset) e =
        let l = arena_layout-IsLayout slots slot_len capacity n offset e in
        omega (arith, l.whole, l.addressable)

contract_eq :
    (contract other : Contract) (offset expected len : ℕ) (memory : Memory) (payload_offset : ℕ)
    → HasHeader contract payload_offset memory
    → is_mismatch memory len other expected offset ≡ false
    → other ≡ contract
contract_eq contract other offset expected len memory payload_offset has matches =
    let e0 : other.slots ≡ contract.slots = ground (arith, matches, has.slots) in
    let e1 : other.slot_len ≡ contract.slot_len = ground (arith, matches, has.slot_len) in
    let e2 : other.descriptor_capacity ≡ contract.descriptor_capacity =
      ground (arith, matches, has.descriptor_capacity) in
    let e3 : other.transfer_id ≡ contract.transfer_id = ground (arith, matches, has.transfer_id) in
    let e4 : other.direction ≡ contract.direction = ground (arith, matches, has.direction) in
    λ i. record {
      slots = e0 i;
      slot_len = e1 i;
      descriptor_capacity = e2 i;
      transfer_id = e3 i;
      direction = e4 i;
    }

open_arena_same :
    (contract : Contract) (payload_offset len : ℕ) (memory : Memory) (lock_memory : Bool)
    → HasHeader contract payload_offset memory
    → arena_layout contract.slots contract.slot_len contract.descriptor_capacity
      ≡ ok (len, payload_offset)
    → open_arena memory len (ok tt) (ok tt) contract lock_memory
      ≡ ok (arena_of contract payload_offset)
unfolding open_arena
open_arena_same contract payload_offset len memory lock_memory has layout =
    let t1 : not (read_word 4 0 memory == arena_magic) ≡ false = ground (arith, has.magic) in
    let t2 : is_mismatch memory len contract len payload_offset ≡ false = ground (
      arith, has.ours, has.frames, has.descriptor_capacity, has.slots, has.slot_len, has.direction,
      has.transfer_id, has.payload,
    ) in
    rw (t1, layout, t2, lock_if_ok lock_memory) refl

-- A region with the header of a contract is opened exactly under that contract.
pub open_arena_iff :
    (contract other : Contract) (payload_offset len : ℕ) (memory : Memory) (arena : Arena)
    (lock_memory : Bool)
    → HasHeader contract payload_offset memory
    → arena_layout contract.slots contract.slot_len contract.descriptor_capacity
      ≡ ok (len, payload_offset)
    → (open_arena memory len (ok tt) (ok tt) other lock_memory ≡ ok arena)
      ↔ ((other ≡ contract) × (arena ≡ arena_of contract payload_offset))
unfolding open_arena
open_arena_iff contract other payload_offset len memory arena lock_memory has layout = (
  λ h.
      let (magic, h1) =
        refuse_if-then_ok (not (read_word 4 0 memory == arena_magic)) invalid_data
          (arena_layout other.slots other.slot_len other.descriptor_capacity
            >>= map_arena memory len (ok tt) (ok tt) other lock_memory)
          arena h in
      let (found, e2, h2) =
        then_ok (arena_layout other.slots other.slot_len other.descriptor_capacity)
          (map_arena memory len (ok tt) (ok tt) other lock_memory) arena h1 in
      let (matches, h3) =
        refuse_if-then_ok (is_mismatch memory len other found.0 found.1) invalid_data
          (lock_if lock_memory (ok tt) >> ok (arena_of other found.1)) arena h2 in
      let same : other ≡ contract =
        contract_eq contract other found.1 found.0 len memory payload_offset has matches in
      let offset : found.1 ≡ payload_offset = ground (arith, matches, has.payload) in
      (
        same,
        sym (ok_inj (skip_ok (lock_if lock_memory (ok tt)) _ arena h3)) ∙ ap₂ arena_of same offset,
      ),
  λ (same, e).
      subst (λ c. open_arena memory len (ok tt) (ok tt) c lock_memory ≡ ok arena) (sym same)
        (open_arena_same contract payload_offset len memory lock_memory has layout ∙ ap ok (sym e)),
)

-- What one process has created, the other opens exactly under the same contract, and finds the same arena.
pub open_arena-create_arena :
    (create_region : ℕ → IoResult Memory) (create_events : Memory → IoResult Memory)
    (lock : IoResult (Unit {0})) (contract other : Contract) (lock_memory : Bool)
    (arena found : Arena) (memory : Memory) (len : ℕ)
    → FitsHeader contract
    → ((before after : Memory)
        → create_events before ≡ ok after
        → (i : ℕ) → i < 192
        → after i ≡ before i)
    → create_arena create_region create_events lock contract lock_memory ≡ ok (arena, memory, len)
    → (open_arena memory len (ok tt) (ok tt) other lock_memory ≡ ok found)
      ↔ ((other ≡ contract) × (found ≡ arena))
open_arena-create_arena create_region create_events lock contract other lock_memory arena found
      memory len fits keep created =
    let (payload_offset, layout, same, has) =
      create_arena-HasHeader create_region create_events lock contract lock_memory arena memory len
        fits keep created in
    subst
      (λ a.
        (open_arena memory len (ok tt) (ok tt) other lock_memory ≡ ok found)
        ↔ ((other ≡ contract) × (found ≡ a)))
      (sym same)
      (open_arena_iff contract other payload_offset len memory found lock_memory has layout)

-- A region under its header carries no frame yet.
pub HasHeader-Carries :
    (contract : Contract) (payload_offset : ℕ) (memory : Memory) (exponent : ℕ)
    → HasHeader contract payload_offset memory
    → contract.descriptor_capacity ≡ 2 ^ exponent
    → Carries contract.descriptor_capacity memory 0 []
HasHeader-Carries contract payload_offset memory exponent has power = record {
  exponent = exponent;
  power = power;
  head = has.head;
  tail = has.tail;
  counted = omega arith;
  fits = omega arith;
  stored = empty-Stored contract.descriptor_capacity memory 0;
}
