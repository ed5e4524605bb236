-- ===== src/Stream/Transfer/Produce.antt =====
-- Every step of the producer keeps the invariant, and it waits only where a release is missing.
use prescient.Prelude.{
  ℕ, suc, ◌+◌, ◌*◌, ◌<◌, ◌≡◌, refl, subst, List, none, some, Bool, true, false, ltb, ok, arith,
}
use prescient.Word.{word_size}
use prescient.Stream.{IoResult, chunks}
use prescient.Stream.Frame.{Frame}
use prescient.Stream.Frame.RoundTrip.{FitsWire}
use prescient.Stream.Memory.{Memory}
use prescient.Stream.Arena.{Arena, push_frame, pop_frame}
use prescient.Stream.Arena.Queue.{Carries, SameBehind, push_frame_refines}
use prescient.Stream.Arena.Pop.{pop_frame_refines, pop_frame-empty}
use prescient.Stream.Validate.{Terms, validate_release, validate_complete, release_of}
use prescient.Stream.Plan.{
  range, length-range, range-next, sent_frame, aggregate_of, data_at, release_at,
}
use prescient.Stream.Plan.Facts.{IsReady}
use prescient.Stream.Producer.{
  Producer, ProducerPhase, Regions, produce_step, enter_chunk, fill_chunk, drain_releases,
  next_chunk, report, Report,
}
use prescient.Stream.Producer.ProducerPhase.{
  await_slot, send_chunk, await_release, send_complete, await_complete, returned,
}
use prescient.Stream.Transfer.Invariant.{IsPaired, producer_at, last_frame}

module _ (terms : Terms) (input : List ℕ) (ready : IsReady terms input) where
  -- A push of the next frame, where there is room.
  pub push_next :
      (arena : Arena) (memory : Memory) (at : ℕ → Frame) (first n : ℕ)
      → Carries arena.descriptor_capacity memory first (range at first n)
      → n < arena.descriptor_capacity
      → first + n + 1 < word_size
      → (other : Memory) × (push_frame arena (at (first + n)) memory ≡ some other)
        × Carries arena.descriptor_capacity other first (range at first (suc n))
        × SameBehind (448 + arena.descriptor_capacity * 48) memory other
  push_next arena memory at first n h room counted =
      let (other, e, kept, same) =
        push_frame_refines arena memory first (range at first n) (at (first + n)) h
          (omega (arith, length-range at first n, room))
          (omega (arith, length-range at first n, counted)) in
      (
        other,
        e,
        subst (Carries arena.descriptor_capacity other first) (range-next at first n) kept,
        same,
      )

  -- A pop of the first frame.
  pub pop_next :
      (arena : Arena) (memory : Memory) (at : ℕ → Frame) (first n : ℕ)
      → Carries arena.descriptor_capacity memory first (range at first (suc n))
      → FitsWire (at first)
      → (other : Memory) × (pop_frame arena memory ≡ some (other, ok (at first)))
        × Carries arena.descriptor_capacity other (first + 1) (range at (first + 1) n)
        × SameBehind (448 + arena.descriptor_capacity * 48) memory other
  unfolding range
  pop_next arena memory at first n h wire =
      pop_frame_refines arena memory first (at first) (range at (first + 1) n) h wire

  pub pop_none :
      (arena : Arena) (memory : Memory) (at : ℕ → Frame) (first : ℕ)
      → Carries arena.descriptor_capacity memory first (range at first 0)
      → pop_frame arena memory ≡ none
  unfolding range
  pop_none arena memory at first h = pop_frame-empty arena memory first h

  pub data_at-sent :
      (s : ℕ) → s < chunks terms.shape → data_at terms input s ≡ sent_frame terms input s
  data_at-sent s h = let t : ltb s (chunks terms.shape) ≡ true = ground arith in rw t refl

  pub release_at-sent :
      (s : ℕ)
      → s < chunks terms.shape
      → release_at terms input s ≡ release_of (sent_frame terms input s)
  release_at-sent s h = let t : ltb s (chunks terms.shape) ≡ true = ground arith in rw t refl

  pub data_at-last : data_at terms input (chunks terms.shape) ≡ last_frame terms input ready
  data_at-last =
      let t : ltb (chunks terms.shape) (chunks terms.shape) ≡ false = ground arith in rw t refl

  pub release_at-last : release_at terms input (chunks terms.shape) ≡ last_frame terms input ready
  release_at-last =
      let t : ltb (chunks terms.shape) (chunks terms.shape) ≡ false = ground arith in rw t refl

  module _ (data_arena release_arena : Arena)
      (paired : IsPaired terms data_arena release_arena) where
    pub step_send :
        (s r k : ℕ) (f : Frame) (p q : Producer) (regions : Regions) (other last : Memory)
        → p ≡ producer_at terms input ready s r k (send_chunk f)
        → push_frame data_arena f regions.data_region ≡ some other
        → enter_chunk data_arena terms
            (next_chunk (producer_at terms input ready s r k (send_chunk f)))
            other
          ≡ (q, last)
        → produce_step data_arena release_arena terms p regions
          ≡ some (q, record { data_region = last; release_region = regions.release_region })
    unfolding produce_step
    step_send s r k f p q regions other last e push enter = rw (e, push, enter) refl

    pub step_slot :
        (s r k : ℕ) (p q : Producer) (regions : Regions) (releases last : Memory) (f : Frame)
        → p ≡ producer_at terms input ready s r k await_slot
        → pop_frame release_arena regions.release_region ≡ some (releases, ok f)
        → validate_release f r terms ≡ ok tt
        → fill_chunk data_arena terms
            (producer_at terms input ready s (r + 1) k await_slot)
            regions.data_region
          ≡ ok (q, last)
        → produce_step data_arena release_arena terms p regions
          ≡ some (q, record { data_region = last; release_region = releases })
    unfolding produce_step
    step_slot s r k p q regions releases last f e pop valid fill = rw (e, pop, valid, fill) refl

    pub step_release :
        (s r k : ℕ) (p : Producer) (regions : Regions) (releases : Memory) (f : Frame)
        → p ≡ producer_at terms input ready s r k await_release
        → pop_frame release_arena regions.release_region ≡ some (releases, ok f)
        → validate_release f r terms ≡ ok tt
        → produce_step data_arena release_arena terms p regions
          ≡ some (
            drain_releases terms (producer_at terms input ready s (r + 1) k await_release),
            record { data_region = regions.data_region; release_region = releases },
          )
    unfolding produce_step
    step_release s r k p regions releases f e pop valid = rw (e, pop, valid) refl

    pub step_complete :
        (s r k : ℕ) (f : Frame) (p : Producer) (regions : Regions) (other : Memory)
        → p ≡ producer_at terms input ready s r k (send_complete f)
        → push_frame data_arena f regions.data_region ≡ some other
        → produce_step data_arena release_arena terms p regions
          ≡ some (
            producer_at terms input ready s r k await_complete,
            record { data_region = other; release_region = regions.release_region },
          )
    unfolding produce_step
    step_complete s r k f p regions other e push = rw (e, push) refl

    pub step_echo :
        (s r k : ℕ) (p : Producer) (regions : Regions) (releases : Memory) (f : Frame)
        → p ≡ producer_at terms input ready s r k await_complete
        → pop_frame release_arena regions.release_region ≡ some (releases, ok f)
        → validate_complete f terms (aggregate_of terms input k) ≡ ok tt
        → produce_step data_arena release_arena terms p regions
          ≡ some (
            producer_at terms input ready s r k
                (returned (ok (report terms (aggregate_of terms input k)))),
            record { data_region = regions.data_region; release_region = releases },
          )
    unfolding produce_step
    step_echo s r k p regions releases f e pop valid = rw (e, pop, valid) refl

    unfoldable pub waits : ProducerPhase → Bool
    waits await_slot = true
    waits await_release = true
    waits await_complete = true
    waits phase = false

    pub step_waits :
        (s r k : ℕ) (phase : ProducerPhase) (p : Producer) (regions : Regions)
        → p ≡ producer_at terms input ready s r k phase
        → waits phase ≡ true
        → pop_frame release_arena regions.release_region ≡ none
        → produce_step data_arena release_arena terms p regions ≡ none
    unfolding produce_step waits
    step_waits s r k await_slot p regions e w pop = rw (e, pop) refl
    step_waits s r k await_release p regions e w pop = rw (e, pop) refl
    step_waits s r k await_complete p regions e w pop = rw (e, pop) refl
    step_waits s r k (send_chunk f) p regions e w pop = absurd (cc)
    step_waits s r k (send_complete f) p regions e w pop = absurd (cc)
    step_waits s r k (returned x) p regions e w pop = absurd (cc)

    pub step_returned :
        (s r k : ℕ) (x : IoResult Report) (p : Producer) (regions : Regions)
        → p ≡ producer_at terms input ready s r k (returned x)
        → produce_step data_arena release_arena terms p regions ≡ none
    unfolding produce_step
    step_returned s r k x p regions e = rw e refl
