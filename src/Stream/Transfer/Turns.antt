-- ===== src/Stream/Transfer/Turns.antt =====
-- A turn of the producer, from any state of the invariant.
use prescient.Prelude.{ℕ, zero, suc, ◌+◌, ◌<◌, ◌⊎◌, inl, inr, refl, subst, List, arith}
use prescient.Stream.Arena.{Arena}
use prescient.Stream.Arena.Queue.{Carries}
use prescient.Stream.Validate.{Terms}
use prescient.Stream.Plan.{range, data_at, release_at}
use prescient.Stream.Plan.Facts.{IsReady}
use prescient.Stream.Producer.{Producer, Regions}
use prescient.Stream.Consumer.{Consumer}
use prescient.Stream.Producer.ProducerPhase.{await_slot, await_release, await_complete}
use prescient.Stream.Transfer.Invariant.{
  IsPaired, ProducerAt, ConsumerAt, Held, filled-le, consumed-le, at_slot, at_send, at_drain,
  at_complete, at_echo, at_return,
}
use prescient.Stream.Transfer.Produce.{pop_none, waits, step_waits, step_returned}
use prescient.Stream.Transfer.ProducerTurn.{Produced, Stopped, slot_turn, release_turn, echo_turn}
use prescient.Stream.Transfer.ProducerPush.{send_turn, complete_turn}

module _ (terms : Terms) (input : List ℕ) (ready : IsReady terms input)
    (data_arena release_arena : Arena) (paired : IsPaired terms data_arena release_arena) where
  -- Fewer frames are under way than the descriptors hold.
  room :
      (p : Producer) (c : Consumer) (d n r m filled : ℕ)
      → ProducerAt terms input ready p (d + n) r filled
      → ConsumerAt terms input ready c d (r + m)
      → n < data_arena.descriptor_capacity
  room p c d n r m filled a b =
      let (_, _, _, near) = filled-le terms input ready p (d + n) r filled a in
      let (le, _, _) = consumed-le terms input ready c d (r + m) b in
      omega (arith, near, le, paired.roomy, ready.valid.some_slots)

  pub producer_turn :
      (p : Producer) (c : Consumer) (regions : Regions) (d n r m filled : ℕ)
      → Carries data_arena.descriptor_capacity regions.data_region d
          (range (data_at terms input) d n)
      → Carries release_arena.descriptor_capacity regions.release_region r
          (range (release_at terms input) r m)
      → ProducerAt terms input ready p (d + n) r filled
      → ConsumerAt terms input ready c d (r + m)
      → Held terms input ready data_arena regions.data_region r filled
      → Produced terms input ready data_arena release_arena paired p c regions d n r m
        ⊎ Stopped terms input ready data_arena release_arena paired p regions d n r m
  unfolding waits
  producer_turn p c regions d n r zero filled dq rq (at_slot more turn stands here) b held = inr (
    step_waits terms input ready data_arena release_arena paired (d + n) r (d + n) await_slot p
        regions here refl (pop_none terms input ready release_arena _ _ r rq),
    inl (refl, omega (arith, turn, ready.valid.some_slots)),
  )
  producer_turn p c regions d n r zero filled dq rq (at_drain all left near stands here) b held =
      inr (
        step_waits terms input ready data_arena release_arena paired (d + n) r (d + n) await_release
            p regions here refl (pop_none terms input ready release_arena _ _ r rq),
        inl (refl, left),
      )
  producer_turn p c regions d n r zero filled dq rq (at_echo out all stands here) b held = inr (
    step_waits terms input ready data_arena release_arena paired r r r await_complete p regions here
        refl (pop_none terms input ready release_arena _ _ r rq),
    inl (refl, omega (arith, out, all)),
  )
  producer_turn p c regions d n r (suc m) filled dq rq (at_slot more turn stands here) b held =
      inl (
        slot_turn terms input ready data_arena release_arena paired p c regions d n r m dq rq b
          (subst (Held terms input ready data_arena regions.data_region r) stands held) more turn
          here)
  producer_turn p c regions d n r (suc m) filled dq rq (at_drain all left near stands here) b held =
      inl (
        release_turn terms input ready data_arena release_arena paired p c regions d n r m dq rq b
          (subst (Held terms input ready data_arena regions.data_region r) stands held) all left
          near here)
  producer_turn p c regions d n r (suc m) filled dq rq (at_echo out all stands here) b held = inl (
      echo_turn terms input ready data_arena release_arena paired p c regions d n r m dq rq b out
        all here)
  producer_turn p c regions d n r m filled dq rq (at_send more back stands here) b held = inl (
      send_turn terms input ready data_arena release_arena paired p c regions d n r m dq rq b
        (subst (Held terms input ready data_arena regions.data_region r) stands held)
        (room p c d n r m filled (at_send more back stands here) b) more back here)
  producer_turn p c regions d n r m filled dq rq (at_complete all back stands here) b held = inl (
      complete_turn terms input ready data_arena release_arena paired p c regions d n r m dq rq b
        (room p c d n r m filled (at_complete all back stands here) b) all back here)
  producer_turn p c regions d n r m filled dq rq (at_return out all stands here) b held = inr (
    step_returned terms input ready data_arena release_arena paired filled filled filled _ p regions
        here,
    inr (omega (arith, out, all)),
  )
