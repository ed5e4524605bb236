-- ===== src/Broadcast/Tests.antt =====
-- A channel of two slots that was lapped, and a run in which a second reader joins.
use mathlib.Core.List.{Sublist}
use prescient.Prelude.{
  ℕ, ◌+◌, ◌≤◌, ◌<◌, ◌≡◌, ◌⊎◌, refl, none, some, true, false, List, [], ◌∷◌, take, drop, map,
  get_elem?, All, ok, err, arith, if◌then◌else◌, leb,
}
use prescient.Broadcast.{
  ReaderSlot, Broadcast, vacant, joined, slowest, slowest_from, replace_slot, try_send, try_recv,
  drain, with_slot, subscribe, drop_shared, suspend, resume, settled, send_batch, send_loop,
  gate_pass, publish_commit,
}
use prescient.Broadcast.Scan.{NotBehind, Stands, slowest_lem}
use prescient.Broadcast.Invariant.{IsPlaced, IsValid}
use prescient.Broadcast.Publish.{try_send_refines}
use prescient.Broadcast.Receive.{advanced, try_recv_refines, drain_refines, drop_shared_live}
use prescient.Broadcast.Membership.{AllReserved, FirstFree, subscribe_refines}
use prescient.Broadcast.PublishMany.{Sent, send_batch_refines}
use prescient.Broadcast.Trace.{History, Reach}
use prescient.Broadcast.Trace.Step.{publish, receive, suspends}
use prescient.Broadcast.Trace.Reach.{join, next, rejoin}
use prescient.Broadcast.Order.{reader_sees_log}

-- The clone of a number.
abbrev copy : ℕ → ℕ
copy x = x

abbrev reader_at : ℕ → ReaderSlot
reader_at c = joined c

-- 5, 6 and 7 were published; the reader has seen 5, so that the channel is full.
abbrev lapped : Broadcast ℕ
lapped = record {
  buf = some 7 ∷ some 6 ∷ [];
  mask = 1;
  cap = 2;
  w = 3;
  slots = joined 1 ∷ vacant ∷ [];
  producer_gone = false;
  min_cache = 1;
}

abbrev log : List ℕ
log = 5 ∷ 6 ∷ 7 ∷ []

vacant-IsPlaced : (w low : ℕ) → IsPlaced w low vacant
vacant-IsPlaced w low = record { active = λ gates. cc; idle = λ idle r. cc }

lapped-IsValid : IsValid lapped log
lapped-IsValid = record {
  shape = record { exponent = 1; small = omega arith; power = refl; low = refl };
  storage = refl;
  word = omega arith;
  count = refl;
  low = omega arith;
  window = omega arith;
  live = (refl, (refl, tt));
  placed = (
    record { active = λ gates. (refl, refl, refl, omega arith, omega arith); idle = λ idle. cc },
    (vacant-IsPlaced 3 1, tt),
  );
}

full : try_send lapped 8 ≡ some (err 8, none, lapped)
unfolding try_send slowest_from
full = refl

slowest_lem_example :
    (slowest lapped.slots 3 ≤ 3)
    × All (NotBehind (slowest lapped.slots 3)) lapped.slots
    × ((slowest lapped.slots 3 ≡ 3) ⊎ Stands (slowest lapped.slots 3) lapped.slots)
slowest_lem_example =
    slowest_lem lapped.slots 3 (omega arith) ((λ gates. omega arith), ((λ gates. omega arith), tt))

try_send_refines_example :
    (b' : Broadcast ℕ) × (b'.slots ≡ lapped.slots)
    × (b'.cap ≡ 2)
    × (((try_send lapped 8 ≡ some (ok tt, (if leb 2 3 then get_elem? log 1 else none), b'))
          × IsValid b' (5 ∷ 6 ∷ 7 ∷ 8 ∷ []))
        ⊎ ((try_send lapped 8 ≡ some (err 8, none, b')) × IsValid b' log × Stands 1 lapped.slots))
try_send_refines_example = try_send_refines lapped log 8 lapped-IsValid (omega arith)

try_recv_refines_example :
    ((try_recv copy lapped 0 (joined 1) ≡ some (none, lapped)) × ((false ≡ true) ⊎ (1 ≡ lapped.w)))
    ⊎ ((x : ℕ) × (get_elem? log 1 ≡ some x)
        × (false ≡ false)
        × (try_recv copy lapped 0 (joined 1) ≡ some (some x, advanced lapped 0 (joined 1) 1))
        × IsValid (advanced lapped 0 (joined 1) 1) log)
try_recv_refines_example = try_recv_refines copy lapped log 0 (joined 1) lapped-IsValid refl refl

drain_refines_example :
    (b' : Broadcast ℕ) × (drain copy 8 lapped 0 (joined 1) ≡ some (6 ∷ 7 ∷ [], b'))
    × (((reader_at 1).position ≡ 3) × (b' ≡ lapped)
        ⊎ ((1 < 3) × (b' ≡ advanced lapped 0 (joined 1) 2)))
    × IsValid b' log
drain_refines_example = drain_refines copy 8 lapped log 0 (joined 1) lapped-IsValid refl refl refl

drop_shared_live_example : drop_shared lapped ≡ some (6 ∷ 7 ∷ [])
drop_shared_live_example = drop_shared_live lapped log lapped-IsValid

subscribe_refines_example :
    ((subscribe lapped ≡ none) × AllReserved lapped.slots)
    ⊎ ((i : ℕ) × (b' : Broadcast ℕ) × (subscribe lapped ≡ some (i, b'))
        × FirstFree lapped.slots (some i)
        × (b' ≡ with_slot lapped i (joined 3))
        × (get_elem? b'.slots i ≡ some (joined 3))
        × IsValid b' log)
subscribe_refines_example = subscribe_refines lapped log lapped-IsValid

-- A run: the second reader joins, 8 is published, and the second reader receives it.
abbrev drained : Broadcast ℕ
drained = record lapped { slots = joined 3 ∷ vacant ∷ []; min_cache = 1 }

drained-IsValid : IsValid drained log
drained-IsValid = record {
  shape = record { exponent = 1; small = omega arith; power = refl; low = refl };
  storage = refl;
  word = omega arith;
  count = refl;
  low = omega arith;
  window = omega arith;
  live = (refl, (refl, tt));
  placed = (
    record { active = λ gates. (refl, refl, refl, omega arith, omega arith); idle = λ idle. cc },
    (vacant-IsPlaced 3 1, tt),
  );
}

abbrev with_second : Broadcast ℕ
with_second = record drained { slots = joined 3 ∷ joined 3 ∷ [] }

abbrev published : Broadcast ℕ
published = record with_second { buf = some 7 ∷ some 8 ∷ []; w = 4; min_cache = 3 }

abbrev received : Broadcast ℕ
received = record published { slots = joined 3 ∷ joined 4 ∷ [] }

joins : subscribe drained ≡ some (1, with_second)
unfolding subscribe
joins = refl

publishes : try_send with_second 8 ≡ some (ok tt, some 6, published)
unfolding try_send slowest_from replace_slot
publishes = refl

receives : try_recv copy published 1 (joined 3) ≡ some (some 8, received)
unfolding try_recv
receives = refl

-- The second reader suspends, 9 is published, and it resumes.
abbrev second : ReaderSlot
second = joined 4

abbrev asleep : ReaderSlot
asleep = record second { gating = false; suspended = true }

abbrev missed : Broadcast ℕ
missed = record received { buf = some 9 ∷ some 8 ∷ []; w = 5; slots = joined 3 ∷ asleep ∷ [] }

misses : try_send (suspend received 1 second) 9 ≡ some (ok tt, some 7, missed)
unfolding try_send slowest_from replace_slot suspend
misses = refl

abbrev history : History ℕ
history = record { channel = resume missed 1 asleep; sent = 5 ∷ 6 ∷ 7 ∷ 8 ∷ 9 ∷ []; received = [] }

history-Reach : Reach copy 1 5 (8 ∷ []) history
unfolding suspend
history-Reach =
    rejoin asleep
      (next
        (next
          (next
            (next (join drained with_second log drained-IsValid refl refl joins)
              (publish 8 (some 6) published (omega arith) publishes))
            (receive (joined 3) (some 8) received refl receives))
          (suspends second refl))
        (publish 9 (some 7) missed (omega arith) misses))
      refl refl refl refl

reader_sees_log_example :
    (s : ReaderSlot) × (get_elem? (resume missed 1 asleep).slots 1 ≡ some s)
    × ([] ≡ map copy (take 0 (drop 5 (5 ∷ 6 ∷ 7 ∷ 8 ∷ 9 ∷ []))))
    × (s.position ≡ 5 + 0)
    × (s.position ≤ 5)
    × ((s.position < (resume missed 1 asleep).w)
        ⊎ ([] ≡ map copy (drop 5 (5 ∷ 6 ∷ 7 ∷ 8 ∷ 9 ∷ []))))
    × Sublist (8 ∷ []) (map copy (take s.position (5 ∷ 6 ∷ 7 ∷ 8 ∷ 9 ∷ [])))
reader_sees_log_example = reader_sees_log copy 1 5 (8 ∷ []) history history-Reach

-- Two more values fill the channel while the first reader has seen neither, and the batch waits with 10 left.
abbrev ahead : Broadcast ℕ
ahead = record drained { buf = some 9 ∷ some 8 ∷ []; w = 5; min_cache = 3 }

waits : send_batch drained (8 ∷ 9 ∷ 10 ∷ []) ≡ some (10 ∷ [], settled ahead, ahead)
unfolding send_batch send_loop gate_pass publish_commit slowest_from replace_slot
waits = refl

send_batch_refines_example :
    Sent drained log (8 ∷ 9 ∷ 10 ∷ []) (send_batch drained (8 ∷ 9 ∷ 10 ∷ []))
send_batch_refines_example =
    send_batch_refines drained log (8 ∷ 9 ∷ 10 ∷ []) drained-IsValid (omega arith)
