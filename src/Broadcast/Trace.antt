-- ===== src/Broadcast/Trace.antt =====
-- Every run of a broadcast channel, as one reader of it sees the run.
use prescient.Prelude.{
  ℕ, ◌+◌, ◌^◌, ◌≤◌, ◌<◌, ◌≡◌, ◌≢◌, List, [], ◌∷◌, ◌++◌, true, Option, none, some, ok, err, take,
  drop, map, length, get_elem?,
}
use prescient.Word.{word_size}
use prescient.Broadcast.{
  ReaderSlot, Broadcast, PublishCommit, open_broadcast, try_send, send_batch, try_recv, drain,
  suspend, resume, drop_reader, subscribe, drop_publisher,
}
use prescient.Broadcast.Invariant.{IsValid}

-- A channel with what was published so far, and with what the reader that is watched was handed.
pub record History {ℓ} (T : Type ℓ) : Type ℓ where
  pub channel : Broadcast T
  pub sent : List T
  pub received : List T

-- What one reception adds.
abbrev pub handed {ℓ} : {T : Type ℓ} → Option T → List T
handed none = []
handed (some x) = x ∷ []

module _ {ℓ} {T : Type ℓ} (clone : T → T) (i : ℕ) where
  -- One operation on the channel, while the reader in slot `i` is not dropped. A batch is published up to a wait, and goes
  -- on after it as another one. A suspended reader resumes by `rejoin`; `resume` of one that is awake does nothing.
  pub data Step (h : History T) : History T → Type ℓ where
    publish :
        (x : T) (old : Option T) (b : Broadcast T)
        → h.channel.w + 1 < word_size
        → try_send h.channel x ≡ some (ok tt, old, b)
        → Step h (record { channel = b; sent = h.sent ++ (x ∷ []); received = h.received })
    publish_many :
        (values sent rest : List T) (c : PublishCommit) (b : Broadcast T)
        → h.channel.w + length values < word_size
        → values ≡ sent ++ rest
        → send_batch h.channel values ≡ some (rest, c, b)
        → Step h (record { channel = b; sent = h.sent ++ sent; received = h.received })
    refuse :
        (x y : T) (old : Option T) (b : Broadcast T)
        → h.channel.w + 1 < word_size
        → try_send h.channel x ≡ some (err y, old, b)
        → Step h (record { channel = b; sent = h.sent; received = h.received })
    receive :
        (s : ReaderSlot) (o : Option T) (b : Broadcast T)
        → get_elem? h.channel.slots i ≡ some s
        → try_recv clone h.channel i s ≡ some (o, b)
        → Step h (record { channel = b; sent = h.sent; received = h.received ++ handed o })
    receive_many :
        (max : ℕ) (s : ReaderSlot) (xs : List T) (b : Broadcast T)
        → get_elem? h.channel.slots i ≡ some s
        → drain clone max h.channel i s ≡ some (xs, b)
        → Step h (record { channel = b; sent = h.sent; received = h.received ++ xs })
    other_receives :
        (j : ℕ) (s : ReaderSlot) (o : Option T) (b : Broadcast T)
        → j ≢ i
        → get_elem? h.channel.slots j ≡ some s
        → s.reserved ≡ true
        → try_recv clone h.channel j s ≡ some (o, b)
        → Step h (record { channel = b; sent = h.sent; received = h.received })
    other_receives_many :
        (max j : ℕ) (s : ReaderSlot) (xs : List T) (b : Broadcast T)
        → j ≢ i
        → get_elem? h.channel.slots j ≡ some s
        → s.reserved ≡ true
        → drain clone max h.channel j s ≡ some (xs, b)
        → Step h (record { channel = b; sent = h.sent; received = h.received })
    suspends :
        (s : ReaderSlot)
        → get_elem? h.channel.slots i ≡ some s
        → Step h (record { channel = suspend h.channel i s; sent = h.sent; received = h.received })
    other_suspends :
        (j : ℕ) (s : ReaderSlot)
        → j ≢ i
        → get_elem? h.channel.slots j ≡ some s
        → s.reserved ≡ true
        → Step h (record { channel = suspend h.channel j s; sent = h.sent; received = h.received })
    other_resumes :
        (j : ℕ) (s : ReaderSlot)
        → j ≢ i
        → get_elem? h.channel.slots j ≡ some s
        → s.reserved ≡ true
        → Step h (record { channel = resume h.channel j s; sent = h.sent; received = h.received })
    other_leaves :
        (j : ℕ) (s : ReaderSlot)
        → j ≢ i
        → get_elem? h.channel.slots j ≡ some s
        → Step h
            (record { channel = drop_reader h.channel j s; sent = h.sent; received = h.received })
    other_joins :
        (j : ℕ) (b : Broadcast T)
        → subscribe h.channel ≡ some (j, b)
        → Step h (record { channel = b; sent = h.sent; received = h.received })
    publisher_leaves :
        Step h (record { channel = drop_publisher h.channel; sent = h.sent; received = h.received })

  -- The runs of the reader in slot `i`, which last joined or resumed when `start` values had been published: what it was
  -- handed since then is in the history, and what it was handed before is `earlier`. It is the reader that `open` makes, or
  -- one that subscribes to a channel in any state.
  pub data Reach : (start : ℕ) (earlier : List T) → History T → Type ℓ where
    opened :
        {start : ℕ} {earlier : List T} (capacity max_readers : ℕ) (b : Broadcast T)
        → 1 ≤ max_readers
        → max_readers ≤ 64
        → capacity ≤ 2 ^ 63
        → open_broadcast capacity max_readers ≡ some b
        → i ≡ 0
        → start ≡ 0
        → earlier ≡ []
        → Reach start earlier (record { channel = b; sent = []; received = [] })
    join :
        {start : ℕ} {earlier : List T} (b b' : Broadcast T) (log : List T)
        → IsValid b log
        → start ≡ length log
        → earlier ≡ []
        → subscribe b ≡ some (i, b')
        → Reach start earlier (record { channel = b'; sent = log; received = [] })
    next :
        {start : ℕ} {earlier : List T} {h h' : History T}
        → Reach start earlier h
        → Step h h'
        → Reach start earlier h'
    rejoin :
        {start start' : ℕ} {earlier earlier' : List T} {h : History T} (s : ReaderSlot)
        → Reach start earlier h
        → get_elem? h.channel.slots i ≡ some s
        → s.suspended ≡ true
        → start' ≡ length h.sent
        → earlier' ≡ earlier ++ h.received
        → Reach start' earlier'
            (record { channel = resume h.channel i s; sent = h.sent; received = [] })

  -- What the reader has seen is the part of the log from `start` to its position.
  pub record Seen (start : ℕ) (h : History T) : Type ℓ where
    pub valid : IsValid h.channel h.sent
    pub reader : ReaderSlot
    pub here : get_elem? h.channel.slots i ≡ some reader
    pub reserved : reader.reserved ≡ true
    pub behind : reader.position ≤ h.channel.w
    pub position : reader.position ≡ start + length h.received
    pub slice : h.received ≡ map clone (take (length h.received) (drop start h.sent))
