-- ===== src/Lib.antt =====
-- The channels of prescient: lock-free rings between one producer and one consumer, and what is built on them.
--
-- `Word` has the machine words: `usize` has 64 bits, the wrapping operations write the wrap out, and
-- `checked_next_power_of_two` searches all 64 powers. `Slots` has storage of `MaybeUninit`: a list in which a
-- slot owns a value or none. A read of a slot that owns nothing, or out of the storage, is `none`, which stands
-- for undefined behaviour or a panic, so a theorem that an operation returns `some` says that there is none. A
-- write over an owned slot is accepted, and the value under it is lost.
--
-- `Batch` is src/backend/batch.rs. `Ring`, `Ring.Bulk` and `Ring.Teardown` are src/backend/ring.rs: one record
-- for `Inner`, `Sender` and `Receiver`. Each half loads the other's cursor at most once per operation, and that
-- load is an argument, `seen`: it may be any value between the cached copy and the current cursor (`RecentHead`,
-- `RecentTail` in `Ring.Cursors`), current or stale. `Ring.Invariant.Holds r q` says that the ring owns
-- the values `q`; `Ring.Refine`, `Ring.PushFrom`, `Ring.DrainInto`, `Ring.DrainInPlace` and `Ring.TeardownRefine`
-- show each operation against it, `Ring.MovesIn` and `Ring.MovesOut` the two raw copies, and `Ring.Trace` all
-- runs. `push_from` and `drain_into` are the production bodies, not the ones under `cfg(loom)`. A callback is a
-- function on a state that may panic.
--
-- `Broadcast` is src/mpmc/broadcast/mod.rs: publisher, readers and shared state in one record, whose operations
-- are taken whole. `Broadcast.Invariant.IsValid b log` relates it to the list of everything that was
-- published. `Broadcast.Scan` has the search for the slowest reader, `Broadcast.Publish` and
-- `Broadcast.PublishMany` publication, `Broadcast.Receive` reception and release, `Broadcast.Membership` the
-- readers that join and leave, `Broadcast.Trace` all runs as one reader sees them, `Broadcast.Sight` and
-- `Broadcast.Order` what it sees. `send_batch` has the publisher's own position and the shared `w` apart
-- (`PublishCommit`), and ends at a wait, in which others go on; a reader's operation falls between such calls.
-- The clone of a value is a parameter. The callback of `drain` is taken to return.
--
-- `Seg` is src/backend/seg.rs: the consumer's segment and the list of those linked behind it, the last being the
-- producer's. Operations are taken whole. `Seg.Chain` has the invariant, `Seg.Refine` and `Seg.Empty` the
-- operations against a queue.
--
-- `Backend` is the default `push_from` of src/backend/mod.rs over any `try_push`, and
-- `Backend.Default.TxLaws` what it relies on, which the segmented backend fills. The ring has a `push_from`
-- of its own.
--
-- `RoundRobin` is src/round_robin.rs. `Open` is the shared validation and the automatic capacities of src/open.rs,
-- with `size_of::<T>()` as an argument.
--
-- `Stream` is src/ipc/stream.rs, a transfer of bytes between two processes over two regions that both map.
-- An error keeps its kind. `Stream.Bytes` and `Stream.Frame` are the descriptors on the wire,
-- `Stream.Chunks` the cut of a stream into chunks, `Stream.Layout` the places in a region, `Stream.Checksum`
-- both forms of the checksum, with the vector intrinsics written out lane by lane, and `Stream.Roles` the
-- claims of the two ends. `Stream.Memory` has a region as a function from places to bytes; `Stream.Arena` is
-- `Arena` on it, where `Stream.Arena.Queue.Carries` relates the bytes to a queue of frames. `Stream.Setup`
-- creates and opens an arena: the region, its events and the locking are arguments. `Stream.Direction` pairs
-- two of them. `Stream.Validate` has the checks on what the peer sends. `Stream.Producer` and
-- `Stream.Consumer` have `produce` and `consume`, cut at their pushes and pops: a step does one of these and
-- runs on to the next, and `Stream.Transfer` lets the two take turns in any order. `Stream.Plan` says what a
-- transfer has to send, `Stream.Transfer.Invariant` where both sides stand, `Stream.Transfer.Turns` and
-- `Stream.Transfer.ConsumerTurn` that each turn keeps it, `Stream.Transfer.Delivery` and
-- `Stream.Direction.Delivery` what it comes to. The reader and the writer of a transfer are lists of bytes;
-- other errors of theirs are left out, as is a reader that fails in the middle of a chunk with part of it
-- written to the slot.
--
-- Bounds. The ring's cursors wrap at 2 ^ 64 and its capacities go up to 2 ^ 63, without further limits. A
-- broadcast channel is taken to publish fewer than 2 ^ 64 values: its test `position >= cap` and the count
-- `min(w, cap)` at its release are about the count itself, not about a difference of cursors. `Receiver::drop`
-- and `Inner::drop` run on fuel `cap + 1`: a ring has at most `cap` values, and one more round sees the end.
--
-- The chunks of a valid shape are fewer than 2 ^ 64 - 4, so the positions of a transfer do not wrap.
--
-- Not modelled: memory orderings within an operation, the asynchronous drain, the blocking loops, the other
-- channels (src/mpsc, src/mpmc but for broadcast), the drain of the segmented backend. Of the inter-process
-- transport: the transfers of a length that is found while streaming, whose checks alone are there,
-- time-outs and the liveness of the peer, and the system calls below.
pub mod Prelude
pub mod Word
pub mod Slots
pub mod Batch
pub mod Ring
pub mod Broadcast
pub mod Seg
pub mod Backend
pub mod RoundRobin
pub mod Open
pub mod Stream
