-- ===== src/Web/SharedRing.antt =====
-- web/shared.go: `sharedRing`, `sharedSink`, `newResponseSink`, and the reader of
-- lib/bridge/shared_ring.dart, which takes the frames out again.
pub mod Slots
pub mod Queue
pub mod Refine
pub mod Bounds
pub mod Stream
mod Tests
use godash.Common.{
  ℕ, zero, suc, ◌+◌, ◌-◌, ◌*◌, ◌/◌, ◌%◌, Bool, true, false, not, ◌&&◌, ◌||◌, Option, none, some,
  List, [], ◌∷◌, ◌++◌, length, if◌then◌else◌, ltb, leb, ◌==◌, ◌^◌, int_half,
}
use godash.Web.Memory.{Memory, Bytes, write_word, read_word, write_bytes, read_bytes}

abbrev pub shared_used_offset : ℕ
shared_used_offset = 0

abbrev pub shared_payload_base : ℕ
shared_payload_base = 16

abbrev pub shared_frame_header : ℕ
shared_frame_header = 4

-- The fields of `sharedRing` that Go keeps; its four views are of the one memory.
pub record SharedRing : Type 0 where
  pub slots : ℕ
  pub slot_size : ℕ
  pub cursor : ℕ

-- What goes out on the `MessagePort`: the bare number of `postSignal`, or the bytes of `postMessage`.
pub data Message : Type 0 where
  signal : Message
  envelope : Bytes → Message

-- A stream as the worker sees it: its ring, the shared buffer, and the messages posted so far that
-- the page has not handled yet, oldest first.
pub record Worker : Type 0 where
  pub ring : SharedRing
  pub memory : Memory
  pub port : List Message

abbrev pub post : Worker → Message → Worker
post w m = record w { port = w.port ++ m ∷ [] }

-- The byte offset of a slot.
abbrev pub slot_base : ℕ → ℕ → ℕ
slot_base slot_size slot = shared_payload_base + slot * slot_size

-- The copy of the payload behind the length, skipped for an empty message.
pub store_frame : Memory → ℕ → Bytes → Memory
store_frame m base message =
    let lengthed = write_word m (base / 4 * 4) (length message) in
    if ltb 0 (length message)
    then write_bytes lengthed (base + shared_frame_header) message
    else lengthed

-- `len(message) > slotSize - header` is written with the header on the other side. `Atomics.add`
-- is a read and a write of the counter.
pub write : Worker → Bytes → Bool × Worker
write w message =
    let r = w.ring in
    let used = read_word w.memory shared_used_offset in
    if ltb r.slot_size (length message + shared_frame_header)
    then (false, w)
    else if leb r.slots used
    then (false, w)
    else (
      true,
      post
          (record w {
            ring = record r { cursor = (r.cursor + 1) % r.slots };
            memory =
                let stored = store_frame w.memory (slot_base r.slot_size r.cursor) message in
                write_word stored shared_used_offset (read_word stored shared_used_offset + 1);
          })
          signal,
    )

-- `sharedSink.send`: the envelope takes what the ring does not.
unfoldable pub send : Worker → Bytes → Worker
send w message = let (done, w') = write w message in if done then w' else post w' (envelope message)

-- `sharedPayloadBase + slots*slotSize` in the 64 bits of an `int` of GOARCH=wasm: negative from 2^63 on.
pub required : ℕ → ℕ → ℕ
required slots slot_size = (shared_payload_base + slots * slot_size) % 2 ^ 64

-- The worker message that asks for a stream: the `byteLength` of its shared buffer, if it is an
-- object that has one, and the two numbers behind it. A negative number is taken as 0, which
-- `newResponseSink` refuses too.
pub record Descriptor : Type 0 where
  pub byte_length : Option ℕ
  pub slots : ℕ
  pub slot_size : ℕ

pub sink_in : Option ℕ → Descriptor → Option SharedRing
sink_in none d = none
sink_in (some size) d =
    if (d.slots == 0) || (leb d.slot_size shared_frame_header || not (d.slot_size % 4 == 0))
    then none
    else if ltb (required d.slots d.slot_size) int_half && ltb size (required d.slots d.slot_size)
    then none
    else some (record { slots = d.slots; slot_size = d.slot_size; cursor = 0 })

-- `newResponseSink`: the ring of the sink, or `none` for the envelope sink.
pub new_response_sink : Descriptor → Option SharedRing
unfolding sink_in
new_response_sink d = sink_in d.byte_length d

-- `SharedRingReader`: the page's read cursor, over the same geometry.
pub record Reader : Type 0 where
  pub slots : ℕ
  pub slot_size : ℕ
  pub read_cursor : ℕ

pub read_frame : Memory → ℕ → Bytes
read_frame m base = read_bytes m (base + shared_frame_header) (read_word m base)

-- One round of the loop of `drain`: the frame, and the reader and the memory behind it.
abbrev pub drain_round : Reader → Memory → Bytes × Reader × Memory
drain_round r m = (
  read_frame m (slot_base r.slot_size r.read_cursor),
  record r { read_cursor = (r.read_cursor + 1) % r.slots },
  write_word m shared_used_offset (read_word m shared_used_offset - 1),
)

-- The loop of `drain` over the frames pending when it was called, with the frames read so far.
pub drain_from : ℕ → Reader → Memory → List Bytes → List Bytes × Reader × Memory
drain_from zero r m frames = (frames, r, m)
drain_from (suc pending) r m frames =
    let (frame, r', m') = drain_round r m in drain_from pending r' m' (frames ++ frame ∷ [])

pub drain : Reader → Memory → List Bytes × Reader × Memory
drain r m = drain_from (read_word m shared_used_offset) r m []
