-- ===== src/Web/SharedRing/Stream.antt =====
-- A stream between the worker and the page: lib/bridge/bridge_web.dart handles the messages of the
-- port one by one, and drains the ring on each signal, frame by frame while the worker goes on. A view
-- forgets the memory and the cursors.
pub mod Simulate
pub mod Order
pub mod Delivery
mod Tests
use godash.Common.{
  zero, suc, ◌≤◌, length, ℕ, ◌≡◌, refl, sym, ap, subst, ◌∙◌, inl, inr, Bool, true, false, List, [],
  ◌∷◌, ◌++◌, arith, if◌then◌else◌, Bool-cases, All,
}
use godash.Web.Memory.{Memory, Bytes, read_word}
use godash.Web.SharedRing.{
  SharedRing, Message, signal, envelope, Worker, post, write, send, Reader, drain, drain_round,
  shared_used_offset,
}
use godash.Web.SharedRing.Refine.{Linked, accepts, Wrote, write_refines, Drained, drain_refines}

-- The page's end: the responses handed to the stream's listener, and whether its port is closed.
pub record Page : Type 0 where
  pub handed : List Bytes
  pub closed : Bool

-- Whether the page is inside `drain`: how many rounds are left, and the frames read so far.
pub data Draining : Type 0 where
  idle : Draining
  reading : ℕ → List Bytes → Draining

abbrev pub pending : Draining → ℕ
pending idle = 0
pending (reading n frames) = n

abbrev pub taken_out : Draining → List Bytes
taken_out idle = []
taken_out (reading n frames) = frames

pub record Stream : Type 0 where
  pub worker : Worker
  pub reader : Reader
  pub page : Page
  pub draining : Draining

pub data Event : Type 0 where
  sends : Bytes → Event
  handles reads : Event

-- The frames of a history of events, in the order in which the worker sent them.
abbrev pub sent : List Event → List Bytes
sent [] = []
sent (sends f ∷ es) = f ∷ sent es
sent (handles ∷ es) = sent es
sent (reads ∷ es) = sent es

-- A stream without its memory: the frames in the ring, the port, and the page's end.
pub record View : Type 0 where
  pub draining : Draining
  pub queue : List Bytes
  pub port : List Message
  pub page : Page

pub record Shows (slots slot_size : ℕ) (s : Stream) (v : View) : Type 0 where
  pub linked : Linked s.worker s.reader v.queue
  pub geometry : (s.worker.ring.slots ≡ slots) × (s.worker.ring.slot_size ≡ slot_size)
  pub port : s.worker.port ≡ v.port
  pub page : s.page ≡ v.page
  pub draining : s.draining ≡ v.draining
  pub enough : pending v.draining ≤ length v.queue

-- A stream at its start: a zeroed buffer, both cursors at 0.
pub fresh : ℕ → ℕ → Stream
fresh slots slot_size = record {
  worker = record {
    ring = record { slots = slots; slot_size = slot_size; cursor = 0 };
    memory = λ _. 0;
    port = [];
  };
  reader = record { slots = slots; slot_size = slot_size; read_cursor = 0 };
  page = record { handed = []; closed = false };
  draining = idle;
}

-- The envelopes that wait in the port.
abbrev pub waiting : List Message → List Bytes
waiting [] = []
waiting (signal ∷ p) = waiting p
waiting (envelope f ∷ p) = f ∷ waiting p

-- What `handle` asks of a response: `hasError`, `hasDone`, or neither.
pub data Kind : Type 0 where
  error done other : Kind

-- `handle`: an error is logged, the end of the stream closes the port, the rest goes to the listener.
unfoldable pub handle_response : Page → Bytes → Kind → Page
handle_response p f error = p
handle_response p f done = record p { closed = true }
handle_response p f other = record p { handed = p.handed ++ f ∷ [] }

-- `kind` tells what a response is; decoding it is the protobuf runtime's.
module _ (kind : Bytes → Kind) where
  -- `handle` for each frame in turn; behind the end of the stream nothing is handed on.
  pub hand : Page → List Bytes → Page
  hand p [] = p
  hand p (f ∷ fs) = if p.closed then p else hand (handle_response p f (kind f)) fs

  -- `onmessage` at the next message of the port. A closed port drops it; on a signal `drain` begins.
  pub receive : Stream → Message → Stream
  receive s signal =
      let used = read_word s.worker.memory shared_used_offset in
      if s.page.closed then s else record s { draining = reading used [] }
  receive s (envelope f) = record s { page = hand s.page (f ∷ []) }

  pub next_message : Stream → List Message → Stream
  next_message s [] = s
  next_message s (m ∷ rest) = receive (record s { worker = record s.worker { port = rest } }) m

  -- The page handles one message after the other.
  pub handle_next : Stream → Draining → Stream
  handle_next s idle = next_message s s.worker.port
  handle_next s (reading n frames) = s

  -- A round of `drain`, or its end, behind which the frames are handled.
  pub next_round : Stream → Draining → Stream
  next_round s idle = s
  next_round s (reading zero frames) = record s { page = hand s.page frames; draining = idle }
  next_round s (reading (suc n) frames) =
      let (frame, r, m) = drain_round s.reader s.worker.memory in
      record s {
        worker = record s.worker { memory = m };
        reader = r;
        draining = reading n (frames ++ frame ∷ []);
      }

  pub step : Stream → Event → Stream
  step s (sends f) = record s { worker = send s.worker f }
  step s handles = handle_next s s.draining
  step s reads = next_round s s.draining

  pub run : Stream → List Event → Stream
  run s [] = s
  run s (e ∷ es) = run (step s e) es

  pub view_receive : View → Message → View
  view_receive v signal =
      if v.page.closed then v else record v { draining = reading (length v.queue) [] }
  view_receive v (envelope f) = record v { page = hand v.page (f ∷ []) }

  pub view_next : View → List Message → View
  view_next v [] = v
  view_next v (m ∷ rest) = view_receive (record v { port = rest }) m

  pub view_handle : View → Draining → View
  view_handle v idle = view_next v v.port
  view_handle v (reading n frames) = v

  pub view_take : View → ℕ → List Bytes → List Bytes → View
  view_take v n frames [] = v
  view_take v n frames (f ∷ q) = record v { queue = q; draining = reading n (frames ++ f ∷ []) }

  pub view_round : View → Draining → View
  view_round v idle = v
  view_round v (reading zero frames) = record v { page = hand v.page frames; draining = idle }
  view_round v (reading (suc n) frames) = view_take v n frames v.queue

  pub view_step : ℕ → ℕ → View → Event → View
  view_step slots slot_size v (sends f) =
      if accepts slots slot_size v.queue f
      then record v { queue = v.queue ++ f ∷ []; port = v.port ++ signal ∷ [] }
      else record v { port = v.port ++ envelope f ∷ [] }
  view_step slots slot_size v handles = view_handle v v.draining
  view_step slots slot_size v reads = view_round v v.draining

  pub view_run : ℕ → ℕ → View → List Event → View
  view_run slots slot_size v [] = v
  view_run slots slot_size v (e ∷ es) = view_run slots slot_size (view_step slots slot_size v e) es
