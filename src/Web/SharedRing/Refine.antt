-- ===== src/Web/SharedRing/Refine.antt =====
-- `write` and `drain` against the bounded queue that the ring implements.
use godash.Common.{
  ℕ, ◌+◌, ◌-◌, ◌%◌, ◌≤◌, ◌<◌, ◌≡◌, inl, inr, sym, ap, subst, ◌∙◌, refl, List, [], ◌∷◌, ◌++◌,
  append-nil, append_assoc, arith, length, Bool, true, false, ◌&&◌, if◌then◌else◌, ltb, leb,
  Bool-cases,
}
use godash.Web.Memory.{
  Memory, Bytes, Agree, read_word, write_word, read_bytes, read_word-write_word,
}
use godash.Web.SharedRing.{
  signal, Worker, post, slot_base, write, Reader, read_frame, drain_round, drain_from, drain,
}
use godash.Web.SharedRing.Slots.{SlotHolds, SlotHolds-Agree}
use godash.Web.SharedRing.Queue.{
  IsValid, Stored, Holds, next_lt, shift, small, counter_outside, published, published-Holds,
}

-- A worker and the reader of its ring, with the frames that the reader has not taken out.
pub record Linked (w : Worker) (r : Reader) (q : List Bytes) : Type 0 where
  pub valid : IsValid w.ring.slots w.ring.slot_size
  pub same_slots : r.slots ≡ w.ring.slots
  pub same_size : r.slot_size ≡ w.ring.slot_size
  pub holds : Holds w.ring.slots w.ring.slot_size w.memory r.read_cursor w.ring.cursor q

-- The bounded queue that the ring implements: it takes a frame that fits a slot, while one is free.
pub accepts : ℕ → ℕ → List Bytes → Bytes → Bool
accepts slots slot_size q f = leb (length f + 4) slot_size && ltb (length q) slots

pub write_refused :
    (w : Worker) (q : List Bytes) (f : Bytes)
    → read_word w.memory 0 ≡ length q
    → accepts w.ring.slots w.ring.slot_size q f ≡ false
    → write w f ≡ (false, w)
unfolding write accepts
write_refused w q f used no_room = ground arith

abbrev pub taken : (w : Worker) → IsValid w.ring.slots w.ring.slot_size → Bytes → Worker
taken w v f =
    post
      (record w {
        ring = record w.ring { cursor = (w.ring.cursor + 1) % w.ring.slots };
        memory = published w.ring.slots w.ring.slot_size v w.memory w.ring.cursor f;
      })
      signal

pub write_accepted :
    (w : Worker) (q : List Bytes) (f : Bytes) (v : IsValid w.ring.slots w.ring.slot_size)
    → read_word w.memory 0 ≡ length q
    → accepts w.ring.slots w.ring.slot_size q f ≡ true
    → write w f ≡ (true, taken w v f)
unfolding write accepts
write_accepted w q f v used room = ground arith

pub accepts_room :
    (slots slot_size : ℕ) (q : List Bytes) (f : Bytes)
    → accepts slots slot_size q f ≡ true
    → (length f + 4 ≤ slot_size) × (length q < slots)
unfolding accepts
accepts_room slots slot_size q f h = ground arith

pub accepts_fitting :
    (slots slot_size : ℕ) (q : List Bytes) (f : Bytes)
    → length f + 4 ≤ slot_size
    → length q < slots
    → accepts slots slot_size q f ≡ true
unfolding accepts
accepts_fitting slots slot_size q f h k = ground arith

pub accepts_large :
    (slots slot_size : ℕ) (q : List Bytes) (f : Bytes)
    → slot_size < length f + 4
    → accepts slots slot_size q f ≡ false
unfolding accepts
accepts_large slots slot_size q f h = ground arith

-- What `write` does to the queue and to the port, on every branch.
pub record Wrote (w : Worker) (r : Reader) (q : List Bytes) (f : Bytes) (out : Bool × Worker)
    : Type 0 where
  pub accepted : out.0 ≡ accepts w.ring.slots w.ring.slot_size q f
  pub linked : Linked out.1 r (if accepts w.ring.slots w.ring.slot_size q f then q ++ f ∷ [] else q)
  pub posted :
      out.1.port
      ≡ (if accepts w.ring.slots w.ring.slot_size q f then w.port ++ signal ∷ [] else w.port)
  pub geometry : (out.1.ring.slots ≡ w.ring.slots) × (out.1.ring.slot_size ≡ w.ring.slot_size)

taken-Wrote :
    (w : Worker) (r : Reader) (q : List Bytes) (f : Bytes) (l : Linked w r q)
    → accepts w.ring.slots w.ring.slot_size q f ≡ true
    → Wrote w r q f (true, taken w l.valid f)
taken-Wrote w r q f l room = record {
  accepted = sym room;
  linked = rw room (record {
    valid = l.valid;
    same_slots = l.same_slots;
    same_size = l.same_size;
    holds =
        published-Holds _ _ l.valid w.memory r.read_cursor w.ring.cursor q f l.holds
          (accepts_room _ _ q f room).0 (accepts_room _ _ q f room).1;
  });
  posted = rw room;
  geometry = (refl, refl);
}

refused-Wrote :
    (w : Worker) (r : Reader) (q : List Bytes) (f : Bytes)
    → Linked w r q
    → accepts w.ring.slots w.ring.slot_size q f ≡ false
    → Wrote w r q f (false, w)
refused-Wrote w r q f l full = record {
  accepted = sym full;
  linked = rw full l;
  posted = rw full;
  geometry = (refl, refl);
}

-- `write` of a worker whose ring holds the queue `q` refines the bounded queue: it reports whether the frame was taken, a taken frame is at
-- the back of the queue and signalled once, and a refused one changes nothing.
pub write_refines :
    (w : Worker) (r : Reader) (q : List Bytes) (f : Bytes)
    → Linked w r q
    → Wrote w r q f (write w f)
write_refines w r q f l = elim (Bool-cases (accepts w.ring.slots w.ring.slot_size q f)) [
  | inl room ↦
      subst (Wrote w r q f) (sym (write_accepted w q f l.valid l.holds.used room))
        (taken-Wrote w r q f l room)
  | inr full ↦
      subst (Wrote w r q f) (sym (write_refused w q f l.holds.used full))
        (refused-Wrote w r q f l full)
]

Stored-Agree :
    (m m' : Memory) (slots w s : ℕ) (q : List Bytes)
    → ((t : ℕ) → Agree m m' (slot_base w t) (slot_base w t + w))
    → Stored m slots w s q
    → Stored m' slots w s q
Stored-Agree m m' slots w s [] h v = tt
Stored-Agree m m' slots w s (f ∷ fs) h v =
    (SlotHolds-Agree m m' w s f (h s) v.0, Stored-Agree m m' slots w ((s + 1) % slots) fs h v.1)

-- The ring after its oldest frame was taken out.
consumed-Holds :
    (slots w : ℕ) (v : IsValid slots w) (m : Memory) (rc c : ℕ) (f : Bytes) (q : List Bytes)
    → Holds slots w m rc c (f ∷ q)
    → Holds slots w (write_word m 0 (read_word m 0 - 1)) ((rc + 1) % slots) c q
consumed-Holds slots w v m rc c f q h = record {
  used =
      read_word-write_word m 0 _ (omega (arith, h.used, h.room, (small slots w v).0))
      ∙ omega (arith, h.used);
  room = omega (arith, h.room);
  reading = next_lt slots rc h.reading;
  writing = h.writing ∙ sym (shift slots rc (length q));
  stored = Stored-Agree m _ slots w _ q (λ t. counter_outside slots w v m t _) h.stored.1;
}

read_frame-SlotHolds :
    (m : Memory) (w s : ℕ) (f : Bytes) → SlotHolds m w s f → read_frame m (slot_base w s) ≡ f
unfolding read_frame
read_frame-SlotHolds m w s f h = ap (read_bytes m (slot_base w s + 4)) h.header ∙ h.payload

-- What `drain` leaves: the frames that it returns, and the memory and the reader behind them.
pub record Drained (w : Worker) (expected : List Bytes) (out : List Bytes × Reader × Memory)
    : Type 0 where
  pub frames : out.0 ≡ expected
  pub linked : Linked (record w { memory = out.2 }) out.1 []

pub consumed-Linked :
    (w : Worker) (r : Reader) (m : Memory) (f : Bytes) (q : List Bytes)
    → Linked (record w { memory = m }) r (f ∷ q)
    → Linked
        (record w { memory = write_word m 0 (read_word m 0 - 1) })
        (record r { read_cursor = (r.read_cursor + 1) % r.slots })
        q
consumed-Linked w r m f q l = record {
  valid = l.valid;
  same_slots = l.same_slots;
  same_size = l.same_size;
  holds =
      subst
        (λ n.
          Holds w.ring.slots w.ring.slot_size (write_word m 0 (read_word m 0 - 1))
            ((r.read_cursor + 1) % n) w.ring.cursor q)
        (sym l.same_slots)
        (consumed-Holds w.ring.slots w.ring.slot_size l.valid m r.read_cursor w.ring.cursor f q
          l.holds);
}

-- The frame of a round is the oldest.
pub round_frame :
    (w : Worker) (r : Reader) (m : Memory) (f : Bytes) (q : List Bytes)
    → Linked (record w { memory = m }) r (f ∷ q)
    → (drain_round r m).0 ≡ f
round_frame w r m f q l =
    subst (λ n. read_frame m (slot_base n r.read_cursor) ≡ f) (sym l.same_size)
      (read_frame-SlotHolds m w.ring.slot_size r.read_cursor f l.holds.stored.0)

drain_from-Drained :
    (q : List Bytes) (w : Worker) (r : Reader) (m : Memory) (out : List Bytes)
    → Linked (record w { memory = m }) r q
    → Drained w (out ++ q) (drain_from (length q) r m out)
unfolding drain_from
drain_from-Drained [] w r m out l = record { frames = sym (append-nil out); linked = l }
drain_from-Drained (f ∷ q) w r m out l =
    subst (λ xs. Drained w xs (drain_from (length (f ∷ q)) r m out)) regroup
      (drain_from-Drained q w (record r { read_cursor = (r.read_cursor + 1) % r.slots })
        (write_word m 0 (read_word m 0 - 1)) (out ++ frame ∷ []) (consumed-Linked w r m f q l))
  where
    frame : Bytes
    frame = read_frame m (slot_base r.slot_size r.read_cursor)

    same : frame ≡ f
    same = round_frame w r m f q l

    regroup : (out ++ frame ∷ []) ++ q ≡ out ++ f ∷ q
    regroup = append_assoc out (frame ∷ []) q ∙ ap (λ g. out ++ g ∷ q) same

-- `drain` of a page whose ring holds the queue `q` returns every unread frame, oldest first and byte for byte, and leaves the ring empty.
pub drain_refines :
    (w : Worker) (r : Reader) (q : List Bytes) → Linked w r q → Drained w q (drain r w.memory)
unfolding drain
drain_refines w r q l = rw l.holds.used (drain_from-Drained q w r w.memory [] l)
