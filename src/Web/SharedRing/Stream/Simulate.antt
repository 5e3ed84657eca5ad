-- ===== src/Web/SharedRing/Stream/Simulate.antt =====
-- The stream over shared memory behaves as its view: the ring is the queue that the view shows.
use godash.Common.{
  zero, suc, ◌≤◌, length, length-append, arith, ℕ, ◌≡◌, refl, sym, ap, ap₂, subst, ◌∙◌, inl, inr,
  Bool, true, false, List, [], ◌∷◌, ◌++◌, if◌then◌else◌, Bool-cases,
}
use godash.Web.Memory.{Bytes}
use godash.Web.SharedRing.{Message, signal, envelope, Worker, post, write, send, Reader}
use godash.Web.SharedRing.Refine.{
  Linked, accepts, Wrote, write_refines, consumed-Linked, round_frame,
}
use godash.Web.SharedRing.Stream.{
  Kind, Page, Stream, View, Shows, Event, sends, handles, reads, Draining, idle, reading, pending,
  handle_next, next_round, view_handle, view_take, view_round, hand, receive, next_message, step,
  run, view_receive, view_next, view_step, view_run,
}

Linked-port :
    (w : Worker) (r : Reader) (q : List Bytes) (p : List Message)
    → Linked w r q
    → Linked (record w { port = p }) r q
Linked-port w r q p l = record {
  valid = l.valid;
  same_slots = l.same_slots;
  same_size = l.same_size;
  holds = l.holds;
}

module _ (slots slot_size : ℕ) where
  pub same_answer :
      (s : Stream) (v : View) (f : Bytes)
      → Shows slots slot_size s v
      → accepts s.worker.ring.slots s.worker.ring.slot_size v.queue f
        ≡ accepts slots slot_size v.queue f
  same_answer s v f h = ap₂ (λ a b. accepts a b v.queue f) h.geometry.0 h.geometry.1

  abbrev sent_by : Bytes → Bool × Worker → Worker
  sent_by f out = if out.0 then out.1 else post out.1 (envelope f)

  abbrev view_sends : View → Bytes → View
  view_sends v f =
      if accepts slots slot_size v.queue f
      then record v { queue = v.queue ++ f ∷ []; port = v.port ++ signal ∷ [] }
      else record v { port = v.port ++ envelope f ∷ [] }

  Wrote-Shows :
      (s : Stream) (v : View) (f : Bytes) (out : Bool × Worker)
      → Shows slots slot_size s v
      → Wrote s.worker s.reader v.queue f out
      → Shows slots slot_size (record s { worker = sent_by f out }) (view_sends v f)
  Wrote-Shows s v f out h o = elim (Bool-cases (accepts slots slot_size v.queue f)) [
    | inl room ↦
        let here = same_answer s v f h ∙ room in
        rw (room, o.accepted ∙ here)
          (record {
            linked = rw here at o.linked;
            geometry = (o.geometry.0 ∙ h.geometry.0, o.geometry.1 ∙ h.geometry.1);
            port = (rw here at o.posted) ∙ ap (λ p. p ++ signal ∷ []) h.port;
            page = h.page;
            draining = h.draining;
            enough = omega (arith, h.enough, length-append v.queue (f ∷ []));
          })
    | inr full ↦
        let here = same_answer s v f h ∙ full in
        rw (full, o.accepted ∙ here)
          (record {
            linked = Linked-port _ _ _ _ (rw here at o.linked);
            geometry = (o.geometry.0 ∙ h.geometry.0, o.geometry.1 ∙ h.geometry.1);
            port = ap (λ p. p ++ envelope f ∷ []) ((rw here at o.posted) ∙ h.port);
            page = h.page;
            draining = h.draining;
            enough = h.enough;
          })
  ]

Shows-if :
    {slots slot_size : ℕ} {s s' : Stream} {v v' : View} (b c : Bool)
    → c ≡ b
    → Shows slots slot_size s v
    → Shows slots slot_size s' v'
    → Shows slots slot_size (if b then s else s') (if c then v else v')
Shows-if true true e h k = h
Shows-if true false e h k = cc
Shows-if false true e h k = cc
Shows-if false false e h k = k

module _ (kind : Bytes → Kind) (slots slot_size : ℕ) where
  closed_alike : (s : Stream) (v : View) → Shows slots slot_size s v → v.page.closed ≡ s.page.closed
  closed_alike s v h = sym (ap (λ (p : Page). p.closed) h.page)

  receive-Shows :
      (s : Stream) (v : View) (m : Message)
      → Shows slots slot_size s v
      → Shows slots slot_size (receive kind s m) (view_receive kind v m)
  unfolding receive view_receive
  receive-Shows s v signal h = Shows-if s.page.closed v.page.closed (closed_alike s v h) h (record {
    linked = h.linked;
    geometry = h.geometry;
    port = h.port;
    page = h.page;
    draining = ap (λ n. reading n []) h.linked.holds.used;
    enough = omega arith;
  })
  receive-Shows s v (envelope f) h = record {
    linked = h.linked;
    geometry = h.geometry;
    port = h.port;
    page = ap (λ p. hand kind p (f ∷ [])) h.page;
    draining = h.draining;
    enough = h.enough;
  }

  next-Shows :
      (s : Stream) (v : View) (p : List Message)
      → Shows slots slot_size s v
      → Shows slots slot_size (next_message kind s p) (view_next kind v p)
  unfolding next_message view_next
  next-Shows s v [] h = h
  next-Shows s v (m ∷ rest) h =
      receive-Shows (record s { worker = record s.worker { port = rest } })
        (record v { port = rest }) m
        (record {
          linked = Linked-port _ _ _ _ h.linked;
          geometry = h.geometry;
          port = refl;
          page = h.page;
          draining = h.draining;
          enough = h.enough;
        })

  handle-Shows :
      (s : Stream) (v : View) (d : Draining)
      → Shows slots slot_size s v
      → Shows slots slot_size (handle_next kind s d) (view_handle kind v d)
  unfolding handle_next view_handle
  handle-Shows s v (reading n frames) h = h
  handle-Shows s v idle h =
      subst (λ p. Shows slots slot_size (next_message kind s s.worker.port) (view_next kind v p))
        h.port (next-Shows s v s.worker.port h)

  -- A round of the loop takes the oldest frame.
  take-Shows :
      (s : Stream) (v : View) (n : ℕ) (frames q : List Bytes)
      → Shows slots slot_size s v
      → v.queue ≡ q
      → suc n ≤ length v.queue
      → Shows slots slot_size
          (next_round kind s (reading (suc n) frames))
          (view_take kind v n frames q)
  unfolding next_round view_take
  take-Shows s v n frames [] h e some_left = absurd (omega (arith, some_left, ap (λ x. length x) e))
  take-Shows s v n frames (f ∷ q) h e some_left =
      let linked = subst (Linked s.worker s.reader) e h.linked in
      record {
        linked = consumed-Linked s.worker s.reader s.worker.memory f q linked;
        geometry = h.geometry;
        port = h.port;
        page = h.page;
        draining =
            ap (λ g. reading n (frames ++ g ∷ []))
              (round_frame s.worker s.reader s.worker.memory f q linked);
        enough = omega (arith, some_left, ap (λ x. length x) e);
      }

  round-Shows :
      (s : Stream) (v : View) (d : Draining)
      → Shows slots slot_size s v
      → v.draining ≡ d
      → Shows slots slot_size (next_round kind s d) (view_round kind v d)
  unfolding view_round next_round
  round-Shows s v idle h e = h
  round-Shows s v (reading zero frames) h e = record {
    linked = h.linked;
    geometry = h.geometry;
    port = h.port;
    page = ap (λ p. hand kind p frames) h.page;
    draining = refl;
    enough = omega arith;
  }
  round-Shows s v (reading (suc n) frames) h e =
      take-Shows s v n frames v.queue h refl (subst (λ d. pending d ≤ length v.queue) e h.enough)

  pub step-Shows :
      (s : Stream) (v : View) (e : Event)
      → Shows slots slot_size s v
      → Shows slots slot_size (step kind s e) (view_step kind slots slot_size v e)
  unfolding step view_step send
  step-Shows s v (sends f) h =
      Wrote-Shows slots slot_size s v f (write s.worker f) h
        (write_refines s.worker s.reader v.queue f h.linked)
  step-Shows s v handles h =
      subst (λ d. Shows slots slot_size (handle_next kind s d) (view_handle kind v v.draining))
        (sym h.draining) (handle-Shows s v v.draining h)
  step-Shows s v reads h =
      subst (λ d. Shows slots slot_size (next_round kind s d) (view_round kind v v.draining))
        (sym h.draining) (round-Shows s v v.draining h refl)

  -- Whatever the worker sends, between any two frames that the page reads too, and whenever the page
  -- handles a message, the page is handed the same frames over the shared memory as over a queue of
  -- frames, and the port carries the same messages.
  pub run_refines :
      (es : List Event) (s : Stream) (v : View)
      → Shows slots slot_size s v
      → Shows slots slot_size (run kind s es) (view_run kind slots slot_size v es)
  unfolding run view_run
  run_refines [] s v h = h
  run_refines (e ∷ es) s v h = run_refines es _ _ (step-Shows s v e h)
