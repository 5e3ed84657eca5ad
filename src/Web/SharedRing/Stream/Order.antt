-- ===== src/Web/SharedRing/Stream/Order.antt =====
-- Whether the page is handed the frames in the order in which the worker sent them.
use mathlib.Core.Path.{subst₂}
use godash.Common.{
  zero, suc, ◌≤◌, length, arith, ℕ, ◌≡◌, ◌≢◌, ◌⊎◌, refl, sym, ap, subst, ◌∙◌, inl, inr, false, List,
  [], ◌∷◌, ◌++◌, if_false, Bool-cases, All, All-append, append-nil, append_assoc,
}
use godash.Web.Memory.{Bytes}
use godash.Web.SharedRing.{Message, signal, envelope, write}
use godash.Web.SharedRing.Refine.{accepts, write_refines}
use godash.Web.SharedRing.Stream.{
  Kind, error, done, other, handle_response, Page, Stream, View, Shows, Event, sends, handles,
  reads, Draining, idle, reading, pending, taken_out, view_handle, view_take, view_round, sent,
  waiting, hand, step, view_receive, view_next, view_step, view_run,
}
use godash.Web.SharedRing.Stream.Simulate.{same_answer, step-Shows}

All-left {ℓ κ} : {A : Type ℓ} (P : A → Type κ) (xs ys : List A) → All P (xs ++ ys) → All P xs
All-left P [] ys h = tt
All-left P (x ∷ xs) ys h = (h.0, All-left P xs ys h.1)

All-right {ℓ κ} : {A : Type ℓ} (P : A → Type κ) (xs ys : List A) → All P (xs ++ ys) → All P ys
All-right P [] ys h = h
All-right P (x ∷ xs) ys h = All-right P xs ys h.1

pub no_elements : (q : List Bytes) → length q ≤ 0 → q ≡ []
no_elements [] h = refl
no_elements (f ∷ q) h = absurd (omega (arith, h))

waiting-append : (p r : List Message) → waiting (p ++ r) ≡ waiting p ++ waiting r
waiting-append [] r = refl
waiting-append (signal ∷ p) r = waiting-append p r
waiting-append (envelope f ∷ p) r = ap (λ xs. f ∷ xs) (waiting-append p r)

module _ (kind : Bytes → Kind) where
  abbrev pub IsPlain : Bytes → Type 0
  IsPlain f = kind f ≢ done

  -- A frame in front of those that reach the listener.
  abbrev pub cons_heard : Kind → Bytes → List Bytes → List Bytes
  cons_heard error f fs = fs
  cons_heard done f fs = fs
  cons_heard other f fs = f ∷ fs

  -- The frames that are for the listener: neither errors nor the end of the stream.
  abbrev pub heard : List Bytes → List Bytes
  heard [] = []
  heard (f ∷ fs) = cons_heard (kind f) f (heard fs)

  cons_heard-append :
      (k : Kind) (f : Bytes) (xs ys : List Bytes)
      → cons_heard k f (xs ++ ys) ≡ cons_heard k f xs ++ ys
  cons_heard-append error f xs ys = refl
  cons_heard-append done f xs ys = refl
  cons_heard-append other f xs ys = refl

  pub heard-append : (xs ys : List Bytes) → heard (xs ++ ys) ≡ heard xs ++ heard ys
  heard-append [] ys = refl
  heard-append (f ∷ xs) ys =
      ap (cons_heard (kind f) f) (heard-append xs ys) ∙ cons_heard-append (kind f) f (heard xs) _

  handle_plain :
      (p : Page) (f : Bytes) (k : Kind) (fs : List Bytes)
      → k ≢ done
      → p.closed ≡ false
      → ((handle_response p f k).handed ++ fs ≡ p.handed ++ cons_heard k f fs)
        × ((handle_response p f k).closed ≡ false)
  unfolding handle_response
  handle_plain p f error fs n e = (refl, e)
  handle_plain p f done fs n e = absurd (n refl)
  handle_plain p f other fs n e = (append_assoc p.handed (f ∷ []) fs, e)

  -- Whenever a frame goes into the ring, no envelope waits in the port.
  abbrev pub Orderly : Stream → List Event → Type 0
  Orderly s [] = Unit {0}
  Orderly s (sends f ∷ es) =
      (((write s.worker f).0 ≡ false) ⊎ (waiting s.worker.port ≡ []))
      × Orderly (step kind s (sends f)) es
  Orderly s (handles ∷ es) = Orderly (step kind s handles) es
  Orderly s (reads ∷ es) = Orderly (step kind s reads) es

  hand_plain :
      (p : Page) (fs : List Bytes)
      → p.closed ≡ false
      → All IsPlain fs
      → ((hand kind p fs).handed ≡ p.handed ++ heard fs) × ((hand kind p fs).closed ≡ false)
  unfolding hand
  hand_plain p [] e h = (sym (append-nil p.handed), e)
  hand_plain p (f ∷ fs) e h =
      let (one, open_page) = handle_plain p f (kind f) (heard fs) h.0 e in
      let (rest, still_open) = hand_plain (handle_response p f (kind f)) fs open_page h.1 in
      subst (λ (q : Page). (q.handed ≡ p.handed ++ heard (f ∷ fs)) × (q.closed ≡ false))
        (sym (if_false _ _ e)) (rest ∙ one, still_open)

  -- The frames handled, those that `drain` has read, those in the ring and the envelopes of the port
  -- spell what was sent; a signal leads the port while the ring holds frames that no `drain` is to read.
  pub record InOrder (v : View) (frames : List Bytes) : Type 0 where
    pub handled : List Bytes
    pub page_handed : v.page.handed ≡ heard handled
    pub order : handled ++ (taken_out v.draining ++ (v.queue ++ waiting v.port)) ≡ frames
    pub open_page : v.page.closed ≡ false
    pub led :
        (length v.queue ≤ pending v.draining) ⊎ ((rest : List Message) × (v.port ≡ signal ∷ rest))
    pub plain : All IsPlain frames

  leads :
      (p : List Message)
      → waiting p ≡ []
      → (rest : List Message) × (p ++ signal ∷ [] ≡ signal ∷ rest)
  leads [] e = ([], refl)
  leads (signal ∷ p) e = (p ++ signal ∷ [], refl)
  leads (envelope f ∷ p) e = cc

  published-InOrder :
      (v : View) (f : Bytes) (frames : List Bytes)
      → waiting v.port ≡ []
      → IsPlain f
      → InOrder v frames
      → InOrder
          (record v { queue = v.queue ++ f ∷ []; port = v.port ++ signal ∷ [] })
          (frames ++ f ∷ [])
  published-InOrder v f frames e p h = record {
    handled = h.handled;
    page_handed = h.page_handed;
    order =
        rw (waiting-append, e)
          (simp (append-nil, ← append_assoc)
            (ap (λ xs. xs ++ f ∷ []) (simp (← append_assoc) at handed_queue)));
    open_page = h.open_page;
    led = inr (leads v.port e);
    plain = All-append IsPlain frames (f ∷ []) h.plain (p, tt);
  }
    where
      handed_queue : h.handled ++ (taken_out v.draining ++ v.queue) ≡ frames
      handed_queue = simp (e, append-nil) at h.order

  posted-InOrder :
      (v : View) (f : Bytes) (frames : List Bytes)
      → IsPlain f
      → InOrder v frames
      → InOrder (record v { port = v.port ++ envelope f ∷ [] }) (frames ++ f ∷ [])
  posted-InOrder v f frames p h = record {
    handled = h.handled;
    page_handed = h.page_handed;
    order =
        rw waiting-append
          (simp (← append_assoc) (ap (λ xs. xs ++ f ∷ []) (simp (← append_assoc) at h.order)));
    open_page = h.open_page;
    led = elim h.led [
      | inl e ↦ inl e
      | inr (rest, e) ↦ inr (rest ++ envelope f ∷ [], ap (λ q. q ++ envelope f ∷ []) e)
    ];
    plain = All-append IsPlain frames (f ∷ []) h.plain (p, tt);
  }

  -- A signal starts `drain`, which is to read all that the ring holds.
  signalled-InOrder :
      (v : View) (rest : List Message) (frames : List Bytes)
      → v.port ≡ signal ∷ rest
      → v.draining ≡ idle
      → InOrder v frames
      → InOrder (view_receive kind (record v { port = rest }) signal) frames
  unfolding view_receive
  signalled-InOrder v rest frames e no_drain h =
      subst (λ u. InOrder u frames) (sym (if_false _ _ h.open_page))
        (record {
          handled = h.handled;
          page_handed = h.page_handed;
          order =
              subst₂ (λ p d. h.handled ++ (taken_out d ++ (v.queue ++ waiting p)) ≡ frames) e
                no_drain h.order;
          open_page = h.open_page;
          led = inl (omega arith);
          plain = h.plain;
        })

  handed-InOrder :
      (v : View) (f : Bytes) (rest : List Message) (frames : List Bytes)
      → v.port ≡ envelope f ∷ rest
      → v.draining ≡ idle
      → InOrder v frames
      → InOrder (view_receive kind (record v { port = rest }) (envelope f)) frames
  unfolding view_receive
  handed-InOrder v f rest frames e no_drain h = record {
    handled = h.handled ++ f ∷ [];
    page_handed =
        taken.0
        ∙ ap (λ x. x ++ heard (f ∷ [])) h.page_handed
        ∙ sym (heard-append h.handled (f ∷ []));
    order = rw (no_drain, empty, append_assoc) spelled;
    open_page = taken.1;
    led = inl (rw empty (omega arith));
    plain = h.plain;
  }
    where
      empty : v.queue ≡ []
      empty = elim h.led [
        | inl q ↦ no_elements v.queue (subst (λ d. length v.queue ≤ pending d) no_drain q)
        | inr (r, d) ↦ cc (e, d)
      ]

      spelled : h.handled ++ (f ∷ waiting rest) ≡ frames
      spelled =
          subst (λ d. h.handled ++ (taken_out d ++ (f ∷ waiting rest)) ≡ frames) no_drain
            (subst₂ (λ p q. h.handled ++ (taken_out v.draining ++ (q ++ waiting p)) ≡ frames) e
              empty h.order)

      taken :
          ((hand kind v.page (f ∷ [])).handed ≡ v.page.handed ++ heard (f ∷ []))
          × ((hand kind v.page (f ∷ [])).closed ≡ false)
      taken =
          hand_plain v.page (f ∷ []) h.open_page
            ((All-right IsPlain h.handled _ (subst (All IsPlain) (sym spelled) h.plain)).0, tt)

  -- The end of `drain`.
  ended-InOrder :
      (v : View) (read frames : List Bytes)
      → v.draining ≡ reading zero read
      → InOrder v frames
      → InOrder (record v { page = hand kind v.page read; draining = idle }) frames
  ended-InOrder v read frames e h = record {
    handled = h.handled ++ read;
    page_handed =
        taken.0 ∙ ap (λ x. x ++ heard read) h.page_handed ∙ sym (heard-append h.handled read);
    order = append_assoc h.handled read (v.queue ++ waiting v.port) ∙ spelled;
    open_page = taken.1;
    led = elim h.led [
      | inl less ↦ inl (subst (λ d. length v.queue ≤ pending d) e less)
      | inr leading ↦ inr leading
    ];
    plain = h.plain;
  }
    where
      spelled : h.handled ++ (read ++ (v.queue ++ waiting v.port)) ≡ frames
      spelled =
          subst (λ d. h.handled ++ (taken_out d ++ (v.queue ++ waiting v.port)) ≡ frames) e h.order

      taken :
          ((hand kind v.page read).handed ≡ v.page.handed ++ heard read)
          × ((hand kind v.page read).closed ≡ false)
      taken = hand_plain v.page read h.open_page (
          All-left IsPlain read _
            (All-right IsPlain h.handled _ (subst (All IsPlain) (sym spelled) h.plain)))

  -- A round of `drain`.
  take-InOrder :
      (v : View) (n : ℕ) (read q frames : List Bytes)
      → v.draining ≡ reading (suc n) read
      → v.queue ≡ q
      → InOrder v frames
      → InOrder (view_take kind v n read q) frames
  unfolding view_take
  take-InOrder v n read [] frames e k h = h
  take-InOrder v n read (f ∷ q) frames e k h = record {
    handled = h.handled;
    page_handed = h.page_handed;
    order =
        ap (λ x. h.handled ++ x) (append_assoc read (f ∷ []) (q ++ waiting v.port))
        ∙ subst₂ (λ d x. h.handled ++ (taken_out d ++ (x ++ waiting v.port)) ≡ frames) e k h.order;
    open_page = h.open_page;
    led = elim h.led [
      | inl less ↦
          let shorter : length (f ∷ q) ≤ suc n = subst₂ (λ d x. length x ≤ pending d) e k less in
          inl (omega (arith, shorter))
      | inr leading ↦ inr leading
    ];
    plain = h.plain;
  }

  round-InOrder :
      (v : View) (d : Draining) (frames : List Bytes)
      → v.draining ≡ d
      → InOrder v frames
      → InOrder (view_round kind v d) frames
  unfolding view_round
  round-InOrder v idle frames e h = h
  round-InOrder v (reading zero read) frames e h = ended-InOrder v read frames e h
  round-InOrder v (reading (suc n) read) frames e h = take-InOrder v n read v.queue frames e refl h

  next-InOrder :
      (v : View) (p : List Message) (frames : List Bytes)
      → v.port ≡ p
      → v.draining ≡ idle
      → InOrder v frames
      → InOrder (view_next kind v p) frames
  unfolding view_next
  next-InOrder v [] frames e i h = h
  next-InOrder v (signal ∷ rest) frames e i h = signalled-InOrder v rest frames e i h
  next-InOrder v (envelope f ∷ rest) frames e i h = handed-InOrder v f rest frames e i h

  handle-InOrder :
      (v : View) (d : Draining) (frames : List Bytes)
      → v.draining ≡ d
      → InOrder v frames
      → InOrder (view_handle kind v d) frames
  unfolding view_handle
  handle-InOrder v idle frames e h = next-InOrder v v.port frames refl e h
  handle-InOrder v (reading n read) frames e h = h

  module _ (slots slot_size : ℕ) where
    sends-InOrder :
        (v : View) (f : Bytes) (frames : List Bytes)
        → (accepts slots slot_size v.queue f ≡ false) ⊎ (waiting v.port ≡ [])
        → IsPlain f
        → InOrder v frames
        → InOrder (view_step kind slots slot_size v (sends f)) (frames ++ f ∷ [])
    unfolding view_step
    sends-InOrder v f frames c p h = elim (Bool-cases (accepts slots slot_size v.queue f)) [
      | inl room ↦ rw room (published-InOrder v f frames (elim c [ inl full ↦ cc | inr e ↦ e ]) p h)
      | inr full ↦ rw full (posted-InOrder v f frames p h)
    ]

    answered :
        (s : Stream) (v : View) (f : Bytes)
        → Shows slots slot_size s v
        → ((write s.worker f).0 ≡ false) ⊎ (waiting s.worker.port ≡ [])
        → (accepts slots slot_size v.queue f ≡ false) ⊎ (waiting v.port ≡ [])
    answered s v f h (inl e) = inl (
        sym (same_answer slots slot_size s v f h)
        ∙ sym (write_refines s.worker s.reader v.queue f h.linked).accepted
        ∙ e)
    answered s v f h (inr e) = inr (subst (λ p. waiting p ≡ []) h.port e)

    pub run-InOrder :
        (es : List Event) (s : Stream) (v : View) (frames : List Bytes)
        → Shows slots slot_size s v
        → Orderly s es
        → All IsPlain (sent es)
        → InOrder v frames
        → InOrder (view_run kind slots slot_size v es) (frames ++ sent es)
    unfolding view_run
    run-InOrder [] s v frames h o p i = rw append-nil i
    run-InOrder (sends f ∷ es) s v frames h o p i =
        subst (InOrder _) (append_assoc frames (f ∷ []) (sent es)) (
          run-InOrder es (step kind s (sends f)) _ (frames ++ f ∷ [])
            (step-Shows kind slots slot_size s v (sends f) h) o.1 p.1
            (sends-InOrder v f frames (answered s v f h o.0) p.0 i))
    run-InOrder (handles ∷ es) s v frames h o p i =
        run-InOrder es (step kind s handles) _ frames
          (step-Shows kind slots slot_size s v handles h) o p
          (unfold view_step in handle-InOrder v v.draining frames refl i)
    run-InOrder (reads ∷ es) s v frames h o p i =
        run-InOrder es (step kind s reads) _ frames (step-Shows kind slots slot_size s v reads h) o
          p (unfold view_step in round-InOrder v v.draining frames refl i)
