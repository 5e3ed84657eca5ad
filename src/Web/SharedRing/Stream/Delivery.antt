-- ===== src/Web/SharedRing/Stream/Delivery.antt =====
-- What the page is handed by the end of a history, from a fresh stream.
use native.Mathlib.Nat.{mod-eq_of_lt}
use godash.Common.{
  subst, ℕ, ◌+◌, ◌≤◌, ◌<◌, ◌≡◌, refl, sym, ap, ap₂, ◌∙◌, inl, inr, false, List, [], ◌∷◌, ◌++◌,
  arith, All, append-nil, length,
}
use godash.Web.Memory.{Bytes, read_word}
use godash.Web.SharedRing.{drain}
use godash.Web.SharedRing.Queue.{IsValid}
use godash.Web.SharedRing.Refine.{accepts_fitting, accepts_large, drain_refines}
use godash.Web.SharedRing.Stream.{
  Kind, done, other, handle_response, Page, Stream, View, Shows, Event, sends, handles, reads, idle,
  pending, taken_out, view_handle, view_round, view_take, fresh, sent, waiting, hand, run,
  view_receive, view_next, view_step, view_run,
}
use godash.Web.SharedRing.Stream.Simulate.{run_refines}
use godash.Web.SharedRing.Stream.Order.{
  IsPlain, heard, heard-append, no_elements, Orderly, InOrder, run-InOrder,
}

abbrev pub empty_view : View
empty_view = record {
  draining = idle;
  queue = [];
  port = [];
  page = record { handed = []; closed = false };
}

pub fresh-Shows : (slots w : ℕ) → IsValid slots w → Shows slots w (fresh slots w) empty_view
unfolding fresh
fresh-Shows slots w v = record {
  linked = record {
    valid = v;
    same_slots = refl;
    same_size = refl;
    holds = record {
      used = unfold read_word in refl;
      room = omega arith;
      reading = v.some_slots;
      writing = sym (mod-eq_of_lt v.some_slots);
      stored = tt;
    };
  };
  geometry = (refl, refl);
  port = refl;
  page = refl;
  draining = refl;
  enough = omega arith;
}

-- Three frames sent before the page handles the first of their messages; it then reads two of them out
-- of the ring, before it handles the others.
abbrev pub late : Bytes → Bytes → Bytes → List Event
late a b c = sends a ∷ sends b ∷ sends c ∷ handles ∷ reads ∷ reads ∷ reads ∷ handles ∷ handles ∷ []

module _ (kind : Bytes → Kind) (slots w : ℕ) (v : IsValid slots w) where
  abbrev final : List Event → Stream
  final es = run kind (fresh slots w) es

  final-Shows : (es : List Event) → Shows slots w (final es) (view_run kind slots w empty_view es)
  final-Shows es = run_refines kind slots w es (fresh slots w) empty_view (fresh-Shows slots w v)

  final-InOrder :
      (es : List Event)
      → Orderly kind (fresh slots w) es
      → All (IsPlain kind) (sent es)
      → InOrder kind (view_run kind slots w empty_view es) (sent es)
  final-InOrder es o p =
      run-InOrder kind slots w es (fresh slots w) empty_view [] (fresh-Shows slots w v) o p
        (record {
          handled = [];
          page_handed = refl;
          order = refl;
          open_page = refl;
          led = inl (omega arith);
          plain = tt;
        })

  -- From a fresh stream over a valid ring: if no frame goes into the ring while an envelope waits in
  -- the port, and no frame is a done response, then after every history the frames handed to the
  -- listener, then those of the frames that `drain` has read, of the unread frames of the ring and of the envelopes in the port that are no
  -- error responses, spell the frames that the worker sent but for the error responses, in their order.
  pub run_in_order :
      (es : List Event)
      → Orderly kind (fresh slots w) es
      → All (IsPlain kind) (sent es)
      → (final es).page.handed
          ++ heard kind (
              taken_out (final es).draining
              ++ ((drain (final es).reader (final es).worker.memory).0
                  ++ waiting (final es).worker.port))
        ≡ heard kind (sent es)
  run_in_order es o p =
      rw (shown.page, shown.draining, shown.port, (drain_refines _ _ _ shown.linked).frames)
        (ap (λ x. x ++ heard kind unread) i.page_handed
          ∙ sym (heard-append kind i.handled unread)
          ∙ ap (heard kind) i.order)
    where
      unread : List Bytes
      unread =
          let v = view_run kind slots w empty_view es in
          taken_out v.draining ++ (v.queue ++ waiting v.port)

      i : InOrder kind (view_run kind slots w empty_view es) (sent es)
      i = final-InOrder es o p

      shown : Shows slots w (final es) (view_run kind slots w empty_view es)
      shown = final-Shows es

  -- Under the same conditions, once the port is empty and the page is not draining, the listener was handed every frame that the
  -- worker sent and that is no error response, in order, and the ring is empty.
  pub run_complete :
      (es : List Event)
      → Orderly kind (fresh slots w) es
      → All (IsPlain kind) (sent es)
      → (final es).worker.port ≡ []
      → (final es).draining ≡ idle
      → ((final es).page.handed ≡ heard kind (sent es))
        × ((drain (final es).reader (final es).worker.memory).0 ≡ [])
  run_complete es o p e rest = (
    sym (append-nil _)
        ∙ sym (ap₂ (λ d q. (final es).page.handed ++ heard kind (d ++ waiting q)) drained e)
        ∙ sym (
            ap
              (λ x.
                (final es).page.handed
                ++ heard kind (
                    taken_out x
                    ++ ((drain (final es).reader (final es).worker.memory).0
                        ++ waiting (final es).worker.port)))
              rest)
        ∙ run_in_order es o p,
    drained,
  )
    where
      shown : Shows slots w (final es) (view_run kind slots w empty_view es)
      shown = final-Shows es

      no_queue : (view_run kind slots w empty_view es).queue ≡ []
      no_queue = elim (final-InOrder es o p).led [
        | inl q ↦ no_elements _ (
            subst (λ d. length (view_run kind slots w empty_view es).queue ≤ pending d)
              (sym shown.draining ∙ rest) q)
        | inr (rest, d) ↦ cc (sym shown.port, e, d)
      ]

      drained : (drain (final es).reader (final es).worker.memory).0 ≡ []
      drained = (drain_refines _ _ _ shown.linked).frames ∙ no_queue

  module _ (a b c : Bytes) (two : 1 < slots) (fits_first : length a + 4 ≤ w)
      (large : w < length b + 4) (fits_last : length c + 4 ≤ w) (first : kind a ≡ other)
      (second : kind b ≡ other) where
    handed_late :
        (final (late a b c)).page.handed
        ≡ (view_run kind slots w empty_view (late a b c)).page.handed
    handed_late = ap (λ (g : Page). g.handed) (final-Shows (late a b c)).page

    -- On a ring of at least two slots, let the worker send a frame that fits a slot, one that is too
    -- large, and one that fits, before the page handles their messages. If each is for the listener, it
    -- is handed the third before the second.
    pub late_reorders : kind c ≡ other → (final (late a b c)).page.handed ≡ a ∷ c ∷ b ∷ []
    late_reorders p =
        handed_late
        ∙ (unfold view_run view_step view_handle view_round view_take view_next view_receive hand
              handle_response in
            rw
              (
                accepts_fitting slots w [] a fits_first (omega arith),
                accepts_large slots w (a ∷ []) b large,
                accepts_fitting slots w (a ∷ []) c fits_last two,
              )
              (simp (first, second, p)))

    -- On a ring of at least two slots, let the worker send a frame that fits a slot, one that is too
    -- large, and one that fits, before the page handles their messages. If the first two are for the
    -- listener and the third ends the stream, the listener is never handed the second.
    pub late_loses : kind c ≡ done → (final (late a b c)).page.handed ≡ a ∷ []
    late_loses d =
        handed_late
        ∙ (unfold view_run view_step view_handle view_round view_take view_next view_receive hand
              handle_response in
            rw
              (
                accepts_fitting slots w [] a fits_first (omega arith),
                accepts_large slots w (a ∷ []) b large,
                accepts_fitting slots w (a ∷ []) c fits_last two,
              )
              (simp (first, second, d)))
