-- ===== src/Web/SharedRing/Stream/Tests.antt =====
-- The theorems on streams at a ring of two slots of eight bytes. A frame that starts with 9 is last,
-- one that starts with 8 is an error.
use godash.Common.{ap, ◌≡◌, refl, List, [], ◌∷◌, ◌++◌, arith, ◌∙◌, ◌==◌, inr, All, if◌then◌else◌}
use godash.Web.Memory.{Bytes}
use godash.Web.SharedRing.{send, drain, write}
use godash.Web.SharedRing.Queue.{IsValid}
use godash.Web.SharedRing.Refine.{accepts_fitting, accepts_large}
use godash.Web.SharedRing.Stream.{
  Kind, error, done, other, handle_response, sent, Stream, Shows, Event, sends, handles, reads,
  idle, taken_out, handle_next, next_round, view_handle, view_round, view_take, fresh, waiting,
  hand, receive, next_message, step, run, view_run, view_step, view_next, view_receive,
}
use godash.Web.SharedRing.Stream.Simulate.{run_refines}
use godash.Web.SharedRing.Stream.Order.{Orderly, IsPlain, heard}
use godash.Web.SharedRing.Stream.Delivery.{
  empty_view, fresh-Shows, late, run_in_order, run_complete, late_reorders, late_loses,
}

kind : Bytes → Kind
kind [] = other
kind (b ∷ bs) = if b == 9 then done else if b == 8 then error else other

abbrev large : Bytes
large = 1 ∷ 2 ∷ 3 ∷ 4 ∷ 5 ∷ []

two-IsValid : IsValid 2 8
two-IsValid = record {
  some_slots = omega arith;
  some_bytes = omega arith;
  aligned = refl;
  small = omega arith;
}

-- The last two frames go into the ring, the second of them while the page drains it.
abbrev prompt : List Event
prompt =
    sends large
    ∷ handles
    ∷ sends (8 ∷ large)
    ∷ handles
    ∷ sends (6 ∷ [])
    ∷ handles
    ∷ reads
    ∷ sends (5 ∷ [])
    ∷ reads
    ∷ handles
    ∷ reads
    ∷ reads
    ∷ []

abbrev prompt_run : Stream
prompt_run = run kind (fresh 2 8) prompt

-- The part of it up to the last frame.
abbrev started : List Event
started =
    sends large ∷ handles ∷ sends (8 ∷ large) ∷ handles ∷ sends (6 ∷ []) ∷ handles ∷ reads ∷ []

started_port : (run kind (fresh 2 8) started).worker.port ≡ []
unfolding view_run view_step view_handle view_round view_take view_next view_receive hand
    handle_response kind
started_port =
    (run_refines kind 2 8 started (fresh 2 8) empty_view (fresh-Shows 2 8 two-IsValid)).port
    ∙ rw (
      accepts_large 2 8 [] large (omega arith),
      accepts_large 2 8 [] (8 ∷ large) (omega arith),
      accepts_fitting 2 8 [] (6 ∷ []) (omega arith) (omega arith),
    )

last_send : waiting (run kind (fresh 2 8) started).worker.port ≡ []
last_send = ap (λ p. waiting p) started_port

prompt-Orderly : Orderly kind (fresh 2 8) prompt
unfolding run fresh step send write next_message handle_next next_round receive hand handle_response
    kind
prompt-Orderly = (inr refl, (inr refl, (inr refl, (inr last_send, tt))))

run_refines_example : Shows 2 8 prompt_run (view_run kind 2 8 empty_view prompt)
run_refines_example =
    run_refines kind 2 8 prompt (fresh 2 8) empty_view (fresh-Shows 2 8 two-IsValid)

prompt-Shows : Shows 2 8 prompt_run (view_run kind 2 8 empty_view prompt)
prompt-Shows = run_refines kind 2 8 prompt (fresh 2 8) empty_view (fresh-Shows 2 8 two-IsValid)

prompt_port : prompt_run.worker.port ≡ []
unfolding view_run view_step view_handle view_round view_take view_next view_receive hand
    handle_response kind
prompt_port =
    prompt-Shows.port
    ∙ rw (
      accepts_large 2 8 [] large (omega arith),
      accepts_large 2 8 [] (8 ∷ large) (omega arith),
      accepts_fitting 2 8 [] (6 ∷ []) (omega arith) (omega arith),
      accepts_fitting 2 8 [] (5 ∷ []) (omega arith) (omega arith),
    )

prompt_idle : prompt_run.draining ≡ idle
unfolding view_run view_step view_handle view_round view_take view_next view_receive hand
    handle_response kind
prompt_idle =
    prompt-Shows.draining
    ∙ rw (
      accepts_large 2 8 [] large (omega arith),
      accepts_large 2 8 [] (8 ∷ large) (omega arith),
      accepts_fitting 2 8 [] (6 ∷ []) (omega arith) (omega arith),
      accepts_fitting 2 8 [] (5 ∷ []) (omega arith) (omega arith),
    )

prompt-IsPlain : All (IsPlain kind) (sent prompt)
unfolding kind
prompt-IsPlain = (λ e. cc, (λ e. cc, (λ e. cc, (λ e. cc, tt))))

run_in_order_example :
    prompt_run.page.handed
      ++ heard kind (
          taken_out prompt_run.draining
          ++ ((drain prompt_run.reader prompt_run.worker.memory).0
              ++ waiting prompt_run.worker.port))
    ≡ large ∷ (6 ∷ []) ∷ (5 ∷ []) ∷ []
unfolding kind
run_in_order_example = run_in_order kind 2 8 two-IsValid prompt prompt-Orderly prompt-IsPlain

run_complete_example :
    (prompt_run.page.handed ≡ large ∷ (6 ∷ []) ∷ (5 ∷ []) ∷ [])
    × ((drain prompt_run.reader prompt_run.worker.memory).0 ≡ [])
unfolding kind
run_complete_example =
    run_complete kind 2 8 two-IsValid prompt prompt-Orderly prompt-IsPlain prompt_port prompt_idle

late_reorders_test :
    (run kind (fresh 2 8) (late (6 ∷ []) large (7 ∷ []))).page.handed
    ≡ (6 ∷ []) ∷ (7 ∷ []) ∷ large ∷ []
unfolding kind
late_reorders_test =
    late_reorders kind 2 8 two-IsValid (6 ∷ []) large (7 ∷ []) (omega arith) (omega arith)
      (omega arith) (omega arith) refl refl refl

late_loses_example :
    (run kind (fresh 2 8) (late (6 ∷ []) large (9 ∷ []))).page.handed ≡ (6 ∷ []) ∷ []
unfolding kind
late_loses_example =
    late_loses kind 2 8 two-IsValid (6 ∷ []) large (9 ∷ []) (omega arith) (omega arith)
      (omega arith) (omega arith) refl refl refl
