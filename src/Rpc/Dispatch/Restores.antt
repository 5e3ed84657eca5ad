-- ===== src/Rpc/Dispatch/Restores.antt =====
-- A request comes to its end, and leaves the maps of `Call` as it found them.
use godash.Common.{
  ℕ, ◌≡◌, ◌⊎◌, refl, sym, subst, inl, inr, false, Option, none, some, List, [], ◌∷◌, In,
  In-append_right, if_elim, Option-cases,
}
use godash.Common.Assoc.{lookup, lookup-store, erase-store, erase_absent}
use godash.Rpc.Calls.{Calls, InflightRequest, begin, cancel, finish}
use godash.Rpc.Reverse.{
  Reverse, Receipt, unknown_port, passed, buffered, blocks, receive_reverse_response,
}
use godash.Rpc.Reverse.Interleaving.Replies.{IsReached, receive-settles}
use godash.Rpc.Dispatch.{
  Bytes, Requests, cancel_request, init_request, rpc_request, reverse_response, unset, Request,
  request_meta, State, Failure, App, send_error, init, rpc, receipt_end, handle, call, same_path,
  flow_credit_path, database_path,
}

abbrev pub IsNoCancel : Requests → Type 0
IsNoCancel (cancel_request target) = ⊥
IsNoCancel r = Unit {0}

-- The maps of `Call` in two states are the same, and cancel function `f` was called.
pub record Restored (f : ℕ) (before after : Calls) : Type 0 where
  pub cancels : after.cancels ≡ before.cancels
  pub inflight : after.inflight ≡ before.inflight
  pub warned : after.warned_slow ≡ before.warned_slow
  pub released : In f after.cancelled

-- Port `k` is not in use.
pub record IsFree (s : Calls) (k : ℕ) : Type 0 where
  pub no_cancel : lookup k s.cancels ≡ none
  pub no_request : lookup k s.inflight ≡ none
  pub no_mark : lookup k s.warned_slow ≡ none

finish-begin :
    (s : Calls) (k f : ℕ) (info : InflightRequest)
    → IsFree s k
    → Restored f s (finish (begin s k f info) k)
unfolding finish begin cancel
finish-begin s k f info free =
    rw (cancel, lookup-store k f s.cancels)
      (record {
        cancels = erase-store k f s.cancels free.no_cancel;
        inflight = erase-store k info s.inflight free.no_request;
        warned = erase_absent k s.warned_slow free.no_mark;
        released = In-append_right f s.cancelled (f ∷ []) (inl refl);
      })

module _ {ℓ} {Response : Type ℓ} (marshal : Response → Option Bytes)
    (error_response : Failure → ℕ → Response)
    (errors_marshal : (e : Failure) (code : ℕ)
      → (b : Bytes) × (marshal (error_response e code) ≡ some b))
    (app : App Response) where
  -- A result that leaves the maps of `Call` alone.
  abbrev pub Keeps : State → Option (State × List Bytes) → Type 0
  Keeps s r = (t : State) × (sent : List Bytes) × (r ≡ some (t, sent)) × (t.calls ≡ s.calls)

  send_error-Keeps :
      (s : State) (e : Failure) (code : ℕ)
      → Keeps s (send_error marshal error_response app s e code)
  unfolding send_error
  send_error-Keeps s e code =
      let (b, h) = errors_marshal e code in (s, b ∷ [], rw (send_error, h) refl, refl)

  init-Keeps : (s : State) (dir key : Bytes) → Keeps s (init marshal error_response app s dir key)
  unfolding init
  init-Keeps s dir key = elim (Option-cases app.entry_point) [
    | inl h ↦ rw (init, h) (send_error-Keeps s _ 500)
    | inr (entry, h) ↦ elim (Option-cases (entry (database_path dir) key)) [
      | inl k ↦ rw (init, h, k) (s, [], refl, refl)
      | inr (m, k) ↦ rw (init, h, k) (send_error-Keeps s _ 500)
    ]
  ]

  rpc-Keeps :
      (s : State) (port g : ℕ) (path payload : Bytes)
      → Keeps s (rpc marshal error_response app s port g path payload)
  unfolding rpc
  rpc-Keeps s port g path payload =
      if_elim (Keeps s) (same_path path flow_credit_path) _ _ (λ _. (_, _, refl, refl))
        λ _. elim (Option-cases app.handle_rpc) [
          | inl h ↦ rw h (send_error-Keeps s _ 500)
          | inr (handler, h) ↦ rw h (_, _, refl, refl)
        ]

  receipt_end-Keeps :
      (s : State) (x : Receipt × Reverse)
      → (x.0 ≡ unknown_port) ⊎ (x.0 ≡ passed buffered)
      → Keeps s (receipt_end marshal error_response app s x)
  unfolding receipt_end
  receipt_end-Keeps s (unknown_port, t) e = (_, _, refl, refl)
  receipt_end-Keeps s (passed buffered, t) e = (_, _, refl, refl)
  receipt_end-Keeps s (passed blocks, t) e = absurd (elim e [ inl h ↦ cc | inr h ↦ cc ])

  pub handle-Keeps :
      (s : State) (port g : ℕ) (r : Requests)
      → IsReached s.reverse
      → IsNoCancel r
      → Keeps s (handle marshal error_response app s port g r)
  unfolding handle
  handle-Keeps s port g (cancel_request target) reached other = absurd other
  handle-Keeps s port g (init_request dir key push_port) reached other =
      init-Keeps (record s { native_push_port = push_port }) dir key
  handle-Keeps s port g (rpc_request path payload) reached other = rpc-Keeps s port g path payload
  handle-Keeps s port g (reverse_response reverse_port payload) reached other =
      receipt_end-Keeps s (receive_reverse_response s.reverse reverse_port payload)
        (receive-settles s.reverse reverse_port payload reached)
  handle-Keeps s port g unset reached other = send_error-Keeps s _ 500

  -- Every request but Cancel, on a port that is not in use, in a state whose reverse calls are reached, comes to its end, whether it succeeds,
  -- fails or is not supported; its end leaves `cancels`, `inflight` and `warnedSlow` as they were,
  -- and its context is cancelled. The error responses are assumed to marshal.
  pub call-Restored :
      (s : State) (f g now : ℕ) (req : Request)
      → IsReached s.reverse
      → IsNoCancel req.requests
      → IsFree s.calls req.port
      → (t : State) × (sent : List Bytes) × (call marshal error_response app false s f g now req
          ≡ some (t, sent))
        × Restored f s.calls t.calls
  unfolding call
  call-Restored s f g now req reached other free =
      let meta = request_meta req.requests in
      let info : InflightRequest = record { kind = meta.0; path = meta.1; start = now } in
      let (t, sent, e, same) =
        handle-Keeps (record s { calls = begin s.calls req.port f info }) req.port g req.requests
          reached other in
      (
        record t { calls = finish t.calls req.port },
        sent,
        rw (call, e) refl,
        subst (λ c. Restored f s.calls (finish c req.port)) (sym same)
            (finish-begin s.calls req.port f info free),
      )
