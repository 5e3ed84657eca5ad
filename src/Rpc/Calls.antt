-- ===== src/Rpc/Calls.antt =====
-- The requests in flight, rpc/rpc.go: the maps `cancels`, `inflight` and `warnedSlow`, what `Call` does
-- to them before and after a request, the request `Cancel`, and a scan of the slow-request watchdog.
-- A cancel function is named by a number, and its calls are logged; a time is a number of
-- nanoseconds; a path is a list of bytes. The order of a list of entries is that in which `range`
-- visits them.
pub mod Cancel
pub mod Interleaving
pub mod Watchdog
use godash.Common.{
  ℕ, ◌+◌, ◌-◌, ◌*◌, ◌≡◌, Bool, true, false, not, ◌||◌, Option, none, some, List, [], ◌∷◌, ◌++◌, map,
  if◌then◌else◌, ltb, ◌==◌,
}
use godash.Common.Assoc.{lookup, store, erase}

-- `inflightRequest`
pub record InflightRequest : Type 0 where
  pub kind : List ℕ
  pub path : List ℕ
  pub start : ℕ

pub record Calls : Type 0 where
  pub cancels : List (ℕ × ℕ)
  pub inflight : List (ℕ × InflightRequest)
  pub warned_slow : List (ℕ × Bool)
  pub cancelled : List ℕ

-- The critical section with which `Call` begins, for the cancel function `f` of a new context.
unfoldable pub begin : Calls → ℕ → ℕ → InflightRequest → Calls
begin s port f info = record s {
  cancels = store port f s.cancels;
  inflight = store port info s.inflight;
}

-- The request `Cancel`, and the same lines of the deferred function: call and delete the cancel
-- function of a port that has one.
unfoldable pub cancel : Calls → ℕ → Calls
cancel s port = elim (lookup port s.cancels) [
  | none ↦ s
  | some f ↦ record s { cancelled = s.cancelled ++ f ∷ []; cancels = erase port s.cancels }
]

-- The deferred critical section of `Call`.
unfoldable pub finish : Calls → ℕ → Calls
finish s port =
    let t = cancel s port in
    record t { inflight = erase port t.inflight; warned_slow = erase port t.warned_slow }

-- `slowRPCWarnAfter`
abbrev pub slow_rpc_warn_after : ℕ
slow_rpc_warn_after = 10 * 1000000000

-- `r.warnedSlow[port]`
pub is_warned : List (ℕ × Bool) → ℕ → Bool
is_warned m port = elim (lookup port m) [ none ↦ false | some b ↦ b ]

-- Whether the watchdog reports a request. `streaming` is `IsStreamingPath`.
pub is_reported : (List ℕ → Bool) → ℕ → List (ℕ × Bool) → ℕ → InflightRequest → Bool
is_reported streaming now warned port info =
    if ltb (now - info.start) slow_rpc_warn_after || is_warned warned port
    then false
    else not (streaming info.path)

-- The loop over the entries of `inflight`: the map `warnedSlow` after it and what it reports.
pub scan :
    (List ℕ → Bool)
    → ℕ
    → List (ℕ × InflightRequest)
    → List (ℕ × Bool)
    → List (ℕ × Bool) × List (ℕ × InflightRequest)
scan streaming now [] warned = (warned, [])
scan streaming now ((port, info) ∷ rest) warned =
    let reports = is_reported streaming now warned port info in
    let (after, report) =
      scan streaming now rest (if reports then store port true warned else warned) in
    (after, if reports then (port, info) ∷ report else report)

-- A tick of the watchdog.
pub watch_slow_rpcs : (List ℕ → Bool) → ℕ → Calls → Calls × List (ℕ × InflightRequest)
watch_slow_rpcs streaming now s =
    let (warned, report) = scan streaming now s.inflight s.warned_slow in
    (record s { warned_slow = warned }, report)
