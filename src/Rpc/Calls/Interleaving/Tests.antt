-- ===== src/Rpc/Calls/Interleaving/Tests.antt =====
-- A request that begins, is reported, and ends.
use godash.Common.{◌≡◌, refl, false, [], ◌∷◌, All, In}
use godash.Common.Assoc.{lookup, store, erase}
use godash.Rpc.Calls.{InflightRequest, begin, cancel, finish, watch_slow_rpcs}
use godash.Rpc.Calls.Interleaving.{System, start, begins, finishes, ticks, Reach, here, next}
use godash.Rpc.Calls.Interleaving.Invariant.{nothing_left}

abbrev request : InflightRequest
request = record { kind = 1 ∷ []; path = 2 ∷ []; start = 0 }

abbrev begun : System
begun = record { calls = begin start.calls 7 3 request; made = 3 ∷ start.made }

abbrev reported : System
reported = record begun { calls = (watch_slow_rpcs (λ path. false) 12000000000 begun.calls).0 }

abbrev ended : System
ended = record reported { calls = finish reported.calls 7 }

ended-Reach : Reach ended
unfolding start lookup
ended-Reach =
    next (next (next here (begins 7 3 request refl)) (ticks (λ path. false) 12000000000))
      (finishes 7)

ended_inflight : ended.calls.inflight ≡ []
unfolding start begin watch_slow_rpcs finish cancel lookup store erase
ended_inflight = refl

nothing_left_example :
    (ended.calls.cancels ≡ [])
    × (ended.calls.warned_slow ≡ [])
    × All (λ f. In f ended.calls.cancelled) ended.made
nothing_left_example = nothing_left ended ended-Reach ended_inflight
