-- ===== src/Rpc/Calls/Watchdog/Tests.antt =====
-- A tick with a stalled request, a new one and a stream.
use godash.Common.{ℕ, false, Bool, List, [], ◌∷◌, All, ◌==◌}
use godash.Rpc.Calls.{Calls, watch_slow_rpcs}
use godash.Rpc.Calls.Watchdog.{IsReport, IsSettled, watch_slow_rpcs_lem}

abbrev is_streaming : List ℕ → Bool
is_streaming [] = false
is_streaming (b ∷ bs) = b == 5

abbrev three_calls : Calls
three_calls = record {
  cancels = (1, 1) ∷ (2, 2) ∷ (3, 3) ∷ [];
  inflight =
      (1, record { kind = []; path = 4 ∷ []; start = 0 })
      ∷ (2, record { kind = []; path = 4 ∷ []; start = 11000000000 })
      ∷ (3, record { kind = []; path = 5 ∷ []; start = 0 })
      ∷ [];
  warned_slow = [];
  cancelled = [];
}

watch_slow_rpcs_lem_example :
    All
      (IsReport is_streaming 12000000000 three_calls.warned_slow
        (watch_slow_rpcs is_streaming 12000000000 three_calls).0.warned_slow)
      (watch_slow_rpcs is_streaming 12000000000 three_calls).1
    × All
        (IsSettled is_streaming 12000000000
          (watch_slow_rpcs is_streaming 12000000000 three_calls).0.warned_slow)
        three_calls.inflight
watch_slow_rpcs_lem_example = watch_slow_rpcs_lem is_streaming 12000000000 three_calls
