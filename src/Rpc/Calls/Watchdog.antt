-- ===== src/Rpc/Calls/Watchdog.antt =====
-- What a tick of the watchdog reports.
pub mod Tests
use godash.Common.{
  ℕ, ◌-◌, ◌≤◌, ◌<◌, ◌≡◌, ◌≢◌, ◌⊎◌, inl, inr, refl, sym, ◌∙◌, ap, subst, Bool, true, false, not,
  ◌||◌, Option, none, some, List, [], ◌∷◌, arith, All, if◌then◌else◌, if_true, if_false, ltb,
  ltb→le, ◌==◌, ==→eq, ==→ne, Bool-cases, not-true,
}
use godash.Common.Assoc.{lookup, store, lookup-store, lookup-store_other}
use godash.Rpc.Calls.{
  Calls, InflightRequest, slow_rpc_warn_after, is_warned, is_reported, scan, watch_slow_rpcs,
}

-- A tick marks only ports that it finds in flight.
pub scan_other :
    (streaming : List ℕ → Bool) (now k : ℕ) (m : List (ℕ × InflightRequest))
    (warned : List (ℕ × Bool))
    → lookup k m ≡ none
    → lookup k (scan streaming now m warned).0 ≡ lookup k warned
unfolding scan lookup
scan_other streaming now k [] warned e = refl
scan_other streaming now k ((port, info) ∷ m) warned e = elim (Bool-cases (port == k)) [
  | inl d ↦ absurd (some_ne_none (rw d at e))
  | inr d ↦
      scan_other streaming now k m _ (rw d at e)
      ∙ marked (is_reported streaming now warned port info) (λ c. ==→ne port k d (sym c))
]
  where
    some_ne_none : some info ≡ none → ⊥
    some_ne_none p = cc

    marked :
        (b : Bool)
        → k ≢ port
        → lookup k (if b then store port true warned else warned) ≡ lookup k warned
    marked true ne = lookup-store_other port k true warned ne
    marked false ne = refl

-- A mark stays when another is set.
is_warned-store :
    (port k : ℕ) (warned : List (ℕ × Bool))
    → is_warned warned k ≡ true
    → is_warned (store port true warned) k ≡ true
unfolding is_warned
is_warned-store port k warned e = elim (Bool-cases (k == port)) [
  | inl d ↦ rw (is_warned, ==→eq k port d, lookup-store port true warned) refl
  | inr d ↦ rw (is_warned, lookup-store_other port k true warned (==→ne k port d)) e
]

is_warned_set :
    (port : ℕ) (warned : List (ℕ × Bool)) → is_warned (store port true warned) port ≡ true
unfolding is_warned
is_warned_set port warned = rw (is_warned, lookup-store port true warned) refl

mark_keeps :
    (b : Bool) (port k : ℕ) (warned : List (ℕ × Bool))
    → is_warned warned k ≡ true
    → is_warned (if b then store port true warned else warned) k ≡ true
mark_keeps true port k warned e = is_warned-store port k warned e
mark_keeps false port k warned e = e

-- A mark is never taken back by a tick.
scan_keeps :
    (streaming : List ℕ → Bool) (now k : ℕ) (m : List (ℕ × InflightRequest))
    (warned : List (ℕ × Bool))
    → is_warned warned k ≡ true
    → is_warned (scan streaming now m warned).0 k ≡ true
unfolding scan
scan_keeps streaming now k [] warned e = e
scan_keeps streaming now k ((port, info) ∷ m) warned e =
    scan_keeps streaming now k m _
      (mark_keeps (is_reported streaming now warned port info) port k warned e)

-- A request that is reported between two states of `warnedSlow`.
abbrev pub IsReport :
    (List ℕ → Bool) → ℕ → List (ℕ × Bool) → List (ℕ × Bool) → ℕ × InflightRequest → Type 0
IsReport streaming now before after (port, info) =
    (slow_rpc_warn_after ≤ now - info.start)
    × (streaming info.path ≡ false)
    × (is_warned before port ≡ false)
    × (is_warned after port ≡ true)

-- A request that a tick may pass over.
abbrev pub IsSettled : (List ℕ → Bool) → ℕ → List (ℕ × Bool) → ℕ × InflightRequest → Type 0
IsSettled streaming now after (port, info) =
    (now - info.start < slow_rpc_warn_after)
    ⊎ (streaming info.path ≡ true)
    ⊎ (is_warned after port ≡ true)

is_reported-true :
    (streaming : List ℕ → Bool) (now port : ℕ) (info : InflightRequest) (warned : List (ℕ × Bool))
    → is_reported streaming now warned port info ≡ true
    → (slow_rpc_warn_after ≤ now - info.start)
      × (streaming info.path ≡ false)
      × (is_warned warned port ≡ false)
unfolding is_reported
is_reported-true streaming now port info warned e = ground arith

is_reported-false :
    (streaming : List ℕ → Bool) (now port : ℕ) (info : InflightRequest) (warned : List (ℕ × Bool))
    → is_reported streaming now warned port info ≡ false
    → IsSettled streaming now warned (port, info)
unfolding is_reported
is_reported-false streaming now port info warned e = ground arith

IsReport-before :
    (streaming : List ℕ → Bool) (now : ℕ) (b : Bool) (port : ℕ) (warned after : List (ℕ × Bool))
    (r : List (ℕ × InflightRequest))
    → All (IsReport streaming now (if b then store port true warned else warned) after) r
    → All (IsReport streaming now warned after) r
IsReport-before streaming now b port warned after [] h = tt
IsReport-before streaming now b port warned after ((k, info) ∷ r) (h, hs) = (
  (h.0, h.1, unmarked (Bool-cases (is_warned warned k)), h.3),
  IsReport-before streaming now b port warned after r hs,
)
  where
    unmarked :
        (is_warned warned k ≡ true) ⊎ (is_warned warned k ≡ false) → is_warned warned k ≡ false
    unmarked (inl e) = absurd (true_ne_false (sym (mark_keeps b port k warned e) ∙ h.2))
      where
        true_ne_false : true ≡ false → ⊥
        true_ne_false p = cc
    unmarked (inr e) = e

reports :
    (streaming : List ℕ → Bool) (now : ℕ) (m : List (ℕ × InflightRequest))
    (warned : List (ℕ × Bool))
    → All
        (IsReport streaming now warned (scan streaming now m warned).0)
        (scan streaming now m warned).1
unfolding scan
reports streaming now [] warned = tt
reports streaming now ((port, info) ∷ m) warned =
    go (is_reported streaming now warned port info) refl (reports streaming now m _)
  where
    go :
        (b : Bool)
        → is_reported streaming now warned port info ≡ b
        → All
            (IsReport streaming now
              (if b then store port true warned else warned)
              (scan streaming now m (if b then store port true warned else warned)).0)
            (scan streaming now m (if b then store port true warned else warned)).1
        → All
            (IsReport streaming now warned
              (scan streaming now m (if b then store port true warned else warned)).0)
            (if b
              then (port, info)
                ∷ (scan streaming now m (if b then store port true warned else warned)).1
              else (scan streaming now m (if b then store port true warned else warned)).1)
    go true e rest =
        let h = is_reported-true streaming now port info warned e in
        (
          (
            h.0,
            h.1,
            h.2,
            scan_keeps streaming now port m (store port true warned) (is_warned_set port warned),
          ),
          IsReport-before streaming now true port warned _ _ rest,
        )
    go false e rest = rest

settles :
    (streaming : List ℕ → Bool) (now : ℕ) (m : List (ℕ × InflightRequest))
    (warned : List (ℕ × Bool))
    → All (IsSettled streaming now (scan streaming now m warned).0) m
unfolding scan
settles streaming now [] warned = tt
settles streaming now ((port, info) ∷ m) warned =
    (go (is_reported streaming now warned port info) refl, settles streaming now m _)
  where
    go :
        (b : Bool)
        → is_reported streaming now warned port info ≡ b
        → IsSettled streaming now
            (scan streaming now m (if b then store port true warned else warned)).0
            (port, info)
    go true e =
        inr (
          inr
            (scan_keeps streaming now port m (store port true warned) (is_warned_set port warned)))
    go false e = elim (is_reported-false streaming now port info warned e) [
      | inl h ↦ inl h
      | inr (inl h) ↦ inr (inl h)
      | inr (inr h) ↦ inr (inr (scan_keeps streaming now port m warned h))
    ]

-- A tick of the watchdog reports only requests that have been in flight for 10 seconds, are not on a
-- streaming path, were not marked before and are marked after; and every request in flight for 10
-- seconds on another path is marked after.
pub watch_slow_rpcs_lem :
    (streaming : List ℕ → Bool) (now : ℕ) (s : Calls)
    → All
        (IsReport streaming now s.warned_slow (watch_slow_rpcs streaming now s).0.warned_slow)
        (watch_slow_rpcs streaming now s).1
      × All (IsSettled streaming now (watch_slow_rpcs streaming now s).0.warned_slow) s.inflight
unfolding watch_slow_rpcs
watch_slow_rpcs_lem streaming now s =
    (reports streaming now s.inflight s.warned_slow, settles streaming now s.inflight s.warned_slow)
