-- ===== src/Rpc/Calls/Interleaving/Invariant.antt =====
-- Nothing of a request stays behind when it ends.
use godash.Common.{
  ℕ, ◌≡◌, inl, inr, refl, sym, ◌∙◌, ap, subst, Bool, none, some, List, [], ◌∷◌, All, All-map, In,
  ◌==◌, Bool-cases, ==→eq, ==→ne, ==-refl, if_true,
}
use godash.Common.Assoc.{
  lookup, store, lookup-erase, lookup-erase_other, lookup-store, lookup-store_other,
}
use godash.Rpc.Calls.{InflightRequest, begin, cancel, finish, watch_slow_rpcs}
use godash.Rpc.Calls.Cancel.{
  IsClear, IsKept, some_ne_none, cancel-clear, cancel-own, cancel-inflight, cancel-warned,
  cancel-IsKept,
}
use godash.Rpc.Calls.Watchdog.{scan_other}
use godash.Rpc.Calls.Interleaving.{
  System, start, begins, cancels, finishes, ticks, Reach, here, next,
}

pub record Inv (s : System) : Type 0 where
  pub clear : (k : ℕ) → lookup k s.calls.inflight ≡ none → IsClear s.calls k
  pub kept : All (IsKept s.calls) s.made

start-Inv : Inv start
unfolding start lookup
start-Inv = record { clear = λ k e. (refl, refl); kept = tt }

begin-Inv :
    (s : System) (port f : ℕ) (info : InflightRequest)
    → lookup port s.calls.inflight ≡ none
    → Inv s
    → Inv (record { calls = begin s.calls port f info; made = f ∷ s.made })
unfolding begin
begin-Inv s port f info free v = record {
  clear = λ k e. elim (Bool-cases (k == port)) [
    | inl d ↦ absurd (
        some_ne_none (
          sym (lookup-store port info s.calls.inflight)
          ∙ ap (λ j. lookup j (store port info s.calls.inflight)) (sym (==→eq k port d))
          ∙ e))
    | inr d ↦
        let ne = ==→ne k port d in
        let old = v.clear k (sym (lookup-store_other port k info s.calls.inflight ne) ∙ e) in
        (lookup-store_other port k f s.calls.cancels ne ∙ old.0, old.1)
  ];
  kept = (
    inr (port, lookup-store port f s.calls.cancels),
    All-map _ _ s.made
        (λ g. elim [
          | inl m ↦ inl m
          | inr (k, e) ↦
              let ne = λ (d : k ≡ port).
                some_ne_none
                  (sym e ∙ ap (λ j. lookup j s.calls.cancels) d ∙ (v.clear port free).0) in
              inr (k, lookup-store_other port k f s.calls.cancels ne ∙ e)
        ])
        v.kept,
  );
}

cancel-Inv : (s : System) (port : ℕ) → Inv s → Inv (record s { calls = cancel s.calls port })
cancel-Inv s port v = record {
  clear = λ k e.
      let old = v.clear k (sym (ap (lookup k) (cancel-inflight s.calls port)) ∙ e) in
      (cancel-clear s.calls port k old.0, ap (lookup k) (cancel-warned s.calls port) ∙ old.1);
  kept = All-map _ _ s.made (cancel-IsKept s.calls port) v.kept;
}

finish-Inv : (s : System) (port : ℕ) → Inv s → Inv (record s { calls = finish s.calls port })
unfolding finish
finish-Inv s port v = record {
  clear = λ k e. elim (Bool-cases (k == port)) [
    | inl d ↦
        subst (IsClear (finish s.calls port)) (sym (==→eq k port d))
          (cancel-own s.calls port, lookup-erase port (cancel s.calls port).warned_slow)
    | inr d ↦
        let ne = ==→ne k port d in
        let old =
          (cancel-Inv s port v).clear k
            (sym (lookup-erase_other port k (cancel s.calls port).inflight ne) ∙ e) in
        (old.0, lookup-erase_other port k (cancel s.calls port).warned_slow ne ∙ old.1)
  ];
  kept = (cancel-Inv s port v).kept;
}

tick-Inv :
    (s : System) (streaming : List ℕ → Bool) (now : ℕ)
    → Inv s
    → Inv (record s { calls = (watch_slow_rpcs streaming now s.calls).0 })
unfolding watch_slow_rpcs
tick-Inv s streaming now v = record {
  clear = λ k e. (
    (v.clear k e).0,
    scan_other streaming now k s.calls.inflight s.calls.warned_slow e ∙ (v.clear k e).1,
  );
  kept = v.kept;
}

Reach-Inv : {s : System} → Reach s → Inv s
Reach-Inv here = start-Inv
Reach-Inv (next {s} r (begins port f info free)) = begin-Inv s port f info free (Reach-Inv r)
Reach-Inv (next {s} r (cancels target)) = cancel-Inv s target (Reach-Inv r)
Reach-Inv (next {s} r (finishes port)) = finish-Inv s port (Reach-Inv r)
Reach-Inv (next {s} r (ticks streaming now)) = tick-Inv s streaming now (Reach-Inv r)

nil_of_lookup {ℓ} : {A : Type ℓ} (m : List (ℕ × A)) → ((k : ℕ) → lookup k m ≡ none) → m ≡ []
unfolding lookup
nil_of_lookup [] h = refl
nil_of_lookup ((k, a) ∷ m) h =
    absurd (some_ne_none (sym (if_true (some a) (lookup k m) (==-refl k)) ∙ h k))

-- When no request is in flight, after any interleaving of requests on different ports, Cancel
-- requests and watchdog ticks, the maps `cancels` and `warnedSlow` are empty and every cancel
-- function that was ever made was called: no context leaks.
pub nothing_left :
    (s : System)
    → Reach s
    → s.calls.inflight ≡ []
    → (s.calls.cancels ≡ []) × (s.calls.warned_slow ≡ []) × All (λ f. In f s.calls.cancelled) s.made
unfolding lookup
nothing_left s r e =
    let v = Reach-Inv r in
    let clear = λ (k : ℕ). v.clear k (ap (lookup k) e) in
    (
      nil_of_lookup s.calls.cancels (λ k. (clear k).0),
      nil_of_lookup s.calls.warned_slow (λ k. (clear k).1),
      All-map _ _ s.made
          (λ f. elim [ inl m ↦ m | inr (k, h) ↦ absurd (some_ne_none (sym h ∙ (clear k).0)) ])
          v.kept,
    )
