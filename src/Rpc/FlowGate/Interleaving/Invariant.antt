-- ===== src/Rpc/FlowGate/Interleaving/Invariant.antt =====
-- No wake-up is lost and no credit is made up, in every interleaving.
use godash.Common.{
  All-map, ℕ, suc, ◌<◌, ◌≡◌, ◌≢◌, ◌⊎◌, inl, inr, refl, true, false, List, [], ◌∷◌, ◌++◌, arith, All,
  append-nil, Bool-cases, is_positive, if_elim, not, not-false, sub_int, sym, ◌∙◌,
}
use godash.Rpc.FlowGate.{FlowGate, Outcome, attempt, remove}
use godash.Rpc.FlowGate.Channels.{
  Distinct, Covered, All-remove, remove-Distinct, Covered-close, Covered-register, Covered-withdraw,
}
use godash.Rpc.FlowGate.Interleaving.{
  System, start, after_grant, after_shut, after_attempt, settle, after_wake, after_cancel, Step,
  grants, shuts, attempts, wakes, cancels, Reach, here, next,
}

true_ne_false : true ≢ false
true_ne_false e = cc

pub record Inv (s : System) : Type 0 where
  -- A goroutine registers only while there is nothing to take and the gate is open.
  pub quiet :
      (s.gate.waiters ≡ [])
      ⊎ ((s.gate.bounded ≡ true) × (is_positive s.gate.credits ≡ false) × (s.gate.closed ≡ false))
  pub covered : Covered s.blocked s.gate.waiters s.woken
  pub old : All (λ w. w < s.next) s.blocked
  pub distinct : Distinct s.blocked

start-Inv : Inv start
unfolding start
start-Inv = record { quiet = inl refl; covered = tt; old = tt; distinct = tt }

grant-Inv : (s : System) (n : ℕ) → Inv s → Inv (after_grant s n)
unfolding after_grant
grant-Inv s n v = elim (Bool-cases (is_positive n)) [
  | inl e ↦ rw e (record {
    quiet = inl refl;
    covered = Covered-close s.blocked s.gate.waiters s.woken v.covered;
    old = v.old;
    distinct = v.distinct;
  })
  | inr e ↦ rw (e, append-nil) v
]

shut-Inv : (s : System) → Inv s → Inv (after_shut s)
unfolding after_shut
shut-Inv s v = record {
  quiet = inl refl;
  covered = Covered-close s.blocked s.gate.waiters s.woken v.covered;
  old = v.old;
  distinct = v.distinct;
}

wake-Inv : (s : System) (w : ℕ) → Inv s → Inv (after_wake s w)
unfolding after_wake
wake-Inv s w v = record {
  quiet = v.quiet;
  covered = All-remove _ w s.blocked v.covered;
  old = All-remove _ w s.blocked v.old;
  distinct = (remove-Distinct w s.blocked v.distinct).0;
}

remove-nil : (w : ℕ) (ws : List ℕ) → ws ≡ [] → remove w ws ≡ []
remove-nil w ws e = rw e (unfold remove in refl)

cancel-Inv : (s : System) (w : ℕ) → Inv s → Inv (after_cancel s w)
unfolding after_cancel
cancel-Inv s w v = record {
  quiet = elim v.quiet [ inl e ↦ inl (remove-nil w s.gate.waiters e) | inr q ↦ inr q ];
  covered =
      Covered-withdraw w (remove w s.blocked) s.gate.waiters s.woken
        (remove-Distinct w s.blocked v.distinct).1 (All-remove _ w s.blocked v.covered);
  old = All-remove _ w s.blocked v.old;
  distinct = (remove-Distinct w s.blocked v.distinct).0;
}

-- The round that parks.
park-Inv :
    (s : System)
    → Inv s
    → s.gate.bounded ≡ true
    → is_positive s.gate.credits ≡ false
    → s.gate.closed ≡ false
    → Inv (record s {
      gate = record s.gate { waiters = s.gate.waiters ++ s.next ∷ [] };
      next = suc s.next;
      blocked = s.next ∷ s.blocked;
    })
park-Inv s v b p c = record {
  quiet = inr (b, p, c);
  covered = Covered-register s.blocked s.gate.waiters s.woken s.next v.covered;
  old = (omega arith, All-map _ _ s.blocked (λ w h. omega (arith, h)) v.old);
  distinct = (All-map _ _ s.blocked (λ w h e. omega (arith, h, e)) v.old, v.distinct);
}

-- The round that takes a credit.
take-Inv :
    (s : System) (n : ℕ)
    → Inv s
    → is_positive s.gate.credits ≡ true
    → Inv (record s { gate = record s.gate { credits = sub_int s.gate.credits 1 }; taken = n })
take-Inv s n v p = record {
  quiet = elim v.quiet [ inl e ↦ inl e | inr q ↦ absurd (true_ne_false (sym p ∙ q.1)) ];
  covered = v.covered;
  old = v.old;
  distinct = v.distinct;
}

attempt-Inv : (s : System) → Inv s → Inv (after_attempt s)
unfolding after_attempt attempt settle
attempt-Inv s v =
    if_elim P (not s.gate.bounded) _ _
      (λ b. record { quiet = v.quiet; covered = v.covered; old = v.old; distinct = v.distinct })
      λ b. if_elim P (is_positive s.gate.credits) _ _ (take-Inv s _ v) λ p.
        if_elim P s.gate.closed _ _
          (λ c. record { quiet = v.quiet; covered = v.covered; old = v.old; distinct = v.distinct })
          (park-Inv s v (not-false s.gate.bounded b) p)
  where
    P : Outcome × FlowGate → Type 0
    P r = Inv (settle s r)

pub Step-Inv : {s t : System} → Step s t → Inv s → Inv t
Step-Inv {s} (grants n) v = grant-Inv s n v
Step-Inv {s} shuts v = shut-Inv s v
Step-Inv {s} attempts v = attempt-Inv s v
Step-Inv {s} (wakes w _ _) v = wake-Inv s w v
Step-Inv {s} (cancels w _) v = cancel-Inv s w v

pub Reach-Inv : {s : System} → Reach s → Inv s
Reach-Inv here = start-Inv
Reach-Inv (next r t) = Step-Inv t (Reach-Inv r)
