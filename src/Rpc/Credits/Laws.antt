-- ===== src/Rpc/Credits/Laws.antt =====
-- The order in which a stream's gate and its credits arrive.
use godash.Common.{
  ℕ, ◌+◌, ◌<◌, ◌≡◌, ◌≢◌, ◌⊎◌, inl, inr, refl, sym, ap, ◌∙◌, true, false, Option, none, some, [],
  arith, ◌==◌, add_int, is_positive, int_half, Bool-cases, ==→ne,
}
use godash.Common.Maps.{update, update_at, update-update}
use godash.Rpc.FlowGate.{add_credits, shut}
use godash.Rpc.FlowGate.Laws.{add_credits-add_credits}
use godash.Rpc.Credits.{Flow, grant, register_flow_gate, points_to, unregister_flow_gate, credit}

-- The maps after a registration, before the credits that were held are granted.
registered : Flow → ℕ → ℕ → Flow
registered s port g = record s {
  flow_gates = update s.flow_gates port (some g);
  pending_flow_credits = update s.pending_flow_credits port 0;
}

grant-grant :
    (s : Flow) (g m n : ℕ)
    → 0 < m
    → 0 < n
    → m + n < int_half
    → (grant (grant s g m).0 g n).0 ≡ (grant s g (m + n)).0
unfolding grant
grant-grant s g m n hm hn h =
    ap (λ gates. record s { gates = gates })
      (ap (update (update s.gates g (add_credits (s.gates g) m).0) g) (
          ap (λ x. (add_credits x n).0) (update_at s.gates g (add_credits (s.gates g) m).0)
          ∙ add_credits-add_credits (s.gates g) m n hm hn h)
        ∙ update-update s.gates g _ _)

credit_of_none :
    (s : Flow) (port n : ℕ)
    → is_positive n ≡ true
    → s.flow_gates port ≡ none
    → (credit s port n).0 ≡ record s {
      pending_flow_credits =
          update s.pending_flow_credits port (add_int (s.pending_flow_credits port) n);
    }
unfolding credit
credit_of_none s port n p e = rw (p, e) refl

credit_of_some :
    (s : Flow) (port g n : ℕ)
    → is_positive n ≡ true
    → s.flow_gates port ≡ some g
    → (credit s port n).0 ≡ (grant s g n).0
unfolding credit
credit_of_some s port g n p e = rw (p, e) refl

credit_of_zero : (s : Flow) (port n : ℕ) → is_positive n ≡ false → (credit s port n).0 ≡ s
unfolding credit
credit_of_zero s port n p = rw p refl

register_of_pending :
    (s : Flow) (port g n : ℕ)
    → s.pending_flow_credits port ≡ n
    → is_positive n ≡ true
    → (register_flow_gate s port g).0 ≡ (grant (registered s port g) g n).0
unfolding register_flow_gate registered
register_of_pending s port g n e p = rw (e, p) refl

register_of_none :
    (s : Flow) (port g : ℕ)
    → is_positive (s.pending_flow_credits port) ≡ false
    → (register_flow_gate s port g).0 ≡ registered s port g
unfolding register_flow_gate registered
register_of_none s port g p = rw p refl

positive→lt : (n : ℕ) → is_positive n ≡ true → 0 < n
positive→lt n p = ground arith

positive-add : (m n : ℕ) → is_positive n ≡ true → m + n < int_half → is_positive (m + n) ≡ true
positive-add m n p h = ground arith

add_int_lem : (m n : ℕ) → m + n < int_half → add_int m n ≡ m + n
add_int_lem m n h = omega (arith, h)

not_positive→zero : (m n : ℕ) → is_positive m ≡ false → m + n < int_half → m ≡ 0
not_positive→zero m n p h = ground arith

-- The credits are held, then granted with the registration.
held :
    (s : Flow) (port g n : ℕ)
    → s.flow_gates port ≡ none
    → s.pending_flow_credits port + n < int_half
    → is_positive n ≡ true
    → (register_flow_gate (credit s port n).0 port g).0
      ≡ (grant (registered s port g) g (s.pending_flow_credits port + n)).0
unfolding registered
held s port g n e h p =
    let m = s.pending_flow_credits port in
    ap (λ t. (register_flow_gate t port g).0) (credit_of_none s port n p e)
    ∙ register_of_pending _ port g (m + n)
        (update_at s.pending_flow_credits port (add_int m n) ∙ add_int_lem m n h)
        (positive-add m n p h)
    ∙ ap
        (λ pending.
          (grant
            (record s {
              flow_gates = update s.flow_gates port (some g);
              pending_flow_credits = pending;
            })
            g (m + n)).0)
        (update-update s.pending_flow_credits port (add_int m n) 0)

-- The credits are granted to the registered gate.
passed_on :
    (s : Flow) (port g n : ℕ)
    → s.pending_flow_credits port + n < int_half
    → is_positive n ≡ true
    → (credit (register_flow_gate s port g).0 port n).0
      ≡ (grant (registered s port g) g (s.pending_flow_credits port + n)).0
unfolding grant registered
passed_on s port g n h p =
    let m = s.pending_flow_credits port in
    elim (Bool-cases (is_positive m)) [
      | inl q ↦
          ap (λ t. (credit t port n).0) (register_of_pending s port g m refl q)
          ∙ credit_of_some _ port g n p (update_at s.flow_gates port (some g))
          ∙ grant-grant (registered s port g) g m n (positive→lt m q) (positive→lt n p) h
      | inr q ↦
          ap (λ t. (credit t port n).0) (register_of_none s port g q)
          ∙ credit_of_some _ port g n p (update_at s.flow_gates port (some g))
          ∙ ap (λ k. (grant (registered s port g) g k).0) (omega (arith, not_positive→zero m n q h))
    ]

-- A grant of `n` credits that arrives before the stream's gate is registered leaves what it leaves
-- after it, when the port had no gate and the credits of the port add up to less than 2^63.
pub register_flow_gate-credit :
    (s : Flow) (port g n : ℕ)
    → s.flow_gates port ≡ none
    → s.pending_flow_credits port + n < int_half
    → (register_flow_gate (credit s port n).0 port g).0
      ≡ (credit (register_flow_gate s port g).0 port n).0
register_flow_gate-credit s port g n e h = elim (Bool-cases (is_positive n)) [
  | inl p ↦ held s port g n e h p ∙ sym (passed_on s port g n h p)
  | inr p ↦
      ap (λ t. (register_flow_gate t port g).0) (credit_of_zero s port n p)
      ∙ sym (credit_of_zero _ port n p)
]

-- When a stream's handler returns, its gate is closed and has no waiter, every waiter's channel is
-- closed, and its port has no gate, or keeps the gate of another stream that took the port over.
pub unregister_flow_gate_lem :
    (s : Flow) (port g : ℕ)
    → (((unregister_flow_gate s port g).0.flow_gates port ≡ none)
        ⊎ ((h : ℕ) × (h ≢ g) × ((unregister_flow_gate s port g).0.flow_gates port ≡ some h)))
      × (((unregister_flow_gate s port g).0.gates g).closed ≡ true)
      × (((unregister_flow_gate s port g).0.gates g).waiters ≡ [])
      × ((unregister_flow_gate s port g).1 ≡ (s.gates g).waiters)
unfolding unregister_flow_gate shut points_to
unregister_flow_gate_lem s port g = (
  go (s.flow_gates port) refl,
  ap (λ x. x.closed) (update_at s.gates g (shut (s.gates g)).0),
  ap (λ x. x.waiters) (update_at s.gates g (shut (s.gates g)).0),
  refl,
)
  where
    go :
        (o : Option ℕ)
        → s.flow_gates port ≡ o
        → ((unregister_flow_gate s port g).0.flow_gates port ≡ none)
          ⊎ ((h : ℕ) × (h ≢ g) × ((unregister_flow_gate s port g).0.flow_gates port ≡ some h))
    go none e = inl (rw e (e))
    go (some h) e = elim (Bool-cases (h == g)) [
      | inl d ↦ inl (rw (e, d) (update_at s.flow_gates port none))
      | inr d ↦ inr (h, ==→ne h g d, rw (e, d) (e))
    ]
