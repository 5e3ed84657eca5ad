-- ===== src/Rpc/Reverse/Interleaving/Invariant.antt =====
-- What each port's entries are in every reachable state.
use godash.Common.{
  ℕ, ◌+◌, ◌<◌, ◌≡◌, inl, inr, refl, sym, ◌∙◌, ap, subst, true, false, none, some, List, int_half,
  arith, Bool-cases, ◌==◌, ==→eq, ==→ne, add_int,
}
use godash.Common.Maps.{update, update_at, update_other}
use godash.Common.Assoc.{
  lookup, store, erase, lookup-erase, lookup-erase_other, lookup-store, lookup-store_other,
}
use godash.Rpc.Reverse.{open_call, abandon, take_reply}
use godash.Rpc.Reverse.Interleaving.{
  System, start, after_open, after_abandon, after_reply, settle, after_return, Step, opens,
  abandons, replies, returns, Reach, here, next,
}
use godash.Rpc.Reverse.Interleaving.Entries.{
  Entries, idle, parked, answered, At, Entries-eq, pending-inv, waiting-inv, receive-none, answer,
  receive-some, take_reply-some, take_reply-none,
}

pub record Inv (s : System) : Type 0 where
  pub at : (w : ℕ) → At s w
  pub fresh : (w : ℕ) → s.reverse.reverse_id < w → s.waiting w ≡ false
  pub bounded : s.reverse.reverse_id < int_half

start-Inv : Inv start
unfolding start lookup
start-Inv = record { at = λ w. idle none none; fresh = λ w h. refl; bounded = omega arith }

add_int_one : (n : ℕ) → n + 1 < int_half → add_int n 1 ≡ n + 1
add_int_one n h = omega (arith, h)

open-Inv : (s : System) → s.reverse.reverse_id + 1 < int_half → Inv s → Inv (after_open s)
unfolding after_open open_call
open-Inv s h v = record {
  at = λ w. elim (Bool-cases (w == port)) [
    | inl e ↦ subst (At (after_open s)) (sym (==→eq w port e)) own
    | inr e ↦
        let ne = ==→ne w port e in
        Entries-eq (update_other s.waiting port w true ne)
          (lookup-store_other port w port s.reverse.reverse_pending ne)
          (lookup-store_other port w none s.reverse.channels ne)
          (update_other s.accepted port w none ne) (v.at w)
  ];
  fresh = λ w k.
      update_other s.waiting port w true (λ e. omega (arith, e, k))
      ∙ v.fresh w (omega (arith, k, add_int_one s.reverse.reverse_id h));
  bounded = subst (λ n. n < int_half) (sym (add_int_one s.reverse.reverse_id h)) h;
}
  where
    port : ℕ
    port = add_int s.reverse.reverse_id 1

    own : At (after_open s) port
    own =
        Entries-eq (update_at s.waiting port true)
          (lookup-store port port s.reverse.reverse_pending)
          (lookup-store port none s.reverse.channels) (update_at s.accepted port none) (parked none)

-- A call that ends leaves the other ports' entries.
fresh-end :
    (s : System) (w : ℕ)
    → Inv s
    → (j : ℕ) → s.reverse.reverse_id < j
    → update s.waiting w false j ≡ false
fresh-end s w v j h = elim (Bool-cases (j == w)) [
  | inl e ↦ ap (update s.waiting w false) (==→eq j w e) ∙ update_at s.waiting w false
  | inr e ↦ update_other s.waiting w j false (==→ne j w e) ∙ v.fresh j h
]

abandon-Inv : (s : System) (w : ℕ) → Inv s → Inv (after_abandon s w)
unfolding after_abandon abandon
abandon-Inv s w v = record {
  at = λ j. elim (Bool-cases (j == w)) [
    | inl e ↦ subst (At (after_abandon s w)) (sym (==→eq j w e)) (
        Entries-eq (update_at s.waiting w false) (lookup-erase w s.reverse.reverse_pending) refl
          refl (idle _ _))
    | inr e ↦
        let ne = ==→ne j w e in
        Entries-eq (update_other s.waiting w j false ne)
          (lookup-erase_other w j s.reverse.reverse_pending ne) refl refl (v.at j)
  ];
  fresh = fresh-end s w v;
  bounded = v.bounded;
}

answer-Inv :
    (s : System) (port : ℕ) (payload : List ℕ)
    → s.waiting port ≡ true
    → Inv s
    → Inv (record s {
      reverse = answer s.reverse port payload;
      accepted = update s.accepted port (some payload);
    })
unfolding answer
answer-Inv s port payload b v = record {
  at = λ j. elim (Bool-cases (j == port)) [
    | inl e ↦
        subst
          (λ k.
            Entries k (s.waiting k) (lookup k (erase port s.reverse.reverse_pending))
              (lookup k (store port (some payload) s.reverse.channels))
              (update s.accepted port (some payload) k))
          (sym (==→eq j port e))
          (Entries-eq b (lookup-erase port s.reverse.reverse_pending)
            (lookup-store port (some payload) s.reverse.channels)
            (update_at s.accepted port (some payload)) (answered payload))
    | inr e ↦
        let ne = ==→ne j port e in
        Entries-eq refl (lookup-erase_other port j s.reverse.reverse_pending ne)
          (lookup-store_other port j (some payload) s.reverse.channels ne)
          (update_other s.accepted port j (some payload) ne) (v.at j)
  ];
  fresh = v.fresh;
  bounded = v.bounded;
}

reply-Inv : (s : System) (port : ℕ) (payload : List ℕ) → Inv s → Inv (after_reply s port payload)
unfolding after_reply settle
reply-Inv s port payload v = elim (pending-inv (v.at port)) [
  | inl e ↦
      subst (λ r. Inv (settle s port payload r)) (sym (receive-none s.reverse port payload e)) v
  | inr e ↦
      subst (λ r. Inv (settle s port payload r)) (sym (receive-some s.reverse port payload e.1 e.2))
        (answer-Inv s port payload e.0 v)
]

return-Inv :
    (s : System) (w : ℕ) (payload : List ℕ)
    → s.waiting w ≡ true
    → (take_reply s.reverse w).0 ≡ some payload
    → Inv s
    → Inv (after_return s w)
unfolding after_return
return-Inv s w payload b e v = elim (waiting-inv (v.at w)) [
  | inl k ↦ cc
  | inr (inl k) ↦ absurd (none_ne_some (sym (ap (λ r. r.0) (take_reply-none s.reverse w k)) ∙ e))
  | inr (inr (p, o, ch, x)) ↦
      subst (λ r. Inv (record s { reverse = r; waiting = update s.waiting w false }))
        (sym (ap (λ r. r.1) (take_reply-some s.reverse w p ch))) (ended o)
]
  where
    none_ne_some : {p : List ℕ} → none ≡ some p → ⊥
    none_ne_some k = cc

    ended :
        lookup w s.reverse.reverse_pending ≡ none
        → Inv (record s {
          reverse = record s.reverse { channels = store w none s.reverse.channels };
          waiting = update s.waiting w false;
        })
    ended o = record {
      at = λ j. elim (Bool-cases (j == w)) [
        | inl d ↦
            subst
              (λ k.
                Entries k (update s.waiting w false k) (lookup k s.reverse.reverse_pending)
                  (lookup k (store w none s.reverse.channels)) (s.accepted k))
              (sym (==→eq j w d)) (Entries-eq (update_at s.waiting w false) o refl refl (idle _ _))
        | inr d ↦
            let ne = ==→ne j w d in
            Entries-eq (update_other s.waiting w j false ne) refl
              (lookup-store_other w j none s.reverse.channels ne) refl (v.at j)
      ];
      fresh = fresh-end s w v;
      bounded = v.bounded;
    }

Step-Inv : {s t : System} → Step s t → Inv s → Inv t
Step-Inv {s} (opens h) v = open-Inv s h v
Step-Inv {s} (abandons w _) v = abandon-Inv s w v
Step-Inv {s} (replies port payload) v = reply-Inv s port payload v
Step-Inv {s} (returns w payload b e) v = return-Inv s w payload b e v

pub Reach-Inv : {s : System} → Reach s → Inv s
Reach-Inv here = start-Inv
Reach-Inv (next r t) = Step-Inv t (Reach-Inv r)
