-- ===== src/Rpc/Reverse/Interleaving/Replies.antt =====
-- What a caller of `ReverseCall` can rely on.
use godash.Common.{ℕ, ◌≡◌, ◌⊎◌, inl, inr, sym, ◌∙◌, ap, subst, true, false, none, some, List}
use godash.Common.Assoc.{lookup, lookup-store}
use godash.Rpc.Reverse.{
  Reverse, receive_reverse_response, unknown_port, passed, buffered, take_reply,
}
use godash.Rpc.Reverse.Interleaving.{System, Reach}
use godash.Rpc.Reverse.Interleaving.Entries.{
  pending-inv, waiting-inv, idle-pending, receive-none, receive-some, answer, take_reply-some,
  take_reply-none,
}
use godash.Rpc.Reverse.Interleaving.Invariant.{Reach-Inv}

-- In every reachable state a reply to any port either finds no call, and changes nothing, or goes
-- into the empty channel of a waiting call, so that the receiver never blocks on the send; the payload
-- is what the call finds in its channel, if it takes the reply and not the end of its context.
pub reply_delivered :
    (s : System) (port : ℕ) (payload : List ℕ)
    → Reach s
    → (receive_reverse_response s.reverse port payload ≡ (unknown_port, s.reverse))
      ⊎ ((s.waiting port ≡ true)
          × ((receive_reverse_response s.reverse port payload).0 ≡ passed buffered)
          × ((take_reply (receive_reverse_response s.reverse port payload).1 port).0
              ≡ some payload))
reply_delivered s port payload r = elim (pending-inv ((Reach-Inv r).at port)) [
  | inl e ↦ inl (receive-none s.reverse port payload e)
  | inr e ↦
      let got = receive-some s.reverse port payload e.1 e.2 in
      inr (
        e.0,
        ap (λ x. x.0) got,
        ap (λ x. (take_reply x.1 port).0) got
            ∙ ap (λ x. x.0)
                (take_reply-some (answer s.reverse port payload) port payload
                  (unfold answer in lookup-store port (some payload) s.reverse.channels)),
      )
]

-- The reverse calls of some reachable state.
abbrev pub IsReached : Reverse → Type 0
IsReached s = (t : System) × Reach t × (t.reverse ≡ s)

-- A reply is dropped or buffered.
pub receive-settles :
    (s : Reverse) (port : ℕ) (payload : List ℕ)
    → IsReached s
    → ((receive_reverse_response s port payload).0 ≡ unknown_port)
      ⊎ ((receive_reverse_response s port payload).0 ≡ passed buffered)
receive-settles s port payload (t, r, e) =
    subst
      (λ u.
        ((receive_reverse_response u port payload).0 ≡ unknown_port)
        ⊎ ((receive_reverse_response u port payload).0 ≡ passed buffered))
      e
      (elim (reply_delivered t port payload r) [ inl h ↦ inl (ap (λ x. x.0) h) | inr h ↦ inr h.1 ])

-- In every reachable state, what a waiting call returns is the payload of the reply to its own port
-- that was accepted.
pub reply_of_caller :
    (s : System) (w : ℕ) (payload : List ℕ)
    → Reach s
    → s.waiting w ≡ true
    → (take_reply s.reverse w).0 ≡ some payload
    → s.accepted w ≡ some payload
reply_of_caller s w payload r b e = elim (waiting-inv ((Reach-Inv r).at w)) [
  | inl k ↦ cc
  | inr (inl k) ↦ absurd (none_ne_some (sym (ap (λ x. x.0) (take_reply-none s.reverse w k)) ∙ e))
  | inr (inr (p, o, ch, x)) ↦ x ∙ sym (ap (λ x. x.0) (take_reply-some s.reverse w p ch)) ∙ e
]
  where
    none_ne_some : {p : List ℕ} → none ≡ some p → ⊥
    none_ne_some k = cc

-- In every reachable state, a port whose call does not wait has no entry in `reversePending`: every
-- way in which a call ends removes its entry.
pub no_entry_left :
    (s : System) (w : ℕ) → Reach s → s.waiting w ≡ false → lookup w s.reverse.reverse_pending ≡ none
no_entry_left s w r b = idle-pending ((Reach-Inv r).at w) b
