-- ===== src/Rpc/Reverse/Interleaving/Entries.antt =====
-- The entries of one port, and what an operation does to them in each case.
use godash.Common.{ℕ, ◌≡◌, ◌⊎◌, inl, inr, refl, Bool, true, false, Option, none, some, List}
use godash.Common.Assoc.{lookup, store, erase}
use godash.Rpc.Reverse.{
  Reverse, send, receive_reverse_response, unknown_port, passed, buffered, take_reply,
}
use godash.Rpc.Reverse.Interleaving.{System}

-- The entries of port `w`: whether its call waits, what `reversePending` maps it to, its channel, and
-- the reply that was accepted.
pub data Entries (w : ℕ)
    : Bool → Option ℕ → Option (Option (List ℕ)) → Option (List ℕ) → Type 0 where
  idle : (ch : Option (Option (List ℕ))) (a : Option (List ℕ)) → Entries w false none ch a
  parked : (a : Option (List ℕ)) → Entries w true (some w) (some none) a
  answered : (payload : List ℕ) → Entries w true none (some (some payload)) (some payload)

abbrev pub At : System → ℕ → Type 0
At s w =
    Entries w (s.waiting w) (lookup w s.reverse.reverse_pending) (lookup w s.reverse.channels)
      (s.accepted w)

pub Entries-eq :
    {w : ℕ} {b c : Bool} {o p : Option ℕ} {ch dh : Option (Option (List ℕ))} {x y : Option (List ℕ)}
    → c ≡ b
    → p ≡ o
    → dh ≡ ch
    → y ≡ x
    → Entries w b o ch x
    → Entries w c p dh y
Entries-eq e f g h k = rw (e, f, g, h) k

pub pending-inv :
    {w : ℕ} {b : Bool} {o : Option ℕ} {ch : Option (Option (List ℕ))} {x : Option (List ℕ)}
    → Entries w b o ch x
    → (o ≡ none) ⊎ ((b ≡ true) × (o ≡ some w) × (ch ≡ some none))
pending-inv (idle _ _) = inl refl
pending-inv (parked _) = inr (refl, refl, refl)
pending-inv (answered _) = inl refl

pub waiting-inv :
    {w : ℕ} {b : Bool} {o : Option ℕ} {ch : Option (Option (List ℕ))} {x : Option (List ℕ)}
    → Entries w b o ch x
    → (b ≡ false)
      ⊎ (ch ≡ some none)
      ⊎ ((payload : List ℕ) × (o ≡ none) × (ch ≡ some (some payload)) × (x ≡ some payload))
waiting-inv (idle _ _) = inl refl
waiting-inv (parked _) = inr (inl refl)
waiting-inv (answered payload) = inr (inr (payload, refl, refl, refl))

pub idle-pending :
    {w : ℕ} {b : Bool} {o : Option ℕ} {ch : Option (Option (List ℕ))} {x : Option (List ℕ)}
    → Entries w b o ch x
    → b ≡ false
    → o ≡ none
idle-pending (idle _ _) e = refl
idle-pending (parked _) e = cc
idle-pending (answered _) e = refl

pub receive-none :
    (r : Reverse) (port : ℕ) (payload : List ℕ)
    → lookup port r.reverse_pending ≡ none
    → receive_reverse_response r port payload ≡ (unknown_port, r)
unfolding receive_reverse_response
receive-none r port payload e = rw (receive_reverse_response, e) refl

-- The state after a reply to a call that waits for it.
unfoldable pub answer : Reverse → ℕ → List ℕ → Reverse
answer r port payload = record r {
  reverse_pending = erase port r.reverse_pending;
  channels = store port (some payload) r.channels;
}

pub receive-some :
    (r : Reverse) (port : ℕ) (payload : List ℕ)
    → lookup port r.reverse_pending ≡ some port
    → lookup port r.channels ≡ some none
    → receive_reverse_response r port payload ≡ (passed buffered, answer r port payload)
unfolding receive_reverse_response send answer
receive-some r port payload e f = rw (receive_reverse_response, e, send, f) refl

pub take_reply-some :
    (r : Reverse) (ch : ℕ) (payload : List ℕ)
    → lookup ch r.channels ≡ some (some payload)
    → take_reply r ch ≡ (some payload, record r { channels = store ch none r.channels })
unfolding take_reply
take_reply-some r ch payload e = rw (take_reply, e) refl

pub take_reply-none :
    (r : Reverse) (ch : ℕ) → lookup ch r.channels ≡ some none → take_reply r ch ≡ (none, r)
unfolding take_reply
take_reply-none r ch e = rw (take_reply, e) refl
