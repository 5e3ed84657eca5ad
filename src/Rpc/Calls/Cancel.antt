-- ===== src/Rpc/Calls/Cancel.antt =====
-- What a Cancel request, and the same lines at the end of a request, do to the maps.
use godash.Common.{
  ℕ, ◌≡◌, ◌⊎◌, inl, inr, refl, sym, ◌∙◌, ap, subst, none, some, List, [], ◌∷◌, ◌++◌, In,
  In-append_left, In-append_right, ◌==◌, Bool-cases, ==→eq, ==→ne, Option-cases,
}
use godash.Common.Assoc.{lookup, erase, lookup-erase, lookup-erase_other}
use godash.Rpc.Calls.{Calls, cancel}

-- Port `k` has no cancel function and no mark.
abbrev pub IsClear : Calls → ℕ → Type 0
IsClear s k = (lookup k s.cancels ≡ none) × (lookup k s.warned_slow ≡ none)

-- Cancel function `f` was called, or is stored under a port.
abbrev pub IsKept : Calls → ℕ → Type 0
IsKept s f = In f s.cancelled ⊎ ((k : ℕ) × (lookup k s.cancels ≡ some f))

pub some_ne_none {ℓ} : {A : Type ℓ} {a : A} → some a ≡ none → ⊥
some_ne_none e = cc

-- The state after a cancel function was called and deleted.
pub cancelled_at : Calls → ℕ → ℕ → Calls
cancelled_at s port f = record s {
  cancelled = s.cancelled ++ f ∷ [];
  cancels = erase port s.cancels;
}

pub cancel-cases :
    (s : Calls) (port : ℕ)
    → ((lookup port s.cancels ≡ none) × (cancel s port ≡ s))
      ⊎ ((f : ℕ) × (lookup port s.cancels ≡ some f) × (cancel s port ≡ cancelled_at s port f))
unfolding cancel cancelled_at
cancel-cases s port = elim (Option-cases (lookup port s.cancels)) [
  | inl e ↦ inl (e, rw (cancel, e) refl)
  | inr (f, e) ↦ inr (f, e, rw (cancel, e) refl)
]

erase-none {ℓ} :
    {A : Type ℓ} (port k : ℕ) (m : List (ℕ × A))
    → lookup k m ≡ none
    → lookup k (erase port m) ≡ none
erase-none port k m e = elim (Bool-cases (k == port)) [
  | inl d ↦ ap (λ j. lookup j (erase port m)) (==→eq k port d) ∙ lookup-erase port m
  | inr d ↦ lookup-erase_other port k m (==→ne k port d) ∙ e
]

pub cancel-clear :
    (s : Calls) (port k : ℕ) → lookup k s.cancels ≡ none → lookup k (cancel s port).cancels ≡ none
cancel-clear s port k e = elim (cancel-cases s port) [
  | inl (n, same) ↦ ap (λ t. lookup k t.cancels) same ∙ e
  | inr (f, _, same) ↦
      ap (λ t. lookup k t.cancels) same ∙ (unfold cancelled_at in erase-none port k s.cancels e)
]

pub cancel-own : (s : Calls) (port : ℕ) → lookup port (cancel s port).cancels ≡ none
cancel-own s port = elim (cancel-cases s port) [
  | inl (n, same) ↦ ap (λ t. lookup port t.cancels) same ∙ n
  | inr (f, _, same) ↦
      ap (λ t. lookup port t.cancels) same ∙ (unfold cancelled_at in lookup-erase port s.cancels)
]

pub cancel-inflight : (s : Calls) (port : ℕ) → (cancel s port).inflight ≡ s.inflight
cancel-inflight s port = elim (cancel-cases s port) [
  | inl (n, same) ↦ ap (λ t. t.inflight) same
  | inr (f, _, same) ↦ ap (λ t. t.inflight) same ∙ (unfold cancelled_at in refl)
]

pub cancel-warned : (s : Calls) (port : ℕ) → (cancel s port).warned_slow ≡ s.warned_slow
cancel-warned s port = elim (cancel-cases s port) [
  | inl (n, same) ↦ ap (λ t. t.warned_slow) same
  | inr (f, _, same) ↦ ap (λ t. t.warned_slow) same ∙ (unfold cancelled_at in refl)
]

cancelled_at-IsKept :
    (s : Calls) (port f g : ℕ)
    → lookup port s.cancels ≡ some f
    → IsKept s g
    → IsKept (cancelled_at s port f) g
unfolding cancelled_at
cancelled_at-IsKept s port f g e (inl m) = inl (In-append_left g s.cancelled (f ∷ []) m)
cancelled_at-IsKept s port f g e (inr (k, h)) = elim (Bool-cases (k == port)) [
  | inl d ↦ inl (
      In-append_right g s.cancelled (f ∷ [])
        (inl (some_inj (sym h ∙ ap (λ j. lookup j s.cancels) (==→eq k port d) ∙ e))))
  | inr d ↦ inr (k, lookup-erase_other port k s.cancels (==→ne k port d) ∙ h)
]
  where
    some_inj : {a b : ℕ} → some a ≡ some b → a ≡ b
    some_inj p = cc

pub cancel-IsKept : (s : Calls) (port g : ℕ) → IsKept s g → IsKept (cancel s port) g
cancel-IsKept s port g h = elim (cancel-cases s port) [
  | inl (n, same) ↦ subst (λ t. IsKept t g) (sym same) h
  | inr (f, e, same) ↦ subst (λ t. IsKept t g) (sym same) (cancelled_at-IsKept s port f g e h)
]
