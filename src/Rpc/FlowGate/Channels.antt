-- ===== src/Rpc/FlowGate/Channels.antt =====
-- Lists of channels, in which each channel stands at most once.
use godash.Common.{
  ℕ, ◌≢◌, ◌⊎◌, inl, inr, refl, sym, ◌∙◌, List, [], ◌∷◌, ◌++◌, All, All-map, In, In-append_left,
  In-append_right, Bool-cases, ◌==◌, ==→eq, ==→ne,
}
use godash.Rpc.FlowGate.{remove}

abbrev pub Distinct : List ℕ → Type 0
Distinct [] = Unit {0}
Distinct (w ∷ ws) = All (λ x. w ≢ x) ws × Distinct ws

-- Each channel on which a goroutine blocks is registered at the gate, or closed.
abbrev pub Covered : List ℕ → List ℕ → List ℕ → Type 0
Covered blocked waiters woken = All (λ w. In w waiters ⊎ In w woken) blocked

In-remove : (w x : ℕ) (xs : List ℕ) → x ≢ w → In x xs → In x (remove w xs)
unfolding remove
In-remove w x [] ne m = absurd m
In-remove w x (y ∷ ys) ne m = elim (Bool-cases (y == w)) [
  | inl e ↦ rw e (elim m [ inl d ↦ absurd (ne (d ∙ ==→eq y w e)) | inr k ↦ k ])
  | inr e ↦ rw e (elim m [ inl d ↦ inl d | inr k ↦ inr (In-remove w x ys ne k) ])
]

pub All-remove {ℓ} : (P : ℕ → Type ℓ) (w : ℕ) (xs : List ℕ) → All P xs → All P (remove w xs)
unfolding remove
All-remove P w [] h = tt
All-remove P w (x ∷ xs) h = elim (Bool-cases (x == w)) [
  | inl e ↦ rw e h.1
  | inr e ↦ rw e (h.0, All-remove P w xs h.1)
]

pub remove-Distinct :
    (w : ℕ) (xs : List ℕ) → Distinct xs → Distinct (remove w xs) × All (λ x. x ≢ w) (remove w xs)
unfolding remove
remove-Distinct w [] d = (tt, tt)
remove-Distinct w (x ∷ xs) d = elim (Bool-cases (x == w)) [
  | inl e ↦
      rw e (d.1, All-map (λ y. x ≢ y) (λ y. y ≢ w) xs (λ y ne k. ne (==→eq x w e ∙ sym k)) d.0)
  | inr e ↦
      let rest = remove-Distinct w xs d.1 in
      rw e ((All-remove (λ y. x ≢ y) w xs d.0, rest.0), (==→ne x w e, rest.1))
]

-- Closing the registered channels keeps every goroutine covered.
pub Covered-close :
    (blocked ws woken : List ℕ) → Covered blocked ws woken → Covered blocked [] (woken ++ ws)
Covered-close [] ws woken c = tt
Covered-close (w ∷ bs) ws woken c = (
  elim c.0 [
    | inl m ↦ inr (In-append_right w woken ws m)
    | inr m ↦ inr (In-append_left w woken ws m)
  ],
  Covered-close bs ws woken c.1,
)

-- So does registering one more.
pub Covered-register :
    (blocked ws woken : List ℕ) (v : ℕ)
    → Covered blocked ws woken
    → Covered (v ∷ blocked) (ws ++ v ∷ []) woken
Covered-register blocked ws woken v c =
    (inl (In-append_right v ws (v ∷ []) (inl refl)), more blocked c)
  where
    more : (bs : List ℕ) → Covered bs ws woken → Covered bs (ws ++ v ∷ []) woken
    more bs =
        All-map _ _ bs λ w. elim [ inl m ↦ inl (In-append_left w ws (v ∷ []) m) | inr m ↦ inr m ]

-- Withdrawing a channel uncovers only the goroutine that withdraws.
pub Covered-withdraw :
    (v : ℕ) (blocked ws woken : List ℕ)
    → All (λ w. w ≢ v) blocked
    → Covered blocked ws woken
    → Covered blocked (remove v ws) woken
Covered-withdraw v [] ws woken d c = tt
Covered-withdraw v (w ∷ bs) ws woken d c = (
  elim c.0 [ inl m ↦ inl (In-remove v w ws d.0 m) | inr m ↦ inr m ],
  Covered-withdraw v bs ws woken d.1 c.1,
)
