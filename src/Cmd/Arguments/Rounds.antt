-- ===== src/Cmd/Arguments/Rounds.antt =====
-- When the loop of `gentleParse` ends.
use godash.Common.{
  ℕ, zero, suc, ◌≤◌, ◌<◌, ◌≡◌, ◌≢◌, ◌⊎◌, inl, inr, refl, ap, subst, true, false, Option, none, some,
  List, [], ◌∷◌, ◌++◌, arith, length, length-append, All, Bool-cases, if_elim, ltb,
}
use godash.Cmd.Names.{Text}
use godash.Cmd.Arguments.{
  Parsed, not_defined, failed, left, Outcome, returned, error, panicked, out_of_fuel, Round,
  goes_on, ends, fails, panics, has_prefix, dash, dashes, is_pulled, pull_from, ate_dashes,
  parsed_round, round, loop,
}

-- A flag set that leaves a lone dash where it is, as the runtime's does.
abbrev pub LeavesDash : (List Text → Parsed) → Type 0
LeavesDash parse = (args : List Text) → parse (dash ∷ args) ≡ left (dash ∷ args)

length_irrefl : (n : ℕ) → ltb n n ≡ false
length_irrefl n = ground arith

-- What is left of a list: something was taken off its front.
abbrev pub Shorter : List Text → List Text → Type 0
Shorter args next = (a : Text) × (before : List Text) × (next ≡ (a ∷ before) ++ args)

-- A flag set that consumes an argument whenever the first starts with a dash and is not a lone one.
abbrev pub Consumes : (List Text → Parsed) → Type 0
Consumes parse =
    (arg : Text) (args xs : List Text)
    → arg ≢ dash
    → has_prefix arg dash ≡ true
    → parse (arg ∷ args) ≡ left xs
    → Shorter xs (arg ∷ args)

module _ (parse : List Text → Parsed) where
  round-dash :
      LeavesDash parse → (args : List Text) → round parse dash args ≡ goes_on [] (dash ∷ args)
  unfolding round parsed_round has_prefix ate_dashes
  round-dash h args = rw (parsed_round, h args, length_irrefl (suc (length args))) refl

  -- With a lone dash among the arguments, however many rounds it gets, the loop does not end once it
  -- comes to the dash, if the flag set leaves a lone dash where it is.
  pub loop-dash :
      (n : ℕ) (r args : List Text) → LeavesDash parse → loop parse n r (dash ∷ args) ≡ out_of_fuel
  unfolding loop
  loop-dash zero r args h = refl
  loop-dash (suc n) r args h = rw (loop, round-dash h args) (loop-dash n (r ++ []) args h)

  abbrev NoDash : Text → Type 0
  NoDash arg = arg ≢ dash

  -- Fewer arguments are left, and none of them is a lone dash.
  abbrev Fewer : List Text → List Text → Type 0
  Fewer next xs = (length xs < length next) × All NoDash xs

  abbrev Shrinks : List Text → Round → Type 0
  Shrinks next (goes_on collected xs) = Fewer next xs
  Shrinks next (ends collected) = Unit {0}
  Shrinks next (fails message) = Unit {0}
  Shrinks next panics = Unit {0}

  abbrev Pulled : List Text → Option (Text × List Text) → Type 0
  Pulled next none = Unit {0}
  Pulled next (some (arg, xs)) = Fewer next xs

  pull_from-Pulled :
      (pull : Text) (next : List Text) → All NoDash next → Pulled next (pull_from pull next)
  unfolding pull_from
  pull_from-Pulled pull [] h = tt
  pull_from-Pulled pull (arg ∷ args) h =
      if_elim (Pulled (arg ∷ args)) (is_pulled pull arg) (some (arg, args)) (pull_from pull args)
        (λ _. (omega arith, h.1)) λ _. weaken (pull_from pull args) (pull_from-Pulled pull args h.1)
    where
      weaken : (o : Option (Text × List Text)) → Pulled args o → Pulled (arg ∷ args) o
      weaken none p = tt
      weaken (some (a, xs)) p = (omega (arith, p.0), p.1)

  All-behind : (before xs : List Text) → All NoDash (before ++ xs) → All NoDash xs
  All-behind [] xs h = h
  All-behind (b ∷ before) xs h = All-behind before xs h.1

  Shorter-Fewer : (next xs : List Text) → Shorter xs next → All NoDash next → Fewer next xs
  Shorter-Fewer next xs (a, before, e) h = (
    omega (arith, ap length e, length-append before xs),
    All-behind (a ∷ before) xs (subst (All NoDash) e h),
  )

  Parsed-cases :
      (p : Parsed)
      → ((pull : Text) × (p ≡ not_defined pull))
        ⊎ ((m : Text) × (p ≡ failed m))
        ⊎ ((xs : List Text) × (p ≡ left xs))
  Parsed-cases (not_defined pull) = inl (pull, refl)
  Parsed-cases (failed m) = inr (inl (m, refl))
  Parsed-cases (left xs) = inr (inr (xs, refl))

  parsed_round-Shrinks :
      Consumes parse
      → (arg : Text) (args : List Text) → has_prefix arg dash ≡ true
      → All NoDash (arg ∷ args)
      → Shrinks (arg ∷ args) (parsed_round parse (arg ∷ args))
  unfolding parsed_round
  parsed_round-Shrinks c arg args e h = elim (Parsed-cases (parse (arg ∷ args))) [
    | inl (pull, p) ↦
        rw (parsed_round, p)
          (pulled (pull_from pull (arg ∷ args)) (pull_from-Pulled pull (arg ∷ args) h))
    | inr (inl (m, p)) ↦ rw (parsed_round, p) tt
    | inr (inr (xs, p)) ↦
        rw (parsed_round, p)
          (if_elim (Shrinks (arg ∷ args)) (ate_dashes (arg ∷ args) xs) (ends (dashes ∷ xs))
            (goes_on [] xs) (λ _. tt) λ _. Shorter-Fewer (arg ∷ args) xs (c arg args xs h.0 e p) h)
  ]
    where
      pulled :
          (o : Option (Text × List Text))
          → Pulled (arg ∷ args) o
          → Shrinks (arg ∷ args) (elim o [ none ↦ panics | some (a, xs) ↦ goes_on (a ∷ []) xs ])
      pulled none p = tt
      pulled (some (a, xs)) p = p

  round-Shrinks :
      Consumes parse
      → (arg : Text) (args : List Text) → All NoDash (arg ∷ args)
      → Shrinks (arg ∷ args) (round parse arg args)
  unfolding round
  round-Shrinks c arg args h = elim (Bool-cases (has_prefix arg dash)) [
    | inl e ↦ rw e (parsed_round-Shrinks c arg args e h)
    | inr e ↦ rw e (omega arith, h.1)
  ]

  -- Without a lone dash among the arguments the loop ends within as many rounds as there are
  -- arguments, if the flag set consumes an argument whenever the first starts with a dash.
  pub loop-ends :
      (n : ℕ) (r args : List Text)
      → Consumes parse
      → All (λ arg. arg ≢ dash) args
      → length args ≤ n
      → loop parse n r args ≢ out_of_fuel
  unfolding loop
  loop-ends n r [] c h e k = cc
  loop-ends zero r (arg ∷ args) c h e k = omega (arith, e)
  loop-ends (suc n) r (arg ∷ args) c h e k =
      go (round parse arg args) (round-Shrinks c arg args h) (λ r' next. loop-ends n r' next c) k
    where
      go :
          (o : Round)
          → Shrinks (arg ∷ args) o
          → ((r' next : List Text)
              → All (λ arg. arg ≢ dash) next
              → length next ≤ n
              → loop parse n r' next ≢ out_of_fuel)
          → elim o as (λ _. Outcome) [
            | goes_on collected next ↦ loop parse n (r ++ collected) next
            | ends collected ↦ returned (r ++ collected)
            | fails message ↦ error message
            | panics ↦ panicked
          ]
            ≡ out_of_fuel
          → ⊥
      go (goes_on collected next) s rec q = rec (r ++ collected) next s.1 (omega (arith, s.0, e)) q
      go (ends collected) s rec q = cc
      go (fails message) s rec q = cc
      go panics s rec q = cc
