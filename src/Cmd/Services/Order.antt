-- ===== src/Cmd/Services/Order.antt =====
-- What the scan for hot methods returns.
use godash.Common.{
  ◌≢◌, ◌∙◌, subst, Option-cases, Among, All-Among, ◌≡◌, inl, inr, refl, ap, Bool, true, false,
  Option, none, some, List, [], ◌∷◌, ◌++◌, if◌then◌else◌, arith, All, All-append, Bool-cases,
  if_elim,
}
use godash.Cmd.Names.{Text}
use godash.Cmd.Services.{
  same_text, less_text, is_seen, ServiceInfo, HotInfo, by_iface, scan_hot, insert_hot, sort_hot,
  scan_hot_methods,
}
use godash.Cmd.Services.Distinct.{same_text_refl, same_text→eq}

less_trans : (a b c : Text) → less_text a b ≡ true → less_text b c ≡ true → less_text a c ≡ true
unfolding less_text
less_trans [] [] c h k = cc
less_trans [] (y ∷ ys) [] h k = cc
less_trans [] (y ∷ ys) (z ∷ zs) h k = refl
less_trans (x ∷ xs) [] c h k = cc
less_trans (x ∷ xs) (y ∷ ys) [] h k = cc
less_trans (x ∷ xs) (y ∷ ys) (z ∷ zs) h k = ground (arith, less_trans xs ys zs)

less_total : (a b : Text) → less_text a b ≡ false → same_text a b ≡ false → less_text b a ≡ true
unfolding less_text same_text
less_total [] [] h k = cc
less_total [] (y ∷ ys) h k = cc
less_total (x ∷ xs) [] h k = refl
less_total (x ∷ xs) (y ∷ ys) h k = ground (arith, less_total xs ys)

same_sym : (a b : Text) → same_text a b ≡ false → same_text b a ≡ false
same_sym a b h = elim (Bool-cases (same_text b a)) [
  | inl e ↦ cc (same_text_refl a, ap (same_text a) (same_text→eq b a e), h)
  | inr e ↦ e
]

abbrev pub Ascending : List HotInfo → Type 0
Ascending [] = Unit {0}
Ascending (h ∷ hs) = All (λ g. less_text h.name g.name ≡ true) hs × Ascending hs

abbrev Unlike : HotInfo → HotInfo → Type 0
Unlike h g = same_text h.name g.name ≡ false

abbrev Unique : List HotInfo → Type 0
Unique [] = Unit {0}
Unique (h ∷ hs) = All (Unlike h) hs × Unique hs

insert_hot-All {κ} :
    (P : HotInfo → Type κ) (h : HotInfo) (hs : List HotInfo)
    → P h
    → All P hs
    → All P (insert_hot h hs)
unfolding insert_hot
insert_hot-All P h [] p ps = (p, tt)
insert_hot-All P h (g ∷ gs) p ps =
    if_elim (All P) (less_text h.name g.name) (h ∷ g ∷ gs) (g ∷ insert_hot h gs) (λ _. (p, ps))
      λ _. (ps.0, insert_hot-All P h gs p ps.1)

sort_hot-All {κ} : (P : HotInfo → Type κ) (hs : List HotInfo) → All P hs → All P (sort_hot hs)
unfolding sort_hot
sort_hot-All P [] ps = tt
sort_hot-All P (h ∷ hs) ps = insert_hot-All P h (sort_hot hs) ps.0 (sort_hot-All P hs ps.1)

above :
    (h g : HotInfo) (gs : List HotInfo)
    → less_text h.name g.name ≡ true
    → All (λ k. less_text g.name k.name ≡ true) gs
    → All (λ k. less_text h.name k.name ≡ true) gs
above h g [] e a = tt
above h g (k ∷ ks) e a = (less_trans h.name g.name k.name e a.0, above h g ks e a.1)

insert_hot-Ascending :
    (h : HotInfo) (hs : List HotInfo)
    → All (Unlike h) hs
    → Ascending hs
    → Ascending (insert_hot h hs)
unfolding insert_hot
insert_hot-Ascending h [] u a = (tt, tt)
insert_hot-Ascending h (g ∷ gs) u a =
    if_elim Ascending (less_text h.name g.name) (h ∷ g ∷ gs) (g ∷ insert_hot h gs)
      (λ e. ((e, above h g gs e a.0), a))
      λ e. (
        insert_hot-All (λ k. less_text g.name k.name ≡ true) h gs (less_total h.name g.name e u.0)
            a.0,
        insert_hot-Ascending h gs u.1 a.1,
      )

sort_hot-Ascending : (hs : List HotInfo) → Unique hs → Ascending (sort_hot hs)
unfolding sort_hot
sort_hot-Ascending [] u = tt
sort_hot-Ascending (h ∷ hs) u =
    insert_hot-Ascending h (sort_hot hs) (sort_hot-All (Unlike h) hs u.0)
      (sort_hot-Ascending hs u.1)

Unique-append :
    (hs : List HotInfo) (t : HotInfo)
    → Unique hs
    → All (λ h. same_text h.name t.name ≡ false) hs
    → Unique (hs ++ t ∷ [])
Unique-append [] t u a = (tt, tt)
Unique-append (h ∷ hs) t u a =
    (All-append (Unlike h) hs (t ∷ []) u.0 (a.0, tt), Unique-append hs t u.1 a.1)

-- The last service of an interface.
pub record LastOf (iface : Text) (services : List ServiceInfo) (s : ServiceInfo) : Type 0 where
  pub before : List ServiceInfo
  pub after : List ServiceInfo
  pub order : services ≡ before ++ s ∷ after
  pub same_iface : s.handler_iface ≡ iface
  pub no_later : All (λ t. t.handler_iface ≢ iface) after

-- A hot method: one of the matches, served by the variable of the last service of its interface.
pub record IsHot (services : List ServiceInfo) (matches : List (Text × Text)) (h : HotInfo)
    : Type 0 where
  pub iface : Text
  pub matched : Among (h.name, iface) matches
  pub provider : ServiceInfo
  pub provided : LastOf iface services provider
  pub var_name : h.server_var ≡ provider.server_var

none_of :
    (services : List ServiceInfo) (iface : Text)
    → by_iface services iface ≡ none
    → All (λ t. t.handler_iface ≢ iface) services
unfolding by_iface
none_of [] iface e = tt
none_of (s ∷ services) iface e = elim (Option-cases (by_iface services iface)) [
  | inl h ↦ elim (Bool-cases (same_text s.handler_iface iface)) [
    | inl k ↦ cc (rw (by_iface, h, k) at e)
    | inr k ↦ (
      λ d. cc (ap (same_text s.handler_iface) d, same_text_refl s.handler_iface, k),
      none_of services iface h,
    )
  ]
  | inr (t, h) ↦ cc (rw (by_iface, h) at e)
]

by_iface-LastOf :
    (services : List ServiceInfo) (iface : Text) {s : ServiceInfo}
    → by_iface services iface ≡ some s
    → LastOf iface services s
unfolding by_iface
by_iface-LastOf [] iface e = cc
by_iface-LastOf (t ∷ services) iface {s} e = elim (Option-cases (by_iface services iface)) [
  | inl h ↦ elim (Bool-cases (same_text t.handler_iface iface)) [
    | inl k ↦
        let same : t ≡ s = some_eq (rw (by_iface, h, k) at e) in
        subst (LastOf iface (t ∷ services)) same (record {
          before = [];
          after = services;
          order = refl;
          same_iface = same_text→eq t.handler_iface iface k;
          no_later = none_of services iface h;
        })
    | inr k ↦ cc (rw (by_iface, h, k) at e)
  ]
  | inr (u, h) ↦
      let same : u ≡ s = some_eq (rw (by_iface, h) at e) in
      let l = by_iface-LastOf services iface (h ∙ ap some same) in
      record {
        before = t ∷ l.before;
        after = l.after;
        order = ap (λ xs. t ∷ xs) l.order;
        same_iface = l.same_iface;
        no_later = l.no_later;
      }
]
  where
    some_eq : {a b : ServiceInfo} → some a ≡ some b → a ≡ b
    some_eq k = cc

module _ (services : List ServiceInfo) (all_matches : List (Text × Text)) where
  record Scanned (seen : List Text) (out : List HotInfo) : Type 0 where
    pub unique : Unique out
    pub known : All (λ h. is_seen h.name seen ≡ true) out
    pub proper : All (IsHot services all_matches) out

  known-cons :
      (name : Text) (seen : List Text) (hs : List HotInfo)
      → All (λ h. is_seen h.name seen ≡ true) hs
      → All (λ h. is_seen h.name (name ∷ seen) ≡ true) hs
  unfolding is_seen
  known-cons name seen [] a = tt
  known-cons name seen (h ∷ hs) a = (ground (arith, a.0), known-cons name seen hs a.1)

  unseen :
      (name : Text) (seen : List Text) (hs : List HotInfo)
      → is_seen name seen ≡ false
      → All (λ h. is_seen h.name seen ≡ true) hs
      → All (λ h. same_text h.name name ≡ false) hs
  unseen name seen [] e a = tt
  unseen name seen (h ∷ hs) e a = (
    elim (Bool-cases (same_text h.name name)) [
      | inl d ↦ cc (ap (λ n. is_seen n seen) (same_text→eq h.name name d), a.0, e)
      | inr d ↦ d
    ],
    unseen name seen hs e a.1,
  )

  add-Scanned :
      (name iface : Text) (seen : List Text) (out : List HotInfo) (s : ServiceInfo)
      → Among (name, iface) all_matches
      → is_seen name seen ≡ false
      → by_iface services iface ≡ some s
      → Scanned seen out
      → Scanned (name ∷ seen) (out ++ record { name = name; server_var = s.server_var } ∷ [])
  unfolding is_seen
  add-Scanned name iface seen out s member e b k =
      let h : HotInfo = record { name = name; server_var = s.server_var } in
      record {
        unique = Unique-append out h k.unique (unseen name seen out e k.known);
        known =
            All-append (λ g. is_seen g.name (name ∷ seen) ≡ true) out (h ∷ [])
              (known-cons name seen out k.known) (rw (same_text_refl name) refl, tt);
        proper = All-append (IsHot services all_matches) out (h ∷ []) k.proper (
          record {
            iface = iface;
            matched = member;
            provider = s;
            provided = by_iface-LastOf services iface b;
            var_name = refl;
          },
          tt,
        );
      }

  round-Scanned :
      (name iface : Text) (seen : List Text) (out : List HotInfo) (found : Option ServiceInfo)
      → Among (name, iface) all_matches
      → ((s : ServiceInfo)
          → found ≡ some s
          → (is_seen name seen ≡ false) × (by_iface services iface ≡ some s))
      → Scanned seen out
      → Scanned
          (elim found [ none ↦ seen | some s ↦ name ∷ seen ])
          (elim found [
            | none ↦ out
            | some s ↦ out ++ record { name = name; server_var = s.server_var } ∷ []
          ])
  round-Scanned name iface seen out none member e k = k
  round-Scanned name iface seen out (some s) member e k =
      let (unmet, found) = e s refl in add-Scanned name iface seen out s member unmet found k

  found_new :
      (b : Bool) (found : Option ServiceInfo) (s : ServiceInfo)
      → (if b then none else found) ≡ some s
      → (b ≡ false) × (found ≡ some s)
  found_new true found s e = cc
  found_new false found s e = (refl, e)

  scan_hot-Scanned :
      (matches : List (Text × Text)) (seen : List Text) (out : List HotInfo)
      → All (λ m. Among m all_matches) matches
      → Scanned seen out
      → Unique (scan_hot services matches seen out)
        × All (IsHot services all_matches) (scan_hot services matches seen out)
  unfolding scan_hot
  scan_hot-Scanned [] seen out among k = (k.unique, k.proper)
  scan_hot-Scanned ((name, iface) ∷ matches) seen out among k =
      scan_hot-Scanned matches _ _ among.1 (
        round-Scanned name iface seen out
          (if is_seen name seen then none else by_iface services iface) among.0
          (found_new (is_seen name seen) (by_iface services iface)) k)

-- Whatever the matches, the hot methods come in strictly ascending order of their names, so that none
-- occurs twice; each is a match with its interface, and is served by the variable of the last service of
-- that interface.
pub scan_hot_methods_lem :
    (services : List ServiceInfo) (matches : List (Text × Text))
    → Ascending (scan_hot_methods services matches)
      × All (IsHot services matches) (scan_hot_methods services matches)
unfolding scan_hot_methods
scan_hot_methods_lem services matches =
    let (unique, proper) =
      scan_hot-Scanned services matches matches [] [] (All-Among matches)
        (record { unique = tt; known = tt; proper = tt }) in
    (
      sort_hot-Ascending (scan_hot services matches [] []) unique,
      sort_hot-All (IsHot services matches) (scan_hot services matches [] []) proper,
    )
