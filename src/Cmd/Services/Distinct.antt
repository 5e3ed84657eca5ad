-- ===== src/Cmd/Services/Distinct.antt =====
-- What the scan for services returns.
use godash.Common.{
  ℕ, ◌≡◌, ◌≢◌, ◌⊎◌, Among, All-Among, inl, inr, refl, ap, ap₂, Bool, true, false, ◌&&◌, ◌||◌, List,
  [], ◌∷◌, ◌++◌, if◌then◌else◌, ◌==◌, ==→eq, ==-refl, arith, All, All-append, Bool-cases, if_elim,
}
use godash.Cmd.Names.{Text, lower_first}
use godash.Cmd.Services.{
  same_text, is_seen, rpc_handler, trim_suffix, ServiceInfo, service, is_empty, scan_ifaces,
  scan_files, scan_services,
}

pub same_text_refl : (a : Text) → same_text a a ≡ true
unfolding same_text
same_text_refl [] = refl
same_text_refl (b ∷ bs) = rw (==-refl b, same_text_refl bs) refl

pub and-true : (a b : Bool) → (a && b) ≡ true → (a ≡ true) × (b ≡ true)
and-true true true h = (refl, refl)
and-true true false h = cc
and-true false b h = cc

pub same_text→eq : (a b : Text) → same_text a b ≡ true → a ≡ b
unfolding same_text
same_text→eq [] [] h = refl
same_text→eq [] (c ∷ cs) h = cc
same_text→eq (b ∷ bs) [] h = cc
same_text→eq (b ∷ bs) (c ∷ cs) h =
    let (d, e) = and-true (b == c) (same_text bs cs) h in
    ap₂ (λ x xs. x ∷ xs) (==→eq b c d) (same_text→eq bs cs e)

-- No two services have the same name.
abbrev pub Unique : List ServiceInfo → Type 0
Unique [] = Unit {0}
Unique (s ∷ ss) = All (λ t. same_text s.name t.name ≡ false) ss × Unique ss

Unique-append :
    (ss : List ServiceInfo) (t : ServiceInfo)
    → Unique ss
    → All (λ s. same_text s.name t.name ≡ false) ss
    → Unique (ss ++ t ∷ [])
Unique-append [] t u h = (tt, tt)
Unique-append (s ∷ ss) t u h = (
  All-append (λ x. same_text s.name x.name ≡ false) ss (t ∷ []) u.0 (h.0, tt),
  Unique-append ss t u.1 h.1,
)

-- The texts "Handle", "RPC", "Server" and "RPCHandler".
abbrev handle_text : Text
handle_text = 72 ∷ 97 ∷ 110 ∷ 100 ∷ 108 ∷ 101 ∷ []

abbrev rpc_text : Text
rpc_text = 82 ∷ 80 ∷ 67 ∷ []

abbrev server_text : Text
server_text = 83 ∷ 101 ∷ 114 ∷ 118 ∷ 101 ∷ 114 ∷ []

abbrev handler_text : Text
handler_text = 82 ∷ 80 ∷ 67 ∷ 72 ∷ 97 ∷ 110 ∷ 100 ∷ 108 ∷ 101 ∷ 114 ∷ []

-- The name is the interface without the suffix, or the interface if it does not end in it.
abbrev pub IsTrimmed : Text → Text → Type 0
IsTrimmed iface name =
    (iface ≡ name ++ handler_text) ⊎ ((name ≡ iface) × ((x : Text) → iface ≢ x ++ handler_text))

-- A service of one of the files: its interface stands in the file, as its dispatch function does, and
-- its names are made of its own name.
pub record IsService (has_handle : Text → Text → Bool) (files : List (Text × List Text))
    (s : ServiceInfo) : Type 0 where
  pub text : Text
  pub ifaces : List Text
  pub of_file : Among (text, ifaces) files
  pub of_iface : Among s.handler_iface ifaces
  pub dispatched : has_handle s.name text ≡ true
  pub trimmed : IsTrimmed s.handler_iface s.name
  pub handle_name : s.handle_func ≡ handle_text ++ s.name ++ rpc_text
  pub struct_name : s.server_struct ≡ s.name ++ server_text
  pub var_name : s.server_var ≡ lower_first s.name ++ server_text

trim_suffix-IsTrimmed : (iface : Text) → IsTrimmed iface (trim_suffix rpc_handler iface)
unfolding trim_suffix
trim_suffix-IsTrimmed [] = inr (refl, λ x e. nil_no_append x e)
  where
    nil_no_append : (x : Text) → [] ≢ x ++ handler_text
    nil_no_append [] e = cc
    nil_no_append (b ∷ x) e = cc
trim_suffix-IsTrimmed (b ∷ bs) = elim (Bool-cases (same_text (b ∷ bs) rpc_handler)) [
  | inl e ↦ rw e (inl (same_text→eq (b ∷ bs) rpc_handler e))
  | inr e ↦ rw e (elim (trim_suffix-IsTrimmed bs) [
    | inl h ↦ inl (ap (λ xs. b ∷ xs) h)
    | inr h ↦ inr (ap (λ xs. b ∷ xs) h.0, λ x k. unlike x h.1 e k)
  ])
]
  where
    tail_eq : (c d : ℕ) (xs ys : Text) → c ∷ xs ≡ d ∷ ys → xs ≡ ys
    tail_eq c d xs ys k = cc

    unlike :
        (x : Text)
        → ((y : Text) → bs ≢ y ++ handler_text)
        → same_text (b ∷ bs) rpc_handler ≡ false
        → b ∷ bs ≢ x ++ handler_text
    unlike [] h e k = cc (ap (λ t. same_text t rpc_handler) k, same_text_refl rpc_handler, e)
    unlike (c ∷ x) h e k = h x (tail_eq b c bs (x ++ handler_text) k)

module _ (has_handle : Text → Text → Bool) (all_files : List (Text × List Text)) where
  record Scanned (seen : List Text) (services : List ServiceInfo) : Type 0 where
    pub unique : Unique services
    pub known : All (λ s. is_seen s.name seen ≡ true) services
    pub proper : All (IsService has_handle all_files) services

  known-cons :
      (name : Text) (seen : List Text) (ss : List ServiceInfo)
      → All (λ s. is_seen s.name seen ≡ true) ss
      → All (λ s. is_seen s.name (name ∷ seen) ≡ true) ss
  unfolding is_seen
  known-cons name seen [] h = tt
  known-cons name seen (s ∷ ss) h = (ground (arith, h.0), known-cons name seen ss h.1)

  -- A name that was not seen is none of the services'.
  unseen :
      (name : Text) (seen : List Text) (ss : List ServiceInfo)
      → is_seen name seen ≡ false
      → All (λ s. is_seen s.name seen ≡ true) ss
      → All (λ s. same_text s.name name ≡ false) ss
  unseen name seen [] e h = tt
  unseen name seen (s ∷ ss) e h = (
    elim (Bool-cases (same_text s.name name)) [
      | inl d ↦ cc (ap (λ n. is_seen n seen) (same_text→eq s.name name d), h.0, e)
      | inr d ↦ d
    ],
    unseen name seen ss e h.1,
  )

  seen_first : (name : Text) (seen : List Text) → is_seen name (name ∷ seen) ≡ true
  unfolding is_seen
  seen_first name seen = rw (same_text_refl name) refl

  add-Scanned :
      (text : Text) (all_ifaces : List Text) (iface : Text) (seen : List Text)
      (ss : List ServiceInfo)
      → Among (text, all_ifaces) all_files
      → Among iface all_ifaces
      → let name = trim_suffix rpc_handler iface in
        is_seen name seen ≡ false
        → Scanned seen ss
        → has_handle name text ≡ true
        → Scanned (name ∷ seen) (ss ++ service name iface ∷ [])
  unfolding service
  add-Scanned text all_ifaces iface seen ss file member e k h =
      let name = trim_suffix rpc_handler iface in
      record {
        unique = Unique-append ss (service name iface) k.unique (unseen name seen ss e k.known);
        known =
            All-append (λ s. is_seen s.name (name ∷ seen) ≡ true) ss (service name iface ∷ [])
              (known-cons name seen ss k.known) (seen_first name seen, tt);
        proper = All-append (IsService has_handle all_files) ss (service name iface ∷ []) k.proper (
          record {
            text = text;
            ifaces = all_ifaces;
            of_file = file;
            of_iface = member;
            dispatched = h;
            trimmed = trim_suffix-IsTrimmed iface;
            handle_name = refl;
            struct_name = refl;
            var_name = refl;
          },
          tt,
        );
      }

  pass-Scanned :
      (seen : List Text) (ss : List ServiceInfo) (name : Text)
      → Scanned seen ss
      → Scanned (name ∷ seen) ss
  pass-Scanned seen ss name k = record {
    unique = k.unique;
    known = known-cons name seen ss k.known;
    proper = k.proper;
  }

  round-Scanned :
      (text : Text) (all_ifaces : List Text) (iface : Text) (seen : List Text)
      (ss : List ServiceInfo) (skipped : Bool)
      → Among (text, all_ifaces) all_files
      → Among iface all_ifaces
      → let name = trim_suffix rpc_handler iface in
        (skipped ≡ false → is_seen name seen ≡ false)
        → Scanned seen ss
        → Scanned (if skipped then seen else name ∷ seen) (
            if skipped
            then ss
            else if has_handle name text
            then ss ++ service name iface ∷ []
            else ss)
  round-Scanned text all_ifaces iface seen ss true file member e k = k
  round-Scanned text all_ifaces iface seen ss false file member e k =
      let name = trim_suffix rpc_handler iface in
      if_elim (Scanned (name ∷ seen)) (has_handle name text) (ss ++ service name iface ∷ []) ss
        (add-Scanned text all_ifaces iface seen ss file member (e refl) k)
        λ _. pass-Scanned seen ss name k

  or-false : (a b : Bool) → (a || b) ≡ false → b ≡ false
  or-false true b h = cc
  or-false false b h = h

  ifaces-Scanned :
      (text : Text) (all_ifaces ifaces seen : List Text) (ss : List ServiceInfo)
      → Among (text, all_ifaces) all_files
      → All (λ iface. Among iface all_ifaces) ifaces
      → Scanned seen ss
      → Scanned
          (scan_ifaces has_handle text ifaces seen ss).0
          (scan_ifaces has_handle text ifaces seen ss).1
  unfolding scan_ifaces
  ifaces-Scanned text all_ifaces [] seen ss file member k = k
  ifaces-Scanned text all_ifaces (iface ∷ ifaces) seen ss file member k =
      let name = trim_suffix rpc_handler iface in
      ifaces-Scanned text all_ifaces ifaces _ _ file member.1 (
        round-Scanned text all_ifaces iface seen ss (is_empty name || is_seen name seen) file
          member.0 (or-false (is_empty name) (is_seen name seen)) k)

  files-Scanned :
      (files : List (Text × List Text)) (seen : List Text) (ss : List ServiceInfo)
      → All (λ file. Among file all_files) files
      → Scanned seen ss
      → Unique (scan_files has_handle files seen ss)
        × All (IsService has_handle all_files) (scan_files has_handle files seen ss)
  unfolding scan_files
  files-Scanned [] seen ss among k = (k.unique, k.proper)
  files-Scanned ((text, ifaces) ∷ files) seen ss among k =
      files-Scanned files _ _ among.1
        (ifaces-Scanned text ifaces ifaces seen ss among.0 (All-Among ifaces) k)

-- Whatever the files, no two of the services that are found have the same name; each has its interface
-- and its dispatch function in one of the files, its name is the interface without "RPCHandler" at its
-- end, and its function, struct and variable are named Handle-name-RPC, name-Server and, with a small
-- first letter, name-Server.
pub scan_services_lem :
    (has_handle : Text → Text → Bool) (files : List (Text × List Text))
    → Unique (scan_services has_handle files)
      × All (IsService has_handle files) (scan_services has_handle files)
unfolding scan_services
scan_services_lem has_handle files =
    files-Scanned has_handle files files [] [] (All-Among files)
      (record { unique = tt; known = tt; proper = tt })
