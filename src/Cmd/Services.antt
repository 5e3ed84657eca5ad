-- ===== src/Cmd/Services.antt =====
-- The scan for services and hot methods, cmd/godash/wiring_gen.go: `scanServices` and
-- `scanHotMethods`. Matching is the runtime's: a file is its text with the interface names that
-- `ifaceRe` finds, or with the pairs of a method and an interface that `hotFuncRe` finds.
pub mod Distinct
pub mod Order
pub mod Tests
use godash.Common.{
  ℕ, ◌+◌, ◌≡◌, Bool, true, false, not, ◌&&◌, ◌||◌, Option, none, some, List, [], ◌∷◌, ◌++◌,
  if◌then◌else◌, ltb, ◌==◌,
}
use godash.Cmd.Names.{Text, lower_first}

-- `a == b` of strings.
unfoldable pub same_text : Text → Text → Bool
same_text [] [] = true
same_text [] (c ∷ cs) = false
same_text (b ∷ bs) [] = false
same_text (b ∷ bs) (c ∷ cs) = (b == c) && same_text bs cs

-- `a < b` of strings, byte by byte.
pub less_text : Text → Text → Bool
less_text [] [] = false
less_text [] (c ∷ cs) = true
less_text (b ∷ bs) [] = false
less_text (b ∷ bs) (c ∷ cs) = ltb b c || ((b == c) && less_text bs cs)

-- `seen[name]`
pub is_seen : Text → List Text → Bool
is_seen name [] = false
is_seen name (x ∷ xs) = same_text x name || is_seen name xs

-- `"RPCHandler"`
abbrev pub rpc_handler : Text
rpc_handler = 82 ∷ 80 ∷ 67 ∷ 72 ∷ 97 ∷ 110 ∷ 100 ∷ 108 ∷ 101 ∷ 114 ∷ []

-- `strings.TrimSuffix`
pub trim_suffix : Text → Text → Text
trim_suffix suffix [] = []
trim_suffix suffix (b ∷ bs) =
    let rest = trim_suffix suffix bs in if same_text (b ∷ bs) suffix then [] else b ∷ rest

-- `serviceInfo`
pub record ServiceInfo : Type 0 where
  pub name : Text
  pub handle_func : Text
  pub handler_iface : Text
  pub server_struct : Text
  pub server_var : Text

-- `"Server"`
abbrev pub server : Text
server = 83 ∷ 101 ∷ 114 ∷ 118 ∷ 101 ∷ 114 ∷ []

-- The names by convention.
pub service : Text → Text → ServiceInfo
service name iface = record {
  name = name;
  handle_func = (72 ∷ 97 ∷ 110 ∷ 100 ∷ 108 ∷ 101 ∷ []) ++ name ++ 82 ∷ 80 ∷ 67 ∷ [];
  handler_iface = iface;
  server_struct = name ++ server;
  server_var = lower_first name ++ server;
}

abbrev pub is_empty : Text → Bool
is_empty [] = true
is_empty (b ∷ bs) = false

-- `has_handle name text` is whether `handleRe` matches.
module _ (has_handle : Text → Text → Bool) where
  -- The inner loop, over the interfaces of one file: the names seen and the services after it.
  pub scan_ifaces : Text → List Text → List Text → List ServiceInfo → List Text × List ServiceInfo
  scan_ifaces text [] seen services = (seen, services)
  scan_ifaces text (iface ∷ ifaces) seen services =
      let name = trim_suffix rpc_handler iface in
      let skipped = is_empty name || is_seen name seen in
      scan_ifaces text ifaces (if skipped then seen else name ∷ seen) (
        if skipped
        then services
        else if has_handle name text
        then services ++ service name iface ∷ []
        else services)

  pub scan_files : List (Text × List Text) → List Text → List ServiceInfo → List ServiceInfo
  scan_files [] seen services = services
  scan_files ((text, ifaces) ∷ files) seen services =
      let (seen', services') = scan_ifaces text ifaces seen services in
      scan_files files seen' services'

  -- `scanServices` of the files that could be read.
  pub scan_services : List (Text × List Text) → List ServiceInfo
  scan_services files = scan_files files [] []

-- `hotInfo`
pub record HotInfo : Type 0 where
  pub name : Text
  pub server_var : Text

-- `byIface[iface]`, where the last service of an interface stays.
pub by_iface : List ServiceInfo → Text → Option ServiceInfo
by_iface [] iface = none
by_iface (s ∷ services) iface = elim (by_iface services iface) [
  | some t ↦ some t
  | none ↦ if same_text s.handler_iface iface then some s else none
]

-- The loops over the files and their matches.
pub scan_hot : List ServiceInfo → List (Text × Text) → List Text → List HotInfo → List HotInfo
scan_hot services [] seen out = out
scan_hot services ((name, iface) ∷ matches) seen out =
    let found = if is_seen name seen then none else by_iface services iface in
    scan_hot services matches (elim found [ none ↦ seen | some s ↦ name ∷ seen ])
      (elim found [
        | none ↦ out
        | some s ↦ out ++ record { name = name; server_var = s.server_var } ∷ []
      ])

-- `sort.Slice` by name. The names are distinct, so that its order of equal ones does not matter.
pub insert_hot : HotInfo → List HotInfo → List HotInfo
insert_hot h [] = h ∷ []
insert_hot h (g ∷ gs) =
    let rest = insert_hot h gs in if less_text h.name g.name then h ∷ g ∷ gs else g ∷ rest

pub sort_hot : List HotInfo → List HotInfo
sort_hot [] = []
sort_hot (h ∷ hs) = insert_hot h (sort_hot hs)

-- `scanHotMethods`, of the matches in all files.
pub scan_hot_methods : List ServiceInfo → List (Text × Text) → List HotInfo
scan_hot_methods services matches = sort_hot (scan_hot services matches [] [])
