-- ===== src/Cmd/Services/Tests.antt =====
-- A scan of two files.
use godash.Common.{true, Bool, List, [], ◌∷◌, ◌++◌, All}
use godash.Cmd.Names.{Text}
use godash.Cmd.Services.{rpc_handler, scan_services, scan_hot_methods, service}
use godash.Cmd.Services.Distinct.{Unique, IsService, scan_services_lem}
use godash.Cmd.Services.Order.{Ascending, IsHot, scan_hot_methods_lem}

-- `EcRPCHandler` twice, and `FRPCHandler`.
abbrev files : List (Text × List Text)
files =
    ([], ((69 ∷ 99 ∷ []) ++ rpc_handler) ∷ [])
    ∷ ([], ((70 ∷ []) ++ rpc_handler) ∷ ((69 ∷ 99 ∷ []) ++ rpc_handler) ∷ [])
    ∷ []

abbrev has_all : Text → Text → Bool
has_all name text = true

abbrev hot_matches : List (Text × Text)
hot_matches = (98 ∷ [], rpc_handler) ∷ (97 ∷ [], rpc_handler) ∷ (98 ∷ [], rpc_handler) ∷ []

scan_services_lem_example :
    Unique (scan_services has_all files)
    × All (IsService has_all files) (scan_services has_all files)
scan_services_lem_example = scan_services_lem has_all files

scan_hot_methods_lem_example :
    Ascending (scan_hot_methods (service (69 ∷ []) rpc_handler ∷ []) hot_matches)
    × All
        (IsHot (service (69 ∷ []) rpc_handler ∷ []) hot_matches)
        (scan_hot_methods (service (69 ∷ []) rpc_handler ∷ []) hot_matches)
scan_hot_methods_lem_example = scan_hot_methods_lem (service (69 ∷ []) rpc_handler ∷ []) hot_matches
