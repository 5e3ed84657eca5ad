-- ===== src/HotLayout/Methods.antt =====
-- The hot methods that the two code generators find: `collectHotMethods` of
-- cmd/protoc-gen-go-godash/main.go and `hotMethodsFor` of cmd/protoc-gen-dart-godash/main.go. A native
-- call works only if both find the same methods with the same layouts.
use godash.Common.{
  ◌≡◌, refl, sym, ap, ◌∙◌, Bool, true, false, not, ◌||◌, List, [], ◌∷◌, ◌++◌, map, append-nil,
  append_assoc, if◌then◌else◌,
}
use godash.HotLayout.{FieldDescriptor, Layout, Result, ok, err, compute}

-- What the generators read of a method, whose name is of any type.
pub record Method {ℓ} (Name : Type ℓ) : Type ℓ where
  pub name : Name
  pub client_streaming : Bool
  pub server_streaming : Bool
  pub hot : Bool
  pub input : List FieldDescriptor
  pub output : List FieldDescriptor

-- `hotMethod` of the Dart generator.
pub record HotMethod {ℓ} (Name : Type ℓ) : Type ℓ where
  pub method : Method Name
  pub req : Layout
  pub resp : Layout

-- `hotMethod` of the Go generator.
pub record ServiceMethod {ℓ} (Name : Type ℓ) : Type ℓ where
  pub service : Name
  pub hot_method : HotMethod Name

module _ {ℓ} {Name : Type ℓ} where
  -- A method that the loops do not pass over, with the list it is appended to.
  abbrev pub packed : Method Name → List (HotMethod Name) → List (HotMethod Name)
  packed m out = elim (compute m.input) [
    | err e ↦ out
    | ok req ↦ elim (compute m.output) [
      | err e ↦ out
      | ok resp ↦ out ++ record { method = m; req = req; resp = resp } ∷ []
    ]
  ]

  -- `hotMethodsFor`
  pub dart_methods : List (Method Name) → List (HotMethod Name) → List (HotMethod Name)
  dart_methods [] out = out
  dart_methods (m ∷ methods) out = dart_methods methods (
      if m.client_streaming || m.server_streaming
      then out
      else if not m.hot
      then out
      else packed m out)

  pub hot_methods_for : List (Method Name) → List (HotMethod Name)
  hot_methods_for methods = dart_methods methods []

  -- `append` of the Go generator's loop.
  abbrev pub packed_of : Name → Method Name → List (ServiceMethod Name) → List (ServiceMethod Name)
  packed_of service m out = elim (compute m.input) [
    | err e ↦ out
    | ok req ↦ elim (compute m.output) [
      | err e ↦ out
      | ok resp ↦
          out
          ++ record {
            service = service;
            hot_method = record { method = m; req = req; resp = resp };
          }
            ∷ []
    ]
  ]

  -- The inner loop of `collectHotMethods`.
  pub go_methods : Name → List (Method Name) → List (ServiceMethod Name) → List (ServiceMethod Name)
  go_methods service [] out = out
  go_methods service (m ∷ methods) out = go_methods service methods (
      if m.client_streaming || m.server_streaming
      then out
      else if not m.hot
      then out
      else packed_of service m out)

  -- The outer loop.
  pub collect_from :
      List (Name × List (Method Name)) → List (ServiceMethod Name) → List (ServiceMethod Name)
  collect_from [] out = out
  collect_from ((service, methods) ∷ services) out =
      collect_from services (go_methods service methods out)

  pub collect_hot_methods : List (Name × List (Method Name)) → List (ServiceMethod Name)
  collect_hot_methods services = collect_from services []

  -- What the Dart generator finds, service by service.
  pub dart_all : List (Name × List (Method Name)) → List (HotMethod Name)
  dart_all [] = []
  dart_all ((service, methods) ∷ services) = hot_methods_for methods ++ dart_all services

  abbrev forget : List (ServiceMethod Name) → List (HotMethod Name)
  forget out = map (λ s. s.hot_method) out

  forget-append : (xs ys : List (ServiceMethod Name)) → forget (xs ++ ys) ≡ forget xs ++ forget ys
  forget-append [] ys = refl
  forget-append (x ∷ xs) ys = ap (λ r. x.hot_method ∷ r) (forget-append xs ys)

  forget-packed :
      (service : Name) (m : Method Name) (out : List (ServiceMethod Name))
      → forget (packed_of service m out) ≡ packed m (forget out)
  forget-packed service m out = go (compute m.input) (compute m.output)
    where
      go :
          (a b : Result Layout)
          → forget (elim a [
            | err e ↦ out
            | ok req ↦ elim b [
              | err e ↦ out
              | ok resp ↦
                  out
                  ++ record {
                    service = service;
                    hot_method = record { method = m; req = req; resp = resp };
                  }
                    ∷ []
            ]
          ])
            ≡ elim a [
              | err e ↦ forget out
              | ok req ↦ elim b [
                | err e ↦ forget out
                | ok resp ↦ forget out ++ record { method = m; req = req; resp = resp } ∷ []
              ]
            ]
      go (err e) b = refl
      go (ok req) (err e) = refl
      go (ok req) (ok resp) = forget-append out _

  forget_if :
      (b : Bool) (x y : List (ServiceMethod Name))
      → forget (if b then x else y) ≡ (if b then forget x else forget y)
  forget_if true x y = refl
  forget_if false x y = refl

  forget-go_methods :
      (service : Name) (methods : List (Method Name)) (out : List (ServiceMethod Name))
      → forget (go_methods service methods out) ≡ dart_methods methods (forget out)
  unfolding go_methods dart_methods
  forget-go_methods service [] out = refl
  forget-go_methods service (m ∷ methods) out =
      forget-go_methods service methods _
      ∙ ap (dart_methods methods) (
          forget_if (m.client_streaming || m.server_streaming) _ _
          ∙ ap (λ r. if m.client_streaming || m.server_streaming then forget out else r)
              (forget_if (not m.hot) _ _
                ∙ ap (λ r. if not m.hot then forget out else r) (forget-packed service m out)))

  packed-append :
      (m : Method Name) (out : List (HotMethod Name)) → packed m out ≡ out ++ packed m []
  packed-append m out = go (compute m.input) (compute m.output)
    where
      go :
          (a b : Result Layout)
          → elim a [
            | err e ↦ out
            | ok req ↦ elim b [
              | err e ↦ out
              | ok resp ↦ out ++ record { method = m; req = req; resp = resp } ∷ []
            ]
          ]
            ≡ out ++ elim a [
              | err e ↦ []
              | ok req ↦ elim b [
                | err e ↦ []
                | ok resp ↦ record { method = m; req = req; resp = resp } ∷ []
              ]
            ]
      go (err e) b = sym (append-nil out)
      go (ok req) (err e) = sym (append-nil out)
      go (ok req) (ok resp) = refl

  kept : Method Name → List (HotMethod Name) → List (HotMethod Name)
  kept m out =
      if m.client_streaming || m.server_streaming
      then out
      else if not m.hot
      then out
      else packed m out

  skip_or :
      (b : Bool) (out x y : List (HotMethod Name))
      → x ≡ out ++ y
      → (if b then out else x) ≡ out ++ (if b then [] else y)
  skip_or true out x y e = sym (append-nil out)
  skip_or false out x y e = e

  kept-append : (m : Method Name) (out : List (HotMethod Name)) → kept m out ≡ out ++ kept m []
  unfolding kept
  kept-append m out =
      skip_or (m.client_streaming || m.server_streaming) out _ _
        (skip_or (not m.hot) out _ _ (packed-append m out))

  dart_methods-append :
      (ms : List (Method Name)) (out : List (HotMethod Name))
      → dart_methods ms out ≡ out ++ dart_methods ms []
  unfolding dart_methods kept
  dart_methods-append [] out = sym (append-nil out)
  dart_methods-append (m ∷ ms) out =
      dart_methods-append ms (kept m out)
      ∙ ap (λ r. r ++ dart_methods ms []) (kept-append m out)
      ∙ append_assoc out (kept m []) (dart_methods ms [])
      ∙ ap (λ r. out ++ r) (sym (dart_methods-append ms (kept m [])))

  forget-collect_from :
      (services : List (Name × List (Method Name))) (out : List (ServiceMethod Name))
      → forget (collect_from services out) ≡ forget out ++ dart_all services
  unfolding collect_from dart_all hot_methods_for
  forget-collect_from [] out = sym (append-nil (forget out))
  forget-collect_from ((service, ms) ∷ services) out =
      forget-collect_from services (go_methods service ms out)
      ∙ ap (λ r. r ++ dart_all services)
          (forget-go_methods service ms out ∙ dart_methods-append ms (forget out))
      ∙ append_assoc (forget out) (dart_methods ms []) (dart_all services)

  -- Whatever the services, the Go generator finds the hot methods that the Dart generator finds
  -- service by service, in the same order and with the same layouts.
  pub map-collect_hot_methods :
      (services : List (Name × List (Method Name)))
      → map (λ s. s.hot_method) (collect_hot_methods services) ≡ dart_all services
  unfolding collect_hot_methods
  map-collect_hot_methods services = forget-collect_from services []
