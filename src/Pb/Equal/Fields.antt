-- ===== src/Pb/Equal/Fields.antt =====
-- `EqualVT` of the inner messages of pb/core_lite.go decides whether they are the same.
use godash.Common.{
  ◌≡◌, refl, ap₂, Bool, true, false, not, ◌&&◌, [], ◌∷◌, if◌then◌else◌, ◌==◌, ==→eq, ==-refl,
}
use godash.Pb.Runtime.{Bytes}
use godash.Pb.Messages.{Error, Cancel, Done, Init, ReverseResponse, RpcRequest, RpcResponse, Push}
use godash.Pb.Equal.{
  equal_bytes, equal_error, equal_cancel, equal_done, equal_init, equal_reverse_response,
  equal_rpc_request, equal_rpc_response, equal_push,
}

pub guard-true :
    (c rest : Bool) → (if not c then false else rest) ≡ true → (c ≡ true) × (rest ≡ true)
guard-true true rest e = (refl, e)
guard-true false rest e = cc

and_both : (a b : Bool) → (a && b) ≡ true → (a ≡ true) × (b ≡ true)
and_both true b e = (refl, e)
and_both false b e = cc

pub equal_bytes_refl : (a : Bytes) → equal_bytes a a ≡ true
unfolding equal_bytes
equal_bytes_refl [] = refl
equal_bytes_refl (b ∷ bs) = rw (==-refl b) (equal_bytes_refl bs)

pub equal_bytes→eq : (a b : Bytes) → equal_bytes a b ≡ true → a ≡ b
unfolding equal_bytes
equal_bytes→eq [] [] e = refl
equal_bytes→eq [] (c ∷ cs) e = cc
equal_bytes→eq (b ∷ bs) [] e = cc
equal_bytes→eq (b ∷ bs) (c ∷ cs) e =
    let (heads, tails) = and_both (b == c) (equal_bytes bs cs) e in
    ap₂ (λ x xs. x ∷ xs) (==→eq b c heads) (equal_bytes→eq bs cs tails)

pub equal_error_refl : (m : Error) → equal_error m m ≡ true
unfolding equal_error
equal_error_refl m =
    rw (equal_error, ==-refl m.code, equal_bytes_refl m.message, equal_bytes_refl m.unknown_fields)
      refl

pub equal_error→eq : (a b : Error) → equal_error a b ≡ true → a ≡ b
unfolding equal_error
equal_error→eq a b e0 =
    let (h1, e1) = guard-true (a.code == b.code) _ e0 in
    let p1 : a.code ≡ b.code = ==→eq a.code b.code h1 in
    let (h2, e2) = guard-true (equal_bytes a.message b.message) _ e1 in
    let p2 : a.message ≡ b.message = equal_bytes→eq a.message b.message h2 in
    let p0 : a.unknown_fields ≡ b.unknown_fields =
      equal_bytes→eq a.unknown_fields b.unknown_fields e2 in
    λ i. record { unknown_fields = p0 i; code = p1 i; message = p2 i }

pub equal_cancel_refl : (m : Cancel) → equal_cancel m m ≡ true
unfolding equal_cancel
equal_cancel_refl m =
    rw
      (
        equal_cancel,
        ==-refl m.code,
        equal_bytes_refl m.message,
        ==-refl m.port,
        equal_bytes_refl m.unknown_fields,
      )
      refl

pub equal_cancel→eq : (a b : Cancel) → equal_cancel a b ≡ true → a ≡ b
unfolding equal_cancel
equal_cancel→eq a b e0 =
    let (h1, e1) = guard-true (a.code == b.code) _ e0 in
    let p1 : a.code ≡ b.code = ==→eq a.code b.code h1 in
    let (h2, e2) = guard-true (equal_bytes a.message b.message) _ e1 in
    let p2 : a.message ≡ b.message = equal_bytes→eq a.message b.message h2 in
    let (h3, e3) = guard-true (a.port == b.port) _ e2 in
    let p3 : a.port ≡ b.port = ==→eq a.port b.port h3 in
    let p0 : a.unknown_fields ≡ b.unknown_fields =
      equal_bytes→eq a.unknown_fields b.unknown_fields e3 in
    λ i. record { unknown_fields = p0 i; code = p1 i; message = p2 i; port = p3 i }

pub equal_done_refl : (m : Done) → equal_done m m ≡ true
unfolding equal_done
equal_done_refl m =
    rw (equal_done, ==-refl m.code, equal_bytes_refl m.message, equal_bytes_refl m.unknown_fields)
      refl

pub equal_done→eq : (a b : Done) → equal_done a b ≡ true → a ≡ b
unfolding equal_done
equal_done→eq a b e0 =
    let (h1, e1) = guard-true (a.code == b.code) _ e0 in
    let p1 : a.code ≡ b.code = ==→eq a.code b.code h1 in
    let (h2, e2) = guard-true (equal_bytes a.message b.message) _ e1 in
    let p2 : a.message ≡ b.message = equal_bytes→eq a.message b.message h2 in
    let p0 : a.unknown_fields ≡ b.unknown_fields =
      equal_bytes→eq a.unknown_fields b.unknown_fields e2 in
    λ i. record { unknown_fields = p0 i; code = p1 i; message = p2 i }

pub equal_init_refl : (m : Init) → equal_init m m ≡ true
unfolding equal_init
equal_init_refl m =
    rw
      (
        equal_init,
        ==-refl m.push_port,
        equal_bytes_refl m.temp_dir,
        equal_bytes_refl m.support_dir,
        equal_bytes_refl m.documents_dir,
        equal_bytes_refl m.app_encryption_key,
        equal_bytes_refl m.unknown_fields,
      )
      refl

pub equal_init→eq : (a b : Init) → equal_init a b ≡ true → a ≡ b
unfolding equal_init
equal_init→eq a b e0 =
    let (h1, e1) = guard-true (a.push_port == b.push_port) _ e0 in
    let p1 : a.push_port ≡ b.push_port = ==→eq a.push_port b.push_port h1 in
    let (h2, e2) = guard-true (equal_bytes a.temp_dir b.temp_dir) _ e1 in
    let p2 : a.temp_dir ≡ b.temp_dir = equal_bytes→eq a.temp_dir b.temp_dir h2 in
    let (h3, e3) = guard-true (equal_bytes a.support_dir b.support_dir) _ e2 in
    let p3 : a.support_dir ≡ b.support_dir = equal_bytes→eq a.support_dir b.support_dir h3 in
    let (h4, e4) = guard-true (equal_bytes a.documents_dir b.documents_dir) _ e3 in
    let p4 : a.documents_dir ≡ b.documents_dir =
      equal_bytes→eq a.documents_dir b.documents_dir h4 in
    let (h5, e5) = guard-true (equal_bytes a.app_encryption_key b.app_encryption_key) _ e4 in
    let p5 : a.app_encryption_key ≡ b.app_encryption_key =
      equal_bytes→eq a.app_encryption_key b.app_encryption_key h5 in
    let p0 : a.unknown_fields ≡ b.unknown_fields =
      equal_bytes→eq a.unknown_fields b.unknown_fields e5 in
    λ i. record {
      unknown_fields = p0 i;
      push_port = p1 i;
      temp_dir = p2 i;
      support_dir = p3 i;
      documents_dir = p4 i;
      app_encryption_key = p5 i;
    }

pub equal_reverse_response_refl : (m : ReverseResponse) → equal_reverse_response m m ≡ true
unfolding equal_reverse_response
equal_reverse_response_refl m =
    rw
      (
        equal_reverse_response,
        ==-refl m.reverse_port,
        equal_bytes_refl m.payload,
        equal_bytes_refl m.unknown_fields,
      )
      refl

pub equal_reverse_response→eq : (a b : ReverseResponse) → equal_reverse_response a b ≡ true → a ≡ b
unfolding equal_reverse_response
equal_reverse_response→eq a b e0 =
    let (h1, e1) = guard-true (a.reverse_port == b.reverse_port) _ e0 in
    let p1 : a.reverse_port ≡ b.reverse_port = ==→eq a.reverse_port b.reverse_port h1 in
    let (h2, e2) = guard-true (equal_bytes a.payload b.payload) _ e1 in
    let p2 : a.payload ≡ b.payload = equal_bytes→eq a.payload b.payload h2 in
    let p0 : a.unknown_fields ≡ b.unknown_fields =
      equal_bytes→eq a.unknown_fields b.unknown_fields e2 in
    λ i. record { unknown_fields = p0 i; reverse_port = p1 i; payload = p2 i }

pub equal_rpc_request_refl : (m : RpcRequest) → equal_rpc_request m m ≡ true
unfolding equal_rpc_request
equal_rpc_request_refl m =
    rw
      (
        equal_rpc_request,
        equal_bytes_refl m.path,
        equal_bytes_refl m.payload,
        equal_bytes_refl m.unknown_fields,
      )
      refl

pub equal_rpc_request→eq : (a b : RpcRequest) → equal_rpc_request a b ≡ true → a ≡ b
unfolding equal_rpc_request
equal_rpc_request→eq a b e0 =
    let (h1, e1) = guard-true (equal_bytes a.path b.path) _ e0 in
    let p1 : a.path ≡ b.path = equal_bytes→eq a.path b.path h1 in
    let (h2, e2) = guard-true (equal_bytes a.payload b.payload) _ e1 in
    let p2 : a.payload ≡ b.payload = equal_bytes→eq a.payload b.payload h2 in
    let p0 : a.unknown_fields ≡ b.unknown_fields =
      equal_bytes→eq a.unknown_fields b.unknown_fields e2 in
    λ i. record { unknown_fields = p0 i; path = p1 i; payload = p2 i }

pub equal_rpc_response_refl : (m : RpcResponse) → equal_rpc_response m m ≡ true
unfolding equal_rpc_response
equal_rpc_response_refl m =
    rw (equal_rpc_response, equal_bytes_refl m.payload, equal_bytes_refl m.unknown_fields) refl

pub equal_rpc_response→eq : (a b : RpcResponse) → equal_rpc_response a b ≡ true → a ≡ b
unfolding equal_rpc_response
equal_rpc_response→eq a b e0 =
    let (h1, e1) = guard-true (equal_bytes a.payload b.payload) _ e0 in
    let p1 : a.payload ≡ b.payload = equal_bytes→eq a.payload b.payload h1 in
    let p0 : a.unknown_fields ≡ b.unknown_fields =
      equal_bytes→eq a.unknown_fields b.unknown_fields e1 in
    λ i. record { unknown_fields = p0 i; payload = p1 i }

pub equal_push_refl : (m : Push) → equal_push m m ≡ true
unfolding equal_push
equal_push_refl m =
    rw
      (
        equal_push,
        equal_bytes_refl m.type,
        equal_bytes_refl m.payload,
        ==-refl m.reverse_port,
        equal_bytes_refl m.unknown_fields,
      )
      refl

pub equal_push→eq : (a b : Push) → equal_push a b ≡ true → a ≡ b
unfolding equal_push
equal_push→eq a b e0 =
    let (h1, e1) = guard-true (equal_bytes a.type b.type) _ e0 in
    let p1 : a.type ≡ b.type = equal_bytes→eq a.type b.type h1 in
    let (h2, e2) = guard-true (equal_bytes a.payload b.payload) _ e1 in
    let p2 : a.payload ≡ b.payload = equal_bytes→eq a.payload b.payload h2 in
    let (h3, e3) = guard-true (a.reverse_port == b.reverse_port) _ e2 in
    let p3 : a.reverse_port ≡ b.reverse_port = ==→eq a.reverse_port b.reverse_port h3 in
    let p0 : a.unknown_fields ≡ b.unknown_fields =
      equal_bytes→eq a.unknown_fields b.unknown_fields e3 in
    λ i. record { unknown_fields = p0 i; type = p1 i; payload = p2 i; reverse_port = p3 i }
