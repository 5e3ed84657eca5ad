-- ===== src/Pb/Equal/Laws.antt =====
-- `EqualVT` of pb/core_lite.go decides whether two messages are the same.
use godash.Common.{◌≡◌, refl, ap, subst, ◌↔◌, true, ◌==◌, ==→eq, ==-refl}
use godash.Pb.Messages.{Requests, Request, Responses, Response}
use godash.Pb.Equal.{equal_requests, equal_request, equal_responses, equal_response}
use godash.Pb.Equal.Fields.{
  guard-true, equal_bytes_refl, equal_bytes→eq, equal_error_refl, equal_error→eq, equal_cancel_refl,
  equal_cancel→eq, equal_done_refl, equal_done→eq, equal_init_refl, equal_init→eq,
  equal_reverse_response_refl, equal_reverse_response→eq, equal_rpc_request_refl,
  equal_rpc_request→eq, equal_rpc_response_refl, equal_rpc_response→eq, equal_push_refl,
  equal_push→eq,
}

equal_requests_refl : (o : Requests) → equal_requests o o ≡ true
unfolding equal_requests
equal_requests_refl Requests.unset = refl
equal_requests_refl (Requests.init x) = equal_init_refl x
equal_requests_refl (Requests.cancel x) = equal_cancel_refl x
equal_requests_refl (Requests.rpc_request x) = equal_rpc_request_refl x
equal_requests_refl (Requests.reverse_response x) = equal_reverse_response_refl x

equal_requests→eq : (a b : Requests) → equal_requests a b ≡ true → a ≡ b
unfolding equal_requests
equal_requests→eq Requests.unset Requests.unset e = refl
equal_requests→eq (Requests.init x) (Requests.init y) e =
    ap (λ z. Requests.init z) (equal_init→eq x y e)
equal_requests→eq (Requests.cancel x) (Requests.cancel y) e =
    ap (λ z. Requests.cancel z) (equal_cancel→eq x y e)
equal_requests→eq (Requests.rpc_request x) (Requests.rpc_request y) e =
    ap (λ z. Requests.rpc_request z) (equal_rpc_request→eq x y e)
equal_requests→eq (Requests.reverse_response x) (Requests.reverse_response y) e =
    ap (λ z. Requests.reverse_response z) (equal_reverse_response→eq x y e)
equal_requests→eq Requests.unset (Requests.init y) e = cc
equal_requests→eq Requests.unset (Requests.cancel y) e = cc
equal_requests→eq Requests.unset (Requests.rpc_request y) e = cc
equal_requests→eq Requests.unset (Requests.reverse_response y) e = cc
equal_requests→eq (Requests.init x) Requests.unset e = cc
equal_requests→eq (Requests.init x) (Requests.cancel y) e = cc
equal_requests→eq (Requests.init x) (Requests.rpc_request y) e = cc
equal_requests→eq (Requests.init x) (Requests.reverse_response y) e = cc
equal_requests→eq (Requests.cancel x) Requests.unset e = cc
equal_requests→eq (Requests.cancel x) (Requests.init y) e = cc
equal_requests→eq (Requests.cancel x) (Requests.rpc_request y) e = cc
equal_requests→eq (Requests.cancel x) (Requests.reverse_response y) e = cc
equal_requests→eq (Requests.rpc_request x) Requests.unset e = cc
equal_requests→eq (Requests.rpc_request x) (Requests.init y) e = cc
equal_requests→eq (Requests.rpc_request x) (Requests.cancel y) e = cc
equal_requests→eq (Requests.rpc_request x) (Requests.reverse_response y) e = cc
equal_requests→eq (Requests.reverse_response x) Requests.unset e = cc
equal_requests→eq (Requests.reverse_response x) (Requests.init y) e = cc
equal_requests→eq (Requests.reverse_response x) (Requests.cancel y) e = cc
equal_requests→eq (Requests.reverse_response x) (Requests.rpc_request y) e = cc

equal_request_refl : (m : Request) → equal_request m m ≡ true
unfolding equal_request
equal_request_refl m =
    rw
      (
        equal_request,
        equal_requests_refl m.requests,
        ==-refl m.port,
        equal_bytes_refl m.unknown_fields,
      )
      refl

equal_request→eq : (a b : Request) → equal_request a b ≡ true → a ≡ b
unfolding equal_request
equal_request→eq a b e0 =
    let (h1, e1) = guard-true (equal_requests a.requests b.requests) _ e0 in
    let p1 : a.requests ≡ b.requests = equal_requests→eq a.requests b.requests h1 in
    let (h2, e2) = guard-true (a.port == b.port) _ e1 in
    let p2 : a.port ≡ b.port = ==→eq a.port b.port h2 in
    let p0 : a.unknown_fields ≡ b.unknown_fields =
      equal_bytes→eq a.unknown_fields b.unknown_fields e2 in
    λ i. record { unknown_fields = p0 i; requests = p1 i; port = p2 i }

equal_responses_refl : (o : Responses) → equal_responses o o ≡ true
unfolding equal_responses
equal_responses_refl Responses.unset = refl
equal_responses_refl (Responses.error x) = equal_error_refl x
equal_responses_refl (Responses.done x) = equal_done_refl x
equal_responses_refl (Responses.push x) = equal_push_refl x
equal_responses_refl (Responses.rpc_response x) = equal_rpc_response_refl x

equal_responses→eq : (a b : Responses) → equal_responses a b ≡ true → a ≡ b
unfolding equal_responses
equal_responses→eq Responses.unset Responses.unset e = refl
equal_responses→eq (Responses.error x) (Responses.error y) e =
    ap (λ z. Responses.error z) (equal_error→eq x y e)
equal_responses→eq (Responses.done x) (Responses.done y) e =
    ap (λ z. Responses.done z) (equal_done→eq x y e)
equal_responses→eq (Responses.push x) (Responses.push y) e =
    ap (λ z. Responses.push z) (equal_push→eq x y e)
equal_responses→eq (Responses.rpc_response x) (Responses.rpc_response y) e =
    ap (λ z. Responses.rpc_response z) (equal_rpc_response→eq x y e)
equal_responses→eq Responses.unset (Responses.error y) e = cc
equal_responses→eq Responses.unset (Responses.done y) e = cc
equal_responses→eq Responses.unset (Responses.push y) e = cc
equal_responses→eq Responses.unset (Responses.rpc_response y) e = cc
equal_responses→eq (Responses.error x) Responses.unset e = cc
equal_responses→eq (Responses.error x) (Responses.done y) e = cc
equal_responses→eq (Responses.error x) (Responses.push y) e = cc
equal_responses→eq (Responses.error x) (Responses.rpc_response y) e = cc
equal_responses→eq (Responses.done x) Responses.unset e = cc
equal_responses→eq (Responses.done x) (Responses.error y) e = cc
equal_responses→eq (Responses.done x) (Responses.push y) e = cc
equal_responses→eq (Responses.done x) (Responses.rpc_response y) e = cc
equal_responses→eq (Responses.push x) Responses.unset e = cc
equal_responses→eq (Responses.push x) (Responses.error y) e = cc
equal_responses→eq (Responses.push x) (Responses.done y) e = cc
equal_responses→eq (Responses.push x) (Responses.rpc_response y) e = cc
equal_responses→eq (Responses.rpc_response x) Responses.unset e = cc
equal_responses→eq (Responses.rpc_response x) (Responses.error y) e = cc
equal_responses→eq (Responses.rpc_response x) (Responses.done y) e = cc
equal_responses→eq (Responses.rpc_response x) (Responses.push y) e = cc

equal_response_refl : (m : Response) → equal_response m m ≡ true
unfolding equal_response
equal_response_refl m =
    rw (equal_response, equal_responses_refl m.responses, equal_bytes_refl m.unknown_fields) refl

equal_response→eq : (a b : Response) → equal_response a b ≡ true → a ≡ b
unfolding equal_response
equal_response→eq a b e0 =
    let (h1, e1) = guard-true (equal_responses a.responses b.responses) _ e0 in
    let p1 : a.responses ≡ b.responses = equal_responses→eq a.responses b.responses h1 in
    let p0 : a.unknown_fields ≡ b.unknown_fields =
      equal_bytes→eq a.unknown_fields b.unknown_fields e1 in
    λ i. record { unknown_fields = p0 i; responses = p1 i }

-- `EqualVT` of two requests is true if and only if they are the same in their oneof, their port and
-- their unknown fields, and so it is for two responses.
pub equal_lem :
    (a b : Request) (c d : Response)
    → ((equal_request a b ≡ true) ↔ (a ≡ b)) × ((equal_response c d ≡ true) ↔ (c ≡ d))
equal_lem a b c d = (
  (equal_request→eq a b, λ e. subst (λ x. equal_request a x ≡ true) e (equal_request_refl a)),
  (equal_response→eq c d, λ e. subst (λ x. equal_response c x ≡ true) e (equal_response_refl c)),
)
