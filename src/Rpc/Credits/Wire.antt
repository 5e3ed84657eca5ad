-- ===== src/Rpc/Credits/Wire.antt =====
-- The layout of a credit grant on the wire, against the encoder of lib/bridge.
use godash.Common.{
  ℕ, zero, suc, ◌/◌, ◌%◌, ◌^◌, ◌<◌, ◌≡◌, ap, ap₂, ◌∙◌, List, [], ◌∷◌, ◌++◌, arith, int_of_int32,
}
use godash.Rpc.Credits.{Flow, credit, receive_flow_credit, little_endian}

-- The `n` low bytes of a number, the lowest first.
pub bytes_of : ℕ → ℕ → List ℕ
bytes_of zero x = []
bytes_of (suc n) x = x % 256 ∷ bytes_of n (x / 256)

-- The payload of a grant: an int64 port, then an int32 number of credits.
pub grant_payload : ℕ → ℕ → List ℕ
grant_payload port credits = bytes_of 8 port ++ bytes_of 4 credits

little_endian-bytes_of_4 : (x : ℕ) → x < 2 ^ 32 → little_endian (bytes_of 4 x) ≡ x
unfolding little_endian bytes_of
little_endian-bytes_of_4 x h = omega (arith, h)

little_endian-bytes_of_8 : (x : ℕ) → x < 2 ^ 64 → little_endian (bytes_of 8 x) ≡ x
unfolding little_endian bytes_of
little_endian-bytes_of_8 x h = omega (arith, h)

int_of_int32_lem : (n : ℕ) → n < 2 ^ 31 → int_of_int32 n ≡ n
int_of_int32_lem n h = ground arith

-- The payload that encodes a port and a non-negative int32 is received as a grant of that many
-- credits to that port.
pub receive_flow_credit_lem :
    (s : Flow) (port n : ℕ)
    → port < 2 ^ 64
    → n < 2 ^ 31
    → receive_flow_credit s (grant_payload port n) ≡ credit s port n
unfolding receive_flow_credit grant_payload bytes_of
receive_flow_credit_lem s port n hp hn =
    ap₂ (credit s) (little_endian-bytes_of_8 port hp)
      (ap int_of_int32 (little_endian-bytes_of_4 n (omega (arith, hn))) ∙ int_of_int32_lem n hn)
