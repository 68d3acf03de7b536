-- ===== src/SwapSamples.antt =====
-- Small scripts and contracts on which the theorems about the atomic swap client apply.
use cross_chain.Prelude.{
  ℕ, ◌≡◌, ◌↔◌, refl, ◌/◌, ◌%◌, true, some, [], ◌∷◌, ◌++◌, length, drop, arith, map,
}
use cross_chain.Prelude.Int.{ℤ, pos, negsuc}
use cross_chain.Swap.Script.{Bytes, push_vector, get_op}
use cross_chain.Swap.Script.Ops.{get_op-push_vector}
use cross_chain.Swap.Contract.{
  is_atomic_swap, all_at, extract_atomic_swap_data, atomic_swap_contract, refund_lock_time,
}
use cross_chain.Swap.Contract.Layout.{layout, is_atomic_swap_only}
use cross_chain.Swap.Contract.Agrees.{
  IsLockTime, WritesMpi, fields, contract_round_trip, contract_accepted_iff,
}
use cross_chain.Swap.Hex.{hex_str, parse_hex}
use cross_chain.Swap.Hex.RoundTrip.{parse_hex-hex_str}
use cross_chain.Swap.Spend.{redeem_sig, to_string, instruction}
use cross_chain.Swap.Spend.Signature.{push_of, to_string-redeem_sig}

abbrev bytes20 : ℕ → Bytes
bytes20 b = b ∷ b ∷ b ∷ b ∷ b ∷ b ∷ b ∷ b ∷ b ∷ b ∷ b ∷ b ∷ b ∷ b ∷ b ∷ b ∷ b ∷ b ∷ b ∷ b ∷ []

-- The documented format, at the numbers of four bytes.
abbrev mpi4 : ℤ → Bytes
mpi4 (pos t) = 0 ∷ 0 ∷ 0 ∷ 4 ∷ t / 16777216 % 256 ∷ t / 65536 % 256 ∷ t / 256 % 256 ∷ t % 256 ∷ []
mpi4 (negsuc t) = []

mpi4-WritesMpi : WritesMpi mpi4
mpi4-WritesMpi t h = refl

-- 26 November 2026
abbrev sample_time : ℕ
sample_time = 1795737600

sample_time-IsLockTime : IsLockTime sample_time
sample_time-IsLockTime = record { above = omega arith; below = omega arith }

get_op-push_vector_example :
    get_op (drop 1 (push_vector (7 ∷ 8 ∷ 9 ∷ []) (0x51 ∷ []) ++ (0xac ∷ [])))
    ≡ some (record { opcode = 3; operand = 7 ∷ 8 ∷ 9 ∷ [] }, 0xac ∷ [])
get_op-push_vector_example =
    get_op-push_vector (0x51 ∷ []) (7 ∷ 8 ∷ 9 ∷ []) (0xac ∷ []) (omega arith)

contract_round_trip_example :
    (c : Bytes) × (atomic_swap_contract mpi4 (bytes20 1) (bytes20 2) (pos sample_time) (bytes20 3)
      ≡ some c)
    × (is_atomic_swap c ≡ some true)
    × (extract_atomic_swap_data c ≡ fields (bytes20 1) (bytes20 2) sample_time (bytes20 3))
    × (refund_lock_time (extract_atomic_swap_data c) ≡ sample_time)
contract_round_trip_example =
    contract_round_trip mpi4 mpi4-WritesMpi sample_time sample_time-IsLockTime (bytes20 1)
      (bytes20 2) (bytes20 3) refl refl refl

contract_accepted_iff_example :
    (c : Bytes) × (atomic_swap_contract mpi4 (bytes20 1) (bytes20 2) (pos sample_time) (3 ∷ [])
      ≡ some c)
    × ((is_atomic_swap c ≡ some true) ↔ (length {A = ℕ} (3 ∷ []) ≡ 20))
contract_accepted_iff_example =
    contract_accepted_iff mpi4 mpi4-WritesMpi sample_time sample_time-IsLockTime (bytes20 1)
      (bytes20 2) (3 ∷ []) refl refl

abbrev sample_contract : Bytes
sample_contract =
    0x63 ∷ 0xa6 ∷ 0x14 ∷ bytes20 3
    ++ (0x88 ∷ 0x76 ∷ 0xa9 ∷ 0x14 ∷ bytes20 2
        ++ (0x67 ∷ 0x04 ∷ 0 ∷ 0 ∷ 0 ∷ 0x6a ∷ 0xb1 ∷ 0x75 ∷ 0x76 ∷ 0xa9 ∷ 0x14 ∷ bytes20 1
            ++ (0x68 ∷ 0x88 ∷ 0xac ∷ [])))

is_atomic_swap_only_example :
    sample_contract ≡ layout (extract_atomic_swap_data sample_contract) (drop 81 sample_contract)
unfolding is_atomic_swap all_at
is_atomic_swap_only_example = is_atomic_swap_only sample_contract refl

parse_hex-hex_str_example : parse_hex (hex_str (0xca ∷ 0xfe ∷ [])) ≡ 0xca ∷ 0xfe ∷ []
parse_hex-hex_str_example = parse_hex-hex_str (0xca ∷ 0xfe ∷ []) (omega arith, (omega arith, tt))

to_string-redeem_sig_example :
    (s : Bytes) × (redeem_sig (7 ∷ []) (2 ∷ 3 ∷ []) (5 ∷ []) sample_contract ≡ some s)
    × (to_string s
        ≡ some (
            map instruction (
              push_of (7 ∷ [])
              ∷ push_of (2 ∷ 3 ∷ [])
              ∷ push_of (5 ∷ [])
              ∷ record { opcode = 0x51; operand = [] }
              ∷ push_of sample_contract
              ∷ [])))
to_string-redeem_sig_example =
    to_string-redeem_sig (7 ∷ []) (2 ∷ 3 ∷ []) sample_contract (omega arith) (omega arith)
      (omega arith) (5 ∷ []) (omega arith)
