-- ===== src/Swap/Contract.antt =====
-- The contract of a swap: `AtomicSwapContract` and `ExtractAtomicSwapData` of atomicswap.cpp,
-- `ISAtomicSwap` and the scripts that pay to a script hash of script.cpp, and the locktime that a refund
-- takes from a contract. An address is the 20 bytes of its hash.
pub mod Layout
pub mod Accepted
pub mod ScriptHash
pub mod Agrees
use cross_chain.Prelude.{
  ℕ, ◌==◌, ◌+◌, ◌*◌, ◌/◌, ◌%◌, Bool, true, false, Option, none, some, List, [], ◌∷◌, ◌++◌,
  if◌then◌else◌, ◌>>=◌, length, get_elem?, take, drop,
}
use cross_chain.Prelude.Int.{ℤ}
use cross_chain.Swap.Script.{Bytes, push_opcode, push_uint160, push_vector, push_int64}

-- `AtomicSwapContract`; `none` is the exception of a pushed opcode.
unfoldable pub atomic_swap_contract : (ℤ → Bytes) → (me them : Bytes) → ℤ → Bytes → Option Bytes
atomic_swap_contract bn2mpi me them lock_time sec_hash = do
  c ← push_opcode 0x63 []
  c ← push_opcode 0xa6 c
  let c = push_vector sec_hash c
  c ← push_opcode 0x88 c
  c ← push_opcode 0x76 c
  c ← push_opcode 0xa9 c
  let c = push_uint160 them c
  c ← push_opcode 0x67 c
  let c = push_int64 bn2mpi lock_time c
  c ← push_opcode 0xb1 c
  c ← push_opcode 0x75 c
  c ← push_opcode 0x76 c
  c ← push_opcode 0xa9 c
  let c = push_uint160 me c
  c ← push_opcode 0x68 c
  c ← push_opcode 0x88 c
  push_opcode 0xac c

-- `b == v && rest`, of the byte that `at` returns; `none` is its exception.
abbrev pub check : Option ℕ → ℕ → Option Bool → Option Bool
check none v rest = none
check (some b) v rest = if b == v then rest else some false

-- `this->at(i) == v && …`
unfoldable pub all_at : List (ℕ × ℕ) → Bytes → Option Bool
all_at [] s = some true
all_at ((i, v) ∷ checks) s = check (get_elem? s i) v (all_at checks s)

abbrev pub is_atomic_swap_checks : List (ℕ × ℕ)
is_atomic_swap_checks =
    (0, 0x63)
    ∷ (1, 0xa6)
    ∷ (2, 0x14)
    ∷ (23, 0x88)
    ∷ (24, 0x76)
    ∷ (25, 0xa9)
    ∷ (26, 0x14)
    ∷ (47, 0x67)
    ∷ (48, 0x04)
    ∷ (53, 0xb1)
    ∷ (54, 0x75)
    ∷ (55, 0x76)
    ∷ (56, 0xa9)
    ∷ (57, 0x14)
    ∷ (78, 0x68)
    ∷ (79, 0x88)
    ∷ (80, 0xac)
    ∷ []

-- `ISAtomicSwap`
unfoldable pub is_atomic_swap : Bytes → Option Bool
unfolding all_at
is_atomic_swap s = all_at is_atomic_swap_checks s

pub record AtomicSwapData : Type 0 where
  pub sec_hash : Bytes
  pub recipient_pub_key_hash : Bytes
  pub refund_pub_key_hash : Bytes
  pub lock_time : Bytes

-- The bytes from one offset to another.
abbrev pub slice : ℕ → ℕ → Bytes → Bytes
slice start n s = take n (drop start s)

-- `ExtractAtomicSwapData`, which is called on scripts that `ISAtomicSwap` accepts.
unfoldable pub extract_atomic_swap_data : Bytes → AtomicSwapData
extract_atomic_swap_data s = record {
  sec_hash = slice 3 20 s;
  recipient_pub_key_hash = slice 27 20 s;
  refund_pub_key_hash = slice 58 20 s;
  lock_time = slice 49 4 s;
}

-- `strtol(HexStr(b), NULL, 16)`
unfoldable pub big_endian : ℕ → Bytes → ℕ
big_endian acc [] = acc
big_endian acc (b ∷ s) = big_endian (acc * 256 + b) s

-- `htonl`, on a machine that stores the least significant byte first.
abbrev pub htonl : ℕ → ℕ
htonl n = n % 256 * 16777216 + n / 256 % 256 * 65536 + n / 65536 % 256 * 256 + n / 16777216 % 256

-- `nLockTime` of a refund.
unfoldable pub refund_lock_time : AtomicSwapData → ℕ
unfolding big_endian
refund_lock_time d = htonl (big_endian 0 d.lock_time)

-- `IsPayToScriptHash`
unfoldable pub is_pay_to_script_hash : Bytes → Option Bool
unfolding all_at
is_pay_to_script_hash s =
    if length s == 23 then all_at ((0, 0xa9) ∷ (1, 0x14) ∷ (22, 0x87) ∷ []) s else some false

-- `CreatePayToScriptHashScript`
unfoldable pub create_pay_to_script_hash_script : Bytes → Option Bytes
unfolding push_opcode push_uint160
create_pay_to_script_hash_script id = do
  s ← push_opcode 0xa9 []
  push_opcode 0x87 (push_uint160 id s)
