-- ===== src/Swap/Script.antt =====
-- script.h: `CScript` as the list of its bytes, what `<<` appends to it, and `GetOp2`, which reads one
-- instruction. A byte is a number below 256; `unsigned int` has 32 bits and `memcpy` writes the least
-- significant byte first.
pub mod Ops
use cross_chain.Prelude.{
  ℕ, suc, ltb, leb, ◌-◌, ◌+◌, ◌*◌, ◌/◌, ◌%◌, ◌^◌, ◌==◌, ◌<◌, Bool, true, false, Option, none, some,
  List, [], ◌∷◌, ◌++◌, if◌then◌else◌, length, get_elem?, take, drop, ◌||◌, reverse, All,
}
use cross_chain.Prelude.Int.{ℤ, pos, negsuc}

abbrev pub Bytes : Type 0
Bytes = List ℕ

abbrev pub IsByte : ℕ → Type 0
IsByte b = b < 256

-- `opcodetype`
abbrev pub op_pushdata1 : ℕ
op_pushdata1 = 0x4c

abbrev pub op_pushdata2 : ℕ
op_pushdata2 = 0x4d

abbrev pub op_pushdata4 : ℕ
op_pushdata4 = 0x4e

abbrev pub op_1 : ℕ
op_1 = 0x51

-- `<< opcode`; `none` is the exception.
unfoldable pub push_opcode : ℕ → Bytes → Option Bytes
push_opcode op s = if ltb 0xff op then none else some (s ++ op ∷ [])

-- `<< uint160`, of the 20 bytes of the number.
unfoldable pub push_uint160 : Bytes → Bytes → Bytes
push_uint160 b s = s ++ 20 ∷ b

-- The bytes of an `unsigned short` and of an `unsigned int`.
abbrev pub bytes2 : ℕ → Bytes
bytes2 n = n % 256 ∷ n / 256 % 256 ∷ []

abbrev pub bytes4 : ℕ → Bytes
bytes4 n = n % 256 ∷ n / 256 % 256 ∷ n / 65536 % 256 ∷ n / 16777216 % 256 ∷ []

-- What `<< vector` writes in front of the vector.
unfoldable pub push_size : ℕ → Bytes
push_size n =
    if ltb n op_pushdata1
    then n ∷ []
    else if leb n 0xff
    then op_pushdata1 ∷ n ∷ []
    else if leb n 0xffff
    then op_pushdata2 ∷ bytes2 n
    else op_pushdata4 ∷ bytes4 (n % 4294967296)

-- `<< vector`
unfoldable pub push_vector : Bytes → Bytes → Bytes
unfolding push_size
push_vector b s = s ++ push_size (length b) ++ b

-- A size of one, two and four bytes, with the bytes after it.
abbrev pub read1 : Bytes → Option (ℕ × Bytes)
read1 [] = none
read1 (a ∷ s) = some (a, s)

abbrev pub read2 : Bytes → Option (ℕ × Bytes)
read2 (a ∷ b ∷ s) = some (a + 256 * b, s)
read2 _ = none

abbrev pub read4 : Bytes → Option (ℕ × Bytes)
read4 (a ∷ b ∷ c ∷ d ∷ s) = some (a + 256 * b + 65536 * c + 16777216 * d, s)
read4 _ = none

-- The size that a push opcode stands for, or that follows it.
unfoldable pub read_size : ℕ → Bytes → Option (ℕ × Bytes)
read_size op s =
    if ltb op op_pushdata1
    then some (op, s)
    else if op == op_pushdata1
    then read1 s
    else if op == op_pushdata2
    then read2 s
    else read4 s

-- One instruction: its opcode and its operand.
pub record Instruction : Type 0 where
  pub opcode : ℕ
  pub operand : Bytes

abbrev pub operand_of : ℕ → Option (ℕ × Bytes) → Option (Instruction × Bytes)
operand_of op none = none
operand_of op (some (n, s)) =
    if ltb (length s) n then none else some (record { opcode = op; operand = take n s }, drop n s)

-- `GetOp2` from `pc`, which is given as the bytes from it on; `none` is `false`.
unfoldable pub get_op : Bytes → Option (Instruction × Bytes)
unfolding read_size
get_op [] = none
get_op (op ∷ s) =
    if leb op op_pushdata4
    then operand_of op (read_size op s)
    else some (record { opcode = op; operand = [] }, s)

-- 32 bits, read as a signed number.
abbrev pub signed : ℕ → ℤ
signed r = if ltb r 2147483648 then pos r else negsuc (4294967295 - r)

-- `CBigNum(int)` of a 64-bit number: the conversion keeps the 32 bits.
unfoldable pub to_int : ℤ → ℤ
to_int (pos n) = signed (n % 4294967296)
to_int (negsuc n) = signed (4294967295 - n % 4294967296)

-- `getvch`, of what `BN_bn2mpi` writes.
unfoldable pub getvch : Bytes → Bytes
getvch mpi = if leb (length mpi) 4 then [] else reverse (drop 4 mpi)

-- `push_int64`; the parameter is `BN_bn2mpi` of a number.
unfoldable pub push_int64 : (ℤ → Bytes) → ℤ → Bytes → Bytes
unfolding to_int getvch push_vector
push_int64 bn2mpi (negsuc n) s =
    if n == 0 then s ++ (op_1 - 2) ∷ [] else push_vector (getvch (bn2mpi (to_int (negsuc n)))) s
push_int64 bn2mpi (pos n) s =
    if leb 1 n
    then if leb n 16
      then s ++ (n + (op_1 - 1)) ∷ []
      else push_vector (getvch (bn2mpi (to_int (pos n)))) s
    else push_vector (getvch (bn2mpi (to_int (pos n)))) s
