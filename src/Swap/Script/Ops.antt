-- ===== src/Swap/Script/Ops.antt =====
-- Reading what was pushed.
use cross_chain.Prelude.{
  ℕ, ◌≡◌, refl, ◌<◌, true, false, some, [], ◌∷◌, ◌++◌, length, drop, take, arith, ltb, leb,
  if◌then◌else◌, Bool-cases, inl, inr, length-append,
}
use mathlib.Core.List.{append_assoc}
use cross_chain.Swap.Script.{Bytes, push_vector, push_size, read_size, get_op, operand_of}

take-append : (b rest : Bytes) → take (length b) (b ++ rest) ≡ b
take-append [] rest = refl
take-append (x ∷ b) rest = rw (take-append b rest) refl

drop-append : (b rest : Bytes) → drop (length b) (b ++ rest) ≡ rest
drop-append [] rest = refl
drop-append (x ∷ b) rest = drop-append b rest

operand_of-append :
    (op n : ℕ) (b rest : Bytes)
    → n ≡ length b
    → operand_of op (some (n, b ++ rest)) ≡ some (record { opcode = op; operand = b }, rest)
operand_of-append op n b rest e =
    let fits : ltb (length (b ++ rest)) n ≡ false = ground (arith, length-append b rest) in
    rw (fits, e, take-append b rest, drop-append b rest) refl

-- The opcode that `<< vector` writes for a vector of `n` bytes.
abbrev pub opcode_of : ℕ → ℕ
opcode_of n =
    if ltb n 0x4c then n else if leb n 0xff then 0x4c else if leb n 0xffff then 0x4d else 0x4e

pub get_op-push_size :
    (b rest : Bytes)
    → length b < 4294967296
    → get_op (push_size (length b) ++ (b ++ rest))
      ≡ some (record { opcode = opcode_of (length b); operand = b }, rest)
unfolding get_op read_size push_size
get_op-push_size b rest small = elim (Bool-cases (ltb (length b) 0x4c)) [
  | inl e ↦
      let le : leb (length b) 0x4e ≡ true = ground arith in
      rw (e, le, e) (operand_of-append (length b) (length b) b rest refl)
  | inr e ↦ elim (Bool-cases (leb (length b) 0xff)) [
    | inl e1 ↦ rw (e, e1) (operand_of-append 0x4c (length b) b rest refl)
    | inr e1 ↦ elim (Bool-cases (leb (length b) 0xffff)) [
      | inl e2 ↦ rw (e, e1, e2) (operand_of-append 0x4d _ b rest (ground arith))
      | inr e2 ↦ rw (e, e1, e2) (operand_of-append 0x4e _ b rest (omega arith))
    ]
  ]
]

-- A vector of fewer than 2 ^ 32 bytes that `<<` pushes onto a script is read back by `GetOp2` from the
-- place where it was pushed: the opcode is the one for its size, the operand is the vector, and the
-- reading goes on with what was pushed after it.
pub get_op-push_vector :
    (s b rest : Bytes)
    → length b < 4294967296
    → get_op (drop (length s) (push_vector b s ++ rest))
      ≡ some (record { opcode = opcode_of (length b); operand = b }, rest)
unfolding push_vector
get_op-push_vector s b rest small =
    rw (append_assoc, append_assoc, drop-append s (push_size (length b) ++ (b ++ rest)))
      (get_op-push_size b rest small)
