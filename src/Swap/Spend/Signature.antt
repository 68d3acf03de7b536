-- ===== src/Swap/Spend/Signature.antt =====
-- The instructions of the signature scripts of `Redeem` and `Refund`.
use mathlib.Core.Path.{subst}
use mathlib.Core.List.{append_assoc, append-nil}
use cross_chain.Prelude.{
  ℕ, ◌≡◌, refl, ◌<◌, ltb, true, false, some, List, [], ◌∷◌, ◌++◌, map, length, arith,
}
use cross_chain.Swap.Script.{
  Bytes, Instruction, push_vector, push_size, push_opcode, get_op, read_size,
}
use cross_chain.Swap.Script.Ops.{opcode_of, get_op-push_size}
use cross_chain.Swap.Spend.{push_pub_key, redeem_sig, refund_sig, instruction, to_string}
use cross_chain.Swap.Spend.Reads.{Reads, done, next, tokens-Reads}

-- The instruction that pushes a vector.
abbrev pub push_of : Bytes → Instruction
push_of b = record { opcode = opcode_of (length b); operand = b }

-- 32 bits hold the sizes of what is pushed.
abbrev pub Small : Bytes → Type 0
Small b = length b < 4294967296

next_push :
    (b rest : Bytes) (is : List Instruction)
    → Small b
    → Reads rest is
    → Reads (push_size (length b) ++ (b ++ rest)) (push_of b ∷ is)
next_push b rest is small r = next (get_op-push_size b rest small) r

last_push : (b : Bytes) → Small b → Reads (push_size (length b) ++ b) (push_of b ∷ [])
last_push b small =
    subst (λ z. Reads (push_size (length b) ++ z) (push_of b ∷ [])) (append-nil b)
      (next_push b [] [] small done)

push_size-small : (n : ℕ) → n < 0x4c → push_size n ≡ n ∷ []
unfolding push_size
push_size-small n h = let short : ltb n 0x4c ≡ true = ground arith in rw short refl

next_key :
    (key rest : Bytes) (is : List Instruction)
    → length key < 0x4c
    → Reads rest is
    → Reads (length key ∷ key ++ rest) (push_of key ∷ is)
next_key key rest is small r =
    subst (λ z. Reads (z ++ (key ++ rest)) (push_of key ∷ is)) (push_size-small (length key) small)
      (next_push key rest is (omega arith) r)

op_true-read : (s : Bytes) → get_op (0x51 ∷ s) ≡ some (record { opcode = 0x51; operand = [] }, s)
unfolding get_op
op_true-read s = refl

op_false-read : (s : Bytes) → get_op (0 ∷ s) ≡ some (push_of [], s)
unfolding get_op read_size
op_false-read s = let enough : ltb (length s) 0 ≡ false = ground arith in rw enough refl

-- `to_string`, of a script that can be read to its end.
to_string-Reads :
    (s : Bytes) (is : List Instruction) → Reads s is → to_string s ≡ some (map instruction is)
unfolding to_string
to_string-Reads s is r = tokens-Reads (length s) s is r (omega arith)

module _ (sig key contract : Bytes) (hs : Small sig) (hk : length key < 0x4c)
    (hc : Small contract) where
  -- The signature script of `Redeem` is built for a public key of fewer than 76 bytes, and is printed as
  -- five instructions: what was pushed of the signature, the key and the secret, OP_TRUE, and the
  -- contract. The signature, the secret and the contract have fewer than 2 ^ 32 bytes.
  pub to_string-redeem_sig :
      (secret : Bytes)
      → Small secret
      → (s : Bytes) × (redeem_sig sig key secret contract ≡ some s)
        × (to_string s
            ≡ some (
                map instruction (
                  push_of sig
                  ∷ push_of key
                  ∷ push_of secret
                  ∷ record { opcode = 0x51; operand = [] }
                  ∷ push_of contract
                  ∷ [])))
  unfolding redeem_sig push_pub_key push_vector push_opcode
  to_string-redeem_sig secret hx =
      let short : ltb (length key) 0x4c ≡ true = ground arith in
      let s4 = push_size (length contract) ++ contract in
      let s3 = push_size (length secret) ++ (secret ++ (0x51 ∷ s4)) in
      let s = push_size (length sig) ++ (sig ++ (length key ∷ key ++ s3)) in
      let built : redeem_sig sig key secret contract ≡ some s = rw short (simp append_assoc) in
      let r3 = next_push secret _ _ hx (next (op_true-read s4) (last_push contract hc)) in
      (s, built, to_string-Reads s _ (next_push sig _ _ hs (next_key key s3 _ hk r3)))

  -- The signature script of `Refund` is built for a public key of fewer than 76 bytes, and is printed as
  -- four instructions: what was pushed of the signature and the key, the empty vector that is OP_FALSE,
  -- and the contract. The signature and the contract have fewer than 2 ^ 32 bytes.
  to_string-refund_sig :
      (s : Bytes) × (refund_sig sig key contract ≡ some s)
      × (to_string s
          ≡ some (map instruction (push_of sig ∷ push_of key ∷ push_of [] ∷ push_of contract ∷ [])))
  unfolding refund_sig push_pub_key push_vector push_opcode
  to_string-refund_sig =
      let short : ltb (length key) 0x4c ≡ true = ground arith in
      let s4 = push_size (length contract) ++ contract in
      let s = push_size (length sig) ++ (sig ++ (length key ∷ key ++ (0 ∷ s4))) in
      let built : refund_sig sig key contract ≡ some s = rw short (simp append_assoc) in
      let r = next (op_false-read s4) (last_push contract hc) in
      (s, built, to_string-Reads s _ (next_push sig _ _ hs (next_key key _ _ hk r)))
