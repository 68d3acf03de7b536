-- ===== src/Swap/Spend.antt =====
-- The script by which a contract is spent, and the reading of a script: the signature scripts of `Redeem`
-- and `Refund` in atomicswap.cpp, and the loop of `ToString` in script.h. Keys and signatures are bytes
-- that OpenSSL made.
pub mod Reads
pub mod Signature
use cross_chain.Prelude.{
  ℕ, zero, suc, ltb, Bool, Option, none, some, List, [], ◌∷◌, ◌++◌, if◌then◌else◌, ◌>>=◌, length,
}
use cross_chain.Swap.Script.{
  Bytes, Instruction, push_vector, push_opcode, get_op, op_pushdata1, op_1,
}

-- `<< CPubKey`; `none` is a failed `assert`.
unfoldable pub push_pub_key : Bytes → Bytes → Option Bytes
push_pub_key key s = if ltb (length key) op_pushdata1 then some (s ++ length key ∷ key) else none

-- `fullSig` of `Redeem`
unfoldable pub redeem_sig : (sig key secret contract : Bytes) → Option Bytes
redeem_sig sig key secret contract = do
  s ← push_pub_key key (push_vector sig [])
  s ← push_opcode op_1 (push_vector secret s)
  some (push_vector contract s)

-- `fullSig` of `Refund`
unfoldable pub refund_sig : (sig key contract : Bytes) → Option Bytes
refund_sig sig key contract = do
  s ← push_pub_key key (push_vector sig [])
  s ← push_opcode 0 s
  some (push_vector contract s)

-- What `ToString` prints of an instruction, or `[error]`.
pub data Token : Type 0 where
  instruction : Instruction → Token
  error : Token

abbrev pub prepend : Token → Option (List Token) → Option (List Token)
prepend t none = none
prepend t (some ts) = some (t ∷ ts)

abbrev pub print_op :
    Option (Instruction × Bytes) → (Bytes → Option (List Token)) → Option (List Token)
print_op none go_on = some (error ∷ [])
print_op (some (i, rest)) go_on = prepend (instruction i) (go_on rest)

-- The loop of `ToString`; `none` is when the fuel runs out.
unfoldable pub tokens : ℕ → Bytes → Option (List Token)
tokens fuel [] = some []
tokens zero (b ∷ s) = none
tokens (suc fuel) (b ∷ s) = print_op (get_op (b ∷ s)) (λ rest. tokens fuel rest)

-- `ToString`
unfoldable pub to_string : Bytes → Option (List Token)
to_string s = tokens (length s) s
