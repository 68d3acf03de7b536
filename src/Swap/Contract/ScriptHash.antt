-- ===== src/Swap/Contract/ScriptHash.antt =====
-- The scripts that pay to a script hash.
use mathlib.Core.Path.{subst}
use cross_chain.Prelude.{
  ℕ, zero, suc, ◌≡◌, sym, ◌+◌, ◌↔◌, refl, ap, ◌∙◌, ◌==◌, ==_iff, true, Bool-cases, inl, inr, some,
  List, [], ◌∷◌, ◌++◌, length, take, drop, arith, length-append,
}
use cross_chain.Swap.Script.{Bytes, push_opcode, push_uint160}
use cross_chain.Swap.Contract.{all_at, is_pay_to_script_hash, create_pay_to_script_hash_script}
use cross_chain.Swap.Contract.Layout.{all_at-Stands, then_byte, then_bytes}
use cross_chain.Swap.Contract.Accepted.{all_at-append}

created : (id : Bytes) → create_pay_to_script_hash_script id ≡ some (0xa9 ∷ 20 ∷ id ++ (0x87 ∷ []))
unfolding create_pay_to_script_hash_script push_opcode push_uint160
created id = refl

accepted :
    (id : Bytes)
    → length id ≡ 20
    → is_pay_to_script_hash (0xa9 ∷ 20 ∷ id ++ (0x87 ∷ [])) ≡ some true
unfolding is_pay_to_script_hash all_at
accepted id h =
    let size : (length (0xa9 ∷ 20 ∷ id ++ (0x87 ∷ [])) == 23) ≡ true =
      ground (arith, length-append id (0x87 ∷ [])) in
    rw size (all_at-append 22 ((0, 0x87) ∷ []) (0xa9 ∷ 20 ∷ id) (0x87 ∷ []) (omega arith))

drop-all : (n : ℕ) (s : Bytes) → length s ≡ n → drop n s ≡ []
drop-all zero [] e = refl
drop-all (suc n) [] e = absurd (omega arith)
drop-all zero (x ∷ s) e = absurd (omega arith)
drop-all (suc n) (x ∷ s) e = drop-all n s (omega arith)

abbrev checks : List (ℕ × ℕ)
checks = (0, 0xa9) ∷ (1, 0x14) ∷ (22, 0x87) ∷ []

rebuilt :
    (s : Bytes)
    → length s ≡ 23
    → all_at checks s ≡ some true
    → s ≡ 0xa9 ∷ 20 ∷ take 20 (drop 2 s) ++ (0x87 ∷ [])
rebuilt s size h =
    let (b0, (b1, (b22, _))) = all_at-Stands checks s h in
    then_byte 0xa9 s (drop 1 s) _ b0 (
      then_byte 20 (drop 1 s) (drop 2 s) _ b1
        (then_bytes 2 20 22 s (0x87 ∷ []) refl (b22 ∙ ap (0x87 ∷◌) (drop-all 23 s size))))

-- The bytes of the hash have their size, from the size of the script.
hash_size : (s id : Bytes) → length s ≡ 23 → s ≡ 0xa9 ∷ 20 ∷ id ++ (0x87 ∷ []) → length id ≡ 20
hash_size s id size e =
    let sizes : 23 ≡ 2 + length (id ++ (0x87 ∷ [])) = sym size ∙ ap length e ∙ omega arith in
    omega (arith, length-append id (0x87 ∷ []))

-- `IsPayToScriptHash` accepts a script if and only if `CreatePayToScriptHashScript` builds it from 20
-- bytes.
is_pay_to_script_hash_iff :
    (s : Bytes)
    → (is_pay_to_script_hash s ≡ some true)
      ↔ ((id : Bytes) × (length id ≡ 20) × (create_pay_to_script_hash_script id ≡ some s))
unfolding is_pay_to_script_hash
is_pay_to_script_hash_iff s = (
  λ h. elim (Bool-cases (length s == 23)) [
    | inl y ↦
        let size : length s ≡ 23 = (==_iff (length s) 23).0 y in
        let e = rebuilt s size (ground arith) in
        let id = take 20 (drop 2 s) in (id, hash_size s id size e, created id ∙ ap some (sym e))
    | inr n ↦ absurd (ground arith)
  ],
  λ (id, size, e).
      let same : 0xa9 ∷ 20 ∷ id ++ (0x87 ∷ []) ≡ s = cc (e, created id) in
      subst (λ z. is_pay_to_script_hash z ≡ some true) same (accepted id size),
)
