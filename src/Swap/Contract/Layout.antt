-- ===== src/Swap/Contract/Layout.antt =====
-- The layout of a swap contract in bytes, and the scripts that `ISAtomicSwap` accepts.
use cross_chain.Prelude.{
  ℕ, zero, suc, ◌≡◌, refl, ap, ◌∙◌, ◌+◌, ◌==◌, ==_iff, true, Bool-cases, inl, inr, some, List, [],
  ◌∷◌, ◌++◌, get_elem?, take, drop, arith, Option-cases, All,
}
use cross_chain.Swap.Script.{Bytes}
use cross_chain.Swap.Contract.{
  AtomicSwapData, all_at, is_atomic_swap, is_atomic_swap_checks, extract_atomic_swap_data,
}

-- The script of a swap between two hashes, byte by byte, followed by the bytes of a tail: first what
-- follows each of its variable parts.
abbrev pub after_lock_time : AtomicSwapData → Bytes → Bytes
after_lock_time d tail =
    0xb1 ∷ 0x75 ∷ 0x76 ∷ 0xa9 ∷ 0x14 ∷ d.refund_pub_key_hash ++ (0x68 ∷ 0x88 ∷ 0xac ∷ tail)

abbrev pub after_recipient : AtomicSwapData → Bytes → Bytes
after_recipient d tail = 0x67 ∷ 0x04 ∷ d.lock_time ++ after_lock_time d tail

abbrev pub after_sec_hash : AtomicSwapData → Bytes → Bytes
after_sec_hash d tail =
    0x88 ∷ 0x76 ∷ 0xa9 ∷ 0x14 ∷ d.recipient_pub_key_hash ++ after_recipient d tail

unfoldable pub layout : AtomicSwapData → Bytes → Bytes
layout d tail = 0x63 ∷ 0xa6 ∷ 0x14 ∷ d.sec_hash ++ after_sec_hash d tail

drop-at : (i v : ℕ) (s : Bytes) → get_elem? s i ≡ some v → drop i s ≡ v ∷ drop (suc i) s
drop-at i v [] h = cc
drop-at zero v (x ∷ s) h = cc
drop-at (suc i) v (x ∷ s) h = drop-at i v s h

take-drop : (n : ℕ) (s : Bytes) → s ≡ take n s ++ drop n s
take-drop zero s = refl
take-drop (suc n) [] = refl
take-drop (suc n) (x ∷ s) = ap (x ∷◌) (take-drop n s)

drop-drop : (i n m : ℕ) (s : Bytes) → m ≡ i + n → drop n (drop i s) ≡ drop m s
drop-drop zero n m s e = let same : m ≡ n = omega arith in rw same refl
drop-drop (suc i) zero zero [] e = refl
drop-drop (suc i) zero (suc m) [] e = refl
drop-drop (suc i) (suc n) zero [] e = refl
drop-drop (suc i) (suc n) (suc m) [] e = refl
drop-drop (suc i) n zero (x ∷ s) e = absurd (omega arith)
drop-drop (suc i) n (suc m) (x ∷ s) e = drop-drop i n m s (omega arith)

pub then_byte : (v : ℕ) (x y z : Bytes) → x ≡ v ∷ y → y ≡ z → x ≡ v ∷ z
then_byte v x y z e f = e ∙ ap (v ∷◌) f

-- The `n` bytes from offset `i` on, and what follows them.
pub then_bytes :
    (i n m : ℕ) (s z : Bytes) → m ≡ i + n → drop m s ≡ z → drop i s ≡ take n (drop i s) ++ z
then_bytes i n m s z e f =
    take-drop n (drop i s) ∙ ap (take n (drop i s) ++◌) (drop-drop i n m s e ∙ f)

-- The byte that a check asks for stands where it asks for it.
abbrev pub Stands : Bytes → ℕ × ℕ → Type 0
Stands s c = drop c.0 s ≡ c.1 ∷ drop (suc c.0) s

pub all_at-Stands :
    (checks : List (ℕ × ℕ)) (s : Bytes) → all_at checks s ≡ some true → All (Stands s) checks
unfolding all_at
all_at-Stands [] s h = tt
all_at-Stands ((i, v) ∷ checks) s h = elim (Option-cases (get_elem? s i)) [
  | inl e ↦ absurd (ground arith)
  | inr (b, e) ↦ elim (Bool-cases (b == v)) [
    | inl y ↦
        let same : b ≡ v = (==_iff b v).0 y in
        (drop-at i v s (e ∙ ap some same), all_at-Stands checks s (ground arith))
    | inr n ↦ absurd (ground arith)
  ]
]

-- `ISAtomicSwap` accepts no other script than a contract of the data that `ExtractAtomicSwapData` takes
-- from it, followed by any bytes.
pub is_atomic_swap_only :
    (s : Bytes) → is_atomic_swap s ≡ some true → s ≡ layout (extract_atomic_swap_data s) (drop 81 s)
unfolding is_atomic_swap layout extract_atomic_swap_data
is_atomic_swap_only s h =
    let (
      b0,
      (
        b1,
        (
          b2,
          (
            b23,
            (
              b24,
              (b25, (b26, (b47, (b48, (b53, (b54, (b55, (b56, (b57, (b78, (b79, (b80, _)))))))))))),
            ),
          ),
        ),
      ),
    ) =
      all_at-Stands is_atomic_swap_checks s h in
    then_byte _ _ _ _ b0 (
      then_byte _ _ _ _ b1 (
        then_byte _ _ _ _ b2 (
          then_bytes 3 20 23 s _ refl (
            then_byte _ _ _ _ b23 (
              then_byte _ _ _ _ b24 (
                then_byte _ _ _ _ b25 (
                  then_byte _ _ _ _ b26 (
                    then_bytes 27 20 47 s _ refl (
                      then_byte _ _ _ _ b47 (
                        then_byte _ _ _ _ b48 (
                          then_bytes 49 4 53 s _ refl (
                            then_byte _ _ _ _ b53 (
                              then_byte _ _ _ _ b54 (
                                then_byte _ _ _ _ b55 (
                                  then_byte _ _ _ _ b56 (
                                    then_byte _ _ _ _ b57 (
                                      then_bytes 58 20 78 s _ refl (
                                        then_byte _ _ _ _ b78
                                          (then_byte _ _ _ _ b79 (b80))))))))))))))))))))
