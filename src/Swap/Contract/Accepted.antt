-- ===== src/Swap/Contract/Accepted.antt =====
-- The contracts of fields of the right sizes, as `ISAtomicSwap` and `ExtractAtomicSwapData` read them.
use mathlib.Core.List.{map}
use cross_chain.Prelude.{
  ℕ, zero, suc, ◌≡◌, refl, ap, ◌∙◌, ◌+◌, true, some, List, [], ◌∷◌, ◌++◌, length, get_elem?, take,
  drop, arith,
}
use cross_chain.Swap.Script.{Bytes}
use cross_chain.Swap.Contract.{
  AtomicSwapData, all_at, check, is_atomic_swap, extract_atomic_swap_data,
}
use cross_chain.Swap.Contract.Layout.{layout, after_lock_time, after_recipient, after_sec_hash}

-- Its fields have the sizes that the layout leaves for them.
pub record HasSizes (d : AtomicSwapData) : Type 0 where
  pub sec_hash_size : length d.sec_hash ≡ 20
  pub recipient_size : length d.recipient_pub_key_hash ≡ 20
  pub refund_size : length d.refund_pub_key_hash ≡ 20
  pub lock_time_size : length d.lock_time ≡ 4

get_elem-append :
    (xs ys : Bytes) (i m : ℕ) → m ≡ length xs + i → get_elem? (xs ++ ys) m ≡ get_elem? ys i
get_elem-append [] ys i m e = let same : m ≡ i = omega arith in rw same refl
get_elem-append (x ∷ xs) ys i zero e = absurd (omega arith)
get_elem-append (x ∷ xs) ys i (suc m) e = get_elem-append xs ys i m (omega arith)

drop-append : (xs ys : Bytes) (i m : ℕ) → m ≡ length xs + i → drop m (xs ++ ys) ≡ drop i ys
drop-append [] ys i m e = let same : m ≡ i = omega arith in rw same refl
drop-append (x ∷ xs) ys i zero e = absurd (omega arith)
drop-append (x ∷ xs) ys i (suc m) e = drop-append xs ys i m (omega arith)

take-append : (xs ys : Bytes) (n : ℕ) → length xs ≡ n → take n (xs ++ ys) ≡ xs
take-append [] ys zero e = refl
take-append [] ys (suc n) e = absurd (omega arith)
take-append (x ∷ xs) ys zero e = absurd (omega arith)
take-append (x ∷ xs) ys (suc n) e = ap (x ∷◌) (take-append xs ys n (omega arith))

-- Checks behind a prefix are the checks of what follows it.
pub all_at-append :
    (n : ℕ) (checks : List (ℕ × ℕ)) (xs ys : Bytes)
    → length xs ≡ n
    → all_at (map (λ c. (n + c.0, c.1)) checks) (xs ++ ys) ≡ all_at checks ys
unfolding all_at
all_at-append n [] xs ys e = refl
all_at-append n ((i, v) ∷ checks) xs ys e =
    ap (λ o. check o v (all_at (map (λ c. (n + c.0, c.1)) checks) (xs ++ ys)))
      (get_elem-append xs ys i (n + i) (omega arith))
    ∙ ap (check (get_elem? ys i) v) (all_at-append n checks xs ys e)

-- The checks from each of the variable parts on, counted from the byte after it.
abbrev lock_time_checks : List (ℕ × ℕ)
lock_time_checks =
    (0, 0xb1)
    ∷ (1, 0x75)
    ∷ (2, 0x76)
    ∷ (3, 0xa9)
    ∷ (4, 0x14)
    ∷ (25, 0x68)
    ∷ (26, 0x88)
    ∷ (27, 0xac)
    ∷ []

abbrev recipient_checks : List (ℕ × ℕ)
recipient_checks = (0, 0x67) ∷ (1, 0x04) ∷ map (λ c. (6 + c.0, c.1)) lock_time_checks

abbrev sec_hash_checks : List (ℕ × ℕ)
sec_hash_checks =
    (0, 0x88) ∷ (1, 0x76) ∷ (2, 0xa9) ∷ (3, 0x14) ∷ map (λ c. (24 + c.0, c.1)) recipient_checks

module _ (d : AtomicSwapData) (tail : Bytes) (h : HasSizes d) where
  -- `ISAtomicSwap` accepts every contract of fields of these sizes, whatever follows it.
  pub is_atomic_swap-layout : is_atomic_swap (layout d tail) ≡ some true
  unfolding is_atomic_swap layout all_at
  is_atomic_swap-layout =
      all_at-append 23 sec_hash_checks (0x63 ∷ 0xa6 ∷ 0x14 ∷ d.sec_hash) (after_sec_hash d tail)
        (omega (arith, h.sec_hash_size))
      ∙ all_at-append 24 recipient_checks (0x88 ∷ 0x76 ∷ 0xa9 ∷ 0x14 ∷ d.recipient_pub_key_hash)
          (after_recipient d tail) (omega (arith, h.recipient_size))
      ∙ all_at-append 6 lock_time_checks (0x67 ∷ 0x04 ∷ d.lock_time) (after_lock_time d tail)
          (omega (arith, h.lock_time_size))
      ∙ all_at-append 25 ((0, 0x68) ∷ (1, 0x88) ∷ (2, 0xac) ∷ [])
          (0xb1 ∷ 0x75 ∷ 0x76 ∷ 0xa9 ∷ 0x14 ∷ d.refund_pub_key_hash) (0x68 ∷ 0x88 ∷ 0xac ∷ tail)
          (omega (arith, h.refund_size))

  past_sec_hash :
      (i m : ℕ)
      → m ≡ i + 20
      → drop m (d.sec_hash ++ after_sec_hash d tail) ≡ drop i (after_sec_hash d tail)
  past_sec_hash i m e = drop-append d.sec_hash _ i m (omega (arith, h.sec_hash_size))

  past_recipient :
      (i m : ℕ)
      → m ≡ i + 20
      → drop m (d.recipient_pub_key_hash ++ after_recipient d tail)
        ≡ drop i (after_recipient d tail)
  past_recipient i m e =
      drop-append d.recipient_pub_key_hash _ i m (omega (arith, h.recipient_size))

  past_lock_time :
      (i m : ℕ)
      → m ≡ i + 4
      → drop m (d.lock_time ++ after_lock_time d tail) ≡ drop i (after_lock_time d tail)
  past_lock_time i m e = drop-append d.lock_time _ i m (omega (arith, h.lock_time_size))

  -- `ExtractAtomicSwapData` takes from a contract the fields that it was laid out from.
  pub extract-layout : extract_atomic_swap_data (layout d tail) ≡ d
  unfolding extract_atomic_swap_data layout
  extract-layout =
      let sec = take-append d.sec_hash (after_sec_hash d tail) 20 h.sec_hash_size in
      let rec = take-append d.recipient_pub_key_hash (after_recipient d tail) 20 h.recipient_size in
      let lock = take-append d.lock_time (after_lock_time d tail) 4 h.lock_time_size in
      let refund = take-append d.refund_pub_key_hash (0x68 ∷ 0x88 ∷ 0xac ∷ tail) 20 h.refund_size in
      let to_rec = past_sec_hash 4 24 refl in
      let to_lock = past_sec_hash 26 46 refl ∙ past_recipient 2 22 refl in
      let to_refund =
        past_sec_hash 35 55 refl ∙ past_recipient 11 31 refl ∙ past_lock_time 5 9 refl in
      rw (to_rec, to_lock, to_refund, sec, rec, lock, refund) refl
