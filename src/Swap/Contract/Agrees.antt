-- ===== src/Swap/Contract/Agrees.antt =====
-- `AtomicSwapContract` against the layout, and the locktime from the contract to the refund.
use mathlib.Core.List.{append_assoc}
use native.Mathlib.Decide.{ℕ_discrete}
use cross_chain.Prelude.{
  ℕ, ◌≡◌, ◌↔◌, refl, ap, ◌∙◌, ◌≢◌, ◌≤◌, ◌<◌, ◌+◌, ◌*◌, ◌/◌, ◌%◌, true, false, some, [], ◌∷◌, ◌++◌,
  length, arith, leb, ltb, Bool-cases, inl, inr, ◌==◌,
}
use cross_chain.Prelude.Int.{ℤ, pos}
use cross_chain.Swap.Script.{
  Bytes, bytes4, push_opcode, push_uint160, push_vector, push_int64, push_size, to_int, getvch,
}
use cross_chain.Swap.Contract.{
  AtomicSwapData, atomic_swap_contract, is_atomic_swap, extract_atomic_swap_data, refund_lock_time,
  big_endian, all_at, htonl,
}
use cross_chain.Swap.Contract.Layout.{layout, after_sec_hash}
use cross_chain.Swap.Contract.Accepted.{HasSizes, is_atomic_swap-layout, extract-layout}

-- Locktimes of four bytes without the sign bit: from 1970 + 97 days to 2038.
pub record IsLockTime (t : ℕ) : Type 0 where
  pub above : 8388608 ≤ t
  pub below : t < 2147483648

-- What OpenSSL documents of `BN_bn2mpi`, at the numbers that such locktimes are: a length of four bytes,
-- then the number, both with the most significant byte first.
abbrev pub WritesMpi : (ℤ → Bytes) → Type 0
WritesMpi bn2mpi =
    (t : ℕ)
    → IsLockTime t
    → bn2mpi (pos t)
      ≡ 0 ∷ 0 ∷ 0 ∷ 4 ∷ t / 16777216 % 256 ∷ t / 65536 % 256 ∷ t / 256 % 256 ∷ t % 256 ∷ []

-- The fields of a contract.
abbrev pub fields : (me them : Bytes) → ℕ → Bytes → AtomicSwapData
fields me them t sec_hash = record {
  sec_hash = sec_hash;
  recipient_pub_key_hash = them;
  refund_pub_key_hash = me;
  lock_time = bytes4 t;
}

-- Four bytes, read with the most significant first and swapped by `htonl`.
htonl-bytes :
    (a b c d : ℕ)
    → a < 256
    → b < 256
    → c < 256
    → d < 256
    → htonl ((((0 + a) * 256 + b) * 256 + c) * 256 + d) ≡ a + 256 * b + 65536 * c + 16777216 * d
htonl-bytes a b c d ha hb hc hd = omega arith

bytes4_lem :
    (t : ℕ)
    → t < 2147483648
    → t % 256 + 256 * (t / 256 % 256) + 65536 * (t / 65536 % 256) + 16777216 * (t / 16777216 % 256)
      ≡ t
bytes4_lem t h = omega arith

refund_lock_time-fields :
    (me them : Bytes) (t : ℕ) (h : Bytes)
    → t < 2147483648
    → refund_lock_time (fields me them t h) ≡ t
unfolding refund_lock_time big_endian
refund_lock_time-fields me them t h below =
    htonl-bytes (t % 256) (t / 256 % 256) (t / 65536 % 256) (t / 16777216 % 256) (omega arith)
      (omega arith) (omega arith) (omega arith)
    ∙ bytes4_lem t below

-- A hash of another size than 20 is no operand of size 20.
is_atomic_swap-other :
    (n : ℕ) (rest : Bytes)
    → n ≢ 20
    → is_atomic_swap (0x63 ∷ 0xa6 ∷ push_size n ++ rest) ≡ some false
unfolding is_atomic_swap all_at push_size
is_atomic_swap-other n rest other = elim (Bool-cases (ltb n 0x4c)) [
  | inl e ↦ let no_match : (n == 20) ≡ false = ground arith in rw (e, no_match) refl
  | inr e ↦ elim (Bool-cases (leb n 0xff)) [
    | inl e1 ↦ rw (e, e1) refl
    | inr e1 ↦ elim (Bool-cases (leb n 0xffff)) [
      | inl e2 ↦ rw (e, e1, e2) refl
      | inr e2 ↦ rw (e, e1, e2) refl
    ]
  ]
]

module _ (bn2mpi : ℤ → Bytes) (mpi : WritesMpi bn2mpi) (t : ℕ) (lock : IsLockTime t) where
  push-lock_time : (s : Bytes) → push_int64 bn2mpi (pos t) s ≡ s ++ 4 ∷ bytes4 t
  unfolding push_int64 to_int getvch push_vector push_size
  push-lock_time s =
      let one : leb 1 t ≡ true = ground (arith, lock.above) in
      let sixteen : leb t 16 ≡ false = ground (arith, lock.above) in
      let same : t % 4294967296 ≡ t = omega (arith, lock.below) in
      let positive : ltb t 2147483648 ≡ true = ground (arith, lock.below) in
      rw (one, sixteen, same, positive, mpi t lock) (append_assoc s (4 ∷ []) (bytes4 t))

  -- The contract, of a hash of any size.
  contract-bytes :
      (me them h : Bytes)
      → atomic_swap_contract bn2mpi me them (pos t) h
        ≡ some (0x63 ∷ 0xa6 ∷ push_size (length h) ++ (h ++ after_sec_hash (fields me them t h) []))
  unfolding atomic_swap_contract push_opcode push_uint160 push_vector
  contract-bytes me them h = rw push-lock_time (simp append_assoc)

  -- Where `BN_bn2mpi` writes the documented format, and the locktime lies between 2 ^ 23 and 2 ^ 31:
  -- from hashes of 20 bytes `AtomicSwapContract` builds, without an exception, a script that `ISAtomicSwap` accepts and from
  -- which `ExtractAtomicSwapData` takes those hashes and the four bytes of the locktime, and the refund
  -- takes the locktime.
  pub contract_round_trip :
      (me them h : Bytes)
      → length me ≡ 20
      → length them ≡ 20
      → length h ≡ 20
      → (c : Bytes) × (atomic_swap_contract bn2mpi me them (pos t) h ≡ some c)
        × (is_atomic_swap c ≡ some true)
        × (extract_atomic_swap_data c ≡ fields me them t h)
        × (refund_lock_time (extract_atomic_swap_data c) ≡ t)
  unfolding layout push_size
  contract_round_trip me them h me_size them_size h_size =
      let d = fields me them t h in
      let sizes : HasSizes d = record {
        sec_hash_size = h_size;
        recipient_size = them_size;
        refund_size = me_size;
        lock_time_size = refl;
      } in
      let extracted = extract-layout d [] sizes in
      let built : atomic_swap_contract bn2mpi me them (pos t) h ≡ some (layout d []) =
        contract-bytes me them h ∙ rw h_size refl in
      (
        layout d [],
        built,
        is_atomic_swap-layout d [] sizes,
        extracted,
        ap refund_lock_time extracted ∙ refund_lock_time-fields me them t h lock.below,
      )

  -- Where `BN_bn2mpi` writes the documented format, and the locktime lies between 2 ^ 23 and 2 ^ 31: the
  -- script that `AtomicSwapContract` builds from two hashes of 20 bytes and a secret hash of any size is
  -- one that `ISAtomicSwap` accepts if and only if the secret hash has 20 bytes.
  pub contract_accepted_iff :
      (me them h : Bytes)
      → length me ≡ 20
      → length them ≡ 20
      → (c : Bytes) × (atomic_swap_contract bn2mpi me them (pos t) h ≡ some c)
        × ((is_atomic_swap c ≡ some true) ↔ (length h ≡ 20))
  contract_accepted_iff me them h me_size them_size = elim (ℕ_discrete (length h) 20) [
    | yes e ↦
        let (c, built, accepted, _, _) = contract_round_trip me them h me_size them_size e in
        (c, built, (λ _. e, λ _. accepted))
    | no ne ↦
        let rest = h ++ after_sec_hash (fields me them t h) [] in
        (
          0x63 ∷ 0xa6 ∷ push_size (length h) ++ rest,
          contract-bytes me them h,
          (λ y. absurd (cc (y, is_atomic_swap-other (length h) rest ne)), λ e. absurd (ne e)),
        )
  ]
