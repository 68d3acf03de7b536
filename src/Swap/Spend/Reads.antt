-- ===== src/Swap/Spend/Reads.antt =====
-- Scripts read to their end.
use cross_chain.Prelude.{
  ℕ, zero, suc, ◌≡◌, refl, ap, ◌<◌, ◌≤◌, ltb, leb, ◌==◌, Bool-cases, inl, inr, Option-cases, some,
  List, [], ◌∷◌, map, length, drop, arith,
}
use cross_chain.Swap.Script.{Bytes, Instruction, get_op, read_size, read1, read2, read4}
use cross_chain.Swap.Spend.{Token, instruction, error, tokens, to_string}

-- A script and the instructions that `GetOp2` reads from it, one after the other.
pub data Reads : Bytes → List Instruction → Type 0 where
  done : Reads [] []
  next :
      {s rest : Bytes} {i : Instruction} {is : List Instruction}
      → get_op s ≡ some (i, rest)
      → Reads rest is
      → Reads s (i ∷ is)

length-drop : (n : ℕ) (s : Bytes) → length (drop n s) ≤ length s
length-drop zero s = omega arith
length-drop (suc n) [] = omega arith
length-drop (suc n) (x ∷ s) = omega (arith, length-drop n s)

read1-shorter : (s rest : Bytes) (n : ℕ) → read1 s ≡ some (n, rest) → length rest ≤ length s
read1-shorter [] rest n h = cc
read1-shorter (a ∷ s) rest n h = let same : s ≡ rest = cc in omega (arith, ap length same)

read2-shorter : (s rest : Bytes) (n : ℕ) → read2 s ≡ some (n, rest) → length rest ≤ length s
read2-shorter [] rest n h = cc
read2-shorter (a ∷ []) rest n h = cc
read2-shorter (a ∷ b ∷ s) rest n h = let same : s ≡ rest = cc in omega (arith, ap length same)

read4-shorter : (s rest : Bytes) (n : ℕ) → read4 s ≡ some (n, rest) → length rest ≤ length s
read4-shorter [] rest n h = cc
read4-shorter (a ∷ []) rest n h = cc
read4-shorter (a ∷ b ∷ []) rest n h = cc
read4-shorter (a ∷ b ∷ c ∷ []) rest n h = cc
read4-shorter (a ∷ b ∷ c ∷ d ∷ s) rest n h =
    let same : s ≡ rest = cc in omega (arith, ap length same)

read_size-shorter :
    (op : ℕ) (s rest : Bytes) (n : ℕ) → read_size op s ≡ some (n, rest) → length rest ≤ length s
unfolding read_size
read_size-shorter op s rest n h = elim (Bool-cases (ltb op 0x4c)) [
  | inl e ↦ let same : s ≡ rest = cc (rw e at h) in omega (arith, ap length same)
  | inr e ↦ elim (Bool-cases (op == 0x4c)) [
    | inl e1 ↦ read1-shorter s rest n (rw (e, e1) at h)
    | inr e1 ↦ elim (Bool-cases (op == 0x4d)) [
      | inl e2 ↦ read2-shorter s rest n (rw (e, e1, e2) at h)
      | inr e2 ↦ read4-shorter s rest n (rw (e, e1, e2) at h)
    ]
  ]
]

-- Every instruction takes at least one byte.
get_op-shorter :
    (s rest : Bytes) (i : Instruction) → get_op s ≡ some (i, rest) → length rest < length s
unfolding get_op
get_op-shorter [] rest i h = cc
get_op-shorter (op ∷ s) rest i h = elim (Bool-cases (leb op 0x4e)) [
  | inl e ↦ elim (Option-cases (read_size op s)) [
    | inl r ↦ cc (rw (e, r) at h)
    | inr ((n, t), r) ↦
        let left = read_size-shorter op s t n r in
        elim (Bool-cases (ltb (length t) n)) [
          | inl short ↦ cc (rw (e, r, short) at h)
          | inr enough ↦
              let same : drop n t ≡ rest = cc (rw (e, r, enough) at h) in
              omega (arith, left, length-drop n t, ap length same)
        ]
  ]
  | inr e ↦ let same : s ≡ rest = cc (rw e at h) in omega (arith, ap length same)
]

tokens_total :
    (fuel : ℕ) (s : Bytes) → length s ≤ fuel → (ts : List Token) × (tokens fuel s ≡ some ts)
unfolding tokens
tokens_total fuel [] h = ([], refl)
tokens_total zero (b ∷ s) h = absurd (omega arith)
tokens_total (suc fuel) (b ∷ s) h = elim (Option-cases (get_op (b ∷ s))) [
  | inl e ↦ (error ∷ [], rw e refl)
  | inr ((i, rest), e) ↦
      let shorter = get_op-shorter (b ∷ s) rest i e in
      let (ts, r) = tokens_total fuel rest (omega arith) in (instruction i ∷ ts, rw (e, r) refl)
]

-- `ToString` ends on every script: the loop takes at most as many rounds as the script has bytes.
to_string_total : (s : Bytes) → (ts : List Token) × (to_string s ≡ some ts)
unfolding to_string
to_string_total s = tokens_total (length s) s (omega arith)

-- A script that can be read to its end is printed as its instructions.
pub tokens-Reads :
    (fuel : ℕ) (s : Bytes) (is : List Instruction)
    → Reads s is
    → length s ≤ fuel
    → tokens fuel s ≡ some (map instruction is)
unfolding tokens
tokens-Reads fuel [] [] done le = refl
tokens-Reads fuel [] (i ∷ is) (next {rest = rest} e r) le =
    let none_left = get_op-shorter [] rest i e in absurd (omega arith)
tokens-Reads fuel (b ∷ s) [] r le = elim r [ ]
tokens-Reads zero (b ∷ s) (i ∷ is) (next e r) le = absurd (omega arith)
tokens-Reads (suc fuel) (b ∷ s) (i ∷ is) (next {rest = rest} e r) le =
    let shorter = get_op-shorter (b ∷ s) rest i e in
    rw (e, tokens-Reads fuel rest is r (omega arith)) refl
