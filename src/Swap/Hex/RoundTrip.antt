-- ===== src/Swap/Hex/RoundTrip.antt =====
-- What `ParseHex` reads of what `HexStr` writes.
use cross_chain.Prelude.{ℕ, ◌≡◌, refl, ◌<◌, ◌/◌, ◌%◌, ◌*◌, ◌+◌, false, some, [], ◌∷◌, All, arith}
use cross_chain.Swap.Script.{Bytes, IsByte}
use cross_chain.Swap.Hex.{hexmap, hex_str, phexdigit, isspace, parse_hex}

phexdigit-hexmap : (d : ℕ) → d < 16 → phexdigit (hexmap d) ≡ some d
unfolding phexdigit hexmap
phexdigit-hexmap d h = ground arith

isspace-hexmap : (d : ℕ) → d < 16 → isspace (hexmap d) ≡ false
unfolding isspace hexmap
isspace-hexmap d h = ground arith

-- `ParseHex` reads back the bytes that `HexStr` wrote as text, for bytes below 256.
pub parse_hex-hex_str : (s : Bytes) → All IsByte s → parse_hex (hex_str s) ≡ s
unfolding parse_hex hex_str
parse_hex-hex_str [] h = refl
parse_hex-hex_str (b ∷ s) h =
    let high : b / 16 < 16 = omega (arith, h.0) in
    let low : b % 16 < 16 = omega arith in
    let back : b / 16 * 16 + b % 16 ≡ b = omega arith in
    rw
      (
        isspace-hexmap (b / 16) high,
        phexdigit-hexmap (b / 16) high,
        phexdigit-hexmap (b % 16) low,
        parse_hex-hex_str s h.1,
        back,
      )
      refl
