-- ===== src/Swap/Hex.antt =====
-- Hexadecimal text: `HexStr` of key.h without spaces, and `ParseHex` of script.cpp. A text is the list of
-- its character codes; a C string ends at a zero, which is no digit.
pub mod RoundTrip
use cross_chain.Prelude.{
  ℕ, ◌+◌, ◌-◌, ◌*◌, ◌/◌, ◌%◌, ltb, leb, ◌==◌, Bool, true, false, ◌||◌, ◌&&◌, Option, none, some,
  List, [], ◌∷◌, if◌then◌else◌,
}
use cross_chain.Swap.Script.{Bytes}

-- `hexmap`
unfoldable pub hexmap : ℕ → ℕ
hexmap d = if ltb d 10 then 48 + d else 87 + d

-- `HexStr`
unfoldable pub hex_str : Bytes → List ℕ
unfolding hexmap
hex_str [] = []
hex_str (val ∷ rest) = hexmap (val / 16) ∷ hexmap (val % 16) ∷ hex_str rest

-- `phexdigit`
unfoldable pub phexdigit : ℕ → Option ℕ
phexdigit c =
    if leb 48 c && leb c 57
    then some (c - 48)
    else if leb 65 c && leb c 70
    then some (c - 55)
    else if leb 97 c && leb c 102
    then some (c - 87)
    else none

-- `isspace`, in the C locale.
unfoldable pub isspace : ℕ → Bool
isspace c = c == 32 || (leb 9 c && leb c 13)

-- `ParseHex`
unfoldable pub parse_hex : List ℕ → Bytes
unfolding phexdigit isspace
parse_hex [] = []
parse_hex (c ∷ []) = []
parse_hex (c ∷ d ∷ s) =
    let skipped = parse_hex (d ∷ s) in
    let rest = parse_hex s in if isspace c then skipped else byte (phexdigit c) (phexdigit d) rest
  where
    byte : Option ℕ → Option ℕ → Bytes → Bytes
    byte (some h) (some l) rest = (h * 16 + l) ∷ rest
    byte _ _ rest = []
