-- ===== src/Prelude/Text.antt =====
-- Rust's `str` as its bytes: literals, and the test of `std::str::from_utf8` (RFC 3629, table 3-7
-- of the Unicode standard).
use Prim.Native.Nat.{ℕ, zero, suc}
use Prim.Native.Char.{code}
use Prim.Native.String.{String}
use mathlib.Core.Bool.{Bool, false, ◌&&◌}
use mathlib.Core.Option.{Option, none, some}
use mathlib.Core.List.{List, [], ◌∷◌}
use razor_rpc.Prelude.Tests.{ltb, leb, ◌==◌, if◌then◌else◌}

-- The bytes of an ASCII literal.
abbrev pub bytes : String → List ℕ
bytes String.[] = []
bytes (String.◌∷◌ c s) = code c ∷ bytes s

-- How many continuation bytes follow, and the range of the first of them.
pub record Lead : Type 0 where
  pub count : ℕ
  pub lo : ℕ
  pub hi : ℕ

lead_of : ℕ → ℕ → ℕ → Option Lead
lead_of n lo hi = some (record { count = n; lo = lo; hi = hi })

lead : ℕ → Option Lead
unfolding lead_of
lead b =
    if ltb b 0x80
    then lead_of 0 0x80 0xbf
    else if ltb b 0xc2
    then none
    else if ltb b 0xe0
    then lead_of 1 0x80 0xbf
    else if b == 0xe0
    then lead_of 2 0xa0 0xbf
    else if b == 0xed
    then lead_of 2 0x80 0x9f
    else if ltb b 0xf0
    then lead_of 2 0x80 0xbf
    else if b == 0xf0
    then lead_of 3 0x90 0xbf
    else if ltb b 0xf4
    then lead_of 3 0x80 0xbf
    else if b == 0xf4
    then lead_of 3 0x80 0x8f
    else none

-- The state after one byte, `none` once the text is not UTF-8.
advance : Option Lead → ℕ → Option Lead
advance none b = none
advance (some s) b = elim s.count [
  | zero ↦ lead b
  | suc n ↦
      if leb s.lo b && leb b s.hi then some (record { count = n; lo = 0x80; hi = 0xbf }) else none
]

utf8_from : Option Lead → List ℕ → Bool
unfolding advance
utf8_from none [] = false
utf8_from (some s) [] = s.count == 0
utf8_from s (b ∷ bs) = utf8_from (advance s b) bs

-- Whether `from_utf8` accepts the bytes.
unfoldable pub is_utf8 : List ℕ → Bool
unfolding utf8_from advance lead lead_of
is_utf8 bs = utf8_from (some (record { count = 0; lo = 0x80; hi = 0xbf })) bs
