-- ===== src/Layout.antt =====
-- What the packet headers ask of the package zerocopy: its `little_endian` integers of w bytes.
-- The package is not in the repository: `ByteOrder` is a parameter of every definition that uses it.
use native.Mathlib.Nat.{pow-suc}
use razor_rpc.Prelude.{
  ℕ, zero, suc, ◌+◌, ◌*◌, ◌/◌, ◌%◌, ◌^◌, ◌<◌, ◌≡◌, refl, List, [], ◌∷◌, ◌++◌, arith, length, take,
  drop, take-append, drop-append, ap,
}

pub record ByteOrder : Type 0 where
  pub encode : ℕ → ℕ → List ℕ
  pub decode : List ℕ → ℕ
  pub length-encode : (w n : ℕ) → length (encode w n) ≡ w
  pub decode-encode : (w n : ℕ) → n < 256 ^ w → decode (encode w n) ≡ n

-- The documented layout, least significant byte first: an instance for tests.
to_le : ℕ → ℕ → List ℕ
to_le zero n = []
to_le (suc w) n = n % 256 ∷ to_le w (n / 256)

from_le : List ℕ → ℕ
from_le [] = 0
from_le (b ∷ bs) = b + 256 * from_le bs

length-to_le : (w n : ℕ) → length (to_le w n) ≡ w
unfolding to_le
length-to_le zero n = refl
length-to_le (suc w) n = ap suc (length-to_le w (n / 256))

from_le-to_le : (w n : ℕ) → n < 256 ^ w → from_le (to_le w n) ≡ n
unfolding from_le to_le
from_le-to_le zero n h = omega arith
from_le-to_le (suc w) n h = omega (arith, from_le-to_le w (n / 256) (div_below w n h))
  where
    div_below : (v m : ℕ) → m < 256 ^ suc v → m / 256 < 256 ^ v
    div_below v m k = omega (arith, pow-suc 256 v)

unfoldable pub little_endian : ByteOrder
unfolding to_le from_le length-to_le from_le-to_le
little_endian = record {
  encode = to_le;
  decode = from_le;
  length-encode = length-to_le;
  decode-encode = from_le-to_le;
}

-- The next field of a packed struct, and the bytes behind it.
pub record Field : Type 0 where
  pub value : ℕ
  pub rest : List ℕ

module _ (z : ByteOrder) where
  unfoldable pub next_field : ℕ → List ℕ → Field
  next_field w bs = record { value = z.decode (take w bs); rest = drop w bs }

  pub take-encode : (w n : ℕ) (rest : List ℕ) → take w (z.encode w n ++ rest) ≡ z.encode w n
  take-encode w n rest = take-append w (z.encode w n) rest (z.length-encode w n)

  pub drop-encode : (w n : ℕ) (rest : List ℕ) → drop w (z.encode w n ++ rest) ≡ rest
  drop-encode w n rest = drop-append w (z.encode w n) rest (z.length-encode w n)
