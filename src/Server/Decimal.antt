-- ===== src/Server/Decimal.antt =====
-- What stream/src/server/graceful.rs uses of the standard library's text: `i32::to_string`, `str::parse` of an
-- i32, `split` and `join`.
pub mod Laws
use razor_rpc.Prelude.{
  ℕ, zero, suc, ◌+◌, ◌-◌, ◌*◌, ◌/◌, ◌%◌, ◌^◌, Bool, true, false, ◌&&◌, List, [], ◌∷◌, ◌++◌, map,
  Option, none, some, ltb, leb, ◌==◌, if◌then◌else◌,
}
use razor_rpc.Prelude.Int.{ℤ, pos, negsuc}

-- The decimal digits of a number before `acc`, on fuel of which the number and one more are enough.
unfoldable pub digits : ℕ → ℕ → List ℕ → List ℕ
digits zero n acc = acc
digits (suc fuel) n acc =
    let more = digits fuel (n / 10) ((48 + n % 10) ∷ acc) in
    if ltb n 10 then (48 + n) ∷ acc else more

unfoldable pub decimal : ℕ → List ℕ
decimal n = digits (n + 1) n []

unfoldable pub to_string : ℤ → List ℕ
to_string (pos n) = decimal n
to_string (negsuc n) = 45 ∷ decimal (n + 1)

-- The digits behind the sign, up to a bound.
unfoldable pub parse_digits : ℕ → ℕ → List ℕ → Option ℕ
parse_digits bound acc [] = some acc
parse_digits bound acc (c ∷ cs) =
    let next = acc * 10 + (c - 48) in
    let rest = parse_digits bound next cs in
    if leb 48 c && (leb c 57 && leb next bound) then rest else none

-- `parse::<i32>`
unfoldable pub parse_unsigned : ℕ → List ℕ → Option ℕ
parse_unsigned bound [] = none
parse_unsigned bound (c ∷ cs) = parse_digits bound 0 (c ∷ cs)

unfoldable pub negated : ℕ → ℤ
negated zero = pos 0
negated (suc n) = negsuc n

unfoldable pub parse_i32 : List ℕ → Option ℤ
parse_i32 [] = none
parse_i32 (c ∷ cs) =
    if c == 45
    then elim (parse_unsigned (2 ^ 31) cs) [ none ↦ none | some n ↦ some (negated n) ]
    else if c == 43
    then elim (parse_unsigned (2 ^ 31 - 1) cs) [ none ↦ none | some n ↦ some (pos n) ]
    else elim (parse_unsigned (2 ^ 31 - 1) (c ∷ cs)) [ none ↦ none | some n ↦ some (pos n) ]

-- `split`: at least one part.
unfoldable pub split_first : ℕ → List ℕ → List ℕ × List (List ℕ)
split_first sep [] = ([], [])
split_first sep (c ∷ cs) =
    let rest = split_first sep cs in
    if c == sep then ([], rest.0 ∷ rest.1) else (c ∷ rest.0, rest.1)

unfoldable pub split : ℕ → List ℕ → List (List ℕ)
split sep s = let p = split_first sep s in p.0 ∷ p.1

unfoldable pub join : ℕ → List (List ℕ) → List ℕ
join sep [] = []
join sep (x ∷ []) = x
join sep (x ∷ y ∷ ys) = x ++ (sep ∷ join sep (y ∷ ys))
