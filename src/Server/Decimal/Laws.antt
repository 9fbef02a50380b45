-- ===== src/Server/Decimal/Laws.antt =====
-- Numbers and lists of text, written and read back.
use razor_rpc.Prelude.{
  ℕ, zero, suc, ◌+◌, ◌-◌, ◌*◌, ◌/◌, ◌%◌, ◌^◌, ◌<◌, ◌≤◌, ◌≡◌, ◌≢◌, ◌∙◌, refl, ap, List, [], ◌∷◌,
  ◌++◌, some, All, ltb, arith, Bool-cases, inl, inr,
}
use razor_rpc.Prelude.Int.{pos}
use razor_rpc.Server.Decimal.{
  digits, decimal, to_string, parse_digits, parse_unsigned, parse_i32, split_first, split, join,
}

parse_digits-step :
    (b a d : ℕ) (acc : List ℕ)
    → d < 10
    → a * 10 + d ≤ b
    → parse_digits b a ((48 + d) ∷ acc) ≡ parse_digits b (a * 10 + d) acc
unfolding parse_digits
parse_digits-step b a d acc h k = ground arith

parse_digits-digits :
    (f n b : ℕ) (acc : List ℕ)
    → n < f
    → n ≤ b
    → parse_digits b 0 (digits f n acc) ≡ parse_digits b n acc
unfolding digits
parse_digits-digits zero n b acc h k = absurd (omega arith)
parse_digits-digits (suc f) n b acc h k = elim (Bool-cases (ltb n 10)) [
  | inl e ↦
      let first = parse_digits-step b 0 n acc (ground (arith, e)) (omega arith) in
      let whole : 0 * 10 + n ≡ n = omega arith in
      rw e (first ∙ ap (λ (x : ℕ). parse_digits b x acc) whole)
  | inr e ↦
      let ih =
        parse_digits-digits f (n / 10) b ((48 + n % 10) ∷ acc) (ground (arith, e)) (omega arith) in
      let step = parse_digits-step b (n / 10) (n % 10) acc (omega arith) (omega arith) in
      let whole : n / 10 * 10 + n % 10 ≡ n = omega arith in
      rw e (ih ∙ step ∙ ap (λ (x : ℕ). parse_digits b x acc) whole)
]

abbrev IsDigit : ℕ → Type 0
IsDigit c = (48 ≤ c) × (c ≤ 57)

digits-All : (f n : ℕ) (acc : List ℕ) → All IsDigit acc → All IsDigit (digits f n acc)
unfolding digits
digits-All zero n acc h = h
digits-All (suc f) n acc h = elim (Bool-cases (ltb n 10)) [
  | inl e ↦ rw e ((omega arith, ground (arith, e)), h)
  | inr e ↦ rw e (digits-All f (n / 10) ((48 + n % 10) ∷ acc) ((omega arith, omega arith), h))
]

digits-cons : (f n : ℕ) (acc : List ℕ) → n < f → (c : ℕ) × (cs : List ℕ) × (digits f n acc ≡ c ∷ cs)
unfolding digits
digits-cons zero n acc h = absurd (omega arith)
digits-cons (suc f) n acc h = elim (Bool-cases (ltb n 10)) [
  | inl e ↦ (48 + n, acc, rw e refl)
  | inr e ↦ rw e (digits-cons f (n / 10) ((48 + n % 10) ∷ acc) (ground (arith, e)))
]

decimal-All : (n : ℕ) → All IsDigit (decimal n)
unfolding decimal
decimal-All n = digits-All (n + 1) n [] tt

parse_i32-digits :
    (c : ℕ) (cs : List ℕ) (n : ℕ)
    → IsDigit c
    → parse_digits (2 ^ 31 - 1) 0 (c ∷ cs) ≡ some n
    → parse_i32 (c ∷ cs) ≡ some (pos n)
unfolding parse_i32 parse_unsigned
parse_i32-digits c cs n d h = ground (arith, h)

parse_i32-decimal : (n : ℕ) → n < 2 ^ 31 → parse_i32 (decimal n) ≡ some (pos n)
unfolding decimal parse_digits
parse_i32-decimal n h =
    let (c, cs, e) = digits-cons (n + 1) n [] (omega arith) in
    let all : All IsDigit (c ∷ cs) = rw e at (decimal-All n) in
    let read : parse_digits (2 ^ 31 - 1) 0 (c ∷ cs) ≡ some n =
      rw e at (parse_digits-digits (n + 1) n (2 ^ 31 - 1) [] (omega arith) (omega arith)) in
    rw e (parse_i32-digits c cs n all.0 read)

pub parse_i32-to_string : (n : ℕ) → n < 2 ^ 31 → parse_i32 (to_string (pos n)) ≡ some (pos n)
unfolding to_string
parse_i32-to_string n h = parse_i32-decimal n h

not_comma : (xs : List ℕ) → All IsDigit xs → All (λ c. c ≢ 44) xs
not_comma [] h = tt
not_comma (x ∷ xs) h = (ground (arith, h.0), not_comma xs h.1)

pub to_string-no_comma : (n : ℕ) → All (λ c. c ≢ 44) (to_string (pos n))
unfolding to_string
to_string-no_comma n = not_comma (decimal n) (decimal-All n)

split_first-word : (sep : ℕ) (xs : List ℕ) → All (λ c. c ≢ sep) xs → split_first sep xs ≡ (xs, [])
unfolding split_first
split_first-word sep [] h = refl
split_first-word sep (x ∷ xs) h = ground (arith, h.0, split_first-word sep xs h.1)

split_first-append :
    (sep : ℕ) (xs rest : List ℕ)
    → All (λ c. c ≢ sep) xs
    → split_first sep (xs ++ (sep ∷ rest)) ≡ (xs, split sep rest)
unfolding split_first split
split_first-append sep [] rest h = ground arith
split_first-append sep (x ∷ xs) rest h = ground (arith, h.0, split_first-append sep xs rest h.1)

-- Words without the separator, at least one, come back from a join.
pub split-join :
    (sep : ℕ) (x : List ℕ) (xs : List (List ℕ))
    → All (λ w. All (λ c. c ≢ sep) w) (x ∷ xs)
    → split sep (join sep (x ∷ xs)) ≡ x ∷ xs
unfolding split join
split-join sep x [] h = ground (arith, split_first-word sep x h.0)
split-join sep x (y ∷ ys) h =
    ground (arith, split_first-append sep x (join sep (y ∷ ys)) h.0, split-join sep y ys h.1)
