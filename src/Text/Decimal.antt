-- ===== src/Text/Decimal.antt =====
-- `u64` in decimal: `format!("{}", n)` and `s.parse::<u64>()`, over bytes.
use native.Mathlib.Nat.{pow-suc}
use mathlib.Core.List.{append_assoc, append-nil}
use swarm_intelligence_netwo.Prelude.{
  sym, ap, ◌∙◌, ℕ, zero, suc, ◌+◌, ◌-◌, ◌*◌, ◌/◌, ◌%◌, ◌^◌, ◌≤◌, ◌<◌, ◌≡◌, refl, sym, ap, ◌∙◌, inl,
  inr, Bool, true, false, ◌&&◌, Option, none, some, List, [], ◌∷◌, ◌++◌, arith, ltb, leb,
  if◌then◌else◌, ◌==◌, string_eq, nat_eq, pair_eq, Bool-cases, contains, contains-append, length,
  length-append,
}

-- `fuel` digits are enough for the numbers below `10 ^ fuel`.
unfoldable pub digits : ℕ → ℕ → List ℕ
digits zero n = []
digits (suc fuel) n =
    let rest = digits fuel (n / 10) ++ (48 + n % 10) ∷ [] in
    if ltb n 10 then (48 + n) ∷ [] else rest

unfoldable pub print_u64 : ℕ → List ℕ
print_u64 n = digits 20 n

is_digit : ℕ → Bool
is_digit c = leb 48 c && leb c 57

-- An error, `none`, at the first byte that is no digit or that takes the value out of `u64`.
parse_digits : ℕ → List ℕ → Option ℕ
unfolding is_digit
parse_digits value [] = some value
parse_digits value (c ∷ cs) =
    let next = value * 10 + (c - 48) in
    let rest = parse_digits next cs in if is_digit c && ltb next (2 ^ 64) then rest else none

-- The empty text is refused; one `+` may stand in front of the digits.
unfoldable pub parse_u64 : List ℕ → Option ℕ
unfolding parse_digits
parse_u64 [] = none
parse_u64 (c ∷ []) = parse_digits 0 (c ∷ [])
parse_u64 (c ∷ d ∷ cs) = if c == b'+' then parse_digits 0 (d ∷ cs) else parse_digits 0 (c ∷ d ∷ cs)

parse_digits-digits :
    (fuel n : ℕ) (rest : List ℕ)
    → n < 10 ^ fuel
    → n < 2 ^ 64
    → parse_digits 0 (digits fuel n ++ rest) ≡ parse_digits n rest
unfolding digits parse_digits
parse_digits-digits zero n rest h w = let none_left : n ≡ 0 = omega arith in rw none_left refl
parse_digits-digits (suc fuel) n rest h w = elim (Bool-cases (ltb n 10)) [
  | inl few ↦ rw few (ground arith)
  | inr many ↦
      let shorter : n / 10 < 10 ^ fuel = omega (arith, pow-suc 10 fuel) in
      rw many (
        rw append_assoc (
          rw (parse_digits-digits fuel (n / 10) ((48 + n % 10) ∷ rest) shorter (omega arith))
            (ground arith)))
]

All_digits : (fuel n c : ℕ) → contains (digits fuel n) c ≡ true → (48 ≤ c) × (c ≤ 57)
unfolding digits contains
All_digits zero n c h = ground arith
All_digits (suc fuel) n c h = ground (
  arith,
  All_digits fuel (n / 10) c,
  contains-append (digits fuel (n / 10)) ((48 + n % 10) ∷ []) c,
)

digits_nonempty : (fuel n : ℕ) → 0 < length (digits (suc fuel) n)
unfolding digits
digits_nonempty fuel n = ground (arith, length-append (digits fuel (n / 10)) ((48 + n % 10) ∷ []))

-- A decimal number has no byte but its digits.
pub contains-print_u64 : (n c : ℕ) → contains (print_u64 n) c ≡ true → (48 ≤ c) × (c ≤ 57)
unfolding print_u64
contains-print_u64 n c = All_digits 20 n c

parse_plain : (s : List ℕ) → 0 < length s → contains s b'+' ≡ false → parse_u64 s ≡ parse_digits 0 s
unfolding parse_u64 contains
parse_plain [] h w = absurd (omega arith)
parse_plain (c ∷ []) h w = refl
parse_plain (c ∷ d ∷ cs) h w = ground arith

parse_u64-digits :
    (fuel n : ℕ) → n < 10 ^ suc fuel → n < 2 ^ 64 → parse_u64 (digits (suc fuel) n) ≡ some n
unfolding parse_digits
parse_u64-digits fuel n h w =
    let no_plus : contains (digits (suc fuel) n) b'+' ≡ false =
      ground (arith, All_digits (suc fuel) n b'+') in
    parse_plain (digits (suc fuel) n) (digits_nonempty fuel n) no_plus
    ∙ (ap (parse_digits 0) (sym (append-nil (digits (suc fuel) n)))
        ∙ parse_digits-digits (suc fuel) n [] h w)

-- What is printed is parsed.
pub parse_u64-print_u64 : (n : ℕ) → n < 2 ^ 64 → parse_u64 (print_u64 n) ≡ some n
unfolding print_u64
parse_u64-print_u64 n h = parse_u64-digits 19 n (omega arith) h
