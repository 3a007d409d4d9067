-- ===== src/Money/Reading.antt =====
-- Reading printed numbers and the parts of a money text.
use stablecoin_treasury.Prelude.{
  ℕ, zero, suc, ◌+◌, ◌*◌, ◌/◌, ◌%◌, ◌≤◌, ◌<◌, ◌≡◌, refl, sym, ap, subst, ◌∙◌, ◌⊎◌, inl, inr, true,
  false, some, [], ◌∷◌, ◌++◌, arith, ltb, ◌==◌, Bool-cases, All,
}
use stablecoin_treasury.Prelude.Strings.{Text}
use stablecoin_treasury.Prelude.Int.{pos, sub_ℕ}
use stablecoin_treasury.Money.Digits.{
  is_kept, clean, digit_value, read_digits, read_some, to_pos, to_neg, radix, big_int, print_digits,
  print,
}
use stablecoin_treasury.Money.Convert.{first_part, after_dot}

-- A decimal digit is read as its value.
digit-read :
    (acc d : ℕ) (rest : Text)
    → d < 10
    → read_digits 10 acc ((48 + d) ∷ rest) ≡ read_digits 10 (acc * 10 + d) rest
unfolding read_digits
digit-read acc d rest h =
    let value : digit_value (48 + d) ≡ d = ground arith in
    let small : ltb d 10 ≡ true = ground arith in rw (value, small) refl

-- The digits of a number are read as the number.
printed-read :
    (fuel n : ℕ) (rest : Text)
    → n ≤ fuel
    → read_digits 10 0 (print_digits fuel n rest) ≡ read_digits 10 n rest
unfolding print_digits
printed-read zero n rest h =
    let none_left : n ≡ 0 = omega (arith, h) in rw none_left (digit-read 0 0 rest (ground arith))
printed-read (suc fuel) n rest h = elim (Bool-cases (ltb n 10)) [
  | inl small ↦
      let same : 0 * 10 + n ≡ n = omega arith in
      rw small (digit-read 0 n rest (ground arith) ∙ ap (λ x. read_digits 10 x rest) same)
  | inr large ↦
      let less : n / 10 ≤ fuel = ground arith in
      let back : n / 10 * 10 + n % 10 ≡ n = omega arith in
      rw large (
        printed-read fuel (n / 10) ((48 + n % 10) ∷ rest) less
        ∙ digit-read (n / 10) (n % 10) rest (omega arith)
        ∙ ap (λ x. read_digits 10 x rest) back)
]

-- The first digit of a positive number is no zero.
printed_from :
    (fuel n : ℕ) (rest : Text)
    → n ≤ fuel
    → 0 < n
    → (d : ℕ) × (more : Text) × (print_digits fuel n rest ≡ d ∷ more) × (49 ≤ d) × (d ≤ 57)
unfolding print_digits
printed_from zero n rest h positive = ground arith
printed_from (suc fuel) n rest h positive = elim (Bool-cases (ltb n 10)) [
  | inl small ↦ rw small (48 + n, rest, refl, ground arith, ground arith)
  | inr large ↦
      rw large (printed_from fuel (n / 10) ((48 + n % 10) ∷ rest) (ground arith) (ground arith))
]

abbrev pub IsDigit : ℕ → Type 0
IsDigit c = (48 ≤ c) × (c ≤ 57)

pub printed-IsDigit :
    (fuel n : ℕ) (rest : Text)
    → n ≤ fuel
    → All IsDigit rest
    → All IsDigit (print_digits fuel n rest)
unfolding print_digits
printed-IsDigit zero n rest h digits = ((omega arith, omega arith), digits)
printed-IsDigit (suc fuel) n rest h digits = elim (Bool-cases (ltb n 10)) [
  | inl small ↦ rw small ((omega arith, ground arith), digits)
  | inr large ↦ rw large (
      printed-IsDigit fuel (n / 10) ((48 + n % 10) ∷ rest) (ground arith)
        ((omega arith, omega arith), digits))
]

pub digit-kept : (c : ℕ) → IsDigit c → is_kept c ≡ true
digit-kept c h = ground arith

pub digit-no_point : (c : ℕ) → IsDigit c → (c == b'.') ≡ false
digit-no_point c h = ground arith

pub clean-digits : (t rest : Text) → All IsDigit t → clean (t ++ rest) ≡ t ++ clean rest
unfolding clean
clean-digits [] rest h = refl
clean-digits (c ∷ cs) rest h = rw (digit-kept c h.0, clean-digits cs rest h.1) refl

pub first_part-digits : (t rest : Text) → All IsDigit t → first_part (t ++ b'.' ∷ rest) ≡ t
unfolding first_part
first_part-digits [] rest h = refl
first_part-digits (c ∷ cs) rest h = rw (digit-no_point c h.0, first_part-digits cs rest h.1) refl

pub after_dot-digits : (t rest : Text) → All IsDigit t → after_dot (t ++ b'.' ∷ rest) ≡ rest
unfolding after_dot
after_dot-digits [] rest h = refl
after_dot-digits (c ∷ cs) rest h = rw (digit-no_point c h.0, after_dot-digits cs rest h.1) refl

-- Reading a printed number as a whole.
print-read : (n : ℕ) → read_digits 10 0 (print n) ≡ some n
unfolding print read_digits
print-read n = printed-read n n [] (omega arith)

-- A number prints as "0" or with a first digit that is no zero.
pub print-cases :
    (n : ℕ)
    → ((n ≡ 0) × (print n ≡ b'0' ∷ []))
      ⊎ ((d : ℕ) × (more : Text) × (print n ≡ d ∷ more) × (49 ≤ d) × (d ≤ 57))
unfolding print print_digits
print-cases n = elim (Bool-cases (ltb 0 n)) [
  | inl positive ↦ inr (printed_from n n [] (omega arith) (ground arith))
  | inr zero_only ↦ let none_left : n ≡ 0 = ground arith in inl (none_left, rw none_left refl)
]

read_some-print : (n : ℕ) → read_some 10 (print n) ≡ some n
read_some-print n = elim (print-cases n) [
  | inl (z, e) ↦ rw e (ap (read_digits 10 0) (sym e) ∙ print-read n)
  | inr (d, more, e, lo, hi) ↦ rw e (ap (read_digits 10 0) (sym e) ∙ print-read n)
]

-- A text that begins with a digit that is no zero.
big_int-numeral :
    (d : ℕ) (more : Text)
    → 49 ≤ d
    → d ≤ 57
    → big_int (d ∷ more) ≡ to_pos (read_digits 10 0 (d ∷ more))
unfolding big_int
big_int-numeral d more lo hi =
    let no_minus : (d == b'-') ≡ false = ground arith in
    let no_plus : (d == b'+') ≡ false = ground arith in
    let no_zero : (d == b'0') ≡ false = ground arith in rw (no_minus, no_plus, no_zero) refl

pub big_int-print : (n : ℕ) → big_int (print n) ≡ some (pos n)
unfolding big_int
big_int-print n = elim (print-cases n) [
  | inl (z, e) ↦ rw (e, z) refl
  | inr (d, more, e, lo, hi) ↦
      rw e (big_int-numeral d more lo hi ∙ ap to_pos (ap (read_digits 10 0) (sym e) ∙ print-read n))
]

pub big_int-minus : (n : ℕ) → big_int (b'-' ∷ print n) ≡ some (sub_ℕ 0 n)
unfolding big_int
big_int-minus n = ap to_neg (read_some-print n)

big_int-zero :
    (b : ℕ) → b < 10 → big_int (b'0' ∷ (48 + b) ∷ []) ≡ to_pos (read_digits 10 0 ((48 + b) ∷ []))
unfolding big_int
big_int-zero b h = let decimal : (radix (48 + b) == 10) ≡ true = ground arith in rw decimal refl

read_two :
    (a b : ℕ) → a < 10 → b < 10 → read_digits 10 0 ((48 + a) ∷ (48 + b) ∷ []) ≡ some (a * 10 + b)
unfolding read_digits
read_two a b ha hb =
    let first : 0 * 10 + a ≡ a = omega arith in
    digit-read 0 a ((48 + b) ∷ []) ha
    ∙ ap (λ x. read_digits 10 x ((48 + b) ∷ [])) first
    ∙ digit-read a b [] hb

read_one : (b : ℕ) → b < 10 → read_digits 10 0 ((48 + b) ∷ []) ≡ some (0 * 10 + b)
unfolding read_digits
read_one b h = digit-read 0 b [] h

-- The two digits of a fraction.
pub big_int-fraction :
    (a b : ℕ) → a < 10 → b < 10 → big_int ((48 + a) ∷ (48 + b) ∷ []) ≡ some (pos (a * 10 + b))
big_int-fraction a b ha hb = elim (Bool-cases (ltb 0 a)) [
  | inl positive ↦
      big_int-numeral (48 + a) ((48 + b) ∷ []) (ground arith) (ground arith)
      ∙ ap to_pos (read_two a b ha hb)
  | inr none_left ↦
      let zero_a : a ≡ 0 = ground arith in
      subst (λ x. big_int ((48 + x) ∷ (48 + b) ∷ []) ≡ some (pos (x * 10 + b))) (sym zero_a)
        (big_int-zero b hb ∙ ap to_pos (read_one b hb))
]
