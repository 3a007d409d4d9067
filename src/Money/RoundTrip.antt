-- ===== src/Money/RoundTrip.antt =====
-- What `toString` prints, `fromString` reads back.
use stablecoin_treasury.Prelude.{
  ℕ, suc, ◌+◌, ◌*◌, ◌/◌, ◌%◌, ◌≡◌, refl, ap, ◌∙◌, inl, inr, true, false, ◌||◌, some, [], ◌∷◌, ◌++◌,
  arith, or_true, All,
}
use stablecoin_treasury.Prelude.Strings.{Text}
use stablecoin_treasury.Prelude.Int.{ℤ, pos, negsuc, sub_ℕ, ◌+ℤ◌, ◌-ℤ◌, ltb_ℤ, eq_of_parts}
use stablecoin_treasury.Money.Digits.{clean, big_int, print}
use stablecoin_treasury.Money.Convert.{
  magnitude, first_part, after_dot, second_part, starts_with_minus, combine, from_string, to_string,
}
use stablecoin_treasury.Money.Reading.{
  IsDigit, printed-IsDigit, digit-kept, digit-no_point, clean-digits, first_part-digits,
  after_dot-digits, print-cases, big_int-print, big_int-minus, big_int-fraction,
}

-- The text of a number of cents without its sign.
abbrev unsigned_text : ℕ → Text
unsigned_text n = print (n / 100) ++ b'.' ∷ (48 + n % 100 / 10) ∷ (48 + n % 100 % 10) ∷ []

digits_of : (n : ℕ) → All IsDigit (print n)
unfolding print
digits_of n = printed-IsDigit n n [] (omega arith) tt

fraction_kept :
    (n : ℕ)
    → clean (b'.' ∷ (48 + n % 100 / 10) ∷ (48 + n % 100 % 10) ∷ [])
      ≡ b'.' ∷ (48 + n % 100 / 10) ∷ (48 + n % 100 % 10) ∷ []
unfolding clean
fraction_kept n =
    rw
      (
        digit-kept (48 + n % 100 / 10) (omega arith, omega arith),
        digit-kept (48 + n % 100 % 10) (omega arith, omega arith),
      )
      refl

clean-unsigned : (n : ℕ) → clean (unsigned_text n) ≡ unsigned_text n
clean-unsigned n =
    clean-digits (print (n / 100)) (b'.' ∷ (48 + n % 100 / 10) ∷ (48 + n % 100 % 10) ∷ [])
      (digits_of (n / 100))
    ∙ ap (λ t. print (n / 100) ++ t) (fraction_kept n)

clean-minus : (n : ℕ) → clean (b'-' ∷ unsigned_text n) ≡ b'-' ∷ unsigned_text n
unfolding clean
clean-minus n = ap (λ t. b'-' ∷ t) (clean-unsigned n)

two_digits-first : (a b : ℕ) → IsDigit a → IsDigit b → first_part (a ∷ b ∷ []) ≡ a ∷ b ∷ []
unfolding first_part
two_digits-first a b ha hb = rw (digit-no_point a ha, digit-no_point b hb) refl

second_part-unsigned :
    (n : ℕ) → second_part (unsigned_text n) ≡ (48 + n % 100 / 10) ∷ (48 + n % 100 % 10) ∷ []
unfolding second_part
second_part-unsigned n =
    let tail = (48 + n % 100 / 10) ∷ (48 + n % 100 % 10) ∷ [] in
    ap first_part (after_dot-digits (print (n / 100)) tail (digits_of (n / 100)))
    ∙ two_digits-first (48 + n % 100 / 10) (48 + n % 100 % 10) (omega arith, omega arith)
        (omega arith, omega arith)

second_part-minus :
    (n : ℕ) → second_part (b'-' ∷ unsigned_text n) ≡ (48 + n % 100 / 10) ∷ (48 + n % 100 % 10) ∷ []
unfolding second_part after_dot
second_part-minus n = second_part-unsigned n

first_part-unsigned : (n : ℕ) → first_part (unsigned_text n) ≡ print (n / 100)
first_part-unsigned n =
    first_part-digits (print (n / 100)) ((48 + n % 100 / 10) ∷ (48 + n % 100 % 10) ∷ [])
      (digits_of (n / 100))

first_part-minus : (n : ℕ) → first_part (b'-' ∷ unsigned_text n) ≡ b'-' ∷ print (n / 100)
unfolding first_part
first_part-minus n = ap (λ t. b'-' ∷ t) (first_part-unsigned n)

-- What is read from a text whose parts are known.
from_string-parts :
    (value text whole_text : Text) (a b f : ℕ) (whole : ℤ)
    → clean value ≡ text
    → first_part text ≡ whole_text
    → big_int whole_text ≡ some whole
    → second_part text ≡ a ∷ b ∷ []
    → big_int (a ∷ b ∷ []) ≡ some (pos f)
    → from_string value
      ≡ some (combine (ltb_ℤ whole (pos 0) || starts_with_minus text) whole (pos f))
unfolding from_string
from_string-parts value text whole_text a b f whole e0 e1 e2 e3 e4 =
    rw (from_string, e0, e1, e2, e0, e3, e4, e0, e3) refl

no_minus : (n : ℕ) → starts_with_minus (unsigned_text n) ≡ false
no_minus n = elim (print-cases (n / 100)) [
  | inl (z, e) ↦ rw e refl
  | inr (d, more, e, lo, hi) ↦ rw e (ground arith)
]

cents_back : (n : ℕ) → n / 100 * 100 + (n % 100 / 10 * 10 + n % 100 % 10) ≡ n
cents_back n = omega arith

combine_pos : (m f n : ℕ) → m * 100 + f ≡ n → combine false (pos m) (pos f) ≡ pos n
unfolding combine ◌+ℤ◌
combine_pos m f n h = eq_of_parts (combine false (pos m) (pos f)) (pos n) (ground arith)

combine_neg : (m f k : ℕ) → m * 100 + f ≡ suc k → combine true (sub_ℕ 0 m) (pos f) ≡ negsuc k
unfolding combine ◌+ℤ◌ ◌-ℤ◌
combine_neg m f k h = ground arith

to_string-pos : (n : ℕ) → to_string (pos n) ≡ unsigned_text n
unfolding to_string
to_string-pos n =
    let same : magnitude (pos n) ≡ n = omega arith in
    let sign : ltb_ℤ (pos n) (pos 0) ≡ false = ground arith in rw (sign, same) refl

to_string-negsuc : (k : ℕ) → to_string (negsuc k) ≡ b'-' ∷ unsigned_text (suc k)
unfolding to_string
to_string-negsuc k =
    let same : magnitude (negsuc k) ≡ suc k = omega arith in
    let sign : ltb_ℤ (negsuc k) (pos 0) ≡ true = ground arith in rw (sign, same) refl

-- What `toString` prints of any number of cents, `fromString` reads back.
pub from_string-to_string : (c : ℤ) → from_string (to_string c) ≡ some c
from_string-to_string (pos n) =
    let f = n % 100 / 10 * 10 + n % 100 % 10 in
    let sign : (ltb_ℤ (pos (n / 100)) (pos 0) || starts_with_minus (unsigned_text n)) ≡ false =
      rw (no_minus n) (ground arith) in
    ap from_string (to_string-pos n)
    ∙ from_string-parts (unsigned_text n) (unsigned_text n) (print (n / 100)) (48 + n % 100 / 10)
        (48 + n % 100 % 10) f (pos (n / 100)) (clean-unsigned n) (first_part-unsigned n)
        (big_int-print (n / 100)) (second_part-unsigned n)
        (big_int-fraction (n % 100 / 10) (n % 100 % 10) (omega arith) (omega arith))
    ∙ ap (λ b. some (combine b (pos (n / 100)) (pos f))) sign
    ∙ ap some (combine_pos (n / 100) f n (cents_back n))
from_string-to_string (negsuc k) =
    let n = suc k in
    let f = n % 100 / 10 * 10 + n % 100 % 10 in
    ap from_string (to_string-negsuc k)
    ∙ from_string-parts (b'-' ∷ unsigned_text n) (b'-' ∷ unsigned_text n) (b'-' ∷ print (n / 100))
        (48 + n % 100 / 10) (48 + n % 100 % 10) f (sub_ℕ 0 (n / 100)) (clean-minus n)
        (first_part-minus n) (big_int-minus (n / 100)) (second_part-minus n)
        (big_int-fraction (n % 100 / 10) (n % 100 % 10) (omega arith) (omega arith))
    ∙ ap (λ b. some (combine b (sub_ℕ 0 (n / 100)) (pos f)))
        (or_true (ltb_ℤ (sub_ℕ 0 (n / 100)) (pos 0)))
    ∙ ap some (combine_neg (n / 100) f k (cents_back n))
