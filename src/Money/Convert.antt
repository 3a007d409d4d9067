-- ===== src/Money/Convert.antt =====
-- `Money` and the stateless helpers of packages/shared/money.mjs.
use stablecoin_treasury.Prelude.{
  ℕ, ◌+◌, ◌*◌, ◌/◌, ◌%◌, Bool, true, false, ◌&&◌, ◌||◌, Option, none, some, [], ◌∷◌, ◌++◌, leb,
  ◌==◌, if◌then◌else◌,
}
use stablecoin_treasury.Prelude.Int.{ℤ, pos, pos_part, neg_part, sub_ℕ, ltb_ℤ, ◌+ℤ◌, ◌-ℤ◌}
use stablecoin_treasury.Prelude.Strings.{Text}
use stablecoin_treasury.Money.Digits.{is_digit, clean, big_int, print}

-- SCALE
abbrev pub scale : ℕ
scale = 100

abbrev pub magnitude : ℤ → ℕ
magnitude z = pos_part z + neg_part z

abbrev with_sign : Bool → ℕ → ℤ
with_sign true n = sub_ℕ 0 n
with_sign false n = pos n

-- The parts of `clean.split(".")` that are used: the first and, where there is one, the second.
unfoldable pub first_part : Text → Text
first_part [] = []
first_part (c ∷ cs) = let rest = first_part cs in if c == b'.' then [] else c ∷ rest

unfoldable pub after_dot : Text → Text
after_dot [] = []
after_dot (c ∷ cs) = let rest = after_dot cs in if c == b'.' then cs else rest

unfoldable pub second_part : Text → Text
unfolding first_part after_dot
second_part t = first_part (after_dot t)

-- `padEnd(3, "0")`, then the first two units and the third.
abbrev pub fraction_head : Text → Text
fraction_head [] = b'0' ∷ b'0' ∷ []
fraction_head (a ∷ []) = a ∷ b'0' ∷ []
fraction_head (a ∷ b ∷ _) = a ∷ b ∷ []

abbrev pub fraction_third : Text → ℕ
fraction_third (_ ∷ _ ∷ c ∷ _) = c
fraction_third _ = b'0'

abbrev pub starts_with_minus : Text → Bool
starts_with_minus [] = false
starts_with_minus (c ∷ _) = c == b'-'

-- `sign * (abs(whole) * SCALE + frac)`; a fraction such as "-5" is negative.
unfoldable pub combine : Bool → ℤ → ℤ → ℤ
unfolding ◌+ℤ◌ ◌-ℤ◌
combine negative whole frac =
    let cents = pos (magnitude whole * scale) +ℤ frac in if negative then pos 0 -ℤ cents else cents

-- `Money.fromString`: the cents, or `none` for the SyntaxError of BigInt.
unfoldable pub from_string : Text → Option ℤ
unfolding clean first_part second_part big_int combine ◌+ℤ◌
from_string value =
    let text = clean value in
    let parts_1 = second_part text in
    elim (big_int (first_part text)) [
      | none ↦ none
      | some whole ↦ elim (big_int (fraction_head parts_1)) [
        | none ↦ none
        | some frac ↦
            let rounded = if leb b'5' (fraction_third parts_1) then frac +ℤ pos 1 else frac in
            some (combine (ltb_ℤ whole (pos 0) || starts_with_minus text) whole rounded)
      ]
    ]

-- `toString`
unfoldable pub to_string : ℤ → Text
unfolding print
to_string cents =
    let n = magnitude cents in
    let digits = print (n / scale) ++ b'.' ∷ (48 + n % scale / 10) ∷ (48 + n % scale % 10) ∷ [] in
    if ltb_ℤ cents (pos 0) then b'-' ∷ digits else digits

-- What the money helpers are called with. `absent` is null, undefined and "".
pub data Value : Type 0 where
  absent not_finite : Value
  finite : ℤ → Value
  money : ℤ → Value
  text : Text → Value

-- A JavaScript number that stands for cents, or NaN.
pub data Number : Type 0 where
  nan : Number
  cents : ℤ → Number

abbrev or_throw : Option ℤ → Option Number
or_throw none = none
or_throw (some c) = some (cents c)

-- `moneyNumber`; `none` is the SyntaxError.
unfoldable pub money_number : Value → Option Number
unfolding from_string
money_number absent = some (cents (pos 0))
money_number not_finite = some nan
money_number (finite c) = some (cents c)
money_number (money c) = some (cents c)
money_number (text t) = or_throw (from_string t)

-- `/^-?\d+(\.\d+)?$/`
unfoldable pub all_digits : Text → Bool
all_digits [] = true
all_digits (c ∷ cs) = is_digit c && all_digits cs

-- A digit, then digits up to the end or up to a point that digits follow.
unfoldable pub fraction_ok : Text → Bool
unfolding all_digits
fraction_ok [] = false
fraction_ok (c ∷ cs) = is_digit c && all_digits cs

unfoldable pub digits_ok : Text → Bool
unfolding fraction_ok
digits_ok [] = true
digits_ok (c ∷ cs) = if c == b'.' then fraction_ok cs else is_digit c && digits_ok cs

abbrev unsigned_ok : Text → Bool
unfolding digits_ok
unsigned_ok [] = false
unsigned_ok (c ∷ cs) = is_digit c && digits_ok cs

unfoldable pub is_money_format : Text → Bool
unfolding digits_ok unsigned_ok
is_money_format [] = false
is_money_format (c ∷ cs) = if c == b'-' then unsigned_ok cs else unsigned_ok (c ∷ cs)

-- `parseMoneyInput`; `none` is the RangeError.
unfoldable pub parse_money_input : Value → Option ℤ
unfolding clean is_money_format from_string
parse_money_input absent = none
parse_money_input not_finite = none
parse_money_input (finite c) = some c
parse_money_input (money c) = some c
parse_money_input (text t) = if is_money_format (clean t) then from_string (clean t) else none
