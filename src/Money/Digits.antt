-- ===== src/Money/Digits.antt =====
-- Digits and separators of a money text, and `BigInt(text)`.
use stablecoin_treasury.Prelude.{
  ℕ, zero, suc, ◌+◌, ◌-◌, ◌*◌, ◌/◌, ◌%◌, Bool, not, ◌&&◌, ◌||◌, Option, none, some, [], ◌∷◌, ltb,
  leb, ◌==◌, if◌then◌else◌, select,
}
use stablecoin_treasury.Prelude.Strings.{Text, is_space}
use stablecoin_treasury.Prelude.Int.{ℤ, pos, sub_ℕ}

abbrev pub is_digit : ℕ → Bool
is_digit c = leb 48 c && leb c 57

-- What `replace(/[,\s]/g, "")` keeps.
abbrev pub is_kept : ℕ → Bool
is_kept c = not (c == b',' || is_space c)

unfoldable pub clean : Text → Text
clean = select is_kept

-- The digits of a text from the left on, in the given base; `none` where another unit stands.
abbrev pub digit_value : ℕ → ℕ
digit_value c =
    if is_digit c
    then c - 48
    else if leb 97 c && leb c 102
    then c - 87
    else if leb 65 c && leb c 70
    then c - 55
    else 99

unfoldable pub read_digits : ℕ → ℕ → Text → Option ℕ
read_digits base acc [] = some acc
read_digits base acc (c ∷ cs) =
    let rest = read_digits base (acc * base + digit_value c) cs in
    if ltb (digit_value c) base then rest else none

-- At least one digit.
abbrev pub read_some : ℕ → Text → Option ℕ
read_some base [] = none
read_some base (c ∷ cs) = read_digits base 0 (c ∷ cs)

abbrev pub to_pos : Option ℕ → Option ℤ
to_pos none = none
to_pos (some n) = some (pos n)

abbrev pub to_neg : Option ℕ → Option ℤ
to_neg none = none
to_neg (some n) = some (sub_ℕ 0 n)

-- The base that a letter after a leading 0 stands for; 10 for none.
abbrev pub radix : ℕ → ℕ
radix c =
    if c == b'x' || c == b'X'
    then 16
    else if c == b'o' || c == b'O'
    then 8
    else if c == b'b' || c == b'B'
    then 2
    else 10

-- A text that begins with 0: a prefixed number, or a decimal one.
abbrev pub big_int_zero : Text → Option ℤ
big_int_zero [] = some (pos 0)
big_int_zero (x ∷ cs) =
    if radix x == 10 then to_pos (read_digits 10 0 (x ∷ cs)) else to_pos (read_some (radix x) cs)

-- `BigInt(text)` of a text with no white space: "" is 0n, a sign goes with decimal digits only,
-- and `none` is the SyntaxError.
unfoldable pub big_int : Text → Option ℤ
unfolding read_digits
big_int [] = some (pos 0)
big_int (c ∷ cs) =
    if c == b'-'
    then to_neg (read_some 10 cs)
    else if c == b'+'
    then to_pos (read_some 10 cs)
    else if c == b'0'
    then big_int_zero cs
    else to_pos (read_digits 10 0 (c ∷ cs))

-- `String(n)` of a non-negative BigInt, with fuel; `n` itself is fuel enough.
unfoldable pub print_digits : ℕ → ℕ → Text → Text
print_digits zero n rest = (48 + n % 10) ∷ rest
print_digits (suc fuel) n rest =
    let more = print_digits fuel (n / 10) ((48 + n % 10) ∷ rest) in
    if ltb n 10 then (48 + n) ∷ rest else more

unfoldable pub print : ℕ → Text
unfolding print_digits
print n = print_digits n n []
