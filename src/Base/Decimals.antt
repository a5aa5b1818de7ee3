-- ===== src/Base/Decimals.antt =====
-- `%d` of the package fmt: how a number is printed, and how the leading number of a text is read.
pub mod RoundTrip
use Prim.Native.Nat.{ℕ, zero, suc, ◌+◌, ◌-◌, ◌*◌, ◌/◌, ◌%◌, ◌^◌}
use mathlib.Core.Bool.{Bool, true, false, ◌&&◌, ◌||◌}
use mathlib.Core.List.{[], ◌∷◌}
use mathlib.Core.Option.{Option, none, some}
use ahv_to_ove_operator.Base.Tests.{ltb, leb, ◌==◌, if◌then◌else◌}
use ahv_to_ove_operator.Base.Texts.{Text}

-- The digits of `n`, least first, on fuel. A number has at most as many digits as its value, and one.
unfoldable pub digits_from : ℕ → ℕ → Text
digits_from zero n = []
digits_from (suc fuel) n =
    let rest = digits_from fuel (n / 10) in (b'0' + n % 10) ∷ (if ltb n 10 then [] else rest)

unfoldable pub reverse_onto : Text → Text → Text
reverse_onto [] out = out
reverse_onto (c ∷ s) out = reverse_onto s (c ∷ out)

-- An int64 has at most 20 digits.
unfoldable pub print_nat : ℕ → Text
unfolding digits_from reverse_onto
print_nat n = reverse_onto (digits_from 20 n) []

abbrev pub is_digit : ℕ → Bool
is_digit c = leb b'0' c && leb c b'9'

abbrev pub is_space : ℕ → Bool
is_space c = c == b' ' || c == b'\t' || c == b'\r' || c == 11 || c == 12

unfoldable pub skip_spaces : Text → Text
skip_spaces [] = []
skip_spaces (c ∷ s) = let rest = skip_spaces s in if is_space c then rest else c ∷ s

-- The value of the digits in front, behind the number `n`.
unfoldable pub read_digits : ℕ → Text → ℕ × Text
read_digits n [] = (n, [])
read_digits n (c ∷ s) =
    let rest = read_digits (n * 10 + (c - b'0')) s in if is_digit c then rest else (n, c ∷ s)

abbrev starts_digit : Text → Bool
starts_digit [] = false
starts_digit (c ∷ s) = is_digit c

unsigned : Text → Option (ℕ × Text)
unfolding read_digits
unsigned s = if starts_digit s then some (read_digits 0 s) else none

-- The bit pattern of a number in the range of `w` bits, signed.
abbrev in_range : ℕ → Bool → Option (ℕ × Text) → Option (ℕ × Text)
in_range w negative none = none
in_range w true (some (n, rest)) =
    if leb n (2 ^ (w - 1)) then some ((2 ^ w - n) % 2 ^ w, rest) else none
in_range w false (some (n, rest)) = if ltb n (2 ^ (w - 1)) then some (n, rest) else none

scan_sign : ℕ → Text → Option (ℕ × Text)
unfolding unsigned
scan_sign w [] = none
scan_sign w (c ∷ s) =
    if c == b'-'
    then in_range w true (unsigned s)
    else if c == b'+'
    then in_range w false (unsigned s)
    else in_range w false (unsigned (c ∷ s))

-- `Sscanf(s, "%d", &x)` for an x of `w` bits: spaces, a sign, digits; `none` leaves x alone.
unfoldable pub scan_int : ℕ → Text → Option (ℕ × Text)
unfolding scan_sign skip_spaces
scan_int w s = scan_sign w (skip_spaces s)

-- `%d` of a number of `w` bits, signed.
unfoldable pub print_int : ℕ → ℕ → Text
unfolding print_nat
print_int w n = if ltb n (2 ^ (w - 1)) then print_nat n else b'-' ∷ print_nat (2 ^ w - n)
