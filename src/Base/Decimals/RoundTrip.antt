-- ===== src/Base/Decimals/RoundTrip.antt =====
-- A printed number is read back, and is told from what follows.
use Prim.Native.Nat.{ℕ, zero, suc, ◌+◌, ◌*◌, ◌/◌, ◌%◌, ◌^◌, ◌<◌}
use mathlib.Core.Path.{◌≡◌, refl, sym, ap, ◌∙◌}
use mathlib.Core.Logic.{inl, inr}
use mathlib.Core.Bool.{true, false}
use mathlib.Core.List.{[], ◌∷◌, ◌++◌}
use native.Mathlib.Omega.{arith}
use ahv_to_ove_operator.Base.Tests.{◌==◌, ltb, Bool-cases}
use ahv_to_ove_operator.Base.Texts.{Text}
use ahv_to_ove_operator.Base.Lists.{All, is_nil}
use ahv_to_ove_operator.Base.Decimals.{
  digits_from, reverse_onto, print_nat, print_int, scan_int, scan_sign, unsigned, skip_spaces,
  is_space, is_digit, read_digits,
}
use mathlib.Core.Option.{some}

read_digit :
    (m d : ℕ) (out : Text)
    → d < 10
    → read_digits m ((b'0' + d) ∷ out) ≡ read_digits (m * 10 + d) out
unfolding read_digits
read_digit m d out h = ground (arith, h)

one_digit : (d : ℕ) (out : Text) → d < 10 → read_digits 0 ((b'0' + d) ∷ out) ≡ read_digits d out
one_digit d out h = read_digit 0 d out h ∙ ap (λ k. read_digits k out) (omega arith)

reverse-append : (ds out rest : Text) → reverse_onto ds out ++ rest ≡ reverse_onto ds (out ++ rest)
unfolding reverse_onto
reverse-append [] out rest = refl
reverse-append (d ∷ ds) out rest = reverse-append ds (d ∷ out) rest

-- More than any number of so many digits, and one.
abbrev pub pow10 : ℕ → ℕ
pow10 zero = 10
pow10 (suc fuel) = 10 * pow10 fuel

last_digit :
    (fuel n : ℕ) (out : Text)
    → ltb n 10 ≡ true
    → reverse_onto (digits_from (suc fuel) n) out ≡ (b'0' + n) ∷ out
unfolding digits_from reverse_onto
last_digit fuel n out e = rw e (ap (λ d. (b'0' + d) ∷ out) (ground (arith, e)))

more_digits :
    (fuel n : ℕ) (out : Text)
    → ltb n 10 ≡ false
    → reverse_onto (digits_from (suc fuel) n) out
      ≡ reverse_onto (digits_from fuel (n / 10)) ((b'0' + n % 10) ∷ out)
unfolding digits_from reverse_onto
more_digits fuel n out e = rw e refl

read-digits_from :
    (fuel n : ℕ) (out : Text)
    → n < pow10 fuel
    → read_digits 0 (reverse_onto (digits_from (suc fuel) n) out) ≡ read_digits n out
read-digits_from zero n out h =
    let e : ltb n 10 ≡ true = ground (arith, h) in
    rw (last_digit zero n out e) (one_digit n out (ground (arith, e)))
read-digits_from (suc fuel) n out h = elim (Bool-cases (ltb n 10)) [
  | inl e ↦ rw (last_digit (suc fuel) n out e) (one_digit n out (ground (arith, e)))
  | inr e ↦ rw (more_digits (suc fuel) n out e) (
      read-digits_from fuel (n / 10) ((b'0' + n % 10) ∷ out) (omega (arith, h))
      ∙ read_digit (n / 10) (n % 10) out (omega arith)
      ∙ ap (λ k. read_digits k out) (omega arith))
]

-- What is read in front of a text is the number printed there, whatever follows.
pub read_digits-print_nat :
    (n : ℕ) (out : Text) → n < pow10 19 → read_digits 0 (print_nat n ++ out) ≡ read_digits n out
unfolding print_nat
read_digits-print_nat n out h =
    rw (reverse-append (digits_from 20 n) [] out) (read-digits_from 19 n out h)

no_more :
    (n : ℕ) (out : Text)
    → reverse_onto (digits_from zero (n / 10)) ((b'0' + n % 10) ∷ out) ≡ (b'0' + n % 10) ∷ out
unfolding digits_from reverse_onto
no_more n out = refl

-- A printed number begins with a digit.
pub head-digits_from :
    (fuel n : ℕ) (out : Text)
    → (d : ℕ) × (s : Text) × (d < 10)
      × (reverse_onto (digits_from (suc fuel) n) out ≡ (b'0' + d) ∷ s)
head-digits_from zero n out = elim (Bool-cases (ltb n 10)) [
  | inl e ↦ (n, out, ground (arith, e), last_digit zero n out e)
  | inr e ↦ (n % 10, out, omega arith, more_digits zero n out e ∙ no_more n out)
]
head-digits_from (suc fuel) n out = elim (Bool-cases (ltb n 10)) [
  | inl e ↦ (n, out, ground (arith, e), last_digit (suc fuel) n out e)
  | inr e ↦
      let (d, s, h, eq) = head-digits_from fuel (n / 10) ((b'0' + n % 10) ∷ out) in
      (d, s, h, more_digits (suc fuel) n out e ∙ eq)
]

stops : (n c : ℕ) (s : Text) → is_digit c ≡ false → read_digits n (c ∷ s) ≡ (n, c ∷ s)
unfolding read_digits
stops n c s e = rw e refl

scan_head :
    (d : ℕ) (t : Text) (n : ℕ) (rest : Text)
    → d < 10
    → read_digits 0 ((b'0' + d) ∷ t) ≡ (n, rest)
    → ltb n (2 ^ 63) ≡ true
    → scan_int 64 ((b'0' + d) ∷ t) ≡ some (n, rest)
unfolding scan_int scan_sign unsigned skip_spaces read_digits
scan_head d t n rest h value small =
    let space : is_space (b'0' + d) ≡ false = ground (arith, h) in
    let minus : ((b'0' + d) == b'-') ≡ false = ground (arith, h) in
    let plus : ((b'0' + d) == b'+') ≡ false = ground (arith, h) in
    let digit : is_digit (b'0' + d) ≡ true = ground (arith, h) in
    rw (space, minus, plus, value, digit, small) refl

-- `%d` reads back what `%d` has printed, up to the first character that is no digit.
pub scan_int-print_int :
    (n c : ℕ) (s : Text)
    → n < 2 ^ 63
    → is_digit c ≡ false
    → scan_int 64 (print_int 64 n ++ (c ∷ s)) ≡ some (n, c ∷ s)
unfolding scan_int scan_sign unsigned skip_spaces print_int print_nat
scan_int-print_int n c s h e =
    let small : ltb n (2 ^ 63) ≡ true = ground (arith, h) in
    let (d, t, hd, eq) = head-digits_from 19 n (c ∷ s) in
    let whole : print_nat n ++ (c ∷ s) ≡ (b'0' + d) ∷ t =
      reverse-append (digits_from 20 n) [] (c ∷ s) ∙ eq in
    let value : read_digits 0 ((b'0' + d) ∷ t) ≡ (n, c ∷ s) =
      ap (read_digits 0) (sym whole)
      ∙ read_digits-print_nat n (c ∷ s) (omega (arith, h))
      ∙ stops n c s e in
    rw (small, whole) (scan_head d t n (c ∷ s) hd value small)

digits_from-All : (fuel n : ℕ) → All (λ c. is_digit c ≡ true) (digits_from fuel n)
unfolding digits_from
digits_from-All zero n = tt
digits_from-All (suc fuel) n = elim (Bool-cases (ltb n 10)) [
  | inl e ↦ rw e (ground arith, tt)
  | inr e ↦ rw e (ground arith, digits_from-All fuel (n / 10))
]

reverse-All : (P : ℕ → Type 0) (s out : Text) → All P s → All P out → All P (reverse_onto s out)
unfolding reverse_onto
reverse-All P [] out h k = k
reverse-All P (c ∷ s) out (h, hs) k = reverse-All P s (c ∷ out) hs (h, k)

-- A printed number has digits only.
pub print_int-All : (n : ℕ) → n < 2 ^ 63 → All (λ c. is_digit c ≡ true) (print_int 64 n)
unfolding print_int print_nat
print_int-All n h =
    let small : ltb n (2 ^ 63) ≡ true = ground (arith, h) in
    rw small (reverse-All _ (digits_from 20 n) [] (digits_from-All 20 n) tt)

-- A printed number is not empty.
pub print_int-some : (n : ℕ) → n < 2 ^ 63 → is_nil (print_int 64 n) ≡ false
unfolding print_int print_nat
print_int-some n h =
    let small : ltb n (2 ^ 63) ≡ true = ground (arith, h) in
    let (d, s, hd, eq) = head-digits_from 19 n [] in rw (small, eq) refl
