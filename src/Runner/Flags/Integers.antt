-- ===== src/Runner/Flags/Integers.antt =====
-- `strconv.ParseInt(s, 0, 64)`, which reads the value of an integer flag of deltasync.go. A number
-- is its bit pattern of 64 bits.
use ahv_to_ove_operator.Base.{
  ℕ, ◌+◌, ◌-◌, ◌*◌, ◌^◌, ◌%◌, Bool, true, false, ◌&&◌, ◌||◌, not, ◌==◌, leb, ltb, [], ◌∷◌, Text,
  Option, none, some, if◌then◌else◌, is_nil,
}
use ahv_to_ove_operator.Base.Decimals.{is_digit}

-- `'a' - 'A'` set, as `lower` does to a byte.
abbrev is_letter : ℕ → ℕ → Bool
is_letter lower c = c == lower || c + 32 == lower

abbrev digit_value : ℕ → Option ℕ
digit_value c =
    if is_digit c
    then some (c - b'0')
    else if leb b'a' c && leb c b'z'
    then some (c - b'a' + 10)
    else if leb b'A' c && leb c b'Z'
    then some (c - b'A' + 10)
    else none

-- The digits of a base with underscores between, behind the number `n`.
unfoldable read_number : ℕ → ℕ → Text → Option ℕ
read_number base n [] = some n
read_number base n (c ∷ s) =
    let skip = read_number base n s in
    elim (c == b'_') [
      | true ↦ skip
      | false ↦ elim (digit_value c) [
        | none ↦ none
        | some d ↦
            let rest = read_number base (n * base + d) s in
            if ltb d base && ltb (n * base + d) (2 ^ 64) then rest else none
      ]
    ]

-- What came before a byte, as `underscoreOK` remembers it.
pub data LastSeen : Type 0 where
  at_start digit underscore other : LastSeen

abbrev is_number : Bool → ℕ → Bool
is_number hex c = is_digit c || (hex && (leb b'a' c && leb c b'f' || leb b'A' c && leb c b'F'))

unfoldable underscores : Bool → LastSeen → Text → Bool
underscores hex underscore [] = false
underscores hex _ [] = true
underscores hex seen (c ∷ s) =
    let on_digit = underscores hex digit s in
    let on_underscore = underscores hex underscore s in
    let on_other = underscores hex other s in
    if is_number hex c
    then on_digit
    else if c == b'_'
    then elim seen [ digit ↦ on_underscore | at_start ↦ false | underscore ↦ false | other ↦ false ]
    else elim seen [
      | underscore ↦ false
      | digit ↦ on_other
      | at_start ↦ on_other
      | other ↦ on_other
    ]

-- The base that the prefix names, the digits, and whether underscores stand where they may.
unfoldable with_base : Text → Option (ℕ × Text × Bool)
unfolding underscores
with_base [] = none
with_base (c ∷ []) =
    some (if c == b'0' then 8 else 10, if c == b'0' then [] else c ∷ [], not (c == b'_'))
with_base (c ∷ d ∷ s) =
    if not (c == b'0')
    then some (10, c ∷ d ∷ s, underscores false at_start (c ∷ d ∷ s))
    else if is_letter b'b' d && not (is_nil s)
    then some (2, s, underscores false digit s)
    else if is_letter b'o' d && not (is_nil s)
    then some (8, s, underscores false digit s)
    else if is_letter b'x' d && not (is_nil s)
    then some (16, s, underscores true digit s)
    else some (8, d ∷ s, underscores false at_start (c ∷ d ∷ s))

unfoldable parse_unsigned : Text → Option ℕ
unfolding with_base read_number
parse_unsigned s = elim (with_base s) [
  | none ↦ none
  | some (base, digits, fine) ↦ if fine then read_number base 0 digits else none
]

abbrev signed_range : Bool → Option ℕ → Option ℕ
signed_range negative none = none
signed_range true (some n) = if leb n (2 ^ 63) then some ((2 ^ 64 - n) % 2 ^ 64) else none
signed_range false (some n) = if ltb n (2 ^ 63) then some n else none

unfoldable pub parse_int : Text → Option ℕ
unfolding parse_unsigned
parse_int [] = none
parse_int (c ∷ s) =
    if c == b'-'
    then signed_range true (parse_unsigned s)
    else if c == b'+'
    then signed_range false (parse_unsigned s)
    else signed_range false (parse_unsigned (c ∷ s))
