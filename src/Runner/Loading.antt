-- ===== src/Runner/Loading.antt =====
-- `loadRegions` of deltasync.go, on the content of the file. White space is that of ASCII; a line
-- longer than the buffer of the scanner is not modelled.
pub mod RoundTrip
use ahv_to_ove_operator.Base.{
  ℕ, Bool, ◌||◌, ◌&&◌, ◌==◌, leb, List, [], ◌∷◌, Text, Option, none, some, if◌then◌else◌, is_nil,
  true, false,
}
use ahv_to_ove_operator.Base.Decimals.{scan_int, skip_spaces, is_space}
use ahv_to_ove_operator.Base.Spaces.{is_white, trim_space}
use ahv_to_ove_operator.Regions.{ChangedRegion}

-- The lines that the scanner returns; the last needs no newline.
abbrev onto_first : ℕ → List Text → List Text
onto_first c [] = (c ∷ []) ∷ []
onto_first c (l ∷ ls) = (c ∷ l) ∷ ls

unfoldable pub lines : Text → List Text
lines [] = []
lines (c ∷ s) = let rest = lines s in if c == b'\n' then [] ∷ rest else onto_first c rest

-- A space of the format: one in the text at least, but at its end.
unfoldable pub expect_space : Text → Option Text
expect_space [] = some []
expect_space (c ∷ s) = if is_space c then some (skip_spaces s) else none

-- `%s`
unfoldable pub word : Text → Text
word [] = []
word (c ∷ s) = let rest = word s in if is_white c then [] else c ∷ rest

abbrev non_empty : Text → Option Text
non_empty [] = none
non_empty (c ∷ s) = some (c ∷ s)

abbrev and_then : {A B : Type 0} → Option A → (A → Option B) → Option B
and_then none f = none
and_then (some a) f = f a

-- `fmt.Sscanf(line, "%d %d %s", ...)`; `none` is an error.
unfoldable pub parse_line : Text → Option ChangedRegion
unfolding expect_space word
parse_line line = and_then (scan_int 64 line) (λ (offset, r1). and_then (expect_space r1) (λ r2.
    and_then (scan_int 64 r2) (λ (len, r3). and_then (expect_space r3) (λ r4.
      and_then (non_empty (word (skip_spaces r4)))
        (λ typ. some (record { offset = offset; len = len; typ = typ }))))))

unfoldable pub load_lines : List Text → Option (List ChangedRegion)
unfolding parse_line trim_space
load_lines [] = some []
load_lines (l ∷ ls) =
    let rest = load_lines ls in
    let line = trim_space l in
    if is_nil line
    then rest
    else and_then (parse_line line) (λ r. and_then rest (λ rs. some (r ∷ rs)))

unfoldable pub load_regions : Text → Option (List ChangedRegion)
unfolding lines load_lines
load_regions file = load_lines (lines file)
