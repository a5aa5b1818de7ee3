-- ===== src/Runner/Flags/Enough.antt =====
-- The loop of `Parse` has a round for each argument, and that is enough.
use ahv_to_ove_operator.Base.{
  ℕ, zero, suc, ◌≤◌, ◌≡◌, ◌∙◌, sym, refl, List, [], ◌∷◌, Text, Option, none, some, arith,
}
use ahv_to_ove_operator.Runner.Flags.{
  Flags, ParseResult, Flag, is_source_file, is_regions, is_target, is_block, is_workers, Argument,
  ends, malformed, flag, Step, stop, next, set_flag, flag_named, assign_flag, bare_flag, known_flag,
  classify, parse_one, parse_loop, count,
}

-- What a round leaves is no longer than what lies behind its argument.
abbrev Short : List Text → Step → Type 0
Short rest (stop result) = Unit {0}
Short rest (next f left) = count left ≤ count rest

Short-assign_flag :
    (which : Flag) (v : Text) (f : Flags) (left rest : List Text)
    → count left ≤ count rest
    → Short rest (assign_flag which v f left)
unfolding assign_flag
Short-assign_flag which v f left rest h = go (set_flag which v f) refl
  where
    go : (o : Option Flags) → set_flag which v f ≡ o → Short rest (assign_flag which v f left)
    go none e = rw (e, assign_flag) tt
    go (some f') e = rw (e, assign_flag) h

Short-bare_flag :
    (which : Flag) (f : Flags) (rest : List Text) → Short rest (bare_flag which f rest)
Short-bare_flag is_block f rest = Short-assign_flag is_block _ f rest rest (omega arith)
Short-bare_flag is_source_file f [] = tt
Short-bare_flag is_regions f [] = tt
Short-bare_flag is_target f [] = tt
Short-bare_flag is_workers f [] = tt
Short-bare_flag is_source_file f (v ∷ rest) =
    Short-assign_flag is_source_file v f rest (v ∷ rest) (omega arith)
Short-bare_flag is_regions f (v ∷ rest) =
    Short-assign_flag is_regions v f rest (v ∷ rest) (omega arith)
Short-bare_flag is_target f (v ∷ rest) =
    Short-assign_flag is_target v f rest (v ∷ rest) (omega arith)
Short-bare_flag is_workers f (v ∷ rest) =
    Short-assign_flag is_workers v f rest (v ∷ rest) (omega arith)

Short-known_flag :
    (which : Flag) (value : Option Text) (f : Flags) (rest : List Text)
    → Short rest (known_flag which value f rest)
Short-known_flag which none f rest = Short-bare_flag which f rest
Short-known_flag which (some v) f rest = Short-assign_flag which v f rest rest (omega arith)

Short-parse_one : (arg : Text) (f : Flags) (rest : List Text) → Short rest (parse_one arg f rest)
unfolding parse_one
Short-parse_one arg f rest = go (classify arg) refl
  where
    named :
        (name : Text) (value : Option Text) (o : Option Flag)
        → classify arg ≡ flag name value
        → flag_named name ≡ o
        → Short rest (parse_one arg f rest)
    named name value none e k = rw (e, k, parse_one) tt
    named name value (some which) e k = rw (e, k, parse_one) (Short-known_flag which value f rest)

    go : (a : Argument) → classify arg ≡ a → Short rest (parse_one arg f rest)
    go ends e = rw (e, parse_one) tt
    go malformed e = rw (e, parse_one) tt
    go (flag name value) e = named name value (flag_named name) e refl

abbrev resume : ℕ → Step → ParseResult
resume fuel (stop result) = result
resume fuel (next f left) = parse_loop fuel f left

resume-eq :
    (n m : ℕ) (s : Step) (rest : List Text)
    → Short rest s
    → ((f : Flags) (left : List Text)
        → count left ≤ count rest
        → parse_loop n f left ≡ parse_loop m f left)
    → resume n s ≡ resume m s
resume-eq n m (stop result) rest h same = refl
resume-eq n m (next f left) rest h same = same f left h

parse_loop-suc :
    (fuel : ℕ) (f : Flags) (arg : Text) (rest : List Text)
    → parse_loop (suc fuel) f (arg ∷ rest) ≡ resume fuel (parse_one arg f rest)
unfolding parse_loop
parse_loop-suc fuel f arg rest = go (parse_one arg f rest) refl
  where
    go :
        (s : Step)
        → parse_one arg f rest ≡ s
        → parse_loop (suc fuel) f (arg ∷ rest) ≡ resume fuel (parse_one arg f rest)
    go (stop result) e = rw (e, parse_loop) refl
    go (next f' left) e = rw (e, parse_loop) refl

-- Any number of rounds that is not below the number of arguments gives the same.
parse_loop-eq :
    (n m : ℕ) (f : Flags) (args : List Text)
    → count args ≤ n
    → count args ≤ m
    → parse_loop n f args ≡ parse_loop m f args
unfolding parse_loop
parse_loop-eq n m f [] h k = refl
parse_loop-eq zero m f (arg ∷ rest) h k = absurd (omega arith)
parse_loop-eq (suc n) zero f (arg ∷ rest) h k = absurd (omega arith)
parse_loop-eq (suc n) (suc m) f (arg ∷ rest) h k =
    parse_loop-suc n f arg rest
    ∙ resume-eq n m (parse_one arg f rest) rest (Short-parse_one arg f rest)
        (λ f' left le. parse_loop-eq n m f' left (omega arith) (omega arith))
    ∙ sym (parse_loop-suc m f arg rest)
