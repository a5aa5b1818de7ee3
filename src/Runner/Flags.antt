-- ===== src/Runner/Flags.antt =====
-- The flags of the delta-sync command: `flag.FlagSet.Parse` of the standard library as
-- `runDeltaSync` of deltasync.go uses it, for its five flags.
pub mod Integers
pub mod Enough
use ahv_to_ove_operator.Base.{
  ℕ, zero, suc, Bool, true, false, ◌||◌, ◌==◌, List, [], ◌∷◌, Text, codes, text_eq, Option, none,
  some, if◌then◌else◌, cut_at,
}
use ahv_to_ove_operator.Runner.Flags.Integers.{parse_int}

pub record Flags : Type 0 where
  pub source_file : Text
  pub regions : Text
  pub target : Text
  pub block : Bool
  pub workers : ℕ

unfoldable pub default_flags : Flags
default_flags = record {
  source_file = [];
  regions = codes "/config/regions";
  target = codes "/target/disk.img";
  block = false;
  workers = 4;
}

-- `Parse` under `flag.ExitOnError`: it returns, prints the usage and exits with status 0, or exits
-- with status 2.
pub data ParseResult : Type 0 where
  parsed : Flags → ParseResult
  helped refused : ParseResult

-- `strconv.ParseBool`
unfoldable pub parse_bool : Text → Option Bool
parse_bool s =
    if text_eq s (codes "1")
      || text_eq s (codes "t")
      || text_eq s (codes "T")
      || text_eq s (codes "true")
      || text_eq s (codes "TRUE")
      || text_eq s (codes "True")
    then some true
    else if text_eq s (codes "0")
        || text_eq s (codes "f")
        || text_eq s (codes "F")
        || text_eq s (codes "false")
        || text_eq s (codes "FALSE")
        || text_eq s (codes "False")
    then some false
    else none

-- The five flags by their names.
pub data Flag : Type 0 where
  is_source_file is_regions is_target is_block is_workers : Flag

unfoldable pub flag_named : Text → Option Flag
flag_named name =
    if text_eq name (codes "source-file")
    then some is_source_file
    else if text_eq name (codes "regions")
    then some is_regions
    else if text_eq name (codes "target")
    then some is_target
    else if text_eq name (codes "block")
    then some is_block
    else if text_eq name (codes "workers")
    then some is_workers
    else none

-- `Set` of a flag; `none` is a value that it refuses.
unfoldable pub set_flag : Flag → Text → Flags → Option Flags
set_flag is_source_file v f = some (record f { source_file = v })
set_flag is_regions v f = some (record f { regions = v })
set_flag is_target v f = some (record f { target = v })
set_flag is_block v f = elim (parse_bool v) [ none ↦ none | some b ↦ some (record f { block = b }) ]
set_flag is_workers v f = elim (parse_int v) [
  | none ↦ none
  | some n ↦ some (record f { workers = n })
]

-- What an argument is, as `parseOne` finds it: the end of the flags, an ill-formed flag, or a flag
-- with its value if there is a `=` in it, though not in front.
pub data Argument : Type 0 where
  ends malformed : Argument
  flag : Text → Option Text → Argument

abbrev named : ℕ → Text → Argument
named c s = elim (cut_at b'=' s) [
  | none ↦ flag (c ∷ s) none
  | some (name, value) ↦ flag (c ∷ name) (some value)
]

abbrev flag_of : Text → Argument
flag_of [] = malformed
flag_of (c ∷ s) = if c == b'-' || c == b'=' then malformed else named c s

abbrev behind_minus : Text → Argument
behind_minus [] = ends
behind_minus (c ∷ []) = if c == b'-' then ends else flag_of (c ∷ [])
behind_minus (c ∷ d ∷ s) = if c == b'-' then flag_of (d ∷ s) else flag_of (c ∷ d ∷ s)

unfoldable pub classify : Text → Argument
classify [] = ends
classify (c ∷ s) = if c == b'-' then behind_minus s else ends

-- What one call of `parseOne` leaves: whether parsing goes on, with the flags and the rest.
pub data Step : Type 0 where
  stop : ParseResult → Step
  next : Flags → List Text → Step

unfoldable pub assign_flag : Flag → Text → Flags → List Text → Step
assign_flag which v f rest = elim (set_flag which v f) [
  | none ↦ stop refused
  | some f' ↦ next f' rest
]

-- A flag without a `=` takes the next argument, but for a Boolean one.
abbrev pub bare_flag : Flag → Flags → List Text → Step
bare_flag is_block f rest = assign_flag is_block (codes "true") f rest
bare_flag which f [] = stop refused
bare_flag which f (v ∷ rest) = assign_flag which v f rest

abbrev pub known_flag : Flag → Option Text → Flags → List Text → Step
known_flag which (some v) f rest = assign_flag which v f rest
known_flag which none f rest = bare_flag which f rest

unfoldable pub parse_one : Text → Flags → List Text → Step
parse_one arg f rest = elim (classify arg) [
  | ends ↦ stop (parsed f)
  | malformed ↦ stop refused
  | flag name value ↦ elim (flag_named name) [
    | some which ↦ known_flag which value f rest
    | none ↦
        stop (if text_eq name (codes "help") || text_eq name (codes "h") then helped else refused)
  ]
]

-- The loop of `Parse`. Each round takes an argument at least.
unfoldable pub parse_loop : ℕ → Flags → List Text → ParseResult
parse_loop fuel f [] = parsed f
parse_loop zero f (arg ∷ rest) = refused
parse_loop (suc fuel) f (arg ∷ rest) = elim (parse_one arg f rest) [
  | stop result ↦ result
  | next f' rest' ↦ parse_loop fuel f' rest'
]

abbrev pub count : List Text → ℕ
count [] = 0
count (a ∷ rest) = suc (count rest)

unfoldable pub parse_flags : List Text → ParseResult
unfolding parse_loop default_flags
parse_flags args = parse_loop (count args) default_flags args
