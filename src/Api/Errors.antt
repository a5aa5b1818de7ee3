-- ===== src/Api/Errors.antt =====
-- Errors and messages. A formatted text is kept as its format with the arguments.
use ahv_to_ove_operator.Base.{
  ℕ, List, [], ◌∷◌, ◌++◌, Text, codes, Option, Bool, true, false, ◌==◌, if◌then◌else◌,
}
use ahv_to_ove_operator.Base.Decimals.{print_nat}

pub data Arg : Type 0 where
  txt : Text → Arg
  num : ℕ → Arg

-- The answers of the API server that the controllers tell apart, any other error, and an error
-- that `fmt.Errorf` makes, with the error that it wraps or without one.
pub data Err : Type 0 where
  not_found already_exists : Err
  failure : Text → Err
  formatted : Text → List Arg → Err
  wrapped : Text → List Arg → Err → Err

-- `apierrors.IsNotFound` looks through wrapping.
unfoldable pub is_not_found : Err → Bool
is_not_found not_found = true
is_not_found already_exists = false
is_not_found (failure _) = false
is_not_found (formatted _ _) = false
is_not_found (wrapped _ _ e) = is_not_found e

unfoldable pub is_already_exists : Err → Bool
is_already_exists already_exists = true
is_already_exists not_found = false
is_already_exists (failure _) = false
is_already_exists (formatted _ _) = false
is_already_exists (wrapped _ _ e) = is_already_exists e

pub record Message : Type 0 where
  pub format : Text
  pub args : List Arg
  pub cause : Option Err

pub data Result (A : Type 0) : Type 0 where
  ok : A → Result A
  err : Err → Result A

abbrev arg_text : Arg → Text
arg_text (txt t) = t
arg_text (num n) = print_nat n

abbrev next_arg : List Arg → Text
next_arg [] = codes "%!(MISSING)"
next_arg (a ∷ args) = arg_text a

abbrev other_args : List Arg → List Arg
other_args [] = []
other_args (a ∷ args) = args

-- `%w` is the text of the wrapped error; any other verb takes the next argument. Quotes of `%q`
-- are left out.
unfoldable pub format_text : Text → List Arg → Text → Text
format_text [] args cause = []
format_text (c ∷ []) args cause = c ∷ []
format_text (c ∷ verb ∷ s) args cause =
    let plain = c ∷ format_text (verb ∷ s) args cause in
    let wrapping = cause ++ format_text s args cause in
    let taking = next_arg args ++ format_text s (other_args args) cause in
    if c == b'%' then (if verb == b'w' then wrapping else taking) else plain

-- `err.Error()`
unfoldable pub error_text : Err → Text
unfolding format_text
error_text not_found = codes "not found"
error_text already_exists = codes "already exists"
error_text (failure t) = t
error_text (formatted format args) = format_text format args []
error_text (wrapped format args e) = format_text format args (error_text e)
