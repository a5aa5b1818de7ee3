-- ===== src/Controller/Gates.antt =====
-- What a handler has been told before a migration goes on.
pub mod Cutover
pub mod Imports
pub mod Jobs
pub mod Quiet
pub mod FinalDelta
use ahv_to_ove_operator.Base.{List, [], ◌∷◌, All}

pub All-map :
    {A : Type 0} (P Q : A → Type 0) → ((a : A) → P a → Q a) → (xs : List A) → All P xs → All Q xs
All-map P Q f [] h = tt
All-map P Q f (x ∷ xs) (h, hs) = (f x h, All-map P Q f xs hs)
