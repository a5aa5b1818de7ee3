-- ===== src/Resources/Names/Apart.antt =====
-- Names of the created objects tell the disks of a migration apart.
use ahv_to_ove_operator.Base.{
  ℕ, ◌<◌, ◌≡◌, sym, ap, ◌∙◌, [], ◌∷◌, ◌++◌, Text, codes, length, take, drop, ltb, if◌then◌else◌,
  append_assoc, refl,
}
use ahv_to_ove_operator.Base.Decimals.{print_nat, read_digits}
use ahv_to_ove_operator.Base.Decimals.RoundTrip.{read_digits-print_nat, pow10}
use ahv_to_ove_operator.Resources.Names.{dv_name}

drop-append : (xs ys : Text) → drop (length xs) (xs ++ ys) ≡ ys
drop-append [] ys = refl
drop-append (x ∷ xs) ys = drop-append xs ys

append-cancel : (xs ys zs : Text) → xs ++ ys ≡ xs ++ zs → ys ≡ zs
append-cancel xs ys zs e = sym (drop-append xs ys) ∙ ap (drop (length xs)) e ∙ drop-append xs zs

-- A number and what follows behind a dash are told apart.
dash-cancel :
    (n n' : ℕ) (s s' : Text)
    → n < pow10 19
    → n' < pow10 19
    → print_nat n ++ (b'-' ∷ s) ≡ print_nat n' ++ (b'-' ∷ s')
    → (n ≡ n') × (s ≡ s')
unfolding read_digits
dash-cancel n n' s s' h h' e =
    let both =
      sym (read_digits-print_nat n (b'-' ∷ s) h)
      ∙ ap (read_digits 0) e
      ∙ read_digits-print_nat n' (b'-' ∷ s') h' in
    (ap (λ x. x.0) both, ap (λ x. drop 1 x.1) both)

last-cancel : (n n' : ℕ) → n < pow10 19 → n' < pow10 19 → print_nat n ≡ print_nat n' → n ≡ n'
unfolding read_digits
last-cancel n n' h h' e =
    ap (λ x. x.0)
      (sym (read_digits-print_nat n [] h)
        ∙ ap (λ s. read_digits 0 (s ++ [])) e
        ∙ read_digits-print_nat n' [] h')

-- A name behind `dv-`.
abbrev behind : Text → ℕ → ℕ → Text
behind prefix vm disk = prefix ++ (b'-' ∷ (print_nat vm ++ (b'-' ∷ print_nat disk)))

dv_name-behind :
    (mig_name : Text) (vm disk : ℕ)
    → drop 3 (dv_name mig_name vm disk)
      ≡ behind (if ltb 40 (length mig_name) then take 40 mig_name else mig_name) vm disk
unfolding dv_name codes
dv_name-behind mig_name vm disk = simp append_assoc

-- Two data volumes of one migration have the same name only if they stand for the same disk of the same
-- VM, by indices below 10^20.
pub dv_name_lem :
    (mig_name : Text) (vm vm' disk disk' : ℕ)
    → vm < pow10 19
    → vm' < pow10 19
    → disk < pow10 19
    → disk' < pow10 19
    → dv_name mig_name vm disk ≡ dv_name mig_name vm' disk'
    → (vm ≡ vm') × (disk ≡ disk')
dv_name_lem mig_name vm vm' disk disk' v v' d d' e =
    let prefix = if ltb 40 (length mig_name) then take 40 mig_name else mig_name in
    let middle : ℕ → ℕ → Text = λ i j. b'-' ∷ (print_nat i ++ (b'-' ∷ print_nat j)) in
    let tail =
      append-cancel prefix (middle vm disk) (middle vm' disk') (
        sym (dv_name-behind mig_name vm disk)
        ∙ ap (drop 3) e
        ∙ dv_name-behind mig_name vm' disk') in
    let (same, rest) =
      dash-cancel vm vm' (print_nat disk) (print_nat disk') v v' (ap (drop 1) tail) in
    (same, last-cancel disk disk' d d' rest)
