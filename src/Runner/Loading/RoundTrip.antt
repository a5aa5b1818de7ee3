-- ===== src/Runner/Loading/RoundTrip.antt =====
-- `loadRegions` of deltasync.go reads what `renderRegions` of controllers/cbt_sync.go has written.
use ahv_to_ove_operator.Base.{
  ℕ, ◌<◌, ◌^◌, ◌≡◌, refl, Bool, true, false, ◌==◌, ◌&&◌, List, [], ◌∷◌, ◌++◌, Text, codes, some,
  is_nil, All, arith, append_assoc,
}
use ahv_to_ove_operator.Base.Decimals.{print_int, skip_spaces, is_digit, is_space}
use ahv_to_ove_operator.Base.Decimals.RoundTrip.{scan_int-print_int, print_int-All, print_int-some}
use ahv_to_ove_operator.Base.Spaces.{is_white, trim_start, trim_end, trim_space}
use ahv_to_ove_operator.Regions.{ChangedRegion}
use ahv_to_ove_operator.Resources.DeltaJobs.{render_regions}
use ahv_to_ove_operator.Runner.Loading.{
  lines, expect_space, word, parse_line, load_lines, load_regions,
}

-- Offset and length are not negative, and the type is a word.
pub record IsPlain (r : ChangedRegion) : Type 0 where
  pub offset_small : r.offset < 2 ^ 63
  pub len_small : r.len < 2 ^ 63
  pub type_word : All (λ c. is_white c ≡ false) r.typ
  pub type_some : is_nil r.typ ≡ false

-- The line of a region.
abbrev line_of : ChangedRegion → Text
line_of r = print_int 64 r.offset ++ (b' ' ∷ (print_int 64 r.len ++ (b' ' ∷ r.typ)))

render-line :
    (r : ChangedRegion) (rs : List ChangedRegion)
    → render_regions (r ∷ rs) ≡ line_of r ++ (b'\n' ∷ render_regions rs)
unfolding render_regions codes
render-line r rs = simp append_assoc

lines-append :
    (l s : Text) → All (λ c. (c == b'\n') ≡ false) l → lines (l ++ (b'\n' ∷ s)) ≡ l ∷ lines s
unfolding lines
lines-append [] s h = refl
lines-append (c ∷ l) s (h, hs) = rw (h, lines-append l s hs) refl

All-map : (P Q : ℕ → Type 0) → ((c : ℕ) → P c → Q c) → (s : Text) → All P s → All Q s
All-map P Q f [] h = tt
All-map P Q f (c ∷ s) (h, hs) = (f c h, All-map P Q f s hs)

All-join : (P : ℕ → Type 0) (s t : Text) → All P s → All P t → All P (s ++ t)
All-join P [] t h k = k
All-join P (c ∷ s) t (h, hs) k = (h, All-join P s t hs k)

line_of-All : (r : ChangedRegion) → IsPlain r → All (λ c. (c == b'\n') ≡ false) (line_of r)
line_of-All r p =
    let digits : (n : ℕ) → n < 2 ^ 63 → All (λ c. (c == b'\n') ≡ false) (print_int 64 n) =
      λ n h. All-map _ _ (λ c e. ground (arith, e)) (print_int 64 n) (print_int-All n h) in
    let typ = All-map _ (λ c. (c == b'\n') ≡ false) (λ c e. ground (arith, e)) r.typ p.type_word in
    All-join _ (print_int 64 r.offset) _ (digits r.offset p.offset_small)
      (refl, All-join _ (print_int 64 r.len) _ (digits r.len p.len_small) (refl, typ))

word-All : (s : Text) → All (λ c. is_white c ≡ false) s → word s ≡ s
unfolding word
word-All [] h = refl
word-All (c ∷ s) (h, hs) = rw (h, word-All s hs) refl

trim_end-All : (s : Text) → All (λ c. is_white c ≡ false) s → trim_end s ≡ s
unfolding trim_end
trim_end-All [] h = refl
trim_end-All (c ∷ s) (h, hs) = rw (h, trim_end-All s hs) refl

nil-append : (s t : Text) → is_nil t ≡ false → is_nil (s ++ t) ≡ false
nil-append [] t h = h
nil-append (c ∷ s) t h = refl

and_false : (b : Bool) → (b && false) ≡ false
and_false true = refl
and_false false = refl

trim_end-append : (s t : Text) → is_nil t ≡ false → trim_end t ≡ t → trim_end (s ++ t) ≡ s ++ t
unfolding trim_end
trim_end-append [] t h e = e
trim_end-append (c ∷ s) t h e =
    rw (trim_end-append s t h e, nil-append s t h, and_false (is_white c)) refl

trim_start-digits :
    (s t : Text) → All (λ c. is_digit c ≡ true) s → is_nil s ≡ false → trim_start (s ++ t) ≡ s ++ t
unfolding trim_start
trim_start-digits [] t h e = ground (arith, e)
trim_start-digits (c ∷ s) t (h, hs) e = let w : is_white c ≡ false = ground (arith, h) in rw w refl

skip_spaces-digits :
    (s t : Text) → All (λ c. is_digit c ≡ true) s → is_nil s ≡ false → skip_spaces (s ++ t) ≡ s ++ t
unfolding skip_spaces
skip_spaces-digits [] t h e = ground (arith, e)
skip_spaces-digits (c ∷ s) t (h, hs) e = let w : is_space c ≡ false = ground (arith, h) in rw w refl

skip_spaces-word : (c : ℕ) (s : Text) → is_white c ≡ false → skip_spaces (c ∷ s) ≡ c ∷ s
unfolding skip_spaces
skip_spaces-word c s h = let w : is_space c ≡ false = ground (arith, h) in rw w refl

parse-line_of :
    (o l c : ℕ) (s : Text)
    → o < 2 ^ 63
    → l < 2 ^ 63
    → All (λ c. is_white c ≡ false) (c ∷ s)
    → let r : ChangedRegion = record { offset = o; len = l; typ = c ∷ s } in
      parse_line (line_of r) ≡ some r
unfolding parse_line expect_space
parse-line_of o l c s ho hl hw =
    let back = scan_int-print_int l b' ' (c ∷ s) hl refl in
    rw (scan_int-print_int o b' ' (print_int 64 l ++ (b' ' ∷ (c ∷ s))) ho refl) (
      rw
        (skip_spaces-digits (print_int 64 l) (b' ' ∷ (c ∷ s)) (print_int-All l hl)
          (print_int-some l hl))
        (rw back (
          rw (skip_spaces-word c s hw.0)
            (rw (skip_spaces-word c s hw.0) (rw (word-All (c ∷ s) hw) refl)))))

trim-line_of : (r : ChangedRegion) → IsPlain r → trim_space (line_of r) ≡ line_of r
unfolding trim_space
trim-line_of r p =
    rw
      (trim_start-digits (print_int 64 r.offset) (b' ' ∷ (print_int 64 r.len ++ (b' ' ∷ r.typ)))
        (print_int-All r.offset p.offset_small) (print_int-some r.offset p.offset_small))
      (trim_end-append (print_int 64 r.offset) (b' ' ∷ (print_int 64 r.len ++ (b' ' ∷ r.typ))) refl
        (trim_end-append (b' ' ∷ print_int 64 r.len) (b' ' ∷ r.typ) refl
          (trim_end-append (b' ' ∷ []) r.typ p.type_some (trim_end-All r.typ p.type_word))))

parse-plain :
    (o l : ℕ) (typ : Text)
    → let r : ChangedRegion = record { offset = o; len = l; typ = typ } in
      IsPlain r → parse_line (line_of r) ≡ some r
parse-plain o l [] p = ground (arith, p.type_some)
parse-plain o l (c ∷ s) p = parse-line_of o l c s p.offset_small p.len_small p.type_word

load_line :
    (r : ChangedRegion) (ls : List Text) (rs : List ChangedRegion)
    → IsPlain r
    → load_lines ls ≡ some rs
    → load_lines (line_of r ∷ ls) ≡ some (r ∷ rs)
unfolding load_lines
load_line r ls rs p e =
    let some_line =
      nil-append (print_int 64 r.offset) (b' ' ∷ (print_int 64 r.len ++ (b' ' ∷ r.typ))) refl in
    rw (trim-line_of r p) (rw some_line (rw (parse-plain r.offset r.len r.typ p) (rw e refl)))

-- The runner reads from the text of the config map the very regions that the reconciler has rendered
-- there, in order, if no offset or length is negative and each type is a word.
pub load_regions-render_regions :
    (rs : List ChangedRegion) → All IsPlain rs → load_regions (render_regions rs) ≡ some rs
unfolding load_regions
load_regions-render_regions [] h = unfold lines load_lines render_regions in refl
load_regions-render_regions (r ∷ rs) (p, ps) = rw (render-line r rs) (
    rw (lines-append (line_of r) (render_regions rs) (line_of-All r p))
      (load_line r (lines (render_regions rs)) rs p (load_regions-render_regions rs ps)))
