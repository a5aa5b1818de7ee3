-- ===== src/Checks/Texts.antt =====
-- The text of the regions, printed and read back.
use ahv_to_ove_operator.Base.{◌≡◌, refl, [], ◌∷◌, some, codes, arith}
use ahv_to_ove_operator.Base.Decimals.{print_int, print_nat}
use ahv_to_ove_operator.Regions.{ChangedRegion}
use ahv_to_ove_operator.Resources.DeltaJobs.{render_regions}
use ahv_to_ove_operator.Runner.Loading.{load_regions}
use ahv_to_ove_operator.Runner.Loading.RoundTrip.{IsPlain, load_regions-render_regions}

abbrev changed : ChangedRegion
changed = record { offset = 4096; len = 12; typ = b'R' ∷ b'E' ∷ b'G' ∷ [] }

abbrev hole : ChangedRegion
hole = record { offset = 1048576; len = 65536; typ = b'Z' ∷ [] }

changed-IsPlain : IsPlain changed
changed-IsPlain = record {
  offset_small = omega arith;
  len_small = omega arith;
  type_word = (refl, (refl, (refl, tt)));
  type_some = refl;
}

hole-IsPlain : IsPlain hole
hole-IsPlain = record {
  offset_small = omega arith;
  len_small = omega arith;
  type_word = (refl, tt);
  type_some = refl;
}

rendered : render_regions (changed ∷ []) ≡ codes "4096 12 REG\n"
unfolding render_regions print_int print_nat codes
rendered = refl

load_regions-render_regions_example :
    load_regions (render_regions (changed ∷ hole ∷ [])) ≡ some (changed ∷ hole ∷ [])
load_regions-render_regions_example =
    load_regions-render_regions (changed ∷ hole ∷ []) (changed-IsPlain, (hole-IsPlain, tt))
