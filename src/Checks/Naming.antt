-- ===== src/Checks/Naming.antt =====
-- Names of objects, at one migration.
use ahv_to_ove_operator.Base.{ℕ, ◌≡◌, refl, codes, arith}
use ahv_to_ove_operator.Base.Decimals.{print_nat}
use ahv_to_ove_operator.Resources.Names.{dv_name}
use ahv_to_ove_operator.Resources.Names.Apart.{dv_name_lem}

-- TestDvName_Short of controllers/helpers_test.go.
short_name : dv_name (codes "my-migration") 0 1 ≡ codes "dv-my-migration-0-1"
unfolding dv_name codes print_nat
short_name = refl

abbrev first_vm : ℕ
first_vm = 0

abbrev second_disk : ℕ
second_disk = 1

dv_name_lem_example : (first_vm ≡ first_vm) × (second_disk ≡ second_disk)
dv_name_lem_example =
    dv_name_lem (codes "my-migration") first_vm first_vm second_disk second_disk (omega arith)
      (omega arith) (omega arith) (omega arith) refl
