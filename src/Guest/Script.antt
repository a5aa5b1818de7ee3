-- ===== src/Guest/Script.antt =====
-- `defaultVirtIOWinScript` of controllers/guest_prep.go, and `strings.ReplaceAll`.
use ahv_to_ove_operator.Base.{
  ℕ, zero, suc, ◌-◌, [], ◌∷◌, ◌++◌, Text, codes, strip_prefix, length, none, some,
}

-- `strings.ReplaceAll(s, old, new)` for an `old` that is not empty. The number counts the bytes of
-- an occurrence that are still to be passed over.
unfoldable pub replace_from : Text → Text → ℕ → Text → Text
replace_from old new skip [] = []
replace_from old new (suc skip) (c ∷ s) = replace_from old new skip s
replace_from old new zero (c ∷ s) = elim (strip_prefix old (c ∷ s)) [
  | none ↦ c ∷ replace_from old new zero s
  | some _ ↦ new ++ replace_from old new (length old - 1) s
]

unfoldable pub replace_all : Text → Text → Text → Text
unfolding replace_from
replace_all s old new = replace_from old new zero s

unfoldable pub iso_mark : Text
iso_mark = codes "{{ISO_PATH}}"

-- It only adds drivers.
unfoldable pub default_virtio_win_script : Text
default_virtio_win_script =
    codes "\n"
    ++ codes "$ErrorActionPreference = \"Stop\"\n"
    ++ codes "$isoPath = \"{{ISO_PATH}}\"\n"
    ++ codes "\n"
    ++ codes "if (-not (Test-Path $isoPath)) {\n"
    ++ codes "    Write-Error \"virtio-win ISO not found: $isoPath\"\n"
    ++ codes "    exit 1\n"
    ++ codes "}\n"
    ++ codes "\n"
    ++ codes "Write-Host \"Mounting virtio-win ISO: $isoPath\"\n"
    ++ codes "$disk = Mount-DiskImage -ImagePath $isoPath -PassThru\n"
    ++ codes "$driveLetter = ($disk | Get-Volume).DriveLetter\n"
    ++ codes "Write-Host \"Mounted at ${driveLetter}:\"\n"
    ++ codes "\n"
    ++ codes "Write-Host \"Installing virtio drivers (add-only, no removal)...\"\n"
    ++ codes
        "$infFiles = Get-ChildItem \"${driveLetter}:\\amd64\\w11\\*.inf\" -ErrorAction SilentlyContinue\n"
    ++ codes "if (-not $infFiles) {\n"
    ++ codes
        "    $infFiles = Get-ChildItem \"${driveLetter}:\\amd64\\2k22\\*.inf\" -ErrorAction SilentlyContinue\n"
    ++ codes "}\n"
    ++ codes "if (-not $infFiles) {\n"
    ++ codes "    Write-Error \"No .inf files found for w11 or 2k22 in ${driveLetter}:\\amd64\\\"\n"
    ++ codes "    exit 1\n"
    ++ codes "}\n"
    ++ codes "\n"
    ++ codes "foreach ($inf in $infFiles) {\n"
    ++ codes "    Write-Host \"Adding driver: $($inf.FullName)\"\n"
    ++ codes "    pnputil /add-driver $inf.FullName /install 2>&1 | Out-Null\n"
    ++ codes "}\n"
    ++ codes "\n"
    ++ codes "Write-Host \"Dismounting ISO...\"\n"
    ++ codes "Dismount-DiskImage -ImagePath $isoPath | Out-Null\n"
    ++ codes "\n"
    ++ codes "Write-Host \"virtio-win driver installation complete.\"\n"
