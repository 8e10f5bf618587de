-- ===== src/Examples/Databases.antt =====
-- The theorems on the database of packages, with sizes of one digit, and on the year of the
-- firmware at concrete inputs.
use Prim.Native.String.{len}
use unyport.Common.{
  ◌↔◌, ◌-◌, ◌≡◌, ◌≢◌, refl, ap, arith, String, true, some, List, [], ◌∷◌, ltb, map,
}
use unyport.Common.Integers.{ℤ, pos}
use unyport.Common.Text.{all_codes, first_code}
use unyport.Hardware.{extract_bios_year, panic}
use unyport.Hardware.Laws.{extract_bios_year-panic}
use unyport.Packages.{Package, collect_apk_packages}
use unyport.Packages.Laws.{Entry, IsEntry, database, collect_apk_packages-database}

abbrev digit : String → ℤ
digit s = pos (first_code s - 48)

abbrev musl : Package
musl = record {
  name = "musl";
  version = "1.2.4-r2";
  arch = "x86_64";
  size = pos 6;
  desc = "the C library: musl";
}

abbrev busybox : Package
busybox = record { name = "busybox"; version = "1.36"; arch = ""; size = pos 9; desc = "" }

abbrev installed : List Entry
installed = (musl, "6") ∷ (busybox, "9") ∷ []

filled_name : (w : String) → ltb 0 (first_code w) ≡ true → w ≢ ""
filled_name w h e = ground (arith, h, ap first_code e)

musl-IsEntry : IsEntry digit (musl, "6")
unfolding all_codes
musl-IsEntry = record {
  named = filled_name "musl" refl;
  name_line = refl;
  version_line = refl;
  arch_line = refl;
  size_line = refl;
  desc_line = refl;
  sized = refl;
}

busybox-IsEntry : IsEntry digit (busybox, "9")
unfolding all_codes
busybox-IsEntry = record {
  named = filled_name "busybox" refl;
  name_line = refl;
  version_line = refl;
  arch_line = refl;
  size_line = refl;
  desc_line = refl;
  sized = refl;
}

collect_apk_packages-database_example :
    collect_apk_packages digit (some (database installed)) ≡ map (λ e. e.0) installed
collect_apk_packages-database_example =
    collect_apk_packages-database digit installed (musl-IsEntry, (busybox-IsEntry, tt))

extract_bios_year-panic_example :
    (extract_bios_year (λ s. some (digit s)) "2023" ≡ panic) ↔ (len "2023" ≡ 4)
extract_bios_year-panic_example = extract_bios_year-panic (λ s. some (digit s)) "2023"
