-- ===== src/Hardware/Laws.antt =====
-- Where reading the year of the firmware panics, and the name of a card of AMD.
use Prim.Native.String
use Prim.Native.String.{len, ◌++◌}
use Prim.Native.Char.{len_utf8}
use unyport.Common.{ℕ, ◌-◌, ◌≡◌, ◌↔◌, refl, arith, String, true, Option, none, some, leb}
use unyport.Common.Integers.{ℤ}
use unyport.Common.Dict.{lookup}
use unyport.Common.Text.{contains, to_lower, trim_prefix, strip_prefix, has_prefix}
use unyport.Hardware.{
  byte_at, extract_bios_year, year_with_dash, panic, resolve_vendor, resolve_gpu_name, other_name,
  nvidia_name,
}

byte_at-none : (n : ℕ) (s : String) → (byte_at n s ≡ none) ↔ (leb (len s) n ≡ true)
unfolding byte_at
byte_at-none n Prim.Native.String.[] = ground (arith, Prim.Native.String.len.nil)
byte_at-none n (Prim.Native.String.◌∷◌ c s) =
    ground (arith, byte_at-none (n - len_utf8 c) s, Prim.Native.String.len.cons c s)

year_with_dash-panic :
    (atoi : String → Option ℤ) (o : Option ℕ) (date : String)
    → (year_with_dash atoi o date ≡ panic) ↔ (o ≡ none)
unfolding year_with_dash
year_with_dash-panic atoi none date = ground arith
year_with_dash-panic atoi (some c) date = ground arith

-- extractBIOSYear panics on a date of four bytes and on no other text: it asks for the fifth
-- where there are four.
pub extract_bios_year-panic :
    (atoi : String → Option ℤ) (date : String)
    → (extract_bios_year atoi date ≡ panic) ↔ (len date ≡ 4)
unfolding extract_bios_year
extract_bios_year-panic atoi Prim.Native.String.[] = ground (arith, Prim.Native.String.len.nil)
extract_bios_year-panic atoi (Prim.Native.String.◌∷◌ c s) =
    let d : String = Prim.Native.String.◌∷◌ c s in
    ground (arith, byte_at-none 4 d, year_with_dash-panic atoi (byte_at 4 d) d)

-- The card of AMD, by its vendor's code, never gets the name of its driver: the vendor's name does
-- not contain the letters that resolveGPUName looks for.
pub resolve_gpu_name-amd :
    (device_hex driver : String)
    → resolve_gpu_name (resolve_vendor "0x1002") device_hex driver
      ≡ other_name "Advanced Micro Devices" device_hex
unfolding resolve_gpu_name resolve_vendor nvidia_name contains to_lower trim_prefix strip_prefix
    has_prefix lookup
resolve_gpu_name-amd device_hex driver = refl
