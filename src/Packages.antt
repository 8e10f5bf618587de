-- ===== src/Packages.antt =====
-- The packages of Alpine, from unyport/backend/sse/sysinfo.go: CollectAPKPackages,
-- CollectAPKSummary and PackagesHandler. What os.ReadFile and os.Stat give is an argument, and so is
-- the value of strconv.ParseInt.
pub mod Laws
use Prim.Native.String
use Prim.Native.String.{String}
use Prim.Native.Char.{Char, code}
use unyport.Common.{
  ℕ, Bool, true, false, not, Option, none, some, List, [], ◌∷◌, ◌==◌, nat_eq, length, if◌then◌else◌,
}
use unyport.Common.Integers.{ℤ, pos}
use unyport.Common.Text.{split, has_prefix}
use unyport.Http.{Request, Response}
use unyport.Handlers.Sessions.{method_not_allowed}

-- APKPackage
pub record Package : Type 0 where
  pub name : String
  pub version : String
  pub arch : String
  pub size : ℤ
  pub desc : String

abbrev pub no_package : Package
no_package = record { name = ""; version = ""; arch = ""; size = pos 0; desc = "" }

module _ (parse_int : String → ℤ) where
  -- The switch on the key.
  unfoldable pub set_field : ℕ → String → Package → Package
  set_field key val cur =
      if nat_eq key b'P'
      then record cur { name = val }
      else if nat_eq key b'V'
      then record cur { version = val }
      else if nat_eq key b'A'
      then record cur { arch = val }
      else if nat_eq key b'I'
      then record cur { size = parse_int val }
      else if nat_eq key b'T'
      then record cur { desc = val }
      else cur

  -- A line that is not empty: its key, a colon, and the value.
  unfoldable pub read_line : String → Package → Package
  unfolding set_field
  read_line (Prim.Native.String.◌∷◌ key (Prim.Native.String.◌∷◌ c val)) cur =
      if nat_eq (code c) b':' then set_field (code key) val cur else cur
  read_line _ cur = cur

  -- The loop, and the package that is left behind it.
  unfoldable pub read_packages : Package → List String → List Package
  unfolding read_line
  read_packages cur [] = if cur.name == "" then [] else cur ∷ []
  read_packages cur (Prim.Native.String.[] ∷ lines) =
      let rest = read_packages (if cur.name == "" then cur else no_package) lines in
      if cur.name == "" then rest else cur ∷ rest
  read_packages cur (Prim.Native.String.◌∷◌ c l ∷ lines) =
      read_packages (read_line (Prim.Native.String.◌∷◌ c l) cur) lines

  -- CollectAPKPackages
  unfoldable pub collect_apk_packages : Option String → List Package
  unfolding read_packages
  collect_apk_packages none = []
  collect_apk_packages (some data_) = read_packages no_package (split b'\n' data_)

-- APKSummary
pub record Summary : Type 0 where
  pub count : ℕ
  pub db_exists : Bool

pub data Reply : Type 0 where
  failure : Response → Reply
  summary : Summary → Reply
  -- the count, whether there is a database, and the packages
  packages : ℕ → Bool → List Package → Reply

unfoldable pub with_prefix : String → List Package → List Package
with_prefix filter [] = []
with_prefix filter (p ∷ ps) =
    let rest = with_prefix filter ps in if has_prefix p.name filter then p ∷ rest else rest

abbrev packages_reply : List Package → Reply
packages_reply ps = packages (length ps) true ps

module _ (parse_int : String → ℤ) (exists : Bool) (file : Option String) where
  -- CollectAPKSummary; `exists` says that os.Stat gives no error.
  unfoldable pub collect_apk_summary : Summary
  unfolding collect_apk_packages
  collect_apk_summary =
      if exists
      then record { count = length (collect_apk_packages parse_int file); db_exists = true }
      else record { count = 0; db_exists = false }

  -- PackagesHandler
  unfoldable pub packages_handler : (String → String) → Request → Reply
  unfolding collect_apk_summary collect_apk_packages with_prefix
  packages_handler query r =
      let pkgs = collect_apk_packages parse_int file in
      if not (r.method == "GET")
      then failure method_not_allowed
      else if query "summary" == "1"
      then summary collect_apk_summary
      else if not (query "filter" == "")
      then packages_reply (with_prefix (query "filter") pkgs)
      else packages_reply pkgs
