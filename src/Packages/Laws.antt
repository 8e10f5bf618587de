-- ===== src/Packages/Laws.antt =====
-- What is read of a database of packages that has the format of unyport/backend/sse/sysinfo.go.
use Prim.Native.String
use Prim.Native.String.{char_at}
use unyport.Common.{
  ◌≡◌, ◌≢◌, refl, ap, ◌∙◌, ◌==◌, eq_iff, arith, String, Char, true, false, not, List, [], ◌∷◌, All,
  some, map, ◌++◌, nat_eq,
}
use unyport.Common.Integers.{ℤ}
use unyport.Common.Text.{all_codes}
use unyport.Common.Text.Fields.Laws.{joined, split-joined}
use unyport.Packages.{
  Package, no_package, set_field, read_line, read_packages, collect_apk_packages,
}

-- A package and the text of its size.
abbrev pub Entry : Type 0
Entry = Package × String

abbrev pub field : Char → String → String
field key val = Prim.Native.String.◌∷◌ key (Prim.Native.String.◌∷◌ (char_at ":" 0) val)

-- The lines of the database: five fields for each package, and an empty line.
unfoldable pub entry_lines : List Entry → List String
entry_lines [] = []
entry_lines ((p, size) ∷ es) =
    field (char_at "P" 0) p.name
    ∷ field (char_at "V" 0) p.version
    ∷ field (char_at "A" 0) p.arch
    ∷ field (char_at "I" 0) size
    ∷ field (char_at "T" 0) p.desc
    ∷ ""
    ∷ entry_lines es

unfoldable pub database : List Entry → String
unfolding entry_lines joined
database es = joined (entry_lines es)

abbrev pub OneLine : String → Type 0
OneLine s = all_codes (λ c. not (nat_eq c b'\n')) s ≡ true

module _ (parse_int : String → ℤ) where
  -- The package has a name, its fields are in one line each, and the text of its size is read as
  -- its size.
  pub record IsEntry (e : Entry) : Type 0 where
    pub named : e.0.name ≢ ""
    pub name_line : OneLine e.0.name
    pub version_line : OneLine e.0.version
    pub arch_line : OneLine e.0.arch
    pub size_line : OneLine e.1
    pub desc_line : OneLine e.0.desc
    pub sized : parse_int e.1 ≡ e.0.size

  lines_of_entries : (es : List Entry) → All IsEntry es → All OneLine (entry_lines es)
  unfolding entry_lines all_codes
  lines_of_entries [] h = tt
  lines_of_entries (e ∷ es) (i, h) = (
    i.name_line,
    (i.version_line, (i.arch_line, (i.size_line, (i.desc_line, (refl, lines_of_entries es h))))),
  )

  read_packages-entry_lines :
      (es : List Entry)
      → All IsEntry es
      → read_packages parse_int no_package (entry_lines es ++ ("" ∷ [])) ≡ map (λ e. e.0) es
  unfolding read_packages read_line set_field entry_lines
  read_packages-entry_lines [] h = refl
  read_packages-entry_lines ((p, size) ∷ es) (i, h) =
      let filled : (p.name == "") ≡ false = ground (arith, i.named, eq_iff p.name "") in
      rw (filled, i.sized) (ap (λ ps. p ∷ ps) (read_packages-entry_lines es h))

  -- Of a database whose packages have names, with every field in one line and a size that ParseInt
  -- reads, CollectAPKPackages reads back exactly the packages, in their order.
  pub collect_apk_packages-database :
      (es : List Entry)
      → All IsEntry es
      → collect_apk_packages parse_int (some (database es)) ≡ map (λ e. e.0) es
  unfolding collect_apk_packages database
  collect_apk_packages-database es h =
      ap (read_packages parse_int no_package)
        (split-joined (entry_lines es) (lines_of_entries es h))
      ∙ read_packages-entry_lines es h
