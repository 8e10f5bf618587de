-- ===== src/Logs/Names.antt =====
-- Which files LogsTailHandler reads, and what it shows of them.
use unyport.Common.{
  ℕ, ◌≡◌, refl, inl, inr, String, Bool, true, false, ◌||◌, Option, none, some, List, [], ◌∷◌, ◌==◌,
  eq_iff, nat_eq, leb, arith, any, All, All-any, length, Bool-cases, Option-cases,
}
use Prim.Native.String
use Prim.Native.Char.{code}
use unyport.Common.Text.{any_code, all_codes}
use unyport.Common.Text.Laws.{has_prefix-append}
use unyport.Common.Integers.{ℤ}
use unyport.Http.{Request, json_object, str, num, lines}
use unyport.Logs.{
  Files, tail_of, tail_file, tail_read, is_allowed_log_path, line_count, tail_log_file,
  is_separator, known_log_files, trim_path, given_count, logs_tail_handler, remove_escapes,
  drop_controls, trim_right_spaces, keep_but_space, clean_line,
}

abbrev pub printable : ℕ → Bool
printable c = leb 32 c || nat_eq c b'\t'

all_codes-drop_controls : (s : String) → all_codes printable (drop_controls s) ≡ true
unfolding all_codes drop_controls
all_codes-drop_controls String.[] = refl
all_codes-drop_controls (String.◌∷◌ c s) = ground (arith, all_codes-drop_controls s)

all_codes-trim_right_spaces :
    (s : String) → all_codes printable s ≡ true → all_codes printable (trim_right_spaces s) ≡ true
unfolding all_codes trim_right_spaces
all_codes-trim_right_spaces String.[] h = refl
all_codes-trim_right_spaces (String.◌∷◌ c s) h =
    by_rest (trim_right_spaces s) (all_codes-trim_right_spaces s (ground (arith, h)))
  where
    by_rest :
        (t : String)
        → all_codes printable t ≡ true
        → all_codes printable (keep_but_space c t) ≡ true
    by_rest String.[] f = elim (Bool-cases (nat_eq (code c) b' ')) [
      | inl space ↦ rw space refl
      | inr other ↦ rw other (ground (arith, h))
    ]
    by_rest (String.◌∷◌ d t) f = ground (arith, h, f)

-- A line that is shown has no control character but tabs, whatever the file holds.
pub clean_line-printable :
    (f : Files) (line : List ℕ) → all_codes printable (clean_line f line) ≡ true
unfolding clean_line
clean_line-printable f line =
    let kept = f.decode (remove_escapes 0 line) in
    all_codes-trim_right_spaces (drop_controls kept) (all_codes-drop_controls kept)

-- Whatever the name, the path is one that TailLogFile allows.
pub tail_log_file-read :
    (f : Files) (name : String) (n : ℤ)
    → tail_log_file f (String.◌++◌ "/var/log/" name) n
      ≡ tail_read f (line_count n) (f.read (String.◌++◌ "/var/log/" name))
unfolding tail_log_file tail_file is_allowed_log_path
tail_log_file-read f name n = rw (has_prefix-append "/var/log/" name) refl

module _ (f : Files) (atoi : String → Option ℤ) (query : String → String) (r : Request) where
  abbrev asked : ℕ
  asked = line_count (given_count atoi query)

  -- An answer of status 200 shows the tail of the file below /var/log that the query names, whose
  -- name has no slash, dot or backslash.
  pub logs_tail_handler_sound :
      (logs_tail_handler f atoi query r).status ≡ 200
      → (file : List ℕ) × (any_code is_separator (query "file") ≡ false)
        × (f.read (String.◌++◌ "/var/log/" (query "file")) ≡ some file)
        × (logs_tail_handler f atoi query r
            ≡ json_object (
                ("file", str (query "file"))
                ∷ ("lines", lines (tail_of f asked file))
                ∷ ("count", num (length (tail_of f asked file)))
                ∷ []))
  unfolding logs_tail_handler
  logs_tail_handler_sound h = elim (Bool-cases (r.method == "GET")) [
    | inr other ↦ absurd (ground (arith, other, h))
    | inl get ↦ elim (Bool-cases (query "file" == "")) [
      | inl missing ↦ absurd (ground (arith, get, missing, h))
      | inr given ↦ elim (Bool-cases (any_code is_separator (query "file"))) [
        | inl bad ↦ absurd (ground (arith, get, given, bad, h))
        | inr clean ↦ elim (Option-cases (f.read (String.◌++◌ "/var/log/" (query "file")))) [
          | inl gone ↦ absurd (
              ground (
                arith,
                get,
                given,
                clean,
                gone,
                h,
                tail_log_file-read f (query "file") (given_count atoi query),
              ))
          | inr (file, found) ↦ (
            file,
            clean,
            found,
            rw
                (
                  get,
                  given,
                  clean,
                  tail_log_file-read f (query "file") (given_count atoi query),
                  found,
                )
                refl,
          )
        ]
      ]
    ]
  ]

tail_read-decode :
    (f g : Files) (n : ℕ) (file : Option (List ℕ))
    → f.decode ≡ g.decode
    → tail_read f n file ≡ tail_read g n file
unfolding clean_line
tail_read-decode f g n none e = refl
tail_read-decode f g n (some file) e = rw e refl

-- The handler reads nothing else: two file systems that agree on the files below /var/log whose
-- names have no slash, dot or backslash give the same answer to every request.
pub logs_tail_handler-local :
    (f g : Files) (atoi : String → Option ℤ) (query : String → String) (r : Request)
    → f.decode ≡ g.decode
    → ((name : String)
        → any_code is_separator name ≡ false
        → f.read (String.◌++◌ "/var/log/" name) ≡ g.read (String.◌++◌ "/var/log/" name))
    → logs_tail_handler f atoi query r ≡ logs_tail_handler g atoi query r
unfolding logs_tail_handler
logs_tail_handler-local f g atoi query r same agree =
    elim (Bool-cases (any_code is_separator (query "file"))) [
      | inl bad ↦ rw bad refl
      | inr clean ↦
          let n = line_count (given_count atoi query) in
          rw
            (
              clean,
              tail_log_file-read f (query "file") (given_count atoi query),
              tail_log_file-read g (query "file") (given_count atoi query),
              agree (query "file") clean,
              tail_read-decode f g n (g.read (String.◌++◌ "/var/log/" (query "file"))) same,
            )
            refl
    ]

abbrev is_dot : ℕ → Bool
is_dot c = nat_eq c b'.'

abbrev Refused : String → Type 0
Refused p =
    any_code is_dot p ≡ true
    → (any_code is_separator (trim_path p) ≡ true) × ((trim_path p == "") ≡ false)

dotted-Refused : All Refused known_log_files
unfolding trim_path any_code
dotted-Refused = ground arith

-- A log file with a dot in its name, such as kern.log, is in the list of the known ones, but the
-- handler refuses its name.
pub logs_tail_handler-dotted :
    (f : Files) (atoi : String → Option ℤ) (query : String → String) (r : Request) (p : String)
    → r.method ≡ "GET"
    → any (λ k. k == p) known_log_files ≡ true
    → any_code is_dot p ≡ true
    → query "file" ≡ trim_path p
    → (logs_tail_handler f atoi query r).status ≡ 403
unfolding logs_tail_handler
logs_tail_handler-dotted f atoi query r p get known dotted asked_for =
    let (bad, given) = All-any Refused p known_log_files dotted-Refused known dotted in
    rw asked_for (ground (arith, get, eq_iff r.method "GET", bad, given))
