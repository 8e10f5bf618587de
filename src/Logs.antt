-- ===== src/Logs.antt =====
-- The log files of unyport/backend/sse/sysinfo.go. A file is its bytes; what os.Open and the reads
-- give is a parameter, and a file does not change while it is read.
pub mod Tail
pub mod Names
pub mod Answers
use Prim.Native.String
use Prim.Native.String.{String}
use Prim.Native.Char.{code}
use unyport.Common.{
  ℕ, zero, suc, ◌+◌, ◌-◌, ◌*◌, Char, Bool, true, false, not, ◌&&◌, ◌||◌, Option, none, some, List,
  [], ◌∷◌, ◌++◌, ◌==◌, map, ltb, leb, nat_eq, any, length, if◌then◌else◌,
}
use unyport.Common.Text.{has_prefix, any_code}
use unyport.Common.Integers.{ℤ, pos, negsuc}
use unyport.Http.{Request, Response, str, num, lines, text, json_object, http_error}
use unyport.Handlers.Sessions.{method_not_allowed}

abbrev pub newline : ℕ
newline = 10

abbrev pub escape : ℕ
escape = 27

abbrev in_range : ℕ → ℕ → ℕ → Bool
in_range low high c = leb low c && leb c high

abbrev is_parameter : ℕ → Bool
is_parameter c = in_range b'0' b'9' c || nat_eq c b';' || nat_eq c b'?'

-- The length of a match of [ -/]*[@-~] at the start, plus what was read before it.
escape_end : ℕ → List ℕ → Option ℕ
escape_end n [] = none
escape_end n (c ∷ s) =
    let rest = escape_end (n + 1) s in
    if in_range 0x20 0x2f c then rest else if in_range 0x40 0x7e c then some (n + 1) else none

-- The same for [0-9;?]*[ -/]*[@-~]. The three classes are disjoint.
escape_parameters : ℕ → List ℕ → Option ℕ
unfolding escape_end
escape_parameters n [] = none
escape_parameters n (c ∷ s) =
    let rest = escape_parameters (n + 1) s in if is_parameter c then rest else escape_end n (c ∷ s)

-- The length of a match of ansiEscapePattern at the start.
unfoldable pub escape_length : List ℕ → Option ℕ
unfolding escape_parameters
escape_length (c ∷ (d ∷ s)) =
    if nat_eq c escape && nat_eq d b'[' then escape_parameters 2 s else none
escape_length _ = none

abbrev after_match : Option ℕ → ℕ
after_match none = 0
after_match (some n) = n - 1

abbrev kept : ℕ → Option ℕ → List ℕ → List ℕ → List ℕ
kept zero none here rest = here ++ rest
kept _ _ here rest = rest

abbrev still_skipped : ℕ → Option ℕ → ℕ
still_skipped zero found = after_match found
still_skipped (suc n) found = n

-- ansiEscapePattern.ReplaceAllString(line, ""): the first argument is what is left of a match.
unfoldable pub remove_escapes : ℕ → List ℕ → List ℕ
unfolding escape_length
remove_escapes n [] = []
remove_escapes n (c ∷ s) =
    let found = escape_length (c ∷ s) in
    kept n found (c ∷ []) (remove_escapes (still_skipped n found) s)

-- A control character other than a tab is dropped.
unfoldable pub drop_controls : String → String
drop_controls String.[] = String.[]
drop_controls (String.◌∷◌ c s) =
    let rest = drop_controls s in
    if ltb (code c) 32 && not (nat_eq (code c) b'\t') then rest else String.◌∷◌ c rest

-- A space is dropped only where nothing is left behind it.
abbrev keep_but_space : Char → String → String
keep_but_space c String.[] = if nat_eq (code c) b' ' then String.[] else String.◌∷◌ c String.[]
keep_but_space c (String.◌∷◌ d rest) = String.◌∷◌ c (String.◌∷◌ d rest)

-- strings.TrimRight(line, " ")
unfoldable pub trim_right_spaces : String → String
trim_right_spaces String.[] = String.[]
trim_right_spaces (String.◌∷◌ c s) = keep_but_space c (trim_right_spaces s)

abbrev keep_but_newline : ℕ → List ℕ → List ℕ
keep_but_newline c [] = if nat_eq c newline then [] else c ∷ []
keep_but_newline c (d ∷ rest) = c ∷ (d ∷ rest)

-- strings.TrimRight(text, "\n")
unfoldable pub trim_right_newlines : List ℕ → List ℕ
trim_right_newlines [] = []
trim_right_newlines (c ∷ s) = keep_but_newline c (trim_right_newlines s)

abbrev push_front : ℕ → List (List ℕ) → List (List ℕ)
push_front c [] = (c ∷ []) ∷ []
push_front c (w ∷ ws) = (c ∷ w) ∷ ws

-- strings.Split(text, "\n")
unfoldable pub split_lines : List ℕ → List (List ℕ)
split_lines [] = [] ∷ []
split_lines (c ∷ s) =
    let rest = split_lines s in if nat_eq c newline then [] ∷ rest else push_front c rest

-- What stands behind the first newline, if there is one.
unfoldable pub after_newline : List ℕ → Option (List ℕ)
after_newline [] = none
after_newline (c ∷ s) = let rest = after_newline s in if nat_eq c newline then some s else rest

unfoldable pub drop {ℓ} : {A : Type ℓ} → ℕ → List A → List A
drop zero xs = xs
drop (suc n) [] = []
drop (suc n) (x ∷ xs) = drop n xs

abbrev pub max_tail_bytes : ℕ
max_tail_bytes = 1024 * 1024

abbrev behind_first : List ℕ → Option (List ℕ) → List ℕ
behind_first window none = window
behind_first window (some rest) = rest

-- The bytes that tailLogFile reads, less a line that begins before them.
unfoldable pub window : ℕ → List ℕ → List ℕ
unfolding drop after_newline
window limit file =
    let start = length file - limit in
    let read = drop start file in
    if nat_eq start 0 then read else behind_first read (after_newline read)

-- lines[len(lines)-n:] where there are more than n
unfoldable pub last_lines {ℓ} : {A : Type ℓ} → ℕ → List A → List A
unfolding drop
last_lines n xs = drop (length xs - n) xs

-- What the program uses outside: UTF-8 with U+FFFD for what is malformed, and the bytes of a file
-- that opens and reads without an error.
pub record Files : Type 0 where
  pub decode : List ℕ → String
  pub read : String → Option (List ℕ)

unfoldable pub clean_line : Files → List ℕ → String
unfolding remove_escapes drop_controls trim_right_spaces
clean_line f line = trim_right_spaces (drop_controls (f.decode (remove_escapes 0 line)))

abbrev pub tail_of : Files → ℕ → List ℕ → List String
tail_of f n file =
    map (clean_line f)
      (last_lines n (split_lines (trim_right_newlines (window max_tail_bytes file))))

abbrev pub tail_read : Files → ℕ → Option (List ℕ) → Option (List String)
tail_read f n none = none
tail_read f n (some file) = some (tail_of f n file)

-- tailLogFile; none is an error
unfoldable pub tail_file : Files → String → ℕ → Option (List String)
tail_file f path n = tail_read f n (f.read path)

abbrev pub known_log_files : List String
known_log_files =
    "/var/log/messages" ∷ "/var/log/syslog" ∷ "/var/log/kern.log" ∷ "/var/log/auth.log"
    ∷ "/var/log/dmesg" ∷ "/var/log/cron" ∷ "/var/log/daemon.log" ∷ "/var/log/lbu.log" ∷ []

-- isAllowedLogPath
unfoldable pub is_allowed_log_path : String → Bool
is_allowed_log_path p =
    any (λ prefix. has_prefix p prefix) ("/var/log/" ∷ "/run/log/" ∷ "/var/run/log/" ∷ [])
    || any (λ known. p == known) known_log_files

abbrev pub line_count : ℤ → ℕ
line_count (negsuc m) = 100
line_count (pos n) = if nat_eq n 0 || ltb 1000 n then 100 else n

-- TailLogFile
unfoldable pub tail_log_file : Files → String → ℤ → Option (List String)
tail_log_file f path n = if is_allowed_log_path path then tail_file f path (line_count n) else none

-- LogFileInfo less size_mb, which is the size in bytes over 2 ^ 20, and exists, which is true.
pub record LogFileInfo : Type 0 where
  pub name : String
  pub path : String
  pub size : ℕ

abbrev found_log : String → String → Option ℕ → List LogFileInfo → List LogFileInfo
found_log name path none rest = rest
found_log name path (some size) rest = record { name = name; path = path; size = size } ∷ rest

abbrev last_part : Option String → String → String
last_part none p = p
last_part (some s) p = s

-- What stands behind the last slash, if there is one.
after_slash : String → Option String
after_slash String.[] = none
after_slash (String.◌∷◌ c s) = behind (after_slash s)
  where
    behind : Option String → Option String
    behind (some rest) = some rest
    behind none = if nat_eq (code c) b'/' then some s else none

-- trimPath
unfoldable pub trim_path : String → String
unfolding after_slash
trim_path p = last_part (after_slash p) p

-- ListLogFiles over a list of paths; `stat` gives the size of a file that is there
unfoldable pub list_log_files : (String → Option ℕ) → List String → List LogFileInfo
unfolding trim_path
list_log_files stat [] = []
list_log_files stat (p ∷ ps) = found_log (trim_path p) p (stat p) (list_log_files stat ps)

abbrev pub is_separator : ℕ → Bool
is_separator c = nat_eq c b'/' || nat_eq c b'.' || nat_eq c b'\\'

abbrev pub or_hundred : Option ℤ → ℤ
or_hundred none = pos 100
or_hundred (some n) = n

-- A reply that is written without a content type.
abbrev pub bare : String → Response
bare message = record { status = 403; headers = []; cookies = []; body = text message }

abbrev pub tail_reply : String → Option (List String) → Response
tail_reply name none = bare "{\"error\":\"file not accessible\"}"
tail_reply name (some ls) =
    json_object (("file", str name) ∷ ("lines", lines ls) ∷ ("count", num (length ls)) ∷ [])

abbrev pub given_count : (String → Option ℤ) → (String → String) → ℤ
given_count atoi query = if query "n" == "" then pos 100 else or_hundred (atoi (query "n"))

-- LogsTailHandler; `query` reads a parameter of the query, `atoi` is strconv.Atoi.
unfoldable pub logs_tail_handler :
    Files → (String → Option ℤ) → (String → String) → Request → Response
logs_tail_handler f atoi query r =
    let name = query "file" in
    if not (r.method == "GET")
    then method_not_allowed
    else if name == ""
    then http_error "{\"error\":\"missing ?file= parameter\"}" 400
    else if any_code is_separator name
    then bare "{\"error\":\"invalid file name\"}"
    else tail_reply name (tail_log_file f (String.◌++◌ "/var/log/" name) (given_count atoi query))
