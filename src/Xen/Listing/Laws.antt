-- ===== src/Xen/Listing/Laws.antt =====
-- What ParseList of unyport/backend/xenctl/xenctl.go reads of a table, and what the reading handlers
-- of unyport/backend/xenctl/http.go run.
use unyport.Common.{
  ℕ, ◌≡◌, refl, ap, ◌∙◌, ◌==◌, arith, String, Bool, true, not, ◌&&◌, List, [], ◌∷◌, All, some, map,
  nat_eq, if◌then◌else◌,
}
use unyport.Common.Integers.{ℤ}
use unyport.Common.Text.{all_codes, split}
use unyport.Common.Text.Fields.{fields, trim_codes}
use unyport.Common.Text.Fields.Laws.{IsWord, laid, fields-laid, one_line_laid, joined, split-line}
use unyport.Http.{Request}
use unyport.Xen.Client.{Client, command}
use unyport.Xen.Listing.{
  Numbers, Domain, add_row, domain_of, last_field, parse_rows, parse_list, domains_handler,
  info_handler, behind_header, list_domains, client_info,
}

-- A line of the table: its six columns and the spaces before each.
pub record Row : Type 0 where
  pub pad : ℕ → ℕ
  pub name : String
  pub id : String
  pub mem : String
  pub vcpus : String
  pub state : String
  pub seconds : String

abbrev pub cells : Row → List (ℕ × String)
cells r =
    (r.pad 0, r.name)
    ∷ (r.pad 1, r.id)
    ∷ (r.pad 2, r.mem)
    ∷ (r.pad 3, r.vcpus)
    ∷ (r.pad 4, r.state)
    ∷ (r.pad 5, r.seconds)
    ∷ []

-- The text of a table: a header, and a line for each row.
unfoldable pub table : String → List (Row × ℤ) → String
unfolding joined
table header rows = joined (header ∷ map (λ r. laid (cells r.0)) rows)

module _ {F : Type 0} (num : Numbers F) where
  -- The columns of a row are words, and Atoi reads its identity.
  abbrev pub IsRow : Row × ℤ → Type 0
  IsRow (r, id) = All (λ e. IsWord e.1) (cells r) × (num.atoi r.id ≡ some id)

  -- The domain that a row stands for.
  abbrev pub domain : Row × ℤ → Domain F
  domain (r, id) = record {
    dom_id = id;
    name = r.name;
    state = trim_codes (λ c. nat_eq c b'-') r.state;
    vcpus = num.atoi_value r.vcpus;
    mem_mb = num.uint_value r.mem;
    cpu_sec = num.float_value r.seconds;
  }

  add_row_lem :
      (r : Row) (id : ℤ) (doms : List (Domain F))
      → IsRow (r, id)
      → add_row num (fields (laid (cells r))) doms ≡ domain (r, id) ∷ doms
  unfolding add_row domain_of last_field
  add_row_lem r id doms (words, known) = rw (fields-laid (cells r) words, known) refl

  rows-joined :
      (rows : List (Row × ℤ))
      → All IsRow rows
      → parse_rows num (split b'\n' (joined (map (λ r. laid (cells r.0)) rows))) ≡ map domain rows
  unfolding parse_rows joined split laid add_row
  rows-joined [] h = ap (λ f. add_row num f []) (fields-laid [] tt)
  rows-joined ((r, id) ∷ rows) (here, h) =
      ap (parse_rows num) (
        split-line (laid (cells r)) (joined (map (λ r. laid (cells r.0)) rows))
          (one_line_laid (cells r) here.0))
      ∙ ap (add_row num (fields (laid (cells r)))) (rows-joined rows h)
      ∙ add_row_lem r id (map domain rows) here

  -- Of a table with a header of one line and rows of six words, whatever the width of its columns,
  -- where the second word of each row is a number that Atoi reads, ParseList reads one domain for
  -- each row, in their order, with the row's columns in its fields.
  pub parse_list-table :
      (header : String) (rows : List (Row × ℤ))
      → all_codes (λ c. not (nat_eq c b'\n')) header ≡ true
      → All IsRow rows
      → parse_list num (table header rows) ≡ map domain rows
  unfolding parse_list table joined
  parse_list-table header rows one_line h =
      ap (behind_header num)
        (split-line header (joined (map (λ r. laid (cells r.0)) rows)) one_line)
      ∙ rows-joined rows h

-- The reading handlers run one command that reads, `xl list` or `xl info`, if the request is a GET
-- and the host is the first domain of Xen, and nothing otherwise.
pub domains_handler-commands :
    {F : Type 0} (num : Numbers F) (c : Client) (dom0 : Bool) (r : Request)
    → ((domains_handler num c dom0 r).commands
        ≡ (if (r.method == "GET") && dom0 then command c ("list" ∷ []) ∷ [] else []))
      × ((info_handler c dom0 r).commands
          ≡ (if (r.method == "GET") && dom0 then command c ("info" ∷ []) ∷ [] else []))
unfolding domains_handler info_handler list_domains client_info
domains_handler-commands num c dom0 r = (ground arith, ground arith)
