-- ===== src/Xen/Listing.antt =====
-- The reports of `xl` in unyport/backend/xenctl: ListDomains, ParseList and Info of xenctl.go, and
-- the handlers Domains and Info of http.go, which only read. Package strconv is a parameter.
pub mod Laws
use unyport.Common.{
  ℕ, String, Bool, not, Option, none, some, List, [], ◌∷◌, ◌==◌, nat_eq, if◌then◌else◌,
}
use unyport.Common.Integers.{ℤ}
use unyport.Common.Dict.{Dict, insert}
use unyport.Common.Text.{split, cut, trim_space}
use unyport.Common.Text.Fields.{fields, trim_codes}
use unyport.Http.{Request, Response, json_error}
use unyport.Xen.Client.{Client, Answer, done, refused, Traced, XenError, Command, command, run}
use unyport.Xen.Handler.{error_text}

-- strconv: Atoi, where it gives no error, and the values that Atoi, ParseUint and ParseFloat
-- return whether they give an error or not.
pub record Numbers (F : Type 0) : Type 0 where
  pub atoi : String → Option ℤ
  pub atoi_value : String → ℤ
  pub uint_value : String → ℕ
  pub float_value : String → F

pub record Domain (F : Type 0) : Type 0 where
  pub dom_id : ℤ
  pub name : String
  pub state : String
  pub vcpus : ℤ
  pub mem_mb : ℕ
  pub cpu_sec : F

-- The last of the texts behind the first.
unfoldable pub last_field : String → List String → String
last_field f [] = f
last_field f (g ∷ rest) = last_field g rest

module _ {F : Type 0} (num : Numbers F) where
  unfoldable pub domain_of :
      String → Option ℤ → String → String → String → String → List (Domain F) → List (Domain F)
  domain_of name none mem vcpus state seconds doms = doms
  domain_of name (some id) mem vcpus state seconds doms =
      record {
        dom_id = id;
        name = name;
        state = trim_codes (λ c. nat_eq c b'-') state;
        vcpus = num.atoi_value vcpus;
        mem_mb = num.uint_value mem;
        cpu_sec = num.float_value seconds;
      }
      ∷ doms

  -- The body of the loop of ParseList, before the domains of the further lines.
  unfoldable pub add_row : List String → List (Domain F) → List (Domain F)
  unfolding last_field domain_of
  add_row (name ∷ id ∷ mem ∷ vcpus ∷ state ∷ f ∷ rest) doms =
      domain_of name (num.atoi id) mem vcpus state (last_field f rest) doms
  add_row _ doms = doms

  unfoldable pub parse_rows : List String → List (Domain F)
  unfolding add_row
  parse_rows [] = []
  parse_rows (line ∷ lines) = add_row (fields line) (parse_rows lines)

  abbrev pub behind_header : List String → List (Domain F)
  behind_header [] = []
  behind_header (header ∷ lines) = parse_rows lines

  -- ParseList
  unfoldable pub parse_list : String → List (Domain F)
  unfolding parse_rows
  parse_list out = behind_header (split b'\n' out)

-- The loop of Info.
abbrev pub add_entry : Option (String × String) → Dict String → Dict String
add_entry none info = info
add_entry (some (key, val)) info = insert (trim_space key) (trim_space val) info

unfoldable pub parse_info : Dict String → List String → Dict String
parse_info info [] = info
parse_info info (line ∷ lines) = parse_info (add_entry (cut b':' line) info) lines

abbrev read_output {ℓ} : {A : Type ℓ} → (String → A) → String × Option XenError → Answer A
read_output parse (out, some e) = refused e
read_output parse (out, none) = done (parse out)

-- ListDomains
unfoldable pub list_domains : {F : Type 0} → Numbers F → Client → Traced (List (Domain F))
unfolding run
list_domains num c = record {
  answer = read_output (parse_list num) (run c ("list" ∷ []));
  commands = command c ("list" ∷ []) ∷ [];
}

-- (*Client).Info
unfoldable pub client_info : Client → Traced (Dict String)
unfolding run parse_info
client_info c = record {
  answer = read_output (λ out. parse_info [] (split b'\n' out)) (run c ("info" ∷ []));
  commands = command c ("info" ∷ []) ∷ [];
}

-- What a reading handler sends: an error, that the host is not the first domain of Xen, or a
-- report.
pub data Report {ℓ} (A : Type ℓ) : Type ℓ where
  failure : Response → Report A
  not_xen_dom0 : Report A
  report : A → Report A

pub record Reading {ℓ} (A : Type ℓ) : Type ℓ where
  pub reply : Report A
  pub commands : List Command

abbrev report_of {ℓ} : {A : Type ℓ} → Answer A → Report A
report_of (done a) = report a
report_of (refused e) = failure (json_error (error_text e) 502)

abbrev pub reading {ℓ} : {A : Type ℓ} → Bool → Request → Traced A → Reading A
reading dom0 r t =
    if not (r.method == "GET")
    then record { reply = failure (json_error "method not allowed" 405); commands = [] }
    else if not dom0
    then record { reply = not_xen_dom0; commands = [] }
    else record { reply = report_of t.answer; commands = t.commands }

-- Domains; `dom0` is dom0Ready.
unfoldable pub domains_handler :
    {F : Type 0} → Numbers F → Client → Bool → Request → Reading (List (Domain F))
unfolding error_text
domains_handler num c dom0 r = reading dom0 r (list_domains num c)

-- Info
unfoldable pub info_handler : Client → Bool → Request → Reading (Dict String)
unfolding error_text
info_handler c dom0 r = reading dom0 r (client_info c)
