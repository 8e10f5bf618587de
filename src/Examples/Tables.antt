-- ===== src/Examples/Tables.antt =====
-- The theorem on the table of `xl list` at concrete inputs: numbers of one digit.
use unyport.Common.{
  ℕ, ◌-◌, ◌≡◌, ◌≢◌, refl, ap, arith, String, true, some, List, [], ◌∷◌, ltb, map, All,
}
use unyport.Common.Integers.{ℤ, pos}
use unyport.Common.Text.{all_codes, first_code, is_space}
use unyport.Common.Text.Fields.Laws.{IsWord}
use unyport.Xen.Listing.{Numbers, parse_list}
use unyport.Xen.Listing.Laws.{Row, cells, table, domain, parse_list-table}

abbrev digit : String → ℕ
digit s = first_code s - 48

abbrev digits : Numbers ℕ
digits = record {
  atoi = λ s. some (pos (digit s));
  atoi_value = λ s. pos (digit s);
  uint_value = digit;
  float_value = digit;
}

abbrev web : Row
web = record {
  pad = λ i. i;
  name = "app.vm";
  id = "7";
  mem = "9";
  vcpus = "2";
  state = "-b----";
  seconds = "3";
}

filled_word : (w : String) → ltb 0 (first_code w) ≡ true → w ≢ ""
filled_word w h e = ground (arith, h, ap first_code e)

web_words : All (λ e. IsWord e.1) (cells web)
unfolding all_codes is_space
web_words = (
  (filled_word "app.vm" refl, refl),
  (
    (filled_word "7" refl, refl),
    (
      (filled_word "9" refl, refl),
      (
        (filled_word "2" refl, refl),
        ((filled_word "-b----" refl, refl), ((filled_word "3" refl, refl), tt)),
      ),
    ),
  ),
)

abbrev rows : List (Row × ℤ)
rows = (web, pos 7) ∷ (web, pos 7) ∷ []

parse_list-table_example :
    parse_list digits (table "Name ID Mem VCPUs State Time(s)" rows) ≡ map (domain digits) rows
unfolding all_codes
parse_list-table_example =
    parse_list-table digits "Name ID Mem VCPUs State Time(s)" rows refl
      ((web_words, refl), ((web_words, refl), tt))
