-- ===== src/Examples/Reports.antt =====
-- The theorems on logs, versions, reboots, branding and settings at concrete inputs.
use mathlib.Core.List.{Memᴰ}
use Prim.Native.String.{len}
use mathlib.Core.List
use unyport.Common.{
  ℕ, ◌≤◌, ◌≡◌, ◌≢◌, ◌↔◌, refl, arith, inl, ◌⊎◌, String, true, false, Option, none, some, List, [],
  ◌∷◌, ◌==◌, eq_iff, length, map, All, if◌then◌else◌,
}
use unyport.Common.Integers.{pos, negsuc}
use unyport.Common.Text.{all_codes}
use unyport.Logs.{Files, clean_line, tail_of, split_lines, trim_right_newlines, max_tail_bytes}
use unyport.Logs.Tail.{tail_of-IsTail}
use unyport.Broker.Versions.{highest_version_from_tag_names}
use unyport.Broker.Versions.Laws.{highest_version_greatest, AtMost, Gives}
use unyport.Branding.{
  Branding, Base64, ColorName, dom0, domu, container, alpine, BrandingStore, update, empty_branding,
  rename_failed, is_hex_color, color_of,
}
use unyport.Branding.Laws.{IsValid, update-IsValid}
use unyport.Settings.{Settings, with_defaults, load_settings}
use unyport.Settings.Laws.{IsFilled, load_settings-IsFilled}

-- Every file is the bytes of "one" and "two", a line each.
abbrev bytes : List ℕ
bytes = 111 ∷ 110 ∷ 101 ∷ 10 ∷ 116 ∷ 119 ∷ 111 ∷ 10 ∷ []

abbrev files : Files
files = record { decode = λ b. "abc"; read = λ p. some bytes }

tail_of-IsTail_example :
    (before last : List (List ℕ)) × (split_lines (trim_right_newlines bytes)
      ≡ List.◌++◌ before last)
    × (length last ≤ 1)
    × (length bytes ≤ max_tail_bytes → 1 ≤ length (List.◌++◌ before last) → length last ≡ 1)
    × (tail_of files 1 bytes ≡ map (clean_line files) last)
tail_of-IsTail_example = tail_of-IsTail files 1 bytes (inl (omega arith))

abbrev wanted : String → String
wanted name = if name == "file" then "messages" else ""

-- A pattern that takes every text that is not empty.
abbrev nonempty : String → Option String
nonempty t = if t == "" then none else some t

abbrev tags : List String
tags = "1.2" ∷ "" ∷ "1.10" ∷ []

nonempty_filled : (t m : String) → nonempty t ≡ some m → m ≢ ""
nonempty_filled t m h e = absurd (ground (arith, h, e, eq_iff t ""))

highest_version_greatest_example :
    All
      (AtMost (λ p. len p) nonempty (highest_version_from_tag_names (λ p. len p) nonempty tags))
      tags
    × ((highest_version_from_tag_names (λ p. len p) nonempty tags ≡ "")
        ⊎ Gives
            (λ p. len p)
            nonempty
            (highest_version_from_tag_names (λ p. len p) nonempty tags)
            tags)
highest_version_greatest_example =
    highest_version_greatest (λ p. len p) nonempty tags nonempty_filled

abbrev default_branding : Branding
default_branding = record {
  logo_base64 = "";
  logo_url = "";
  colors = record {
    dom0 = "#3e3aab";
    dom_u = "#a0284a";
    container = "#b05a1a";
    alpine = "#28587c";
  };
}

abbrev no_base64 : Base64
no_base64 = record { std = λ s. false; raw_std = λ s. false }

abbrev all_names : List ColorName
all_names = dom0 ∷ domu ∷ container ∷ alpine ∷ []

covers : (n : ColorName) → Memᴰ n all_names
covers dom0 = Memᴰ.head refl
covers domu = Memᴰ.tail (Memᴰ.head refl)
covers container = Memᴰ.tail (Memᴰ.tail (Memᴰ.head refl))
covers alpine = Memᴰ.tail (Memᴰ.tail (Memᴰ.tail (Memᴰ.head refl)))

default_color_valid : (n : ColorName) → is_hex_color (color_of default_branding.colors n) ≡ true
unfolding is_hex_color color_of all_codes
default_color_valid dom0 = refl
default_color_valid domu = refl
default_color_valid container = refl
default_color_valid alpine = refl

default-IsValid : IsValid no_base64 default_branding
default-IsValid = record { logo = inl refl; url = inl refl; color = default_color_valid }

abbrev red : Branding
red = record empty_branding { colors = record empty_branding.colors { dom0 = "#f00" } }

abbrev brand_store : BrandingStore
brand_store = record { branding = default_branding; file = none }

update-IsValid_example :
    IsValid no_base64 (update no_base64 all_names rename_failed red brand_store).1.branding
update-IsValid_example =
    update-IsValid no_base64 all_names rename_failed red brand_store covers default-IsValid

abbrev blank_settings : Settings
blank_settings = record {
  theme = "";
  security = record { csrf_secret = ""; jwt_secret = "" };
  paths = record { users_file = ""; log_dir = ""; lbu_overlay = ""; lbu_commit_log = "" };
  display = record {
    cpu = true;
    memory = true;
    disk = true;
    network = true;
    xen_status = true;
    lbu_status = false;
  };
  lbu = record { enabled = false; check_dir = ""; status_cmd = ""; auto_detect = false };
  oauth = record { enabled = false; allowed_domains = []; auto_create = false };
  security2 = record {
    rate_limit_login = negsuc 4;
    rate_limit_api = pos 0;
    session_timeout_mins = pos 0;
    https = false;
    trusted_origins = [];
  };
  mail = record {
    enabled = false;
    host = "";
    port = pos 0;
    username = "";
    password = "";
    from = "";
    sendmail_path = "";
  };
  http3 = record {
    enabled = false;
    cert_file = "";
    key_file = "";
    port = pos 0;
    redirect_http = false;
  };
}

load_settings-IsFilled_example :
    IsFilled (with_defaults blank_settings)
    × ((with_defaults blank_settings).security ≡ blank_settings.security)
    × ((with_defaults blank_settings).oauth ≡ blank_settings.oauth)
    × ((with_defaults blank_settings).mail ≡ blank_settings.mail)
    × ((with_defaults blank_settings).security2.trusted_origins
        ≡ blank_settings.security2.trusted_origins)
    × (IsFilled blank_settings ↔ (with_defaults blank_settings ≡ blank_settings))
unfolding load_settings
load_settings-IsFilled_example =
    load_settings-IsFilled blank_settings (with_defaults blank_settings) refl
