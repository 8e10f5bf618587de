-- ===== src/Settings/Laws.antt =====
-- What the settings that are loaded satisfy.
use unyport.Common.{
  ◌≡◌, ◌≢◌, ◌↔◌, refl, sym, inl, inr, String, Bool, true, false, not, some, ◌==◌, eq_iff, arith,
  Bool-cases, if◌then◌else◌,
}
use unyport.Common.Integers.{ℤ, pos, at_most}
use unyport.Settings.{Settings, text_or, int_or, with_defaults, parsed, load_settings}

-- The settings that have a default are filled in: the theme, two paths and two commands of LBU are
-- not empty, the limit of logins, the timeout and the port are positive, and the status of LBU is
-- shown. Secrets, addresses and the rest have no default and may be blank.
pub record IsFilled (s : Settings) : Type 0 where
  pub theme : s.theme ≢ ""
  pub users_file : s.paths.users_file ≢ ""
  pub log_dir : s.paths.log_dir ≢ ""
  pub check_dir : s.lbu.check_dir ≢ ""
  pub status_cmd : s.lbu.status_cmd ≢ ""
  pub rate_limit_login : at_most s.security2.rate_limit_login 0 ≡ false
  pub session_timeout_mins : at_most s.security2.session_timeout_mins 0 ≡ false
  pub port : at_most s.http3.port 0 ≡ false
  pub lbu_status : s.display.lbu_status ≡ true

text_or_filled : (s fallback : String) → (fallback == "") ≡ false → text_or s fallback ≢ ""
text_or_filled s fallback h = elim (Bool-cases (s == "")) [
  | inl empty ↦ rw empty (λ e. absurd (ground (arith, e, h, eq_iff fallback "")))
  | inr given ↦ rw given (λ e. absurd (ground (arith, e, given, eq_iff s "")))
]

int_or_positive :
    (i fallback : ℤ) → at_most fallback 0 ≡ false → at_most (int_or i fallback) 0 ≡ false
int_or_positive i fallback h = elim (Bool-cases (at_most i 0)) [
  | inl low ↦ rw low h
  | inr given ↦ rw given given
]

shown_set : (b : Bool) → (if not b then true else b) ≡ true
shown_set true = refl
shown_set false = refl

with_defaults-IsFilled : (s : Settings) → IsFilled (with_defaults s)
unfolding with_defaults
with_defaults-IsFilled s = record {
  theme = text_or_filled s.theme "dark" refl;
  users_file = text_or_filled s.paths.users_file "settings/users.json" refl;
  log_dir = text_or_filled s.paths.log_dir "logs" refl;
  check_dir = text_or_filled s.lbu.check_dir "/media/usbdisk" refl;
  status_cmd = text_or_filled s.lbu.status_cmd "lbu status" refl;
  rate_limit_login = int_or_positive s.security2.rate_limit_login (pos 5) refl;
  session_timeout_mins = int_or_positive s.security2.session_timeout_mins (pos 60) refl;
  port = int_or_positive s.http3.port (pos 8443) refl;
  lbu_status = shown_set s.display.lbu_status;
}

text_or_given : (s fallback : String) → s ≢ "" → text_or s fallback ≡ s
text_or_given s fallback h = ground (arith, eq_iff s "")

int_or_given : (i fallback : ℤ) → at_most i 0 ≡ false → int_or i fallback ≡ i
int_or_given i fallback h = rw h refl

shown_given : (b : Bool) → b ≡ true → (if not b then true else b) ≡ b
shown_given true h = refl
shown_given false h = absurd (ground (arith, h))

-- Settings that are filled in are loaded as they stand in the file.
load_settings_complete : (s : Settings) → IsFilled s → load_settings (parsed s) ≡ some s
unfolding load_settings
load_settings_complete s u =
    rw
      (
        text_or_given s.theme "dark" u.theme,
        text_or_given s.paths.users_file "settings/users.json" u.users_file,
        text_or_given s.paths.log_dir "logs" u.log_dir,
        text_or_given s.lbu.check_dir "/media/usbdisk" u.check_dir,
        text_or_given s.lbu.status_cmd "lbu status" u.status_cmd,
        int_or_given s.security2.rate_limit_login (pos 5) u.rate_limit_login,
        int_or_given s.security2.session_timeout_mins (pos 60) u.session_timeout_mins,
        int_or_given s.http3.port (pos 8443) u.port,
        shown_given s.display.lbu_status u.lbu_status,
      )
      refl

loaded : (t s : Settings) → load_settings (parsed t) ≡ some s → with_defaults t ≡ s
unfolding load_settings
loaded t s h = ground (arith, h)

-- The settings that have no default.
kept :
    (t : Settings)
    → ((with_defaults t).security ≡ t.security)
      × ((with_defaults t).oauth ≡ t.oauth)
      × ((with_defaults t).mail ≡ t.mail)
      × ((with_defaults t).security2.trusted_origins ≡ t.security2.trusted_origins)
unfolding with_defaults
kept t = (refl, refl, refl, refl)

-- What LoadSettings gives for a file that parses has every setting with a default filled in, the
-- status of LBU shown also where the file turns it off. Its secrets, rules for logins through a
-- provider, mail settings and trusted origins are those of the file, blank ones included. The file
-- is loaded as it stands if it is filled in already, and only then.
pub load_settings-IsFilled :
    (t s : Settings)
    → load_settings (parsed t) ≡ some s
    → IsFilled s
      × (s.security ≡ t.security)
      × (s.oauth ≡ t.oauth)
      × (s.mail ≡ t.mail)
      × (s.security2.trusted_origins ≡ t.security2.trusted_origins)
      × (IsFilled t ↔ (s ≡ t))
load_settings-IsFilled t s h =
    let same = loaded t s h in
    let (secrets, providers, mails, origins) = kept t in
    (
      rw (sym same) (with_defaults-IsFilled t),
      rw (sym same) secrets,
      rw (sym same) providers,
      rw (sym same) mails,
      rw (sym same) origins,
      (
        (λ f. cc (h, load_settings_complete t f)),
        (λ e. let filled : IsFilled s = rw (sym same) (with_defaults-IsFilled t) in rw e at filled),
      ),
    )
