-- ===== src/Xen/Options.antt =====
-- The arguments of `xl` that a request can choose.
use Prim.Native.String
use unyport.Common.{
  ◌≡◌, ◌≢◌, inl, inr, Bool-cases, ◌++◌, ◌&&◌, if◌then◌else◌, refl, ap, sym, String, Bool, true,
  false, List, [], ◌∷◌, ◌==◌, eq_iff, arith, All,
}
use unyport.Common.Text.{first_code, has_prefix, trim_space}
use unyport.Xen.{valid_domain, valid_host, valid_config_path, is_control_domain}
use unyport.Xen.Client.{Client, command, action, domain_action, migrate}
use unyport.Http.{Context}
use unyport.Xen.Handler.{ActionRequest, run_action}
use unyport.Xen.Guards.{IsIdle, IsIdle-if, IsIdle-refuse}
use unyport.Xen.Commands.{IsAllowed, power, destroying, migrating, migrating_live, creating}

valid_domain-first : (s : String) → valid_domain s ≡ true → first_code s ≢ b'-'
unfolding valid_domain
valid_domain-first s h = ground arith

valid_host-first : (s : String) → valid_host s ≡ true → first_code s ≢ b'-'
unfolding valid_host
valid_host-first s h = ground arith

has_prefix-slash :
    (s rest : String) → has_prefix s (Prim.Native.String.◌∷◌ "/" rest) ≡ true → first_code s ≡ b'/'
unfolding has_prefix
has_prefix-slash Prim.Native.String.[] rest h = absurd (ground arith)
has_prefix-slash (Prim.Native.String.◌∷◌ c s) rest h = ground arith

valid_config_path-first : (s : String) → valid_config_path s ≡ true → first_code s ≢ b'-'
unfolding valid_config_path
valid_config_path-first s h =
    ground (arith, h, has_prefix-slash s "etc/xen/", has_prefix-slash s "media/")

first_code-same : (a b : String) → (a == b) ≡ true → first_code b ≡ first_code a
first_code-same a b h = ap first_code (sym ((eq_iff a b).0 h))

-- With an allowed command no text of the request reaches `xl` as an option: an argument that
-- starts with a dash is the client's own -l.
pub IsAllowed-no_option :
    (role : String) (args : List String)
    → IsAllowed role args
    → All (λ a. first_code a ≡ b'-' → a ≡ "-l") args
IsAllowed-no_option role args (power name domain listed good guest) =
    let plain : first_code name ≢ b'-' = ground (
      arith,
      listed,
      first_code-same "shutdown" name,
      first_code-same "reboot" name,
      first_code-same "pause" name,
      first_code-same "unpause" name,
    ) in
    (λ e. absurd (plain e), (λ e. absurd (valid_domain-first domain good e), tt))
IsAllowed-no_option role args (destroying domain admin good guest) =
    (λ e. ground (arith, e), (λ e. absurd (valid_domain-first domain good e), tt))
IsAllowed-no_option role args (migrating domain host admin good fine) = (
  λ e. ground (arith, e),
  (
    λ e. absurd (valid_domain-first domain good e),
    (λ e. absurd (valid_host-first host fine e), tt),
  ),
)
IsAllowed-no_option role args (migrating_live domain host admin good fine) = (
  λ e. ground (arith, e),
  (
    λ e. refl,
    (
      λ e. absurd (valid_domain-first domain good e),
      (λ e. absurd (valid_host-first host fine e), tt),
    ),
  ),
)
IsAllowed-no_option role args (creating path admin good) =
    (λ e. ground (arith, e), (λ e. absurd (valid_config_path-first path good e), tt))

module _ (c : Client) (ctx : Context) (domain : String) (req : ActionRequest)
    (control : is_control_domain domain ≡ true) where
  IsIdle-control : (name : String) → IsIdle (domain_action c req.dry_run name domain)
  unfolding domain_action
  IsIdle-control name = elim (Bool-cases (valid_domain domain)) [
    | inr bad ↦ rw bad (IsIdle-refuse _)
    | inl good ↦ rw (good, control) (IsIdle-refuse _)
  ]

  IsIdle-other :
      (name : String) → (name == "migrate") ≡ false → IsIdle (run_action c ctx domain name req)
  unfolding run_action
  IsIdle-other name other = rw other (search (IsIdle-if, IsIdle-refuse, IsIdle-control) depth 20)

  run_action-migrate :
      valid_domain domain ≡ true
      → ctx.user_role ≡ "admin"
      → req.dry_run ≡ false
      → (run_action c ctx domain "migrate" req).commands ≡ (
          if valid_host (trim_space req.target_host)
          then command c (
              "migrate"
              ∷ ((if req.live then "-l" ∷ [] else [])
                  ++ (domain ∷ trim_space req.target_host ∷ [])))
            ∷ []
          else [])
  unfolding run_action migrate action
  run_action-migrate valid admin wet =
      rw (admin, valid)
        (elim (Bool-cases (valid_host (trim_space req.target_host))) [
          | inl good ↦ rw good (by_dry req.dry_run wet)
          | inr bad ↦ rw bad refl
        ])
    where
      by_dry :
          (dry : Bool)
          → dry ≡ false
          → (action c dry (
              "migrate"
              ∷ ((if req.live then "-l" ∷ [] else [])
                  ++ (domain ∷ trim_space req.target_host ∷ [])))).commands
            ≡ command c (
                "migrate"
                ∷ ((if req.live then "-l" ∷ [] else [])
                    ++ (domain ∷ trim_space req.target_host ∷ [])))
              ∷ []
      by_dry true e = absurd (ground (arith, e))
      by_dry false e = refl

  -- An administrator's request for an action on the control domain, under any of its valid names,
  -- that is no dry run, runs a command in one case only: a migration to a valid host is run. Every
  -- other action runs nothing.
  pub run_action-control :
      (name : String)
      → valid_domain domain ≡ true
      → ctx.user_role ≡ "admin"
      → req.dry_run ≡ false
      → (run_action c ctx domain name req).commands ≡ (
          if (name == "migrate") && valid_host (trim_space req.target_host)
          then command c (
              "migrate"
              ∷ ((if req.live then "-l" ∷ [] else [])
                  ++ (domain ∷ trim_space req.target_host ∷ [])))
            ∷ []
          else [])
  run_action-control name valid admin wet = elim (Bool-cases (name == "migrate")) [
    | inr other ↦ rw other ((IsIdle-other name other).nothing)
    | inl moving ↦
        let e : name ≡ "migrate" = (eq_iff name "migrate").0 moving in
        rw e (run_action-migrate valid admin wet)
  ]
