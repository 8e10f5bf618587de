-- ===== src/Xen/Commands.antt =====
-- The commands that a request about a Xen domain can run.
use unyport.Common.{
  ◌≡◌, refl, inl, inr, String, Bool, true, false, not, List, [], ◌∷◌, ◌++◌, ◌==◌, eq_iff, arith,
  any, Bool-cases, if◌then◌else◌, All,
}
use unyport.Common.Text.{trim_space}
use unyport.Http.{Context}
use unyport.Xen.{valid_domain, valid_host, valid_config_path, is_control_domain}
use unyport.Xen.Client.{
  Client, Command, Traced, ActionResult, XenError, refuse, command, action, domain_action, migrate,
}
use unyport.Xen.Handler.{ActionRequest, run_action}

-- The commands that a user of this role may have run, by their arguments.
pub data IsAllowed (role : String) : List String → Type 0 where
  power :
      (name domain : String)
      → any (λ a. a == name) ("shutdown" ∷ "reboot" ∷ "pause" ∷ "unpause" ∷ []) ≡ true
      → valid_domain domain ≡ true
      → is_control_domain domain ≡ false
      → IsAllowed role (name ∷ domain ∷ [])
  destroying :
      (domain : String)
      → role ≡ "admin"
      → valid_domain domain ≡ true
      → is_control_domain domain ≡ false
      → IsAllowed role ("destroy" ∷ domain ∷ [])
  migrating :
      (domain host : String)
      → role ≡ "admin"
      → valid_domain domain ≡ true
      → valid_host host ≡ true
      → IsAllowed role ("migrate" ∷ domain ∷ host ∷ [])
  migrating_live :
      (domain host : String)
      → role ≡ "admin"
      → valid_domain domain ≡ true
      → valid_host host ≡ true
      → IsAllowed role ("migrate" ∷ "-l" ∷ domain ∷ host ∷ [])
  creating :
      (path : String)
      → role ≡ "admin"
      → valid_config_path path ≡ true
      → IsAllowed role ("create" ∷ path ∷ [])

-- Every command of a trace is one of the client's, with arguments that are allowed.
pub record AreAllowed (c : Client) (role : String) (commands : List Command) : Type 0 where
  pub allowed : All (λ x. (IsAllowed role x.args) × (x ≡ command c x.args)) commands

pub AreAllowed-none : (c : Client) (role : String) → AreAllowed c role []
AreAllowed-none c role = record { allowed = tt }

pub AreAllowed-action :
    (c : Client) (role : String) (dry_run : Bool) (args : List String)
    → IsAllowed role args
    → AreAllowed c role (action c dry_run args).commands
unfolding action
AreAllowed-action c role true args h = AreAllowed-none c role
AreAllowed-action c role false args h = record { allowed = ((h, refl), tt) }

AreAllowed-if :
    (c : Client) (role : String) (b : Bool) (x y : Traced ActionResult)
    → (b ≡ true → AreAllowed c role x.commands)
    → (b ≡ false → AreAllowed c role y.commands)
    → AreAllowed c role (if b then x else y).commands
AreAllowed-if c role true x y kx ky = kx refl
AreAllowed-if c role false x y kx ky = ky refl

module _ (c : Client) (role : String) (dry_run : Bool) where
  AreAllowed-domain_action :
      (name domain : String)
      → (valid_domain domain ≡ true
          → is_control_domain domain ≡ false
          → IsAllowed role (name ∷ domain ∷ []))
      → AreAllowed c role (domain_action c dry_run name domain).commands
  unfolding domain_action
  AreAllowed-domain_action name domain h = elim (Bool-cases (valid_domain domain)) [
    | inr bad ↦ rw bad (AreAllowed-none c role)
    | inl good ↦ elim (Bool-cases (is_control_domain domain)) [
      | inl zero_ ↦ rw (good, zero_) (AreAllowed-none c role)
      | inr guest ↦
          rw (good, guest) (AreAllowed-action c role dry_run (name ∷ domain ∷ []) (h good guest))
    ]
  ]

  AreAllowed-migrate :
      (domain host : String) (live : Bool)
      → role ≡ "admin"
      → AreAllowed c role (migrate c dry_run domain host live).commands
  unfolding migrate
  AreAllowed-migrate domain host live admin = elim (Bool-cases (valid_domain domain)) [
    | inr bad ↦ rw bad (AreAllowed-none c role)
    | inl good ↦ elim (Bool-cases (valid_host host)) [
      | inr bad ↦ rw (good, bad) (AreAllowed-none c role)
      | inl fine ↦ rw (good, fine) (by_flag good fine live)
    ]
  ]
    where
      by_flag :
          valid_domain domain ≡ true
          → valid_host host ≡ true
          → (live : Bool)
          → AreAllowed c role
              (action c dry_run
                ("migrate" ∷ ((if live then "-l" ∷ [] else []) ++ (domain ∷ host ∷ [])))).commands
      by_flag good fine true =
          AreAllowed-action c role dry_run _ (migrating_live domain host admin good fine)
      by_flag good fine false =
          AreAllowed-action c role dry_run _ (migrating domain host admin good fine)

module _ (c : Client) (ctx : Context) (domain : String) (req : ActionRequest) where
  AreAllowed-refuse : (e : XenError) → AreAllowed c ctx.user_role (refuse e).commands
  AreAllowed-refuse e = AreAllowed-none c ctx.user_role

  AreAllowed-power :
      (name : String)
      → any (λ a. a == name) ("shutdown" ∷ "reboot" ∷ "pause" ∷ "unpause" ∷ []) ≡ true
      → AreAllowed c ctx.user_role (domain_action c req.dry_run name domain).commands
  AreAllowed-power name h =
      AreAllowed-domain_action c ctx.user_role req.dry_run name domain
        (λ good guest. power name domain h good guest)

  AreAllowed-destroy :
      not (ctx.user_role == "admin") ≡ false
      → AreAllowed c ctx.user_role (domain_action c req.dry_run "destroy" domain).commands
  AreAllowed-destroy h =
      let admin : ctx.user_role ≡ "admin" = ground (arith, h, eq_iff ctx.user_role "admin") in
      AreAllowed-domain_action c ctx.user_role req.dry_run "destroy" domain
        (λ good guest. destroying domain admin good guest)

  AreAllowed-move :
      not (ctx.user_role == "admin") ≡ false
      → AreAllowed c ctx.user_role
          (migrate c req.dry_run domain (trim_space req.target_host) req.live).commands
  AreAllowed-move h =
      AreAllowed-migrate c ctx.user_role req.dry_run domain (trim_space req.target_host) req.live
        (ground (arith, h, eq_iff ctx.user_role "admin"))

  pub AreAllowed-run_action :
      (name : String) → AreAllowed c ctx.user_role (run_action c ctx domain name req).commands
  unfolding run_action
  AreAllowed-run_action name =
      let shutdown = AreAllowed-power "shutdown" refl in
      let reboot = AreAllowed-power "reboot" refl in
      let pause = AreAllowed-power "pause" refl in
      let unpause = AreAllowed-power "unpause" refl in
      search
        (
          AreAllowed-if, AreAllowed-refuse, AreAllowed-destroy, AreAllowed-move, shutdown, reboot,
          pause, unpause,
        )
        depth 20
