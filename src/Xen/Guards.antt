-- ===== src/Xen/Guards.antt =====
-- When the handlers of Xen actions run a command.
use unyport.Common.{
  ◌≡◌, refl, ◌⊎◌, inl, inr, String, Bool, true, false, not, Option, none, some, List, [], ◌∷◌, ◌==◌,
  eq_iff, Bool-cases, if◌then◌else◌,
}
use unyport.Common.Text.{trim_space, to_lower}
use unyport.Http.{Request, Context}
use unyport.Xen.{valid_config_path}
use unyport.Xen.Client.{
  Client, Command, command, Traced, ActionResult, XenError, refuse, action, domain_action, create,
  migrate,
}
use unyport.Xen.Handler.{
  ActionRequest, run_action, act_on, deny, create_from, domain_from_action_path,
  domain_action_handler, create_handler,
}
use unyport.Xen.Commands.{AreAllowed, AreAllowed-none, AreAllowed-run_action}

-- What the handlers of the actions have let through: allowed commands, and none unless the
-- request is a POST on a control domain that asks for more than a dry run.
pub record IsCleared (c : Client) (ctx : Context) (dom0 : Bool) (r : Request)
    (body : Option ActionRequest) (commands : List Command) : Type 0 where
  pub all_allowed : AreAllowed c ctx.user_role commands
  pub conditions :
      (commands ≡ [])
      ⊎ ((r.method ≡ "POST")
          × (dom0 ≡ true)
          × ((req : ActionRequest) × (body ≡ some req) × (req.dry_run ≡ false)))

-- Nothing was run for a result.
pub record IsIdle (t : Traced ActionResult) : Type 0 where
  pub nothing : t.commands ≡ []

pub IsIdle-if :
    (b : Bool) (x y : Traced ActionResult) → IsIdle x → IsIdle y → IsIdle (if b then x else y)
IsIdle-if true x y ex ey = ex
IsIdle-if false x y ex ey = ey

pub IsIdle-refuse : (e : XenError) → IsIdle (refuse e)
IsIdle-refuse e = record { nothing = refl }

module _ (c : Client) (dry_run : Bool) (h : dry_run ≡ true) where
  IsIdle-action : (args : List String) → IsIdle (action c dry_run args)
  unfolding action
  IsIdle-action args = rw h (record { nothing = refl })

  IsIdle-domain_action : (name domain : String) → IsIdle (domain_action c dry_run name domain)
  unfolding domain_action
  IsIdle-domain_action name domain = search (IsIdle-if, IsIdle-refuse, IsIdle-action)

  IsIdle-migrate :
      (domain host : String) (live : Bool) → IsIdle (migrate c dry_run domain host live)
  unfolding migrate
  IsIdle-migrate domain host live = search (IsIdle-if, IsIdle-refuse, IsIdle-action)

IsIdle-run_action :
    (c : Client) (ctx : Context) (domain name : String) (req : ActionRequest)
    → req.dry_run ≡ true
    → IsIdle (run_action c ctx domain name req)
unfolding run_action
IsIdle-run_action c ctx domain name req h =
    let acting = IsIdle-domain_action c req.dry_run h in
    let moving = IsIdle-migrate c req.dry_run h in
    search (IsIdle-if, IsIdle-refuse, acting, moving) depth 20

module _ (c : Client) (ctx : Context) (r : Request) where
  IsCleared-none : (dom0 : Bool) (body : Option ActionRequest) → IsCleared c ctx dom0 r body []
  IsCleared-none dom0 body = record {
    all_allowed = AreAllowed-none c ctx.user_role;
    conditions = inl refl;
  }

  IsCleared-run :
      (req : ActionRequest) (t : Traced ActionResult)
      → (r.method == "POST") ≡ true
      → AreAllowed c ctx.user_role t.commands
      → (req.dry_run ≡ true → t.commands ≡ [])
      → IsCleared c ctx true r (some req) t.commands
  IsCleared-run req t post h dry = record {
    all_allowed = h;
    conditions = elim (Bool-cases req.dry_run) [
      | inl only_dry ↦ inl (dry only_dry)
      | inr wet ↦ inr ((eq_iff r.method "POST").0 post, refl, (req, refl, wet))
    ];
  }

  IsCleared-act_on :
      (r.method == "POST") ≡ true
      → (path : Option String) (b : Option ActionRequest)
      → IsCleared c ctx true r b (act_on c ctx path b).commands
  IsCleared-act_on post none b = IsCleared-none true b
  IsCleared-act_on post (some domain) none = IsCleared-none true none
  IsCleared-act_on post (some domain) (some req) =
      let name = to_lower (trim_space req.action) in
      IsCleared-run req (run_action c ctx domain name req) post
        (AreAllowed-run_action c ctx domain req name)
        (λ dry. (IsIdle-run_action c ctx domain name req dry).nothing)

  -- DomainAction runs nothing unless the request is a POST on a control domain and no dry run,
  -- and every command that it runs is the client's with arguments that the caller's role allows:
  -- a valid domain name that is not the control domain's, destroy and migrate for administrators
  -- only; for migrate the domain may be the control domain.
  pub domain_action_handler-IsCleared :
      (dom0 : Bool) (body : Option ActionRequest)
      → IsCleared c ctx dom0 r body (domain_action_handler c ctx dom0 r body).commands
  unfolding domain_action_handler
  domain_action_handler-IsCleared dom0 body = elim (Bool-cases (r.method == "POST")) [
    | inr other ↦ rw other (IsCleared-none dom0 body)
    | inl post ↦ rw post (by_flag post dom0)
  ]
    where
      by_flag :
          (r.method == "POST") ≡ true
          → (flag : Bool)
          → IsCleared c ctx flag r body
              (if not flag
                then deny "xen dom0 required" 403
                else act_on c ctx (domain_from_action_path r.path) body).commands
      by_flag post false = IsCleared-none false body
      by_flag post true = IsCleared-act_on post (domain_from_action_path r.path) body

  -- What Create runs: nothing, where one of its conditions fails, or one command, the creation from
  -- the path of the request.
  pub data IsCreation (dom0 : Bool) (body : Option ActionRequest) : List Command → Type 0 where
    no_post : (r.method == "POST") ≡ false → IsCreation dom0 body []
    no_dom0 : dom0 ≡ false → IsCreation dom0 body []
    no_admin : (ctx.user_role == "admin") ≡ false → IsCreation dom0 body []
    no_request : body ≡ none → IsCreation dom0 body []
    bad_path :
        (req : ActionRequest)
        → body ≡ some req
        → valid_config_path (trim_space req.config_path) ≡ false
        → IsCreation dom0 body []
    dry_run : (req : ActionRequest) → body ≡ some req → req.dry_run ≡ true → IsCreation dom0 body []
    created :
        (req : ActionRequest)
        → r.method ≡ "POST"
        → dom0 ≡ true
        → ctx.user_role ≡ "admin"
        → body ≡ some req
        → req.dry_run ≡ false
        → valid_config_path (trim_space req.config_path) ≡ true
        → IsCreation dom0 body (command c ("create" ∷ trim_space req.config_path ∷ []) ∷ [])

  create-IsCreation :
      (req : ActionRequest)
      → r.method ≡ "POST"
      → ctx.user_role ≡ "admin"
      → IsCreation true (some req) (create c req.dry_run (trim_space req.config_path)).commands
  unfolding create action
  create-IsCreation req post admin =
      elim (Bool-cases (valid_config_path (trim_space req.config_path))) [
        | inr bad ↦ rw bad (bad_path req refl bad)
        | inl good ↦ rw good (by_dry req.dry_run refl good)
      ]
    where
      by_dry :
          (dry : Bool)
          → req.dry_run ≡ dry
          → valid_config_path (trim_space req.config_path) ≡ true
          → IsCreation true
              (some req)
              (action c dry ("create" ∷ trim_space req.config_path ∷ [])).commands
      by_dry true e good = dry_run req refl e
      by_dry false e good = created req post refl admin refl e good

  create_from-IsCreation :
      (body : Option ActionRequest)
      → r.method ≡ "POST"
      → ctx.user_role ≡ "admin"
      → IsCreation true body (create_from c ctx body).commands
  create_from-IsCreation none post admin = no_request refl
  create_from-IsCreation (some req) post admin = create-IsCreation req post admin

  -- For a POST of an administrator on a control domain, with a valid path and no dry run, Create
  -- runs exactly one command, the client's `create` with the trimmed path of the request. Where it
  -- runs nothing, one of these conditions fails.
  pub create_handler-IsCreation :
      (dom0 : Bool) (body : Option ActionRequest)
      → IsCreation dom0 body (create_handler c ctx dom0 r body).commands
  unfolding create_handler
  create_handler-IsCreation dom0 body = elim (Bool-cases (r.method == "POST")) [
    | inr other ↦ rw other (no_post other)
    | inl post ↦ elim (Bool-cases (ctx.user_role == "admin")) [
      | inr lower ↦ rw (post, lower) (refused lower dom0)
      | inl admin ↦
          rw (post, admin)
            (by_flag dom0 ((eq_iff r.method "POST").0 post)
              ((eq_iff ctx.user_role "admin").0 admin))
    ]
  ]
    where
      refused :
          (ctx.user_role == "admin") ≡ false
          → (flag : Bool)
          → IsCreation flag body
              (if not flag
                then deny "xen dom0 required" 403
                else deny "admin required" 403).commands
      refused lower true = no_admin lower
      refused lower false = no_admin lower

      by_flag :
          (flag : Bool)
          → r.method ≡ "POST"
          → ctx.user_role ≡ "admin"
          → IsCreation flag body
              (if not flag then deny "xen dom0 required" 403 else create_from c ctx body).commands
      by_flag false post admin = no_dom0 refl
      by_flag true post admin = create_from-IsCreation body post admin
