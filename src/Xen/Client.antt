-- ===== src/Xen/Client.antt =====
-- The client of unyport/backend/xenctl/xenctl.go: which commands it runs and what it reports.
-- The Runner is a parameter; a call returns its result and the commands that it has run.
use unyport.Common.{
  String, Bool, true, false, not, Option, none, some, List, [], ◌∷◌, ◌++◌, ◌==◌, if◌then◌else◌,
}
use unyport.Common.Text.{trim_space}
use unyport.Xen.{valid_domain, valid_host, is_control_domain, valid_config_path}

pub data XenError : Type 0 where
  invalid_domain_name invalid_target_host invalid_config_path control_domain : XenError
  admin_required unknown_action : XenError
  timed_out : String → XenError
  failed : String → String → XenError

-- What Runner.Run and its context give: the output, whether the deadline passed, and the text of
-- the error if there is one.
pub record Ran : Type 0 where
  pub output : String
  pub late : Bool
  pub failure : Option String

pub record Command : Type 0 where
  pub bin : String
  pub args : List String

-- The Bin of a Client, and its Runner.
pub record Client : Type 0 where
  pub bin : String
  pub runner : Command → Ran

pub record ActionResult : Type 0 where
  pub ok : Bool
  pub action : String
  pub args : List String
  pub output : String
  pub dry_run : Bool
  pub message : String

pub data Answer {ℓ} (A : Type ℓ) : Type ℓ where
  done : A → Answer A
  refused : XenError → Answer A

-- A result, and the commands that were run for it, in order.
pub record Traced {ℓ} (A : Type ℓ) : Type ℓ where
  pub answer : Answer A
  pub commands : List Command

abbrev pub head : List String → String
head [] = ""
head (a ∷ rest) = a

-- The command that `run` makes of its arguments.
abbrev pub command : Client → List String → Command
command c args = record { bin = if c.bin == "" then "xl" else c.bin; args = args }

abbrev run_failure : List String → Option String → Option XenError
run_failure args none = none
run_failure args (some text) = some (failed (head args) text)

abbrev run_error : List String → Ran → Option XenError
run_error args ran = if ran.late then some (timed_out (head args)) else run_failure args ran.failure

-- (*Client).run: the output, and the error if there is one.
unfoldable pub run : Client → List String → String × Option XenError
run c args = let ran = c.runner (command c args) in (ran.output, run_error args ran)

abbrev finish : List String → String × Option XenError → Answer ActionResult
finish args (out, some e) = refused e
finish args (out, none) = done (record {
  ok = true;
  action = head args;
  args = args;
  output = trim_space out;
  dry_run = false;
  message = "";
})

abbrev validated : List String → ActionResult
validated args = record {
  ok = true;
  action = head args;
  args = args;
  output = "";
  dry_run = true;
  message = "validated";
}

abbrev pub refuse : XenError → Traced ActionResult
refuse e = record { answer = refused e; commands = [] }

module _ (c : Client) (dry_run : Bool) where
  -- (*Client).action; the callers drop the result of a failure.
  unfoldable pub action : List String → Traced ActionResult
  unfolding run
  action args =
      if dry_run
      then record { answer = done (validated args); commands = [] }
      else record { answer = finish args (run c args); commands = command c args ∷ [] }

  -- (*Client).domainAction; Shutdown, Reboot, Pause, Unpause and Destroy are its calls with their
  -- own names.
  unfoldable pub domain_action : String → String → Traced ActionResult
  unfolding action
  domain_action name domain =
      if not (valid_domain domain)
      then refuse invalid_domain_name
      else if is_control_domain domain
      then refuse control_domain
      else action (name ∷ domain ∷ [])

  -- (*Client).Create
  unfoldable pub create : String → Traced ActionResult
  unfolding action
  create config_path =
      if not (valid_config_path config_path)
      then refuse invalid_config_path
      else action ("create" ∷ config_path ∷ [])

  -- (*Client).Migrate
  unfoldable pub migrate : String → String → Bool → Traced ActionResult
  unfolding action
  migrate domain target_host live =
      if not (valid_domain domain)
      then refuse invalid_domain_name
      else if not (valid_host target_host)
      then refuse invalid_target_host
      else action ("migrate" ∷ ((if live then "-l" ∷ [] else []) ++ (domain ∷ target_host ∷ [])))
