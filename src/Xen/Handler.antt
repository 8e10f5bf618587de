-- ===== src/Xen/Handler.antt =====
-- unyport/backend/xenctl/http.go: the handlers that act on Xen domains. `dom0` is dom0Ready, and a
-- request's body is what the JSON decoder makes of it, `none` on an error.
use Prim.Native.String.{◌++◌}
use unyport.Common.{ℕ, String, Bool, not, ◌||◌, Option, none, some, List, [], ◌==◌, if◌then◌else◌}
use unyport.Common.Text.{
  trim_space, to_lower, has_prefix, has_suffix, trim_prefix, trim_suffix, trim_slashes,
}
use unyport.Http.{Request, Context, Response, json_error}
use unyport.Xen.Client.{
  XenError, invalid_domain_name, invalid_target_host, invalid_config_path, control_domain,
  admin_required, unknown_action, timed_out, failed, Client, ActionResult, Answer, done, refused,
  Command, Traced, refuse, domain_action, create, migrate,
}

pub record ActionRequest : Type 0 where
  pub action : String
  pub config_path : String
  pub target_host : String
  pub live : Bool
  pub dry_run : Bool

-- A reply: a JSON error, or the result of an action as JSON.
pub data Reply : Type 0 where
  failure : Response → Reply
  success : ActionResult → Reply

-- A reply and the commands that were run for it.
pub record Handled : Type 0 where
  pub reply : Reply
  pub commands : List Command

-- err.Error()
unfoldable pub error_text : XenError → String
error_text invalid_domain_name = "invalid domain name"
error_text invalid_target_host = "invalid target host"
error_text invalid_config_path = "invalid config path"
error_text control_domain = "refusing to operate on Domain-0"
error_text admin_required = "admin required"
error_text unknown_action = "unknown action"
error_text (timed_out name) = "xl " ++ (name ++ " timed out")
error_text (failed name text) = "xl " ++ (name ++ (" failed: " ++ text))

abbrev pub deny : String → ℕ → Handled
deny message status = record { reply = failure (json_error message status); commands = [] }

-- domainFromActionPath
unfoldable pub domain_from_action_path : String → Option String
domain_from_action_path path =
    let domain = trim_slashes (trim_suffix (trim_prefix path "/api/xen/domains/") "/actions") in
    if not (has_prefix path "/api/xen/domains/") || not (has_suffix path "/actions")
    then none
    else if domain == ""
    then none
    else some domain

abbrev action_reply : Answer ActionResult → Reply
action_reply (done result) = success result
action_reply (refused e) =
    let text = error_text e in
    failure (json_error text (if text == "admin required" then 403 else 400))

abbrev action_handled : Traced ActionResult → Handled
action_handled r = record { reply = action_reply r.answer; commands = r.commands }

abbrev create_reply : Answer ActionResult → Reply
create_reply (done result) = success result
create_reply (refused e) = failure (json_error (error_text e) 400)

abbrev create_handled : Traced ActionResult → Handled
create_handled r = record { reply = create_reply r.answer; commands = r.commands }

module _ (c : Client) (ctx : Context) where
  -- runAction; `name` is the trimmed and lowered action of the request.
  unfoldable pub run_action : String → String → ActionRequest → Traced ActionResult
  unfolding domain_action migrate
  run_action domain name req =
      if name == "shutdown"
      then domain_action c req.dry_run "shutdown" domain
      else if name == "reboot"
      then domain_action c req.dry_run "reboot" domain
      else if name == "pause"
      then domain_action c req.dry_run "pause" domain
      else if name == "unpause"
      then domain_action c req.dry_run "unpause" domain
      else if name == "destroy"
      then if not (ctx.user_role == "admin")
        then refuse admin_required
        else domain_action c req.dry_run "destroy" domain
      else if name == "migrate"
      then if not (ctx.user_role == "admin")
        then refuse admin_required
        else migrate c req.dry_run domain (trim_space req.target_host) req.live
      else refuse unknown_action

  abbrev pub act_on : Option String → Option ActionRequest → Handled
  act_on none body = deny "not found" 404
  act_on (some domain) none = deny "bad request" 400
  act_on (some domain) (some req) =
      action_handled (run_action domain (to_lower (trim_space req.action)) req)

  -- DomainAction
  unfoldable pub domain_action_handler : Bool → Request → Option ActionRequest → Handled
  unfolding error_text
  domain_action_handler dom0 r body =
      if not (r.method == "POST")
      then deny "method not allowed" 405
      else if not dom0
      then deny "xen dom0 required" 403
      else act_on (domain_from_action_path r.path) body

  abbrev pub create_from : Option ActionRequest → Handled
  create_from none = deny "bad request" 400
  create_from (some req) = create_handled (create c req.dry_run (trim_space req.config_path))

  -- Create
  unfoldable pub create_handler : Bool → Request → Option ActionRequest → Handled
  unfolding error_text
  create_handler dom0 r body =
      if not (r.method == "POST")
      then deny "method not allowed" 405
      else if not dom0
      then deny "xen dom0 required" 403
      else if not (ctx.user_role == "admin")
      then deny "admin required" 403
      else create_from body
