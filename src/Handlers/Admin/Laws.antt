-- ===== src/Handlers/Admin/Laws.antt =====
-- The last administrator cannot lock the program: AdminUserByEmail behind adminMW.
use unyport.Common.{
  ◌≡◌, ◌≢◌, refl, ℕ, inl, inr, String, Bool, true, false, not, ◌&&◌, Option, none, some, [], ◌∷◌,
  ◌==◌, eq_iff, arith, Bool-cases, if◌then◌else◌,
}
use unyport.Common.Dict.{lookup, insert, delete, lookup-insert, lookup-delete}
use unyport.Common.Text.{trim_space, to_lower, trim_prefix}
use unyport.Crypto.{Tokens}
use unyport.Http.{Request, Context, Response, Body}
use unyport.Jwt.{JwtService}
use unyport.Users.{User, valid_role, role, normalize_email}
use unyport.Users.Roles.{normalize_email_idem, normalize_email-trim_space}
use unyport.Users.Store.{
  Error, Store, Disk, Result, ok, err, find, delete_user, set_role, assign_role,
}
use unyport.Users.Store.Effects.{lookup-save_locked}
use unyport.Users.Store.Wellformed.{IsWellformed}
use unyport.Middleware.{next}
use unyport.Middleware.Access.{admin_mw}
use unyport.Middleware.Access.Laws.{IsAuthenticated-lookup, admin_mw_sound}
use unyport.Handlers.Admin.{NewRole, admin_user_by_email, change_role, remove, report}

-- The address belongs to an administrator.
pub record IsAdmin (s : Store) (id : String) : Type 0 where
  pub user : User
  pub known : find s id ≡ ok user
  pub admin : role user ≡ "admin"

IsAdmin-if :
    (id : String) (b : Bool) (x y : Response × Store)
    → (b ≡ true → IsAdmin x.1 id)
    → (b ≡ false → IsAdmin y.1 id)
    → IsAdmin (if b then x else y).1 id
IsAdmin-if id true x y kx ky = kx refl
IsAdmin-if id false x y kx ky = ky refl

admin_role :
    (v : User) (new_role : String)
    → new_role ≡ "admin"
    → role (record v { roles = to_lower (trim_space new_role) ∷ [] }) ≡ "admin"
unfolding role to_lower trim_space
admin_role v new_role h = rw h refl

normalize_email-path :
    (path : String) → normalize_email (trim_space (to_lower path)) ≡ trim_space (to_lower path)
normalize_email-path path = rw (normalize_email-trim_space path) (normalize_email_idem path)

module _ (outside : Error → String) (disk : Disk) (s : Store) (ctx : Context)
    (normal : normalize_email ctx.user_id ≡ ctx.user_id) (known : IsAdmin s ctx.user_id) where
  report-IsAdmin :
      (status : ℕ) (m : Result (Unit {0}) × Store)
      → IsAdmin m.1 ctx.user_id
      → IsAdmin (report outside disk s ctx status m).1 ctx.user_id
  report-IsAdmin status (ok _, s') h = h
  report-IsAdmin status (err e, s') h = h

  delete_user-IsAdmin :
      (email : String)
      → normalize_email email ≢ ctx.user_id
      → IsAdmin (delete_user disk s email).1 ctx.user_id
  unfolding delete_user find
  delete_user-IsAdmin email other = record {
    user = known.user;
    admin = known.admin;
    known = ground (
      arith,
      normal,
      known.known,
      eq_iff (normalize_email email) ctx.user_id,
      lookup-save_locked disk (record s { users = delete (normalize_email email) s.users })
          ctx.user_id,
      lookup-delete (normalize_email email) ctx.user_id s.users,
    );
  }

  assign_role-IsAdmin :
      (key new_role : String) (o : Option User)
      → lookup key s.users ≡ o
      → ((v : User) → (key ≡ ctx.user_id) → role (record v { roles = new_role ∷ [] }) ≡ "admin")
      → IsAdmin (assign_role disk s key new_role o).1 ctx.user_id
  unfolding find
  assign_role-IsAdmin key new_role none e h = known
  assign_role-IsAdmin key new_role (some v) e h =
      let v' : User = record v { roles = new_role ∷ [] } in
      let after =
        lookup-save_locked disk (record s { users = insert key v' s.users }) ctx.user_id in
      let written = lookup-insert key ctx.user_id v' s.users in
      elim (Bool-cases (key == ctx.user_id)) [
        | inl same ↦ record {
          user = v';
          known = ground (arith, normal, after, written, same);
          admin = h v ((eq_iff key ctx.user_id).0 same);
        }
        | inr other ↦ record {
          user = known.user;
          known = ground (arith, normal, known.known, after, written, other);
          admin = known.admin;
        }
      ]

  set_role-IsAdmin :
      (email new_role : String)
      → (normalize_email email ≡ ctx.user_id → new_role ≡ "admin")
      → IsAdmin (set_role disk s email new_role).1 ctx.user_id
  unfolding set_role
  set_role-IsAdmin email new_role h =
      elim (Bool-cases (valid_role (to_lower (trim_space new_role)))) [
        | inr bad ↦ rw bad known
        | inl fine ↦ rw fine (
            assign_role-IsAdmin (normalize_email email) (to_lower (trim_space new_role)) _ refl
              (λ v e. admin_role v new_role (h e)))
      ]

  remove-IsAdmin :
      (path : String)
      → IsAdmin (remove outside disk s ctx (trim_space (to_lower path))).1 ctx.user_id
  remove-IsAdmin path =
      let email = trim_space (to_lower path) in
      elim (Bool-cases (email == ctx.user_id)) [
        | inl self ↦ rw self known
        | inr other ↦ rw other (
            report-IsAdmin 404 (delete_user disk s email) (
              delete_user-IsAdmin email (
                rw (normalize_email-path path)
                  λ e. ground (arith, other, eq_iff email ctx.user_id))))
      ]

  change_role-IsAdmin :
      (path : String) (o : Option NewRole)
      → IsAdmin (change_role outside disk s ctx (trim_space (to_lower path)) o).1 ctx.user_id
  change_role-IsAdmin path none = known
  change_role-IsAdmin path (some body) =
      let email = trim_space (to_lower path) in
      let new_role = trim_space (to_lower body.role) in
      elim (Bool-cases (email == ctx.user_id && not (new_role == "admin"))) [
        | inl self ↦ rw self known
        | inr other ↦ rw other (
            report-IsAdmin 400 (set_role disk s email new_role) (
              set_role-IsAdmin email new_role (
                rw (normalize_email-path path)
                  λ e. ground (arith, other, eq_iff email ctx.user_id, eq_iff new_role "admin"))))
      ]

  -- The caller of AdminUserByEmail stays an administrator.
  admin_user_by_email-IsAdmin :
      (r : Request) (body : Body NewRole)
      → IsAdmin (admin_user_by_email outside disk s ctx r body).1 ctx.user_id
  unfolding admin_user_by_email
  admin_user_by_email-IsAdmin r body =
      let path = trim_prefix r.path "/api/admin/users/" in
      search (IsAdmin-if, known, remove-IsAdmin, change_role-IsAdmin) depth 8

-- Where the store is well-formed and adminMW has let the request through: whatever the caller
-- asks of AdminUserByEmail and whatever the disk does, the store still has that caller as an
-- administrator afterwards, on errors too.
pub admin_user_by_email-admin_mw :
    (t : Tokens) (j : JwtService) (s : Store) (now : ℕ) (r : Request) (start ctx : Context)
    (outside : Error → String) (disk : Disk) (body : Body NewRole)
    → IsWellformed s.users
    → admin_mw t j s now r start ≡ next ctx
    → IsAdmin (admin_user_by_email outside disk s ctx r body).1 ctx.user_id
unfolding find
admin_user_by_email-admin_mw t j s now r start ctx outside disk body wf h =
    let (a, is_admin) = admin_mw_sound t j s now r start ctx h in
    let (stored, normal) = IsAuthenticated-lookup t j s now r start ctx wf a in
    admin_user_by_email-IsAdmin outside disk s ctx normal
      (record {
        user = a.user;
        known = ground (arith, normal, stored);
        admin = cc (a.current_role, is_admin);
      })
      r body
