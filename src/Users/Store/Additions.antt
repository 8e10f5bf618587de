-- ===== src/Users/Store/Additions.antt =====
-- Add of unyport/backend/auth/users.go, as later calls of Find see it.
use unyport.Crypto.{Bcrypt}
use unyport.Common.{
  ℕ, ◌≤◌, ◌≡◌, ◌≢◌, refl, ◌⊎◌, inl, inr, String, true, false, not, ◌&&◌, ◌==◌, eq_iff, arith,
  Bool-cases, Option-cases, if◌then◌else◌, ltb,
}
use Prim.Native.String.{len}
use unyport.Common.Dict.{member, insert, lookup-insert}
use unyport.Users.{User, normalize_email}
use unyport.Users.Store.Effects.{lookup-save_locked}
use unyport.Users.Store.Wellformed.{default_roles_same}
use unyport.Users.Store.{
  Error, store_new, user_not_found, ok, err, Store, Disk, save_locked, saved, find, add,
}

-- What a successful Add has stored: the given user under its normal address, with the roles as
-- given, and with a password that matches the given one unless that was empty.
pub record IsAdded (b : Bcrypt) (s s' : Store) (new : User) : Type 0 where
  pub user : User
  pub unknown : find s new.email ≡ err user_not_found
  pub email : user.email ≡ normalize_email new.email
  pub named : user.email ≢ ""
  pub roles : user.roles ≡ new.roles
  pub password :
      ((new.password ≡ "") × (user.password ≡ ""))
      ⊎ ((8 ≤ len new.password) × (b.matches user.password new.password ≡ true))
  pub others :
      (j : String)
      → find s' j ≡ (if normalize_email new.email == normalize_email j then ok user else find s j)

module _ (b : Bcrypt) (s s' : Store) (new : User) where
  -- The user that Add builds before it looks at the password.
  abbrev keyed : User
  keyed = record new {
    email = normalize_email new.email;
    id = if new.id == "" then normalize_email new.email else new.id;
  }

  store_new-IsAdded :
      (disk : Disk) (u : User)
      → member (normalize_email new.email) s.users ≡ false
      → (normalize_email new.email == "") ≡ false
      → u.email ≡ normalize_email new.email
      → u.roles ≡ new.roles
      → ((new.password ≡ "") × (u.password ≡ ""))
        ⊎ ((8 ≤ len new.password) × (b.matches u.password new.password ≡ true))
      → store_new disk s u ≡ (ok tt, s')
      → IsAdded b s s' new
  unfolding find member save_locked
  store_new-IsAdded saved u fresh named email roles password h = record {
    user = u;
    unknown = ground (arith, fresh);
    email = email;
    named = ground (arith, named, eq_iff (normalize_email new.email) "");
    roles = roles;
    password = password;
    others = λ j.
        ground (arith, default_roles_same u, lookup-insert u.email (normalize_email j) u s.users);
  }
  store_new-IsAdded _ u fresh named email roles password h = absurd (ground arith)

  -- When Add succeeds, the address was new and is not empty; the store then has the given user
  -- under its normal address, with the roles as given and with a password that the given one of
  -- eight bytes or more matches, or none if none was given; Find returns everybody else as
  -- before.
  pub add-IsAdded :
      (salt : ℕ) (disk : Disk) → add b salt disk s new ≡ (ok tt, s') → IsAdded b s s' new
  unfolding add
  add-IsAdded salt disk h = elim (Bool-cases (normalize_email new.email == "")) [
    | inl nameless ↦ absurd (ground (arith, nameless))
    | inr named ↦ elim (Bool-cases (member (normalize_email new.email) s.users)) [
      | inl taken ↦ absurd (ground (arith, named, taken))
      | inr fresh ↦ elim (Bool-cases (new.password == "")) [
        | inl open_ ↦
            store_new-IsAdded disk keyed fresh named refl refl
              (ground (arith, eq_iff new.password "")) (rw (named, fresh, open_) at h)
        | inr locked ↦ elim (Bool-cases (ltb (len new.password) 8)) [
          | inl short ↦ absurd (ground (arith, named, fresh, locked, short))
          | inr long ↦ elim (Option-cases (b.generate salt new.password)) [
            | inl failed ↦ absurd (ground (arith, named, fresh, locked, long, failed))
            | inr (hash, made) ↦
                store_new-IsAdded disk (record keyed { password = hash }) fresh named refl refl
                  (inr (ground (arith, long), b.matches-generate salt new.password hash made))
                  (rw (named, fresh, locked, long, made) at h)
          ]
        ]
      ]
    ]
  ]

-- An Add without a password to a new address, whatever the disk does.
pub find-add_open :
    (b : Bcrypt) (salt : ℕ) (disk : Disk) (s : Store) (new : User) (e : Error)
    → new.password ≡ ""
    → find s new.email ≡ err e
    → (j : String)
    → find (add b salt disk s new).1 j ≡ (
        if normalize_email new.email == normalize_email j && not (normalize_email new.email == "")
        then ok (keyed b s s new)
        else find s j)
unfolding add find member
find-add_open b salt disk s new e plain unknown j =
    let u : User = keyed b s s new in
    let key = normalize_email new.email in
    let open_ : (new.password == "") ≡ true = (eq_iff new.password "").1 plain in
    let fresh : member key s.users ≡ false = ground (arith, unknown) in
    elim (Bool-cases (key == "")) [
      | inl nameless ↦ rw nameless (ground (arith, nameless))
      | inr named ↦
          rw
            (
              named,
              fresh,
              open_,
              default_roles_same u,
              lookup-save_locked disk (record s { users = insert key u s.users })
                  (normalize_email j),
              lookup-insert key (normalize_email j) u s.users,
            )
            (ground arith)
    ]
