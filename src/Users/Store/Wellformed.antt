-- ===== src/Users/Store/Wellformed.antt =====
-- Every user is stored under its own address, in normal form.
use unyport.Crypto.{Bcrypt}
use unyport.Common.{
  ℕ, ◌≡◌, refl, inl, inr, String, Bool, true, false, Option, none, some, List, [], ◌∷◌, ◌==◌,
  eq_iff, arith, Bool-cases, if◌then◌else◌,
}
use unyport.Common.Dict.{Dict, lookup, insert, delete, lookup-insert, lookup-delete}
use unyport.Users.{User, normalize_email}
use unyport.Users.Roles.{normalize_email_idem, role_valid}
use unyport.Users.Store.{
  Result, ok, err, Store, Disk, with_users, save_locked, saved, Profile, add, delete_user, set_role,
  assign_role, store_new, store_hashed, default_roles, rehash, change_password, with_save,
  apply_profile, update_found, hash_failed, user_not_found, Error, update_password, update_profile,
  picture_error,
}
use unyport.Users.Store.Steps.{
  forget, Call, adding, deleting, setting_role, changing_password, changing_profile, perform,
  perform_all,
}

pub record IsStored (k : String) (u : User) : Type 0 where
  pub own_key : u.email ≡ k
  pub normal : normalize_email k ≡ k

pub record IsWellformed (m : Dict User) : Type 0 where
  pub stored : (k : String) (u : User) → lookup k m ≡ some u → IsStored k u

pub insert-IsWellformed :
    (m : Dict User) (k : String) (u : User)
    → IsWellformed m
    → IsStored k u
    → IsWellformed (insert k u m)
insert-IsWellformed m k u h new = record {
  stored = λ j v e. elim (Bool-cases (k == j)) [
    | inl same ↦
        let e' : some u ≡ some v = ground (arith, lookup-insert k j u m, e) in
        let kj : k ≡ j = (eq_iff k j).0 same in
        record { own_key = cc (e', kj, new.own_key); normal = cc (kj, new.normal) }
    | inr other ↦ h.stored j v (ground (arith, lookup-insert k j u m, e))
  ];
}

delete-IsWellformed : (m : Dict User) (k : String) → IsWellformed m → IsWellformed (delete k m)
delete-IsWellformed m k h = record {
  stored = λ j v e. h.stored j v (ground (arith, lookup-delete k j m, e));
}

-- The correction of the roles in Add changes nothing: Role never returns an unknown role.
pub default_roles_same : (u : User) → default_roles u ≡ u
default_roles_same u = rw (role_valid u) refl

new_key_normal :
    (email new : String)
    → normalize_email
        (if normalize_email new == "" then normalize_email email else normalize_email new)
      ≡ (if normalize_email new == "" then normalize_email email else normalize_email new)
new_key_normal email new = elim (Bool-cases (normalize_email new == "")) [
  | inl e ↦ rw e (normalize_email_idem email)
  | inr e ↦ rw e (normalize_email_idem new)
]

-- What a method leaves behind.
pub record Keeps {A : Type 0} (r : Result A × Store) : Type 0 where
  pub after : IsWellformed r.1.users

Keeps-if :
    {A : Type 0} (b : Bool) (x y : Result A × Store)
    → (b ≡ true → Keeps x)
    → (b ≡ false → Keeps y)
    → Keeps (if b then x else y)
Keeps-if true x y kx ky = kx refl
Keeps-if false x y kx ky = ky refl

pub Keeps-save_locked :
    (disk : Disk) (s : Store) → IsWellformed s.users → Keeps (save_locked disk s)
unfolding save_locked
Keeps-save_locked saved s h = record { after = h }
Keeps-save_locked _ s h = record { after = h }

module _ (s : Store) (h : IsWellformed s.users) where
  pub Keeps-same : {A : Type 0} (r : Result A) → Keeps (r, s)
  Keeps-same r = record { after = h }

  pub Keeps-insert :
      (disk : Disk) (k : String) (u : User)
      → IsStored k u
      → Keeps (save_locked disk (with_users s (insert k u s.users)))
  Keeps-insert disk k u st = Keeps-save_locked disk _ (insert-IsWellformed s.users k u h st)

  Keeps-delete :
      (disk : Disk) (k : String) → Keeps (save_locked disk (with_users s (delete k s.users)))
  Keeps-delete disk k = Keeps-save_locked disk _ (delete-IsWellformed s.users k h)

  Keeps-store_new :
      (disk : Disk) (u : User) → normalize_email u.email ≡ u.email → Keeps (store_new disk s u)
  Keeps-store_new disk u normal =
      rw (default_roles_same u)
        (Keeps-insert disk u.email u (record { own_key = refl; normal = normal }))

  Keeps-store_hashed :
      (disk : Disk) (u : User) (o : Option String)
      → normalize_email u.email ≡ u.email
      → Keeps (store_hashed disk s u o)
  Keeps-store_hashed disk u none normal = Keeps-same (err hash_failed)
  Keeps-store_hashed disk u (some hash) normal = Keeps-store_new disk _ normal

  Keeps-add : (b : Bcrypt) (salt : ℕ) (disk : Disk) (u : User) → Keeps (add b salt disk s u)
  unfolding add
  Keeps-add b salt disk u =
      let normal = normalize_email_idem u.email in
      search (Keeps-if, Keeps-same, Keeps-store_new, Keeps-store_hashed, normal) depth 8

  Keeps-delete_user : (disk : Disk) (email : String) → Keeps (delete_user disk s email)
  unfolding delete_user
  Keeps-delete_user disk email = search (Keeps-if, Keeps-same, Keeps-delete)

  Keeps-assign_role :
      (disk : Disk) (key role : String) (o : Option User)
      → lookup key s.users ≡ o
      → Keeps (assign_role disk s key role o)
  Keeps-assign_role disk key role none e = Keeps-same _
  Keeps-assign_role disk key role (some u) e =
      let st = h.stored key u e in
      Keeps-insert disk key _ (record { own_key = st.own_key; normal = st.normal })

  Keeps-set_role : (disk : Disk) (email role : String) → Keeps (set_role disk s email role)
  unfolding set_role
  Keeps-set_role disk email role = search (Keeps-if, Keeps-assign_role, Keeps-same)

  Keeps-rehash :
      (disk : Disk) (key : String) (u : User) (o : Option String)
      → lookup key s.users ≡ some u
      → Keeps (rehash disk s key u o)
  Keeps-rehash disk key u none e = Keeps-same (err hash_failed)
  Keeps-rehash disk key u (some hash) e =
      let st = h.stored key u e in
      Keeps-insert disk key _ (record { own_key = st.own_key; normal = st.normal })

  Keeps-change_password :
      (b : Bcrypt) (salt : ℕ) (disk : Disk) (key old_pwd new_pwd : String) (o : Option User)
      → lookup key s.users ≡ o
      → Keeps (change_password b salt disk s key old_pwd new_pwd o)
  Keeps-change_password b salt disk key old_pwd new_pwd none e = Keeps-same (err user_not_found)
  Keeps-change_password b salt disk key old_pwd new_pwd (some u) e =
      search (Keeps-if, Keeps-same, Keeps-rehash)

  Keeps-update_password :
      (b : Bcrypt) (salt : ℕ) (disk : Disk) (email old_pwd new_pwd : String)
      → Keeps (update_password b salt disk s email old_pwd new_pwd)
  unfolding update_password
  Keeps-update_password b salt disk email old_pwd new_pwd =
      search (Keeps-if, Keeps-same, Keeps-change_password)

Keeps-with_save :
    (r : User × Bool) (m : Result (Unit {0}) × Store) → Keeps m → Keeps (with_save r m)
Keeps-with_save r (ok _, s) k = record { after = k.after }
Keeps-with_save r (err e, s) k = record { after = k.after }

module _ (s : Store) (h : IsWellformed s.users) (disk : Disk) (key new_key : String) (p : Profile)
    (normal : normalize_email new_key ≡ new_key) where
  Keeps-apply_profile :
      (u : User) (o : Option Error)
      → IsStored key u
      → Keeps (apply_profile disk s key new_key u p o)
  Keeps-apply_profile u (some e) st = record { after = insert-IsWellformed s.users key u h st }
  Keeps-apply_profile u none st = elim (Bool-cases (new_key == key)) [
    | inl same ↦ rw same (
        Keeps-with_save _ _
          (Keeps-insert s h disk key _ (record { own_key = st.own_key; normal = st.normal })))
    | inr moved ↦ rw moved (
        Keeps-with_save _ _ (
          Keeps-save_locked disk _ (
            insert-IsWellformed (delete key s.users) new_key _ (delete-IsWellformed s.users key h)
              (record { own_key = refl; normal = normal }))))
  ]

  Keeps-update_found :
      (o : Option User) → lookup key s.users ≡ o → Keeps (update_found disk s key new_key p o)
  Keeps-update_found none e = Keeps-same s h (err user_not_found)
  Keeps-update_found (some u) e =
      let st = h.stored key u e in
      let named =
        Keeps-apply_profile (record u { display_name = p.display_name }) (picture_error p)
          (record { own_key = st.own_key; normal = st.normal }) in
      search (Keeps-if, Keeps-same s h, named)

Keeps-update_profile :
    (s : Store)
    → IsWellformed s.users
    → (disk : Disk) (email : String) (p : Profile) → Keeps (update_profile disk s email p)
unfolding update_profile
Keeps-update_profile s h disk email p =
    let found =
      Keeps-update_found s h disk (normalize_email email) _ p (new_key_normal email p.email) _
        refl in
    search (Keeps-if, Keeps-same s h, found)

Keeps-forget : {A : Type 0} (r : Result A × Store) → Keeps r → Keeps (forget r)
Keeps-forget (ok a, s) k = record { after = k.after }
Keeps-forget (err e, s) k = record { after = k.after }

Keeps-perform : (b : Bcrypt) (s : Store) (c : Call) → IsWellformed s.users → Keeps (perform b s c)
unfolding perform
Keeps-perform b s (adding salt disk u) h = Keeps-add s h b salt disk u
Keeps-perform b s (deleting disk email) h = Keeps-delete_user s h disk email
Keeps-perform b s (setting_role disk email role) h = Keeps-set_role s h disk email role
Keeps-perform b s (changing_password salt disk email old_pwd new_pwd) h =
    Keeps-update_password s h b salt disk email old_pwd new_pwd
Keeps-perform b s (changing_profile disk email p) h =
    Keeps-forget (update_profile disk s email p) (Keeps-update_profile s h disk email p)

-- From a well-formed store, whatever calls are made, and whatever the disk does and each call
-- returns, every user stays stored under its own address in normal form.
pub perform_all-IsWellformed :
    (b : Bcrypt) (s : Store) (calls : List Call)
    → IsWellformed s.users
    → IsWellformed (perform_all b s calls).users
unfolding perform_all
perform_all-IsWellformed b s [] h = h
perform_all-IsWellformed b s (c ∷ rest) h =
    perform_all-IsWellformed b (perform b s c).1 rest (Keeps-perform b s c h).after
