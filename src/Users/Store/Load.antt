-- ===== src/Users/Store/Load.antt =====
-- Reading users.json at the start: load and seedAdmin of unyport/backend/auth/users.go.
pub mod Repair
pub mod Total
use unyport.Crypto.{Bcrypt}
use unyport.Common.{
  ℕ, String, Bool, true, false, not, ◌||◌, Option, none, some, List, [], ◌∷◌, ◌==◌, if◌then◌else◌,
}
use unyport.Common.Dict.{keys, Dict, lookup, insert, delete}
use unyport.Users.{
  User, valid_role, role, normalize_email, default_admin_email, default_admin_password,
}
use unyport.Users.Store.{
  Error, Result, ok, err, Store, Disk, save_locked, hash_failed, file_unreadable, file_malformed,
}

-- What opening and decoding the file gives: no file, an error of the file or of the decoder, a JSON
-- null, or an object, whose users may be null.
pub data Content : Type 0 where
  missing unreadable malformed null_document : Content
  decoded : Dict (Option User) → Content

-- What load does: it panics, gives an error, or leaves a store. The store behind an error is not
-- modelled, since New of unyport/backend/server/server.go panics on the error.
pub data Loaded : Type 0 where
  panicked : Loaded
  failed : Error → Loaded
  loaded : Store → Loaded

abbrev seed_hashed : ℕ → Disk → Store → Option String → Result (Unit {0}) × Store
seed_hashed now disk s none = (err hash_failed, s)
seed_hashed now disk s (some hash) =
    let admin : User = record {
      id = default_admin_email;
      email = default_admin_email;
      password = hash;
      roles = "admin" ∷ [];
      display_name = "UnyPort Admin";
      avatar = "";
      photo_url = "";
      ssh_key = "";
      two_fa = false;
      created_at = now;
    } in
    save_locked disk (record s { users = insert default_admin_email admin s.users })

abbrev no_roles : List String → Bool
no_roles [] = true
no_roles (r ∷ rest) = false

-- The user as load corrects it, under the key `email` of the file.
unfoldable pub repaired : String → User → User
repaired email u =
    let own = normalize_email u.email in
    let normalized = if own == "" then normalize_email email else own in
    record u {
      email = normalized;
      id = if u.id == "" then normalized else u.id;
      roles =
          if no_roles u.roles || not (valid_role (role (record u { email = normalized })))
          then "viewer" ∷ []
          else u.roles;
    }

-- A user that is null is read through a nil pointer: none is the panic.
abbrev load_found : String → Option (Option User) → Dict (Option User) → Option (Dict (Option User))
load_found email none m = some m
load_found email (some none) m = none
load_found email (some (some u)) m =
    let u' = repaired email u in
    some (
      if u'.email == email
      then insert email (some u') m
      else insert u'.email (some u') (delete email m))

-- One round of the loop: the key visited, and the user that the map holds for it now.
unfoldable pub load_step : String → Dict (Option User) → Option (Dict (Option User))
unfolding repaired
load_step email m = load_found email (lookup email m) m

-- The loop over the keys of the file, in the order in which `range` visits them.
unfoldable pub load_loop : List String → Dict (Option User) → Option (Dict (Option User))
unfolding load_step
load_loop [] m = some m
load_loop (email ∷ rest) m = elim (load_step email m) [ none ↦ none | some n ↦ load_loop rest n ]

-- The users of a map, less the null ones.
unfoldable pub users_of : Dict (Option User) → Dict User
users_of [] = []
users_of ((k, none) ∷ m) = delete k (users_of m)
users_of ((k, some u) ∷ m) = (k, u) ∷ users_of m

abbrev loaded_from : Dict User → Option (Dict (Option User)) → Loaded
loaded_from file none = panicked
loaded_from file (some m) = loaded (record { users = users_of m; file = some file })

abbrev seeded : Result (Unit {0}) × Store → Loaded
seeded (err e, s) = failed e
seeded (ok u, s) = loaded s

-- seedAdmin on the nil map that a null document leaves: the hash is made before the map is written.
abbrev seeded_nil : Option String → Loaded
seeded_nil none = failed hash_failed
seeded_nil (some hash) = panicked

module _ (b : Bcrypt) where
  abbrev admin_hash : String → ℕ → Option String
  admin_hash env salt = b.generate salt (if env == "" then default_admin_password else env)

  -- seedAdmin; `env` is UNYPORT_ADMIN_PASSWORD.
  unfoldable pub seed_admin : String → ℕ → ℕ → Disk → Store → Result (Unit {0}) × Store
  unfolding save_locked
  seed_admin env salt now disk s = seed_hashed now disk s (admin_hash env salt)

  -- load of a store that is still empty.
  unfoldable pub load : String → ℕ → ℕ → Disk → Content → Loaded
  unfolding seed_admin load_loop users_of
  load env salt now disk missing =
      seeded (seed_admin env salt now disk (record { users = []; file = none }))
  load env salt now disk unreadable = failed file_unreadable
  load env salt now disk malformed = failed file_malformed
  load env salt now disk null_document = seeded_nil (admin_hash env salt)
  load env salt now disk (decoded []) =
      seeded (seed_admin env salt now disk (record { users = []; file = some [] }))
  load env salt now disk (decoded (e ∷ m)) =
      loaded_from (users_of (e ∷ m)) (load_loop (keys (e ∷ m)) (e ∷ m))
