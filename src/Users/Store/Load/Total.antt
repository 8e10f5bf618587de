-- ===== src/Users/Store/Load/Total.antt =====
-- When load of unyport/backend/auth/users.go leaves a store.
use unyport.Crypto.{Bcrypt}
use unyport.Common.{
  ℕ, ◌≡◌, ◌≢◌, ap, refl, inl, inr, String, Option, none, some, List, [], ◌∷◌, ◌==◌, arith,
  Bool-cases,
}
use unyport.Common.Dict.{keys, Dict, lookup, delete, insert, lookup-insert, lookup-delete}
use unyport.Users.{User}
use unyport.Users.Store.{Store, Disk}
use unyport.Users.Store.Load.{
  decoded, loaded, users_of, loaded_from, repaired, load_found, load_step, load_loop, load,
}
use unyport.Users.Store.Load.Repair.{load-IsWellformed}
use unyport.Users.Store.Wellformed.{IsWellformed}

-- No user is null.
record HasNoNull (m : Dict (Option User)) : Type 0 where
  at : (k : String) → lookup k m ≢ some none

load_step-HasNoNull :
    (email : String) (m : Dict (Option User))
    → HasNoNull m
    → (n : Dict (Option User)) × (load_step email m ≡ some n) × HasNoNull n
unfolding load_step
load_step-HasNoNull email m h = by_user (lookup email m) refl
  where
    by_user :
        (o : Option (Option User))
        → lookup email m ≡ o
        → (n : Dict (Option User)) × (load_found email o m ≡ some n) × HasNoNull n
    by_user none gone = (m, refl, h)
    by_user (some none) found = absurd (h.at email found)
    by_user (some (some u)) found = elim (Bool-cases ((repaired email u).email == email)) [
      | inl same ↦ rw same (
        insert email (some (repaired email u)) m,
        refl,
        record {
          at = λ k e. h.at k (ground (arith, lookup-insert email k (some (repaired email u)) m, e));
        },
      )
      | inr moved ↦ rw moved (
        insert (repaired email u).email (some (repaired email u)) (delete email m),
        refl,
        record {
          at = λ k e. h.at k (
              ground (
                arith,
                lookup-insert (repaired email u).email k (some (repaired email u)) (delete email m),
                lookup-delete email k m,
                e,
              ));
        },
      )
    ]

load_loop-HasNoNull :
    (emails : List String) (m : Dict (Option User))
    → HasNoNull m
    → (n : Dict (Option User)) × (load_loop emails m ≡ some n)
unfolding load_loop
load_loop-HasNoNull [] m h = (m, refl)
load_loop-HasNoNull (email ∷ rest) m h =
    let (next, step, clean) = load_step-HasNoNull email m h in
    let (n, done) = load_loop-HasNoNull rest next clean in (n, ground (arith, step, done))

load_nonempty :
    (b : Bcrypt) (env : String) (salt now : ℕ) (disk : Disk) (e : String × Option User)
    (m : Dict (Option User))
    → HasNoNull (e ∷ m)
    → (s : Store) × (load b env salt now disk (decoded (e ∷ m)) ≡ loaded s)
unfolding load
load_nonempty b env salt now disk e m h =
    let (n, done) = load_loop-HasNoNull (keys (e ∷ m)) (e ∷ m) h in
    (
      record { users = users_of n; file = some (users_of (e ∷ m)) },
      ap (loaded_from (users_of (e ∷ m))) done,
    )

-- A file that names users, none of them null, is loaded: there is no panic and no error, and every
-- user of the store that is left is stored under its own address in normal form.
pub load_total :
    (b : Bcrypt) (env : String) (salt now : ℕ) (disk : Disk) (m : Dict (Option User))
    → m ≢ []
    → ((k : String) → lookup k m ≢ some none)
    → (s : Store) × (load b env salt now disk (decoded m) ≡ loaded s) × IsWellformed s.users
load_total b env salt now disk [] filled h = absurd (filled refl)
load_total b env salt now disk (e ∷ m) filled h =
    let (s, made) = load_nonempty b env salt now disk e m (record { at = h }) in
    (s, made, load-IsWellformed b env salt now disk (decoded (e ∷ m)) s made)
