-- ===== src/Examples/Accounts.antt =====
-- The theorems on the user store at concrete inputs.
use unyport.Common.{◌≡◌, ◌≢◌, String, Option, none, some, refl, arith, List, [], ◌∷◌}
use unyport.Common.Dict.{Dict, lookup, insert, delete}
use unyport.Common.Text.{trim_space, to_lower, contains, split}
use unyport.Users.{User, role, valid_role, normalize_email, looks_like_email}
use unyport.Users.Store.{
  Store, saved, rename_failed, ok, err, find, Profile, avatar_too_long, picture_error, delete_user,
  set_role, update_profile,
}
use unyport.Users.Store.Steps.{
  Call, adding, deleting, setting_role, changing_password, changing_profile, perform, perform_all,
}
use unyport.Users.Store.Wellformed.{IsWellformed, insert-IsWellformed, perform_all-IsWellformed}
use unyport.Users.Store.Transactions.{IsTransaction, perform-IsTransaction}
use unyport.Users.Store.Profiles.{update_profile_leak}
use unyport.Users.Store.Load.{load, decoded, loaded, load_loop, load_step, repaired, users_of}
use unyport.Users.Store.Load.Repair.{load-IsWellformed}
use unyport.Users.Store.Load.Total.{load_total}
use unyport.Examples.Fixtures.{dollar, ada, bob, user, store}

abbrev pub cid : User
cid = user "cid@x.io" "seafarer3" "operator"

abbrev pub form : Profile
form = record {
  email = "bob@y.io";
  display_name = "Bob";
  avatar = "B";
  photo_url = "";
  ssh_key = "";
}

abbrev pub long_avatar : Profile
long_avatar = record form { email = ""; avatar = "Bob" }

abbrev calls : List Call
calls =
    adding 1 saved cid
    ∷ setting_role rename_failed "BOB@x.io" "Operator"
    ∷ deleting saved "cid@x.io"
    ∷ changing_password 2 saved "ada@x.io" "lovelace1" "lovelace2"
    ∷ changing_profile saved "bob@x.io" long_avatar
    ∷ []

no_users-IsWellformed : IsWellformed []
unfolding lookup
no_users-IsWellformed = record { stored = λ k u h. absurd (ground arith) }

pub store-IsWellformed : IsWellformed store.users
unfolding insert delete normalize_email to_lower trim_space
store-IsWellformed =
    insert-IsWellformed (("bob@x.io", bob) ∷ []) "ada@x.io" ada
      (insert-IsWellformed [] "bob@x.io" bob no_users-IsWellformed
        (record { own_key = refl; normal = refl }))
      (record { own_key = refl; normal = refl })

perform_all-IsWellformed_example : IsWellformed (perform_all dollar store calls).users
perform_all-IsWellformed_example = perform_all-IsWellformed dollar store calls store-IsWellformed

perform-IsTransaction_example :
    IsTransaction store (perform dollar store (setting_role rename_failed "bob@x.io" "admin"))
perform-IsTransaction_example =
    perform-IsTransaction dollar store (setting_role rename_failed "bob@x.io" "admin")

abbrev promoted : Store
promoted = (set_role saved store "bob@x.io" "Operator").1

abbrev without_bob : Store
without_bob = (delete_user saved store "bob@x.io").1

abbrev bob_moved : User
bob_moved = record bob { id = "bob@y.io"; email = "bob@y.io"; display_name = "Bob"; avatar = "B" }

abbrev moved : Store
moved = (update_profile saved store "bob@x.io" form).1

update_profile_leak_example :
    ((update_profile saved store "bob@x.io" long_avatar).0 ≡ err avatar_too_long)
    × (find (update_profile saved store "bob@x.io" long_avatar).1 "bob@x.io"
        ≡ ok (record bob { display_name = "Bob" }))
unfolding find picture_error looks_like_email lookup normalize_email to_lower trim_space split
    contains
update_profile_leak_example =
    update_profile_leak saved store "bob@x.io" long_avatar bob avatar_too_long refl refl refl refl

-- A file with one user, under a key that is not in normal form.
abbrev odd_file : Dict (Option User)
odd_file = ("BOB", some bob) ∷ []

abbrev odd_store : Store
odd_store = record { users = ("bob@x.io", bob) ∷ []; file = some (("BOB", bob) ∷ []) }

load-IsWellformed_example : IsWellformed odd_store.users
unfolding load load_loop load_step repaired users_of insert delete lookup normalize_email to_lower
    trim_space role valid_role
load-IsWellformed_example = load-IsWellformed dollar "" 1 0 saved (decoded odd_file) odd_store refl

no_null : (k : String) → lookup k odd_file ≢ some none
unfolding lookup
no_null k = ground arith

filled_file : odd_file ≢ []
filled_file = ground arith

load_total_example :
    (s : Store) × (load dollar "" 1 0 saved (decoded odd_file) ≡ loaded s) × IsWellformed s.users
load_total_example = load_total dollar "" 1 0 saved odd_file filled_file no_null
