-- ===== src/Users/Store/Load/Repair.antt =====
-- What load of unyport/backend/auth/users.go makes of the file.
use unyport.Common.Text.{trim_space, to_lower}
use unyport.Crypto.{Bcrypt}
use unyport.Common.{
  ℕ, ◌≡◌, refl, ◌⊎◌, inl, inr, String, true, Option, none, some, List, [], ◌∷◌, ◌==◌, eq_iff, arith,
  Bool-cases, Option-cases, if◌then◌else◌,
}
use unyport.Common.Dict.{
  listed, keys, listed-keys, Dict, lookup, delete, insert, lookup-insert, lookup-delete,
}
use unyport.Users.{User, normalize_email, default_admin_email}
use unyport.Users.Roles.{normalize_email_idem}
use unyport.Users.Store.{Result, ok, err, hash_failed, Store, Disk}
use unyport.Users.Store.Load.{
  Content, missing, unreadable, malformed, null_document, decoded, loaded, users_of, loaded_from,
  seeded, seeded_nil, repaired, load_found, load_step, load_loop, seed_hashed, seed_admin, load,
}
use unyport.Users.Store.Wellformed.{IsStored, IsWellformed, Keeps, Keeps-insert, Keeps-same}

-- The loop's invariant: a user that is not yet stored well is under a key still to be visited.
record IsPending (emails : List String) (m : Dict (Option User)) : Type 0 where
  at :
      (k : String) (u : User) → lookup k m ≡ some (some u) → IsStored k u ⊎ (listed k emails ≡ true)

repaired-IsStored :
    (email : String) (u : User) → IsStored (repaired email u).email (repaired email u)
unfolding repaired
repaired-IsStored email u = record { own_key = refl; normal = normal }
  where
    own : String
    own = normalize_email u.email

    normal :
        normalize_email (if own == "" then normalize_email email else own)
        ≡ (if own == "" then normalize_email email else own)
    normal = elim (Bool-cases (own == "")) [
      | inl e ↦ rw e (normalize_email_idem email)
      | inr e ↦ rw e (normalize_email_idem u.email)
    ]

module _ (email : String) (rest : List String) (m : Dict (Option User))
    (h : IsPending (email ∷ rest) m) where
  IsPending-delete : IsPending rest (delete email m)
  IsPending-delete = record {
    at = λ k u e. elim (Bool-cases (email == k)) [
      | inl same ↦ absurd (ground (arith, lookup-delete email k m, e))
      | inr other ↦ ground (arith, h.at k u (ground (arith, lookup-delete email k m, e)), other)
    ];
  }

  -- The user that was visited is written back under its own, corrected key.
  IsPending-rewrite :
      (u : User) (n : Dict (Option User))
      → load_found email (some (some u)) m ≡ some n
      → IsPending rest n
  IsPending-rewrite u n made = elim (Bool-cases ((repaired email u).email == email)) [
    | inl same ↦
        let e : insert email (some (repaired email u)) m ≡ n = ground (arith, made, same) in
        rw⁻¹ e (record {
          at = λ k v e. elim (Bool-cases (email == k)) [
            | inl here ↦ inl (
                stored_at k v email ((eq_iff _ _).0 same) here
                  (ground (arith, lookup-insert email k (some (repaired email u)) m, e)))
            | inr other ↦ ground (
              arith,
              h.at k v (ground (arith, lookup-insert email k (some (repaired email u)) m, e)),
              other,
            )
          ];
        })
    | inr moved ↦
        let e : insert (repaired email u).email (some (repaired email u)) (delete email m) ≡ n =
          ground (arith, made, moved) in
        rw⁻¹ e (record {
          at = λ k v e. elim (Bool-cases ((repaired email u).email == k)) [
            | inl here ↦ inl (
                stored_at k v (repaired email u).email refl here (
                  ground (
                    arith,
                    lookup-insert (repaired email u).email k (some (repaired email u))
                        (delete email m),
                    e,
                  )))
            | inr other ↦ IsPending-delete.at k v (
                ground (
                  arith,
                  lookup-insert (repaired email u).email k (some (repaired email u))
                      (delete email m),
                  e,
                ))
          ];
        })
  ]
    where
      stored_at :
          (k : String) (v : User) (j : String)
          → (repaired email u).email ≡ j
          → (j == k) ≡ true
          → some (some (repaired email u)) ≡ some (some v)
          → IsStored k v
      stored_at k v j own here e =
          let jk : j ≡ k = (eq_iff j k).0 here in
          let st = repaired-IsStored email u in record { own_key = cc; normal = cc (st.normal) }

  IsPending-load_step : (n : Dict (Option User)) → load_step email m ≡ some n → IsPending rest n
  unfolding load_step
  IsPending-load_step n made = by_user (lookup email m) refl made
    where
      by_user :
          (o : Option (Option User))
          → lookup email m ≡ o
          → load_found email o m ≡ some n
          → IsPending rest n
      by_user none gone f =
          let same : m ≡ n = ground (arith, f) in
          rw⁻¹ same (record {
            at = λ k u e. elim (Bool-cases (email == k)) [
              | inl here ↦ absurd (ground (arith, eq_iff email k, here, e, gone))
              | inr other ↦ ground (arith, h.at k u e, other)
            ];
          })
      by_user (some none) gone f = absurd (ground (arith, f))
      by_user (some (some u)) found f = IsPending-rewrite u n f

lookup-users_of :
    (m : Dict (Option User)) (k : String) (u : User)
    → lookup k (users_of m) ≡ some u
    → lookup k m ≡ some (some u)
unfolding users_of lookup
lookup-users_of [] k u e = absurd (ground (arith, e))
lookup-users_of ((j, none) ∷ m) k u e =
    ground (arith, lookup-users_of m k u, e, lookup-delete j k (users_of m))
lookup-users_of ((j, some v) ∷ m) k u e = ground (arith, lookup-users_of m k u, e)

load_loop-IsWellformed :
    (emails : List String) (m n : Dict (Option User))
    → IsPending emails m
    → load_loop emails m ≡ some n
    → IsWellformed (users_of n)
unfolding load_loop
load_loop-IsWellformed [] m n h made =
    let same : m ≡ n = ground (arith, made) in
    rw⁻¹ same (record { stored = λ k u e. ground (arith, h.at k u (lookup-users_of m k u e)) })
load_loop-IsWellformed (email ∷ rest) m n h made = elim (Option-cases (load_step email m)) [
  | inl gone ↦ absurd (ground (arith, gone, made))
  | inr (next, step) ↦
      load_loop-IsWellformed rest next n (IsPending-load_step email rest m h next step)
        (ground (arith, step, made))
]

seed_hashed-IsWellformed :
    (now : ℕ) (disk : Disk) (s : Store) (o : Option String)
    → IsWellformed s.users
    → Keeps (seed_hashed now disk s o)
seed_hashed-IsWellformed now disk s none h = Keeps-same s h (err hash_failed)
seed_hashed-IsWellformed now disk s (some hash) h =
    Keeps-insert s h disk default_admin_email _
      (record { own_key = refl; normal = unfold normalize_email trim_space to_lower in refl })

empty-IsWellformed : IsWellformed []
unfolding lookup
empty-IsWellformed = record { stored = λ k u e. cc }

seeded-IsWellformed :
    (r : Result (Unit {0}) × Store) (s : Store)
    → Keeps r
    → seeded r ≡ loaded s
    → IsWellformed s.users
seeded-IsWellformed (err e, t) s h made = absurd (ground (arith, made))
seeded-IsWellformed (ok u, t) s h made =
    let same : t ≡ s = ground (arith, made) in rw⁻¹ same (h.after)

loaded_from-IsWellformed :
    (file : Dict User) (o : Option (Dict (Option User))) (s : Store)
    → ((n : Dict (Option User)) → o ≡ some n → IsWellformed (users_of n))
    → loaded_from file o ≡ loaded s
    → IsWellformed s.users
loaded_from-IsWellformed file none s h made = absurd (ground (arith, made))
loaded_from-IsWellformed file (some n) s h made =
    let same : users_of n ≡ s.users = ground (arith, made) in rw⁻¹ same (h n refl)

-- Where load leaves a store, without an error or a panic, every user of it is stored under its own
-- address in normal form: whatever users the file names, in whatever order `range` visits them.
pub load-IsWellformed :
    (b : Bcrypt) (env : String) (salt now : ℕ) (disk : Disk) (content : Content) (s : Store)
    → load b env salt now disk content ≡ loaded s
    → IsWellformed s.users
unfolding load seed_admin
load-IsWellformed b env salt now disk missing s made =
    seeded-IsWellformed _ s (seed_hashed-IsWellformed now disk _ _ empty-IsWellformed) made
load-IsWellformed b env salt now disk unreadable s made = absurd (ground (arith, made))
load-IsWellformed b env salt now disk malformed s made = absurd (ground (arith, made))
load-IsWellformed b env salt now disk null_document s made = absurd (by_hash _ made)
  where
    by_hash : (o : Option String) → seeded_nil o ≡ loaded s → ⊥
    by_hash none f = ground (arith, f)
    by_hash (some hash) f = ground (arith, f)
load-IsWellformed b env salt now disk (decoded []) s made =
    seeded-IsWellformed _ s (seed_hashed-IsWellformed now disk _ _ empty-IsWellformed) made
load-IsWellformed b env salt now disk (decoded (e ∷ m)) s made =
    loaded_from-IsWellformed _ _ s
      (λ n e'.
        load_loop-IsWellformed (keys (e ∷ m)) (e ∷ m) n
          (record { at = λ k u found. inr (listed-keys (e ∷ m) k (some u) found) }) e')
      made
