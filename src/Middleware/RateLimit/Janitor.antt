-- ===== src/Middleware/RateLimit/Janitor.antt =====
-- The janitor frees memory and changes no decision.
use unyport.Common.{
  ℕ, ◌≤◌, ◌≡◌, refl, String, Option, none, some, List, [], ◌∷◌, ◌==◌, eq_iff, arith, ltb,
  if◌then◌else◌, Option-cases, inl, inr,
}
use unyport.Common.Dict.{Dict, lookup, keys, listed, listed-keys, lookup-delete}
use unyport.Middleware.RateLimit.{Bucket, LoginRateLimiter, attempt, purge_found, purge_loop, purge}

-- The bucket that is left of one at the time of a purge.
abbrev live : ℕ → Option Bucket → Option Bucket
live now none = none
live now (some b) = if ltb b.reset_at now then none else some b

lookup-purge_found :
    (now : ℕ) (ip k : String) (m : Dict Bucket)
    → lookup k (purge_found now ip (lookup ip m) m)
      ≡ (if ip == k then live now (lookup k m) else lookup k m)
lookup-purge_found now ip k m = elim (Option-cases (lookup ip m)) [
  | inl gone ↦ rw gone (ground (arith, eq_iff ip k, gone))
  | inr (b, found) ↦ rw found (ground (arith, eq_iff ip k, found, lookup-delete ip k m))
]

live-live : (now : ℕ) (o : Option Bucket) → live now (live now o) ≡ live now o
live-live now o = ground arith

lookup-purge_loop :
    (now : ℕ) (ips : List String) (k : String) (m : Dict Bucket)
    → lookup k (purge_loop now ips m) ≡ (if listed k ips then live now (lookup k m) else lookup k m)
unfolding purge_loop
lookup-purge_loop now [] k m = refl
lookup-purge_loop now (ip ∷ rest) k m = ground (
  arith,
  lookup-purge_loop now rest k (purge_found now ip (lookup ip m) m),
  lookup-purge_found now ip k m,
  live-live now (lookup k m),
)

-- After a purge the buckets whose window is over are gone, and the others are as they were.
pub lookup-purge :
    (l : LoginRateLimiter) (now : ℕ) (k : String)
    → lookup k (purge l now).buckets ≡ live now (lookup k l.buckets)
unfolding purge
lookup-purge l now k = elim (Option-cases (lookup k l.buckets)) [
  | inl gone ↦ ground (arith, gone, lookup-purge_loop now (keys l.buckets) k l.buckets)
  | inr (b, found) ↦ ground (
    arith,
    found,
    listed-keys l.buckets k b found,
    lookup-purge_loop now (keys l.buckets) k l.buckets,
  )
]

-- An attempt gets the same count whether or not the janitor ran at that moment or earlier.
pub attempt-purge :
    (l : LoginRateLimiter) (earlier now : ℕ) (ip : String)
    → earlier ≤ now
    → (attempt (purge l earlier) now ip).0 ≡ (attempt l now ip).0
unfolding attempt
attempt-purge l earlier now ip h = ground (arith, lookup-purge l earlier ip)
