-- ===== src/Middleware/RateLimit/Windows.antt =====
-- How many attempts of one address pass, over any interleaving of attempts and janitor ticks.
use unyport.Common.{
  ℕ, ◌+◌, ◌-◌, ◌≤◌, ◌≡◌, refl, String, not, ◌&&◌, some, List, [], ◌∷◌, ◌==◌, eq_iff, arith, ltb,
  if◌then◌else◌, Bool-cases, inl, inr, All,
}
use unyport.Common.Dict.{lookup, lookup-insert, lookup-insert_self}
use unyport.Middleware.RateLimit.{Bucket, LoginRateLimiter, current, attempt, purge}
use unyport.Middleware.RateLimit.Janitor.{lookup-purge}

pub data Event : Type 0 where
  attempt_at : ℕ → String → Event
  janitor_at : ℕ → Event

abbrev pub time : Event → ℕ
time (attempt_at now ip) = now
time (janitor_at now) = now

unfoldable pub step : LoginRateLimiter → Event → LoginRateLimiter
step l (attempt_at now ip) = (attempt l now ip).1
step l (janitor_at now) = purge l now

-- 1 if the event is an attempt of this address that is let through.
unfoldable pub passes : String → LoginRateLimiter → Event → ℕ
passes ip l (attempt_at now other) =
    if other == ip && not (ltb l.max_attempts (attempt l now other).0) then 1 else 0
passes ip l (janitor_at now) = 0

unfoldable pub passed : String → LoginRateLimiter → List Event → ℕ
passed ip l [] = 0
passed ip l (e ∷ rest) = passes ip l e + passed ip (step l e) rest

-- How often the bucket of an address has counted, in a window that ends at `until` or later.
pub record Counts (ip : String) (until n : ℕ) (l : LoginRateLimiter) : Type 0 where
  pub bucket : Bucket
  pub found : lookup ip l.buckets ≡ some bucket
  pub counted : bucket.count ≡ n
  pub ends : until ≤ bucket.reset_at

pub max_attempts-step :
    (l : LoginRateLimiter) (e : Event) → (step l e).max_attempts ≡ l.max_attempts
unfolding step attempt purge
max_attempts-step l (attempt_at now ip) = refl
max_attempts-step l (janitor_at now) = refl

pub window-step : (l : LoginRateLimiter) (e : Event) → (step l e).window ≡ l.window
unfolding step attempt purge
window-step l (attempt_at now ip) = refl
window-step l (janitor_at now) = refl

-- The count after an event, as long as the window lasts.
abbrev tally : String → ℕ → Event → ℕ
tally ip n (attempt_at now other) = if other == ip then n + 1 else n
tally ip n (janitor_at now) = n

module _ (ip : String) (until : ℕ) where
  Counts-step :
      (n : ℕ) (l : LoginRateLimiter) (e : Event)
      → time e ≤ until
      → Counts ip until n l
      → Counts ip until (tally ip n e) (step l e)
  unfolding step attempt
  Counts-step n l (attempt_at now other) early c = elim (Bool-cases (other == ip)) [
    | inl same ↦
        let other_ip : other ≡ ip = (eq_iff other ip).0 same in
        let seen : current l now (lookup other l.buckets) ≡ c.bucket =
          rw (other_ip, c.found) (ground (arith, c.ends)) in
        rw same (record {
          bucket = record c.bucket { count = c.bucket.count + 1 };
          found = rw (seen, other_ip) (lookup-insert_self ip _ l.buckets);
          counted = omega (arith, c.counted);
          ends = c.ends;
        })
    | inr differs ↦ rw differs (record {
      bucket = c.bucket;
      found = rw lookup-insert (rw differs c.found);
      counted = c.counted;
      ends = c.ends;
    })
  ]
  Counts-step n l (janitor_at now) early c = record {
    bucket = c.bucket;
    found = ground (arith, lookup-purge l now ip, c.found, c.ends);
    counted = c.counted;
    ends = c.ends;
  }

  -- An attempt that passes uses up room.
  passes-le-room :
      (n : ℕ) (l : LoginRateLimiter) (e : Event)
      → time e ≤ until
      → Counts ip until n l
      → passes ip l e + (l.max_attempts - tally ip n e) ≤ l.max_attempts - n
  unfolding passes attempt
  passes-le-room n l (attempt_at now other) early c =
      ground (arith, c.found, c.counted, c.ends, eq_iff other ip)
  passes-le-room n l (janitor_at now) early c = omega arith

  pub passed-le-room :
      (n : ℕ) (l : LoginRateLimiter) (trace : List Event)
      → All (λ e. time e ≤ until) trace
      → Counts ip until n l
      → passed ip l trace ≤ l.max_attempts - n
  unfolding passed
  passed-le-room n l [] _ c = omega arith
  passed-le-room n l (e ∷ rest) (early, h) c = omega (
    arith,
    passes-le-room n l e early c,
    passed-le-room (tally ip n e) (step l e) rest h (Counts-step n l e early c),
    max_attempts-step l e,
  )
