-- ===== src/Middleware/RateLimit/Limits.antt =====
-- The limit: the attempts of one address that pass within one window.
use unyport.Common.{
  ℕ, ◌+◌, ◌-◌, ◌≤◌, ◌<◌, ◌≡◌, refl, String, Bool, true, false, none, some, List, [], ◌∷◌, ◌==◌,
  eq_iff, arith, ltb, Bool-cases, ◌⊎◌, inl, inr, All,
}
use unyport.Common.Dict.{lookup, lookup-insert, lookup-insert_self}
use unyport.Middleware.RateLimit.{Bucket, LoginRateLimiter, current, attempt, purge}
use unyport.Middleware.RateLimit.Janitor.{lookup-purge}
use unyport.Middleware.RateLimit.Windows.{
  Event, attempt_at, janitor_at, time, step, passes, passed, Counts, max_attempts-step, window-step,
  passed-le-room,
}

-- No window of this address is open at time `t`.
abbrev pub IsIdle : ℕ → String → LoginRateLimiter → Type 0
IsIdle t ip l =
    (lookup ip l.buckets ≡ none)
    ⊎ ((b : Bucket) × (lookup ip l.buckets ≡ some b) × (b.reset_at < t))

abbrev is_attempt_of : String → Event → Bool
is_attempt_of ip (attempt_at now other) = other == ip
is_attempt_of ip (janitor_at now) = false

All-to :
    (t until : ℕ) (trace : List Event)
    → All (λ e. (t ≤ time e) × (time e ≤ until)) trace
    → All (λ e. time e ≤ until) trace
All-to t until [] _ = tt
All-to t until (e ∷ rest) (here, h) = (here.1, All-to t until rest h)

module _ (ip : String) (t : ℕ) where
  IsIdle-janitor : (l : LoginRateLimiter) (now : ℕ) → IsIdle t ip l → IsIdle t ip (purge l now)
  IsIdle-janitor l now (inl none_yet) = inl (ground (arith, lookup-purge l now ip))
  IsIdle-janitor l now (inr (b, found, over)) = elim (Bool-cases (ltb b.reset_at now)) [
    | inl gone ↦ inl (ground (arith, lookup-purge l now ip))
    | inr kept ↦ inr (b, ground (arith, lookup-purge l now ip), over)
  ]

  IsIdle-attempt :
      (l : LoginRateLimiter) (now : ℕ) (other : String)
      → (other == ip) ≡ false
      → IsIdle t ip l
      → IsIdle t ip (attempt l now other).1
  unfolding attempt
  IsIdle-attempt l now other differs (inl none_yet) = inl (rw lookup-insert (rw differs none_yet))
  IsIdle-attempt l now other differs (inr (b, found, over)) =
      inr (b, rw lookup-insert (rw differs found), over)

  current_of_IsIdle :
      (l : LoginRateLimiter) (now : ℕ)
      → IsIdle t ip l
      → t ≤ now
      → current l now (lookup ip l.buckets) ≡ record { count = 0; reset_at = now + l.window }
  current_of_IsIdle l now (inl none_yet) late = rw none_yet refl
  current_of_IsIdle l now (inr (b, found, over)) late = rw found (ground arith)

  -- The first attempt opens a window that lasts to `t + window` at least.
  Counts-first :
      (l : LoginRateLimiter) (now : ℕ)
      → IsIdle t ip l
      → t ≤ now
      → Counts ip (t + l.window) 1 (attempt l now ip).1
  unfolding attempt
  Counts-first l now idle late = record {
    bucket = record { count = 1; reset_at = now + l.window };
    found = rw (current_of_IsIdle l now idle late) (lookup-insert_self ip _ l.buckets);
    counted = refl;
    ends = omega arith;
  }

  passes_first :
      (l : LoginRateLimiter) (now : ℕ)
      → IsIdle t ip l
      → t ≤ now
      → passes ip l (attempt_at now ip) + (l.max_attempts - 1) ≤ l.max_attempts
  unfolding passes attempt
  passes_first l now idle late = ground (arith, current_of_IsIdle l now idle late)

  Counts-until : {n u v : ℕ} {l : LoginRateLimiter} → u ≤ v → Counts ip v n l → Counts ip u n l
  Counts-until le c = record {
    bucket = c.bucket;
    found = c.found;
    counted = c.counted;
    ends = omega (arith, le, c.ends);
  }

  IsIdle-step :
      (l : LoginRateLimiter) (e : Event)
      → is_attempt_of ip e ≡ false
      → IsIdle t ip l
      → IsIdle t ip (step l e)
  unfolding step
  IsIdle-step l (attempt_at now other) differs idle = IsIdle-attempt l now other differs idle
  IsIdle-step l (janitor_at now) _ idle = IsIdle-janitor l now idle

  passes_other : (l : LoginRateLimiter) (e : Event) → is_attempt_of ip e ≡ false → passes ip l e ≡ 0
  unfolding passes
  passes_other l (attempt_at now other) differs = ground arith
  passes_other l (janitor_at now) _ = refl

  first_step :
      (l : LoginRateLimiter) (e : Event)
      → is_attempt_of ip e ≡ true
      → IsIdle t ip l
      → t ≤ time e
      → Counts ip (t + l.window) 1 (step l e)
        × (passes ip l e + (l.max_attempts - 1) ≤ l.max_attempts)
  first_step l (attempt_at now other) same idle late =
      let other_ip : other ≡ ip = (eq_iff other ip).0 same in
      rw other_ip (unfold step in Counts-first l now idle late, passes_first l now idle late)
  first_step l (janitor_at now) same idle late = absurd (cc)

  passed_from_idle :
      (until : ℕ) (l : LoginRateLimiter) (trace : List Event)
      → until ≤ t + l.window
      → IsIdle t ip l
      → All (λ e. (t ≤ time e) × (time e ≤ until)) trace
      → passed ip l trace ≤ l.max_attempts
  unfolding passed
  passed_from_idle until l [] le idle _ = omega arith
  passed_from_idle until l (e ∷ rest) le idle ((from, to), h) =
      elim (Bool-cases (is_attempt_of ip e)) [
        | inl mine ↦
            let (counting, first) = first_step l e mine idle from in
            let later =
              passed-le-room ip until 1 (step l e) rest (All-to t until rest h)
                (Counts-until le counting) in
            omega (arith, later, first, max_attempts-step l e)
        | inr other ↦
            let later =
              passed_from_idle until (step l e) rest (omega (arith, window-step l e, le))
                (IsIdle-step l e other idle) h in
            omega (arith, later, passes_other l e other, max_attempts-step l e)
      ]

-- Where an address has no open window at time `t`, at most `max_attempts` of its attempts pass in
-- a sequence of events from `t` to `t + window`, whatever the other addresses and the janitor do
-- meanwhile.
pub passed-le-max_attempts :
    (ip : String) (t : ℕ) (l : LoginRateLimiter) (trace : List Event)
    → IsIdle t ip l
    → All (λ e. (t ≤ time e) × (time e ≤ t + l.window)) trace
    → passed ip l trace ≤ l.max_attempts
passed-le-max_attempts ip t l trace idle h =
    passed_from_idle ip t (t + l.window) l trace (omega arith) idle h
