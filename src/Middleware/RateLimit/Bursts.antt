-- ===== src/Middleware/RateLimit/Bursts.antt =====
-- The window is fixed, not sliding: two windows can meet.
use unyport.Common.{
  ℕ, zero, suc, ◌+◌, ◌*◌, ◌≤◌, ◌<◌, ◌≡◌, refl, ◌∙◌, String, some, List, [], ◌∷◌, eq_refl, arith,
}
use unyport.Common.Dict.{lookup, lookup-insert_self}
use unyport.Middleware.RateLimit.{LoginRateLimiter, attempt, new_login_rate_limiter}
use unyport.Middleware.RateLimit.Windows.{
  Event, attempt_at, step, passes, passed, max_attempts-step, window-step,
}

-- `n` attempts of one address at one time, and then the rest.
abbrev pub repeat : ℕ → Event → List Event → List Event
repeat zero e rest = rest
repeat (suc n) e rest = e ∷ repeat n e rest

-- The bucket of an address is known exactly.
abbrev Has : String → ℕ → ℕ → LoginRateLimiter → Type 0
Has ip count reset_at l = lookup ip l.buckets ≡ some (record { count = count; reset_at = reset_at })

module _ (ip : String) where
  recount : (m n until : ℕ) (l : LoginRateLimiter) → m ≡ n → Has ip m until l → Has ip n until l
  recount m n until l e h = rw (← e) h

  -- An attempt in an open window with room passes and is counted.
  passes_open :
      (n until now : ℕ) (l : LoginRateLimiter)
      → Has ip n until l
      → now ≤ until
      → n < l.max_attempts
      → (passes ip l (attempt_at now ip) ≡ 1) × Has ip (n + 1) until (step l (attempt_at now ip))
  unfolding passes step attempt
  passes_open n until now l h early room =
      (ground (arith, h, eq_refl ip), rw h (rw lookup-insert_self (ground arith)))

  -- An attempt after the end of its window opens a new one.
  passes_reopen :
      (n until now : ℕ) (l : LoginRateLimiter)
      → Has ip n until l
      → until < now
      → 0 < l.max_attempts
      → (passes ip l (attempt_at now ip) ≡ 1)
        × Has ip 1 (now + l.window) (step l (attempt_at now ip))
  unfolding passes step attempt
  passes_reopen n until now l h late room =
      (ground (arith, h, eq_refl ip), rw h (rw lookup-insert_self (ground arith)))

  abbrev after : ℕ → ℕ → LoginRateLimiter → LoginRateLimiter
  after zero now l = l
  after (suc k) now l = after k now (step l (attempt_at now ip))

  passed-repeat :
      (k n until now : ℕ) (l : LoginRateLimiter) (rest : List Event)
      → Has ip n until l
      → now ≤ until
      → n + k ≤ l.max_attempts
      → (passed ip l (repeat k (attempt_at now ip) rest) ≡ k + passed ip (after k now l) rest)
        × Has ip (n + k) until (after k now l)
        × ((after k now l).max_attempts ≡ l.max_attempts)
        × ((after k now l).window ≡ l.window)
  unfolding passed
  passed-repeat zero n until now l rest h early room =
      (omega arith, recount n (n + 0) until l (omega arith) h, refl, refl)
  passed-repeat (suc k) n until now l rest h early room =
      let e = attempt_at now ip in
      let (one, counted) = passes_open n until now l h early (omega arith) in
      let (sum, has, most, window) =
        passed-repeat k (n + 1) until now (step l e) rest counted early
          (omega (arith, max_attempts-step l e)) in
      (
        omega (arith, one, sum),
        recount (n + 1 + k) (n + suc k) until (after k now (step l e)) (omega arith) has,
        most ∙ max_attempts-step l e,
        window ∙ window-step l e,
      )

  -- One attempt at 0, `m` at 60 and `m + 1` at 61.
  abbrev pub burst : ℕ → List Event
  burst m =
      repeat 1 (attempt_at 0 ip)
        (repeat m (attempt_at 60 ip) (repeat (suc m) (attempt_at 61 ip) []))

  passed-reopened :
      (m until now : ℕ) (l : LoginRateLimiter)
      → Has ip (m + 1) until l
      → until < now
      → l.max_attempts ≡ m + 1
      → passed ip l (repeat (suc m) (attempt_at now ip) []) ≡ m + 1
  unfolding passed
  passed-reopened m until now l h late most =
      let e = attempt_at now ip in
      let (one, has) = passes_reopen (m + 1) until now l h late (omega arith) in
      let (sum, _, _, _) =
        passed-repeat m 1 (now + l.window) now (step l e) [] has (omega arith)
          (omega (arith, max_attempts-step l e)) in
      omega (arith, one, sum)

  opened :
      (l : LoginRateLimiter)
      → l.buckets ≡ []
      → 0 < l.max_attempts
      → (passes ip l (attempt_at 0 ip) ≡ 1) × Has ip 1 (0 + l.window) (step l (attempt_at 0 ip))
  unfolding passes step attempt lookup
  opened l none_yet room =
      (rw none_yet (ground (arith, eq_refl ip)), rw lookup-insert_self (rw none_yet refl))

  -- With a limit of m + 1 a minute, all 2 * (m + 1) attempts of a burst pass, though 2 * m + 1 of
  -- them are made within the two seconds 60 and 61.
  pub passed-burst : (m : ℕ) → passed ip (new_login_rate_limiter (m + 1)) (burst m) ≡ 2 * (m + 1)
  unfolding passed
  passed-burst m =
      let l = new_login_rate_limiter (m + 1) in
      let e = attempt_at 0 ip in
      let most : l.max_attempts ≡ m + 1 = unfold new_login_rate_limiter in refl in
      let (one, has) = opened l (unfold new_login_rate_limiter in refl) (omega (arith, most)) in
      let (sum, full, most', window') =
        passed-repeat m 1 60 60 (step l e) (repeat (suc m) (attempt_at 61 ip) [])
          (unfold new_login_rate_limiter in has) (omega arith)
          (omega (arith, max_attempts-step l e, most)) in
      let last =
        passed-reopened m 60 61 (after m 60 (step l e))
          (recount (1 + m) (m + 1) 60 (after m 60 (step l e)) (omega arith) full) (omega arith)
          (omega (arith, most', max_attempts-step l e, most)) in
      omega (arith, one, sum, last)
