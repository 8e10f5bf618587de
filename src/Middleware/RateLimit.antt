-- ===== src/Middleware/RateLimit.antt =====
-- unyport/backend/middleware/ratelimit.go: the limit on login attempts of one address. The
-- middleware and the janitor hold the mutex while they touch the buckets, so each is one step.
-- `count` is a number without bound: 2 ^ 63 attempts within a minute are not met.
pub mod Windows
pub mod Janitor
pub mod Limits
pub mod Bursts
use unyport.Common.{
  ℕ, suc, ◌+◌, String, Bool, true, false, not, Option, none, some, List, [], ◌∷◌, ◌==◌, ltb,
  if◌then◌else◌,
}
use unyport.Common.Dict.{Dict, lookup, insert, delete, keys}
use unyport.Common.Text.{trim_space, cut}
use unyport.Http.{Request, Context, Response, text, Net}
use unyport.Middleware.{Verdict, reply, next}

pub record Bucket : Type 0 where
  pub count : ℕ
  pub reset_at : ℕ

pub record LoginRateLimiter : Type 0 where
  pub buckets : Dict Bucket
  pub max_attempts : ℕ
  pub window : ℕ

-- NewLoginRateLimiter: the window is a minute.
unfoldable pub new_login_rate_limiter : ℕ → LoginRateLimiter
new_login_rate_limiter max_attempts = record {
  buckets = [];
  max_attempts = max_attempts;
  window = 60;
}

abbrev first_part : String → Option (String × String) → String
first_part xff none = xff
first_part xff (some (before, after)) = before

abbrev or_else : Option String → String → String
or_else none d = d
or_else (some ip) d = ip

-- extractIP
unfoldable pub extract_ip : Net → Request → String
extract_ip n r =
    let xff = r.header "X-Forwarded-For" in
    let direct = or_else (n.split_host r.remote_addr) r.remote_addr in
    if xff == ""
    then direct
    else or_else (n.parse_ip (trim_space (first_part xff (cut b',' xff)))) direct

abbrev fresh : LoginRateLimiter → ℕ → Bucket
fresh l now = record { count = 0; reset_at = now + l.window }

-- The bucket that an attempt counts in: a new one if there is none or its window is over.
abbrev current : LoginRateLimiter → ℕ → Option Bucket → Bucket
current l now none = fresh l now
current l now (some b) = if ltb b.reset_at now then fresh l now else b

-- The locked part of the middleware: the count of this attempt, and the buckets after it.
unfoldable pub attempt : LoginRateLimiter → ℕ → String → ℕ × LoginRateLimiter
attempt l now ip =
    let b = current l now (lookup ip l.buckets) in
    let b' : Bucket = record b { count = b.count + 1 } in
    (b'.count, record l { buckets = insert ip b' l.buckets })

abbrev too_many : Response
too_many = record {
  status = 429;
  headers = ("Content-Type", "application/json; charset=utf-8") ∷ ("Retry-After", "60") ∷ [];
  cookies = [];
  body = text "{\"error\":\"rate_limit\",\"retry_after\":60}";
}

abbrev admit : ℕ → Context → ℕ × LoginRateLimiter → Verdict × LoginRateLimiter
admit most ctx (count, l) = (if ltb most count then reply too_many else next ctx, l)

-- The middleware
unfoldable pub limit : Net → LoginRateLimiter → ℕ → Request → Context → Verdict × LoginRateLimiter
unfolding attempt extract_ip
limit n l now r ctx =
    if not (r.method == "POST")
    then (next ctx, l)
    else admit l.max_attempts ctx (attempt l now (extract_ip n r))

abbrev purge_found : ℕ → String → Option Bucket → Dict Bucket → Dict Bucket
purge_found now ip none m = m
purge_found now ip (some b) m = if ltb b.reset_at now then delete ip m else m

-- The loop of the janitor over the addresses, in the order in which `range` visits them.
unfoldable pub purge_loop : ℕ → List String → Dict Bucket → Dict Bucket
purge_loop now [] m = m
purge_loop now (ip ∷ rest) m = purge_loop now rest (purge_found now ip (lookup ip m) m)

-- One tick of the janitor
unfoldable pub purge : LoginRateLimiter → ℕ → LoginRateLimiter
unfolding purge_loop
purge l now = record l { buckets = purge_loop now (keys l.buckets) l.buckets }
