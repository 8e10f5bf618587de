-- ===== src/Crypto.antt =====
-- Interfaces to code outside the repository: golang.org/x/crypto/bcrypt and
-- github.com/golang-jwt/jwt, with the documented behaviour that the program relies on.
use unyport.Common.{ℕ, ◌≤◌, ◌<◌, ◌≡◌, String, Bool, true, false, Option, some}

-- `generate` takes the random salt of the call as its first argument.
pub record Bcrypt : Type 0 where
  pub generate : ℕ → String → Option String
  -- CompareHashAndPassword returns nil
  pub matches : String → String → Bool
  pub matches-generate : (salt : ℕ) (p h : String) → generate salt p ≡ some h → matches h p ≡ true
  -- an empty hash is ErrHashTooShort
  pub matches_empty : (p : String) → matches "" p ≡ false

pub record Claims : Type 0 where
  pub user_id : String
  pub role : String
  pub expires_at : ℕ
  pub issued_at : ℕ
  pub not_before : ℕ
  pub issuer : String
  pub subject : String

-- HS256 tokens: signing, and ParseWithClaims with the method, the issuer and the clock checked.
pub record Tokens : Type 0 where
  pub sign : String → Claims → Option String
  -- key, required issuer, current time, token
  pub parse : String → String → ℕ → String → Option Claims
  pub parse-sign :
      (key iss : String) (now : ℕ) (c : Claims) (t : String)
      → sign key c ≡ some t
      → c.issuer ≡ iss
      → c.not_before ≤ now
      → now < c.expires_at
      → parse key iss now t ≡ some c
  pub parse_sound :
      (key iss : String) (now : ℕ) (t : String) (c : Claims)
      → parse key iss now t ≡ some c
      → (c.issuer ≡ iss) × (c.not_before ≤ now) × (now < c.expires_at)
