-- ===== src/Logs/Answers.antt =====
-- Which lines LogsTailHandler shows, and how many.
use unyport.Common.{ℕ, ◌≤◌, ◌<◌, ◌≡◌, ◌≢◌, String, true, Option, none, some}
use Prim.Native.String
use unyport.Common.Integers.{ℤ, pos, at_most}

-- The number of lines that a query asks for: 100 where it names none, or none from 1 to 1000.
pub data IsAsked (atoi : String → Option ℤ) (query : String → String) : ℕ → Type 0 where
  unnamed : query "n" ≡ "" → IsAsked atoi query 100
  unread : query "n" ≢ "" → atoi (query "n") ≡ none → IsAsked atoi query 100
  not_positive :
      (i : ℤ)
      → query "n" ≢ ""
      → atoi (query "n") ≡ some i
      → at_most i 0 ≡ true
      → IsAsked atoi query 100
  too_many :
      (n : ℕ) → query "n" ≢ "" → atoi (query "n") ≡ some (pos n) → 1000 < n → IsAsked atoi query 100
  named :
      (n : ℕ)
      → query "n" ≢ ""
      → atoi (query "n") ≡ some (pos n)
      → 0 < n
      → n ≤ 1000
      → IsAsked atoi query n
