-- ===== src/Middleware.antt =====
-- unyport/backend/middleware: what a middleware decides about a request.
pub mod Access
pub mod RateLimit
pub mod Csrf
pub mod Secure
use unyport.Http.{Context, Response}

-- A middleware answers the request itself or hands it, with its context, to the next handler.
pub data Verdict : Type 0 where
  reply : Response → Verdict
  next : Context → Verdict

-- The handler behind a middleware.
abbrev pub guarded : Verdict → (Context → Response) → Response
guarded (reply r) handler = r
guarded (next c) handler = handler c
