-- ===== src/Lib.antt =====
-- UnyPort's backend: who may log in, what a logged-in user may do, and what the program runs for
-- that user.
--
-- The program is an HTTP server that shows the state of a host and controls its Xen domains. A
-- request passes the middlewares of unyport/backend/middleware, which answer it or hand it with a
-- context to a handler; the handlers of unyport/backend/auth and unyport/backend/xenctl act on the
-- user store, issue session cookies and run the tool `xl`.
--
-- The files and what they model:
--   Common, Common/Text, Common/Dict: Go's strings functions and maps; lists, tests and case lemmas.
--   Crypto: interfaces to bcrypt and to the JWT library.
--   Http: requests, replies, cookies and decodeJSON (unyport/backend/auth/handlers.go).
--   Users, Users/Roles: User and its methods (unyport/backend/auth/users.go).
--   Users/Store and below: UserStore. A method runs under the mutex and is one function from a store
--     to a result and a store; `file` is users.json and `Disk` says which step of a save fails.
--   Jwt, Jwt/Sessions: JWTService (unyport/backend/auth/jwt.go).
--   Middleware/Access: Auth, RequireRole, adminMW and writeMW (unyport/backend/middleware/auth.go,
--     unyport/backend/server/routes.go).
--   Middleware/RateLimit: the login limit (unyport/backend/middleware/ratelimit.go), as steps of
--     attempts and of the janitor on the buckets.
--   Middleware/Csrf: CSRFBypass, CSRFProtect and CSRFTokenHandler (unyport/backend/middleware/csrf.go).
--   Middleware/Secure: the headers of unyport/backend/middleware/secure.go.
--   Server/Origins: normalizeTrustedOrigins (unyport/backend/server/server.go).
--   Server/Routes and below: the table of routes, the mux and the chain of middlewares
--     (unyport/backend/server/routes.go, New of unyport/backend/server/server.go). `Target`: the
--     segments that net/http reads of the escaped path.
--   Handlers and below: the handlers of unyport/backend/auth/handlers.go and the notification of
--     unyport/backend/auth/mailer.go.
--   Oauth and below: unyport/backend/auth/oauth.go; oauth2 and the providers' answers are `Api`.
--   Broker, Broker/Ring: the ring of snapshots and the clients' channels of
--     unyport/backend/sse/broker.go, as steps under its mutex. Broker/Versions and Broker/Reboots:
--     its VersionsHandler and RebootsHandler. Broker/Scales: computeOscilloScales.
--   Branding and below: unyport/backend/config/branding.go and BrandingHandler.
--   Settings: unyport/backend/config/settings.go.
--   Logs and below: the log files of unyport/backend/sse/sysinfo.go.
--   Hardware: the year of the firmware and the names of graphics cards, from
--     unyport/backend/sse/sysinfo.go.
--   Packages and below: the packages of Alpine, from unyport/backend/sse/sysinfo.go.
--   Devices and below: unyport/backend/sse/device_identity.go and the hints in names of
--     unyport/backend/sse/metrics.go.
--   Host: the role of the host and its main interface (unyport/backend/sse/metrics.go).
--   Security: unyport/backend/sse/security.go.
--   Xen and below: unyport/backend/xenctl; a call returns the commands it has run. Xen/Listing: the
--     reports of `xl`.
--   Examples: concrete stand-ins for the outside code, and the theorems at concrete inputs.
--
-- A program variable that changes is an argument and a result. Errors are values of `Result`, of a
-- sum or of `Option`. The clock, random bytes, the disk and the answers of other services are
-- arguments. Texts are lists of code points, and to_lower maps the ASCII letters only. Every loop is
-- a structural recursion over a list or a count, so there is no fuel. But for the sums that are
-- written modulo 2 ^ 64, numbers have no bound: the sizes and counts of the program stay far below
-- 2 ^ 63.
--
-- Not modelled: the collection of metrics from /proc and /sys and the rates of the network
-- (unyport/backend/sse/metrics.go, sysinfo.go, xen.go, and the rest of broker.go), the scan of
-- processes, serving files, the check for a new release, TLS and start-up (unyport/backend/server,
-- unyport/backend/cmd), the text of mails, the time that a comparison takes, logging, and the front
-- end.
pub mod Common
pub mod Crypto
pub mod Http
pub mod Users
pub mod Jwt
pub mod Middleware
pub mod Server
pub mod Handlers
pub mod Oauth
pub mod Xen
pub mod Broker
pub mod Branding
pub mod Logs
pub mod Hardware
pub mod Packages
pub mod Devices
pub mod Settings
pub mod Security
pub mod Host
pub mod Examples
