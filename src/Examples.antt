-- ===== src/Examples.antt =====
-- The theorems at concrete inputs, and the concrete stand-ins for the outside code they use.
mod Fixtures
mod Encoding
mod Accounts
mod Sessions
mod Requests
mod Domains
mod Streams
mod Databases
mod Tables
mod Routes
mod Neighbours
mod Reports
