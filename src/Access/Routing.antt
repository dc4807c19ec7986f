-- ===== src/Access/Routing.antt =====
-- internal/access/routing.go: which provider and which candidate serve a request. `now` is the time
-- of the request, `present` what time.Now() returns.
pub mod Cursor
pub mod Fairness
pub mod Session
pub mod Provider
pub mod Candidate
