-- ===== src/Access/Routing/Session.antt =====
-- The table routing_sessions: loadRoutingSession, saveRoutingSession and
-- deleteExpiredRoutingSessions of internal/access/routing.go.
use cpa_access_manager.Base.{
  ℕ, Bool, ◌&&◌, not, [], ◌∷◌, Option, none, some, find, filter, any, update_where, if◌then◌else◌,
}
use cpa_access_manager.Base.Text.{Text, text_eq, text_leb, is_empty}
use cpa_access_manager.Access.Types.{Time, Error}
use cpa_access_manager.Access.Time.{is_zero, add_seconds, stamp, parse_time}
use cpa_access_manager.Access.Bindings.{key_exists}
use cpa_access_manager.Access.Db.{Result, ok, err, Db, query, exec, statement}
use cpa_access_manager.Access.Db.Schema.{Tables, SessionRow}

-- RoutingSessionTTL, in seconds
abbrev pub routing_session_ttl : ℕ
routing_session_ttl = 3600

pub record RoutingSession : Type 0 where
  pub provider : Text
  pub auth_id : Text
  pub expires_at : Time

abbrev pub same_session : Text → Text → SessionRow → Bool
same_session key_id session_hash row =
    text_eq row.key_id key_id && (is_empty row.model && text_eq row.session_hash session_hash)

unfoldable pub loaded_session : Option SessionRow → Option RoutingSession
loaded_session none = none
loaded_session (some row) =
    let expires = parse_time row.expires_at in
    if is_zero expires
    then none
    else some (record { provider = row.provider; auth_id = row.auth_id; expires_at = expires })

-- loadRoutingSession
unfoldable pub load_routing_session : Text → Text → Db (Option RoutingSession)
unfolding loaded_session find
load_routing_session key_id session_hash =
    query (λ t. loaded_session (find (same_session key_id session_hash) t.routing_sessions))

unfoldable pub session_row : Text → Text → Text → Text → Time → SessionRow
session_row key_id session_hash provider auth_id now = record {
  key_id = key_id;
  model = [];
  session_hash = session_hash;
  provider = provider;
  auth_id = auth_id;
  expires_at = stamp (add_seconds now routing_session_ttl);
  updated_at = stamp now;
}

-- The INSERT … ON CONFLICT DO UPDATE of saveRoutingSession; the key must exist.
unfoldable pub upsert_session : SessionRow → Tables → Result (Unit {0}) × Tables
unfolding any update_where key_exists
upsert_session row t =
    let same = same_session row.key_id row.session_hash in
    if any same t.routing_sessions
    then (ok tt, record t { routing_sessions = update_where same (λ old. row) t.routing_sessions })
    else if key_exists row.key_id t
    then (ok tt, record t { routing_sessions = row ∷ t.routing_sessions })
    else (err Error.constraint_failed, t)

-- saveRoutingSession
unfoldable pub save_routing_session : Text → Text → Text → Text → Time → Db (Unit {0})
unfolding session_row upsert_session
save_routing_session key_id session_hash provider auth_id now =
    statement (upsert_session (session_row key_id session_hash provider auth_id now))

unfoldable pub drop_expired : Text → Tables → Tables
unfolding filter
drop_expired now t = record t {
  routing_sessions = filter (λ r. not (text_leb r.expires_at now)) t.routing_sessions;
}

-- deleteExpiredRoutingSessions
unfoldable pub delete_expired_routing_sessions : Time → Db (Unit {0})
unfolding drop_expired
delete_expired_routing_sessions now = exec (drop_expired (stamp now))
