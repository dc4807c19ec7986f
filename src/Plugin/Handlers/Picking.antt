-- ===== src/Plugin/Handlers/Picking.antt =====
-- What pickScheduler of internal/plugin/app.go answers.
use cpa_access_manager.Base.{◌≡◌, refl, ap, true, false, not, Option, none, some, map, arith}
use cpa_access_manager.Base.Text.{Text, is_empty, trim_space}
use cpa_access_manager.Access.Types.{Time, Scope, Candidate}
use cpa_access_manager.Access.Normalize.{Platform}
use cpa_access_manager.Access.Scope.{resolve_scope}
use cpa_access_manager.Access.Routing.Candidate.{pick_candidate_routed}
use cpa_access_manager.Access.Routing.Candidate.Choice.{IsPick, pick_candidate_routed_safe}
use cpa_access_manager.Access.Db.{Result, ok, err, State}
use cpa_access_manager.Plugin.Types.{App, Library, SchedulerPickRequest, SchedulerPickResponse}
use cpa_access_manager.Plugin.Values.{routing_session_hash}
use cpa_access_manager.Plugin.Handlers.Safety.{unless_answer, with_result}
use cpa_access_manager.Plugin.Handlers.{
  reply, with_state, request_key, not_picked, access_candidate, pick_reply, pick_request, pick_with,
  handle_pick,
}

-- The key of a pick request, and the store after it was looked for.
abbrev pub pick_key : Platform → Library → Time → State → SchedulerPickRequest → Text × State
pick_key p l present s req = request_key p l present req.options.metadata req.options.headers s

pub record IsPicked (p : Platform) (l : Library) (present : Time) (a : App) (raw : Text)
    (r : SchedulerPickResponse) : Type 0 where
  pub enabled : a.cfg.enabled ≡ true
  pub state : State
  pub opened : a.store ≡ some state
  pub request : SchedulerPickRequest
  pub decoded : l.decode_pick raw ≡ some request
  pub key_given : is_empty (pick_key p l present state request).0 ≡ false
  pub scope : Scope
  pub found :
      (resolve_scope
        (pick_key p l present state request).0
        (pick_key p l present state request).1).0
      ≡ ok scope
  pub candidate : Candidate
  pub chosen :
      IsPick p scope
        (trim_space request.provider)
        (map access_candidate request.candidates)
        candidate
  pub answered : r.auth_id ≡ candidate.id

pick_reply_ok :
    (o : Result Candidate) (r : SchedulerPickResponse)
    → pick_reply o ≡ reply r
    → r.handled ≡ true
    → (c : Candidate) × (o ≡ ok c) × (r.auth_id ≡ c.id)
unfolding pick_reply
pick_reply_ok (ok c) r h given = (c, refl, ground arith)
pick_reply_ok (err e) r h given = absurd (ground arith)

pick_request_ok :
    (p : Platform) (l : Library) (now present : Time) (a a' : App) (s : State) (raw : Text)
    (o : Option SchedulerPickRequest) (r : SchedulerPickResponse)
    → a.cfg.enabled ≡ true
    → a.store ≡ some s
    → l.decode_pick raw ≡ o
    → pick_request p l now present a s o ≡ (reply r, a')
    → r.handled ≡ true
    → IsPicked p l present a raw r
unfolding pick_request
pick_request_ok p l now present a a' s raw none r on opened decoded h given = absurd (cc)
pick_request_ok p l now present a a' s raw (some req) r on opened decoded h given =
    let (id, s1) = pick_key p l present s req in
    let hash = routing_session_hash p l req.options.metadata req.options.headers in
    let cs = map access_candidate req.candidates in
    let c = pick_candidate_routed p id req.model req.provider hash cs now present s1 in
    let (key_given, done) =
      unless_answer (λ x. x.handled ≡ true) (is_empty id) (with_state a s1) _ not_picked r a' h
        (λ x. absurd (ground (arith, x))) given in
    let (picked, e, same) = pick_reply_ok c.0 r (ap (λ x. x.0) done) given in
    let (scope, found, chosen) =
      pick_candidate_routed_safe p id req.model req.provider hash cs now present s1 c.1 picked
        (with_result c picked e) in
    record {
      enabled = on;
      state = s;
      opened = opened;
      request = req;
      decoded = decoded;
      key_given = key_given;
      scope = scope;
      found = found;
      candidate = picked;
      chosen = chosen;
      answered = same;
    }

pick_with_ok :
    (p : Platform) (l : Library) (now present : Time) (a a' : App) (raw : Text) (o : Option State)
    (r : SchedulerPickResponse)
    → a.store ≡ o
    → pick_with p l now present a raw o ≡ (reply r, a')
    → r.handled ≡ true
    → IsPicked p l present a raw r
unfolding pick_with
pick_with_ok p l now present a a' raw none r opened h given = absurd (ground (arith, h, given))
pick_with_ok p l now present a a' raw (some s) r opened h given =
    let (on, done) =
      unless_answer (λ x. x.handled ≡ true) (not a.cfg.enabled) a _ not_picked r a' h
        (λ x. absurd (ground (arith, x))) given in
    pick_request_ok p l now present a a' s raw (l.decode_pick raw) r (ground (arith, on)) opened
      refl done given

-- When the plugin handles a scheduler request, it is enabled and has a store, the request has a key in
-- its metadata or its headers, and the answer names one of the offered candidates that the scope of
-- the key allows and that has the provider asked for, of the highest priority among these.
pub handle_pick_safe :
    (p : Platform) (l : Library) (now present : Time) (a a' : App) (raw : Text)
    (r : SchedulerPickResponse)
    → handle_pick p l now present a raw ≡ (reply r, a')
    → r.handled ≡ true
    → IsPicked p l present a raw r
unfolding handle_pick
handle_pick_safe p l now present a a' raw r h given =
    pick_with_ok p l now present a a' raw a.store r refl h given
