-- ===== src/Access/Routing/Candidate.antt =====
-- PickCandidateRouted of internal/access/routing.go.
pub mod Served
pub mod Choice
use cpa_access_manager.Base.{
  ℕ, zero, suc, ◌+◌, ◌/◌, ◌%◌, Bool, true, false, ◌&&◌, ◌||◌, not, List, [], ◌∷◌, ◌++◌, Option,
  none, some, map, find, filter, if◌then◌else◌, ltb,
}
use cpa_access_manager.Base.Int.{ℤ, pos, negsuc, ltb_ℤ}
use cpa_access_manager.Base.Text.{Text, codes, text_eq, text_ltb, is_empty, trim_space}
use cpa_access_manager.Base.Sort.{sort_by}
use cpa_access_manager.Access.Types.{Time, Candidate, Scope, Error}
use cpa_access_manager.Access.Time.{after}
use cpa_access_manager.Access.Normalize.{Platform}
use cpa_access_manager.Access.Scope.{resolve_scope, allows_candidate}
use cpa_access_manager.Access.Inventory.{upsert_provider_candidates}
use cpa_access_manager.Access.Routing.Cursor.{next_routing_value, routing_now}
use cpa_access_manager.Access.Routing.Session.{
  RoutingSession, load_routing_session, save_routing_session, delete_expired_routing_sessions,
}
use cpa_access_manager.Access.Db.{Db, ◌>>=◌, ◌>>◌, pure, fail, or_zero, transaction}

-- The decimal digits of a number below 10^fuel, in front of `acc`.
decimal : ℕ → ℕ → Text → Text
decimal zero n acc = acc
decimal (suc fuel) n acc =
    let d = 48 + n % 10 in
    let rest = decimal fuel (n / 10) (d ∷ acc) in if ltb n 10 then d ∷ acc else rest

-- strconv.Itoa of an int, which has at most 19 digits
pub itoa : ℤ → Text
unfolding decimal
itoa (pos n) = decimal 20 n []
itoa (negsuc n) = b'-' ∷ decimal 20 (n + 1) []

-- The tests of the first loop.
unfoldable pub is_match : Platform → Scope → Text → Candidate → Bool
is_match p scope provider c =
    (is_empty provider || text_eq c.provider provider) && allows_candidate p scope c

-- `a` stays in front of `b`: a higher priority, or the same and an identifier that is not above.
unfoldable pub candidate_le : Candidate → Candidate → Bool
candidate_le a b =
    if ltb_ℤ b.priority a.priority
    then true
    else if ltb_ℤ a.priority b.priority
    then false
    else not (text_ltb b.id a.id)

unfoldable pub same_priority : ℤ → ℤ → Bool
same_priority a b = not (ltb_ℤ a b) && not (ltb_ℤ b a)

-- The second loop: the candidates in front with the first one's priority.
unfoldable pub top_priority : ℤ → List Candidate → List Candidate
unfolding same_priority
top_priority max_priority [] = []
top_priority max_priority (c ∷ matched) =
    let rest = top_priority max_priority matched in
    if same_priority c.priority max_priority then c ∷ rest else []

abbrev ids_of : List Candidate → List Text
ids_of = map (λ c. c.id)

-- byID[id]: the last candidate with the identifier
unfoldable pub by_id : Text → List Candidate → Option Candidate
by_id id [] = none
by_id id (c ∷ candidates) =
    let rest = by_id id candidates in
    elim rest [ some d ↦ some d | none ↦ if text_eq c.id id then some c else none ]

abbrev zero_candidate : Candidate
zero_candidate = record { id = []; provider = []; priority = pos 0; status = []; attributes = [] }

or_zero_candidate : Option Candidate → Candidate
or_zero_candidate none = zero_candidate
or_zero_candidate (some c) = c

abbrev separator : Text
separator = 0 ∷ []

abbrev candidate_cursor : Text → Text → Text → ℤ → Text
candidate_cursor key_id model provider priority =
    codes "auth"
    ++ (separator
        ++ (key_id
            ++ (separator ++ (model ++ (separator ++ (provider ++ (separator ++ itoa priority)))))))

-- nextCandidate
unfoldable pub next_candidate : Text → Text → Text → ℤ → List Candidate → Db Candidate
unfolding next_routing_value by_id or_zero_candidate
next_candidate key_id model provider priority candidates = do
  id ← next_routing_value (candidate_cursor key_id model provider priority) (ids_of candidates)
  pure (or_zero_candidate (by_id id candidates))

-- The candidate of a session that has not run out.
unfoldable pub sticky_candidate : List Candidate → Time → Option RoutingSession → Option Candidate
unfolding find after
sticky_candidate top now none = none
sticky_candidate top now (some mapped) =
    if after mapped.expires_at now
    then find
        (λ c.
          text_eq c.id mapped.auth_id
          && (is_empty mapped.provider || text_eq c.provider mapped.provider))
        top
    else none

pub record Request : Type 0 where
  pub key_id : Text
  pub model : Text
  pub provider : Text
  pub session_hash : Text
  pub now : Time

unfoldable pub route_candidate : Request → ℤ → List Candidate → Option Candidate → Db Candidate
unfolding save_routing_session delete_expired_routing_sessions next_candidate
route_candidate r priority top (some c) = do
  save_routing_session r.key_id r.session_hash c.provider c.id r.now
  pure c
route_candidate r priority top none = do
  selected ← next_candidate r.key_id r.model r.provider priority top
  save_routing_session r.key_id r.session_hash selected.provider selected.id r.now
  delete_expired_routing_sessions r.now
  pure selected

unfoldable pub route_top : Request → ℤ → List Candidate → Db Candidate
unfolding route_candidate sticky_candidate load_routing_session
route_top r priority top =
    if is_empty r.session_hash
    then next_candidate r.key_id r.model r.provider priority top
    else transaction (do
      mapped ← load_routing_session r.key_id r.session_hash
      route_candidate r priority top (sticky_candidate top r.now mapped))

-- The choice among the matching candidates, in the order of SliceStable.
unfoldable pub pick_sorted : Request → List Candidate → Db Candidate
unfolding route_top top_priority
pick_sorted r [] = fail Error.no_allowed_target
pick_sorted r (c ∷ matched) = route_top r c.priority (top_priority c.priority (c ∷ matched))

unfoldable pub pick_in_scope : Platform → Scope → Request → List Candidate → Time → Db Candidate
unfolding pick_sorted is_match candidate_le filter sort_by
pick_in_scope p scope r candidates present =
    if not scope.has_bindings then fail Error.no_bindings else do
      or_zero tt (upsert_provider_candidates p present candidates)
      pick_sorted r (sort_by candidate_le (filter (is_match p scope r.provider) candidates))

-- PickCandidateRouted
unfoldable pub pick_candidate_routed :
    Platform → Text → Text → Text → Text → List Candidate → Time → Time → Db Candidate
unfolding pick_in_scope resolve_scope
pick_candidate_routed p key_id model provider session_hash candidates now present = do
  scope ← resolve_scope key_id
  let request : Request = record {
    key_id = key_id;
    model = trim_space model;
    provider = trim_space provider;
    session_hash = trim_space session_hash;
    now = routing_now now present;
  }
  pick_in_scope p scope request candidates present
