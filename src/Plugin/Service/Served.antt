-- ===== src/Plugin/Service/Served.antt =====
-- Whatever the host asks of the plugin (internal/plugin), the tables keep what their statements keep.
use cpa_access_manager.Base.{
  ◌≡◌, refl, All, Bool, true, false, not, List, [], ◌∷◌, Option, none, some, if◌then◌else◌,
}
use cpa_access_manager.Base.Distinct.{All-map}
use cpa_access_manager.Base.Text.{Text, is_empty}
use cpa_access_manager.Access.Types.{Time}
use cpa_access_manager.Access.Normalize.{Platform}
use cpa_access_manager.Access.Db.{State, Result, ok, err, Db}
use cpa_access_manager.Access.Db.Schema.{Tables}
use cpa_access_manager.Access.Db.Keeps.{Keeps, OnTables, Keeps-bind}
use cpa_access_manager.Access.Db.Reads.{Keeps-of_ReadsOnly}
use cpa_access_manager.Access.Clean.{IsClean}
use cpa_access_manager.Access.Clean.Invariant.{RunInvariant}
use cpa_access_manager.Access.Clean.Rows.{IsClean-run}
use cpa_access_manager.Access.Clean.Reads.{
  key_by_presented_token-ReadsOnly, key_by_id_or_presented_token-ReadsOnly,
}
use cpa_access_manager.Access.Clean.Routed.{
  authenticate-Keeps, choose_provider_routed-Keeps, pick_candidate_routed-Keeps,
}
use cpa_access_manager.Access.Clean.Traffic.{record_usage-Keeps}
use cpa_access_manager.Access.Linked.{IsLinked}
use cpa_access_manager.Access.Linked.Rows.{IsLinked-run}
use cpa_access_manager.Plugin.Types.{
  App, Config, Fields, Headers, Library, FrontendAuthRequest, ModelRouteRequest,
  SchedulerPickRequest, UsageHandleRequest, ManagementRequest,
}
use cpa_access_manager.Plugin.Values.{bearer_token, key_id_from_metadata}
use cpa_access_manager.Plugin.Handlers.{
  with_state, auth_token, auth_request, auth_with, handle_auth, key_id_from_headers, request_key,
  route_request, route_with, handle_route, pick_request, pick_with, handle_pick,
}
use cpa_access_manager.Plugin.Ledger.{
  report_usage, usage_decoded, usage_with, handle_usage, key_identifier,
}
use cpa_access_manager.Plugin.Update.{Machine}
use cpa_access_manager.Plugin.Management.{settled, on_store, management_request, handle_management}
use cpa_access_manager.Plugin.Management.Paths.{
  normalized_plugin_path, is_api_key_resource, is_settings_resource, is_usage_resource,
  is_shared_ui_resource,
}
use cpa_access_manager.Plugin.Management.Types.{ManagementResponse, Outside}
use cpa_access_manager.Plugin.Management.Responses.{Inputs}
use cpa_access_manager.Plugin.Management.Writes.{dispatch-Keeps}
use cpa_access_manager.Plugin.Service.{
  on_configure, configure, installed, with_db_path, new_app, Event, on_auth, on_route, on_pick,
  on_usage, on_manage, on_stop, handle_event, serve, shutdown, fresh_faults,
}

-- A property of the tables of the store, if one is open.
abbrev pub OnStore : (Tables → Type 0) → Option State → Type 0
OnStore Q none = Unit {0}
OnStore Q (some s) = Q s.store.db

-- The same of an App.
pub record OnApp (Q : Tables → Type 0) (a : App) : Type 0 where
  pub open_store : OnStore Q a.store

module _ {Q : Tables → Type 0} where
  held : (a : App) (s : State) → Q s.store.db → OnApp Q (with_state a s)
  held a s h = record { open_store = h }

  run_keeps :
      {A : Type 0} (m : Db A) (s : State) → Keeps (OnTables Q) m → Q s.store.db → Q (m s).1.store.db
  run_keeps m s k h = (k.kept s (record { holds = h })).holds

  -- Both ends of a guard.
  OnApp-if :
      {A : Type 0} (b : Bool) (x y : A × App)
      → OnApp Q x.1
      → OnApp Q y.1
      → OnApp Q (if b then x else y).1
  OnApp-if true x y h k = h
  OnApp-if false x y h k = k

text_if :
    {A : Type 0} (Q : Tables → Type 0) (b : Bool) (x y : A × State)
    → Q x.1.store.db
    → Q y.1.store.db
    → Q (if b then x else y).1.store.db
text_if Q true x y h k = h
text_if Q false x y h k = k

module _ {Q : Tables → Type 0} (inv : RunInvariant Q) (p : Platform) (l : Library)
    (now present : Time) where
  auth_request-Keeps :
      (a : App) (s : State) (r : Option FrontendAuthRequest)
      → OnApp Q a
      → Q s.store.db
      → OnApp Q (auth_request p l now present a s r).1
  unfolding auth_request auth_token
  auth_request-Keeps a s none h k = h
  auth_request-Keeps a s (some req) h k =
      OnApp-if (is_empty (bearer_token l req.headers)) _ _ h
        (held a _ (run_keeps _ s (authenticate-Keeps inv.each p _ _ now present) k))

  auth-Keeps :
      (a : App) (raw : Text) (o : Option State)
      → OnApp Q a
      → OnStore Q o
      → OnApp Q (auth_with p l now present a raw o).1
  unfolding auth_with
  auth-Keeps a raw none h k = h
  auth-Keeps a raw (some s) h k =
      OnApp-if (not a.cfg.enabled) _ _ h (auth_request-Keeps a s (l.decode_auth raw) h k)

  -- Looking for the key of a request reads only.
  headers_keep :
      (h : Headers) (s : State) → Q s.store.db → Q (key_id_from_headers p l present h s).1.store.db
  unfolding key_id_from_headers
  headers_keep h s k = text_if Q (is_empty (bearer_token l h)) _ _ k (
      run_keeps {Q = Q} _ s
        (Keeps-of_ReadsOnly _ (key_by_presented_token-ReadsOnly p (bearer_token l h) present)) k)

  request_key_keeps :
      (m : Fields) (h : Headers) (s : State)
      → Q s.store.db
      → Q (request_key p l present m h s).1.store.db
  unfolding request_key
  request_key_keeps m h s k =
      text_if Q (not (is_empty (key_id_from_metadata l m))) _ _ k (headers_keep h s k)

  route_request-Keeps :
      (a : App) (s : State) (r : Option ModelRouteRequest)
      → OnApp Q a
      → Q s.store.db
      → OnApp Q (route_request p l now present a s r).1
  unfolding route_request
  route_request-Keeps a s none h k = h
  route_request-Keeps a s (some req) h k =
      let found = request_key_keeps req.metadata req.headers s k in
      OnApp-if (is_empty (request_key p l present req.metadata req.headers s).0) _ _
        (held a _ found)
        (held a _ (run_keeps _ _ (choose_provider_routed-Keeps inv.each _ _ _ _ now present) found))

  route-Keeps :
      (a : App) (raw : Text) (o : Option State)
      → OnApp Q a
      → OnStore Q o
      → OnApp Q (route_with p l now present a raw o).1
  unfolding route_with
  route-Keeps a raw none h k = h
  route-Keeps a raw (some s) h k =
      OnApp-if (not a.cfg.enabled) _ _ h (route_request-Keeps a s (l.decode_route raw) h k)

  pick_request-Keeps :
      (a : App) (s : State) (r : Option SchedulerPickRequest)
      → OnApp Q a
      → Q s.store.db
      → OnApp Q (pick_request p l now present a s r).1
  unfolding pick_request
  pick_request-Keeps a s none h k = h
  pick_request-Keeps a s (some req) h k =
      let found = request_key_keeps req.options.metadata req.options.headers s k in
      OnApp-if (is_empty (request_key p l present req.options.metadata req.options.headers s).0) _ _
        (held a _ found)
        (held a _
          (run_keeps _ _ (pick_candidate_routed-Keeps inv.each p _ _ _ _ _ now present) found))

  pick-Keeps :
      (a : App) (raw : Text) (o : Option State)
      → OnApp Q a
      → OnStore Q o
      → OnApp Q (pick_with p l now present a raw o).1
  unfolding pick_with
  pick-Keeps a raw none h k = h
  pick-Keeps a raw (some s) h k =
      OnApp-if (not a.cfg.enabled) _ _ h (pick_request-Keeps a s (l.decode_pick raw) h k)

  usage_decoded-Keeps :
      (a : App) (s : State) (r : Option UsageHandleRequest)
      → OnApp Q a
      → Q s.store.db
      → OnApp Q (usage_decoded p l present a s r)
  unfolding usage_decoded report_usage
  usage_decoded-Keeps a s none h k = h
  usage_decoded-Keeps a s (some r) h k = held a _ (
      run_keeps _ s
        (Keeps-bind _ _
          (Keeps-of_ReadsOnly _
            (key_by_id_or_presented_token-ReadsOnly p (key_identifier l r) present))
          (λ key. record_usage-Keeps inv.each p _ present))
        k)

  usage-Keeps :
      (a : App) (raw : Text) (o : Option State)
      → OnApp Q a
      → OnStore Q o
      → OnApp Q (usage_with p l present a raw o)
  unfolding usage_with
  usage-Keeps a raw none h k = h
  usage-Keeps a raw (some s) h k = usage_decoded-Keeps a s (l.decode_usage raw) h k

  module _ (o : Outside) (i : Inputs) (w : Machine) where
    settled-Keeps :
        (a : App) (r : Result ManagementResponse × State) → Q r.1.store.db → OnApp Q (settled a r).1
    unfolding settled
    settled-Keeps a (ok r, s) k = held a s k
    settled-Keeps a (err e, s) k = held a s k

    on_store-Keeps :
        (a : App) (req : ManagementRequest) (st : Option State)
        → OnApp Q a
        → OnStore Q st
        → OnApp Q (on_store p l o i a w req st).1
    unfolding on_store
    on_store-Keeps a req none h k = h
    on_store-Keeps a req (some s) h k =
        settled-Keeps a _ (
          run_keeps _ s (dispatch-Keeps inv p o i l a.cfg w req (normalized_plugin_path req.path))
            k)

    management-Keeps :
        (a : App) (r : Option ManagementRequest)
        → OnApp Q a
        → OnApp Q (management_request p l o i a w r).1
    unfolding management_request
    management-Keeps a none h = h
    management-Keeps a (some req) h = OnApp-if (is_api_key_resource req.path) _ _ h (
        OnApp-if (is_shared_ui_resource req.path) _ _ h (
          OnApp-if (is_settings_resource req.path) _ _ h (
            OnApp-if (is_usage_resource req.path) _ _ h
              (on_store-Keeps a req a.store h h.open_store))))

-- A database file that the event may open satisfies Q.
abbrev pub Opens : (Tables → Type 0) → Event → Type 0
Opens Q (on_configure decoded file) = (name : Text) (t : Tables) → file name ≡ some t → Q t
Opens Q e = Unit {0}

installed-Keeps :
    (Q : Tables → Type 0) (a : App) (cfg : Config) (o : Option Tables)
    → OnApp Q a
    → ((t : Tables) → o ≡ some t → Q t)
    → OnApp Q (installed a cfg o)
unfolding installed
installed-Keeps Q a cfg none h k = h
installed-Keeps Q a cfg (some t) h k = record { open_store = k t refl }

configure-Keeps :
    (Q : Tables → Type 0) (a : App) (file : Text → Option Tables) (decoded : Option Config)
    → OnApp Q a
    → ((name : Text) (t : Tables) → file name ≡ some t → Q t)
    → OnApp Q (configure file a decoded)
unfolding configure
configure-Keeps Q a file none h k = h
configure-Keeps Q a file (some cfg) h k =
    let made = with_db_path cfg in installed-Keeps Q a made (file made.db_path) h (k made.db_path)

fresh-Keeps :
    (Q : Tables → Type 0) (faults : List Bool) (o : Option State)
    → OnStore Q o
    → OnStore Q (fresh_faults faults o)
unfolding fresh_faults
fresh-Keeps Q faults none h = h
fresh-Keeps Q faults (some s) h = h

module _ {Q : Tables → Type 0} (inv : RunInvariant Q) (p : Platform) (l : Library) (o : Outside)
    (w : Machine) where
  event-Keeps :
      (now present : Time) (a : App) (e : Event)
      → Opens Q e
      → OnApp Q a
      → OnApp Q (handle_event p l o w now present a e)
  unfolding handle_event handle_auth handle_route handle_pick handle_usage handle_management
      shutdown
  event-Keeps now present a (on_configure decoded file) k h = configure-Keeps Q a file decoded h k
  event-Keeps now present a (on_auth raw) k h =
      auth-Keeps inv p l now present a raw a.store h h.open_store
  event-Keeps now present a (on_route raw) k h =
      route-Keeps inv p l now present a raw a.store h h.open_store
  event-Keeps now present a (on_pick raw) k h =
      pick-Keeps inv p l now present a raw a.store h h.open_store
  event-Keeps now present a (on_usage raw) k h =
      usage-Keeps inv p l now present a raw a.store h h.open_store
  event-Keeps now present a (on_manage raw i) k h =
      management-Keeps inv p l now present o i w a (o.decode_management raw) h
  event-Keeps now present a on_stop k h = record { open_store = tt }

  serve-Keeps :
      (a : App) (events : List (Event × (List Bool × (Time × Time))))
      → All (λ e. Opens Q e.0) events
      → OnApp Q a
      → OnApp Q (serve p l o w a events)
  unfolding serve
  serve-Keeps a [] ks h = h
  serve-Keeps a ((e, (faults, (now, present))) ∷ events) ks h =
      let b : App = record a { store = fresh_faults faults a.store } in
      serve-Keeps (handle_event p l o w now present b e) events ks.1 (
        event-Keeps now present b e ks.0
          (record { open_store = fresh-Keeps Q faults a.store h.open_store }))

weaker : (Q R : Tables → Type 0) → ((t : Tables) → Q t → R t) → (e : Event) → Opens Q e → Opens R e
weaker Q R f (on_configure decoded file) h = λ name t same. f t (h name t same)
weaker Q R f (on_auth raw) h = tt
weaker Q R f (on_route raw) h = tt
weaker Q R f (on_pick raw) h = tt
weaker Q R f (on_usage raw) h = tt
weaker Q R f (on_manage raw i) h = tt
weaker Q R f on_stop h = tt

-- Both invariants of the tables.
abbrev pub Sound : Tables → Type 0
Sound t = IsClean t × IsLinked t

-- From the start of the plugin, after any requests of the host, to configure, to unload and all others,
-- whatever they hold and whichever statements fail, if the database files that it is configured with
-- satisfy as much: where a store is open, no group is a member of a group, every stored limit is
-- positive, every binding has a normalized type and a trimmed identifier, every price rule a normalized
-- provider and a trimmed model, every binding, usage row and routing session its key and every member
-- its group, and no two keys have the same identifier or hash.
pub serve-IsClean :
    (p : Platform) (l : Library) (o : Outside) (w : Machine)
    (events : List (Event × (List Bool × (Time × Time))))
    → All (λ e. Opens Sound e.0) events
    → OnApp IsClean (serve p l o w new_app events) × OnApp IsLinked (serve p l o w new_app events)
serve-IsClean p l o w events h = (
  serve-Keeps IsClean-run p l o w new_app events
      (All-map _ _ events (λ e. weaker Sound IsClean (λ t k. k.0) e.0) h)
      (record { open_store = tt }),
  serve-Keeps IsLinked-run p l o w new_app events
      (All-map _ _ events (λ e. weaker Sound IsLinked (λ t k. k.1) e.0) h)
      (record { open_store = tt }),
)
