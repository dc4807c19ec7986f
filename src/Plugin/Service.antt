-- ===== src/Plugin/Service.antt =====
-- The App of internal/plugin/app.go over time: configure, Shutdown, and HandleMethod on the requests of
-- the host that reach the store, one after the other.
pub mod Served
use cpa_access_manager.Base.{
  Bool, true, false, ◌≡◌, refl, List, [], ◌∷◌, Option, none, some, if◌then◌else◌,
}
use cpa_access_manager.Base.Text.{Text, codes, is_empty, trim_space, text_eq}
use cpa_access_manager.Access.Types.{Time}
use cpa_access_manager.Access.Normalize.{Platform}
use cpa_access_manager.Access.Db.{Store, State, Result, ok, err}
use cpa_access_manager.Access.Db.Schema.{Tables}
use cpa_access_manager.Plugin.Types.{App, Config, Library}
use cpa_access_manager.Plugin.Handlers.{handle_auth, handle_route, handle_pick}
use cpa_access_manager.Plugin.Ledger.{handle_usage}
use cpa_access_manager.Plugin.Update.{Machine}
use cpa_access_manager.Plugin.Management.{handle_management}
use cpa_access_manager.Plugin.Management.Types.{Outside}
use cpa_access_manager.Plugin.Management.Responses.{Inputs}

-- DefaultConfig
abbrev pub default_config : Config
default_config = record {
  enabled = true;
  db_path = codes "/opt/cli-proxy-api/plugins/cpa-toolkit.db";
  allow_unpriced = false;
}

-- The configuration that configure opens a store for; `decoded` is what json.Unmarshal and
-- yaml.Unmarshal make of the request over the default, `none` for an error.
unfoldable pub with_db_path : Config → Config
with_db_path cfg =
    if is_empty (trim_space cfg.db_path)
    then record cfg { db_path = default_config.db_path }
    else cfg

abbrev pub opened_store : Config → Tables → Store
opened_store cfg t = record { db = t; allow_unpriced = cfg.allow_unpriced; routing_cursor = λ k. 0 }

unfoldable pub installed : App → Config → Option Tables → App
installed a cfg none = a
installed a cfg (some t) = record {
  cfg = cfg;
  store = some (record { store = opened_store cfg t; faults = [] });
}

-- configure; `file` is what is in the file that OpenStore opens, `none` for an error.
unfoldable pub configure : (Text → Option Tables) → App → Option Config → App
unfolding installed with_db_path
configure file a none = a
configure file a (some decoded) =
    let cfg = with_db_path decoded in installed a cfg (file cfg.db_path)

-- NewApp
abbrev pub new_app : App
new_app = record {
  cfg = record { enabled = false; db_path = []; allow_unpriced = false };
  store = none;
}

-- Shutdown
unfoldable pub shutdown : App → App
shutdown a = record a { store = none }

-- The requests of the host that HandleMethod hands to `configure` or to a handler of the store, and the
-- unloading of the plugin. A request to configure comes with what it decodes to and with what is in the
-- database files at that time.
pub data Event : Type 0 where
  on_configure : Option Config → (Text → Option Tables) → Event
  on_auth : Text → Event
  on_route : Text → Event
  on_pick : Text → Event
  on_usage : Text → Event
  on_manage : Text → Inputs → Event
  on_stop : Event

unfoldable pub fresh_faults : List Bool → Option State → Option State
fresh_faults faults none = none
fresh_faults faults (some s) = some (record s { faults = faults })

unfoldable pub handle_event :
    Platform → Library → Outside → Machine → Time → Time → App → Event → App
unfolding configure handle_auth handle_route handle_pick handle_usage handle_management shutdown
handle_event p l o w now present a (on_configure decoded file) = configure file a decoded
handle_event p l o w now present a (on_auth raw) = (handle_auth p l now present a raw).1
handle_event p l o w now present a (on_route raw) = (handle_route p l now present a raw).1
handle_event p l o w now present a (on_pick raw) = (handle_pick p l now present a raw).1
handle_event p l o w now present a (on_usage raw) = handle_usage p l present a raw
handle_event p l o w now present a (on_manage raw i) = (handle_management p l o i a w raw).1
handle_event p l o w now present a on_stop = shutdown a

-- The events one after the other, each with its faults and its two times.
unfoldable pub serve :
    Platform → Library → Outside → Machine → App → List (Event × (List Bool × (Time × Time))) → App
unfolding handle_event fresh_faults
serve p l o w a [] = a
serve p l o w a ((e, (faults, (now, present))) ∷ events) =
    serve p l o w
      (handle_event p l o w now present (record a { store = fresh_faults faults a.store }) e) events
