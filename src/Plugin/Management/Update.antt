-- ===== src/Plugin/Management/Update.antt =====
-- handleCPAUpdate and scheduleCPAUpdate of internal/plugin/cpa_update.go.
use cpa_access_manager.Base.{[], Option, none, some, if◌then◌else◌}
use cpa_access_manager.Base.Text.{Text, codes, is_empty, trim_space}
use cpa_access_manager.Plugin.Types.{Config, ManagementRequest}
use cpa_access_manager.Plugin.Update.{
  Machine, env_value, update_log_path, discover_compose_dir, docker_updater_command,
  is_docker_db_path,
}
use cpa_access_manager.Plugin.Management.Types.{
  updated, problem, ManagementResponse, Outside, json_management, bad_request, not_allowed,
}
use cpa_access_manager.Plugin.Management.Responses.{is_method, to_upper, decode_json}

service_of : Text → Text
service_of asked = if is_empty asked then codes "cli-proxy-api" else asked

launched : Machine → Text → Text → Text → Text → Text → ManagementResponse
launched w dir service log_path command target =
    if w.run_shell dir log_path command
    then json_management 202 (updated dir log_path service target)
    else json_management 502 problem

in_dir : Machine → Text → Text → Text → Option Text → ManagementResponse
unfolding launched docker_updater_command
in_dir w service log_path target none = json_management 502 problem
in_dir w service log_path target (some dir) =
    launched w dir service log_path (docker_updater_command w dir service log_path) target

-- scheduleCPAUpdate
unfoldable pub schedule_cpa_update : Machine → Config → Text → ManagementResponse
unfolding launched in_dir service_of env_value update_log_path discover_compose_dir
schedule_cpa_update w cfg latest =
    let command = trim_space (env_value w (codes "CPA_TOOLKIT_DOCKER_UPDATE_COMMAND")) in
    let service = service_of (trim_space (env_value w (codes "CPA_TOOLKIT_DOCKER_SERVICE"))) in
    let log_path = update_log_path w cfg.db_path in
    if is_empty command
    then in_dir w service log_path (trim_space latest) (discover_compose_dir w cfg.db_path)
    else launched w [] service log_path command (trim_space latest)

with_version : Machine → Config → Option Text → ManagementResponse
unfolding schedule_cpa_update
with_version w cfg none = bad_request
with_version w cfg (some latest) = schedule_cpa_update w cfg latest

-- handleCPAUpdate
unfoldable pub handle_cpa_update :
    Machine → Outside → Config → ManagementRequest → ManagementResponse
unfolding with_version decode_json is_docker_db_path to_upper
handle_cpa_update w o cfg req =
    if is_method (codes "POST") req.method
    then (if is_docker_db_path cfg.db_path
        then with_version w cfg (
            if is_empty (trim_space req.body)
            then some []
            else decode_json o.decode_version req.body)
        else bad_request)
    else not_allowed
