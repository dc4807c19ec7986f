-- ===== src/Plugin/Update.antt =====
-- The update of the service (internal/plugin/cpa_update.go): the command that is handed to the shell.
-- path.Clean, path.Dir and path.Join are taken from the package path.
pub mod Quote
use cpa_access_manager.Base.{
  ℕ, Bool, true, false, not, List, [], ◌∷◌, ◌++◌, Option, none, some, drop, length, if◌then◌else◌,
  ◌==◌,
}
use cpa_access_manager.Base.Text.{Text, codes, is_empty, trim_space, has_prefix, text_eq}
use cpa_access_manager.Access.Normalize.{has}

-- The functions of path and path/filepath (the same on Linux), the environment and the file system.
pub record Machine : Type 0 where
  pub clean : Text → Text
  pub dir : Text → Text
  pub join : Text → Text → Text
  pub temp_dir : Text
  -- os.LookupEnv
  pub lookup_env : Text → Option Text
  -- os.Getwd
  pub getwd : Option Text
  -- os.Stat succeeds
  pub exists : Text → Bool
  -- the digits of time.Now().Unix()
  pub unix_time : Text
  -- runDetachedShell succeeds: the directory, the log and the command
  pub run_shell : Text → Text → Text → Bool

-- shellQuote, without its outer quotes
unfoldable pub quoted : Text → Text
quoted [] = []
quoted (c ∷ v) =
    let rest = quoted v in
    if c == b'\'' then b'\'' ∷ b'"' ∷ b'\'' ∷ b'"' ∷ b'\'' ∷ rest else c ∷ rest

-- shellQuote
unfoldable pub shell_quote : Text → Text
unfolding quoted
shell_quote v = b'\'' ∷ (quoted v ++ (b'\'' ∷ []))

-- isDockerDBPath
unfoldable pub is_docker_db_path : Text → Bool
is_docker_db_path db_path = has_prefix (trim_space db_path) (codes "/CLIProxyAPI/")

value_or_empty : Option Text → Text
value_or_empty none = []
value_or_empty (some v) = trim_space v

-- envValue
unfoldable pub env_value : Machine → Text → Text
unfolding value_or_empty
env_value w name = value_or_empty (w.lookup_env name)

-- updateLogPath
unfoldable pub update_log_path : Machine → Text → Text
update_log_path w db_path =
    let base = w.dir (trim_space db_path) in
    let root =
      if text_eq base (codes ".") then w.temp_dir else if is_empty base then w.temp_dir else base in
    w.join root (codes "cpa-toolkit-cpa-update.log")

-- hostPathForDockerComposeDir
unfoldable pub host_path : Machine → Text → Text → Text
host_path w compose_dir container_path =
    let cleaned = w.clean (trim_space container_path) in
    let prefix = codes "/CLIProxyAPI/" in
    if has_prefix cleaned prefix
    then w.join (w.clean compose_dir) (drop (length prefix) cleaned)
    else cleaned

-- hasComposeFile
unfoldable pub has_compose_file : Machine → Text → Bool
has_compose_file w dir =
    if w.exists (w.join dir (codes "docker-compose.yml"))
    then true
    else w.exists (w.join dir (codes "compose.yml"))

-- The loop of discoverComposeDir.
unfoldable pub first_compose_dir : Machine → List Text → List Text → Option Text
unfolding has_compose_file has
first_compose_dir w seen [] = none
first_compose_dir w seen (c ∷ candidates) =
    let dir = w.clean (trim_space c) in
    let skip = first_compose_dir w seen candidates in
    let next = first_compose_dir w (dir ∷ seen) candidates in
    if is_empty dir
    then skip
    else if has seen dir
    then skip
    else if has_compose_file w dir
    then some dir
    else next

given : Text → List Text → List Text
given v rest = if is_empty (trim_space v) then rest else v ∷ rest

cwd_first : Option Text → List Text → List Text
unfolding given
cwd_first none rest = rest
cwd_first (some v) rest = given v rest

-- discoverComposeDir
unfoldable pub discover_compose_dir : Machine → Text → Option Text
unfolding first_compose_dir env_value given cwd_first
discover_compose_dir w db_path =
    let root = w.clean (w.join (w.dir (trim_space db_path)) (codes "..")) in
    first_compose_dir w [] (
      given (env_value w (codes "CPA_TOOLKIT_DOCKER_COMPOSE_DIR"))
        (cwd_first w.getwd (root ∷ codes "/CLIProxyAPI" ∷ [])))

or_default : Text → Text → Text
or_default v d = if is_empty v then d else v

-- The command that `inner` is.
unfoldable pub inner_command : Text → Text → Text
unfolding shell_quote
inner_command service log_path =
    codes "docker compose pull "
    ++ (shell_quote service
        ++ (codes " >> "
            ++ (shell_quote log_path
                ++ (codes " 2>&1 && docker compose up -d --remove-orphans "
                    ++ (shell_quote service
                        ++ (codes " >> " ++ (shell_quote log_path ++ codes " 2>&1")))))))

-- dockerUpdaterCommand
unfoldable pub docker_updater_command : Machine → Text → Text → Text → Text
unfolding shell_quote inner_command host_path env_value or_default
docker_updater_command w compose_dir service log_path =
    let root = w.clean (trim_space compose_dir) in
    let image =
      or_default (trim_space (env_value w (codes "CPA_TOOLKIT_DOCKER_UPDATER_IMAGE")))
        (codes "docker:29-cli") in
    let log_dir = w.dir log_path in
    codes "docker run -d --rm --name "
    ++ (shell_quote (codes "cpa-toolkit-updater-" ++ w.unix_time)
        ++ (codes " -v /var/run/docker.sock:/var/run/docker.sock -v "
            ++ (shell_quote (root ++ (b':' ∷ (root ++ codes ":ro")))
                ++ (codes " -v "
                    ++ (shell_quote (host_path w root log_dir ++ (b':' ∷ log_dir))
                        ++ (codes " -w "
                            ++ (shell_quote root
                                ++ (b' '
                                    ∷ (shell_quote image
                                        ++ (codes " sh -lc "
                                            ++ shell_quote
                                                (inner_command service log_path)))))))))))

-- The script of runDetachedShell.
unfoldable pub launcher : Text → Text → Text
unfolding shell_quote
launcher log_path command =
    codes "nohup sh -lc "
    ++ (shell_quote command
        ++ (codes " >> " ++ (shell_quote log_path ++ codes " 2>&1 < /dev/null &")))
