-- ===== src/Scanner/Docker/Address.antt =====
-- internal/scanner/docker.go: NewDocker, as the address that its requests go to.
use server_space_manager_ai.Prelude.{
  String, Option, none, some, cat, str_eq, starts_with, trim_prefix, ◌||◌, if◌then◌else◌,
}
use server_space_manager_ai.Config.{DockerCfg}

-- The base of the URLs, and the socket that is dialled instead of their host, if one is.
pub record Endpoint : Type 0 where
  pub base_url : String
  pub socket : Option String

abbrev or_socket : String → String
or_socket host = if str_eq host "" then "unix:///var/run/docker.sock" else host

-- the `switch`; `none` for a scheme that is not supported
unfoldable pub endpoint_of : String → Option Endpoint
endpoint_of host =
    if starts_with host "unix://"
    then some (record { base_url = "http://docker"; socket = some (trim_prefix host "unix://") })
    else if starts_with host "tcp://"
    then some (record { base_url = cat "http://" (trim_prefix host "tcp://"); socket = none })
    else if starts_with host "http://" || starts_with host "https://"
    then some (record { base_url = host; socket = none })
    else none

-- NewDocker
unfoldable pub new_docker : DockerCfg → Option Endpoint
unfolding endpoint_of
new_docker cfg = endpoint_of (or_socket cfg.host)
