-- ===== src/Tests/Config.antt =====
-- A minimal configuration file, loaded.
use server_space_manager_ai.Prelude.{true, false, none, some, []}
use server_space_manager_ai.Prelude.Int.{pos}
use server_space_manager_ai.Config.{Config, load}
use server_space_manager_ai.Config.Ready.{IsLoaded, load-IsLoaded}
use server_space_manager_ai.Tests.{whole_floats}

abbrev pub minimal : Config whole_floats
minimal = record {
  schedules = record { scan = ""; ai_review = ""; digest = "0 8 * * *" };
  retention_days = pos 0;
  docker = record {
    enabled = true;
    host = "";
    track_volumes = true;
    track_images = true;
    track_logs = true;
    track_bind_mounts = false;
  };
  host_paths = [];
  filesystems = [];
  ignore = [];
  llm = record {
    enabled = false;
    base_url = "";
    model = "";
    api_key = "";
    max_tokens = pos 0;
    timeout_seconds = pos 0;
  };
  http = record { listen = ""; password = "file" };
  telegram = record { enabled = true; bot_token = ""; chat_id = ""; scan_reports = none };
  alerts = record {
    fs_warn_pct = pos 80;
    fs_crit_pct = pos 90;
    big_item_mb = pos 5000;
    growth_pct = pos 25;
  };
  allow_actions = false;
}

-- The environment sets every variable to "false".
load-IsLoaded_example :
    IsLoaded whole_floats
      (λ e. true)
      (λ name. "false")
      minimal
      (load whole_floats (λ e. true) (λ name. "false") (some minimal))
load-IsLoaded_example = load-IsLoaded whole_floats (λ e. true) (λ name. "false") minimal
