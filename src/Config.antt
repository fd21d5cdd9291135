-- ===== src/Config.antt =====
-- internal/config/config.go: Load. The file with its YAML, the environment and the parser of cron
-- expressions are arguments.
pub mod Ready
use server_space_manager_ai.Prelude.{
  String, Bool, true, false, ◌&&◌, ◌||◌, Option, none, some, List, str_eq, if◌then◌else◌,
}
use server_space_manager_ai.Prelude.Int.{ℤ, pos, leb_ℤ}
use server_space_manager_ai.Prelude.Floats.{Floats}

pub record SchedulesCfg : Type 0 where
  pub scan : String
  pub ai_review : String
  pub digest : String

pub record TelegramCfg : Type 0 where
  pub enabled : Bool
  pub bot_token : String
  pub chat_id : String
  -- `none` where the file does not set it
  pub scan_reports : Option Bool

pub record AlertsCfg (F : Floats) : Type 0 where
  pub fs_warn_pct : F.Float
  pub fs_crit_pct : F.Float
  pub big_item_mb : ℤ
  pub growth_pct : F.Float

pub record DockerCfg : Type 0 where
  pub enabled : Bool
  pub host : String
  pub track_volumes : Bool
  pub track_images : Bool
  pub track_logs : Bool
  pub track_bind_mounts : Bool

pub record PathCfg : Type 0 where
  pub path : String
  pub max_depth : ℤ
  pub alert_growth_pct : ℤ

pub record LlmCfg : Type 0 where
  pub enabled : Bool
  pub base_url : String
  pub model : String
  pub api_key : String
  pub max_tokens : ℤ
  pub timeout_seconds : ℤ

pub record HttpCfg : Type 0 where
  pub listen : String
  pub password : String

pub record Config (F : Floats) : Type 0 where
  pub schedules : SchedulesCfg
  pub retention_days : ℤ
  pub docker : DockerCfg
  pub host_paths : List PathCfg
  pub filesystems : List String
  pub ignore : List String
  pub llm : LlmCfg
  pub http : HttpCfg
  pub telegram : TelegramCfg
  pub alerts : AlertsCfg F
  pub allow_actions : Bool

-- `expr == "" || p.Parse(expr) succeeds`
abbrev pub is_schedule : (String → Bool) → String → Bool
is_schedule parses expr = if str_eq expr "" then true else parses expr

-- Validate: whether it returns no error
unfoldable pub validate : (String → Bool) → SchedulesCfg → Bool
validate parses s =
    is_schedule parses s.scan && (is_schedule parses s.ai_review && is_schedule parses s.digest)

-- ScanReportsEnabled
unfoldable pub scan_reports_enabled : TelegramCfg → Bool
scan_reports_enabled t = elim t.scan_reports [ none ↦ true | some b ↦ b ]

-- `if v := os.Getenv(…); v != "" { field = v }`
abbrev pub or_env : String → String → String
or_env v field = if str_eq v "" then field else v

abbrev pub is_true : String → Bool
is_true v = str_eq v "true" || str_eq v "1"

abbrev pub is_zero : ℤ → Bool
is_zero a = leb_ℤ a (pos 0) && leb_ℤ (pos 0) a

pub data LoadError : Type 0 where
  unreadable bad_schedule : LoadError

pub data Loaded (F : Floats) : Type 0 where
  fails : LoadError → Loaded F
  loads : Config F → Loaded F

module _ (F : Floats) where
  -- applyEnvOverrides
  unfoldable pub apply_env_overrides : (String → String) → Config F → Config F
  apply_env_overrides env c = record c {
    http = record c.http { password = or_env (env "SSM_HTTP_PASSWORD") c.http.password };
    llm = record c.llm {
      base_url = or_env (env "SSM_LLM_BASE_URL") c.llm.base_url;
      model = or_env (env "SSM_LLM_MODEL") c.llm.model;
      api_key = or_env (env "SSM_LLM_API_KEY") c.llm.api_key;
    };
    telegram = record c.telegram {
      enabled = if is_true (env "SSM_TELEGRAM_ENABLED") then true else c.telegram.enabled;
      bot_token = or_env (env "SSM_TELEGRAM_BOT_TOKEN") c.telegram.bot_token;
      chat_id = or_env (env "SSM_TELEGRAM_CHAT_ID") c.telegram.chat_id;
      scan_reports =
          if str_eq (env "SSM_TELEGRAM_SCAN_REPORTS") ""
          then c.telegram.scan_reports
          else some (is_true (env "SSM_TELEGRAM_SCAN_REPORTS"));
    };
  }

  -- the default of the scan's schedule
  unfoldable pub with_schedule : Config F → Config F
  with_schedule c = record c {
    schedules = record c.schedules {
      scan = if str_eq c.schedules.scan "" then "@every 1h" else c.schedules.scan;
    };
  }

  -- the defaults that follow the check of the schedules
  unfoldable pub with_defaults : Config F → Config F
  with_defaults c = record c {
    retention_days = if is_zero c.retention_days then pos 90 else c.retention_days;
    http = record c.http { listen = if str_eq c.http.listen "" then ":8080" else c.http.listen };
  }

  unfoldable pub load_parsed : (String → Bool) → (String → String) → Config F → Loaded F
  unfolding apply_env_overrides with_schedule with_defaults validate
  load_parsed parses env c =
      if validate parses (with_schedule c).schedules
      then loads (apply_env_overrides env (with_defaults (with_schedule c)))
      else fails bad_schedule

  -- Load; `none` is a file that cannot be read or parsed
  unfoldable pub load : (String → Bool) → (String → String) → Option (Config F) → Loaded F
  unfolding load_parsed
  load parses env none = fails unreadable
  load parses env (some c) = load_parsed parses env c
