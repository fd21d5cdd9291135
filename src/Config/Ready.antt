-- ===== src/Config/Ready.antt =====
-- What the rest of the program can rely on after Load.
use server_space_manager_ai.Prelude.{
  ◌≡◌, ◌≢◌, refl, String, Bool, true, false, ◌||◌, some, arith, str_eq, eq_iff, if◌then◌else◌,
  Bool-cases, inl, inr,
}
use server_space_manager_ai.Prelude.Int.{ℤ, pos}
use server_space_manager_ai.Prelude.Floats.{Floats}
use server_space_manager_ai.Config.{
  Config, validate, scan_reports_enabled, or_env, is_true, is_zero, Loaded, loads, fails,
  bad_schedule, apply_env_overrides, with_schedule, with_defaults, load_parsed, load,
}

or_default : (s d : String) → d ≢ "" → (if str_eq s "" then d else s) ≢ ""
or_default s d h e = ground (arith, eq_iff s "", h, e)

retention_default : (n : ℤ) → is_zero (if is_zero n then pos 90 else n) ≡ false
retention_default n = ground arith

module _ (F : Floats) (parses : String → Bool) (env : String → String) where
  -- A configuration that Load may return for the file's contents `c`.
  pub record IsReady (c d : Config F) : Type 0 where
    pub scans : d.schedules.scan ≢ ""
    pub schedules : validate parses d.schedules ≡ true
    pub retention : is_zero d.retention_days ≡ false
    pub listens : d.http.listen ≢ ""
    pub password : d.http.password ≡ or_env (env "SSM_HTTP_PASSWORD") c.http.password
    pub enabled : d.telegram.enabled ≡ c.telegram.enabled || is_true (env "SSM_TELEGRAM_ENABLED")
    pub reports : scan_reports_enabled d.telegram ≡ (
        if str_eq (env "SSM_TELEGRAM_SCAN_REPORTS") ""
        then scan_reports_enabled c.telegram
        else is_true (env "SSM_TELEGRAM_SCAN_REPORTS"))

  abbrev pub IsLoaded : Config F → Loaded F → Type 0
  IsLoaded c (fails e) =
      (e ≡ bad_schedule) × (validate parses (with_schedule F c).schedules ≡ false)
  IsLoaded c (loads d) = IsReady c d

  ready :
      (c : Config F)
      → validate parses (with_schedule F c).schedules ≡ true
      → IsReady c (apply_env_overrides F env (with_defaults F (with_schedule F c)))
  unfolding apply_env_overrides with_defaults with_schedule
  ready c valid = record {
    scans = or_default c.schedules.scan "@every 1h" (λ e. cc);
    schedules = valid;
    retention = retention_default c.retention_days;
    listens = or_default c.http.listen ":8080" (λ e. cc);
    password = refl;
    enabled = ground arith;
    reports = unfold scan_reports_enabled in ground arith;
  }

  -- Load fails for a file that it can read only if one of the three schedules, with the scan's
  -- default, does not parse; else the result has a schedule of scans, also where the file's is empty,
  -- schedules that parse or are empty, a retention other than zero and an address to listen at, the
  -- environment's password and choice of scan reports win over the file's, and Telegram is on if the
  -- file or the environment turns it on.
  pub load-IsLoaded : (c : Config F) → IsLoaded c (load F parses env (some c))
  unfolding load load_parsed
  load-IsLoaded c = elim (Bool-cases (validate parses (with_schedule F c).schedules)) [
    | inl h ↦ rw h (ready c h)
    | inr h ↦ rw h (refl, h)
  ]
