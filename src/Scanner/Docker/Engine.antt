-- ===== src/Scanner/Docker/Engine.antt =====
-- internal/scanner/docker.go: get, and the requests that Scan and logSize make. How a request ends, the
-- JSON decoder of each answer and url.PathEscape are arguments.
use server_space_manager_ai.Prelude.{
  ℕ, ◌≤◌, ◌<◌, ◌≡◌, refl, String, true, false, Option, none, some, List, [], cat, join, ◌∷◌, arith,
  leb, select, if◌then◌else◌,
}
use server_space_manager_ai.Store.{Sample}
use server_space_manager_ai.Config.{DockerCfg}
use server_space_manager_ai.Scanner.Docker.{Container, Volume, Image, Answers, Files, Marshal, scan}
use server_space_manager_ai.Scanner.Docker.Volumes.{is_volume, AreReported, scan_containers_lost}

-- How a request to the Engine ends.
pub data Reply : Type 0 where
  bad_url not_made unreachable : Reply
  responds : ℕ → String → Reply

pub data GetError : Type 0 where
  not_sent unanswered bad_json : GetError
  -- the path, the status and the body
  bad_status : String → ℕ → String → GetError

pub data Got (A : Type 0) : Type 0 where
  got : A → Got A
  get_failed : GetError → Got A

module _ {A : Type 0} where
  abbrev decoded : Option A → Got A
  decoded none = get_failed bad_json
  decoded (some a) = got a

  -- get, for a path
  unfoldable pub get : (String → Option A) → String → Reply → Got A
  get decode path bad_url = get_failed not_sent
  get decode path not_made = get_failed not_sent
  get decode path unreachable = get_failed unanswered
  get decode path (responds status body) =
      if leb 300 status then get_failed (bad_status path status body) else decoded (decode body)

  -- `if err := d.get(…); err == nil`
  abbrev pub answer_of : Got A → Option A
  answer_of (got a) = some a
  answer_of (get_failed e) = none

-- The Engine behind a base URL, and the decoders of its four answers.
pub record Engine : Type 0 where
  pub base_url : String
  pub request : String → Reply
  pub path_escape : String → String
  pub containers : String → Option (List Container)
  pub log_path : String → Option String
  pub volumes : String → Option (List Volume)
  pub images : String → Option (List Image)

abbrev pub containers_path : String
containers_path = "/containers/json?all=true"

module _ (d : Engine) where
  abbrev pub ask : {A : Type 0} → (String → Option A) → String → Option A
  ask decode path = answer_of (get decode path (d.request (cat d.base_url path)))

  -- what Scan and logSize ask for
  unfoldable pub answers : Answers
  unfolding get
  answers = record {
    containers = ask d.containers containers_path;
    log_path = λ id. ask d.log_path (join ("/containers/" ∷ d.path_escape id ∷ "/json" ∷ []));
    volumes = ask d.volumes "/volumes";
    images = ask d.images "/system/df";
  }

  -- Scan, with its requests
  unfoldable pub scan_engine : Files → Marshal → DockerCfg → ℕ → List Sample
  unfolding scan answers
  scan_engine files m cfg now = scan files m cfg answers now

  -- If the Engine or a proxy refuses the list of containers with a status of 300 or more and
  -- answers that of the volumes with a status below it and a body that decodes, and volumes are
  -- tracked, a scan reports every volume as an orphan, also those that are mounted.
  pub scan_engine_refused :
      (files : Files) (m : Marshal) (cfg : DockerCfg) (now status ok : ℕ) (why body : String)
      (vs : List Volume)
      → cfg.track_volumes ≡ true
      → d.request (cat d.base_url containers_path) ≡ responds status why
      → 300 ≤ status
      → d.request (cat d.base_url "/volumes") ≡ responds ok body
      → ok < 300
      → d.volumes body ≡ some vs
      → AreReported [] vs (select is_volume (scan_engine files m cfg now))
  unfolding scan_engine answers get
  scan_engine_refused files m cfg now status ok why body vs track c refused v accepted decodes =
      let high : leb 300 status ≡ true = ground (arith, refused) in
      let low : leb 300 ok ≡ false = ground (arith, accepted) in
      scan_containers_lost files m cfg answers now vs track (rw (c, high) refl)
        (rw (v, low, decodes) refl)
