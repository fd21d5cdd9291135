-- ===== src/AiReview/Digest.antt =====
-- internal/aireview/aireview.go: RunDigest. The printing of numbers, the JSON in `Extra` and what the
-- model answers are arguments.
pub mod Ranked
use server_space_manager_ai.Prelude.{
  ℕ, ◌-◌, String, Bool, true, false, not, ◌&&◌, Option, none, some, List, [], ◌∷◌, ◌++◌, map, cat,
  join, length, ltb, take, str_eq, is_empty, if◌then◌else◌,
}
use server_space_manager_ai.Prelude.Int.{ℤ, pos, ltb_ℤ, leb_ℤ, sub64, neg64}
use server_space_manager_ai.Prelude.Dict.{Dict, get}
use server_space_manager_ai.Prelude.Floats.{Floats}
use server_space_manager_ai.Prelude.Human.{Human, human}
use server_space_manager_ai.Prelude.Sorting.{Sorter, by_desc}
use server_space_manager_ai.Store.{Sample, Db, latest_scan}
use server_space_manager_ai.Store.Growth.{GrowthRow, growth_since}
use server_space_manager_ai.Store.Growth.Deltas.{deltas_of, delta_at}
use server_space_manager_ai.Store.Anomalies.{day}
use server_space_manager_ai.Alert.Rules.{Message}
use server_space_manager_ai.AiReview.{review_kinds}
use server_space_manager_ai.Llm.{Answer, fails, answers, ChatError}

-- What RunDigest takes from Go's library.
pub record DigestTexts (F : Floats) : Type 0 where
  pub size : Human → String
  pub whole : F.Float → String
  -- "2006-01-02T15"
  pub hour : ℕ → String
  pub decode_fs : String → Option (ℤ × ℤ)

-- fsLine
pub record FsLine : Type 0 where
  pub path : String
  pub used : ℤ
  pub avail : ℤ
  pub total : ℤ
  pub delta24h : ℤ

pub record Grower : Type 0 where
  pub kind : String
  pub label : String
  pub bytes : ℤ
  pub delta_bytes : ℤ

-- `growers[i].deltaBytes > growers[j].deltaBytes`
abbrev pub grows_more : Grower → Grower → Bool
grows_more = by_desc (λ g. g.delta_bytes)

abbrev pub grower_of : String → GrowthRow → Grower
grower_of kind r = record {
  kind = kind;
  label = r.label;
  bytes = r.bytes;
  delta_bytes = r.delta_bytes;
}

-- the loop over the rows of a kind
unfoldable pub growers_of : String → List GrowthRow → List Grower
growers_of kind [] = []
growers_of kind (r ∷ rs) =
    let rest = growers_of kind rs in
    if leb_ℤ r.delta_bytes (pos 0) then rest else grower_of kind r ∷ rest

-- What RunDigest calls: whether the model is configured, which queries succeed, and the model.
pub record DigestCalls : Type 0 where
  pub configured : Bool
  pub now : ℕ
  pub growth_reads : String → Bool
  pub latest_reads : Bool
  pub chat : String → String → Answer

-- the loop over the kinds
unfoldable pub gather_growers : Sorter → DigestCalls → Db → List String → List Grower
unfolding growers_of
gather_growers sorter calls db [] = []
gather_growers sorter calls db (k ∷ ks) =
    let rest = gather_growers sorter calls db ks in
    let rows = growth_since sorter k (calls.now - day) 10 db in
    if calls.growth_reads k then growers_of k rows ++ rest else rest

-- `if len(growers) > 12 { growers = growers[:12] }`
abbrev pub at_most_12 : List Grower → List Grower
at_most_12 gs = if ltb 12 (length gs) then take 12 gs else gs

-- the growers that the model is shown
unfoldable pub shown_growers : Sorter → DigestCalls → Db → List Grower
unfolding gather_growers
shown_growers sorter calls db =
    at_most_12 (sorter.sort grows_more (gather_growers sorter calls db review_kinds))

-- What RunDigest returns.
pub data Digest : Type 0 where
  not_configured : Digest
  chat_failed : ChatError → Digest
  digested : String → Digest

-- Its result, and what it handed to the notifier.
pub record Digested : Type 0 where
  pub result : Digest
  pub sent : List Message

abbrev pub digest_system : String
digest_system = "You are writing a concise ops digest. Be factual, no hype."

module _ (F : Floats) (T : DigestTexts F) where
  open F use {of_int, mul, div}

  abbrev size_text : ℤ → String
  size_text b = T.size (human b)

  -- signedHuman
  unfoldable pub signed_human : ℤ → String
  signed_human b =
      if ltb_ℤ (pos 0) b
      then cat "↑ +" (size_text b)
      else if ltb_ℤ b (pos 0)
      then cat "↓ -" (size_text (neg64 b))
      else "±0 B"

  abbrev fs_line : Dict ℤ → Sample → Option (ℤ × ℤ) → List FsLine
  fs_line deltas s none = []
  fs_line deltas s (some (total, avail)) =
      if ltb_ℤ (pos 0) total
      then record {
        path = s.label;
        used = sub64 total avail;
        avail = avail;
        total = total;
        delta24h = delta_at (get deltas s.key);
      }
        ∷ []
      else []

  -- the loop over the samples of the last scan
  unfoldable pub fs_lines : Dict ℤ → List Sample → List FsLine
  fs_lines deltas [] = []
  fs_lines deltas (s ∷ ss) =
      let rest = fs_lines deltas ss in
      if not (str_eq s.kind "fs") then rest else fs_line deltas s (T.decode_fs s.extra) ++ rest

  -- the filesystems of the digest
  unfoldable pub digest_fs : Sorter → DigestCalls → Db → List FsLine
  unfolding deltas_of fs_lines
  digest_fs sorter calls db =
      let rows = growth_since sorter "fs" (calls.now - day) 100 db in
      let deltas = if calls.growth_reads "fs" then deltas_of rows [] else [] in
      if calls.latest_reads then fs_lines deltas (latest_scan db).0 else []

  abbrev fs_text : FsLine → String
  fs_text f = join (
      "\n• `"
      ∷ f.path
      ∷ "` "
      ∷ T.whole (div (mul (of_int (pos 100)) (of_int f.used)) (of_int f.total))
      ∷ "% — used "
      ∷ size_text f.used
      ∷ " · free "
      ∷ size_text f.avail
      ∷ " · total "
      ∷ size_text f.total
      ∷ " · "
      ∷ signed_human f.delta24h
      ∷ "/24h"
      ∷ [])

  -- `header`
  unfoldable pub header_of : List FsLine → String
  unfolding signed_human
  header_of [] = ""
  header_of (f ∷ fs) = cat "*Disk:*" (cat (join (map fs_text (f ∷ fs))) "\n\n")

  abbrev grower_line : Grower → String
  grower_line g = join (
      "- ["
      ∷ g.kind
      ∷ "] "
      ∷ g.label
      ∷ " — now "
      ∷ size_text g.bytes
      ∷ " (+"
      ∷ size_text g.delta_bytes
      ∷ ")\n"
      ∷ [])

  -- the prompt
  unfoldable pub digest_prompt : List Grower → String
  digest_prompt gs = join (
      "Write a short ops digest (5-8 bullet points, plain text).\n"
      ∷ "Use the data below. Don't restate the disk overview.\n"
      ∷ "IMPORTANT: keep the bullets in the SAME ORDER as the list — biggest change first.\n\n"
      ∷ "## 24h top growers (already sorted by delta, biggest first)\n"
      ∷ join (map grower_line gs)
      ∷ "\nKeep it under 600 characters. No code fences."
      ∷ [])

  abbrev pub digest_message : ℕ → List FsLine → String → Message
  digest_message now fss answer = record {
    key = cat "ai-digest:" (T.hour now);
    text = cat "📊 *Disk digest*\n" (cat (header_of fss) answer);
  }

  -- the end of RunDigest, with the answer
  abbrev pub deliver : ℕ → List FsLine → String → Digested
  deliver now fss answer = record {
    result = digested answer;
    sent = digest_message now fss answer ∷ [];
  }

  abbrev pub deliver_answer : ℕ → List FsLine → Answer → Digested
  deliver_answer now fss (fails e) = record { result = chat_failed e; sent = [] }
  deliver_answer now fss (answers a) = deliver now fss a

  -- RunDigest
  unfoldable pub run_digest : Sorter → DigestCalls → Db → Digested
  unfolding digest_fs shown_growers header_of digest_prompt
  run_digest sorter calls db =
      let fss = digest_fs sorter calls db in
      let growers = shown_growers sorter calls db in
      if not calls.configured
      then record { result = not_configured; sent = [] }
      else if is_empty growers && is_empty fss
      then record { result = digested ""; sent = [] }
      else if is_empty growers
      then deliver calls.now fss ""
      else deliver_answer calls.now fss (calls.chat digest_system (digest_prompt growers))
