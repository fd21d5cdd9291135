-- ===== src/Tests/AiReview.antt =====
-- A review at concrete values.
use server_space_manager_ai.Prelude.{
  refl, ◌≡◌, ◌++◌, ◌==◌, if◌then◌else◌, arith, none, String, true, some, [], ◌∷◌,
}
use server_space_manager_ai.Prelude.Insertion.{insertion_sorter}
use server_space_manager_ai.AiReview.{Calls, review_kinds, gather, allowlist, run_review}
use server_space_manager_ai.Prelude.Runes.{is_space}
use server_space_manager_ai.AiReview.Parse.{Verdict, parse_findings, json_fence, fence}
use server_space_manager_ai.AiReview.Parse.Fences.{IsBare, body, parse_findings_fenced}
use server_space_manager_ai.AiReview.Grounded.{IsReview, run_review-IsReview}
use server_space_manager_ai.Tests.{whole_floats, two_scans}
use server_space_manager_ai.Prelude.Int.{pos}
use server_space_manager_ai.Llm.{answers}
use server_space_manager_ai.AiReview.Digest.{DigestTexts, DigestCalls, run_digest}
use server_space_manager_ai.AiReview.Digest.Ranked.{IsRanked, run_digest-IsRanked}

abbrev verdict_on : String → String → Verdict
verdict_on key severity = record {
  key = key;
  kind = "volume";
  severity = severity;
  reason = "it grows";
}

-- A model that names a volume it was shown, with a grade of its own, and one it was not.
abbrev inventive : Calls whole_floats
inventive = record {
  configured = true;
  lookback_days = 7;
  now = 604800000000500;
  ended = 604800000000900;
  growth_reads = λ kind. true;
  anomalies_read = λ kind. true;
  texts = record {
    count = λ n. "7";
    quoted = λ s. s;
    size = λ h. "1 B";
    tenth = λ x. "1.0";
    truncate = λ x. x;
  };
  chat = λ system prompt. answers "```json\n[…]\n```";
  decode_array = λ t. some (verdict_on "data" "severe" ∷ verdict_on "invented" "crit" ∷ []);
  decode_object = λ t. none;
  writes = record { begins = true; prepares = true; executes = λ f. true; commits = true };
}

run_review-IsReview_example :
    let shown = gather whole_floats insertion_sorter inventive two_scans review_kinds in
    IsReview whole_floats
      (allowlist whole_floats shown.0 shown.1)
      two_scans
      604800000000900
      (run_review whole_floats insertion_sorter inventive two_scans)
run_review-IsReview_example = run_review-IsReview whole_floats insertion_sorter inventive two_scans

abbrev short_digest : DigestTexts whole_floats
short_digest = record {
  size = λ h. "1 B";
  whole = λ x. "50";
  hour = λ t. "now";
  decode_fs = λ e. some (pos 100, pos 40);
}

abbrev digest_calls : DigestCalls
digest_calls = record {
  configured = true;
  now = 86400000000500;
  growth_reads = λ kind. true;
  latest_reads = true;
  chat = λ system prompt. answers "all well";
}

run_digest-IsRanked_example :
    IsRanked whole_floats short_digest insertion_sorter digest_calls two_scans
      (run_digest whole_floats short_digest insertion_sorter digest_calls two_scans)
run_digest-IsRanked_example =
    run_digest-IsRanked whole_floats short_digest insertion_sorter digest_calls two_scans refl

-- An empty array between fences, each on a line of its own.
brackets-IsBare : IsBare 91 93
unfolding is_space
brackets-IsBare = record {
  starts = refl;
  ends = refl;
  unticked = λ e. omega arith;
  unclosed = λ e. omega arith;
}

ten-IsSpace : is_space 10 ≡ true
unfolding is_space
ten-IsSpace = refl

parse_findings_fenced_example :
    (parse_findings
        (λ t. some [])
        (λ t. none)
        ([]
          ++ ((json_fence ++ ((10 ∷ [] ++ (body 91 [] 93 brackets-IsBare ++ 10 ∷ [])) ++ fence))
              ++ 10 ∷ []))
      ≡ (if 91 == 91 then some [] else none))
    × (parse_findings (λ t. some []) (λ t. none) ([] ++ (body 91 [] 93 brackets-IsBare ++ 10 ∷ []))
        ≡ (if 91 == 91 then some [] else none))
parse_findings_fenced_example =
    parse_findings_fenced 91 [] 93 brackets-IsBare (λ t. some []) (λ t. none) [] (10 ∷ []) (10 ∷ [])
      (10 ∷ []) tt (ten-IsSpace, tt) (ten-IsSpace, tt) (ten-IsSpace, tt)
