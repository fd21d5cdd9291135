-- ===== src/Api/Dashboard/Feed.antt =====
-- The findings that /api/findings answers.
use server_space_manager_ai.Prelude.{
  ℕ, ◌+◌, ◌-◌, ◌≤◌, ◌≡◌, refl, ap, Bool, true, false, not, String, Option, none, some, List, [],
  ◌∷◌, map, arith, leb, str_eq, length, length-map, length-take-le, select, take, Bool-cases, inl,
  inr, zero, suc,
}
use server_space_manager_ai.Prelude.Int.{ℤ, pos, negsuc}
use server_space_manager_ai.Prelude.Sorting.{Sorter, IsTop}
use server_space_manager_ai.Store.{Finding, Db, recent_findings}
use server_space_manager_ai.Store.Findings.{newer, since_findings, recent_findings-IsTop}
use server_space_manager_ai.Api.Dashboard.{
  FindingItem, item_of, limit_of, pull_of, skipped, accepted_limit, collect, window, FindingsCall,
  handle_findings,
}

abbrev pub shown : String → Finding → Bool
shown source f = not (skipped source f)

collect_lem :
    (source : String) (limit room size : ℕ) (fs : List Finding)
    → limit ≡ size + suc room
    → collect source limit size fs ≡ map item_of (take (suc room) (select (shown source) fs))
unfolding collect
collect_lem source limit room size [] e = refl
collect_lem source limit zero size (f ∷ fs) e = elim (Bool-cases (skipped source f)) [
  | inl h ↦ rw h (collect_lem source limit zero size fs e)
  | inr h ↦ let full : leb limit (size + 1) ≡ true = ground arith in rw (h, full) refl
]
collect_lem source limit (suc room) size (f ∷ fs) e = elim (Bool-cases (skipped source f)) [
  | inl h ↦ rw h (collect_lem source limit (suc room) size fs e)
  | inr h ↦
      let more : leb limit (size + 1) ≡ false = ground arith in
      rw (h, more)
        (ap (◌∷◌ (item_of f)) (collect_lem source limit room (size + 1) fs (omega arith)))
]

accepted_limit-bounds : (n : Option ℤ) → (1 ≤ accepted_limit n) × (accepted_limit n ≤ 200)
accepted_limit-bounds none = (omega arith, omega arith)
accepted_limit-bounds (some (pos n)) = (ground arith, ground arith)
accepted_limit-bounds (some (negsuc n)) = (omega arith, omega arith)

limit_of_bounds :
    (atoi : String → Option ℤ) (v : String) → (1 ≤ limit_of atoi v) × (limit_of atoi v ≤ 200)
unfolding limit_of
limit_of_bounds atoi v = elim (Bool-cases (str_eq v "")) [
  | inl h ↦ rw h (omega arith, omega arith)
  | inr h ↦ rw h (accepted_limit-bounds (atoi v))
]

collect_all :
    (source : String) (limit : ℕ) (fs : List Finding)
    → 1 ≤ limit
    → collect source limit 0 fs ≡ map item_of (take limit (select (shown source) fs))
collect_all source zero fs h = ground arith
collect_all source (suc room) fs h = collect_lem source (suc room) room 0 fs (omega arith)

-- What is answered: of the `pulled` newest findings of the last 7 days, those of the source asked
-- for, cut to the limit.
pub record IsFeed (db : Db) (call : FindingsCall) (limit : ℕ) (items : List FindingItem)
    : Type 0 where
  pub pulled : List Finding
  pub newest :
      IsTop newer (pull_of call.source limit) (since_findings (call.now - window) db) pulled
  pub items_of : items ≡ map item_of (take limit (select (shown call.source) pulled))
  pub bound : length items ≤ limit
  pub at_most : limit ≤ 200

abbrev pub IsAnswer : Db → FindingsCall → ℕ → Option (List FindingItem) → Type 0
IsAnswer db call limit none = ⊥
IsAnswer db call limit (some items) = IsFeed db call limit items

-- When the store can be read, /api/findings takes the newest findings of the last 7 days, as many
-- as the limit (four times that, and at most 200, if a source is asked for), newest first, and
-- answers those of the source asked for, cut to the limit, which is at most 200.
pub handle_findings-IsFeed :
    (sorter : Sorter) (atoi : String → Option ℤ) (db : Db) (call : FindingsCall)
    → call.readable ≡ true
    → IsAnswer db call (limit_of atoi call.limit) (handle_findings sorter atoi (some db) call)
unfolding handle_findings
handle_findings-IsFeed sorter atoi db call h =
    let limit = limit_of atoi call.limit in
    let rows = recent_findings sorter (call.now - window) (pull_of call.source limit) db in
    let fair = limit_of_bounds atoi call.limit in
    let e = collect_all call.source limit rows fair.0 in
    rw h record {
      pulled = rows;
      newest = recent_findings-IsTop sorter (call.now - window) (pull_of call.source limit) db;
      items_of = e;
      bound =
          rw (e, length-map item_of (take limit (select (shown call.source) rows)))
            (length-take-le limit (select (shown call.source) rows));
      at_most = fair.1;
    }
