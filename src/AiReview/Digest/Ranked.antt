-- ===== src/AiReview/Digest/Ranked.antt =====
-- Which growers a digest is about, and when it is sent.
use server_space_manager_ai.Prelude.{
  ◌-◌, ◌≡◌, refl, sym, ap, ap₂, true, false, String, List, [], ◌∷◌, ◌++◌, arith, map, select,
  length, ltb, take, take_all, All, All-append, All-take, is_empty, if◌then◌else◌, Bool-cases, inl,
  inr,
}
use mathlib.Core.List.Permᴰ
use server_space_manager_ai.Prelude.Int.{pos, ltb_ℤ, leb_ℤ}
use server_space_manager_ai.Prelude.Floats.{Floats}
use server_space_manager_ai.Prelude.Sorting.{
  Sorter, IsTop, take_sort-IsTop, by_desc-IsWeakOrder, All-perm,
}
use server_space_manager_ai.Store.{Db}
use server_space_manager_ai.Store.Anomalies.{day}
use server_space_manager_ai.Store.Growth.{GrowthRow, growth_since}
use server_space_manager_ai.AiReview.{review_kinds}
use server_space_manager_ai.AiReview.Digest.{
  DigestTexts, Grower, grower_of, grows_more, growers_of, DigestCalls, gather_growers, at_most_12,
  shown_growers, Digested, digested, digest_system, digest_fs, digest_prompt, deliver,
  deliver_answer, run_digest,
}

abbrev pub IsGrowing : Grower → Type 0
IsGrowing g = ltb_ℤ (pos 0) g.delta_bytes ≡ true

growers_of-IsGrowing : (kind : String) (rs : List GrowthRow) → All IsGrowing (growers_of kind rs)
unfolding growers_of
growers_of-IsGrowing kind [] = tt
growers_of-IsGrowing kind (r ∷ rs) = elim (Bool-cases (leb_ℤ r.delta_bytes (pos 0))) [
  | inl h ↦ rw h (growers_of-IsGrowing kind rs)
  | inr h ↦ rw h ((ground (arith, h), growers_of-IsGrowing kind rs))
]

gather_growers-IsGrowing :
    (sorter : Sorter) (calls : DigestCalls) (db : Db) (ks : List String)
    → All IsGrowing (gather_growers sorter calls db ks)
unfolding gather_growers
gather_growers-IsGrowing sorter calls db [] = tt
gather_growers-IsGrowing sorter calls db (k ∷ ks) =
    let rest = gather_growers-IsGrowing sorter calls db ks in
    elim (Bool-cases (calls.growth_reads k)) [
      | inl h ↦
          let rows = growth_since sorter k (calls.now - day) 10 db in
          rw h (All-append IsGrowing _ _ (growers_of-IsGrowing k rows) rest)
      | inr h ↦ rw h rest
    ]

-- The rows of a kind that have grown.
abbrev pub grown : String → List GrowthRow → List Grower
grown kind rs = map (grower_of kind) (select (λ r. ltb_ℤ (pos 0) r.delta_bytes) rs)

-- What has grown among the ten largest growths of the last day of each kind whose query succeeds.
abbrev pub candidates : Sorter → DigestCalls → Db → List String → List Grower
candidates sorter calls db [] = []
candidates sorter calls db (k ∷ ks) =
    (if calls.growth_reads k then grown k (growth_since sorter k (calls.now - day) 10 db) else [])
    ++ candidates sorter calls db ks

growers_of-grown : (kind : String) (rs : List GrowthRow) → growers_of kind rs ≡ grown kind rs
unfolding growers_of
growers_of-grown kind [] = refl
growers_of-grown kind (r ∷ rs) = elim (Bool-cases (leb_ℤ r.delta_bytes (pos 0))) [
  | inl h ↦
      let no : ltb_ℤ (pos 0) r.delta_bytes ≡ false = ground (arith, h) in
      rw (h, no) (growers_of-grown kind rs)
  | inr h ↦
      let grew : ltb_ℤ (pos 0) r.delta_bytes ≡ true = ground (arith, h) in
      rw (h, grew) (ap (◌∷◌ (grower_of kind r)) (growers_of-grown kind rs))
]

gather_growers-candidates :
    (sorter : Sorter) (calls : DigestCalls) (db : Db) (ks : List String)
    → gather_growers sorter calls db ks ≡ candidates sorter calls db ks
unfolding gather_growers
gather_growers-candidates sorter calls db [] = refl
gather_growers-candidates sorter calls db (k ∷ ks) =
    let rest = gather_growers-candidates sorter calls db ks in
    let rows = growth_since sorter k (calls.now - day) 10 db in
    elim (Bool-cases (calls.growth_reads k)) [
      | inl h ↦ rw h (ap₂ ◌++◌ (growers_of-grown k rows) rest)
      | inr h ↦ rw h rest
    ]

at_most_12-take : (gs : List Grower) → at_most_12 gs ≡ take 12 gs
at_most_12-take gs = elim (Bool-cases (ltb 12 (length gs))) [
  | inl h ↦ rw h refl
  | inr h ↦ rw h (sym (take_all 12 gs (ground (arith, h))))
]

shown_growers-IsTop :
    (sorter : Sorter) (calls : DigestCalls) (db : Db)
    → IsTop grows_more 12 (candidates sorter calls db review_kinds) (shown_growers sorter calls db)
unfolding shown_growers
shown_growers-IsTop sorter calls db =
    rw (at_most_12-take, gather_growers-candidates sorter calls db review_kinds)
      (take_sort-IsTop grows_more 12 (candidates sorter calls db review_kinds) sorter
        (by_desc-IsWeakOrder (λ g. g.delta_bytes)))

shown_growers-IsGrowing :
    (sorter : Sorter) (calls : DigestCalls) (db : Db)
    → All IsGrowing (shown_growers sorter calls db)
unfolding shown_growers
shown_growers-IsGrowing sorter calls db =
    let all = gather_growers sorter calls db review_kinds in
    rw at_most_12-take (
      All-take IsGrowing 12 _ (
        All-perm IsGrowing (Permᴰ.symm (sorter.sort-perm grows_more all))
          (gather_growers-IsGrowing sorter calls db review_kinds)))

module _ (F : Floats) (T : DigestTexts F) (sorter : Sorter) (calls : DigestCalls) (db : Db) where
  -- The outcome of a digest, by the growers `shown` to the model.
  abbrev pub outcome : List Grower → Digested
  outcome shown =
      let fss = digest_fs F T sorter calls db in
      if is_empty shown
      then if is_empty fss
        then record { result = digested ""; sent = [] }
        else deliver F T calls.now fss ""
      else deliver_answer F T calls.now fss (calls.chat digest_system (digest_prompt F T shown))

  pub record IsRanked (result : Digested) : Type 0 where
    pub shown : List Grower
    pub top : IsTop grows_more 12 (candidates sorter calls db review_kinds) shown
    pub growing : All IsGrowing shown
    pub outcome_of : result ≡ outcome shown

  -- With a model configured: of each kind whose query succeeds, take the rows that grew among the at
  -- most ten that GrowthSince returns for the last day; a digest is about the 12 largest growths of
  -- these, the largest first, or all if there are fewer, all of them above zero. With none of them
  -- the model is not asked, and without filesystems either nothing is sent; else one message is sent
  -- with the answer to a prompt of just these, unless the model fails.
  pub run_digest-IsRanked : calls.configured ≡ true → IsRanked (run_digest F T sorter calls db)
  unfolding run_digest
  run_digest-IsRanked configured = record {
    shown = shown_growers sorter calls db;
    top = shown_growers-IsTop sorter calls db;
    growing = shown_growers-IsGrowing sorter calls db;
    outcome_of = rw configured (ground arith);
  }
