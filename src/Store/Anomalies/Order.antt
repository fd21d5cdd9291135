-- ===== src/Store/Anomalies/Order.antt =====
-- What BaselineAnomalies lets through, and in which order.
use mathlib.Core.List.{Permᴰ, append-nil}
use mathlib.Core.List.Permᴰ
use server_space_manager_ai.Prelude.{
  select, map, not, ◌&&◌, ap, ℕ, ◌<◌, ◌≡◌, refl, inl, inr, Bool, false, String, List, [], ◌∷◌, ◌++◌,
  arith, All, All-map, All-both, take, Bool-cases, take_all,
}
use server_space_manager_ai.Prelude.Int.{ℤ, ltb_ℤ}
use server_space_manager_ai.Prelude.Floats.{Floats}
use server_space_manager_ai.Prelude.Sorting.{
  IsWeakOrder, IsSortedBy, IsTop, All-perm, cut_sorted-IsTop,
}
use server_space_manager_ai.Store.{Db}
use server_space_manager_ai.Store.Anomalies.{
  AnomalyRow, with_ratio, keep_rows, exceeds, sift, sort_loop, reverse_onto, cut_rows, query_rows,
  baseline_anomalies,
}

module _ (F : Floats) where
  open F use {Float, lt}

  -- A row that passes both thresholds.
  abbrev pub passes : Float → ℤ → AnomalyRow F → Bool
  passes min_ratio min_delta r = not (ltb_ℤ r.last24h_delta min_delta) && not (lt r.ratio min_ratio)

  -- The rows of the query, each with its ratio, that pass.
  abbrev pub passing : Float → ℤ → List (AnomalyRow F) → List (AnomalyRow F)
  passing min_ratio min_delta rs = select (passes min_ratio min_delta) (map (with_ratio F) rs)

  delta-with_ratio : (r : AnomalyRow F) → (with_ratio F r).last24h_delta ≡ r.last24h_delta
  unfolding with_ratio
  delta-with_ratio r = ground arith

  cut_rows-take :
      (limit : ℕ) (out : List (AnomalyRow F)) → 0 < limit → cut_rows F limit out ≡ take limit out
  unfolding cut_rows
  cut_rows-take limit out p = ground (arith, take_all limit out)

  keep_rows-passing :
      (min_ratio : Float) (min_delta : ℤ) (rs : List (AnomalyRow F))
      → keep_rows F min_ratio min_delta rs ≡ passing min_ratio min_delta rs
  unfolding keep_rows
  keep_rows-passing min_ratio min_delta [] = refl
  keep_rows-passing min_ratio min_delta (r ∷ rs) =
      let rest = keep_rows-passing min_ratio min_delta rs in
      rw (delta-with_ratio r) (elim (Bool-cases (ltb_ℤ r.last24h_delta min_delta)) [
        | inl small ↦ rw small rest
        | inr big ↦ rw big (elim (Bool-cases (lt (with_ratio F r).ratio min_ratio)) [
          | inl slow ↦ rw slow rest
          | inr fast ↦ rw fast (ap (◌∷◌ (with_ratio F r)) rest)
        ])
      ])

  sift-perm :
      (x : AnomalyRow F) (prefix : List (AnomalyRow F)) → Permᴰ (sift F x prefix) (x ∷ prefix)
  unfolding sift
  sift-perm x [] = Permᴰ.refl _
  sift-perm x (y ∷ prefix) = elim (Bool-cases (exceeds F x y)) [
    | inl h ↦ rw h (Permᴰ.trans (Permᴰ.cons refl (sift-perm x prefix)) (Permᴰ.swap refl refl))
    | inr h ↦ rw h (Permᴰ.refl _)
  ]

  sort_loop-perm :
      (prefix out : List (AnomalyRow F)) → Permᴰ (sort_loop F prefix out) (out ++ prefix)
  unfolding sort_loop
  sort_loop-perm prefix [] = Permᴰ.refl prefix
  sort_loop-perm prefix (x ∷ out) =
      Permᴰ.trans (sort_loop-perm (sift F x prefix) out)
        (Permᴰ.trans (Permᴰ.append_left out (sift-perm x prefix)) (Permᴰ.middle x out prefix))

  reverse_onto-perm :
      (prefix out : List (AnomalyRow F)) → Permᴰ (reverse_onto F prefix out) (prefix ++ out)
  unfolding reverse_onto
  reverse_onto-perm [] out = Permᴰ.refl out
  reverse_onto-perm (x ∷ prefix) out =
      Permᴰ.trans (reverse_onto-perm prefix (x ∷ out)) (Permᴰ.middle x prefix out)

  baseline_anomalies-take :
      (kind : String) (days : ℕ) (min_ratio : Float) (min_delta : ℤ) (limit now : ℕ) (db : Db)
      → 0 < limit
      → baseline_anomalies F kind days min_ratio min_delta limit now db
        ≡ take limit (
            reverse_onto F
              (sort_loop F []
                (keep_rows F min_ratio min_delta (query_rows F kind days now db.samples)))
              [])
  unfolding baseline_anomalies
  baseline_anomalies-take kind days min_ratio min_delta limit now db p =
      unfold cut_rows in cut_rows-take limit _ p

  module _ (order : IsWeakOrder (exceeds F)) where
    -- from its end, a sorted slice rises
    abbrev rises : AnomalyRow F → AnomalyRow F → Bool
    rises a b = exceeds F b a

    sift-rises :
        (x : AnomalyRow F) (prefix : List (AnomalyRow F))
        → IsSortedBy rises prefix
        → IsSortedBy rises (sift F x prefix)
    unfolding sift
    sift-rises x [] s = (tt, tt)
    sift-rises x (y ∷ prefix) s = elim (Bool-cases (exceeds F x y)) [
      | inl h ↦ rw h (
        All-perm (λ z. rises z y ≡ false) (Permᴰ.symm (sift-perm x prefix)) (order.asym x y h, s.0),
        sift-rises x prefix s.1,
      )
      | inr h ↦ rw h ((h, All-map (λ z k. order.trans x y z h k) prefix s.0), s)
    ]

    sort_loop-rises :
        (prefix out : List (AnomalyRow F))
        → IsSortedBy rises prefix
        → IsSortedBy rises (sort_loop F prefix out)
    unfolding sort_loop
    sort_loop-rises prefix [] s = s
    sort_loop-rises prefix (x ∷ out) s =
        sort_loop-rises (sift F x prefix) out (sift-rises x prefix s)

    reverse_onto-IsSortedBy :
        (prefix out : List (AnomalyRow F))
        → IsSortedBy rises prefix
        → IsSortedBy (exceeds F) out
        → All (λ x. All (λ z. exceeds F z x ≡ false) out) prefix
        → IsSortedBy (exceeds F) (reverse_onto F prefix out)
    unfolding reverse_onto
    reverse_onto-IsSortedBy [] out p s c = s
    reverse_onto-IsSortedBy (x ∷ prefix) out p s c =
        reverse_onto-IsSortedBy prefix (x ∷ out) p.1 (c.0, s)
          (All-both (λ y. exceeds F x y ≡ false) (λ y. All (λ z. exceeds F z y ≡ false) out) prefix
            p.0 c.1)

    none_before : (prefix : List (AnomalyRow F)) → All (λ x. Unit {0}) prefix
    none_before [] = tt
    none_before (x ∷ prefix) = (tt, none_before prefix)

    -- The loops of BaselineAnomalies sort: its rows by falling ratio.
    sort-IsSortedBy :
        (rows : List (AnomalyRow F))
        → IsSortedBy (exceeds F) (reverse_onto F (sort_loop F [] rows) [])
    sort-IsSortedBy rows =
        reverse_onto-IsSortedBy (sort_loop F [] rows) [] (sort_loop-rises [] rows tt) tt
          (none_before (sort_loop F [] rows))

    sort-perm : (rows : List (AnomalyRow F)) → Permᴰ (reverse_onto F (sort_loop F [] rows) []) rows
    sort-perm rows =
        Permᴰ.trans (reverse_onto-perm (sort_loop F [] rows) [])
          (rw append-nil (rw append-nil at (sort_loop-perm [] rows)))

    -- With a positive limit and an order of the ratios without NaN, BaselineAnomalies returns the
    -- rows of the highest ratio, by falling ratio, as many as the limit or all if there are fewer,
    -- of exactly those rows of its query, each with its ratio, that pass both thresholds.
    pub baseline_anomalies-IsTop :
        (kind : String) (days : ℕ) (min_ratio : Float) (min_delta : ℤ) (limit now : ℕ) (db : Db)
        → 0 < limit
        → IsTop
            (exceeds F)
            limit
            (passing min_ratio min_delta (query_rows F kind days now db.samples))
            (baseline_anomalies F kind days min_ratio min_delta limit now db)
    baseline_anomalies-IsTop kind days min_ratio min_delta limit now db p =
        let rows = query_rows F kind days now db.samples in
        let kept = keep_rows F min_ratio min_delta rows in
        let out = reverse_onto F (sort_loop F [] kept) [] in
        let e : baseline_anomalies F kind days min_ratio min_delta limit now db ≡ take limit out =
          baseline_anomalies-take kind days min_ratio min_delta limit now db p in
        let top =
          cut_sorted-IsTop (exceeds F) limit kept out (sort-perm kept) (sort-IsSortedBy kept) in
        rw (e, keep_rows-passing) (rw (keep_rows-passing min_ratio min_delta rows) at top)
