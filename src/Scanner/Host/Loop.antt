-- ===== src/Scanner/Host/Loop.antt =====
-- Whether the loop over a file's folders ends.
use server_space_manager_ai.Prelude.{
  ℕ, zero, suc, ◌≤◌, ◌≡◌, ◌≢◌, refl, Bool, true, false, Option, none, some, String, List, [], ◌∷◌,
  ◌++◌, arith, length, ltb, if◌then◌else◌,
}
use server_space_manager_ai.Prelude.Int.{ℤ}
use server_space_manager_ai.Scanner.Paths.{
  FilePath, rooted, relative, dir, separators, names_eq_refl,
}
use server_space_manager_ai.Scanner.Host.{
  Root, Sizes, root_depth, is_last, count_in, attribute, enough,
}

-- A folder that the walk from a configured path meets: any rooted one, and a relative one at or
-- below a configured path that is written clean.
pub data IsWalked : Root → FilePath → Type 0 where
  from_root : (r : Root) (ns : List String) → IsWalked r (rooted ns)
  below :
      (r : Root) (ds root : List String)
      → r.is_clean ≡ true
      → r.clean ≡ relative root
      → IsWalked r (relative (ds ++ root))

-- a round of the loop, in its cases
goes_on :
    {A : Type 0} (b c : Bool) (x y : A) (rest : Option A)
    → rest ≢ none
    → (if b then some x else if c then some y else rest) ≢ none
goes_on b c x y rest h e = ground (arith, h)

stops_there :
    {A : Type 0} (b c : Bool) (x y : A) (rest : Option A)
    → c ≡ true
    → (if b then some x else if c then some y else rest) ≢ none
stops_there b c x y rest h e = ground (arith, h)

slash_last : (r : Root) → is_last r (rooted []) ≡ true
slash_last r = ground arith

relative_last :
    (r : Root) (root : List String)
    → r.is_clean ≡ true
    → r.clean ≡ relative root
    → is_last r (relative root) ≡ true
relative_last r root c e = rw (c, e, names_eq_refl) refl

relative_goes : (r : Root) (ds : List String) → r.is_clean ≡ false → is_last r (relative ds) ≡ false
relative_goes r ds c = rw c refl

no_depth :
    (r : Root) (name : List String) → r.clean ≡ relative name → length name ≤ 1 → root_depth r ≡ 0
unfolding separators
no_depth r [] e s = rw e refl
no_depth r (n ∷ []) e s = rw e refl
no_depth r (n ∷ m ∷ ns) e s = absurd (omega arith)

next_round :
    {A : Type 0} (a b : ℕ) (c : Bool) (x y : A) (rest : Option A)
    → b ≡ 0
    → c ≡ false
    → rest ≡ none
    → (if ltb a b then some x else if c then some y else rest) ≡ none
next_round a b c x y rest d e f = ground (arith, e, f)

pub rooted_returns :
    (r : Root) (ns : List String) (n : ℤ) (sizes : Sizes)
    → attribute (suc (length ns)) r (rooted ns) n sizes ≢ none
unfolding attribute dir
rooted_returns r [] n sizes =
    stops_there _ _ sizes (count_in r (rooted []) n sizes) none (slash_last r)
rooted_returns r (m ∷ ns) n sizes =
    goes_on _ (is_last r (rooted (m ∷ ns))) sizes (count_in r (rooted (m ∷ ns)) n sizes) _
      (rooted_returns r ns n (count_in r (rooted (m ∷ ns)) n sizes))

relative_returns :
    (r : Root) (ds root : List String) (n : ℤ) (sizes : Sizes)
    → r.is_clean ≡ true
    → r.clean ≡ relative root
    → attribute (suc (length (ds ++ root))) r (relative (ds ++ root)) n sizes ≢ none
unfolding attribute dir
relative_returns r [] root n sizes c e =
    stops_there _ _ sizes (count_in r (relative root) n sizes) _ (relative_last r root c e)
relative_returns r (d ∷ ds) root n sizes c e =
    goes_on _ (is_last r (relative (d ∷ (ds ++ root)))) sizes
      (count_in r (relative (d ∷ (ds ++ root))) n sizes) _
      (relative_returns r ds root n (count_in r (relative (d ∷ (ds ++ root))) n sizes) c e)

-- The loop that attributes a file to its folders ends, within one round for each name of the path
-- and one more, from every rooted folder, and from every folder at or below a relative configured
-- path that is written clean.
pub attribute_returns :
    (r : Root) (q : FilePath) (n : ℤ) (sizes : Sizes)
    → IsWalked r q
    → attribute (enough q) r q n sizes ≢ none
attribute_returns r q n sizes (from_root _ ns) = rooted_returns r ns n sizes
attribute_returns r q n sizes (below _ ds root c e) = relative_returns r ds root n sizes c e

-- For a relative configured path of at most one name that is not written clean, the loop that
-- attributes a file to its folders does not end from any relative folder, whatever the number of
-- rounds.
pub attribute_stuck :
    (r : Root) (name : List String) (ds : List String) (n : ℤ) (fuel : ℕ) (sizes : Sizes)
    → r.is_clean ≡ false
    → r.clean ≡ relative name
    → length name ≤ 1
    → attribute fuel r (relative ds) n sizes ≡ none
unfolding attribute dir
attribute_stuck r name ds n zero sizes c e s = refl
attribute_stuck r name [] n (suc fuel) sizes c e s =
    next_round _ _ _ sizes (count_in r (relative []) n sizes) _ (no_depth r name e s)
      (relative_goes r [] c)
      (attribute_stuck r name [] n fuel (count_in r (relative []) n sizes) c e s)
attribute_stuck r name (d ∷ ds) n (suc fuel) sizes c e s =
    next_round _ _ _ sizes (count_in r (relative (d ∷ ds)) n sizes) _ (no_depth r name e s)
      (relative_goes r (d ∷ ds) c)
      (attribute_stuck r name ds n fuel (count_in r (relative (d ∷ ds)) n sizes) c e s)
