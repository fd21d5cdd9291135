-- ===== src/Api/TokenBucket/Rate.antt =====
-- The bucket's bounds, and the rate that it lets through.
use native.Mathlib.Nat.{div-eq-sub-div, div-eq_of_lt}
use server_space_manager_ai.Prelude.{
  ℕ, ◌+◌, ◌-◌, ◌*◌, ◌/◌, ◌≤◌, ◌<◌, ◌≡◌, true, List, [], ◌∷◌, arith, if◌then◌else◌, Bool, ltb, leb,
  ltb→lt, lt→ltb, ap, false, refl, Bool-cases, inl, inr,
}
use server_space_manager_ai.Api.TokenBucket.{
  TokenBucket, new_token_bucket, due, top_up, spend, take, granted,
}

pub record IsValid (b : TokenBucket) (now : ℕ) : Type 0 where
  pub within : b.tokens ≤ b.capacity
  pub past : b.last ≤ now
  pub period : 0 < b.refill

-- `now` after all the times, which do not fall.
abbrev pub IsOrdered : ℕ → List ℕ → ℕ → Type 0
IsOrdered t [] end = t ≤ end
IsOrdered t (u ∷ us) end = (t ≤ u) × IsOrdered u us end

div-mul-le : (n d : ℕ) → n / d * d ≤ n
div-mul-le n d = grind arith

mul_mono : (a b r : ℕ) → a ≤ b → a * r ≤ b * r
mul_mono a b r h = grind arith

-- The refill: what comes in is paid for by the time that `last` moves on.
record IsToppedUp (b c : TokenBucket) (now : ℕ) : Type 0 where
  within : c.tokens ≤ c.capacity
  past : c.last ≤ now
  refill_kept : c.refill ≡ b.refill
  capacity_kept : c.capacity ≡ b.capacity
  paid : c.tokens * b.refill + b.last ≤ b.tokens * b.refill + c.last

top_up-IsToppedUp :
    (add : ℕ) (b : TokenBucket) (now : ℕ)
    → IsValid b now
    → add * b.refill ≤ now - b.last
    → IsToppedUp b (top_up add b) now
unfolding top_up
top_up-IsToppedUp add b now v h = elim (Bool-cases (ltb 0 add)) [
  | inl some_due ↦ elim (Bool-cases (ltb b.capacity (b.tokens + add))) [
    | inl full ↦
        rw (some_due, full)
          (ground (arith, mul_mono b.capacity (b.tokens + add) b.refill, ltb→lt _ _ full))
    | inr room ↦ rw (some_due, room) (ground arith)
  ]
  | inr none_due ↦ rw none_due (ground arith)
]

-- A call keeps the bucket valid, and the tokens that it leaves, with the one that it gives, are
-- paid for by those before and by the time that `last` moves on.
pub record IsSpent (b : TokenBucket) (r : Bool × TokenBucket) (now : ℕ) : Type 0 where
  pub valid : IsValid r.1 now
  pub refill_kept : r.1.refill ≡ b.refill
  pub capacity_kept : r.1.capacity ≡ b.capacity
  pub paid :
      (if r.0 then b.refill else 0) + r.1.tokens * b.refill + b.last
      ≤ b.tokens * b.refill + r.1.last

spend-IsSpent :
    (b c : TokenBucket) (now : ℕ) → 0 < b.refill → IsToppedUp b c now → IsSpent b (spend c) now
unfolding spend
spend-IsSpent b c now p t = elim (Bool-cases (leb c.tokens 0)) [
  | inl none_left ↦ rw none_left (ground arith)
  | inr some_left ↦ rw some_left (ground (arith, pred-mul c.tokens b.refill))
]
  where
    pred-mul : (n r : ℕ) → 0 < n → (n - 1) * r + r ≡ n * r
    pred-mul n r h = let e : n - 1 + 1 ≡ n = omega arith in omega (arith, ap (λ (k : ℕ). k * r) e)

pub take-IsSpent : (b : TokenBucket) (now : ℕ) → IsValid b now → IsSpent b (take b now) now
unfolding take
take-IsSpent b now v =
    spend-IsSpent b _ now v.period
      (top_up-IsToppedUp (due b now) b now v (div-mul-le (now - b.last) b.refill))

-- However the calls fall, those that get a token are paid for: `granted` of them take at most the
-- tokens in the bucket and one for each refill period that passes.
granted_paid :
    (b : TokenBucket) (now : ℕ) (ts : List ℕ) (end : ℕ)
    → IsValid b now
    → IsOrdered now ts end
    → granted b ts * b.refill + b.last ≤ b.tokens * b.refill + end
unfolding granted
granted_paid b now [] end v o = ground arith
granted_paid b now (t ∷ ts) end v o =
    let v' : IsValid b t = record {
      within = v.within;
      past = omega (arith, v.past, o.0);
      period = v.period;
    } in
    let s = take-IsSpent b t v' in
    let rest = granted_paid (take b t).1 t ts end s.valid o.1 in
    let e = ap (λ (r : ℕ). granted (take b t).1 ts * r) s.refill_kept in
    let f = ap (λ (r : ℕ). (take b t).1.tokens * r) s.refill_kept in
    elim (Bool-cases (take b t).0) [
      | inl given ↦ let paid = rw given at s.paid in rw given (omega (arith, rest, e, f, paid))
      | inr refused ↦
          let paid = rw refused at s.paid in rw refused (omega (arith, rest, e, f, paid))
    ]

-- Whatever the calls to a new bucket with a positive refill period, in order of time: those that
-- pass number at most its capacity and one for each refill period since it was made.
pub granted-new_token_bucket :
    (capacity refill start end : ℕ) (ts : List ℕ)
    → 0 < refill
    → IsOrdered start ts end
    → granted (new_token_bucket capacity refill start) ts * refill
      ≤ capacity * refill + (end - start)
unfolding new_token_bucket
granted-new_token_bucket capacity refill start end ts p o =
    let v : IsValid (new_token_bucket capacity refill start) start = record {
      within = omega arith;
      past = omega arith;
      period = p;
    } in
    omega (arith, granted_paid (new_token_bucket capacity refill start) start ts end v o)

-- A call that comes a whole refill period after the bucket's last refill gets a token, where the
-- capacity and the period are positive.
pub take_after_refill :
    (b : TokenBucket) (now : ℕ)
    → 0 < b.capacity
    → 0 < b.refill
    → b.last + b.refill ≤ now
    → (take b now).0 ≡ true
unfolding take top_up spend
take_after_refill b now c p h =
    let d : 0 < (now - b.last) / b.refill =
      omega (arith, div-eq-sub-div {m = b.refill} {n = now - b.last} p (omega arith)) in
    elim (Bool-cases (ltb b.capacity (b.tokens + due b now))) [
      | inl full ↦ rw (lt→ltb 0 (due b now) d, full) (ground arith)
      | inr room ↦ rw (lt→ltb 0 (due b now) d, room) (ground arith)
    ]

-- An empty bucket refuses every call that comes before a whole positive period has passed since
-- its last refill, and stays as it is.
pub take_empty :
    (b : TokenBucket) (now : ℕ)
    → b.tokens ≡ 0
    → 0 < b.refill
    → now < b.last + b.refill
    → take b now ≡ (false, b)
unfolding take top_up spend
take_empty b now e p h = let d : due b now ≡ 0 = div-eq_of_lt (omega arith) in rw (d, e) refl
