-- ===== src/Api/TokenBucket.antt =====
-- tokenBucket of internal/api/server.go. Times and the refill period are in nanoseconds. The
-- clock does not run backwards: `now - last` stops at 0, where Go's quotient would add nothing.
pub mod Rate
use server_space_manager_ai.Prelude.{
  ℕ, ◌+◌, ◌-◌, ◌*◌, ◌/◌, Bool, true, false, List, [], ◌∷◌, ltb, leb, if◌then◌else◌,
}

pub record TokenBucket : Type 0 where
  pub capacity : ℕ
  pub tokens : ℕ
  pub refill : ℕ
  pub last : ℕ

-- newTokenBucket
unfoldable pub new_token_bucket : ℕ → ℕ → ℕ → TokenBucket
new_token_bucket capacity refill now = record {
  capacity = capacity;
  tokens = capacity;
  refill = refill;
  last = now;
}

-- `int(now.Sub(b.last) / b.refill)`
abbrev pub due : TokenBucket → ℕ → ℕ
due b now = (now - b.last) / b.refill

-- `if add > 0 { … }`
unfoldable pub top_up : ℕ → TokenBucket → TokenBucket
top_up add b =
    if ltb 0 add
    then record b {
      tokens = if ltb b.capacity (b.tokens + add) then b.capacity else b.tokens + add;
      last = b.last + add * b.refill;
    }
    else b

-- `if b.tokens <= 0 { return false }; b.tokens--; return true`
unfoldable pub spend : TokenBucket → Bool × TokenBucket
spend b = if leb b.tokens 0 then (false, b) else (true, record b { tokens = b.tokens - 1 })

-- Take
unfoldable pub take : TokenBucket → ℕ → Bool × TokenBucket
unfolding top_up spend
take b now = spend (top_up (due b now) b)

-- How many of the calls at these times get a token.
unfoldable pub granted : TokenBucket → List ℕ → ℕ
granted b [] = 0
granted b (t ∷ ts) = (if (take b t).0 then 1 else 0) + granted (take b t).1 ts
