-- ===== src/Main/Status/Shares.antt =====
-- The order of the filesystems in buildStatusLine, which compares products of int64.
use native.Mathlib.Nat.{mul-le-mul, mul-mod_right}
use server_space_manager_ai.Prelude.{ℕ, String, ◌*◌, ◌^◌, ◌≤◌, ◌<◌, ◌≡◌, refl, false, arith, ltb}
use server_space_manager_ai.Prelude.Int.{ℤ, pos, ◌*ℤ◌, wrap64, wrap64_id, mul64}
use server_space_manager_ai.Main.Status.{StatusRow, status_less}

-- A filesystem of `total` bytes with `used` of them in use.
abbrev pub row_of : String → ℕ → ℕ → ℤ → StatusRow
row_of path used total avail = record {
  path = path;
  used = pos used;
  avail = avail;
  total = pos total;
}

pos-mul : (x y : ℕ) → pos x *ℤ pos y ≡ pos (x * y)
unfolding ◌*ℤ◌
pos-mul x y = ground arith

mul64-lt : (x y : ℕ) → x * y < 2 ^ 63 → mul64 (pos x) (pos y) ≡ pos (x * y)
unfolding mul64
mul64-lt x y h = rw pos-mul (wrap64_id (pos (x * y)) (h, omega arith))

mul-lt : (x y : ℕ) → x < 3037000500 → y < 3037000500 → x * y < 2 ^ 63
mul-lt x y h k =
    let bound : x * y ≤ 3037000499 * 3037000499 =
      mul-le-mul {n₂ = 3037000499} {m₂ = 3037000499} (omega arith) (omega arith) in
    omega (arith, bound)

-- For two filesystems of less than 3037000500 bytes, each with no more in use than it holds, the
-- comparison by which /status sorts is exactly that of the shares in use, the fuller one first.
pub status_less_exact :
    (p q : String) (used used' total total' : ℕ) (avail avail' : ℤ)
    → used ≤ total
    → used' ≤ total'
    → total < 3037000500
    → total' < 3037000500
    → status_less (row_of p used total avail) (row_of q used' total' avail')
      ≡ ltb (used' * total) (used * total')
unfolding status_less
status_less_exact p q used used' total total' avail avail' h h' k k' =
    let one = mul64-lt used' total (mul-lt used' total (omega arith) k) in
    let other = mul64-lt used total' (mul-lt used total' (omega arith) k') in
    rw (one, other) (ground arith)

wrap64_full : (n : ℕ) → wrap64 (pos (2 ^ 64 * n)) ≡ pos 0
unfolding wrap64
wrap64_full n = rw mul-mod_right refl

mul64_full : (u t : ℕ) → mul64 (pos (2 ^ 32 * u)) (pos (2 ^ 32 * t)) ≡ pos 0
unfolding mul64
mul64_full u t =
    let e : 2 ^ 32 * u * (2 ^ 32 * t) ≡ 2 ^ 64 * (u * t) = grind arith in
    rw (pos-mul, e) (wrap64_full (u * t))

-- Two filesystems whose sizes and uses are whole multiples of 4 GiB are never told apart by the
-- comparison by which /status sorts, whatever their shares in use.
pub status_less_lost :
    (p q : String) (used used' total total' : ℕ) (avail avail' : ℤ)
    → status_less
        (row_of p (2 ^ 32 * used) (2 ^ 32 * total) avail)
        (row_of q (2 ^ 32 * used') (2 ^ 32 * total') avail')
      ≡ false
unfolding status_less
status_less_lost p q used used' total total' avail avail' =
    rw (mul64_full used' total, mul64_full used total') refl
