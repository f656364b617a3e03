-- ===== src/Pump/Delay.antt =====
-- computeBackoff of internal/messagepump/pump.go: the delay before a delivery is attempted again.
use Prim.Native.Nat.{◌∣◌}
use native.Mathlib.Nat.{
  mul-le-mul_left, one-dvd, mul-dvd-mul_left, dvd-mod_iff, dvd-mul_left, le_of_dvd, pow-succ',
  pow-le-pow_right, mod-eq_of_lt, mod-eq-zero_of_dvd, dvd_trans, lt_of_mul-lt-mul_left,
  le-mul_of_pos_right, one-le-pow,
}
use runkit.Prelude.{
  ltb, leb, ltb→lt, leb→le, Bool-cases, ℕ, zero, suc, ◌+◌, ◌-◌, ◌*◌, ◌%◌, ◌^◌, ◌≤◌, ◌<◌, min, ◌≡◌,
  refl, ◌⊎◌, inl, inr, some, arith,
}
use runkit.Pump.{Settings, backoff_limit, compute_backoff}

dvd_pow : (n m : ℕ) → n ≤ m → (2 ^ n) ∣ (2 ^ m)
dvd_pow zero m h = one-dvd (2 ^ m)
dvd_pow (suc n) zero h = absurd (omega arith)
dvd_pow (suc n) (suc m) h =
    rw (pow-succ' 2 n, pow-succ' 2 m) (mul-dvd-mul_left (2 ^ n) 2 (dvd_pow n m (omega arith)))

-- A shift that wraps leaves no small number but zero.
wrapped : (b n : ℕ) → ((b * 2 ^ n) % 2 ^ 64 ≡ 0) ⊎ (2 ^ n ≤ (b * 2 ^ n) % 2 ^ 64)
wrapped b n = elim (Bool-cases (leb n 64)) [
  | inl short ↦
      low ((b * 2 ^ n) % 2 ^ 64)
        ((dvd-mod_iff (2 ^ n) (dvd_pow n 64 (leb→le n 64 short))).1 (dvd-mul_left (2 ^ n) b))
  | inr long ↦ inl (
      mod-eq-zero_of_dvd (2 ^ 64)
        (dvd_trans (2 ^ 64) (dvd_pow 64 n (ground (arith, long))) (dvd-mul_left (2 ^ n) b)))
]
  where
    low : (r : ℕ) → (2 ^ n) ∣ r → (r ≡ 0) ⊎ (2 ^ n ≤ r)
    low zero d = inl refl
    low (suc r) d = inr (le_of_dvd (omega arith) d)

-- The window of the delay.
abbrev pub window : Settings → ℕ → ℕ
window p n = min (p.backoff_base * 2 ^ n) p.backoff_cap - p.backoff_base

limit_exact : (c r : ℕ) → 0 < r → r < 2 ^ 63 → backoff_limit c r ≡ min r c
unfolding backoff_limit
limit_exact c r pos small = ground arith

limit_capped : (c k r m : ℕ) → c < k → c ≤ m → (r ≡ 0) ⊎ (k ≤ r) → backoff_limit c r ≡ min m c
unfolding backoff_limit
limit_capped c k r m lt le low = ground arith

mul_pos : (b n : ℕ) → 0 < b → b ≤ b * 2 ^ n
mul_pos b n h = le-mul_of_pos_right b (one-le-pow n 2 (omega arith))

below_word : (m : ℕ) → m < 2 ^ 63 → m < 2 ^ 64
below_word m h = omega arith

le-mul : (x y : ℕ) → 0 < x → y ≤ x * y
le-mul x y h = grind arith

backoff_limit-shifted :
    (b c n : ℕ)
    → 0 < b
    → b * c < 2 ^ 63
    → backoff_limit c ((b * 2 ^ n) % 2 ^ 64) ≡ min (b * 2 ^ n) c
backoff_limit-shifted b c n pos fits = elim (Bool-cases (ltb (b * 2 ^ n) (2 ^ 63))) [
  | inl small ↦
      let below = ltb→lt (b * 2 ^ n) (2 ^ 63) small in
      rw (mod-eq_of_lt (below_word (b * 2 ^ n) below))
        (limit_exact c (b * 2 ^ n) (omega (arith, mul_pos b n pos)) below)
  | inr big ↦
      let above : 2 ^ 63 ≤ b * 2 ^ n = ground (arith, big) in
      limit_capped c (2 ^ n) ((b * 2 ^ n) % 2 ^ 64) (b * 2 ^ n)
        (lt_of_mul-lt-mul_left b (omega (arith, above, fits)))
        (omega (arith, above, le-mul b c pos, fits)) (wrapped b n)
]

-- If the base is positive and below the cap, and their product is below 2^63, then the delay
-- after n > 0 failures is the base and a random number below the window that is left up to the
-- base times 2^n, or to the cap if that is less; the shift that computes this may wrap, but the
-- window is never empty, so that no random number is asked for that does not exist.
pub compute_backoff-window :
    (p : Settings) (n draw : ℕ)
    → 0 < p.backoff_base
    → p.backoff_base < p.backoff_cap
    → p.backoff_base * p.backoff_cap < 2 ^ 63
    → 0 < n
    → (0 < window p n) × (compute_backoff p n draw ≡ some (p.backoff_base + draw % window p n))
unfolding compute_backoff
compute_backoff-window p n draw pos lt fits one =
    let some_window : 0 < window p n = omega (arith, lt, double p.backoff_base n pos one) in
    (
      some_window,
      rw (backoff_limit-shifted p.backoff_base p.backoff_cap n pos fits)
          (ground (arith, some_window)),
    )
  where
    double : (b n : ℕ) → 0 < b → 0 < n → b < b * 2 ^ n
    double b n h k =
        let twice : b * 2 ≤ b * 2 ^ n = mul-le-mul_left b (pow-le-pow_right (omega arith) k) in
        omega (arith, twice, h)
