-- ===== src/Supervisor/Backoff.antt =====
-- The delays of supervisor.Run (internal/supervisor/supervisor.go).
use runkit.Prelude.{
  leb, if◌then◌else◌, Bool-cases, All, ℕ, zero, suc, ◌+◌, ◌-◌, ◌*◌, ◌/◌, ◌%◌, ◌^◌, ◌≤◌, ◌<◌, min,
  ◌≡◌, refl, ap, ◌∙◌, ◌⊎◌, inl, inr, Bool, true, false, List, [], ◌∷◌, arith,
}
use runkit.Supervisor.{
  base_delay, persistent_max_delay, Result, succeeds, fatal, fails, Attempt, jitter, next_backoff,
  run, running,
}

pub jitter-bounds : (d random : ℕ) → (d / 2 ≤ jitter d random) × (jitter d random ≤ d)
unfolding jitter
jitter-bounds d random = (omega arith, omega (arith, mod_lt random (d - d / 2)))
  where
    mod_lt : (r k : ℕ) → r % (k + 1) < k + 1
    mod_lt r k = omega arith

-- A backoff is not set yet, or between the base delay and the highest limit.
abbrev pub IsBackoff : ℕ → Type 0
IsBackoff b = (b ≡ 0) ⊎ ((base_delay ≤ b) × (b ≤ persistent_max_delay))

pub next_backoff-bounds :
    (b ran_for : ℕ) (is_persistent : Bool)
    → IsBackoff b
    → (base_delay ≤ next_backoff b ran_for is_persistent)
      × (next_backoff b ran_for is_persistent ≤ persistent_max_delay)
unfolding next_backoff
next_backoff-bounds b ran_for is_persistent h = ground arith

-- A delay that Run may wait for.
abbrev pub IsDelay : ℕ → Type 0
IsDelay d = (base_delay / 2 ≤ d) × (d ≤ persistent_max_delay)

jitter-IsDelay :
    (b random : ℕ) → base_delay ≤ b → b ≤ persistent_max_delay → IsDelay (jitter b random)
jitter-IsDelay b random l u =
    let (low, high) = jitter-bounds b random in (omega (arith, low), omega (arith, high))

-- Every delay of supervisor.Run, from a backoff that is zero or between the base delay and the
-- highest limit, is at least half of the base delay and at most the highest limit, whatever
-- fails, however long it ran and whatever random numbers are drawn.
pub run-IsDelay : (b : ℕ) (ats : List Attempt) → IsBackoff b → All IsDelay (run b ats).0
unfolding run
run-IsDelay b [] h = tt
run-IsDelay b (a ∷ ats) h =
    go a.result refl (λ p. next_backoff-bounds b a.ran_for p h) (λ b' h'. run-IsDelay b' ats h')
  where
    go :
        (r : Result)
        → a.result ≡ r
        → ((p : Bool)
            → (base_delay ≤ next_backoff b a.ran_for p)
              × (next_backoff b a.ran_for p ≤ persistent_max_delay))
        → ((b' : ℕ) → IsBackoff b' → All IsDelay (run b' ats).0)
        → All IsDelay (run b (a ∷ ats)).0
    go r e n ih = elim (Bool-cases a.canceled) [
      | inl stopped ↦ rw (stopped, run) tt
      | inr goes ↦ ended r e goes
    ]
      where
        ended : (r : Result) → a.result ≡ r → a.canceled ≡ false → All IsDelay (run b (a ∷ ats)).0
        ended succeeds q goes = rw (goes, q, run) tt
        ended (fatal x) q goes = rw (goes, q, run) tt
        ended (fails p) q goes = elim (Bool-cases a.canceled_in_delay) [
          | inl stopped ↦ rw (goes, q, stopped, run) (jitter-IsDelay _ a.random (n p).0 (n p).1, tt)
          | inr waits ↦
              rw (goes, q, waits, run) (jitter-IsDelay _ a.random (n p).0 (n p).1, ih _ (inr (n p)))
        ]

-- 100 milliseconds.
abbrev pub first_delay : ℕ
first_delay = 100000000

-- 5 minutes for a persistent failure, and 15 seconds for another one.
abbrev pub longest : Bool → ℕ
longest true = 300000000000
longest false = 15000000000

-- The time that a run must last for the failures before it to be forgotten.
abbrev pub three_minutes : ℕ
three_minutes = 180000000000

-- The delays that failures of one kind ask for, where n of them came before: each is drawn from half to the whole of
-- the first delay, doubled for each failure in a row before it, or of the longest one if that is less.
abbrev pub delays_from : Bool → ℕ → List Attempt → List ℕ
delays_from is_persistent n [] = []
delays_from is_persistent n (a ∷ ats) =
    let k = if leb three_minutes a.ran_for then 0 else n in
    jitter (min (first_delay * 2 ^ k) (longest is_persistent)) a.random
    ∷ delays_from is_persistent (suc k) ats

-- A failure, with the context not canceled, that is persistent or not.
abbrev pub IsFailure : Bool → Attempt → Type 0
IsFailure is_persistent a =
    (a.canceled ≡ false) × (a.result ≡ fails is_persistent) × (a.canceled_in_delay ≡ false)

pow-pos : (n : ℕ) → 0 < 2 ^ n
pow-pos zero = omega arith
pow-pos (suc n) = omega (arith, pow-pos n)

doubles :
    (q ran_for : ℕ) (is_persistent : Bool)
    → 0 < q
    → leb three_minutes ran_for ≡ false
    → next_backoff (min (first_delay * q) (longest is_persistent)) ran_for is_persistent
      ≡ min (first_delay * (2 * q)) (longest is_persistent)
unfolding next_backoff
doubles q ran_for true l short = ground arith
doubles q ran_for false l short = ground arith

next_backoff-doubles :
    (n ran_for : ℕ) (is_persistent : Bool)
    → leb three_minutes ran_for ≡ false
    → next_backoff (min (first_delay * 2 ^ n) (longest is_persistent)) ran_for is_persistent
      ≡ min (first_delay * 2 ^ suc n) (longest is_persistent)
next_backoff-doubles n ran_for p short =
    doubles (2 ^ n) ran_for p (pow-pos n) short
    ∙ ap (λ q. min (first_delay * q) (longest p)) (double n)
  where
    double : (n : ℕ) → 2 * 2 ^ n ≡ 2 ^ suc n
    double n = omega arith

-- After no failure, or a long run, the backoff is the first delay.
next_backoff-begins :
    (b ran_for : ℕ) (is_persistent : Bool)
    → (b ≡ 0) ⊎ (leb three_minutes ran_for ≡ true)
    → next_backoff b ran_for is_persistent ≡ min (first_delay * 2 ^ 0) (longest is_persistent)
unfolding next_backoff
next_backoff-begins b ran_for true h = ground arith
next_backoff-begins b ran_for false h = ground arith

-- The backoff that Run has when n failures came before.
abbrev IsBackoffOf : Bool → ℕ → ℕ → Type 0
IsBackoffOf is_persistent zero b = b ≡ 0
IsBackoffOf is_persistent (suc n) b = b ≡ min (first_delay * 2 ^ n) (longest is_persistent)

next_backoff-IsBackoffOf :
    (n b ran_for : ℕ) (is_persistent : Bool)
    → IsBackoffOf is_persistent n b
    → next_backoff b ran_for is_persistent
      ≡ min (first_delay * 2 ^ (if leb three_minutes ran_for then 0 else n)) (longest is_persistent)
next_backoff-IsBackoffOf n b ran_for p h = elim (Bool-cases (leb three_minutes ran_for)) [
  | inl long ↦ rw long (next_backoff-begins b ran_for p (inr long))
  | inr short ↦ rw short (continued n h short)
]
  where
    continued :
        (n : ℕ)
        → IsBackoffOf p n b
        → leb three_minutes ran_for ≡ false
        → next_backoff b ran_for p ≡ min (first_delay * 2 ^ n) (longest p)
    continued zero h short = next_backoff-begins b ran_for p (inl h)
    continued (suc n) h short = rw h (next_backoff-doubles n ran_for p short)

run-IsBackoffOf :
    (b n : ℕ) (is_persistent : Bool) (ats : List Attempt)
    → IsBackoffOf is_persistent n b
    → All (IsFailure is_persistent) ats
    → run b ats ≡ (delays_from is_persistent n ats, running)
unfolding run
run-IsBackoffOf b n p [] h failing = refl
run-IsBackoffOf b n p (a ∷ ats) h ((goes, failed, waits), failing) =
    let k = if leb three_minutes a.ran_for then 0 else n in
    let same = next_backoff-IsBackoffOf n b a.ran_for p h in
    let rest = run-IsBackoffOf (next_backoff b a.ran_for p) (suc k) p ats same failing in
    rw (goes, failed, waits, run, rest)
      (ap (λ d. (jitter d a.random ∷ delays_from p (suc k) ats, running)) same)

-- If all calls of the function fail, all of them with persistent errors or none of them, and
-- the context is not canceled, then supervisor.Run calls the function again after each of them,
-- and its delays are these: count, for each failure, those in a row before it, and begin again
-- at 0 with a failure after a run of three minutes or more; the delay is drawn by Jitter from
-- 100 ms times 2^n, for n such failures, or from the limit if that is less, which is 5 minutes
-- for persistent failures and 15 seconds for others.
pub run-delays_from :
    (is_persistent : Bool) (ats : List Attempt)
    → All (IsFailure is_persistent) ats
    → run 0 ats ≡ (delays_from is_persistent 0 ats, running)
run-delays_from p ats failing = run-IsBackoffOf 0 0 p ats refl failing
