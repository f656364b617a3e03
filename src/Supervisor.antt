-- ===== src/Supervisor.antt =====
-- internal/supervisor: supervisor.go and jitter.go. Durations are in nanoseconds.
pub mod Backoff
use runkit.Prelude.{
  ltb, leb, ◌==◌, if◌then◌else◌, ltb→lt, lt→ltb, leb→le, le→leb, lt→leb, ==_iff, ==_refl, tests,
  Bool-cases, Option-cases, length, get_elem?, take, drop, replicate, length-append,
  take-append-drop, length-drop, length-take, drop-append_le, drop-append_add,
  get_elem?-append_left, get_elem?-append_right, get_elem?_total, get_elem?-take, filter,
  filter-append, filter-filter, filter-eq, length-filter-le, All, All-append, All-replicate,
  All-filter, All-imp, All-left, All-right, has, u64_mod, inc64, inc64-eq-suc, ℕ, zero, suc, ◌+◌,
  ◌-◌, ◌*◌, ◌/◌, ◌%◌, ◌^◌, ◌≤◌, ◌<◌, min, max, ◌≡◌, refl, sym, ap, ◌∙◌, subst, ◌≢◌, ◌↔◌, ◌⊎◌, inl,
  inr, Bool, true, false, not, ◌&&◌, ◌||◌, Option, none, some, List, [], ◌∷◌, ◌++◌, map, append-nil,
  append_assoc, arith,
}

abbrev pub base_delay : ℕ
base_delay = 100000000

abbrev pub transient_max_delay : ℕ
transient_max_delay = 15000000000

abbrev pub persistent_max_delay : ℕ
persistent_max_delay = 300000000000

abbrev pub reset_threshold : ℕ
reset_threshold = 180000000000

-- How a call of fn ends: nil, an error made by Fatal, or another one, which may be made by Persistent.
pub data Result : Type 0 where
  succeeds : Result
  fatal : ℕ → Result
  fails : Bool → Result

-- One round: whether the context is canceled when fn returns, the result, how long fn ran, the random number drawn,
-- and whether the context is canceled during the delay.
pub record Attempt : Type 0 where
  pub canceled : Bool
  pub result : Result
  pub ran_for : ℕ
  pub random : ℕ
  pub canceled_in_delay : Bool

pub data Outcome : Type 0 where
  running by_context done : Outcome
  by_fatal : ℕ → Outcome

abbrev pub limit : Bool → ℕ
limit is_persistent = if is_persistent then persistent_max_delay else transient_max_delay

-- Jitter, with the random number reduced as rand.N does.
unfoldable pub jitter : ℕ → ℕ → ℕ
jitter d random = let half = d / 2 in half + random % (d - half + 1)

unfoldable pub next_backoff : ℕ → ℕ → Bool → ℕ
next_backoff backoff ran_for is_persistent =
    if backoff == 0 || leb reset_threshold ran_for
    then base_delay
    else min (2 * backoff) (limit is_persistent)

abbrev pub delayed : ℕ → List ℕ × Outcome → List ℕ × Outcome
delayed d r = (d ∷ r.0, r.1)

-- Run, with the delays before each next call.
unfoldable pub run : ℕ → List Attempt → List ℕ × Outcome
run backoff [] = ([], running)
run backoff (a ∷ ats) = elim a.canceled [
  | true ↦ ([], by_context)
  | false ↦ elim a.result [
    | succeeds ↦ ([], done)
    | fatal e ↦ ([], by_fatal e)
    | fails is_persistent ↦
        let b = next_backoff backoff a.ran_for is_persistent in
        elim a.canceled_in_delay [
          | true ↦ (jitter b a.random ∷ [], by_context)
          | false ↦ delayed (jitter b a.random) (run b ats)
        ]
  ]
]
