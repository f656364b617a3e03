-- ===== src/Pump.antt =====
-- internal/messagepump/pump.go: the pump that acquires deliveries and hands them to a driver, each in a transaction of
-- its own. The driver is the interface of internal/messagepump/driver.go.
pub mod Delay
pub mod Keeping
pub mod Postponing
use runkit.Prelude.{
  ltb, leb, ◌==◌, if◌then◌else◌, ltb→lt, lt→ltb, leb→le, le→leb, lt→leb, ==_iff, ==_refl, tests,
  Bool-cases, Option-cases, length, get_elem?, take, drop, replicate, length-append,
  take-append-drop, length-drop, length-take, drop-append_le, drop-append_add,
  get_elem?-append_left, get_elem?-append_right, get_elem?_total, get_elem?-take, filter,
  filter-append, filter-filter, filter-eq, length-filter-le, All, All-append, All-replicate,
  All-filter, All-imp, All-left, All-right, has, u64_mod, inc64, inc64-eq-suc, ℕ, zero, suc, ◌+◌,
  ◌-◌, ◌*◌, ◌/◌, ◌%◌, ◌^◌, ◌≤◌, ◌<◌, min, max, ◌≡◌, refl, sym, ap, ◌∙◌, subst, ◌≢◌, ◌↔◌, ◌⊎◌, inl,
  inr, Bool, true, false, not, ◌&&◌, ◌||◌, Option, none, some, List, [], ◌∷◌, ◌++◌, map, append-nil,
  append_assoc, arith,
}
use runkit.Transaction.{Failure, failed, busy, other, Statement, begin, Outage, Action}

-- delivery.go. `envelope` stands for the serialised envelope.
pub record Delivery : Type 0 where
  pub message_id : ℕ
  pub type_id : ℕ
  pub envelope : ℕ
  pub failures : ℕ

-- driver.go, over the tables `S` and the envelopes `E`. A postponed delivery is due after a delay.
pub record Driver (S E : Type 0) : Type 0 where
  pub acquire : Action S (Option Delivery)
  pub postpone : Delivery → ℕ → Action S (Unit {0})
  pub handle : Delivery → E → Action S (Unit {0})

-- The delays of a MessagePump, which are not negative, and whether a transaction's begin and commit meet an outage.
pub record Settings : Type 0 where
  pub backoff_base : ℕ
  pub backoff_cap : ℕ
  pub down : Outage

-- How a call of the pump ends; `panics` is a panic, which no part of the pump recovers, and `unfinished` a loop that is
-- still going on after the rounds that were given to it.
pub data Outcome (A : Type 0) : Type 0 where
  ok : A → Outcome A
  error : Failure → Outcome A
  panics unfinished : Outcome A

-- rand.N of a window, from the number that is drawn; it panics if the window is empty.
abbrev pub rand_below : ℕ → ℕ → Option ℕ
rand_below draw window = if window == 0 then none else some (draw % window)

-- The limit of computeBackoff, from the shifted base. A duration is an int64, and a shift of it wraps: from 2 ^ 63 on
-- it is negative.
unfoldable pub backoff_limit : ℕ → ℕ → ℕ
backoff_limit cap shifted =
    if shifted == 0 || (leb (2 ^ 63) shifted || ltb cap shifted) then cap else shifted

-- computeBackoff.
unfoldable pub compute_backoff : Settings → ℕ → ℕ → Option ℕ
compute_backoff p n draw =
    if p.backoff_base == 0 || leb p.backoff_cap p.backoff_base
    then some p.backoff_base
    else elim (rand_below draw
        (backoff_limit p.backoff_cap ((p.backoff_base * 2 ^ n) % 2 ^ 64) - p.backoff_base)) [
          | none ↦ none
          | some jitter ↦ some (p.backoff_base + jitter)
        ]

module _ {S E : Type 0} (p : Settings) (d : Driver S E) where
  -- doAcquireDelivery: a delivery, with the tables as its transaction sees them.
  unfoldable pub acquire_delivery : S → Outcome (Option (Delivery × S))
  acquire_delivery s = if p.down begin then error other else elim ((d.acquire s).0) [
    | inl e ↦ error e
    | inr none ↦ if p.down Statement.commit then error other else ok none
    | inr (some delivery) ↦ ok (some (delivery, (d.acquire s).1))
  ]

  -- The end of a transaction that began at tables `before` and leads to others.
  abbrev pub commit : {A : Type 0} → A → S → S → Outcome A × S
  commit a before s = if p.down Statement.commit then (error other, before) else (ok a, s)

  -- A delivery that has failed is postponed, with the number that is drawn.
  unfoldable pub postpone_failed : Delivery → ℕ → S → S → Outcome (Unit {0}) × S
  postpone_failed delivery draw before s =
      let failures = inc64 delivery.failures in
      elim (compute_backoff p failures draw) [
        | none ↦ (panics, before)
        | some delay ↦ elim ((d.postpone (record delivery { failures = failures }) delay s).0) [
          | inl e ↦ (error other, before)
          | inr u ↦
              commit tt before (d.postpone (record delivery { failures = failures }) delay s).1
        ]
      ]

  -- A delivery whose target is busy is postponed.
  unfoldable pub postpone_busy : Delivery → S → S → Outcome (Unit {0}) × S
  postpone_busy delivery before s = elim ((d.postpone delivery p.backoff_base s).0) [
    | inl e ↦ (error other, before)
    | inr u ↦ commit tt before (d.postpone delivery p.backoff_base s).1
  ]

  -- doHandle, from the tables before the delivery's transaction and those that it sees.
  unfoldable pub do_handle : Delivery → E → ℕ → S → S → Outcome (Unit {0}) × S
  do_handle delivery env draw before s = elim ((d.handle delivery env s).0) [
    | inr u ↦ commit tt before (d.handle delivery env s).1
    | inl failed ↦ postpone_failed delivery draw before (d.handle delivery env s).1
    | inl busy ↦ postpone_busy delivery before (d.handle delivery env s).1
    | inl other ↦ (error other, before)
  ]

  -- doAcquireTask, with a number that is drawn in each round, and the envelope of a delivery if it can be read.
  unfoldable pub acquire_task :
      (ℕ → Option E) → List ℕ → S → Outcome (Option (Delivery × E × S)) × S
  acquire_task parse [] s = (unfinished, s)
  acquire_task parse (draw ∷ draws) s = elim (acquire_delivery s) [
    | error e ↦ (error e, s)
    | panics ↦ (panics, s)
    | unfinished ↦ (unfinished, s)
    | ok none ↦ (ok none, s)
    | ok (some (delivery, seen)) ↦ elim (parse delivery.envelope) [
      | some env ↦ (ok (some (delivery, env, seen)), s)
      | none ↦ elim ((postpone_failed delivery draw s seen).0) [
        | error e ↦ (error e, s)
        | panics ↦ (panics, s)
        | unfinished ↦ (unfinished, s)
        | ok u ↦ acquire_task parse draws (postpone_failed delivery draw s seen).1
      ]
    ]
  ]

  -- What runDispatcher and runWorker do with one task.
  unfoldable pub deliver : (ℕ → Option E) → List ℕ → ℕ → S → Outcome Bool × S
  deliver parse draws draw s =
      let s' = (acquire_task parse draws s).1 in
      elim ((acquire_task parse draws s).0) [
        | error e ↦ (error e, s')
        | panics ↦ (panics, s')
        | unfinished ↦ (unfinished, s')
        | ok none ↦ (ok false, s')
        | ok (some (delivery, env, seen)) ↦ elim ((do_handle delivery env draw s' seen).0) [
          | error e ↦ (error e, (do_handle delivery env draw s' seen).1)
          | panics ↦ (panics, (do_handle delivery env draw s' seen).1)
          | unfinished ↦ (unfinished, (do_handle delivery env draw s' seen).1)
          | ok u ↦ (ok true, (do_handle delivery env draw s' seen).1)
        ]
      ]
