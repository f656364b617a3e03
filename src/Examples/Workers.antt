-- ===== src/Examples/Workers.antt =====
-- A projection, the supervisor's delays and the reconciliation of stream consumers on concrete data.
use runkit.Prelude.{
  ◌==◌, if◌then◌else◌, ==_iff, Bool-cases, All, has, inc64, ℕ, ◌≡◌, refl, ◌⊎◌, inl, inr, true,
  false, not, none, some, List, [], ◌∷◌, ◌++◌, arith,
}
use runkit.Supervisor.{Attempt, fails, fatal, by_fatal, running, jitter, next_backoff, run}
use runkit.Stream.{Envelope, Segment}
use runkit.Source.{Error, failed}
use runkit.Projection.{Handled, next, Handler, Surroundings, consume_segment, consume_all, dispatch}
use runkit.Projection.Once.{IsTransactional, IsExact, consume_all-IsExact}
use runkit.Process.{Database, Sink}
use runkit.Process
use runkit.Process.Once
use runkit.Supervisor.Backoff.{IsDelay, run-IsDelay, delays_from, run-delays_from}
use runkit.Consumer.{reconcile}
use runkit.Consumer.Reconciling.{IsReconciled, reconcile-IsReconciled}
use runkit.Cluster.{is_responsible}
use runkit.Cluster.Responsible.{sees, best, is_responsible_unique}
use runkit.Examples.Data.{event_at, early, late, stream_events}

-- A projection that stores its checkpoint with the events that it applied.
abbrev store_event : ℕ → ℕ → Envelope → ℕ × List Envelope → (ℕ × List Envelope) × Handled
store_event offset cp env s =
    if s.0 == cp then ((inc64 offset, s.1 ++ env ∷ []), next (inc64 offset)) else (s, next s.0)

abbrev projection : Handler (ℕ × List Envelope)
projection = record { handle = store_event }

-- Another consumer applies the event at offset 6 before this one does.
abbrev compete : Envelope → ℕ × List Envelope → ℕ × List Envelope
compete env s = if env.offset == 6 then (store_event 6 s.0 env s).0 else s

abbrev alone : Surroundings (ℕ × List Envelope)
alone = record { unpacks = λ env. true; acquire = λ env. none; meanwhile = λ env s. s }

abbrev contested : Surroundings (ℕ × List Envelope)
contested = record { unpacks = λ env. true; acquire = λ env. none; meanwhile = compete }

segment_runs :
    consume_segment projection alone 0 stream_events (0, [])
    ≡ ((9, stream_events), record { checkpoint = 9; no_conflict = true; err = none })
unfolding consume_segment dispatch inc64
segment_runs = refl

segment_shared :
    consume_segment projection contested 0 stream_events (0, [])
    ≡ ((9, stream_events), record { checkpoint = 9; no_conflict = true; err = none })
unfolding consume_segment dispatch inc64
segment_shared = refl

segment_conflicts :
    consume_segment projection alone 5 late (9, stream_events)
    ≡ ((9, stream_events), record { checkpoint = 5; no_conflict = false; err = none })
unfolding consume_segment dispatch inc64
segment_conflicts = refl

projection-IsTransactional : IsTransactional projection (λ s. s.1) (λ s. s.0)
projection-IsTransactional = record {
  handles = λ offset cp env s. elim (Bool-cases (s.0 == cp)) [
    | inl same ↦ inl ((==_iff s.0 cp).0 same, rw same refl, rw same refl)
    | inr stale ↦ inr (rw stale refl, rw stale refl)
  ];
}

abbrev segments : List Segment
segments =
    record { stream_id = 7; begin = 0; end = 5; envelopes = early }
    ∷ record { stream_id = 7; begin = 5; end = 9; envelopes = late }
    ∷ []

consume_all-IsExact_example :
    IsExact projection alone
      (λ s. s.1)
      (λ s. s.0)
      projection-IsTransactional
      3
      9
      stream_events
      none
      (omega arith)
      (consume_all projection alone 0 segments (0, [])).0
consume_all-IsExact_example =
    consume_all-IsExact projection alone (λ s. s.1) (λ s. s.0) projection-IsTransactional 3 9
      stream_events none (omega arith) (λ env s x. x) 7 0 0 9 segments (0, []) (omega arith)
      (omega arith) refl (refl, refl, omega arith, refl, (refl, refl, omega arith, refl, refl)) refl

abbrev attempts : List Attempt
attempts =
    record {
      canceled = false;
      result = fails false;
      ran_for = 0;
      random = 7;
      canceled_in_delay = false;
    }
    ∷ record {
      canceled = false;
      result = fails false;
      ran_for = 1;
      random = 0;
      canceled_in_delay = false;
    }
    ∷ record {
      canceled = false;
      result = fatal 4;
      ran_for = 1;
      random = 0;
      canceled_in_delay = false;
    }
    ∷ []

run_runs : run 0 attempts ≡ (50000007 ∷ 100000000 ∷ [], by_fatal 4)
unfolding run next_backoff jitter
run_runs = refl

run-IsDelay_example : All IsDelay (run 0 attempts).0
run-IsDelay_example = run-IsDelay 0 attempts (inl refl)

abbrev failure : ℕ → ℕ → Attempt
failure ran_for random = record {
  canceled = false;
  result = fails false;
  ran_for = ran_for;
  random = random;
  canceled_in_delay = false;
}

-- Three failures in a row, the last of which runs for just under three minutes, and one that runs for three minutes.
abbrev failures : List Attempt
failures =
    failure 0 7 ∷ failure 5 0 ∷ failure 179999999999 0 ∷ failure 180000000000 0 ∷ failure 1 3 ∷ []

delays_run :
    delays_from false 0 failures ≡ 50000007 ∷ 100000000 ∷ 200000000 ∷ 50000000 ∷ 100000003 ∷ []
unfolding jitter
delays_run = refl

run-delays_from_example : run 0 failures ≡ (delays_from false 0 failures, running)
run-delays_from_example = run-delays_from false failures (
  (refl, refl, refl),
  ((refl, refl, refl), ((refl, refl, refl), ((refl, refl, refl), ((refl, refl, refl), tt)))),
)

reconcile_runs :
    reconcile (λ id. not (id == 2)) (1 ∷ 2 ∷ 3 ∷ []) (2 ∷ 3 ∷ 9 ∷ [])
    ≡ record { stops = 2 ∷ 9 ∷ []; starts = 1 ∷ []; consuming = 3 ∷ 1 ∷ [] }
unfolding reconcile
reconcile_runs = refl

reconcile-IsReconciled_example :
    IsReconciled
      (λ id. not (id == 2))
      (1 ∷ 2 ∷ 3 ∷ [])
      (2 ∷ 3 ∷ 9 ∷ [])
      (reconcile (λ id. not (id == 2)) (1 ∷ 2 ∷ 3 ∷ []) (2 ∷ 3 ∷ 9 ∷ []))
reconcile-IsReconciled_example =
    reconcile-IsReconciled (λ id. not (id == 2)) (1 ∷ 2 ∷ 3 ∷ []) (2 ∷ 3 ∷ 9 ∷ [])

-- A process handler that records the events in its effects, and refuses the event at offset 8.
abbrev record_event : Envelope → List Envelope → Error ⊎ List Envelope
record_event env es = if env.offset == 8 then inl (failed 3) else inr (es ++ env ∷ [])

abbrev process : Sink (List Envelope)
process = record { dispatch = record_event; unavailable = λ next. false; meanwhile = λ next db. db }

abbrev no_rows : Database (List Envelope)
no_rows = record { checkpoints = []; effects = [] }

process_runs : Process.consume_segment process 7 6 0 early no_rows ≡ (
  record { checkpoints = (7, 6) ∷ []; effects = early },
  record { checkpoint = 6; no_conflict = true; err = none },
)
unfolding Process.consume_segment Process.consume inc64
process_runs = refl

process_fails :
    Process.consume_segment process 7 9 6 late
      (record { checkpoints = (7, 6) ∷ []; effects = early })
    ≡ (
      record { checkpoints = (7, 7) ∷ []; effects = early ++ event_at 6 1 6 ∷ [] },
      record { checkpoint = 7; no_conflict = false; err = some (failed 3) },
    )
unfolding Process.consume_segment Process.consume inc64
process_fails = refl

process_conflicts :
    Process.consume_segment process 7 9 5 late
      (record { checkpoints = (7, 6) ∷ []; effects = early })
    ≡ (
      record { checkpoints = (7, 6) ∷ []; effects = early },
      record { checkpoint = 5; no_conflict = false; err = none },
    )
unfolding Process.consume_segment Process.consume inc64
process_conflicts = refl

consume_segment-IsCommitted_example :
    Process.Once.IsCommitted process 7 3 9 stream_events none
      (omega arith)
      []
      (Process.consume_segment process 7 6 0 early no_rows).0
    × ((Process.goes_on process (Process.consume_segment process 7 6 0 early no_rows).1 ≡ false)
        ⊎ ((Process.consume_segment process 7 6 0 early no_rows).1.checkpoint ≡ 6))
consume_segment-IsCommitted_example =
    Process.Once.consume_segment-IsCommitted process 7 3 9 stream_events none (omega arith) []
      (λ n db x. x) 0 0 6 early no_rows (omega arith) (omega arith) (omega arith) refl refl refl

-- The nodes 2 and 3 have the highest score.
abbrev score : ℕ → ℕ
score id = if id == 1 then 10 else 20

not_live : is_responsible score (some (record { node_id = 2; is_live = false; peers = [] })) ≡ false
unfolding is_responsible
not_live = refl

lower_id : is_responsible score (sees (1 ∷ 3 ∷ 2 ∷ []) 2) ≡ true
unfolding is_responsible
lower_id = refl

higher_id : is_responsible score (sees (1 ∷ 3 ∷ 2 ∷ []) 3) ≡ false
unfolding is_responsible
higher_id = refl

swapped : (p : ℕ) → has (2 ∷ 3 ∷ []) p ≡ has (3 ∷ 2 ∷ []) p
swapped p = ground arith

is_responsible_unique_example : best score 2 (3 ∷ []) ≡ 2
unfolding is_responsible
is_responsible_unique_example =
    is_responsible_unique score (2 ∷ 3 ∷ []) (3 ∷ 2 ∷ []) (best score 2 (3 ∷ [])) 2 swapped refl
      refl refl refl
