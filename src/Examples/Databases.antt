-- ===== src/Examples/Databases.antt =====
-- The source of the streams in a database on concrete tables.
use mathlib.Core.Option.{some-injective}
use runkit.Prelude.{
  replicate, inc64, ℕ, ◌≡◌, refl, subst, inl, inr, true, false, none, some, List, [], ◌∷◌, arith,
}
use runkit.Stream.{Segment, between, delivered}
use runkit.Stream.Chain.{are_contiguous}
use runkit.Source.{accept_all, ok, fails, unrecognized_stream, failed, consumer_too_slow}
use runkit.Source.Local.{Tables, query, load_segment, read_from, read, load_watch_offset}
use runkit.Source.Local.Rows.{IsCut, IsSnapshot}
use runkit.Source.Local.Reading.{ReadsTables, read-ReadsTables}
use runkit.Source.Local.Whole.{read_to_end}
use runkit.Source.Local.Watching.{
  Watcher, opening, System, Reachable, fresh, begins, then_does, starts, opens, advances, receives,
  register, start_watch, deliver, deliver_each, receive, segment, watch_opened,
}
use runkit.Source.Local.Serving.{IsConsistent, Reachable-IsConsistent}
use runkit.Source.Local.Calls.{watch-are_contiguous}
use runkit.Examples.Data.{event_at, early, late, stream_events}

-- The rows of a stream in the order in which they happen to be stored, and a row of another stream.
abbrev stored : Tables
stored = record {
  streams = (5, 1) ∷ (7, 9) ∷ [];
  events =
      event_at 6 1 6
      ∷ record (event_at 0 1 5) { stream_id = 5 }
      ∷ event_at 3 1 5
      ∷ event_at 8 1 6
      ∷ event_at 4 2 5
      ∷ [];
}

abbrev by_two : List Segment
by_two =
    record { stream_id = 7; begin = 2; end = 7; envelopes = event_at 3 1 5 ∷ event_at 6 1 6 ∷ [] }
    ∷ record { stream_id = 7; begin = 7; end = 9; envelopes = event_at 8 1 6 ∷ [] }
    ∷ []

local_read_runs : read 2 (replicate 3 (some stored)) 7 (some (1 ∷ [])) 2 accept_all ≡ (by_two, ok)
unfolding read read_from load_segment query inc64
local_read_runs = refl

local_read_missing : read 2 (some stored ∷ []) 8 none 2 accept_all ≡ ([], fails unrecognized_stream)
unfolding read read_from load_segment
local_read_missing = refl

local_read_broken : read 2 (none ∷ []) 7 none 2 accept_all ≡ ([], fails (failed 0))
unfolding read read_from load_segment
local_read_broken = refl

stored-IsCut : IsCut 7 stream_events stored 9
stored-IsCut = record { prefix = refl; fits = omega arith }

stored-IsSnapshot : IsSnapshot 7 stream_events (some stored)
stored-IsSnapshot next e = subst (IsCut 7 stream_events stored) (some-injective _ _ e) stored-IsCut

read-ReadsTables_example :
    ReadsTables none 7 stream_events
      (some stored ∷ none ∷ [])
      2
      (read 2 (some stored ∷ none ∷ []) 7 none 2 accept_all)
read-ReadsTables_example =
    read-ReadsTables 3 9 7 stream_events none (omega arith) 2 (some stored ∷ none ∷ []) 2 accept_all
      refl (omega arith) (stored-IsSnapshot, (tt, tt))

read_to_end_example :
    let d = read 2 (replicate 8 (some stored)) 7 (some (1 ∷ [])) 2 accept_all in
    (d.1 ≡ ok) × (delivered d.0 ≡ between (some (1 ∷ [])) 2 9 stream_events)
read_to_end_example =
    read_to_end 3 9 7 stream_events (some (1 ∷ [])) (omega arith) 2 8 2 9 stored (omega arith) refl
      refl stored-IsCut (omega arith) (omega arith)

-- A call of Watch begins, a stream is opened, the call takes its opening segment, and two more segments
-- are delivered, for the second of which there is no room.
abbrev begun : Tables
begun = record stored { streams = (7, 3) ∷ [] }

abbrev first_two : Segment
first_two = record { stream_id = 7; begin = 3; end = 5; envelopes = early }

abbrev last_two : Segment
last_two = record { stream_id = 7; begin = 5; end = 9; envelopes = late }

abbrev system_at : List (ℕ × ℕ) → List (ℕ × Watcher) → List (ℕ × Watcher) → System
system_at offsets watchers removed = record {
  local = record {
    segment_size = 2;
    buffer_size = 1;
    offsets = offsets;
    watchers = watchers;
    removed = removed;
  };
  followers = offsets;
}

abbrev call : List Segment → List Segment → ℕ × Watcher
call received segments = (0, record { received = received; segments = segments; err = none })

abbrev lost_call : ℕ × Watcher
lost_call = (
  0,
  record { received = opening 7 3 ∷ []; segments = first_two ∷ []; err = some consumer_too_slow },
)

run : Reachable 2 1 (system_at ((7, 9) ∷ []) [] (lost_call ∷ []))
unfolding start_watch register load_watch_offset deliver deliver_each receive load_segment query
    inc64
run =
    then_does (system_at ((7, 5) ∷ []) (call (opening 7 3 ∷ []) (first_two ∷ []) ∷ []) []) _
      (then_does (system_at ((7, 3) ∷ []) (call (opening 7 3 ∷ []) [] ∷ []) []) _
        (then_does (system_at ((7, 3) ∷ []) (call [] (opening 7 3 ∷ []) ∷ []) []) _
          (then_does (system_at [] (call [] [] ∷ []) []) _
            (then_does (fresh 2 1) _ begins (starts (fresh 2 1) none 0 _ refl))
            (opens _ 7 3 (some begun) refl refl))
          (receives _ 0))
        (advances _ 7 3 (some stored) first_two false refl refl refl))
      (advances _ 7 5 (some stored) last_two false refl refl refl)

Reachable-IsConsistent_example : IsConsistent (system_at ((7, 9) ∷ []) [] (lost_call ∷ []))
Reachable-IsConsistent_example = Reachable-IsConsistent run

watch-are_contiguous_example :
    are_contiguous 7 none (watch_opened none [] (segment (opening 7 3) ∷ []) accept_all).0 ≡ true
watch-are_contiguous_example =
    watch-are_contiguous 2 1 (system_at ((7, 9) ∷ []) [] (lost_call ∷ [])) lost_call none []
      (segment (opening 7 3) ∷ []) accept_all 7 run (inr (inl refl)) refl
