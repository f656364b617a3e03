-- ===== src/Examples/Sources.antt =====
-- The sources on concrete streams.
use mathlib.Core.Option.{some-injective}
use runkit.Prelude.{
  length, replicate, All, inc64, ℕ, ◌≡◌, refl, subst, ◌≢◌, ◌↔◌, ◌⊎◌, true, false, none, some, List,
  [], ◌∷◌, arith,
}
use runkit.Stream.{Segment, Ordered, between, Covers, delivered}
use runkit.Source.{
  accept_all, ok, panics, fails, unrecognized_stream, offset_out_of_range, consumer_too_slow,
}
use runkit.Source.Memory.{read, read_from, unread, limit, segment}
use runkit.Source.Memory.Reading.{IsCut, IsSnapshot}
use runkit.Source.Memory.Whole.{Reads, read-Reads, read_complete}
use runkit.Source.Wire.{raw, WireSegment, aborted}
use runkit.Source.Server.Endpoints.{split_all}
use runkit.Source.Server.{split, split_from, add}
use runkit.Source.Server.Splitting.{IsSized, IsSplit, split-IsSplit}
use runkit.Source.Remote.{
  parse, valid, invalid, out_of_order, Received, sent, eof, broke, watch_error, read_error,
}
use runkit.Source.Remote
use runkit.Source.Remote.Accepting.{IsWellFormed, parse-eq-valid_iff}
use runkit.Source.Remote.Served.{then_received, IsSound, read-served}
use runkit.Source.Remote.Safety.{Contiguous, Fits, read-Contiguous}
use runkit.Source.Server.Endpoints.{read_events, read_status, watch_status, status}
use runkit.Source.Wire.{Code}
use runkit.Source.Remote.Pipeline.{serve, always, at_end, read-read_events}
use runkit.Source.Remote.Errors.{IsKnown, read_error-read_status, watch_error-watch_status}
use runkit.Source.{unrecognized_stream, failed}
use runkit.Examples.Data.{event_at, early, late, stream_events, grown, young, memory_of, toy}

-- The requested events of the stream, in the segments that a limit of one event leads to.
abbrev of_one : List Segment
of_one =
    record { stream_id = 7; begin = 3; end = 4; envelopes = event_at 3 1 5 ∷ [] }
    ∷ record { stream_id = 7; begin = 4; end = 7; envelopes = event_at 6 1 6 ∷ [] }
    ∷ record { stream_id = 7; begin = 7; end = 9; envelopes = event_at 8 1 6 ∷ [] }
    ∷ []

read_runs : read (replicate 4 (memory_of grown)) 7 (some (1 ∷ [])) 3 accept_all ≡ (of_one, ok)
unfolding read read_from unread limit segment inc64
read_runs = refl

read_unknown : read (memory_of grown ∷ []) 8 none 3 accept_all ≡ ([], fails unrecognized_stream)
unfolding read read_from unread
read_unknown = refl

read_beyond : read (memory_of grown ∷ []) 7 none 10 accept_all ≡ ([], fails offset_out_of_range)
unfolding read read_from unread
read_beyond = refl

read_no_types : read (memory_of grown ∷ []) 7 (some []) 3 accept_all ≡ ([], panics)
unfolding read
read_no_types = refl

grown-IsCut : IsCut stream_events grown
grown-IsCut = record { prefix = refl; fits = omega arith }

grown-IsSnapshot : IsSnapshot 7 stream_events (memory_of grown)
grown-IsSnapshot ms e = subst (IsCut stream_events) (some-injective _ _ e) grown-IsCut

young-IsSnapshot : IsSnapshot 7 stream_events (memory_of young)
young-IsSnapshot ms e =
    subst (IsCut stream_events) (some-injective _ _ e)
      (record { prefix = refl; fits = omega arith })

stream_events_are_valid : All (λ e. toy.is_valid e ≡ true) stream_events
stream_events_are_valid = (refl, (refl, (refl, (refl, tt))))

stream_events-IsSized : All (IsSized toy) stream_events
stream_events-IsSized = (omega arith, (omega arith, (omega arith, (omega arith, tt))))

sound :
    (offset type_id header : ℕ)
    → IsSound toy none 7 3 9 stream_events refl (event_at offset type_id header)
sound offset type_id header = (refl, ground arith, omega arith)

stream_events-IsSound : All (IsSound toy none 7 3 9 stream_events refl) stream_events
stream_events-IsSound = (sound 3 1 5, (sound 4 2 5, (sound 6 1 6, (sound 8 1 6, tt))))

abbrev early_multi : toy.Multi
early_multi = (5, raw (event_at 3 1 5) ∷ raw (event_at 4 2 5) ∷ [])

abbrev early_part : Segment
early_part = record { stream_id = 7; begin = 3; end = 6; envelopes = early }

abbrev whole : Segment
whole = record { stream_id = 7; begin = 3; end = 9; envelopes = stream_events }

abbrev whole_sent : List (WireSegment toy.Multi)
whole_sent =
    record {
      stream_id = 7;
      begin = 3;
      end = 6;
      multis = (5, raw (event_at 3 1 5) ∷ raw (event_at 4 2 5) ∷ []) ∷ [];
    }
    ∷ record {
      stream_id = 7;
      begin = 6;
      end = 9;
      multis = (6, raw (event_at 6 1 6) ∷ raw (event_at 8 1 6) ∷ []) ∷ [];
    }
    ∷ []

split_runs : split toy 10 whole ≡ whole_sent
unfolding split split_from add
split_runs = refl

-- Two multi-envelopes in one part: the second one has its header counted, and room for a third header is asked for.
split_at_limit : (length (split toy 18 whole) ≡ 1) × (length (split toy 17 whole) ≡ 2)
unfolding split split_from add
split_at_limit = (refl, refl)

some_events : Ordered 3 9 stream_events
some_events = omega arith

read-Reads_example :
    Reads
      (some (1 ∷ []))
      7
      stream_events
      (memory_of young ∷ memory_of grown ∷ [])
      3
      (read (memory_of young ∷ memory_of grown ∷ []) 7 (some (1 ∷ [])) 3 accept_all)
read-Reads_example =
    read-Reads 3 9 7 stream_events (some (1 ∷ [])) some_events
      (memory_of young ∷ memory_of grown ∷ []) 3 accept_all refl
      (young-IsSnapshot, (grown-IsSnapshot, tt))

read_complete_example :
    let d = read (replicate 7 (memory_of grown)) 7 (some (1 ∷ [])) 3 accept_all in
    (d.1 ≡ ok) × (delivered d.0 ≡ between (some (1 ∷ [])) 3 9 stream_events)
read_complete_example =
    read_complete 3 9 7 stream_events (some (1 ∷ [])) some_events 7 3 (memory_of grown) grown refl
      refl grown-IsCut (omega arith) (omega arith)

split-IsSplit_example : IsSplit toy 10 7 3 (split toy 10 whole) 9 stream_events
split-IsSplit_example =
    split-IsSplit toy 10 whole some_events stream_events_are_valid stream_events-IsSized

parse-eq-valid_iff_example :
    (parse toy (record { stream_id = 7; begin = 3; end = 6; multis = early_multi ∷ [] }) none
      ≡ valid early_part)
    ↔ IsWellFormed toy
        (record { stream_id = 7; begin = 3; end = 6; multis = early_multi ∷ [] })
        none
        early_part
parse-eq-valid_iff_example =
    parse-eq-valid_iff toy (record { stream_id = 7; begin = 3; end = 6; multis = early_multi ∷ [] })
      none early_part (omega arith)

received_Fits : All (Fits toy) (then_received toy whole_sent (broke false aborted ∷ []))
received_Fits = (omega arith, (omega arith, (tt, tt)))

abbrev received : List (Received toy)
received = then_received toy whole_sent (broke false aborted ∷ [])

remote_read_runs :
    Remote.read toy none 7 none 3 (then_received toy whole_sent (eof false ∷ [])) accept_all
    ≡ (early_part ∷ record { stream_id = 7; begin = 6; end = 9; envelopes = late } ∷ [], ok)
unfolding Remote.read Remote.read_from Remote.parse Remote.parse_multis Remote.parse_events
    Remote.parse_event inc64
remote_read_runs = refl

remote_watch_runs : (Remote.watch toy none none received accept_all).1 ≡ fails consumer_too_slow
unfolding Remote.watch Remote.watch_from Remote.parse Remote.parse_multis Remote.parse_events
    Remote.parse_event inc64 watch_error
remote_watch_runs = refl

read-Contiguous_example :
    Contiguous
      (some (1 ∷ []))
      7
      (some 3)
      (Remote.read toy none 7 (some (1 ∷ [])) 3 received accept_all).0
read-Contiguous_example =
    read-Contiguous toy none 7 (some (1 ∷ [])) 3 received accept_all received_Fits

read-served_example :
    let d =
      Remote.read toy none 7 none 3
        (then_received toy (split_all toy 10 (whole ∷ [])) (eof false ∷ []))
        accept_all in
    (d.1 ≡ ok) × Covers none 7 stream_events 3 d.0 9
read-served_example =
    read-served toy none 7 3 9 stream_events refl 10 3 9 (whole ∷ []) refl some_events (omega arith)
      stream_events-IsSound (refl, refl, omega arith, refl, refl)

read-read_events_example :
    let r =
      read_events toy
        (serve toy 7 (memory_of grown))
        (always toy)
        10
        7
        3
        (Remote.message_filter none) in
    let d = Remote.read toy none 7 none 3 (then_received toy r.0 (at_end toy r.1)) accept_all in
    (d.1 ≡ ok) × (delivered d.0 ≡ between none 3 9 stream_events)
read-read_events_example =
    read-read_events toy none 7 3 9 stream_events refl some_events 10 7 3 (memory_of grown) grown
      (omega arith) refl stream_events-IsSound refl grown-IsCut (omega arith) (omega arith)

read_error-read_status_example :
    (c : Code) × (read_status (fails unrecognized_stream) ≡ status c)
    × ((IsKnown unrecognized_stream × (Remote.read_error false c ≡ unrecognized_stream))
        ⊎ ((¬ IsKnown unrecognized_stream) × (Remote.read_error false c ≡ failed 0)))
read_error-read_status_example = read_error-read_status unrecognized_stream

watch_error-watch_status_example :
    (c : Code) × (watch_status (fails consumer_too_slow) ≡ status c)
    × (((consumer_too_slow ≡ consumer_too_slow)
          × (Remote.watch_error false (some c) ≡ consumer_too_slow))
        ⊎ ((consumer_too_slow ≢ consumer_too_slow)
            × (Remote.watch_error false (some c) ≡ failed 0)))
watch_error-watch_status_example = watch_error-watch_status consumer_too_slow
