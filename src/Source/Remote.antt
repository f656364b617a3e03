-- ===== src/Source/Remote.antt =====
-- internal/eventstream/source/remote.go: the source that consumes a remote engine's streams, and what
-- it checks of each segment before it delivers it.
pub mod Parsing
pub mod Accepting
pub mod Served
pub mod Safety
pub mod Pipeline
pub mod Errors
use runkit.Prelude.Maps.{get, set}
use runkit.Prelude.{
  ltb, leb, ◌==◌, if◌then◌else◌, ltb→lt, lt→ltb, leb→le, le→leb, lt→leb, ==_iff, ==_refl, tests,
  Bool-cases, Option-cases, length, get_elem?, take, drop, replicate, length-append,
  take-append-drop, length-drop, length-take, drop-append_le, drop-append_add,
  get_elem?-append_left, get_elem?-append_right, get_elem?_total, get_elem?-take, filter,
  filter-append, filter-filter, filter-eq, length-filter-le, All, All-append, All-replicate,
  All-filter, All-imp, All-left, All-right, has, u64_mod, inc64, inc64-eq-suc, ℕ, zero, suc, ◌+◌,
  ◌-◌, ◌*◌, ◌/◌, ◌%◌, ◌^◌, ◌≤◌, ◌<◌, min, max, ◌≡◌, refl, sym, ap, ◌∙◌, subst, ◌≢◌, ◌↔◌, ◌⊎◌, inl,
  inr, Bool, true, false, not, ◌&&◌, ◌||◌, Option, none, some, List, [], ◌∷◌, ◌++◌, map, append-nil,
  append_assoc, arith,
}
use runkit.Stream.{Envelope, Segment, wants}
use runkit.Source.{
  Error, consumer_too_slow, unrecognized_stream, offset_out_of_range, invalid_segment, unsupported,
  canceled, stopped_watching, failed, Callback, accepted, panics, ok, unfinished, fails, is_empty,
  Delivery, accept,
}
use runkit.Source.Wire.{
  Filter, all_types, specific, Position, absent, malformed, position, Raw, envelope, Protobuf,
  WireSegment, Code, aborted, unimplemented, not_found, out_of_range,
}

-- Why a segment is invalid.
pub data Reason : Type 0 where
  invalid_stream_id ends_before_begins invalid_envelope invalid_position no_position other_stream :
      Reason
  before_segment beyond_segment out_of_order not_requested : Reason

pub data Parsed {ℓ} (A : Type ℓ) : Type ℓ where
  valid : A → Parsed A
  invalid : Reason → Parsed A

infixl 5 ◌>>=◌
abbrev pub ◌>>=◌ {ℓ κ} : {A : Type ℓ} {B : Type κ} → Parsed A → (A → Parsed B) → Parsed B
valid a >>= f = f a
invalid r >>= f = invalid r

-- The checks on one event's offset.
abbrev pub check_offset : ℕ → ℕ → ℕ → ℕ → Option Reason
check_offset begin end next offset =
    if ltb offset begin
    then some before_segment
    else if leb end offset
    then some beyond_segment
    else if ltb offset next
    then some out_of_order
    else none

-- The checks on one event of a multi-envelope; it passes as an envelope with its position.
unfoldable pub parse_event : ℕ → ℕ → ℕ → Option (List ℕ) → ℕ → Raw → Parsed Envelope
parse_event id begin end types next r = elim r.position [
  | malformed ↦ invalid invalid_position
  | absent ↦ invalid no_position
  | position stream_id offset ↦
      if not (stream_id == id)
      then invalid other_stream
      else elim (check_offset begin end next offset) [
        | some reason ↦ invalid reason
        | none ↦
            if wants types r.type_id
            then valid (envelope r stream_id offset)
            else invalid not_requested
      ]
]

-- The loop over the events of one multi-envelope, with the lowest offset that the next event may have.
unfoldable pub parse_events :
    ℕ → ℕ → ℕ → Option (List ℕ) → ℕ → List Raw → Parsed (List Envelope × ℕ)
parse_events id begin end types next [] = valid ([], next)
parse_events id begin end types next (r ∷ rs) = parse_event id begin end types next r >>= λ e.
    parse_events id begin end types (inc64 e.offset) rs >>= λ (es, next'). valid (e ∷ es, next')

-- watchError; an error without a code is the end of the stream.
unfoldable pub watch_error : Bool → Option Code → Error
watch_error true c = canceled
watch_error false none = stopped_watching
watch_error false (some aborted) = consumer_too_slow
watch_error false (some unimplemented) = unsupported
watch_error false (some _) = failed 0

-- readError.
unfoldable pub read_error : Bool → Code → Error
read_error true c = canceled
read_error false not_found = unrecognized_stream
read_error false out_of_range = offset_out_of_range
read_error false _ = failed 0

-- messageFilter.
unfoldable pub message_filter : Option (List ℕ) → Filter
message_filter none = all_types
message_filter (some types) = specific types

-- A segment must begin where the previous one of its stream ended, if there was one.
abbrev pub follows : Segment → Option ℕ → Bool
follows seg none = true
follows seg (some end) = seg.begin == end

module _ (pb : Protobuf) where
  open pb use {Multi, members, valid_id}

  -- The loop over the multi-envelopes of a segment.
  unfoldable pub parse_multis :
      ℕ → ℕ → ℕ → Option (List ℕ) → ℕ → List Multi → Parsed (List Envelope × ℕ)
  parse_multis id begin end types next [] = valid ([], next)
  parse_multis id begin end types next (m ∷ ms) =
      if not (pb.valid m)
      then invalid invalid_envelope
      else parse_events id begin end types next (members m) >>= λ (es, next').
          parse_multis id begin end types next' ms >>= λ (es', next''). valid (es ++ es', next'')

  -- parseSegment.
  unfoldable pub parse : WireSegment Multi → Option (List ℕ) → Parsed Segment
  parse w types =
      if not (valid_id w.stream_id)
      then invalid invalid_stream_id
      else if ltb w.end w.begin
      then invalid ends_before_begins
      else parse_multis w.stream_id w.begin w.end types w.begin w.multis >>= λ (es, _).
          valid (record { stream_id = w.stream_id; begin = w.begin; end = w.end; envelopes = es })

  -- What one call of Recv answers; an error comes with whether the context is canceled by then.
  pub data Received : Type 0 where
    sent : WireSegment Multi → Received
    eof : Bool → Received
    broke : Bool → Code → Received

  -- The loop of Remote.Watch, with the end of the last segment of each stream.
  unfoldable pub watch_from : List (ℕ × ℕ) → Option (List ℕ) → List Received → Callback → Delivery
  watch_from ends types [] fn = ([], unfinished)
  watch_from ends types (eof cancel ∷ rs) fn = ([], fails (watch_error cancel none))
  watch_from ends types (broke cancel code ∷ rs) fn = ([], fails (watch_error cancel (some code)))
  watch_from ends types (sent w ∷ rs) fn = elim (parse w types) [
    | invalid r ↦ ([], fails invalid_segment)
    | valid seg ↦ elim (follows seg (get ends seg.stream_id)) [
      | false ↦ ([], fails invalid_segment)
      | true ↦ elim (fn [] seg) [
        | some e ↦ ([], fails e)
        | none ↦ accept seg (watch_from (set ends seg.stream_id seg.end) types rs (accepted seg fn))
      ]
    ]
  ]

  -- Remote.Watch; `call` is the error of the call of WatchEvents, if it fails.
  unfoldable pub watch :
      Option (Bool × Code) → Option (List ℕ) → List Received → Callback → Delivery
  watch call types rs fn = if is_empty types then ([], panics) else elim call [
    | some (cancel, code) ↦ ([], fails (watch_error cancel (some code)))
    | none ↦ watch_from [] types rs fn
  ]

  -- The loop of Remote.Read.
  unfoldable pub read_from : ℕ → Option (List ℕ) → ℕ → List Received → Callback → Delivery
  read_from id types begin [] fn = ([], unfinished)
  read_from id types begin (eof cancel ∷ rs) fn = ([], ok)
  read_from id types begin (broke cancel code ∷ rs) fn = ([], fails (read_error cancel code))
  read_from id types begin (sent w ∷ rs) fn = elim (parse w types) [
    | invalid r ↦ ([], fails invalid_segment)
    | valid seg ↦ elim (seg.stream_id == id && seg.begin == begin) [
      | false ↦ ([], fails invalid_segment)
      | true ↦ elim (fn [] seg) [
        | some e ↦ ([], fails e)
        | none ↦ accept seg (read_from id types seg.end rs (accepted seg fn))
      ]
    ]
  ]

  -- Remote.Read; `call` is the error of the call of ReadEvents, if it fails.
  unfoldable pub read :
      Option (Bool × Code) → ℕ → Option (List ℕ) → ℕ → List Received → Callback → Delivery
  read call id types begin rs fn = if is_empty types then ([], panics) else elim call [
    | some (cancel, code) ↦ ([], fails (read_error cancel code))
    | none ↦ read_from id types begin rs fn
  ]
