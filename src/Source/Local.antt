-- ===== src/Source/Local.antt =====
-- internal/eventstream/source/local.go: the source of the streams in the application's database. This file
-- has its tables, its query and Local.Read; the parts of Local.Watch are in Source/Local/Watching.antt.
pub mod Sorting
pub mod Rows
pub mod Loading
pub mod Reading
pub mod Whole
pub mod Watching
pub mod Contiguity
pub mod Serving
pub mod Calls
use runkit.Prelude.{
  ltb, leb, ◌==◌, if◌then◌else◌, ltb→lt, lt→ltb, leb→le, le→leb, lt→leb, ==_iff, ==_refl, tests,
  Bool-cases, Option-cases, length, get_elem?, take, drop, replicate, length-append,
  take-append-drop, length-drop, length-take, drop-append_le, drop-append_add,
  get_elem?-append_left, get_elem?-append_right, get_elem?_total, get_elem?-take, filter,
  filter-append, filter-filter, filter-eq, length-filter-le, All, All-append, All-replicate,
  All-filter, All-imp, All-left, All-right, has, u64_mod, inc64, inc64-eq-suc, ℕ, zero, suc, ◌+◌,
  ◌-◌, ◌*◌, ◌/◌, ◌%◌, ◌^◌, ◌≤◌, ◌<◌, min, max, ◌≡◌, refl, sym, ap, ◌∙◌, subst, ◌≢◌, ◌↔◌, ◌⊎◌, inl,
  inr, Bool, true, false, not, ◌&&◌, ◌||◌, Option, none, some, List, [], ◌∷◌, ◌++◌, map, append-nil,
  append_assoc, arith,
}
use runkit.Prelude.Maps.{get}
use runkit.Stream.{Envelope, Segment, wants}
use runkit.Source.{
  Error, unrecognized_stream, offset_out_of_range, stream_not_found, failed, Callback, accepted,
  Ending, panics, ok, unfinished, fails, is_empty, Delivery, accept,
}

-- The tables eventstream.streams, with the next offset of each stream, and eventstream.events.
pub record Tables : Type 0 where
  pub streams : List (ℕ × ℕ)
  pub events : List Envelope

-- ORDER BY stream_offset.
abbrev pub insert_by_offset : Envelope → List Envelope → List Envelope
insert_by_offset x [] = x ∷ []
insert_by_offset x (y ∷ ys) =
    if leb x.offset y.offset then x ∷ y ∷ ys else y ∷ insert_by_offset x ys

abbrev pub order_by_offset : List Envelope → List Envelope
order_by_offset [] = []
order_by_offset (x ∷ xs) = insert_by_offset x (order_by_offset xs)

-- The rows of events that the query of buildSegmentQuery gives.
unfoldable pub query : ℕ → ℕ → Option (List ℕ) → ℕ → Tables → List Envelope
query size id types begin t = take size (
    order_by_offset
      (filter (λ e. e.stream_id == id && (leb begin e.offset && wants types e.type_id)) t.events))

-- The position that is set on an event that was read.
abbrev pub with_position : ℕ → Envelope → Envelope
with_position id e = record e { stream_id = id }

-- The end of the segment under construction, after each row.
abbrev pub end_after : ℕ → List Envelope → ℕ
end_after end [] = end
end_after end (e ∷ es) = end_after (inc64 e.offset) es

-- A segment, and whether the stream is exhausted.
pub data Loaded : Type 0 where
  loaded : Segment → Bool → Loaded
  refused : Error → Loaded

-- Local.loadSegment, on the tables as they stand; `none` is an error of the database.
unfoldable pub load_segment : ℕ → ℕ → Option (List ℕ) → ℕ → Option Tables → Loaded
load_segment size id types begin none = refused (failed 0)
load_segment size id types begin (some t) = elim (get t.streams id) [
  | none ↦ refused unrecognized_stream
  | some next ↦
      if ltb next begin
      then refused offset_out_of_range
      else (let rows = query size id types begin t in
          let exhausted = ltb (length rows) size in
          let end = end_after begin rows in
          loaded
            (record {
              stream_id = id;
              begin = begin;
              end = if exhausted then max end next else end;
              envelopes = map (with_position id) rows;
            })
            exhausted)
]

-- Local.loadWatchOffset.
unfoldable pub load_watch_offset : ℕ → Option Tables → Error ⊎ ℕ
load_watch_offset id none = inl (failed 0)
load_watch_offset id (some t) = elim (get t.streams id) [
  | none ↦ inl stream_not_found
  | some next ↦ inr next
]

-- The loop of Local.Read, with the tables as they stand at each query.
unfoldable pub read_from : ℕ → List (Option Tables) → ℕ → Option (List ℕ) → ℕ → Callback → Delivery
read_from size [] id types begin fn = ([], unfinished)
read_from size (t ∷ ts) id types begin fn = elim (load_segment size id types begin t) [
  | refused e ↦ ([], fails e)
  | loaded seg exhausted ↦ elim (ltb seg.begin seg.end) [
    | false ↦ elim exhausted [ true ↦ ([], ok) | false ↦ read_from size ts id types begin fn ]
    | true ↦ elim (fn [] seg) [
      | some e ↦ ([], fails e)
      | none ↦ elim exhausted [
        | true ↦ accept seg ([], ok)
        | false ↦ accept seg (read_from size ts id types seg.end (accepted seg fn))
      ]
    ]
  ]
]

-- Local.Read.
unfoldable pub read : ℕ → List (Option Tables) → ℕ → Option (List ℕ) → ℕ → Callback → Delivery
read size ts id types begin fn =
    if is_empty types
    then ([], panics)
    else if size == 0
    then ([], panics)
    else read_from size ts id types begin fn

-- filterSegment.
unfoldable pub filter_segment : Segment → Option (List ℕ) → Segment
filter_segment seg none = seg
filter_segment seg (some types) = record seg {
  envelopes = filter (λ e. has types e.type_id) seg.envelopes;
}
