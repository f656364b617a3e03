-- ===== src/Source/Memory.antt =====
-- internal/eventstream/source/memory.go: a source that holds its streams in memory.
pub mod Reading
pub mod Whole
use runkit.Prelude.Maps.{get, set}
use runkit.Prelude.{
  ltb, leb, ◌==◌, if◌then◌else◌, ltb→lt, lt→ltb, leb→le, le→leb, lt→leb, ==_iff, ==_refl, tests,
  Bool-cases, Option-cases, length, get_elem?, take, drop, length-append, take-append-drop,
  length-drop, length-take, drop-append_le, drop-append_add, get_elem?-append_left,
  get_elem?-append_right, get_elem?_total, filter, filter-append, filter-filter, filter-eq,
  length-filter-le, All, All-append, has, u64_mod, inc64, inc64-eq-suc, ℕ, zero, suc, ◌+◌, ◌-◌, ◌*◌,
  ◌/◌, ◌%◌, ◌^◌, ◌≤◌, ◌<◌, min, max, ◌≡◌, refl, sym, ap, ◌∙◌, subst, ◌≢◌, ◌↔◌, ◌⊎◌, inl, inr, Bool,
  true, false, not, ◌&&◌, ◌||◌, Option, none, some, List, [], ◌∷◌, ◌++◌, map, append-nil,
  append_assoc, arith,
}
use runkit.Stream.{Envelope, Segment, wants}
use runkit.Source.{
  Error, unrecognized_stream, offset_out_of_range, canceled, Callback, accepted, Ending, panics, ok,
  unfinished, fails, is_empty, Delivery, accept,
}

pub record MemoryStream : Type 0 where
  pub envelopes : List Envelope
  pub end : ℕ

-- `changes` counts what is stored in the observable `changed`.
pub record Memory : Type 0 where
  pub segment_size : ℕ
  pub streams : List (ℕ × MemoryStream)
  pub changes : ℕ

-- Memory.Append; `none` is its panic.
unfoldable pub append : Memory → Segment → Option Memory
append m seg =
    let ms : MemoryStream = elim (get m.streams seg.stream_id) [
      | some ms ↦ ms
      | none ↦ record { envelopes = []; end = seg.begin }
    ] in
    if not (seg.begin == ms.end)
    then none
    else some (record m {
      streams =
          set m.streams seg.stream_id
            (record { envelopes = ms.envelopes ++ seg.envelopes; end = seg.end });
      changes = suc m.changes;
    })

-- Memory.segment: the loop skips what is outside the range or of another type.
unfoldable pub segment : ℕ → MemoryStream → Option (List ℕ) → ℕ → ℕ → Segment
segment id ms types begin end = record {
  stream_id = id;
  begin = begin;
  end = end;
  envelopes =
      filter (λ e. not (ltb e.offset begin || leb end e.offset) && wants types e.type_id)
        ms.envelopes;
}

pub data Unread : Type 0 where
  found : Segment → Unread
  at_end broken : Unread
  refused : Error → Unread

-- The end of Memory.unread, which limits a segment to SegmentSize events. `broken` is an index that is out
-- of range.
unfoldable pub limit : ℕ → Segment → Unread
limit size seg =
    if ltb 0 size && ltb size (length seg.envelopes)
    then (let envelopes = take size seg.envelopes in
        elim (get_elem? envelopes (size - 1)) [
          | none ↦ broken
          | some e ↦ found (record seg { envelopes = envelopes; end = inc64 e.offset })
        ])
    else found seg

-- Memory.unread.
unfoldable pub unread : Memory → ℕ → Option (List ℕ) → ℕ → Unread
unread m id types begin = elim (get m.streams id) [
  | none ↦ refused unrecognized_stream
  | some ms ↦
      if ltb ms.end begin
      then refused offset_out_of_range
      else if begin == ms.end
      then at_end
      else limit m.segment_size (segment id ms types begin ms.end)
]

-- The loop of Memory.Read. The mutex is released between rounds, so each round has the source as it
-- stands then.
unfoldable pub read_from : List Memory → ℕ → Option (List ℕ) → ℕ → Callback → Delivery
read_from [] id types begin fn = ([], unfinished)
read_from (m ∷ ms) id types begin fn = elim (unread m id types begin) [
  | refused e ↦ ([], fails e)
  | broken ↦ ([], panics)
  | at_end ↦ ([], ok)
  | found seg ↦ elim (fn [] seg) [
    | some e ↦ ([], fails e)
    | none ↦ accept seg (read_from ms id types seg.end (accepted seg fn))
  ]
]

-- Memory.Read.
unfoldable pub read : List Memory → ℕ → Option (List ℕ) → ℕ → Callback → Delivery
read ms id types begin fn = if is_empty types then ([], panics) else read_from ms id types begin fn

-- Memory.undelivered: a segment of each stream that has grown, with the offsets delivered up to.
unfoldable pub undelivered :
    List (ℕ × MemoryStream) → Option (List ℕ) → List (ℕ × ℕ) → List Segment × List (ℕ × ℕ)
undelivered [] types delivered = ([], delivered)
undelivered ((id, ms) ∷ rest) types delivered =
    let seen = get delivered id in
    let begin : ℕ = elim seen [ none ↦ ms.end | some offset ↦ offset ] in
    let known : Bool = elim seen [ none ↦ false | some _ ↦ true ] in
    let skipped = undelivered rest types delivered in
    let (segs, delivered') = undelivered rest types (set delivered id ms.end) in
    if known && begin == ms.end
    then skipped
    else (segment id ms types begin ms.end ∷ segs, delivered')

-- The segments of one round of Memory.Watch, up to one that is refused.
deliver_all : List Segment → Callback → List Segment × Option Error × Callback
deliver_all [] fn = ([], none, fn)
deliver_all (seg ∷ segs) fn = elim (fn [] seg) [
  | some e ↦ ([], some e, fn)
  | none ↦ let (ss, e, fn') = deliver_all segs (accepted seg fn) in (seg ∷ ss, e, fn')
]

watch_from : List Memory → Option (List ℕ) → List (ℕ × ℕ) → Callback → Delivery
unfolding undelivered deliver_all
watch_from [] types delivered fn = ([], fails canceled)
watch_from (m ∷ ms) types delivered fn =
    let (segs, delivered') = undelivered m.streams types delivered in
    let (ss, refusal, fn') = deliver_all segs fn in
    let more = watch_from ms types delivered' fn' in
    elim refusal [ some e ↦ (ss, fails e) | none ↦ (ss ++ more.0, more.1) ]

-- Memory.Watch, with the source as it stands each time that it is woken; after that its context is
-- canceled.
unfoldable pub watch : List Memory → Option (List ℕ) → Callback → Delivery
unfolding watch_from
watch ms types fn = if is_empty types then ([], panics) else watch_from ms types [] fn
