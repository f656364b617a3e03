-- ===== src/Feed.antt =====
-- internal/eventstream/feed.go: how consumers of one stream are served from one source, by its cache of recent
-- events or by reading from the source.
pub mod Caching
pub mod Consuming
use runkit.Prelude.{
  ltb, leb, ◌==◌, if◌then◌else◌, ltb→lt, lt→ltb, leb→le, le→leb, lt→leb, ==_iff, ==_refl, tests,
  Bool-cases, Option-cases, length, get_elem?, take, drop, replicate, length-append,
  take-append-drop, length-drop, length-take, drop-append_le, drop-append_add,
  get_elem?-append_left, get_elem?-append_right, get_elem?_total, get_elem?-take, filter,
  filter-append, filter-filter, filter-eq, length-filter-le, All, All-append, All-replicate,
  All-filter, All-imp, All-left, All-right, has, u64_mod, inc64, inc64-eq-suc, ℕ, zero, suc, ◌+◌,
  ◌-◌, ◌*◌, ◌/◌, ◌%◌, ◌^◌, ◌≤◌, ◌<◌, min, max, ◌≡◌, refl, sym, ap, ◌∙◌, subst, ◌≢◌, ◌↔◌, ◌⊎◌, inl,
  inr, Bool, true, false, not, ◌&&◌, ◌||◌, Option, none, some, List, [], ◌∷◌, ◌++◌, map, append-nil,
  append_assoc, arith,
}
use runkit.Stream.{Segment}
use runkit.Source.{
  Error, unrecognized_stream, offset_out_of_range, invalid_segment, canceled, feed_closed, failed,
  persistent, Callback, accepted, Ending, unfinished, fails,
}
use runkit.Cache.{Cache, Relation, before, within, after}
use runkit.Cache

-- `reads` counts the reads from the source that are in progress.
pub record Feed : Type 0 where
  pub id : ℕ
  pub types : Option (List ℕ)
  pub cache : Cache
  pub closed : Bool
  pub reads : ℕ

-- The cache that a segment is appended to: one that does not continue restarts it.
abbrev pub ready_cache : Feed → Segment → Cache
ready_cache f seg =
    if not (seg.begin == f.cache.segment.end) then Cache.reset f.cache seg.begin else f.cache

abbrev pub store : Feed → Option Cache → Option Feed
store f none = none
store f (some c) = some (record f { cache = c })

-- feed.Append; `none` is a panic of the cache.
unfoldable pub append : Feed → Segment → Option Feed
append f seg =
    if f.closed
    then some f
    else store f (Cache.append (ready_cache f seg) seg.begin seg.end seg.envelopes)

-- feed.Close.
unfoldable pub close : Feed → Feed
close f = record f { closed = true }

-- feed.startRead; `none` is false.
unfoldable pub start_read : Feed → Option Feed
start_read f = if f.closed then none else some (record f { reads = f.reads + 1 })

-- The end of a read, as recorded by the deferred call.
unfoldable pub finish_read : Feed → Feed
finish_read f = record f { reads = f.reads - 1 }

-- A call of Source.Read: what it delivers unless it is stopped, each time with the cached segment as it
-- stands then, and the error that it returns by itself.
pub record SourceRead : Type 0 where
  pub delivers : List (Segment × Cache.Segment)
  pub result : Option Error

pub data Stop : Type 0 where
  by_consumer : Error → Stop
  caught_up returned : Stop

-- The callback that feed.read gives to the source: what it passes on, up to which offset, and why the read
-- stopped.
unfoldable pub pass_on : List (Segment × Cache.Segment) → ℕ → Callback → List Segment × ℕ × Stop
pass_on [] cp fn = ([], cp, returned)
pass_on ((seg, c) ∷ rest) cp fn =
    let (segs, cp', stop) = pass_on rest seg.end (accepted seg fn) in
    elim (fn [] seg) [
      | some e ↦ ([], cp, by_consumer e)
      | none ↦
          if leb c.begin seg.end then (seg ∷ [], seg.end, caught_up) else (seg ∷ segs, cp', stop)
    ]

-- The errors that are unlikely to go away soon.
abbrev pub is_persistent : Error → Bool
is_persistent unrecognized_stream = true
is_persistent offset_out_of_range = true
is_persistent invalid_segment = true
is_persistent _ = false

-- The switch at the end of feed.read.
unfoldable pub outcome : Stop → Bool → Option Error → Option Error
outcome (by_consumer e) closed result = some e
outcome caught_up closed result = none
outcome returned true result = some feed_closed
outcome returned false none = none
outcome returned false (some e) = if is_persistent e then some (persistent e) else some e

-- What the loop of feed.consume meets in one round: the cached segment, whether a read may begin, what the
-- source does if it is read from an offset, whether the feed is closed after that, and what ends a wait.
pub data Woken : Type 0 where
  by_context by_change by_closure : Woken

pub record Round : Type 0 where
  pub seen : Cache.Segment
  pub may_read : Bool
  pub source : ℕ → SourceRead
  pub closed_after : Bool
  pub woken : Woken

-- feed.read.
unfoldable pub read : Round → ℕ → Callback → List Segment × ℕ × Option Error
read r cp fn =
    let (segs, cp', stop) = pass_on (r.source cp).delivers cp fn in
    if not r.may_read
    then ([], cp, some feed_closed)
    else (segs, cp', outcome stop r.closed_after (r.source cp).result)

-- The callback after it has accepted some segments.
abbrev pub accepted_all : List Segment → Callback → Callback
accepted_all [] fn = fn
accepted_all (seg ∷ segs) fn = accepted_all segs (accepted seg fn)

abbrev pub follow : List Segment → List Segment × ℕ × Ending → List Segment × ℕ × Ending
follow segs (more, cp, ending) = (segs ++ more, cp, ending)

-- The loop of feed.consume: what it delivers, the offset at which delivery stopped, and how it ended.
unfoldable pub consume_from :
    ℕ → List ℕ → List Round → ℕ → Bool → Callback → List Segment × ℕ × Ending
consume_from id types [] cp confirmed fn = ([], cp, unfinished)
consume_from id types (r ∷ rs) cp confirmed fn =
    let found = Cache.read r.seen cp types in
    let seg : Segment = record {
      stream_id = id;
      begin = cp;
      end = r.seen.end;
      envelopes = found.0;
    } in
    let (segs, cp', err) = read r cp fn in
    elim found.1 [
      | within ↦ elim (fn [] seg) [
        | some e ↦ ([], cp, fails e)
        | none ↦ follow (seg ∷ []) (consume_from id types rs r.seen.end true (accepted seg fn))
      ]
      | before ↦ elim err [
        | some e ↦ (segs, cp', fails e)
        | none ↦ elim (cp' == cp) [
          | true ↦ (segs, cp', fails (failed 1))
          | false ↦ follow segs (consume_from id types rs cp' true (accepted_all segs fn))
        ]
      ]
      | after ↦ elim (ltb r.seen.end cp && not confirmed) [
        | true ↦ elim err [
          | some e ↦ (segs, cp', fails e)
          | none ↦ follow segs (consume_from id types rs cp' true (accepted_all segs fn))
        ]
        | false ↦ elim r.woken [
          | by_context ↦ ([], cp, fails canceled)
          | by_change ↦ consume_from id types rs cp confirmed fn
          | by_closure ↦ ([], cp, fails feed_closed)
        ]
      ]
    ]

-- feed.consume.
unfoldable pub consume : ℕ → List ℕ → List Round → ℕ → Callback → List Segment × ℕ × Ending
consume id types rs begin fn = consume_from id types rs begin false fn
