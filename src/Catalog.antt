-- ===== src/Catalog.antt =====
-- internal/eventstream/catalog.go: the index of the streams of all sources, and how a consumer moves from a
-- feed that is closed to another one of the same stream.
pub mod Index
pub mod Changes
pub mod Consuming
use runkit.Prelude.{
  ltb, leb, ◌==◌, if◌then◌else◌, ltb→lt, lt→ltb, leb→le, le→leb, lt→leb, ==_iff, ==_refl, tests,
  Bool-cases, Option-cases, length, get_elem?, take, drop, replicate, length-append,
  take-append-drop, length-drop, length-take, drop-append_le, drop-append_add,
  get_elem?-append_left, get_elem?-append_right, get_elem?_total, get_elem?-take, filter,
  filter-append, filter-filter, filter-eq, length-filter-le, All, All-append, All-replicate,
  All-filter, All-imp, All-left, All-right, has, u64_mod, inc64, inc64-eq-suc, ℕ, zero, suc, ◌+◌,
  ◌-◌, ◌*◌, ◌/◌, ◌%◌, ◌^◌, ◌≤◌, ◌<◌, min, max, ◌≡◌, refl, sym, ap, ◌∙◌, subst, ◌≢◌, ◌↔◌, ◌⊎◌, inl,
  inr, Bool, true, false, not, ◌&&◌, ◌||◌, Option, none, some, List, [], ◌∷◌, ◌++◌, map, append-nil,
  append_assoc, arith,
}
use runkit.Prelude.Maps.{get, set, delete}
use runkit.Stream.{Segment, wants}
use runkit.Source.{
  Error, stream_not_found, feed_closed, canceled, Callback, Ending, panics, unfinished, fails,
}
use runkit.Feed.{Round, consume, accepted_all, follow}

-- `available` has the addresses of the feeds of a stream, and `current` the one that consumers are served from.
pub record CatalogStream : Type 0 where
  pub available : List ℕ
  pub current : Option ℕ

-- `closed` has the feeds that were closed; a cache size that is not positive is a panic of Watch.
pub record Catalog : Type 0 where
  pub streams : List (ℕ × CatalogStream)
  pub stream_ids : List ℕ
  pub closed : List ℕ

-- The set of stream IDs with one of them added or removed.
unfoldable pub publish : List ℕ → ℕ → Bool → List ℕ
publish ids id true = if has ids id then ids else id ∷ ids
publish ids id false = if has ids id then filter (λ i. not (i == id)) ids else ids

-- Catalog.add, with the address of the new feed.
unfoldable pub add : ℕ → ℕ → Catalog → Catalog
add f id c =
    let cs : CatalogStream = elim (get c.streams id) [
      | some cs ↦ cs
      | none ↦ record { available = []; current = none }
    ] in
    let available = f ∷ cs.available in
    let first = length available == 1 in
    record c {
      streams =
          set c.streams id
            (record { available = available; current = if first then some f else cs.current });
      stream_ids = if first then publish c.stream_ids id true else c.stream_ids;
    }

-- Whether consumers are served from a feed.
abbrev pub is_current : Option ℕ → ℕ → Bool
is_current none f = false
is_current (some g) f = g == f

-- Any feed of those that are available.
abbrev pub any_feed : List ℕ → Option ℕ
any_feed [] = none
any_feed (f ∷ fs) = some f

-- Catalog.remove of the feed at an address, of a stream; `none` is a panic on a stream that is not there.
unfoldable pub remove : ℕ → ℕ → Catalog → Option Catalog
remove f id c = elim (get c.streams id) [
  | none ↦ none
  | some cs ↦
      let available = filter (λ g. not (g == f)) cs.available in
      if not (is_current cs.current f)
      then some (record c {
        streams = set c.streams id (record { available = available; current = cs.current });
        closed = f ∷ c.closed;
      })
      else elim (any_feed available) [
        | some next ↦ some (record c {
          streams = set c.streams id (record { available = available; current = some next });
          closed = f ∷ c.closed;
        })
        | none ↦ some (record c {
          streams = delete c.streams id;
          stream_ids = publish c.stream_ids id false;
          closed = f ∷ c.closed;
        })
      ]
]

-- What the loop of Catalog.Consume meets in one round: the current feed, if any, by its types and what
-- happens while it is consumed, and whether the context is canceled after that.
pub record Turn : Type 0 where
  pub feed : Option (Option (List ℕ) × List Round)
  pub canceled_after : Bool

abbrev pub is_feed_closed : Ending → Bool
is_feed_closed (fails feed_closed) = true
is_feed_closed _ = false

-- Whether the feed carries every type.
abbrev pub carries : Option (List ℕ) → List ℕ → Bool
carries ftypes [] = true
carries ftypes (t ∷ ts) = wants ftypes t && carries ftypes ts

unfoldable pub consume_from : ℕ → List ℕ → List Turn → ℕ → Callback → List Segment × ℕ × Ending
consume_from id types [] cp fn = ([], cp, unfinished)
consume_from id types (t ∷ ts) cp fn = elim t.feed [
  | none ↦ ([], cp, fails stream_not_found)
  | some (ftypes, rounds) ↦ elim (carries ftypes types) [
    | false ↦ ([], cp, panics)
    | true ↦
        let (segs, cp', ending) = consume id types rounds cp fn in
        elim (is_feed_closed ending) [
          | false ↦ (segs, cp', ending)
          | true ↦ elim t.canceled_after [
            | true ↦ (segs, cp', fails canceled)
            | false ↦ follow segs (consume_from id types ts cp' (accepted_all segs fn))
          ]
        ]
  ]
]

-- Catalog.Consume; `known` is whether the catalog has the stream when it begins.
unfoldable pub consume_stream :
    Bool → ℕ → List ℕ → List Turn → ℕ → Callback → List Segment × ℕ × Ending
consume_stream known id [] ts begin fn = ([], begin, panics)
consume_stream known id types ts begin fn =
    if known then consume_from id types ts begin fn else ([], begin, fails stream_not_found)
