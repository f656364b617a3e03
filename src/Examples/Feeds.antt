-- ===== src/Examples/Feeds.antt =====
-- Feeds and the catalog on a concrete stream.
use runkit.Prelude.{
  ◌==◌, if◌then◌else◌, ==_iff, Bool-cases, has, ℕ, ◌≡◌, refl, sym, inl, inr, true, false, none,
  some, List, [], ◌∷◌, arith,
}
use runkit.Prelude.Maps.{get}
use runkit.Stream.{Segment, Ordered, Covers}
use runkit.Source.{accept_all, fails, feed_closed, stream_not_found}
use runkit.Cache.{Cache}
use runkit.Cache
use runkit.Feed.{
  Feed, append, SourceRead, Round, by_closure, read, pass_on, outcome, consume, consume_from,
}
use runkit.Feed.Caching.{IsFed, append-IsFed}
use runkit.Feed.Consuming.{IsWatched, IsFaithful, consume-Covers}
use runkit.Catalog.{CatalogStream, Catalog, Turn, add, remove, publish, consume_stream}
use runkit.Catalog
use runkit.Catalog.Consuming.{consume_stream-Covers}
use runkit.Catalog.Index.{IsIndexed}
use runkit.Catalog.Changes.{IsNew, add-IsIndexed, remove-IsIndexed}
use runkit.Examples.Data.{event_at, early, late, stream_events}

some_events : Ordered 3 9 stream_events
some_events = omega arith

abbrev recent : Cache
recent = record { capacity = 3; segment = record { begin = 3; end = 6; events = early } }

abbrev feed_of : Feed
feed_of = record { id = 7; types = none; cache = recent; closed = false; reads = 0 }

fed : IsFed stream_events feed_of
fed = record {
  from = 3;
  fed = record {
    holds_some = omega arith;
    fits = omega arith;
    starts = omega arith;
    history = omega arith;
    ordered = omega arith;
    bounded = omega arith;
    complete = refl;
  };
}

append-IsFed_example :
    (f' : Feed) × (append feed_of (record { stream_id = 7; begin = 6; end = 9; envelopes = late })
      ≡ some f')
    × IsFed stream_events f'
    × (f'.cache.segment.end ≡ 9)
append-IsFed_example =
    append-IsFed 3 9 stream_events some_events feed_of
      (record { stream_id = 7; begin = 6; end = 9; envelopes = late }) refl fed (omega arith)
      (omega arith) refl

-- The events of type 1 up to the offset where the cache begins.
abbrev caught : Segment
caught = record { stream_id = 7; begin = 3; end = 6; envelopes = event_at 3 1 5 ∷ [] }

abbrev tail : Segment
tail = record { stream_id = 7; begin = 6; end = 9; envelopes = late }

abbrev cached : Cache.Segment
cached = record { begin = 6; end = 9; events = late }

-- A source that has the segment from offset 3.
abbrev source_at : ℕ → SourceRead
source_at cp = record { delivers = if cp == 3 then (caught, cached) ∷ [] else []; result = none }

abbrev round_of : Round
round_of = record {
  seen = cached;
  may_read = true;
  source = source_at;
  closed_after = false;
  woken = by_closure;
}

consume_runs :
    consume 7 (1 ∷ []) (round_of ∷ round_of ∷ round_of ∷ []) 3 accept_all
    ≡ (caught ∷ tail ∷ [], 9, fails feed_closed)
unfolding consume consume_from read pass_on outcome Cache.read Cache.search Cache.search_from
consume_runs = refl

all-IsWatched : IsWatched none (1 ∷ [])
all-IsWatched t h = refl

round-IsFaithful : IsFaithful 7 stream_events none (1 ∷ []) round_of
round-IsFaithful = record {
  exact = record { grows = omega arith; holds = refl };
  covers = λ cp. elim (Bool-cases (cp == 3)) [
    | inl at ↦ rw at (6, (refl, sym ((==_iff cp 3).0 at), omega arith, refl, refl))
    | inr elsewhere ↦ rw elsewhere (cp, refl)
  ];
}

consume-Covers_example :
    let d = consume 7 (1 ∷ []) (round_of ∷ round_of ∷ []) 3 accept_all in
    Covers (some (1 ∷ [])) 7 stream_events 3 d.0 d.1
consume-Covers_example =
    consume-Covers 3 9 7 stream_events none (1 ∷ []) some_events all-IsWatched
      (round_of ∷ round_of ∷ []) 3 accept_all (round-IsFaithful, (round-IsFaithful, tt))

abbrev turns : List Turn
turns =
    record { feed = some (none, round_of ∷ round_of ∷ round_of ∷ []); canceled_after = false }
    ∷ record { feed = none; canceled_after = false }
    ∷ []

consume_stream_runs :
    consume_stream true 7 (1 ∷ []) turns 3 accept_all
    ≡ (caught ∷ tail ∷ [], 9, fails stream_not_found)
unfolding consume_stream Catalog.consume_from consume consume_from read pass_on outcome Cache.read
    Cache.search Cache.search_from
consume_stream_runs = refl

consume_stream-Covers_example :
    let d = consume_stream true 7 (1 ∷ []) turns 3 accept_all in
    Covers (some (1 ∷ [])) 7 stream_events 3 d.0 d.1
consume_stream-Covers_example =
    consume_stream-Covers 3 9 7 stream_events (1 ∷ []) some_events true turns 3 accept_all
      ((round-IsFaithful, (round-IsFaithful, (round-IsFaithful, tt))), (tt, tt))

-- A catalog with one stream that two sources provide.
abbrev two_feeds : Catalog
two_feeds = record {
  streams = (7, record { available = 2 ∷ 1 ∷ []; current = some 1 }) ∷ [];
  stream_ids = 7 ∷ [];
  closed = [];
}

add_runs : add 2 7 (add 1 7 (record { streams = []; stream_ids = []; closed = [] })) ≡ two_feeds
unfolding add publish
add_runs = refl

remove_runs :
    remove 1 7 two_feeds
    ≡ some (record {
      streams = (7, record { available = 2 ∷ []; current = some 2 }) ∷ [];
      stream_ids = 7 ∷ [];
      closed = 1 ∷ [];
    })
unfolding remove
remove_runs = refl

none-IsIndexed : IsIndexed (record { streams = []; stream_ids = []; closed = [] })
none-IsIndexed = record {
  published = λ id. refl;
  served = λ id cs e. cc;
  separate = λ id id' f cs cs' e e' a a'. cc;
}

none-IsNew : IsNew 1 (record { streams = []; stream_ids = []; closed = [] })
none-IsNew = record { unknown = λ id cs e. cc; is_open = refl }

add-IsIndexed_example : IsIndexed (add 1 7 (record { streams = []; stream_ids = []; closed = [] }))
add-IsIndexed_example =
    add-IsIndexed 1 7 (record { streams = []; stream_ids = []; closed = [] }) none-IsIndexed
      none-IsNew

added_runs :
    get (add 1 7 (record { streams = []; stream_ids = []; closed = [] })).streams 7
    ≡ some (record { available = 1 ∷ []; current = some 1 })
unfolding add
added_runs = refl

remove-IsIndexed_example :
    (c' : Catalog) × (remove 1 7 (add 1 7 (record { streams = []; stream_ids = []; closed = [] }))
      ≡ some c')
    × IsIndexed c'
    × (has c'.closed 1 ≡ true)
remove-IsIndexed_example =
    remove-IsIndexed 1 7 (add 1 7 (record { streams = []; stream_ids = []; closed = [] }))
      (add-IsIndexed 1 7 (record { streams = []; stream_ids = []; closed = [] }) none-IsIndexed
        none-IsNew)
      (record { available = 1 ∷ []; current = some 1 }) added_runs refl
