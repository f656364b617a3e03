-- ===== src/Examples/Caches.antt =====
-- The cache on concrete events.
use runkit.Prelude.{inc64, ℕ, ◌≡◌, refl, ◌≢◌, ◌↔◌, none, some, [], ◌∷◌, ◌++◌, arith}
use runkit.Cache.{
  begin_after, search_from, Cache, before, within, after, read, search, at_or_after, reset, new,
  append, make_room,
}
use runkit.Cache.Search.{search-count_before, count_before}
use runkit.Cache.History.{
  Holds, Built, created, extended, Appended, append-Appended, append-eq-none_iff, Built-Holds,
}
use runkit.Cache.Reading.{read-eq-read_history, read_history}
use runkit.Examples.Data.{event_at, early, late, stream_events}

-- A cache of three events: new, after the early events, and after all of them.
abbrev empty_cache : Cache
empty_cache = record { capacity = 3; segment = record { begin = 2; end = 2; events = [] } }

abbrev early_cache : Cache
early_cache = record { capacity = 3; segment = record { begin = 2; end = 6; events = early } }

abbrev full_cache : Cache
full_cache = record {
  capacity = 3;
  segment = record { begin = 4; end = 9; events = event_at 4 2 5 ∷ late };
}

new_runs : new 3 2 ≡ some empty_cache
unfolding new reset
new_runs = refl

new_panics : new 0 2 ≡ none
unfolding new
new_panics = refl

append_grows : append empty_cache 2 6 early ≡ some early_cache
unfolding append make_room
append_grows = refl

append_evicts : append early_cache 6 9 late ≡ some full_cache
unfolding append make_room begin_after inc64
append_evicts = refl

append_keeps_last :
    append (record empty_cache { capacity = 1 }) 2 6 early
    ≡ some (record {
      capacity = 1;
      segment = record { begin = 4; end = 6; events = event_at 4 2 5 ∷ [] };
    })
unfolding append make_room begin_after inc64
append_keeps_last = refl

read_within : read full_cache.segment 5 (1 ∷ []) ≡ (late, within)
unfolding read search search_from
read_within = refl

read-before : read full_cache.segment 3 (1 ∷ []) ≡ ([], before)
unfolding read
read-before = refl

read_after : read full_cache.segment 9 (1 ∷ []) ≡ ([], after)
unfolding read
read_after = refl

full-Built : Built 2 (early ++ late) full_cache
full-Built =
    extended 2 9 early late early_cache full_cache
      (extended 2 6 [] early empty_cache early_cache
        (created 3 2 empty_cache (omega arith) new_runs) (omega arith) (omega arith) append_grows)
      (omega arith) (omega arith) append_evicts

early-Built : Built 2 early early_cache
early-Built =
    extended 2 6 [] early empty_cache early_cache (created 3 2 empty_cache (omega arith) new_runs)
      (omega arith) (omega arith) append_grows

Built-Holds_example : Holds 2 (early ++ late) full_cache
Built-Holds_example = Built-Holds full-Built

append-Appended_example :
    (c' : Cache) × (append early_cache 6 9 late ≡ some c')
    × Appended 2 9 (early ++ late) early_cache c'
append-Appended_example =
    append-Appended 2 9 early late early_cache (Built-Holds early-Built) (omega arith) (omega arith)

append-eq-none_iff_example : (append early_cache 7 9 [] ≡ none) ↔ ◌≢◌ {A = ℕ} 7 6
append-eq-none_iff_example =
    append-eq-none_iff 2 7 9 early [] early_cache (Built-Holds early-Built) (omega arith)
      (omega arith)

read-eq-read_history_example :
    read full_cache.segment 5 (1 ∷ []) ≡ read_history 4 9 stream_events 5 (1 ∷ [])
read-eq-read_history_example =
    read-eq-read_history 2 5 stream_events (1 ∷ []) full_cache (Built-Holds full-Built)

search-count_before_example : search 4 (at_or_after 5 stream_events) ≡ count_before 5 stream_events
search-count_before_example = search-count_before 5 3 9 stream_events (omega arith)
