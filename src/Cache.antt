-- ===== src/Cache.antt =====
-- internal/eventstream/internal/cache: cache.go and segment.go. A cache holds the most recent
-- events of one stream. `none` is a panic; a capacity is a natural number, so `<= 0` is `== 0`.
-- Readers observe the segment as an immutable value, so an operation returns the new cache.
pub mod Search
pub mod Window
pub mod History
pub mod Reading
use runkit.Prelude.{
  ltb, leb, ◌==◌, if◌then◌else◌, ltb→lt, lt→ltb, leb→le, le→leb, lt→leb, ==_iff, ==_refl, tests,
  Bool-cases, Option-cases, length, get_elem?, take, drop, length-append, take-append-drop,
  length-drop, length-take, drop-append_le, drop-append_add, get_elem?-append_left,
  get_elem?-append_right, get_elem?_total, filter, filter-append, filter-filter, length-filter-le,
  All, All-append, has, u64_mod, inc64, inc64-eq-suc, ℕ, zero, suc, ◌+◌, ◌-◌, ◌*◌, ◌/◌, ◌%◌, ◌^◌,
  ◌≤◌, ◌<◌, min, max, ◌≡◌, refl, sym, ap, ◌∙◌, subst, ◌≢◌, ◌↔◌, ◌⊎◌, inl, inr, Bool, true, false,
  not, ◌&&◌, ◌||◌, Option, none, some, List, [], ◌∷◌, ◌++◌, map, append-nil, append_assoc, arith,
}
use runkit.Stream.{Envelope}

-- The part of the stream that a cache holds, [begin, end), with the events in it.
pub record Segment : Type 0 where
  pub begin : ℕ
  pub end : ℕ
  pub events : List Envelope

pub data Relation : Type 0 where
  before within after : Relation

-- The loop of the standard library's `sort.Search`, with a round of fuel for each index.
unfoldable pub search_from : ℕ → ℕ → ℕ → (ℕ → Bool) → ℕ
search_from zero i j f = i
search_from (suc fuel) i j f =
    let h = (i + j) / 2 in
    elim (ltb i j) [
      | true ↦ elim (f h) [ true ↦ search_from fuel i h f | false ↦ search_from fuel (suc h) j f ]
      | false ↦ i
    ]

unfoldable pub search : ℕ → (ℕ → Bool) → ℕ
unfolding search_from
search n f = search_from n 0 n f

-- The test that `Read` searches by. `search` probes indices below the length only.
abbrev pub at_or_after : ℕ → List Envelope → ℕ → Bool
at_or_after cp events i = elim (get_elem? events i) [ some e ↦ leb cp e.offset | none ↦ true ]

-- Segment.Read.
unfoldable pub read : Segment → ℕ → List ℕ → List Envelope × Relation
read s cp types = if ltb cp s.begin then ([], before) else if leb s.end cp then ([], after) else (
  let first = search (length s.events) (at_or_after cp s.events) in
      filter (λ e. has types e.type_id) (drop first s.events),
  within,
)

pub record Cache : Type 0 where
  pub capacity : ℕ
  pub segment : Segment

-- Cache.Reset.
unfoldable pub reset : Cache → ℕ → Cache
reset c begin = record c { segment = record { begin = begin; end = begin; events = [] } }

unfoldable pub new : ℕ → ℕ → Option Cache
unfolding reset
new capacity begin =
    if capacity == 0
    then none
    else some (
        reset (record { capacity = capacity; segment = record { begin = 0; end = 0; events = [] } })
          begin)

infixl 5 ◌>>=◌
abbrev ◌>>=◌ {ℓ κ} : {A : Type ℓ} {B : Type κ} → Option A → (A → Option B) → Option B
none >>= f = none
some a >>= f = f a

-- The offset after the event at an index, where a segment begins that evicted up to that event.
unfoldable pub begin_after : List Envelope → ℕ → Option ℕ
begin_after es i = do e ← get_elem? es i; some (inc64 e.offset)

-- The branches of Append: what the cache evicts to make room, and what it keeps.
unfoldable pub make_room : ℕ → ℕ → ℕ → List Envelope → List Envelope → Option Segment
make_room capacity begin end held envelopes =
    if length envelopes == 0
    then some (record { begin = begin; end = end; events = held })
    else if ltb 0 (length envelopes - capacity)
    then (do
      let evict = length envelopes - capacity
      b ← begin_after envelopes (evict - 1)
      some (record { begin = b; end = end; events = drop evict envelopes }))
    else if ltb 0 (length held + length envelopes - capacity)
    then (do
      let evict = length held + length envelopes - capacity
      b ← begin_after held (evict - 1)
      some (record { begin = b; end = end; events = drop evict held ++ envelopes }))
    else some (record { begin = begin; end = end; events = held ++ envelopes })

-- Cache.Append.
unfoldable pub append : Cache → ℕ → ℕ → List Envelope → Option Cache
append c begin end envelopes = if not (begin == c.segment.end) then none else do
  next ← make_room c.capacity c.segment.begin end c.segment.events envelopes
  some (record c { segment = next })
