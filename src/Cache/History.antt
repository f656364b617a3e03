-- ===== src/Cache/History.antt =====
-- The cache against the events that were ever appended to it: what it holds is a suffix of them.
use mathlib.Core.Option.{some-injective}
use runkit.Prelude.{
  ==_refl, length, u64_mod, ℕ, ◌≤◌, ◌<◌, ◌≡◌, refl, sym, ap, ◌∙◌, subst, ◌≢◌, ◌↔◌, ◌⊎◌, none, some,
  List, [], ◌++◌, arith,
}
use runkit.Stream.{Envelope, Ordered, select}
use runkit.Stream.Order.{Ordered-append}
use runkit.Stream.Select.{select-append, select-select}
use runkit.Cache.{Cache, reset, new, append, make_room}
use runkit.Cache.Window.{make_room-eq-window, window-IsWindow}

-- `all` is what was appended since the cache was last reset, to the offset `lo`.
pub record Holds (lo : ℕ) (all : List Envelope) (c : Cache) : Type 0 where
  pub holds_some : 0 < c.capacity
  pub fits : c.segment.end < u64_mod
  pub starts : lo ≤ c.segment.begin
  pub history : Ordered lo c.segment.end all
  pub ordered : Ordered c.segment.begin c.segment.end c.segment.events
  pub bounded : length c.segment.events ≤ c.capacity
  pub complete : c.segment.events ≡ select none c.segment.begin all

-- A new cache is empty, at the offset given; a capacity of zero panics.
pub new-Holds :
    (capacity begin : ℕ)
    → 0 < capacity
    → begin < u64_mod
    → (c : Cache) × (new capacity begin ≡ some c) × Holds begin [] c
unfolding new
new-Holds capacity begin pos b = (
  record { capacity = capacity; segment = record { begin = begin; end = begin; events = [] } },
  ground arith,
  record {
    holds_some = pos;
    fits = b;
    starts = omega arith;
    history = omega arith;
    ordered = omega arith;
    bounded = omega arith;
    complete = refl;
  },
)

pub reset-Holds :
    (lo begin : ℕ) (all : List Envelope) (c : Cache)
    → Holds lo all c
    → begin < u64_mod
    → Holds begin [] (reset c begin)
unfolding reset
reset-Holds lo begin all c h b = record {
  holds_some = h.holds_some;
  fits = b;
  starts = omega arith;
  history = omega arith;
  ordered = omega arith;
  bounded = omega arith;
  complete = refl;
}

-- What Append changes, in terms of what was ever appended.
pub record Appended (lo end : ℕ) (all : List Envelope) (c c' : Cache) : Type 0 where
  pub holds : Holds lo all c'
  pub ends : c'.segment.end ≡ end
  pub begins : c.segment.begin ≤ c'.segment.begin
  pub same_capacity : c'.capacity ≡ c.capacity
  pub full : (c'.segment.begin ≡ c.segment.begin) ⊎ (length c'.segment.events ≡ c.capacity)

carry :
    (a b : ℕ) (held all envelopes : List Envelope)
    → held ≡ select none a all
    → a ≤ b
    → select none b (held ++ envelopes) ≡ select none b (all ++ envelopes)
carry a b held all envelopes e l =
    select-append none b held envelopes
    ∙ ap (λ xs. xs ++ select none b envelopes) (ap (select none b) e ∙ select-select none a b all l)
    ∙ sym (select-append none b all envelopes)

-- On a cache that holds a suffix of a history, Append of a range that begins where the segment
-- ends, ends below 2^64 and has events of increasing offsets within it, does not panic; the new
-- segment ends where the range does and holds a suffix of the extended history; its begin
-- offset never moves back, and moves forward only if the cache is full afterwards.
pub append-Appended :
    (lo end : ℕ) (all envelopes : List Envelope) (c : Cache)
    → Holds lo all c
    → Ordered c.segment.end end envelopes
    → end < u64_mod
    → (c' : Cache) × (append c c.segment.end end envelopes ≡ some c')
      × Appended lo end (all ++ envelopes) c c'
unfolding append
append-Appended lo end all envelopes c h o b =
    let total : Ordered c.segment.begin end (c.segment.events ++ envelopes) =
      Ordered-append c.segment.begin c.segment.end end c.segment.events envelopes h.ordered o in
    let (s, eq, w) =
      window-IsWindow c.capacity c.segment.begin end (c.segment.events ++ envelopes) total b
        h.holds_some in
    let room : make_room c.capacity c.segment.begin end c.segment.events envelopes ≡ some s =
      make_room-eq-window c.capacity c.segment.begin end c.segment.events envelopes h.bounded
      ∙ eq in
    (
      record c { segment = s },
      rw (==_refl c.segment.end, room) refl,
      record {
        holds = record {
          holds_some = h.holds_some;
          fits = rw w.ends b;
          starts = omega (arith, h.starts, w.begins);
          history = rw w.ends (Ordered-append lo c.segment.end end all envelopes h.history o);
          ordered = w.ordered;
          bounded = w.bounded;
          complete =
              w.complete
              ∙ carry c.segment.begin s.begin c.segment.events all envelopes h.complete w.begins;
        };
        ends = w.ends;
        begins = w.begins;
        same_capacity = refl;
        full = w.full;
      },
    )

-- On a cache that holds a suffix of a history, Append of a range that ends below 2^64, with
-- events of increasing offsets within it, panics if and only if the range does not begin where
-- the segment of the cache ends.
pub append-eq-none_iff :
    (lo begin end : ℕ) (all envelopes : List Envelope) (c : Cache)
    → Holds lo all c
    → Ordered begin end envelopes
    → end < u64_mod
    → (append c begin end envelopes ≡ none) ↔ (begin ≢ c.segment.end)
unfolding append
append-eq-none_iff lo begin end all envelopes c h o b = (
  λ e same.
      let (c', eq, _) =
        append-Appended lo end all envelopes c h (subst (λ n. Ordered n end envelopes) same o) b in
      cc (sym e ∙ ap (λ n. append c n end envelopes) same ∙ eq),
  λ ne. ground (arith, ne),
)

-- The caches that a sequence of calls of New, Append and Reset leads to.
pub data Built : ℕ → List Envelope → Cache → Type 0 where
  created :
      (capacity begin : ℕ) (c : Cache)
      → begin < u64_mod
      → new capacity begin ≡ some c
      → Built begin [] c
  restarted :
      (lo begin : ℕ) (all : List Envelope) (c : Cache)
      → Built lo all c
      → begin < u64_mod
      → Built begin [] (reset c begin)
  extended :
      (lo end : ℕ) (all envelopes : List Envelope) (c c' : Cache)
      → Built lo all c
      → Ordered c.segment.end end envelopes
      → end < u64_mod
      → append c c.segment.end end envelopes ≡ some c'
      → Built lo (all ++ envelopes) c'

new-pos : (capacity begin : ℕ) (c : Cache) → new capacity begin ≡ some c → 0 < capacity
unfolding new
new-pos capacity begin c e = ground arith

-- Every cache that a sequence of New, Reset and contiguous Append calls leads to, with ends
-- below 2^64 and events of increasing offsets within the appended ranges, holds exactly the
-- events from its segment's begin offset on of all those appended since the last reset, in
-- order, and no more of them than its capacity.
pub Built-Holds : {lo : ℕ} {all : List Envelope} {c : Cache} → Built lo all c → Holds lo all c
Built-Holds (created capacity begin c b e) =
    let (d, eq, h) = new-Holds capacity begin (new-pos capacity begin c e) b in
    subst (Holds begin []) (some-injective _ _ (sym eq ∙ e)) h
Built-Holds (restarted lo begin all c r b) = reset-Holds lo begin all c (Built-Holds r) b
Built-Holds (extended lo end all envelopes c c' r o b e) =
    let (d, eq, a) = append-Appended lo end all envelopes c (Built-Holds r) o b in
    subst (Holds lo (all ++ envelopes)) (some-injective _ _ (sym eq ∙ e)) a.holds
