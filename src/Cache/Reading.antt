-- ===== src/Cache/Reading.antt =====
-- `Read` against the reference: a cache serves a checkpoint within its segment, and serves from it what
-- reading the whole history would give.
use runkit.Prelude.{
  ltb, leb, if◌then◌else◌, Bool-cases, length, drop, filter, filter-filter, has, ℕ, ◌≤◌, ◌<◌, ◌≡◌,
  refl, ap, ◌∙◌, ◌⊎◌, inl, inr, some, List, [], arith,
}
use runkit.Stream.{Envelope, Ordered, select}
use runkit.Stream.Select.{select-select}
use runkit.Cache.{Segment, Cache, Relation, before, within, after, read, search, at_or_after}
use runkit.Cache.Search.{search-count_before, drop-count_before}
use runkit.Cache.History.{Holds}

-- Filtering by checkpoint and then by type is the reference.
filter-select :
    (types : List ℕ) (cp : ℕ) (es : List Envelope)
    → filter (λ e. has types e.type_id) (filter (λ e. leb cp e.offset) es)
      ≡ select (some types) cp es
filter-select types cp es = filter-filter (λ e. has types e.type_id) (λ e. leb cp e.offset) es

pub read_events :
    (s : Segment) (cp : ℕ) (types : List ℕ)
    → Ordered s.begin s.end s.events
    → filter
        (λ e. has types e.type_id)
        (drop (search (length s.events) (at_or_after cp s.events)) s.events)
      ≡ select (some types) cp s.events
read_events s cp types o =
    rw (search-count_before cp s.begin s.end s.events o)
      (rw (drop-count_before cp s.begin s.end s.events o) (filter-select types cp s.events))

-- Where the checkpoint lies.
pub read_cases :
    (s : Segment) (cp : ℕ) (types : List ℕ)
    → Ordered s.begin s.end s.events
    → ((read s cp types).1 ≡ before)
      ⊎ (((read s cp types).1 ≡ after)
          ⊎ (((read s cp types).1 ≡ within)
              × (s.begin ≤ cp)
              × (cp < s.end)
              × ((read s cp types).0 ≡ select (some types) cp s.events)))
unfolding read
read_cases s cp types o = elim (Bool-cases (ltb cp s.begin)) [
  | inl early ↦ inl (rw early refl)
  | inr late ↦ elim (Bool-cases (leb s.end cp)) [
    | inl past ↦ inr (inl (rw (late, past) refl))
    | inr inside ↦ inr (
        inr (
          rw (late, inside)
            (refl, ground (arith, late), ground (arith, inside), read_events s cp types o)))
  ]
]

-- What Read answers, from the history alone.
abbrev pub read_history : ℕ → ℕ → List Envelope → ℕ → List ℕ → List Envelope × Relation
read_history begin end all cp types =
    if ltb cp begin
    then ([], before)
    else if leb end cp
    then ([], after)
    else (select (some types) cp all, within)

-- For a cache that holds a suffix of a history, Read of its segment answers Before or After as
-- the checkpoint lies, and within the segment it gives exactly the events of the whole history
-- from the checkpoint on that have a requested type, the binary search notwithstanding.
pub read-eq-read_history :
    (lo cp : ℕ) (all : List Envelope) (types : List ℕ) (c : Cache)
    → Holds lo all c
    → read c.segment cp types ≡ read_history c.segment.begin c.segment.end all cp types
unfolding read
read-eq-read_history lo cp all types c h = elim (Bool-cases (ltb cp c.segment.begin)) [
  | inl early ↦ rw early
  | inr late ↦ rw late (
      ap {B = List Envelope × Relation}
        (λ es. if leb c.segment.end cp then ([], after) else (es, within))
        (read_events c.segment cp types h.ordered
          ∙ ap (select (some types) cp) h.complete
          ∙ select-select (some types) c.segment.begin cp all (ground (arith, late))))
]
