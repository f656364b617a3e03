-- ===== src/Source.antt =====
-- internal/eventstream/source: what the sources of event streams share (source.go, errors.go).
-- A source delivers segments to a callback, which may refuse one with an error.
pub mod Memory
pub mod Wire
pub mod Server
pub mod Remote
pub mod Local
use runkit.Prelude.{
  ltb, leb, ◌==◌, if◌then◌else◌, ltb→lt, lt→ltb, leb→le, le→leb, lt→leb, ==_iff, ==_refl, tests,
  Bool-cases, Option-cases, length, get_elem?, take, drop, length-append, take-append-drop,
  length-drop, length-take, drop-append_le, drop-append_add, get_elem?-append_left,
  get_elem?-append_right, get_elem?_total, filter, filter-append, filter-filter, filter-eq,
  length-filter-le, All, All-append, has, u64_mod, inc64, inc64-eq-suc, ℕ, zero, suc, ◌+◌, ◌-◌, ◌*◌,
  ◌/◌, ◌%◌, ◌^◌, ◌≤◌, ◌<◌, min, max, ◌≡◌, refl, sym, ap, ◌∙◌, subst, ◌≢◌, ◌↔◌, ◌⊎◌, inl, inr, Bool,
  true, false, not, ◌&&◌, ◌||◌, Option, none, some, List, [], ◌∷◌, ◌++◌, map, append-nil,
  append_assoc, arith,
}
use runkit.Stream.{Segment}

-- The error values that the event stream packages tell apart by `errors.Is`; `failed` stands for every
-- other one, such as an error of the database or of a callback. `persistent` is the supervisor's wrapper.
pub data Error : Type 0 where
  consumer_too_slow unrecognized_stream offset_out_of_range invalid_segment : Error
  unsupported canceled feed_closed caught_up stream_not_found ends_early stopped_watching : Error
  failed : ℕ → Error
  persistent : Error → Error

-- A callback: what it answers to a segment may depend on the segments that it accepted before,
-- the latest first. `none` is a nil error.
abbrev pub Callback : Type 0
Callback = List Segment → Segment → Option Error

-- The same callback after it has accepted a segment.
abbrev pub accepted : Segment → Callback → Callback
accepted seg fn = λ before. fn (before ++ seg ∷ [])

-- The callback that refuses nothing.
abbrev pub accept_all : Callback
accept_all before seg = none

-- How a call ends: it panics, returns nil, or returns an error. `unfinished` is a call that is still in
-- progress after the steps that were given to it.
pub data Ending : Type 0 where
  panics ok unfinished : Ending
  fails : Error → Ending

-- panicIfEmpty.
abbrev pub is_empty : Option (List ℕ) → Bool
is_empty none = false
is_empty (some []) = true
is_empty (some (t ∷ ts)) = false

-- The segments that the callback accepted, and how the call ended.
abbrev pub Delivery : Type 0
Delivery = List Segment × Ending

abbrev pub accept : Segment → Delivery → Delivery
accept seg d = (seg ∷ d.0, d.1)
