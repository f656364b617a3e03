-- ===== src/Stream.antt =====
-- The events of an event stream, and what a contiguous piece of one is.
-- internal/eventstream/source/segment.go, and the fields of an envelope that the engine reads.
pub mod Order
pub mod Select
pub mod Between
pub mod Cover
pub mod Cut
pub mod Chain
pub mod Next
use runkit.Prelude.{
  ltb, leb, ◌==◌, if◌then◌else◌, ltb→lt, lt→ltb, leb→le, le→leb, lt→leb, ==_iff, ==_refl, tests,
  Bool-cases, Option-cases, length, get_elem?, take, drop, length-append, take-append-drop,
  length-drop, length-take, drop-append_le, drop-append_add, get_elem?-append_left,
  get_elem?-append_right, get_elem?_total, filter, filter-append, filter-filter, filter-eq,
  length-filter-le, All, All-append, has, u64_mod, inc64, inc64-eq-suc, ℕ, zero, suc, ◌+◌, ◌-◌, ◌*◌,
  ◌/◌, ◌%◌, ◌^◌, ◌≤◌, ◌<◌, min, max, ◌≡◌, refl, sym, ap, ◌∙◌, subst, ◌≢◌, ◌↔◌, ◌⊎◌, inl, inr, Bool,
  true, false, not, ◌&&◌, ◌||◌, Option, none, some, List, [], ◌∷◌, ◌++◌, map, append-nil,
  append_assoc, arith,
}

-- An envelope that has its event stream position set; `offset` is the position's offset, and
-- `header` and `body` stand for the parts that only the wire format reads.
pub record Envelope : Type 0 where
  pub stream_id : ℕ
  pub offset : ℕ
  pub message_id : ℕ
  pub type_id : ℕ
  pub header : ℕ
  pub body : ℕ

-- The half-open range [begin, end) of one stream, with the events in it that were asked for.
pub record Segment : Type 0 where
  pub stream_id : ℕ
  pub begin : ℕ
  pub end : ℕ
  pub envelopes : List Envelope

-- A nil set of types means every type.
abbrev pub wants : Option (List ℕ) → ℕ → Bool
wants none t = true
wants (some ts) t = has ts t

-- Strictly increasing offsets, from `lo` on and below `hi`.
abbrev pub Ordered : ℕ → ℕ → List Envelope → Type 0
Ordered lo hi [] = lo ≤ hi
Ordered lo hi (e ∷ es) = (lo ≤ e.offset) × Ordered (suc e.offset) hi es

-- The events from an offset on that have a requested type: the reference for every read.
abbrev pub select : Option (List ℕ) → ℕ → List Envelope → List Envelope
select types cp = filter (λ e. leb cp e.offset && wants types e.type_id)

-- The events in [b, e) that have a requested type: the reference for a segment.
abbrev pub between : Option (List ℕ) → ℕ → ℕ → List Envelope → List Envelope
between types b e = filter (λ x. leb b x.offset && (ltb x.offset e && wants types x.type_id))

-- Contiguous segments of the stream `id` from `b` to `e`, each with just the requested events of `all`
-- in its range.
abbrev pub Covers : Option (List ℕ) → ℕ → List Envelope → ℕ → List Segment → ℕ → Type 0
Covers types id all b [] e = b ≡ e
Covers types id all b (s ∷ ss) e =
    (s.stream_id ≡ id)
    × (s.begin ≡ b)
    × (s.begin ≤ s.end)
    × (s.envelopes ≡ between types s.begin s.end all)
    × Covers types id all s.end ss e

-- What a sequence of segments delivers.
abbrev pub delivered : List Segment → List Envelope
delivered [] = []
delivered (s ∷ ss) = s.envelopes ++ delivered ss
