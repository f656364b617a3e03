-- ===== src/Source/Server.antt =====
-- internal/eventstream/source/server.go: how a segment is split to keep each message small.
pub mod Groups
pub mod Filling
pub mod Splitting
pub mod Endpoints
use runkit.Prelude.{
  ltb, leb, ◌==◌, if◌then◌else◌, ltb→lt, lt→ltb, leb→le, le→leb, lt→leb, ==_iff, ==_refl, tests,
  Bool-cases, Option-cases, length, get_elem?, take, drop, replicate, length-append,
  take-append-drop, length-drop, length-take, drop-append_le, drop-append_add,
  get_elem?-append_left, get_elem?-append_right, get_elem?_total, get_elem?-take, filter,
  filter-append, filter-filter, filter-eq, length-filter-le, All, All-append, All-replicate, has,
  u64_mod, inc64, inc64-eq-suc, ℕ, zero, suc, ◌+◌, ◌-◌, ◌*◌, ◌/◌, ◌%◌, ◌^◌, ◌≤◌, ◌<◌, min, max, ◌≡◌,
  refl, sym, ap, ◌∙◌, subst, ◌≢◌, ◌↔◌, ◌⊎◌, inl, inr, Bool, true, false, not, ◌&&◌, ◌||◌, Option,
  none, some, List, [], ◌∷◌, ◌++◌, map, append-nil, append_assoc, arith,
}
use runkit.Stream.{Envelope, Segment}
use runkit.Source.{Error, Ending, ok, fails}
use runkit.Source.Wire.{Protobuf, WireSegment}

module _ (pb : Protobuf) where
  open pb use {Multi, as_multi, try_append, header_size, body_size}

  -- The variables of the loop: the part under construction, and the multi-envelope that the next event may
  -- join, which is the part's last one.
  pub record Part : Type 0 where
    pub begin : ℕ
    pub finished : List Multi
    pub multi : Option Multi
    pub size : ℕ

  abbrev pub start_at : ℕ → Part
  start_at begin = record { begin = begin; finished = []; multi = none; size = 0 }

  abbrev pub all_multis : Part → List Multi
  all_multis p = elim p.multi [ none ↦ p.finished | some m ↦ p.finished ++ m ∷ [] ]

  abbrev pub close : ℕ → Part → ℕ → WireSegment Multi
  close id p end = record { stream_id = id; begin = p.begin; end = end; multis = all_multis p }

  -- A part is full if it holds an event and the next one would take it over the maximum.
  abbrev pub is_full : ℕ → Part → Envelope → Bool
  is_full max_bytes p e = ltb 0 p.size && ltb max_bytes (p.size + header_size e + body_size e)

  -- An event joins the last multi-envelope, or begins another one.
  unfoldable pub add : Part → Envelope → Part
  add p e =
      let joined : Option Multi = elim p.multi [ none ↦ none | some m ↦ try_append m e ] in
      elim joined [
        | some m ↦ record p { multi = some m; size = p.size + body_size e }
        | none ↦ record p {
          finished = all_multis p;
          multi = some (as_multi e);
          size = p.size + header_size e + body_size e;
        }
      ]

  unfoldable pub split_from : ℕ → ℕ → ℕ → Part → List Envelope → List (WireSegment Multi)
  split_from max_bytes id end p [] = close id p end ∷ []
  split_from max_bytes id end p (e ∷ es) =
      let q = if is_full max_bytes p e then start_at e.offset else p in
      let rest = split_from max_bytes id end (add q e) es in
      if is_full max_bytes p e then close id p e.offset ∷ rest else rest

  -- splitSegment.
  unfoldable pub split : ℕ → Segment → List (WireSegment Multi)
  split max_bytes seg =
      split_from max_bytes seg.stream_id seg.end (start_at seg.begin) seg.envelopes
