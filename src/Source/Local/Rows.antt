-- ===== src/Source/Local/Rows.antt =====
-- The rows that Local.loadSegment of internal/eventstream/source/local.go reads, against the history of the
-- stream.
use runkit.Prelude.{
  ltb, leb, ◌==◌, Bool-cases, take, filter, filter-filter, filter-eq, All, u64_mod, ℕ, zero, suc,
  ◌<◌, ◌≡◌, refl, sym, ap, ◌∙◌, inl, inr, Bool, true, false, ◌&&◌, Option, none, some, List, [],
  ◌∷◌, map, arith,
}
use runkit.Prelude.Maps.{get}
use runkit.Stream.{Envelope, between, wants}
use runkit.Source.Local.{Tables, insert_by_offset, order_by_offset, query, with_position}
use runkit.Source.Local.Sorting.{order_by_offset-filter}

-- The events of a stream in the tables, in order.
abbrev pub rows_of : ℕ → Tables → List Envelope
rows_of id t = order_by_offset (filter (λ e. e.stream_id == id) t.events)

-- The tables hold the events of the history below the stream's next offset.
pub record IsCut (id : ℕ) (all : List Envelope) (t : Tables) (next : ℕ) : Type 0 where
  pub prefix : rows_of id t ≡ filter (λ e. ltb e.offset next) all
  pub fits : next < u64_mod

abbrev pub IsSnapshot : ℕ → List Envelope → Option Tables → Type 0
IsSnapshot id all none = Unit
IsSnapshot id all (some t) = (next : ℕ) → get t.streams id ≡ some next → IsCut id all t next

query-eq :
    (size id : ℕ) (types : Option (List ℕ)) (begin : ℕ) (t : Tables)
    → query size id types begin t
      ≡ take size (filter (λ e. leb begin e.offset && wants types e.type_id) (rows_of id t))
unfolding query
query-eq size id types begin t =
    ap (λ es. take size (order_by_offset es))
      (sym (
        filter-filter (λ e. leb begin e.offset && wants types e.type_id) (λ e. e.stream_id == id)
          t.events))
    ∙ ap (take size) (
        order_by_offset-filter (λ e. leb begin e.offset && wants types e.type_id)
          (filter (λ e. e.stream_id == id) t.events))

pub query-between :
    (size id : ℕ) (types : Option (List ℕ)) (begin next : ℕ) (all : List Envelope) (t : Tables)
    → IsCut id all t next
    → query size id types begin t ≡ take size (between types begin next all)
query-between size id types begin next all t c =
    query-eq size id types begin t
    ∙ ap (λ es. take size (filter (λ e. leb begin e.offset && wants types e.type_id) es)) c.prefix
    ∙ ap (take size) (
        filter-filter (λ e. leb begin e.offset && wants types e.type_id) (λ e. ltb e.offset next)
          all
        ∙ filter-eq _ _ all
            (λ e. swap (leb begin e.offset) (ltb e.offset next) (wants types e.type_id)))
  where
    swap : (a b c : Bool) → (b && (a && c)) ≡ (a && (b && c))
    swap true true c = refl
    swap true false c = refl
    swap false true c = refl
    swap false false c = refl

IsOwn : ℕ → Envelope → Type 0
IsOwn id e = e.stream_id ≡ id

All-insert :
    (id : ℕ) (x : Envelope) (es : List Envelope)
    → IsOwn id x
    → All (IsOwn id) es
    → All (IsOwn id) (insert_by_offset x es)
All-insert id x [] h a = (h, tt)
All-insert id x (y ∷ ys) h a = elim (Bool-cases (leb x.offset y.offset)) [
  | inl first ↦ rw first (h, a)
  | inr after ↦ rw after (a.0, All-insert id x ys h a.1)
]

All-order : (id : ℕ) (es : List Envelope) → All (IsOwn id) es → All (IsOwn id) (order_by_offset es)
All-order id [] a = tt
All-order id (e ∷ es) a = All-insert id e (order_by_offset es) a.0 (All-order id es a.1)

All-take : (id n : ℕ) (es : List Envelope) → All (IsOwn id) es → All (IsOwn id) (take n es)
All-take id zero es a = tt
All-take id (suc n) [] a = tt
All-take id (suc n) (e ∷ es) a = (a.0, All-take id n es a.1)

All-IsOwn :
    (id : ℕ) (q : Envelope → Bool) (es : List Envelope)
    → All (IsOwn id) (filter (λ e. e.stream_id == id && q e) es)
unfolding IsOwn
All-IsOwn id q [] = tt
All-IsOwn id q (e ∷ es) = elim (Bool-cases (e.stream_id == id && q e)) [
  | inl t ↦ rw t (ground (arith, t), All-IsOwn id q es)
  | inr f ↦ rw f (All-IsOwn id q es)
]

map-with_position :
    (id : ℕ) (es : List Envelope) → All (IsOwn id) es → map (with_position id) es ≡ es
unfolding IsOwn
map-with_position id [] a = refl
map-with_position id (e ∷ es) a =
    ap (λ n. record e { stream_id = n } ∷ map (with_position id) es) (sym a.0)
    ∙ ap (◌∷◌ e) (map-with_position id es a.1)

-- The position that is set is the one that the row has.
pub positions :
    (size id : ℕ) (types : Option (List ℕ)) (begin : ℕ) (t : Tables)
    → map (with_position id) (query size id types begin t) ≡ query size id types begin t
unfolding query
positions size id types begin t = map-with_position id _ (
    All-take id size _
      (All-order id _ (All-IsOwn id (λ e. leb begin e.offset && wants types e.type_id) t.events)))
