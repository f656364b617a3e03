-- ===== src/Source/Local/Loading.antt =====
-- Local.loadSegment of internal/eventstream/source/local.go, against the history of the stream.
use runkit.Prelude.{
  ltb, if◌then◌else◌, ltb→lt, Bool-cases, Option-cases, length, get_elem?, take, length-take,
  get_elem?_total, u64_mod, inc64-eq-suc, ℕ, zero, suc, ◌≤◌, ◌<◌, max, ◌≡◌, refl, sym, ap, ◌∙◌,
  subst, ◌⊎◌, inl, inr, Bool, true, false, Option, none, some, List, [], ◌∷◌, map, arith,
}
use runkit.Prelude.Maps.{get}
use runkit.Stream.{Envelope, Segment, Ordered, between}
use runkit.Stream.Order.{Ordered-le}
use runkit.Stream.Between.{take-between, between-bounds, between-Ordered_range}
use runkit.Source.{unrecognized_stream, offset_out_of_range, failed}
use runkit.Source.Local.{
  Tables, query, with_position, end_after, Loaded, loaded, refused, load_segment,
}
use runkit.Source.Local.Rows.{IsSnapshot, query-between, positions}

end_after-bounds :
    (b e : ℕ) (es : List Envelope)
    → Ordered b e es
    → e < u64_mod
    → (b ≤ end_after b es) × (end_after b es ≤ e)
end_after-bounds b e [] o f = omega arith
end_after-bounds b e (x ∷ xs) o f =
    let step = inc64-eq-suc x.offset e (Ordered-le (suc x.offset) e xs o.1) f in
    rw step (
      let (low, high) = end_after-bounds (suc x.offset) e xs o.1 f in omega (arith, low, high, o.0))

end_after-take :
    (b e k : ℕ) (es : List Envelope) (x : Envelope)
    → Ordered b e es
    → e < u64_mod
    → get_elem? es k ≡ some x
    → end_after b (take (suc k) es) ≡ suc x.offset
end_after-take b e k [] x o f h = cc
end_after-take b e zero (y ∷ ys) x o f h =
    let same : y.offset ≡ x.offset = cc in
    inc64-eq-suc y.offset e (Ordered-le (suc y.offset) e ys o.1) f ∙ ap suc same
end_after-take b e (suc k) (y ∷ ys) x o f h =
    ap (λ n. end_after n (take (suc k) ys))
      (inc64-eq-suc y.offset e (Ordered-le (suc y.offset) e ys o.1) f)
    ∙ end_after-take (suc y.offset) e k ys x o.1 f h

take_short : (n : ℕ) (es : List Envelope) → length (take n es) < n → take n es ≡ es
take_short zero es l = elim l [ ]
take_short (suc n) [] l = refl
take_short (suc n) (e ∷ es) l = ap (◌∷◌ e) (take_short n es (omega arith))

take_enough : (n : ℕ) (es : List Envelope) → n ≤ length (take n es) → n ≤ length es
take_enough n es l = omega (arith, length-take n es)

-- The next segment, and whether it reaches the end of the stream.
pub record IsNext (types : Option (List ℕ)) (id : ℕ) (all : List Envelope) (begin next : ℕ)
    (s : Segment) (exhausted : Bool) : Type 0 where
  pub own : s.stream_id ≡ id
  pub begins : s.begin ≡ begin
  pub grows : begin ≤ s.end
  pub inside : s.end ≤ next
  pub holds : s.envelopes ≡ between types s.begin s.end all
  pub reaches : ((exhausted ≡ true) × (s.end ≡ next)) ⊎ ((exhausted ≡ false) × (begin < s.end))

pub data Round (size id : ℕ) (types : Option (List ℕ)) (all : List Envelope) (begin : ℕ)
    : Option Tables → Loaded → Type 0 where
  unavailable : Round size id types all begin none (refused (failed 0))
  missing :
      (t : Tables)
      → get t.streams id ≡ none
      → Round size id types all begin (some t) (refused unrecognized_stream)
  beyond :
      (t : Tables) (next : ℕ)
      → get t.streams id ≡ some next
      → next < begin
      → Round size id types all begin (some t) (refused offset_out_of_range)
  more :
      (t : Tables) (next : ℕ) (s : Segment) (exhausted : Bool)
      → get t.streams id ≡ some next
      → IsNext types id all begin next s exhausted
      → Round size id types all begin (some t) (loaded s exhausted)

-- What the loop over the rows builds.
abbrev built : ℕ → ℕ → ℕ → ℕ → List Envelope → Loaded
built size id begin next rows =
    loaded
      (record {
        stream_id = id;
        begin = begin;
        end =
            if ltb (length rows) size
            then max (end_after begin rows) next
            else end_after begin rows;
        envelopes = map (with_position id) rows;
      })
      (ltb (length rows) size)

module _ (lo hi id : ℕ) (all : List Envelope) (types : Option (List ℕ))
    (o : Ordered lo hi all) where
  whole :
      (size begin next : ℕ) (rows : List Envelope)
      → rows ≡ take size (between types begin next all)
      → map (with_position id) rows ≡ rows
      → begin ≤ next
      → next < u64_mod
      → ltb (length rows) size ≡ true
      → IsNext types id all begin next
          (record {
            stream_id = id;
            begin = begin;
            end = max (end_after begin rows) next;
            envelopes = map (with_position id) rows;
          })
          true
  whole size begin next rows eq same l f short =
      let all_of_them : rows ≡ between types begin next all =
        eq ∙ take_short size _ (subst (λ es. length es < size) eq (ltb→lt _ size short)) in
      let bounds =
        end_after-bounds begin next rows
          (subst (Ordered begin next) (sym all_of_them)
            (between-Ordered_range types begin next lo hi all o l))
          f in
      let end : max (end_after begin rows) next ≡ next = omega (arith, bounds.1) in
      record {
        own = refl;
        begins = refl;
        grows = omega (arith, end, l);
        inside = omega (arith, end);
        holds = same ∙ all_of_them ∙ ap (λ n. between types begin n all) (sym end);
        reaches = inl (refl, end);
      }

  part :
      (size begin next : ℕ) (rows : List Envelope)
      → 0 < size
      → rows ≡ take size (between types begin next all)
      → map (with_position id) rows ≡ rows
      → begin ≤ next
      → next < u64_mod
      → ltb (length rows) size ≡ false
      → IsNext types id all begin next
          (record {
            stream_id = id;
            begin = begin;
            end = end_after begin rows;
            envelopes = map (with_position id) rows;
          })
          false
  part zero begin next rows pos eq same l f full = elim pos [ ]
  part (suc k) begin next rows pos eq same l f full =
      let bs : List Envelope = between types begin next all in
      let enough : suc k ≤ length bs =
        take_enough (suc k) bs (subst (λ es. suc k ≤ length es) eq (ground (arith, full))) in
      let (x, at) = get_elem?_total bs k enough in
      let end : end_after begin rows ≡ suc x.offset =
        ap (end_after begin) eq
        ∙ end_after-take begin next k bs x (between-Ordered_range types begin next lo hi all o l) f
            at in
      let (low, high) = between-bounds types begin next k all x at in
      record {
        own = refl;
        begins = refl;
        grows = omega (arith, end, low);
        inside = omega (arith, end, high);
        holds =
            same
            ∙ eq
            ∙ take-between types begin next lo hi k all x o at
            ∙ ap (λ n. between types begin n all) (sym end);
        reaches = inr (refl, omega (arith, end, low));
      }

  pub load_segment-Round :
      (size begin : ℕ) (t : Option Tables)
      → 0 < size
      → IsSnapshot id all t
      → Round size id types all begin t (load_segment size id types begin t)
  unfolding load_segment
  load_segment-Round size begin none pos snap = unavailable
  load_segment-Round size begin (some t) pos snap = elim (Option-cases (get t.streams id)) [
    | inl unknown ↦ rw (unknown, load_segment) (missing t unknown)
    | inr (next, known) ↦
        rw (known, load_segment)
          (elim (Bool-cases (ltb next begin)) [
            | inl over ↦ rw over (beyond t next known (ltb→lt next begin over))
            | inr inside ↦
                rw inside
                  (go next known (ground (arith, inside)) (query size id types begin t) refl)
          ])
  ]
    where
      go :
          (next : ℕ)
          → get t.streams id ≡ some next
          → begin ≤ next
          → (rows : List Envelope) → query size id types begin t ≡ rows
          → Round size id types all begin (some t) (built size id begin next rows)
      go next known l rows eq =
          let c = snap next known in
          let rows_eq = sym eq ∙ query-between size id types begin next all t c in
          let same =
            subst (λ es. map (with_position id) es ≡ es) eq (positions size id types begin t) in
          elim (Bool-cases (ltb (length rows) size)) [
            | inl short ↦
                rw short (
                  more t next _ true known (whole size begin next rows rows_eq same l c.fits short))
            | inr full ↦ rw full (
                more t next _ false known
                  (part size begin next rows pos rows_eq same l c.fits full))
          ]
