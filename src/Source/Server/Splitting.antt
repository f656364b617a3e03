-- ===== src/Source/Server/Splitting.antt =====
-- splitSegment cuts a segment into contiguous parts that hold all its events, and keeps each part small.
use runkit.Prelude.{
  Bool-cases, length, length-append, All, ℕ, ◌+◌, ◌≤◌, ◌<◌, ◌≡◌, refl, sym, ap, ◌∙◌, subst, ◌⊎◌,
  inl, inr, true, false, none, List, [], ◌∷◌, ◌++◌, map, append-nil, append_assoc, arith,
}
use runkit.Source.Server.{Part, start_at, all_multis, is_full, add, split_from, split}
use runkit.Source.Server.Filling.{Added, joins, begins, add-Added, Holds, add-Holds}
use runkit.Source.Server.Groups.{
  Group, flat, cost, flat-begin, flat-join, cost-begin, cost-join, AreGrouped, AreGrouped-snoc,
  AreGrouped-last, joined-raws,
}
use runkit.Stream.{Envelope, Segment, Ordered}
use runkit.Stream.Order.{Ordered-cut}
use runkit.Source.Wire.{raw, Protobuf, WireSegment, raws, AllValid}

module _ (pb : Protobuf) where
  open pb use {Multi, members, try_append, as_multi, header_size, body_size, is_valid}

  -- The size that the loop keeps is what it holds, and over the maximum only for a single event.
  record Fits (max_bytes : ℕ) (p : Part pb) (held : List Envelope) : Type 0 where
    groups : List Group
    grouped : AreGrouped pb (all_multis pb p) groups
    all_held : held ≡ flat groups
    counted : p.size ≡ cost pb groups
    small : (p.size ≤ max_bytes) ⊎ (length held ≤ 1)
    begun : (p.multi ≡ none) ⊎ (0 < length held)
    positive : (length held ≡ 0) ⊎ (0 < p.size)

  -- An event that has a size.
  abbrev pub IsSized : Envelope → Type 0
  IsSized e = 0 < header_size e + body_size e

  add-Fits :
      (max_bytes : ℕ) (p : Part pb) (held : List Envelope) (e : Envelope)
      → Fits max_bytes p held
      → IsSized e
      → is_full pb max_bytes p e ≡ false
      → Fits max_bytes (add pb p e) (held ++ e ∷ [])
  add-Fits max_bytes p held e f z room = go (add pb p e) (add-Added pb p e)
    where
      longer : length (held ++ e ∷ []) ≡ length held + 1
      longer = length-append held (e ∷ [])

      fits : (length held ≡ 0) ⊎ (p.size + header_size e + body_size e ≤ max_bytes)
      fits = ground (arith, f.positive, room)

      go : (q : Part pb) → Added pb p e q → Fits max_bytes q (held ++ e ∷ [])
      go q (joins m m' last joined eq) =
          let some_held : 0 < length held = ground (arith, f.begun, last) in
          let (before, x, xs, all, same, held_last) =
            AreGrouped-last pb p.finished m f.groups (rw last at f.grouped) in
          rw eq (record {
            groups = before ++ (x, xs ++ e ∷ []) ∷ [];
            grouped =
                AreGrouped-snoc pb p.finished m' before (x, xs ++ e ∷ []) same
                  (joined-raws pb m m' x xs e (pb.members-try_append m e m' joined) held_last);
            all_held =
                ap (λ ys. ys ++ e ∷ []) (f.all_held ∙ ap flat all) ∙ sym (flat-join before x xs e);
            counted =
                ap (λ n. n + body_size e) (f.counted ∙ ap (cost pb) all)
                ∙ sym (cost-join pb before x xs e);
            small = inl (omega (arith, fits, some_held));
            begun = inr (omega (arith, longer));
            positive = inr (omega (arith, f.positive, some_held));
          })
      go q (begins eq) = rw eq (record {
        groups = f.groups ++ (e, []) ∷ [];
        grouped =
            AreGrouped-snoc pb (all_multis pb p) (as_multi e) f.groups (e, []) f.grouped
              (pb.members-as_multi e);
        all_held = ap (λ ys. ys ++ e ∷ []) f.all_held ∙ sym (flat-begin f.groups e);
        counted =
            ap (λ n. n + header_size e + body_size e) f.counted ∙ sym (cost-begin pb f.groups e);
        small = ground (arith, fits, longer);
        begun = inr (omega (arith, longer));
        positive = inr (omega (arith, z));
      })

  add_begin : (p : Part pb) (e : Envelope) → (add pb p e).begin ≡ p.begin
  unfolding add
  add_begin p e = ground arith

  -- Multi-envelopes that hold some events, in groups, and are no larger than the maximum, with one header for each of
  -- them, unless the event is a single one.
  abbrev pub IsSmall : ℕ → List Multi → List Envelope → Type 0
  IsSmall max_bytes ms es =
      (gs : List Group) × (es ≡ flat gs)
      × AreGrouped pb ms gs
      × ((cost pb gs ≤ max_bytes) ⊎ (length es ≤ 1))

  Fits-IsSmall :
      (max_bytes : ℕ) (p : Part pb) (held : List Envelope)
      → Fits max_bytes p held
      → IsSmall max_bytes (all_multis pb p) held
  Fits-IsSmall max_bytes p held f = (
    f.groups,
    f.all_held,
    f.grouped,
    subst (λ n. (n ≤ max_bytes) ⊎ (length held ≤ 1)) f.counted f.small,
  )

  -- What is sent for a segment that ends at `end` and holds `es`: contiguous parts, each with its share of
  -- the events, in order, and no larger than the maximum unless it holds a single event.
  abbrev pub IsSplit : ℕ → ℕ → ℕ → List (WireSegment Multi) → ℕ → List Envelope → Type 0
  IsSplit max_bytes id b [] end es = (b ≡ end) × (es ≡ [])
  IsSplit max_bytes id b (w ∷ ws) end es =
      (xs : List Envelope) × (ys : List Envelope) × (es ≡ xs ++ ys)
      × (w.stream_id ≡ id)
      × (w.begin ≡ b)
      × Ordered w.begin w.end xs
      × (raws pb w.multis ≡ map raw xs)
      × AllValid pb w.multis
      × IsSmall max_bytes w.multis xs
      × IsSplit max_bytes id w.end ws end ys

  nothing_held : (b : ℕ) → Holds pb (start_at pb b) []
  nothing_held b = record { same = refl; intact = tt }

  start-Fits : (max_bytes b : ℕ) → Fits max_bytes (start_at pb b) []
  start-Fits max_bytes b = record {
    groups = [];
    grouped = refl;
    all_held = refl;
    counted = refl;
    small = inr (omega arith);
    begun = inl refl;
    positive = inl refl;
  }

  split_from-IsSplit :
      (max_bytes id end : ℕ) (p : Part pb) (held es : List Envelope)
      → Holds pb p held
      → Fits max_bytes p held
      → Ordered p.begin end (held ++ es)
      → All (λ e. is_valid e ≡ true) es
      → All IsSized es
      → IsSplit max_bytes id p.begin (split_from pb max_bytes id end p es) end (held ++ es)
  unfolding split_from
  split_from-IsSplit max_bytes id end p held [] h f o v z = (
    held,
    [],
    refl,
    refl,
    refl,
    subst (Ordered p.begin end) (append-nil held) o,
    h.same,
    h.intact,
    Fits-IsSmall max_bytes p held f,
    (refl, refl),
  )
  split_from-IsSplit max_bytes id end p held (e ∷ es) h f o v z =
      elim (Bool-cases (is_full pb max_bytes p e)) [
        | inl full ↦
            let (left, right) = Ordered-cut p.begin end held e es o in
            rw full (
              held,
              e ∷ es,
              refl,
              refl,
              refl,
              left,
              h.same,
              h.intact,
              Fits-IsSmall max_bytes p held f,
              moved (start_at pb e.offset) [] right (λ o'.
                  split_from-IsSplit max_bytes id end (add pb (start_at pb e.offset) e) (e ∷ []) es
                    (add-Holds pb (start_at pb e.offset) [] e (nothing_held e.offset) v.0)
                    (add-Fits max_bytes (start_at pb e.offset) [] e (start-Fits max_bytes e.offset)
                      z.0 refl)
                    o' v.1 z.1),
            )
        | inr room ↦ rw room (
            moved p held o (λ o'.
              split_from-IsSplit max_bytes id end (add pb p e) (held ++ e ∷ []) es
                (add-Holds pb p held e h v.0) (add-Fits max_bytes p held e f z.0 room) o' v.1 z.1))
      ]
    where
      moved :
          (q : Part pb) (xs : List Envelope)
          → Ordered q.begin end (xs ++ e ∷ es)
          → (Ordered (add pb q e).begin end ((xs ++ e ∷ []) ++ es)
              → IsSplit max_bytes id
                  (add pb q e).begin
                  (split_from pb max_bytes id end (add pb q e) es)
                  end
                  ((xs ++ e ∷ []) ++ es))
          → IsSplit max_bytes id q.begin
              (split_from pb max_bytes id end (add pb q e) es)
              end
              (xs ++ e ∷ es)
      moved q xs ord k =
          subst
            (λ b.
              IsSplit max_bytes id b (split_from pb max_bytes id end (add pb q e) es) end
                (xs ++ e ∷ es))
            (add_begin q e)
            (subst
              (IsSplit max_bytes id (add pb q e).begin
                (split_from pb max_bytes id end (add pb q e) es) end)
              (append_assoc xs (e ∷ []) es)
              (k (
                subst (λ b. Ordered b end ((xs ++ e ∷ []) ++ es)) (sym (add_begin q e))
                  (subst (Ordered q.begin end) (sym (append_assoc xs (e ∷ []) es)) ord))))

  -- If the events of a segment have increasing offsets within its range, are valid, and have
  -- sizes that are not zero, then splitSegment gives contiguous parts of the same stream that
  -- span the same range; each part holds, in multi-envelopes that are valid, exactly the events
  -- of its own range, in order; and the parts are no larger than the maximum, unless they hold
  -- a single event, where the size of a part is that of the bodies of its events and, for each
  -- of its multi-envelopes, of the header of the first event that this one holds.
  pub split-IsSplit :
      (max_bytes : ℕ) (seg : Segment)
      → Ordered seg.begin seg.end seg.envelopes
      → All (λ e. is_valid e ≡ true) seg.envelopes
      → All IsSized seg.envelopes
      → IsSplit max_bytes seg.stream_id seg.begin (split pb max_bytes seg) seg.end seg.envelopes
  unfolding split
  split-IsSplit max_bytes seg o v z =
      split_from-IsSplit max_bytes seg.stream_id seg.end (start_at pb seg.begin) [] seg.envelopes
        (nothing_held seg.begin) (start-Fits max_bytes seg.begin) o v z
