-- ===== src/Source/Remote/Accepting.antt =====
-- parseSegment accepts exactly the well-formed segments, and what it delivers is what was sent.
use mathlib.Core.Path.{fun_ext}
use runkit.Prelude.{
  ltb, Bool-cases, All, u64_mod, ℕ, ◌≤◌, ◌<◌, ◌≡◌, refl, sym, ap, ◌∙◌, subst, ◌↔◌, inl, inr, true,
  false, Option, List, [], ◌∷◌, map, arith,
}
use runkit.Stream.{Envelope, Segment, Ordered}
use runkit.Stream.Order.{Ordered-upper}
use runkit.Source.Wire.{raws, AllValid, raw, Protobuf, WireSegment}
use runkit.Source.Remote.{Parsed, valid, parse_events, parse_multis, parse}
use runkit.Source.Remote.Parsing.{
  >>=-eq-valid, IsRequested, PassAll, parse_events-PassAll, parse_events-raw, parse_events-append,
  both,
}

module _ (pb : Protobuf) where
  open pb use {Multi, members, valid_id}

  -- Multi-envelopes that are valid are parsed as one list of events.
  parse_multis-eq :
      (id begin end : ℕ) (types : Option (List ℕ)) (next : ℕ) (ms : List Multi)
      → end < u64_mod
      → AllValid pb ms
      → parse_multis pb id begin end types next ms
        ≡ parse_events id begin end types next (raws pb ms)
  unfolding parse_multis parse_events
  parse_multis-eq id begin end types next [] f v = refl
  parse_multis-eq id begin end types next (m ∷ ms) f v =
      rw (v.0, parse_events-append id begin end types f next (members m) (raws pb ms))
        (go (parse_events id begin end types next (members m))
          (λ n. parse_multis-eq id begin end types n ms f v.1))
    where
      go :
          (p : Parsed (List Envelope × ℕ))
          → ((n : ℕ)
              → parse_multis pb id begin end types n ms
                ≡ parse_events id begin end types n (raws pb ms))
          → both p (λ n. parse_multis pb id begin end types n ms)
            ≡ both p (λ n. parse_events id begin end types n (raws pb ms))
      go p ih = ap (both p) (fun_ext ih)

  parse_multis-AllValid :
      (id begin end : ℕ) (types : Option (List ℕ)) (next : ℕ) (ms : List Multi)
      {r : List Envelope × ℕ}
      → parse_multis pb id begin end types next ms ≡ valid r
      → AllValid pb ms
  unfolding parse_multis
  parse_multis-AllValid id begin end types next [] h = tt
  parse_multis-AllValid id begin end types next (m ∷ ms) h = elim (Bool-cases (pb.valid m)) [
    | inr bad ↦ cc (sym h)
    | inl good ↦
        let ((es, n), _, rest) =
          >>=-eq-valid (parse_events id begin end types next (members m)) _ (rw good at h) in
        let (_, more, _) = >>=-eq-valid (parse_multis pb id begin end types n ms) _ rest in
        (good, parse_multis-AllValid id begin end types n ms more)
  ]

  -- A well-formed segment, and what it is parsed as.
  pub record IsWellFormed (w : WireSegment Multi) (types : Option (List ℕ)) (s : Segment)
      : Type 0 where
    pub known : valid_id w.stream_id ≡ true
    pub grows : w.begin ≤ w.end
    pub intact : AllValid pb w.multis
    pub own : s.stream_id ≡ w.stream_id
    pub begins : s.begin ≡ w.begin
    pub ends : s.end ≡ w.end
    pub ordered : Ordered w.begin w.end s.envelopes
    pub requested : All (IsRequested w.stream_id types) s.envelopes
    pub same : map raw s.envelopes ≡ raws pb w.multis

  well_formed :
      (w : WireSegment Multi) (types : Option (List ℕ)) (s : Segment) (es : List Envelope)
      (last : ℕ)
      → valid_id w.stream_id ≡ true
      → w.begin ≤ w.end
      → AllValid pb w.multis
      → valid (record { stream_id = w.stream_id; begin = w.begin; end = w.end; envelopes = es })
        ≡ valid s
      → PassAll w.stream_id w.end w.begin last types (raws pb w.multis) es
      → IsWellFormed w types s
  well_formed w types s es last known grows intact built p =
      let events : es ≡ s.envelopes = cc in
      record {
        known = known;
        grows = grows;
        intact = intact;
        own = cc;
        begins = cc;
        ends = cc;
        ordered =
            subst (Ordered w.begin w.end) events
              (Ordered-upper w.begin last w.end es p.inside p.ordered);
        requested = subst (All (IsRequested w.stream_id types)) events p.requested;
        same = subst (λ xs. map raw xs ≡ raws pb w.multis) events p.same;
      }

  parse-IsWellFormed :
      (w : WireSegment Multi) (types : Option (List ℕ)) (s : Segment)
      → w.end < u64_mod
      → parse pb w types ≡ valid s
      → IsWellFormed w types s
  unfolding parse
  parse-IsWellFormed w types s f h = elim (Bool-cases (valid_id w.stream_id)) [
    | inr unknown ↦ cc (sym (rw unknown at h))
    | inl known ↦ elim (Bool-cases (ltb w.end w.begin)) [
      | inl backwards ↦ cc (sym (rw (known, backwards) at h))
      | inr grows ↦
          let ((es, last), parts, built) =
            >>=-eq-valid (parse_multis pb w.stream_id w.begin w.end types w.begin w.multis) _
              (rw (known, grows) at h) in
          let intact =
            parse_multis-AllValid w.stream_id w.begin w.end types w.begin w.multis parts in
          let p =
            parse_events-PassAll w.stream_id w.begin w.end types f w.begin last (raws pb w.multis)
              es (ground (arith, grows))
              (sym (parse_multis-eq w.stream_id w.begin w.end types w.begin w.multis f intact)
                ∙ parts) in
          well_formed w types s es last known (ground (arith, grows)) intact built p
    ]
  ]

  IsWellFormed-parse :
      (w : WireSegment Multi) (types : Option (List ℕ)) (s : Segment)
      → w.end < u64_mod
      → IsWellFormed w types s
      → parse pb w types ≡ valid s
  unfolding parse
  IsWellFormed-parse w types s f v =
      let (last, eq, _) =
        parse_events-raw w.stream_id w.begin w.end types f w.begin s.envelopes (omega arith)
          v.ordered v.requested in
      rw
        (
          v.known,
          forwards,
          parse_multis-eq w.stream_id w.begin w.end types w.begin w.multis f v.intact,
          ← v.same,
          eq,
        )
        (ap valid (
          sym (λ i. record {
            stream_id = v.own i;
            begin = v.begins i;
            end = v.ends i;
            envelopes = s.envelopes;
          })))
    where
      forwards : ltb w.end w.begin ≡ false
      forwards = ground (arith, v.grows)

  -- For a received segment that ends below 2^64, parseSegment gives a segment s if and only if
  -- the received one is well formed and s is what it says: its stream ID and all its
  -- multi-envelopes are valid, it does not end before it begins, s has the same ID, range and
  -- events in the same order, and the events are of that stream, within the range, in
  -- increasing order of offset and of requested types.
  pub parse-eq-valid_iff :
      (w : WireSegment Multi) (types : Option (List ℕ)) (s : Segment)
      → w.end < u64_mod
      → (parse pb w types ≡ valid s) ↔ IsWellFormed w types s
  parse-eq-valid_iff w types s f = (parse-IsWellFormed w types s f, IsWellFormed-parse w types s f)
