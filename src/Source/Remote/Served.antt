-- ===== src/Source/Remote/Served.antt =====
-- The server and the client together: what a remote source delivers is what the server's own source
-- delivered, for every way of splitting it.
use runkit.Prelude.{
  ltb, leb, ==_iff, ==_refl, Bool-cases, All, All-filter, All-imp, All-left, All-right, u64_mod, ℕ,
  ◌<◌, ◌≡◌, refl, sym, ap, ◌∙◌, subst, inl, inr, true, false, ◌&&◌, Option, none, List, [], ◌∷◌,
  ◌++◌, map, append-nil, append_assoc, arith,
}
use runkit.Stream.{Envelope, Segment, Ordered, between, wants, Covers}
use runkit.Stream.Order.{Ordered-append, Ordered-le}
use runkit.Stream.Between.{between-Ordered_range}
use runkit.Stream.Cover.{Covers-le, Covers-append}
use runkit.Stream.Cut.{between-cut}
use runkit.Source.{ok, Delivery, is_empty, accept, accept_all}
use runkit.Source.Wire.{raw, Protobuf, WireSegment, raws, AllValid}
use runkit.Source.Server.{split}
use runkit.Source.Server.Endpoints.{split_all}
use runkit.Source.Server.Splitting.{IsSplit, IsSized, split-IsSplit}
use runkit.Source.Remote.{valid, parse, Received, sent, eof, read_from, read}
use runkit.Source.Remote.Parsing.{IsRequested}
use runkit.Source.Remote.Accepting.{parse-eq-valid_iff}

module _ (pb : Protobuf) where
  open pb use {Multi, valid_id, is_valid}

  IsSplit-Ordered :
      (max_bytes id b e : ℕ) (ws : List (WireSegment Multi)) (es : List Envelope)
      → IsSplit pb max_bytes id b ws e es
      → Ordered b e es
  IsSplit-Ordered max_bytes id b e [] es (at, none') = rw none' (omega arith)
  IsSplit-Ordered max_bytes id b e (w ∷ ws) es
        (xs, ys, eq, own, begins, o, same, intact, small, rest) =
      rw (eq, ← begins)
        (Ordered-append w.begin w.end e xs ys o (IsSplit-Ordered max_bytes id w.end e ws ys rest))

  -- What a client receives: parts, and then something else.
  abbrev pub then_received : List (WireSegment Multi) → List (Received pb) → List (Received pb)
  then_received [] rs = rs
  then_received (w ∷ ws) rs = sent w ∷ then_received ws rs

  then_received-append :
      (ws vs : List (WireSegment Multi)) (rs : List (Received pb))
      → then_received (ws ++ vs) rs ≡ then_received ws (then_received vs rs)
  then_received-append [] vs rs = refl
  then_received-append (w ∷ ws) vs rs = ap (◌∷◌ (sent w)) (then_received-append ws vs rs)

  join :
      (ts us : List Segment) (d d' : Delivery)
      → d ≡ (us ++ d'.0, d'.1)
      → ◌≡◌ {A = Delivery} (ts ++ d.0, d.1) ((ts ++ us) ++ d'.0, d'.1)
  join ts us d d' eq = rw eq (λ i. (sym (append_assoc ts us d'.0) i, d'.1))

  module _ (types : Option (List ℕ)) (id lo hi : ℕ) (all : List Envelope)
      (known : valid_id id ≡ true) where
    -- A part that holds the requested events of its range is delivered as it is.
    read_part :
        (w : WireSegment Multi) (xs : List Envelope) (rs : List (Received pb))
        → w.end < u64_mod
        → w.stream_id ≡ id
        → Ordered w.begin w.end xs
        → raws pb w.multis ≡ map raw xs
        → AllValid pb w.multis
        → All (IsRequested id types) xs
        → read_from pb id types w.begin (sent w ∷ rs) accept_all
          ≡ accept
              (record { stream_id = w.stream_id; begin = w.begin; end = w.end; envelopes = xs })
              (read_from pb id types w.end rs accept_all)
    unfolding read_from
    read_part w xs rs f own o same intact req =
        let s : Segment = record {
          stream_id = w.stream_id;
          begin = w.begin;
          end = w.end;
          envelopes = xs;
        } in
        let parsed : parse pb w types ≡ valid s = (parse-eq-valid_iff pb w types s f).1 (record {
          known = rw own known;
          grows = Ordered-le w.begin w.end xs o;
          intact = intact;
          own = refl;
          begins = refl;
          ends = refl;
          ordered = o;
          requested = rw own req;
          same = sym same;
        }) in
        rw (parsed, (==_iff w.stream_id id).1 own, ==_refl w.begin, read_from)

    read_parts :
        (max_bytes b e : ℕ) (ws : List (WireSegment Multi)) (es : List Envelope)
        (rs : List (Received pb))
        → e < u64_mod
        → IsSplit pb max_bytes id b ws e es
        → es ≡ between types b e all
        → All (IsRequested id types) es
        → (ss : List Segment) × (read_from pb id types b (then_received ws rs) accept_all ≡ (
          ss ++ (read_from pb id types e rs accept_all).0,
          (read_from pb id types e rs accept_all).1,
        ))
          × Covers types id all b ss e
    read_parts max_bytes b e [] es rs f (at, none') eq req =
        ([], ap (λ n. read_from pb id types n rs accept_all) at, at)
    read_parts max_bytes b e (w ∷ ws) es rs f
          (xs, ys, cut, own, begins, o, same, intact, small, rest) eq req =
        let later = IsSplit-Ordered max_bytes id w.end e ws ys rest in
        let below = Ordered-le w.end e ys later in
        let (left, right) =
          between-cut types w.begin w.end e all xs ys (Ordered-le w.begin w.end xs o) below o later
            (sym cut ∙ eq ∙ ap (λ n. between types n e all) (sym begins)) in
        let req' : All (IsRequested id types) (xs ++ ys) =
          subst (All (IsRequested id types)) cut req in
        let (ss, tail, covers) =
          read_parts max_bytes w.end e ws ys rs f rest right
            (All-right (IsRequested id types) xs ys req') in
        let seg : Segment = record {
          stream_id = w.stream_id;
          begin = w.begin;
          end = w.end;
          envelopes = xs;
        } in
        (
          seg ∷ ss,
          ap (λ n. read_from pb id types n (sent w ∷ then_received ws rs) accept_all) (sym begins)
              ∙ read_part w xs (then_received ws rs) (omega (arith, below, f)) own o same intact
                  (All-left (IsRequested id types) xs ys req')
              ∙ ap (accept seg) tail,
          (own, begins, Ordered-le w.begin w.end xs o, left, covers),
        )

    -- What is known of every event of the stream.
    abbrev pub IsSound : Envelope → Type 0
    IsSound e = (e.stream_id ≡ id) × (is_valid e ≡ true) × IsSized pb e

    requested :
        (b e : ℕ) (es : List Envelope)
        → All IsSound es
        → All (IsRequested id types) (between types b e es)
    requested b e [] h = tt
    requested b e (x ∷ xs) (s, h) =
        elim (Bool-cases (leb b x.offset && (ltb x.offset e && wants types x.type_id))) [
          | inl t ↦ rw t ((s.0, ground (arith, t)), requested b e xs h)
          | inr f ↦ rw f (requested b e xs h)
        ]

    read_segments :
        (max_bytes b e : ℕ) (ss : List Segment) (rs : List (Received pb))
        → Ordered lo hi all
        → e < u64_mod
        → All IsSound all
        → Covers types id all b ss e
        → (ts : List Segment) × (read_from pb id types b
              (then_received (split_all pb max_bytes ss) rs)
              accept_all
            ≡ (
              ts ++ (read_from pb id types e rs accept_all).0,
              (read_from pb id types e rs accept_all).1,
            ))
          × Covers types id all b ts e
    read_segments max_bytes b e [] rs o f h c =
        ([], ap (λ n. read_from pb id types n rs accept_all) c, c)
    read_segments max_bytes b e (s ∷ ss) rs o f h (own, begins, grows, holds, rest) =
        let ordered : Ordered s.begin s.end s.envelopes =
          rw holds (between-Ordered_range types s.begin s.end lo hi all o grows) in
        let sound : All IsSound s.envelopes =
          subst (All IsSound) (sym holds) (All-filter IsSound _ all h) in
        let pieces : IsSplit pb max_bytes id s.begin (split pb max_bytes s) s.end s.envelopes =
          subst (λ n. IsSplit pb max_bytes n s.begin (split pb max_bytes s) s.end s.envelopes) own
            (split-IsSplit pb max_bytes s ordered
              (All-imp IsSound (λ x. is_valid x ≡ true) s.envelopes (λ x q. q.1) sound)
              (All-imp IsSound (IsSized pb) s.envelopes (λ x q. q.2) sound)) in
        let below = Covers-le types id all s.end e ss rest in
        let (ts, first, covers) =
          read_parts max_bytes s.begin s.end (split pb max_bytes s) s.envelopes
            (then_received (split_all pb max_bytes ss) rs) (omega (arith, below, f)) pieces holds
            (subst (All (IsRequested id types)) (sym holds) (requested s.begin s.end all h)) in
        let (us, second, covers') = read_segments max_bytes s.end e ss rs o f h rest in
        (
          ts ++ us,
          ap
                (λ n.
                  read_from pb id types n
                    (then_received (split pb max_bytes s ++ split_all pb max_bytes ss) rs)
                    accept_all)
                (sym begins)
              ∙ ap (λ ws. read_from pb id types s.begin ws accept_all)
                  (then_received-append (split pb max_bytes s) (split_all pb max_bytes ss) rs)
              ∙ first
              ∙ join ts us _ (read_from pb id types e rs accept_all) second,
          Covers-append types id all b s.end e ts us
              (subst (λ n. Covers types id all n ts s.end) begins covers) covers',
        )

    -- Suppose that the events of a stream have increasing offsets, each of them with the ID of
    -- the stream, valid, and of a size that is not zero; that the ID is valid and the requested
    -- types are not an empty set; that the segments given to the server are contiguous from b
    -- to e with exactly the requested events of their ranges; and that e is below 2^64. Then
    -- for every maximum message size, a remote Read that receives the parts into which the
    -- server splits the segments, and then the end of the stream, returns nil and delivers
    -- contiguous segments from b to e with exactly the requested events of their ranges.
    pub read-served :
        (max_bytes b e : ℕ) (ss : List Segment)
        → is_empty types ≡ false
        → Ordered lo hi all
        → e < u64_mod
        → All IsSound all
        → Covers types id all b ss e
        → let d =
            read pb none id types b
              (then_received (split_all pb max_bytes ss) (eof false ∷ []))
              accept_all in
          (d.1 ≡ ok) × Covers types id all b d.0 e
    unfolding read read_from
    read-served max_bytes b e ss ne o f h c =
        let (ts, eq, covers) = read_segments max_bytes b e ss (eof false ∷ []) o f h c in
        rw (ne, eq) (refl, subst (λ us. Covers types id all b us e) (sym (append-nil ts)) covers)
