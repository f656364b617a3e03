-- ===== src/Source/Memory/Reading.antt =====
-- Memory.Read delivers exactly the requested events of the stream, in contiguous segments, and ends.
use runkit.Prelude.Maps.{get}
use runkit.Prelude.{
  none, ltb, leb, ◌==◌, if◌then◌else◌, ltb→lt, ==_iff, tests, Bool-cases, Option-cases, length,
  get_elem?, take, get_elem?_total, get_elem?-take, filter, filter-eq, u64_mod, inc64, inc64-eq-suc,
  ℕ, zero, suc, ◌≤◌, ◌<◌, ◌≡◌, refl, ap, ◌∙◌, inl, inr, Bool, not, ◌&&◌, ◌||◌, Option, some, List,
  arith,
}
use runkit.Stream.{Envelope, Segment, Ordered, between, wants}
use runkit.Stream.Between.{between-filter, take-between, between-bounds}
use runkit.Source.{unrecognized_stream, offset_out_of_range}
use runkit.Source.Memory.{
  MemoryStream, Memory, segment, limit, Unread, found, at_end, refused, unread,
}

-- A stream as it stood at some moment: the events of its history below its end.
pub record IsCut (all : List Envelope) (ms : MemoryStream) : Type 0 where
  pub prefix : ms.envelopes ≡ filter (λ e. ltb e.offset ms.end) all
  pub fits : ms.end < u64_mod

abbrev pub IsSnapshot : ℕ → List Envelope → Memory → Type 0
IsSnapshot id all m = (ms : MemoryStream) → get m.streams id ≡ some ms → IsCut all ms

segment-between :
    (id : ℕ) (types : Option (List ℕ)) (begin : ℕ) (all : List Envelope) (ms : MemoryStream)
    → IsCut all ms
    → (segment id ms types begin ms.end).envelopes ≡ between types begin ms.end all
unfolding segment
segment-between id types begin all ms c =
    filter-eq _ _ ms.envelopes (λ e. same begin ms.end e.offset (wants types e.type_id))
    ∙ ap (between types begin ms.end) c.prefix
    ∙ between-filter types begin ms.end ms.end all (omega arith)
  where
    same : (b e o : ℕ) (q : Bool) → (not (ltb o b || leb e o) && q) ≡ (leb b o && (ltb o e && q))
    same b e o q = ground arith

-- What one round of Read finds: the next segment, within the stream as it stands.
pub record IsNext (types : Option (List ℕ)) (id : ℕ) (all : List Envelope) (begin end : ℕ)
    (s : Segment) : Type 0 where
  pub own : s.stream_id ≡ id
  pub begins : s.begin ≡ begin
  pub grows : begin < s.end
  pub inside : s.end ≤ end
  pub holds : s.envelopes ≡ between types s.begin s.end all

limit_cut :
    (k : ℕ) (seg : Segment) (x : Envelope)
    → suc k < length seg.envelopes
    → get_elem? seg.envelopes k ≡ some x
    → limit (suc k) seg
      ≡ found (record seg { envelopes = take (suc k) seg.envelopes; end = inc64 x.offset })
unfolding limit
limit_cut k seg x l at = ground (arith, get_elem?-take (suc k) k seg.envelopes)

module _ (lo hi id : ℕ) (all : List Envelope) (types : Option (List ℕ))
    (o : Ordered lo hi all) where
  -- A segment cut after its first k + 1 events ends after the last of them.
  cut-IsNext :
      (k begin end : ℕ) (seg : Segment) (x : Envelope)
      → IsNext types id all begin end seg
      → end < u64_mod
      → get_elem? seg.envelopes k ≡ some x
      → IsNext types id all begin end
          (record seg { envelopes = take (suc k) seg.envelopes; end = inc64 x.offset })
  cut-IsNext k begin end seg x n fits at =
      let at' : get_elem? (between types seg.begin seg.end all) k ≡ some x = rw n.holds at at in
      let (low, high) = between-bounds types seg.begin seg.end k all x at' in
      let end_eq : inc64 x.offset ≡ suc x.offset =
        inc64-eq-suc x.offset end (omega (arith, high, n.inside)) fits in
      record {
        own = n.own;
        begins = n.begins;
        grows = omega (arith, end_eq, low, n.begins);
        inside = omega (arith, end_eq, high, n.inside);
        holds = rw (n.holds, end_eq) (take-between types seg.begin seg.end lo hi k all x o at');
      }

  limit-IsNext :
      (size begin end : ℕ) (seg : Segment)
      → IsNext types id all begin end seg
      → end < u64_mod
      → (s : Segment) × (limit size seg ≡ found s) × IsNext types id all begin end s
  unfolding limit
  limit-IsNext zero begin end seg n fits = (seg, refl, n)
  limit-IsNext (suc k) begin end seg n fits =
      elim (Bool-cases (ltb (suc k) (length seg.envelopes))) [
        | inr whole ↦ (seg, rw (whole, limit) (ground arith), n)
        | inl cut ↦
            let (x, at) = get_elem?_total seg.envelopes k (omega (tests, cut)) in
            (
              record seg { envelopes = take (suc k) seg.envelopes; end = inc64 x.offset },
              limit_cut k seg x (ltb→lt (suc k) (length seg.envelopes) cut) at,
              cut-IsNext k begin end seg x n fits at,
            )
      ]

  -- What `unread` answers about a stream of the source, whatever the offset.
  pub data Round (m : Memory) (begin : ℕ) : Unread → Type 0 where
    more :
        (ms : MemoryStream) (s : Segment)
        → get m.streams id ≡ some ms
        → IsNext types id all begin ms.end s
        → Round m begin (found s)
    done : (ms : MemoryStream) → get m.streams id ≡ some ms → begin ≡ ms.end → Round m begin at_end
    missing : get m.streams id ≡ none → Round m begin (refused unrecognized_stream)
    beyond :
        (ms : MemoryStream)
        → get m.streams id ≡ some ms
        → ms.end < begin
        → Round m begin (refused offset_out_of_range)

  pub unread-Round :
      (m : Memory) (begin : ℕ) → IsSnapshot id all m → Round m begin (unread m id types begin)
  unfolding unread segment
  unread-Round m begin snap = elim (Option-cases (get m.streams id)) [
    | inl unknown ↦ rw (unknown, unread) (missing unknown)
    | inr (ms, known) ↦ rw (known, unread) (inside ms known (snap ms known))
  ]
    where
      next :
          (ms : MemoryStream)
          → IsCut all ms
          → begin < ms.end
          → IsNext types id all begin ms.end (segment id ms types begin ms.end)
      next ms c l = record {
        own = refl;
        begins = refl;
        grows = l;
        inside = omega arith;
        holds = segment-between id types begin all ms c;
      }

      inside :
          (ms : MemoryStream)
          → get m.streams id ≡ some ms
          → IsCut all ms
          → Round m begin (
              if ltb ms.end begin
              then refused offset_out_of_range
              else if begin == ms.end
              then at_end
              else limit m.segment_size (segment id ms types begin ms.end))
      inside ms known c = elim (Bool-cases (ltb ms.end begin)) [
        | inl over ↦ rw over (beyond ms known (ltb→lt ms.end begin over))
        | inr within ↦ rw within (elim (Bool-cases (begin == ms.end)) [
          | inl end ↦ rw end (done ms known ((==_iff begin ms.end).0 end))
          | inr before ↦
              let (s, eq, n) =
                limit-IsNext m.segment_size begin ms.end (segment id ms types begin ms.end)
                  (next ms c (ground (arith, within, before))) c.fits in
              rw (before, eq) (more ms s known n)
        ])
      ]
