-- ===== src/Source/Remote/Safety.antt =====
-- What Watch and Read of internal/eventstream/source/remote.go deliver, whatever the other engine sends.
use runkit.Prelude.{
  ◌==◌, Bool-cases, Option-cases, filter, All, u64_mod, ℕ, ◌<◌, ◌≡◌, refl, sym, subst, inl, inr,
  Bool, true, ◌&&◌, Option, some, List, [], ◌∷◌, arith,
}
use runkit.Stream.{Segment, Ordered}
use runkit.Source.{Callback, accepted, is_empty}
use runkit.Source.Wire.{Protobuf, WireSegment, Code}
use runkit.Source.Remote.{
  parse, Parsed, valid, invalid, follows, Received, sent, eof, broke, read_from, read,
}
use runkit.Source.Remote.Parsing.{IsRequested}
use runkit.Source.Remote.Accepting.{parse-eq-valid_iff}

-- A segment that holds events of its own stream and range, in order, of the requested types.
abbrev pub IsSafe : Option (List ℕ) → Segment → Type 0
IsSafe types s = Ordered s.begin s.end s.envelopes × All (IsRequested s.stream_id types) s.envelopes

-- Segments of one stream, each of which begins where the one before it ends.
abbrev pub Contiguous : Option (List ℕ) → ℕ → Option ℕ → List Segment → Type 0
Contiguous types id from [] = Unit
Contiguous types id from (s ∷ ss) =
    (s.stream_id ≡ id)
    × (follows s from ≡ true)
    × IsSafe types s
    × Contiguous types id (some s.end) ss

abbrev pub of_stream : ℕ → List Segment → List Segment
of_stream id = filter (λ s. s.stream_id == id)

module _ (pb : Protobuf) where
  -- The end of a segment is a 64-bit number.
  abbrev pub Fits : Received pb → Type 0
  Fits (sent w) = w.end < u64_mod
  Fits (eof _) = Unit
  Fits (broke _ _) = Unit

  parse-IsSafe :
      (w : WireSegment pb.Multi) (types : Option (List ℕ)) (s : Segment)
      → w.end < u64_mod
      → parse pb w types ≡ valid s
      → IsSafe types s
  parse-IsSafe w types s f h =
      let v = (parse-eq-valid_iff pb w types s f).0 h in
      (
        subst (λ n. Ordered s.begin n s.envelopes) (sym v.ends)
            (subst (λ n. Ordered n w.end s.envelopes) (sym v.begins) v.ordered),
        subst (λ n. All (IsRequested n types) s.envelopes) (sym v.own) v.requested,
      )

  read_from-Contiguous :
      (id : ℕ) (types : Option (List ℕ)) (begin : ℕ) (rs : List (Received pb)) (fn : Callback)
      → All Fits rs
      → Contiguous types id (some begin) (read_from pb id types begin rs fn).0
  unfolding read_from
  read_from-Contiguous id types begin [] fn f = tt
  read_from-Contiguous id types begin (eof c ∷ rs) fn f = tt
  read_from-Contiguous id types begin (broke c code ∷ rs) fn f = tt
  read_from-Contiguous id types begin (sent w ∷ rs) fn f =
      go (parse pb w types) refl (λ s. read_from-Contiguous id types s.end rs (accepted s fn) f.1)
    where
      go :
          (p : Parsed Segment)
          → parse pb w types ≡ p
          → ((s : Segment)
              → Contiguous types id (some s.end) (read_from pb id types s.end rs (accepted s fn)).0)
          → Contiguous types id (some begin) (read_from pb id types begin (sent w ∷ rs) fn).0
      go (invalid r) h ih = rw (h, read_from) tt
      go (valid s) h ih = elim (Bool-cases (s.stream_id == id && s.begin == begin)) [
        | inr bad ↦ rw (h, bad, read_from) tt
        | inl good ↦ elim (Option-cases (fn [] s)) [
          | inl passed ↦
              rw (h, good, passed, read_from)
                (ground (arith, good), ground (arith, good), parse-IsSafe w types s f.0 h, ih s)
          | inr (e, yes') ↦ rw (h, good, yes', read_from) tt
        ]
      ]

  -- Whatever a remote engine sends to Remote.Read, provided that the ends of its segments are
  -- below 2^64, and whether its call fails, and whatever the callback refuses, the delivered
  -- segments are of the requested stream, contiguous from the requested offset, and each holds
  -- only events of its own range, in increasing order of offset and of requested types.
  pub read-Contiguous :
      (call : Option (Bool × Code)) (id : ℕ) (types : Option (List ℕ)) (begin : ℕ)
      (rs : List (Received pb)) (fn : Callback)
      → All Fits rs
      → Contiguous types id (some begin) (read pb call id types begin rs fn).0
  unfolding read
  read-Contiguous call id types begin rs fn f = elim (Bool-cases (is_empty types)) [
    | inl none' ↦ rw none' tt
    | inr some' ↦ elim (Option-cases call) [
      | inl passed ↦ rw (some', passed) (read_from-Contiguous id types begin rs fn f)
      | inr (c, yes') ↦ rw (some', yes') tt
    ]
  ]
