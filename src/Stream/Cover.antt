-- ===== src/Stream/Cover.antt =====
-- Laws of `Covers`: contiguous segments together deliver exactly what lies in the range they span.
use runkit.Prelude.{ℕ, ◌≤◌, ◌≡◌, sym, Option, List, [], ◌∷◌, ◌++◌, arith}
use runkit.Stream.{Envelope, Segment, Ordered, between, Covers, delivered}
use runkit.Stream.Between.{between-append, between_none}

module _ (types : Option (List ℕ)) (id : ℕ) (all : List Envelope) where
  pub Covers-le : (b e : ℕ) (ss : List Segment) → Covers types id all b ss e → b ≤ e
  Covers-le b e [] c = omega arith
  Covers-le b e (s ∷ ss) (_, from, grows, _, rest) =
      omega (arith, from, grows, Covers-le s.end e ss rest)

  pub Covers-append :
      (b m e : ℕ) (ss ts : List Segment)
      → Covers types id all b ss m
      → Covers types id all m ts e
      → Covers types id all b (ss ++ ts) e
  Covers-append b m e [] ts c d = rw c d
  Covers-append b m e (s ∷ ss) ts (own, from, grows, holds, rest) d =
      (own, from, grows, holds, Covers-append s.end m e ss ts rest d)

  -- Nothing is lost, repeated or reordered between the segments.
  pub Covers-delivered :
      (lo hi b e : ℕ) (ss : List Segment)
      → Ordered lo hi all
      → Covers types id all b ss e
      → delivered ss ≡ between types b e all
  Covers-delivered lo hi b e [] o c = rw c (sym (between_none types e all))
  Covers-delivered lo hi b e (s ∷ ss) o (own, from, grows, holds, rest) =
      rw (← from, holds, Covers-delivered lo hi s.end e ss o rest)
        (between-append types s.begin s.end e lo hi all o grows (Covers-le s.end e ss rest))
