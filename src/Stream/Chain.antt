-- ===== src/Stream/Chain.antt =====
-- Sequences of segments of several streams, in which those of each single stream are contiguous.
use runkit.Prelude.{
  ◌==◌, if◌then◌else◌, ==_iff, Bool-cases, ℕ, ◌≡◌, refl, sym, ap, ◌∙◌, ◌⊎◌, inl, inr, Bool, true,
  false, not, ◌&&◌, ◌||◌, Option, none, some, List, [], ◌∷◌, ◌++◌,
}
use runkit.Stream.{Segment}

-- Whether a segment begins where the one before it ended, if there was one.
abbrev pub continues : Segment → Option ℕ → Bool
continues seg none = true
continues seg (some end) = seg.begin == end

-- The end of the last segment of a stream.
abbrev pub next_end : ℕ → Option ℕ → Segment → Option ℕ
next_end id from seg = if seg.stream_id == id then some seg.end else from

abbrev pub end_of : ℕ → Option ℕ → List Segment → Option ℕ
end_of id from [] = from
end_of id from (seg ∷ segs) = end_of id (next_end id from seg) segs

-- Whether the segments of a stream are contiguous.
abbrev pub are_contiguous : ℕ → Option ℕ → List Segment → Bool
are_contiguous id from [] = true
are_contiguous id from (seg ∷ segs) =
    (not (seg.stream_id == id) || continues seg from)
    && are_contiguous id (next_end id from seg) segs

pub end_of-append :
    (id : ℕ) (from : Option ℕ) (xs ys : List Segment)
    → end_of id from (xs ++ ys) ≡ end_of id (end_of id from xs) ys
end_of-append id from [] ys = refl
end_of-append id from (x ∷ xs) ys = end_of-append id (next_end id from x) xs ys

and_assoc : (a b c : Bool) → (a && (b && c)) ≡ ((a && b) && c)
and_assoc true b c = refl
and_assoc false b c = refl

pub are_contiguous-append :
    (id : ℕ) (from : Option ℕ) (xs ys : List Segment)
    → are_contiguous id from (xs ++ ys)
      ≡ (are_contiguous id from xs && are_contiguous id (end_of id from xs) ys)
are_contiguous-append id from [] ys = refl
are_contiguous-append id from (x ∷ xs) ys =
    ap (◌&&◌ (not (x.stream_id == id) || continues x from))
      (are_contiguous-append id (next_end id from x) xs ys)
    ∙ and_assoc (not (x.stream_id == id) || continues x from)
        (are_contiguous id (next_end id from x) xs) _

-- A segment that continues its stream keeps the sequence contiguous.
pub are_contiguous-snoc :
    (id : ℕ) (from : Option ℕ) (xs : List Segment) (x : Segment)
    → are_contiguous id from xs ≡ true
    → (x.stream_id ≡ id → continues x (end_of id from xs) ≡ true)
    → are_contiguous id from (xs ++ x ∷ []) ≡ true
are_contiguous-snoc id from xs x c n =
    are_contiguous-append id from xs (x ∷ []) ∙ rw c (last (Bool-cases (x.stream_id == id)))
  where
    last :
        (x.stream_id == id ≡ true) ⊎ (x.stream_id == id ≡ false)
        → ((not (x.stream_id == id) || continues x (end_of id from xs)) && true) ≡ true
    last (inl own) = rw (own, n ((==_iff x.stream_id id).0 own)) refl
    last (inr other') = rw other' refl

-- The first segments of a contiguous sequence are contiguous.
pub are_contiguous-left :
    (id : ℕ) (from : Option ℕ) (xs ys : List Segment)
    → are_contiguous id from (xs ++ ys) ≡ true
    → are_contiguous id from xs ≡ true
are_contiguous-left id from xs ys c = left _ _ (sym (are_contiguous-append id from xs ys) ∙ c)
  where
    left : (a b : Bool) → (a && b) ≡ true → a ≡ true
    left true b h = refl
    left false b h = h
