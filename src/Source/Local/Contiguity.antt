-- ===== src/Source/Local/Contiguity.antt =====
-- Calls of Local.Watch of internal/eventstream/source/local.go: each gets every stream contiguously.
use runkit.Prelude.{
  ◌==◌, if◌then◌else◌, ltb→lt, ==_iff, Bool-cases, length, length-append, All, ℕ, ◌≤◌, ◌≡◌, refl,
  sym, ap, ◌∙◌, subst, inl, inr, Bool, true, false, Option, none, some, List, [], ◌∷◌, ◌++◌,
  append_assoc, arith,
}
use runkit.Prelude.Maps.{get, set, delete, get-set, get-delete}
use runkit.Stream.{Segment}
use runkit.Stream.Chain.{
  continues, next_end, end_of, are_contiguous, end_of-append, are_contiguous-snoc,
}
use runkit.Source.Local.Watching.{
  Watcher, openings, has_room, send, deliver_each, take_first, take_next,
}

-- A map with one entry for each key.
abbrev pub HasDistinctKeys : List (ℕ × ℕ) → Type 0
HasDistinctKeys [] = Unit
HasDistinctKeys ((k, v) ∷ m) = (get m k ≡ none) × HasDistinctKeys m

pub set-HasDistinctKeys :
    (m : List (ℕ × ℕ)) (k v : ℕ) → HasDistinctKeys m → HasDistinctKeys (set m k v)
set-HasDistinctKeys [] k v d = (refl, tt)
set-HasDistinctKeys ((j, u) ∷ m) k v d = elim (Bool-cases (j == k)) [
  | inl same ↦ rw same (subst (λ i. get m i ≡ none) ((==_iff j k).0 same) d.0, d.1)
  | inr other' ↦
      rw other' (get-set m k v j ∙ rw (flip j k other') d.0, set-HasDistinctKeys m k v d.1)
]
  where
    flip : (a b : ℕ) → a == b ≡ false → b == a ≡ false
    flip a b e = ground arith

pub delete-HasDistinctKeys :
    (m : List (ℕ × ℕ)) (k : ℕ) → HasDistinctKeys m → HasDistinctKeys (delete m k)
delete-HasDistinctKeys [] k d = tt
delete-HasDistinctKeys ((j, u) ∷ m) k d = elim (Bool-cases (j == k)) [
  | inl same ↦ rw same (delete-HasDistinctKeys m k d.1)
  | inr other' ↦
      rw other' (get-delete m k j ∙ rw (flip j k other') d.0, delete-HasDistinctKeys m k d.1)
]
  where
    flip : (a b : ℕ) → a == b ≡ false → b == a ≡ false
    flip a b e = ground arith

-- All that a call was given and will be given.
abbrev pub given : ℕ × Watcher → List Segment
given x = x.1.received ++ x.1.segments

-- A call that was removed: what it gets is contiguous.
pub record IsRemoved (x : ℕ × Watcher) : Type 0 where
  pub contiguous : (id : ℕ) → are_contiguous id none (given x) ≡ true

-- A call in the source's set: it is given each stream up to the offset that the source has for it.
pub record IsServed (size : ℕ) (offsets : List (ℕ × ℕ)) (x : ℕ × Watcher) : Type 0 where
  pub contiguous : (id : ℕ) → are_contiguous id none (given x) ≡ true
  pub up_to_date : (id : ℕ) → end_of id none (given x) ≡ get offsets id
  pub bounded : length x.1.segments ≤ size
  pub open_still : x.1.err ≡ none

pub end_of-openings :
    (id : ℕ) (from : Option ℕ) (m : List (ℕ × ℕ))
    → HasDistinctKeys m
    → end_of id from (openings m) ≡ elim (get m id) [ none ↦ from | some n ↦ some n ]
end_of-openings id from [] d = refl
end_of-openings id from ((k, v) ∷ m) d = elim (Bool-cases (k == id)) [
  | inl same ↦ rw same (
      shown same
      ∙ end_of-openings id (some v) m d.1
      ∙ rw (subst (λ i. get m i ≡ none) ((==_iff k id).0 same) d.0) refl)
  | inr other' ↦ rw other' (shown other' ∙ end_of-openings id from m d.1)
]
  where
    shown :
        {b : Bool}
        → k == id ≡ b
        → end_of id from (openings ((k, v) ∷ m))
          ≡ end_of id (if b then some v else from) (openings m)
    shown e = ap (λ b. end_of id (if b then some v else from) (openings m)) e

pub are_contiguous-openings :
    (id : ℕ) (from : Option ℕ) (m : List (ℕ × ℕ))
    → HasDistinctKeys m
    → ((n : ℕ) → get m id ≡ some n → from ≡ none)
    → are_contiguous id from (openings m) ≡ true
are_contiguous-openings id from [] d h = refl
are_contiguous-openings id from ((k, v) ∷ m) d h = elim (Bool-cases (k == id)) [
  | inl same ↦
      rw (same, h v (rw same refl))
        (are_contiguous-openings id (some v) m d.1
          (λ n e. cc (sym e ∙ subst (λ i. get m i ≡ none) ((==_iff k id).0 same) d.0)))
  | inr other' ↦ rw other' (are_contiguous-openings id from m d.1 (λ n e. h n (rw other' e)))
]

pub send-IsServed :
    (size : ℕ) (offsets : List (ℕ × ℕ)) (seg : Segment) (x : ℕ × Watcher)
    → IsServed size offsets x
    → continues seg (get offsets seg.stream_id) ≡ true
    → has_room size x ≡ true
    → IsServed size (set offsets seg.stream_id seg.end) (send seg x)
send-IsServed size offsets seg x h c room =
    let same : given (send seg x) ≡ given x ++ seg ∷ [] =
      sym (append_assoc x.1.received x.1.segments (seg ∷ [])) in
    record {
      contiguous = λ id.
          ap (are_contiguous id none) same
          ∙ are_contiguous-snoc id none (given x) seg (h.contiguous id)
              (λ own. ap (continues seg) (h.up_to_date id ∙ ap (get offsets) (sym own)) ∙ c);
      up_to_date = λ id.
          ap (end_of id none) same
          ∙ end_of-append id none (given x) (seg ∷ [])
          ∙ ap (λ o. next_end id o seg) (h.up_to_date id)
          ∙ sym (get-set offsets seg.stream_id seg.end id);
      bounded =
          omega
            (arith, length-append x.1.segments (seg ∷ []), ltb→lt (length x.1.segments) size room);
      open_still = h.open_still;
    }

pub IsServed-IsRemoved :
    (size : ℕ) (offsets : List (ℕ × ℕ)) (x : ℕ × Watcher) → IsServed size offsets x → IsRemoved x
IsServed-IsRemoved size offsets x h = record { contiguous = h.contiguous }

pub deliver_each-IsServed :
    (size : ℕ) (offsets : List (ℕ × ℕ)) (seg : Segment) (xs : List (ℕ × Watcher))
    → continues seg (get offsets seg.stream_id) ≡ true
    → All (IsServed size offsets) xs
    → All (IsServed size (set offsets seg.stream_id seg.end)) (deliver_each size seg xs).0
      × All IsRemoved (deliver_each size seg xs).1
unfolding deliver_each
deliver_each-IsServed size offsets seg [] c h = (tt, tt)
deliver_each-IsServed size offsets seg (x ∷ xs) c h =
    let (kept, lost) = deliver_each-IsServed size offsets seg xs c h.1 in
    elim (Bool-cases (has_room size x)) [
      | inl room ↦ rw room ((send-IsServed size offsets seg x h.0 c room, kept), lost)
      | inr full ↦ rw full (kept, (record { contiguous = h.0.contiguous }, lost))
    ]

given-take_next : (w : ℕ) (x : ℕ × Watcher) → given (take_next w x) ≡ given x
given-take_next w (k, x) = elim (Bool-cases (k == w)) [
  | inr other' ↦ rw other' refl
  | inl same ↦ rw same (go x.segments refl)
]
  where
    go : (segs : List Segment) → x.segments ≡ segs → given (take_first (k, x) segs) ≡ given (k, x)
    go [] e = refl
    go (seg ∷ rest) e = append_assoc x.received (seg ∷ []) rest ∙ ap (◌++◌ x.received) (sym e)

take_next-bounded :
    (size w : ℕ) (x : ℕ × Watcher)
    → length x.1.segments ≤ size
    → length (take_next w x).1.segments ≤ size
take_next-bounded size w (k, x) l = elim (Bool-cases (k == w)) [
  | inr other' ↦ rw other' l
  | inl same ↦ rw same (go x.segments l)
]
  where
    go :
        (segs : List Segment)
        → length segs ≤ size
        → length (take_first (k, x) segs).1.segments ≤ size
    go [] b = l
    go (seg ∷ rest) b = omega arith

take_next-err : (w : ℕ) (x : ℕ × Watcher) → (take_next w x).1.err ≡ x.1.err
take_next-err w (k, x) = elim (Bool-cases (k == w)) [
  | inr other' ↦ rw other' refl
  | inl same ↦ rw same (go x.segments)
]
  where
    go : (segs : List Segment) → (take_first (k, x) segs).1.err ≡ x.err
    go [] = refl
    go (seg ∷ rest) = refl

pub take_next-IsServed :
    (size w : ℕ) (offsets : List (ℕ × ℕ)) (x : ℕ × Watcher)
    → IsServed size offsets x
    → IsServed size offsets (take_next w x)
take_next-IsServed size w offsets x h = record {
  contiguous = λ id. ap (are_contiguous id none) (given-take_next w x) ∙ h.contiguous id;
  up_to_date = λ id. ap (end_of id none) (given-take_next w x) ∙ h.up_to_date id;
  bounded = take_next-bounded size w x h.bounded;
  open_still = take_next-err w x ∙ h.open_still;
}

pub take_next-IsRemoved : (w : ℕ) (x : ℕ × Watcher) → IsRemoved x → IsRemoved (take_next w x)
take_next-IsRemoved w x h = record {
  contiguous = λ id. ap (are_contiguous id none) (given-take_next w x) ∙ h.contiguous id;
}
