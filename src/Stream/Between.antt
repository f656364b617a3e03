-- ===== src/Stream/Between.antt =====
-- Laws of `between`, the reference for a segment.
use runkit.Prelude.{
  subst, ltb, leb, ltb→lt, lt→ltb, le→leb, lt→leb, tests, Bool-cases, get_elem?, take, filter,
  filter-filter, filter-eq, ℕ, zero, suc, ◌≤◌, ◌<◌, ◌≡◌, refl, sym, ap, ◌∙◌, inl, inr, Bool, true,
  false, ◌&&◌, Option, some, List, [], ◌∷◌, ◌++◌, arith,
}
use runkit.Stream.{Envelope, Ordered, between, wants}
use runkit.Stream.Order.{Ordered-filter, get_elem?-bounds}

-- Nothing lies below the first event.
pub between_empty :
    (types : Option (List ℕ)) (b e lo hi : ℕ) (es : List Envelope)
    → Ordered lo hi es
    → e ≤ lo
    → between types b e es ≡ []
between_empty types b e lo hi [] o l = refl
between_empty types b e lo hi (x ∷ xs) o l =
    rw (outside (leb b x.offset) x.offset e (wants types x.type_id) (omega (arith, o.0)))
      (between_empty types b e (suc x.offset) hi xs o.1 (omega (arith, o.0)))
  where
    outside : (p : Bool) (a c : ℕ) (q : Bool) → c ≤ a → (p && (ltb a c && q)) ≡ false
    outside p a c q h = ground arith

-- A lower bound below the first event makes no difference.
pub between_lower :
    (types : Option (List ℕ)) (b m e lo hi : ℕ) (es : List Envelope)
    → Ordered lo hi es
    → b ≤ lo
    → m ≤ lo
    → between types m e es ≡ between types b e es
between_lower types b m e lo hi [] o l k = refl
between_lower types b m e lo hi (x ∷ xs) o l k =
    rw (le→leb m x.offset (omega (arith, o.0)), le→leb b x.offset (omega (arith, o.0)))
      (elim (Bool-cases (ltb x.offset e && wants types x.type_id)) [
        | inl t ↦ rw t (
            ap (◌∷◌ x) (
              between_lower types b m e (suc x.offset) hi xs o.1 (omega (arith, o.0))
                (omega (arith, o.0))))
        | inr f ↦ rw f (
            between_lower types b m e (suc x.offset) hi xs o.1 (omega (arith, o.0))
              (omega (arith, o.0)))
      ])

-- Two adjacent ranges make up one.
pub between-append :
    (types : Option (List ℕ)) (b m e lo hi : ℕ) (es : List Envelope)
    → Ordered lo hi es
    → b ≤ m
    → m ≤ e
    → between types b m es ++ between types m e es ≡ between types b e es
between-append types b m e lo hi [] o l k = refl
between-append types b m e lo hi (x ∷ xs) o l k = elim (Bool-cases (ltb x.offset m)) [
  | inl early ↦
      rw
        (
          early,
          lt→leb m x.offset (ltb→lt x.offset m early),
          lt→ltb x.offset e (omega (tests, early)),
        )
        (elim (Bool-cases (leb b x.offset && wants types x.type_id)) [
          | inl t ↦ rw t (ap (◌∷◌ x) (between-append types b m e (suc x.offset) hi xs o.1 l k))
          | inr f ↦ rw f (between-append types b m e (suc x.offset) hi xs o.1 l k)
        ])
  | inr late ↦
      rw (between_empty types b m x.offset hi (x ∷ xs) (omega arith, o.1) (ground (arith, late))) (
        between_lower types b m e x.offset hi (x ∷ xs) (omega arith, o.1) (ground (arith, late))
          (ground (arith, late)))
]

-- A stream that was cut at or after the end of a range has the same events in it.
pub between-filter :
    (types : Option (List ℕ)) (b e c : ℕ) (es : List Envelope)
    → e ≤ c
    → between types b e (filter (λ x. ltb x.offset c) es) ≡ between types b e es
between-filter types b e c es l =
    filter-filter (λ x. leb b x.offset && (ltb x.offset e && wants types x.type_id))
      (λ x. ltb x.offset c) es
    ∙ filter-eq _ _ es (λ x. narrower (leb b x.offset) x.offset (wants types x.type_id))
  where
    narrower :
        (p : Bool) (o : ℕ) (q : Bool) → (ltb o c && (p && (ltb o e && q))) ≡ (p && (ltb o e && q))
    narrower p o q = ground arith

-- A later upper bound does not change the test on an event below both.
same_test :
    (p : Bool) (o e e' : ℕ) (q : Bool)
    → o < e
    → o < e'
    → (p && (ltb o e && q)) ≡ (p && (ltb o e' && q))
same_test p o e e' q h h' = ground arith

test-lt : (p : Bool) (o e : ℕ) (q : Bool) → (p && (ltb o e && q)) ≡ true → o < e
test-lt p o e q h = ground arith

pub between-Ordered :
    (types : Option (List ℕ)) (b e lo hi : ℕ) (es : List Envelope)
    → Ordered lo hi es
    → Ordered lo hi (between types b e es)
between-Ordered types b e lo hi es o =
    Ordered-filter (λ x. leb b x.offset && (ltb x.offset e && wants types x.type_id)) lo hi es o

pub between-bounds :
    (types : Option (List ℕ)) (b e k : ℕ) (es : List Envelope) (x : Envelope)
    → get_elem? (between types b e es) k ≡ some x
    → (b ≤ x.offset) × (x.offset < e)
between-bounds types b e k [] x g = cc
between-bounds types b e k (y ∷ ys) x g =
    elim (Bool-cases (leb b y.offset && (ltb y.offset e && wants types y.type_id))) [
      | inl t ↦ there k (rw t at g) (test-bounds t) (λ j. between-bounds types b e j ys x)
      | inr f ↦ between-bounds types b e k ys x (rw f at g)
    ]
  where
    test-bounds :
        (leb b y.offset && (ltb y.offset e && wants types y.type_id)) ≡ true
        → (b ≤ y.offset) × (y.offset < e)
    test-bounds t = ground arith

    there :
        (j : ℕ)
        → get_elem? (y ∷ between types b e ys) j ≡ some x
        → (b ≤ y.offset) × (y.offset < e)
        → ((i : ℕ) → get_elem? (between types b e ys) i ≡ some x → (b ≤ x.offset) × (x.offset < e))
        → (b ≤ x.offset) × (x.offset < e)
    there zero h l ih = let same : y.offset ≡ x.offset = cc in omega (arith, l)
    there (suc j) h l ih = ih j h

-- The first k + 1 events of a range are the events up to the last of them.
pub take-between :
    (types : Option (List ℕ)) (b e lo hi k : ℕ) (es : List Envelope) (x : Envelope)
    → Ordered lo hi es
    → get_elem? (between types b e es) k ≡ some x
    → take (suc k) (between types b e es) ≡ between types b (suc x.offset) es
take-between types b e lo hi k [] x o g = cc
take-between types b e lo hi k (y ∷ ys) x o g =
    elim (Bool-cases (leb b y.offset && (ltb y.offset e && wants types y.type_id))) [
      | inl t ↦ kept k t (rw t at g) (λ i h. take-between types b e (suc y.offset) hi i ys x o.1 h)
      | inr f ↦
          let h : get_elem? (between types b e ys) k ≡ some x = rw f at g in
          rw (f, sym (test_at_last k h) ∙ f) (take-between types b e (suc y.offset) hi k ys x o.1 h)
    ]
  where
    test_at_last :
        (j : ℕ)
        → get_elem? (between types b e ys) j ≡ some x
        → (leb b y.offset && (ltb y.offset e && wants types y.type_id))
          ≡ (leb b y.offset && (ltb y.offset (suc x.offset) && wants types y.type_id))
    test_at_last j h =
        let (above, _) =
          get_elem?-bounds (suc y.offset) hi j (between types b e ys) x
            (between-Ordered types b e (suc y.offset) hi ys o.1) h in
        same_test (leb b y.offset) y.offset e (suc x.offset) (wants types y.type_id)
          (omega (arith, above, (between-bounds types b e j ys x h).1)) (omega (arith, above))

    kept :
        (j : ℕ)
        → (leb b y.offset && (ltb y.offset e && wants types y.type_id)) ≡ true
        → get_elem? (y ∷ between types b e ys) j ≡ some x
        → ((i : ℕ)
            → get_elem? (between types b e ys) i ≡ some x
            → take (suc i) (between types b e ys) ≡ between types b (suc x.offset) ys)
        → take (suc j) (between types b e (y ∷ ys)) ≡ between types b (suc x.offset) (y ∷ ys)
    kept zero t h ih =
        let same : y.offset ≡ x.offset = cc in
        let inside : y.offset < e = test-lt (leb b y.offset) y.offset e (wants types y.type_id) t in
        let last : (leb b y.offset && (ltb y.offset (suc x.offset) && wants types y.type_id))
            ≡ true =
          sym (
            same_test (leb b y.offset) y.offset e (suc x.offset) (wants types y.type_id) inside
              (omega arith))
          ∙ t in
        rw (t, last)
          (ap (◌∷◌ y)
            (sym (between_empty types b (suc x.offset) (suc y.offset) hi ys o.1 (omega arith))))
    kept (suc j) t h ih = rw (t, sym (test_at_last j h) ∙ t) (ap (◌∷◌ y) (ih j h))

-- An empty range holds nothing.
pub between_none :
    (types : Option (List ℕ)) (b : ℕ) (es : List Envelope) → between types b b es ≡ []
between_none types b [] = refl
between_none types b (x ∷ xs) =
    rw (nowhere x.offset (wants types x.type_id)) (between_none types b xs)
  where
    nowhere : (o : ℕ) (q : Bool) → (leb b o && (ltb o b && q)) ≡ false
    nowhere o q = ground arith

-- The events of a range are ordered within it.
pub between-Ordered_range :
    (types : Option (List ℕ)) (b e lo hi : ℕ) (es : List Envelope)
    → Ordered lo hi es
    → b ≤ e
    → Ordered b e (between types b e es)
between-Ordered_range types b e lo hi [] o l = l
between-Ordered_range types b e lo hi (x ∷ xs) o l =
    elim (Bool-cases (leb b x.offset && (ltb x.offset e && wants types x.type_id))) [
      | inr f ↦ rw f (between-Ordered_range types b e (suc x.offset) hi xs o.1 l)
      | inl t ↦ rw t (
        ground (arith, t),
        subst (Ordered (suc x.offset) e)
            (between_lower types b (suc x.offset) e (suc x.offset) hi xs o.1 (ground (arith, t))
              (omega arith))
            (between-Ordered_range types (suc x.offset) e (suc x.offset) hi xs o.1
              (ground (arith, t))),
      )
    ]
