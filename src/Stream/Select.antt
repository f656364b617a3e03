-- ===== src/Stream/Select.antt =====
-- Laws of `select`, the reference for what a read delivers.
use runkit.Prelude.{
  leb, le→leb, lt→leb, Bool-cases, filter, filter-append, ℕ, suc, ◌≤◌, ◌<◌, ◌≡◌, refl, ap, inl, inr,
  ◌&&◌, Option, none, List, [], ◌∷◌, ◌++◌, arith,
}
use runkit.Stream.{Envelope, Ordered, select, wants}
use runkit.Stream.Order.{Ordered-le}

pub select-append :
    (types : Option (List ℕ)) (cp : ℕ) (xs ys : List Envelope)
    → select types cp (xs ++ ys) ≡ select types cp xs ++ select types cp ys
select-append types cp xs ys = filter-append (λ e. leb cp e.offset && wants types e.type_id) xs ys

-- Nothing is selected from beyond the end.
pub select_beyond :
    (types : Option (List ℕ)) (cp lo hi : ℕ) (es : List Envelope)
    → Ordered lo hi es
    → hi ≤ cp
    → select types cp es ≡ []
select_beyond types cp lo hi [] h l = refl
select_beyond types cp lo hi (e ∷ es) h l =
    rw (lt→leb cp e.offset before) (select_beyond types cp (suc e.offset) hi es h.1 l)
  where
    before : e.offset < cp
    before = omega (arith, Ordered-le (suc e.offset) hi es h.1)

-- A checkpoint at or before the first event selects by type only.
pub select_before :
    (types : Option (List ℕ)) (cp lo hi : ℕ) (es : List Envelope)
    → Ordered lo hi es
    → cp ≤ lo
    → select types cp es ≡ filter (λ e. wants types e.type_id) es
select_before types cp lo hi [] h l = refl
select_before types cp lo hi (e ∷ es) h l =
    rw (le→leb cp e.offset (omega arith))
      (rw (select_before types cp (suc e.offset) hi es h.1 (omega arith)) refl)

-- Without a filter, a checkpoint at or before the first event selects everything.
pub select_all :
    (cp lo hi : ℕ) (es : List Envelope) → Ordered lo hi es → cp ≤ lo → select none cp es ≡ es
select_all cp lo hi [] h l = refl
select_all cp lo hi (e ∷ es) h l =
    rw (le→leb cp e.offset (omega arith))
      (ap (◌∷◌ e) (select_all cp (suc e.offset) hi es h.1 (omega arith)))

pub select_skip :
    (types : Option (List ℕ)) (cp : ℕ) (e : Envelope) (es : List Envelope)
    → e.offset < cp
    → select types cp (e ∷ es) ≡ select types cp es
select_skip types cp e es h = rw (lt→leb cp e.offset h)

-- A later checkpoint and a filter by type select from what an earlier one kept.
pub select-select :
    (types : Option (List ℕ)) (a b : ℕ) (es : List Envelope)
    → a ≤ b
    → select types b (select none a es) ≡ select types b es
select-select types a b [] h = refl
select-select types a b (e ∷ es) h = elim (Bool-cases (leb a e.offset)) [
  | inl kept ↦ rw kept (elim (Bool-cases (leb b e.offset && wants types e.type_id)) [
    | inl chosen ↦ rw chosen (ap (◌∷◌ e) (select-select types a b es h))
    | inr dropped ↦ rw dropped (select-select types a b es h)
  ])
  | inr skipped ↦
      rw (skipped, lt→leb b e.offset (ground (arith, skipped))) (select-select types a b es h)
]
