-- ===== src/Stream/Cut.antt =====
-- A range of a stream that is cut in two is cut at the same place as its events.
use mathlib.Core.Path.{ap₂}
use runkit.Prelude.{
  ltb, leb, lt→ltb, le→leb, lt→leb, filter, filter-append, filter-filter, filter-eq, ℕ, suc, ◌≤◌,
  ◌≡◌, refl, sym, ap, ◌∙◌, Bool, false, ◌&&◌, Option, List, [], ◌∷◌, ◌++◌, append-nil, arith,
}
use runkit.Stream.{Envelope, Ordered, between, wants}
use runkit.Stream.Order.{Ordered-le}

below-keeps :
    (lo m : ℕ) (es : List Envelope) → Ordered lo m es → filter (λ x. ltb x.offset m) es ≡ es
below-keeps lo m [] o = refl
below-keeps lo m (e ∷ es) o =
    rw (lt→ltb e.offset m (Ordered-le (suc e.offset) m es o.1))
      (ap (◌∷◌ e) (below-keeps (suc e.offset) m es o.1))

below-drops :
    (m lo hi : ℕ) (es : List Envelope)
    → m ≤ lo
    → Ordered lo hi es
    → filter (λ x. ltb x.offset m) es ≡ []
below-drops m lo hi [] l o = refl
below-drops m lo hi (e ∷ es) l o =
    rw (not_below m e.offset (omega (arith, o.0)))
      (below-drops m (suc e.offset) hi es (omega (arith, o.0)) o.1)
  where
    not_below : (a b : ℕ) → a ≤ b → ltb b a ≡ false
    not_below a b h = ground arith

from-keeps :
    (m lo hi : ℕ) (es : List Envelope)
    → m ≤ lo
    → Ordered lo hi es
    → filter (λ x. leb m x.offset) es ≡ es
from-keeps m lo hi [] l o = refl
from-keeps m lo hi (e ∷ es) l o =
    rw (le→leb m e.offset (omega (arith, o.0)))
      (ap (◌∷◌ e) (from-keeps m (suc e.offset) hi es (omega (arith, o.0)) o.1))

from-drops :
    (lo m : ℕ) (es : List Envelope) → Ordered lo m es → filter (λ x. leb m x.offset) es ≡ []
from-drops lo m [] o = refl
from-drops lo m (e ∷ es) o =
    rw (lt→leb m e.offset (Ordered-le (suc e.offset) m es o.1)) (from-drops (suc e.offset) m es o.1)

module _ (types : Option (List ℕ)) (b m e : ℕ) (all xs ys : List Envelope) where
  pub between-cut :
      b ≤ m
      → m ≤ e
      → Ordered b m xs
      → Ordered m e ys
      → xs ++ ys ≡ between types b e all
      → (xs ≡ between types b m all) × (ys ≡ between types m e all)
  between-cut l k ox oy eq = (left, right)
    where
      first :
          (p : Bool) (o : ℕ) (q : Bool) → ((p && (ltb o e && q)) && ltb o m) ≡ (p && (ltb o m && q))
      first p o q = ground arith

      second :
          (o : ℕ) (q : Bool)
          → ((leb b o && (ltb o e && q)) && leb m o) ≡ (leb m o && (ltb o e && q))
      second o q = ground arith

      left : xs ≡ between types b m all
      left =
          sym (append-nil xs)
          ∙ ap₂ ◌++◌ (sym (below-keeps b m xs ox)) (sym (below-drops m m e ys (omega arith) oy))
          ∙ sym (filter-append (λ x. ltb x.offset m) xs ys)
          ∙ ap (filter (λ x. ltb x.offset m)) eq
          ∙ filter-filter (λ x. ltb x.offset m)
              (λ x. leb b x.offset && (ltb x.offset e && wants types x.type_id)) all
          ∙ filter-eq _ _ all (λ x. first (leb b x.offset) x.offset (wants types x.type_id))

      right : ys ≡ between types m e all
      right =
          ap₂ ◌++◌ (sym (from-drops b m xs ox)) (sym (from-keeps m m e ys (omega arith) oy))
          ∙ sym (filter-append (λ x. leb m x.offset) xs ys)
          ∙ ap (filter (λ x. leb m x.offset)) eq
          ∙ filter-filter (λ x. leb m x.offset)
              (λ x. leb b x.offset && (ltb x.offset e && wants types x.type_id)) all
          ∙ filter-eq _ _ all (λ x. second x.offset (wants types x.type_id))
