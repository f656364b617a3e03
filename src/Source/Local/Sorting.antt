-- ===== src/Source/Local/Sorting.antt =====
-- The query of internal/eventstream/source/local.go: ordering rows by offset commutes with filtering them.
use runkit.Prelude.{
  leb, leb→le, le→leb, Bool-cases, filter, ℕ, ◌≤◌, ◌≡◌, refl, sym, ap, ◌∙◌, inl, inr, Bool, true,
  false, List, [], ◌∷◌, arith,
}
use runkit.Stream.{Envelope}
use runkit.Source.Local.{insert_by_offset, order_by_offset}

-- Offsets that do not decrease, from `lo` on.
unfoldable pub Rising : ℕ → List Envelope → Type 0
Rising lo [] = Unit
Rising lo (e ∷ es) = (lo ≤ e.offset) × Rising e.offset es

pub Rising-lower : (lo lo' : ℕ) (es : List Envelope) → lo' ≤ lo → Rising lo es → Rising lo' es
unfolding Rising
Rising-lower lo lo' [] l r = tt
Rising-lower lo lo' (e ∷ es) l r = (omega (arith, l, r.0), r.1)

Rising-insert :
    (lo : ℕ) (x : Envelope) (es : List Envelope)
    → lo ≤ x.offset
    → Rising lo es
    → Rising lo (insert_by_offset x es)
unfolding Rising
Rising-insert lo x [] l r = (l, tt)
Rising-insert lo x (y ∷ ys) l r = elim (Bool-cases (leb x.offset y.offset)) [
  | inl first ↦ rw first (l, (leb→le x.offset y.offset first, r.1))
  | inr after ↦ rw after (r.0, Rising-insert y.offset x ys (ground (arith, after)) r.1)
]

pub order_by_offset-Rising : (es : List Envelope) → Rising 0 (order_by_offset es)
unfolding Rising
order_by_offset-Rising [] = tt
order_by_offset-Rising (e ∷ es) =
    Rising-insert 0 e (order_by_offset es) (omega arith) (order_by_offset-Rising es)

filter-Rising :
    (p : Envelope → Bool) (lo : ℕ) (es : List Envelope) → Rising lo es → Rising lo (filter p es)
unfolding Rising
filter-Rising p lo [] r = tt
filter-Rising p lo (e ∷ es) r = elim (Bool-cases (p e)) [
  | inl t ↦ rw t (r.0, filter-Rising p e.offset es r.1)
  | inr f ↦ rw f (filter-Rising p lo es (Rising-lower e.offset lo es r.0 r.1))
]

pub insert_first :
    (lo : ℕ) (x : Envelope) (es : List Envelope)
    → x.offset ≤ lo
    → Rising lo es
    → insert_by_offset x es ≡ x ∷ es
unfolding Rising
insert_first lo x [] l r = refl
insert_first lo x (y ∷ ys) l r = rw (le→leb x.offset y.offset (omega (arith, l, r.0)))

filter-insert_kept :
    (p : Envelope → Bool) (lo : ℕ) (x : Envelope) (es : List Envelope)
    → Rising lo es
    → p x ≡ true
    → filter p (insert_by_offset x es) ≡ insert_by_offset x (filter p es)
unfolding Rising
filter-insert_kept p lo x [] r t = rw t
filter-insert_kept p lo x (y ∷ ys) r t = elim (Bool-cases (leb x.offset y.offset)) [
  | inl first ↦
      rw (first, t)
        (sym (
          insert_first y.offset x (filter p (y ∷ ys)) (leb→le x.offset y.offset first)
            (filter-Rising p y.offset (y ∷ ys) (omega arith, r.1))))
  | inr after ↦ elim (Bool-cases (p y)) [
    | inl u ↦ rw (after, u) (rw after (ap (◌∷◌ y) (filter-insert_kept p y.offset x ys r.1 t)))
    | inr v ↦ rw (after, v) (filter-insert_kept p y.offset x ys r.1 t)
  ]
]

filter-insert_left_out :
    (p : Envelope → Bool) (x : Envelope) (es : List Envelope)
    → p x ≡ false
    → filter p (insert_by_offset x es) ≡ filter p es
filter-insert_left_out p x [] f = rw f
filter-insert_left_out p x (y ∷ ys) f = elim (Bool-cases (leb x.offset y.offset)) [
  | inl first ↦ rw (first, f)
  | inr after ↦ elim (Bool-cases (p y)) [
    | inl u ↦ rw (after, u) (ap (◌∷◌ y) (filter-insert_left_out p x ys f))
    | inr v ↦ rw (after, v) (filter-insert_left_out p x ys f)
  ]
]

pub order_by_offset-filter :
    (p : Envelope → Bool) (es : List Envelope)
    → order_by_offset (filter p es) ≡ filter p (order_by_offset es)
order_by_offset-filter p [] = refl
order_by_offset-filter p (e ∷ es) = elim (Bool-cases (p e)) [
  | inl t ↦ rw t (
      ap (insert_by_offset e) (order_by_offset-filter p es)
      ∙ sym (filter-insert_kept p 0 e (order_by_offset es) (order_by_offset-Rising es) t))
  | inr f ↦
      rw f (order_by_offset-filter p es ∙ sym (filter-insert_left_out p e (order_by_offset es) f))
]
