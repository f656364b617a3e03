-- ===== src/Stream/Order.antt =====
-- Laws of event lists with increasing offsets.
use runkit.Prelude.{
  ℕ, zero, suc, ◌≤◌, ◌<◌, ◌≡◌, inl, inr, Bool, some, List, [], ◌∷◌, ◌++◌, arith, filter, drop,
  get_elem?, Bool-cases,
}
use runkit.Stream.{Envelope, Ordered}

pub Ordered-le : (lo hi : ℕ) (es : List Envelope) → Ordered lo hi es → lo ≤ hi
Ordered-le lo hi [] h = h
Ordered-le lo hi (e ∷ es) h = omega (arith, Ordered-le (suc e.offset) hi es h.1)

pub Ordered-lower :
    (lo lo' hi : ℕ) (es : List Envelope) → lo' ≤ lo → Ordered lo hi es → Ordered lo' hi es
Ordered-lower lo lo' hi [] l h = omega arith
Ordered-lower lo lo' hi (e ∷ es) l h = (omega arith, h.1)

pub Ordered-upper :
    (lo hi hi' : ℕ) (es : List Envelope) → hi ≤ hi' → Ordered lo hi es → Ordered lo hi' es
Ordered-upper lo hi hi' [] l h = omega arith
Ordered-upper lo hi hi' (e ∷ es) l h = (h.0, Ordered-upper (suc e.offset) hi hi' es l h.1)

pub Ordered-append :
    (a b c : ℕ) (xs ys : List Envelope) → Ordered a b xs → Ordered b c ys → Ordered a c (xs ++ ys)
Ordered-append a b c [] ys hx hy = Ordered-lower b a c ys hx hy
Ordered-append a b c (x ∷ xs) ys hx hy = (hx.0, Ordered-append (suc x.offset) b c xs ys hx.1 hy)

pub Ordered-filter :
    (p : Envelope → Bool) (lo hi : ℕ) (es : List Envelope)
    → Ordered lo hi es
    → Ordered lo hi (filter p es)
Ordered-filter p lo hi [] h = h
Ordered-filter p lo hi (e ∷ es) h = elim (Bool-cases (p e)) [
  | inl t ↦ rw t (h.0, Ordered-filter p (suc e.offset) hi es h.1)
  | inr f ↦ rw f (
      Ordered-lower (suc e.offset) lo hi (filter p es) (omega arith)
        (Ordered-filter p (suc e.offset) hi es h.1))
]

-- Dropping the first n + 1 events leaves what comes after the last of them.
pub Ordered-drop :
    (lo hi n : ℕ) (es : List Envelope) (e : Envelope)
    → Ordered lo hi es
    → get_elem? es n ≡ some e
    → Ordered (suc e.offset) hi (drop (suc n) es)
Ordered-drop lo hi n [] e h g = cc
Ordered-drop lo hi zero (x ∷ xs) e h g = rw (← offset_eq) h.1
  where
    offset_eq : suc x.offset ≡ suc e.offset
    offset_eq = cc
Ordered-drop lo hi (suc n) (x ∷ xs) e h g = Ordered-drop (suc x.offset) hi n xs e h.1 g

pub get_elem?-bounds :
    (lo hi n : ℕ) (es : List Envelope) (e : Envelope)
    → Ordered lo hi es
    → get_elem? es n ≡ some e
    → (lo ≤ e.offset) × (e.offset < hi)
get_elem?-bounds lo hi n [] e h g = cc
get_elem?-bounds lo hi zero (x ∷ xs) e h g = ground (arith, Ordered-le (suc x.offset) hi xs h.1)
get_elem?-bounds lo hi (suc n) (x ∷ xs) e h g =
    let ih : (suc x.offset ≤ e.offset) × (e.offset < hi) =
      get_elem?-bounds (suc x.offset) hi n xs e h.1 g in
    (omega arith, ih.1)

-- Where an ordered list is cut before an event, the event's offset bounds the parts.
pub Ordered-cut :
    (a c : ℕ) (xs : List Envelope) (e : Envelope) (ys : List Envelope)
    → Ordered a c (xs ++ e ∷ ys)
    → Ordered a e.offset xs × Ordered e.offset c (e ∷ ys)
Ordered-cut a c [] e ys o = (o.0, (omega arith, o.1))
Ordered-cut a c (x ∷ xs) e ys o =
    let (left, right) = Ordered-cut (suc x.offset) c xs e ys o.1 in ((o.0, left), right)
