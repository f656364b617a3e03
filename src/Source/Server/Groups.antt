-- ===== src/Source/Server/Groups.antt =====
-- The size of a part, as splitSegment of internal/eventstream/source/server.go counts it: the bodies of its events, and
-- the header of each of its multi-envelopes, which is that of its first event.
use mathlib.Core.List.{map-append}
use mathlib.Core.Path.{ap₂}
use runkit.Prelude.{
  ℕ, ◌+◌, ◌≡◌, refl, sym, ap, ◌∙◌, List, [], ◌∷◌, ◌++◌, map, append-nil, append_assoc, arith,
}
use runkit.Stream.{Envelope}
use runkit.Source.Wire.{raw, Raw, Protobuf}

-- The events of a multi-envelope, of which there is one at least.
abbrev pub Group : Type 0
Group = Envelope × List Envelope

-- The events of all of some groups, in order.
abbrev pub flat : List Group → List Envelope
flat [] = []
flat ((x, xs) ∷ gs) = x ∷ (xs ++ flat gs)

abbrev pub raws_of : Group → List Raw
raws_of (x, xs) = map raw (x ∷ xs)

pub flat-begin : (gs : List Group) (e : Envelope) → flat (gs ++ (e, []) ∷ []) ≡ flat gs ++ e ∷ []
flat-begin [] e = refl
flat-begin ((x, xs) ∷ gs) e =
    ap (λ es. x ∷ (xs ++ es)) (flat-begin gs e)
    ∙ ap (λ es. x ∷ es) (sym (append_assoc xs (flat gs) (e ∷ [])))

pub flat-join :
    (gs : List Group) (x : Envelope) (xs : List Envelope) (e : Envelope)
    → flat (gs ++ (x, xs ++ e ∷ []) ∷ []) ≡ flat (gs ++ (x, xs) ∷ []) ++ e ∷ []
flat-join [] x xs e =
    ap (λ es. x ∷ es) (append-nil (xs ++ e ∷ []) ∙ ap (λ es. es ++ e ∷ []) (sym (append-nil xs)))
flat-join ((y, ys) ∷ gs) x xs e =
    ap (λ es. y ∷ (ys ++ es)) (flat-join gs x xs e)
    ∙ ap (λ es. y ∷ es) (sym (append_assoc ys (flat (gs ++ (x, xs) ∷ [])) (e ∷ [])))

module _ (pb : Protobuf) where
  open pb use {Multi, members, header_size, body_size}

  abbrev bodies : List Envelope → ℕ
  bodies [] = 0
  bodies (e ∷ es) = body_size e + bodies es

  abbrev pub cost : List Group → ℕ
  cost [] = 0
  cost ((x, xs) ∷ gs) = header_size x + bodies (x ∷ xs) + cost gs

  bodies-append : (xs ys : List Envelope) → bodies (xs ++ ys) ≡ bodies xs + bodies ys
  bodies-append [] ys = omega arith
  bodies-append (x ∷ xs) ys = omega (arith, bodies-append xs ys)

  pub cost-begin :
      (gs : List Group) (e : Envelope)
      → cost (gs ++ (e, []) ∷ []) ≡ cost gs + header_size e + body_size e
  cost-begin [] e = omega arith
  cost-begin ((x, xs) ∷ gs) e = omega (arith, cost-begin gs e)

  pub cost-join :
      (gs : List Group) (x : Envelope) (xs : List Envelope) (e : Envelope)
      → cost (gs ++ (x, xs ++ e ∷ []) ∷ []) ≡ cost (gs ++ (x, xs) ∷ []) + body_size e
  cost-join [] x xs e = omega (arith, bodies-append xs (e ∷ []))
  cost-join ((y, ys) ∷ gs) x xs e = omega (arith, cost-join gs x xs e)

  -- Multi-envelopes that hold some groups, one each.
  abbrev pub AreGrouped : List Multi → List Group → Type 0
  AreGrouped ms gs = map members ms ≡ map raws_of gs

  pub AreGrouped-snoc :
      (ms : List Multi) (m : Multi) (gs : List Group) (g : Group)
      → AreGrouped ms gs
      → members m ≡ raws_of g
      → AreGrouped (ms ++ m ∷ []) (gs ++ g ∷ [])
  AreGrouped-snoc ms m gs g h l =
      map-append members ms (m ∷ [])
      ∙ ap₂ ◌++◌ h (ap (λ r. r ∷ []) l)
      ∙ sym (map-append raws_of gs (g ∷ []))

  -- The last multi-envelope holds the last group.
  pub AreGrouped-last :
      (ms : List Multi) (m : Multi) (gs : List Group)
      → AreGrouped (ms ++ m ∷ []) gs
      → (before : List Group) × (x : Envelope) × (xs : List Envelope) × (gs
          ≡ before ++ (x, xs) ∷ [])
        × AreGrouped ms before
        × (members m ≡ raws_of (x, xs))
  AreGrouped-last [] m [] h = cc
  AreGrouped-last [] m ((x, xs) ∷ []) h = ([], x, xs, refl, refl, cc)
  AreGrouped-last [] m (g ∷ g' ∷ gs) h = cc
  AreGrouped-last (n ∷ ms) m [] h = cc
  AreGrouped-last (n ∷ ms) m (g ∷ gs) h =
      let (before, x, xs, eq, same, last) = AreGrouped-last ms m gs cc in
      (g ∷ before, x, xs, ap (λ gs. g ∷ gs) eq, cc, last)

  pub joined-raws :
      (m m' : Multi) (x : Envelope) (xs : List Envelope) (e : Envelope)
      → members m' ≡ members m ++ raw e ∷ []
      → members m ≡ raws_of (x, xs)
      → members m' ≡ raws_of (x, xs ++ e ∷ [])
  joined-raws m m' x xs e h l =
      h ∙ ap (λ rs. rs ++ raw e ∷ []) l ∙ ap (λ rs. raw x ∷ rs) (sym (map-append raw xs (e ∷ [])))
