-- ===== src/Aggregate/History.antt =====
-- The events of an aggregate instance in the tables, in the order of their offsets, and what an append adds to them.
use runkit.Prelude.{
  ltb, leb, ◌==◌, ltb→lt, le→leb, lt→leb, ==_iff, ==_refl, Bool-cases, filter, All, ℕ, suc, ◌≤◌,
  ◌<◌, ◌≡◌, refl, ap, ◌∙◌, inl, inr, Bool, false, ◌&&◌, some, List, [], ◌∷◌, ◌++◌, map, append-nil,
  arith,
}
use runkit.Stream.{Envelope}
use runkit.Source.Local.{insert_by_offset, order_by_offset}
use runkit.Source.Local.Sorting.{
  Rising, Rising-lower, insert_first, order_by_offset-Rising, order_by_offset-filter,
}
use runkit.Schema.{Event}
use runkit.Schema.EventStream.{NewEvent, rows_from}
use runkit.Aggregate.{is_owned}

-- The envelopes of the rows that a handler's instance owns.
abbrev pub owned : ℕ → ℕ → List Event → List Envelope
owned key id es = map (λ e. e.envelope) (filter (is_owned key id) es)

abbrev pub history : ℕ → ℕ → List Event → List Envelope
history key id es = order_by_offset (owned key id es)

-- The envelope of a new row, and those of all.
abbrev pub new_envelope : ℕ → ℕ → NewEvent → Envelope
new_envelope id offset e = record {
  stream_id = id;
  offset = offset;
  message_id = e.message_id;
  type_id = e.type_id;
  header = e.header;
  body = e.body;
}

abbrev pub new_envelopes : ℕ → ℕ → List NewEvent → List Envelope
new_envelopes id offset [] = []
new_envelopes id offset (e ∷ es) = new_envelope id offset e ∷ new_envelopes id (suc offset) es

owned-rows_from :
    (key id stream next c : ℕ) (es : List NewEvent)
    → owned key id (rows_from stream next c (some (key, id)) es) ≡ new_envelopes stream next es
owned-rows_from key id stream next c [] = refl
owned-rows_from key id stream next c (e ∷ es) =
    rw (==_refl key, ==_refl id)
      (ap (◌∷◌ (new_envelope stream next e)) (owned-rows_from key id stream (suc next) c es))

-- The rows of another owner are not the instance's.
owned-rows_from_other :
    (key id : ℕ) (owner : ℕ × ℕ) (stream next c : ℕ) (es : List NewEvent)
    → (owner.0 == key && owner.1 == id) ≡ false
    → owned key id (rows_from stream next c (some owner) es) ≡ []
owned-rows_from_other key id owner stream next c [] h = refl
owned-rows_from_other key id owner stream next c (e ∷ es) h =
    rw h (owned-rows_from_other key id owner stream (suc next) c es h)

owned-append :
    (key id : ℕ) (xs ys : List Event) → owned key id (xs ++ ys) ≡ owned key id xs ++ owned key id ys
owned-append key id [] ys = refl
owned-append key id (x ∷ xs) ys = elim (Bool-cases (is_owned key id x)) [
  | inl yes' ↦ rw yes' (ap (◌∷◌ x.envelope) (owned-append key id xs ys))
  | inr no' ↦ rw no' (owned-append key id xs ys)
]

-- An event that comes before others is put in its place in front of them.
insert-append :
    (x : Envelope) (xs ys : List Envelope)
    → All (λ y. x.offset ≤ y.offset) ys
    → insert_by_offset x (xs ++ ys) ≡ insert_by_offset x xs ++ ys
insert-append x [] [] h = refl
insert-append x [] (y ∷ ys) h = rw (le→leb x.offset y.offset h.0)
insert-append x (z ∷ xs) ys h = elim (Bool-cases (leb x.offset z.offset)) [
  | inl t ↦ rw t
  | inr f ↦ rw f (ap (◌∷◌ z) (insert-append x xs ys h))
]

from-Rising :
    (n : ℕ) (x : Envelope) (ys : List Envelope)
    → x.offset ≤ n
    → Rising n ys
    → All (λ y. x.offset ≤ y.offset) ys
unfolding Rising
from-Rising n x [] l r = tt
from-Rising n x (y ∷ ys) l r =
    (omega (arith, l, r.0), from-Rising y.offset x ys (omega (arith, l, r.0)) r.1)

order-append :
    (n : ℕ) (xs ys : List Envelope)
    → All (λ x. x.offset < n) xs
    → Rising n ys
    → order_by_offset ys ≡ ys
    → order_by_offset (xs ++ ys) ≡ order_by_offset xs ++ ys
order-append n [] ys a r s = s
order-append n (x ∷ xs) ys a r s =
    ap (insert_by_offset x) (order-append n xs ys a.1 r s)
    ∙ insert-append x (order_by_offset xs) ys (from-Rising n x ys (omega (arith, a.0)) r)

new-Rising : (id next : ℕ) (es : List NewEvent) → Rising next (new_envelopes id next es)
unfolding Rising
new-Rising id next [] = tt
new-Rising id next (e ∷ es) = (
  omega arith,
  Rising-lower (suc next) next (new_envelopes id (suc next) es) (omega arith)
      (new-Rising id (suc next) es),
)

order-new :
    (id next : ℕ) (es : List NewEvent)
    → order_by_offset (new_envelopes id next es) ≡ new_envelopes id next es
order-new id next [] = refl
order-new id next (e ∷ es) =
    ap (insert_by_offset (new_envelope id next e)) (order-new id (suc next) es)
    ∙ insert_first (suc next) (new_envelope id next e) (new_envelopes id (suc next) es)
        (omega arith) (new-Rising id (suc next) es)

-- The events of an instance after its own append.
pub owned-append_own :
    (key id stream next c : ℕ) (events : List Event) (es : List NewEvent)
    → owned key id (events ++ rows_from stream next c (some (key, id)) es)
      ≡ owned key id events ++ new_envelopes stream next es
owned-append_own key id stream next c events es =
    owned-append key id events (rows_from stream next c (some (key, id)) es)
    ∙ ap (λ ys. owned key id events ++ ys) (owned-rows_from key id stream next c es)

pub history-append :
    (key id stream next c : ℕ) (events : List Event) (es : List NewEvent)
    → All (λ x. x.offset < next) (owned key id events)
    → history key id (events ++ rows_from stream next c (some (key, id)) es)
      ≡ history key id events ++ new_envelopes stream next es
history-append key id stream next c events es a =
    ap order_by_offset (owned-append_own key id stream next c events es)
    ∙ order-append next (owned key id events) (new_envelopes stream next es) a
        (new-Rising stream next es) (order-new stream next es)

-- The events of another instance stay.
pub owned-append_other :
    (key id : ℕ) (owner : ℕ × ℕ) (stream next c : ℕ) (events : List Event) (es : List NewEvent)
    → (owner.0 == key && owner.1 == id) ≡ false
    → owned key id (events ++ rows_from stream next c (some owner) es) ≡ owned key id events
owned-append_other key id owner stream next c events es h =
    owned-append key id events (rows_from stream next c (some owner) es)
    ∙ ap (λ ys. owned key id events ++ ys) (owned-rows_from_other key id owner stream next c es h)
    ∙ append-nil (owned key id events)

not_below : (a n : ℕ) → n ≤ a → ltb a n ≡ false
not_below a n h = ground arith

none_below :
    (lo n : ℕ) (es : List Envelope) → n ≤ lo → Rising lo es → filter (λ e. ltb e.offset n) es ≡ []
unfolding Rising
none_below lo n [] l r = refl
none_below lo n (e ∷ es) l r =
    rw (not_below e.offset n (omega (arith, l, r.0)))
      (none_below e.offset n es (omega (arith, l, r.0)) r.1)

all_above :
    (lo n : ℕ) (es : List Envelope) → n ≤ lo → Rising lo es → filter (λ e. leb n e.offset) es ≡ es
unfolding Rising
all_above lo n [] l r = refl
all_above lo n (e ∷ es) l r =
    rw (le→leb n e.offset (omega (arith, l, r.0)))
      (ap (◌∷◌ e) (all_above e.offset n es (omega (arith, l, r.0)) r.1))

-- A history splits at an offset.
split_at :
    (lo n : ℕ) (es : List Envelope)
    → Rising lo es
    → filter (λ e. ltb e.offset n) es ++ filter (λ e. leb n e.offset) es ≡ es
unfolding Rising
split_at lo n [] r = refl
split_at lo n (e ∷ es) r = elim (Bool-cases (ltb e.offset n)) [
  | inl below ↦
      rw (below, lt→leb n e.offset (ltb→lt e.offset n below))
        (ap (◌∷◌ e) (split_at e.offset n es r.1))
  | inr above ↦
      let le : n ≤ e.offset = ground (arith, above) in
      rw (above, le→leb n e.offset le)
        (ap (λ xs. xs ++ e ∷ filter (λ e. leb n e.offset) es) (none_below e.offset n es le r.1)
          ∙ ap (◌∷◌ e) (all_above e.offset n es le r.1))
]

pub history-split :
    (key id n : ℕ) (events : List Event)
    → filter (λ e. ltb e.offset n) (history key id events)
        ++ filter (λ e. leb n e.offset) (history key id events)
      ≡ history key id events
history-split key id n events =
    split_at 0 n (history key id events) (order_by_offset-Rising (owned key id events))

selected :
    (key id stream n : ℕ) (events : List Event)
    → All (λ e. e.stream_id ≡ stream) (owned key id events)
    → map
        (λ e. e.envelope)
        (filter
          (λ e. e.envelope.stream_id == stream && (leb n e.envelope.offset && is_owned key id e))
          events)
      ≡ filter (λ e. leb n e.offset) (owned key id events)
selected key id stream n [] a = refl
selected key id stream n (e ∷ es) a = elim (Bool-cases (is_owned key id e)) [
  | inl own ↦
      let a' : All (λ x. x.stream_id ≡ stream) (e.envelope ∷ owned key id es) = rw own at a in
      elim (Bool-cases (leb n e.envelope.offset)) [
        | inl late ↦
            rw (own, late, (==_iff e.envelope.stream_id stream).1 a'.0)
              (ap (◌∷◌ e.envelope) (selected key id stream n es a'.1))
        | inr early ↦
            rw (own, early, (==_iff e.envelope.stream_id stream).1 a'.0)
              (selected key id stream n es a'.1)
      ]
  | inr foreign ↦
      rw (foreign, neither (e.envelope.stream_id == stream) (leb n e.envelope.offset))
        (selected key id stream n es (rw foreign at a))
]
  where
    neither : (b c : Bool) → (b && (c && false)) ≡ false
    neither b c = ground arith

-- The query of applyHistoricalEvents gives the part of the history from an offset on.
pub history_from :
    (key id stream n : ℕ) (events : List Event)
    → All (λ e. e.stream_id ≡ stream) (owned key id events)
    → order_by_offset (
        map
          (λ e. e.envelope)
          (filter
            (λ e. e.envelope.stream_id == stream && (leb n e.envelope.offset && is_owned key id e))
            events))
      ≡ filter (λ e. leb n e.offset) (history key id events)
history_from key id stream n events a =
    ap order_by_offset (selected key id stream n events a)
    ∙ order_by_offset-filter (λ e. leb n e.offset) (owned key id events)
