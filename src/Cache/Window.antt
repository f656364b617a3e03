-- ===== src/Cache/Window.antt =====
-- What `Append` does, without its branches: the events held and the new ones form one list, of which
-- the cache keeps the last `capacity`.
use runkit.Prelude.{
  length, get_elem?, drop, length-append, length-drop, drop-append_le, drop-append_add,
  get_elem?-append_left, get_elem?-append_right, get_elem?_total, u64_mod, inc64-eq-suc, ℕ, zero,
  suc, ◌+◌, ◌-◌, ◌≤◌, ◌<◌, ◌≡◌, refl, sym, ap, ◌∙◌, subst, ◌⊎◌, inl, inr, Option, none, some, List,
  [], ◌∷◌, ◌++◌, append-nil, arith,
}
use runkit.Stream.{Envelope, Ordered, select}
use runkit.Stream.Select.{select_all, select_skip}
use runkit.Stream.Order.{Ordered-drop, get_elem?-bounds}
use runkit.Cache.{Segment, begin_after, make_room}

-- The reference: how many events are over the capacity, and where the segment begins then.
window_from : ℕ → ℕ → ℕ → List Envelope → Option Segment
window_from zero begin end events = some (record { begin = begin; end = end; events = events })
window_from (suc k) begin end events = elim (begin_after events k) [
  | none ↦ none
  | some b ↦ some (record { begin = b; end = end; events = drop (suc k) events })
]

pub window : ℕ → ℕ → ℕ → List Envelope → Option Segment
window capacity begin end events = window_from (length events - capacity) begin end events

begin_after-append_left :
    (xs ys : List Envelope) (i : ℕ) → i < length xs → begin_after (xs ++ ys) i ≡ begin_after xs i
unfolding begin_after
begin_after-append_left xs ys i h = rw (get_elem?-append_left xs ys i h)

begin_after-append_right :
    (xs ys : List Envelope) (i : ℕ) → begin_after (xs ++ ys) (length xs + i) ≡ begin_after ys i
unfolding begin_after
begin_after-append_right xs ys i = rw (get_elem?-append_right xs ys i)

module _ (capacity begin end : ℕ) (held envelopes : List Envelope) where
  over_by_new :
      (k : ℕ)
      → length envelopes - capacity ≡ suc k
      → make_room capacity begin end held envelopes
        ≡ window_from (length held + suc k) begin end (held ++ envelopes)
  unfolding make_room window_from
  over_by_new k e =
      rw (shift (length held)) (ground (arith, begin_after-append_right held envelopes k, dropped))
    where
      shift : (n : ℕ) → n + suc k ≡ suc (n + k)
      shift n = omega arith

      dropped : drop (suc (length held + k)) (held ++ envelopes) ≡ drop (suc k) envelopes
      dropped =
          subst (λ n. drop n (held ++ envelopes) ≡ drop (suc k) envelopes) (shift (length held))
            (drop-append_add (suc k) held envelopes)

  over_by_held :
      (k : ℕ)
      → length envelopes ≤ capacity
      → length held ≤ capacity
      → 0 < length envelopes
      → length held + length envelopes - capacity ≡ suc k
      → make_room capacity begin end held envelopes
        ≡ window_from (suc k) begin end (held ++ envelopes)
  unfolding make_room window_from
  over_by_held k l lh ne e =
      ground
        (arith, begin_after-append_left held envelopes k, drop-append_le (suc k) held envelopes)

fits :
    (capacity begin end : ℕ) (held envelopes : List Envelope)
    → length held + length envelopes ≤ capacity
    → make_room capacity begin end held envelopes
      ≡ some (record { begin = begin; end = end; events = held ++ envelopes })
unfolding make_room
fits capacity begin end held [] l = rw append-nil
fits capacity begin end held (e ∷ es) l = ground arith

-- How many of a list's entries are over the capacity.
data Excess (capacity total : ℕ) : Type 0 where
  room : total ≤ capacity → Excess capacity total
  over : (k : ℕ) → total - capacity ≡ suc k → Excess capacity total

excess : (capacity total : ℕ) → Excess capacity total
excess capacity total = go (total - capacity) refl
  where
    go : (n : ℕ) → total - capacity ≡ n → Excess capacity total
    go zero e = room (omega arith)
    go (suc k) e = over k e

pub make_room-eq-window :
    (capacity begin end : ℕ) (held envelopes : List Envelope)
    → length held ≤ capacity
    → make_room capacity begin end held envelopes ≡ window capacity begin end (held ++ envelopes)
unfolding window window_from
make_room-eq-window capacity begin end held envelopes h =
    rw (length-append held envelopes) (elim (excess capacity (length envelopes)) [
      | over k e ↦
          over_by_new capacity begin end held envelopes k e
          ∙ ap (λ n. window_from n begin end (held ++ envelopes)) (omega arith)
      | room l ↦ elim (excess capacity (length held + length envelopes)) [
        | room l' ↦ rw (none_over l') (fits capacity begin end held envelopes l')
        | over k e ↦ rw e (over_by_held capacity begin end held envelopes k l h (omega arith) e)
      ]
    ])
  where
    none_over :
        length held + length envelopes ≤ capacity → length held + length envelopes - capacity ≡ 0
    none_over l = omega arith

-- What the window of an ordered list is.
pub record IsWindow (capacity begin end : ℕ) (events : List Envelope) (s : Segment) : Type 0 where
  pub ends : s.end ≡ end
  pub begins : begin ≤ s.begin
  pub ordered : Ordered s.begin s.end s.events
  pub bounded : length s.events ≤ capacity
  pub complete : s.events ≡ select none s.begin events
  pub full : (s.begin ≡ begin) ⊎ (length s.events ≡ capacity)

begin_after_total :
    (begin end k : ℕ) (events : List Envelope)
    → Ordered begin end events
    → end < u64_mod
    → k < length events
    → (e : Envelope) × (get_elem? events k ≡ some e)
      × (begin_after events k ≡ some (suc e.offset))
      × (begin ≤ e.offset)
unfolding begin_after
begin_after_total begin end k events o b h =
    let (e, at) = get_elem?_total events k h in
    let bounds : (begin ≤ e.offset) × (e.offset < end) =
      get_elem?-bounds begin end k events e o at in
    (e, at, rw at (ap some (inc64-eq-suc e.offset end bounds.1 b)), bounds.0)

-- What follows the event at an index is what is at or after its successor.
drop-eq-select :
    (begin end k : ℕ) (events : List Envelope) (e : Envelope)
    → Ordered begin end events
    → get_elem? events k ≡ some e
    → drop (suc k) events ≡ select none (suc e.offset) events
drop-eq-select begin end k [] e o h = cc
drop-eq-select begin end zero (x ∷ xs) e o h =
    let same : x.offset ≡ e.offset = cc in
    sym (
      select_skip none (suc e.offset) x xs (omega arith)
      ∙ select_all (suc e.offset) (suc x.offset) end xs o.1 (omega arith))
drop-eq-select begin end (suc k) (x ∷ xs) e o h =
    let bounds : (suc x.offset ≤ e.offset) × (e.offset < end) =
      get_elem?-bounds (suc x.offset) end k xs e o.1 h in
    drop-eq-select (suc x.offset) end k xs e o.1 h
    ∙ sym (select_skip none (suc e.offset) x xs (omega (arith, bounds.0)))

pub window-IsWindow :
    (capacity begin end : ℕ) (events : List Envelope)
    → Ordered begin end events
    → end < u64_mod
    → 0 < capacity
    → (s : Segment) × (window capacity begin end events ≡ some s)
      × IsWindow capacity begin end events s
unfolding window window_from
window-IsWindow capacity begin end events o b pos = elim (excess capacity (length events)) [
  | room l ↦ (
    record { begin = begin; end = end; events = events },
    rw (none_over l),
    record {
      ends = refl;
      begins = omega arith;
      ordered = o;
      bounded = l;
      complete = sym (select_all begin begin end events o (omega arith));
      full = inl refl;
    },
  )
  | over k e ↦
      let (env, at, after, lower) = begin_after_total begin end k events o b (omega arith) in
      (
        record { begin = suc env.offset; end = end; events = drop (suc k) events },
        rw (e, window_from, after),
        record {
          ends = refl;
          begins = omega (arith, lower);
          ordered = Ordered-drop begin end k events env o at;
          bounded = omega (arith, length-drop (suc k) events);
          complete = drop-eq-select begin end k events env o at;
          full = inr (omega (arith, length-drop (suc k) events));
        },
      )
]
  where
    none_over : length events ≤ capacity → length events - capacity ≡ 0
    none_over l = omega arith
