-- ===== src/Source/Remote/Parsing.antt =====
-- parseSegment accepts exactly the well-formed segments.
use mathlib.Core.Path.{ap₂}
use runkit.Prelude.{
  All, u64_mod, inc64, inc64-eq-suc, ℕ, suc, ◌≤◌, ◌<◌, ◌≡◌, refl, sym, ap, ◌∙◌, subst, true, Option,
  List, [], ◌∷◌, ◌++◌, map, arith,
}
use runkit.Stream.{Ordered, Envelope, wants}
use runkit.Stream.Order.{Ordered-le}
use runkit.Source.Wire.{Raw, raw}
use runkit.Source.Remote.{Parsed, valid, invalid, ◌>>=◌, parse_event, parse_events}

pub >>=-eq-valid {ℓ κ} :
    {A : Type ℓ} {B : Type κ} (m : Parsed A) (f : A → Parsed B) {b : B}
    → (m >>= f) ≡ valid b
    → (a : A) × (m ≡ valid a) × (f a ≡ valid b)
>>=-eq-valid (valid a) f h = (a, refl, h)
>>=-eq-valid (invalid r) f h = cc

-- Events of the stream that was asked for, of the types that were asked for.
abbrev pub IsRequested : ℕ → Option (List ℕ) → Envelope → Type 0
IsRequested id types e = (e.stream_id ≡ id) × (wants types e.type_id ≡ true)

-- An event that passes lies in the segment, after the events before it.
pub record Passes (id begin end next : ℕ) (types : Option (List ℕ)) (r : Raw) (e : Envelope)
    : Type 0 where
  pub after : next ≤ e.offset
  pub inside : e.offset < end
  pub requested : IsRequested id types e
  pub same : raw e ≡ r

module _ (id begin end : ℕ) (types : Option (List ℕ)) where
  parse_event-Passes :
      (next : ℕ) (r : Raw) (e : Envelope)
      → parse_event id begin end types next r ≡ valid e
      → Passes id begin end next types r e
  unfolding parse_event
  parse_event-Passes next r e h = ground arith

  parse_event-raw :
      (next : ℕ) (e : Envelope)
      → begin ≤ next
      → next ≤ e.offset
      → e.offset < end
      → IsRequested id types e
      → parse_event id begin end types next (raw e) ≡ valid e
  unfolding parse_event
  parse_event-raw next e b l u (own, wanted) = ground arith

-- The same of a list of events: they are in order, and the lowest offset that may follow is past the last.
pub record PassAll (id end next last : ℕ) (types : Option (List ℕ)) (rs : List Raw)
    (es : List Envelope) : Type 0 where
  pub ordered : Ordered next last es
  pub inside : last ≤ end
  pub requested : All (IsRequested id types) es
  pub same : map raw es ≡ rs

-- The results of two loops, the second from where the first ended.
abbrev pub both :
    Parsed (List Envelope × ℕ) → (ℕ → Parsed (List Envelope × ℕ)) → Parsed (List Envelope × ℕ)
both p k = p >>= λ (es, n). k n >>= λ (es', n'). valid (es ++ es', n')

abbrev prepend : Envelope → Parsed (List Envelope × ℕ) → Parsed (List Envelope × ℕ)
prepend e p = p >>= λ (es, n). valid (e ∷ es, n)

both_nil : (n : ℕ) (k : ℕ → Parsed (List Envelope × ℕ)) → both (valid ([], n)) k ≡ k n
both_nil n k = go (k n)
  where
    go : (p : Parsed (List Envelope × ℕ)) → (p >>= λ (es, n'). valid ([] ++ es, n')) ≡ p
    go (valid (es, n')) = refl
    go (invalid r) = refl

prepend-both :
    (e : Envelope) (p : Parsed (List Envelope × ℕ)) (k : ℕ → Parsed (List Envelope × ℕ))
    → prepend e (both p k) ≡ both (prepend e p) k
prepend-both e (invalid r) k = refl
prepend-both e (valid (es, n)) k = go (k n)
  where
    go :
        (p : Parsed (List Envelope × ℕ))
        → prepend e (p >>= λ (es', n'). valid (es ++ es', n'))
          ≡ (p >>= λ (es', n'). valid (e ∷ es ++ es', n'))
    go (valid (es', n')) = refl
    go (invalid r) = refl

module _ (id begin end : ℕ) (types : Option (List ℕ)) (fits : end < u64_mod) where
  pass_cons :
      (next last last' : ℕ) (r : Raw) (rs : List Raw) (e : Envelope) (es es' : List Envelope)
      → Passes id begin end next types r e
      → inc64 e.offset ≡ suc e.offset
      → ◌≡◌ {A = Parsed (List Envelope × ℕ)} (valid (e ∷ es', last')) (valid (es, last))
      → PassAll id end (inc64 e.offset) last' types rs es'
      → PassAll id end next last types (r ∷ rs) es
  pass_cons next last last' r rs e es es' p step eq q =
      subst (λ (xs : List Envelope × ℕ). PassAll id end next xs.1 types (r ∷ rs) xs.0) same_result
        (record {
          ordered = (p.after, subst (λ n. Ordered n last' es') step q.ordered);
          inside = q.inside;
          requested = (p.requested, q.requested);
          same = ap₂ ◌∷◌ p.same q.same;
        })
    where
      same_result : ◌≡◌ {A = List Envelope × ℕ} (e ∷ es', last') (es, last)
      same_result = ground arith

  parse_cons :
      (next last : ℕ) (r : Raw) (rs : List Raw) (e : Envelope) (es : List Envelope)
      → parse_event id begin end types next r ≡ valid e
      → parse_events id begin end types (inc64 e.offset) rs ≡ valid (es, last)
      → parse_events id begin end types next (r ∷ rs) ≡ valid (e ∷ es, last)
  unfolding parse_events
  parse_cons next last r rs e es h k = rw (h, k)

  pub parse_events-PassAll :
      (next last : ℕ) (rs : List Raw) (es : List Envelope)
      → next ≤ end
      → parse_events id begin end types next rs ≡ valid (es, last)
      → PassAll id end next last types rs es
  unfolding parse_events
  parse_events-PassAll next last [] es l h =
      let nothing : es ≡ [] = cc in
      let still : last ≡ next = cc in
      rw (nothing, still)
        (record { ordered = omega arith; inside = l; requested = tt; same = refl })
  parse_events-PassAll next last (r ∷ rs) es l h =
      let (e, first, rest) = >>=-eq-valid (parse_event id begin end types next r) _ h in
      let ((es', last'), second, third) =
        >>=-eq-valid (parse_events id begin end types (inc64 e.offset) rs) _ rest in
      let passes = parse_event-Passes id begin end types next r e first in
      let step : inc64 e.offset ≡ suc e.offset = inc64-eq-suc e.offset end passes.inside fits in
      pass_cons next last last' r rs e es es' passes step third (
        parse_events-PassAll (inc64 e.offset) last' rs es' (omega (arith, step, passes.inside))
          second)

  pub parse_events-raw :
      (next : ℕ) (es : List Envelope)
      → begin ≤ next
      → Ordered next end es
      → All (IsRequested id types) es
      → (last : ℕ) × (parse_events id begin end types next (map raw es) ≡ valid (es, last))
        × (next ≤ last)
  unfolding parse_events
  parse_events-raw next [] b o q = (next, refl, omega arith)
  parse_events-raw next (e ∷ es) b o (q, qs) =
      let inside : e.offset < end = Ordered-le (suc e.offset) end es o.1 in
      let step : inc64 e.offset ≡ suc e.offset = inc64-eq-suc e.offset end inside fits in
      let (last, eq, past) = parse_events-raw (suc e.offset) es (omega (arith, o.0)) o.1 qs in
      (
        last,
        parse_cons next last (raw e) (map raw es) e es
            (parse_event-raw id begin end types next e b o.0 inside q)
            (ap (λ n. parse_events id begin end types n (map raw es)) step ∙ eq),
        omega (arith, past, o.0),
      )

  pub parse_events-append :
      (next : ℕ) (xs ys : List Raw)
      → parse_events id begin end types next (xs ++ ys)
        ≡ both (parse_events id begin end types next xs) (λ n. parse_events id begin end types n ys)
  unfolding parse_events
  parse_events-append next [] ys = sym (both_nil next (λ n. parse_events id begin end types n ys))
  parse_events-append next (x ∷ xs) ys =
      go (parse_event id begin end types next x) refl (λ n. parse_events-append n xs ys)
    where
      go :
          (p : Parsed Envelope)
          → parse_event id begin end types next x ≡ p
          → ((n : ℕ)
              → parse_events id begin end types n (xs ++ ys)
                ≡ both
                    (parse_events id begin end types n xs)
                    (λ n'. parse_events id begin end types n' ys))
          → parse_events id begin end types next ((x ∷ xs) ++ ys)
            ≡ both
                (parse_events id begin end types next (x ∷ xs))
                (λ n. parse_events id begin end types n ys)
      go (invalid r) h ih = rw (h, parse_events)
      go (valid e) h ih = rw h (
          rw (ih (inc64 e.offset)) (
            prepend-both e (parse_events id begin end types (inc64 e.offset) xs)
              (λ n. parse_events id begin end types n ys)))
