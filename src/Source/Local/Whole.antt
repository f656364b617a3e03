-- ===== src/Source/Local/Whole.antt =====
-- Local.Read of internal/eventstream/source/local.go on a stream that does not grow: it ends, and is complete.
use mathlib.Core.Option.{some-injective}
use runkit.Prelude.{
  ltb, ◌==◌, lt→ltb, Bool-cases, replicate, All-replicate, ℕ, zero, suc, ◌-◌, ◌≤◌, ◌<◌, ◌≡◌, refl,
  sym, ap, ◌∙◌, subst, ◌⊎◌, inl, inr, false, Option, some, List, arith,
}
use runkit.Prelude.Maps.{get}
use runkit.Stream.{Envelope, Segment, Ordered, between, delivered}
use runkit.Stream.Cover.{Covers-delivered}
use runkit.Source.{accept_all, ok, is_empty}
use runkit.Source.Local.{Tables, Loaded, load_segment, read_from, read}
use runkit.Source.Local.Rows.{IsSnapshot, IsCut}
use runkit.Source.Local.Loading.{Round, missing, beyond, more, load_segment-Round}
use runkit.Source.Local.Reading.{EndsIn, read-ReadsTables}

EndsIn-replicate :
    (id end n next : ℕ) (t : Tables)
    → get t.streams id ≡ some next
    → EndsIn id end (replicate n (some t))
    → end ≡ next
EndsIn-replicate id end zero next t known h = absurd h
EndsIn-replicate id end (suc n) next t known (inl h) = some-injective _ _ (sym h ∙ known)
EndsIn-replicate id end (suc n) next t known (inr h) = EndsIn-replicate id end n next t known h

ended : {P : Type 0} {A : Type 0} → A → (¬ A) ⊎ P → P
ended a (inl no') = absurd (no' a)
ended a (inr p) = p

module _ (lo hi id : ℕ) (all : List Envelope) (types : Option (List ℕ))
    (o : Ordered lo hi all) where
  snapshot :
      (t : Tables) (next : ℕ)
      → get t.streams id ≡ some next
      → IsCut id all t next
      → IsSnapshot id all (some t)
  snapshot t next known c next' known' =
      subst (IsCut id all t) (some-injective _ _ (sym known ∙ known')) c

  read_from-ok :
      (size n begin next : ℕ) (t : Tables)
      → 0 < size
      → get t.streams id ≡ some next
      → IsCut id all t next
      → begin ≤ next
      → next - begin < n
      → (read_from size (replicate n (some t)) id types begin accept_all).1 ≡ ok
  unfolding read_from
  read_from-ok size zero begin next t pos known c b l = elim l [ ]
  read_from-ok size (suc n) begin next t pos known c b l =
      go (load_segment size id types begin (some t)) refl
        (load_segment-Round lo hi id all types o size begin (some t) pos (snapshot t next known c))
        (λ s inside closer. read_from-ok size n s.end next t pos known c inside closer)
    where
      go :
          (r : Loaded)
          → load_segment size id types begin (some t) ≡ r
          → Round size id types all begin (some t) r
          → ((s : Segment)
              → s.end ≤ next
              → next - s.end < n
              → (read_from size (replicate n (some t)) id types s.end accept_all).1 ≡ ok)
          → (read_from size (replicate (suc n) (some t)) id types begin accept_all).1 ≡ ok
      go r e (missing _ unknown) ih = cc (sym known ∙ unknown)
      go r e (beyond _ next' known' over) ih = absurd (
          let same : next ≡ next' = some-injective _ _ (sym known ∙ known') in
          omega (arith, over, same))
      go r e (more _ next' s exhausted known' w) ih =
          let same : next ≡ next' = some-injective _ _ (sym known ∙ known') in
          elim w.reaches [
            | inl (yes', at) ↦ elim (Bool-cases (ltb s.begin s.end)) [
              | inl grows ↦ rw (e, grows, yes', read_from)
              | inr stays ↦ rw (e, stays, yes', read_from)
            ]
            | inr (no', grows) ↦
                rw (e, lt→ltb s.begin s.end (omega (arith, grows, w.begins)), no', read_from)
                  (ih s (omega (arith, w.inside, same)) (omega (arith, w.inside, same, grows)))
          ]

  -- On tables that do not change and hold, in any order of rows, the events of increasing
  -- offsets below the next offset of a stream, which is under 2^64, a call of Local.Read from
  -- an offset that is not beyond it, with a positive segment size, requested types that are not
  -- an empty set and a callback that refuses nothing, returns nil within one query more than
  -- there are offsets to the end, and delivers exactly the requested events from the offset to
  -- the end.
  pub read_to_end :
      (size n begin next : ℕ) (t : Tables)
      → 0 < size
      → is_empty types ≡ false
      → get t.streams id ≡ some next
      → IsCut id all t next
      → begin ≤ next
      → next - begin < n
      → let d = read size (replicate n (some t)) id types begin accept_all in
        (d.1 ≡ ok) × (delivered d.0 ≡ between types begin next all)
  unfolding read
  read_to_end size n begin next t pos ne known c b l =
      let finished : (read size (replicate n (some t)) id types begin accept_all).1 ≡ ok =
        rw (ne, positive size pos) (read_from-ok size n begin next t pos known c b l) in
      let r =
        read-ReadsTables lo hi id all types o size (replicate n (some t)) begin accept_all ne pos
          (All-replicate (IsSnapshot id all) n (some t) (snapshot t next known c)) in
      let end : r.reached ≡ next =
        EndsIn-replicate id r.reached n next t known (ended finished r.at_the_end) in
      (
        finished,
        Covers-delivered types id all lo hi begin r.reached _ o r.covers
            ∙ ap (λ e. between types begin e all) end,
      )
    where
      positive : (n : ℕ) → 0 < n → (n == 0) ≡ false
      positive n l = ground arith
