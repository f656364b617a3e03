-- ===== src/Source/Memory/Whole.antt =====
-- A whole call of Memory.Read, against the history of the stream.
use runkit.Prelude.Maps.{get}
use mathlib.Core.Option.{some-injective}
use runkit.Prelude.{
  Option-cases, replicate, All, All-replicate, ℕ, zero, suc, ◌-◌, ◌≤◌, ◌<◌, ◌≡◌, refl, sym, ap, ◌∙◌,
  subst, ◌≢◌, ◌⊎◌, inl, inr, false, Option, some, List, [], ◌∷◌, arith,
}
use runkit.Stream.{Envelope, Segment, Ordered, between, Covers, delivered}
use runkit.Stream.Cover.{Covers-delivered}
use runkit.Source.{accept_all, Callback, accepted, panics, ok, unfinished, is_empty, Delivery}
use runkit.Source.Memory.{MemoryStream, Memory, Unread, unread, read_from, read}
use runkit.Source.Memory.Reading.{
  IsCut, IsSnapshot, Round, more, done, missing, beyond, unread-Round,
}

-- A stream of the source ended at `end` in one of the snapshots.
abbrev pub EndsIn : ℕ → ℕ → List Memory → Type 0
EndsIn id end [] = ⊥
EndsIn id end (m ∷ ms) =
    ((str : MemoryStream) × (get m.streams id ≡ some str) × (end ≡ str.end)) ⊎ EndsIn id end ms

later :
    {P : Type 0} (id end : ℕ) (m : Memory) (ms : List Memory)
    → P ⊎ EndsIn id end ms
    → P ⊎ EndsIn id end (m ∷ ms)
later id end m ms (inl p) = inl p
later id end m ms (inr e) = inr (inr e)

-- What a call of Read does, in terms of the history of the stream.
pub record Reads (types : Option (List ℕ)) (id : ℕ) (all : List Envelope) (ms : List Memory)
    (begin : ℕ) (d : Delivery) : Type 0 where
  pub reached : ℕ
  pub covers : Covers types id all begin d.0 reached
  pub no_panic : d.1 ≢ panics
  pub at_the_end : (d.1 ≢ ok) ⊎ EndsIn id reached ms

module _ (lo hi id : ℕ) (all : List Envelope) (types : Option (List ℕ))
    (o : Ordered lo hi all) where
  pub read_from-Reads :
      (ms : List Memory) (begin : ℕ) (fn : Callback)
      → All (IsSnapshot id all) ms
      → Reads types id all ms begin (read_from ms id types begin fn)
  unfolding read_from
  read_from-Reads [] begin fn snaps = record {
    reached = begin;
    covers = refl;
    no_panic = λ e. cc;
    at_the_end = inl (λ e. cc);
  }
  read_from-Reads (m ∷ ms) begin fn (snap, snaps) =
      go (unread m id types begin) refl (unread-Round lo hi id all types o m begin snap)
        (λ s. read_from-Reads ms s.end (accepted s fn) snaps)
    where
      go :
          (u : Unread)
          → unread m id types begin ≡ u
          → Round lo hi id all types o m begin u
          → ((s : Segment)
              → Reads types id all ms s.end (read_from ms id types s.end (accepted s fn)))
          → Reads types id all (m ∷ ms) begin (read_from (m ∷ ms) id types begin fn)
      go u e (more str s known n) ih = elim (Option-cases (fn [] s)) [
        | inl agreed ↦
            rw (e, agreed, read_from)
              (record {
                reached = (ih s).reached;
                covers =
                    (n.own, n.begins, omega (arith, n.begins, n.grows), n.holds, (ih s).covers);
                no_panic = (ih s).no_panic;
                at_the_end = later id (ih s).reached m ms (ih s).at_the_end;
              })
        | inr (err, refusal) ↦
            rw (e, refusal, read_from)
              (record {
                reached = begin;
                covers = refl;
                no_panic = λ q. cc;
                at_the_end = inl (λ q. cc);
              })
      ]
      go u e (done str known end) ih =
          rw (e, read_from)
            (record {
              reached = begin;
              covers = refl;
              no_panic = λ q. cc;
              at_the_end = inr (inl (str, known, end));
            })
      go u e (missing unknown) ih =
          rw (e, read_from)
            (record {
              reached = begin;
              covers = refl;
              no_panic = λ q. cc;
              at_the_end = inl (λ q. cc);
            })
      go u e (beyond str known over) ih =
          rw (e, read_from)
            (record {
              reached = begin;
              covers = refl;
              no_panic = λ q. cc;
              at_the_end = inl (λ q. cc);
            })

  -- Let the events of a stream have increasing offsets, and let every snapshot of the source
  -- that a call of Memory.Read meets hold the events of that stream below some end under 2^64,
  -- if it has the stream. With requested types that are not an empty set, whatever the callback
  -- refuses, the call delivers contiguous segments from the given offset, each with exactly the
  -- requested events of its range; it does not panic; and it returns nil only when the offset
  -- it has reached is the end of the stream in one of the snapshots.
  pub read-Reads :
      (ms : List Memory) (begin : ℕ) (fn : Callback)
      → is_empty types ≡ false
      → All (IsSnapshot id all) ms
      → Reads types id all ms begin (read ms id types begin fn)
  unfolding read
  read-Reads ms begin fn ne snaps = rw ne (read_from-Reads ms begin fn snaps)

  snapshot :
      (m : Memory) (str : MemoryStream)
      → get m.streams id ≡ some str
      → IsCut all str
      → IsSnapshot id all m
  snapshot m str known c ms e = subst (IsCut all) (some-injective _ _ (sym known ∙ e)) c

  -- Each round gets closer to the end of a stream that does not grow.
  read_from-finishes :
      (n begin : ℕ) (m : Memory) (str : MemoryStream) (fn : Callback)
      → get m.streams id ≡ some str
      → IsCut all str
      → str.end - begin < n
      → (read_from (replicate n m) id types begin fn).1 ≢ unfinished
  unfolding read_from
  read_from-finishes zero begin m str fn known c l = elim l [ ]
  read_from-finishes (suc n) begin m str fn known c l =
      go (unread m id types begin) refl
        (unread-Round lo hi id all types o m begin (snapshot m str known c))
        (λ s closer. read_from-finishes n s.end m str (accepted s fn) known c closer)
    where
      go :
          (u : Unread)
          → unread m id types begin ≡ u
          → Round lo hi id all types o m begin u
          → ((s : Segment)
              → str.end - s.end < n
              → (read_from (replicate n m) id types s.end (accepted s fn)).1 ≢ unfinished)
          → (read_from (replicate (suc n) m) id types begin fn).1 ≢ unfinished
      go u e (more str' s known' w) ih = elim (Option-cases (fn [] s)) [
        | inl agreed ↦
            rw (e, agreed, read_from)
              (ih s (
                let same : str.end ≡ str'.end =
                  ap (λ r. r.end) (some-injective _ _ (sym known ∙ known')) in
                omega (arith, w.grows, w.inside, same)))
        | inr (err, refusal) ↦ rw (e, refusal, read_from) (λ q. cc)
      ]
      go u e (done str' known' end) ih = rw (e, read_from) (λ q. cc)
      go u e (missing unknown) ih = rw (e, read_from) (λ q. cc)
      go u e (beyond str' known' over) ih = rw (e, read_from) (λ q. cc)

  read_from-ok :
      (n begin : ℕ) (m : Memory) (str : MemoryStream)
      → get m.streams id ≡ some str
      → IsCut all str
      → begin ≤ str.end
      → str.end - begin < n
      → (read_from (replicate n m) id types begin accept_all).1 ≡ ok
  unfolding read_from
  read_from-ok zero begin m str known c b l = elim l [ ]
  read_from-ok (suc n) begin m str known c b l =
      go (unread m id types begin) refl
        (unread-Round lo hi id all types o m begin (snapshot m str known c))
        (λ s inside closer. read_from-ok n s.end m str known c inside closer)
    where
      same : (str' : MemoryStream) → get m.streams id ≡ some str' → str.end ≡ str'.end
      same str' known' = ap (λ r. r.end) (some-injective _ _ (sym known ∙ known'))

      go :
          (u : Unread)
          → unread m id types begin ≡ u
          → Round lo hi id all types o m begin u
          → ((s : Segment)
              → s.end ≤ str.end
              → str.end - s.end < n
              → (read_from (replicate n m) id types s.end accept_all).1 ≡ ok)
          → (read_from (replicate (suc n) m) id types begin accept_all).1 ≡ ok
      go u e (more str' s known' w) ih =
          rw (e, read_from)
            (ih s (omega (arith, w.inside, same str' known'))
              (omega (arith, w.grows, w.inside, same str' known')))
      go u e (done str' known' end) ih = rw (e, read_from)
      go u e (missing unknown) ih = cc (sym known ∙ unknown)
      go u e (beyond str' known' over) ih = absurd (omega (arith, over, same str' known'))

EndsIn-replicate :
    (id end n : ℕ) (m : Memory) (str : MemoryStream)
    → get m.streams id ≡ some str
    → EndsIn id end (replicate n m)
    → end ≡ str.end
EndsIn-replicate id end zero m str known h = absurd h
EndsIn-replicate id end (suc n) m str known (inl (str', known', e)) =
    e ∙ ap (λ r. r.end) (some-injective _ _ (sym known' ∙ known))
EndsIn-replicate id end (suc n) m str known (inr h) = EndsIn-replicate id end n m str known h

ended : {P : Type 0} {A : Type 0} → A → (¬ A) ⊎ P → P
ended a (inl no') = absurd (no' a)
ended a (inr p) = p

module _ (lo hi id : ℕ) (all : List Envelope) (types : Option (List ℕ))
    (o : Ordered lo hi all) where
  -- A call on a stream that does not grow ends at its end.
  pub read-Covers :
      (n begin : ℕ) (m : Memory) (str : MemoryStream)
      → is_empty types ≡ false
      → get m.streams id ≡ some str
      → IsCut all str
      → begin ≤ str.end
      → str.end - begin < n
      → let d = read (replicate n m) id types begin accept_all in
        (d.1 ≡ ok) × Covers types id all begin d.0 str.end
  unfolding read
  read-Covers n begin m str ne known c b l =
      let finished = read_from-ok lo hi id all types o n begin m str known c b l in
      let snaps =
        All-replicate (IsSnapshot id all) n m (snapshot lo hi id all types o m str known c) in
      let r = read_from-Reads lo hi id all types o (replicate n m) begin accept_all snaps in
      let end : r.reached ≡ str.end =
        EndsIn-replicate id r.reached n m str known (ended finished r.at_the_end) in
      rw ne (finished, subst (Covers types id all begin _) end r.covers)

  -- On a source that has the stream, does not change, and holds the events of increasing
  -- offsets below its end, which is under 2^64, a call of Memory.Read from an offset that is
  -- not beyond that end, with requested types that are not an empty set and a callback that
  -- refuses nothing, returns nil within one round more than there are offsets to the end, and
  -- delivers exactly the requested events from the offset to the end.
  pub read_complete :
      (n begin : ℕ) (m : Memory) (str : MemoryStream)
      → is_empty types ≡ false
      → get m.streams id ≡ some str
      → IsCut all str
      → begin ≤ str.end
      → str.end - begin < n
      → let d = read (replicate n m) id types begin accept_all in
        (d.1 ≡ ok) × (delivered d.0 ≡ between types begin str.end all)
  read_complete n begin m str ne known c b l =
      let (finished, covers) = read-Covers n begin m str ne known c b l in
      (finished, Covers-delivered types id all lo hi begin str.end _ o covers)
