-- ===== src/Source/Local/Reading.antt =====
-- A whole call of Local.Read of internal/eventstream/source/local.go, against the history of the stream.
use runkit.Prelude.{
  ltb, ◌==◌, Bool-cases, Option-cases, All, ℕ, ◌<◌, ◌≡◌, refl, sym, ap, ◌∙◌, ◌≢◌, ◌⊎◌, inl, inr,
  Bool, false, Option, none, some, List, [], ◌∷◌, arith,
}
use runkit.Prelude.Maps.{get}
use runkit.Stream.{Envelope, Segment, Ordered, Covers}
use runkit.Source.{Callback, accepted, panics, ok, is_empty, Delivery}
use runkit.Source.Local.{Tables, Loaded, load_segment, read_from, read}
use runkit.Source.Local.Rows.{IsSnapshot}
use runkit.Source.Local.Loading.{
  IsNext, Round, unavailable, missing, beyond, more, load_segment-Round,
}

-- The stream ended at `end` in one of the snapshots.
abbrev pub EndsIn : ℕ → ℕ → List (Option Tables) → Type 0
EndsIn id end [] = ⊥
EndsIn id end (none ∷ ts) = EndsIn id end ts
EndsIn id end (some t ∷ ts) = (get t.streams id ≡ some end) ⊎ EndsIn id end ts

later :
    (P : Type 0) (id end : ℕ) (t : Tables) (ts : List (Option Tables))
    → P ⊎ EndsIn id end ts
    → P ⊎ EndsIn id end (some t ∷ ts)
later P id end t ts (inl p) = inl p
later P id end t ts (inr e) = inr (inr e)

-- What a call of Read does, in terms of the history of the stream.
pub record ReadsTables (types : Option (List ℕ)) (id : ℕ) (all : List Envelope)
    (ts : List (Option Tables)) (begin : ℕ) (d : Delivery) : Type 0 where
  pub reached : ℕ
  pub covers : Covers types id all begin d.0 reached
  pub no_panic : d.1 ≢ panics
  pub at_the_end : (d.1 ≢ ok) ⊎ EndsIn id reached ts

module _ (lo hi id : ℕ) (all : List Envelope) (types : Option (List ℕ))
    (o : Ordered lo hi all) where
  read_from-ReadsTables :
      (size : ℕ) (ts : List (Option Tables)) (begin : ℕ) (fn : Callback)
      → 0 < size
      → All (IsSnapshot id all) ts
      → ReadsTables types id all ts begin (read_from size ts id types begin fn)
  unfolding read_from
  read_from-ReadsTables size [] begin fn pos snaps = record {
    reached = begin;
    covers = refl;
    no_panic = λ q. cc;
    at_the_end = inl (λ q. cc);
  }
  read_from-ReadsTables size (t ∷ ts) begin fn pos (snap, snaps) =
      go t (load_segment size id types begin t) refl
        (load_segment-Round lo hi id all types o size begin t pos snap)
        (read_from-ReadsTables size ts begin fn pos snaps)
        (λ s. read_from-ReadsTables size ts s.end (accepted s fn) pos snaps)
    where
      go :
          (t : Option Tables) (l : Loaded)
          → load_segment size id types begin t ≡ l
          → Round size id types all begin t l
          → ReadsTables types id all ts begin (read_from size ts id types begin fn)
          → ((s : Segment)
              → ReadsTables types id all ts s.end
                  (read_from size ts id types s.end (accepted s fn)))
          → ReadsTables types id all (t ∷ ts) begin (read_from size (t ∷ ts) id types begin fn)
      go _ l e unavailable same next =
          rw (e, read_from)
            (record {
              reached = begin;
              covers = refl;
              no_panic = λ q. cc;
              at_the_end = inl (λ q. cc);
            })
      go _ l e (missing t unknown) same next =
          rw (e, read_from)
            (record {
              reached = begin;
              covers = refl;
              no_panic = λ q. cc;
              at_the_end = inl (λ q. cc);
            })
      go _ l e (beyond t end known over) same next =
          rw (e, read_from)
            (record {
              reached = begin;
              covers = refl;
              no_panic = λ q. cc;
              at_the_end = inl (λ q. cc);
            })
      go _ l e (more t end s exhausted known n) same next = elim (Bool-cases (ltb s.begin s.end)) [
        | inr stays ↦ elim n.reaches [
          | inr (_, grows) ↦ absurd (ground (arith, stays, grows, n.begins))
          | inl (yes', at) ↦
              rw (e, stays, yes', read_from)
                (record {
                  reached = begin;
                  covers = refl;
                  no_panic = λ q. cc;
                  at_the_end = inr (inl (known ∙ ap some (stuck s n stays at)));
                })
        ]
        | inl grows ↦ elim (Option-cases (fn [] s)) [
          | inr (err, refusal) ↦
              rw (e, grows, refusal, read_from)
                (record {
                  reached = begin;
                  covers = refl;
                  no_panic = λ q. cc;
                  at_the_end = inl (λ q. cc);
                })
          | inl agreed ↦ elim n.reaches [
            | inl (yes', at) ↦
                rw (e, grows, agreed, yes', read_from)
                  (record {
                    reached = s.end;
                    covers = (n.own, n.begins, omega (arith, n.begins, n.grows), n.holds, refl);
                    no_panic = λ q. cc;
                    at_the_end = inr (inl (known ∙ ap some (sym at)));
                  })
            | inr (no', _) ↦
                rw (e, grows, agreed, no', read_from)
                  (record {
                    reached = (next s).reached;
                    covers = (
                      n.own,
                      n.begins,
                      omega (arith, n.begins, n.grows),
                      n.holds,
                      (next s).covers,
                    );
                    no_panic = (next s).no_panic;
                    at_the_end = later _ id (next s).reached t ts (next s).at_the_end;
                  })
          ]
        ]
      ]
        where
          stuck :
              {end : ℕ} {exhausted : Bool} (s : Segment)
              → IsNext types id all begin end s exhausted
              → ltb s.begin s.end ≡ false
              → s.end ≡ end
              → end ≡ begin
          stuck s n stays at = ground (arith, n.begins, n.grows)

  -- Let the events of a stream have increasing offsets, and let the tables at every query of a
  -- call of Local.Read hold, in any order of rows, the events of that stream below its next
  -- offset, which is under 2^64, if they have the stream; a query may fail. With a positive
  -- segment size and requested types that are not an empty set, whatever the callback refuses,
  -- the call delivers contiguous segments from the given offset, each with exactly the
  -- requested events of its range; it does not panic; and it returns nil only when the offset
  -- it has reached is the end of the stream at one of the queries.
  pub read-ReadsTables :
      (size : ℕ) (ts : List (Option Tables)) (begin : ℕ) (fn : Callback)
      → is_empty types ≡ false
      → 0 < size
      → All (IsSnapshot id all) ts
      → ReadsTables types id all ts begin (read size ts id types begin fn)
  unfolding read
  read-ReadsTables size ts begin fn ne pos snaps =
      rw (ne, positive size pos) (read_from-ReadsTables size ts begin fn pos snaps)
    where
      positive : (n : ℕ) → 0 < n → (n == 0) ≡ false
      positive n l = ground arith
