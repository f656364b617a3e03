-- ===== src/Feed/Consuming.antt =====
-- feed.consume of internal/eventstream/feed.go delivers a stream contiguously and completely, from the cache and
-- from the source.
use runkit.Prelude.{
  ltb, leb, ◌==◌, Bool-cases, Option-cases, filter-filter, filter-eq, All, has, ℕ, ◌≤◌, ◌<◌, ◌≡◌,
  refl, sym, ap, ◌∙◌, subst, ◌⊎◌, inl, inr, Bool, true, false, not, ◌&&◌, Option, none, some, List,
  [], ◌∷◌, arith,
}
use runkit.Stream.{Envelope, Segment, Ordered, between, select, wants, Covers}
use runkit.Stream.Cover.{Covers-append}
use runkit.Stream.Between.{between-Ordered_range}
use runkit.Source.{Error, Callback, accepted, Ending}
use runkit.Cache.{Relation, before, within, after}
use runkit.Cache
use runkit.Cache.Reading.{read_cases}
use runkit.Feed.Caching.{IsExact}
use runkit.Feed.{
  pass_on, Woken, by_context, by_change, by_closure, Round, read, accepted_all, follow,
  consume_from, consume,
}

-- The segments that a source would deliver, without regard to the cache.
abbrev pub sources : List (Segment × Cache.Segment) → List Segment
sources [] = []
sources ((seg, c) ∷ rest) = seg ∷ sources rest

-- Every type that the consumer asks for is a type of the feed.
abbrev pub IsWatched : Option (List ℕ) → List ℕ → Type 0
IsWatched ftypes types = (t : ℕ) → has types t ≡ true → wants ftypes t ≡ true

-- What a consumer may rely on in one round: the cache is exact, and the source covers the stream from the
-- offset that it is read from.
pub record IsFaithful (id : ℕ) (all : List Envelope) (ftypes : Option (List ℕ)) (types : List ℕ)
    (r : Round) : Type 0 where
  pub exact : IsExact ftypes all r.seen
  pub covers : (cp : ℕ) → (e : ℕ) × Covers (some types) id all cp (sources (r.source cp).delivers) e

module _ (lo hi id : ℕ) (all : List Envelope) (ftypes : Option (List ℕ)) (types : List ℕ)
    (o : Ordered lo hi all) (watched : IsWatched ftypes types) where
  select-between :
      (b e cp : ℕ)
      → b ≤ cp
      → select (some types) cp (between ftypes b e all) ≡ between (some types) cp e all
  select-between b e cp l =
      filter-filter (λ x. leb cp x.offset && has types x.type_id)
        (λ x. leb b x.offset && (ltb x.offset e && wants ftypes x.type_id)) all
      ∙ filter-eq _ _ all (λ x. same x.offset x.type_id)
    where
      same :
          (n t : ℕ)
          → ((leb b n && (ltb n e && wants ftypes t)) && (leb cp n && has types t))
            ≡ (leb cp n && (ltb n e && has types t))
      same n t = elim (Bool-cases (has types t)) [
        | inl yes' ↦ rw (yes', watched t yes') (ground arith)
        | inr no' ↦ rw no' (ground arith)
      ]

  -- What is delivered from the cache.
  from_cache :
      (c : Cache.Segment) (cp : ℕ)
      → IsExact ftypes all c
      → c.begin ≤ cp
      → select (some types) cp c.events ≡ between (some types) cp c.end all
  from_cache c cp h l = ap (select (some types) cp) h.holds ∙ select-between c.begin c.end cp l

  cached-Ordered : (c : Cache.Segment) → IsExact ftypes all c → Ordered c.begin c.end c.events
  cached-Ordered c h =
      subst (Ordered c.begin c.end) (sym h.holds)
        (between-Ordered_range ftypes c.begin c.end lo hi all o h.grows)

  -- What is passed on from the source covers the range up to the new checkpoint.
  pass_on-Covers :
      (reads : List (Segment × Cache.Segment)) (cp : ℕ) (fn : Callback)
      → (e : ℕ) × Covers (some types) id all cp (sources reads) e
      → Covers (some types) id all cp (pass_on reads cp fn).0 (pass_on reads cp fn).1
  unfolding pass_on
  pass_on-Covers [] cp fn (e, c) = refl
  pass_on-Covers ((seg, c) ∷ rest) cp fn (e, (own, begins, grows, holds, more)) =
      elim (Option-cases (fn [] seg)) [
        | inr (err, refusal) ↦ rw (refusal, pass_on) refl
        | inl agreed ↦ elim (Bool-cases (leb c.begin seg.end)) [
          | inl reached ↦ rw (agreed, reached, pass_on) (own, begins, grows, holds, refl)
          | inr behind ↦
              rw (agreed, behind, pass_on)
                (own, begins, grows, holds, pass_on-Covers rest seg.end (accepted seg fn) (e, more))
        ]
      ]

  read-Covers :
      (r : Round) (cp : ℕ) (fn : Callback)
      → IsFaithful id all ftypes types r
      → Covers (some types) id all cp (read r cp fn).0 (read r cp fn).1
  unfolding read
  read-Covers r cp fn f = elim (Bool-cases (not r.may_read)) [
    | inl closed' ↦ rw closed' refl
    | inr open' ↦ rw open' (pass_on-Covers (r.source cp).delivers cp fn (f.covers cp))
  ]

  abbrev pub IsCovered : ℕ → List Segment × ℕ × Ending → Type 0
  IsCovered cp d = Covers (some types) id all cp d.0 d.1

  follow-IsCovered :
      (cp m : ℕ) (segs : List Segment) (d : List Segment × ℕ × Ending)
      → Covers (some types) id all cp segs m
      → IsCovered m d
      → IsCovered cp (follow segs d)
  follow-IsCovered cp m segs d c h = Covers-append (some types) id all cp m d.1 segs d.0 c h

  consume_from-IsCovered :
      (rs : List Round) (cp : ℕ) (confirmed : Bool) (fn : Callback)
      → All (IsFaithful id all ftypes types) rs
      → IsCovered cp (consume_from id types rs cp confirmed fn)
  unfolding consume_from
  consume_from-IsCovered [] cp confirmed fn h = refl
  consume_from-IsCovered (r ∷ rs) cp confirmed fn (f, h) =
      go (read r cp fn).2 refl (read-Covers r cp fn f)
        (λ cp' c fn'. consume_from-IsCovered rs cp' c fn' h)
        (read_cases r.seen cp types (cached-Ordered r.seen f.exact))
    where
      followed :
          Covers (some types) id all cp (read r cp fn).0 (read r cp fn).1
          → ((cp' : ℕ) (c : Bool) (fn' : Callback)
              → IsCovered cp' (consume_from id types rs cp' c fn'))
          → IsCovered cp (
              follow
                (read r cp fn).0
                (consume_from id types rs (read r cp fn).1 true (accepted_all (read r cp fn).0 fn)))
      followed c ih =
          follow-IsCovered cp (read r cp fn).1 (read r cp fn).0
            (consume_from id types rs (read r cp fn).1 true (accepted_all (read r cp fn).0 fn)) c
            (ih (read r cp fn).1 true (accepted_all (read r cp fn).0 fn))

      go :
          (err : Option Error)
          → (read r cp fn).2 ≡ err
          → Covers (some types) id all cp (read r cp fn).0 (read r cp fn).1
          → ((cp' : ℕ) (c : Bool) (fn' : Callback)
              → IsCovered cp' (consume_from id types rs cp' c fn'))
          → ((Cache.read r.seen cp types).1 ≡ before)
            ⊎ (((Cache.read r.seen cp types).1 ≡ after)
                ⊎ (((Cache.read r.seen cp types).1 ≡ within)
                    × (r.seen.begin ≤ cp)
                    × (cp < r.seen.end)
                    × ((Cache.read r.seen cp types).0 ≡ select (some types) cp r.seen.events)))
          → IsCovered cp (consume_from id types (r ∷ rs) cp confirmed fn)
      go (some e) eq c ih (inl b) = rw (b, eq, consume_from) c
      go none eq c ih (inl b) = elim (Bool-cases ((read r cp fn).1 == cp)) [
        | inl stuck ↦ rw (b, eq, stuck, consume_from) c
        | inr moved ↦ rw (b, eq, moved, consume_from) (followed c ih)
      ]
      go err eq c ih (inr (inl a)) = elim (Bool-cases (ltb r.seen.end cp && not confirmed)) [
        | inl beyond ↦ further beyond err eq
        | inr inside ↦ waiting inside r.woken refl
      ]
        where
          further :
              ltb r.seen.end cp && not confirmed ≡ true
              → (err : Option Error) → (read r cp fn).2 ≡ err
              → IsCovered cp (consume_from id types (r ∷ rs) cp confirmed fn)
          further beyond (some e) eq' = rw (a, beyond, eq', consume_from) c
          further beyond none eq' = rw (a, beyond, eq', consume_from) (followed c ih)

          waiting :
              ltb r.seen.end cp && not confirmed ≡ false
              → (w : Woken) → r.woken ≡ w
              → IsCovered cp (consume_from id types (r ∷ rs) cp confirmed fn)
          waiting inside by_context e = rw (a, inside, e, consume_from) refl
          waiting inside by_closure e = rw (a, inside, e, consume_from) refl
          waiting inside by_change e = rw (a, inside, e, consume_from) (ih cp confirmed fn)
      go err eq c ih (inr (inr (w, l, u, found))) =
          elim (Option-cases (
            fn [] (record {
              stream_id = id;
              begin = cp;
              end = r.seen.end;
              envelopes = (Cache.read r.seen cp types).0;
            }))) [
              | inr (e, refusal) ↦ rw (w, refusal, consume_from) refl
              | inl agreed ↦
                  rw (w, agreed, consume_from)
                    (
                      refl,
                      refl,
                      omega (arith, u),
                      found ∙ from_cache r.seen cp f.exact l,
                      ih r.seen.end true _,
                    )
            ]

  -- Let the events of a stream have increasing offsets, and let the feed carry every type that
  -- is requested; in every round, let its cached segment hold exactly the events of its types
  -- in its range, and let its source, from whatever offset it is read, deliver contiguous
  -- segments with exactly the requested events of their ranges. Then feed.consume delivers
  -- contiguous segments from the offset it begins at, each with exactly the requested events of
  -- its range, up to the offset at which delivery stopped, however it alternates between the
  -- cache and the source and whatever the callback refuses.
  pub consume-Covers :
      (rs : List Round) (begin : ℕ) (fn : Callback)
      → All (IsFaithful id all ftypes types) rs
      → let d = consume id types rs begin fn in Covers (some types) id all begin d.0 d.1
  unfolding consume
  consume-Covers rs begin fn h = consume_from-IsCovered rs begin false fn h
