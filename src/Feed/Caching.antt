-- ===== src/Feed/Caching.antt =====
-- feed.Append of internal/eventstream/feed.go: the cache holds the stream's events of the feed's types, whether
-- the segments are contiguous or restart.
use runkit.Prelude.{
  ltb, leb, ◌==◌, if◌then◌else◌, ==_iff, Bool-cases, filter-filter, filter-eq, u64_mod, ℕ, ◌≤◌, ◌<◌,
  ◌≡◌, refl, sym, ap, ◌∙◌, subst, ◌⊎◌, inl, inr, Bool, true, false, ◌&&◌, Option, none, some, List,
  ◌++◌, arith,
}
use runkit.Stream.{wants, Envelope, Segment, Ordered, between, select}
use runkit.Stream.Order.{Ordered-le}
use runkit.Stream.Between.{between-Ordered_range, between-append, between_none}
use runkit.Cache.{Cache}
use runkit.Cache
use runkit.Cache.History.{Holds, reset-Holds, append-Appended}
use runkit.Feed.{Feed, append, ready_cache, store}

-- A cached segment holds exactly the events of the given types in its range.
pub record IsExact (ftypes : Option (List ℕ)) (all : List Envelope) (c : Cache.Segment)
    : Type 0 where
  pub grows : c.begin ≤ c.end
  pub holds : c.events ≡ between ftypes c.begin c.end all

-- A feed's cache has been fed the stream from the offset `from` on.
pub record IsFed (all : List Envelope) (f : Feed) : Type 0 where
  pub from : ℕ
  pub fed : Holds from (between f.types from f.cache.segment.end all) f.cache

select-between :
    (types : Option (List ℕ)) (a b e : ℕ) (all : List Envelope)
    → a ≤ b
    → select none b (between types a e all) ≡ between types b e all
select-between types a b e all l =
    filter-filter (λ x. leb b x.offset && true)
      (λ x. leb a x.offset && (ltb x.offset e && wants types x.type_id)) all
    ∙ filter-eq _ _ all (λ x. same x.offset (wants types x.type_id))
  where
    same :
        (n : ℕ) (q : Bool)
        → ((leb a n && (ltb n e && q)) && (leb b n && true)) ≡ (leb b n && (ltb n e && q))
    same n q = ground arith

pub IsFed-IsExact :
    (all : List Envelope) (f : Feed) → IsFed all f → IsExact f.types all f.cache.segment
IsFed-IsExact all f h = record {
  grows = Ordered-le f.cache.segment.begin f.cache.segment.end _ h.fed.ordered;
  holds =
      h.fed.complete
      ∙ select-between f.types h.from f.cache.segment.begin f.cache.segment.end all h.fed.starts;
}

-- The cache from which Append goes on: it ends where the segment begins.
record IsReady (all : List Envelope) (types : Option (List ℕ)) (begin : ℕ) (c : Cache)
    : Type 0 where
  ends : c.segment.end ≡ begin
  from : ℕ
  holds : Holds from (between types from begin all) c

module _ (lo hi : ℕ) (all : List Envelope) (o : Ordered lo hi all) where
  append-IsReady :
      (types : Option (List ℕ)) (seg : Segment) (c : Cache)
      → IsReady all types seg.begin c
      → seg.begin ≤ seg.end
      → seg.end < u64_mod
      → seg.envelopes ≡ between types seg.begin seg.end all
      → (c' : Cache) × (Cache.append c seg.begin seg.end seg.envelopes ≡ some c')
        × IsReady all types seg.end c'
  append-IsReady types seg c r grows fits holds =
      let ordered : Ordered seg.begin seg.end seg.envelopes =
        subst (Ordered seg.begin seg.end) (sym holds)
          (between-Ordered_range types seg.begin seg.end lo hi all o grows) in
      let (c', eq, a) =
        append-Appended r.from seg.end (between types r.from seg.begin all) seg.envelopes c r.holds
          (subst (λ n. Ordered n seg.end seg.envelopes) (sym r.ends) ordered) fits in
      let start : r.from ≤ seg.begin = omega (
        arith,
        r.ends,
        r.holds.starts,
        Ordered-le c.segment.begin c.segment.end _ r.holds.ordered,
      ) in
      (
        c',
        ap (λ n. Cache.append c n seg.end seg.envelopes) (sym r.ends) ∙ eq,
        record {
          ends = a.ends;
          from = r.from;
          holds =
              subst (λ es. Holds r.from es c')
                (ap (◌++◌ (between types r.from seg.begin all)) holds
                  ∙ between-append types r.from seg.begin seg.end lo hi all o start grows)
                a.holds;
        },
      )

  reset-IsReady :
      (types : Option (List ℕ)) (from begin : ℕ) (es : List Envelope) (c : Cache)
      → begin < u64_mod
      → Holds from es c
      → IsReady all types begin (Cache.reset c begin)
  unfolding Cache.reset
  reset-IsReady types from begin es c b k = record {
    ends = refl;
    from = begin;
    holds =
        subst (λ es. Holds begin es (Cache.reset c begin)) (sym (between_none types begin all))
          (reset-Holds from begin es c k b);
  }

  -- Let the events of a stream have increasing offsets, and let the cache of an open feed hold
  -- a suffix of what it was fed of the stream from some offset on. Then feed.Append of a
  -- segment that does not end before it begins, ends below 2^64 and holds exactly the events of
  -- the types of the feed in its range does not panic; the cache ends where the segment does
  -- and again holds a suffix of the stream from some offset on, whether the segment continues
  -- the cache or restarts it.
  pub append-IsFed :
      (f : Feed) (seg : Segment)
      → f.closed ≡ false
      → IsFed all f
      → seg.begin ≤ seg.end
      → seg.end < u64_mod
      → seg.envelopes ≡ between f.types seg.begin seg.end all
      → (f' : Feed) × (append f seg ≡ some f') × IsFed all f' × (f'.cache.segment.end ≡ seg.end)
  unfolding append
  append-IsFed f seg is_open h grows fits holds =
      let (c', eq, r) =
        append-IsReady f.types seg (ready_cache f seg)
          (ready (Bool-cases (seg.begin == f.cache.segment.end))) grows fits holds in
      (
        record f { cache = c' },
        ap
              (λ b.
                if b
                then some f
                else store f (Cache.append (ready_cache f seg) seg.begin seg.end seg.envelopes))
              is_open
            ∙ ap (store f) eq,
        record {
          from = r.from;
          fed = subst (λ n. Holds r.from (between f.types r.from n all) c') (sym r.ends) r.holds;
        },
        r.ends,
      )
    where
      ready :
          (seg.begin == f.cache.segment.end ≡ true) ⊎ (seg.begin == f.cache.segment.end ≡ false)
          → IsReady all f.types seg.begin (ready_cache f seg)
      ready (inl follows) =
          let same = (==_iff seg.begin f.cache.segment.end).0 follows in
          rw follows (record {
            ends = sym same;
            from = h.from;
            holds =
                subst (λ n. Holds h.from (between f.types h.from n all) f.cache) (sym same) h.fed;
          })
      ready (inr restarts) =
          rw restarts
            (reset-IsReady f.types h.from seg.begin _ f.cache (omega (arith, grows, fits)) h.fed)
