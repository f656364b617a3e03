-- ===== src/Catalog/Changes.antt =====
-- Catalog.add and Catalog.remove of internal/eventstream/catalog.go keep the index.
use runkit.Prelude.{
  ◌==◌, if◌then◌else◌, ==_iff, ==_refl, Bool-cases, Option-cases, length, filter, has, ℕ, suc, ◌≡◌,
  refl, sym, ap, ◌∙◌, inl, inr, true, false, not, Option, none, some, List, [], ◌∷◌, arith,
}
use runkit.Prelude.Maps.{get, set, delete, get-delete}
use runkit.Catalog.{CatalogStream, Catalog, publish, add, is_current, any_feed, remove}
use runkit.Catalog.Index.{
  IsIndexed, is_some, has-filter, has-publish, replaced, known_published, still_open,
}

-- A feed that is new is not of any stream, and is open.
pub record IsNew (f : ℕ) (c : Catalog) : Type 0 where
  pub unknown :
      (id : ℕ) (cs : CatalogStream) → get c.streams id ≡ some cs → has cs.available f ≡ false
  pub is_open : has c.closed f ≡ false

more_than_one : (xs : List ℕ) (g : ℕ) → has xs g ≡ true → (suc (length xs) == 1) ≡ false
more_than_one [] g a = cc
more_than_one (x ∷ xs) g a = ground arith

wider : (f g : ℕ) (xs : List ℕ) → has xs g ≡ true → has (f ∷ xs) g ≡ true
wider f g xs a = ground (arith, a)

module _ (f id : ℕ) (c : Catalog) (h : IsIndexed c) where
  apart :
      IsNew f c
      → (available : List ℕ)
      → ((g i : ℕ) (cs' : CatalogStream)
          → (id == i) ≡ false
          → get c.streams i ≡ some cs'
          → has cs'.available g ≡ true
          → has available g ≡ false)
      → (i g : ℕ) (cs' : CatalogStream) → (id == i) ≡ false
      → get c.streams i ≡ some cs'
      → has cs'.available g ≡ true
      → has (f ∷ available) g ≡ false
  apart new available others i g cs' other' e a = elim (Bool-cases (f == g)) [
    | inl same ↦ cc (sym (new.unknown i cs' e) ∙ ap (has cs'.available) ((==_iff f g).0 same) ∙ a)
    | inr distinct ↦ rw distinct (others g i cs' other' e a)
  ]

  others_apart :
      (cs : CatalogStream)
      → get c.streams id ≡ some cs
      → (g i : ℕ) (cs' : CatalogStream) → (id == i) ≡ false
      → get c.streams i ≡ some cs'
      → has cs'.available g ≡ true
      → has cs.available g ≡ false
  others_apart cs e g i cs' other' e' a = elim (Bool-cases (has cs.available g)) [
    | inr out ↦ out
    | inl shared ↦ cc (sym other' ∙ (==_iff id i).1 (h.separate id i g cs cs' e e' shared a))
  ]

  -- Let the IDs that a catalog publishes be exactly those of the streams it has, each stream be
  -- served from one of its available feeds, all of these be open, and no feed be of two
  -- streams. Then Catalog.add of a feed that is open and of no stream yet keeps all of that.
  pub add-IsIndexed : IsNew f c → IsIndexed (add f id c)
  unfolding add
  add-IsIndexed new = elim (Option-cases (get c.streams id)) [
    | inl absent ↦
        rw (absent, add)
          (replaced f id c h (record { available = f ∷ []; current = some f })
            (publish c.stream_ids id true) c.closed (λ i. has-publish c.stream_ids id i true)
            (record {
              feed = f;
              current = refl;
              available = rw (==_refl f) refl;
              open_feeds = λ g a. ground (arith, new.is_open, a);
            })
            (λ i g cs' other' e a. (h.served i cs' e).open_feeds g a)
            (apart new [] (λ g i cs' other' e a. refl)))
    | inr (cs, known) ↦
        rw
          (
            known,
            add,
            more_than_one cs.available (h.served id cs known).feed (h.served id cs known).available,
          )
          (replaced f id c h (record { available = f ∷ cs.available; current = cs.current })
            c.stream_ids c.closed (known_published f id c h cs known)
            (let s = h.served id cs known in
              record {
                feed = s.feed;
                current = s.current;
                available = wider f s.feed cs.available s.available;
                open_feeds = λ g a. elim (Bool-cases (f == g)) [
                  | inl same ↦ ap (has c.closed) (sym ((==_iff f g).0 same)) ∙ new.is_open
                  | inr distinct ↦ s.open_feeds g (sym (rw distinct refl) ∙ a)
                ];
              })
            (λ i g cs' other' e a. (h.served i cs' e).open_feeds g a)
            (apart new cs.available (others_apart cs known)))
  ]

  abbrev without : CatalogStream → List ℕ
  without cs = filter (λ g. not (g == f)) cs.available

  -- The stream goes on with another feed.
  kept :
      (cs : CatalogStream) (current : ℕ)
      → get c.streams id ≡ some cs
      → has cs.available f ≡ true
      → has (without cs) current ≡ true
      → IsIndexed (record {
        streams = set c.streams id (record { available = without cs; current = some current });
        stream_ids = c.stream_ids;
        closed = f ∷ c.closed;
      })
  kept cs current known own a =
      replaced f id c h (record { available = without cs; current = some current }) c.stream_ids
        (f ∷ c.closed) (known_published f id c h cs known)
        (record {
          feed = current;
          current = refl;
          available = a;
          open_feeds = λ g b. stays_open g (sym (has-filter f g cs.available) ∙ b);
        })
        (still_open f id c h cs known own)
        (λ i g cs' other' e b.
          has-filter f g cs.available
          ∙ rw (others_apart cs known g i cs' other' e b) (ground arith))
    where
      stays_open :
          (g : ℕ)
          → (if f == g then false else has cs.available g) ≡ true
          → has (f ∷ c.closed) g ≡ false
      stays_open g b = elim (Bool-cases (f == g)) [
        | inl same ↦ cc (rw same at b)
        | inr distinct ↦ rw distinct ((h.served id cs known).open_feeds g (rw distinct at b))
      ]

  -- The last feed of the stream was removed.
  dropped :
      (cs : CatalogStream)
      → get c.streams id ≡ some cs
      → has cs.available f ≡ true
      → IsIndexed (record {
        streams = delete c.streams id;
        stream_ids = publish c.stream_ids id false;
        closed = f ∷ c.closed;
      })
  dropped cs known own = record {
    published = λ i. has-publish c.stream_ids id i false ∙ shown i;
    served = λ i cs' e.
        let (other', k) = deleted i cs' e in
        let s = h.served i cs' k in
        record {
          feed = s.feed;
          current = s.current;
          available = s.available;
          open_feeds = λ g a. still_open f id c h cs known own i g cs' other' k a;
        };
    separate = λ i j g cs' cs'' e e' a a'.
        h.separate i j g cs' cs'' (deleted i cs' e).1 (deleted j cs'' e').1 a a';
  }
    where
      gone : (i : ℕ) → (id == i) ≡ true → get (delete c.streams id) i ≡ none
      gone i same = get-delete c.streams id i ∙ rw same refl

      left : (i : ℕ) → (id == i) ≡ false → get (delete c.streams id) i ≡ get c.streams i
      left i other' = get-delete c.streams id i ∙ rw other' refl

      shown :
          (i : ℕ)
          → (if id == i then false else has c.stream_ids i) ≡ is_some (get (delete c.streams id) i)
      shown i = elim (Bool-cases (id == i)) [
        | inl same ↦ rw same (sym (ap is_some (gone i same)))
        | inr other' ↦ rw other' (h.published i ∙ sym (ap is_some (left i other')))
      ]

      deleted :
          (i : ℕ) (cs' : CatalogStream)
          → get (delete c.streams id) i ≡ some cs'
          → ((id == i) ≡ false) × (get c.streams i ≡ some cs')
      deleted i cs' e = elim (Bool-cases (id == i)) [
        | inl same ↦ cc (sym (gone i same) ∙ e)
        | inr other' ↦ (other', sym (left i other') ∙ e)
      ]

  any_feed-has : (xs : List ℕ) (next : ℕ) → any_feed xs ≡ some next → has xs next ≡ true
  any_feed-has [] next e = cc
  any_feed-has (x ∷ xs) next e = ground arith

  is_current-some :
      (cs : CatalogStream) (g : ℕ) → cs.current ≡ some g → is_current cs.current f ≡ (g == f)
  is_current-some cs g e = rw e refl

  -- Let the IDs that a catalog publishes be exactly those of the streams it has, each stream be
  -- served from one of its available feeds, all of these be open, and no feed be of two
  -- streams. Then Catalog.remove of an available feed does not panic, closes that feed, and
  -- keeps all of that, whether another feed takes over or the stream leaves the catalog.
  pub remove-IsIndexed :
      (cs : CatalogStream)
      → get c.streams id ≡ some cs
      → has cs.available f ≡ true
      → (c' : Catalog) × (remove f id c ≡ some c') × IsIndexed c' × (has c'.closed f ≡ true)
  unfolding remove
  remove-IsIndexed cs known own =
      let s = h.served id cs known in
      elim (Bool-cases (s.feed == f)) [
        | inr stays ↦ (
          record {
            streams = set c.streams id (record { available = without cs; current = some s.feed });
            stream_ids = c.stream_ids;
            closed = f ∷ c.closed;
          },
          rw (known, remove, is_current-some cs s.feed s.current, stays, s.current) refl,
          kept cs s.feed known own
              (has-filter f s.feed cs.available ∙ rw (flip s.feed f stays) s.available),
          rw (==_refl f) refl,
        )
        | inl goes ↦ go (is_current-some cs s.feed s.current ∙ goes) (any_feed (without cs)) refl
      ]
    where
      flip : (a b : ℕ) → (a == b) ≡ false → (b == a) ≡ false
      flip a b e = ground arith

      go :
          is_current cs.current f ≡ true
          → (o : Option ℕ) → any_feed (without cs) ≡ o
          → (c' : Catalog) × (remove f id c ≡ some c') × IsIndexed c' × (has c'.closed f ≡ true)
      go goes (some next) e = (
        record {
          streams = set c.streams id (record { available = without cs; current = some next });
          stream_ids = c.stream_ids;
          closed = f ∷ c.closed;
        },
        rw (known, remove, goes, e) refl,
        kept cs next known own (any_feed-has (without cs) next e),
        rw (==_refl f) refl,
      )
      go goes none e = (
        record {
          streams = delete c.streams id;
          stream_ids = publish c.stream_ids id false;
          closed = f ∷ c.closed;
        },
        rw (known, remove, goes, e) refl,
        dropped cs known own,
        rw (==_refl f) refl,
      )
