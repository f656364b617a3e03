-- ===== src/Catalog/Index.antt =====
-- Catalog.add and Catalog.remove of internal/eventstream/catalog.go: the published IDs are those of the streams
-- that have a feed, and consumers are served from a feed that is open.
use mathlib.Core.Option.{some-injective}
use runkit.Prelude.{
  ◌==◌, if◌then◌else◌, ==_iff, Bool-cases, filter, has, ℕ, ◌≡◌, refl, sym, ap, ◌∙◌, subst, ◌⊎◌, inl,
  inr, Bool, true, false, not, Option, none, some, List, [], ◌∷◌, arith,
}
use runkit.Prelude.Maps.{get, set, get-set}
use runkit.Catalog.{CatalogStream, Catalog, publish}

pub has-filter :
    (f g : ℕ) (xs : List ℕ)
    → has (filter (λ h. not (h == f)) xs) g ≡ (if f == g then false else has xs g)
has-filter f g [] = ground arith
has-filter f g (x ∷ xs) = ground (arith, has-filter f g xs)

has-eq : (xs : List ℕ) (a b : ℕ) → a ≡ b → has xs a ≡ has xs b
has-eq xs a b e = ap (has xs) e

pub has-publish :
    (ids : List ℕ) (id i : ℕ) (present : Bool)
    → has (publish ids id present) i ≡ (if id == i then present else has ids i)
unfolding publish
has-publish ids id i true = elim (Bool-cases (has ids id)) [
  | inl there ↦ rw there (ground (arith, there, has-eq ids id i))
  | inr absent ↦ rw absent (ground arith)
]
has-publish ids id i false = elim (Bool-cases (has ids id)) [
  | inl there ↦ rw there (has-filter id i ids)
  | inr absent ↦ rw absent (ground (arith, absent, has-eq ids id i))
]

-- What is known of a stream in the catalog: it is served from one of its feeds, all of which are open.
pub record IsServed (closed : List ℕ) (cs : CatalogStream) : Type 0 where
  pub feed : ℕ
  pub current : cs.current ≡ some feed
  pub available : has cs.available feed ≡ true
  pub open_feeds : (f : ℕ) → has cs.available f ≡ true → has closed f ≡ false

abbrev pub is_some : Option CatalogStream → Bool
is_some none = false
is_some (some cs) = true

pub record IsIndexed (c : Catalog) : Type 0 where
  pub published : (id : ℕ) → has c.stream_ids id ≡ is_some (get c.streams id)
  pub served : (id : ℕ) (cs : CatalogStream) → get c.streams id ≡ some cs → IsServed c.closed cs
  -- No feed is of two streams.
  pub separate :
      (id id' f : ℕ) (cs cs' : CatalogStream)
      → get c.streams id ≡ some cs
      → get c.streams id' ≡ some cs'
      → has cs.available f ≡ true
      → has cs'.available f ≡ true
      → id ≡ id'

-- An entry of a map after one was set is that one, or was there before.
pub get-set-cases :
    (m : List (ℕ × CatalogStream)) (id : ℕ) (new : CatalogStream) (i : ℕ) (cs : CatalogStream)
    → get (set m id new) i ≡ some cs
    → ((id ≡ i) × (cs ≡ new)) ⊎ (((id == i) ≡ false) × (get m i ≡ some cs))
get-set-cases m id new i cs e = elim (Bool-cases (id == i)) [
  | inl same ↦
      inl ((==_iff id i).0 same, some-injective _ _ (sym e ∙ get-set m id new i ∙ rw same refl))
  | inr other' ↦ inr (other', sym (get-set m id new i ∙ rw other' refl) ∙ e)
]

get-set_same :
    (m : List (ℕ × CatalogStream)) (id : ℕ) (new : CatalogStream) (i : ℕ)
    → (id == i) ≡ true
    → get (set m id new) i ≡ some new
get-set_same m id new i e = get-set m id new i ∙ rw e refl

get-set_other :
    (m : List (ℕ × CatalogStream)) (id : ℕ) (new : CatalogStream) (i : ℕ)
    → (id == i) ≡ false
    → get (set m id new) i ≡ get m i
get-set_other m id new i e = get-set m id new i ∙ rw e refl

module _ (f id : ℕ) (c : Catalog) (h : IsIndexed c) where
  -- A stream that is replaced: the IDs, the other streams and their feeds stay as they are.
  pub replaced :
      (cs : CatalogStream) (ids closed : List ℕ)
      → ((i : ℕ) → has ids i ≡ (if id == i then true else has c.stream_ids i))
      → IsServed closed cs
      → ((i g : ℕ) (cs' : CatalogStream)
          → (id == i) ≡ false
          → get c.streams i ≡ some cs'
          → has cs'.available g ≡ true
          → has closed g ≡ false)
      → ((i g : ℕ) (cs' : CatalogStream)
          → (id == i) ≡ false
          → get c.streams i ≡ some cs'
          → has cs'.available g ≡ true
          → has cs.available g ≡ false)
      → IsIndexed (record { streams = set c.streams id cs; stream_ids = ids; closed = closed })
  replaced cs ids closed published served others apart = record {
    published = λ i. published i ∙ shown i (Bool-cases (id == i));
    served = λ i cs' e. elim (get-set-cases c.streams id cs i cs' e) [
      | inl (_, same) ↦ subst (IsServed closed) (sym same) served
      | inr (other', e') ↦
          let s = h.served i cs' e' in
          record {
            feed = s.feed;
            current = s.current;
            available = s.available;
            open_feeds = λ g a. others i g cs' other' e' a;
          }
    ];
    separate = λ i j g cs' cs'' e e' a a'. elim (get-set-cases c.streams id cs i cs' e) [
      | inl (own, same) ↦ elim (get-set-cases c.streams id cs j cs'' e') [
        | inl (own', _) ↦ sym own ∙ own'
        | inr (other', k) ↦
            cc (sym (apart j g cs'' other' k a') ∙ subst (λ x. has x.available g ≡ true) same a)
      ]
      | inr (other', k) ↦ elim (get-set-cases c.streams id cs j cs'' e') [
        | inl (own, same) ↦
            cc (sym (apart i g cs' other' k a) ∙ subst (λ x. has x.available g ≡ true) same a')
        | inr (_, k') ↦ h.separate i j g cs' cs'' k k' a a'
      ]
    ];
  }
    where
      shown :
          (i : ℕ)
          → ((id == i) ≡ true) ⊎ ((id == i) ≡ false)
          → (if id == i then true else has c.stream_ids i) ≡ is_some (get (set c.streams id cs) i)
      shown i (inl same) = rw same (sym (ap is_some (get-set_same c.streams id cs i same)))
      shown i (inr other') =
          rw other' (h.published i ∙ sym (ap is_some (get-set_other c.streams id cs i other')))

  pub known_published :
      (cs : CatalogStream)
      → get c.streams id ≡ some cs
      → (i : ℕ) → has c.stream_ids i ≡ (if id == i then true else has c.stream_ids i)
  known_published cs e i = elim (Bool-cases (id == i)) [
    | inl same ↦ rw same (
        h.published i
        ∙ ap (λ n. is_some (get c.streams n)) (sym ((==_iff id i).0 same))
        ∙ ap is_some e)
    | inr other' ↦ rw other' refl
  ]

  -- The other streams' feeds stay open when a feed is closed that is not theirs.
  pub still_open :
      (cs : CatalogStream)
      → get c.streams id ≡ some cs
      → has cs.available f ≡ true
      → (i g : ℕ) (cs' : CatalogStream) → (id == i) ≡ false
      → get c.streams i ≡ some cs'
      → has cs'.available g ≡ true
      → has (f ∷ c.closed) g ≡ false
  still_open cs e own i g cs' other' e' a = elim (Bool-cases (f == g)) [
    | inr distinct ↦ rw distinct ((h.served i cs' e').open_feeds g a)
    | inl same ↦
        let a' : has cs'.available f ≡ true = ap (has cs'.available) ((==_iff f g).0 same) ∙ a in
        cc (sym other' ∙ (==_iff id i).1 (h.separate id i f cs cs' e e' own a'))
  ]
