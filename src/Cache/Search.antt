-- ===== src/Cache/Search.antt =====
-- The binary search of `Read` finds the first event at or after a checkpoint.
use runkit.Prelude.{
  ltb, leb, if◌then◌else◌, ltb→lt, leb→le, le→leb, lt→leb, tests, Bool-cases, length, drop, filter,
  ℕ, zero, suc, ◌+◌, ◌-◌, ◌/◌, ◌≤◌, ◌<◌, ◌≡◌, refl, sym, ap, ◌∙◌, inl, inr, Bool, true, false, List,
  [], ◌∷◌, arith,
}
use runkit.Stream.{Envelope, Ordered}
use runkit.Cache.{search_from, search, at_or_after}

-- A test that fails below `m` and holds from `m` on is found at `m`.
search_from-eq :
    (fuel i j m : ℕ) (f : ℕ → Bool)
    → ((h : ℕ) → h < j → f h ≡ leb m h)
    → i ≤ m
    → m ≤ j
    → j - i ≤ fuel
    → search_from fuel i j f ≡ m
unfolding search_from
search_from-eq zero i j m f t l u d = omega arith
search_from-eq (suc fuel) i j m f t l u d = elim (Bool-cases (ltb i j)) [
  | inl more ↦
      let h = (i + j) / 2 in
      let lt : h < j = omega (tests, more) in
      elim (Bool-cases (f h)) [
        | inl yes' ↦
            rw (more, yes', search_from)
              (search_from-eq fuel i h m f (λ k b. t k (omega arith)) l
                (leb→le m h (sym (t h lt) ∙ yes')) (omega (tests, more)))
        | inr no' ↦
            rw (more, no', search_from)
              (search_from-eq fuel (suc h) j m f t (gt m h (sym (t h lt) ∙ no')) u
                (omega (tests, more)))
      ]
  | inr done ↦ rw (done, search_from) (ground (arith, done))
]
  where
    gt : (a b : ℕ) → leb a b ≡ false → suc b ≤ a
    gt a b e = ground arith

pub search-eq :
    (n m : ℕ) (f : ℕ → Bool) → ((h : ℕ) → h < n → f h ≡ leb m h) → m ≤ n → search n f ≡ m
unfolding search
search-eq n m f t u = search_from-eq n 0 n m f t (omega arith) u (omega arith)

-- The number of events before a checkpoint.
abbrev pub count_before : ℕ → List Envelope → ℕ
count_before cp [] = 0
count_before cp (e ∷ es) = if ltb e.offset cp then suc (count_before cp es) else 0

count_before-le : (cp : ℕ) (es : List Envelope) → count_before cp es ≤ length es
count_before-le cp [] = omega arith
count_before-le cp (e ∷ es) = ground (arith, count_before-le cp es)

at_or_after_from :
    (cp lo hi h : ℕ) (es : List Envelope) → Ordered lo hi es → cp ≤ lo → at_or_after cp es h ≡ true
at_or_after_from cp lo hi h [] o l = refl
at_or_after_from cp lo hi zero (e ∷ es) o l = le→leb cp e.offset (omega arith)
at_or_after_from cp lo hi (suc h) (e ∷ es) o l =
    at_or_after_from cp (suc e.offset) hi h es o.1 (omega arith)

at_or_after-eq :
    (cp lo hi h : ℕ) (es : List Envelope)
    → Ordered lo hi es
    → h < length es
    → at_or_after cp es h ≡ leb (count_before cp es) h
at_or_after-eq cp lo hi h [] o l = elim l [ ]
at_or_after-eq cp lo hi zero (e ∷ es) o l = ground arith
at_or_after-eq cp lo hi (suc h) (e ∷ es) o l = elim (Bool-cases (ltb e.offset cp)) [
  | inl e1 ↦
      rw e1 (
        at_or_after-eq cp (suc e.offset) hi h es o.1 (omega arith) ∙ leb-suc (count_before cp es) h)
  | inr e1 ↦ rw e1 (
      at_or_after_from cp (suc e.offset) hi h es o.1 (ground (arith, e1))
      ∙ sym (le→leb 0 (suc h) (omega arith)))
]
  where
    leb-suc : (a b : ℕ) → leb a b ≡ leb (suc a) (suc b)
    leb-suc a b = ground arith

pub search-count_before :
    (cp lo hi : ℕ) (es : List Envelope)
    → Ordered lo hi es
    → search (length es) (at_or_after cp es) ≡ count_before cp es
search-count_before cp lo hi es o =
    search-eq (length es) (count_before cp es) (at_or_after cp es)
      (λ h l. at_or_after-eq cp lo hi h es o l) (count_before-le cp es)

filter_from :
    (cp lo hi : ℕ) (es : List Envelope)
    → Ordered lo hi es
    → cp ≤ lo
    → filter (λ e. leb cp e.offset) es ≡ es
filter_from cp lo hi [] o l = refl
filter_from cp lo hi (e ∷ es) o l =
    rw (le→leb cp e.offset (omega arith))
      (ap (◌∷◌ e) (filter_from cp (suc e.offset) hi es o.1 (omega arith)))

-- So what `Read` starts from is what a scan for the checkpoint keeps.
pub drop-count_before :
    (cp lo hi : ℕ) (es : List Envelope)
    → Ordered lo hi es
    → drop (count_before cp es) es ≡ filter (λ e. leb cp e.offset) es
drop-count_before cp lo hi [] o = refl
drop-count_before cp lo hi (e ∷ es) o = elim (Bool-cases (ltb e.offset cp)) [
  | inl e1 ↦
      rw (e1, lt→leb cp e.offset (ltb→lt e.offset cp e1))
        (drop-count_before cp (suc e.offset) hi es o.1)
  | inr e1 ↦
      rw e1 (sym (filter_from cp e.offset hi (e ∷ es) (omega arith, o.1) (ground (arith, e1))))
]
