-- ===== src/Catalog/Consuming.antt =====
-- Catalog.Consume of internal/eventstream/catalog.go: a consumer gets the stream contiguously, whichever feeds
-- serve it in turn.
use runkit.Prelude.{
  ◌==◌, ==_iff, Bool-cases, All, ℕ, ◌≡◌, refl, sym, ◌∙◌, subst, inl, inr, Bool, true, false, ◌&&◌,
  Option, none, some, List, [], ◌∷◌,
}
use runkit.Stream.{Covers, Envelope, Ordered}
use runkit.Stream.Cover.{Covers-append}
use runkit.Feed.Consuming.{consume-Covers, IsWatched, IsFaithful}
use runkit.Catalog.{
  consume, is_feed_closed, Round, Ending, Callback, wants, Segment, consume_stream, consume_from,
  Turn, carries,
}

carries-IsWatched :
    (ftypes : Option (List ℕ)) (types : List ℕ)
    → carries ftypes types ≡ true
    → IsWatched ftypes types
carries-IsWatched ftypes [] h t m = cc
carries-IsWatched ftypes (u ∷ us) h t m = elim (Bool-cases (u == t)) [
  | inl same ↦ subst (λ n. wants ftypes n ≡ true) ((==_iff u t).0 same) (both_true _ _ h).0
  | inr other' ↦ carries-IsWatched ftypes us (both_true _ _ h).1 t (sym (rw other' refl) ∙ m)
]
  where
    both_true : (a b : Bool) → (a && b) ≡ true → (a ≡ true) × (b ≡ true)
    both_true true b e = (refl, e)
    both_true false b e = cc

module _ (lo hi id : ℕ) (all : List Envelope) (types : List ℕ) (o : Ordered lo hi all) where
  -- A feed is faithful in every round.
  abbrev pub IsFaithfulTurn : Turn → Type 0
  IsFaithfulTurn t = elim t.feed [
    | none ↦ Unit
    | some (ftypes, rounds) ↦ All (IsFaithful id all ftypes types) rounds
  ]

  abbrev IsCovered : ℕ → List Segment × ℕ × Ending → Type 0
  IsCovered cp d = Covers (some types) id all cp d.0 d.1

  consume_from-IsCovered :
      (ts : List Turn) (cp : ℕ) (fn : Callback)
      → All IsFaithfulTurn ts
      → IsCovered cp (consume_from id types ts cp fn)
  unfolding consume_from
  consume_from-IsCovered [] cp fn h = refl
  consume_from-IsCovered (t ∷ ts) cp fn (f, h) =
      go t.feed refl (λ cp' fn'. consume_from-IsCovered ts cp' fn' h)
    where
      go :
          (feed : Option (Option (List ℕ) × List Round))
          → t.feed ≡ feed
          → ((cp' : ℕ) (fn' : Callback) → IsCovered cp' (consume_from id types ts cp' fn'))
          → IsCovered cp (consume_from id types (t ∷ ts) cp fn)
      go none e ih = rw (e, consume_from) refl
      go (some (ftypes, rounds)) e ih = elim (Bool-cases (carries ftypes types)) [
        | inr unwatched ↦ rw (e, unwatched, consume_from) refl
        | inl watched ↦
            let c =
              consume-Covers lo hi id all ftypes types o (carries-IsWatched ftypes types watched)
                rounds cp fn (rw e at f) in
            elim (Bool-cases (is_feed_closed (consume id types rounds cp fn).2)) [
              | inr stops ↦ rw (e, watched, stops, consume_from) c
              | inl moves ↦ elim (Bool-cases t.canceled_after) [
                | inl canceled' ↦ rw (e, watched, moves, canceled', consume_from) c
                | inr again ↦
                    rw (e, watched, moves, again, consume_from)
                      (Covers-append (some types) id all cp (consume id types rounds cp fn).1 _
                        (consume id types rounds cp fn).0 _ c (ih _ _))
              ]
            ]
      ]

  -- Let the events of a stream have increasing offsets, and let each feed that is current when
  -- Catalog.Consume looks for one be faithful in every round: its cached segment holds exactly
  -- the events of the types it carries in its range, and its source, from whatever offset it is
  -- read, delivers contiguous segments with exactly the requested events of their ranges. Then,
  -- from whatever offset it begins, whichever feeds are closed and replaced meanwhile, and
  -- whatever the callback refuses, Consume delivers contiguous segments from that offset, each
  -- with exactly the requested events of its range, up to the offset at which delivery stopped.
  pub consume_stream-Covers :
      (known : Bool) (ts : List Turn) (begin : ℕ) (fn : Callback)
      → All IsFaithfulTurn ts
      → let d = consume_stream known id types ts begin fn in
        Covers (some types) id all begin d.0 d.1
  unfolding consume_stream
  consume_stream-Covers known ts begin fn h = go types known refl
    where
      go :
          (us : List ℕ) (known : Bool)
          → us ≡ types
          → IsCovered begin (consume_stream known id us ts begin fn)
      go [] known e = refl
      go (u ∷ us) false e = refl
      go (u ∷ us) true e =
          subst (λ vs. IsCovered begin (consume_from id vs ts begin fn)) (sym e)
            (consume_from-IsCovered ts begin fn h)
