-- ===== src/Stream/Next.antt =====
-- The next requested event of a stream, as a consumer with a checkpoint meets it.
use runkit.Prelude.{
  get_elem?, take, ℕ, suc, ◌≤◌, ◌<◌, ◌≡◌, sym, ap, ◌∙◌, Option, some, List, [], ◌∷◌, ◌++◌, arith,
}
use runkit.Stream.{Envelope, Ordered, between}
use runkit.Stream.Between.{between-append, between-bounds, take-between}

-- The next requested event from a checkpoint on.
abbrev pub IsNextEvent : List Envelope → Option (List ℕ) → ℕ → Envelope → Type 0
IsNextEvent all types cp env =
    (cp ≤ env.offset) × (between types cp (suc env.offset) all ≡ env ∷ [])

module _ (lo hi : ℕ) (all : List Envelope) (types : Option (List ℕ)) (o : Ordered lo hi all) where
  -- The first of the requested events from an offset on, if none lie between the checkpoint and that offset.
  pub first-IsNextEvent :
      (cp b e : ℕ) (env : Envelope) (envs : List Envelope)
      → cp ≤ b
      → between types cp b all ≡ []
      → env ∷ envs ≡ between types b e all
      → IsNextEvent all types cp env
        × (env.offset < e)
        × (b ≤ env.offset)
        × (between types b (suc env.offset) all ≡ env ∷ [])
  first-IsNextEvent cp b e env envs l none' eq =
      let at : get_elem? (between types b e all) 0 ≡ some env =
        ap (λ es. get_elem? es 0) (sym eq) in
      let (low, high) = between-bounds types b e 0 all env at in
      let first : between types b (suc env.offset) all ≡ env ∷ [] =
        sym (take-between types b e lo hi 0 all env o at) ∙ ap (take 1) (sym eq) in
      (
        (
          omega (arith, l, low),
          sym (between-append types cp b (suc env.offset) lo hi all o l (omega (arith, low)))
              ∙ ap (λ es. es ++ between types b (suc env.offset) all) none'
              ∙ first,
        ),
        high,
        low,
        first,
      )

  -- The events after the first requested one.
  pub rest-between :
      (b e : ℕ) (env : Envelope) (envs : List Envelope)
      → b ≤ env.offset
      → env.offset < e
      → between types b (suc env.offset) all ≡ env ∷ []
      → env ∷ envs ≡ between types b e all
      → envs ≡ between types (suc env.offset) e all
  rest-between b e env envs low high first eq =
      let joined =
        ap (λ es. es ++ between types (suc env.offset) e all) (sym first)
        ∙ between-append types b (suc env.offset) e lo hi all o (omega (arith, low))
            (omega (arith, high)) in
      tail-eq (eq ∙ sym joined)
    where
      tail-eq : {x y : Envelope} {xs ys : List Envelope} → x ∷ xs ≡ y ∷ ys → xs ≡ ys
      tail-eq q = cc
