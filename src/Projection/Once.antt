-- ===== src/Projection/Once.antt =====
-- Every event is applied to a projection exactly once, whatever fails and whoever else consumes the stream.
use runkit.Prelude.{
  ◌==◌, ==_iff, Bool-cases, Option-cases, u64_mod, inc64, inc64-eq-suc, ℕ, suc, ◌≤◌, ◌<◌, ◌≡◌, refl,
  sym, ap, ◌∙◌, ◌≢◌, ◌⊎◌, inl, inr, not, Option, none, List, [], ◌∷◌, ◌++◌, arith,
}
use runkit.Stream.{Covers, Envelope, Ordered, between}
use runkit.Stream.Cover.{Covers-le}
use runkit.Stream.Next.{IsNextEvent, first-IsNextEvent, rest-between}
use runkit.Stream.Between.{between-append, between_none}
use runkit.Projection.{
  Segment, Handled, next, error, Handler, Surroundings, Consumed, dispatch, consume_segment,
  callback_error, consume_all,
}

-- What the documentation of Dogma asks of a handler: it applies an event and stores the offset after it in one step,
-- if the scope's checkpoint offset is the one that it has stored, and otherwise changes nothing. `applied` and
-- `stored` read both from its state.
pub record IsTransactional {State : Type 0} (h : Handler State) (applied : State → List Envelope)
    (stored : State → ℕ) : Type 0 where
  pub handles :
      (offset cp : ℕ) (env : Envelope) (s : State)
      → ((stored s ≡ cp)
          × (applied (h.handle offset cp env s).0 ≡ applied s ++ env ∷ [])
          × (stored (h.handle offset cp env s).0 ≡ inc64 offset))
        ⊎ ((applied (h.handle offset cp env s).0 ≡ applied s)
            × (stored (h.handle offset cp env s).0 ≡ stored s))

module _ {State : Type 0} (h : Handler State) (around : Surroundings State)
    (applied : State → List Envelope) (stored : State → ℕ)
    (transactional : IsTransactional h applied stored) (lo hi : ℕ) (all : List Envelope)
    (types : Option (List ℕ)) (o : Ordered lo hi all) where
  -- The requested events below the stored offset were applied, each once, in order, and no others.
  abbrev pub IsExact : State → Type 0
  IsExact s = applied s ≡ between types 0 (stored s) all

  handle-IsExact :
      (cp end : ℕ) (env : Envelope) (s : State)
      → env.offset < end
      → end < u64_mod
      → IsNextEvent all types cp env
      → IsExact s
      → IsExact (h.handle env.offset cp env s).0
  handle-IsExact cp end env s below fits (l, n) x =
      elim (transactional.handles env.offset cp env s) [
        | inr (a, k) ↦ a ∙ x ∙ ap (λ m. between types 0 m all) (sym k)
        | inl (at, a, k) ↦
            a
            ∙ ap (λ es. es ++ env ∷ []) (x ∙ ap (λ m. between types 0 m all) at)
            ∙ ap (◌++◌ (between types 0 cp all)) (sym n)
            ∙ between-append types 0 cp (suc env.offset) lo hi all o (omega arith)
                (omega (arith, l))
            ∙ ap (λ m. between types 0 m all) (sym (k ∙ inc64-eq-suc env.offset end below fits))
      ]

  dispatch-IsExact :
      (cp end : ℕ) (env : Envelope) (s : State)
      → env.offset < end
      → end < u64_mod
      → IsNextEvent all types cp env
      → IsExact s
      → IsExact (dispatch h around env.offset cp env s).0
  unfolding dispatch
  dispatch-IsExact cp end env s below fits n x = elim (Bool-cases (not (around.unpacks env))) [
    | inl broken ↦ rw broken x
    | inr sound ↦ elim (Option-cases (around.acquire env)) [
      | inr (e, busy) ↦ rw (sound, busy) x
      | inl free ↦ rw (sound, free) (handle-IsExact cp end env s below fits n x)
    ]
  ]

  -- What is known after a segment was handed over: the next one may follow, or the callback fails.
  abbrev Follows : ℕ → Consumed → Type 0
  Follows e c =
      (callback_error h around c ≢ none)
      ⊎ ((c.checkpoint ≤ e) × (between types c.checkpoint e all ≡ []))

  module _
      (kept : (env : Envelope) (s : State) → IsExact s → IsExact (around.meanwhile env s)) where
    pub consume_segment-IsExact :
        (cp b e : ℕ) (envs : List Envelope) (s : State)
        → e < u64_mod
        → cp ≤ b
        → b ≤ e
        → between types cp b all ≡ []
        → envs ≡ between types b e all
        → IsExact s
        → IsExact (consume_segment h around cp envs s).0
          × Follows e (consume_segment h around cp envs s).1
    unfolding consume_segment
    consume_segment-IsExact cp b e [] s fits l m none' eq x = (
      x,
      inr (
        omega (arith, l, m),
        sym (between-append types cp b e lo hi all o l m)
            ∙ ap (λ es. es ++ between types b e all) none'
            ∙ sym eq,
      ),
    )
    consume_segment-IsExact cp b e (env ∷ envs) s fits l m none' eq x =
        let (n, high, low, first) =
          first-IsNextEvent lo hi all types o cp b e env envs l none' eq in
        go (dispatch h around env.offset cp env (around.meanwhile env s)).1 refl
          (dispatch-IsExact cp e env (around.meanwhile env s) high fits n (kept env s x))
          (λ s' x'.
            consume_segment-IsExact (suc env.offset) (suc env.offset) e envs s' fits (omega arith)
              (omega (arith, high)) (between_none types (suc env.offset) all)
              (rest-between lo hi all types o b e env envs low high first eq) x')
          (inc64-eq-suc env.offset e high fits)
      where
        go :
            (r : Handled)
            → (dispatch h around env.offset cp env (around.meanwhile env s)).1 ≡ r
            → IsExact (dispatch h around env.offset cp env (around.meanwhile env s)).0
            → ((s' : State)
                → IsExact s'
                → IsExact (consume_segment h around (suc env.offset) envs s').0
                  × Follows e (consume_segment h around (suc env.offset) envs s').1)
            → inc64 env.offset ≡ suc env.offset
            → IsExact (consume_segment h around cp (env ∷ envs) s).0
              × Follows e (consume_segment h around cp (env ∷ envs) s).1
        go (error err) q x' ih w = rw (q, consume_segment) (x', inl (λ r. cc))
        go (next k) q x' ih w = elim (Bool-cases (k == inc64 env.offset)) [
          | inr conflict ↦ rw (q, conflict, consume_segment) (x', inl (λ r. cc))
          | inl accepted' ↦
              rw (q, accepted', consume_segment, (==_iff k (inc64 env.offset)).0 accepted', w)
                (ih _ x')
        ]

    -- Let the handler of a projection apply an event and store the offset after it in one step
    -- if the checkpoint offset it is given is the one that it has stored, and otherwise change
    -- neither. Let the events of a stream have increasing offsets, and let whatever other
    -- consumers do to the projection meanwhile keep the property that the requested events
    -- below the stored offset were applied, each once, in order, and no others. Let contiguous
    -- segments from an offset to an end below 2^64, with exactly the requested events of their
    -- ranges, be handed to the callback of the stream consumer one after another, with a
    -- checkpoint offset from which on no requested event lies before the first segment. Then
    -- the property is kept, whatever event can not be unmarshaled, locked for or handled, and
    -- whatever conflicts arise.
    pub consume_all-IsExact :
        (id cp b e : ℕ) (segs : List Segment) (s : State)
        → e < u64_mod
        → cp ≤ b
        → between types cp b all ≡ []
        → Covers types id all b segs e
        → IsExact s
        → IsExact (consume_all h around cp segs s).0
    unfolding consume_all
    consume_all-IsExact id cp b e [] s fits l none' c x = x
    consume_all-IsExact id cp b e (seg ∷ segs) s fits l none' (own, begins, grows, holds, rest) x =
        let below = Covers-le types id all seg.end e segs rest in
        let (x', f) =
          consume_segment-IsExact cp seg.begin seg.end seg.envelopes s (omega (arith, below, fits))
            (omega (arith, l, begins)) grows (ap (λ n. between types cp n all) begins ∙ none') holds
            x in
        elim (Option-cases
          (callback_error h around (consume_segment h around cp seg.envelopes s).1)) [
            | inr (err, refusal) ↦ rw (refusal, consume_all) x'
            | inl agreed ↦ elim f [
              | inl refused ↦ absurd (refused agreed)
              | inr (l', none'') ↦
                  rw (agreed, consume_all)
                    (consume_all-IsExact id
                      (consume_segment h around cp seg.envelopes s).1.checkpoint seg.end e segs
                      (consume_segment h around cp seg.envelopes s).0 fits l' none'' rest x')
            ]
          ]
