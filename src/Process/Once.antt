-- ===== src/Process/Once.antt =====
-- The effects of a process handler are those of each event once, whatever fails and whoever else consumes the stream.
use runkit.Prelude.{
  ltb, ◌==◌, ==_refl, Bool-cases, u64_mod, inc64, inc64-eq-suc, ℕ, suc, ◌≤◌, ◌<◌, ◌≡◌, refl, sym,
  ap, ◌∙◌, subst, ◌⊎◌, inl, inr, false, not, Option, none, some, List, [], ◌∷◌, ◌++◌, append-nil,
  arith,
}
use runkit.Prelude.Maps.{get, set, get-set}
use runkit.Stream.{Envelope, Ordered, between}
use runkit.Stream.Between.{between-append, between_none}
use runkit.Stream.Next.{first-IsNextEvent, rest-between}
use runkit.Source.{Error}
use runkit.Projection.{Consumed}
use runkit.Process.{Database, Sink, stored, perform, consume, goes_on, consume_segment}

module _ {Effects : Type 0} (sink : Sink Effects) where
  -- The reference: the effects of some events, one after another.
  abbrev pub replay : List Envelope → Effects → Error ⊎ Effects
  replay [] s = inr s
  replay (e ∷ es) s = elim (sink.dispatch e s) [ inl err ↦ inl err | inr s' ↦ replay es s' ]

  replay-snoc :
      (es : List Envelope) (e : Envelope) (s s' s'' : Effects)
      → replay es s ≡ inr s'
      → sink.dispatch e s' ≡ inr s''
      → replay (es ++ e ∷ []) s ≡ inr s''
  replay-snoc [] e s s' s'' h d = let same : s ≡ s' = cc in rw (same, d)
  replay-snoc (x ∷ xs) e s s' s'' h d =
      go (sink.dispatch x s) refl (λ m q. replay-snoc xs e m s' s'' q d)
    where
      go :
          (r : Error ⊎ Effects)
          → sink.dispatch x s ≡ r
          → ((m : Effects) → replay xs m ≡ inr s' → replay (xs ++ e ∷ []) m ≡ inr s'')
          → replay (x ∷ (xs ++ e ∷ [])) s ≡ inr s''
      go (inl err) q ih = cc (sym (rw (q, replay) at h))
      go (inr m) q ih = rw (q, replay) (ih m (rw (q, replay) at h))

  module _ (id lo hi : ℕ) (all : List Envelope) (types : Option (List ℕ)) (o : Ordered lo hi all)
      (start : Effects) where
    -- The effects are those of the requested events below the checkpoint, each once, in order, and no others.
    abbrev pub IsCommitted : Database Effects → Type 0
    IsCommitted db = replay (between types 0 (stored db id) all) start ≡ inr db.effects

    stored-set :
        (db : Database Effects) (n : ℕ) (e : Effects)
        → stored (record { checkpoints = set db.checkpoints id n; effects = e }) id ≡ n
    stored-set db n e = shown (get (set db.checkpoints id n) id) (there n)
      where
        there : (n : ℕ) → get (set db.checkpoints id n) id ≡ some n
        there n = get-set db.checkpoints id n id ∙ rw (==_refl id) refl

        shown : (q : Option ℕ) → q ≡ some n → (elim q as (λ x. ℕ) [ none ↦ 0 | some cp ↦ cp ]) ≡ n
        shown none h = cc
        shown (some m) h = cc

    -- What a transaction would bring about from a checkpoint to an offset, by the history.
    Brings : ℕ → ℕ → Option Envelope → Type 0
    Brings cp next none = (cp ≤ next) × (between types cp next all ≡ [])
    Brings cp next (some env) = (cp ≤ next) × (between types cp next all ≡ env ∷ [])

    replay-Brings :
        (cp next : ℕ) (env : Option Envelope) (s s' : Effects)
        → Brings cp next env
        → replay (between types 0 cp all) start ≡ inr s
        → perform sink env s ≡ inr s'
        → replay (between types 0 next all) start ≡ inr s'
    unfolding Brings
    replay-Brings cp next none s s' (l, b) h p =
        let same : s ≡ s' = cc in
        ap (λ es. replay es start)
          (sym (between-append types 0 cp next lo hi all o (omega arith) l)
            ∙ ap (◌++◌ (between types 0 cp all)) b
            ∙ append-nil (between types 0 cp all))
        ∙ h
        ∙ ap inr same
    replay-Brings cp next (some env) s s' (l, b) h p =
        ap (λ es. replay es start)
          (sym (between-append types 0 cp next lo hi all o (omega arith) l)
            ∙ ap (◌++◌ (between types 0 cp all)) b)
        ∙ replay-snoc (between types 0 cp all) env start s s' h p

    -- A transaction's result: it went on to its offset, or the loop stops.
    Advanced : ℕ → Consumed → Type 0
    Advanced next c = (goes_on sink c ≡ false) ⊎ (c.checkpoint ≡ next)

    consume-IsCommitted :
        (cp next : ℕ) (env : Option Envelope) (db : Database Effects)
        → Brings cp next env
        → IsCommitted (sink.meanwhile next db)
        → IsCommitted (consume sink id cp next env db).0
          × Advanced next (consume sink id cp next env db).1
    unfolding consume Advanced
    consume-IsCommitted cp next env db b x = elim (Bool-cases (sink.unavailable next)) [
      | inl down ↦ rw down (x, inl refl)
      | inr up ↦ elim (Bool-cases (not (stored (sink.meanwhile next db) id == cp))) [
        | inl conflict ↦ rw (up, conflict) (unchanged (sink.meanwhile next db) x, inl refl)
        | inr agreed ↦ go up agreed (perform sink env (sink.meanwhile next db).effects) refl
      ]
    ]
      where
        unchanged :
            (d : Database Effects)
            → IsCommitted d
            → IsCommitted (record d { checkpoints = set d.checkpoints id (stored d id) })
        unchanged d y =
            ap (λ n. replay (between types 0 n all) start) (stored-set d (stored d id) d.effects)
            ∙ y

        reached :
            (d : Database Effects) (s' : Effects)
            → IsCommitted d
            → not (stored d id == cp) ≡ false
            → perform sink env d.effects ≡ inr s'
            → IsCommitted (record { checkpoints = set d.checkpoints id next; effects = s' })
        reached d s' y agreed p =
            ap (λ n. replay (between types 0 n all) start) (stored-set d next s')
            ∙ replay-Brings cp next env d.effects s' b
                (ap (λ n. replay (between types 0 n all) start) (sym (at d agreed)) ∙ y) p
          where
            at : (d : Database Effects) → not (stored d id == cp) ≡ false → stored d id ≡ cp
            at d q = ground arith

        go :
            sink.unavailable next ≡ false
            → not (stored (sink.meanwhile next db) id == cp) ≡ false
            → (r : Error ⊎ Effects) → perform sink env (sink.meanwhile next db).effects ≡ r
            → IsCommitted (consume sink id cp next env db).0
              × Advanced next (consume sink id cp next env db).1
        go up agreed (inl e) p = rw (up, agreed, p, consume) (x, inl refl)
        go up agreed (inr s') p =
            rw (up, agreed, p, consume) (reached (sink.meanwhile next db) s' x agreed p, inr refl)

    module _
        (kept : (n : ℕ) (db : Database Effects)
          → IsCommitted db
          → IsCommitted (sink.meanwhile n db)) where
      -- Let the events of a stream have increasing offsets, and let whatever other consumers
      -- commit meanwhile keep the property that the effects of a process handler are those of
      -- the requested events below its checkpoint, each once, in order, and no others. Let a
      -- segment that ends below 2^64 hold exactly the requested events of its range, and let no
      -- requested event lie between the checkpoint offset of the consumer and the begin of the
      -- segment, which is not below it. Then ConsumeSegment of the process sink keeps the
      -- property, whatever events or transactions fail and whatever conflicts arise, and either
      -- it reports a conflict or an error or the new checkpoint offset is the end of the
      -- segment.
      pub consume_segment-IsCommitted :
          (cp b e : ℕ) (envs : List Envelope) (db : Database Effects)
          → e < u64_mod
          → cp ≤ b
          → b ≤ e
          → between types cp b all ≡ []
          → envs ≡ between types b e all
          → IsCommitted db
          → IsCommitted (consume_segment sink id e cp envs db).0
            × ((goes_on sink (consume_segment sink id e cp envs db).1 ≡ false)
                ⊎ ((consume_segment sink id e cp envs db).1.checkpoint ≡ e))
      unfolding consume_segment Brings Advanced
      consume_segment-IsCommitted cp b e [] db fits l m none' eq x = elim (Bool-cases (ltb cp e)) [
        | inl behind ↦ rw behind (
            consume-IsCommitted cp e none db
              (
                omega (arith, l, m),
                sym (between-append types cp b e lo hi all o l m)
                    ∙ ap (λ es. es ++ between types b e all) none'
                    ∙ sym eq,
              )
              (kept e db x))
        | inr there ↦ rw there (x, inr (ground (arith, there, l, m)))
      ]
      consume_segment-IsCommitted cp b e (env ∷ envs) db fits l m none' eq x =
          let (n, high, low, first) =
            first-IsNextEvent lo hi all types o cp b e env envs l none' eq in
          let w = inc64-eq-suc env.offset e high fits in
          let (x', a) =
            consume-IsCommitted cp (inc64 env.offset) (some env) db
              (subst (λ k. (cp ≤ k) × (between types cp k all ≡ env ∷ [])) (sym w)
                (omega (arith, n.0), n.1))
              (kept (inc64 env.offset) db x) in
          go (not_behind l low) w a x' (λ db' y.
            consume_segment-IsCommitted (suc env.offset) (suc env.offset) e envs db' fits
              (omega arith) (omega (arith, high)) (between_none types (suc env.offset) all)
              (rest-between lo hi all types o b e env envs low high first eq) y)
        where
          not_behind : cp ≤ b → b ≤ env.offset → ltb env.offset cp ≡ false
          not_behind p q = ground (arith, p, q)

          go :
              ltb env.offset cp ≡ false
              → inc64 env.offset ≡ suc env.offset
              → Advanced (inc64 env.offset) (consume sink id cp (inc64 env.offset) (some env) db).1
              → IsCommitted (consume sink id cp (inc64 env.offset) (some env) db).0
              → ((db' : Database Effects)
                  → IsCommitted db'
                  → IsCommitted (consume_segment sink id e (suc env.offset) envs db').0
                    × ((goes_on sink (consume_segment sink id e (suc env.offset) envs db').1
                          ≡ false)
                        ⊎ ((consume_segment sink id e (suc env.offset) envs db').1.checkpoint ≡ e)))
              → IsCommitted (consume_segment sink id e cp (env ∷ envs) db).0
                × ((goes_on sink (consume_segment sink id e cp (env ∷ envs) db).1 ≡ false)
                    ⊎ ((consume_segment sink id e cp (env ∷ envs) db).1.checkpoint ≡ e))
          go q w a x' ih =
              elim (Bool-cases
                (goes_on sink (consume sink id cp (inc64 env.offset) (some env) db).1)) [
                  | inr stops ↦ rw (q, stops, consume_segment) (x', inl stops)
                  | inl on ↦ elim a [
                    | inl stops ↦ cc (sym on ∙ stops)
                    | inr at ↦
                        rw (q, on, consume_segment, at ∙ w)
                          (ih (consume sink id cp (inc64 env.offset) (some env) db).0 x')
                  ]
                ]
