-- ===== src/Pump/Keeping.antt =====
-- internal/messagepump/pump.go: what every driver's calls keep is kept by the pump, whatever fails.
use runkit.Prelude.{
  Bool-cases, inc64, ℕ, ◌≡◌, refl, ◌⊎◌, inl, inr, Option, none, some, List, [], ◌∷◌, arith,
}
use runkit.Transaction.{Failure, other, Statement, Settles}
use runkit.Pump.{
  Delivery, Driver, Settings, Outcome, ok, error, panics, unfinished, compute_backoff,
  acquire_delivery, commit, postpone_failed, postpone_busy, do_handle, acquire_task, deliver,
}

-- What a driver's calls keep.
pub record Keeps {S E : Type 0} (d : Driver S E) (P : S → Type 0) : Type 0 where
  pub acquires : (s : S) → P s → P (d.acquire s).1
  pub postpones :
      (delivery : Delivery) (delay : ℕ) (s : S) → P s → P (d.postpone delivery delay s).1
  pub handles : (delivery : Delivery) (env : E) (s : S) → P s → Settles P (d.handle delivery env s)

module _ {S E : Type 0} (p : Settings) (d : Driver S E) (P : S → Type 0) (keeps : Keeps d P) where
  commit-keeps : {A : Type 0} (a : A) (before s : S) → P before → P s → P (commit p d a before s).1
  commit-keeps a before s b h = elim (Bool-cases (p.down Statement.commit)) [
    | inl down ↦ rw down b
    | inr up ↦ rw up h
  ]

  postpone_failed-keeps :
      (delivery : Delivery) (draw : ℕ) (before s : S)
      → P before
      → P s
      → P (postpone_failed p d delivery draw before s).1
  unfolding postpone_failed
  postpone_failed-keeps delivery draw before s b h =
      go (compute_backoff p (inc64 delivery.failures) draw)
    where
      ended :
          (delay : ℕ) (r : Failure ⊎ Unit {0})
          → P
              (elim r as (λ _. Outcome (Unit {0}) × S) [
                | inl e ↦ (error other, before)
                | inr u ↦
                    commit p d tt before
                      (d.postpone
                        (record delivery { failures = inc64 delivery.failures })
                        delay
                        s).1
              ]).1
      ended delay (inl e) = b
      ended delay (inr u) =
          commit-keeps tt before _ b
            (keeps.postpones (record delivery { failures = inc64 delivery.failures }) delay s h)

      go :
          (o : Option ℕ)
          → P
              (elim o as (λ _. Outcome (Unit {0}) × S) [
                | none ↦ (panics, before)
                | some delay ↦
                    elim ((d.postpone
                        (record delivery { failures = inc64 delivery.failures })
                        delay
                        s).0)
                      as (λ _. Outcome (Unit {0}) × S) [
                        | inl e ↦ (error other, before)
                        | inr u ↦
                            commit p d tt before
                              (d.postpone
                                (record delivery { failures = inc64 delivery.failures })
                                delay
                                s).1
                      ]
              ]).1
      go none = b
      go (some delay) =
          ended delay
            (d.postpone (record delivery { failures = inc64 delivery.failures }) delay s).0

  postpone_busy-keeps :
      (delivery : Delivery) (before s : S)
      → P before
      → P s
      → P (postpone_busy p d delivery before s).1
  unfolding postpone_busy
  postpone_busy-keeps delivery before s b h =
      ground (arith, keeps.postpones delivery p.backoff_base s h)

  do_handle-keeps :
      (delivery : Delivery) (env : E) (draw : ℕ) (before s : S)
      → P before
      → P s
      → P (do_handle p d delivery env draw before s).1
  unfolding do_handle
  do_handle-keeps delivery env draw before s b h = elim (keeps.handles delivery env s h) [
    | inl rolled_back ↦ rw (rolled_back, do_handle) b
    | inr handled ↦ ground (
      arith,
      handled,
      postpone_failed-keeps delivery draw before (d.handle delivery env s).1 b handled,
      postpone_busy-keeps delivery before (d.handle delivery env s).1 b handled,
    )
  ]

  -- What a transaction that has acquired something sees.
  abbrev Seen : Outcome (Option (Delivery × S)) → Type 0
  Seen (ok (some (delivery, s))) = P s
  Seen (ok none) = Unit
  Seen (error e) = Unit
  Seen panics = Unit
  Seen unfinished = Unit

  acquire_delivery-keeps : (s : S) → P s → Seen (acquire_delivery p d s)
  unfolding acquire_delivery
  acquire_delivery-keeps s h = ground (arith, keeps.acquires s h)

  abbrev SeenTask : Outcome (Option (Delivery × E × S)) → Type 0
  SeenTask (ok (some (delivery, env, s))) = P s
  SeenTask (ok none) = Unit
  SeenTask (error e) = Unit
  SeenTask panics = Unit
  SeenTask unfinished = Unit

  acquire_task-keeps :
      (parse : ℕ → Option E) (draws : List ℕ) (s : S)
      → P s
      → P (acquire_task p d parse draws s).1 × SeenTask (acquire_task p d parse draws s).0
  unfolding acquire_task
  acquire_task-keeps parse [] s h = (h, tt)
  acquire_task-keeps parse (draw ∷ draws) s h =
      acquired (acquire_delivery p d s) (acquire_delivery-keeps s h) refl
        (acquire_task-keeps parse draws)
    where
      acquired :
          (o : Outcome (Option (Delivery × S)))
          → Seen o
          → acquire_delivery p d s ≡ o
          → ((s : S)
              → P s
              → P (acquire_task p d parse draws s).1 × SeenTask (acquire_task p d parse draws s).0)
          → P (acquire_task p d parse (draw ∷ draws) s).1
            × SeenTask (acquire_task p d parse (draw ∷ draws) s).0
      acquired (error e) seen q again = rw (q, acquire_task) (h, tt)
      acquired panics seen q again = rw (q, acquire_task) (h, tt)
      acquired unfinished seen q again = rw (q, acquire_task) (h, tt)
      acquired (ok none) seen q again = rw (q, acquire_task) (h, tt)
      acquired (ok (some (delivery, tx))) seen q again =
          rw (q, acquire_task)
            (ground (
              arith,
              seen,
              h,
              postpone_failed-keeps delivery draw s tx h seen,
              again (postpone_failed p d delivery draw s tx).1
                  (postpone_failed-keeps delivery draw s tx h seen),
            ))

  pub deliver-keeps :
      (parse : ℕ → Option E) (draws : List ℕ) (draw : ℕ) (s : S)
      → P s
      → P (deliver p d parse draws draw s).1
  unfolding deliver
  deliver-keeps parse draws draw s h =
      let (h', seen) = acquire_task-keeps parse draws s h in
      task (acquire_task p d parse draws s).0 h' seen refl
    where
      task :
          (o : Outcome (Option (Delivery × E × S)))
          → P (acquire_task p d parse draws s).1
          → SeenTask o
          → (acquire_task p d parse draws s).0 ≡ o
          → P (deliver p d parse draws draw s).1
      task (error e) h' seen q = rw (q, deliver) h'
      task panics h' seen q = rw (q, deliver) h'
      task unfinished h' seen q = rw (q, deliver) h'
      task (ok none) h' seen q = rw (q, deliver) h'
      task (ok (some (delivery, env, tx))) h' seen q =
          rw (q, deliver)
            (ground (
              arith,
              do_handle-keeps delivery env draw (acquire_task p d parse draws s).1 tx h' seen,
            ))
