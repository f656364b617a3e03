-- ===== src/Pump/Postponing.antt =====
-- MessagePump.doHandle of internal/messagepump/pump.go, for a delivery that fails and is postponed.
use runkit.Prelude.{if◌then◌else◌, inc64, ℕ, ◌≡◌, ap, ◌∙◌, inl, inr, false, some}
use runkit.Transaction.{failed, busy, other, Statement}
use runkit.Pump.{
  Driver, Delivery, Settings, Outcome, ok, error, compute_backoff, do_handle, postpone_failed,
  postpone_busy, commit,
}

pub do_handle-failed :
    {S E : Type 0} (p : Settings) (d : Driver S E) (delivery : Delivery) (env : E) (draw : ℕ)
    (before s u : S)
    → d.handle delivery env s ≡ (inl failed, u)
    → do_handle p d delivery env draw before s ≡ postpone_failed p d delivery draw before u
unfolding do_handle
do_handle-failed {S} p d delivery env draw before s u h =
    ap
      (λ r. elim (r.0) as (λ _. Outcome (Unit {0}) × S) [
        | inr u ↦ commit p d tt before r.1
        | inl failed ↦ postpone_failed p d delivery draw before r.1
        | inl busy ↦ postpone_busy p d delivery before r.1
        | inl other ↦ (error other, before)
      ])
      h

pub postpone_failed-posted :
    {S E : Type 0} (p : Settings) (d : Driver S E) (delivery : Delivery) (draw delay : ℕ)
    (before s w : S)
    → compute_backoff p (inc64 delivery.failures) draw ≡ some delay
    → d.postpone (record delivery { failures = inc64 delivery.failures }) delay s ≡ (inr tt, w)
    → p.down Statement.commit ≡ false
    → postpone_failed p d delivery draw before s ≡ (ok tt, w)
unfolding postpone_failed
postpone_failed-posted {S} {E} p d delivery draw delay before s w backoff posted up =
    rw (backoff, postpone_failed)
      (ap
          (λ r. elim (r.0) as (λ _. Outcome (Unit {0}) × S) [
            | inl e ↦ (error other, before)
            | inr u ↦ commit p d tt before r.1
          ])
          posted
        ∙ ap (λ b. if b then (error other, before) else (ok tt, w)) up)
