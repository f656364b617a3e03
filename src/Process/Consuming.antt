-- ===== src/Process/Consuming.antt =====
-- Sink.consume of internal/process/sink.go, with dispatch in its transaction, keeps what an ended instance leaves.
use runkit.Prelude.{
  ◌==◌, Bool-cases, ℕ, ◌≡◌, refl, subst, ◌⊎◌, inl, inr, Bool, true, false, Option, none, some,
}
use runkit.Transaction.{Failure, Settles}
use runkit.Stream.{Envelope}
use runkit.Source.{Error}
use runkit.Source
use runkit.Schema.{Store}
use runkit.Process.{Database, consume, perform, stored}
use runkit.Process.Dispatching.{Receiver, dispatch, sink}
use runkit.Process.Ending.{IsSettled}
use runkit.Process.Owning.{AreOwned}
use runkit.Process.Ended.{dispatch-IsSettled}

module _ {Root : Type 0} (p : Receiver Root) (ended : ℕ → ℕ → Bool) where
  -- What the sink of the handler makes of an event.
  dispatched :
      (unavailable : ℕ → Bool) (meanwhile : ℕ → Database Store → Database Store)
      (env : Option Envelope) (s t : Store)
      → AreOwned p
      → IsSettled ended s
      → perform (sink p unavailable meanwhile) env s ≡ inr t
      → IsSettled ended t
  unfolding sink
  dispatched unavailable meanwhile none s t owned v q = subst (IsSettled ended) (inr_inj q) v
    where
      inr_inj : {e t : Store} → ◌≡◌ {A = Error ⊎ Store} (inr e) (inr t) → e ≡ t
      inr_inj r = cc
  dispatched unavailable meanwhile (some env) s t owned v q =
      given (dispatch p env.body s) (dispatch-IsSettled p ended env.body s owned v) q
    where
      given :
          (r : (Failure ⊎ Unit {0}) × Store)
          → Settles (IsSettled ended) r
          → ◌≡◌ {A = Error ⊎ Store}
              (elim (r.0) [ inl e ↦ inl (Source.failed 1) | inr u ↦ inr r.1 ])
              (inr t)
          → IsSettled ended t
      given (inl e, t') (inl f) c = cc
      given (inl e, t') (inr w) c = cc
      given (inr u, t') (inl f) c = cc
      given (inr u, t') (inr w) c = subst (IsSettled ended) (cc) w

  -- Let the packer name the handler and the instance of a scope as the source of its deadlines,
  -- and let what other consumers commit keep tables settled for a set of instances: each
  -- deadline is one of an instance that exists and has not ended, an instance that has ended
  -- has no state, and the instances of the set have ended. Then Sink.consume of a process
  -- handler, with what dispatch does in its transaction, keeps the tables settled, whatever the
  -- event, whatever the handler does, and whichever statement fails.
  pub consume-IsSettled :
      (unavailable : ℕ → Bool) (meanwhile : ℕ → Database Store → Database Store) (id cp next : ℕ)
      (env : Option Envelope) (before : Database Store)
      → AreOwned p
      → ((n : ℕ) (db : Database Store)
          → IsSettled ended db.effects
          → IsSettled ended (meanwhile n db).effects)
      → IsSettled ended before.effects
      → IsSettled ended (consume (sink p unavailable meanwhile) id cp next env before).0.effects
  unfolding consume sink
  consume-IsSettled unavailable meanwhile id cp next env before owned others v =
      elim (Bool-cases (unavailable next)) [
        | inl out ↦ rw (out, consume) (others next before v)
        | inr up ↦ available up
      ]
    where
      db : Database Store
      db = meanwhile next before

      performed :
          (o : Error ⊎ Store)
          → perform (sink p unavailable meanwhile) env db.effects ≡ o
          → unavailable next ≡ false
          → (stored db id == cp) ≡ true
          → IsSettled ended (consume (sink p unavailable meanwhile) id cp next env before).0.effects
      performed (inl e) q up same = rw (up, same, q, consume) (others next before v)
      performed (inr t) q up same =
          rw (up, same, q, consume)
            (dispatched unavailable meanwhile env db.effects t owned (others next before v) q)

      available :
          unavailable next ≡ false
          → IsSettled ended (consume (sink p unavailable meanwhile) id cp next env before).0.effects
      available up = elim (Bool-cases (stored db id == cp)) [
        | inl same ↦ performed (perform (sink p unavailable meanwhile) env db.effects) refl up same
        | inr moved ↦ rw (up, moved, consume) (others next before v)
      ]
