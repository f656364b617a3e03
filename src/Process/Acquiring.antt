-- ===== src/Process/Acquiring.antt =====
-- The deadlines that the pump of internal/process/deadlinepump.go acquires.
use runkit.Prelude.{
  leb, ◌==◌, if◌then◌else◌, Bool-cases, filter, All, has, ℕ, ◌≡◌, refl, sym, ap, ◌∙◌, subst, ◌≢◌,
  ◌⊎◌, inl, inr, Bool, true, false, not, ◌&&◌, Option, none, some, List, [], ◌∷◌, arith,
}
use runkit.Pump.{Delivery}
use runkit.Process.Rows.{load_root-cases}
use runkit.Transaction.{other, acquire, Failure}
use runkit.Schema.{ProcessInstance, Store, Deadline}
use runkit.Process.Dispatching.{Receiver}
use runkit.Process.Deadlines.{has_instance, acquire_delivery, earliest}
use runkit.Process.Ending.{over, running, IsSettled}
use runkit.Process.Instance.{load_root}

module _ {Root : Type 0} (p : Receiver Root) (ended : ℕ → ℕ → Bool) where
  abbrev Holds : (Deadline → Type 0) → Option Deadline → Type 0
  Holds P none = Unit
  Holds P (some d) = P d

  -- What holds of each deadline holds of the earliest one.
  earliest-All : (P : Deadline → Type 0) (ds : List Deadline) → All P ds → Holds P (earliest ds)
  earliest-All P [] a = tt
  earliest-All P (c ∷ cs) a = first (earliest cs) (earliest-All P cs a.1)
    where
      first :
          (o : Option Deadline)
          → Holds P o
          → Holds P (elim o as (λ _. Option Deadline) [
            | none ↦ some c
            | some d ↦ some (if leb c.deliver_at d.deliver_at then c else d)
          ])
      first none h = a.0
      first (some d) h = elim (Bool-cases (leb c.deliver_at d.deliver_at)) [
        | inl e ↦ rw e a.0
        | inr e ↦ rw e h
      ]

  -- The envelope of a deadline, if it can be read, names the instance that its row names.
  abbrev pub IsAddressed : (ℕ → Option ℕ) → (ℕ → ℕ) → Deadline → Type 0
  IsAddressed parse instance_id d =
      (env : ℕ) → parse d.envelope ≡ some env → instance_id env ≡ d.instance_id

  -- What the acquired deadlines are.
  abbrev IsDue : (ℕ → Option ℕ) → (ℕ → ℕ) → Store → Deadline → Type 0
  IsDue parse instance_id s d =
      (running (s.processes p.key d.instance_id) ≡ true) × IsAddressed parse instance_id d

  candidates :
      (parse : ℕ → Option ℕ) (instance_id : ℕ → ℕ) (test : Deadline → Bool) (s : Store)
      (ds : List Deadline)
      → ((d : Deadline) → test d ≡ true → d.handler_key ≡ p.key)
      → All (λ (d : Deadline). running (s.processes d.handler_key d.instance_id) ≡ true) ds
      → All (IsAddressed parse instance_id) ds
      → All (IsDue parse instance_id s) (filter test ds)
  candidates parse instance_id test s [] own a b = tt
  candidates parse instance_id test s (d ∷ ds) own a b = elim (Bool-cases (test d)) [
    | inl e ↦ rw e (
      (subst (λ k. running (s.processes k d.instance_id) ≡ true) (own d e) a.0, b.0),
      candidates parse instance_id test s ds own a.1 b.1,
    )
    | inr e ↦ rw e (candidates parse instance_id test s ds own a.1 b.1)
  ]

  -- A running instance is never loaded as one that has ended.
  loads :
      (id : ℕ) (root : Root) (s : Store)
      → IsSettled ended s
      → running (s.processes p.key id) ≡ true
      → (load_root p.handler p.down p.key id root s).0 ≢ inr none
  loads id root s v r = elim (load_root-cases p.handler p.down p.key ended id root s v) [
    | inl (e, q) ↦ λ n. failed' e q n
    | inr (inl (q, o)) ↦ λ n. ended' (s.processes p.key id) r o
    | inr (inr (root', t, q, w)) ↦ λ n. started root' t q n
  ]
    where
      failed' :
          (e : Failure)
          → load_root p.handler p.down p.key id root s ≡ (inl e, s)
          → (load_root p.handler p.down p.key id root s).0 ≡ inr none
          → ⊥
      failed' e q n = cc

      ended' : (o : Option ProcessInstance) → running o ≡ true → over o ≡ true → ⊥
      ended' none r o = cc
      ended' (some i) r o = ground (arith, r, o)

      started :
          (root' : Root) (t : Store)
          → load_root p.handler p.down p.key id root s ≡ (inr (some root'), t)
          → (load_root p.handler p.down p.key id root s).0 ≡ inr none
          → ⊥
      started root' t q n = cc

  -- Let the tables be settled, so that each deadline is one of an instance that exists and has
  -- not ended, and let the envelope of each deadline, if it can be read, name the instance that
  -- its row names. If the deadline pump acquires a delivery whose envelope can be read, then
  -- loadInstance for the instance that the envelope names does not find that it has ended.
  pub acquire_delivery-unended :
      (time : ℕ) (locked : Deadline → Bool) (types : List ℕ) (parse : ℕ → Option ℕ)
      (instance_id : ℕ → ℕ) (s t : Store) (d : Delivery) (env : ℕ) (root : Root)
      → IsSettled ended s
      → All (IsAddressed parse instance_id) s.deadlines
      → acquire_delivery p time locked types s ≡ (inr (some d), t)
      → parse d.envelope ≡ some env
      → (load_root p.handler p.down p.key (instance_id env) root t).0 ≢ inr none
  unfolding acquire_delivery
  acquire_delivery-unended time locked types parse instance_id s t d env root v addressed q e =
      elim (Bool-cases (p.down acquire)) [
        | inl out ↦ out_of out
        | inr up ↦
            found (earliest (filter test s.deadlines))
              (earliest-All (IsDue parse instance_id s) (filter test s.deadlines)
                (candidates parse instance_id test s s.deadlines own v.pending addressed))
              (sym (if_false up) ∙ q)
      ]
    where
      test : Deadline → Bool
      test d =
          d.handler_key == p.key
          && (leb d.deliver_at time
              && (has types d.type_id && (has_instance s d && not (locked d))))

      own : (d : Deadline) → test d ≡ true → d.handler_key ≡ p.key
      own d x = ground (arith, x)

      delivered : Deadline → Delivery
      delivered c = record {
        message_id = c.message_id;
        type_id = c.type_id;
        envelope = c.envelope;
        failures = c.failures;
      }

      acquired : Option Deadline → (Failure ⊎ Option Delivery) × Store
      acquired o = elim o [ none ↦ (inr none, s) | some c ↦ (inr (some (delivered c)), s) ]

      if_false :
          p.down acquire ≡ false
          → acquire_delivery p time locked types s ≡ acquired (earliest (filter test s.deadlines))
      if_false up = rw (up, acquire_delivery) refl

      out_of :
          p.down acquire ≡ true
          → (load_root p.handler p.down p.key (instance_id env) root t).0 ≢ inr none
      out_of out = impossible (other) (sym stopped ∙ q)
        where
          stopped : acquire_delivery p time locked types s ≡ (inl other, s)
          stopped = rw (out, acquire_delivery) refl

          impossible :
              (f : Failure)
              → ◌≡◌ {A = (Failure ⊎ Option Delivery) × Store} (inl f, s) (inr (some d), t)
              → (load_root p.handler p.down p.key (instance_id env) root t).0 ≢ inr none
          impossible f c = cc

      found :
          (o : Option Deadline)
          → Holds (IsDue parse instance_id s) o
          → acquired o ≡ (inr (some d), t)
          → (load_root p.handler p.down p.key (instance_id env) root t).0 ≢ inr none
      found none h c = cc
      found (some c) h r =
          subst (λ u. (load_root p.handler p.down p.key (instance_id env) root u).0 ≢ inr none) same
            (loads (instance_id env) root s v (rw (h.1 env read) h.0))
        where
          same : s ≡ t
          same = cc

          read : parse c.envelope ≡ some env
          read = ap parse envelope ∙ e
            where
              got : delivered c ≡ d
              got = cc

              envelope : c.envelope ≡ d.envelope
              envelope = ap (λ (x : Delivery). x.envelope) got
