-- ===== src/Process/Rows.antt =====
-- loadInstance and saveInstance of internal/process/instancestate.go keep what an ended instance leaves.
use runkit.Prelude.{
  Bool-cases, Option-cases, ℕ, ◌≡◌, refl, sym, ap, ◌∙◌, ◌⊎◌, inl, inr, Bool, true, false, not,
  Option, none, some, arith,
}
use runkit.Transaction.{Failure, failed, other, Outage, load_instance, save_instance}
use runkit.Schema.{Store, ProcessInstance, update}
use runkit.Process.Instance.{Handler, load_root, save_root}
use runkit.Process.Ending.{running, over, IsSettled, IsRunning, rewritten}

running→unended : (o : Option ProcessInstance) → running o ≡ true → over o ≡ false
running→unended none r = refl
running→unended (some i) r = ground (arith, r)

module _ {Root : Type 0} (h : Handler Root) (down : Outage) (key : ℕ) (ended : ℕ → ℕ → Bool) where
  -- How an instance is loaded: the call fails and changes nothing, or the instance has ended, or it is running.
  pub load_root-cases :
      (id : ℕ) (root : Root) (s : Store)
      → IsSettled ended s
      → ((e : Failure) × (load_root h down key id root s ≡ (inl e, s)))
        ⊎ ((load_root h down key id root s ≡ (inr none, s)) × (over (s.processes key id) ≡ true))
        ⊎ ((root' : Root) × (t : Store) × (load_root h down key id root s ≡ (inr (some root'), t))
            × IsRunning ended key id t)
  unfolding load_root
  load_root-cases id root s v = elim (Bool-cases (down load_instance)) [
    | inl out ↦ inl (other, rw out refl)
    | inr up ↦ found (s.processes key id) refl up
  ]
    where
      found :
          (o : Option ProcessInstance)
          → s.processes key id ≡ o
          → down load_instance ≡ false
          → ((e : Failure) × (load_root h down key id root s ≡ (inl e, s)))
            ⊎ ((load_root h down key id root s ≡ (inr none, s))
                × (over (s.processes key id) ≡ true))
            ⊎ ((root' : Root) × (t : Store) × (load_root h down key id root s
                  ≡ (inr (some root'), t))
                × IsRunning ended key id t)
      found none q up = inr (
          inr (
            root,
            record s {
              processes = update s.processes key id (some (record { ended = false; state = none }));
            },
            rw (up, q, load_root) refl,
            rewritten ended key id (record { ended = false; state = none }) s (ap over q) refl v,
          ))
      found (some i) q up = elim (Bool-cases i.ended) [
        | inl e ↦ inr (inl (rw (up, q, e, load_root) refl, ap over q ∙ e))
        | inr e ↦ elim (Option-cases i.state) [
          | inl none' ↦
              inr
                (inr (root, s, rw (up, q, e, none', load_root) refl, (v, ap running q ∙ ap not e)))
          | inr (bytes, some') ↦ elim (Option-cases (h.unmarshal bytes root)) [
            | inl none' ↦ inl (failed, rw (up, q, e, some', none', load_root) refl)
            | inr (root', some'') ↦ inr (
                inr (
                  root',
                  s,
                  rw (up, q, e, some', some'', load_root) refl,
                  (v, ap running q ∙ ap not e),
                ))
          ]
        ]
      ]

  pub save_root-IsRunning :
      (id : ℕ) (root : Root) (s : Store)
      → IsRunning ended key id s
      → IsRunning ended key id (save_root h down key id root s).1
  unfolding save_root
  save_root-IsRunning id root s v = elim (Option-cases (h.marshal root)) [
    | inl none' ↦ rw (none', save_root) v
    | inr (bytes, some') ↦ elim (Bool-cases (down save_instance)) [
      | inl out ↦ rw (some', out, save_root) v
      | inr up ↦ saved bytes (s.processes key id) refl some' up
    ]
  ]
    where
      saved :
          (bytes : ℕ) (o : Option ProcessInstance)
          → s.processes key id ≡ o
          → h.marshal root ≡ some bytes
          → down save_instance ≡ false
          → IsRunning ended key id (save_root h down key id root s).1
      saved bytes none q m up = rw (m, up, q, save_root) v
      saved bytes (some i) q m up =
          rw (m, up, q, save_root)
            (rewritten ended key id (record i { state = some bytes }) s
              (running→unended (s.processes key id) v.1)
              (running→unended (some i) (ap running (sym q) ∙ v.1)) v.0)
