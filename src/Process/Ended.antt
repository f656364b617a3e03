-- ===== src/Process/Ended.antt =====
-- Sink.dispatch of internal/process/sink.go: what an ended instance leaves is kept.
use runkit.Prelude.{
  ◌==◌, if◌then◌else◌, Bool-cases, Option-cases, All, ℕ, ◌≡◌, refl, sym, subst, ◌⊎◌, inl, inr, Bool,
  Option, none, some, arith,
}
use runkit.Transaction.{Failure, Action, Settles, pure, ◌>>=◌, >>=-Settles, >>=-at}
use runkit.Schema.{Store}
use runkit.Process.Scope.{MessageScope}
use runkit.Process.Instance.{
  new_root, load_root, save_root, end_root, persist_deadlines, add_commands_to_queue,
}
use runkit.Process.Dispatching.{
  Receiver, keep_instance, apply_effects, call_handler, handle_event, dispatch_to,
  route_event_to_instance, dispatch,
}
use runkit.Process.Ending.{IsSettled, IsRunning}
use runkit.Process.Effects.{
  IsOwn, add_commands_to_queue-IsRunning, persist_deadlines-IsRunning, end_root-IsSettled,
}
use runkit.Process.Rows.{load_root-cases, save_root-IsRunning}
use runkit.Process.Owning.{AreOwned, call_handler-IsOwn}

module _ {Root : Type 0} (p : Receiver Root) (ended : ℕ → ℕ → Bool) where
  -- The state of a scope is written if it has been changed.
  pub saved-IsRunning :
      (id : ℕ) (scope : MessageScope Root) (s : Store)
      → IsRunning ended p.key id s
      → IsRunning ended p.key id
          ((if scope.mutated then save_root p.handler p.down p.key id scope.root else pure tt) s).1
  saved-IsRunning id scope s v = elim (Bool-cases scope.mutated) [
    | inl m ↦ rw m (save_root-IsRunning p.handler p.down p.key ended id scope.root s v)
    | inr m ↦ rw m v
  ]

  keep_instance-IsSettled :
      (id : ℕ) (scope : MessageScope Root) (s : Store)
      → All (IsOwn p.key id) scope.deadlines
      → IsRunning ended p.key id s
      → Settles (IsSettled ended) (keep_instance p id scope s)
  unfolding keep_instance
  keep_instance-IsSettled id scope s own v =
      >>=-Settles (IsRunning ended p.key id) (IsSettled ended)
        (if scope.mutated then save_root p.handler p.down p.key id scope.root else pure tt)
        (λ _. persist_deadlines p.down scope.deadlines) s (λ t r. r.0)
        (inr (saved-IsRunning id scope s v))
        (λ u t q r.
          inr
            (persist_deadlines-IsRunning p.handler p.down p.key ended id scope.deadlines t own r).0)

  apply_effects-IsSettled :
      (id : ℕ) (scope : MessageScope Root) (s : Store)
      → All (IsOwn p.key id) scope.deadlines
      → IsRunning ended p.key id s
      → Settles (IsSettled ended) (apply_effects p id scope s)
  unfolding apply_effects keep_instance
  apply_effects-IsSettled id scope s own v =
      >>=-Settles (IsRunning ended p.key id) (IsSettled ended)
        (add_commands_to_queue p.down p.now scope.commands)
        (λ _. if scope.ended then end_root p.handler p.down p.key id else keep_instance p id scope)
        s (λ t r. r.0)
        (inr (
          add_commands_to_queue-IsRunning p.handler p.down p.key ended p.now id scope.commands s v))
        (λ u t q r. queued t r)
    where
      queued :
          (t : Store)
          → IsRunning ended p.key id t
          → Settles (IsSettled ended) (
              (if scope.ended then end_root p.handler p.down p.key id else keep_instance p id scope)
                t)
      queued t r = elim (Bool-cases scope.ended) [
        | inl e ↦ rw e (end_root-IsSettled p.handler p.down p.key ended id t r)
        | inr e ↦ rw e (keep_instance-IsSettled id scope t own r)
      ]

  handle_event-IsSettled :
      (env id event : ℕ) (root : Root) (s : Store)
      → AreOwned p
      → IsRunning ended p.key id s
      → Settles (IsSettled ended) (handle_event p env id event (some root) s)
  unfolding handle_event
  handle_event-IsSettled env id event root s owned v =
      elim (Option-cases (call_handler p env id (p.handler.handle_event event root) root)) [
        | inl c ↦ inl (rw (c, handle_event) refl)
        | inr (scope, c) ↦
            rw (c, handle_event)
              (apply_effects-IsSettled id scope s
                (call_handler-IsOwn p owned env id (p.handler.handle_event event root) root scope c)
                v)
      ]

  loaded-IsSettled :
      (k : Option Root → Action Store (Unit {0})) (id : ℕ) (root : Root) (s : Store)
      → ((t : Store) → IsSettled ended t → Settles (IsSettled ended) (k none t))
      → ((root' : Root) (t : Store)
          → IsRunning ended p.key id t
          → Settles (IsSettled ended) (k (some root') t))
      → IsSettled ended s
      → Settles (IsSettled ended) ((load_root p.handler p.down p.key id root >>= k) s)
  loaded-IsSettled k id root s over' live v =
      elim (load_root-cases p.handler p.down p.key ended id root s v) [
        | inl (e, q) ↦ at e q
        | inr (inl (q, o)) ↦ subst (Settles (IsSettled ended)) (sym (>>=-at load k q)) (over' s v)
        | inr (inr (root', t, q, r)) ↦
            subst (Settles (IsSettled ended)) (sym (>>=-at load k q)) (live root' t r)
      ]
    where
      load : Action Store (Option Root)
      load = load_root p.handler p.down p.key id root

      at :
          (e : Failure)
          → load_root p.handler p.down p.key id root s ≡ (inl e, s)
          → Settles (IsSettled ended) ((load_root p.handler p.down p.key id root >>= k) s)
      at e q = subst (Settles (IsSettled ended)) (sym (>>=-at load k q)) (inr v)

  -- What is done with an instance that is loaded, or that has ended.
  pub started-IsSettled :
      (k : Option Root → Action Store (Unit {0})) (id : ℕ) (s : Store)
      → ((t : Store) → IsSettled ended t → Settles (IsSettled ended) (k none t))
      → ((root : Root) (t : Store)
          → IsRunning ended p.key id t
          → Settles (IsSettled ended) (k (some root) t))
      → IsSettled ended s
      → Settles (IsSettled ended) (
          (new_root p.handler p.down p.key >>= λ root.
          load_root p.handler p.down p.key id root >>= k)
            s)
  unfolding new_root
  started-IsSettled k id s over' live v =
      >>=-Settles (IsSettled ended) (IsSettled ended) (new_root p.handler p.down p.key)
        (λ root. load_root p.handler p.down p.key id root >>= k) s (λ t r. r) (inr made)
        (λ root t q r. loaded-IsSettled k id root t over' live r)
    where
      made : IsSettled ended (new_root p.handler p.down p.key s).1
      made = ground (arith, v)

  pub dispatch-IsSettled :
      (env : ℕ) (s : Store)
      → AreOwned p
      → IsSettled ended s
      → Settles (IsSettled ended) (dispatch p env s)
  unfolding dispatch dispatch_to handle_event
  dispatch-IsSettled env s owned v = elim (Option-cases (p.unpack env)) [
    | inl u ↦ rw (u, dispatch) (inr v)
    | inr (event, u) ↦ rw (u, dispatch) (to event (route_event_to_instance p event))
  ]
    where
      to : (event : ℕ) (r : Failure ⊎ ℕ) → Settles (IsSettled ended) (dispatch_to p env event r s)
      to event (inl e) = inr v
      to event (inr id) = elim (Bool-cases (id == 0)) [
        | inl z ↦ rw (z, dispatch_to) (inr v)
        | inr z ↦
            rw (z, dispatch_to)
              (started-IsSettled (handle_event p env id event) id s (λ t r. inr r)
                (λ root t r. handle_event-IsSettled env id event root t owned r) v)
      ]
