-- ===== src/Transaction.antt =====
-- What a call does within a database transaction. The calls that the components make in a transaction read and change
-- the tables, and end with a value or an error. What was written before an error stays written until the transaction
-- is rolled back, by its owner (internal/messagepump/pump.go and internal/x/xsql/tx.go).
use runkit.Prelude.{◌∙◌, ◌≢◌, ◌≡◌, refl, sym, ap, subst, ◌⊎◌, inl, inr, Bool}

-- How a call fails. `failed` and `busy` are ErrFailed and ErrBusy of internal/messagepump/driver.go, which the message
-- pump tells apart from any other error.
pub data Failure : Type 0 where
  failed busy other : Failure

-- The statements that the components run, each of which may meet an outage of the database.
pub data Statement : Type 0 where
  begin commit acquire postpone advisory_lock advisory_unlock : Statement
  lock_instance create_instance query_events load_instance save_instance : Statement
  end_instance delete_deadlines persist_deadline delete_deadline add_command complete : Statement

abbrev pub Outage : Type 0
Outage = Statement → Bool

abbrev pub Action : Type 0 → Type 0 → Type 0
Action S A = S → (Failure ⊎ A) × S

module _ {S : Type 0} where
  abbrev pub pure : {A : Type 0} → A → Action S A
  pure a s = (inr a, s)

  infixl 5 ◌>>=◌ ◌>>◌
  abbrev pub ◌>>=◌ : {A B : Type 0} → Action S A → (A → Action S B) → Action S B
  ◌>>=◌ m f s = elim ((m s).0) [ inl e ↦ (inl e, (m s).1) | inr a ↦ f a (m s).1 ]

  abbrev pub ◌>>◌ : {B : Type 0} → Action S (Unit {0}) → Action S B → Action S B
  m >> k = m >>= λ _. k

  -- A sequence, from what its first part does.
  pub >>=-at :
      {A B : Type 0} (m : Action S A) (f : A → Action S B) {s s' : S} {o : Failure ⊎ A}
      → m s ≡ (o, s')
      → (m >>= f) s ≡ elim o [ inl e ↦ (inl e, s') | inr a ↦ f a s' ]
  >>=-at m f h = ap (λ r. elim (r.0) [ inl e ↦ (inl e, r.1) | inr a ↦ f a r.1 ]) h

  -- The second part of a sequence, from the outcome of the first.
  abbrev pub after : {A B : Type 0} → (A → Action S B) → S → Failure ⊎ A → (Failure ⊎ B) × S
  after f s (inl e) = (inl e, s)
  after f s (inr a) = f a s

  >>=-eq-after :
      {A B : Type 0} (m : Action S A) (f : A → Action S B) (s : S)
      → (m >>= f) s ≡ after f (m s).1 (m s).0
  >>=-eq-after {A} {B} m f s = go (m s).0 (m s).1
    where
      go :
          (o : Failure ⊎ A) (s' : S)
          → ◌≡◌ {A = (Failure ⊎ B) × S}
              (elim o [ inl e ↦ (inl e, s') | inr a ↦ f a s' ])
              (after f s' o)
      go (inl e) s' = refl
      go (inr a) s' = refl

  -- A predicate of the tables that the first part keeps, and the second after it, is kept.
  pub >>=-keeps :
      {A B : Type 0} (P : S → Type 0) (m : Action S A) (f : A → Action S B) (s : S)
      → P (m s).1
      → ((a : A) → (m s).0 ≡ inr a → P (f a (m s).1).1)
      → P ((m >>= f) s).1
  >>=-keeps {A} P m f s h k = subst (λ r. P r.1) (sym (>>=-eq-after m f s)) (go (m s).0 refl)
    where
      go : (o : Failure ⊎ A) → (m s).0 ≡ o → P (after f (m s).1 o).1
      go (inl e) q = h
      go (inr a) q = k a q

  -- A predicate of the tables that holds unless the call ends with an error after which the transaction is rolled back.
  abbrev pub Settles : {A : Type 0} → (S → Type 0) → (Failure ⊎ A) × S → Type 0
  Settles P r = (r.0 ≡ inl other) ⊎ P r.1

  pub >>=-Settles :
      {A B : Type 0} (P Q : S → Type 0) (m : Action S A) (f : A → Action S B) (s : S)
      → ((t : S) → P t → Q t)
      → Settles P (m s)
      → ((a : A) (t : S) → m s ≡ (inr a, t) → P t → Settles Q (f a t))
      → Settles Q ((m >>= f) s)
  >>=-Settles {A} {B} P Q m f s weaken h k =
      subst (Settles Q) (sym (>>=-eq-after m f s)) (go (m s).0 (m s).1 h refl)
    where
      go : (o : Failure ⊎ A) (t : S) → Settles P (o, t) → m s ≡ (o, t) → Settles Q (after f t o)
      go (inl e) t (inl q) r = inl (cc)
      go (inl e) t (inr v) r = inr (weaken t v)
      go (inr a) t (inl q) r = cc
      go (inr a) t (inr v) r = k a t r v

  -- A failure that neither part of a sequence ends with.
  pub >>=-never :
      {A B : Type 0} (e : Failure) (m : Action S A) (f : A → Action S B) (s : S)
      → (m s).0 ≢ inl e
      → ((a : A) (t : S) → (f a t).0 ≢ inl e)
      → ((m >>= f) s).0 ≢ inl e
  >>=-never {A} {B} e m f s h k =
      subst (λ (r : (Failure ⊎ B) × S). r.0 ≢ inl e) (sym (>>=-eq-after m f s)) (go (m s).0 h)
    where
      go : (o : Failure ⊎ A) → o ≢ inl e → (after f (m s).1 o).0 ≢ inl e
      go (inl e') n = λ q. n (cc)
      go (inr a) n = k a (m s).1

  -- A sequence that succeeds is one of two calls that succeed.
  pub >>=-parts :
      {A B : Type 0} (m : Action S A) (f : A → Action S B) (s t : S) (b : B)
      → (m >>= f) s ≡ (inr b, t)
      → (a : A) × (u : S) × (m s ≡ (inr a, u)) × (f a u ≡ (inr b, t))
  >>=-parts {A} {B} m f s t b h = go (m s).0 (m s).1 refl (sym (>>=-eq-after m f s) ∙ h)
    where
      go :
          (o : Failure ⊎ A) (u : S)
          → m s ≡ (o, u)
          → after f u o ≡ (inr b, t)
          → (a : A) × (u : S) × (m s ≡ (inr a, u)) × (f a u ≡ (inr b, t))
      go (inl e) u q h = cc
      go (inr a) u q h = (a, u, q, h)
