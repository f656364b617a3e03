-- ===== src/Schema.antt =====
-- internal/schema/ddl: the tables of the application's database that the message handlers read and change. A row is a
-- record; a time is a number, and so is a text, of which 0 is the empty one. The SQL functions are in the modules
-- below.
pub mod CommandQueue
pub mod EventStream
use runkit.Prelude.{
  ltb, leb, ◌==◌, if◌then◌else◌, ltb→lt, lt→ltb, leb→le, le→leb, lt→leb, ==_iff, ==_refl, tests,
  Bool-cases, Option-cases, length, get_elem?, take, drop, replicate, length-append,
  take-append-drop, length-drop, length-take, drop-append_le, drop-append_add,
  get_elem?-append_left, get_elem?-append_right, get_elem?_total, get_elem?-take, filter,
  filter-append, filter-filter, filter-eq, length-filter-le, All, All-append, All-replicate,
  All-filter, All-imp, All-left, All-right, has, u64_mod, inc64, inc64-eq-suc, ℕ, zero, suc, ◌+◌,
  ◌-◌, ◌*◌, ◌/◌, ◌%◌, ◌^◌, ◌≤◌, ◌<◌, min, max, ◌≡◌, refl, sym, ap, ◌∙◌, subst, ◌≢◌, ◌↔◌, ◌⊎◌, inl,
  inr, Bool, true, false, not, ◌&&◌, ◌||◌, Option, none, some, List, [], ◌∷◌, ◌++◌, map, append-nil,
  append_assoc, arith,
}
use runkit.Stream.{Envelope}

-- commandqueue.commands.
pub record Command : Type 0 where
  pub message_id : ℕ
  pub type_id : ℕ
  pub envelope : ℕ
  pub failures : ℕ
  pub deliver_at : ℕ

-- eventstream.events; the owner is the key of an aggregate handler and the ID of its instance.
pub record Event : Type 0 where
  pub envelope : Envelope
  pub correlation_id : ℕ
  pub owner : Option (ℕ × ℕ)

-- aggregate.instances; by its CHECK a snapshot has an offset, and a row with a snapshot has a stream.
pub record AggregateInstance : Type 0 where
  pub stream_id : Option ℕ
  pub snapshot : Option (ℕ × ℕ)

-- process.instances.
pub record ProcessInstance : Type 0 where
  pub ended : Bool
  pub state : Option ℕ

-- process.deadlines.
pub record Deadline : Type 0 where
  pub message_id : ℕ
  pub type_id : ℕ
  pub handler_key : ℕ
  pub instance_id : ℕ
  pub envelope : ℕ
  pub failures : ℕ
  pub deliver_at : ℕ

-- The instances are keyed by the key of their handler and their ID; the idempotency keys and the streams are keyed too.
pub record Store : Type 0 where
  pub commands : List Command
  pub idempotency_keys : List (ℕ × ℕ)
  pub streams : List (ℕ × ℕ)
  pub events : List Event
  pub aggregates : ℕ → ℕ → Option AggregateInstance
  pub processes : ℕ → ℕ → Option ProcessInstance
  pub deadlines : List Deadline

-- A table with one row changed.
abbrev pub update : {V : Type 0} → (ℕ → ℕ → Option V) → ℕ → ℕ → Option V → ℕ → ℕ → Option V
update f k i v k' i' = if k == k' && i == i' then v else f k' i'

module _ {V : Type 0} (f : ℕ → ℕ → Option V) (k i j : ℕ) (v : Option V) where
  pub update_same : (i == j) ≡ true → update f k i v k j ≡ v
  update_same same = rw (==_refl k, same)

  pub update_other : (i == j) ≡ false → update f k i v k j ≡ f k j
  update_other apart = rw (==_refl k, apart)

-- What holds of a row that is written and of the others holds of a table's rows.
pub update-keeps :
    {V : Type 0} (C : Option V → Type 0) (f : ℕ → ℕ → Option V) (k i : ℕ) (v : Option V) (k' i' : ℕ)
    → (k ≡ k' → i ≡ i' → C v)
    → C (f k' i')
    → C (update f k i v k' i')
update-keeps C f k i v k' i' written h = go (k == k') (i == i') refl refl
  where
    go : (a b : Bool) → (k == k') ≡ a → (i == i') ≡ b → C (if a && b then v else f k' i')
    go true true p q = written ((==_iff k k').0 p) ((==_iff i i').0 q)
    go true false p q = h
    go false b p q = h
