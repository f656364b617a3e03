-- ===== src/Projection.antt =====
-- internal/projection/sink.go: how a projection's events are dispatched to its handler, and the callback of
-- internal/eventstream/consumer.go, which hands it the segments of a stream.
pub mod Once
use runkit.Prelude.{
  ltb, leb, ◌==◌, if◌then◌else◌, ltb→lt, lt→ltb, leb→le, le→leb, lt→leb, ==_iff, ==_refl, tests,
  Bool-cases, Option-cases, length, get_elem?, take, drop, replicate, length-append,
  take-append-drop, length-drop, length-take, drop-append_le, drop-append_add,
  get_elem?-append_left, get_elem?-append_right, get_elem?_total, get_elem?-take, filter,
  filter-append, filter-filter, filter-eq, length-filter-le, All, All-append, All-replicate,
  All-filter, All-imp, All-left, All-right, has, u64_mod, inc64, inc64-eq-suc, ℕ, zero, suc, ◌+◌,
  ◌-◌, ◌*◌, ◌/◌, ◌%◌, ◌^◌, ◌≤◌, ◌<◌, min, max, ◌≡◌, refl, sym, ap, ◌∙◌, subst, ◌≢◌, ◌↔◌, ◌⊎◌, inl,
  inr, Bool, true, false, not, ◌&&◌, ◌||◌, Option, none, some, List, [], ◌∷◌, ◌++◌, map, append-nil,
  append_assoc, arith,
}
use runkit.Stream.{Envelope, Segment}
use runkit.Source.{Error, failed, persistent, Ending, ok, unfinished, fails}

-- What a call of the handler answers: the checkpoint offset that it has stored, or an error, which may be a panic
-- that was recovered.
pub data Handled : Type 0 where
  next : ℕ → Handled
  error : Error → Handled

-- The application's handler over the state of the projection: the arguments of `handle` are the scope's offset and
-- checkpoint offset, and the event.
pub record Handler (State : Type 0) : Type 0 where
  pub handle : ℕ → ℕ → Envelope → State → State × Handled

-- What happens before an event reaches the handler: `unpacks` is whether its message can be unmarshaled,
-- `acquire` the error of the handler's lock, if it fails, and `meanwhile` what other consumers of the stream do to
-- the projection.
pub record Surroundings (State : Type 0) : Type 0 where
  pub unpacks : Envelope → Bool
  pub acquire : Envelope → Option Error
  pub meanwhile : Envelope → State → State

-- The result of ConsumeSegment: a checkpoint offset, whether there was no conflict, and an error.
pub record Consumed : Type 0 where
  pub checkpoint : ℕ
  pub no_conflict : Bool
  pub err : Option Error

module _ {State : Type 0} (h : Handler State) (around : Surroundings State) where
  -- Sink.dispatch.
  unfoldable pub dispatch : ℕ → ℕ → Envelope → State → State × Handled
  dispatch offset cp env s =
      if not (around.unpacks env)
      then (s, error (failed 0))
      else elim (around.acquire env) [ some e ↦ (s, error e) | none ↦ h.handle offset cp env s ]

  -- Sink.ConsumeSegment.
  unfoldable pub consume_segment : ℕ → List Envelope → State → State × Consumed
  consume_segment cp [] s = (s, record { checkpoint = cp; no_conflict = true; err = none })
  consume_segment cp (env ∷ envs) s =
      let (s', handled) = dispatch env.offset cp env (around.meanwhile env s) in
      elim handled [
        | error e ↦ (s', record { checkpoint = cp; no_conflict = false; err = some e })
        | next n ↦ elim (n == inc64 env.offset) [
          | false ↦ (s', record { checkpoint = cp; no_conflict = false; err = none })
          | true ↦ consume_segment n envs s'
        ]
      ]

  -- The callback of Consumer.startStreamConsumer: its error, if any.
  abbrev pub callback_error : Consumed → Option Error
  callback_error c = elim c.err [
    | some e ↦ some (persistent e)
    | none ↦ if c.no_conflict then none else some (failed 1)
  ]

  -- The callback on one segment after another, until it refuses one.
  unfoldable pub consume_all : ℕ → List Segment → State → State × ℕ × Option Error
  consume_all cp [] s = (s, cp, none)
  consume_all cp (seg ∷ segs) s =
      let (s', c) = consume_segment cp seg.envelopes s in
      elim (callback_error c) [
        | some e ↦ (s', cp, some e)
        | none ↦ consume_all c.checkpoint segs s'
      ]
