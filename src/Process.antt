-- ===== src/Process.antt =====
-- internal/process/sink.go: how a process handler's effects of events are committed together with its checkpoint.
pub mod Once
pub mod Scope
pub mod Instance
pub mod Dispatching
pub mod Deadlines
pub mod Ending
pub mod Rows
pub mod Effects
pub mod Owning
pub mod Ended
pub mod Pumping
pub mod Consuming
pub mod Acquiring
pub mod Failing
pub mod Unsaved
use runkit.Prelude.{
  ltb, leb, ◌==◌, if◌then◌else◌, ltb→lt, lt→ltb, leb→le, le→leb, lt→leb, ==_iff, ==_refl, tests,
  Bool-cases, Option-cases, length, get_elem?, take, drop, replicate, length-append,
  take-append-drop, length-drop, length-take, drop-append_le, drop-append_add,
  get_elem?-append_left, get_elem?-append_right, get_elem?_total, get_elem?-take, filter,
  filter-append, filter-filter, filter-eq, length-filter-le, All, All-append, All-replicate,
  All-filter, All-imp, All-left, All-right, has, u64_mod, inc64, inc64-eq-suc, ℕ, zero, suc, ◌+◌,
  ◌-◌, ◌*◌, ◌/◌, ◌%◌, ◌^◌, ◌≤◌, ◌<◌, min, max, ◌≡◌, refl, sym, ap, ◌∙◌, subst, ◌≢◌, ◌↔◌, ◌⊎◌, inl,
  inr, Bool, true, false, not, ◌&&◌, ◌||◌, Option, none, some, List, [], ◌∷◌, ◌++◌, map, append-nil,
  append_assoc, arith,
}
use runkit.Prelude.Maps.{get, set}
use runkit.Stream.{Envelope, Segment}
use runkit.Source.{Error, failed}
use runkit.Projection.{Consumed}

-- The handler's rows of eventstream.handler_checkpoints, and the rest of the database, which its effects change.
pub record Database (Effects : Type 0) : Type 0 where
  pub checkpoints : List (ℕ × ℕ)
  pub effects : Effects

-- The sink of a handler: `dispatch` is what Sink.dispatch does in a transaction, `unavailable` whether the database
-- fails in the transaction that goes to an offset, and `meanwhile` what other consumers commit before it.
pub record Sink (Effects : Type 0) : Type 0 where
  pub dispatch : Envelope → Effects → Error ⊎ Effects
  pub unavailable : ℕ → Bool
  pub meanwhile : ℕ → Database Effects → Database Effects

-- The checkpoint of a stream; there is none before it was consumed.
abbrev pub stored : {Effects : Type 0} → Database Effects → ℕ → ℕ
stored db id = elim (get db.checkpoints id) [ none ↦ 0 | some cp ↦ cp ]

module _ {Effects : Type 0} (sink : Sink Effects) where
  -- The effects of an event, if there is one.
  abbrev pub perform : Option Envelope → Effects → Error ⊎ Effects
  perform none e = inr e
  perform (some env) e = sink.dispatch env e

  -- Sink.consume. A transaction that fails changes nothing.
  unfoldable pub consume :
      ℕ → ℕ → ℕ → Option Envelope → Database Effects → Database Effects × Consumed
  consume id cp next env before =
      let db = sink.meanwhile next before in
      let actual = stored db id in
      if sink.unavailable next
      then (db, record { checkpoint = cp; no_conflict = false; err = some (failed 0) })
      else if not (actual == cp)
      then (
        record db { checkpoints = set db.checkpoints id actual },
        record { checkpoint = actual; no_conflict = false; err = none },
      )
      else elim (perform env db.effects) [
        | inl e ↦ (db, record { checkpoint = cp; no_conflict = false; err = some e })
        | inr effects ↦ (
          record { checkpoints = set db.checkpoints id next; effects = effects },
          record { checkpoint = next; no_conflict = true; err = none },
        )
      ]

  -- Whether the loop goes on.
  abbrev pub goes_on : Consumed → Bool
  goes_on c = elim c.err [ none ↦ c.no_conflict | some e ↦ false ]

  -- Sink.ConsumeSegment, with the end of the segment.
  unfoldable pub consume_segment :
      ℕ → ℕ → ℕ → List Envelope → Database Effects → Database Effects × Consumed
  consume_segment id end cp [] db =
      if ltb cp end
      then consume id cp end none db
      else (db, record { checkpoint = cp; no_conflict = true; err = none })
  consume_segment id end cp (env ∷ envs) db = elim (ltb env.offset cp) [
    | true ↦ consume_segment id end cp envs db
    | false ↦
        let (db', c) = consume id cp (inc64 env.offset) (some env) db in
        elim (goes_on c) [
          | false ↦ (db', record c { checkpoint = cp })
          | true ↦ consume_segment id end c.checkpoint envs db'
        ]
  ]
