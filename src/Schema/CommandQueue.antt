-- ===== src/Schema/CommandQueue.antt =====
-- internal/schema/ddl/10-commandqueue/10-funcs.sql, and the statements of internal/messagepump/commandqueue.go.
use runkit.Prelude.{
  leb, ◌==◌, if◌then◌else◌, filter, has, ℕ, ◌+◌, inl, inr, Bool, true, false, not, ◌&&◌, ◌||◌,
  Option, none, some, List, [], ◌∷◌, ◌++◌,
}
use runkit.Prelude.Maps.{get, set}
use runkit.Transaction.{other, Outage, acquire, postpone, Action}
use runkit.Schema.{Store, Command}
use runkit.Pump.{Delivery}

abbrev pub queued : List Command → ℕ → Bool
queued [] id = false
queued (c ∷ cs) id = c.message_id == id || queued cs id

abbrev pub claimed : List (ℕ × ℕ) → ℕ → Bool
claimed [] id = false
claimed ((key, m) ∷ ks) id = m == id || claimed ks id

-- The INSERT of a command; its message ID is the primary key.
abbrev pub insert : ℕ → ℕ → ℕ → ℕ → Action Store (ℕ × Bool)
insert now id type_id envelope s = if queued s.commands id then (inl other, s) else (
  inr (id, true),
  record s {
    commands =
        s.commands
        ++ record {
          message_id = id;
          type_id = type_id;
          envelope = envelope;
          failures = 0;
          deliver_at = now;
        }
          ∷ [];
  },
)

-- commandqueue.add, with the time: the ID of the message that has the idempotency key, and whether it was enqueued.
unfoldable pub add : ℕ → ℕ → ℕ → ℕ → ℕ → Action Store (ℕ × Bool)
add now id type_id envelope key s =
    if key == 0 then insert now id type_id envelope s else elim (get s.idempotency_keys key) [
      | some original ↦ (inr (original, false), s)
      | none ↦
          if claimed s.idempotency_keys id
          then (inl other, s)
          else insert now id type_id envelope
              (record s { idempotency_keys = set s.idempotency_keys key id })
    ]

-- commandqueue.remove.
unfoldable pub remove : ℕ → Action Store (Unit {0})
remove id s =
    if queued s.commands id
    then (inr tt, record s { commands = filter (λ c. not (c.message_id == id)) s.commands })
    else (inl other, s)

-- ORDER BY deliver_at LIMIT 1, of the commands that are due; a command that another transaction has locked is skipped.
abbrev pub earliest : List Command → Option Command
earliest [] = none
earliest (c ∷ cs) = elim (earliest cs) [
  | none ↦ some c
  | some d ↦ some (if leb c.deliver_at d.deliver_at then c else d)
]

-- AcquireCommandDelivery, with the time, the commands that are locked and the types of the handler.
unfoldable pub acquire_delivery : Outage → ℕ → (ℕ → Bool) → List ℕ → Action Store (Option Delivery)
acquire_delivery down now locked types s =
    if down acquire
    then (inl other, s)
    else elim (earliest (
        filter (λ c. has types c.type_id && (leb c.deliver_at now && not (locked c.message_id)))
          s.commands)) [
            | none ↦ (inr none, s)
            | some c ↦ (
              inr (
                  some (record {
                    message_id = c.message_id;
                    type_id = c.type_id;
                    envelope = c.envelope;
                    failures = c.failures;
                  })),
              s,
            )
          ]

abbrev pub reschedule : ℕ → ℕ → ℕ → List Command → List Command
reschedule id failures at [] = []
reschedule id failures at (c ∷ cs) =
    (if c.message_id == id then record c { failures = failures; deliver_at = at } else c)
    ∷ reschedule id failures at cs

-- PostponeCommandDelivery, with the time and the delay: it changes exactly one row.
unfoldable pub postpone_delivery : Outage → ℕ → Delivery → ℕ → Action Store (Unit {0})
postpone_delivery down now d delay s =
    if down postpone
    then (inl other, s)
    else if queued s.commands d.message_id
    then (
      inr tt,
      record s { commands = reschedule d.message_id d.failures (now + delay) s.commands },
    )
    else (inl other, s)
