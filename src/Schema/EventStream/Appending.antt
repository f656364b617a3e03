-- ===== src/Schema/EventStream/Appending.antt =====
-- The functions of internal/schema/ddl/00-eventstream/10-funcs.sql: what they leave alone.
use runkit.Prelude.{
  leb, ◌==◌, Bool-cases, Option-cases, length, filter, ℕ, ◌+◌, ◌^◌, ◌<◌, ◌≡◌, refl, ◌≢◌, ◌⊎◌, inl,
  inr, not, ◌||◌, Option, none, some, List, ◌++◌, arith,
}
use runkit.Prelude.Maps.{get, set}
use runkit.Transaction.{Failure, other}
use runkit.Schema.{Store}
use runkit.Schema.EventStream.{
  NewEvent, Contention, shortest, any_empty, acquire_for_write, append, rows_from,
}

-- A stream is chosen and nothing is changed, or an empty stream is added.
pub acquire_for_write-cases :
    (c : Contention) (s : Store)
    → ((o : Failure ⊎ Option ℕ) × (acquire_for_write c s ≡ (o, s)))
      ⊎ ((get s.streams c.fresh ≡ none)
          × (acquire_for_write c s
              ≡ (inr (some c.fresh), record s { streams = set s.streams c.fresh 0 })))
unfolding acquire_for_write
acquire_for_write-cases c s =
    elim (Option-cases (shortest c (filter (λ x. not (c.locked x.0)) s.streams))) [
      | inr (x, free) ↦ inl (inr (some x.0), rw (free, acquire_for_write))
      | inl busy ↦ elim (Bool-cases (any_empty s.streams)) [
        | inl empty ↦ elim (Option-cases (shortest c s.streams)) [
          | inl nothing ↦ inl (inr none, rw (busy, empty, nothing, acquire_for_write))
          | inr (x, first) ↦ inl (inr (some x.0), rw (busy, empty, first, acquire_for_write))
        ]
        | inr full ↦ elim (Option-cases (get s.streams c.fresh)) [
          | inr (next, taken) ↦ inl (inl other, rw (busy, full, taken, acquire_for_write))
          | inl unused ↦ inr (unused, rw (busy, full, unused, acquire_for_write))
        ]
      ]
    ]

-- Nothing is appended, or the events follow the last one of a stream.
pub append-cases :
    (stream : Option ℕ) (correlation : ℕ) (owner : Option (ℕ × ℕ)) (es : List NewEvent) (s : Store)
    → ((o : Failure ⊎ Option ℕ) × (append stream correlation owner es s ≡ (o, s))
        × ((n : ℕ) → o ≢ inr (some n)))
      ⊎ ((id : ℕ) × (next : ℕ) × (stream ≡ some id)
          × (get s.streams id ≡ some next)
          × (0 < length es)
          × (next + length es < 2 ^ 63)
          × (append stream correlation owner es s ≡ (
            inr (some (next + length es)),
            record s {
              streams = set s.streams id (next + length es);
              events = s.events ++ rows_from id next correlation owner es;
            },
          )))
unfolding append
append-cases none correlation owner es s = inl (inr none, refl, λ n h. cc)
append-cases (some id) correlation owner es s = elim (Option-cases (get s.streams id)) [
  | inl missing ↦ inl (inr none, rw (missing, append), λ n h. cc)
  | inr (next, found) ↦ elim (Bool-cases (length es == 0 || leb (2 ^ 63) (next + length es))) [
    | inl refused ↦ inl (inl other, rw (found, refused, append), λ n h. cc)
    | inr fits ↦ inr (
      id,
      next,
      refl,
      found,
      ground (arith, fits),
      ground (arith, fits),
      rw (found, fits, append),
    )
  ]
]
