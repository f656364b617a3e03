-- ===== src/Schema/EventStream.antt =====
-- internal/schema/ddl/00-eventstream/10-funcs.sql: choosing a stream to write to, and appending events to it.
pub mod Appending
use runkit.Prelude.{
  ltb, leb, ◌==◌, if◌then◌else◌, ltb→lt, lt→ltb, leb→le, le→leb, lt→leb, ==_iff, ==_refl, tests,
  Bool-cases, Option-cases, length, get_elem?, take, drop, replicate, length-append,
  take-append-drop, length-drop, length-take, drop-append_le, drop-append_add,
  get_elem?-append_left, get_elem?-append_right, get_elem?_total, get_elem?-take, filter,
  filter-append, filter-filter, filter-eq, length-filter-le, All, All-append, All-replicate,
  All-filter, All-imp, All-left, All-right, has, u64_mod, inc64, inc64-eq-suc, ℕ, zero, suc, ◌+◌,
  ◌-◌, ◌*◌, ◌/◌, ◌%◌, ◌^◌, ◌≤◌, ◌<◌, min, max, ◌≡◌, refl, sym, ap, ◌∙◌, subst, ◌≢◌, ◌↔◌, ◌⊎◌, inl,
  inr, Bool, true, false, not, ◌&&◌, ◌||◌, Option, none, some, List, [], ◌∷◌, ◌++◌, map, append-nil,
  append_assoc, arith,
}
use runkit.Prelude.Maps.{get, set}
use runkit.Stream.{Envelope}
use runkit.Transaction.{Failure, failed, busy, other, Action, pure, ◌>>=◌, ◌>>◌}
use runkit.Schema.{Store, Event}

-- eventstream.event; `header` and `body` are the envelope.
pub record NewEvent : Type 0 where
  pub message_id : ℕ
  pub type_id : ℕ
  pub header : ℕ
  pub body : ℕ

-- What acquire_for_write does not decide: the streams that other transactions have locked, the random order of streams
-- and the ID of a new one.
pub record Contention : Type 0 where
  pub locked : ℕ → Bool
  pub random : ℕ → ℕ
  pub fresh : ℕ

-- ORDER BY next_offset, random() LIMIT 1.
abbrev pub precedes : Contention → ℕ × ℕ → ℕ × ℕ → Bool
precedes c (x, m) (y, n) = ltb m n || (m == n && leb (c.random x) (c.random y))

abbrev pub shortest : Contention → List (ℕ × ℕ) → Option (ℕ × ℕ)
shortest c [] = none
shortest c (x ∷ xs) = elim (shortest c xs) [
  | none ↦ some x
  | some y ↦ some (if precedes c x y then x else y)
]

abbrev pub any_empty : List (ℕ × ℕ) → Bool
any_empty [] = false
any_empty ((id, next) ∷ ss) = next == 0 || any_empty ss

-- eventstream.acquire_for_write. A NULL is none; the ID of a stream is a primary key.
unfoldable pub acquire_for_write : Contention → Action Store (Option ℕ)
acquire_for_write c s = elim (shortest c (filter (λ x. not (c.locked x.0)) s.streams)) [
  | some x ↦ (inr (some x.0), s)
  | none ↦
      if any_empty s.streams
      then elim (shortest c s.streams) [ none ↦ (inr none, s) | some x ↦ (inr (some x.0), s) ]
      else elim (get s.streams c.fresh) [
        | some next ↦ (inl other, s)
        | none ↦ (inr (some c.fresh), record s { streams = set s.streams c.fresh 0 })
      ]
]

-- The rows of new events, from an offset on.
abbrev pub rows_from : ℕ → ℕ → ℕ → Option (ℕ × ℕ) → List NewEvent → List Event
rows_from id offset correlation owner [] = []
rows_from id offset correlation owner (e ∷ es) =
    record {
      envelope = record {
        stream_id = id;
        offset = offset;
        message_id = e.message_id;
        type_id = e.type_id;
        header = e.header;
        body = e.body;
      };
      correlation_id = correlation;
      owner = owner;
    }
    ∷ rows_from id (suc offset) correlation owner es

-- eventstream.append: the offset after the last new event, which is NULL if there is no such stream. The length of an
-- empty array is NULL, which next_offset cannot be, and a bigint is below 2 ^ 63.
unfoldable pub append : Option ℕ → ℕ → Option (ℕ × ℕ) → List NewEvent → Action Store (Option ℕ)
append none correlation owner es s = (inr none, s)
append (some id) correlation owner es s = elim (get s.streams id) [
  | none ↦ (inr none, s)
  | some next ↦ if length es == 0 || leb (2 ^ 63) (next + length es) then (inl other, s) else (
    inr (some (next + length es)),
    record s {
      streams = set s.streams id (next + length es);
      events = s.events ++ rows_from id next correlation owner es;
    },
  )
]

-- eventstream.append_any.
unfoldable pub append_any :
    Contention → ℕ → Option (ℕ × ℕ) → List NewEvent → Action Store (Option ℕ)
append_any c correlation owner es = do id ← acquire_for_write c; append id correlation owner es
