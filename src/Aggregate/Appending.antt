-- ===== src/Aggregate/Appending.antt =====
-- aggregate.complete_with_events of internal/schema/ddl/20-aggregate/10-funcs.sql: what a call that succeeds has changed.
use runkit.Prelude.{
  leb, ◌==◌, if◌then◌else◌, ==_refl, Bool-cases, Option-cases, length, filter, All, All-filter,
  All-imp, ℕ, ◌+◌, ◌^◌, ◌≡◌, refl, sym, ap, ◌∙◌, subst, ◌≢◌, ◌⊎◌, inl, inr, true, false, not, ◌||◌,
  Option, none, some, List, [], ◌∷◌, ◌++◌,
}
use runkit.Prelude.Maps.{get, set, get-set}
use runkit.Transaction.{other}
use runkit.Schema.{Store, Command}
use runkit.Schema.EventStream.{
  NewEvent, Contention, precedes, shortest, any_empty, acquire_for_write, append, rows_from,
}
use runkit.Schema.CommandQueue.{remove, queued}

-- Whether a stream exists.
abbrev pub Exists : Store → ℕ → Type 0
Exists s id = (next : ℕ) × (get s.streams id ≡ some next)

-- Where the events that are appended to a stream begin: at its next offset, or at 0 if there is no such stream.
abbrev pub BeginsAt : Store → ℕ → ℕ → Type 0
BeginsAt s id next = (get s.streams id ≡ some next) ⊎ ((get s.streams id ≡ none) × (next ≡ 0))

abbrev IsListed : List (ℕ × ℕ) → Option (ℕ × ℕ) → Type 0
IsListed streams none = Unit
IsListed streams (some x) = (next : ℕ) × (get streams x.0 ≡ some next)

-- A stream of some that are listed is listed.
shortest-IsListed :
    (c : Contention) (streams xs : List (ℕ × ℕ))
    → All (λ (x : ℕ × ℕ). (next : ℕ) × (get streams x.0 ≡ some next)) xs
    → IsListed streams (shortest c xs)
shortest-IsListed c streams [] a = tt
shortest-IsListed c streams (x ∷ xs) a = first (shortest c xs) (shortest-IsListed c streams xs a.1)
  where
    first :
        (o : Option (ℕ × ℕ))
        → IsListed streams o
        → IsListed streams (elim o as (λ _. Option (ℕ × ℕ)) [
          | none ↦ some x
          | some y ↦ some (if precedes c x y then x else y)
        ])
    first none h = a.0
    first (some y) h = elim (Bool-cases (precedes c x y)) [ inl e ↦ rw e a.0 | inr e ↦ rw e h ]

listed :
    (streams : List (ℕ × ℕ))
    → All (λ (x : ℕ × ℕ). (next : ℕ) × (get streams x.0 ≡ some next)) streams
listed [] = tt
listed ((j, v) ∷ xs) = (
  (v, rw (==_refl j) refl),
  All-imp (λ (x : ℕ × ℕ). (next : ℕ) × (get xs x.0 ≡ some next))
      (λ (x : ℕ × ℕ). (next : ℕ) × (get ((j, v) ∷ xs) x.0 ≡ some next)) xs (λ x h. later x.0 h)
      (listed xs),
)
  where
    later :
        (k : ℕ)
        → (next : ℕ) × (get xs k ≡ some next)
        → (next : ℕ) × (get ((j, v) ∷ xs) k ≡ some next)
    later k h = elim (Bool-cases (j == k)) [ inl e ↦ (v, rw e refl) | inr e ↦ (h.0, rw e h.1) ]

shortest_some : (c : Contention) (xs : List (ℕ × ℕ)) → any_empty xs ≡ true → shortest c xs ≢ none
shortest_some c [] e = cc
shortest_some c (x ∷ xs) e = λ h. some_first (shortest c xs) h
  where
    some_first :
        (o : Option (ℕ × ℕ))
        → (elim o as (λ _. Option (ℕ × ℕ)) [
          | none ↦ some x
          | some y ↦ some (if precedes c x y then x else y)
        ])
          ≡ none
        → ⊥
    some_first none h = cc
    some_first (some y) h = cc

-- A stream that exists, with the next offset that it had before if it existed.
abbrev IsReady : Store → Store → ℕ → Type 0
IsReady s t id = (next : ℕ) × (get t.streams id ≡ some next) × BeginsAt s id next

-- What a stream that is acquired leaves: the stream is ready, and only streams have changed.
abbrev pub IsAcquired : Store → Option ℕ → Store → Type 0
IsAcquired s b t =
    (t.events ≡ s.events)
    × (t.aggregates ≡ s.aggregates)
    × ((id : ℕ) × (b ≡ some id) × IsReady s t id)

pub acquire_for_write-IsAcquired :
    (c : Contention) (s t : Store) (b : Option ℕ)
    → acquire_for_write c s ≡ (inr b, t)
    → IsAcquired s b t
unfolding acquire_for_write
acquire_for_write-IsAcquired c s t b q =
    elim (Option-cases (shortest c (filter (λ x. not (c.locked x.0)) s.streams))) [
      | inr (x, free) ↦ chosen x.0 s (rw (free, acquire_for_write) refl) refl refl (
          kept x.0 (
            subst (IsListed s.streams) free (
              shortest-IsListed c s.streams (filter (λ x. not (c.locked x.0)) s.streams) (
                All-filter (λ (x : ℕ × ℕ). (next : ℕ) × (get s.streams x.0 ≡ some next))
                  (λ x. not (c.locked x.0)) s.streams (listed s.streams)))))
      | inl busy ↦ elim (Bool-cases (any_empty s.streams)) [
        | inl empty ↦ elim (Option-cases (shortest c s.streams)) [
          | inl nothing ↦ absurd (shortest_some c s.streams empty nothing)
          | inr (x, first) ↦
              chosen x.0 s (rw (busy, empty, first, acquire_for_write) refl) refl refl (
                kept x.0 (
                  subst (IsListed s.streams) first
                    (shortest-IsListed c s.streams s.streams (listed s.streams))))
        ]
        | inr full ↦ elim (Option-cases (get s.streams c.fresh)) [
          | inr (next, taken) ↦ refused (rw (busy, full, taken, acquire_for_write) refl)
          | inl unused ↦
              chosen c.fresh (record s { streams = set s.streams c.fresh 0 })
                (rw (busy, full, unused, acquire_for_write) refl) refl refl
                (
                  0,
                  get-set s.streams c.fresh 0 c.fresh ∙ (rw (==_refl c.fresh) refl),
                  inr (unused, refl),
                )
        ]
      ]
    ]
  where
    kept : (x : ℕ) → Exists s x → IsReady s s x
    kept x (next, found) = (next, found, inl found)

    refused : acquire_for_write c s ≡ (inl other, s) → IsAcquired s b t
    refused e = cc

    chosen :
        (x : ℕ) (u : Store)
        → acquire_for_write c s ≡ (inr (some x), u)
        → u.events ≡ s.events
        → u.aggregates ≡ s.aggregates
        → IsReady s u x
        → IsAcquired s b t
    chosen x u e events aggregates there =
        let same : u ≡ t = ap (λ r. r.1) (sym e ∙ q) in
        let named : some x ≡ b = cc in
        subst (IsAcquired s b) same (events, aggregates, (x, sym named, there))

-- An append to a stream that exists is refused, or done.
pub append-found :
    (id correlation next : ℕ) (owner : Option (ℕ × ℕ)) (es : List NewEvent) (s : Store)
    → get s.streams id ≡ some next
    → (append (some id) correlation owner es s ≡ (inl other, s))
      ⊎ (append (some id) correlation owner es s ≡ (
        inr (some (next + length es)),
        record s {
          streams = set s.streams id (next + length es);
          events = s.events ++ rows_from id next correlation owner es;
        },
      ))
unfolding append
append-found id correlation next owner es s found =
    elim (Bool-cases (length es == 0 || leb (2 ^ 63) (next + length es))) [
      | inl refused ↦ inl (rw (found, refused, append) refl)
      | inr fits ↦ inr (rw (found, fits, append) refl)
    ]

unqueued :
    (id : ℕ) (cs : List Command) → queued (filter (λ c. not (c.message_id == id)) cs) id ≡ false
unqueued id [] = refl
unqueued id (c ∷ cs) = elim (Bool-cases (c.message_id == id)) [
  | inl e ↦ rw e (unqueued id cs)
  | inr e ↦ rw (e, e) (unqueued id cs)
]

-- What a removal that succeeds leaves.
pub remove-cases :
    (id : ℕ) (s t : Store)
    → remove id s ≡ (inr tt, t)
    → (t.events ≡ s.events)
      × (t.streams ≡ s.streams)
      × (t.aggregates ≡ s.aggregates)
      × (queued t.commands id ≡ false)
unfolding remove
remove-cases id s t q = elim (Bool-cases (queued s.commands id)) [
  | inl there ↦ removed (taken there)
  | inr gone ↦ refused (rw (gone, remove) refl)
]
  where
    refused :
        remove id s ≡ (inl other, s)
        → (t.events ≡ s.events)
          × (t.streams ≡ s.streams)
          × (t.aggregates ≡ s.aggregates)
          × (queued t.commands id ≡ false)
    refused e = cc

    removed :
        record s { commands = filter (λ c. not (c.message_id == id)) s.commands } ≡ t
        → (t.events ≡ s.events)
          × (t.streams ≡ s.streams)
          × (t.aggregates ≡ s.aggregates)
          × (queued t.commands id ≡ false)
    removed e =
        subst
          (λ (u : Store).
            (u.events ≡ s.events)
            × (u.streams ≡ s.streams)
            × (u.aggregates ≡ s.aggregates)
            × (queued u.commands id ≡ false))
          e (refl, refl, refl, unqueued id s.commands)

    taken :
        queued s.commands id ≡ true
        → record s { commands = filter (λ c. not (c.message_id == id)) s.commands } ≡ t
    taken there = ap (λ r. r.1) (sym opened ∙ q)
      where
        opened :
            remove id s
            ≡ (inr tt, record s { commands = filter (λ c. not (c.message_id == id)) s.commands })
        opened = rw (there, remove) refl
