-- ===== src/Aggregate/Writing.antt =====
-- The steps of aggregate.complete_with_events and aggregate.complete_without_events keep the tables as they have to be.
use runkit.Prelude.{
  ltb, ◌==◌, ==_iff, Bool-cases, length, filter, filter-append, All, All-append, ℕ, suc, ◌+◌, ◌≤◌,
  ◌<◌, ◌≡◌, refl, sym, ap, ◌∙◌, subst, inl, inr, false, Option, none, some, List, [], ◌∷◌, ◌++◌,
  append-nil, arith,
}
use runkit.Prelude.Maps.{get, set, get-set}
use runkit.Source.Local.{order_by_offset}
use runkit.Schema.{Store, AggregateInstance, Event}
use runkit.Schema.CommandQueue.{remove, queued}
use runkit.Schema.EventStream.{NewEvent, rows_from}
use runkit.Aggregate.{CommandPump, Others, apply_events, is_owned}
use runkit.Aggregate.History.{owned, history, history-append, owned-append_own, new_envelopes}
use runkit.Aggregate.Sourced.{stream_of, IsPlaced, IsKept, IsSourced}

-- No stream is lost, and no next offset moves back.
abbrev pub Grows : List (ℕ × ℕ) → List (ℕ × ℕ) → Type 0
Grows streams streams' =
    (id next : ℕ)
    → get streams id ≡ some next
    → (next' : ℕ) × (get streams' id ≡ some next') × (next ≤ next')

-- A stream is new, or its next offset is moved on.
pub set-Grows :
    (streams : List (ℕ × ℕ)) (id new : ℕ)
    → ((old : ℕ) → get streams id ≡ some old → old ≤ new)
    → Grows streams (set streams id new)
set-Grows streams id new h k next e = elim (Bool-cases (id == k)) [
  | inl same ↦ (
    new,
    get-set streams id new k ∙ rw same,
    h next (subst (λ n. get streams n ≡ some next) (sym ((==_iff id k).0 same)) e),
  )
  | inr apart ↦ (next, get-set streams id new k ∙ (rw apart) ∙ e, omega arith)
]

pub IsPlaced-grown :
    (streams streams' : List (ℕ × ℕ)) (es : List Event)
    → Grows streams streams'
    → All (λ e. IsPlaced streams e.envelope) es
    → All (λ e. IsPlaced streams' e.envelope) es
IsPlaced-grown streams streams' [] g a = tt
IsPlaced-grown streams streams' (e ∷ es) g a =
    let (next, found, below) = a.0 in
    let (next', found', le) = g e.envelope.stream_id next found in
    ((next', found', omega (arith, below, le)), IsPlaced-grown streams streams' es g a.1)

pub new-IsPlaced :
    (streams : List (ℕ × ℕ)) (id next c : ℕ) (owner : Option (ℕ × ℕ)) (es : List NewEvent) (end : ℕ)
    → get streams id ≡ some end
    → next + length es ≤ end
    → All (λ e. IsPlaced streams e.envelope) (rows_from id next c owner es)
new-IsPlaced streams id next c owner [] end h l = tt
new-IsPlaced streams id next c owner (e ∷ es) end h l = (
  (end, h, omega (arith, l)),
  new-IsPlaced streams id (suc next) c owner es end h (omega (arith, l)),
)

new-on_stream :
    (id next : ℕ) (es : List NewEvent) → All (λ e. e.stream_id ≡ id) (new_envelopes id next es)
new-on_stream id next [] = tt
new-on_stream id next (e ∷ es) = (refl, new-on_stream id (suc next) es)

-- The new events are not before the end of the stream.
new-filter :
    (id next n : ℕ) (es : List NewEvent)
    → n ≤ next
    → filter (λ e. ltb e.offset n) (new_envelopes id next es) ≡ []
new-filter id next n [] l = refl
new-filter id next n (e ∷ es) l =
    rw (late next n l) (new-filter id (suc next) n es (omega (arith, l)))
  where
    late : (next n : ℕ) → n ≤ next → ltb next n ≡ false
    late next n l = ground arith

-- Placed events of one stream are below its next offset.
pub placed-below :
    (streams : List (ℕ × ℕ)) (key id stream next : ℕ) (events : List Event)
    → get streams stream ≡ some next
    → All (λ e. IsPlaced streams e.envelope) events
    → All (λ e. e.stream_id ≡ stream) (owned key id events)
    → All (λ e. e.offset < next) (owned key id events)
placed-below streams key id stream next [] h a o = tt
placed-below streams key id stream next (e ∷ es) h a o = elim (Bool-cases (is_owned key id e)) [
  | inr foreign ↦ rw foreign (placed-below streams key id stream next es h a.1 (rw foreign at o))
  | inl own ↦
      let o' : All (λ x. x.stream_id ≡ stream) (e.envelope ∷ owned key id es) = rw own at o in
      let (end, found, below) = a.0 in
      let same : end ≡ next = unique (sym found ∙ ap (get streams) o'.0 ∙ h) in
      rw own (omega (arith, below, same), placed-below streams key id stream next es h a.1 o'.1)
]
  where
    unique : {m n : ℕ} → some m ≡ some n → m ≡ n
    unique h = cc

module _ {Root : Type 0} (p : CommandPump Root) (others : Others) (fresh : Root) where
  pub IsKept-grown :
      (streams streams' : List (ℕ × ℕ)) (events : List Event) (id : ℕ)
      (i : Option AggregateInstance)
      → Grows streams streams'
      → IsKept p others fresh streams events id i
      → IsKept p others fresh streams' events id i
  IsKept-grown streams streams' events id i g k = record {
    unbound = k.unbound;
    on_stream = k.on_stream;
    snapshots = k.snapshots;
    covered = λ bytes offset stream snap on.
        let (next, found, below) = k.covered bytes offset stream snap on in
        let (next', found', le) = g stream next found in (next', found', omega (arith, below, le));
    checked = k.checked;
  }

  pub remove-IsSourced :
      (message_id : ℕ) (s : Store)
      → IsSourced p others fresh s
      → IsSourced p others fresh (remove message_id s).1
  unfolding remove
  remove-IsSourced message_id s v = elim (Bool-cases (queued s.commands message_id)) [
    | inl there ↦ rw there (record { placed = v.placed; kept = v.kept })
    | inr gone ↦ rw gone v
  ]

  -- The streams grow.
  abbrev with_streams : List (ℕ × ℕ) → Store → Store
  with_streams streams s = record s { streams = streams }

  pub grown-IsSourced :
      (streams : List (ℕ × ℕ)) (s : Store)
      → Grows s.streams streams
      → IsSourced p others fresh s
      → IsSourced p others fresh (with_streams streams s)
  grown-IsSourced streams s g v = record {
    placed = IsPlaced-grown s.streams streams s.events g v.placed;
    kept = λ id.
        IsKept-grown s.streams streams s.events id (s.aggregates p.handler_key id) g (v.kept id);
  }

  -- A row that had no stream gets one.
  pub rebound-IsKept :
      (streams : List (ℕ × ℕ)) (events : List Event) (id : ℕ) (acquired : Option ℕ)
      (i : AggregateInstance)
      → i.stream_id ≡ none
      → IsKept p others fresh streams events id (some i)
      → IsKept p others fresh streams events id (some (record i { stream_id = acquired }))
  rebound-IsKept streams events id acquired i b k =
      let none_owned = k.unbound b in
      let no_snapshot = k.checked b in
      record {
        unbound = λ h. none_owned;
        on_stream =
            λ stream on. subst (λ es. All (λ e. e.stream_id ≡ stream) es) (sym none_owned) tt;
        snapshots = λ bytes offset root snap read. cc;
        covered = λ bytes offset stream snap on. cc;
        checked = λ h. no_snapshot;
      }

  -- The events of the instance are as before.
  pub IsKept-same :
      (streams : List (ℕ × ℕ)) (events events' : List Event) (id : ℕ) (i : Option AggregateInstance)
      → owned p.handler_key id events' ≡ owned p.handler_key id events
      → IsKept p others fresh streams events id i
      → IsKept p others fresh streams events' id i
  IsKept-same streams events events' id i h k = record {
    unbound = λ b. h ∙ k.unbound b;
    on_stream =
        λ stream on. subst (All (λ e. e.stream_id ≡ stream)) (sym h) (k.on_stream stream on);
    snapshots = λ bytes offset root snap read.
        ap
          (λ es.
            apply_events p others (filter (λ e. ltb e.offset (suc offset)) (order_by_offset es))
              fresh)
          h
        ∙ k.snapshots bytes offset root snap read;
    covered = k.covered;
    checked = k.checked;
  }

  -- The instance whose events are appended.
  pub appended-IsKept :
      (streams : List (ℕ × ℕ)) (events : List Event) (id : ℕ) (i : Option AggregateInstance)
      (stream next c : ℕ) (es : List NewEvent)
      → stream_of i ≡ some stream
      → get streams stream ≡ some next
      → All (λ e. e.offset < next) (owned p.handler_key id events)
      → IsKept p others fresh streams events id i
      → IsKept p others fresh streams
          (events ++ rows_from stream next c (some (p.handler_key, id)) es)
          id
          i
  appended-IsKept streams events id i stream next c es on here below k = record {
    unbound = λ b. cc;
    on_stream = λ st on'.
        let same : stream ≡ st = cc in
        subst (All (λ e. e.stream_id ≡ st))
          (sym (owned-append_own p.handler_key id stream next c events es))
          (All-append _ _ _ (k.on_stream st on') (
            subst (λ n. All (λ e. e.stream_id ≡ n) (new_envelopes stream next es)) same
              (new-on_stream stream next es)));
    snapshots = λ bytes offset root snap read.
        let (end, found, low) = k.covered bytes offset stream snap on in
        let same : end ≡ next = cc in
        ap (λ xs. apply_events p others (filter (λ e. ltb e.offset (suc offset)) xs) fresh)
          (history-append p.handler_key id stream next c events es below)
        ∙ ap (λ xs. apply_events p others xs fresh)
            (filter-append _ (history p.handler_key id events) (new_envelopes stream next es)
              ∙ ap
                  (λ ys.
                    filter (λ e. ltb e.offset (suc offset)) (history p.handler_key id events) ++ ys)
                  (new-filter stream next (suc offset) es (omega (arith, low, same)))
              ∙ append-nil _)
        ∙ k.snapshots bytes offset root snap read;
    covered = k.covered;
    checked = k.checked;
  }
