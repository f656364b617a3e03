-- ===== src/Source/Local/Watching.antt =====
-- internal/eventstream/source/local.go: the calls of Local.Watch, and what Local.Run does on their behalf.
-- Each operation holds the mutex throughout, so it is one step.
use runkit.Prelude.{
  ltb, ◌==◌, if◌then◌else◌, length, filter, ℕ, ◌≡◌, inr, Bool, true, not, Option, none, some, List,
  [], ◌∷◌, ◌++◌, map,
}
use runkit.Prelude.Maps.{get, set, delete}
use runkit.Stream.{Segment}
use runkit.Source.{
  Error, consumer_too_slow, canceled, Callback, accepted, fails, is_empty, Delivery, accept,
}
use runkit.Source.Local.{Tables, loaded, load_segment, load_watch_offset, filter_segment}

-- A call of Watch: its watcher's channel and reason, and the segments that it was given so far, the opening
-- ones first.
pub record Watcher : Type 0 where
  pub received : List Segment
  pub segments : List Segment
  pub err : Option Error

-- `watchers` are those in the source's set, and `removed` those that were taken out of it, whose calls may
-- still have segments to receive.
pub record Local : Type 0 where
  pub segment_size : ℕ
  pub buffer_size : ℕ
  pub offsets : List (ℕ × ℕ)
  pub watchers : List (ℕ × Watcher)
  pub removed : List (ℕ × Watcher)

abbrev pub opening : ℕ → ℕ → Segment
opening id offset = record { stream_id = id; begin = offset; end = offset; envelopes = [] }

abbrev pub openings : List (ℕ × ℕ) → List Segment
openings [] = []
openings ((id, offset) ∷ rest) = opening id offset ∷ openings rest

-- Local.register, with the new watcher's address.
unfoldable pub register : ℕ → Local → Local
register w s = record s {
  watchers = (w, record { received = openings s.offsets; segments = []; err = none }) ∷ s.watchers;
}

-- The start of Local.Watch; `none` is a panic.
unfoldable pub start_watch : Option (List ℕ) → ℕ → Local → Option Local
start_watch types w s =
    if is_empty types then none else if s.buffer_size == 0 then none else some (register w s)

-- Local.unregister.
unfoldable pub unregister : ℕ → Local → Local
unregister w s = record s {
  watchers = filter (λ x. not (x.0 == w)) s.watchers;
  removed = filter (λ x. x.0 == w) s.watchers ++ s.removed;
}

-- What Local.remove does to the watcher.
abbrev pub close : Error → ℕ × Watcher → ℕ × Watcher
close e x = (x.0, record x.1 { err = some e })

abbrev pub has_room : ℕ → ℕ × Watcher → Bool
has_room size x = ltb (length x.1.segments) size

abbrev pub send : Segment → ℕ × Watcher → ℕ × Watcher
send seg x = (x.0, record x.1 { segments = x.1.segments ++ seg ∷ [] })

-- The loop of Local.deliver: the watchers that stay, and those that are removed.
unfoldable pub deliver_each :
    ℕ → Segment → List (ℕ × Watcher) → List (ℕ × Watcher) × List (ℕ × Watcher)
deliver_each size seg [] = ([], [])
deliver_each size seg (x ∷ xs) =
    let (kept, lost) = deliver_each size seg xs in
    if has_room size x then (send seg x ∷ kept, lost) else (kept, close consumer_too_slow x ∷ lost)

-- Local.deliver.
unfoldable pub deliver : Segment → Local → Local
deliver seg s =
    let (kept, lost) = deliver_each s.buffer_size seg s.watchers in
    record s {
      offsets = set s.offsets seg.stream_id seg.end;
      watchers = kept;
      removed = lost ++ s.removed;
    }

-- Local.fail.
unfoldable pub fail : ℕ → Error → Local → Local
fail id e s = record s {
  offsets = delete s.offsets id;
  watchers = [];
  removed = map (close e) s.watchers ++ s.removed;
}

-- A call takes the next segment from its channel, if there is one.
abbrev pub take_first : ℕ × Watcher → List Segment → ℕ × Watcher
take_first x [] = x
take_first x (seg ∷ rest) =
    (x.0, record x.1 { received = x.1.received ++ seg ∷ []; segments = rest })

abbrev pub take_next : ℕ → ℕ × Watcher → ℕ × Watcher
take_next w x = if x.0 == w then take_first x x.1.segments else x

unfoldable pub receive : ℕ → Local → Local
receive w s = record s {
  watchers = map (take_next w) s.watchers;
  removed = map (take_next w) s.removed;
}

-- What the select of Local.Watch takes.
pub data Taken : Type 0 where
  segment : Segment → Taken
  closed : Error → Taken
  done : Taken

-- The loops of Local.Watch after it has registered. Without more to take, it is canceled.
unfoldable pub watch_taken : Option (List ℕ) → List Taken → Callback → Delivery
watch_taken types [] fn = ([], fails canceled)
watch_taken types (done ∷ ts) fn = ([], fails canceled)
watch_taken types (closed e ∷ ts) fn = ([], fails e)
watch_taken types (segment seg ∷ ts) fn =
    let rest = watch_taken types ts (accepted (filter_segment seg types) fn) in
    elim (fn [] (filter_segment seg types)) [
      | some e ↦ ([], fails e)
      | none ↦ accept (filter_segment seg types) rest
    ]

unfoldable pub watch_opened : Option (List ℕ) → List Segment → List Taken → Callback → Delivery
watch_opened types [] ts fn = watch_taken types ts fn
watch_opened types (seg ∷ segs) ts fn =
    let rest = watch_opened types segs ts (accepted seg fn) in
    elim (fn [] seg) [ some e ↦ ([], fails e) | none ↦ accept seg rest ]

-- The source together with the goroutines of watchStream that have opened their stream: each has the offset
-- `next` that it continues from.
pub record System : Type 0 where
  pub local : Local
  pub followers : List (ℕ × ℕ)

-- The steps of calls of Watch and of deliverStream, in any order. A stream has one goroutine at a time, whose
-- failure is reported before it is run again.
pub data Step : System → System → Type 0 where
  starts :
      (s : System) (types : Option (List ℕ)) (w : ℕ) (l : Local)
      → start_watch types w s.local ≡ some l
      → Step s (record s { local = l })
  stops : (s : System) (w : ℕ) → Step s (record s { local = unregister w s.local })
  receives : (s : System) (w : ℕ) → Step s (record s { local = receive w s.local })
  opens :
      (s : System) (id next : ℕ) (t : Option Tables)
      → get s.followers id ≡ none
      → load_watch_offset id t ≡ inr next
      → Step s (record {
        local = deliver (opening id next) s.local;
        followers = set s.followers id next;
      })
  advances :
      (s : System) (id next : ℕ) (t : Option Tables) (seg : Segment) (exhausted : Bool)
      → get s.followers id ≡ some next
      → load_segment s.local.segment_size id none next t ≡ loaded seg exhausted
      → ltb seg.begin seg.end ≡ true
      → Step s (record { local = deliver seg s.local; followers = set s.followers id seg.end })
  ends :
      (s : System) (id : ℕ) (e : Error)
      → Step s (record { local = fail id e s.local; followers = delete s.followers id })

-- A source with no streams or calls yet.
abbrev pub fresh : ℕ → ℕ → System
fresh segment_size buffer_size = record {
  local = record {
    segment_size = segment_size;
    buffer_size = buffer_size;
    offsets = [];
    watchers = [];
    removed = [];
  };
  followers = [];
}

-- The systems that a sequence of steps leads to.
pub data Reachable (segment_size buffer_size : ℕ) : System → Type 0 where
  begins : Reachable segment_size buffer_size (fresh segment_size buffer_size)
  then_does :
      (s s' : System)
      → Reachable segment_size buffer_size s
      → Step s s'
      → Reachable segment_size buffer_size s'
