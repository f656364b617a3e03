-- ===== src/Source/Local/Serving.antt =====
-- internal/eventstream/source/local.go: Local.Run and the calls of Local.Watch, in every order of their steps.
use runkit.Prelude.{
  ==_iff, All, All-append, All-filter, All-imp, ℕ, ◌≡◌, refl, sym, ap, ◌∙◌, subst, Bool, true,
  Option, none, some, List, [], ◌∷◌, map, append-nil, arith,
}
use runkit.Prelude.Maps.{get, set, delete, get-set, get-delete}
use runkit.Stream.{Segment}
use runkit.Stream.Chain.{continues, end_of, are_contiguous}
use runkit.Source.{Error}
use runkit.Source.Local.{Tables, loaded, load_segment}
use runkit.Source.Local.Watching.{
  Local, opening, openings, register, start_watch, unregister, close, deliver, fail, take_next,
  receive, System, Step, starts, stops, receives, opens, advances, ends, fresh, Reachable, begins,
  then_does,
}
use runkit.Source.Local.Contiguity.{
  HasDistinctKeys, set-HasDistinctKeys, delete-HasDistinctKeys, IsRemoved, IsServed,
  end_of-openings, are_contiguous-openings, IsServed-IsRemoved, deliver_each-IsServed,
  take_next-IsServed, take_next-IsRemoved,
}

All-map {ℓ κ λ'} :
    {A : Type ℓ} (P : A → Type κ) (Q : A → Type λ') (f : A → A) (xs : List A)
    → ((x : A) → P x → Q (f x))
    → All P xs
    → All Q (map f xs)
All-map P Q f [] h a = tt
All-map P Q f (x ∷ xs) h a = (h x a.0, All-map P Q f xs h a.1)

-- The offsets of the source are those that the goroutines continue from, every call in its set is given each
-- stream contiguously up to that offset, and those that were removed were given contiguous segments.
pub record IsConsistent (s : System) : Type 0 where
  pub distinct : HasDistinctKeys s.local.offsets
  pub followed : (id : ℕ) → get s.followers id ≡ get s.local.offsets id
  pub served : All (IsServed s.local.buffer_size s.local.offsets) s.local.watchers
  pub removed : All IsRemoved s.local.removed

fresh-IsConsistent : (segment_size buffer_size : ℕ) → IsConsistent (fresh segment_size buffer_size)
fresh-IsConsistent segment_size buffer_size = record {
  distinct = tt;
  followed = λ id. refl;
  served = tt;
  removed = tt;
}

opened :
    (size w : ℕ) (offsets : List (ℕ × ℕ))
    → HasDistinctKeys offsets
    → IsServed size offsets (w, record { received = openings offsets; segments = []; err = none })
opened size w offsets d = record {
  contiguous = λ id.
      ap (are_contiguous id none) (append-nil (openings offsets))
      ∙ are_contiguous-openings id none offsets d (λ n e. refl);
  up_to_date = λ id.
      ap (end_of id none) (append-nil (openings offsets))
      ∙ end_of-openings id none offsets d
      ∙ same (get offsets id);
  bounded = omega arith;
  open_still = refl;
}
  where
    same : (o : Option ℕ) → ◌≡◌ {A = Option ℕ} (elim o [ none ↦ none | some n ↦ some n ]) o
    same none = refl
    same (some n) = refl

deliver-IsConsistent :
    (s : System) (seg : Segment) (id next : ℕ)
    → IsConsistent s
    → seg.stream_id ≡ id
    → seg.end ≡ next
    → continues seg (get s.local.offsets seg.stream_id) ≡ true
    → IsConsistent (record { local = deliver seg s.local; followers = set s.followers id next })
unfolding deliver
deliver-IsConsistent s seg id next c own end k =
    let (kept, lost) =
      deliver_each-IsServed s.local.buffer_size s.local.offsets seg s.local.watchers k c.served in
    record {
      distinct = set-HasDistinctKeys s.local.offsets seg.stream_id seg.end c.distinct;
      followed = λ i.
          get-set s.followers id next i
          ∙ (rw (← own, ← end, c.followed i) refl)
          ∙ sym (get-set s.local.offsets seg.stream_id seg.end i);
      served = kept;
      removed = All-append IsRemoved _ s.local.removed lost c.removed;
    }

fail-IsConsistent :
    (s : System) (id : ℕ) (e : Error)
    → IsConsistent s
    → IsConsistent (record { local = fail id e s.local; followers = delete s.followers id })
unfolding fail
fail-IsConsistent s id e c = record {
  distinct = delete-HasDistinctKeys s.local.offsets id c.distinct;
  followed = λ i.
      get-delete s.followers id i
      ∙ (rw (c.followed i) refl)
      ∙ sym (get-delete s.local.offsets id i);
  served = tt;
  removed =
      All-append IsRemoved _ s.local.removed
        (All-map (IsServed s.local.buffer_size s.local.offsets) IsRemoved (close e) s.local.watchers
          (λ x h. record { contiguous = h.contiguous }) c.served)
        c.removed;
}

-- What loadSegment loads is of the stream, from the offset.
load_segment-own :
    (size id : ℕ) (types : Option (List ℕ)) (begin : ℕ) (t : Option Tables) (seg : Segment)
    (exhausted : Bool)
    → load_segment size id types begin t ≡ loaded seg exhausted
    → (seg.stream_id ≡ id) × (seg.begin ≡ begin)
unfolding load_segment
load_segment-own size id types begin none seg exhausted h = cc
load_segment-own size id types begin (some t) seg exhausted h = ground arith

start_watch-eq :
    (types : Option (List ℕ)) (w : ℕ) (s l : Local)
    → start_watch types w s ≡ some l
    → register w s ≡ l
unfolding start_watch
start_watch-eq types w s l h = ground arith

Step-IsConsistent : (s s' : System) → Step s s' → IsConsistent s → IsConsistent s'
unfolding register unregister receive
Step-IsConsistent _ _ (starts s types w l h) c =
    subst (λ x. IsConsistent (record s { local = x })) (start_watch-eq types w s.local l h)
      (record {
        distinct = c.distinct;
        followed = c.followed;
        served = (opened s.local.buffer_size w s.local.offsets c.distinct, c.served);
        removed = c.removed;
      })
Step-IsConsistent _ _ (stops s w) c = record {
  distinct = c.distinct;
  followed = c.followed;
  served = All-filter _ _ s.local.watchers c.served;
  removed =
      All-append IsRemoved _ s.local.removed
        (All-imp (IsServed s.local.buffer_size s.local.offsets) IsRemoved _
          (IsServed-IsRemoved s.local.buffer_size s.local.offsets)
          (All-filter _ _ s.local.watchers c.served))
        c.removed;
}
Step-IsConsistent _ _ (receives s w) c = record {
  distinct = c.distinct;
  followed = c.followed;
  served =
      All-map _ _ (take_next w) s.local.watchers
        (take_next-IsServed s.local.buffer_size w s.local.offsets) c.served;
  removed = All-map _ _ (take_next w) s.local.removed (take_next-IsRemoved w) c.removed;
}
Step-IsConsistent _ _ (opens s id next t unknown h) c =
    deliver-IsConsistent s (opening id next) id next c refl refl
      (ap (continues (opening id next)) (sym (c.followed id) ∙ unknown))
Step-IsConsistent _ _ (advances s id next t seg exhausted known h grows) c =
    let (own, begin) = load_segment-own s.local.segment_size id none next t seg exhausted h in
    deliver-IsConsistent s seg id seg.end c own refl (
      ap (continues seg) (ap (get s.local.offsets) own ∙ sym (c.followed id) ∙ known)
      ∙ (==_iff seg.begin next).1 begin)
Step-IsConsistent _ _ (ends s id e) c = fail-IsConsistent s id e c

-- In every state that steps of the calls of Local.Watch and of the goroutines that follow the
-- streams lead to, the source has one offset for each stream that is followed, which is where
-- its goroutine continues; each call in the set of watchers has been given contiguous segments
-- of each stream up to exactly that offset, has no more segments in its buffer than its size
-- and is not closed; and each call that was removed has been given contiguous segments of each
-- stream.
pub Reachable-IsConsistent :
    {segment_size buffer_size : ℕ} {s : System}
    → Reachable segment_size buffer_size s
    → IsConsistent s
Reachable-IsConsistent begins = fresh-IsConsistent _ _
Reachable-IsConsistent (then_does s s' r step) =
    Step-IsConsistent s s' step (Reachable-IsConsistent r)
