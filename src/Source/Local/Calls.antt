-- ===== src/Source/Local/Calls.antt =====
-- The loop of Local.Watch of internal/eventstream/source/local.go: what the callback gets.
use runkit.Prelude.{
  ◌==◌, Option-cases, All, ℕ, ◌≡◌, refl, sym, ap, ◌∙◌, subst, ◌⊎◌, inl, inr, Bool, true, false, not,
  ◌&&◌, ◌||◌, Option, none, some, List, [], ◌∷◌, ◌++◌,
}
use runkit.Stream.{Segment}
use runkit.Stream.Chain.{continues, next_end, are_contiguous, are_contiguous-left}
use runkit.Source.{accept, fails, Delivery, Callback, accepted}
use runkit.Source.Local.{filter_segment}
use runkit.Source.Local.Watching.{
  Taken, segment, closed, done, watch_taken, watch_opened, Watcher, System, Reachable,
}
use runkit.Source.Local.Contiguity.{given}
use runkit.Source.Local.Serving.{Reachable-IsConsistent}

-- The segments that a call takes from its channel, until it ends for another reason than its callback.
abbrev pub taken : List Taken → List Segment
taken [] = []
taken (segment seg ∷ ts) = seg ∷ taken ts
taken (closed e ∷ ts) = []
taken (done ∷ ts) = []

module _ (id : ℕ) (types : Option (List ℕ)) where
  -- Filtering a segment changes neither its stream nor its range.
  next_end-filter_segment :
      (from : Option ℕ) (seg : Segment)
      → next_end id from (filter_segment seg types) ≡ next_end id from seg
  unfolding filter_segment
  next_end-filter_segment from seg = go types
    where
      go :
          (types : Option (List ℕ))
          → next_end id from (filter_segment seg types) ≡ next_end id from seg
      go none = refl
      go (some ts) = refl

  first-filter_segment :
      (from : Option ℕ) (seg : Segment)
      → (not ((filter_segment seg types).stream_id == id)
          || continues (filter_segment seg types) from)
        ≡ (not (seg.stream_id == id) || continues seg from)
  unfolding filter_segment
  first-filter_segment from seg = go types from
    where
      go :
          (types : Option (List ℕ)) (from : Option ℕ)
          → (not ((filter_segment seg types).stream_id == id)
              || continues (filter_segment seg types) from)
            ≡ (not (seg.stream_id == id) || continues seg from)
      go none from = refl
      go (some ts) none = refl
      go (some ts) (some n) = refl

  both_true : (a b : Bool) → (a && b) ≡ true → (a ≡ true) × (b ≡ true)
  both_true true b h = (refl, h)
  both_true false b h = cc

  answer :
      (from : Option ℕ) (c d : Delivery)
      → c ≡ d
      → are_contiguous id from d.0 ≡ true
      → are_contiguous id from c.0 ≡ true
  answer from c d e h = ap (λ d. are_contiguous id from d.0) e ∙ h

  watch_taken-are_contiguous :
      (from : Option ℕ) (ts : List Taken) (fn : Callback)
      → are_contiguous id from (taken ts) ≡ true
      → are_contiguous id from (watch_taken types ts fn).0 ≡ true
  unfolding watch_taken
  watch_taken-are_contiguous from [] fn h = refl
  watch_taken-are_contiguous from (done ∷ ts) fn h = refl
  watch_taken-are_contiguous from (closed e ∷ ts) fn h = refl
  watch_taken-are_contiguous from (segment seg ∷ ts) fn h =
      let (first, rest) = both_true _ _ h in
      let seg' = filter_segment seg types in
      let more = watch_taken types ts (accepted seg' fn) in
      elim (Option-cases (fn [] seg')) [
        | inr (e, refusal) ↦
            answer from (watch_taken types (segment seg ∷ ts) fn) ([], fails e)
              (rw (refusal, watch_taken) refl) refl
        | inl agreed ↦
            answer from (watch_taken types (segment seg ∷ ts) fn) (accept seg' more)
              (rw (agreed, watch_taken) refl)
              (ap (λ b. b && are_contiguous id (next_end id from seg') more.0)
                  (first-filter_segment from seg ∙ first)
                ∙ ap (λ o. are_contiguous id o more.0) (next_end-filter_segment from seg)
                ∙ watch_taken-are_contiguous (next_end id from seg) ts (accepted seg' fn) rest)
      ]

  pub watch_opened-are_contiguous :
      (from : Option ℕ) (opens : List Segment) (ts : List Taken) (fn : Callback)
      → are_contiguous id from (opens ++ taken ts) ≡ true
      → are_contiguous id from (watch_opened types opens ts fn).0 ≡ true
  unfolding watch_opened
  watch_opened-are_contiguous from [] ts fn h = watch_taken-are_contiguous from ts fn h
  watch_opened-are_contiguous from (seg ∷ segs) ts fn h =
      let (first, rest) = both_true _ _ h in
      let more = watch_opened types segs ts (accepted seg fn) in
      elim (Option-cases (fn [] seg)) [
        | inr (e, refusal) ↦
            answer from (watch_opened types (seg ∷ segs) ts fn) ([], fails e)
              (rw (refusal, watch_opened) refl) refl
        | inl agreed ↦
            answer from (watch_opened types (seg ∷ segs) ts fn) (accept seg more)
              (rw (agreed, watch_opened) refl)
              (ap (λ b. b && are_contiguous id (next_end id from seg) more.0) first
                ∙ watch_opened-are_contiguous (next_end id from seg) segs ts (accepted seg fn) rest)
      ]

abbrev pub IsIn : ℕ × Watcher → List (ℕ × Watcher) → Type 0
IsIn x [] = ⊥
IsIn x (y ∷ ys) = (x ≡ y) ⊎ IsIn x ys

All-IsIn :
    (P : ℕ × Watcher → Type 0) (x : ℕ × Watcher) (ys : List (ℕ × Watcher))
    → All P ys
    → IsIn x ys
    → P x
All-IsIn P x [] a i = absurd i
All-IsIn P x (y ∷ ys) a (inl e) = subst P (sym e) a.0
All-IsIn P x (y ∷ ys) a (inr i) = All-IsIn P x ys a.1 i

-- In every state that steps of the calls of Local.Watch and of the goroutines that follow the
-- streams lead to, in any order and with any contents of the database, take a call in the set
-- of watchers or removed from it, and let what it has received so far be its opening segments
-- and what it took from its channel. Then whatever types it filters by and whatever its
-- callback refuses, the segments of each single stream that the callback accepts are
-- contiguous.
pub watch-are_contiguous :
    (segment_size buffer_size : ℕ) (s : System) (x : ℕ × Watcher) (types : Option (List ℕ))
    (opens : List Segment) (ts : List Taken) (fn : Callback) (id : ℕ)
    → Reachable segment_size buffer_size s
    → IsIn x s.local.watchers ⊎ IsIn x s.local.removed
    → x.1.received ≡ opens ++ taken ts
    → are_contiguous id none (watch_opened types opens ts fn).0 ≡ true
watch-are_contiguous segment_size buffer_size s x types opens ts fn id r i eq =
    let c = Reachable-IsConsistent r in
    let all : are_contiguous id none (given x) ≡ true = elim i [
      | inl j ↦ (All-IsIn _ x s.local.watchers c.served j).contiguous id
      | inr j ↦ (All-IsIn _ x s.local.removed c.removed j).contiguous id
    ] in
    watch_opened-are_contiguous id types none opens ts fn (
      subst (λ segs. are_contiguous id none segs ≡ true) eq
        (are_contiguous-left id none x.1.received x.1.segments all))
