-- ===== src/Aggregate/Recording.antt =====
-- commandScope.RecordEvent of internal/aggregate/commandscope.go: what the events of a command make of the root.
use runkit.Prelude.{
  ltb, leb, lt→ltb, Bool-cases, Option-cases, filter, All, ℕ, suc, ◌<◌, ◌≡◌, refl, ap, ◌∙◌, subst,
  inl, inr, true, not, ◌||◌, Option, none, some, List, [], ◌∷◌, arith,
}
use runkit.Stream.{Envelope}
use runkit.Source.Local.{order_by_offset, insert_by_offset}
use runkit.Schema.EventStream.{NewEvent}
use runkit.Aggregate.{CommandPump, Others, apply_events}
use runkit.Aggregate.Commands.{record_events}
use runkit.Aggregate.History.{new_envelope, new_envelopes}

module _ {Root : Type 0} (p : CommandPump Root) (others : Others) (fresh : Root) where
  -- The package that packs messages documents that what it packs can be unpacked.
  abbrev pub IsFaithful : Type 0
  IsFaithful =
      (env id position event : ℕ)
      → p.packer.permits event ≡ true
      → p.packer.validates event ≡ true
      → p.packer.unpack_event (p.packer.pack_event env id position event).header
          (p.packer.pack_event env id position event).body
        ≡ some event

  -- dogma asks of a root that a snapshot that it can read is the state that was written.
  abbrev pub IsRestorable : Type 0
  IsRestorable =
      (root root' : Root) (bytes : ℕ)
      → p.handler.marshal root ≡ some bytes
      → p.handler.unmarshal bytes fresh ≡ some root'
      → root ≡ root'

  apply_first :
      (x : Envelope) (es : List Envelope) (root root' : Root) (event : ℕ)
      → p.packer.unpack_event x.header x.body ≡ some event
      → p.handler.apply event root ≡ some root'
      → apply_events p others (x ∷ es) root ≡ apply_events p others es root'
  unfolding apply_events
  apply_first x es root root' event read applied = rw (read, applied, apply_events)

  nothing_left : (root : Root) → apply_events p others [] root ≡ inr root
  unfolding apply_events
  nothing_left root = refl

  -- RecordEvent fails, or its parts succeed.
  record_events-parts :
      (env id position e : ℕ) (es : List ℕ) (root final : Root) (packed : List NewEvent)
      → record_events p others env id position (e ∷ es) root ≡ some (packed, final)
      → (root' : Root) × (rest : List NewEvent) × (p.packer.permits e ≡ true)
        × (p.packer.validates e ≡ true)
        × (p.handler.apply e root ≡ some root')
        × (record_events p others env id (suc position) es root' ≡ some (rest, final))
        × (p.packer.pack_event env id position e ∷ rest ≡ packed)
  unfolding record_events
  record_events-parts env id position e es root final packed h =
      elim (Bool-cases (not (p.packer.permits e) || not (p.packer.validates e))) [
        | inl refused ↦ absurd (no_panic (rw (refused, record_events) at h))
        | inr fine ↦ elim (Option-cases (p.handler.apply e root)) [
          | inl panics ↦ absurd (no_panic (rw (fine, panics, record_events) at h))
          | inr (root', applied) ↦
              elim (Option-cases (record_events p others env id (suc position) es root')) [
                | inl panics ↦ absurd (no_panic (rw (fine, applied, panics, record_events) at h))
                | inr (r, rest) ↦
                    let h' : ◌≡◌ {A = Option (List NewEvent × Root)}
                        (some (p.packer.pack_event env id position e ∷ r.0, r.1))
                        (some (packed, final)) =
                      rw (fine, applied, rest, record_events) at h in
                    (
                      root',
                      r.0,
                      ground (arith, fine),
                      ground (arith, fine),
                      applied,
                      rest ∙ ap some (same_final r h'),
                      cc,
                    )
              ]
        ]
      ]
    where
      no_panic : ◌≡◌ {A = Option (List NewEvent × Root)} none (some (packed, final)) → ⊥
      no_panic h = cc

      same_final :
          (r : List NewEvent × Root)
          → ◌≡◌ {A = Option (List NewEvent × Root)}
              (some (p.packer.pack_event env id position e ∷ r.0, r.1))
              (some (packed, final))
          → ◌≡◌ {A = List NewEvent × Root} r (r.0, final)
      same_final r h' = let q : r.1 ≡ final = cc in ap (λ x. (r.0, x)) q

  -- The recorded events, read back from the stream, lead to the root that recorded them.
  pub record_events-apply_events :
      (faithful : IsFaithful) (env id position stream next : ℕ) (events : List ℕ)
      (root final : Root) (packed : List NewEvent)
      → record_events p others env id position events root ≡ some (packed, final)
      → apply_events p others (new_envelopes stream next packed) root ≡ inr final
  unfolding record_events
  record_events-apply_events faithful env id position stream next [] root final packed h =
      let none_packed : [] ≡ packed = cc in
      let same : root ≡ final = cc in
      subst (λ ps. apply_events p others (new_envelopes stream next ps) root ≡ inr final)
        none_packed (nothing_left root ∙ ap inr same)
  record_events-apply_events faithful env id position stream next (e ∷ es) root final packed h =
      let (root', rest, permitted, valid, applied, h', same) =
        record_events-parts env id position e es root final packed h in
      subst (λ ps. apply_events p others (new_envelopes stream next ps) root ≡ inr final) same
        (apply_first (new_envelope stream next (p.packer.pack_event env id position e))
            (new_envelopes stream (suc next) rest) root root' e
            (faithful env id position e permitted valid) applied
          ∙ record_events-apply_events faithful env id (suc position) stream (suc next) es root'
              final rest h')

  All-insert :
      (P : Envelope → Type 0) (x : Envelope) (es : List Envelope)
      → P x
      → All P es
      → All P (insert_by_offset x es)
  All-insert P x [] h a = (h, tt)
  All-insert P x (y ∷ ys) h a = elim (Bool-cases (leb x.offset y.offset)) [
    | inl first ↦ rw first (h, a)
    | inr after ↦ rw after (a.0, All-insert P x ys h a.1)
  ]

  pub All-order :
      (P : Envelope → Type 0) (es : List Envelope) → All P es → All P (order_by_offset es)
  All-order P [] a = tt
  All-order P (e ∷ es) a = All-insert P e (order_by_offset es) a.0 (All-order P es a.1)

  pub filter_below :
      (n : ℕ) (es : List Envelope)
      → All (λ e. e.offset < n) es
      → filter (λ e. ltb e.offset n) es ≡ es
  filter_below n [] a = refl
  filter_below n (e ∷ es) a = rw (lt→ltb e.offset n a.0) (ap (◌∷◌ e) (filter_below n es a.1))
