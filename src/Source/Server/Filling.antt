-- ===== src/Source/Server/Filling.antt =====
-- splitSegment of internal/eventstream/source/server.go: what is added to a part.
use mathlib.Core.List.{map-append}
use mathlib.Core.Path.{ap₂}
use runkit.Prelude.{
  Option-cases, ◌+◌, ◌≡◌, sym, ap, ◌∙◌, inl, inr, true, some, List, [], ◌∷◌, ◌++◌, map, append-nil,
  append_assoc, arith,
}
use runkit.Stream.{Envelope}
use runkit.Source.Wire.{
  raw, Protobuf, raws, AllValid, raws-append, AllValid-append, AllValid-left, AllValid-right,
}
use runkit.Source.Server.{Part, all_multis, add}

module _ (pb : Protobuf) where
  open pb use {Multi, members, try_append, as_multi, header_size, body_size, is_valid}

  -- The two ways in which an event is added.
  pub data Added (p : Part pb) (e : Envelope) (q : Part pb) : Type 0 where
    joins :
        (m m' : Multi)
        → p.multi ≡ some m
        → try_append m e ≡ some m'
        → q ≡ record p { multi = some m'; size = p.size + body_size e }
        → Added p e q
    begins :
        q ≡ record p {
          finished = all_multis pb p;
          multi = some (as_multi e);
          size = p.size + header_size e + body_size e;
        }
        → Added p e q

  pub add-Added : (p : Part pb) (e : Envelope) → Added p e (add pb p e)
  unfolding add
  add-Added p e = elim (Option-cases p.multi) [
    | inl empty ↦ begins (ground (arith, empty))
    | inr (m, last) ↦ elim (Option-cases (try_append m e)) [
      | inl refused ↦ begins (ground (arith, last, refused))
      | inr (m', joined) ↦ joins m m' last joined (ground (arith, last, joined))
    ]
  ]

  -- What a part holds.
  pub record Holds (p : Part pb) (held : List Envelope) : Type 0 where
    pub same : raws pb (all_multis pb p) ≡ map raw held
    pub intact : AllValid pb (all_multis pb p)

  -- Adding an event keeps all the multi-envelopes, and the event is the last of them.
  pub add-Holds :
      (p : Part pb) (held : List Envelope) (e : Envelope)
      → Holds p held
      → is_valid e ≡ true
      → Holds (add pb p e) (held ++ e ∷ [])
  add-Holds p held e h v = go (add pb p e) (add-Added p e)
    where
      parts : (m : Multi) → p.multi ≡ some m → AllValid pb (p.finished ++ m ∷ [])
      parts m last = rw last at h.intact

      held_same : (m : Multi) → p.multi ≡ some m → raws pb p.finished ++ members m ≡ map raw held
      held_same m last =
          ap (◌++◌ (raws pb p.finished)) (sym (append-nil (members m)))
          ∙ sym (raws-append pb p.finished (m ∷ []))
          ∙ (rw last at h.same)

      joined_same :
          (m : Multi)
          → p.multi ≡ some m
          → raws pb p.finished ++ ((members m ++ raw e ∷ []) ++ []) ≡ map raw (held ++ e ∷ [])
      joined_same m last =
          ap (◌++◌ (raws pb p.finished)) (append-nil (members m ++ raw e ∷ []))
          ∙ sym (append_assoc (raws pb p.finished) (members m) (raw e ∷ []))
          ∙ ap (λ xs. xs ++ raw e ∷ []) (held_same m last)
          ∙ sym (map-append raw held (e ∷ []))

      go : (q : Part pb) → Added p e q → Holds q (held ++ e ∷ [])
      go q (joins m m' last joined eq) = rw eq (record {
        same =
            raws-append pb p.finished (m' ∷ [])
            ∙ ap (λ xs. raws pb p.finished ++ (xs ++ [])) (pb.members-try_append m e m' joined)
            ∙ joined_same m last;
        intact =
            AllValid-append pb p.finished (m' ∷ [])
              (AllValid-left pb p.finished (m ∷ []) (parts m last))
              (
                pb.valid-try_append m e m' joined
                    (AllValid-right pb p.finished (m ∷ []) (parts m last)).0 v,
                tt,
              );
      })
      go q (begins eq) = rw eq (record {
        same =
            raws-append pb (all_multis pb p) (as_multi e ∷ [])
            ∙ ap₂ ◌++◌ h.same (ap (λ xs. xs ++ []) (pb.members-as_multi e))
            ∙ sym (map-append raw held (e ∷ []));
        intact =
            AllValid-append pb (all_multis pb p) (as_multi e ∷ []) h.intact
              (pb.valid-as_multi e v, tt);
      })
