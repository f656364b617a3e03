-- ===== src/Examples/Data.antt =====
-- Events, streams and an implementation of the wire format to run the definitions on.
use mathlib.Core.Option.{some-injective}
use runkit.Prelude.{
  ◌==◌, if◌then◌else◌, Bool-cases, ℕ, suc, ◌≡◌, refl, sym, ap, inl, inr, Bool, true, not, ◌&&◌,
  Option, none, some, List, [], ◌∷◌, ◌++◌, arith,
}
use runkit.Stream.{Envelope}
use runkit.Source.Memory.{MemoryStream, Memory}
use runkit.Source.Wire.{Raw, raw, Protobuf}

-- The event of stream 7 at an offset, of a type and with a header.
abbrev pub event_at : ℕ → ℕ → ℕ → Envelope
event_at offset type_id header = record {
  stream_id = 7;
  offset = offset;
  message_id = suc offset;
  type_id = type_id;
  header = header;
  body = 0;
}

abbrev pub early : List Envelope
early = event_at 3 1 5 ∷ event_at 4 2 5 ∷ []

abbrev pub late : List Envelope
late = event_at 6 1 6 ∷ event_at 8 1 6 ∷ []

abbrev pub stream_events : List Envelope
stream_events = event_at 3 1 5 ∷ event_at 4 2 5 ∷ event_at 6 1 6 ∷ event_at 8 1 6 ∷ []

-- The stream with all the events, and the same stream before the last two.
abbrev pub grown : MemoryStream
grown = record { envelopes = stream_events; end = 9 }

abbrev pub young : MemoryStream
young = record { envelopes = early; end = 6 }

abbrev pub memory_of : MemoryStream → Memory
memory_of str = record { segment_size = 1; streams = (7, str) ∷ []; changes = 0 }

abbrev pub is_intact : List Raw → Bool
is_intact [] = true
is_intact (r ∷ rs) = not (r.message_id == 0) && is_intact rs

pub is_intact-append :
    (rs : List Raw) (r : Raw)
    → is_intact rs ≡ true
    → not (r.message_id == 0) ≡ true
    → is_intact (rs ++ r ∷ []) ≡ true
is_intact-append [] r h g = rw g refl
is_intact-append (x ∷ rs) r h g = ground (arith, is_intact-append rs r)

abbrev pub join_header : ℕ × List Raw → Envelope → Option (ℕ × List Raw)
join_header m e = if m.0 == e.header then some (m.0, m.1 ++ raw e ∷ []) else none

abbrev pub is_named : Envelope → Bool
is_named e = not (e.message_id == 0)

pub join_header-eq :
    (m : ℕ × List Raw) (e : Envelope) (m' : ℕ × List Raw)
    → join_header m e ≡ some m'
    → m'.1 ≡ m.1 ++ raw e ∷ []
join_header-eq m e m' h = elim (Bool-cases (m.0 == e.header)) [
  | inl same ↦ sym (ap (λ x. x.1) (some-injective _ _ (rw same at h)))
  | inr other' ↦ cc (rw other' at h)
]

-- Multi-envelopes are a header and the envelopes that have it.
abbrev pub toy : Protobuf
toy = record {
  Multi = ℕ × List Raw;
  valid = λ m. is_intact m.1;
  members = λ m. m.1;
  as_multi = λ e. (e.header, raw e ∷ []);
  try_append = join_header;
  header_size = λ e. 2;
  body_size = λ e. 3;
  valid_id = λ id. not (id == 0);
  is_valid = is_named;
  members-as_multi = λ e. refl;
  members-try_append = join_header-eq;
  valid-as_multi = λ e v. rw v;
  valid-try_append =
      λ m e m' h v w. rw (join_header-eq m e m' h) (is_intact-append m.1 (raw e) v w);
}
