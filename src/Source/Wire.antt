-- ===== src/Source/Wire.antt =====
-- What travels between engines (the messaginggrpc and envelopepb packages, which the sources only call):
-- the data of a segment on the wire, and the operations on multi-envelopes as an interface.
use runkit.Prelude.{
  ℕ, ◌≡◌, refl, sym, ap, ◌∙◌, Bool, true, Option, some, List, [], ◌∷◌, ◌++◌, append_assoc,
}
use runkit.Stream.{Envelope}

-- The gRPC status codes that the sources tell apart.
pub data Code : Type 0 where
  aborted unimplemented not_found out_of_range invalid_argument other : Code

-- The filter of a request.
pub data Filter : Type 0 where
  all_types invalid_filter : Filter
  specific : List ℕ → Filter

-- The event stream position of an envelope that was received.
pub data Position : Type 0 where
  absent malformed : Position
  position : ℕ → ℕ → Position

-- An envelope as it was received.
pub record Raw : Type 0 where
  pub message_id : ℕ
  pub type_id : ℕ
  pub header : ℕ
  pub body : ℕ
  pub position : Position

-- An envelope as it is sent.
abbrev pub raw : Envelope → Raw
raw e = record {
  message_id = e.message_id;
  type_id = e.type_id;
  header = e.header;
  body = e.body;
  position = position e.stream_id e.offset;
}

-- An envelope that has a position.
abbrev pub envelope : Raw → ℕ → ℕ → Envelope
envelope r stream_id offset = record {
  stream_id = stream_id;
  offset = offset;
  message_id = r.message_id;
  type_id = r.type_id;
  header = r.header;
  body = r.body;
}

-- Envelopes with one header between them. `valid` is Validate with no error, and `try_append` is
-- TryAppendEnvelope with the multi-envelope that it leaves if it returns true. The laws are what that
-- package documents of them.
pub record Protobuf : Type 1 where
  pub Multi : Type 0
  pub valid : Multi → Bool
  pub members : Multi → List Raw
  pub as_multi : Envelope → Multi
  pub try_append : Multi → Envelope → Option Multi
  pub header_size : Envelope → ℕ
  pub body_size : Envelope → ℕ
  pub valid_id : ℕ → Bool
  pub is_valid : Envelope → Bool
  pub members-as_multi : (e : Envelope) → members (as_multi e) ≡ raw e ∷ []
  pub members-try_append :
      (m : Multi) (e : Envelope) (m' : Multi)
      → try_append m e ≡ some m'
      → members m' ≡ members m ++ raw e ∷ []
  pub valid-as_multi : (e : Envelope) → is_valid e ≡ true → valid (as_multi e) ≡ true
  pub valid-try_append :
      (m : Multi) (e : Envelope) (m' : Multi)
      → try_append m e ≡ some m'
      → valid m ≡ true
      → is_valid e ≡ true
      → valid m' ≡ true

-- A segment as it is sent, with its multi-envelopes.
pub record WireSegment (Multi : Type 0) : Type 0 where
  pub stream_id : ℕ
  pub begin : ℕ
  pub end : ℕ
  pub multis : List Multi

module _ (pb : Protobuf) where
  -- What all of some multi-envelopes hold.
  abbrev pub raws : List pb.Multi → List Raw
  raws [] = []
  raws (m ∷ ms) = pb.members m ++ raws ms

  abbrev pub AllValid : List pb.Multi → Type 0
  AllValid [] = Unit
  AllValid (m ∷ ms) = (pb.valid m ≡ true) × AllValid ms

  pub raws-append : (ms ns : List pb.Multi) → raws (ms ++ ns) ≡ raws ms ++ raws ns
  raws-append [] ns = refl
  raws-append (m ∷ ms) ns =
      ap (◌++◌ (pb.members m)) (raws-append ms ns)
      ∙ sym (append_assoc (pb.members m) (raws ms) (raws ns))

  pub AllValid-append : (ms ns : List pb.Multi) → AllValid ms → AllValid ns → AllValid (ms ++ ns)
  AllValid-append [] ns v w = w
  AllValid-append (m ∷ ms) ns v w = (v.0, AllValid-append ms ns v.1 w)

  pub AllValid-left : (ms ns : List pb.Multi) → AllValid (ms ++ ns) → AllValid ms
  AllValid-left [] ns v = tt
  AllValid-left (m ∷ ms) ns v = (v.0, AllValid-left ms ns v.1)

  pub AllValid-right : (ms ns : List pb.Multi) → AllValid (ms ++ ns) → AllValid ns
  AllValid-right [] ns v = v
  AllValid-right (m ∷ ms) ns v = AllValid-right ms ns v.1
