-- ===== src/Source/Remote/Pipeline.antt =====
-- A remote source over the server of an in-memory source: internal/eventstream/source/remote.go, server.go and
-- memory.go together.
use mathlib.Core.Path.{fun_ext}
use runkit.Prelude.{
  ◌==◌, replicate, All, ℕ, ◌-◌, ◌≤◌, ◌<◌, ◌≡◌, refl, inr, true, false, Option, none, some, List, [],
  ◌∷◌, ◌++◌, arith,
}
use runkit.Prelude.Maps.{get}
use runkit.Stream.{Envelope, Ordered, between, delivered}
use runkit.Stream.Cover.{Covers-delivered}
use runkit.Source.{ok, accept_all, Callback, Delivery, is_empty}
use runkit.Source.Memory.{Memory, MemoryStream}
use runkit.Source.Memory
use runkit.Source.Memory.Reading.{IsCut}
use runkit.Source.Memory.Whole.{read-Covers}
use runkit.Source.Wire.{Protobuf, WireSegment}
use runkit.Source.Server.Endpoints.{
  Status, crashed, done, in_progress, status, requested_types, read_status, send_parts,
  send_segment, Sender, read_events,
}
use runkit.Source.Remote.{Received, eof, broke, read, message_filter}
use runkit.Source.Remote.Served.{then_received, IsSound, read-served}

requested-message_filter :
    (types : Option (List ℕ)) → requested_types (message_filter types) ≡ inr types
unfolding requested_types message_filter
requested-message_filter none = refl
requested-message_filter (some ts) = refl

module _ (pb : Protobuf) where
  -- What a client receives at the end of a call.
  abbrev pub at_end : Status → List (Received pb)
  at_end crashed = []
  at_end in_progress = []
  at_end done = eof false ∷ []
  at_end (status c) = broke false c ∷ []

  abbrev pub always : Sender pb
  always sent part = true

  send_parts-always :
      (sent parts : List (WireSegment pb.Multi)) → send_parts pb always sent parts ≡ true
  unfolding send_parts
  send_parts-always sent [] = refl
  send_parts-always sent (p ∷ ps) = send_parts-always (sent ++ p ∷ []) ps

  send_segment-always : (max_bytes : ℕ) → send_segment pb always max_bytes ≡ accept_all
  send_segment-always max_bytes =
      fun_ext (λ before. fun_ext (λ seg. rw (send_parts-always _ _) refl))

  -- Memory.Read, on a source that does not change.
  abbrev pub serve : ℕ → Memory → ℕ → ℕ → Option (List ℕ) → Callback → Delivery
  serve n m id begin types fn = Memory.read (replicate n m) id types begin fn

  module _ (types : Option (List ℕ)) (id lo hi : ℕ) (all : List Envelope)
      (known : pb.valid_id id ≡ true) (o : Ordered lo hi all) where
    -- Let the events of a stream have increasing offsets, each of them with the valid ID of the
    -- stream, valid, and of a size that is not zero. Let an in-memory source that does not
    -- change hold those of them below the end of its stream, which is under 2^64, and let the
    -- server of that source, whose maximum message size is positive and to whose sends nothing
    -- happens, be read from an offset that is not beyond the end, for requested types that are
    -- not an empty set, with one round more than there are offsets to the end. Then a remote
    -- Read of what the server answers, with a callback that refuses nothing, returns nil and
    -- delivers exactly the requested events from the offset to the end.
    pub read-read_events :
        (max_bytes n begin : ℕ) (m : Memory) (str : MemoryStream)
        → 0 < max_bytes
        → is_empty types ≡ false
        → All (IsSound pb types id lo hi all known) all
        → get m.streams id ≡ some str
        → IsCut all str
        → begin ≤ str.end
        → str.end - begin < n
        → let r = read_events pb (serve n m) always max_bytes id begin (message_filter types) in
          let d = read pb none id types begin (then_received pb r.0 (at_end r.1)) accept_all in
          (d.1 ≡ ok) × (delivered d.0 ≡ between types begin str.end all)
    unfolding read_events read_status
    read-read_events max_bytes n begin m str pos ne sound has_it c b l =
        let (finished, covers) = read-Covers lo hi id all types o n begin m str ne has_it c b l in
        let (ended, covers') =
          read-served pb types id lo hi all known max_bytes begin str.end
            (serve n m id begin types accept_all).0 ne o c.fits sound covers in
        rw
          (
            positive max_bytes pos,
            known,
            requested-message_filter types,
            send_segment-always max_bytes,
            finished,
          )
          (ended, Covers-delivered types id all lo hi begin str.end _ o covers')
      where
        positive : (n : ℕ) → 0 < n → (n == 0) ≡ false
        positive n l = ground arith
