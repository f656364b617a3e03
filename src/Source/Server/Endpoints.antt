-- ===== src/Source/Server/Endpoints.antt =====
-- internal/eventstream/source/server.go: WatchEvents and ReadEvents over any source.
use runkit.Prelude.{
  ◌==◌, if◌then◌else◌, ℕ, ◌⊎◌, inl, inr, Bool, true, false, not, Option, none, some, List, [], ◌∷◌,
  ◌++◌,
}
use runkit.Stream.{Segment}
use runkit.Source.{
  consumer_too_slow, unrecognized_stream, offset_out_of_range, failed, Callback, Ending, panics, ok,
  unfinished, fails, Delivery,
}
use runkit.Source.Wire.{
  Protobuf, WireSegment, Code, aborted, not_found, out_of_range, invalid_argument, other, Filter,
  all_types, invalid_filter, specific,
}
use runkit.Source.Server.{split}

-- requestedTypes.
unfoldable pub requested_types : Filter → Code ⊎ Option (List ℕ)
requested_types invalid_filter = inl invalid_argument
requested_types all_types = inr none
requested_types (specific ids) = inr (some ids)

-- How a call of the service ends: it panics, ends the stream, or ends it with a status.
pub data Status : Type 0 where
  crashed done in_progress : Status
  status : Code → Status

-- The errors at the end of WatchEvents. An error that is no status has the code of an unknown error.
unfoldable pub watch_status : Ending → Status
watch_status panics = crashed
watch_status ok = done
watch_status unfinished = in_progress
watch_status (fails consumer_too_slow) = status aborted
watch_status (fails _) = status other

-- The errors at the end of ReadEvents.
unfoldable pub read_status : Ending → Status
read_status panics = crashed
read_status ok = done
read_status unfinished = in_progress
read_status (fails unrecognized_stream) = status not_found
read_status (fails offset_out_of_range) = status out_of_range
read_status (fails _) = status other

module _ (pb : Protobuf) where
  open pb use {Multi, valid_id}

  -- What the server sends for a sequence of segments.
  abbrev pub split_all : ℕ → List Segment → List (WireSegment Multi)
  split_all max_bytes [] = []
  split_all max_bytes (s ∷ ss) = split pb max_bytes s ++ split_all max_bytes ss

  -- The same for segments of which the latest comes first.
  abbrev pub split_before : ℕ → List Segment → List (WireSegment Multi)
  split_before max_bytes [] = []
  split_before max_bytes (s ∷ ss) = split_before max_bytes ss ++ split pb max_bytes s

  -- Whether Send accepts a message, after others.
  abbrev pub Sender : Type 0
  Sender = List (WireSegment Multi) → WireSegment Multi → Bool

  -- splitAndSendSegment.
  unfoldable pub send_parts : Sender → List (WireSegment Multi) → List (WireSegment Multi) → Bool
  send_parts send sent [] = true
  send_parts send sent (part ∷ parts) =
      let rest = send_parts send (sent ++ part ∷ []) parts in if send sent part then rest else false

  -- The callback that the server gives to its source.
  abbrev pub send_segment : Sender → ℕ → Callback
  send_segment send max_bytes before seg =
      if send_parts send (split_before max_bytes before) (split pb max_bytes seg)
      then none
      else some (failed 2)

  -- A source's Watch, and its Read of some stream from some offset.
  abbrev pub Serve : Type 0
  Serve = Option (List ℕ) → Callback → Delivery

  -- The parts of the segments that were sent whole, and the status.
  abbrev pub Response : Type 0
  Response = List (WireSegment Multi) × Status

  -- Server.WatchEvents.
  unfoldable pub watch_events : Serve → Sender → ℕ → Filter → Response
  watch_events watch send max_bytes filter' =
      if max_bytes == 0 then ([], crashed) else elim (requested_types filter') [
        | inl code ↦ ([], status code)
        | inr types ↦
            let d = watch types (send_segment send max_bytes) in
            (split_all max_bytes d.0, watch_status d.1)
      ]

  -- Server.ReadEvents.
  unfoldable pub read_events : (ℕ → ℕ → Serve) → Sender → ℕ → ℕ → ℕ → Filter → Response
  read_events read send max_bytes id begin filter' =
      if max_bytes == 0
      then ([], crashed)
      else if not (valid_id id)
      then ([], status invalid_argument)
      else elim (requested_types filter') [
        | inl code ↦ ([], status code)
        | inr types ↦
            let d = read id begin types (send_segment send max_bytes) in
            (split_all max_bytes d.0, read_status d.1)
      ]
