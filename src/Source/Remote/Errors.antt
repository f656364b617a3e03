-- ===== src/Source/Remote/Errors.antt =====
-- The errors of a source across the wire: the status codes of internal/eventstream/source/server.go, as read back by
-- internal/eventstream/source/remote.go.
use runkit.Prelude.{◌≡◌, refl, ◌≢◌, ◌⊎◌, inl, inr, false, some}
use runkit.Source.{
  Error, consumer_too_slow, unrecognized_stream, offset_out_of_range, invalid_segment, unsupported,
  canceled, feed_closed, caught_up, stream_not_found, ends_early, stopped_watching, failed,
  persistent, fails,
}
use runkit.Source.Wire.{Code, aborted, not_found, out_of_range, other}
use runkit.Source.Server.Endpoints.{status, read_status, watch_status}
use runkit.Source.Remote.{read_error, watch_error}

-- The errors that a consumer of Read tells apart.
abbrev pub IsKnown : Error → Type 0
IsKnown e = (e ≡ unrecognized_stream) ⊎ (e ≡ offset_out_of_range)

-- An error at the end of a source's Read that says that the stream is not recognized or that
-- the offset is out of range is given a status code by the server that a remote Read, whose
-- context is not canceled, turns into the same error; any other error becomes one of neither
-- kind.
pub read_error-read_status :
    (e : Error)
    → (c : Code) × (read_status (fails e) ≡ status c)
      × ((IsKnown e × (read_error false c ≡ e)) ⊎ ((¬ IsKnown e) × (read_error false c ≡ failed 0)))
unfolding read_error read_status
read_error-read_status unrecognized_stream = (not_found, refl, inl (inl refl, refl))
read_error-read_status offset_out_of_range = (out_of_range, refl, inl (inr refl, refl))
read_error-read_status consumer_too_slow =
    (other, refl, inr (λ k. elim k [ inl q ↦ cc | inr q ↦ cc ], refl))
read_error-read_status invalid_segment =
    (other, refl, inr (λ k. elim k [ inl q ↦ cc | inr q ↦ cc ], refl))
read_error-read_status unsupported =
    (other, refl, inr (λ k. elim k [ inl q ↦ cc | inr q ↦ cc ], refl))
read_error-read_status canceled = (other, refl, inr (λ k. elim k [ inl q ↦ cc | inr q ↦ cc ], refl))
read_error-read_status feed_closed =
    (other, refl, inr (λ k. elim k [ inl q ↦ cc | inr q ↦ cc ], refl))
read_error-read_status caught_up =
    (other, refl, inr (λ k. elim k [ inl q ↦ cc | inr q ↦ cc ], refl))
read_error-read_status stream_not_found =
    (other, refl, inr (λ k. elim k [ inl q ↦ cc | inr q ↦ cc ], refl))
read_error-read_status ends_early =
    (other, refl, inr (λ k. elim k [ inl q ↦ cc | inr q ↦ cc ], refl))
read_error-read_status stopped_watching =
    (other, refl, inr (λ k. elim k [ inl q ↦ cc | inr q ↦ cc ], refl))
read_error-read_status (failed n) =
    (other, refl, inr (λ k. elim k [ inl q ↦ cc | inr q ↦ cc ], refl))
read_error-read_status (persistent e) =
    (other, refl, inr (λ k. elim k [ inl q ↦ cc | inr q ↦ cc ], refl))

-- An error at the end of a source's Watch that says that the consumer is too slow is given a
-- status code by the server that a remote Watch, whose context is not canceled, turns into the
-- same error; any other error becomes one that does not say so.
pub watch_error-watch_status :
    (e : Error)
    → (c : Code) × (watch_status (fails e) ≡ status c)
      × (((e ≡ consumer_too_slow) × (watch_error false (some c) ≡ e))
          ⊎ ((e ≢ consumer_too_slow) × (watch_error false (some c) ≡ failed 0)))
unfolding watch_error watch_status
watch_error-watch_status consumer_too_slow = (aborted, refl, inl (refl, refl))
watch_error-watch_status invalid_segment = (other, refl, inr (λ q. cc, refl))
watch_error-watch_status unsupported = (other, refl, inr (λ q. cc, refl))
watch_error-watch_status canceled = (other, refl, inr (λ q. cc, refl))
watch_error-watch_status feed_closed = (other, refl, inr (λ q. cc, refl))
watch_error-watch_status caught_up = (other, refl, inr (λ q. cc, refl))
watch_error-watch_status stream_not_found = (other, refl, inr (λ q. cc, refl))
watch_error-watch_status ends_early = (other, refl, inr (λ q. cc, refl))
watch_error-watch_status stopped_watching = (other, refl, inr (λ q. cc, refl))
watch_error-watch_status (failed n) = (other, refl, inr (λ q. cc, refl))
watch_error-watch_status (persistent e) = (other, refl, inr (λ q. cc, refl))
watch_error-watch_status unrecognized_stream = (other, refl, inr (λ q. cc, refl))
watch_error-watch_status offset_out_of_range = (other, refl, inr (λ q. cc, refl))
