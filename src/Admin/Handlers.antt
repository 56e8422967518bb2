-- ===== src/Admin/Handlers.antt =====
-- internal/adapter/api/handler/admin_handler.go: the requests as their path values, query values and
-- body.
use watch_tower.Common.{ℕ, List, if◌then◌else◌, Text, Result, ok, err, is_empty}
use watch_tower.Common.Int.{ℤ, pos, is_nonpos}
use watch_tower.Domain.{LogEvent}
use watch_tower.Domain.Codec.{Codec}
use watch_tower.Api.Auth.{Reply, status, Handler}
use watch_tower.Domain.Streams.{GroupInfo, ConsumerInfo, PendingSummary, PendingDetail}
use watch_tower.Admin.{AdminClient, admin_repository}
use watch_tower.Admin.UseCase.{
  AdminStreamUseCase, get_group_info, get_consumer_info, get_pending_summary, get_pending_messages,
  claim_messages, acknowledge_messages, trim_stream,
}

-- The payload of a claim.
pub record ClaimPayload : Type 0 where
  pub consumer : Text
  pub min_idle_time : Text
  pub message_ids : List Text

-- The values that are encoded into a response.
pub data Payload : Type 0 where
  groups : List GroupInfo → Payload
  consumers : List (ConsumerInfo ℤ) → Payload
  summary : PendingSummary → Payload
  details : List PendingDetail → Payload
  events : List LogEvent → Payload
  count : ℕ → Payload

-- strconv.ParseInt, time.ParseDuration and encoding/json at the payloads.
pub record Formats : Type 0 where
  pub parse_int : Text → Result ℤ
  pub parse_duration : Text → Result ℤ
  pub decode_claim : Text → Result ClaimPayload
  pub decode_ids : Text → Result (List Text)
  pub decode_max_len : Text → Result ℤ
  pub marshal : Payload → Result Text

module _ {S : Type 0} (client : AdminClient S) (codec : Codec) (formats : Formats) where
  -- The use case that cmd/ingest/main.go gives to the handlers.
  abbrev pub use_case : AdminStreamUseCase S
  use_case = record { repo = admin_repository client codec }

  -- respondWithJSON
  unfoldable pub respond_with_json : Payload → Reply
  respond_with_json payload = elim (formats.marshal payload) [
    | err _ ↦ status 500
    | ok _ ↦ status 200
  ]

  -- The end of each handler: an error of the use case, or the response.
  unfoldable pub answer : {A : Type 0} → (A → Payload) → Result A × S → Reply × S
  unfolding respond_with_json
  answer f (err _, s) = (status 500, s)
  answer f (ok a, s) = (respond_with_json (f a), s)

  abbrev pub handle_health_check : Handler S
  handle_health_check s = (status 200, s)

  unfoldable pub handle_group_info : Text → Handler S
  unfolding answer
  handle_group_info stream s =
      if is_empty stream then (status 400, s) else answer groups (get_group_info use_case stream s)

  unfoldable pub handle_consumer_info : Text → Text → Handler S
  unfolding answer
  handle_consumer_info stream group s = answer consumers (get_consumer_info use_case stream group s)

  unfoldable pub handle_pending_summary : Text → Text → Handler S
  unfolding answer
  handle_pending_summary stream group s =
      answer summary (get_pending_summary use_case stream group s)

  -- The value of the query parameter count.
  unfoldable pub count_of : Text → Result ℤ
  count_of text = if is_empty text then ok (pos 100) else formats.parse_int text

  unfoldable pub handle_pending_messages : Text → Text → Text → Text → Text → Handler S
  unfolding answer count_of
  handle_pending_messages stream group consumer start count_text s = elim (count_of count_text) [
    | err _ ↦ (status 400, s)
    | ok n ↦ answer details (get_pending_messages use_case stream group consumer start n s)
  ]

  unfoldable pub handle_claim : Text → Text → Text → Handler S
  unfolding answer
  handle_claim stream group body s = elim (formats.decode_claim body) [
    | err _ ↦ (status 400, s)
    | ok payload ↦ elim (formats.parse_duration payload.min_idle_time) [
      | err _ ↦ (status 400, s)
      | ok min_idle ↦
          answer events
            (claim_messages use_case stream group payload.consumer min_idle payload.message_ids s)
    ]
  ]

  unfoldable pub handle_acknowledge : Text → Text → Text → Handler S
  unfolding answer
  handle_acknowledge stream group body s = elim (formats.decode_ids body) [
    | err _ ↦ (status 400, s)
    | ok ids ↦
        if is_empty ids
        then (status 400, s)
        else answer count (acknowledge_messages use_case stream group ids s)
  ]

  unfoldable pub handle_trim : Text → Text → Handler S
  unfolding answer
  handle_trim stream body s = elim (formats.decode_max_len body) [
    | err _ ↦ (status 400, s)
    | ok max_len ↦
        if is_nonpos max_len
        then (status 400, s)
        else answer count (trim_stream use_case stream max_len s)
  ]
