-- ===== src/Pii.antt =====
-- internal/adapter/pii/redactor.go. Metadata are decoded to a Go map with values of a type `V`;
-- encoding/json is a parameter here too, `ObjectCodec`.
pub mod Redaction
use watch_tower.Common.{
  Bool, true, false, ◌||◌, Option, none, some, List, [], ◌∷◌, if◌then◌else◌, Text, codes, Done,
  Result, ok, err, is_empty,
}
use watch_tower.Common.Assoc.{Assoc, lookup, insert}
use watch_tower.Domain.{LogEvent}

-- json.Unmarshal into a map[string]interface{}, json.Marshal of one, and a string as a value.
pub record ObjectCodec (V : Type 0) : Type 0 where
  pub decode : Text → Result (Assoc V)
  pub encode : Assoc V → Result Text
  pub string : Text → V

abbrev pub redacted_placeholder : Text
redacted_placeholder = codes "[REDACTED]"

-- The keys of the map fieldsToRedact, in the order in which `range` visits them.
pub record Redactor : Type 0 where
  pub fields_to_redact : List Text

-- The loop of NewRedactor, which adds each field once.
unfoldable pub field_set : List Text → Assoc Unit → Assoc Unit
field_set [] m = m
field_set (f ∷ fs) m = field_set fs (insert f tt m)

abbrev pub keys : Assoc Unit → List Text
keys [] = []
keys ((k, _) ∷ m) = k ∷ keys m

unfoldable pub new_redactor : List Text → Redactor
unfolding field_set
new_redactor fields = record { fields_to_redact = keys (field_set fields []) }

module _ {V : Type 0} (codec : ObjectCodec V) where
  -- The loop over the fields, with the map and the flag `redacted`.
  unfoldable pub redact_fields : List Text → Assoc V → Bool → Assoc V × Bool
  redact_fields [] m done = (m, done)
  redact_fields (f ∷ fs) m done = elim (lookup f m) [
    | none ↦ redact_fields fs m done
    | some _ ↦ redact_fields fs (insert f (codec.string redacted_placeholder) m) true
  ]

  -- `if redacted { ... }`: the flag of the event is set before the map is encoded.
  unfoldable pub store_metadata : Assoc V × Bool → LogEvent → Done × LogEvent
  store_metadata (m, false) event = (ok tt, event)
  store_metadata (m, true) event = elim (codec.encode m) [
    | err e ↦ (err e, record event { pii_redacted = true })
    | ok text ↦ (ok tt, record event { pii_redacted = true; metadata = text })
  ]

  unfoldable pub redact : Redactor → LogEvent → Done × LogEvent
  redact r event =
      if is_empty r.fields_to_redact || is_empty event.metadata
      then (ok tt, event)
      else elim (codec.decode event.metadata) [
        | err e ↦ (err e, event)
        | ok m ↦ store_metadata (redact_fields r.fields_to_redact m false) event
      ]
