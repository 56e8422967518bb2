-- ===== src/Pii/Redaction.antt =====
-- What a redaction changes, and what it leaves (internal/adapter/pii/redactor.go).
use watch_tower.Common.{
  ◌≡◌, refl, sym, ap, ◌∙◌, Bool, true, false, ◌||◌, Option, none, some, List, [], ◌∷◌, arith,
  if◌then◌else◌, Text, text_eq, text_eq_iff, ok, Bool-cases, Result-cases, inl, inr, is_empty,
}
use watch_tower.Common.Assoc.{Assoc, lookup, insert, lookup-insert}
use watch_tower.Domain.{LogEvent}
use watch_tower.Pii.{
  ObjectCodec, redacted_placeholder, Redactor, redact_fields, store_metadata, redact,
}

abbrev pub is_some {ℓ} : {A : Type ℓ} → Option A → Bool
is_some none = false
is_some (some _) = true

pub member : Text → List Text → Bool
member k [] = false
member k (f ∷ fs) = text_eq f k || member k fs

-- At least one of the fields stands in the map.
pub any_present : {V : Type 0} → List Text → Assoc V → Bool
any_present [] m = false
any_present (f ∷ fs) m = is_some (lookup f m) || any_present fs m

module _ {V : Type 0} (codec : ObjectCodec V) where
  abbrev pub mask : Option V → Option V
  mask none = none
  mask (some _) = some (codec.string redacted_placeholder)

  -- The specification of a redacted map, key by key.
  abbrev pub masked : List Text → Assoc V → Text → Option V
  masked fs m k = if member k fs then mask (lookup k m) else lookup k m

  -- The loop replaces the value of each present field by the placeholder, and leaves every other
  -- key as it is, absent keys included.
  lookup-redact_fields :
      (fs : List Text) (m : Assoc V) (done : Bool) (k : Text)
      → lookup k (redact_fields codec fs m done).0 ≡ masked fs m k
  unfolding redact_fields member
  lookup-redact_fields [] m done k = refl
  lookup-redact_fields (f ∷ fs) m done k =
      let p = codec.string redacted_placeholder in
      ground (
        arith,
        text_eq_iff f k,
        lookup-insert f k p m,
        lookup-redact_fields fs m done k,
        lookup-redact_fields fs (insert f p m) true k,
      )

  flag_stays : (fs : List Text) (m : Assoc V) → (redact_fields codec fs m true).1 ≡ true
  unfolding redact_fields
  flag_stays [] m = refl
  flag_stays (f ∷ fs) m =
      ground
        (arith, flag_stays fs m, flag_stays fs (insert f (codec.string redacted_placeholder) m))

  flag-redact_fields :
      (fs : List Text) (m : Assoc V) → (redact_fields codec fs m false).1 ≡ any_present fs m
  unfolding redact_fields any_present
  flag-redact_fields [] m = refl
  flag-redact_fields (f ∷ fs) m = ground (
    arith,
    flag-redact_fields fs m,
    flag_stays fs (insert f (codec.string redacted_placeholder) m),
  )

  -- What encoding/json documents: an encoded map is decoded to the same entries.
  pub record ObjectLaws : Type 0 where
    pub round_trip :
        (m : Assoc V) (t : Text)
        → codec.encode m ≡ ok t
        → (m' : Assoc V) × (codec.decode t ≡ ok m') × ((k : Text) → lookup k m' ≡ lookup k m)

  -- A redacted event, relative to the decoded metadata of the event before.
  pub record IsRedacted (fs : List Text) (m : Assoc V) (event event' : LogEvent) : Type 0 where
    pub object : Assoc V
    pub decoded : codec.decode event'.metadata ≡ ok object
    pub values : (k : Text) → lookup k object ≡ masked fs m k
    pub flag : event'.pii_redacted ≡ (any_present fs m || event.pii_redacted)
    pub message : event'.message ≡ event.message
    pub id : event'.id ≡ event.id

  untouched :
      (fs : List Text) (m : Assoc V)
      → any_present fs m ≡ false
      → (redact_fields codec fs m false).0 ≡ m
  unfolding redact_fields any_present
  untouched [] m h = refl
  untouched (f ∷ fs) m h = ground (arith, untouched fs m)

  stored-IsRedacted :
      (laws : ObjectLaws) (r : Redactor) (event : LogEvent)
      → is_empty r.fields_to_redact ≡ false
      → is_empty event.metadata ≡ false
      → (redact codec r event).0 ≡ ok tt
      → (m : Assoc V) → codec.decode event.metadata ≡ ok m
      → IsRedacted r.fields_to_redact m event (redact codec r event).1
  unfolding redact store_metadata
  stored-IsRedacted laws r event some_field some_data done m decoded =
      let fs = r.fields_to_redact in
      let (m', flagged) = redact_fields codec fs m false in
      let flag = flag-redact_fields fs m in
      let values = lookup-redact_fields fs m false in
      elim (Bool-cases (any_present fs m)) [
        | inr clean ↦
            let e : (redact codec r event).1 ≡ event = ground (arith, flag) in
            rw e (record {
              object = m;
              decoded = decoded;
              values = λ k. ap (lookup k) (sym (untouched fs m clean)) ∙ values k;
              flag = rw clean refl;
              message = refl;
              id = refl;
            })
        | inl dirty ↦ elim (Result-cases (codec.encode m')) [
          | inr (x, refused) ↦ absurd (ground (arith, flag))
          | inl (t, encoded) ↦
              let e : (redact codec r event).1
                  ≡ record event { pii_redacted = true; metadata = t } =
                ground (arith, flag) in
              let (object, again, same) = laws.round_trip m' t encoded in
              rw e (record {
                object = object;
                decoded = again;
                values = λ k. same k ∙ values k;
                flag = rw dirty refl;
                message = refl;
                id = refl;
              })
        ]
      ]

  -- If an encoded object is decoded to the same entries, `Redact` returns no error for an event with
  -- metadata, and the redactor has fields, then the
  -- metadata were an object, and they now decode to one in which each configured field that was
  -- present is the placeholder and every other key is as before; the event is flagged if a field
  -- was present, keeps its flag otherwise, and keeps its message and its id.
  pub redact-IsRedacted :
      (laws : ObjectLaws) (r : Redactor) (event : LogEvent)
      → is_empty r.fields_to_redact ≡ false
      → is_empty event.metadata ≡ false
      → (redact codec r event).0 ≡ ok tt
      → (m : Assoc V) × (codec.decode event.metadata ≡ ok m)
        × IsRedacted r.fields_to_redact m event (redact codec r event).1
  unfolding redact store_metadata
  redact-IsRedacted laws r event some_field some_data done =
      elim (Result-cases (codec.decode event.metadata)) [
        | inr (e, refused) ↦ absurd (ground arith)
        | inl (m, decoded) ↦
            (m, decoded, stored-IsRedacted laws r event some_field some_data done m decoded)
      ]
