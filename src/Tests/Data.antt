-- ===== src/Tests/Data.antt =====
-- An event, and an encoder that meets the laws: it keeps the message, each byte raised by 14, so that
-- no line end is left in the text.
use mathlib.Core.Path.{subst}
use watch_tower.Common.{
  ℕ, zero, suc, ◌+◌, ◌-◌, ◌≡◌, ◌≢◌, refl, ap, false, [], ◌∷◌, map, arith, length, Text, codes, ok,
  All, sym, ◌∙◌,
}
use watch_tower.Redis.Client.{XAddArgs}
use watch_tower.Redis.Buffer.{log_entry, buffer_log_to_redis}
use watch_tower.Redis.Batch.RoundTrip.{Published, recorder}
use watch_tower.Domain.{LogEvent}
use watch_tower.Domain.Codec.{Codec, CodecLaws}

abbrev pub blank : LogEvent
blank = record {
  id = [];
  received_at = 0;
  event_time = 0;
  source = [];
  level = [];
  message = [];
  metadata = [];
  raw_event = [];
  pii_redacted = false;
  stream_message_id = [];
}

abbrev pub with_message : Text → LogEvent
with_message m = record blank { message = m }

abbrev raise : Text → Text
raise = map (λ x. x + 14)

abbrev lower : Text → Text
lower = map (λ x. x - 14)

lower-raise : (m : Text) → lower (raise m) ≡ m
lower-raise [] = refl
lower-raise (x ∷ m) = ground (arith, lower-raise m)

raise_one_line : (m : Text) → All (λ x. (x ≢ 10) × (x ≢ 13)) (raise m)
raise_one_line [] = tt
raise_one_line (x ∷ m) = ((omega arith, omega arith), raise_one_line m)

abbrev pub shift_codec : Codec
shift_codec = record {
  marshal = λ e. ok (raise e.message);
  unmarshal = λ b. ok (with_message (lower b));
  wire = λ e. with_message e.message;
}

shift_round_trip :
    (e : LogEvent) (b : Text)
    → shift_codec.marshal e ≡ ok b
    → shift_codec.unmarshal b ≡ ok (shift_codec.wire e)
shift_round_trip e b h =
    let same : raise e.message ≡ b = cc in
    ap (λ m. ok (with_message (lower m))) (sym same)
    ∙ ap (λ m. ok (with_message m)) (lower-raise e.message)

shift_one_line :
    (e : LogEvent) (b : Text) → shift_codec.marshal e ≡ ok b → All (λ x. (x ≢ 10) × (x ≢ 13)) b
shift_one_line e b h =
    let same : raise e.message ≡ b = cc in
    subst (All (λ x. (x ≢ 10) × (x ≢ 13))) same (raise_one_line e.message)

pub shift_laws : CodecLaws shift_codec
shift_laws = record { round_trip = shift_round_trip; one_line = shift_one_line }

-- A text of a given length, which does not unfold.
pub zeros : ℕ → Text
zeros zero = []
zeros (suc n) = 0 ∷ zeros n

length-raise : (m : Text) → length (raise m) ≡ length m
length-raise [] = refl
length-raise (x ∷ m) = ap suc (length-raise m)

length-zeros : (n : ℕ) → length (zeros n) ≡ n
unfolding zeros
length-zeros zero = refl
length-zeros (suc n) = ap suc (length-zeros n)

pub length-raise_zeros : (n : ℕ) → length (map (λ x. x + 14) (zeros n)) ≡ n
length-raise_zeros n = length-raise (zeros n) ∙ length-zeros n

abbrev entry : XAddArgs
entry = log_entry (map (λ x. x + 14) (codes "hi"))

pub published_sent :
    buffer_log_to_redis (recorder shift_codec) (with_message (codes "hi")) [] ≡ (ok tt, entry ∷ [])
unfolding buffer_log_to_redis
published_sent = refl

-- An event with its entry in the stream.
abbrev pub published : Published shift_codec
published = record {
  event = with_message (codes "hi");
  entry = entry;
  message_id = codes "1-0";
  sent = published_sent;
}
