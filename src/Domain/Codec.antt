-- ===== src/Domain/Codec.antt =====
-- encoding/json at `domain.LogEvent`. The encoder is a parameter: `wire` is what a decoded event
-- keeps of the event that was encoded (the fields with the tag `json:"-"` are left out, and the
-- metadata are compacted).
use watch_tower.Common.{◌≡◌, ◌≢◌, ok, Text, Result, All}
use watch_tower.Domain.{LogEvent}

pub record Codec : Type 0 where
  pub marshal : LogEvent → Result Text
  pub unmarshal : Text → Result LogEvent
  pub wire : LogEvent → LogEvent

-- What the package documents: a value that was encoded is decoded again, and the text is compact
-- JSON, in which no line break stands (it is written \n inside a string).
pub record CodecLaws (c : Codec) : Type 0 where
  pub round_trip : (e : LogEvent) (b : Text) → c.marshal e ≡ ok b → c.unmarshal b ≡ ok (c.wire e)
  pub one_line : (e : LogEvent) (b : Text) → c.marshal e ≡ ok b → All (λ x. (x ≢ 10) × (x ≢ 13)) b
