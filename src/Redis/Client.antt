-- ===== src/Redis/Client.antt =====
-- What the program uses of github.com/redis/go-redis/v9: an abstract client over a state.
use watch_tower.Common.{ℕ, List, Text, Op}
use watch_tower.Common.Assoc.{Assoc}

-- A value of a stream's message: the client yields strings, and the program tests for one.
pub data Value : Type 0 where
  str : Text → Value
  other : Value

pub record Message : Type 0 where
  pub id : Text
  pub values : Assoc Value

pub record Stream : Type 0 where
  pub name : Text
  pub messages : List Message

-- redis.XAddArgs
pub record XAddArgs : Type 0 where
  pub stream : Text
  pub values : List (Text × Text)

-- redis.XReadGroupArgs; `block` in nanoseconds.
pub record XReadGroupArgs : Type 0 where
  pub group : Text
  pub consumer : Text
  pub stream : Text
  pub start : Text
  pub count : ℕ
  pub block : ℕ

pub record Client (S : Type 0) : Type 0 where
  pub x_group_create_mk_stream : Text → Text → Text → Op S Unit
  pub ping : Op S Unit
  pub x_add : XAddArgs → Op S Unit
  pub x_read_group : XReadGroupArgs → Op S (List Stream)
  pub x_ack : Text → Text → List Text → Op S ℕ
  pub pipeline : List XAddArgs → Op S Unit
