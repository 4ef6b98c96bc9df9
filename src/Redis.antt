-- ===== src/Redis.antt =====
-- What the server uses of Redis, through go-redis, which is the parameter `Client`; and server/redis,
-- its own helpers.
pub mod Retry
pub mod Fields
pub mod Memory
use shadowroller.Common.{ℕ, Bool, Option, none, some, String, List}
use shadowroller.Common.Dict.{Dict}
use shadowroller.Errs.{Err, plain}
use shadowroller.Errs.Answer.{Answer, ok, err}
use shadowroller.Game.History.{Command}
use shadowroller.Game.Share.{Message}
use shadowroller.Update.{Value}

-- `redis.Nil`, another error, or the value of the reply.
pub data Reply {ℓ} (A : Type ℓ) : Type ℓ where
  nil_reply : Reply A
  failed : Err → Reply A
  reply : A → Reply A

-- The commands, each with its key; a command that writes returns what is stored after it, and the
-- connection may fail at any of them. `exec` runs a pipeline on the history of a game; `exec_player` the
-- transaction of an HSET and a PUBLISH; `hset_nx_hset` is the transaction of HSETNX on a key and a
-- field with a value and HSET on another key, with the two results.
pub record Client : Type 1 where
  pub Store : Type 0
  pub hgetall : String → Store → Reply (Dict String)
  pub hget : String → String → Store → Reply String
  pub exists : String → Store → Reply ℕ
  pub hmset : String → Dict String → Store → Reply Bool × Store
  pub del : String → Store → Reply ℕ × Store
  pub expire : String → ℕ → Store → Reply Bool × Store
  pub persist : String → Store → Reply Bool × Store
  pub smembers : String → Store → Reply (List String)
  pub sis_member : String → String → Store → Reply Bool
  pub zrev_range_by_score : String → String → String → ℕ → Store → Reply (List String)
  pub hset_nx_hset :
      String → String → String → String → Dict String → Store → Reply (Bool × ℕ) × Store
  pub exec_player : Option (String × Dict Value) → Option Message → Store → Option Err × Store
  pub exec : String → List Command → Store → Option Err × Store

-- A reply where `redis.Nil` is an error like any other.
unfoldable pub answer {ℓ} : {A : Type ℓ} → Reply A → Answer A
answer nil_reply = err (plain "redis: nil")
answer (failed e) = err e
answer (reply a) = ok a
