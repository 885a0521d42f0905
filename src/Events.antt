-- ===== src/Events.antt =====
-- resource_auxillary/strings.py and resource_auxillary/events.py: the events that the servers
-- stream to Redis, with the side effects that the workers apply for them.
pub mod Values
pub mod Names
pub mod Ids
pub mod Encoding
pub mod Decode
pub mod Samples
mod Tests
use tenjin.Common.{ℕ, String, List}
use tenjin.Common.Int.{ℤ}
use Values.{Fields}
use Names.{EventName, IntentFlag}

pub record CounterUpdate : Type 0 where
  pub counter_group : String
  pub cache_key : String
  pub field_name : String
  pub delta : ℤ

pub record IntentUpdate : Type 0 where
  pub intent_name : String
  pub intent_flag : IntentFlag
  pub intent_id : String

pub data CacheOperation : Type 0 where
  invalidate mark_missing : CacheOperation

pub data ResourceType : Type 0 where
  string mapping : ResourceType

pub record CacheUpdate : Type 0 where
  pub cache_key : String
  pub operation : CacheOperation
  pub resource_type : ResourceType

pub record EventSideEffects : Type 0 where
  pub counter_updates : List CounterUpdate
  pub intent_updates : List IntentUpdate
  pub cache_invalidations : List CacheUpdate

pub record Event : Type 0 where
  pub name : EventName
  pub payload : Fields
  pub side_effects : EventSideEffects

-- `event_id` is the number that the record's stream ID is turned into.
pub record StreamedEvent : Type 0 where
  pub event_id : ℕ
  pub event : Event
  pub open event use *
