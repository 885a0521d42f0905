-- ===== src/Events/Decode.antt =====
-- resource_auxillary/events.py: `reconstruct_from_stream`, `construct_from_stream_record` and
-- `safe_construct_from_malformed_stream`, which read an event from the record of a stream.
use text.Mathlib.Text.{◌==◌ as str_eq}
use tenjin.Common.{ℕ, String, List, [], ◌∷◌, Option, none, some, if◌then◌else◌, or_default}
use tenjin.Common.Dict.{Dict, lookup}
use tenjin.Common.Result.{
  Result, ok, err, key_error, value_error, type_error, attribute_error, or_raise, ◌>>=◌,
}
use tenjin.Events.{CounterUpdate, IntentUpdate, CacheUpdate, Event, StreamedEvent}
use tenjin.Events.Values.{
  Value, Values, Fields, Orjson, get_field, bytes, str, array, object, nil, cons, end, field,
}
use tenjin.Events.Names.{EventName, event_value}
use tenjin.Events.Ids.{event_id_of_stream}

-- A record of a stream: the code points of its ID, and its entry, whose texts are as Redis gives them.
pub record StreamRecord : Type 0 where
  pub stream_id : List ℕ
  pub stream_entry : Dict String

-- The pydantic constructors, on keyword arguments: they raise ValidationError, a ValueError.
pub record Validators : Type 0 where
  pub counter_update : Fields → Option CounterUpdate
  pub intent_update : Fields → Option IntentUpdate
  pub cache_update : Fields → Option CacheUpdate

-- the members of the enumeration, in their order
abbrev pub event_names : List EventName
event_names =
    EventName.post_create ∷ EventName.post_save ∷ EventName.post_unsave ∷ EventName.post_report
    ∷ EventName.post_vote ∷ EventName.post_unvote ∷ EventName.post_delete ∷ EventName.anime_sub
    ∷ EventName.anime_unsub ∷ EventName.comment_create ∷ EventName.comment_vote
    ∷ EventName.comment_unvote ∷ EventName.comment_report ∷ EventName.comment_delete
    ∷ EventName.forum_sub ∷ EventName.forum_unsub ∷ EventName.forum_delete ∷ EventName.user_cleanup
    ∷ EventName.malformed ∷ EventName.orphaned_post_delete ∷ EventName.orphaned_comment_delete
    ∷ EventName.downstream_user_post_decrement ∷ EventName.downstream_forum_post_decrement
    ∷ EventName.downstream_user_comment_decrement ∷ EventName.downstream_post_comment_decrement
    ∷ EventName.dlq_counter ∷ EventName.dlq_side_effects ∷ EventName.user_deletion_email
    ∷ EventName.user_registration_email ∷ EventName.user_password_recovery_email ∷ []

unfoldable pub find_name : String → List EventName → Option EventName
find_name text [] = none
find_name text (n ∷ ns) = if str_eq (event_value n) text then some n else find_name text ns

-- `EventName(text)`; any other text is a ValueError
unfoldable pub event_name_of : String → Result EventName
unfolding find_name
event_name_of text = or_raise (find_name text event_names) value_error

-- `d.get(key, b"[]")`, which only a dict has
unfoldable pub get_or_empty : Value → String → Result Value
get_or_empty (object d) key = ok (or_default (get_field key d) (bytes "[]"))
get_or_empty _ key = err attribute_error

field_names : Fields → Values
field_names end = nil
field_names (field k v d) = cons (str k) (field_names d)

-- what a `for` goes over; a text's characters are refused by `unpack` as the text is
unfoldable pub elements : Value → Result Values
unfolding field_names
elements (array vs) = ok vs
elements (object d) = ok (field_names d)
elements (str s) = ok (if str_eq s "" then nil else cons (str s) nil)
elements _ = err type_error

-- `**v`
unfoldable pub unpack : Value → Result Fields
unpack (object d) = ok d
unpack _ = err type_error

unfoldable pub construct_each : {A : Type 0} → (Fields → Option A) → Values → Result (List A)
unfolding unpack
construct_each f nil = ok []
construct_each f (cons v vs) = do
  d ← unpack v
  x ← or_raise (f d) value_error
  xs ← construct_each f vs
  ok (x ∷ xs)

-- `except (KeyError, ValueError, orjson.JSONDecodeError)`
unfoldable pub as_value_error : {A : Type 0} → Result A → Result A
as_value_error (ok a) = ok a
as_value_error (err key_error) = err value_error
as_value_error (err e) = err e

texts : Dict String → Fields
texts [] = end
texts ((k, s) ∷ d) = field k (str s) (texts d)

module _ (orjson : Orjson) (validators : Validators) where
  -- `orjson.loads` takes texts and bytes
  unfoldable pub loads : Value → Result Value
  loads (str s) = or_raise (orjson.loads s) value_error
  loads (bytes b) = or_raise (orjson.loads b) value_error
  loads _ = err value_error

  unfoldable pub updates_of : {A : Type 0} → (Fields → Option A) → Value → String → Result (List A)
  unfolding loads get_or_empty elements construct_each
  updates_of f raw key = do
    text ← get_or_empty raw key
    v ← loads text
    vs ← elements v
    construct_each f vs

  -- the body of the `try`; that the payload is a dict is validated last
  unfoldable pub reconstruct : Dict String → Result Event
  unfolding event_name_of updates_of
  reconstruct entry = do
    name_text ← or_raise (lookup "name" entry) key_error
    name ← event_name_of name_text
    payload_text ← or_raise (lookup "payload" entry) key_error
    payload ← loads (str payload_text)
    effects_text ← or_raise (lookup "side_effects" entry) key_error
    raw ← loads (str effects_text)
    counters ← updates_of validators.counter_update raw "counter_updates"
    intents ← updates_of validators.intent_update raw "intent_updates"
    caches ← updates_of validators.cache_update raw "cache_invalidations"
    d ← elim payload as (λ _. Result Fields) [ object d ↦ ok d | _ ↦ err value_error ]
    ok (record {
      name = name;
      payload = d;
      side_effects = record {
        counter_updates = counters;
        intent_updates = intents;
        cache_invalidations = caches;
      };
    })

  unfoldable pub reconstruct_from_stream : Dict String → Result Event
  unfolding reconstruct as_value_error
  reconstruct_from_stream entry = as_value_error (reconstruct entry)

  unfoldable pub construct_from_stream_record : StreamRecord → Result StreamedEvent
  unfolding reconstruct_from_stream
  construct_from_stream_record stream = do
    event_id ← or_raise (event_id_of_stream stream.stream_id) value_error
    base_event ← reconstruct_from_stream stream.stream_entry
    ok (record { event_id = event_id; event = base_event })

unfoldable pub safe_construct_from_malformed_stream : StreamRecord → Result StreamedEvent
unfolding texts
safe_construct_from_malformed_stream stream = do
  event_id ← or_raise (event_id_of_stream stream.stream_id) value_error
  ok (record {
    event_id = event_id;
    event = record {
      name = EventName.malformed;
      payload = texts stream.stream_entry;
      side_effects = record { counter_updates = []; intent_updates = []; cache_invalidations = [] };
    };
  })
