-- ===== src/Consumers/Downstream.antt =====
-- resource_database_workers: what a deletion leaves to do downstream
-- (datastructures/downstream.py, workers/redis/downstream_post_processing.py and
-- declare_standard_event_dead of workers/redis/declarations.py).
use text.Mathlib.Text.{◌==◌ as str_eq}
use tenjin.Common.{ℕ, if◌then◌else◌, Option, none, some, String, List, [], ◌∷◌, map}
use tenjin.Common.Result
use tenjin.Common.Action.{
  Action, Result, ok, err, key_error, value_error, type_error, name_error, catch, lift, pure, ◌>>=◌,
  ◌>>◌,
}
use tenjin.Common.Result.{or_raise}
use tenjin.Common.Int.{ℤ, negℤ}
use tenjin.Events.{Event}
use tenjin.Events.Values.{Value, Fields, Orjson, int, str, get_field}
use tenjin.Events.Names.{
  StreamName, EventName, downstream_deletions, downstream_counter_decrements,
  downstream_user_post_decrement, downstream_user_comment_decrement,
  downstream_post_comment_decrement, downstream_forum_post_decrement, join_names,
}
use tenjin.Retry.{Loop, RetryPolicy, execute_with_redis_retries}
use tenjin.Pipeline.{Command, Broker, hincrby, stream_events}

-- datastructures/database.py
pub data StrongEntity : Type 0 where
  genre anime user forum post comment : StrongEntity

unfoldable pub entity_value : StrongEntity → String
entity_value genre = "genres"
entity_value anime = "animes"
entity_value user = "users"
entity_value forum = "forums"
entity_value post = "posts"
entity_value comment = "comments"

pub data ForeignKeyColumn : Type 0 where
  author_id parent_forum parent_post parent_anime : ForeignKeyColumn

unfoldable pub column_value : ForeignKeyColumn → String
column_value author_id = "author_id"
column_value parent_forum = "parent_forum"
column_value parent_post = "parent_post"
column_value parent_anime = "parent_anime"

-- `StrongEntity(text)` and `ForeignKeyColumnLiteral(text)`: the member with that value
module _ {A : Type 0} (value : A → String) where
  unfoldable pub member_of : List A → Value → Result A
  member_of [] v = err value_error
  member_of (a ∷ members) (str s) =
      let rest = member_of members (str s) in if str_eq s (value a) then ok a else rest
  member_of (a ∷ members) v = err value_error

abbrev pub entities : List StrongEntity
entities = genre ∷ anime ∷ user ∷ forum ∷ post ∷ comment ∷ []

abbrev pub columns : List ForeignKeyColumn
columns = author_id ∷ parent_forum ∷ parent_post ∷ parent_anime ∷ []

-- DownstreamDeletionData
pub record DeletionData : Type 0 where
  pub foreign_key_column : ForeignKeyColumn
  pub orphan_table : StrongEntity
  pub foreign_key : ℤ
  pub deleted_at : String

-- DownstreamCounterDecrementData
pub record DecrementData : Type 0 where
  pub hashmap_name : String
  pub affected_table_name : StrongEntity
  pub affected_column_name : ForeignKeyColumn
  pub deletion_author_event_id : ℤ

-- a text of a payload
unfoldable pub text_of : Value → Result String
text_of (str s) = ok s
text_of _ = err type_error

-- `int_of_text` is `int` and `fromisoformat` is `datetime.fromisoformat`, on a text
module _ (int_of_text : String → Result ℤ) (fromisoformat : String → Result String) where
  -- `int(value)`
  unfoldable pub int_of : Value → Result ℤ
  int_of (int n) = ok n
  int_of (str s) = int_of_text s
  int_of _ = err type_error

  -- `payload[key]`
  abbrev pub entry : String → Fields → Result Value
  entry key payload = or_raise (get_field key payload) key_error

  unfoldable pub reconstruct_downstream_data_from_stream : Fields → Result DeletionData
  unfolding member_of entity_value column_value int_of text_of
  reconstruct_downstream_data_from_stream payload =
      Result.◌>>=◌
        (Result.◌>>=◌ (entry "foreign_key_column" payload) (member_of column_value columns))
        λ column.
          Result.◌>>=◌
            (Result.◌>>=◌ (entry "orphan_table" payload) (member_of entity_value entities))
            λ table. Result.◌>>=◌ (Result.◌>>=◌ (entry "foreign_key" payload) int_of) λ key.
              Result.◌>>=◌ (Result.◌>>=◌ (entry "deleted_at" payload) text_of) λ time.
                Result.◌>>=◌ (fromisoformat time) λ deleted_at. ok (record {
                  foreign_key_column = column;
                  orphan_table = table;
                  foreign_key = key;
                  deleted_at = deleted_at;
                })

  unfoldable pub reconstruct_downstream_counter_data_from_stream : Fields → Result DecrementData
  unfolding member_of entity_value column_value int_of text_of
  reconstruct_downstream_counter_data_from_stream payload =
      Result.◌>>=◌ (Result.◌>>=◌ (entry "hashmap_name" payload) text_of) λ hashmap_name.
        Result.◌>>=◌
          (Result.◌>>=◌ (entry "affected_table_name" payload) (member_of entity_value entities))
          λ table.
            Result.◌>>=◌
              (Result.◌>>=◌ (entry "affected_column_name" payload) (member_of column_value columns))
              λ column.
                Result.◌>>=◌ (Result.◌>>=◌ (entry "deletion_author_event_id" payload) int_of) λ id.
                  ok (record {
                    hashmap_name = hashmap_name;
                    affected_table_name = table;
                    affected_column_name = column;
                    deletion_author_event_id = id;
                  })

-- AnonymousDownstreamDeletionData: a column and the table with it
abbrev pub DeletionBase : Type 0
DeletionBase = ForeignKeyColumn × StrongEntity

-- `DownstreamDeletionMapping[table]`
unfoldable pub downstream_deletion_mapping : StrongEntity → Option (List DeletionBase)
downstream_deletion_mapping forum = some ((parent_forum, comment) ∷ (parent_forum, post) ∷ [])
downstream_deletion_mapping user = some ((author_id, comment) ∷ (author_id, post) ∷ [])
downstream_deletion_mapping post = some ((parent_post, comment) ∷ [])
downstream_deletion_mapping _ = none

abbrev hashmap_of : StrongEntity → StrongEntity → String
hashmap_of a b = join_names (entity_value a ∷ entity_value b ∷ [])

-- `DOWNSTREAM_DECREMENT_MAPPING.get(table)`
unfoldable pub downstream_decrement_mapping :
    StrongEntity → Option (List (EventName × ForeignKeyColumn × String))
unfolding join_names entity_value
downstream_decrement_mapping user = some (
    (downstream_user_post_decrement, author_id, hashmap_of user post)
    ∷ (downstream_user_comment_decrement, author_id, hashmap_of user comment)
    ∷ [])
downstream_decrement_mapping post =
    some ((downstream_post_comment_decrement, author_id, hashmap_of user comment) ∷ [])
downstream_decrement_mapping forum =
    some ((downstream_forum_post_decrement, author_id, hashmap_of user post) ∷ [])
downstream_decrement_mapping _ = none

-- The events are built with a name that the module does not import, EventSideEffects, once for each
-- pair of an entry and a base. The entries are a generator: reading one may raise.
unfoldable pub build_deletion_events :
    List (Result (Value × Value)) → List DeletionBase → Result (List Event)
build_deletion_events [] bases = ok []
build_deletion_events (err e ∷ entries) bases = err e
build_deletion_events (ok entry ∷ entries) [] = build_deletion_events entries []
build_deletion_events (ok entry ∷ entries) (base ∷ bases) = err name_error

unfoldable pub build_decrement_events :
    List (EventName × ForeignKeyColumn × String) → Result (List Event)
build_decrement_events [] = ok []
build_decrement_events (metadata ∷ rest) = err name_error

module _ {W : Type 0} (orjson : Orjson) (broker : Broker W) (loop : Loop W)
    (policy : RetryPolicy) where
  -- `attempts` is None where it is not given
  unfoldable pub declare_standard_event_dead :
      List Event → StreamName → Option ℕ → Action W (Option (Unit {0}))
  declare_standard_event_dead batch dlq_stream_name attempts =
      execute_with_redis_retries loop policy (stream_events orjson broker batch dlq_stream_name)
        attempts

  -- the calls of `_xadd_downstream_events` and of `_xadd_downstream_counter_decrements`
  unfoldable pub xadd_or_declare_dead :
      List Event → StreamName → StreamName → Action W (Option (Unit {0}))
  unfolding declare_standard_event_dead
  xadd_or_declare_dead events stream_name dlq_stream_name =
      catch
        (execute_with_redis_retries loop policy (stream_events orjson broker events stream_name)
          none)
        (λ e. declare_standard_event_dead events dlq_stream_name none)

  unfoldable pub dispatch_downstream_events :
      StrongEntity → List (Result (Value × Value)) → StreamName → Action W (Unit {0})
  unfolding downstream_deletion_mapping build_deletion_events xadd_or_declare_dead
  dispatch_downstream_events upstream_table deleted_data dlq_stream_name = do
    bases ← lift (or_raise (downstream_deletion_mapping upstream_table) key_error)
    events ← lift (build_deletion_events deleted_data bases)
    xadd_or_declare_dead events downstream_deletions dlq_stream_name
    pure tt

  unfoldable pub dispatch_downstream_counter_decrements :
      StrongEntity → ℕ → StreamName → Action W (Unit {0})
  unfolding downstream_decrement_mapping build_decrement_events xadd_or_declare_dead
  dispatch_downstream_counter_decrements deleted_entity event_id dlq_stream_name = do
    data_ ← lift (or_raise (downstream_decrement_mapping deleted_entity) value_error)
    events ← lift (build_decrement_events data_)
    xadd_or_declare_dead events downstream_counter_decrements dlq_stream_name
    pure tt

-- `pipeline.hincrby(hashmap_name, derive_cache_key(prefix, delta[0]), -delta[1])`
unfoldable pub decrement : String → StrongEntity → String × ℤ → Command
unfolding join_names entity_value
decrement hashmap_name hash_key_prefix (key, delta) =
    hincrby hashmap_name (join_names (entity_value hash_key_prefix ∷ key ∷ [])) (negℤ delta)

unfoldable pub emit_downstream_counter_decrement_updates :
    {W : Type 0} → Broker W → List (String × ℤ) → String → StrongEntity → Action W (Unit {0})
unfolding decrement
emit_downstream_counter_decrement_updates broker deltas hashmap_name hash_key_prefix =
    broker.execute_transaction (map (decrement hashmap_name hash_key_prefix) deltas)
