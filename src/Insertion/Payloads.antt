-- ===== src/Insertion/Payloads.antt =====
-- resource_auxillary/datastructures/{translation,casting}.py and payloads/: the fields of each
-- event's payload, the tables they go to, and the row of a payload.
use text.Mathlib.Text.{◌==◌ as str_eq}
use tenjin.Common.{
  zero, Bool, false, if◌then◌else◌, Option, none, some, String, List, [], ◌∷◌, ◌++◌,
}
use tenjin.Common.Int.{ℤ, pos}
use tenjin.Common.Result.{Result, ok, key_error, or_raise, ◌>>=◌}
use tenjin.Events.Names.{EventName}
use tenjin.Events.Values.{Value, Fields, null, int, str, get_field}

pub data FieldType : Type 0 where
  int_type str_type bool_type datetime_type : FieldType

-- The constructors that the casts call: `int(v)`, `str(v)` and `datetime.fromisoformat(v)`.
pub record Builtins : Type 0 where
  pub int_of : Value → Result ℤ
  pub str_of : Value → Result Value
  pub from_isoformat : Value → Result Value

-- assosciation.py and standalone.py: the annotations of each class, those of its bases first
abbrev pub base_user : List (String × FieldType)
base_user = ("user_id", int_type) ∷ []

abbrev pub base_report : List (String × FieldType)
base_report =
    ("report_tag", str_type)
    ∷ ("report_description", str_type)
    ∷ ("report_time", datetime_type)
    ∷ []

abbrev pub base_subscription : List (String × FieldType)
base_subscription = ("time_subscribed", datetime_type) ∷ []

abbrev pub base_vote : List (String × FieldType)
base_vote = ("vote", bool_type) ∷ []

abbrev pub generic_post : List (String × FieldType)
generic_post = base_user ++ (("post_id", int_type) ∷ [])

abbrev pub generic_comment : List (String × FieldType)
generic_comment = base_user ++ (("comment_id", int_type) ∷ [])

abbrev pub generic_forum : List (String × FieldType)
generic_forum = base_user ++ (("forum_id", int_type) ∷ [])

abbrev pub generic_anime : List (String × FieldType)
generic_anime = base_user ++ (("anime_id", int_type) ∷ [])

abbrev pub comment_creation : List (String × FieldType)
comment_creation =
    ("author_id", int_type)
    ∷ ("parent_post", int_type)
    ∷ ("parent_forum", int_type)
    ∷ ("body", str_type)
    ∷ ("time_created", datetime_type)
    ∷ []

abbrev pub post_creation : List (String × FieldType)
post_creation =
    ("author_id", int_type)
    ∷ ("forum_id", int_type)
    ∷ ("title", str_type)
    ∷ ("body_text", str_type)
    ∷ ("time_posted", datetime_type)
    ∷ []

-- `EVENT_PAYLOAD_TYPES.get(name)`, as the fields of the class
unfoldable pub payload_fields : EventName → Option (List (String × FieldType))
payload_fields EventName.post_create = some post_creation
payload_fields EventName.post_save = some generic_post
payload_fields EventName.post_unsave = some generic_post
payload_fields EventName.post_vote = some (base_user ++ base_vote)
payload_fields EventName.post_unvote = some (base_user ++ base_vote)
payload_fields EventName.post_report = some (generic_post ++ base_report)
payload_fields EventName.comment_vote = some (generic_comment ++ base_vote)
payload_fields EventName.comment_create = some comment_creation
payload_fields EventName.comment_unvote = some (generic_comment ++ base_vote)
payload_fields EventName.comment_report = some (generic_comment ++ base_report)
payload_fields EventName.comment_delete = some (("comment_id", int_type) ∷ [])
payload_fields EventName.forum_sub = some (generic_forum ++ base_subscription)
payload_fields EventName.forum_unsub = some (generic_forum ++ base_subscription)
payload_fields EventName.anime_sub = some (generic_anime ++ base_subscription)
payload_fields EventName.anime_unsub = some (generic_anime ++ base_subscription)
payload_fields _ = none

abbrev pub user_post_pk : List String
user_post_pk = "user_id" ∷ "post_id" ∷ []

abbrev pub user_comment_pk : List String
user_comment_pk = "user_id" ∷ "comment_id" ∷ []

abbrev pub user_anime_pk : List String
user_anime_pk = "user_id" ∷ "anime_id" ∷ []

-- `ASSOCIATION_DB_METADATA[name]`; `none` is a KeyError
unfoldable pub association_db_metadata : EventName → Option (String × List String)
association_db_metadata EventName.post_save = some ("post_saves", user_post_pk)
association_db_metadata EventName.post_unsave = some ("post_saves", user_post_pk)
association_db_metadata EventName.post_vote = some ("post_votes", user_post_pk)
association_db_metadata EventName.post_unvote = some ("post_votes", user_post_pk)
association_db_metadata EventName.post_report = some ("post_reports", user_post_pk)
association_db_metadata EventName.comment_vote = some ("comment_votes", user_comment_pk)
association_db_metadata EventName.comment_unvote = some ("comment_votes", user_comment_pk)
association_db_metadata EventName.comment_report = some ("comment_reportss", user_comment_pk)
association_db_metadata EventName.forum_sub = some ("forum_subscriptions", user_comment_pk)
association_db_metadata EventName.forum_unsub = some ("forum_subscriptions", user_comment_pk)
association_db_metadata EventName.anime_sub = some ("anime_subscriptions", user_anime_pk)
association_db_metadata EventName.anime_unsub = some ("anime_subscriptions", user_anime_pk)
association_db_metadata _ = none

-- `value == ""`
unfoldable pub is_empty_text : Value → Bool
is_empty_text (str s) = str_eq s ""
is_empty_text _ = false

truth : ℤ → Value
truth (pos zero) = int (pos 0)
truth _ = int (pos 1)

module _ (builtins : Builtins) where
  -- CAST_MAPPING, and `default_serializer` for the other types
  unfoldable pub cast : FieldType → Value → Result Value
  unfolding truth
  cast bool_type v = do n ← builtins.int_of v; ok (truth n)
  cast datetime_type v = builtins.from_isoformat v
  cast int_type v = do n ← builtins.int_of v; ok (int n)
  cast str_type v = builtins.str_of v

  unfoldable pub cell : FieldType → Value → Result Value
  unfolding cast is_empty_text
  cell field_type v = if is_empty_text v then ok null else cast field_type v

  unfoldable pub build_row : List (String × FieldType) → Fields → Result (List Value)
  unfolding cell get_field
  build_row [] payload = ok []
  build_row ((name, field_type) ∷ fields) payload = do
    value ← or_raise (get_field name payload) key_error
    c ← cell field_type value
    row ← build_row fields payload
    ok (c ∷ row)
