-- ===== src/Events/Names.antt =====
-- resource_auxillary/strings.py: the names of streams, events, actions and intents.
use tenjin.Common.{String, ◌<>◌, List, [], ◌∷◌}

pub data StreamName : Type 0 where
  posts comments forums animes users : StreamName
  downstream_deletions downstream_counter_decrements : StreamName
  user_emails dead_letter_queue : StreamName

pub data EventName : Type 0 where
  post_create post_save post_unsave post_report post_vote post_unvote post_delete : EventName
  anime_sub anime_unsub : EventName
  comment_create comment_vote comment_unvote comment_report comment_delete : EventName
  forum_sub forum_unsub forum_delete : EventName
  user_cleanup malformed : EventName
  orphaned_post_delete orphaned_comment_delete : EventName
  downstream_user_post_decrement downstream_forum_post_decrement : EventName
  downstream_user_comment_decrement downstream_post_comment_decrement : EventName
  dlq_counter dlq_side_effects : EventName
  user_deletion_email user_registration_email user_password_recovery_email : EventName

pub data IntentFlag : Type 0 where
  resource_creation_pending_flag resource_creation_pending_alt_flag : IntentFlag
  resource_deletion_pending_flag : IntentFlag

-- `NAME_SEPERATOR.join(parts)`
unfoldable pub join_names : List String → String
join_names [] = ""
join_names (part ∷ []) = part
join_names (part ∷ parts) = part <> ":" <> join_names parts

unfoldable pub stream_value : StreamName → String
stream_value posts = "POSTS"
stream_value comments = "COMMENTS"
stream_value forums = "FORUMS"
stream_value animes = "ANIMES"
stream_value users = "USERS"
stream_value downstream_deletions = "DOWNSTREAM_DELETIONS"
stream_value downstream_counter_decrements = "DOWNSTREAM_COUNTER_DECREMENTS"
stream_value user_emails = "USER_EMAILS"
stream_value dead_letter_queue = "DEAD_LETTER_QUEUE"

unfoldable pub event_value : EventName → String
event_value post_create = "POST_CREATE"
event_value post_save = "POST_SAVE"
event_value post_unsave = "POST_UNSAVE"
event_value post_report = "POST_REPORT"
event_value post_vote = "POST_VOTE"
event_value post_unvote = "POST_UNVOTE"
event_value post_delete = "POST_DELETE"
event_value anime_sub = "ANIME_SUB"
event_value anime_unsub = "ANIME_UNSUB"
event_value comment_create = "COMMENT_CREATE"
event_value comment_vote = "COMMENT_VOTE"
event_value comment_unvote = "COMMENT_UNVOTE"
event_value comment_report = "COMMENT_REPORT"
event_value comment_delete = "COMMENT_DELETE"
event_value forum_sub = "FORUM_SUB"
event_value forum_unsub = "FORUM_UNSUB"
event_value forum_delete = "FORUM_DELETE"
event_value user_cleanup = "USER_CLEANUP"
event_value malformed = "MALFORMED"
event_value orphaned_post_delete = "ORPHANED_POST_DELETE"
event_value orphaned_comment_delete = "ORPHANED_COMMENT_DELETE"
event_value downstream_user_post_decrement = "DOWNSTREAM_USER_POST_DECREMENT"
event_value downstream_forum_post_decrement = "DOWNSTREAM_FORUM_POST_DECREMENT"
event_value downstream_user_comment_decrement = "DOWNSTREAM_USER_COMMENT_DECREMENT"
event_value downstream_post_comment_decrement = "DOWNSTREAM_POST_COMMENT_DECREMENT"
event_value dlq_counter = "DLQ_COUNTER"
event_value dlq_side_effects = "DLQ_SIDE_EFFECTS"
event_value user_deletion_email = "USER_DELETION_EMAIL"
event_value user_registration_email = "USER_REGISTRATION_EMAIL"
event_value user_password_recovery_email = "USER_PASSWORD_RECOVERY_EMAIL"

unfoldable pub intent_flag_value : IntentFlag → String
intent_flag_value resource_creation_pending_flag = "FLAG:C"
intent_flag_value resource_creation_pending_alt_flag = "FLAG:CA"
intent_flag_value resource_deletion_pending_flag = "FLAG:D"
