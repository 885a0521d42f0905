-- ===== src/Routes/CommentVotes.antt =====
-- resource_server/routers/comments.py: vote_comment and unvote_comment.
use tenjin.Common.{Bool, true, if◌then◌else◌, Option, some, String, [], ◌∷◌}
use tenjin.Common.Action.{Action, http_error, raise, pure, ◌>>=◌, ◌>>◌}
use tenjin.Common.Int.{ℤ, negsuc, str_of_int}
use tenjin.Events.{Event}
use tenjin.Events.Values.{Value, boolean, int, end, field}
use tenjin.Events.Names.{
  EventName, IntentFlag, comments, comment_vote, comment_unvote, resource_creation_pending_alt_flag,
  resource_deletion_pending_flag,
}
use tenjin.Cache.Guard.{UserAction, vote, unvote, derive_cache_key}
use tenjin.Routes.{CommentResult, AccessClaims, Server}
use tenjin.Routes.Parts.{
  Response, message, counter_update, intent_update, user_event, emit, guard, keep_intent,
  comment_or_404, refuse_if, no_intent, is_flag,
}
use tenjin.Routes.Votes.{Vote, vote_value, vote_intent, same_vote, vote_delta}

-- the event of both handlers, with what they give for the vote
unfoldable pub comment_vote_event :
    EventName
    → UserAction
    → IntentFlag
    → ℤ
    → Value
    → ℤ
    → AccessClaims
    → CommentResult
    → String
    → Event
unfolding counter_update derive_cache_key intent_update
comment_vote_event name action flag delta vote_field comment_id token comment intent_id =
    user_event name
      (field "user_id" (int token.sid)
        (field "comment_id" (int comment_id) (field "vote" vote_field end)))
      (counter_update "comments" "score" (derive_cache_key "comments" comment_id) "score" delta
        ∷ counter_update "users" "aura" (derive_cache_key "users" comment.author_id) "aura" delta
        ∷ [])
      (intent_update "comments" action token.sid (str_of_int comment_id) flag intent_id ∷ [])

module _ {W : Type 0} (server : Server W) (post_id comment_id : ℤ) (token : AccessClaims) where
  unfoldable pub keep_comment_vote_intent : String → IntentFlag → Action W (Unit {0})
  keep_comment_vote_intent intent_id flag =
      keep_intent server intent_id token (str_of_int comment_id) "comment_votes" vote flag

  unfoldable pub delta_of_existing_vote : Vote → String → Option Bool → Action W ℤ
  unfolding same_vote vote_delta keep_comment_vote_intent vote_intent refuse_if
  delta_of_existing_vote v intent_id existing =
      refuse_if (keep_comment_vote_intent intent_id (vote_intent v)) (same_vote existing v)
      >> pure (vote_delta existing v)

  -- the vote is looked up under the number of the post
  unfoldable pub comment_vote_change : Vote → Option String → String → Action W ℤ
  unfolding no_intent delta_of_existing_vote vote_value
  comment_vote_change v latest_intent intent_id =
      if no_intent latest_intent
      then server.get_comment_vote post_id token.sid >>= delta_of_existing_vote v intent_id
      else pure (vote_value v)

  -- the body of the guard in `vote_comment`; 1 and -1 are both true
  unfoldable pub stream_comment_vote : Vote → CommentResult → Option String → Action W (Unit {0})
  unfolding comment_vote_change comment_vote_event vote_intent
  stream_comment_vote v comment latest_intent = do
    intent_id ← server.uuid4
    delta ← comment_vote_change v latest_intent intent_id
    emit server comments (
        comment_vote_event comment_vote vote (vote_intent v) delta (boolean true) comment_id token
          comment intent_id)

  unfoldable pub vote_comment : Vote → Action W Response
  unfolding comment_or_404 stream_comment_vote vote_intent str_of_int
  vote_comment v = do
    comment ← comment_or_404 server comment_id
    guard server token (str_of_int comment_id) "comments" vote (vote_intent v)
        (stream_comment_vote v comment)
    pure (message 202 "Voted")

  -- `not existing_vote` holds of a downvote too
  unfoldable pub delta_of_removed_vote : String → Option Bool → Action W ℤ
  unfolding keep_comment_vote_intent
  delta_of_removed_vote intent_id (some true) = pure (negsuc 0)
  delta_of_removed_vote intent_id _ =
      keep_comment_vote_intent intent_id resource_deletion_pending_flag >> raise (http_error 409)

  unfoldable pub comment_unvote_change : Option String → String → Action W ℤ
  unfolding is_flag no_intent delta_of_removed_vote
  comment_unvote_change latest_intent intent_id =
      if is_flag resource_creation_pending_alt_flag latest_intent
      then pure (negsuc 0)
      else if no_intent latest_intent
      then server.get_comment_vote post_id token.sid >>= delta_of_removed_vote intent_id
      else pure (negsuc 0)

  -- the body of the guard in `unvote_comment`
  unfoldable pub stream_comment_unvote : CommentResult → Option String → Action W (Unit {0})
  unfolding comment_unvote_change comment_vote_event
  stream_comment_unvote comment latest_intent = do
    intent_id ← server.uuid4
    delta ← comment_unvote_change latest_intent intent_id
    emit server comments (
        comment_vote_event comment_unvote unvote resource_deletion_pending_flag delta (int delta)
          comment_id token comment intent_id)

  unfoldable pub unvote_comment : Action W Response
  unfolding comment_or_404 stream_comment_unvote str_of_int
  unvote_comment = do
    comment ← comment_or_404 server comment_id
    guard server token (str_of_int comment_id) "comments" vote resource_deletion_pending_flag
        (stream_comment_unvote comment)
    pure (message 202 "Removed vote")
