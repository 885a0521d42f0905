-- ===== src/Routes/Votes.antt =====
-- resource_server/routers/posts.py: vote_post and unvote_post.
use tenjin.Common.{Bool, true, false, if◌then◌else◌, Option, none, some, String, [], ◌∷◌}
use tenjin.Common.Action.{Action, http_error, raise, pure, ◌>>=◌, ◌>>◌}
use tenjin.Common.Int.{ℤ, pos, negsuc, str_of_int, double}
use tenjin.Events.{Event}
use tenjin.Events.Values.{int, end, field}
use tenjin.Events.Names.{
  EventName, IntentFlag, posts, post_vote, post_unvote, resource_creation_pending_flag,
  resource_creation_pending_alt_flag, resource_deletion_pending_flag,
}
use tenjin.Cache.Guard.{vote, derive_cache_key}
use tenjin.Routes.{PostResult, AccessClaims, Server}
use tenjin.Routes.Parts.{
  Response, message, counter_update, intent_update, user_event, emit, guard, keep_intent,
  post_or_404, refuse_if, no_intent, is_flag,
}

-- models/requests.py: `vote: Literal[1, -1]`
pub data Vote : Type 0 where
  up down : Vote

unfoldable pub vote_value : Vote → ℤ
vote_value up = pos 1
vote_value down = negsuc 0

unfoldable pub vote_intent : Vote → IntentFlag
vote_intent up = resource_creation_pending_flag
vote_intent down = resource_creation_pending_alt_flag

-- the test for the vote that was cast before
unfoldable pub same_vote : Option Bool → Vote → Bool
same_vote (some true) up = true
same_vote (some false) down = true
same_vote _ _ = false

-- `delta`, after `elif existing_vote: delta *= 2`
unfoldable pub vote_delta : Option Bool → Vote → ℤ
unfolding vote_value
vote_delta (some true) v = double (vote_value v)
vote_delta (some false) v = vote_value v
vote_delta none v = vote_value v

-- the delta of `unvote_post` for a vote that is known from the database
unfoldable pub unvote_delta : Bool → ℤ
unvote_delta true = pos 1
unvote_delta false = negsuc 0

-- the event of both handlers
unfoldable pub post_vote_event :
    EventName → IntentFlag → ℤ → ℤ → AccessClaims → PostResult → String → Event
unfolding counter_update derive_cache_key intent_update
post_vote_event name flag delta post_id token post intent_id =
    user_event name
      (field "user_id" (int token.sid)
        (field "post_id" (int post_id) (field "vote" (int delta) end)))
      (counter_update "posts" "score" (derive_cache_key "posts" post_id) "score" delta
        ∷ counter_update "users" "aura" (derive_cache_key "users" post.author_id) "aura" delta
        ∷ [])
      (intent_update "posts" vote token.sid (str_of_int post_id) flag intent_id ∷ [])

module _ {W : Type 0} (server : Server W) (post_id : ℤ) (token : AccessClaims) where
  -- `set_intent` under the name of the table of votes
  unfoldable pub keep_vote_intent : String → IntentFlag → Action W (Unit {0})
  keep_vote_intent intent_id flag =
      keep_intent server intent_id token (str_of_int post_id) "post_votes" vote flag

  unfoldable pub delta_of_existing : Vote → String → Option Bool → Action W ℤ
  unfolding same_vote vote_delta keep_vote_intent vote_intent refuse_if
  delta_of_existing v intent_id existing =
      refuse_if (keep_vote_intent intent_id (vote_intent v)) (same_vote existing v)
      >> pure (vote_delta existing v)

  unfoldable pub vote_change : Vote → Option String → String → Action W ℤ
  unfolding no_intent delta_of_existing vote_value
  vote_change v latest_intent intent_id =
      if no_intent latest_intent
      then server.get_post_vote post_id token.sid >>= delta_of_existing v intent_id
      else pure (vote_value v)

  -- the body of the guard in `vote_post`
  unfoldable pub stream_vote : Vote → PostResult → Option String → Action W (Unit {0})
  unfolding vote_change post_vote_event vote_intent
  stream_vote v post latest_intent = do
    intent_id ← server.uuid4
    delta ← vote_change v latest_intent intent_id
    emit server posts (post_vote_event post_vote (vote_intent v) delta post_id token post intent_id)

  unfoldable pub vote_post : Vote → Action W Response
  unfolding post_or_404 stream_vote vote_intent str_of_int
  vote_post v = do
    post ← post_or_404 server post_id
    guard server token (str_of_int post_id) "posts" vote (vote_intent v) (stream_vote v post)
    pure (message 202 "Voted")

  unfoldable pub delta_of_removed : String → Option Bool → Action W ℤ
  unfolding keep_vote_intent unvote_delta
  delta_of_removed intent_id none =
      keep_vote_intent intent_id resource_deletion_pending_flag >> raise (http_error 409)
  delta_of_removed intent_id (some existing) = pure (unvote_delta existing)

  unfoldable pub unvote_change : Option String → String → Action W ℤ
  unfolding is_flag no_intent delta_of_removed
  unvote_change latest_intent intent_id =
      if is_flag resource_creation_pending_alt_flag latest_intent
      then pure (negsuc 0)
      else if no_intent latest_intent
      then server.get_post_vote post_id token.sid >>= delta_of_removed intent_id
      else pure (pos 1)

  -- the body of the guard in `unvote_post`
  unfoldable pub stream_unvote : PostResult → Option String → Action W (Unit {0})
  unfolding unvote_change post_vote_event
  stream_unvote post latest_intent = do
    intent_id ← server.uuid4
    delta ← unvote_change latest_intent intent_id
    emit server posts (
        post_vote_event post_unvote resource_deletion_pending_flag delta post_id token post
          intent_id)

  unfoldable pub unvote_post : Action W Response
  unfolding post_or_404 stream_unvote str_of_int
  unvote_post = do
    post ← post_or_404 server post_id
    guard server token (str_of_int post_id) "posts" vote resource_deletion_pending_flag
        (stream_unvote post)
    pure (message 202 "Unvoted")
