-- ===== src/Routes/Animes.antt =====
-- resource_server/routers/animes.py: get_anime, sub_anime, unsub_anime and get_anime_links.
use tenjin.Common.{Bool, Option, String, List, [], ◌∷◌}
use tenjin.Common.Action.{Action, type_error, raise, pure, ◌>>=◌, ◌>>◌}
use tenjin.Common.Int.{ℤ, pos, negsuc, str_of_int}
use tenjin.Events.{Event}
use tenjin.Events.Values.{int, str, end, field}
use tenjin.Events.Names.{
  EventName, IntentFlag, animes, anime_sub, anime_unsub, resource_creation_pending_flag,
  resource_deletion_pending_flag,
}
use tenjin.Cache.Guard.{UserAction, sub, unsub, derive_cache_key}
use tenjin.Routes.{AccessClaims, Server}
use tenjin.Routes.Parts.{
  Response, message, counter_update, intent_update, user_event, emit, guard, keep_intent, or_http,
  refuse_if, if_no_intent,
}

-- repositories/anime.py: the fields that the handlers read
pub record AnimeResult : Type 0 where
  pub id_ : ℤ
  pub title : String
  pub stream_links : List (String × String)

-- What the handlers await of the cache and of the repository of animes.
pub record Animes (W : Type 0) : Type 0 where
  pub anime_or_load : String → Action W (Option AnimeResult) → Action W (Option AnimeResult)
  pub get_anime : ℤ → Action W (Option AnimeResult)
  -- an anime and a user
  pub check_subscription : ℤ → ℤ → Action W Bool

-- the event of `sub_anime` and `unsub_anime`: both name the intent after SUB
unfoldable pub anime_event : EventName → IntentFlag → ℤ → ℤ → AccessClaims → String → String → Event
unfolding counter_update derive_cache_key intent_update
anime_event name flag delta anime_id token intent_id now =
    user_event name
      (field "user_id" (int token.sid)
        (field "anime_id" (int anime_id) (field "time_subscribed" (str now) end)))
      (counter_update "animes" "subscriptions" (derive_cache_key "animes" anime_id) "subscribers"
          delta
        ∷ [])
      (intent_update "animes" sub token.sid (str_of_int anime_id) flag intent_id ∷ [])

module _ {W : Type 0} (repo : Animes W) (anime_id : ℤ) where
  unfoldable pub anime_or_404 : Action W AnimeResult
  unfolding derive_cache_key or_http
  anime_or_404 =
      repo.anime_or_load (derive_cache_key "animes" anime_id) (repo.get_anime anime_id)
      >>= or_http 404

  -- `JSONResponse(anime)`: the json module raises TypeError for an object that is not converted
  unfoldable pub get_anime : Action W Response
  unfolding anime_or_404
  get_anime = anime_or_404 >> raise type_error

  unfoldable pub get_anime_links : Action W (List (String × String))
  unfolding anime_or_404
  get_anime_links = anime_or_404 >>= λ anime. pure anime.stream_links

  module _ (server : Server W) (token : AccessClaims) where
    -- the check of both handlers, which refuse a user who is subscribed, with the name under which
    -- they keep the intent
    unfoldable pub unless_subscribed : UserAction → IntentFlag → String → Action W (Unit {0})
    unfolding refuse_if str_of_int
    unless_subscribed action flag intent_id =
        repo.check_subscription anime_id token.sid
        >>= refuse_if (
            keep_intent server intent_id token (str_of_int anime_id) "anime_subscriptions" action
              flag)

    -- the body of the guard in both handlers
    unfoldable pub stream_anime :
        EventName → UserAction → IntentFlag → ℤ → Option String → Action W (Unit {0})
    unfolding if_no_intent unless_subscribed anime_event
    stream_anime name action flag delta latest_intent = do
      intent_id ← server.uuid4
      if_no_intent latest_intent (unless_subscribed action flag intent_id)
      now ← server.now
      emit server animes (anime_event name flag delta anime_id token intent_id now)

    unfoldable pub sub_anime : Action W Response
    unfolding anime_or_404 stream_anime str_of_int
    sub_anime = do
      anime_or_404
      guard server token (str_of_int anime_id) "animes" sub resource_creation_pending_flag
          (stream_anime anime_sub sub resource_creation_pending_flag (pos 1))
      pure (message 202 "subscribed!")

    unfoldable pub unsub_anime : Action W Response
    unfolding anime_or_404 stream_anime str_of_int
    unsub_anime = do
      anime_or_404
      guard server token (str_of_int anime_id) "animes" sub resource_deletion_pending_flag
          (stream_anime anime_unsub unsub resource_deletion_pending_flag (negsuc 0))
      pure (message 202 "unsubscribed!")
