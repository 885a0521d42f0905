-- ===== src/Routes/Tests.antt =====
-- Tests of the handlers, on a server with a table of admins and a history of transactions.
use tenjin.Common.{◌≡◌, refl, false, Option, none, some, List, [], ◌∷◌}
use tenjin.Common.Action.{ok, err, type_error}
use tenjin.Common.Int.{pos, negsuc}
use tenjin.Common.Lists.{flat}
use tenjin.Common.Int.{str_of_int}
use tenjin.Events.{StreamedEvent}
use tenjin.Events.Names.{posts, anime_unsub, resource_deletion_pending_flag, join_names}
use tenjin.Events.Values.{end}
use tenjin.Events.Encoding.{event_repr, side_effects_repr, dumps_bytes}
use tenjin.Events.Samples
use tenjin.Events.Samples.{encoder, encoder-RefusesBytes, votes}
use tenjin.Pipeline.{Command, commit_commands, emit_cache_invalidation_side_effects}
use tenjin.Cache.Guard.{unsub, derive_hashmap_name, derive_cache_key}
use tenjin.Routes.{Server, ForumAdminResult}
use tenjin.Routes.Parts.{
  forum_admin, post_or_404, or_http, no_intent, refuse_if, if_no_intent, counter_update,
  intent_update,
}
use tenjin.Routes.Streamer.{
  emit_user_event, emit_user_event_raises, user_event_commands, pipeline_update_counter,
  pipeline_set_intent,
}
use tenjin.Routes.Posts.{delete_post}
use tenjin.Routes.Votes.{
  up, stream_vote, vote_change, delta_of_existing, same_vote, vote_delta, vote_value,
  post_vote_event, stream_unvote,
}
use tenjin.Routes.Samples.{World, with_encoder, server, nobody, start, token, post, lenient}
use tenjin.Pipeline.Collect.{increments}
use tenjin.Routes.CountLaws.{commit_counts_again}
use tenjin.Routes.VoteLaws.{Voted, Unvoted, stream_vote-Voted, stream_unvote-Unvoted}
use tenjin.Routes.Animes.{Animes, unless_subscribed, stream_anime, anime_event}
use tenjin.Routes.SubscriptionLaws.{outcome, stream_anime-outcome}
use tenjin.Routes.DeletionLaws.{IsStreamless, delete_post_forbidden}

-- the server with an encoder that refuses bytes
abbrev strict : Server World
strict = with_encoder encoder

-- user 2, who downvoted post 5, votes for it, and for it no more
stream_vote-Voted_example :
    Voted strict
      (pos 5)
      token
      post
      up
      "a"
      (some false)
      start
      (stream_vote strict (pos 5) token up post none start)
stream_vote-Voted_example =
    stream_vote-Voted strict (pos 5) token post up "a" (some false) start start start refl refl

stream_unvote-Unvoted_example :
    Unvoted strict
      (pos 5)
      token
      post
      "a"
      (some false)
      start
      (stream_unvote strict (pos 5) token post none start)
stream_unvote-Unvoted_example =
    stream_unvote-Unvoted strict (pos 5) token post "a" (some false) start start start refl refl

abbrev after_vote : World
after_vote = (stream_vote server (pos 5) token up post none start).1

-- a repository with anime 7, to which nobody is subscribed
abbrev repo : Animes World
repo = record {
  anime_or_load = λ k load. load;
  get_anime = λ i w. (ok (some (record { id_ = i; title = "t"; stream_links = [] })), w);
  check_subscription = λ a u w. (ok false, w);
}

-- user 2, who is not subscribed, unsubscribes
stream_anime-outcome_example :
    stream_anime repo
      (pos 7)
      strict
      token
      anime_unsub
      unsub
      resource_deletion_pending_flag
      (negsuc 0)
      none
      start
    ≡ outcome repo
        (pos 7)
        strict
        token
        anime_unsub
        unsub
        resource_deletion_pending_flag
        (negsuc 0)
        false
        "a"
        start
stream_anime-outcome_example =
    stream_anime-outcome repo (pos 7) strict token anime_unsub unsub resource_deletion_pending_flag
      (negsuc 0) "a" false start start start refl refl

abbrev after_unsub : World
after_unsub =
    (stream_anime repo (pos 7) server token anime_unsub unsub resource_deletion_pending_flag
      (negsuc 0) none start).1

-- the counter of the anime's subscribers is lowered
unsubscription_lowers :
    flat increments after_unsub.history ≡ ("animes:subscriptions", "animes:7", negsuc 0) ∷ []
unfolding stream_anime if_no_intent no_intent unless_subscribed refuse_if emit_user_event event_repr
    side_effects_repr dumps_bytes user_event_commands pipeline_update_counter pipeline_set_intent
    anime_event counter_update derive_hashmap_name derive_cache_key join_names str_of_int
    intent_update
unsubscription_lowers = refl

-- deltas that the server streams, after an upvote over a downvote
upvote_over_downvote :
    flat increments after_vote.history
    ≡ ("posts:score", "posts:5", pos 1) ∷ ("users:aura", "users:1", pos 1) ∷ []
unfolding stream_vote vote_change no_intent delta_of_existing same_vote vote_delta vote_value
    refuse_if emit_user_event event_repr side_effects_repr dumps_bytes user_event_commands
    pipeline_update_counter pipeline_set_intent post_vote_event counter_update derive_hashmap_name
    derive_cache_key join_names str_of_int intent_update
upvote_over_downvote = refl

emit_user_event_raises_example :
    emit_user_event encoder server.broker 60 posts (Samples.vote 1).event start
    ≡ (err type_error, start)
emit_user_event_raises_example =
    emit_user_event_raises encoder server.broker 60 encoder-RefusesBytes posts
      (Samples.vote 1).event start

abbrev committed : List Command
committed = elim (commit_commands lenient posts "workers" votes) [ ok cs ↦ cs | err e ↦ [] ]

commits : commit_commands lenient posts "workers" votes ≡ ok committed
unfolding commit_commands emit_cache_invalidation_side_effects
commits = refl

commit_counts_again_example :
    increments committed
    ≡ flat
        (λ (e : StreamedEvent).
          increments (user_event_commands lenient server.broker 60 posts e.event end))
        votes
commit_counts_again_example =
    commit_counts_again lenient posts "workers" server.broker 60 (λ _. end) votes committed commits

nobody-IsStreamless : IsStreamless nobody (λ (w : World). w.history)
unfolding post_or_404 or_http forum_admin
nobody-IsStreamless = record {
  post_read = λ id w. refl;
  admin_read = λ forum user w. refl;
  uuid_read = λ w. refl;
  lock_read = λ l i w. refl;
  lock_delete = λ l w. refl;
}

no_row :
    (o : Option ForumAdminResult) (v v' : World)
    → forum_admin nobody (pos 3) (pos 2) v ≡ (ok o, v')
    → o ≡ none
unfolding forum_admin
no_row o v v' h = cc

delete_post_forbidden_example : (delete_post nobody (pos 5) token start).1.history ≡ start.history
unfolding post_or_404 or_http
delete_post_forbidden_example =
    delete_post_forbidden nobody (λ (w : World). w.history) nobody-IsStreamless (pos 5) token post
      start start refl refl no_row
