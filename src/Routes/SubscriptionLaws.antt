-- ===== src/Routes/SubscriptionLaws.antt =====
-- Whose subscription to an anime is streamed.
use tenjin.Common.{◌≡◌, refl, ap, ◌∙◌, Bool, true, false, if◌then◌else◌, String, none}
use tenjin.Common.Action.{Action, Result, ok, continue, bind-ok, ◌>>=◌, ◌>>◌}
use tenjin.Common.Int.{ℤ, str_of_int}
use tenjin.Events.Names.{EventName, IntentFlag, animes}
use tenjin.Cache.Guard.{UserAction}
use tenjin.Routes.{AccessClaims, Server}
use tenjin.Routes.Parts.{emit, keep_intent, refuse_if, if_no_intent, no_intent}
use tenjin.Routes.Animes.{Animes, anime_event, unless_subscribed, stream_anime}
use tenjin.Routes.VoteLaws.{refusal, refused_at_once}

module _ {W : Type 0} (repo : Animes W) (anime_id : ℤ) (server : Server W) (token : AccessClaims)
    (name : EventName) (action : UserAction) (flag : IntentFlag) (delta : ℤ) where
  abbrev kept : String → Action W (Unit {0})
  kept i = keep_intent server i token (str_of_int anime_id) "anime_subscriptions" action flag

  -- the event is made of the time, and handed to the streamer
  abbrev handed : String → Action W (Unit {0})
  handed i =
      server.now >>= λ now. emit server animes (anime_event name flag delta anime_id token i now)

  -- What both bodies come to once the subscription is known.
  abbrev pub outcome : Bool → String → W → Result (Unit {0}) × W
  outcome subscribed i w = if subscribed then refusal (kept i w) else handed i w

  known_case :
      (subscribed : Bool) (i : String) (w : W)
      → (refuse_if (kept i) subscribed >> handed i) w ≡ outcome subscribed i w
  unfolding refuse_if
  known_case false i w = refl
  known_case true i w = refused_at_once (kept i) (λ (u : Unit {0}). handed i) w

  -- The bodies of sub_anime and of unsub_anime for a user without an intent, once the subscription has
  -- been looked up: both refuse a subscriber, after the intent was kept, and both hand the event to the
  -- streamer for a user who is not subscribed.
  pub stream_anime-outcome :
      (i : String) (subscribed : Bool) (w w₁ w₂ : W)
      → server.uuid4 w ≡ (ok i, w₁)
      → repo.check_subscription anime_id token.sid w₁ ≡ (ok subscribed, w₂)
      → stream_anime repo anime_id server token name action flag delta none w
        ≡ outcome subscribed i w₂
  unfolding stream_anime if_no_intent no_intent unless_subscribed continue
  stream_anime-outcome i subscribed w w₁ w₂ e g =
      bind-ok server.uuid4 checked w i w₁ e
      ∙ ap (continue (unless_subscribed repo anime_id server token action flag i) (λ _. handed i)) (
          bind-ok (repo.check_subscription anime_id token.sid) (refuse_if (kept i)) w₁ subscribed w₂
            g)
      ∙ known_case subscribed i w₂
    where
      checked : String → Action W (Unit {0})
      checked j = unless_subscribed repo anime_id server token action flag j >> handed j
