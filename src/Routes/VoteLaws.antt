-- ===== src/Routes/VoteLaws.antt =====
-- What a vote adds to a score, against the difference that it makes.
use tenjin.Common.{
  ◌≡◌, ◌≢◌, refl, ap, sym, subst, ◌∙◌, Bool, true, false, String, Option, none, some,
}
use tenjin.Common.Action.{
  Action, Result, ok, err, http_error, raise, pure, continue, bind-ok, ◌>>=◌, ◌>>◌,
}
use tenjin.Common.Int.{ℤ, pos, negsuc, ◌+ℤ◌, double}
use tenjin.Events.Names.{posts, post_vote, post_unvote, resource_deletion_pending_flag}
use tenjin.Routes.{PostResult, AccessClaims, Server}
use tenjin.Routes.Parts.{emit, refuse_if, no_intent, is_flag}
use tenjin.Routes.Votes.{
  Vote, up, down, vote_value, vote_intent, same_vote, vote_delta, unvote_delta, post_vote_event,
  keep_vote_intent, delta_of_existing, vote_change, stream_vote, delta_of_removed, unvote_change,
  stream_unvote,
}

-- What a user's vote, if there is one, stands for in the score.
abbrev pub standing : Option Bool → ℤ
standing none = pos 0
standing (some true) = pos 1
standing (some false) = negsuc 0

-- what the handlers forget: the downvote that an upvote replaces
abbrev pub forgotten : Option Bool → ℤ
forgotten (some false) = pos 1
forgotten _ = pos 0

-- the outcome of a request that is refused after its intent has been kept
abbrev pub refusal : {W : Type 0} → Result (Unit {0}) × W → Result (Unit {0}) × W
refusal (ok u, w) = (err (http_error 409), w)
refusal (err e, w) = (err e, w)

module _ {W : Type 0} where
  refused :
      {A : Type 0} (m : Action W (Unit {0})) (k : Unit {0} → Action W A)
      (out : A → Action W (Unit {0})) (w : W)
      → (m >> raise (http_error 409) >>= k >>= out) w ≡ refusal (m w)
  unfolding continue
  refused m k out w = by_outcome (m w)
    where
      by_outcome :
          (o : Result (Unit {0}) × W)
          → continue (m >> raise (http_error 409) >>= k) out (
              continue (m >> raise (http_error 409)) k (continue m (λ _. raise (http_error 409)) o))
            ≡ refusal o
      by_outcome (ok u, v) = refl
      by_outcome (err e, v) = refl

  pub refused_at_once :
      {A : Type 0} (m : Action W (Unit {0})) (out : A → Action W (Unit {0})) (w : W)
      → (m >> raise (http_error 409) >>= out) w ≡ refusal (m w)
  unfolding continue
  refused_at_once m out w = by_outcome (m w)
    where
      by_outcome :
          (o : Result (Unit {0}) × W)
          → continue (m >> raise (http_error 409)) out (continue m (λ _. raise (http_error 409)) o)
            ≡ refusal o
      by_outcome (ok u, v) = refl
      by_outcome (err e, v) = refl

module _ {W : Type 0} (server : Server W) (post_id : ℤ) (token : AccessClaims)
    (post : PostResult) where
  abbrev vote_event : Vote → ℤ → String → Action W (Unit {0})
  vote_event v d i =
      emit server posts (post_vote_event post_vote (vote_intent v) d post_id token post i)

  abbrev unvote_event : ℤ → String → Action W (Unit {0})
  unvote_event d i =
      emit server posts
        (post_vote_event post_unvote resource_deletion_pending_flag d post_id token post i)

  -- What a vote comes to once the user's vote is known: the request is refused where that vote is
  -- the same, and else an event is handed to the streamer, with a delta that makes the standing of
  -- the new vote, but for 1 where it replaces a downvote.
  pub data Voted (v : Vote) (i : String) (existing : Option Bool) (w : W)
      (o : Result (Unit {0}) × W) : Type 0 where
    stands :
        standing existing ≡ vote_value v
        → o ≡ refusal (keep_vote_intent server post_id token i (vote_intent v) w)
        → Voted v i existing w o
    changes :
        (d : ℤ)
        → standing existing ≢ vote_value v
        → standing existing +ℤ (d +ℤ forgotten existing) ≡ vote_value v
        → o ≡ vote_event v d i w
        → Voted v i existing w o

  pub data Unvoted (i : String) (existing : Option Bool) (w : W) (o : Result (Unit {0}) × W)
      : Type 0 where
    absent :
        existing ≡ none
        → o ≡ refusal (keep_vote_intent server post_id token i resource_deletion_pending_flag w)
        → Unvoted i existing w o
    removes :
        (d : ℤ)
        → existing ≢ none
        → standing existing +ℤ d ≡ double (standing existing)
        → o ≡ unvote_event d i w
        → Unvoted i existing w o

  vote_case :
      (v : Vote) (i : String) (existing : Option Bool) (w : W)
      → Voted v i existing w
          ((delta_of_existing server post_id token v i existing >>= λ d. vote_event v d i) w)
  unfolding delta_of_existing same_vote vote_delta vote_value refuse_if
  vote_case up i none w = changes (pos 1) (λ h. cc) refl refl
  vote_case down i none w = changes (negsuc 0) (λ h. cc) refl refl
  vote_case up i (some true) w = stands refl (
      refused (keep_vote_intent server post_id token i (vote_intent up))
        (λ _. pure (vote_delta (some true) up)) (λ d. vote_event up d i) w)
  vote_case down i (some true) w = changes (negsuc 1) (λ h. cc) refl refl
  vote_case up i (some false) w = changes (pos 1) (λ h. cc) refl refl
  vote_case down i (some false) w = stands refl (
      refused (keep_vote_intent server post_id token i (vote_intent down))
        (λ _. pure (vote_delta (some false) down)) (λ d. vote_event down d i) w)

  -- The body of vote_post for a user without an intent, once the user's vote has been looked up: it is
  -- refused where that vote is the new one, after its intent was kept; and else one event is handed to
  -- the streamer, whose delta and the standing of the vote that it replaces make the standing of the
  -- new vote, but for 1 where that was a downvote.
  pub stream_vote-Voted :
      (v : Vote) (i : String) (existing : Option Bool) (w w₁ w₂ : W)
      → server.uuid4 w ≡ (ok i, w₁)
      → server.get_post_vote post_id token.sid w₁ ≡ (ok existing, w₂)
      → Voted v i existing w₂ (stream_vote server post_id token v post none w)
  unfolding stream_vote vote_change no_intent continue
  stream_vote-Voted v i existing w w₁ w₂ e g =
      subst (Voted v i existing w₂) (sym known) (vote_case v i existing w₂)
    where
      streamed : String → Action W (Unit {0})
      streamed j = vote_change server post_id token v none j >>= λ d. vote_event v d j

      known :
          stream_vote server post_id token v post none w
          ≡ (delta_of_existing server post_id token v i existing >>= λ d. vote_event v d i) w₂
      known =
          bind-ok server.uuid4 streamed w i w₁ e
          ∙ ap (continue (vote_change server post_id token v none i) (λ d. vote_event v d i)) (
              bind-ok (server.get_post_vote post_id token.sid)
                (delta_of_existing server post_id token v i) w₁ existing w₂ g)

  unvote_case :
      (i : String) (existing : Option Bool) (w : W)
      → Unvoted i existing w
          ((delta_of_removed server post_id token i existing >>= λ d. unvote_event d i) w)
  unfolding delta_of_removed unvote_delta
  unvote_case i none w = absent refl (
      refused_at_once (keep_vote_intent server post_id token i resource_deletion_pending_flag)
        (λ d. unvote_event d i) w)
  unvote_case i (some true) w = removes (pos 1) (λ h. cc) refl refl
  unvote_case i (some false) w = removes (negsuc 0) (λ h. cc) refl refl

  -- The body of unvote_post for a user without an intent, once the user's vote has been looked up: it
  -- is refused where there is none, after its intent was kept; and else one event is handed to the
  -- streamer, by whose delta the vote counts twice in place of not at all.
  pub stream_unvote-Unvoted :
      (i : String) (existing : Option Bool) (w w₁ w₂ : W)
      → server.uuid4 w ≡ (ok i, w₁)
      → server.get_post_vote post_id token.sid w₁ ≡ (ok existing, w₂)
      → Unvoted i existing w₂ (stream_unvote server post_id token post none w)
  unfolding stream_unvote unvote_change no_intent is_flag continue
  stream_unvote-Unvoted i existing w w₁ w₂ e g =
      subst (Unvoted i existing w₂) (sym known) (unvote_case i existing w₂)
    where
      streamed : String → Action W (Unit {0})
      streamed j = unvote_change server post_id token none j >>= λ d. unvote_event d j

      known :
          stream_unvote server post_id token post none w
          ≡ (delta_of_removed server post_id token i existing >>= λ d. unvote_event d i) w₂
      known =
          bind-ok server.uuid4 streamed w i w₁ e
          ∙ ap (continue (unvote_change server post_id token none i) (λ d. unvote_event d i)) (
              bind-ok (server.get_post_vote post_id token.sid)
                (delta_of_removed server post_id token i) w₁ existing w₂ g)
