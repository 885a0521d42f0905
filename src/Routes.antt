-- ===== src/Routes.antt =====
-- resource_server: the state and the calls that the handlers of routers/ share. The caches'
-- entries, the repositories and the streamer are records of operations.
pub mod Streamer
pub mod Permissions
pub mod Parts
pub mod Posts
pub mod Votes
pub mod Saves
pub mod Comments
pub mod CommentVotes
pub mod Admins
pub mod Forums
pub mod Animes
pub mod Users
pub mod Access
pub mod CountLaws
pub mod VoteLaws
pub mod SubscriptionLaws
pub mod AdminRanks
pub mod AdminLaws
pub mod Owners
pub mod DeletionLaws
pub mod Recovery
pub mod AccessLaws
pub mod Samples
mod Tests
mod AdminTests
mod UserTests
use tenjin.Common.{ℕ, Bool, Option, String, List}
use tenjin.Common.Action.{Action}
use tenjin.Common.Int.{ℤ}
use tenjin.Events.Values.{Fields, Orjson}
use tenjin.Cache.Guard.{IntentClient}
use tenjin.Pipeline.{Broker}

-- models/database_enums.py
pub data AdminRole : Type 0 where
  admin super owner : AdminRole

-- The fields of the results of the repositories that the handlers read.
pub record PostResult : Type 0 where
  pub id_ : ℤ
  pub author_id : ℤ
  pub forum_id : ℤ
  pub title : String
  pub body_text : String
  pub closed : Bool

pub record CommentResult : Type 0 where
  pub id_ : ℤ
  pub author_id : ℤ
  pub parent_forum : ℤ
  pub parent_post : ℤ

pub record ForumResult : Type 0 where
  pub id_ : ℤ
  pub name_ : String

pub record ForumAdminResult : Type 0 where
  pub user_id : ℤ
  pub role : AdminRole

-- utils/typing.py: the claims of an access token
pub record AccessClaims : Type 0 where
  pub sid : ℤ
  pub sub : String

-- What the handlers await. Each `…_or_load` is `distributed_get_or_load` for one type of result:
-- its arguments are the key and the call that loads the result from the database.
pub record Server (W : Type 0) : Type 0 where
  pub post_or_load : String → Action W (Option PostResult) → Action W (Option PostResult)
  pub comment_or_load : String → Action W (Option CommentResult) → Action W (Option CommentResult)
  pub forum_or_load : String → Action W (Option ForumResult) → Action W (Option ForumResult)
  pub admin_or_load :
      String → Action W (Option ForumAdminResult) → Action W (Option ForumAdminResult)
  pub get_post : ℤ → Action W (Option PostResult)
  pub get_comment : ℤ → Action W (Option CommentResult)
  pub get_forum : ℤ → Action W (Option ForumResult)
  -- a forum and a user
  pub get_forum_admin : ℤ → ℤ → Action W (Option ForumAdminResult)
  -- the votes of a user on a post and on a comment, true for an upvote
  pub get_post_vote : ℤ → ℤ → Action W (Option Bool)
  pub get_comment_vote : ℤ → ℤ → Action W (Option Bool)
  pub check_saved : ℤ → ℤ → Action W Bool
  pub check_post_reported : ℤ → ℤ → String → Action W Bool
  pub check_comment_reported : ℤ → ℤ → String → Action W Bool
  pub update_post : ℤ → Option String → Option String → Bool → Action W (Unit {0})
  -- `hset_with_ttl(name, cache_repr(post), TTL_STRONG)`
  pub store_post : String → PostResult → Action W (Unit {0})
  pub add_forum_admin : ℤ → ℤ → AdminRole → Action W (Unit {0})
  pub remove_forum_admin : ℤ → ℤ → Action W (Unit {0})
  pub update_admin_role : ℤ → ℤ → AdminRole → Action W (Unit {0})
  -- `user_repo.get_user` through the cache: whether there is such a user
  pub user_or_load : String → ℤ → Action W Bool
  pub check_subscription : ℤ → ℤ → Action W Bool
  -- the number of the forum's owner, from the database and through the cache
  pub get_forum_owner : ℤ → Action W (Option ℤ)
  pub owner_or_load : String → Action W (Option ℤ) → Action W (Option ℤ)
  pub update_forum : ℤ → Option String → Option String → Action W ForumResult
  -- `uuid4().hex` and `datetime.now().isoformat()`
  pub uuid4 : Action W String
  pub now : Action W String
  pub intents : IntentClient W
  pub broker : Broker W
  pub orjson : Orjson
  pub ttl_strongest : ℕ
