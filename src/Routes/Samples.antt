-- ===== src/Routes/Samples.antt =====
-- A concrete server for the tests: its world is the table of admins, the cache of admins and the
-- history of the transactions.
use tenjin.Common.{
  ◌≡◌, Bool, true, false, ◌&&◌, if◌then◌else◌, Option, none, some, List, [], ◌∷◌, ◌++◌, arith,
}
use tenjin.Common.Action.{Action, Result, ok}
use tenjin.Common.Int.{ℤ, pos, negsuc, eqℤ}
use tenjin.Events.Values.{Orjson}
use tenjin.Pipeline.{Command}
use tenjin.Cache.Guard.{IntentClient}
use tenjin.Routes.{AdminRole, owner, PostResult, ForumAdminResult, AccessClaims, Server}

abbrev pub Rows : Type 0
Rows = ℤ → ℤ → Option AdminRole

pub record World : Type 0 where
  pub rows : Rows
  -- the admins that are in the cache, which nothing invalidates
  pub cached : Rows
  pub history : List (List Command)

abbrev pub same_row : ℤ → ℤ → ℤ → ℤ → Bool
same_row forum user f u = eqℤ f forum && eqℤ u user

abbrev or_new : Option AdminRole → AdminRole → Option AdminRole
or_new none role = some role
or_new (some r) role = some r

abbrev with_rows : (Rows → Rows) → Action World (Unit {0})
with_rows change w =
    (ok tt, record { rows = change w.rows; cached = w.cached; history = w.history })

-- INSERT, DELETE and UPDATE of one row
abbrev pub insert_row : ℤ → ℤ → AdminRole → Rows → Rows
insert_row forum user role rows f u =
    if same_row forum user f u then or_new (rows f u) role else rows f u

abbrev pub delete_row : ℤ → ℤ → Rows → Rows
delete_row forum user rows f u = if same_row forum user f u then none else rows f u

abbrev pub update_row : ℤ → ℤ → AdminRole → Rows → Rows
update_row forum user role rows f u = if same_row forum user f u then some role else rows f u

abbrev pub post : PostResult
post = record {
  id_ = pos 5;
  author_id = pos 1;
  forum_id = pos 3;
  title = "t";
  body_text = "b";
  closed = false;
}

-- an encoder that takes every value
abbrev pub lenient : Orjson
lenient = record { dumps = λ v. some "{}"; loads = λ s. none }

abbrev admin_of : ℤ → AdminRole → ForumAdminResult
admin_of user r = record { user_id = user; role = r }

-- a lookup, by what is in the cache and in the table
abbrev pub look :
    Option AdminRole → Option AdminRole → ℤ → ℤ → World → Result (Option ForumAdminResult) × World
look (some r) row forum user w = (ok (some (admin_of user r)), w)
look none none forum user w = (ok none, w)
look none (some r) forum user w = (
  ok (some (admin_of user r)),
  record {
    rows = w.rows;
    cached = λ f u. if same_row forum user f u then some r else w.cached f u;
    history = w.history;
  },
)

-- a client that gives every lock and finds no intent
abbrev pub client : {W : Type 0} → IntentClient W
client = record {
  lock_and_get = λ l i w. (ok (true, none), w);
  get_both = λ l i w. (ok (none, none), w);
  delete = λ l w. (ok tt, w);
  set_ex = λ k v n w. (ok tt, w);
}

-- the user with number 2 has downvoted post 5
abbrev server_with : Orjson → (ℤ → ℤ → Action World (Option ForumAdminResult)) → Server World
server_with encoder lookup = record {
  post_or_load = λ k load. load;
  comment_or_load = λ k load. load;
  forum_or_load = λ k load. load;
  admin_or_load = λ k load. load;
  get_post = λ i w. (ok (some post), w);
  get_comment = λ i w. (ok none, w);
  get_forum = λ i w. (ok (some (record { id_ = i; name_ = "f" })), w);
  get_forum_admin = lookup;
  get_post_vote = λ p u w. (ok (some false), w);
  get_comment_vote = λ p u w. (ok none, w);
  check_saved = λ p u w. (ok false, w);
  check_post_reported = λ p u t w. (ok false, w);
  check_comment_reported = λ p u t w. (ok false, w);
  update_post = λ i t b c w. (ok tt, w);
  store_post = λ k p w. (ok tt, w);
  add_forum_admin = λ f u r. with_rows (insert_row f u r);
  remove_forum_admin = λ f u. with_rows (delete_row f u);
  update_admin_role = λ f u r. with_rows (update_row f u r);
  user_or_load = λ k u w. (ok true, w);
  check_subscription = λ f u w. (ok false, w);
  get_forum_owner = λ f w. (ok (some (pos 1)), w);
  owner_or_load = λ k load. load;
  update_forum = λ f t d w. (ok (record { id_ = f; name_ = "f" }), w);
  uuid4 = λ w. (ok "a", w);
  now = λ w. (ok "2024-01-01T00:00:00", w);
  intents = client;
  broker = record {
    execute_transaction = λ cs w.
        (ok tt, record { rows = w.rows; cached = w.cached; history = w.history ++ (cs ∷ []) });
  };
  orjson = encoder;
  ttl_strongest = 60;
}

abbrev pub with_encoder : Orjson → Server World
with_encoder encoder = server_with encoder (λ f u w. look (w.cached f u) (w.rows f u) f u w)

abbrev pub server : Server World
server = with_encoder lenient

-- a server without admins
abbrev pub nobody : Server World
nobody = server_with lenient (λ f u w. (ok none, w))

-- user 1 owns forum 3
abbrev pub start : World
start = record {
  rows = λ f u. if same_row (pos 3) (pos 1) f u then some owner else none;
  cached = λ f u. none;
  history = [];
}

abbrev pub token : AccessClaims
token = record { sid = pos 2; sub = "user" }

eqℤ_sound : (a b : ℤ) → eqℤ a b ≡ true → a ≡ b
eqℤ_sound (pos a) (pos b) h = ground arith
eqℤ_sound (pos a) (negsuc b) h = cc
eqℤ_sound (negsuc a) (pos b) h = cc
eqℤ_sound (negsuc a) (negsuc b) h = ground arith

pub same_row_sound :
    (forum user f u : ℤ) → same_row forum user f u ≡ true → (f ≡ forum) × (u ≡ user)
same_row_sound forum user f u h = ground (arith, eqℤ_sound f forum, eqℤ_sound u user)
