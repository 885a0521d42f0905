-- ===== src/Routes/UserTests.antt =====
-- Tests of the handlers on users and of access tokens: the world is the time, and the token of user 1 expires at 5.
use tenjin.Common.{
  ℕ, ◌≡◌, ◌≢◌, refl, false, if◌then◌else◌, String, Option, none, some, List, [], ◌∷◌,
}
use text.Mathlib.Text.{◌==◌ as str_eq}
use tenjin.Common.Action.{Action, ok, err, invalid_token, redis, http_error}
use tenjin.Common.Int.{pos}
use tenjin.Routes.Parts.{message, or_http}
use tenjin.Routes.Users.{
  UserResult, Users, slot_id, user_json, store_user, update_password, recovering, check_url,
  check_expiry, recover_password, has_at, register, unless_taken, login, identified, check_password,
}
use tenjin.Common.Dict.{lookup}
use tenjin.Cache.Guard.{is_empty}
use tenjin.Routes.{AccessClaims}
use tenjin.Routes.Access.{
  Access, second_word, checked_header, as_unauthorized, decode_or, refresh_and_decode, decode_known,
  validate_token, validate_access_token,
}
use tenjin.Routes.AccessLaws.{RequiresAlgorithms, validate_access_token_refuses}
use tenjin.Routes.Recovery.{RefusesMoments, has_moment, Outcome, update_password-Outcome}

abbrev user : UserResult
user = record {
  id_ = some (pos 1);
  username = "u";
  aura = pos 0;
  total_posts = pos 2;
  total_comments = pos 0;
  time_joined = "2024-01-01T00:00:00";
  last_login = "2024-01-01T00:00:00";
}

abbrev repo : Users ℕ
repo = record {
  user_or_load = λ k load. load;
  get_user_by_username = λ name w. (ok (some user), w);
  get_user_by_email = λ email w. (ok none, w);
  get_user_by_identity = λ name email w. (ok (user ∷ []), w);
  add_user = λ name email hash w. (ok user, w);
  get_user_password = λ i w. (ok "p", w);
  delete_user = λ i t w. (ok tt, w);
  set_password_recovery_token = λ i t expiry w. (ok tt, expiry);
  get_user_password_recovery_token = λ i w. (ok (some user, (some "url", some 5)), w);
  update_password = λ i hash w. (ok tt, w);
  hset_and_expire = λ k d w. if has_moment d then (err redis, w) else (ok tt, w);
  set_negative_mapping = λ k w. (ok tt, w);
  bcrypt_hash_password = λ password w. (ok password, w);
  bcrypt_check_password = str_eq;
  generate_url_token = λ w. (ok "url", w);
  clock = λ w. (ok w, w);
  password_token_max_age = 60;
}

repo-RefusesMoments : RefusesMoments repo
repo-RefusesMoments = record { refuses = λ k d w h. rw h refl }

url_there : is_empty "url" ≡ false
unfolding is_empty
url_there = refl

-- the token is accepted at 7
update_password-Outcome_example :
    Outcome repo repo-RefusesMoments 7 5 7 7 (update_password repo (pos 1) "url" "new" 7)
update_password-Outcome_example =
    update_password-Outcome repo repo-RefusesMoments (pos 1) "url" "new" user "url" 5 7 7 7 7 7 7
      "new" refl url_there refl refl refl refl

late_reset : update_password repo (pos 1) "url" "new" 7 ≡ (err redis, 7)
unfolding update_password recovering check_url check_expiry store_user user_json slot_id
late_reset = refl

-- before the token expires it is refused
early_reset : update_password repo (pos 1) "url" "new" 3 ≡ (err (http_error 403), 3)
unfolding update_password recovering check_url check_expiry store_user user_json slot_id
early_reset = refl

-- the token of a name is set to expire 60 later; an unknown address is not found
recovery_by_name :
    recover_password repo "u" 3 ≡ (ok (message 202 "An email has been sent to account"), 63)
unfolding recover_password has_at or_http slot_id
recovery_by_name = refl

recovery_by_email : recover_password repo "a@b" 3 ≡ (err (http_error 404), 3)
unfolding recover_password has_at or_http slot_id
recovery_by_email = refl

taken :
    register repo (record { username = "u"; email = "a@b"; password = "p" }) 3
    ≡ (err (http_error 409), 3)
unfolding register unless_taken
taken = refl

logged_in : login repo (record { identity = "u"; password = "p" }) 3 ≡ (ok (pos 1, "u", 3), 3)
unfolding login identified has_at or_http check_password slot_id
logged_in = refl

wrong_password :
    login repo (record { identity = "u"; password = "q" }) 3 ≡ (err (http_error 403), 3)
unfolding login identified has_at or_http check_password slot_id
wrong_password = refl

abbrev decoded : Option (List String) → String → String → Action ℕ AccessClaims
decoded none token key w = (err invalid_token, w)
decoded (some algorithms) token key w = (ok (record { sid = pos 1; sub = "u" }), w)

-- PyJWT, which takes a token when it is told of an algorithm; key "k" is known
abbrev access : Access ℕ
access = record {
  current_mapping = λ w. (ok (("k", "pem") ∷ []), w);
  set_mapping = λ mapping w. (ok tt, w);
  get_global_key_mapping = λ w. (ok [], w);
  get_unverified_header = λ token. ok (some token, some "ES256");
  decode = decoded;
  allowed_algorithms = "ES256" ∷ [];
}

access-RequiresAlgorithms : RequiresAlgorithms access
access-RequiresAlgorithms = record { refuses = λ token key w. refl }

validate_access_token_refuses_example :
    validate_access_token access (some ("Bearer" ∷ "k" ∷ [])) 3
    ≢ (ok (record { sid = pos 1; sub = "u" }), 3)
validate_access_token_refuses_example =
    validate_access_token_refuses access access-RequiresAlgorithms (some ("Bearer" ∷ "k" ∷ []))
      (record { sid = pos 1; sub = "u" }) 3 3

no_such_key :
    validate_access_token access (some ("Bearer" ∷ "j" ∷ [])) 3 ≡ (err (http_error 401), 3)
unfolding validate_access_token second_word validate_token checked_header decode_known decode_or
    refresh_and_decode as_unauthorized lookup
no_such_key = refl
