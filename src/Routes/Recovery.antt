-- ===== src/Routes/Recovery.antt =====
-- What becomes of a request to reset a password whose token has the right text.
use text.Mathlib.Text.{◌==◌ as str_eq}
use tenjin.Common.{
  ℕ, ltb, ◌≤◌, ◌<◌, ◌≡◌, refl, ap, ◌∙◌, Bool, true, false, Bool-cases, if◌then◌else◌, ◌⊎◌, inl, inr,
  String, Option, none, some, List, [], ◌∷◌, arith,
}
use tenjin.Common.Action.{
  Action, Error, Result, ok, err, redis, attribute_error, http_error, raise, pure, done, continue,
  bind-ok, bind-err, ◌>>=◌, ◌>>◌,
}
use tenjin.Common.Int.{ℤ}
use tenjin.Cache.Guard.{derive_cache_key, is_empty}
use tenjin.Routes.Parts.{Response, message}
use tenjin.Routes.Users.{
  UserResult, HashValue, moment, slot_id, user_json, Users, store_user, check_expiry, check_url,
  recovering, update_password,
}

abbrev is_moment : HashValue → Bool
is_moment (moment t) = true
is_moment _ = false

abbrev pub has_moment : List (String × HashValue) → Bool
has_moment [] = false
has_moment ((k, v) ∷ d) = if is_moment v then true else has_moment d

-- redis-py's documentation: a value that is neither bytes, text nor a number is refused with
-- DataError, when the commands of the pipeline are packed, before any is sent.
pub record RefusesMoments {W : Type 0} (repo : Users W) : Type 0 where
  pub refuses :
      (key : String) (d : List (String × HashValue)) (w : W)
      → has_moment d ≡ true
      → repo.hset_and_expire key d w ≡ (err redis, w)

module _ {W : Type 0} (repo : Users W) (strict : RefusesMoments repo) where
  store_user_raises :
      (key : String) (user : UserResult) (w : W)
      → (e : Error) × (store_user repo key user w ≡ (err e, w))
  unfolding store_user user_json slot_id
  store_user_raises key user w = by_id user.id_ refl
    where
      by_id :
          (o : Option ℤ) → user.id_ ≡ o → (e : Error) × (store_user repo key user w ≡ (err e, w))
      by_id none h = (attribute_error, rw h refl)
      by_id (some i) h = (redis, rw h (strict.refuses key _ w refl))

  -- What the request comes to: before the token expires it is refused, at the world `w` where the clock
  -- was read, and after that it raises in the world `w'`, where the password has been written.
  abbrev pub Outcome : ℕ → ℕ → W → W → Result Response × W → Type 0
  Outcome now expiry w w' o =
      ((now < expiry) × (o ≡ (err (http_error 403), w)))
      ⊎ ((expiry ≤ now) × ((e : Error) × (o ≡ (err e, w'))))

  module _ (user_id : ℤ) (temp_url password : String) (user : UserResult) (url : String)
      (expiry now : ℕ) (w w₁ w₂ w₃ w₄ : W) (pw_hash : String)
      (found : repo.get_user_password_recovery_token user_id w
        ≡ (ok (some user, (some url, some expiry)), w₁))
      (there : is_empty url ≡ false) (matches : str_eq url temp_url ≡ true)
      (read : repo.clock w₁ ≡ (ok now, w₂))
      (hashed : repo.bcrypt_hash_password password w₂ ≡ (ok pw_hash, w₃))
      (written : repo.update_password user_id pw_hash w₃ ≡ (ok tt, w₄)) where
    abbrev key : String
    key = derive_cache_key "users" user_id

    abbrev stored : UserResult → Action W Response
    stored u = store_user repo key u >> pure (message 200 "password reset")

    abbrev reset : UserResult → Action W Response
    reset u = repo.bcrypt_hash_password password >>= λ h. repo.update_password user_id h >> stored u

    reset_raises : (e : Error) × (reset user w₂ ≡ (err e, w₄))
    reset_raises =
        let (e, raised) = store_user_raises key user w₄ in
        (
          e,
          bind-ok (repo.bcrypt_hash_password password)
                (λ h. repo.update_password user_id h >> stored user) w₂ pw_hash w₃ hashed
              ∙ bind-ok (repo.update_password user_id pw_hash) (λ _. stored user) w₃ tt w₄ written
              ∙ bind-err (store_user repo key user) (λ _. pure (message 200 "password reset")) w₄ e
                  w₄ raised,
        )

    abbrev expired_or : ℕ → Action W (Unit {0})
    expired_or t = if ltb t expiry then raise (http_error 403) else done

    checked : check_expiry repo (some expiry) w₁ ≡ expired_or now w₂
    unfolding check_expiry
    checked = bind-ok repo.clock expired_or w₁ now w₂ read

    recovered :
        (o : Result (Unit {0}) × W)
        → check_expiry repo (some expiry) w₁ ≡ o
        → recovering repo temp_url (some user, (some url, some expiry)) w₁
          ≡ continue (check_expiry repo (some expiry)) (λ _. pure user) o
    unfolding recovering check_url continue
    recovered o h =
        rw (there, matches)
          (ap (continue (check_expiry repo (some expiry)) (λ (u : Unit {0}). pure user)) h)

    accepted : Action W UserResult
    accepted = repo.get_user_password_recovery_token user_id >>= recovering repo temp_url

    accepted_at :
        (o : Result (Unit {0}) × W)
        → expired_or now w₂ ≡ o
        → accepted w ≡ continue (check_expiry repo (some expiry)) (λ (u : Unit {0}). pure user) o
    unfolding accepted
    accepted_at o h =
        bind-ok (repo.get_user_password_recovery_token user_id) (recovering repo temp_url) w
          (some user, (some url, some expiry)) w₁ found
        ∙ recovered o (checked ∙ h)

    -- Where the token has the text that was given: before the time of its expiry the request is
    -- refused with 403, and from that time on, once the password has been written, it raises.
    pub update_password-Outcome :
        Outcome now expiry w₂ w₄ (update_password repo user_id temp_url password w)
    unfolding update_password accepted continue
    update_password-Outcome = elim (Bool-cases (ltb now expiry)) [
      | inl early ↦ inl (
        ground arith,
        bind-err accepted reset w (http_error 403) w₂
            (accepted_at (err (http_error 403), w₂) (rw early refl)),
      )
      | inr late ↦
          let (e, raised) = reset_raises in
          inr (
            ground arith,
            (e, bind-ok accepted reset w user w₂ (accepted_at (ok tt, w₂) (rw late refl)) ∙ raised),
          )
    ]
