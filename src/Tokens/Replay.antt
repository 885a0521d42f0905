-- ===== src/Tokens/Replay.antt =====
-- `issue_refresh_token` on a family that exists: the check for replays compares `str` of the bytes
-- of the newest entry with the text of the claim.
use Prim.Native.Nat.{Ordering}
use Prim.Native.String.{compare, count}
use text.Mathlib.Text.{◌==◌ as str_eq, is_eq}
use text.Mathlib.TextEquality.{path_by_compare}
use text.Mathlib.TextLemmas.{length-append}
use tenjin.Common.{
  ℕ, ◌+◌, ◌≡◌, refl, ap, ◌∙◌, true, false, Bool-cases, inl, inr, Option, some, String, ◌<>◌, List,
  [], ◌∷◌, arith,
}
use tenjin.Common.Action.{err, value_error, raise, bind-ok, bind-err}
use tenjin.Tokens.Families.{
  Entry, TokenStore, KeepsLists, family_key, invalidate_family, invalidate_family_clears,
}
use tenjin.Tokens.Issue.{
  Jwt, Host, TokenManager, str_of_bytes, is_not_text, check_newest, check_family, issue_checked,
  issue_refresh_token,
}

is_eq-path : (o : Ordering) → is_eq o ≡ true → o ≡ Ordering.eq
is_eq-path Ordering.lt h = ground arith
is_eq-path Ordering.eq h = refl
is_eq-path Ordering.gt h = ground arith

str_eq-path : (s t : String) → str_eq s t ≡ true → s ≡ t
str_eq-path s t h = path_by_compare s t (is_eq-path (compare s t) h)

repr_longer : (jti : String) → count (str_of_bytes jti) ≡ 3 + count jti
repr_longer jti =
    length-append "b'" (jti <> "'") ∙ ap (λ n. 2 + n) (length-append jti "'") ∙ omega arith

repr_differs : (jti : String) → str_eq (str_of_bytes jti) jti ≡ false
repr_differs jti = elim (Bool-cases (str_eq (str_of_bytes jti) jti)) [
  | inl same ↦
      absurd (omega (arith, ap count (str_eq-path (str_of_bytes jti) jti same), repr_longer jti))
  | inr differ ↦ differ
]

module _ {W : Type 0} (jwt : Jwt) (host : Host W) (store : TokenStore W) (manager : TokenManager)
    (view : W → String → List Entry) (laws : KeepsLists store view) where
  check_newest-Refused :
      (family_id : String) (e : Entry) (exp : Option ℕ) (w : W)
      → (w' : W) × (check_newest jwt host store manager family_id (some e.jti) exp (some e) w
          ≡ (err value_error, w'))
        × (view w' (family_key family_id) ≡ [])
  unfolding check_newest is_not_text
  check_newest-Refused family_id e exp w =
      let (w', cleared, gone) = invalidate_family_clears store view laws family_id w in
      (
        w',
        rw (repr_differs e.jti)
            (bind-ok (invalidate_family store family_id) (λ _. raise value_error) w tt w' cleared),
        gone,
      )

  check_family-refuses :
      (family_id : String) (e : Entry) (es : List Entry) (exp : Option ℕ) (w : W)
      → str_eq family_id "" ≡ false
      → view w (family_key family_id) ≡ e ∷ es
      → (w' : W) × (check_family jwt host store manager family_id (some e.jti) exp w
          ≡ (err value_error, w'))
        × (view w' (family_key family_id) ≡ [])
  unfolding check_family
  check_family-refuses family_id e es exp w named held =
      let (w', refused, gone) = check_newest-Refused family_id e exp w in
      (
        w',
        rw named (
            bind-ok (store.lindex_first (family_key family_id))
              (check_newest jwt host store manager family_id (some e.jti) exp) w (some e) w
              (laws.lindex_cons (family_key family_id) w e es held)
            ∙ refused),
        gone,
      )

  -- Issuing a refresh token to a family that has a token raises, and it empties the family, even
  -- when the caller presents the identifier of the family's newest token and any expiry: `str` of
  -- the stored bytes is never that identifier.
  pub issue_refresh_token_refuses_newest :
      (sub : String) (sid : ℕ) (family_id : String) (e : Entry) (es : List Entry) (exp : Option ℕ)
      (w : W)
      → str_eq family_id "" ≡ false
      → view w (family_key family_id) ≡ e ∷ es
      → (w' : W) × (issue_refresh_token jwt host store manager sub sid family_id (some e.jti) exp w
          ≡ (err value_error, w'))
        × (view w' (family_key family_id) ≡ [])
  unfolding issue_refresh_token
  issue_refresh_token_refuses_newest sub sid family_id e es exp w named held =
      let (w', refused, gone) = check_family-refuses family_id e es exp w named held in
      (
        w',
        bind-err (check_family jwt host store manager family_id (some e.jti) exp)
            (λ _. issue_checked jwt host store manager sub sid family_id) w value_error w' refused,
        gone,
      )
