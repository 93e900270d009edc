-- ===== src/Middleware/Identity.antt =====
-- A request of the support chat is a user's or a guest's, and never both.
use auto_store_api.Prelude.{
  ◌≡◌, refl, ◌∙◌, true, none, some, String, Result, ok, err, ◌⊎◌, inl, inr,
}
use auto_store_api.Platform.{Platform}
use auto_store_api.Models.Tokens.{Claims, GuestClaims, is_access}
use auto_store_api.World.{Db, Error}
use auto_store_api.Auth.Login.{of_type-ok}
use auto_store_api.Chat.Service.{validate_guest}
use auto_store_api.Middleware.{
  Context, next, extract_bearer_token, check_guest, check_either, flexible_auth,
}
use auto_store_api.Middleware.Admitted.{
  Passes, Passes-next, Passes-mono, SignedIn, with_user-SignedIn, with_token, stored_user-lookup,
}

module _ (p : Platform) where
  -- A signed-in user and no guest, or a guest and no user.
  abbrev pub OneIdentity : Db p → String → Context p.Float → Type 0
  OneIdentity d header c =
      (SignedIn p d header c × (c.guest ≡ none))
      ⊎ ((g : GuestClaims) × (validate_guest p (extract_bearer_token p header) ≡ ok g)
          × (c.guest ≡ some g)
          × (c.user ≡ none))

  check_either-OneIdentity :
      (d : Db p) (header : String) (r : Result Error Claims) (g : Result Error GuestClaims)
      (c : Context p.Float)
      → c.user ≡ none
      → c.guest ≡ none
      → ((claims : Claims)
          → r ≡ ok claims
          → (p.parse_claims (extract_bearer_token p header) ≡ ok claims)
            × (is_access claims.token_type ≡ true))
      → ((guest : GuestClaims)
          → g ≡ ok guest
          → validate_guest p (extract_bearer_token p header) ≡ ok guest)
      → Passes (OneIdentity d header) (check_either p d r g c)
  unfolding check_either check_guest Passes
  check_either-OneIdentity d header (ok claims) g c no_user no_guest h k =
      Passes-mono (λ e. SignedIn p d header e × (e.guest ≡ c.guest)) (OneIdentity d header) _
        (λ e (s, same). inl (s, same ∙ no_guest))
        (with_user-SignedIn p d header claims _ c (h claims refl).0 (h claims refl).1
          (stored_user-lookup p d claims.user_id))
  check_either-OneIdentity d header (err e) (ok guest) c no_user no_guest h k =
      inr (guest, k guest refl, refl, no_user)
  check_either-OneIdentity d header (err e) (err x) c no_user no_guest h k = tt

  -- A request that gets through `FlexibleAuth`, from a context with neither a user nor a guest, has either a signed-in
  -- user, whom a valid access token names, and no guest, or a guest, whom a valid guest token names, and no user.
  pub flexible_auth-OneIdentity :
      (d : Db p) (header : String) (c e : Context p.Float)
      → c.user ≡ none
      → c.guest ≡ none
      → flexible_auth p d header c ≡ next e
      → OneIdentity d header e
  unfolding flexible_auth
  flexible_auth-OneIdentity d header c e no_user no_guest h =
      Passes-next (OneIdentity d header) _ e h (
        with_token p _ _ _ (
          check_either-OneIdentity d header _ _ c no_user no_guest
            (of_type-ok p is_access (extract_bearer_token p header)) (λ g valid. valid)))
