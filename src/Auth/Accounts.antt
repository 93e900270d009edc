-- ===== src/Auth/Accounts.antt =====
-- Accounts that are opened, and passwords that are reset.
use auto_store_api.Prelude.{
  ℕ, suc, ◌≡◌, refl, sym, ap, ◌∙◌, subst, true, false, some, List, [], ◌∷◌, ◌++◌, String, Result,
  ok, err, ltb, ◌==◌, ◌≤◌, str_eq, eq_iff, length, select, length-select_few, empty_of, lookup,
  upsert, if◌then◌else◌,
}
use auto_store_api.Platform.{Platform}
use auto_store_api.Platform.Keys.{text}
use auto_store_api.Models.Accounts.{User, Role}
use auto_store_api.World.{
  Db, World, Error, lift, Returns, Returns-ok, Returns-mono, raise_if_then, query_then, fresh_then,
  exec_then, call_then, call_or_then, service,
}
use auto_store_api.Auth.{
  AuthConfig, Session, new_user, role_for, reset_key, hashed, hash_result, register, get_text,
  parsed_id, reset_password,
}
use auto_store_api.Auth.Login.{IssuedFor, issue_tokens-IssuedFor, forget_db}

-- No two users have the same e-mail address.
abbrev pub HaveOwnEmails : List User → Type 0
HaveOwnEmails rows = (email : String) → length (select (λ u. str_eq u.email email) rows) ≤ 1

all_of : {A : Type 0} (xs : List A) → select (λ _. true) xs ≡ xs
all_of [] = refl
all_of (x ∷ xs) = ap (λ ys. x ∷ ys) (all_of xs)

module _ (p : Platform) where
  -- A hash is of the password that it was made of, and nothing is written.
  hashed-Returns :
      (password : String) (w : World p)
      → Returns (λ h v. (p.same_password h password ≡ true) × (v.db ≡ w.db)) (hashed p password w)
  unfolding hashed lift Returns
  hashed-Returns password w =
      fresh_then _ _ w
        (last (p.hash_password (p.uuid w.drawn) password) λ h e. p.same_hashed _ _ h e)
    where
      last :
          (r : Result String String)
          → ((h : String) → r ≡ ok h → p.same_password h password ≡ true)
          → Returns
              (λ h v. (p.same_password h password ≡ true) × (v.db ≡ w.db))
              (lift p (hash_result r) (record w { drawn = suc w.drawn }))
      last (ok hash) h = (h hash refl, refl)
      last (err e) h = tt

  get_text-Returns :
      (key : String) (w : World p)
      → Returns (λ t v. (v ≡ w) × (p.redis.value key w.store ≡ some (text t))) (get_text p key w)
  unfolding get_text Returns
  get_text-Returns key w = go (p.redis.get_text key w.store) λ t e. p.redis.get_text_ok _ _ t e
    where
      go :
          (r : Result String String)
          → ((t : String) → r ≡ ok t → p.redis.value key w.store ≡ some (text t))
          → let c : Result Error String × World p = elim r [
            | ok t ↦ (ok t, w)
            | err e ↦ (err (service e), w)
          ] in
            Returns (λ t v. (v ≡ w) × (p.redis.value key w.store ≡ some (text t))) c
      go (ok t) h = (refl, h t refl)
      go (err e) h = tt

  -- What `Register` has done: it has added one user, who has the e-mail address, which nobody had, and a hash
  -- of the password, and who is an administrator if there was no user and a customer if there was one; and the tokens are for that user.
  pub record Registered (cfg : AuthConfig) (email password : String) (now : ℕ) (s : Session)
      (w v : World p) : Type 0 where
    pub user : User
    pub of_email : user.email ≡ email
    pub unused : select (λ u. str_eq u.email email) (p.users.rows w.db.users) ≡ []
    pub password_ok : p.same_password user.password_hash password ≡ true
    pub role :
        user.role ≡ (if length (p.users.rows w.db.users) == 0 then Role.admin else Role.customer)
    pub unverified : user.email_verified ≡ false
    pub created : p.users.rows v.db.users ≡ p.users.rows w.db.users ++ user ∷ []
    pub issued : IssuedFor p cfg user now s

  -- When `Register` returns a session: nobody had the e-mail address; one user has been added and no other has changed, with that address, a hash of the
  -- password, an address that is not verified, and the role of an administrator if there was no user yet and of
  -- a customer otherwise; and the tokens are for that user.
  pub register-Registered :
      (cfg : AuthConfig) (email password first_name last_name phone : String) (now : ℕ)
      (w v : World p) (s : Session)
      → register p cfg email password first_name last_name phone now w ≡ (ok s, v)
      → Registered cfg email password now s w v
  unfolding register
  register-Registered cfg email password first_name last_name phone now w v s e =
      Returns-ok (λ s v. Registered cfg email password now s w v) _ s v e
        (query_then _ _ _ w λ n counted. raise_if_then _ _ _ _ w λ free.
          call_then _ _ _ _ w (hashed-Returns password w) λ hash u (good, kept).
            query_then _ _ _ u λ m all. fresh_then _ _ u (
              exec_then _ _ _ _ _ λ t made.
                Returns-mono _ _ _
                  (λ s v (issued, same). record {
                    user =
                        new_user (p.uuid u.drawn) email hash first_name last_name phone
                          (role_for m);
                    of_email = refl;
                    unused =
                        empty_of _
                          (subst (λ n. ltb 0 n ≡ false) (p.users.count_ok _ _ n counted) free);
                    password_ok = good;
                    role = ap role_for (
                        p.users.count_ok _ _ m all
                        ∙ ap length (all_of (p.users.rows u.db.users))
                        ∙ ap (λ (d : Db p). length (p.users.rows d.users)) kept);
                    unverified = refl;
                    created =
                        ap (λ (d : Db p). p.users.rows d.users) same
                        ∙ (p.users.create_ok _ _ t made).1
                        ∙ ap
                            (λ (d : Db p).
                              p.users.rows d.users
                              ++ new_user (p.uuid u.drawn) email hash first_name last_name phone
                                  (role_for m)
                                ∷ [])
                            kept;
                    issued = issued;
                  })
                  (issue_tokens-IssuedFor p cfg _ now _)))

  -- If no two users have the same e-mail address, then that is so when `Register` has returned a session.
  pub register-HaveOwnEmails :
      (cfg : AuthConfig) (email password first_name last_name phone : String) (now : ℕ)
      (w v : World p) (s : Session)
      → HaveOwnEmails (p.users.rows w.db.users)
      → register p cfg email password first_name last_name phone now w ≡ (ok s, v)
      → HaveOwnEmails (p.users.rows v.db.users)
  register-HaveOwnEmails cfg email password first_name last_name phone now w v s h e other =
      let made = register-Registered cfg email password first_name last_name phone now w v s e in
      subst (λ rows. length (select (λ u. str_eq u.email other) rows) ≤ 1) (sym made.created)
        (length-select_few (λ u. str_eq u.email other) made.user _ (h other)
          λ m.
            subst (λ s. select (λ u. str_eq u.email s) (p.users.rows w.db.users) ≡ [])
              (sym made.of_email ∙ (eq_iff made.user.email other).0 m) made.unused)

  -- What `ResetPassword` has done: Redis had the id of a user for the token; that user's hash is now of the new password, and nothing else
  -- of the user and no other user has changed.
  pub record Reset (token new_password : String) (w v : World p) : Type 0 where
    pub id_text : String
    pub token_known : p.redis.value (reset_key token) w.store ≡ some (text id_text)
    pub user : User
    pub was : lookup (λ u. u.id) (parsed_id p id_text) (p.users.rows w.db.users) ≡ some user
    pub hash : String
    pub password_ok : p.same_password hash new_password ≡ true
    pub stored :
        p.users.rows v.db.users
        ≡ upsert (λ u. u.id) (record user { password_hash = hash }) (p.users.rows w.db.users)

  -- When `ResetPassword` returns: Redis had the id of a stored user for the token; that user's hash is now one of
  -- the new password, and nothing else of that user and no other user has changed.
  pub reset_password-Reset :
      (token new_password : String) (w v : World p)
      → reset_password p token new_password w ≡ (ok tt, v)
      → Reset token new_password w v
  unfolding reset_password
  reset_password-Reset token new_password w v e =
      Returns-ok (λ _ v. Reset token new_password w v) _ tt v e
        (call_or_then _ _ _ _ _ w (get_text-Returns (reset_key token) w) λ t u (same, known).
          query_then _ _ _ u λ user found.
            call_then _ _ _ _ u (hashed-Returns new_password u) λ hash x (good, kept).
              exec_then _ _ _ _ x λ z saved.
                Returns-mono _ _ _
                  (λ _ v last.
                    let before : x.db ≡ w.db = kept ∙ ap (λ (w : World p). w.db) same in
                    record {
                      id_text = t;
                      token_known = known;
                      user = user;
                      was =
                          subst
                            (λ (y : World p).
                              lookup (λ u. u.id) (parsed_id p t) (p.users.rows y.db.users)
                              ≡ some user)
                            same (p.users.get_ok _ _ user found);
                      hash = hash;
                      password_ok = good;
                      stored =
                          ap (λ (d : Db p). p.users.rows d.users) last
                          ∙ p.users.save_ok _ _ z saved
                          ∙ ap
                              (λ (d : Db p).
                                upsert (λ u. u.id) (record user { password_hash = hash })
                                  (p.users.rows d.users))
                              before;
                    })
                  (forget_db p (reset_key token) _))
