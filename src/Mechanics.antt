-- ===== src/Mechanics.antt =====
-- What an administrator decides about a mechanic's profile: `setAdminStatus`, `Suspend`, `Reject` and the
-- change that `Verify` makes, of internal/services/mechanic_service.go.
pub mod Consistent
use auto_store_api.Prelude.{
  ℕ, ◌≡◌, ap, ◌∙◌, true, none, some, String, ok, ◌==◌, ==→eq, str_eq, lookup, upsert, Has,
  if◌then◌else◌,
}
use auto_store_api.Platform.{Platform}
use auto_store_api.Models.Accounts.{User, Role, MechanicProfile, MechanicProfileStatus, is_mechanic}
use auto_store_api.World.{
  Db, World, M, ◌>>=◌, ◌>>◌, query, exec, on_missing, transaction, mechanic_profile_not_found,
  Returns-ok, query_then, query_missing_then, query_last, exec_then, exec_last, step_then,
  transaction-Returns,
}

-- A profile and its user, which an administrator's decision changes at once.
pub record Standing (F : Type 0) : Type 0 where
  pub profile : MechanicProfile F
  pub user : User

module _ {F : Type 0} where
  -- The function that `Verify` passes.
  abbrev pub verified_at_now : ℕ → Standing F → Standing F
  verified_at_now now s = record {
    profile = record s.profile {
      verified_at = some now;
      suspended_at = none;
      rejection_reason = "";
    };
    user = record s.user { role = Role.mechanic };
  }

  -- The function that `Suspend` passes.
  abbrev pub suspended_for : String → ℕ → Standing F → Standing F
  suspended_for reason now s = record s {
    profile = record s.profile {
      suspended_at = some now;
      rejection_reason = if str_eq reason "" then s.profile.rejection_reason else reason;
    };
  }

  -- The function that `Reject` passes.
  abbrev pub rejected_for : String → Standing F → Standing F
  rejected_for reason s = record {
    profile = record s.profile { rejection_reason = reason; verified_at = none };
    user = record s.user { role = if is_mechanic s.user.role then Role.customer else s.user.role };
  }

  abbrev pub with_status : MechanicProfileStatus → Standing F → Standing F
  with_status status s = record s { profile = record s.profile { status = status } }

module _ (p : Platform) where
  abbrev put_profiles : p.profiles.Rows → Db p → Db p
  put_profiles t d = record d { profiles = t }

  abbrev put_users : p.users.Rows → Db p → Db p
  put_users t d = record d { users = t }

  -- `setAdminStatus`
  unfoldable pub set_admin_status :
      ℕ
      → MechanicProfileStatus
      → (Standing p.Float → Standing p.Float)
      → M p (MechanicProfile p.Float)
  set_admin_status user_id status mutate = do
    transaction (do
      profile ←
          on_missing (query p (λ d. p.profiles.first (λ r. r.user_id == user_id) d.profiles))
            mechanic_profile_not_found
      user ← query p (λ d. p.users.get user_id d.users)
      let s = mutate (with_status status (record { profile = profile; user = user }))
      exec p (λ d. p.profiles.save s.profile d.profiles) put_profiles
      exec p (λ d. p.users.save s.user d.users) put_users)
    query p (λ d. p.profiles.first (λ r. r.user_id == user_id) d.profiles)

  -- `Suspend`
  unfoldable pub suspend : ℕ → String → ℕ → M p (MechanicProfile p.Float)
  unfolding set_admin_status
  suspend user_id reason now =
      set_admin_status user_id MechanicProfileStatus.suspended (suspended_for reason now)

  -- `Reject`
  unfoldable pub reject : ℕ → String → M p (MechanicProfile p.Float)
  unfolding set_admin_status
  reject user_id reason =
      set_admin_status user_id MechanicProfileStatus.rejected (rejected_for reason)

  -- What a decision has found, and what it has stored of both rows.
  pub record Decided (user_id : ℕ) (decide : Standing p.Float → Standing p.Float) (d e : Db p)
      : Type 0 where
    pub was : Standing p.Float
    pub stored_profile : Has was.profile (p.profiles.rows d.profiles)
    pub of_user : was.profile.user_id ≡ user_id
    pub stored_user : lookup (λ u. u.id) user_id (p.users.rows d.users) ≡ some was.user
    pub profiles :
        p.profiles.rows e.profiles
        ≡ upsert (λ r. r.id) (decide was).profile (p.profiles.rows d.profiles)
    pub users : p.users.rows e.users ≡ upsert (λ u. u.id) (decide was).user (p.users.rows d.users)

  -- When `setAdminStatus` returns: the user has a profile, and both rows are stored together as the decision makes them of
  -- what was stored, beside the other profiles and users, which have not changed.
  pub set_admin_status-Decided :
      (user_id : ℕ) (status : MechanicProfileStatus) (mutate : Standing p.Float → Standing p.Float)
      (w v : World p) (profile : MechanicProfile p.Float)
      → set_admin_status user_id status mutate w ≡ (ok profile, v)
      → Decided user_id (λ s. mutate (with_status status s)) w.db v.db
  unfolding set_admin_status
  set_admin_status-Decided user_id status mutate w v profile e =
      Returns-ok (λ _ v. Decided user_id (λ s. mutate (with_status status s)) w.db v.db) _ profile v
        e
        (step_then _ (λ _ v. Decided user_id (λ s. mutate (with_status status s)) w.db v.db) _ _ w
          (transaction-Returns _ _ w (
            query_missing_then _ _ _ w _ λ r found. query_then _ _ _ w λ user read.
              exec_then _ _ _ _ w λ t saved. exec_last _ _ _ _ λ z stored.
                let (there, of) = p.profiles.first_ok _ _ r found in
                record {
                  was = record { profile = r; user = user };
                  stored_profile = there;
                  of_user = ==→eq _ _ of;
                  stored_user = p.users.get_ok _ _ user read;
                  profiles = p.profiles.save_ok _ _ t saved;
                  users = p.users.save_ok _ _ z stored;
                }))
          λ _ v h. query_last _ _ v λ r again. h)
