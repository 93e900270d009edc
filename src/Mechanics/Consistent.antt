-- ===== src/Mechanics/Consistent.antt =====
-- The profile of a mechanic and the role of its user, through what administrators decide.
use auto_store_api.Prelude.{
  ℕ, ◌≡◌, ◌≢◌, refl, sym, ap, ◌∙◌, true, some, String, ok, ◌==◌, ==→eq, ==→ne, Bool-cases, inl, inr,
  lookup, IsKeyed, lookup-upsert_self, lookup-upsert_ne, lookup-key,
}
use auto_store_api.Platform.{Platform}
use auto_store_api.Models.Accounts.{
  User, MechanicProfile, MechanicProfileStatus, is_mechanic, is_verified,
}
use auto_store_api.World.{Db, World}
use auto_store_api.Mechanics.{
  Standing, Decided, verified_at_now, suspended_for, rejected_for, set_admin_status,
  set_admin_status-Decided, suspend, reject,
}

-- A user who is stored, with the role of a mechanic.
pub record IsMechanic (p : Platform) (user_id : ℕ) (d : Db p) : Type 0 where
  pub user : User
  pub found : lookup (λ u. u.id) user_id (p.users.rows d.users) ≡ some user
  pub role : is_mechanic user.role ≡ true

-- The user of a verified profile is a mechanic, and no user has two profiles.
pub record IsConsistent (p : Platform) (d : Db p) : Type 0 where
  pub verified :
      (k : ℕ) (r : MechanicProfile p.Float)
      → lookup (λ r. r.id) k (p.profiles.rows d.profiles) ≡ some r
      → is_verified r.status ≡ true
      → IsMechanic p r.user_id d
  pub one_each :
      (k j : ℕ) (r s : MechanicProfile p.Float)
      → lookup (λ r. r.id) k (p.profiles.rows d.profiles) ≡ some r
      → lookup (λ r. r.id) j (p.profiles.rows d.profiles) ≡ some s
      → r.user_id ≡ s.user_id
      → k ≡ j

-- A decision that keeps the ids, and verifies none but mechanics.
record IsSound {F : Type 0} (decide : Standing F → Standing F) : Type 0 where
  same_id : (s : Standing F) → (decide s).profile.id ≡ s.profile.id
  same_owner : (s : Standing F) → (decide s).profile.user_id ≡ s.profile.user_id
  same_user : (s : Standing F) → (decide s).user.id ≡ s.user.id
  mechanics :
      (s : Standing F)
      → is_verified (decide s).profile.status ≡ true
      → is_mechanic (decide s).user.role ≡ true

-- A call by which an administrator decides, and which returns; of `Verify`, its first one.
pub data Decision (p : Platform) : World p → World p → Type 0 where
  verifies :
      (user_id now : ℕ) (profile : MechanicProfile p.Float) (w v : World p)
      → set_admin_status p user_id MechanicProfileStatus.verified (verified_at_now now) w
        ≡ (ok profile, v)
      → Decision p w v
  suspends :
      (user_id now : ℕ) (reason : String) (profile : MechanicProfile p.Float) (w v : World p)
      → suspend p user_id reason now w ≡ (ok profile, v)
      → Decision p w v
  rejects :
      (user_id : ℕ) (reason : String) (profile : MechanicProfile p.Float) (w v : World p)
      → reject p user_id reason w ≡ (ok profile, v)
      → Decision p w v

module _ (p : Platform) (user_id : ℕ) (decide : Standing p.Float → Standing p.Float) (d e : Db p)
    (keyed : IsKeyed (λ r. r.id) (p.profiles.rows d.profiles)) (sound : IsSound decide)
    (did : Decided p user_id decide d e) where
  row : lookup (λ r. r.id) did.was.profile.id (p.profiles.rows d.profiles) ≡ some did.was.profile
  row = keyed did.was.profile did.stored_profile

  -- A profile after the decision is the one decided upon, or is as it was.
  data Profile (k : ℕ) (r : MechanicProfile p.Float) : Type 0 where
    decided : k ≡ did.was.profile.id → r ≡ (decide did.was).profile → Profile k r
    as_before :
        k ≢ did.was.profile.id
        → lookup (λ r. r.id) k (p.profiles.rows d.profiles) ≡ some r
        → Profile k r

  profile_of :
      (k : ℕ) (r : MechanicProfile p.Float)
      → lookup (λ r. r.id) k (p.profiles.rows e.profiles) ≡ some r
      → Profile k r
  profile_of k r h =
      let after = sym (ap (lookup (λ r. r.id) k) did.profiles) ∙ h in
      let same = sound.same_id did.was in
      elim (Bool-cases (k == did.was.profile.id)) [
        | inl i ↦
            let at = ==→eq k _ i in
            let found =
              sym (lookup-upsert_self (λ r. r.id) k (decide did.was).profile _ (same ∙ sym at))
              ∙ after in
            decided at (cc)
        | inr i ↦
            let other : k ≢ did.was.profile.id = ==→ne k _ i in
            as_before other (
              sym (
                lookup-upsert_ne (λ r. r.id) k (decide did.was).profile _
                  (λ x. other (sym x ∙ same)))
              ∙ after)
      ]

  -- A user with another id is as before.
  other_user :
      (k : ℕ)
      → k ≢ user_id
      → lookup (λ u. u.id) k (p.users.rows e.users) ≡ lookup (λ u. u.id) k (p.users.rows d.users)
  other_user k other =
      let i = sound.same_user did.was ∙ lookup-key (λ u. u.id) _ _ did.was.user did.stored_user in
      ap (lookup (λ u. u.id) k) did.users
      ∙ lookup-upsert_ne (λ u. u.id) k (decide did.was).user _ (λ x. other (sym x ∙ i))

  -- The user decided upon.
  own_user : lookup (λ u. u.id) user_id (p.users.rows e.users) ≡ some (decide did.was).user
  own_user =
      ap (lookup (λ u. u.id) user_id) did.users
      ∙ lookup-upsert_self (λ u. u.id) user_id (decide did.was).user _
          (sound.same_user did.was ∙ lookup-key (λ u. u.id) _ _ did.was.user did.stored_user)

  owner_of : (decide did.was).profile.user_id ≡ user_id
  owner_of = sound.same_owner did.was ∙ did.of_user

  Decided-IsConsistent : IsConsistent p d → IsConsistent p e
  Decided-IsConsistent c = record {
    verified = λ k r h good. elim (profile_of k r h) [
      | decided at i ↦ record {
        user = (decide did.was).user;
        found =
            ap (λ j. lookup (λ u. u.id) j (p.users.rows e.users)) (ap (λ r. r.user_id) i ∙ owner_of)
            ∙ own_user;
        role = sound.mechanics did.was (sym (ap (λ r. is_verified r.status) i) ∙ good);
      }
      | as_before other before ↦
          let m = c.verified k r before good in
          record {
            user = m.user;
            found =
                other_user r.user_id
                  (λ x. other (c.one_each k _ r did.was.profile before row (x ∙ sym did.of_user)))
                ∙ m.found;
            role = m.role;
          }
    ];
    one_each = λ k j r s g h same. elim (profile_of k r g) [
      | decided at i ↦ elim (profile_of j s h) [
        | decided at' i' ↦ at ∙ sym at'
        | as_before other before ↦
            c.one_each k j did.was.profile s
              (ap (λ k. lookup (λ r. r.id) k (p.profiles.rows d.profiles)) at ∙ row) before
              (sym (sound.same_owner did.was) ∙ sym (ap (λ r. r.user_id) i) ∙ same)
      ]
      | as_before other before ↦ elim (profile_of j s h) [
        | decided at' i' ↦
            c.one_each k j r did.was.profile before
              (ap (λ k. lookup (λ r. r.id) k (p.profiles.rows d.profiles)) at' ∙ row)
              (same ∙ ap (λ r. r.user_id) i' ∙ sound.same_owner did.was ∙ refl)
        | as_before other' before' ↦ c.one_each k j r s before before' same
      ]
    ];
  }

module _ (p : Platform) where
  -- If each profile is the one that its id finds, no user has two, and the users of the verified ones are mechanics, then no
  -- user has two, and the users of the verified ones are mechanics, after an administrator's decision too.
  pub Decision-IsConsistent :
      {w v : World p}
      → IsKeyed (λ r. r.id) (p.profiles.rows w.db.profiles)
      → IsConsistent p w.db
      → Decision p w v
      → IsConsistent p v.db
  unfolding suspend reject
  Decision-IsConsistent keyed c (verifies user_id now profile w v e) =
      Decided-IsConsistent p user_id _ w.db v.db keyed
        (record {
          same_id = λ s. refl;
          same_owner = λ s. refl;
          same_user = λ s. refl;
          mechanics = λ s h. refl;
        })
        (set_admin_status-Decided p user_id MechanicProfileStatus.verified (verified_at_now now) w v
          profile e)
        c
  Decision-IsConsistent keyed c (suspends user_id now reason profile w v e) =
      Decided-IsConsistent p user_id _ w.db v.db keyed
        (record {
          same_id = λ s. refl;
          same_owner = λ s. refl;
          same_user = λ s. refl;
          mechanics = λ s h. cc;
        })
        (set_admin_status-Decided p user_id MechanicProfileStatus.suspended
          (suspended_for reason now) w v profile e)
        c
  Decision-IsConsistent keyed c (rejects user_id reason profile w v e) =
      Decided-IsConsistent p user_id _ w.db v.db keyed
        (record {
          same_id = λ s. refl;
          same_owner = λ s. refl;
          same_user = λ s. refl;
          mechanics = λ s h. cc;
        })
        (set_admin_status-Decided p user_id MechanicProfileStatus.rejected (rejected_for reason) w v
          profile e)
        c
