-- ===== src/Accounts/Users/Activation.antt =====
-- Theorems on `deactivate` and `activate` (src/users/users.service.ts).
use content_intelligence_bac.Base.{
  ℕ, suc, ◌+◌, ◌≡◌, refl, arith, ◌∙◌, Bool, true, false, ◌&&◌, List, [], ◌∷◌, ◌==◌, if◌then◌else◌,
  holds, is_some, find, any, update_where, count_where, Result, ok, Action, ◌>>=◌, >>=-ok,
}
use content_intelligence_bac.Quota.Model.{active_users, Store, UsageCounter}
use content_intelligence_bac.Quota.Resolver.{EffectiveQuota, resolve}
use content_intelligence_bac.Quota.Tables.{QuotaError}
use content_intelligence_bac.Quota.Inventory.{synchronize_inventory}
use content_intelligence_bac.Accounts.Model.{
  User, Membership, Accounts, AccountError, user_deactivated, is_user,
}
use content_intelligence_bac.Accounts.Memberships.{
  is_active_owner, active_owners, is_last_owner, is_active_of, suspend, suspend_for_user,
}
use content_intelligence_bac.Accounts.Memberships.Owners.{owns}
use content_intelligence_bac.Accounts.Users.{
  Database, write_accounts, user_audit, Actor, set_active, write_user, raise_authorization,
  deactivate_body,
}

-- Who is active once a user was rewritten.
rewritten-active :
    (b : Bool) (k id : ℕ) (us : List User)
    → holds (λ u. u.is_active) (find (is_user k) (update_where (is_user id) (set_active b) us)) ≡ (
        if k == id
        then b && is_some (find (is_user k) us)
        else holds (λ u. u.is_active) (find (is_user k) us))
rewritten-active b k id [] = ground arith
rewritten-active b k id (u ∷ us) = ground (arith, rewritten-active b k id us)

module _ (id organization now : ℕ) (s : Accounts) where
  abbrev pub after : Accounts
  after = record s { users = update_where (is_user id) (set_active false) s.users }

  -- The guard does not see the user who was just made inactive.
  any-owns : (ms : List Membership) → any (owns id organization now after) ms ≡ false
  any-owns [] = refl
  any-owns (m ∷ ms) = ground (arith, any-owns ms, rewritten-active false m.user_id id s.users)

  owners-after :
      (ms : List Membership)
      → count_where
            (is_active_owner organization after)
            (update_where (is_active_of id organization) (suspend now) ms)
          + count_where (owns id organization now s) ms
        ≡ count_where (is_active_owner organization s) ms
  owners-after [] = refl
  owners-after (m ∷ ms) =
      ground (arith, owners-after ms, rewritten-active false m.user_id id s.users)

abbrev pub has_user : ℕ → Accounts → Bool
has_user id s = any (is_user id) s.users

abbrev pub has_organization : ℕ → Accounts → Bool
has_organization id s = any (λ o. o.id == id) s.organizations

module _ (id : ℕ) (actor : Actor) (now : ℕ) (s : Accounts) where
  -- The accounts once the user, the membership and the organization were written.
  abbrev pub deactivated : Accounts
  deactivated = record (after id actor.organization_id now s) {
    memberships = update_where (is_active_of id actor.organization_id) (suspend now) s.memberships;
    organizations =
        update_where (λ o. o.id == actor.organization_id)
          (λ o. record o { authorization_version = suc o.authorization_version }) s.organizations;
  }

  pub deactivate_body_lem :
      has_user id s ≡ true
      → has_organization actor.organization_id s ≡ true
      → deactivate_body id actor now s ≡ (ok tt, deactivated)
  unfolding deactivate_body suspend_for_user is_last_owner
  deactivate_body_lem known there =
      let suspended : suspend_for_user id actor.organization_id now
            (after id actor.organization_id now s)
          ≡ (
            ok (count_where (is_active_of id actor.organization_id) s.memberships),
            record (after id actor.organization_id now s) {
              memberships =
                  update_where (is_active_of id actor.organization_id) (suspend now) s.memberships;
            },
          ) =
        rw (any-owns id actor.organization_id now s s.memberships) refl in
      let rest : Action Accounts AccountError (Unit {0}) =
        suspend_for_user id actor.organization_id now >>= λ _.
        raise_authorization actor.organization_id in
      >>=-ok (write_user id (set_active false)) s (λ _. rest) tt
        (after id actor.organization_id now s) (rw known refl)
      ∙ >>=-ok (suspend_for_user id actor.organization_id now)
          (after id actor.organization_id now s) (λ _. raise_authorization actor.organization_id) _
          _ suspended
      ∙ rw there refl

-- For a user who is there, deactivation goes through whenever the organization is there, also for its
-- last active owner, and takes from the active owners of the organization exactly the user's memberships.
pub deactivate_body-owners :
    (id : ℕ) (actor : Actor) (now : ℕ) (s : Accounts)
    → has_user id s ≡ true
    → has_organization actor.organization_id s ≡ true
    → let (r, s') = deactivate_body id actor now s in
      (r ≡ ok tt)
      × (active_owners actor.organization_id s'
            + count_where (owns id actor.organization_id now s) s.memberships
          ≡ active_owners actor.organization_id s)
deactivate_body-owners id actor now s known there =
    rw (deactivate_body_lem id actor now s known there)
      (refl, owners-after id actor.organization_id now s s.memberships)

module _ (id : ℕ) (actor : Actor) (now : ℕ) (d : Database) where
  -- The database before the counter is synchronized.
  abbrev pub unsynchronized : Database
  unsynchronized = write_accounts (deactivated id actor now d.accounts) d

  abbrev pub counted_as : EffectiveQuota
  counted_as = resolve unsynchronized.quota.directory actor.organization_id active_users now

  abbrev synchronized : Result QuotaError UsageCounter × Store
  synchronized = synchronize_inventory actor.organization_id active_users now unsynchronized.quota

  abbrev finished : Database
  finished =
      write_accounts (user_audit actor (user_deactivated id) (deactivated id actor now d.accounts))
        (record unsynchronized { quota = synchronized.1 })
