-- ===== src/Tenant/Resolver/Answers.antt =====
-- Every way to a tenant: a session that names one, a session that names none, an explicit selection.
use content_intelligence_bac.Base.{
  ℕ, ◌≡◌, Option, some, List, String, ◌==◌, find, Distinct, Result, err,
}
use content_intelligence_bac.Tenant.Model.{
  Membership, TenantContext, TenantError, PermissionCache, selection_not_permitted,
}
use content_intelligence_bac.Tenant.Resolver.{World, Choice, ambiguous, absent, chosen}
use content_intelligence_bac.Tenant.Resolver.Laws.{membership_id, IsCoherent, IsAnswer}

-- With unique identifiers, each row is the one that its identifier finds.
abbrev Listed : List Membership → Membership → Type 0
Listed ms m = find (λ x. x.id == m.id) ms ≡ some m

data Chosen (c : Choice) : Type 0 where
  none_chosen : c ≡ absent → Chosen c
  many_chosen : c ≡ ambiguous → Chosen c
  one_chosen : (m : Membership) → c ≡ chosen m → Chosen c

module _ (cache : PermissionCache) (now user : ℕ) (request : Option String) (w : World cache)
    (coherent : IsCoherent cache w.directory w.cached)
    (distinct : Distinct membership_id w.directory.memberships) where
  -- The same of an explicit selection, whose every failure reads the same to the caller.
  pub record IsSelection (organization : ℕ) (out : Result TenantError TenantContext × World cache)
      : Type 0 where
    pub answer : IsAnswer cache user (some organization) w out
    pub opaque_error : (e : TenantError) → out.0 ≡ err e → e ≡ selection_not_permitted
