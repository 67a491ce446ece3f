-- ===== src/Tenant/Permissions/Laws.antt =====
-- Theorems on the permission guard (src/common/guards/permissions.guard.ts).
use content_intelligence_bac.Base.{
  ℕ, ◌≡◌, ◌≢◌, ◌↔◌, refl, ap, sym, ◌∙◌, Bool, true, false, not, Option, none, some, List, [], ◌∷◌,
  String, ◌==◌, holds, find, select, any, all, inl, inr, Bool-cases, Option-cases, Result, ok, err,
  Memᴰ, any_iff, all_iff,
}
use mathlib.Core.List.Memᴰ
use text.Mathlib.Text.{◌==◌ as str_eq}
use text.Mathlib.TextEquality.{eq_iff}
use content_intelligence_bac.Tenant.Model.{User, TenantContext}
use content_intelligence_bac.Tenant.Permissions.{
  PolicyMode, any_action, all_actions, Policy, PolicyMetadata, normalize_policy, GuardError,
  missing_permissions, RequestUser, has, is_allowed, authorize, can_activate,
}

-- The way through the checks of the request.
record IsPassed (p : PolicyMetadata) (request : Option RequestUser) (users : List User)
    : Type 0 where
  user : RequestUser
  id : ℕ
  context : TenantContext
  authenticated : request ≡ some user
  named : user.user_id ≡ some id
  scoped : user.tenant_context ≡ some context
  active : holds (λ u. u.is_active) (find (λ u. u.id == id) users) ≡ true
  allowed : is_allowed p context.permissions ≡ true

-- The actions that a mode wants among the permissions.
pub IsCovered : PolicyMode → (actions permissions : List String) → Type 0
IsCovered all_actions actions permissions = (a : String) → Memᴰ a actions → Memᴰ a permissions
IsCovered any_action actions permissions = (a : String) × Memᴰ a actions × Memᴰ a permissions

-- An authenticated user, active in the table, with a tenant context that has every action of the policy,
-- or in the mode `any` one of them.
pub record IsGranted (p : PolicyMetadata) (request : Option RequestUser) (users : List User)
    : Type 0 where
  pub user : RequestUser
  pub id : ℕ
  pub context : TenantContext
  pub row : User
  pub authenticated : request ≡ some user
  pub named : user.user_id ≡ some id
  pub scoped : user.tenant_context ≡ some context
  pub found : find (λ u. u.id == id) users ≡ some row
  pub active : row.is_active ≡ true
  pub covered : IsCovered p.mode p.actions context.permissions

module _ (p : PolicyMetadata) (users : List User) where
  authorize-IsPassed :
      (request : Option RequestUser) (b : Bool)
      → authorize p request users ≡ ok b
      → IsPassed p request users × (b ≡ true)
  unfolding authorize
  authorize-IsPassed none b h = absurd (cc)
  authorize-IsPassed (some r) b h = elim (Option-cases r.user_id) [
    | inl anonymous ↦ absurd (cc (rw anonymous at h))
    | inr (id, named) ↦ elim (Option-cases r.tenant_context) [
      | inl bare ↦ absurd (cc (rw (named, bare) at h))
      | inr (context, scoped) ↦
          elim (Bool-cases (holds (λ u. u.is_active) (find (λ u. u.id == id) users))) [
            | inr idle ↦ absurd (cc (rw idle at rw (named, scoped) at h))
            | inl active ↦ elim (Bool-cases (is_allowed p context.permissions)) [
              | inr refused ↦ absurd (cc (rw (active, refused) at rw (named, scoped) at h))
              | inl allowed ↦ (
                record {
                  user = r;
                  id = id;
                  context = context;
                  authenticated = refl;
                  named = named;
                  scoped = scoped;
                  active = active;
                  allowed = allowed;
                },
                cc (rw (active, allowed) at rw (named, scoped) at h),
              )
            ]
          ]
    ]
  ]

  passed_authorize :
      (request : Option RequestUser)
      → IsPassed p request users
      → authorize p request users ≡ ok true
  unfolding authorize
  passed_authorize request g =
      rw (g.authenticated, g.named) (rw g.scoped (rw (g.active, g.allowed) refl))

-- A policy that asks for an action is left to the checks of the request.
can_activate-authorize :
    (policy : Option Policy) (request : Option RequestUser) (users : List User) (p : PolicyMetadata)
    → normalize_policy policy ≡ some p
    → p.actions ≢ []
    → can_activate policy request users ≡ authorize p request users
unfolding can_activate
can_activate-authorize policy request users p n asks =
    rw (n, can_activate) (go p.actions (authorize p request users) asks)
  where
    go :
        (actions : List String) (out : Result GuardError Bool)
        → actions ≢ []
        → (elim actions [ [] ↦ ok true | a ∷ rest ↦ out ]) ≡ out
    go [] out asks = absurd (asks refl)
    go (a ∷ rest) out asks = refl

has_iff : (permissions : List String) (a : String) → (has permissions a ≡ true) ↔ Memᴰ a permissions
has_iff permissions a =
    let rows = any_iff (λ p. str_eq p a) permissions in
    (
      λ h. let (p, m, e) = rows.0 h in Memᴰ.cast (sym ((eq_iff p a).0 e)) m,
      λ m. rows.1 (a, m, (eq_iff a a).1 refl),
    )

is_allowed_iff :
    (actions permissions : List String) (mode : PolicyMode)
    → (is_allowed (record { actions = actions; mode = mode }) permissions ≡ true)
      ↔ IsCovered mode actions permissions
unfolding is_allowed IsCovered
is_allowed_iff actions permissions any_action =
    let rows = any_iff (has permissions) actions in
    (
      λ h. let (a, m, t) = rows.0 h in (a, m, (has_iff permissions a).0 t),
      λ w. rows.1 (w.0, w.1, (has_iff permissions w.0).1 w.2),
    )
is_allowed_iff actions permissions all_actions =
    let rows = all_iff (has permissions) actions in
    (
      λ h a m. (has_iff permissions a).0 (rows.0 h a m),
      λ f. rows.1 (λ a m. (has_iff permissions a).1 (f a m)),
    )

active_row :
    (id : ℕ) (users : List User)
    → holds (λ u. u.is_active) (find (λ u. u.id == id) users) ≡ true
    → (u : User) × (find (λ u. u.id == id) users ≡ some u) × (u.is_active ≡ true)
active_row id users h = elim (Option-cases (find (λ u. u.id == id) users)) [
  | inl missing ↦ absurd (cc (rw missing at h))
  | inr (u, found) ↦ (u, found, rw found at h)
]

IsPassed-IsGranted :
    (p : PolicyMetadata) (request : Option RequestUser) (users : List User)
    → IsPassed p request users ↔ IsGranted p request users
IsPassed-IsGranted p request users = (
  λ g.
      let (row, found, active) = active_row g.id users g.active in
      record {
        user = g.user;
        id = g.id;
        context = g.context;
        row = row;
        authenticated = g.authenticated;
        named = g.named;
        scoped = g.scoped;
        found = found;
        active = active;
        covered = (is_allowed_iff p.actions g.context.permissions p.mode).0 g.allowed;
      },
  λ g. record {
    user = g.user;
    id = g.id;
    context = g.context;
    authenticated = g.authenticated;
    named = g.named;
    scoped = g.scoped;
    active = rw g.found g.active;
    allowed = (is_allowed_iff p.actions g.context.permissions p.mode).1 g.covered;
  },
)

-- Under a policy that asks for an action, the guard answers true exactly for an authenticated user,
-- active in the table, whose tenant context has every action of the policy, or in the mode `any` at
-- least one of them.
pub can_activate_iff :
    (policy : Option Policy) (request : Option RequestUser) (users : List User) (p : PolicyMetadata)
    → normalize_policy policy ≡ some p
    → p.actions ≢ []
    → (can_activate policy request users ≡ ok true) ↔ IsGranted p request users
can_activate_iff policy request users p n asks =
    let e = can_activate-authorize policy request users p n asks in
    let passed = IsPassed-IsGranted p request users in
    (
      λ h. passed.0 (authorize-IsPassed p users request true (rw e at h)).0,
      λ g. e ∙ passed_authorize p users request (passed.1 g),
    )

-- A policy of the mode `all` that is not met has a missing action.
missing_action :
    (permissions actions : List String)
    → all (has permissions) actions ≡ false
    → select (λ a. not (has permissions a)) actions ≢ []
missing_action permissions [] h = absurd (cc)
missing_action permissions (a ∷ actions) h = elim (Bool-cases (has permissions a)) [
  | inl there ↦ rw there (missing_action permissions actions (rw there at h))
  | inr lacking ↦ rw lacking (λ e. cc)
]

missing_all :
    (permissions actions : List String)
    → any (has permissions) actions ≡ false
    → select (λ a. not (has permissions a)) actions ≡ actions
missing_all permissions [] h = refl
missing_all permissions (a ∷ actions) h = elim (Bool-cases (has permissions a)) [
  | inl there ↦ absurd (cc (rw there at h))
  | inr lacking ↦
      rw lacking (ap (λ rest. a ∷ rest) (missing_all permissions actions (rw lacking at h)))
]

all-select : (q : String → Bool) (actions : List String) → all q (select q actions) ≡ true
all-select q [] = refl
all-select q (a ∷ actions) = elim (Bool-cases (q a)) [
  | inl fits ↦ rw fits (rw fits (all-select q actions))
  | inr fails ↦ rw fails (all-select q actions)
]

missing_allowed :
    (p : PolicyMetadata) (permissions : List String)
    → p.actions ≢ []
    → is_allowed p permissions ≡ false
    → let named = select (λ a. not (has permissions a)) p.actions in
      (named ≢ []) × (p.mode ≡ any_action → named ≡ p.actions)
unfolding is_allowed
missing_allowed p permissions asks h = go p.mode refl
  where
    go :
        (mode : PolicyMode)
        → p.mode ≡ mode
        → let named = select (λ a. not (has permissions a)) p.actions in
          (named ≢ []) × (p.mode ≡ any_action → named ≡ p.actions)
    go any_action e =
        let same = missing_all permissions p.actions (rw e at h) in
        (λ z. asks (sym same ∙ z), λ _. same)
    go all_actions e = (missing_action permissions p.actions (rw e at h), λ z. absurd (cc))

-- Under a policy that asks for an action, a refusal of a request with a tenant context for missing
-- permissions names at least one action, only actions that the context lacks, and in the mode `any`
-- all the actions of the policy.
pub can_activate-missing :
    (policy : Option Policy) (r : RequestUser) (users : List User) (p : PolicyMetadata)
    (context : TenantContext) (named : List String)
    → normalize_policy policy ≡ some p
    → p.actions ≢ []
    → r.tenant_context ≡ some context
    → can_activate policy (some r) users ≡ err (missing_permissions named)
    → (named ≢ [])
      × (all (λ a. not (has context.permissions a)) named ≡ true)
      × (p.mode ≡ any_action → named ≡ p.actions)
unfolding authorize
can_activate-missing policy r users p context named n asks scoped h =
    elim (Option-cases r.user_id) [
      | inl anonymous ↦ absurd (cc (rw (anonymous, authorize) at asked))
      | inr (id, known) ↦
          elim (Bool-cases (holds (λ u. u.is_active) (find (λ u. u.id == id) users))) [
            | inr idle ↦ absurd (cc (rw idle at rw (known, scoped, authorize) at asked))
            | inl active ↦ elim (Bool-cases (is_allowed p context.permissions)) [
              | inl allowed ↦
                  absurd (cc (rw (active, allowed) at rw (known, scoped, authorize) at asked))
              | inr refused ↦
                  let e : select (λ a. not (has context.permissions a)) p.actions ≡ named =
                    cc (rw (active, refused) at rw (known, scoped, authorize) at asked) in
                  rw (← e) (
                    let (some_named, every) = missing_allowed p context.permissions asks refused in
                    (
                      some_named,
                      all-select (λ a. not (has context.permissions a)) p.actions,
                      every,
                    ))
            ]
          ]
    ]
  where
    asked : authorize p (some r) users ≡ err (missing_permissions named)
    asked = rw (can_activate-authorize policy (some r) users p n asks) at h
