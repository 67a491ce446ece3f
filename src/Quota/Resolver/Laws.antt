-- ===== src/Quota/Resolver/Laws.antt =====
-- Theorems on the resolved quota (src/quota/quota-resolver.service.ts).
use content_intelligence_bac.Base.{
  ℕ, ◌+◌, ◌/◌, ◌≤◌, ◌<◌, ◌≡◌, ◌≢◌, refl, arith, true, false, Option, none, some, ◌⊎◌, inl, inr,
  ◌==◌, ltb, ◌||◌, ◌&&◌, find, Option-cases, Bool-cases, if_both, String, not, is_some,
}
use content_intelligence_bac.Calendar.{ms_per_day}
use content_intelligence_bac.Calendar.Laws.{
  date_utc-parts, date_utc-month_start, date_utc-month_end,
}
use content_intelligence_bac.Quota.Model.{
  QuotaMetric, QuotaConfigurationState, QuotaResetPeriod, no_reset, daily, monthly,
  subscription_term, Organization, OrganizationStatus, Plan, Subscription, SubscriptionStatus,
  Directory, is_active_organization,
}
use content_intelligence_bac.Quota.Resolver.{
  EffectiveQuota, period, compatibility, find_subscription, in_term, Settings, state_of, configured,
  resolve_subscribed, resolve_active, resolve, merge, find_override, find_plan_quota,
}

-- An instant lies in a period, whose end may be open.
abbrev pub Contains : ℕ → ℕ × Option ℕ → Type 0
Contains now (start, none) = start ≤ now
Contains now (start, some end) = (start ≤ now) × (now < end)

period-Contains :
    (p : QuotaResetPeriod) (now start : ℕ) (end : Option ℕ)
    → p ≢ subscription_term
    → Contains now (period p now (some start) end)
unfolding period
period-Contains daily now start end h =
    (omega (arith, date_utc-parts now), omega (arith, date_utc-parts now))
period-Contains monthly now start end h = (date_utc-month_start now, date_utc-month_end now)
period-Contains subscription_term now start end h = absurd (h refl)
period-Contains no_reset now start end h = omega arith

-- Every instant of a UTC day has that day as its daily period.
pub period-daily_stable :
    (now later start : ℕ) (end : Option ℕ)
    → (period daily now (some start) end).0 ≤ later
    → later < (period daily now (some start) end).0 + ms_per_day
    → period daily later (some start) end ≡ period daily now (some start) end
unfolding period
period-daily_stable now later start end h k =
    let same : later / ms_per_day ≡ now / ms_per_day = omega (arith, date_utc-parts now) in
    rw (date_utc-parts later, date_utc-parts now, same)

-- The subscription is active and has begun, and neither its end nor its grace period is past.
pub record IsInTerm (s : Subscription) (now : ℕ) : Type 0 where
  pub active : s.status ≡ SubscriptionStatus.active
  pub begun : s.start_at ≤ now
  pub open_ended :
      (s.end_at ≡ none)
      ⊎ ((end : ℕ) × (s.end_at ≡ some end) × (now < end))
      ⊎ ((grace : ℕ) × (s.grace_period_end_at ≡ some grace) × (now < grace))

in_term-IsInTerm : (s : Subscription) (now : ℕ) → in_term s now ≡ true → IsInTerm s now
unfolding in_term
in_term-IsInTerm s now h = record {
  active = ground arith;
  begun = ground arith;
  open_ended = elim (Option-cases s.end_at) [
    | inl none_set ↦ inl none_set
    | inr (end, set) ↦ elim (Bool-cases (ltb now end)) [
      | inl before ↦ inr (inl (end, set, ground arith))
      | inr past ↦ elim (Option-cases s.grace_period_end_at) [
        | inl no_grace ↦ absurd (ground arith)
        | inr (grace, given) ↦ inr (inr (grace, given, ground arith))
      ]
    ]
  ];
}

-- What a quota that is in force rests on.
pub record IsBacked (d : Directory) (organization now : ℕ) (q : EffectiveQuota) : Type 0 where
  pub org : Organization
  pub subscription : Subscription
  pub plan : Plan
  pub found : find (λ o. o.id == organization) d.organizations ≡ some org
  pub active : org.status ≡ OrganizationStatus.active
  pub subscribed : find_subscription d organization ≡ some (subscription, plan)
  pub term : IsInTerm subscription now
  pub offered : plan.is_active ≡ true
  pub named : q.subscription_id ≡ some subscription.id
  pub limited : q.is_unlimited ≡ false → q.hard_limit ≢ none

module _ (organization : ℕ) (metric : QuotaMetric) (now : ℕ) (org : Organization)
    (s : Subscription) where
  configured-limited :
      (plan : Plan) (v : Settings)
      → let q = configured organization metric now org s plan v in
        (q.subscription_id ≡ some s.id)
        × (q.enabled ≡ true → q.is_unlimited ≡ false → q.hard_limit ≢ none)
  unfolding configured state_of
  configured-limited plan v = (refl, ground arith)

  resolve_subscribed-enabled :
      (d : Directory) (plan : Plan)
      → let q = resolve_subscribed d organization metric now org s plan in
        q.enabled ≡ true
        → (in_term s now ≡ true)
          × (plan.is_active ≡ true)
          × (q.subscription_id ≡ some s.id)
          × (q.is_unlimited ≡ false → q.hard_limit ≢ none)
  unfolding resolve_subscribed compatibility
  resolve_subscribed-enabled d plan h = ground (
    arith,
    configured-limited plan
        (merge (find_override d organization metric) (find_plan_quota d plan.id metric)),
  )

-- The quota's period, open-ended or not, holds the instant, unless it is the subscription's term.
pub record IsTimely (now : ℕ) (q : EffectiveQuota) : Type 0 where
  pub timely : q.reset_period ≢ subscription_term → Contains now (q.period_start, q.period_end)

module _ (d : Directory) (organization : ℕ) (metric : QuotaMetric) (now : ℕ) where
  resolve_subscribed-IsBacked :
      (org : Organization) (s : Subscription) (plan : Plan)
      → find (λ o. o.id == organization) d.organizations ≡ some org
      → org.status ≡ OrganizationStatus.active
      → find_subscription d organization ≡ some (s, plan)
      → (resolve_subscribed d organization metric now org s plan).enabled ≡ true
      → IsBacked d organization now (resolve_subscribed d organization metric now org s plan)
  resolve_subscribed-IsBacked org s plan found active subscribed h =
      let (term, offered, named, limited) =
        resolve_subscribed-enabled organization metric now org s d plan h in
      record {
        org = org;
        subscription = s;
        plan = plan;
        found = found;
        active = active;
        subscribed = subscribed;
        term = in_term-IsInTerm s now term;
        offered = offered;
        named = named;
        limited = limited;
      }

  resolve_active-IsBacked :
      (org : Organization)
      → find (λ o. o.id == organization) d.organizations ≡ some org
      → org.status ≡ OrganizationStatus.active
      → (resolve_active d organization metric now org).enabled ≡ true
      → IsBacked d organization now (resolve_active d organization metric now org)
  unfolding resolve_active compatibility
  resolve_active-IsBacked org found active h =
      elim (Option-cases (find_subscription d organization)) [
        | inl unsubscribed ↦ absurd (ground arith)
        | inr ((s, plan), subscribed) ↦
            rw (subscribed, resolve_active)
              (resolve_subscribed-IsBacked org s plan found active subscribed
                (rw (subscribed, resolve_active) at h))
      ]

  -- A quota is enabled only for an active organization whose current subscription is in its term and
  -- has an active plan; it names that subscription, and if it is not unlimited it has a hard limit.
  pub resolve-enabled :
      (resolve d organization metric now).enabled ≡ true
      → IsBacked d organization now (resolve d organization metric now)
  unfolding resolve compatibility
  resolve-enabled h = elim (Option-cases (find (λ o. o.id == organization) d.organizations)) [
    | inl missing ↦ absurd (ground arith)
    | inr (org, found) ↦ elim (Bool-cases (is_active_organization org.status)) [
      | inl active ↦
          rw (found, active, resolve)
            (resolve_active-IsBacked org found (ground arith) (rw (found, active, resolve) at h))
      | inr inactive ↦ absurd (ground arith)
    ]
  ]

  compatibility-IsTimely :
      (state : QuotaConfigurationState) (version subscription : Option ℕ) (plan : Option String)
      → IsTimely now (compatibility organization metric state version subscription plan)
  unfolding compatibility
  compatibility-IsTimely state version subscription plan = record { timely = λ h. omega arith }

  configured-IsTimely :
      (org : Organization) (s : Subscription) (plan : Plan) (v : Settings)
      → IsTimely now (configured organization metric now org s plan v)
  unfolding configured
  configured-IsTimely org s plan v = record {
    timely = period-Contains v.reset_period now s.start_at s.end_at;
  }

  resolve_subscribed-IsTimely :
      (org : Organization) (s : Subscription) (plan : Plan)
      → IsTimely now (resolve_subscribed d organization metric now org s plan)
  unfolding resolve_subscribed
  resolve_subscribed-IsTimely org s plan =
      if_both (IsTimely now) (not (in_term s now) || not plan.is_active)
        (compatibility-IsTimely _ _ _ _)
        (if_both (IsTimely now)
          (not (is_some (find_plan_quota d plan.id metric))
            && not (is_some (find_override d organization metric)))
          (compatibility-IsTimely _ _ _ _) (configured-IsTimely org s plan _))

  resolve_active-IsTimely :
      (org : Organization) → IsTimely now (resolve_active d organization metric now org)
  unfolding resolve_active
  resolve_active-IsTimely org = elim (Option-cases (find_subscription d organization)) [
    | inl missing ↦ rw (missing, resolve_active) (compatibility-IsTimely _ _ _ _)
    | inr ((s, plan), found) ↦ rw (found, resolve_active) (resolve_subscribed-IsTimely org s plan)
  ]

  -- The resolved period holds the instant, unless it is the subscription's term.
  pub resolve-IsTimely : IsTimely now (resolve d organization metric now)
  unfolding resolve
  resolve-IsTimely = elim (Option-cases (find (λ o. o.id == organization) d.organizations)) [
    | inl missing ↦ rw (missing, resolve) (compatibility-IsTimely _ _ _ _)
    | inr (org, found) ↦
        rw (found, resolve)
          (if_both (IsTimely now) (is_active_organization org.status) (resolve_active-IsTimely org)
            (compatibility-IsTimely _ _ _ _))
  ]
