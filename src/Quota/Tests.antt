-- ===== src/Quota/Tests.antt =====
-- The quota code on a small store: an organization with a plan that allows ten API calls.
use content_intelligence_bac.Base.{
  ℕ, true, false, none, some, [], ◌∷◌, ◌≡◌, refl, arith, ok, err, find, is_blank, ◌≢◌, ◌⊎◌, ◌+◌,
  ◌==◌, if◌then◌else◌,
}
use content_intelligence_bac.Quota.Model.{
  api_calls, files, no_reset, OrganizationStatus, SubscriptionStatus, enforced, Organization,
  Directory, Store, UsageCounter,
}
use content_intelligence_bac.Quota.Resolver.{EffectiveQuota, resolve, resolver_run, period}
use content_intelligence_bac.Quota.Tables.{
  quota_exceeded, new_counter, counter_run, authoritative_inventory,
}
use content_intelligence_bac.Quota.Tables.Laws.{IsValid}
use content_intelligence_bac.Quota.Reserve.{
  UsageReservationResult, ReserveStatus, new_reservation, reserve, reserve_run,
}
use content_intelligence_bac.Quota.Reserve.Safety.{
  refusal, IsPlacedWithin, reserve-within_limit, reserve-ne-bypassed, IsRefused, reserve-IsRefused,
}
use content_intelligence_bac.Quota.Reserve.Repeat.{IsRepeated, reserve_again}
use content_intelligence_bac.Quota.Reserve.Decided.{IsDecided, reserve-decides}
use content_intelligence_bac.Quota.Tables.{held, constraint_violated}
use content_intelligence_bac.Quota.Commit.{
  commit_one, commit_reservations, thresholds, release_reservation,
}
use content_intelligence_bac.Quota.Commit.Laws.{KeepsLoads, commit_reservations-KeepsLoads}
use content_intelligence_bac.Quota.Commit.Once.{
  IsSettled, commit_one-IsSettled, recorded, thresholds-recorded, release_reservation_lem,
}
use content_intelligence_bac.Quota.Resolver.Laws.{
  IsBacked, resolve-enabled, IsTimely, resolve-IsTimely,
}
use content_intelligence_bac.Quota.Inventory.{basis_of, threshold_of, reconcile}
use content_intelligence_bac.Quota.Inventory.Laws.{
  has_reached, threshold-has_reached, reconcile-dry_run,
}
use content_intelligence_bac.Quota.Model.{QuotaOverride, override_created}
use content_intelligence_bac.Quota.Resolver.{find_override}
use content_intelligence_bac.Quota.Platform.{
  absent, null, given, OverrideDto, override_not_found, limits, raise_version, audit_row,
  override_of, upsert_override, set_override, remove_override,
}
use content_intelligence_bac.Quota.Platform.Laws.{
  IsOverridden, set_override-IsOverridden, remove_override_lem,
}
use content_intelligence_bac.Quota.Commit.{commit_run}
use content_intelligence_bac.Quota.Model.{ReservationStatus}
use content_intelligence_bac.Quota.Consume.{ConsumeResult, consume_run}
use content_intelligence_bac.Quota.Consume.Once.{IsConsumed, consume_event-IsConsumed}

abbrev acme : Directory
acme = record {
  organizations =
      record { id = 1; status = OrganizationStatus.active; entitlement_version = 1 } ∷ [];
  plans = record { id = 5; code = "basic"; revision = 1; is_active = true } ∷ [];
  subscriptions =
      record {
        id = 7;
        organization_id = 1;
        plan_id = 5;
        status = SubscriptionStatus.active;
        start_at = 0;
        end_at = none;
        grace_period_end_at = none;
      }
      ∷ [];
  plan_quotas =
      record {
        id = 8;
        plan_id = 5;
        metric = api_calls;
        enabled = true;
        is_unlimited = false;
        soft_limit = none;
        hard_limit = some 10;
        reset_period = no_reset;
      }
      ∷ [];
  overrides = [];
  members = [];
  files = [];
}

abbrev empty : Store
empty = record {
  directory = acme;
  counters = [];
  reservations = [];
  events = [];
  threshold_events = [];
  snapshots = [];
  audit_logs = [];
  next_id = 20;
}

abbrev quota : EffectiveQuota
quota = record {
  organization_id = 1;
  metric = api_calls;
  state = enforced;
  enabled = true;
  is_unlimited = false;
  soft_limit = none;
  hard_limit = some 10;
  reset_period = no_reset;
  period_start = 0;
  period_end = none;
  plan_code = some "basic";
  subscription_id = some 7;
  entitlement_version = some 1;
}

-- The store after a reservation of three calls.
abbrev three_held : Store
three_held = record empty {
  counters = new_counter 20 quota 0 ∷ [];
  reservations = new_reservation 21 1 20 api_calls "k" 3 1000 ∷ [];
  next_id = 22;
}

empty-IsValid : IsValid empty
empty-IsValid = record {
  counters_distinct = tt;
  counters_below = tt;
  reservations_distinct = tt;
  reservations_below = tt;
}

three_held-IsValid : IsValid three_held
three_held-IsValid = record {
  counters_distinct = (tt, tt);
  counters_below = (omega arith, tt);
  reservations_distinct = (tt, tt);
  reservations_below = (omega arith, tt);
}

abbrev three_reserved : UsageReservationResult
three_reserved = record { reservation_id = some 21; status = ReserveStatus.reserved; quota = quota }

three_run : reserve 1 api_calls 3 "k" 1000 none none empty ≡ (ok three_reserved, three_held)
unfolding reserve_run resolver_run period counter_run authoritative_inventory is_blank
three_run = refl

-- A call for eight more is refused.
abbrev audited : Store
audited = record three_held {
  audit_logs = refusal 1 api_calls 8 "m" 2000 none none three_held 3 10 none ∷ [];
}

refused_run :
    reserve 1 api_calls 8 "m" 2000 none none three_held
    ≡ (err (quota_exceeded api_calls 3 8 10 none), audited)
unfolding reserve_run resolver_run period counter_run authoritative_inventory is_blank
refused_run = refl

-- A plan with a soft limit of eight calls, and an override with a hard limit of five: the database
-- refuses the counter, and the call throws.
abbrev inverted : Store
inverted = record empty {
  directory = record acme {
    plan_quotas =
        record {
          id = 8;
          plan_id = 5;
          metric = api_calls;
          enabled = true;
          is_unlimited = false;
          soft_limit = some 8;
          hard_limit = some 10;
          reset_period = no_reset;
        }
        ∷ [];
    overrides =
        record {
          id = 9;
          organization_id = 1;
          metric = api_calls;
          enabled = none;
          is_unlimited = none;
          soft_limit = none;
          hard_limit = some 5;
          reset_period = none;
          reason = none;
          created_by_id = some 3;
        }
        ∷ [];
  };
}

inverted_run :
    reserve 1 api_calls 3 "k" 1000 none none inverted ≡ (err constraint_violated, inverted)
unfolding reserve_run resolver_run period counter_run authoritative_inventory is_blank
inverted_run = refl

reserve-within_limit_example :
    IsPlacedWithin 1 api_calls 3 "k" 1000 none none empty 10 three_reserved three_held
reserve-within_limit_example =
    reserve-within_limit 1 api_calls 3 "k" 1000 none none empty three_reserved three_held 10
      empty-IsValid three_run refl (record { enabled = refl; finite = refl; hard_limit = refl })

reserve-ne-bypassed_example :
    (three_reserved.status ≢ ReserveStatus.bypassed) × (three_reserved.reservation_id ≢ none)
reserve-ne-bypassed_example =
    reserve-ne-bypassed 1 api_calls 3 "k" 1000 none none empty three_reserved three_held
      empty-IsValid three_run

reserve-IsRefused_example : IsRefused 1 api_calls 8 "m" 2000 none none three_held 3 10 none audited
reserve-IsRefused_example =
    reserve-IsRefused 1 api_calls 8 "m" 2000 none none three_held api_calls 3 8 10 none audited
      three_held-IsValid refused_run

reserve_again_example :
    (id : ℕ) × (three_reserved.reservation_id ≡ some id)
    × IsRepeated 1 api_calls 3 "k" 5000 id none none three_held
unfolding resolver_run period counter_run
reserve_again_example =
    reserve_again 1 api_calls 3 "k" 1000 empty none none three_reserved three_held empty-IsValid
      three_run refl 5000 none none (omega arith) refl

reserve-decides_example :
    IsDecided 1 api_calls 3 "k" 1000 none none empty
      (reserve 1 api_calls 3 "k" 1000 none none empty).0
unfolding is_blank resolver_run period counter_run
reserve-decides_example =
    reserve-decides 1 api_calls 3 "k" 1000 none none empty empty-IsValid refl refl refl refl

commit_one-IsSettled_example : IsSettled 21 (commit_one 3000 21 three_held)
commit_one-IsSettled_example = commit_one-IsSettled 21 3000 three_held three_held-IsValid

commit_reservations-KeepsLoads_example :
    KeepsLoads three_held (commit_reservations (some 21 ∷ none ∷ some 21 ∷ []) 3000 three_held).1
commit_reservations-KeepsLoads_example =
    commit_reservations-KeepsLoads (some 21 ∷ none ∷ some 21 ∷ []) 3000 three_held
      three_held-IsValid

-- A counter at nine of ten calls.
abbrev nine : UsageCounter
nine = new_counter 20 quota 9

thresholds-recorded_example :
    (recorded nine 80 (thresholds nine (some 10) 4000 three_held)
      ≡ (if has_reached 10 80 9 then 1 else recorded nine 80 three_held))
    × (recorded nine 90 (thresholds nine (some 10) 4000 three_held)
        ≡ (if has_reached 10 90 9 then 1 else recorded nine 90 three_held))
thresholds-recorded_example =
    thresholds-recorded nine 4000 10 three_held refl (omega arith) (omega arith)

release_reservation_lem_example :
    let s' = (release_reservation (some 21) 4000 three_held).1 in
    (held 20 s'.reservations + 3 ≡ held 20 three_held.reservations)
    × ((other : ℕ)
        → (20 == other) ≡ false
        → held other s'.reservations ≡ held other three_held.reservations)
    × ((release_reservation (some 21) 4000 s').0.released ≡ false)
release_reservation_lem_example =
    release_reservation_lem 21 4000 three_held (new_reservation 21 1 20 api_calls "k" 3 1000)
      three_held-IsValid refl refl

resolve-enabled_example : IsBacked acme 1 1000 (resolve acme 1 api_calls 1000)
unfolding resolver_run period
resolve-enabled_example = resolve-enabled acme 1 api_calls 1000 refl

resolve-IsTimely_example : IsTimely 1000 (resolve acme 1 api_calls 1000)
resolve-IsTimely_example = resolve-IsTimely acme 1 api_calls 1000

threshold-has_reached_example :
    threshold_of (basis_of (some 10) 9)
    ≡ (if has_reached 10 90 9 then some 90 else if has_reached 10 80 9 then some 80 else none)
threshold-has_reached_example = threshold-has_reached 10 9 refl

reconcile-dry_run_example : (reconcile 1 false 1000 three_held).1 ≡ three_held
reconcile-dry_run_example = reconcile-dry_run 1 1000 three_held

-- The store of a counter whose period is over, when the reservation is overdue too.
abbrev closed : Store
closed = record three_held {
  counters = record (new_counter 20 quota 2) { period_end = some 4000 } ∷ [];
}

abbrev five_calls : OverrideDto
five_calls = record {
  enabled = given true;
  is_unlimited = given false;
  soft_limit = some 4;
  hard_limit = some 5;
  reset_period = absent;
  reason = null;
}

abbrev override : QuotaOverride
override = override_of 20 1 api_calls five_calls 3

abbrev overridden : Store
overridden = record empty {
  directory = record acme {
    organizations =
        record { id = 1; status = OrganizationStatus.active; entitlement_version = 2 } ∷ [];
    overrides = override ∷ [];
  };
  audit_logs = audit_row 3 20 (some 1) api_calls (override_created override) none ∷ [];
  next_id = 21;
}

set_override-IsOverridden_example :
    IsOverridden 3 none 1 api_calls five_calls empty override overridden
unfolding set_override limits upsert_override find_override
set_override-IsOverridden_example =
    set_override-IsOverridden 3 none 1 api_calls five_calls empty override overridden refl

remove_override_lem_example :
    let (out, s') = remove_override 3 none 1 api_calls overridden in
    ((out ≡ err override_not_found)
      × (find_override overridden.directory 1 api_calls ≡ none)
      × (s' ≡ overridden))
    ⊎ ((out ≡ ok tt)
        × (find_override s'.directory 1 api_calls ≡ none)
        × ((owner : Organization)
            → find (λ o. o.id == 1) overridden.directory.organizations ≡ some owner
            → find (λ o. o.id == 1) s'.directory.organizations ≡ some (raise_version owner)))
remove_override_lem_example = remove_override_lem 3 none 1 api_calls overridden

-- The answer to an event of two calls, and the store after it.
abbrev consumed : ConsumeResult
consumed = record { consumed = true; idempotent = false; compatibility = false; quota = quota }

abbrev after_event : Store
after_event = record empty {
  counters = record (new_counter 20 quota 2) { version = 2 } ∷ [];
  reservations =
      record (new_reservation 21 1 20 api_calls "event:e" 2 1000) {
        status = ReservationStatus.committed;
        committed_at = some 1000;
      }
      ∷ [];
  events =
      record {
        organization_id = 1;
        metric = api_calls;
        idempotency_key = "e";
        amount = 2;
        period_start = 0;
      }
      ∷ [];
  next_id = 22;
}

consume_event-IsConsumed_example : IsConsumed 1 api_calls 2 "e" 1000 [] consumed after_event
unfolding consume_run commit_run reserve_run resolver_run period counter_run authoritative_inventory
    is_blank
consume_event-IsConsumed_example =
    consume_event-IsConsumed 1 api_calls 2 "e" 1000 none none empty after_event consumed
      empty-IsValid refl
