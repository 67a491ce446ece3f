-- ===== src/Quota/Consume.antt =====
-- `consumeEvent` (src/quota/quota.service.ts): an event is reserved, recorded once under its key,
-- and committed. The interceptor of the API (src/quota/api-usage.interceptor.ts) calls it.
pub mod Frame
pub mod Once
use content_intelligence_bac.Base.{
  ℕ, Bool, true, false, not, ◌&&◌, Option, none, some, String, ◌==◌, if◌then◌else◌, any, snoc, ok,
  Action, ◌>>=◌, ◌>>◌, pure,
}
use Prim.Native.String
use text.Mathlib.Text.{◌==◌ as str_eq}
use content_intelligence_bac.Quota.Model.{QuotaMetric, UsageEvent, Store, metric_eq}
use content_intelligence_bac.Quota.Resolver.{EffectiveQuota}
use content_intelligence_bac.Quota.Tables.{QuotaError}
use content_intelligence_bac.Quota.Reserve.{ReserveStatus, UsageReservationResult, reserve}
use content_intelligence_bac.Quota.Commit.{commit_reservation, release_reservation}

pub record ConsumeResult : Type 0 where
  pub consumed : Bool
  pub idempotent : Bool
  pub compatibility : Bool
  pub quota : EffectiveQuota

abbrev pub is_event_of : ℕ → QuotaMetric → String → UsageEvent → Bool
is_event_of organization metric key e =
    e.organization_id == organization && metric_eq e.metric metric && str_eq e.idempotency_key key

-- `createMany` with `skipDuplicates`, and whether it has written the row.
pub record_event : UsageEvent → Store → Bool × Store
record_event e s =
    if any (is_event_of e.organization_id e.metric e.idempotency_key) s.events
    then (false, s)
    else (true, record s { events = snoc s.events e })

abbrev pub was_reserved : ReserveStatus → Bool
was_reserved ReserveStatus.reserved = true
was_reserved _ = false

-- What follows the recording: the commit, or the release of a reservation that this call made.
pub settle : Bool → ReserveStatus → ℕ → ℕ → Action Store QuotaError (Unit {0})
settle true status id now s = (commit_reservation (some id) now >>= λ _. pure tt) s
settle false status id now s =
    if was_reserved status then (ok tt, (release_reservation (some id) now s).1) else (ok tt, s)

module _ (organization : ℕ) (metric : QuotaMetric) (amount : ℕ) (key : String) (now : ℕ) where
  pub record_and_settle : UsageReservationResult → Action Store QuotaError ConsumeResult
  record_and_settle reservation s = elim reservation.reservation_id [
    | none ↦ (
      ok (record {
        consumed = false;
        idempotent = false;
        compatibility = true;
        quota = reservation.quota;
      }),
      s,
    )
    | some id ↦
        let (recorded, s') =
          record_event
            (record {
              organization_id = organization;
              metric = metric;
              idempotency_key = key;
              amount = amount;
              period_start = reservation.quota.period_start;
            })
            s in
        (do
          settle recorded reservation.status id now
          pure (record {
            consumed = recorded;
            idempotent = not recorded;
            compatibility = false;
            quota = reservation.quota;
          }))
          s'
  ]

  pub consume_event : Option ℕ → Option String → Action Store QuotaError ConsumeResult
  consume_event actor request = do
    reservation ← reserve organization metric amount (String.◌++◌ "event:" key) now actor request
    record_and_settle reservation

-- What a run of `consumeEvent` computes with: a test names this alone.
unfoldable pub consume_run : Unit {0}
unfolding consume_event record_and_settle record_event settle
consume_run = tt
