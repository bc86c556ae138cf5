-- ===== src/RateLimits.antt =====
-- src/telemetry/rateLimitLedger.ts and workflows/writeActionRateLimiter.ts. The ledger's file is a
-- value; a date is its number of milliseconds, and the clock is an argument.
pub mod Window
pub mod Cooldown
mod Tests
use codemachine_pipeline.Prelude.{
  ℕ, suc, ◌+◌, ◌*◌, String, Bool, true, false, not, ◌&&◌, ◌||◌, Option, none, some, List, [], ◌∷◌,
  leb, ◌==◌, if◌then◌else◌, take,
}
use codemachine_pipeline.Prelude.OrderedMap
use codemachine_pipeline.Prelude.OrderedMap.{OrderedMap}
use codemachine_pipeline.Queue.Types.{or_else}

pub record RateLimitEnvelope : Type 0 where
  pub provider : String
  pub remaining : Option ℕ
  -- seconds since the epoch
  pub reset : Option ℕ
  -- seconds
  pub retry_after : Option ℕ
  pub timestamp : String
  pub request_id : String
  pub endpoint : String
  pub status_code : ℕ
  pub error_message : Option String

pub record LastError : Type 0 where
  pub timestamp : String
  pub message : String
  pub request_id : String

-- The fields of the source's `state` stand beside the others.
pub record ProviderRateLimitState : Type 0 where
  pub provider : String
  pub remaining : ℕ
  pub reset : ℕ
  pub in_cooldown : Bool
  pub cooldown_until : Option ℕ
  pub last_error : Option LastError
  pub recent_envelopes : List RateLimitEnvelope
  pub last_updated : ℕ

pub record RateLimitLedgerData : Type 0 where
  pub providers : OrderedMap ProviderRateLimitState
  pub created_at : ℕ
  pub updated_at : ℕ

abbrev pub max_recent_envelopes : ℕ
max_recent_envelopes = 10

abbrev pub cooldown_threshold_remaining : ℕ
cooldown_threshold_remaining = 10

abbrev pub secondary_limit_retry_count : ℕ
secondary_limit_retry_count = 3

-- Number.MAX_SAFE_INTEGER
abbrev pub max_safe_integer : ℕ
max_safe_integer = 9007199254740991

unfoldable pub create_empty_ledger_data : ℕ → RateLimitLedgerData
create_empty_ledger_data now = record { providers = []; created_at = now; updated_at = now }

unfoldable pub create_provider_state : String → ℕ → ProviderRateLimitState
create_provider_state provider now = record {
  provider = provider;
  remaining = max_safe_integer;
  reset = 0;
  in_cooldown = false;
  cooldown_until = none;
  last_error = none;
  recent_envelopes = [];
  last_updated = now;
}

unfoldable pub few_remaining : Option ℕ → Bool
few_remaining none = false
few_remaining (some n) = leb n cooldown_threshold_remaining

unfoldable pub should_enter_cooldown : RateLimitEnvelope → Bool
unfolding few_remaining
should_enter_cooldown e = e.status_code == 429 || few_remaining e.remaining

-- by Retry-After, else by the reset time, else five minutes from now
unfoldable pub calculate_cooldown_end : RateLimitEnvelope → ℕ → ℕ
calculate_cooldown_end e now = elim e.retry_after [
  | some seconds ↦ now + seconds * 1000
  | none ↦ elim e.reset [ some at ↦ at * 1000 | none ↦ now + 300000 ]
]

unfoldable pub error_of : RateLimitEnvelope → LastError
error_of e = record {
  timestamp = e.timestamp;
  message = or_else e.error_message "Rate limit exceeded";
  request_id = e.request_id;
}

unfoldable pub update_state :
    ProviderRateLimitState → RateLimitEnvelope → ℕ → ProviderRateLimitState
unfolding should_enter_cooldown calculate_cooldown_end error_of
update_state s e now = record s {
  remaining = or_else e.remaining s.remaining;
  reset = or_else e.reset s.reset;
  in_cooldown = should_enter_cooldown e;
  cooldown_until = if should_enter_cooldown e then some (calculate_cooldown_end e now) else none;
  last_error = if e.status_code == 429 then some (error_of e) else s.last_error;
  recent_envelopes = take max_recent_envelopes (e ∷ s.recent_envelopes);
  last_updated = now;
}

unfoldable pub record_envelope : RateLimitLedgerData → RateLimitEnvelope → ℕ → RateLimitLedgerData
unfolding update_state create_provider_state
record_envelope ledger e now =
    let s =
      or_else (OrderedMap.get e.provider ledger.providers) (create_provider_state e.provider now) in
    record ledger {
      providers = OrderedMap.set e.provider (update_state s e now) ledger.providers;
      updated_at = now;
    }

unfoldable pub get_provider_state : RateLimitLedgerData → String → Option ProviderRateLimitState
get_provider_state ledger provider = OrderedMap.get provider ledger.providers

unfoldable pub clear_cooldown : RateLimitLedgerData → String → ℕ → RateLimitLedgerData
unfolding get_provider_state
clear_cooldown ledger provider now = elim (get_provider_state ledger provider) [
  | none ↦ ledger
  | some s ↦ record ledger {
    providers =
        OrderedMap.set provider
          (record s { in_cooldown = false; cooldown_until = none; last_updated = now })
          ledger.providers;
    updated_at = now;
  }
]

-- `now >= cooldownEnd`, where there is an end
unfoldable pub has_expired : Option ℕ → ℕ → Bool
has_expired none now = false
has_expired (some until) now = leb until now

-- The ledger is written where an expired cooldown is cleared.
unfoldable pub is_in_cooldown : RateLimitLedgerData → String → ℕ → RateLimitLedgerData × Bool
unfolding get_provider_state has_expired clear_cooldown
is_in_cooldown ledger provider now = elim (get_provider_state ledger provider) [
  | none ↦ (ledger, false)
  | some s ↦
      if not s.in_cooldown
      then (ledger, false)
      else if has_expired s.cooldown_until now
      then (clear_cooldown ledger provider now, false)
      else (ledger, true)
]

-- the 429s at the head, the most recent first
unfoldable pub leading_hits : List RateLimitEnvelope → ℕ
leading_hits [] = 0
leading_hits (e ∷ es) = let rest = leading_hits es in if e.status_code == 429 then suc rest else 0

unfoldable pub get_consecutive_rate_limit_hits : RateLimitLedgerData → String → ℕ
unfolding get_provider_state leading_hits
get_consecutive_rate_limit_hits ledger provider = elim (get_provider_state ledger provider) [
  | none ↦ 0
  | some s ↦ leading_hits s.recent_envelopes
]

unfoldable pub requires_manual_acknowledgement : RateLimitLedgerData → String → Bool
unfolding get_consecutive_rate_limit_hits
requires_manual_acknowledgement ledger provider =
    leb secondary_limit_retry_count (get_consecutive_rate_limit_hits ledger provider)

pub record CooldownStatus : Type 0 where
  pub in_cooldown : Bool
  pub requires_manual_ack : Bool

unfoldable pub check_cooldown :
    RateLimitLedgerData → String → ℕ → RateLimitLedgerData × CooldownStatus
unfolding is_in_cooldown requires_manual_acknowledgement
check_cooldown ledger provider now =
    let (after, waiting) = is_in_cooldown ledger provider now in
    if waiting
    then (
      after,
      record {
        in_cooldown = true;
        requires_manual_ack = requires_manual_acknowledgement after provider;
      },
    )
    else (after, record { in_cooldown = false; requires_manual_ack = false })
