-- ===== src/RateLimits/Cooldown.antt =====
-- When a provider is in cooldown, and for how long.
use codemachine_pipeline.Prelude.{
  ℕ, ◌≡◌, ◌≤◌, ◌<◌, ◌+◌, ◌*◌, ◌==◌, ◌↔◌, ◌⊎◌, sym, ◌∙◌, true, String, Bool, false, not, ◌&&◌,
  Option, none, some, arith, Bool-cases, Option-cases, inl, inr, eq_iff, ltb,
}
use codemachine_pipeline.Prelude.OrderedMap
use codemachine_pipeline.Prelude.OrderedMap.{get-set}
use codemachine_pipeline.Queue.Types.{or_else}
use codemachine_pipeline.RateLimits.{
  RateLimitEnvelope, ProviderRateLimitState, RateLimitLedgerData, create_provider_state,
  update_state, record_envelope, should_enter_cooldown, calculate_cooldown_end, get_provider_state,
  clear_cooldown, has_expired, is_in_cooldown, requires_manual_acknowledgement, check_cooldown,
}

-- what `isInCooldown` answers of a state
abbrev waits : Option ProviderRateLimitState → ℕ → Bool
waits none now = false
waits (some s) now = s.in_cooldown && not (has_expired s.cooldown_until now)

is_in_cooldown_lem :
    (ledger : RateLimitLedgerData) (provider : String) (now : ℕ)
    → (is_in_cooldown ledger provider now).1 ≡ waits (OrderedMap.get provider ledger.providers) now
unfolding is_in_cooldown get_provider_state
is_in_cooldown_lem ledger provider now = ground arith

is_in_cooldown_recorded :
    (ledger : RateLimitLedgerData) (e : RateLimitEnvelope) (now later : ℕ)
    → (is_in_cooldown (record_envelope ledger e now) e.provider later).1
      ≡ should_enter_cooldown e && ltb later (calculate_cooldown_end e now)
unfolding record_envelope update_state has_expired
is_in_cooldown_recorded ledger e now later =
    let s =
      or_else (OrderedMap.get e.provider ledger.providers) (create_provider_state e.provider now) in
    ground (
      arith,
      is_in_cooldown_lem (record_envelope ledger e now) e.provider later,
      get-set e.provider e.provider (update_state s e now) ledger.providers,
      eq_iff e.provider e.provider,
    )

-- The response is a refusal, or leaves at most ten requests.
abbrev pub IsLimited : RateLimitEnvelope → Type 0
IsLimited e = (e.status_code ≡ 429) ⊎ ((n : ℕ) × (e.remaining ≡ some n) × (n ≤ 10))

-- Of an envelope recorded at `now`, a later time is before the end by Retry-After, in seconds; without that,
-- before the time of the reset; and without both, within five minutes.
abbrev pub IsWithin : RateLimitEnvelope → ℕ → ℕ → Type 0
IsWithin e now later =
    ((seconds : ℕ) × (e.retry_after ≡ some seconds) × (later < now + seconds * 1000))
    ⊎ ((at : ℕ) × (e.retry_after ≡ none) × (e.reset ≡ some at) × (later < at * 1000))
    ⊎ ((e.retry_after ≡ none) × (e.reset ≡ none) × (later < now + 300000))

should_enter_cooldown_iff : (e : RateLimitEnvelope) → (should_enter_cooldown e ≡ true) ↔ IsLimited e
unfolding should_enter_cooldown
should_enter_cooldown_iff e = (
  λ h. elim (Bool-cases (e.status_code == 429)) [
    | inl refused ↦ inl (ground (arith, refused))
    | inr other ↦ elim (Option-cases e.remaining) [
      | inl unknown ↦ absurd (ground (arith, rw (other, unknown) at h))
      | inr (n, left) ↦ inr (n, left, ground (arith, rw (other, left) at h))
    ]
  ],
  λ h. elim h [
    | inl refused ↦ ground (arith, refused)
    | inr (n, left, few) ↦ rw left (ground (arith, few))
  ],
)

calculate_cooldown_end_iff :
    (e : RateLimitEnvelope) (now later : ℕ)
    → (ltb later (calculate_cooldown_end e now) ≡ true) ↔ IsWithin e now later
unfolding calculate_cooldown_end
calculate_cooldown_end_iff e now later = (
  λ h. elim (Option-cases e.retry_after) [
    | inr (seconds, given) ↦ inl (seconds, given, ground (arith, rw given at h))
    | inl ungiven ↦ elim (Option-cases e.reset) [
      | inr (at, known) ↦ inr (inl (at, ungiven, known, ground (arith, rw (ungiven, known) at h)))
      | inl unknown ↦ inr (inr (ungiven, unknown, ground (arith, rw (ungiven, unknown) at h)))
    ]
  ],
  λ h. elim h [
    | inl (seconds, given, before) ↦ rw given (ground (arith, before))
    | inr (inl (at, ungiven, known, before)) ↦ rw (ungiven, known) (ground (arith, before))
    | inr (inr (ungiven, unknown, before)) ↦ rw (ungiven, unknown) (ground (arith, before))
  ],
)

-- After an envelope is recorded, its provider is in cooldown exactly if the envelope is a 429 or leaves at
-- most ten requests, and as long as the time given by its Retry-After, else its reset time, else five minutes
-- from the recording is not reached.
pub is_in_cooldown-record_envelope :
    (ledger : RateLimitLedgerData) (e : RateLimitEnvelope) (now later : ℕ)
    → ((is_in_cooldown (record_envelope ledger e now) e.provider later).1 ≡ true)
      ↔ (IsLimited e × IsWithin e now later)
is_in_cooldown-record_envelope ledger e now later =
    let recorded = is_in_cooldown_recorded ledger e now later in
    let (limited, limits) = should_enter_cooldown_iff e in
    let (within, lasts) = calculate_cooldown_end_iff e now later in
    (
      λ h.
          let both = sym recorded ∙ h in
          (limited (ground (arith, both)), within (ground (arith, both))),
      λ h. recorded ∙ ground (arith, limits h.0, lasts h.1),
    )

-- Once a cooldown was found to be over, it is over at every time, until the next envelope.
pub is_in_cooldown_over :
    (ledger : RateLimitLedgerData) (provider : String) (now later : ℕ)
    → (is_in_cooldown ledger provider now).1 ≡ false
    → (is_in_cooldown (is_in_cooldown ledger provider now).0 provider later).1 ≡ false
unfolding is_in_cooldown clear_cooldown get_provider_state
is_in_cooldown_over ledger provider now later over =
    elim (Option-cases (OrderedMap.get provider ledger.providers)) [
      | inl e ↦ ground (arith, e)
      | inr (s, e) ↦ elim (Bool-cases s.in_cooldown) [
        | inl on ↦ ground (
          arith,
          e,
          on,
          get-set provider provider
              (record s { in_cooldown = false; cooldown_until = none; last_updated = now })
              ledger.providers,
          eq_iff provider provider,
        )
        | inr off ↦ ground (arith, e, off)
      ]
    ]

-- A drain is refused until an operator acknowledges exactly if the provider is in cooldown and at
-- least three envelopes in a row, the latest included, were 429s. So the demand ends with the
-- cooldown, without an acknowledgement.
pub check_cooldown_manual :
    (ledger : RateLimitLedgerData) (provider : String) (now : ℕ)
    → (check_cooldown ledger provider now).1.requires_manual_ack
      ≡ (is_in_cooldown ledger provider now).1 && requires_manual_acknowledgement ledger provider
unfolding check_cooldown is_in_cooldown
check_cooldown_manual ledger provider now = ground arith
