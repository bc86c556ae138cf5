-- ===== src/RateLimits/Tests.antt =====
-- A provider that answers 429 three times.
use codemachine_pipeline.Prelude.{ℕ, ◌≡◌, ◌↔◌, refl, true, false, none, some, List, [], ◌∷◌, take}
use mathlib.Core.List.{reverse}
use codemachine_pipeline.Prelude.OrderedMap
use codemachine_pipeline.RateLimits.{
  RateLimitEnvelope, RateLimitLedgerData, create_empty_ledger_data, record_envelope, is_in_cooldown,
  max_recent_envelopes,
}
use codemachine_pipeline.RateLimits.Window.{
  recent, record_all, envelopes_of, recent-record_all_empty,
}
use codemachine_pipeline.RateLimits.Cooldown.{IsLimited, IsWithin, is_in_cooldown-record_envelope}

abbrev hit : RateLimitEnvelope
hit = record {
  provider = "github";
  remaining = some 0;
  reset = none;
  retry_after = some 60;
  timestamp = "t";
  request_id = "r";
  endpoint = "/";
  status_code = 429;
  error_message = none;
}

abbrev three_hits : List (RateLimitEnvelope × ℕ)
three_hits = (hit, 1000) ∷ (hit, 2000) ∷ (hit, 3000) ∷ []

recent-record_all_empty_example :
    recent (record_all (create_empty_ledger_data 0) three_hits) "github"
    ≡ take max_recent_envelopes (reverse (envelopes_of "github" three_hits))
recent-record_all_empty_example = recent-record_all_empty 0 three_hits "github"

abbrev limited : RateLimitLedgerData
limited = record_envelope (create_empty_ledger_data 0) hit 1000

is_in_cooldown-record_envelope_example :
    ((is_in_cooldown limited "github" 60999).1 ≡ true) ↔ (IsLimited hit × IsWithin hit 1000 60999)
is_in_cooldown-record_envelope_example =
    is_in_cooldown-record_envelope (create_empty_ledger_data 0) hit 1000 60999

limited_until : (is_in_cooldown limited "github" 61000).1 ≡ false
unfolding is_in_cooldown record_envelope create_empty_ledger_data OrderedMap.get OrderedMap.set
limited_until = refl
