-- ===== src/RateLimits/Window.antt =====
-- Which envelopes the ledger keeps.
use codemachine_pipeline.Prelude.{
  ℕ, zero, suc, ◌≡◌, refl, ap, ◌∙◌, String, none, some, List, [], ◌∷◌, ◌++◌, append_assoc,
  append-nil, arith, Bool-cases, inl, inr, str_eq, eq_iff, if◌then◌else◌, take,
}
use mathlib.Core.List.{reverse, reverse-cons}
use codemachine_pipeline.Prelude.OrderedMap
use codemachine_pipeline.Prelude.OrderedMap.{get-set}
use codemachine_pipeline.Queue.Types.{or_else}
use codemachine_pipeline.RateLimits.{
  RateLimitEnvelope, RateLimitLedgerData, create_empty_ledger_data, create_provider_state,
  update_state, record_envelope, max_recent_envelopes,
}

-- what the ledger keeps of a provider
abbrev pub recent : RateLimitLedgerData → String → List RateLimitEnvelope
recent ledger provider = elim (OrderedMap.get provider ledger.providers) [
  | none ↦ []
  | some s ↦ s.recent_envelopes
]

-- Envelopes one after another, each with the time at which it is recorded.
unfoldable pub record_all : RateLimitLedgerData → List (RateLimitEnvelope × ℕ) → RateLimitLedgerData
record_all ledger [] = ledger
record_all ledger ((e, now) ∷ es) = record_all (record_envelope ledger e now) es

-- the envelopes of a provider
abbrev pub envelopes_of : String → List (RateLimitEnvelope × ℕ) → List RateLimitEnvelope
envelopes_of provider [] = []
envelopes_of provider ((e, now) ∷ es) =
    let rest = envelopes_of provider es in if str_eq e.provider provider then e ∷ rest else rest

take-take {ℓ} : {A : Type ℓ} (n : ℕ) (xs : List A) → take n (take n xs) ≡ take n xs
take-take zero xs = refl
take-take (suc n) [] = refl
take-take (suc n) (x ∷ xs) = ap (λ r. x ∷ r) (take-take n xs)

take-suc-take {ℓ} : {A : Type ℓ} (n : ℕ) (xs : List A) → take n (take (suc n) xs) ≡ take n xs
take-suc-take zero xs = refl
take-suc-take (suc n) [] = refl
take-suc-take (suc n) (x ∷ xs) = ap (λ r. x ∷ r) (take-suc-take n xs)

take-cons_take {ℓ} :
    {A : Type ℓ} (n : ℕ) (x : A) (xs : List A) → take n (x ∷ take n xs) ≡ take n (x ∷ xs)
take-cons_take zero x xs = refl
take-cons_take (suc n) x xs = ap (λ r. x ∷ r) (take-suc-take n xs)

recent-record_envelope :
    (ledger : RateLimitLedgerData) (e : RateLimitEnvelope) (now : ℕ) (provider : String)
    → recent (record_envelope ledger e now) provider ≡ (
        if str_eq e.provider provider
        then take max_recent_envelopes (e ∷ recent ledger provider)
        else recent ledger provider)
unfolding record_envelope update_state create_provider_state
recent-record_envelope ledger e now provider =
    let s =
      or_else (OrderedMap.get e.provider ledger.providers) (create_provider_state e.provider now) in
    ground (
      arith,
      get-set e.provider provider (update_state s e now) ledger.providers,
      eq_iff e.provider provider,
    )

recent-record_all :
    (ledger : RateLimitLedgerData) (es : List (RateLimitEnvelope × ℕ)) (provider : String)
    (before : List RateLimitEnvelope)
    → recent ledger provider ≡ take max_recent_envelopes before
    → recent (record_all ledger es) provider
      ≡ take max_recent_envelopes (reverse (envelopes_of provider es) ++ before)
unfolding record_all
recent-record_all ledger [] provider before h = h
recent-record_all ledger ((e, now) ∷ es) provider before h =
    let one = recent-record_envelope ledger e now provider in
    elim (Bool-cases (str_eq e.provider provider)) [
      | inl own ↦
          recent-record_all (record_envelope ledger e now) es provider (e ∷ before)
            (one ∙ rw (own, h) (take-cons_take max_recent_envelopes e before))
          ∙ rw (own, reverse-cons, append_assoc) refl
      | inr foreign ↦
          recent-record_all (record_envelope ledger e now) es provider before (one ∙ rw foreign h)
          ∙ rw foreign refl
    ]

-- A ledger that began empty keeps, for each provider, exactly the last ten of the provider's
-- envelopes, the latest first, whatever was recorded of other providers in between.
pub recent-record_all_empty :
    (began : ℕ) (es : List (RateLimitEnvelope × ℕ)) (provider : String)
    → recent (record_all (create_empty_ledger_data began) es) provider
      ≡ take max_recent_envelopes (reverse (envelopes_of provider es))
unfolding create_empty_ledger_data OrderedMap.get
recent-record_all_empty began es provider =
    recent-record_all (create_empty_ledger_data began) es provider [] refl ∙ rw append-nil refl
