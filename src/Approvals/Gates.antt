-- ===== src/Approvals/Gates.antt =====
-- Lists of gates as sets.
use codemachine_pipeline.Prelude.{
  ◌≡◌, refl, sym, ap, subst, if◌then◌else◌, ◌∙◌, Bool, true, false, not, ◌&&◌, ◌||◌, List, [], ◌∷◌,
  ◌++◌, ◌↔◌, filter, arith, Bool-cases, inl, inr,
}
use codemachine_pipeline.Approvals.Records.{ApprovalGateType, gate_eq}
use codemachine_pipeline.Approvals.{includes, to_set}

pub gate_eq_iff : (a b : ApprovalGateType) → (gate_eq a b ≡ true) ↔ (a ≡ b)
unfolding gate_eq
gate_eq_iff a b = ground arith

pub includes-append :
    (gates : List ApprovalGateType) (g h : ApprovalGateType)
    → includes (gates ++ g ∷ []) h ≡ includes gates h || gate_eq g h
unfolding includes
includes-append [] g h = ground arith
includes-append (x ∷ gates) g h = ground (arith, includes-append gates g h)

-- One gate of a list that another gate is taken out of, as Boolean tests.
taken_out :
    (same x_h g_h rest left : Bool)
    → (same ≡ true → x_h ≡ g_h)
    → (same ≡ false → x_h && g_h ≡ false)
    → left ≡ rest && not g_h
    → (if not same then x_h || left else left) ≡ (x_h || rest) && not g_h
taken_out same x_h g_h rest left a b e = ground (arith, a, b, e)

apart : (x g h : ApprovalGateType) → gate_eq x g ≡ false → gate_eq x h && gate_eq g h ≡ false
apart x g h other = elim (Bool-cases (gate_eq x h)) [
  | inr no_h ↦ rw no_h refl
  | inl x_h ↦
      subst (λ y. gate_eq x h && gate_eq g y ≡ false) ((gate_eq_iff x h).0 x_h)
        (elim (Bool-cases (gate_eq g x)) [
          | inr no_x ↦ rw no_x (ground arith)
          | inl g_x ↦ absurd (cc (other, (gate_eq_iff x g).1 (sym ((gate_eq_iff g x).0 g_x))))
        ])
]

pub includes-filter :
    (gates : List ApprovalGateType) (g h : ApprovalGateType)
    → includes (filter (λ p. not (gate_eq p g)) gates) h ≡ includes gates h && not (gate_eq g h)
unfolding includes
includes-filter [] g h = refl
includes-filter (x ∷ gates) g h =
    (elim (Bool-cases (gate_eq x g)) [ inl same ↦ rw same refl | inr other ↦ rw other refl ])
    ∙ taken_out (gate_eq x g) (gate_eq x h) (gate_eq g h) (includes gates h) _
        (λ same. ap (λ y. gate_eq y h) ((gate_eq_iff x g).0 same)) (apart x g h)
        (includes-filter gates g h)

or_assoc_lem : (a b c : Bool) → ((a || b) || c) ≡ a || (b || c)
or_assoc_lem a b c = ground arith

known_gate :
    (seen : List ApprovalGateType) (g h : ApprovalGateType) (rest : Bool)
    → includes seen g ≡ true
    → includes seen h || rest ≡ includes seen h || (gate_eq g h || rest)
known_gate seen g h rest known = elim (Bool-cases (gate_eq g h)) [
  | inl same ↦
      let there : includes seen h ≡ true =
        subst (λ y. includes seen y ≡ true) ((gate_eq_iff g h).0 same) known in
      rw there (ground arith)
  | inr other ↦ rw other refl
]

pub includes-to_set :
    (seen gates : List ApprovalGateType) (h : ApprovalGateType)
    → includes (to_set seen gates) h ≡ includes seen h || includes gates h
unfolding to_set includes
includes-to_set seen [] h = ground arith
includes-to_set seen (g ∷ gates) h = elim (Bool-cases (includes seen g)) [
  | inl known ↦
      rw (to_set, known)
        (includes-to_set seen gates h ∙ known_gate seen g h (includes gates h) known)
  | inr new ↦
      rw (to_set, new)
        (includes-to_set (seen ++ g ∷ []) gates h
          ∙ rw (includes-append seen g h)
              (or_assoc_lem (includes seen h) (gate_eq g h) (includes gates h)))
]
