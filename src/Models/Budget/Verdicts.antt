-- ===== src/Models/Budget/Verdicts.antt =====
-- When a spend is let through, advised against or cut off.
use harp_ochestration.Prelude.{
  ℕ, ◌≤◌, ◌≡◌, ◌↔◌, ◌⊎◌, inl, inr, refl, String, List, [], ◌∷◌, ltb, string_eq, All, arith,
  Bool-cases,
}
use harp_ochestration.Models.Budget.{
  BudgetVerdict, ok, downshift, cutoff, Amount, infinity, finite, BudgetManager, Spend, Check,
  checks, projected, remaining_of, advise, check_all, check, over_reason,
}

abbrev pub Fits : ℕ → Check → Type 0
Fits tokens c = projected c tokens ≤ c.state.hard

abbrev pub IsCalm : ℕ → Check → Type 0
IsCalm tokens c = projected c tokens ≤ c.state.soft

abbrev pub IsCutoff : BudgetVerdict → Type 0
IsCutoff v = (reason : String) × (v ≡ cutoff reason)

abbrev pub IsDownshift : BudgetVerdict → Type 0
IsDownshift v = (remaining : Amount) × (reason : String) × (v ≡ downshift remaining reason)

abbrev pub IsOk : BudgetVerdict → Type 0
IsOk v = (remaining : Amount) × (v ≡ ok remaining)

-- The verdict on a list of checks, from the verdict so far.
abbrev Classified : ℕ → List Check → BudgetVerdict → BudgetVerdict → Type 0
Classified tokens cs before v =
    ((¬ All (Fits tokens) cs) × IsCutoff v)
    ⊎ (All (Fits tokens) cs × (¬ (IsOk before × All (IsCalm tokens) cs)) × IsDownshift v)
    ⊎ (All (Fits tokens) cs × IsOk before × All (IsCalm tokens) cs × IsOk v)

advise-IsOk :
    (tokens : ℕ) (c : Check) (before : BudgetVerdict)
    → IsOk (advise tokens c before) ↔ (IsOk before × IsCalm tokens c)
unfolding advise
advise-IsOk tokens c (ok r) = elim (Bool-cases (ltb c.state.soft (projected c tokens))) [
  | inl over ↦ ground arith
  | inr calm ↦ rw calm ((λ h. ((r, refl), ground arith)), λ h. (finite (remaining_of c), refl))
]
advise-IsOk tokens c (downshift r why) = ground arith
advise-IsOk tokens c (cutoff why) = ground arith

advise-IsCutoff :
    (tokens : ℕ) (c : Check) (before : BudgetVerdict)
    → ¬ IsCutoff before
    → ¬ IsCutoff (advise tokens c before)
unfolding advise
advise-IsCutoff tokens c (ok r) h (why, e) = h (why, ground arith)
advise-IsCutoff tokens c _ h (why, e) = h (why, ground arith)

Classified-cons :
    (tokens : ℕ) (c : Check) (cs : List Check) (before advised v : BudgetVerdict)
    → Fits tokens c
    → IsOk advised ↔ (IsOk before × IsCalm tokens c)
    → Classified tokens cs advised v
    → Classified tokens (c ∷ cs) before v
Classified-cons tokens c cs before advised v fit step (inl (over, k)) = inl (λ f. over f.1, k)
Classified-cons tokens c cs before advised v fit step (inr (inl (f, n, k))) =
    inr (inl ((fit, f), λ h. n (step.1 (h.0, h.1.0), h.1.1), k))
Classified-cons tokens c cs before advised v fit step (inr (inr (f, b, calm, k))) =
    inr (inr ((fit, f), (step.0 b).0, ((step.0 b).1, calm), k))

check_all-Classified :
    (tokens : ℕ) (cs : List Check) (before : BudgetVerdict)
    → ¬ IsCutoff before
    → Classified tokens cs before (check_all tokens cs before)
unfolding check_all
check_all-Classified tokens [] (ok r) h = inr (inr (tt, (r, refl), tt, (r, refl)))
check_all-Classified tokens [] (downshift r why) h = inr (inl (tt, (λ k. cc k.0.1), (r, why, refl)))
check_all-Classified tokens [] (cutoff why) h = absurd (h (why, refl))
check_all-Classified tokens (c ∷ cs) before h =
    elim (Bool-cases (ltb c.state.hard (projected c tokens))) [
      | inl over ↦ inl ((λ f. absurd (ground (arith, f.0))), (over_reason c, rw over refl))
      | inr fits ↦ rw fits (
          Classified-cons tokens c cs before (advise tokens c before) _ (ground arith)
            (advise-IsOk tokens c before)
            (check_all-Classified tokens cs (advise tokens c before)
              (advise-IsCutoff tokens c before h)))
    ]

-- A spend is cut off exactly when it would pass the hard limit of some active scope; otherwise it
-- is advised against exactly when it would pass some soft limit; otherwise it is let through.
pub check_cases :
    (m : BudgetManager) (today : String) (input : Spend)
    → let cs = checks m today input in
      let v = check m today input in
      ((¬ All (Fits input.tokens) cs) × IsCutoff v)
      ⊎ (All (Fits input.tokens) cs × (¬ All (IsCalm input.tokens) cs) × IsDownshift v)
      ⊎ (All (Fits input.tokens) cs × All (IsCalm input.tokens) cs × IsOk v)
unfolding check
check_cases m today input =
    elim (check_all-Classified input.tokens (checks m today input) (ok infinity) (λ k. cc k.1)) [
      | inl h ↦ inl h
      | inr (inl (f, n, k)) ↦ inr (inl (f, (λ calm. n ((infinity, refl), calm)), k))
      | inr (inr (f, _, calm, k)) ↦ inr (inr (f, calm, k))
    ]
