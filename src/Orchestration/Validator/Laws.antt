-- ===== src/Orchestration/Validator/Laws.antt =====
-- A validation runs the cheaper steps first and stops at the first that fails or throws.
use mathlib.Core.List.{Perm, append_assoc, append-nil}
use harp_ochestration.Prelude.{
  Bool, true, false, List, [], ◌∷◌, ◌++◌, none, some, map, ◌≡◌, refl, ap, subst, All, arith,
  if◌then◌else◌,
}
use harp_ochestration.Prelude.Sort.{sort_by-perm, sort_by-IsSorted, IsSorted}
use harp_ochestration.Core.Errors.{HarpError, Result, ok, err}
use harp_ochestration.Orchestration.Validator.{
  ValidationOutcome, ValidationStep, RanStep, ValidationReport, entry_of, no_dearer, ordered,
  after_step, run_from, run,
}

module _ {W : Type 0} where
  -- The steps run one after another, each on the world that the one before it has left, every one
  -- of them with an outcome: the outcomes in order, and the world in the end.
  pub data Runs : List (ValidationStep W) → W → List RanStep → W → Type 0 where
    nothing : {w : W} → Runs [] w [] w
    next :
        {s : ValidationStep W} {ss : List (ValidationStep W)} {w v u : W} {o : ValidationOutcome}
        {os : List RanStep}
        → s.run w ≡ (ok o, v)
        → Runs ss v os u
        → Runs (s ∷ ss) w (entry_of s o ∷ os) u

  -- What a run comes to on the steps in the order in which they are tried, `before` having run.
  pub data Ends (before : List RanStep) (steps : List (ValidationStep W)) (w : W)
      : Result ValidationReport × W → Type 0 where
    -- All have run and passed.
    passes :
        {ran : List RanStep} {u : W}
        → Runs steps w ran u
        → All (λ r. r.passed ≡ true) ran
        → Ends before steps w (
          ok (record { passed = true; ran_steps = before ++ ran; skipped = []; halted_at = none }),
          u,
        )
    -- Those of `good` have run and passed, `bad` has run and failed, and none of `later` has run.
    halts :
        (good : List (ValidationStep W)) (bad : ValidationStep W) (later : List (ValidationStep W))
        {ran : List RanStep} {v u : W} (o : ValidationOutcome)
        → steps ≡ good ++ bad ∷ later
        → Runs good w ran v
        → All (λ r. r.passed ≡ true) ran
        → bad.run v ≡ (ok o, u)
        → o.passed ≡ false
        → Ends before steps w (
          ok (record {
            passed = false;
            ran_steps = before ++ (ran ++ entry_of bad o ∷ []);
            skipped = map (λ s. s.name) later;
            halted_at = some bad.name;
          }),
          u,
        )
    -- Those of `good` have run and passed, `bad` has thrown, and none of `later` has run.
    rejects :
        (good : List (ValidationStep W)) (bad : ValidationStep W) (later : List (ValidationStep W))
        {ran : List RanStep} {v u : W} (e : HarpError)
        → steps ≡ good ++ bad ∷ later
        → Runs good w ran v
        → All (λ r. r.passed ≡ true) ran
        → bad.run v ≡ (err e, u)
        → Ends before steps w (err e, u)

  Ends-cons :
      (before : List RanStep) (s : ValidationStep W) (ss : List (ValidationStep W)) (w v : W)
      (o : ValidationOutcome) (r : Result ValidationReport × W)
      → s.run w ≡ (ok o, v)
      → o.passed ≡ true
      → Ends (before ++ entry_of s o ∷ []) ss v r
      → Ends before (s ∷ ss) w r
  Ends-cons before s ss w v o r h p (passes {ran} {u} runs all) =
      rw (append_assoc before (entry_of s o ∷ []) ran) (passes (next h runs) (p, all))
  Ends-cons before s ss w v o r h p (halts good bad later {ran} o' split runs all b f) =
      rw (append_assoc before (entry_of s o ∷ []) (ran ++ entry_of bad o' ∷ []))
        (halts (s ∷ good) bad later o' (ap (◌∷◌ s) split) (next h runs) (p, all) b f)
  Ends-cons before s ss w v o r h p (rejects good bad later e split runs all b) =
      rejects (s ∷ good) bad later e (ap (◌∷◌ s) split) (next h runs) (p, all) b

  either-Ends :
      (before : List RanStep) (steps : List (ValidationStep W)) (w : W) (b : Bool)
      (x y : Result ValidationReport × W)
      → (b ≡ true → Ends before steps w x)
      → (b ≡ false → Ends before steps w y)
      → Ends before steps w (if b then x else y)
  either-Ends before steps w true x y h k = h refl
  either-Ends before steps w false x y h k = k refl

  after_step-Ends :
      (before : List RanStep) (s : ValidationStep W) (ss : List (ValidationStep W)) (w : W)
      (x : Result ValidationOutcome) (v : W) (rest : List RanStep → Result ValidationReport × W)
      → s.run w ≡ (x, v)
      → ((ran : List RanStep) → Ends ran ss v (rest ran))
      → Ends before (s ∷ ss) w (after_step x before s ss v rest)
  unfolding after_step
  after_step-Ends before s ss w (err e) v rest h k = rejects [] s ss e refl nothing tt h
  after_step-Ends before s ss w (ok o) v rest h k =
      either-Ends before (s ∷ ss) w o.passed _ _
        (λ t. Ends-cons before s ss w v o _ h t (k (before ++ entry_of s o ∷ [])))
        (λ f. halts [] s ss o refl nothing tt h f)

  run_from-Ends :
      (before : List RanStep) (steps : List (ValidationStep W)) (w : W)
      → Ends before steps w (run_from before steps w)
  unfolding run_from
  run_from-Ends before [] w =
      subst
        (λ l.
          Ends before [] w
            (ok (record { passed = true; ran_steps = l; skipped = []; halted_at = none }), w))
        (append-nil before) (passes nothing tt)
  run_from-Ends before (s ∷ ss) w =
      after_step-Ends before s ss w (s.run w).0 (s.run w).1 _ refl
        (λ ran. run_from-Ends ran ss (s.run w).1)

  -- A run passes every step, or stops at a first step that fails or throws: the steps before it have
  -- run and passed and those behind it have not run. One that fails is the one reported, and those
  -- behind it are listed as skipped; what one throws is what the run rejects with. The world is the
  -- one that the steps that ran have left, and the order is that of the cost.
  pub run-Ends :
      (steps : List (ValidationStep W)) (w : W)
      → Ends [] (ordered steps) w (run steps w)
        × Perm (ordered steps) steps
        × IsSorted no_dearer (ordered steps)
  unfolding run ordered
  run-Ends steps w = (
    run_from-Ends [] (ordered steps) w,
    sort_by-perm no_dearer steps,
    sort_by-IsSorted no_dearer (λ a b h. ground arith) (λ a b c h k. ground arith) steps,
  )
