-- ===== src/Operations/Cancel/Iterations.antt =====
-- Where `run_training_iterations` stops.
use resonantia.Prelude.{
  ℕ, zero, suc, ◌+◌, Bool, true, false, ◌≡◌, ◌⊎◌, inl, inr, refl, Bool-cases, arith, ◌<◌, ◌≤◌, ◌≢◌,
}
use resonantia.Operations.Cancel.{
  TrainingResult, completed, error, cancelled, iterations, run_training_iterations,
}

-- Where the iterations from `i` to `stop` end, with which result.
pub record IsStopped (i stop : ℕ) (decisions : ℕ → TrainingResult) (complete_step : ℕ → Bool)
    (result : TrainingResult) (ran : ℕ) : Type 0 where
  pub within : (i ≤ ran) × (ran ≤ stop)
  pub before : (j : ℕ) → i ≤ j → j < ran → (decisions j ≡ completed) × (complete_step j ≡ true)
  pub last :
      ((decisions ran ≡ result) × ((result ≢ completed) ⊎ (ran ≡ stop)))
      ⊎ ((decisions ran ≡ completed)
          × (complete_step ran ≡ false)
          × (result ≡ error)
          × (ran < stop))

IsStopped-earlier :
    (i stop stop' : ℕ) (decisions : ℕ → TrainingResult) (complete_step : ℕ → Bool)
    {result : TrainingResult} {ran : ℕ}
    → decisions i ≡ completed
    → complete_step i ≡ true
    → stop ≡ stop'
    → IsStopped (i + 1) stop decisions complete_step result ran
    → IsStopped i stop' decisions complete_step result ran
IsStopped-earlier i stop stop' decisions complete_step {result} {ran} going done same s = record {
  within = (omega (arith, s.within), omega (arith, s.within));
  before = λ j a b. elim (≤-cases i j a) [
    | inl e ↦ rw (← e) (going, done)
    | inr more ↦ s.before j more b
  ];
  last = rw (← same) s.last;
}
  where
    ≤-cases : (i j : ℕ) → i ≤ j → (i ≡ j) ⊎ (i + 1 ≤ j)
    ≤-cases i j h = omega arith

iterations-IsStopped :
    (steps i : ℕ) (decisions : ℕ → TrainingResult) (complete_step : ℕ → Bool)
    → IsStopped i
        (i + steps)
        decisions
        complete_step
        (iterations steps i decisions complete_step i).0
        (iterations steps i decisions complete_step i).1
unfolding iterations
iterations-IsStopped zero i decisions complete_step = record {
  within = (omega arith, omega arith);
  before = λ j a b. absurd (omega arith);
  last = inl (refl, inr (omega arith));
}
iterations-IsStopped (suc steps) i decisions complete_step =
    elim (TrainingResult-cases (decisions i)) [
      | inl going ↦ elim (Bool-cases (complete_step i)) [
        | inl done ↦
            let rest = iterations-IsStopped steps (i + 1) decisions complete_step in
            rw (going, done, iterations)
              (IsStopped-earlier i (i + 1 + steps) (i + suc steps) decisions complete_step going
                done (omega arith) rest)
        | inr broke ↦
            rw (going, broke, iterations)
              (record {
                within = (omega arith, omega arith);
                before = λ j a b. absurd (omega arith);
                last = inr (going, broke, refl, omega arith);
              })
      ]
      | inr (inl wrong) ↦
          rw (wrong, iterations)
            (record {
              within = (omega arith, omega arith);
              before = λ j a b. absurd (omega arith);
              last = inl (wrong, inl (λ e. cc));
            })
      | inr (inr stopped) ↦
          rw (stopped, iterations)
            (record {
              within = (omega arith, omega arith);
              before = λ j a b. absurd (omega arith);
              last = inl (stopped, inl (λ e. cc));
            })
    ]
  where
    TrainingResult-cases : (t : TrainingResult) → (t ≡ completed) ⊎ (t ≡ error) ⊎ (t ≡ cancelled)
    TrainingResult-cases completed = inl refl
    TrainingResult-cases error = inr (inl refl)
    TrainingResult-cases cancelled = inr (inr refl)

-- `run_training_iterations` stops at the first iteration whose poll does not answer `completed`, with that
-- answer, or whose body fails, with `error`; if there is none it answers what the last poll says. The
-- bodies in front of it have all been run to the end.
pub run_training_iterations-IsStopped :
    (steps : ℕ) (decisions : ℕ → TrainingResult) (complete_step : ℕ → Bool)
    → IsStopped 0 steps decisions complete_step
        (run_training_iterations steps decisions complete_step).0
        (run_training_iterations steps decisions complete_step).1
unfolding run_training_iterations
run_training_iterations-IsStopped steps decisions complete_step =
    let stopped = iterations-IsStopped steps 0 decisions complete_step in
    let e : 0 + steps ≡ steps = omega arith in rw e at stopped
