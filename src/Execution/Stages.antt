-- ===== src/Execution/Stages.antt =====
-- The stages that `compactStages` of engines/k6/lib/execution.js leaves.
use p_loadtesting.Prelude.{
  String, subst, ◌≡◌, ◌≢◌, ◌⊎◌, true, ◌||◌, List, [], ◌∷◌, arith, eq_iff, All,
}
use p_loadtesting.Js.Number.{JsNumber}
use p_loadtesting.Options.{Stage, ramping_vus}
use p_loadtesting.Execution.{seconds, compact_stages, Reading, scenario_of}
use p_loadtesting.Execution.Laws.{seconds-is-0s}

module _ {Num : Type 0} ⦃num : JsNumber Num⦄ where
  -- What holds of the stages of every ramping scenario.
  pub record IsRamp (r : Reading Num) (stages : List (Stage Num)) : Type 0 where
    pub no_empty_stage : All (λ s. s.duration ≢ "0s") stages
    pub some_stage : stages ≢ []
    pub targets : All (λ s. (s.target ≡ r.vus) ⊎ (s.target ≡ num.of_ℕ 0)) stages

  ramp : Reading Num → List (Stage Num)
  ramp r = compact_stages (
      record { duration = seconds r.ramp_up; target = r.vus }
      ∷ record { duration = seconds r.duration; target = r.vus }
      ∷ record { duration = seconds r.ramp_down; target = num.of_ℕ 0 }
      ∷ [])

  ramp-IsRamp :
      (r : Reading Num)
      → (num.lt (num.of_ℕ 0) r.ramp_up || num.lt (num.of_ℕ 0) r.ramp_down) ≡ true
      → IsRamp r (ramp r)
  unfolding ramp compact_stages
  ramp-IsRamp r h = ground (
    arith,
    seconds-is-0s r.ramp_up,
    seconds-is-0s r.ramp_down,
    num.ne_of_lt (num.of_ℕ 0) r.ramp_up,
    num.ne_of_lt (num.of_ℕ 0) r.ramp_down,
    eq_iff (seconds r.ramp_up) "0s",
    eq_iff (seconds r.duration) "0s",
    eq_iff (seconds r.ramp_down) "0s",
  )

  ramping_inversion :
      (r : Reading Num) (stages : List (Stage Num)) (graceful_stop : String)
      → scenario_of r ≡ ramping_vus stages graceful_stop
      → ((num.lt (num.of_ℕ 0) r.ramp_up || num.lt (num.of_ℕ 0) r.ramp_down) ≡ true)
        × (ramp r ≡ stages)
  unfolding scenario_of ramp
  ramping_inversion r stages graceful_stop e = ground arith

  -- Whatever the settings, the stages of a ramping scenario are none of them zero seconds long,
  -- there is at least one, and each aims at the script's virtual users or at none.
  pub scenario_of-IsRamp :
      (r : Reading Num) (stages : List (Stage Num)) (graceful_stop : String)
      → scenario_of r ≡ ramping_vus stages graceful_stop
      → IsRamp r stages
  scenario_of-IsRamp r stages graceful_stop e =
      let (ramps, same) = ramping_inversion r stages graceful_stop e in
      subst (IsRamp r) same (ramp-IsRamp r ramps)
