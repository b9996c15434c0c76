-- ===== src/Smc/Tests.antt =====
-- The steps of some timeouts.
use itrustee_tzdriver.Base.{ℕ, ◌+◌, ◌*◌, ◌/◌, max, ◌≡◌, refl, false, [], ◌∷◌, arith, sum}
use itrustee_tzdriver.Smc.Timeout.{
  TimeoutStep, resleep_timeout, clamped, init_timeout_step, sum-init_timeout_step, first_steps,
  last_step, step_list,
}

-- 250 jiffies to the second, rounded up.
abbrev to_jiffies : ℕ → ℕ
to_jiffies m = (m * 250 + 999) / 1000

abbrev idle_step : TimeoutStep
idle_step = record { steps = []; cur = 0; timeout_reset = false }

steps_of_100 : (init_timeout_step 250 to_jiffies 100 idle_step).steps ≡ 24 ∷ 1 ∷ 1 ∷ 1 ∷ 3723 ∷ []
unfolding init_timeout_step step_list first_steps last_step clamped
steps_of_100 = refl

sum-init_timeout_step_example :
    sum (init_timeout_step 250 to_jiffies 100 idle_step).steps
    ≡ max (resleep_timeout * 250) (to_jiffies (clamped 100) + 2)
sum-init_timeout_step_example =
    sum-init_timeout_step 250 to_jiffies 100 idle_step (omega arith) (λ m. omega arith)
      (omega arith)
