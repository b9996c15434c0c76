-- ===== src/Smc/Timeout.antt =====
-- core/smc_smp.c, `init_timeout_step` and `set_timeout_step`: the steps in which a CA waits.
-- `HZ` and the kernel's `msecs_to_jiffies` are arguments.
use itrustee_tzdriver.Base.{
  ℕ, ◌+◌, ◌-◌, ◌*◌, ◌%◌, ◌^◌, ◌≢◌, ◌≤◌, ◌<◌, max, ◌≡◌, ap, Bool, false, List, [], ◌∷◌, ◌++◌, length,
  sum, arith, ltb, ◌==◌, if◌then◌else◌,
}

-- Seconds.
abbrev pub resleep_timeout : ℕ
resleep_timeout = 15

abbrev pub to_step_size : ℕ
to_step_size = 5

abbrev pub msec_per_sec : ℕ
msec_per_sec = 1000

abbrev pub invalid_step_size : ℕ
invalid_step_size = 0xFFFFFFFF

-- `steps` holds the `size` entries in use.
pub record TimeoutStep : Type 0 where
  pub steps : List ℕ
  pub cur : ℕ
  pub timeout_reset : Bool

abbrev pub size : TimeoutStep → ℕ
size s = length s.steps

-- The least of the timeout and the full waiting time, in milliseconds.
unfoldable pub clamped : ℕ → ℕ
clamped timeout =
    if ltb (resleep_timeout * msec_per_sec) timeout then resleep_timeout * msec_per_sec else timeout

-- The first entries, one or two.
unfoldable pub first_steps : ℕ → List ℕ
first_steps t = if ltb 1 t then (t - 1) ∷ 1 ∷ [] else t ∷ []

-- The last entry, if the others do not reach the full waiting time.
unfoldable pub last_step : ℕ → ℕ → List ℕ
last_step hz t =
    if ltb ((t + 2) % 2 ^ 32) (resleep_timeout * hz)
    then (resleep_timeout * hz - 2 - t) ∷ []
    else []

-- The array's entries in use, in order, for `timeout_in_jiffies`, a `uint32_t`.
unfoldable pub step_list : ℕ → ℕ → List ℕ
unfolding first_steps last_step
step_list hz timeout_in_jiffies =
    first_steps timeout_in_jiffies ++ ((1 ∷ 1 ∷ []) ++ last_step hz timeout_in_jiffies)

unfoldable pub init_timeout_step : ℕ → (ℕ → ℕ) → ℕ → TimeoutStep → TimeoutStep
unfolding step_list clamped
init_timeout_step hz msecs_to_jiffies timeout s =
    if timeout == 0
    then record s { steps = (resleep_timeout * hz) ∷ []; cur = 0 }
    else record s { steps = step_list hz (msecs_to_jiffies (clamped timeout) % 2 ^ 32); cur = 0 }

unfoldable pub set_timeout_step : TimeoutStep → TimeoutStep
set_timeout_step s =
    if s.timeout_reset then record s { cur = invalid_step_size; timeout_reset = false } else s

-- The steps fit the array, there is at least one, and the first is the current one.
pub size-init_timeout_step :
    (hz : ℕ) (msecs_to_jiffies : ℕ → ℕ) (timeout : ℕ) (s : TimeoutStep)
    → let s' = init_timeout_step hz msecs_to_jiffies timeout s in
      (size s' ≤ to_step_size) × (s'.cur < size s')
unfolding init_timeout_step step_list first_steps last_step
size-init_timeout_step hz msecs_to_jiffies timeout s = ground arith

-- For a TEE timeout of `t` jiffies.
sum-step_list :
    (hz t : ℕ) → t + 2 < 2 ^ 32 → sum (step_list hz t) ≡ max (resleep_timeout * hz) (t + 2)
unfolding step_list first_steps last_step
sum-step_list hz t h = ground arith

clamped-le : (timeout : ℕ) → clamped timeout ≤ 15000
unfolding clamped
clamped-le timeout = ground arith

-- The TEE's timeout in jiffies stays far below 32 bits.
jiffies_small :
    (hz : ℕ) (msecs_to_jiffies : ℕ → ℕ) (timeout : ℕ)
    → hz ≤ 1000
    → ((m : ℕ) → msecs_to_jiffies m * 1000 ≤ m * hz + 999)
    → msecs_to_jiffies (clamped timeout) + 2 < 2 ^ 32
jiffies_small hz msecs_to_jiffies timeout few rounds =
    omega (arith, rounds (clamped timeout), few, ap (λ t. t * hz) room)
  where
    room : 15000 ≡ clamped timeout + (15000 - clamped timeout)
    room = omega (arith, clamped-le timeout)

-- When `msecs_to_jiffies` rounds up and there are at most 1000 jiffies to the second, the waits of a
-- timeout that is not 0 add up to the full waiting time, or to two jiffies past the TEE's own timeout where that is later.
pub sum-init_timeout_step :
    (hz : ℕ) (msecs_to_jiffies : ℕ → ℕ) (timeout : ℕ) (s : TimeoutStep)
    → hz ≤ 1000
    → ((m : ℕ) → msecs_to_jiffies m * 1000 ≤ m * hz + 999)
    → timeout ≢ 0
    → sum (init_timeout_step hz msecs_to_jiffies timeout s).steps
      ≡ max (resleep_timeout * hz) (msecs_to_jiffies (clamped timeout) + 2)
unfolding init_timeout_step
sum-init_timeout_step hz msecs_to_jiffies timeout s few rounds ne =
    let small = jiffies_small hz msecs_to_jiffies timeout few rounds in
    rw (zero_timeout, fits small) (sum-step_list hz (msecs_to_jiffies (clamped timeout)) small)
  where
    zero_timeout : (timeout == 0) ≡ false
    zero_timeout = ground arith

    fits :
        msecs_to_jiffies (clamped timeout) + 2 < 2 ^ 32
        → msecs_to_jiffies (clamped timeout) % 2 ^ 32 ≡ msecs_to_jiffies (clamped timeout)
    fits h = omega arith
