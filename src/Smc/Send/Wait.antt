-- ===== src/Smc/Send/Wait.antt =====
-- core/smc_smp.c, `proc_ta_pending` and `process_abort_cmd`: a CA whose task waits in the TEE.
pub mod Ends
use itrustee_tzdriver.Base.{
  ℕ, zero, suc, ◌+◌, ◌-◌, ◌/◌, ◌%◌, ◌^◌, Bool, true, false, not, Option, none, some, List, [], ◌∷◌,
  ltb, ◌==◌, if◌then◌else◌,
}
use itrustee_tzdriver.Smc.Slots.{Queue, is_cmd_working_done, set_abort_cmd}
use itrustee_tzdriver.Smc.Timeout.{
  TimeoutStep, size, to_step_size, invalid_step_size, init_timeout_step,
}
use itrustee_tzdriver.Smc.Send.{Signals, sigkill_pending, ops_schedto, ops_abort_task}

-- `HZ`, and the kernel's conversion of milliseconds.
pub record Ticks : Type 0 where
  pub hz : ℕ
  pub msecs_to_jiffies : ℕ → ℕ

-- One wait: the `run` of the thread's entry when it ends, and what the TEE and the other CAs have done
-- to the queue. `wait_event_timeout` gives 0 exactly when `run` is still 0.
pub record Wake : Type 0 where
  pub run : ℕ
  pub meanwhile : Queue → Queue

-- The waits of one `proc_ta_pending`, by the step they wait for; `user` says that `mm` is not NULL, and
-- the signals are those at the end.
pub record Wakes : Type 0 where
  pub user : Bool
  pub wake : ℕ → Wake
  pub signals : Signals

-- `PD_RETRY` is not used.
pub data PendingT : Type 0 where
  pd_wakeup pd_timeout pd_done : PendingT

-- What `proc_ta_pending` works on: `run` is that of the thread's entry.
pub record Local : Type 0 where
  pub ops : ℕ
  pub step : TimeoutStep
  pub queue : Queue
  pub run : ℕ

unfoldable pub process_abort_cmd : ℕ → Queue → ℕ × Queue
process_abort_cmd index q =
    let (done, q') = set_abort_cmd index q in
    if done then (ops_abort_task, q') else (ops_schedto, q')

-- How the waiting ended: woken up, a step over while the TEE needs a tick, or the last step over.
pub data Slept : Type 0 where
  woken tick over : Slept

abbrev pub slept : Wake → Local → Local
slept w c = record c { queue = w.meanwhile c.queue; run = w.run }

abbrev pub next_step : Local → Local
next_step c = record c { step = record c.step { cur = c.step.cur + 1 } }

-- The loop from `resleep` on; without fuel it has not ended.
unfoldable pub resleep : Wakes → Bool → ℕ → Local → Option (Slept × Local)
resleep w timer_no_irq zero c = none
resleep w timer_no_irq (suc n) c =
    let c' = slept (w.wake c.step.cur) c in
    let rest = resleep w timer_no_irq n (next_step c') in
    if not (c'.run == 0)
    then some (woken, c')
    else if ltb c.step.cur (size c.step - 1)
    then (if timer_no_irq then some (tick, next_step c') else rest)
    else some (over, c')

-- From `atomic_set` on.
unfoldable pub pending_end : ℕ → Local → PendingT × Local
pending_end cmd_index c =
    let c' = record c { run = 0 } in
    if not (is_cmd_working_done cmd_index c.queue)
    then (pd_wakeup, record c' { ops = ops_schedto })
    else (pd_done, c')

unfoldable pub pending_slept : Wakes → ℕ → Slept × Local → PendingT × Local
pending_slept w cmd_index (woken, c) = pending_end cmd_index c
pending_slept w cmd_index (tick, c) = (pd_timeout, record c { ops = ops_schedto })
pending_slept w cmd_index (over, c) =
    let (ops, q) = process_abort_cmd cmd_index c.queue in
    if sigkill_pending (some w.signals)
    then (pd_wakeup, record c { ops = ops; queue = q })
    else pending_end cmd_index c

-- The steps before the wait: those of the timeout that the TEE asks for, if none are under way.
unfoldable pub pending_step : Ticks → ℕ → TimeoutStep → TimeoutStep
pending_step t pending_args s =
    if s.cur == invalid_step_size
    then init_timeout_step t.hz t.msecs_to_jiffies (pending_args % 2 ^ 32) s
    else s

-- `none` is that the function has not returned.
unfoldable pub proc_ta_pending : Ticks → Wakes → ℕ → ℕ → Local → Option (PendingT × Local)
proc_ta_pending t w pending_args cmd_index c =
    let c' = record c { step = pending_step t pending_args c.step } in
    if not w.user
    then some (pending_end cmd_index (slept (w.wake 0) c))
    else elim (resleep w (not (pending_args / 2 ^ 32 == 0)) to_step_size c') [
      | none ↦ none
      | some r ↦ some (pending_slept w cmd_index r)
    ]
