-- ===== src/Smc/Send/Wait/Ends.antt =====
-- `proc_ta_pending` of core/smc_smp.c: it ends, and the reasons for which it does.
use itrustee_tzdriver.Base.{
  ℕ, zero, suc, ◌+◌, ◌-◌, ◌/◌, ◌%◌, ◌^◌, ◌≤◌, ◌<◌, ◌≡◌, refl, ◌⊎◌, inl, inr, Bool, true, false, not,
  Option, none, some, ltb, ◌==◌, if_cases, if_cases_of, arith,
}
use itrustee_tzdriver.Smc.Slots.{Queue, is_cmd_working_done}
use itrustee_tzdriver.Smc.Timeout.{
  TimeoutStep, size, to_step_size, invalid_step_size, size-init_timeout_step,
}
use itrustee_tzdriver.Smc.Send.{sigkill_pending, ops_schedto, ops_abort_task}
use itrustee_tzdriver.Smc.Send.Wait.{
  Ticks, Wakes, PendingT, pd_wakeup, pd_timeout, pd_done, Local, Slept, woken, tick, over, slept,
  next_step, resleep, pending_end, pending_slept, pending_step, process_abort_cmd, proc_ta_pending,
}

-- The current step is in the array.
abbrev pub InSteps : TimeoutStep → Type 0
InSteps s = (s.cur < size s) × (size s ≤ to_step_size)

-- The steps are not set up yet, or the current one is in the array.
abbrev pub Usable : TimeoutStep → Type 0
Usable s = (s.cur ≡ invalid_step_size) ⊎ InSteps s

abbrev Rested : Option (Slept × Local) → Type 0
Rested none = ⊥
Rested (some (s, l)) = InSteps l.step

resleep-Rested :
    (w : Wakes) (timer : Bool) (n : ℕ) (l : Local)
    → InSteps l.step
    → size l.step ≤ n + l.step.cur
    → Rested (resleep w timer n l)
unfolding resleep
resleep-Rested w timer zero l h le = absurd (omega (arith, h, le))
resleep-Rested w timer (suc n) l (lt, most) le =
    if_cases Rested (not ((w.wake l.step.cur).run == 0)) (lt, most)
      (if_cases_of Rested (ltb l.step.cur (size l.step - 1))
        (λ t.
          if_cases Rested timer (ground (arith, t), most)
            (resleep-Rested w timer n (next_step (slept (w.wake l.step.cur) l))
              (ground (arith, t), most) (omega (arith, le))))
        (λ t. (lt, most)))

-- Why it ended: the TEE has answered; the TEE is to be entered again, or told to kill the task; the
-- TEE needs a tick.
abbrev pub Ended : ℕ → Option (PendingT × Local) → Type 0
Ended index none = ⊥
Ended index (some (pd_done, l)) =
    Usable l.step × (is_cmd_working_done index l.queue ≡ true) × (l.run ≡ 0)
Ended index (some (pd_wakeup, l)) =
    Usable l.step × ((l.ops ≡ ops_schedto) ⊎ (l.ops ≡ ops_abort_task))
Ended index (some (pd_timeout, l)) = Usable l.step × (l.ops ≡ ops_schedto)

pending_end-Ended :
    (index : ℕ) (l : Local) → Usable l.step → Ended index (some (pending_end index l))
unfolding pending_end
pending_end-Ended index l u =
    if_cases_of (λ r. Ended index (some r)) (not (is_cmd_working_done index l.queue))
      (λ t. (u, inl refl)) (λ t. (u, ground (arith, t), refl))

process_abort_cmd-ops :
    (index : ℕ) (q : Queue)
    → ((process_abort_cmd index q).0 ≡ ops_schedto)
      ⊎ ((process_abort_cmd index q).0 ≡ ops_abort_task)
unfolding process_abort_cmd
process_abort_cmd-ops index q = ground arith

pending_slept-Ended :
    (index : ℕ) (w : Wakes) (r : Slept × Local)
    → InSteps r.1.step
    → Ended index (some (pending_slept w index r))
unfolding pending_slept
pending_slept-Ended index w (woken, l) h = pending_end-Ended index l (inr h)
pending_slept-Ended index w (tick, l) h = (inr h, refl)
pending_slept-Ended index w (over, l) h =
    if_cases (λ r. Ended index (some r)) (sigkill_pending (some w.signals))
      (inr h, process_abort_cmd-ops index l.queue) (pending_end-Ended index l (inr h))

pending_step-InSteps :
    (t : Ticks) (args : ℕ) (s : TimeoutStep) → Usable s → InSteps (pending_step t args s)
unfolding pending_step
pending_step-InSteps t args s u =
    let (most, lt) = size-init_timeout_step t.hz t.msecs_to_jiffies (args % 2 ^ 32) s in
    if_cases_of InSteps (s.cur == invalid_step_size) (λ e. (lt, most)) (λ e. valid u e)
  where
    valid : Usable s → (s.cur == invalid_step_size) ≡ false → InSteps s
    valid (inl i) e = absurd (ground (arith, i, e))
    valid (inr h) e = h

-- When the steps are not set up yet or the current one is in the array, `proc_ta_pending` ends
-- within as many waits as its fuel, the size of the array, allows, and leaves the steps so. It is done only when the
-- answer is there, and otherwise has the TEE entered again or told to kill the task.
pub proc_ta_pending-Ended :
    (t : Ticks) (w : Wakes) (args index : ℕ) (l : Local)
    → Usable l.step
    → Ended index (proc_ta_pending t w args index l)
unfolding proc_ta_pending
proc_ta_pending-Ended t w args index l u =
    if_cases (Ended index) (not w.user) (pending_end-Ended index (slept (w.wake 0) l) u) (
      go (resleep w (not (args / 2 ^ 32 == 0)) to_step_size c)
        (resleep-Rested w (not (args / 2 ^ 32 == 0)) to_step_size c steps (omega (arith, steps))))
  where
    c : Local
    c = record l { step = pending_step t args l.step }

    steps : InSteps c.step
    steps = pending_step-InSteps t args l.step u

    go :
        (r : Option (Slept × Local))
        → Rested r
        → Ended index (elim r [ none ↦ none | some r' ↦ some (pending_slept w index r') ])
    go none a = absurd a
    go (some r) a = pending_slept-Ended index w r a
