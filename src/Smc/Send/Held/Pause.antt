-- ===== src/Smc/Send/Held/Pause.antt =====
-- `proc_normal_exit` of core/smc_smp.c: the slot while the CA waits.
use itrustee_tzdriver.Base.{
  ℕ, ◌≡◌, ◌≢◌, refl, inr, Bool, true, not, zero, suc, ◌-◌, ◌/◌, ◌^◌, Option, none, some, ltb, ◌==◌,
  arith, if_cases,
}
use itrustee_tzdriver.Smc.Slots.{
  Queue, clear, set_abort_cmd, clear_doing, set_in, is_cmd_working_done,
}
use itrustee_tzdriver.Smc.Timeout.{size, to_step_size}
use itrustee_tzdriver.Smc.Send.{ops_normal, sigkill_pending}
use itrustee_tzdriver.Smc.Send.Wait.{
  Ticks, Wakes, PendingT, pd_wakeup, pd_timeout, pd_done, Local, Slept, woken, tick, over, slept,
  next_step, resleep, pending_end, pending_slept, pending_step, process_abort_cmd, proc_ta_pending,
}
use itrustee_tzdriver.Smc.Send.Round.{World, Call, proc_normal_exit, SmcStatus, st_done, st_retry}
use itrustee_tzdriver.Smc.Send.Held.{Held, Again, Keeps, Quiet}

-- The queue of `proc_ta_pending` has slot `i` in use, if it is that of the command.
abbrev Slot : ℕ → ℕ → Local → Type 0
Slot i index l = index ≡ i → l.queue.in_bitmap i ≡ true

abbrev Asleep : ℕ → ℕ → ℕ → Option (Slept × Local) → Type 0
Asleep i index ops none = Unit
Asleep i index ops (some (s, l)) = Slot i index l × (l.ops ≡ ops)

resleep-Asleep :
    (i index ops : ℕ) (w : Wakes) (timer : Bool) (n : ℕ) (l : Local)
    → ((k : ℕ) → Keeps i (w.wake k).meanwhile)
    → Slot i index l
    → l.ops ≡ ops
    → Asleep i index ops (resleep w timer n l)
unfolding resleep
resleep-Asleep i index ops w timer zero l keep h e = tt
resleep-Asleep i index ops w timer (suc n) l keep h e =
    let l' = slept (w.wake l.step.cur) l in
    let on : Slot i index l' = λ same. keep l.step.cur l.queue (h same) in
    if_cases (Asleep i index ops) (not (l'.run == 0)) (on, e)
      (if_cases (Asleep i index ops) (ltb l.step.cur (size l.step - 1))
        (if_cases (Asleep i index ops) timer (on, e)
          (resleep-Asleep i index ops w timer n (next_step l') keep on e))
        (on, e))

abbrev Paused : ℕ → ℕ → ℕ → PendingT × Local → Type 0
Paused i index ops (pd_done, l) = Slot i index l × (l.ops ≡ ops)
Paused i index ops (pd_wakeup, l) = Slot i index l × (l.ops ≢ ops_normal)
Paused i index ops (pd_timeout, l) = Slot i index l × (l.ops ≢ ops_normal)

pending_end-Paused :
    (i index ops : ℕ) (l : Local)
    → Slot i index l
    → l.ops ≡ ops
    → Paused i index ops (pending_end index l)
unfolding pending_end
pending_end-Paused i index ops l h e =
    if_cases (Paused i index ops) (not (is_cmd_working_done index l.queue)) (h, ground arith) (h, e)

pub process_abort_cmd-Aborted :
    (i index : ℕ) (q : Queue)
    → (index ≡ i → q.in_bitmap i ≡ true)
    → (index ≡ i → (process_abort_cmd index q).1.in_bitmap i ≡ true)
      × ((process_abort_cmd index q).0 ≢ ops_normal)
unfolding process_abort_cmd set_abort_cmd clear_doing set_in
process_abort_cmd-Aborted i index q h = ground (arith, h)

pending_slept-Paused :
    (i index ops : ℕ) (w : Wakes) (r : Slept × Local)
    → Asleep i index ops (some r)
    → Paused i index ops (pending_slept w index r)
unfolding pending_slept
pending_slept-Paused i index ops w (woken, l) (h, e) = pending_end-Paused i index ops l h e
pending_slept-Paused i index ops w (tick, l) (h, e) = (h, ground arith)
pending_slept-Paused i index ops w (over, l) (h, e) =
    if_cases (Paused i index ops) (sigkill_pending (some w.signals))
      (process_abort_cmd-Aborted i index l.queue h) (pending_end-Paused i index ops l h e)

abbrev OptionPaused : ℕ → ℕ → ℕ → Option (PendingT × Local) → Type 0
OptionPaused i index ops none = Unit
OptionPaused i index ops (some r) = Paused i index ops r

proc_ta_pending-Paused :
    (i index : ℕ) (t : Ticks) (w : Wakes) (args : ℕ) (l : Local)
    → ((k : ℕ) → Keeps i (w.wake k).meanwhile)
    → Slot i index l
    → OptionPaused i index l.ops (proc_ta_pending t w args index l)
unfolding proc_ta_pending
proc_ta_pending-Paused i index t w args l keep h =
    if_cases (OptionPaused i index l.ops) (not w.user)
      (pending_end-Paused i index l.ops (slept (w.wake 0) l) (λ e. keep 0 l.queue (h e)) refl)
      (go (resleep w (not (args / 2 ^ 32 == 0)) to_step_size c)
        (resleep-Asleep i index l.ops w (not (args / 2 ^ 32 == 0)) to_step_size c keep h refl))
  where
    c : Local
    c = record l { step = pending_step t args l.step }

    go :
        (r : Option (Slept × Local))
        → Asleep i index l.ops r
        → OptionPaused i index l.ops
            (elim r [ none ↦ none | some r' ↦ some (pending_slept w index r') ])
    go none a = tt
    go (some r) a = pending_slept-Paused i index l.ops w r a

abbrev pub NormalExit : ℕ → Option (SmcStatus × Call) → Type 0
NormalExit i none = Unit
NormalExit i (some (st_retry, c)) = Again i c
NormalExit i (some (st_done, c)) = Held i c × (c.info.saved_index ≡ c.info.cmd_index)

pub proc_normal_exit-NormalExit :
    (i : ℕ) (t : Ticks) (w : World) (c : Call)
    → Quiet i w
    → Held i c
    → c.info.saved_index ≡ c.info.cmd_index
    → c.info.cmd_usage ≡ clear
    → NormalExit i (proc_normal_exit t w c)
unfolding proc_normal_exit
proc_normal_exit-NormalExit i t w c v h e u =
    go (proc_ta_pending t w.wakes c.cmd_ret.ta c.info.cmd_index l)
      (proc_ta_pending-Paused i c.info.cmd_index t w.wakes c.cmd_ret.ta l v.wake h)
  where
    l : Local
    l = record { ops = c.ops; step = c.step; queue = c.queue; run = c.run }

    go :
        (r : Option (PendingT × Local))
        → OptionPaused i c.info.cmd_index c.ops r
        → NormalExit i (elim r [
          | none ↦ none
          | some (pd, l) ↦
              let c' = record c { ops = l.ops; step = l.step; queue = l.queue; run = l.run } in
              elim pd [
                | pd_done ↦ some (st_done, c')
                | pd_wakeup ↦
                    some (st_retry, record c' { step = record l.step { timeout_reset = true } })
                | pd_timeout ↦ some (st_retry, c')
              ]
        ])
    go none a = tt
    go (some (pd_done, l')) (a, b) = (a, e)
    go (some (pd_wakeup, l')) (a, b) = (a, e, inr (b, u))
    go (some (pd_timeout, l')) (a, b) = (a, e, inr (b, u))
