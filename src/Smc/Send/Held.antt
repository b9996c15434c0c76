-- ===== src/Smc/Send/Held.antt =====
-- `smp_smc_send_func` of core/smc_smp.c: the slot of a command while it is sent, and afterwards.
pub mod Answer
pub mod Pause
pub mod Loop
pub mod Answered
use itrustee_tzdriver.Base.{
  ℕ, ◌≡◌, ◌≢◌, refl, ap, ◌⊎◌, inl, inr, Bool, true, false, ◌&&◌, ◌||◌, not, ◌++◌, zero, suc, ◌-◌,
  ◌/◌, ◌%◌, ◌^◌, Option, none, some, List, [], ◌∷◌, ltb, ◌==◌, if◌then◌else◌, arith, if_cases,
  if_cases_of,
}
use itrustee_tzdriver.Base.Errno.{Code, success, fail}
use itrustee_tzdriver.Base.Update.{update}
use itrustee_tzdriver.Smc.Cmd.{Cmd, teec_pending, teec_pending2}
use itrustee_tzdriver.Smc.Slots.{
  Queue, Calls, CmdReuse, clear, resend, occupy_free_smc_in_entry, reuse_smc_in_entry,
  copy_smc_out_entry, release_smc_entry, take_out, occupy_clean_in_doing_entry, set_abort_cmd,
  clear_doing, set_in, is_cmd_working_done,
}
use itrustee_tzdriver.Smc.Timeout.{size}
use itrustee_tzdriver.Smc.Send.{ops_normal, ops_schedto, sigkill_pending}
use itrustee_tzdriver.Smc.Send.Wait.{
  Ticks, Wakes, PendingT, pd_wakeup, pd_timeout, pd_done, Local, Slept, woken, tick, over, slept,
  next_step, resleep, pending_end, pending_slept, pending_step, process_abort_cmd, proc_ta_pending,
}
use itrustee_tzdriver.Smc.Send.Round.{
  World, Call, Turn, retry, clean, not_sent, waiting, turn_done, clean_smc_resrc,
  handle_cmd_working_done, answer_status, smp_smc_send_cmd_done, cmd_result_check,
  teec_error_generic, minus_one, with_ret_val, tee_error_taget_dead, Crash, type_crash_ta,
  SmcStatus, st_done, st_retry,
}

-- The slot `i`, if it is the command's, is in use.
abbrev pub Held : ℕ → Call → Type 0
Held i c = c.info.cmd_index ≡ i → c.queue.in_bitmap i ≡ true

-- What holds of slot `i`, if it is the command's, when the function returns `ret`: a pending command
-- keeps it, an answered one has given it back.
abbrev pub Final : ℕ → ℕ → Call → Type 0
Final i ret c =
    c.info.cmd_index ≡ i
    → ((ret ≡ teec_pending → c.queue.in_bitmap i ≡ true)
        × (ret ≢ teec_pending
            → ret ≢ teec_error_generic
            → ret ≢ minus_one
            → c.queue.in_bitmap i ≡ false))

-- At `retry`, after the first turn.
abbrev pub Again : ℕ → Call → Type 0
Again i c =
    Held i c
    × (c.info.saved_index ≡ c.info.cmd_index)
    × (((c.ops ≡ ops_normal) × (c.info.cmd_usage ≡ resend))
        ⊎ ((c.ops ≢ ops_normal) × (c.info.cmd_usage ≡ clear)))

abbrev pub TurnFinal : ℕ → Turn → Type 0
TurnFinal i (retry c) = Again i c
TurnFinal i (clean c) = Final i c.cmd.ret_val (clean_smc_resrc c)
TurnFinal i (not_sent c) = Unit
TurnFinal i waiting = Unit

-- What the others do in one turn leaves the slot in use.
abbrev pub Keeps : ℕ → (Queue → Queue) → Type 0
Keeps i f = (q : Queue) → q.in_bitmap i ≡ true → (f q).in_bitmap i ≡ true

pub record Quiet (i : ℕ) (w : World) : Type 0 where
  pub tee : Keeps i w.tee
  pub wake : (k : ℕ) → Keeps i (w.wakes.wake k).meanwhile
  pub agent : Keeps i w.agent
