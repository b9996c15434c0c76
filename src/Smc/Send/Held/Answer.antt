-- ===== src/Smc/Send/Held/Answer.antt =====
-- `handle_cmd_working_done` of core/smc_smp.c: the slot when the answer is there.
use itrustee_tzdriver.Base.{
  ℕ, ◌≡◌, ◌≢◌, refl, ap, ◌⊎◌, inl, inr, Bool, true, false, ◌&&◌, ◌||◌, not, ◌++◌, Option, none,
  some, [], ◌∷◌, ◌==◌, if◌then◌else◌, arith, if_cases, if_cases_of,
}
use itrustee_tzdriver.Base.Errno.{Code, success}
use itrustee_tzdriver.Smc.Cmd.{Cmd, teec_pending, teec_pending2}
use itrustee_tzdriver.Smc.Slots.{
  Queue, Calls, CmdReuse, clear, resend, copy_smc_out_entry, release_smc_entry, take_out,
  occupy_clean_in_doing_entry,
}
use itrustee_tzdriver.Smc.Send.{ops_normal}
use itrustee_tzdriver.Smc.Send.Round.{
  World, Call, turn_done, clean_smc_resrc, handle_cmd_working_done, answer_status, take_answer,
  smp_smc_send_cmd_done, cmd_result_check, teec_error_generic, minus_one, tee_error_taget_dead,
  type_crash_ta, st_done, st_retry,
}
use itrustee_tzdriver.Smc.Send.Held.{Held, TurnFinal, Quiet}

-- The answer is in `cmd`: the slot stays in use for another round, or is given back.
abbrev Copied : ℕ → Call → Type 0
Copied i c =
    ((c.info.cmd_usage ≡ resend)
      × Held i c
      × ((c.cmd.ret_val ≡ teec_pending) ⊎ (c.cmd.ret_val ≡ teec_pending2)))
    ⊎ ((c.info.cmd_usage ≡ clear)
        × (c.info.cmd_index ≡ i → c.queue.in_bitmap i ≡ false)
        × (c.cmd.ret_val ≢ teec_pending)
        × (c.cmd.ret_val ≢ teec_pending2))

abbrev Checked : Call → Call → Type 0
Checked c c' =
    (c'.info ≡ c.info)
    × (c'.queue ≡ c.queue)
    × ((c'.cmd.ret_val ≡ c.cmd.ret_val)
        ⊎ ((c.cmd.ret_val ≡ 0) × (c'.cmd.ret_val ≡ teec_error_generic)))

cmd_result_check-Checked : (w : World) (c : Call) → Checked c (cmd_result_check w c)
unfolding cmd_result_check
cmd_result_check-Checked w c =
    if_cases_of
      (λ (c' : Call). Checked c (
        if c'.cmd.ret_val == tee_error_taget_dead
        then record c' { crashes = c'.crashes ++ (type_crash_ta ∷ []) }
        else c'))
      ((c.cmd.ret_val == 0) && w.chksum_fails c.cmd) (λ t. (refl, refl, inr (ground arith, refl)))
      (λ t.
        if_cases (Checked c) (c.cmd.ret_val == tee_error_taget_dead) (refl, refl, inl refl)
          (refl, refl, inl refl))

-- What becomes of an answer.
abbrev Answered : World → Call → Bool × Call → Type 0
Answered w c (true, c') =
    (c'.info ≡ c.info) × (c'.queue ≡ w.agent c.queue) × (c.cmd.ret_val ≡ teec_pending2)
Answered w c (false, c') =
    (c'.info ≡ c.info)
    × (c'.queue ≡ c.queue)
    × (c.cmd.ret_val ≢ teec_pending2)
    × ((c'.cmd.ret_val ≡ c.cmd.ret_val)
        ⊎ ((c'.cmd.ret_val ≡ teec_error_generic) ⊎ (c'.cmd.ret_val ≡ minus_one)))

smp_smc_send_cmd_done-Answered : (w : World) (c : Call) → Answered w c (smp_smc_send_cmd_done w c)
unfolding smp_smc_send_cmd_done
smp_smc_send_cmd_done-Answered w c =
    let (info, queue, ret) = cmd_result_check-Checked w c in
    if_cases_of (Answered w c) ((cmd_result_check w c).cmd.ret_val == teec_pending2)
      (λ t. (info, ap w.agent queue, ground (arith, t, ret)))
      (λ t.
        if_cases (Answered w c) w.copy_fails (info, queue, ground (arith, t, ret), inr (inr refl))
          (info, queue, ground (arith, t, ret), ground (arith, t, ret)))

answer_status-TurnFinal :
    (i : ℕ) (w : World) (c : Call)
    → (c.queue.in_bitmap i ≡ true → (w.agent c.queue).in_bitmap i ≡ true)
    → Copied i c
    → c.info.saved_index ≡ c.info.cmd_index
    → TurnFinal i (turn_done (answer_status w c))
unfolding answer_status clean_smc_resrc release_smc_entry
answer_status-TurnFinal i w c keep h e =
    go (smp_smc_send_cmd_done w c) (smp_smc_send_cmd_done-Answered w c)
  where
    go :
        (r : Bool × Call)
        → Answered w c r
        → TurnFinal i (
            turn_done (if r.0 then (st_retry, record r.1 { ops = ops_normal }) else (st_done, r.1)))
    go (true, c') (info, queue, ret) = ground (
      arith,
      h,
      e,
      ret,
      ap (λ x. x.cmd_usage) info,
      ap (λ x. x.cmd_index) info,
      ap (λ x. x.saved_index) info,
      ap (λ q. q.in_bitmap i) queue,
    )
    go (false, c') (info, queue, ne, ret) = ground (
      arith,
      h,
      e,
      ne,
      ret,
      ap (λ x. x.cmd_usage) info,
      ap (λ x. x.cmd_index) info,
      ap (λ x. x.saved_index) info,
      ap (λ q. q.in_bitmap i) queue,
    )

-- What `copy_smc_out_entry` gives.
abbrev Taken : ℕ → Call → Code × Option (Cmd × CmdReuse) × Queue → Type 0
Taken i c (code, none, q) = q ≡ c.queue
Taken i c (code, some (cmd, usage), q) =
    Copied i (record c { queue = q; cmd = cmd; info = record c.info { cmd_usage = usage } })

copy_smc_out_entry-Taken :
    (i : ℕ) (calls : Calls) (c : Call)
    → Held i c
    → Taken i c (copy_smc_out_entry calls c.info.cmd_index c.queue)
unfolding copy_smc_out_entry take_out occupy_clean_in_doing_entry
copy_smc_out_entry-Taken i calls c h =
    if_cases (Taken i c) (not (c.queue.out_bitmap c.info.cmd_index)) refl (
      if_cases (Taken i c) calls.memcpy_fails refl (
        if_cases_of
          (λ (t : CmdReuse × Queue).
            Taken i c (success, some (c.queue.out_cmds c.info.cmd_index, t.0), t.1))
          ((c.queue.out_cmds c.info.cmd_index).ret_val == teec_pending2
            || (c.queue.out_cmds c.info.cmd_index).ret_val == teec_pending)
          (λ t. inl (refl, h, ground (arith, t)))
          (λ t. inr (refl, ground arith, ground (arith, t), ground (arith, t)))))

pub handle-TurnFinal :
    (i : ℕ) (w : World) (c : Call)
    → Quiet i w
    → Held i c
    → c.info.saved_index ≡ c.info.cmd_index
    → TurnFinal i (turn_done (handle_cmd_working_done w c))
unfolding handle_cmd_working_done take_answer
handle-TurnFinal i w c v h e =
    go (copy_smc_out_entry w.calls c.info.cmd_index c.queue)
      (copy_smc_out_entry-Taken i w.calls c h)
  where
    go :
        (r : Code × Option (Cmd × CmdReuse) × Queue)
        → Taken i c r
        → TurnFinal i (turn_done (take_answer w c r))
    go (code, none, q) f = ground arith
    go (code, some (cmd, usage), q) f =
        answer_status-TurnFinal i w
          (record c { queue = q; cmd = cmd; info = record c.info { cmd_usage = usage } })
          (v.agent q) f e
