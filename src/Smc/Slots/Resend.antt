-- ===== src/Smc/Slots/Resend.antt =====
-- A resend in core/smc_smp.c: what `copy_smc_out_entry` leaves for `reuse_smc_in_entry`.
use itrustee_tzdriver.Base.{
  ℕ, ◌≡◌, refl, ap, subst, ◌∙◌, true, false, ◌||◌, not, Option, none, some, ◌==◌, if_cases,
  if_cases_of,
}
use itrustee_tzdriver.Base.Errno.{Code, success}
use itrustee_tzdriver.Base.Update.{update, update_same}
use itrustee_tzdriver.Smc.Cmd.{Cmd, teec_pending, teec_pending2}
use itrustee_tzdriver.Smc.Slots.{
  Queue, Calls, CmdReuse, clear, resend, set_in, occupy_clean_in_doing_entry, clear_doing,
  reuse_locked, reuse_finish, reuse_smc_in_entry, copy_smc_out_entry, take_out,
}

-- What is left when an answer was taken that asks for a resend.
abbrev Resent : Calls → ℕ → Queue → Code × Option (Cmd × CmdReuse) × Queue → Type 0
Resent calls i q (c, none, q') = Unit
Resent calls i q (c, some (cmd, clear), q') = Unit
Resent calls i q (c, some (cmd, resend), q') =
    (q'.out_cmds i ≡ cmd)
    × (calls.memcpy_fails ≡ false)
    × (q'.in_bitmap i ≡ q.in_bitmap i)
    × (q'.doing_bitmap i ≡ q.doing_bitmap i)

copy_smc_out_entry-Resent :
    (calls : Calls) (i : ℕ) (q : Queue) → Resent calls i q (copy_smc_out_entry calls i q)
unfolding copy_smc_out_entry take_out occupy_clean_in_doing_entry
copy_smc_out_entry-Resent calls i q = if_cases (Resent calls i q) (not (q.out_bitmap i)) tt (
    if_cases_of (Resent calls i q) calls.memcpy_fails (λ _. tt)
      (λ f.
        if_cases
          (λ (t : CmdReuse × Queue). Resent calls i q (success, some (q.out_cmds i, t.0), t.1))
          ((q.out_cmds i).ret_val == teec_pending2 || (q.out_cmds i).ret_val == teec_pending)
          (refl, f, refl, refl) tt))

reuse_locked_in :
    (calls : Calls) (i : ℕ) (q : Queue)
    → calls.memcpy_fails ≡ false
    → q.in_bitmap i ≡ true
    → q.doing_bitmap i ≡ true
    → reuse_locked calls i q ≡ (true, set_in i (q.out_cmds i) q)
unfolding reuse_locked
reuse_locked_in calls i q f on taken = rw (f, on, taken) refl

reuse_finish_sent :
    (calls : Calls) (i : ℕ) (q : Queue) (cmd sent : Cmd)
    → q.in_cmds i ≡ cmd
    → calls.timestamp_fails cmd ≡ false
    → calls.update_chksum cmd ≡ some sent
    → reuse_finish calls i (true, q) ≡ (true, clear_doing i (set_in i sent q))
unfolding reuse_finish
reuse_finish_sent calls i q cmd sent e stamp chksum = rw (e, stamp, chksum) refl

-- When `copy_smc_out_entry` took an answer that asks for a resend, the slot, if it was in and taken by
-- the TEE and neither the time stamp nor the sum fails, can be used again: it holds the answer with its
-- sum, ready for the TEE.
pub copy_smc_out_entry_resend :
    (calls : Calls) (i : ℕ) (q q' : Queue) (cmd sent : Cmd)
    → copy_smc_out_entry calls i q ≡ (success, some (cmd, resend), q')
    → q.in_bitmap i ≡ true
    → q.doing_bitmap i ≡ true
    → calls.timestamp_fails cmd ≡ false
    → calls.update_chksum cmd ≡ some sent
    → (q'' : Queue) × (reuse_smc_in_entry calls i q' ≡ (true, q''))
      × (q''.in_cmds i ≡ sent)
      × (q''.in_bitmap i ≡ true)
      × (q''.doing_bitmap i ≡ false)
unfolding reuse_smc_in_entry set_in clear_doing
copy_smc_out_entry_resend calls i q q' cmd sent e on taken stamp chksum =
    let (held, copy, a, b) = subst (Resent calls i q) e (copy_smc_out_entry-Resent calls i q) in
    (
      clear_doing i (set_in i sent (set_in i (q'.out_cmds i) q')),
      ap (reuse_finish calls i) (reuse_locked_in calls i q' copy (a ∙ on) (b ∙ taken))
          ∙ reuse_finish_sent calls i (set_in i (q'.out_cmds i) q') cmd sent
              (update_same q'.in_cmds i (q'.out_cmds i) ∙ held) stamp chksum,
      update_same (update q'.in_cmds i (q'.out_cmds i)) i sent,
      a ∙ on,
      update_same q'.doing_bitmap i false,
    )
