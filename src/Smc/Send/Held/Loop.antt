-- ===== src/Smc/Send/Held/Loop.antt =====
-- `smp_smc_send_func` of core/smc_smp.c: the slot over all turns of the loop.
use itrustee_tzdriver.Base.{
  ◌∙◌, sym, subst, ℕ, ◌≡◌, refl, ap, ◌⊎◌, inl, inr, Bool, true, false, ◌&&◌, ◌||◌, not, zero, suc,
  ◌%◌, ◌^◌, Option, none, some, All, List, [], ◌∷◌, ◌==◌, if◌then◌else◌, arith, if_cases,
  if_cases_of,
}
use itrustee_tzdriver.Base.Errno.{Code, success, fail}
use itrustee_tzdriver.Smc.Cmd.{Cmd}
use itrustee_tzdriver.Smc.Slots.{
  Queue, Calls, max_smc_cmd, find_smc_entry_retry_max_count, free_slot, occupy_locked, occupy_retry,
  occupy_finish, occupy_setbit_smc_in_doing_entry, reuse_locked, reuse_finish, CmdReuse, clear,
  resend, occupy_free_smc_in_entry, reuse_smc_in_entry, occupy_clean_in_doing_entry, clear_doing,
  set_in, is_cmd_working_done,
}
use itrustee_tzdriver.Smc.Timeout.{set_timeout_step}
use itrustee_tzdriver.Smc.Send.{
  SmcCmdRet, smp_smc_send, tsp_request, tsp_crash, ops_abort_task, exit_normal, exit_abort,
  ops_normal,
}
use itrustee_tzdriver.Smc.Send.Wait.{Ticks}
use itrustee_tzdriver.Smc.Send.Round.{
  World, Call, Turn, retry, clean, not_sent, waiting, turn_done, clean_smc_resrc,
  handle_cmd_working_done, teec_error_generic, proc_normal_exit, not_done, process_turn,
  send_result, smp_smc_send_process, submit_op, submitted_turn, new_entry, reused_entry, turn,
  send_loop, sent, SmcStatus, st_done, st_retry,
}
use itrustee_tzdriver.Smc.Send.Held.{Held, Final, Again, TurnFinal, Quiet}
use itrustee_tzdriver.Smc.Send.Held.Answer.{handle-TurnFinal}
use itrustee_tzdriver.Smc.Send.Held.Pause.{
  NormalExit, proc_normal_exit-NormalExit, process_abort_cmd-Aborted,
}

pub not_done-TurnFinal :
    (i : ℕ) (t : Ticks) (w : World) (c : Call)
    → Quiet i w
    → Held i c
    → c.info.saved_index ≡ c.info.cmd_index
    → c.info.cmd_usage ≡ clear
    → TurnFinal i (not_done t w c)
unfolding not_done clean_smc_resrc
not_done-TurnFinal i t w c v h e u =
    if_cases (TurnFinal i) (c.cmd_ret.exit == exit_normal)
      (go (proc_normal_exit t w c) (proc_normal_exit-NormalExit i t w c v h e u))
      (if_cases (TurnFinal i) (c.cmd_ret.exit == exit_abort)
        (let (a, b) = process_abort_cmd-Aborted i c.info.cmd_index c.queue h in (a, e, inr (b, u)))
        (ground arith))
  where
    go :
        (r : Option (SmcStatus × Call))
        → NormalExit i r
        → TurnFinal i (elim r [
          | none ↦ waiting
          | some (st_retry, c') ↦ retry c'
          | some (st_done, c') ↦ turn_done (handle_cmd_working_done w c')
        ])
    go none a = tt
    go (some (st_retry, c')) a = a
    go (some (st_done, c')) (a, b) = handle-TurnFinal i w c' v a b

process_turn-TurnFinal :
    (i : ℕ) (t : Ticks) (w : World) (c : Call) (r : Option (ℕ × SmcCmdRet))
    → Quiet i w
    → Held i c
    → c.info.saved_index ≡ c.info.cmd_index
    → c.info.cmd_usage ≡ clear
    → TurnFinal i (process_turn t w (send_result w c r))
unfolding process_turn send_result clean_smc_resrc
process_turn-TurnFinal i t w c none v h e u = tt
process_turn-TurnFinal i t w c (some (ret, cmd_ret)) v h e u =
    if_cases (λ p. TurnFinal i (process_turn t w p)) (ret % 2 ^ 32 == tsp_crash) (ground arith)
      (if_cases (TurnFinal i) (not (is_cmd_working_done c.info.cmd_index (w.tee c.queue)))
        (not_done-TurnFinal i t w (sent w cmd_ret c) v on e u)
        (handle-TurnFinal i w (sent w cmd_ret c) v on e))
  where
    on : Held i (sent w cmd_ret c)
    on same = v.tee c.queue (h same)

abbrev In : Option ℕ × Queue → Type 0
In (none, q) = Unit
In (some j, q) = q.in_bitmap j ≡ true

occupy_locked-In : (calls : Calls) (cmd : Cmd) (q : Queue) → In (occupy_locked calls cmd q)
unfolding occupy_locked set_in occupy_setbit_smc_in_doing_entry
occupy_locked-In calls cmd q = go (free_slot max_smc_cmd 0 q.in_bitmap)
  where
    go :
        (r : Option ℕ)
        → In (elim r [
          | none ↦ (none, q)
          | some i ↦
              if calls.memcpy_fails
              then (none, q)
              else (some i, occupy_setbit_smc_in_doing_entry i (set_in i cmd q))
        ])
    go none = tt
    go (some j) = if_cases In calls.memcpy_fails tt (ground arith)

occupy_retry-In :
    (calls : Calls) (sleep : ℕ → Queue → Queue) (cmd : Cmd) (n : ℕ) (q : Queue)
    → In (occupy_retry calls sleep cmd n q)
unfolding occupy_retry
occupy_retry-In calls sleep cmd zero q = occupy_locked-In calls cmd q
occupy_retry-In calls sleep cmd (suc n) q =
    go (occupy_locked calls cmd q) (λ q'. occupy_retry-In calls sleep cmd n q')
      (occupy_locked-In calls cmd q)
  where
    go :
        (r : Option ℕ × Queue)
        → ((q' : Queue) → In (occupy_retry calls sleep cmd n q'))
        → In r
        → In (elim r.0 [ none ↦ occupy_retry calls sleep cmd n (sleep n r.1) | some i ↦ r ])
    go (none, q') later h = later (sleep n q')
    go (some j, q') later h = h

occupy_finish-In : (calls : Calls) (r : Option ℕ × Queue) → In r → In (occupy_finish calls r)
unfolding occupy_finish set_in clear_doing
occupy_finish-In calls (none, q) h = tt
occupy_finish-In calls (some j, q) h =
    if_cases In (calls.timestamp_fails (q.in_cmds j)) tt (go (calls.update_chksum (q.in_cmds j)))
  where
    go :
        (r : Option Cmd)
        → In (elim r [
          | none ↦ (none, occupy_clean_in_doing_entry j q)
          | some cmd ↦ (some j, clear_doing j (set_in j cmd q))
        ])
    go none = tt
    go (some cmd) = h

abbrev Kept : Queue → Bool × Queue → Type 0
Kept q (done, q') = q'.in_bitmap ≡ q.in_bitmap

occupy_free_smc_in_entry-In :
    (calls : Calls) (sleep : ℕ → Queue → Queue) (cmd : Cmd) (q : Queue)
    → In (occupy_free_smc_in_entry calls sleep cmd q)
unfolding occupy_free_smc_in_entry
occupy_free_smc_in_entry-In calls sleep cmd q =
    occupy_finish-In calls (occupy_retry calls sleep cmd (suc find_smc_entry_retry_max_count) q)
      (occupy_retry-In calls sleep cmd (suc find_smc_entry_retry_max_count) q)

reuse_finish-Kept :
    (calls : Calls) (j : ℕ) (q : Queue) (r : Bool × Queue)
    → Kept q r
    → Kept q (reuse_finish calls j r)
unfolding reuse_finish set_in clear_doing
reuse_finish-Kept calls j q (false, q') h = h
reuse_finish-Kept calls j q (true, q') h =
    if_cases (Kept q) (calls.timestamp_fails (q'.in_cmds j)) h
      (go (calls.update_chksum (q'.in_cmds j)))
  where
    go :
        (r : Option Cmd)
        → Kept q
            (elim r [ none ↦ (false, q') | some cmd ↦ (true, clear_doing j (set_in j cmd q')) ])
    go none = h
    go (some cmd) = h

reuse_smc_in_entry-Kept :
    (calls : Calls) (j : ℕ) (q : Queue) → Kept q (reuse_smc_in_entry calls j q)
unfolding reuse_smc_in_entry reuse_locked set_in
reuse_smc_in_entry-Kept calls j q =
    reuse_finish-Kept calls j q (reuse_locked calls j q)
      (if_cases (Kept q) (not (q.in_bitmap j && q.doing_bitmap j) || calls.memcpy_fails) refl refl)

-- Before the first turn of a command that has no slot yet.
abbrev pub Fresh : Call → Type 0
Fresh c = (c.ops ≡ ops_normal) × (c.info.cmd_usage ≡ clear)

abbrev Submitted : ℕ → Code × Call → Type 0
Submitted i (fail e, c) = Unit
Submitted i (success, c) =
    Held i c × (c.info.saved_index ≡ c.info.cmd_index) × (c.info.cmd_usage ≡ clear)

new_entry-Submitted :
    (i : ℕ) (c : Call) (r : Option ℕ × Queue)
    → c.info.cmd_usage ≡ clear
    → In r
    → Submitted i (new_entry c r)
unfolding new_entry
new_entry-Submitted i c (none, q) u h = tt
new_entry-Submitted i c (some j, q) u h =
    (λ same. subst (λ k. q.in_bitmap k ≡ true) same h, refl, u)

reused_entry-Submitted :
    (i : ℕ) (c : Call) (r : Bool × Queue)
    → Kept c.queue r
    → Held i c
    → c.info.saved_index ≡ c.info.cmd_index
    → Submitted i (reused_entry c r)
unfolding reused_entry
reused_entry-Submitted i c (false, q) k h e = tt
reused_entry-Submitted i c (true, q) k h e =
    (λ same. ap (λ b. b i) k ∙ h (sym e ∙ same), refl, refl)

pub usage_cases :
    {A : Type 0} (P : A → Type 0) (u : CmdReuse) {a b : A}
    → (u ≡ resend → P a)
    → (u ≡ clear → P b)
    → P (elim u [ resend ↦ a | clear ↦ b ])
usage_cases P clear p q = q refl
usage_cases P resend p q = p refl

submit_op-Submitted :
    (i : ℕ) (w : World) (c : Call) → Fresh c ⊎ Again i c → Submitted i (submit_op w c)
unfolding submit_op
submit_op-Submitted i w c (inl (o, u)) =
    if_cases_of (Submitted i) (not (c.ops == ops_normal)) (λ t. absurd (ground (arith, o, t)))
      (λ t.
        usage_cases (Submitted i) c.info.cmd_usage (λ r. absurd (ground (arith, u, r)))
          (λ r.
            new_entry-Submitted i c (occupy_free_smc_in_entry w.calls w.sleep c.cmd c.queue) u
              (occupy_free_smc_in_entry-In w.calls w.sleep c.cmd c.queue)))
submit_op-Submitted i w c (inr (h, e, inl (o, u))) =
    if_cases_of (Submitted i) (not (c.ops == ops_normal)) (λ t. absurd (ground (arith, o, t)))
      (λ t.
        usage_cases (Submitted i) c.info.cmd_usage
          (λ r.
            reused_entry-Submitted i c (reuse_smc_in_entry w.calls c.info.cmd_index c.queue)
              (reuse_smc_in_entry-Kept w.calls c.info.cmd_index c.queue) h e)
          (λ r. absurd (ground (arith, u, r))))
submit_op-Submitted i w c (inr (h, e, inr (o, u))) =
    if_cases_of (Submitted i) (not (c.ops == ops_normal)) (λ t. (h, e, u))
      (λ t. absurd (ground (arith, o, t)))

submitted_turn-TurnFinal :
    (i pid : ℕ) (t : Ticks) (w : World) (r : Code × Call)
    → Quiet i w
    → Submitted i r
    → TurnFinal i (submitted_turn pid t w r)
unfolding submitted_turn smp_smc_send_process
submitted_turn-TurnFinal i pid t w (fail e, c) v s = tt
submitted_turn-TurnFinal i pid t w (success, c) v (on, e, u) =
    process_turn-TurnFinal i t w c
      (smp_smc_send tsp_request c.ops pid c.cmd_ret (not (c.ops == ops_abort_task)) w.answers).1 v
      on e u

turn-TurnFinal :
    (i pid : ℕ) (t : Ticks) (w : World) (c : Call)
    → Quiet i w
    → Fresh c ⊎ Again i c
    → TurnFinal i (turn pid t w c)
unfolding turn
turn-TurnFinal i pid t w c v h =
    submitted_turn-TurnFinal i pid t w (submit_op w c') v (submit_op-Submitted i w c' h)
  where
    c' : Call
    c' = record c { step = set_timeout_step c.step }

abbrev pub FinalOption : ℕ → Option (ℕ × Call) → Type 0
FinalOption i none = Unit
FinalOption i (some (ret, c)) = Final i ret c

pub send_loop-FinalOption :
    (i pid : ℕ) (t : Ticks) (worlds : List World) (c : Call)
    → All (Quiet i) worlds
    → Fresh c ⊎ Again i c
    → FinalOption i (send_loop pid t worlds c)
unfolding send_loop
send_loop-FinalOption i pid t [] c v h = tt
send_loop-FinalOption i pid t (w ∷ later) c (v, vs) h =
    go (turn pid t w c) (turn-TurnFinal i pid t w c v h)
      (λ c' again. send_loop-FinalOption i pid t later c' vs (inr again))
  where
    go :
        (r : Turn)
        → TurnFinal i r
        → ((c' : Call) → Again i c' → FinalOption i (send_loop pid t later c'))
        → FinalOption i (elim r [
          | retry c' ↦ send_loop pid t later c'
          | clean c' ↦ some (c'.cmd.ret_val, clean_smc_resrc c')
          | not_sent c' ↦ some (teec_error_generic, c')
          | waiting ↦ none
        ])
    go (retry c') h rest = rest c' h
    go (clean c') h rest = h
    go (not_sent c') h rest = λ same. (λ p. absurd (omega arith), λ a b d. absurd (b refl))
    go waiting h rest = tt
