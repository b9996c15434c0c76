-- ===== src/Smc/Send/Held/Answered.antt =====
-- `smp_smc_send_func` of core/smc_smp.c: a command that the TEE answers at once.
use itrustee_tzdriver.Base.{
  ℕ, ◌%◌, ◌^◌, ◌≡◌, ◌≢◌, refl, sym, subst, ap, true, false, ◌&&◌, not, Option, none, some, List,
  ◌∷◌, ◌==◌, arith, if_cases, if_cases_of,
}
use itrustee_tzdriver.Base.Errno.{Code, success}
use itrustee_tzdriver.Smc.Cmd.{Cmd, teec_pending, teec_pending2}
use itrustee_tzdriver.Smc.Slots.{
  Queue, occupy_free_smc_in_entry, copy_smc_out_entry, take_out, is_cmd_working_done,
}
use itrustee_tzdriver.Smc.Timeout.{set_timeout_step}
use itrustee_tzdriver.Smc.Send.{
  SmcCmdRet, smp_smc_send, tsp_request, tsp_crash, ops_normal, ops_abort_task,
}
use itrustee_tzdriver.Smc.Send.Wait.{Ticks}
use itrustee_tzdriver.Smc.Send.Round.{
  World, Call, Turn, retry, clean, SmcStatus, st_done, turn_done, sent, teec_error_generic,
  tee_error_taget_dead, submit_op, submitted_turn, not_sent, waiting, new_entry,
  smp_smc_send_process, send_result, process_turn, answer_status, take_answer, st_retry,
  smp_smc_send_cmd_done, cmd_result_check, handle_cmd_working_done, clean_smc_resrc, turn,
  send_loop,
}
use itrustee_tzdriver.Smc.Send.Held.Loop.{Fresh, usage_cases}

-- The answer is final for the CA.
pub record Answers (w : World) (answer : Cmd) : Type 0 where
  pub no_pending2 : answer.ret_val ≢ teec_pending2
  pub chksum : w.chksum_fails answer ≡ false
  pub copied : w.calls.memcpy_fails ≡ false
  pub copied_back : w.copy_fails ≡ false

-- The turn ends with the answer.
abbrev Got : Cmd → SmcStatus × Call → Type 0
Got answer (st_done, c) = (c.cmd ≡ answer) × (c.input ≡ answer)
Got answer (st_retry, c) = ⊥

checked_same :
    (w : World) (c : Call) → w.chksum_fails c.cmd ≡ false → ((cmd_result_check w c).cmd ≡ c.cmd)
unfolding cmd_result_check
checked_same w c e =
    rw (e, no)
      (if_cases (λ (r : Call). r.cmd ≡ c.cmd) (c.cmd.ret_val == tee_error_taget_dead) refl refl)
  where
    no : ((c.cmd.ret_val == 0) && false) ≡ false
    no = ground arith

answer_status-Got : (w : World) (c : Call) → Answers w c.cmd → Got c.cmd (answer_status w c)
unfolding answer_status smp_smc_send_cmd_done cmd_result_check
answer_status-Got w c a =
    rw (no, a.copied_back) (checked_same w c a.chksum, checked_same w c a.chksum)
  where
    no : ((cmd_result_check w c).cmd.ret_val == teec_pending2) ≡ false
    no = rw (checked_same w c a.chksum) (ground (arith, a.no_pending2))

copy_smc_out_entry-taken :
    (w : World) (i : ℕ) (q : Queue)
    → q.out_bitmap i ≡ true
    → w.calls.memcpy_fails ≡ false
    → copy_smc_out_entry w.calls i q
      ≡ (success, some (q.out_cmds i, (take_out i q).0), (take_out i q).1)
unfolding copy_smc_out_entry
copy_smc_out_entry-taken w i q out copied = rw (out, copied) refl

handle-Got :
    (w : World) (c : Call)
    → c.queue.out_bitmap c.info.cmd_index ≡ true
    → Answers w (c.queue.out_cmds c.info.cmd_index)
    → Got (c.queue.out_cmds c.info.cmd_index) (handle_cmd_working_done w c)
unfolding handle_cmd_working_done take_answer
handle-Got w c out a =
    let i = c.info.cmd_index in
    subst (λ r. Got (c.queue.out_cmds i) (take_answer w c r))
      (sym (copy_smc_out_entry-taken w i c.queue out a.copied))
      (answer_status-Got w
        (record c {
          queue = (take_out i c.queue).1;
          cmd = c.queue.out_cmds i;
          info = record c.info { cmd_usage = (take_out i c.queue).0 };
        })
        a)

-- The function returns with the answer, which is copied to the caller.
abbrev pub Returned : Cmd → Option (ℕ × Call) → Type 0
Returned answer none = ⊥
Returned answer (some (ret, c)) = (ret ≡ answer.ret_val) × (c.input ≡ answer)

abbrev GotTurn : Cmd → Turn → Type 0
GotTurn answer (clean c) = (c.cmd ≡ answer) × (c.input ≡ answer)
GotTurn answer _ = ⊥

turn_done-GotTurn :
    (answer : Cmd) (r : SmcStatus × Call) → Got answer r → GotTurn answer (turn_done r)
turn_done-GotTurn answer (st_done, c) g = g
turn_done-GotTurn answer (st_retry, c) g = g

-- The TEE comes back with the answer in slot `i`, and with no crash.
pub record ComesBack (pid i : ℕ) (w : World) (q : Queue) (secret : SmcCmdRet) : Type 0 where
  pub ret : ℕ
  pub cmd_ret : SmcCmdRet
  pub back : (smp_smc_send tsp_request ops_normal pid secret true w.answers).1 ≡ some (ret, cmd_ret)
  pub no_crash : ret % 2 ^ 32 ≢ tsp_crash
  pub out : (w.tee q).out_bitmap i ≡ true

process_turn-GotTurn :
    (t : Ticks) (w : World) (c : Call) (ret : ℕ) (cmd_ret : SmcCmdRet)
    → ret % 2 ^ 32 ≢ tsp_crash
    → (w.tee c.queue).out_bitmap c.info.cmd_index ≡ true
    → Answers w ((w.tee c.queue).out_cmds c.info.cmd_index)
    → GotTurn
        ((w.tee c.queue).out_cmds c.info.cmd_index)
        (process_turn t w (send_result w c (some (ret, cmd_ret))))
unfolding send_result process_turn is_cmd_working_done
process_turn-GotTurn t w c ret cmd_ret ne out a =
    rw (no, out)
      (turn_done-GotTurn ((w.tee c.queue).out_cmds c.info.cmd_index)
        (handle_cmd_working_done w (sent w cmd_ret c)) (handle-Got w (sent w cmd_ret c) out a))
  where
    no : (ret % 2 ^ 32 == tsp_crash) ≡ false
    no = ground (arith, ne)

submit_op-Fresh :
    (w : World) (c : Call) (i : ℕ) (q : Queue)
    → Fresh c
    → occupy_free_smc_in_entry w.calls w.sleep c.cmd c.queue ≡ (some i, q)
    → submit_op w c
      ≡ (success, record c { queue = q; info = record c.info { cmd_index = i; saved_index = i } })
unfolding submit_op new_entry
submit_op-Fresh w c i q (o, u) e =
    if_cases_of (λ r. r ≡ placed) (not (c.ops == ops_normal)) (λ t. absurd (ground (arith, o, t)))
      (λ t.
        usage_cases (λ r. r ≡ placed) c.info.cmd_usage (λ r. absurd (ground (arith, u, r)))
          (λ r. ap (new_entry c) e))
  where
    placed : Code × Call
    placed =
        (success, record c { queue = q; info = record c.info { cmd_index = i; saved_index = i } })

-- The rest of the loop, whatever it is, for a turn that ends with the answer.
clean-Returned :
    (answer : Cmd) (rest : Call → Option (ℕ × Call)) (r : Turn)
    → GotTurn answer r
    → Returned answer (elim r [
      | retry c' ↦ rest c'
      | clean c' ↦ some (c'.cmd.ret_val, clean_smc_resrc c')
      | not_sent c' ↦ some (teec_error_generic, c')
      | waiting ↦ none
    ])
unfolding clean_smc_resrc
clean-Returned answer rest (retry c) g = absurd g
clean-Returned answer rest (not_sent c) g = absurd g
clean-Returned answer rest waiting g = absurd g
clean-Returned answer rest (clean c) (e, f) = (
  ap (λ (x : Cmd). x.ret_val) e,
  usage_cases (λ (x : Call). x.input ≡ answer) c.info.cmd_usage
      (λ r. if_cases (λ (x : Call). x.input ≡ answer) (c.cmd.ret_val == teec_pending) f f) (λ r. f),
)

turn-GotTurn :
    (pid i : ℕ) (t : Ticks) (w : World) (c : Call) (q : Queue)
    → Fresh c
    → occupy_free_smc_in_entry w.calls w.sleep c.cmd c.queue ≡ (some i, q)
    → ComesBack pid i w q c.cmd_ret
    → Answers w ((w.tee q).out_cmds i)
    → GotTurn ((w.tee q).out_cmds i) (turn pid t w c)
unfolding turn submitted_turn smp_smc_send_process
turn-GotTurn pid i t w c q (o, u) e back a =
    subst (λ r. GotTurn answer (submitted_turn pid t w r))
      (sym (submit_op-Fresh w (record c { step = set_timeout_step c.step }) i q (o, u) e))
      (subst (λ r. GotTurn answer (process_turn t w (send_result w placed r)))
        (sym (
          subst
            (λ o'.
              (smp_smc_send tsp_request o' pid c.cmd_ret (not (o' == ops_abort_task)) w.answers).1
              ≡ some (back.ret, back.cmd_ret))
            (sym o) back.back))
        (process_turn-GotTurn t w placed back.ret back.cmd_ret back.no_crash back.out a))
  where
    answer : Cmd
    answer = (w.tee q).out_cmds i

    placed : Call
    placed = record c {
      step = set_timeout_step c.step;
      queue = q;
      info = record c.info { cmd_index = i; saved_index = i };
    }

-- A command that finds a slot, with an answer in that slot when the TEE comes back from the first call,
-- no crash, an answer that is not `TEEC_PENDING2` and whose sum is right, and copies that do not fail:
-- the function returns after one turn, with the answer for the caller.
pub send_loop_answered :
    (pid i : ℕ) (t : Ticks) (w : World) (later : List World) (c : Call) (q : Queue)
    → Fresh c
    → occupy_free_smc_in_entry w.calls w.sleep c.cmd c.queue ≡ (some i, q)
    → ComesBack pid i w q c.cmd_ret
    → Answers w ((w.tee q).out_cmds i)
    → Returned ((w.tee q).out_cmds i) (send_loop pid t (w ∷ later) c)
unfolding send_loop
send_loop_answered pid i t w later c q fresh e back a =
    clean-Returned ((w.tee q).out_cmds i) (λ c'. send_loop pid t later c') (turn pid t w c)
      (turn-GotTurn pid i t w c q fresh e back a)
