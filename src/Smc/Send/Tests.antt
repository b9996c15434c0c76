-- ===== src/Smc/Send/Tests.antt =====
-- Commands sent by one CA on a small queue.
use mathlib.Core.Option
use itrustee_tzdriver.Base.{ℕ, ◌≡◌, refl, inl, true, false, some, [], ◌∷◌, map, arith}
use itrustee_tzdriver.Base.Nodes.{occurs}
use itrustee_tzdriver.Base.Update.{update}
use itrustee_tzdriver.Smc.Cmd.{Cmd}
use itrustee_tzdriver.Smc.Slots.{
  Queue, occupy_free_smc_in_entry, occupy_retry, occupy_locked, occupy_finish, free_slot,
  is_cmd_working_done, copy_smc_out_entry, take_out, occupy_setbit_smc_in_doing_entry,
  occupy_clean_in_doing_entry, clear_doing, set_in,
}
use itrustee_tzdriver.Smc.Pending.{Pending}
use itrustee_tzdriver.Smc.Timeout.{invalid_step_size, set_timeout_step}
use itrustee_tzdriver.Smc.Send.{
  Signals, Answer, SmcCmdRet, smp_smc_send, send_retry, set_smc_send_arg, ops_schedto, tsp_request,
}
use itrustee_tzdriver.Smc.Send.Resume.{
  first_params, resumed, preemptions, last_answer, result_of, smp_smc_send-Resumed,
}
use itrustee_tzdriver.Smc.Send.Wait.{Ticks, Wakes, Local, proc_ta_pending}
use itrustee_tzdriver.Smc.Send.Wait.Ends.{Ended, proc_ta_pending-Ended}
use itrustee_tzdriver.Smc.Send.Round.{
  World, Call, send_loop, turn, submit_op, submitted_turn, process_turn, smp_smc_send_process,
  send_result, new_entry, handle_cmd_working_done, take_answer, answer_status,
  smp_smc_send_cmd_done, cmd_result_check, clean_smc_resrc,
}
use itrustee_tzdriver.Smc.Send.Held.{Final, Quiet}
use itrustee_tzdriver.Smc.Send.Held.Answered.{Returned, send_loop_answered}
use itrustee_tzdriver.Smc.Send.Func.{
  Caller, Result, zero_cmd, start_call, start_info, init_for_smc_send, send_func_end,
  smp_smc_send_func,
}
use itrustee_tzdriver.Smc.Send.Func.Slot.{smp_smc_send_func-Final}
use itrustee_tzdriver.Smc.Send.Func.Entry.{smp_smc_send_func-occurs}

abbrev no_signals : Signals
no_signals = record { sigkill = false; sigusr1 = false; shared_sigkill = some false }

abbrev answer_with : ℕ → ℕ → ℕ → Answer
answer_with exit ta target = record {
  out = record { ret = 0; exit_reason = exit; ta = ta; target = target };
  signals = no_signals;
  reported = true;
}

abbrev secret : SmcCmdRet
secret = record { exit = 0; ta = 0; target = 8 }

-- The TEE is preempted twice.
smp_smc_send-Resumed_example :
    smp_smc_send tsp_request ops_schedto 42 secret true
      (answer_with 1 5 6 ∷ answer_with 1 7 6 ∷ answer_with 0 0 0 ∷ [])
    ≡ (
      first_params tsp_request ops_schedto 42 secret
          ∷ map
              (resumed tsp_request 42)
              (preemptions true (answer_with 1 5 6 ∷ answer_with 1 7 6 ∷ answer_with 0 0 0 ∷ [])),
      Option.map result_of
          (last_answer true (answer_with 1 5 6 ∷ answer_with 1 7 6 ∷ answer_with 0 0 0 ∷ [])),
    )
smp_smc_send-Resumed_example =
    smp_smc_send-Resumed tsp_request ops_schedto 42 secret true
      (answer_with 1 5 6 ∷ answer_with 1 7 6 ∷ answer_with 0 0 0 ∷ []) (omega arith)

abbrev empty_queue : Queue
empty_queue = record {
  in_bitmap = λ i. false;
  doing_bitmap = λ i. false;
  out_bitmap = λ i. false;
  in_cmds = λ i. zero_cmd;
  out_cmds = λ i. zero_cmd;
}

abbrev ticks : Ticks
ticks = record { hz = 250; msecs_to_jiffies = λ m. m }

-- A user thread that is never woken up.
abbrev wakes : Wakes
wakes = record {
  user = true;
  wake = λ k. record { run = 0; meanwhile = λ q. q };
  signals = no_signals;
}

abbrev waits : Local
waits = record {
  ops = 0;
  step = record { steps = []; cur = invalid_step_size; timeout_reset = false };
  queue = empty_queue;
  run = 0;
}

proc_ta_pending-Ended_example : Ended 0 (proc_ta_pending ticks wakes 100 0 waits)
proc_ta_pending-Ended_example = proc_ta_pending-Ended ticks wakes 100 0 waits (inl refl)

-- The TEE takes what is in slot 0 and answers it.
abbrev world : Cmd → World
world answer = record {
  calls = record {
    memcpy_fails = false;
    timestamp_fails = λ cmd. false;
    update_chksum = λ cmd. some cmd;
  };
  sleep = λ n q. q;
  answers = answer_with 0 0 0 ∷ [];
  tee = λ q. record q {
    out_bitmap = update q.out_bitmap 0 true;
    out_cmds = update q.out_cmds 0 answer;
  };
  wakes = wakes;
  chksum_fails = λ cmd. false;
  copy_fails = false;
  agent = λ q. q;
}

abbrev caller : Caller
caller = record { pid = 42; alloc = some 9; copy_fails = false; others = λ p. p }

abbrev pending_entries : Pending
pending_entries = record {
  entries = λ pe. record { users = 0; pid = 0; run = 0; live = false };
  head = [];
}

abbrev answer : Cmd
answer = record zero_cmd { ret_val = 5 }

world-Quiet : Quiet 0 (world answer)
world-Quiet = record { tee = λ q h. h; wake = λ k q h. h; agent = λ q h. h }

abbrev first_call : Call
first_call = start_call false zero_cmd zero_cmd empty_queue

abbrev placed : Queue
placed = (occupy_free_smc_in_entry (world answer).calls (world answer).sleep zero_cmd empty_queue).1

placed_in_0 :
    occupy_free_smc_in_entry (world answer).calls (world answer).sleep zero_cmd empty_queue
    ≡ (some 0, placed)
unfolding occupy_free_smc_in_entry occupy_retry occupy_locked occupy_finish free_slot
placed_in_0 = refl

send_loop_answered_example :
    Returned
      (((world answer).tee placed).out_cmds 0)
      (send_loop 42 ticks (world answer ∷ []) first_call)
unfolding start_call start_info smp_smc_send send_retry set_smc_send_arg
send_loop_answered_example =
    send_loop_answered 42 0 ticks (world answer) [] first_call placed (refl, refl) placed_in_0
      (record {
        ret = 0;
        cmd_ret = record { exit = 0; ta = 0; target = 0 };
        back = refl;
        no_crash = omega arith;
        out = refl;
      })
      (record { no_pending2 = omega arith; chksum = refl; copied = refl; copied_back = refl })

abbrev func_result : Result
func_result =
    smp_smc_send_func ticks caller (world answer ∷ []) false zero_cmd empty_queue pending_entries

abbrev call_of : Result → Call
call_of (some (ret, some c, p)) = c
call_of _ = first_call

abbrev pending_of : Result → Pending
pending_of (some (ret, c, p)) = p
pending_of _ = pending_entries

func_returns : func_result ≡ some (5, some (call_of func_result), pending_of func_result)
unfolding smp_smc_send_func init_for_smc_send send_func_end send_loop turn submit_op submitted_turn
    process_turn start_call start_info smp_smc_send_process send_result smp_smc_send send_retry
    new_entry occupy_free_smc_in_entry occupy_retry occupy_locked occupy_finish free_slot
    is_cmd_working_done handle_cmd_working_done take_answer answer_status smp_smc_send_cmd_done
    cmd_result_check copy_smc_out_entry take_out occupy_setbit_smc_in_doing_entry
    occupy_clean_in_doing_entry clear_doing set_in clean_smc_resrc set_timeout_step set_smc_send_arg
func_returns = refl

smp_smc_send_func-Final_example : Final 0 5 (call_of func_result)
smp_smc_send_func-Final_example =
    smp_smc_send_func-Final 0 ticks caller (world answer ∷ []) false zero_cmd empty_queue
      pending_entries 5 (call_of func_result) (pending_of func_result) (world-Quiet, tt)
      (λ h. absurd (ground arith)) func_returns

smp_smc_send_func-occurs_example : occurs 9 (pending_of func_result).head ≡ 0
unfolding occurs
smp_smc_send_func-occurs_example =
    smp_smc_send_func-occurs 9 ticks caller (world answer ∷ []) false zero_cmd empty_queue
      pending_entries 5 (some (call_of func_result)) (pending_of func_result) refl refl (λ p. refl)
      func_returns
