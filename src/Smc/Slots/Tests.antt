-- ===== src/Smc/Slots/Tests.antt =====
-- The command queue on small histories.
use itrustee_tzdriver.Base.{ℕ, suc, ◌≡◌, refl, true, false, some, [], arith, ◌==◌, if◌then◌else◌}
use itrustee_tzdriver.Base.Errno.{success}
use itrustee_tzdriver.Smc.Cmd.{Cmd, teec_pending2}
use itrustee_tzdriver.Smc.Slots.{
  find_smc_entry_retry_max_count, Queue, Calls, resend, occupy_free_smc_in_entry, occupy_locked,
  free_slot, copy_smc_out_entry, take_out, reuse_smc_in_entry, set_in,
  occupy_setbit_smc_in_doing_entry, clear_doing,
}
use itrustee_tzdriver.Smc.Slots.Contract.{
  Waited, Occupied, occupy_free_smc_in_entry-Occupied, occupy_free_smc_in_entry_total,
}
use itrustee_tzdriver.Smc.Slots.Lifecycle.{
  System, Reach, here, next, occupy, submit, Empty, occupy_locked_exclusive, tee_gets_ready,
}
use itrustee_tzdriver.Smc.Slots.Resend.{copy_smc_out_entry_resend}

abbrev cmd_with : ℕ → Cmd
cmd_with ret = record {
  uuid = [];
  cmd_type = 1;
  cmd_id = 7;
  dev_file_id = 3;
  context_id = 1;
  agent_id = 0;
  operation_phys = 4096;
  operation_h_phys = 0;
  login_method = 0;
  login_data_phy = 0;
  login_data_h_addr = 0;
  login_data_len = 0;
  err_origin = 0;
  ret_val = ret;
  event_nr = 0;
  uid = 0;
  ca_pid = 42;
  token_phys = 0;
  token_h_phys = 0;
  pid = 0;
  params_phys = 0;
  params_h_phys = 0;
  eventindex = 0;
  started = true;
}

abbrev calls : Calls
calls = record {
  memcpy_fails = false;
  timestamp_fails = λ cmd. false;
  update_chksum = λ cmd. some (record cmd { operation_phys = 5000 });
}

abbrev empty_queue : Queue
empty_queue = record {
  in_bitmap = λ i. false;
  doing_bitmap = λ i. false;
  out_bitmap = λ i. false;
  in_cmds = λ i. cmd_with 0;
  out_cmds = λ i. cmd_with 0;
}

abbrev no_sleep : ℕ → Queue → Queue
no_sleep n q = q

occupy_free_smc_in_entry-Occupied_example :
    (q : Queue) × Waited no_sleep (suc find_smc_entry_retry_max_count) empty_queue q
    × Occupied calls
        (cmd_with 0)
        q
        (occupy_free_smc_in_entry calls no_sleep (cmd_with 0) empty_queue)
occupy_free_smc_in_entry-Occupied_example =
    occupy_free_smc_in_entry-Occupied calls no_sleep (cmd_with 0) empty_queue
      (λ i h. absurd (ground arith)) (λ k y t. t)

occupy_free_smc_in_entry_total_example :
    (i : ℕ) × (q : Queue) × (occupy_free_smc_in_entry calls no_sleep (cmd_with 0) empty_queue
      ≡ (some i, q))
occupy_free_smc_in_entry_total_example =
    occupy_free_smc_in_entry_total calls no_sleep (cmd_with 0) empty_queue 0 (omega arith) refl refl
      (λ c. refl) (λ c. (record c { operation_phys = 5000 }, refl))

abbrev start : System
start = record { queue = empty_queue; owned = λ i. false; filling = λ i. false }

start-Empty : Empty start
start-Empty = record {
  no_in = λ j. refl;
  no_doing = λ j. refl;
  no_owner = λ j. refl;
  no_filling = λ j. refl;
}

-- Slot 0 filled, and then handed to the TEE.
abbrev filled_queue : Queue
filled_queue = occupy_setbit_smc_in_doing_entry 0 (set_in 0 (cmd_with 0) empty_queue)

occupy_first : occupy_locked calls (cmd_with 0) empty_queue ≡ (some 0, filled_queue)
unfolding occupy_locked free_slot
occupy_first = refl

abbrev filling_first : System
filling_first = record {
  queue = filled_queue;
  owned = λ i. if 0 == i then true else false;
  filling = λ i. if 0 == i then true else false;
}

abbrev submitted : System
submitted = record filling_first {
  queue = clear_doing 0 (set_in 0 (cmd_with 1) filled_queue);
  filling = λ i. if 0 == i then false else (if 0 == i then true else false);
}

filling-Reach : Reach start filling_first
filling-Reach = next here (occupy calls (cmd_with 0) 0 filled_queue occupy_first)

submitted-Reach : Reach start submitted
submitted-Reach = next filling-Reach (submit 0 (cmd_with 1) refl)

occupy_locked_exclusive_example : start.owned 0 ≡ false
occupy_locked_exclusive_example =
    occupy_locked_exclusive start start calls (cmd_with 0) 0 filled_queue start-Empty here
      occupy_first

tee_gets_ready_example : (submitted.owned 0 ≡ true) × (submitted.filling 0 ≡ false)
unfolding clear_doing set_in occupy_setbit_smc_in_doing_entry
tee_gets_ready_example = tee_gets_ready start submitted 0 start-Empty submitted-Reach refl refl

-- Slot 0 as the TEE answered it, asking for the agent's work.
abbrev answered_queue : Queue
answered_queue = record {
  in_bitmap = λ i. i == 0;
  doing_bitmap = λ i. i == 0;
  out_bitmap = λ i. i == 0;
  in_cmds = λ i. cmd_with 0;
  out_cmds = λ i. cmd_with teec_pending2;
}

collected :
    copy_smc_out_entry calls 0 answered_queue
    ≡ (success, some (cmd_with teec_pending2, resend), (take_out 0 answered_queue).1)
unfolding copy_smc_out_entry take_out
collected = refl

copy_smc_out_entry_resend_example :
    (q : Queue) × (reuse_smc_in_entry calls 0 (take_out 0 answered_queue).1 ≡ (true, q))
    × (q.in_cmds 0 ≡ record (cmd_with teec_pending2) { operation_phys = 5000 })
    × (q.in_bitmap 0 ≡ true)
    × (q.doing_bitmap 0 ≡ false)
copy_smc_out_entry_resend_example =
    copy_smc_out_entry_resend calls 0 answered_queue (take_out 0 answered_queue).1
      (cmd_with teec_pending2) (record (cmd_with teec_pending2) { operation_phys = 5000 }) collected
      refl refl refl refl
