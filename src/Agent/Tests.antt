-- ===== src/Agent/Tests.antt =====
-- Agents over a fresh pool.
use itrustee_tzdriver.Base.{
  ℕ, ◌+◌, ◌*◌, ◌/◌, ◌≡◌, refl, true, false, none, some, [], ◌∷◌, map, arith, leb, if◌then◌else◌,
}
use itrustee_tzdriver.Base.Errno.{Code, success, fail, einval}
use itrustee_tzdriver.Base.Pow.{pow2}
use itrustee_tzdriver.Mailbox.{MbZone, init_zone, take_block}
use itrustee_tzdriver.Mailbox
use itrustee_tzdriver.Mailbox.Inv.{Inv}
use itrustee_tzdriver.Mailbox.History.{init_zone-Inv}
use itrustee_tzdriver.Agent.{Agents, first_event}
use itrustee_tzdriver.Agent.Access.{Process, is_valid_agent, is_fake}
use itrustee_tzdriver.Agent.Work.{wait_agent_response}
use itrustee_tzdriver.Agent.Register.{Env, new_event, set_pool, tc_ns_register_agent}
use itrustee_tzdriver.Agent.Register.Restart.{crash_and_restart, wait_agent_response_lost}
use itrustee_tzdriver.Agent.Register.Outcome.{Outcome}
use itrustee_tzdriver.Agent.Register.Outcome.New.{tc_ns_register_agent-Outcome}
use itrustee_tzdriver.Agent.Kernel.{TeeAgentKernelOps, is_agent_ops_valid, tee_agent_kernel_init}
use itrustee_tzdriver.Agent.Kernel.Start.{
  Plain, ran_as, through_first_failure, tee_agent_kernel_init-through_first_failure,
}

-- Orders of one page, of two, and of the whole pool.
abbrev kernel : Mailbox.Kernel
kernel = record {
  get_order = λ size. if leb size 4096 then 0 else if leb size 8192 then 1 else 10;
  align = λ size to. (size + 4095) / 4096 * 4096;
  memset_fails = λ size. false;
  memcpy_fails = λ size. false;
}

abbrev fresh : MbZone
fresh = init_zone 10 5000

fresh-Inv : Inv fresh
unfolding pow2
fresh-Inv = init_zone-Inv 10 5000 (omega arith) refl

abbrev no_agents : Agents
no_agents = record {
  events = λ e. record (new_event none 0 0 0) { live = false };
  agent_list = [];
  pool = some fresh;
}

-- The mapping of the user's buffer fails.
abbrev env : Env
env = record { kernel = kernel; kzalloc = some 9; mapped = none; tee_takes = true }

abbrev root : Process
root = record { uid = 0; found = success; path = [] }

root_may : is_valid_agent root 7 4096 true ≡ true
unfolding is_valid_agent is_fake
root_may = refl

tc_ns_register_agent-Outcome_example :
    Outcome env
      (some 3)
      7
      4096
      true
      no_agents
      fresh
      (tc_ns_register_agent env root (some 3) 7 4096 true (set_pool (some fresh) no_agents))
unfolding first_event
tc_ns_register_agent-Outcome_example =
    tc_ns_register_agent-Outcome env root (some 3) 7 4096 true no_agents fresh fresh-Inv root_may
      refl

abbrev one_page : MbZone
one_page = take_block 0 10 0 fresh

-- Agent 7 has the first page as its buffer, and is being unregistered.
abbrev registered_seven : Agents
registered_seven = record no_agents {
  events = λ e. record (new_event (some 3) 7 5000 4096) { usage = 2 };
  agent_list = 4 ∷ [];
  pool = some one_page;
}

-- Agent 7 has been asked for work.
abbrev asked : Agents
asked = record no_agents {
  events = λ e. record (new_event (some 3) 7 5000 4096) { ret_flag = true; usage = 2 };
  agent_list = 4 ∷ [];
}

wait_agent_response_lost_example :
    wait_agent_response true false
      (record { meanwhile = crash_and_restart (some 3) 7; signal = false; killed = false }
        ∷ record { meanwhile = λ s. s; signal = true; killed = false }
        ∷ record { meanwhile = λ s. s; signal = true; killed = false }
        ∷ [])
      4
      asked
    ≡ none
unfolding first_event
wait_agent_response_lost_example =
    wait_agent_response_lost true false (some 3) 7 4 asked false
      (record { meanwhile = λ s. s; signal = true; killed = false }
        ∷ record { meanwhile = λ s. s; signal = true; killed = false }
        ∷ [])
      refl ((refl, λ s h. h), ((refl, λ s h. h), tt))

abbrev ops : ℕ → Code → TeeAgentKernelOps
ops agent_id run = record {
  agent_id = agent_id;
  has_name = true;
  has_work = true;
  tee_agent_init = none;
  tee_agent_run = run;
  has_exit = false;
  agent_buff_size = 0;
}

ops-Plain :
    (agent_id : ℕ) (run : Code)
    → is_agent_ops_valid (ops agent_id run) ≡ true
    → Plain (ops agent_id run)
ops-Plain agent_id run h = record { valid = h; no_init = refl; no_exit = refl }

-- The second agent cannot be run, and the third, which could, is not.
tee_agent_kernel_init-through_first_failure_example :
    tee_agent_kernel_init (ops 1 success ∷ ops 2 (fail einval) ∷ ops 3 success ∷ [])
    ≡ map ran_as (through_first_failure (ops 1 success ∷ ops 2 (fail einval) ∷ ops 3 success ∷ []))
unfolding is_agent_ops_valid
tee_agent_kernel_init-through_first_failure_example =
    tee_agent_kernel_init-through_first_failure
      (ops 1 success ∷ ops 2 (fail einval) ∷ ops 3 success ∷ [])
      (ops-Plain 1 success refl, (ops-Plain 2 (fail einval) refl, (ops-Plain 3 success refl, tt)))

two_ran :
    through_first_failure (ops 1 success ∷ ops 2 (fail einval) ∷ ops 3 success ∷ [])
    ≡ ops 1 success ∷ ops 2 (fail einval) ∷ []
unfolding through_first_failure
two_ran = refl
