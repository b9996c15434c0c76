-- ===== src/Agent/Kernel.antt =====
-- core/agent.c: the agents that the kernel itself runs.
pub mod Start
use itrustee_tzdriver.Base.{
  ℕ, ◌<◌, Bool, true, false, ◌&&◌, ◌||◌, not, Option, none, some, List, [], ◌∷◌, ◌==◌,
  if◌then◌else◌,
}
use itrustee_tzdriver.Base.Errno.{Code, success, fail, einval}
use itrustee_tzdriver.Base.Nodes.{list_add_tail}
use itrustee_tzdriver.Agent.{Agents}
use itrustee_tzdriver.Agent.Access.{Process, failed}
use itrustee_tzdriver.Agent.Work.{tc_ns_send_event_response}
use itrustee_tzdriver.Agent.Register.{Env, tc_ns_register_agent, tc_ns_unregister_agent}

-- `PAGE_SIZE`, the size of `g_def_tee_agent_ops`.
abbrev pub default_buff_size : ℕ
default_buff_size = 4096

-- `tee_agent_init` is `none` where it is NULL and gives its result where it is not; `tee_agent_run` is
-- the result of the agent's own function or of `def_tee_agent_run`.
pub record TeeAgentKernelOps : Type 0 where
  pub agent_id : ℕ
  pub has_name : Bool
  pub has_work : Bool
  pub tee_agent_init : Option Code
  pub tee_agent_run : Code
  pub has_exit : Bool
  pub agent_buff_size : ℕ

-- What is done to an agent: it is run, with the size of its buffer, or its exit function is called.
pub data Done : Type 0 where
  ran : ℕ → ℕ → Done
  exited : ℕ → Done

unfoldable pub is_agent_ops_valid : TeeAgentKernelOps → Bool
is_agent_ops_valid o = not (o.agent_id == 0) && (o.has_name && o.has_work)

abbrev pub buff_size : TeeAgentKernelOps → ℕ
buff_size o = if o.agent_buff_size == 0 then default_buff_size else o.agent_buff_size

-- `ret` after the initialisation; without a function it is what it was.
abbrev pub ret_of_init : Code → TeeAgentKernelOps → Code
ret_of_init ret o = elim o.tee_agent_init [ none ↦ ret | some c ↦ c ]

-- The loop of `tee_agent_kernel_init`, with `ret` as the agents before left it.
unfoldable pub kernel_init_loop : Code → List TeeAgentKernelOps → List Done
kernel_init_loop ret [] = []
kernel_init_loop ret (o ∷ later) =
    let skipped = kernel_init_loop ret later in
    let not_initialised = kernel_init_loop (ret_of_init ret o) later in
    let rest = kernel_init_loop o.tee_agent_run later in
    if not (is_agent_ops_valid o)
    then skipped
    else if failed (ret_of_init ret o)
    then not_initialised
    else if failed o.tee_agent_run && o.has_exit
    then ran o.agent_id (buff_size o) ∷ exited o.agent_id ∷ rest
    else ran o.agent_id (buff_size o) ∷ rest

unfoldable pub tee_agent_kernel_init : List TeeAgentKernelOps → List Done
tee_agent_kernel_init agents = kernel_init_loop success agents

-- The result, the agents, and the thread if there is one; `dev` is the address of the local variable
-- that becomes the owner, `ptr_err` what `PTR_ERR` makes of a thread that is not there.
unfoldable pub def_tee_agent_run :
    Env → Process → ℕ → Option ℕ → Code → ℕ → ℕ → Agents → Code × Agents × Option ℕ
def_tee_agent_run env p dev thread ptr_err agent_id size s =
    let (code, s') = tc_ns_register_agent env p (some dev) agent_id size false s in
    if failed code
    then (fail einval, s', none)
    else elim thread [ none ↦ (ptr_err, s', none) | some t ↦ (success, s', some t) ]

-- The stopping of the thread, if there is one, is left out.
unfoldable pub def_tee_agent_stop : Env → Process → ℕ → Agents → Agents
def_tee_agent_stop env p agent_id s =
    let (answered, s1) = tc_ns_send_event_response p agent_id s in
    let (unregistered, s2) = tc_ns_unregister_agent env p agent_id s1 in s2

unfoldable pub tee_agent_kernel_register : Option ℕ → List ℕ → Code × List ℕ
tee_agent_kernel_register none agents = (fail einval, agents)
tee_agent_kernel_register (some new_agent) agents = (success, list_add_tail new_agent agents)
