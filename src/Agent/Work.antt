-- ===== src/Agent/Work.antt =====
-- core/agent.c, `agent_process_work` and the agent's side of it: a CA waits while an agent works.
use itrustee_tzdriver.Base.{
  ℕ, Bool, true, false, ◌&&◌, ◌||◌, not, Option, none, some, List, [], ◌∷◌, if◌then◌else◌,
}
use itrustee_tzdriver.Base.Errno.{Code, success, fail, einval, efault, eperm, eintr}
use itrustee_tzdriver.Agent.{
  AgentStateType, crashed, registered, ready, Agents, set_event, get_agent_event, put_agent_event,
  first_event, process_send_event_response,
}
use itrustee_tzdriver.Agent.Access.{Process, is_fake}

-- One wait of a CA: what the others do during it, whether a signal is pending at its end, and whether
-- one that kills.
pub record Wait : Type 0 where
  pub meanwhile : Agents → Agents
  pub signal : Bool
  pub killed : Bool

abbrev pub set_ret_flag : Bool → ℕ → Agents → Agents
set_ret_flag b e s = set_event e (record (s.events e) { ret_flag = b }) s

abbrev pub set_ca_run : Bool → ℕ → Agents → Agents
set_ca_run b e s = set_event e (record (s.events e) { ca_run = b }) s

-- The loop, for as many waits as there are; `none` is that it has not ended. A wait reports success
-- when `ca_run` is set at its end.
unfoldable pub wait_agent_response : Bool → Bool → List Wait → ℕ → Agents → Option (Code × Agents)
wait_agent_response need_freeze sig_pending [] e s = none
wait_agent_response need_freeze sig_pending (w ∷ later) e s =
    let s' = w.meanwhile s in
    let interrupted = wait_agent_response need_freeze (sig_pending || w.signal) later e s' in
    let timed_out = wait_agent_response need_freeze sig_pending later e s' in
    if (s'.events e).ca_run
    then some (success, s')
    else if need_freeze && not sig_pending
    then interrupted
    else if not w.killed
    then timed_out
    else some (fail efault, set_ret_flag false e s')

-- A CA: whether it is a user thread, whether a signal is pending when it starts to wait, its waits.
pub record Waiter : Type 0 where
  pub need_freeze : Bool
  pub sig_pending : Bool
  pub waits : List Wait

-- After the waiting.
unfoldable pub work_done : ℕ → Option (Code × Agents) → Option (Code × Agents)
work_done e none = none
work_done e (some (c, s)) = some (c, put_agent_event e (set_ca_run false e s))

abbrev pub is_crashed : AgentStateType → Bool
is_crashed crashed = true
is_crashed registered = false
is_crashed ready = false

-- `agent_process_work`; the monitor's restart of the command's time is left out.
unfoldable pub agent_process_work : Waiter → ℕ → Agents → Option (Code × Agents)
agent_process_work k agent_id s = elim (first_event agent_id s.events s.agent_list) [
  | none ↦ some (fail einval, s)
  | some e ↦
      let s' = get_agent_event e s in
      if is_crashed (s'.events e).agent_ready
      then some (fail efault, put_agent_event e s')
      else work_done e
          (wait_agent_response k.need_freeze k.sig_pending k.waits e (set_ret_flag true e s'))
]

-- The agent waits for work; -ERESTARTSYS is `eintr`: `meanwhile` is what the others do until it is woken up or interrupted.
unfoldable pub tc_ns_wait_event : Process → (Agents → Agents) → ℕ → Agents → Code × Agents
tc_ns_wait_event p meanwhile agent_id s =
    if is_fake p agent_id
    then (fail eperm, s)
    else elim (first_event agent_id s.events s.agent_list) [
      | none ↦ (fail einval, s)
      | some e ↦
          let s1 = get_agent_event e s in
          let s2 = meanwhile (set_event e (record (s1.events e) { agent_ready = ready }) s1) in
          (if (s2.events e).ret_flag then success else fail eintr, put_agent_event e s2)
    ]

-- The agent has done its work: `check_response_access`, then the answer.
unfoldable pub tc_ns_send_event_response : Process → ℕ → Agents → Code × Agents
tc_ns_send_event_response p agent_id s = elim (first_event agent_id s.events s.agent_list) [
  | none ↦ (fail einval, s)
  | some e ↦
      let s' = get_agent_event e s in
      if is_fake p agent_id
      then (fail einval, put_agent_event e s')
      else (success, put_agent_event e (process_send_event_response e s'))
]
