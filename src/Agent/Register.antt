-- ===== src/Agent/Register.antt =====
-- core/agent.c: agents are registered and unregistered. The commands to the TEE and the mapping of a
-- buffer into a process are given by their outcomes.
pub mod Restart
pub mod Refused
pub mod Gone
pub mod Pool
pub mod Outcome
use itrustee_tzdriver.Base.{
  ℕ, ◌+◌, Bool, true, false, ◌&&◌, ◌||◌, not, Option, none, some, List, [], ◌∷◌, ◌==◌,
  if◌then◌else◌,
}
use itrustee_tzdriver.Base.Errno.{Code, success, fail, einval, enomem, eperm, eacces, efault}
use itrustee_tzdriver.Base.Nodes.{list_add_tail, list_del}
use itrustee_tzdriver.Mailbox.{State, mailbox_alloc, mailbox_alloc_cmd_pack, mailbox_free}
use itrustee_tzdriver.Mailbox
use itrustee_tzdriver.Agent.{
  AgentStateType, crashed, registered, ready, SmcEventData, Agents, set_event, get_agent_event,
  put_agent_event, first_event,
}
use itrustee_tzdriver.Agent.Access.{
  Process, sz_4k, is_valid_agent, check_for_unregister_agent, is_third_party_agent,
}
use itrustee_tzdriver.Agent.Work.{is_crashed}

-- What a call finds: the mailbox's kernel functions, the address that `kzalloc` gives, the user address
-- of the mapping, if it works, and whether the TEE takes the command.
pub record Env : Type 0 where
  pub kernel : Mailbox.Kernel
  pub kzalloc : Option ℕ
  pub mapped : Option ℕ
  pub tee_takes : Bool

abbrev pub set_pool : State → Agents → Agents
set_pool pool s = record s { pool = pool }

-- `vm_munmap` and its report are left out.
unfoldable pub unmap_agent_buffer : ℕ → Agents → Agents
unmap_agent_buffer e s = set_event e (record (s.events e) { agent_buff_user = none }) s

unfoldable pub init_restart_agent_node : Option ℕ → ℕ → Agents → Agents
init_restart_agent_node dev e s =
    set_event e
      (record (s.events e) {
        ret_flag = false;
        owner = dev;
        agent_ready = registered;
        ca_run = false;
      })
      s

-- Whether an event was found, and `none` for an agent that is still there.
unfoldable pub reuse_agent_node : Option ℕ → ℕ → Agents → Option (Option ℕ) × Agents
reuse_agent_node dev agent_id s = elim (first_event agent_id s.events s.agent_list) [
  | none ↦ (some none, s)
  | some e ↦
      if not (is_crashed (s.events e).agent_ready)
      then (none, s)
      else (some (some e), init_restart_agent_node dev e (get_agent_event e s))
]

abbrev pub new_event : Option ℕ → ℕ → ℕ → ℕ → SmcEventData
new_event dev agent_id buff buff_size = record {
  agent_id = agent_id;
  agent_ready = registered;
  ret_flag = false;
  owner = dev;
  agent_buff_kernel = some buff;
  agent_buff_user = none;
  agent_buff_size = buff_size;
  usage = 0;
  ca_run = false;
  live = true;
}

-- The event and its buffer; `none` is -ENOMEM.
unfoldable pub create_new_agent_node : Env → Option ℕ → ℕ → ℕ → Agents → Option (ℕ × ℕ) × Agents
create_new_agent_node env dev agent_id size s =
    let (buff, pool) = mailbox_alloc env.kernel size true s.pool in
    let s' = set_pool pool s in
    elim buff [
      | none ↦ (none, s')
      | some b ↦ elim env.kzalloc [
        | none ↦ (none, set_pool (mailbox_free (some b) pool) s)
        | some e ↦ (some (e, b), set_event e (new_event dev agent_id b size) s')
      ]
    ]

-- `true` is success; a mapping that fails leaves no user address.
unfoldable pub get_agent_buffer : Env → Bool → ℕ → Agents → Bool × Agents
get_agent_buffer env user_agent e s = if not user_agent then (true, s) else elim env.mapped [
  | none ↦ (false, s)
  | some u ↦ (true, set_event e (record (s.events e) { agent_buff_user = some u }) s)
]

unfoldable pub register_agent_to_tee : Env → Agents → Code × Agents
register_agent_to_tee env s =
    let (pack, pool) = mailbox_alloc_cmd_pack env.kernel s.pool in
    elim pack [
      | none ↦ (fail enomem, set_pool pool s)
      | some p ↦
          (if env.tee_takes then success else fail eperm, set_pool (mailbox_free (some p) pool) s)
    ]

unfoldable pub add_event_node_to_list : ℕ → Agents → Agents
add_event_node_to_list e s =
    set_event e (record (s.events e) { usage = 1 })
      (record s { agent_list = list_add_tail e s.agent_list })

-- The label `release_rsrc` for a new event: it is freed, and its buffer.
unfoldable pub release_new : ℕ → ℕ → Agents → Agents
release_new e buff s =
    set_pool (mailbox_free (some buff) s.pool)
      (set_event e (record (s.events e) { live = false }) s)

-- The rest of `tc_ns_register_agent` for an event that is used again; when the mapping fails the
-- function returns the `ret` that it has, -EINVAL.
unfoldable pub register_again : Env → Bool → ℕ → Agents → Code × Agents
register_again env user_agent e s =
    let (done, s') = get_agent_buffer env user_agent e s in
    (if done then success else fail einval, put_agent_event e s')

-- The same for a new event; when the mapping fails, `ret` is the 0 of `create_new_agent_node`.
unfoldable pub register_new : Env → Bool → ℕ → ℕ → Agents → Code × Agents
register_new env user_agent e buff s =
    let (done, s1) = get_agent_buffer env user_agent e s in
    let (code, s2) = register_agent_to_tee env s1 in
    if not done then (success, release_new e buff s1) else elim code [
      | success ↦ (success, add_event_node_to_list e s2)
      | fail c ↦ (fail c, release_new e buff (unmap_agent_buffer e s2))
    ]

-- `tc_ns_register_agent` from `create_new_agent_node` on.
unfoldable pub register_created : Env → Bool → Option (ℕ × ℕ) × Agents → Code × Agents
register_created env user_agent (none, s) = (fail enomem, s)
register_created env user_agent (some (e, buff), s) = register_new env user_agent e buff s

-- The same from `reuse_agent_node` on.
unfoldable pub register_reused :
    Env → Option ℕ → ℕ → ℕ → Bool → Option (Option ℕ) × Agents → Code × Agents
register_reused env dev agent_id size user_agent (none, s) = (fail einval, s)
register_reused env dev agent_id size user_agent (some (some e), s) =
    register_again env user_agent e s
register_reused env dev agent_id size user_agent (some none, s) =
    register_created env user_agent (create_new_agent_node env dev agent_id size s)

-- `tc_ns_register_agent` for a `buffer` that is not NULL.
unfoldable pub tc_ns_register_agent :
    Env → Process → Option ℕ → ℕ → ℕ → Bool → Agents → Code × Agents
tc_ns_register_agent env p dev agent_id buffer_size user_agent s =
    if not (is_valid_agent p agent_id buffer_size user_agent)
    then (fail einval, s)
    else register_reused env dev agent_id (env.kernel.align buffer_size sz_4k) user_agent
        (reuse_agent_node dev agent_id s)

unfoldable pub free_event_control : ℕ → Agents → Agents
free_event_control agent_id s = elim (first_event agent_id s.events s.agent_list) [
  | none ↦ s
  | some e ↦
      let s1 = unmap_agent_buffer e (record s { agent_list = list_del e s.agent_list }) in
      let s2 = set_pool (mailbox_free (s1.events e).agent_buff_kernel s1.pool) s1 in
      put_agent_event e (set_event e (record (s2.events e) { agent_buff_kernel = none }) s2)
]

-- `tc_ns_unregister_agent` from the command to the TEE on, for the event found.
unfoldable pub unregister_found : Env → ℕ → ℕ → Agents → Code × Agents
unregister_found env agent_id e s =
    let (pack, pool) = mailbox_alloc_cmd_pack env.kernel s.pool in
    let s1 = set_pool pool s in
    elim pack [
      | none ↦ (fail enomem, put_agent_event e s1)
      | some p ↦
          let s2 =
            put_agent_event e (if env.tee_takes then free_event_control agent_id s1 else s1) in
          (
            if env.tee_takes then success else fail eperm,
            set_pool (mailbox_free (some p) s2.pool) s2,
          )
    ]

-- An event without a buffer keeps the user that `find_event_control` has counted.
unfoldable pub tc_ns_unregister_agent : Env → Process → ℕ → Agents → Code × Agents
tc_ns_unregister_agent env p agent_id s = elim (check_for_unregister_agent p agent_id) [
  | fail e ↦ (fail einval, s)
  | success ↦
      if not (is_third_party_agent agent_id)
      then (fail eacces, s)
      else elim (first_event agent_id s.events s.agent_list) [
        | none ↦ (fail einval, s)
        | some e ↦
            let s' = get_agent_event e s in
            elim (s.events e).agent_buff_kernel [
              | none ↦ (fail einval, s')
              | some b ↦ unregister_found env agent_id e s'
            ]
      ]
]
