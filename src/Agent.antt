-- ===== src/Agent.antt =====
-- core/agent.c: the agents that serve the TEE, their events and the counts of users. An event is named
-- by a number, its address; `events` is the memory, `agent_list` the list of `g_agent_control`.
pub mod Access
pub mod Work
pub mod Register
pub mod Kernel
mod Tests
use itrustee_tzdriver.Base.{
  ℕ, ◌+◌, ◌-◌, Bool, true, false, Option, none, some, List, [], ◌∷◌, ◌==◌, if◌then◌else◌,
}
use itrustee_tzdriver.Base.Update.{update}
use itrustee_tzdriver.Mailbox.{State}

-- `enum agent_state_type`, without its prefix.
pub data AgentStateType : Type 0 where
  crashed registered ready : AgentStateType

-- Pointers are `none` where they are NULL; `live` says that the memory is not freed.
pub record SmcEventData : Type 0 where
  pub agent_id : ℕ
  pub agent_ready : AgentStateType
  pub ret_flag : Bool
  pub owner : Option ℕ
  pub agent_buff_kernel : Option ℕ
  pub agent_buff_user : Option ℕ
  pub agent_buff_size : ℕ
  pub usage : ℕ
  pub ca_run : Bool
  pub live : Bool

-- `pool` is the memory shared with the TEE, in which agents have their buffers.
pub record Agents : Type 0 where
  pub events : ℕ → SmcEventData
  pub agent_list : List ℕ
  pub pool : State

unfoldable pub set_event : ℕ → SmcEventData → Agents → Agents
set_event e d s = record s { events = update s.events e d }

unfoldable pub get_agent_event : ℕ → Agents → Agents
get_agent_event e s = set_event e (record (s.events e) { usage = (s.events e).usage + 1 }) s

-- The last user frees the event.
unfoldable pub put_agent_event : ℕ → Agents → Agents
put_agent_event e s =
    let d = record (s.events e) { usage = (s.events e).usage - 1 } in
    if (s.events e).usage == 1 then set_event e (record d { live = false }) s else set_event e d s

-- The first event of the list that has the agent's number.
unfoldable pub first_event : ℕ → (ℕ → SmcEventData) → List ℕ → Option ℕ
first_event agent_id events [] = none
first_event agent_id events (e ∷ later) =
    let rest = first_event agent_id events later in
    if (events e).agent_id == agent_id then some e else rest

unfoldable pub find_event_control : ℕ → Agents → Option ℕ × Agents
find_event_control agent_id s = elim (first_event agent_id s.events s.agent_list) [
  | none ↦ (none, s)
  | some e ↦ (some e, get_agent_event e s)
]

-- `true` is `AGENT_ALIVE`.
unfoldable pub is_agent_alive : ℕ → Agents → Bool × Agents
is_agent_alive agent_id s = elim (first_event agent_id s.events s.agent_list) [
  | none ↦ (false, s)
  | some e ↦ (true, put_agent_event e (get_agent_event e s))
]

unfoldable pub process_send_event_response : ℕ → Agents → Agents
process_send_event_response e s =
    if (s.events e).ret_flag
    then set_event e (record (s.events e) { ret_flag = false; ca_run = true }) s
    else s

-- `send_event_response` for the event found, which then loses the user that was counted.
unfoldable pub crash_event : ℕ → Agents → Agents
crash_event e s =
    let s1 = get_agent_event e s in
    let s2 = set_event e (record (s1.events e) { agent_ready = crashed }) s1 in
    put_agent_event e (process_send_event_response e s2)

-- An agent has crashed: its CA goes on.
unfoldable pub send_event_response : ℕ → Agents → Agents
send_event_response agent_id s = elim (first_event agent_id s.events s.agent_list) [
  | none ↦ s
  | some e ↦ crash_event e s
]

abbrev pub agent_max : ℕ
agent_max = 32

-- Whether the event belongs to the device file.
unfoldable pub owned_by : ℕ → SmcEventData → Bool
owned_by dev d = elim d.owner [ none ↦ false | some o ↦ o == dev ]

unfoldable pub is_system_agent : Option ℕ → Agents → Bool
is_system_agent none s = false
is_system_agent (some dev) s = any s.agent_list
  where
    any : List ℕ → Bool
    any [] = false
    any (e ∷ later) = let rest = any later in if owned_by dev (s.events e) then true else rest

-- The numbers of the device file's agents, at most `n` of them.
unfoldable pub owned_ids : ℕ → (ℕ → SmcEventData) → ℕ → List ℕ → List ℕ
owned_ids dev events n [] = []
owned_ids dev events n (e ∷ later) =
    let rest = owned_ids dev events n later in
    let next = owned_ids dev events (n - 1) later in
    if owned_by dev (events e) then (if n == 0 then rest else (events e).agent_id ∷ next) else rest

-- The second loop of `send_crashed_event_response_all`; a number that is 0 is left out.
unfoldable pub respond_all : List ℕ → Agents → Agents
respond_all [] s = s
respond_all (i ∷ ids) s =
    let s' = if i == 0 then s else send_event_response i s in respond_all ids s'

unfoldable pub send_crashed_event_response_all : Option ℕ → Agents → Agents
send_crashed_event_response_all none s = s
send_crashed_event_response_all (some dev) s =
    respond_all (owned_ids dev s.events agent_max s.agent_list) s

-- Only the first agent of the device file loses its owner.
unfoldable pub tee_agent_clear_dev_owner : ℕ → Agents → Agents
tee_agent_clear_dev_owner dev s = clear_first s.agent_list
  where
    clear_first : List ℕ → Agents
    clear_first [] = s
    clear_first (e ∷ later) =
        let rest = clear_first later in
        if owned_by dev (s.events e)
        then set_event e (record (s.events e) { owner = none }) s
        else rest

-- The number of the first agent of the device file, or 0.
unfoldable pub first_owned_id : ℕ → (ℕ → SmcEventData) → List ℕ → ℕ
first_owned_id dev events [] = 0
first_owned_id dev events (e ∷ later) =
    let rest = first_owned_id dev events later in
    if owned_by dev (events e) then (events e).agent_id else rest

unfoldable pub send_event_response_single : Option ℕ → Agents → Agents
send_event_response_single none s = s
send_event_response_single (some dev) s =
    send_event_response (first_owned_id dev s.events s.agent_list) s
