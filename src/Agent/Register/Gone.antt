-- ===== src/Agent/Register/Gone.antt =====
-- `tc_ns_unregister_agent` of core/agent.c from the command on, over a sound pool.
use itrustee_tzdriver.Base.{ℕ, ◌-◌, ◌≡◌, true, false, ◌&&◌, none, some, ltb, ◌==◌, if◌then◌else◌}
use itrustee_tzdriver.Base.Errno.{Errno, Code, success, fail}
use itrustee_tzdriver.Base.Nodes.{list_del}
use itrustee_tzdriver.Mailbox.{MbZone, State, free_page, mailbox_free}
use itrustee_tzdriver.Mailbox.Inv.{Inv, Taken}
use itrustee_tzdriver.Mailbox.Grant.{Granted}
use itrustee_tzdriver.Mailbox.Drop.{Dropped}
use itrustee_tzdriver.Agent.{Agents}
use itrustee_tzdriver.Agent.Register.{Env}
use itrustee_tzdriver.Agent.Register.Pool.{PoolSame}

-- The pool is sound and has the same blocks in use but the one at `pos`.
abbrev pub PoolWithout : MbZone → ℕ → State → Type 0
PoolWithout z pos none = ⊥
PoolWithout z pos (some z') = Inv z' × ((q : ℕ) → Dropped z z' pos q)

module _ (z z1 : MbZone) (order p pos : ℕ) (g : Granted z z1 order p) (t : Taken z pos) where
  module _ (b : z1.all_pages ≡ z.all_pages) where
    abbrev z2 : MbZone
    z2 = free_page pos z1

-- A user of the event gives it back; the last one frees it.
record Put (e : ℕ) (s s' : Agents) : Type 0 where
  list : s'.agent_list ≡ s.agent_list
  pool : s'.pool ≡ s.pool
  buffer : (s'.events e).agent_buff_kernel ≡ (s.events e).agent_buff_kernel
  usage : (s'.events e).usage ≡ (s.events e).usage - 1
  live : (s'.events e).live ≡ (if (s.events e).usage == 1 then false else (s.events e).live)

-- The event as `free_event_control` leaves it.
record Cleared (e : ℕ) (s s' : Agents) : Type 0 where
  list : s'.agent_list ≡ list_del e s.agent_list
  pool : s'.pool ≡ mailbox_free (s.events e).agent_buff_kernel s.pool
  buffer : (s'.events e).agent_buff_kernel ≡ none
  usage : (s'.events e).usage ≡ (s.events e).usage - 1
  live : (s'.events e).live ≡ (if (s.events e).usage == 1 then false else (s.events e).live)

-- After the call: on success the TEE has taken the command, the event is off the list, has no buffer and
-- two users less, and is freed with the last one; the block of the buffer is free. On failure the event
-- has lost the user that the call had, and the pool is as it was.
abbrev pub Unregistered : Env → ℕ → ℕ → Agents → MbZone → Code × Agents → Type 0
Unregistered env e pos s z (success, s') =
    (env.tee_takes ≡ true)
    × (s'.agent_list ≡ list_del e s.agent_list)
    × ((s'.events e).agent_buff_kernel ≡ none)
    × ((s'.events e).usage ≡ (s.events e).usage - 2)
    × ((s'.events e).live ≡ ((s.events e).live && ltb 2 (s.events e).usage))
    × PoolWithout z pos s'.pool
Unregistered env e pos s z (fail c, s') =
    (s'.agent_list ≡ s.agent_list)
    × ((s'.events e).agent_buff_kernel ≡ (s.events e).agent_buff_kernel)
    × ((s'.events e).usage ≡ (s.events e).usage - 1)
    × ((s'.events e).live ≡ (s.events e).live)
    × PoolSame z s'.pool
