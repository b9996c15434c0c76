-- ===== src/Agent/Register/Outcome.antt =====
-- `tc_ns_register_agent` of core/agent.c: a new agent, over a sound pool.
pub mod New
use itrustee_tzdriver.Base.{
  ℕ, ◌+◌, ◌≡◌, refl, sym, ap, subst, ◌∙◌, Bool, true, false, ◌&&◌, not, Option, none, some, List,
  if◌then◌else◌, arith, if_cases, if_cases_of,
}
use itrustee_tzdriver.Base.Errno.{Code, success, fail, einval, enomem, eperm}
use itrustee_tzdriver.Base.Nodes.{list_add_tail}
use itrustee_tzdriver.Base.Update.{update, update_same}
use itrustee_tzdriver.Mailbox.{MbZone, State, mailbox_free, mailbox_alloc, mailbox_alloc_cmd_pack}
use itrustee_tzdriver.Mailbox.Inv.{Inv}
use itrustee_tzdriver.Mailbox.Grant.{Granted}
use itrustee_tzdriver.Mailbox.Contract.{SameUse, SameUse-refl, wanted}
use itrustee_tzdriver.Agent.{
  AgentStateType, registered, SmcEventData, Agents, set_event, first_event,
}
use itrustee_tzdriver.Agent.Access.{Process, sz_4k, is_valid_agent}
use itrustee_tzdriver.Agent.Register.{
  Env, set_pool, reuse_agent_node, new_event, create_new_agent_node, get_agent_buffer,
  register_agent_to_tee, unmap_agent_buffer, add_event_node_to_list, release_new, register_new,
  tc_ns_register_agent,
}
use itrustee_tzdriver.Agent.Register.Pool.{
  PoolSame, PoolGranted, Granted-SameUse, mailbox_free-PoolSame, Alloc, mailbox_alloc-Alloc,
  mailbox_alloc_cmd_pack-Alloc,
}

-- Nothing but what is in use stays: the list and the events are the same, and the pool.
abbrev pub TeeSame : Agents → MbZone → Code × Agents → Type 0
TeeSame s z (c, s') = (s'.agent_list ≡ s.agent_list) × (s'.events ≡ s.events) × PoolSame z s'.pool

pub register_agent_to_tee-TeeSame :
    (env : Env) (s : Agents) (z : MbZone)
    → Inv z
    → TeeSame s z (register_agent_to_tee env (set_pool (some z) s))
unfolding register_agent_to_tee
register_agent_to_tee-TeeSame env s z v =
    go (mailbox_alloc_cmd_pack env.kernel (some z)) (mailbox_alloc_cmd_pack-Alloc env.kernel z v)
  where
    go :
        (r : Option ℕ × State)
        → Alloc env.kernel sz_4k z r
        → TeeSame s z (elim r.0 [
          | none ↦ (fail enomem, set_pool r.1 s)
          | some p ↦ (
            if env.tee_takes then success else fail eperm,
            set_pool (mailbox_free (some p) r.1) s,
          )
        ])
    go (none, none) (h, b) = absurd h
    go (some p, none) (h, b) = absurd h
    go (none, some z') (h, b) = (refl, refl, (h, b))
    go (some p, some z') ((pos, at, g), b) = (
      refl,
      refl,
      subst (λ a. PoolSame z (mailbox_free (some a) (some z'))) (sym at)
          (mailbox_free-PoolSame z z' z' (wanted env.kernel sz_4k) pos g (SameUse-refl z' g.inv) b),
    )

-- A new agent is on the list, in use by it alone, and has its buffer.
pub record NewAgent (env : Env) (dev : Option ℕ) (agent_id size : ℕ) (s : Agents) (z : MbZone)
    (s' : Agents) : Type 0 where
  pub e : ℕ
  pub pos : ℕ
  pub list : s'.agent_list ≡ list_add_tail e s.agent_list
  pub id : (s'.events e).agent_id ≡ agent_id
  pub state : (s'.events e).agent_ready ≡ registered
  pub owner : (s'.events e).owner ≡ dev
  pub usage : (s'.events e).usage ≡ 1
  pub buffer : (s'.events e).agent_buff_kernel ≡ some (z.all_pages + pos)
  pub pool : PoolGranted z (wanted env.kernel size) pos s'.pool

-- The outcome; `unmapped` is that the buffer of a user agent could not be mapped.
abbrev pub Outcome : Env → Option ℕ → ℕ → ℕ → Bool → Agents → MbZone → Code × Agents → Type 0
Outcome env dev agent_id size unmapped s z (fail c, s') =
    (s'.agent_list ≡ s.agent_list) × PoolSame z s'.pool
Outcome env dev agent_id size true s z (success, s') =
    (s'.agent_list ≡ s.agent_list) × PoolSame z s'.pool
Outcome env dev agent_id size false s z (success, s') = NewAgent env dev agent_id size s z s'

abbrev pub is_unmapped : Env → Bool → Bool
is_unmapped env user_agent = user_agent && elim env.mapped [ none ↦ true | some u ↦ false ]

-- What the event of a new agent holds.
abbrev pub IsNew : Option ℕ → ℕ → ℕ → SmcEventData → Type 0
IsNew dev agent_id buff d =
    (d.agent_id ≡ agent_id)
    × (d.agent_ready ≡ registered)
    × (d.owner ≡ dev)
    × (d.agent_buff_kernel ≡ some buff)

module _ (z z' : MbZone) (order pos : ℕ) (g : Granted z z' order pos) where
  pub freed :
      (pool : State)
      → z'.all_pages ≡ z.all_pages
      → PoolSame z' pool
      → PoolSame z (mailbox_free (some (z.all_pages + pos)) pool)
  freed none b h = absurd h
  freed (some z2) b (u, b2) = mailbox_free-PoolSame z z' z2 order pos g u (b2 ∙ b)

  granted : (pool : State) → PoolSame z' pool → PoolGranted z order pos pool
  granted none h = absurd h
  granted (some z2) (u, b) = Granted-SameUse z z' z2 order pos g u

-- The end of `register_new`, with what the TEE said.
pub registered_tee-Outcome :
    (env : Env) (dev : Option ℕ) (agent_id size e pos : ℕ) (s s1 : Agents) (z z' : MbZone)
    (r : Code × Agents)
    → Granted z z' (wanted env.kernel size) pos
    → z'.all_pages ≡ z.all_pages
    → s1.agent_list ≡ s.agent_list
    → IsNew dev agent_id (z.all_pages + pos) (s1.events e)
    → TeeSame s1 z' r
    → Outcome env dev agent_id size false s z (elim r.0 [
      | success ↦ (success, add_event_node_to_list e r.1)
      | fail c ↦ (fail c, release_new e (z.all_pages + pos) (unmap_agent_buffer e r.1))
    ])
unfolding add_event_node_to_list release_new unmap_agent_buffer set_event
registered_tee-Outcome env dev agent_id size e pos s s1 z z' (fail c, s2) g b l n (l2, ev, p) =
    (l2 ∙ l, freed z z' (wanted env.kernel size) pos g s2.pool b p)
registered_tee-Outcome env dev agent_id size e pos s s1 z z' (success, s2) g b l n (l2, ev, p) =
    record {
      e = e;
      pos = pos;
      list = ap (list_add_tail e) (l2 ∙ l);
      id = ap (λ d. d.agent_id) same ∙ n.0;
      state = ap (λ d. d.agent_ready) same ∙ n.1;
      owner = ap (λ d. d.owner) same ∙ n.2;
      usage = ap (λ d. d.usage) put;
      buffer = ap (λ d. d.agent_buff_kernel) same ∙ n.3;
      pool = granted z z' (wanted env.kernel size) pos g s2.pool p;
    }
  where
    put :
        update s2.events e (record (s2.events e) { usage = 1 }) e
        ≡ record (s2.events e) { usage = 1 }
    put = update_same s2.events e (record (s2.events e) { usage = 1 })

    same :
        update s2.events e (record (s2.events e) { usage = 1 }) e
        ≡ record (s1.events e) { usage = 1 }
    same = put ∙ ap (λ (f : ℕ → SmcEventData). record (f e) { usage = 1 }) ev
