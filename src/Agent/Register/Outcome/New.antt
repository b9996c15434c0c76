-- ===== src/Agent/Register/Outcome/New.antt =====
-- `tc_ns_register_agent` of core/agent.c: the whole way of a new agent.
use itrustee_tzdriver.Base.{
  ℕ, ◌+◌, ◌≡◌, refl, sym, subst, Bool, true, false, not, Option, none, some, if◌then◌else◌,
}
use itrustee_tzdriver.Base.Errno.{success, fail}
use itrustee_tzdriver.Base.Update.{update, update_same}
use itrustee_tzdriver.Mailbox.{MbZone, State, mailbox_free, mailbox_alloc}
use itrustee_tzdriver.Mailbox.Inv.{Inv}
use itrustee_tzdriver.Mailbox.Grant.{Granted}
use itrustee_tzdriver.Mailbox.Contract.{SameUse-refl, wanted}
use itrustee_tzdriver.Agent.{Agents, set_event, first_event, get_agent_event}
use itrustee_tzdriver.Agent.Access.{Process, sz_4k, is_valid_agent}
use itrustee_tzdriver.Agent.Work.{is_crashed}
use itrustee_tzdriver.Agent.Register.{
  Env, set_pool, init_restart_agent_node, reuse_agent_node, new_event, create_new_agent_node,
  get_agent_buffer, register_agent_to_tee, unmap_agent_buffer, add_event_node_to_list, release_new,
  register_new, register_created, register_reused, tc_ns_register_agent,
}
use itrustee_tzdriver.Agent.Register.Pool.{
  PoolSame, mailbox_free-PoolSame, Alloc, mailbox_alloc-Alloc,
}
use itrustee_tzdriver.Agent.Register.Outcome.{
  IsNew, TeeSame, register_agent_to_tee-TeeSame, Outcome, is_unmapped, freed,
  registered_tee-Outcome,
}

-- What `get_agent_buffer` leaves of a new event.
abbrev Buffered : Option ℕ → ℕ → ℕ → ℕ → Agents → MbZone → Bool → Bool × Agents → Type 0
Buffered dev agent_id e buff s z' unmapped (done, s1) =
    (unmapped ≡ not done)
    × (s1.agent_list ≡ s.agent_list)
    × (s1.pool ≡ some z')
    × IsNew dev agent_id buff (s1.events e)

get_agent_buffer-Buffered :
    (env : Env) (user_agent : Bool) (dev : Option ℕ) (agent_id e buff : ℕ) (s s0 : Agents)
    (z' : MbZone)
    → s0.agent_list ≡ s.agent_list
    → s0.pool ≡ some z'
    → IsNew dev agent_id buff (s0.events e)
    → Buffered dev agent_id e buff s z'
        (is_unmapped env user_agent)
        (get_agent_buffer env user_agent e s0)
unfolding get_agent_buffer set_event
get_agent_buffer-Buffered env false dev agent_id e buff s s0 z' l p n = (refl, l, p, n)
get_agent_buffer-Buffered env true dev agent_id e buff s s0 z' l p n = go env.mapped
  where
    go :
        (m : Option ℕ)
        → Buffered dev agent_id e buff s z'
            (elim m [ none ↦ true | some u ↦ false ])
            (elim m [
              | none ↦ (false, s0)
              | some u ↦ (
                true,
                record s0 {
                  events = update s0.events e (record (s0.events e) { agent_buff_user = some u });
                },
              )
            ])
    go none = (refl, l, p, n)
    go (some u) = (refl, l, p, subst (IsNew dev agent_id buff) (sym (update_same s0.events e _)) n)

register_new-Outcome :
    (env : Env) (user_agent : Bool) (dev : Option ℕ) (agent_id size e pos : ℕ) (s s0 : Agents)
    (z z' : MbZone)
    → Granted z z' (wanted env.kernel size) pos
    → z'.all_pages ≡ z.all_pages
    → s0.agent_list ≡ s.agent_list
    → s0.pool ≡ some z'
    → IsNew dev agent_id (z.all_pages + pos) (s0.events e)
    → Outcome env dev agent_id size
        (is_unmapped env user_agent)
        s
        z
        (register_new env user_agent e (z.all_pages + pos) s0)
unfolding register_new release_new set_event
register_new-Outcome env user_agent dev agent_id size e pos s s0 z z' g b l p n =
    go (get_agent_buffer env user_agent e s0)
      (get_agent_buffer-Buffered env user_agent dev agent_id e (z.all_pages + pos) s s0 z' l p n)
  where
    tee : (s1 : Agents) → s1.pool ≡ some z' → TeeSame s1 z' (register_agent_to_tee env s1)
    tee s1 e1 =
        subst (λ (pool : State). TeeSame s1 z' (register_agent_to_tee env (set_pool pool s1)))
          (sym e1) (register_agent_to_tee-TeeSame env s1 z' g.inv)

    go :
        (r : Bool × Agents)
        → Buffered dev agent_id e (z.all_pages + pos) s z' (is_unmapped env user_agent) r
        → Outcome env dev agent_id size (is_unmapped env user_agent) s z (
            if not r.0
            then (success, release_new e (z.all_pages + pos) r.1)
            else elim (register_agent_to_tee env r.1).0 [
              | success ↦ (success, add_event_node_to_list e (register_agent_to_tee env r.1).1)
              | fail c ↦ (
                fail c,
                release_new e
                    (z.all_pages + pos)
                    (unmap_agent_buffer e (register_agent_to_tee env r.1).1),
              )
            ])
    go (true, s1) (u, l1, p1, n1) = rw u (
        registered_tee-Outcome env dev agent_id size e pos s s1 z z' (register_agent_to_tee env s1)
          g b l1 n1 (tee s1 p1))
    go (false, s1) (u, l1, p1, n1) = rw u (
      l1,
      subst (λ (pool : State). PoolSame z (mailbox_free (some (z.all_pages + pos)) pool)) (sym p1)
          (freed z z' (wanted env.kernel size) pos g (some z') b (SameUse-refl z' g.inv, refl)),
    )

-- What `create_new_agent_node` gives.
abbrev Created : Env → Option ℕ → ℕ → ℕ → Agents → MbZone → Option (ℕ × ℕ) × Agents → Type 0
Created env dev agent_id size s z (none, s') = (s'.agent_list ≡ s.agent_list) × PoolSame z s'.pool
Created env dev agent_id size s z (some (e, buff), s') =
    (pos : ℕ) × (z' : MbZone) × (buff ≡ z.all_pages + pos)
    × Granted z z' (wanted env.kernel size) pos
    × (z'.all_pages ≡ z.all_pages)
    × (s'.agent_list ≡ s.agent_list)
    × (s'.pool ≡ some z')
    × IsNew dev agent_id buff (s'.events e)

create_new_agent_node-Created :
    (env : Env) (dev : Option ℕ) (agent_id size : ℕ) (s : Agents) (z : MbZone)
    → Inv z
    → Created env dev agent_id size s z
        (create_new_agent_node env dev agent_id size (set_pool (some z) s))
unfolding create_new_agent_node set_event
create_new_agent_node-Created env dev agent_id size s z v =
    go (mailbox_alloc env.kernel size true (some z)) (mailbox_alloc-Alloc env.kernel size z v)
      env.kzalloc
  where
    go :
        (r : Option ℕ × State)
        → Alloc env.kernel size z r
        → (k : Option ℕ)
        → Created env dev agent_id size s z (elim r.0 [
          | none ↦ (none, set_pool r.1 s)
          | some b ↦ elim k [
            | none ↦ (none, set_pool (mailbox_free (some b) r.1) s)
            | some e ↦ (
              some (e, b),
              record s { events = update s.events e (new_event dev agent_id b size); pool = r.1 },
            )
          ]
        ])
    go (none, none) (h, b) k = absurd h
    go (some a, none) (h, b) k = absurd h
    go (none, some z') (h, b) k = (refl, (h, b))
    go (some a, some z') ((pos, at, g), b) none = (
      refl,
      subst (λ x. PoolSame z (mailbox_free (some x) (some z'))) (sym at)
          (mailbox_free-PoolSame z z' z' (wanted env.kernel size) pos g (SameUse-refl z' g.inv) b),
    )
    go (some a, some z') ((pos, at, g), b) (some e) = (
      pos,
      z',
      at,
      g,
      b,
      refl,
      refl,
      subst (IsNew dev agent_id a) (sym (update_same s.events e (new_event dev agent_id a size)))
          (refl, refl, refl, refl),
    )

reuse_agent_node-none :
    (dev : Option ℕ) (agent_id : ℕ) (s : Agents)
    → first_event agent_id s.events s.agent_list ≡ none
    → reuse_agent_node dev agent_id s ≡ (some none, s)
unfolding reuse_agent_node
reuse_agent_node-none dev agent_id s new =
    subst
      (λ o.
        elim o as (λ x. Option (Option ℕ) × Agents) [
          | none ↦ (some none, s)
          | some e ↦
              if not (is_crashed (s.events e).agent_ready)
              then (none, s)
              else (some (some e), init_restart_agent_node dev e (get_agent_event e s))
        ]
        ≡ (some none, s))
      (sym new) refl

register_created-Outcome :
    (env : Env) (user_agent : Bool) (dev : Option ℕ) (agent_id size : ℕ) (s : Agents) (z : MbZone)
    (r : Option (ℕ × ℕ) × Agents)
    → Created env dev agent_id size s z r
    → Outcome env dev agent_id size
        (is_unmapped env user_agent)
        s
        z
        (register_created env user_agent r)
unfolding register_created
register_created-Outcome env user_agent dev agent_id size s z (none, s') h = h
register_created-Outcome env user_agent dev agent_id size s z (some (e, buff), s')
      (pos, z', at, g, b, l, p, n) =
    subst
      (λ a.
        IsNew dev agent_id a (s'.events e)
        → Outcome env dev agent_id size (is_unmapped env user_agent) s z
            (register_new env user_agent e a s'))
      (sym at)
      (λ n'. register_new-Outcome env user_agent dev agent_id size e pos s s' z z' g b l p n') n

-- Over a sound pool, an agent that may register and whose number no event has: when it is refused for
-- an error, the list of agents is as it was and the pool has the same blocks in use. When the buffer of a
-- user agent cannot be mapped it is the same, but the function reports success. Otherwise the event is
-- at the end of the list with one user, registered, and owns a new block of the pool.
pub tc_ns_register_agent-Outcome :
    (env : Env) (p : Process) (dev : Option ℕ) (agent_id buffer_size : ℕ) (user_agent : Bool)
    (s : Agents) (z : MbZone)
    → Inv z
    → is_valid_agent p agent_id buffer_size user_agent ≡ true
    → first_event agent_id s.events s.agent_list ≡ none
    → Outcome env dev agent_id
        (env.kernel.align buffer_size sz_4k)
        (is_unmapped env user_agent)
        s
        z
        (tc_ns_register_agent env p dev agent_id buffer_size user_agent (set_pool (some z) s))
unfolding tc_ns_register_agent register_reused
tc_ns_register_agent-Outcome env p dev agent_id buffer_size user_agent s z v valid new =
    rw (valid, reuse_agent_node-none dev agent_id (set_pool (some z) s) new)
      (register_created-Outcome env user_agent dev agent_id size s z
        (create_new_agent_node env dev agent_id size (set_pool (some z) s))
        (create_new_agent_node-Created env dev agent_id size s z v))
  where
    size : ℕ
    size = env.kernel.align buffer_size sz_4k
