-- ===== src/Agent/Register/Refused.antt =====
-- `tc_ns_unregister_agent` of core/agent.c, in a build that allows no other agents.
use itrustee_tzdriver.Base.{
  ℕ, ◌≡◌, ◌≢◌, ◌⊎◌, inl, inr, refl, true, false, ◌&&◌, not, arith, ◌==◌, if_cases_of,
}
use itrustee_tzdriver.Base.Errno.{Code, success, fail, einval, eacces}
use itrustee_tzdriver.Agent.{Agents}
use itrustee_tzdriver.Agent.Access.{
  Process, check_for_unregister_agent, is_built_in_agent, is_third_party_agent, third_party_in,
}
use itrustee_tzdriver.Agent.Register.{Env, tc_ns_unregister_agent}

-- The process is neither root nor the system, or the agent is that of files, of the miscellaneous, of
-- sockets or of the loading of TAs.
abbrev pub Forbidden : Process → ℕ → Type 0
Forbidden p agent_id =
    ((p.uid ≢ 0) × (p.uid ≢ 1000))
    ⊎ ((agent_id ≡ 0x46536673)
        ⊎ ((agent_id ≡ 0x4d495343) ⊎ ((agent_id ≡ 0x69e85664) ⊎ (agent_id ≡ 0x4c4f4144))))

-- Nothing has changed, and the error says whether the call was forbidden.
abbrev pub Refused : Process → ℕ → Agents → Code × Agents → Type 0
Refused p agent_id s (c, s') =
    (s' ≡ s)
    × ((Forbidden p agent_id × (c ≡ fail einval)) ⊎ ((¬ Forbidden p agent_id) × (c ≡ fail eacces)))

-- What the answer of `check_for_unregister_agent` says.
abbrev Checked : Process → ℕ → Code → Type 0
Checked p agent_id (fail e) = Forbidden p agent_id
Checked p agent_id success = ¬ Forbidden p agent_id

built_in :
    (agent_id : ℕ)
    → is_built_in_agent agent_id ≡ true
    → (agent_id ≡ 0x46536673)
      ⊎ ((agent_id ≡ 0x4d495343) ⊎ ((agent_id ≡ 0x69e85664) ⊎ (agent_id ≡ 0x4c4f4144)))
unfolding is_built_in_agent
built_in agent_id h = ground (arith, h)

-- What `check_for_unregister_agent` lets through.
check_for_unregister_agent-Checked :
    (p : Process) (agent_id : ℕ) → Checked p agent_id (check_for_unregister_agent p agent_id)
unfolding check_for_unregister_agent is_built_in_agent
check_for_unregister_agent-Checked p agent_id =
    if_cases_of (Checked p agent_id) (not (p.uid == 0) && not (p.uid == 1000))
      (λ h. inl (ground (arith, h), ground (arith, h)))
      (λ u.
        if_cases_of (Checked p agent_id) (is_built_in_agent agent_id)
          (λ h. inr (built_in agent_id h)) (λ h. allowed u h))
  where
    allowed :
        (not (p.uid == 0) && not (p.uid == 1000)) ≡ false
        → is_built_in_agent agent_id ≡ false
        → ¬ Forbidden p agent_id
    allowed u h (inl (a, b)) = ground (arith, u, a, b)
    allowed u h (inr b) = ground (arith, h, b)

-- No agent is ever unregistered: the call leaves the agents and the pool as they are, with EINVAL for a
-- process that is neither root nor the system or an agent that is built in, and EACCES for any other.
pub tc_ns_unregister_agent-Refused :
    (env : Env) (p : Process) (agent_id : ℕ) (s : Agents)
    → Refused p agent_id s (tc_ns_unregister_agent env p agent_id s)
unfolding tc_ns_unregister_agent is_third_party_agent third_party_in
tc_ns_unregister_agent-Refused env p agent_id s =
    go (check_for_unregister_agent p agent_id) (check_for_unregister_agent-Checked p agent_id)
  where
    go :
        (c : Code)
        → Checked p agent_id c
        → Refused p agent_id s (elim c as (λ x. Code × Agents) [
          | fail e ↦ (fail einval, s)
          | success ↦ (fail eacces, s)
        ])
    go (fail e) h = (refl, inl (h, refl))
    go success h = (refl, inr (h, refl))
