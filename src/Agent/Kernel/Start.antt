-- ===== src/Agent/Kernel/Start.antt =====
-- `tee_agent_kernel_init` of core/agent.c: which agents are run.
use itrustee_tzdriver.Base.{
  ◌≡◌, refl, ap, true, false, none, List, [], ◌∷◌, map, All, if◌then◌else◌,
}
use itrustee_tzdriver.Base.Errno.{Code, success, fail}
use itrustee_tzdriver.Agent.Access.{failed}
use itrustee_tzdriver.Agent.Kernel.{
  TeeAgentKernelOps, Done, ran, is_agent_ops_valid, buff_size, kernel_init_loop,
  tee_agent_kernel_init,
}

-- A valid agent that relies on the default functions.
pub record Plain (o : TeeAgentKernelOps) : Type 0 where
  pub valid : is_agent_ops_valid o ≡ true
  pub no_init : o.tee_agent_init ≡ none
  pub no_exit : o.has_exit ≡ false

-- The agents up to the first that cannot be run, and that one.
unfoldable pub through_first_failure : List TeeAgentKernelOps → List TeeAgentKernelOps
through_first_failure [] = []
through_first_failure (o ∷ later) =
    let rest = through_first_failure later in if failed o.tee_agent_run then o ∷ [] else o ∷ rest

abbrev pub ran_as : TeeAgentKernelOps → Done
ran_as o = ran o.agent_id (buff_size o)

-- After a failure no plain agent is run.
kernel_init_loop-failed :
    (ret : Code) (agents : List TeeAgentKernelOps)
    → failed ret ≡ true
    → All Plain agents
    → kernel_init_loop ret agents ≡ []
unfolding kernel_init_loop
kernel_init_loop-failed ret [] f h = refl
kernel_init_loop-failed ret (o ∷ later) f (p, ps) =
    rw (p.valid, p.no_init, f) (kernel_init_loop-failed ret later f ps)

kernel_init_loop-success :
    (agents : List TeeAgentKernelOps)
    → All Plain agents
    → kernel_init_loop success agents ≡ map ran_as (through_first_failure agents)
unfolding kernel_init_loop through_first_failure
kernel_init_loop-success [] h = refl
kernel_init_loop-success (o ∷ later) (p, ps) =
    go o.tee_agent_run refl (kernel_init_loop-success later ps)
  where
    go :
        (r : Code)
        → o.tee_agent_run ≡ r
        → kernel_init_loop success later ≡ map ran_as (through_first_failure later)
        → kernel_init_loop success (o ∷ later) ≡ map ran_as (through_first_failure (o ∷ later))
    go success e h = rw (p.valid, p.no_init, e) (ap (λ r. ran_as o ∷ r) h)
    go (fail c) e h =
        rw (p.valid, p.no_init, p.no_exit, e)
          (ap (λ r. ran_as o ∷ r) (kernel_init_loop-failed (fail c) later refl ps))

-- Of agents that are valid and have neither an init nor an exit function of their own, those are run
-- that come before the first that cannot be run, and that one: its error keeps the later ones from
-- being run.
pub tee_agent_kernel_init-through_first_failure :
    (agents : List TeeAgentKernelOps)
    → All Plain agents
    → tee_agent_kernel_init agents ≡ map ran_as (through_first_failure agents)
unfolding tee_agent_kernel_init
tee_agent_kernel_init-through_first_failure agents h = kernel_init_loop-success agents h
