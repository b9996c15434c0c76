-- ===== src/ClientCall/Built/Whole.antt =====
-- core/gp_ops.c, the loop of `alloc_operation`.
use itrustee_tzdriver.Base.{ℕ, zero, suc, ◌+◌, ◌<◌, refl, subst, ◌≢◌, arith}
use itrustee_tzdriver.Base.Errno.{Code, success, fail}
use itrustee_tzdriver.Base.Nodes.{occurs}
use itrustee_tzdriver.ClientCall.{PoolOps, SharedMem, Work, CallEnv, and_then}
use itrustee_tzdriver.ClientCall.Alloc.{alloc_param, alloc_loop}
use itrustee_tzdriver.ClientCall.Slots.{PoolLaws, BuiltWork, Built-suc}
use itrustee_tzdriver.ClientCall.Built.{Kept}
use itrustee_tzdriver.ClientCall.Built.Params.{alloc_as-Kept}

module _ {S : Type 0} (pool : PoolOps S) (laws : PoolLaws pool) (env : CallEnv) (base : ℕ → ℕ)
    (mems0 : ℕ → SharedMem)
    (live : (m : ℕ) → 0 < occurs m env.shared_mem_list → (mems0 m).usage ≢ 0) where
  alloc_param-Kept :
      (i : ℕ) (w : Work S)
      → BuiltWork pool laws env base mems0 i w
      → Kept pool laws env base mems0 i (alloc_param pool env i w)
  unfolding alloc_param
  alloc_param-Kept i w b = alloc_as-Kept pool laws env base mems0 i _ _ w refl live b

  Built-rest :
      (n i : ℕ) (w : Work S)
      → BuiltWork pool laws env base mems0 i w
      → BuiltWork pool laws env base mems0 (n + i) w
  Built-rest zero i w b = subst (λ k. BuiltWork pool laws env base mems0 k w) (omega arith) b
  Built-rest (suc n) i w b =
      subst (λ k. BuiltWork pool laws env base mems0 k w) (omega arith)
        (Built-rest n (suc i) w (Built-suc pool laws env base mems0 i _ _ _ _ _ b))

  -- All that was allocated is kept by the parameters, whether the loop ends or fails.
  pub alloc_loop-Built :
      (n i : ℕ) (w : Work S)
      → BuiltWork pool laws env base mems0 i w
      → BuiltWork pool laws env base mems0 (n + i) (alloc_loop pool env n i w).1
  unfolding alloc_loop
  alloc_loop-Built zero i w b = subst (λ k. BuiltWork pool laws env base mems0 k w) (omega arith) b
  alloc_loop-Built (suc n) i w b =
      go (alloc_param pool env i w) (alloc_param-Kept i w b)
        (λ w' c. alloc_loop-Built n (suc i) w' c)
    where
      go :
          (r : Code × Work S)
          → Kept pool laws env base mems0 i r
          → ((w' : Work S)
              → BuiltWork pool laws env base mems0 (suc i) w'
              → BuiltWork pool laws env base mems0 (n + suc i) (alloc_loop pool env n (suc i) w').1)
          → BuiltWork pool laws env base mems0
              (suc n + i)
              (and_then r (λ w'. alloc_loop pool env n (suc i) w')).1
      go (success, w') k rest =
          subst (λ m. BuiltWork pool laws env base mems0 m (alloc_loop pool env n (suc i) w').1)
            (omega arith) (rest w' k.built)
      go (fail e, w') k rest =
          subst (λ m. BuiltWork pool laws env base mems0 m w') (omega arith)
            (Built-rest n (suc i) w' k.built)
