-- ===== src/ClientCall/Run.antt =====
-- core/gp_ops.c, `tc_client_call`: the whole call. What the TEE answers is a list of turns.
use itrustee_tzdriver.Base.{
  ℕ, true, false, not, Option, none, some, List, [], ◌∷◌, ◌==◌, if◌then◌else◌,
}
use itrustee_tzdriver.Base.Errno.{enomem, Code, success, fail}
use itrustee_tzdriver.Smc.Cmd.{Cmd, teec_pending}
use itrustee_tzdriver.ClientCall.{PoolOps, SharedMem, Work, CallEnv}
use itrustee_tzdriver.ClientCall.Alloc.{free_operation, alloc_operation}
use itrustee_tzdriver.ClientCall.Update.{Rewrite, update_client_operation}
use itrustee_tzdriver.ClientCall.Command.{
  teec_origin_comms, teec_client_intr, teec_error_short_buffer, Ret, of_code, is_negative, Context,
  TeeReturn, CallerProcess, start_cmd, zero_operation, config_smc_cmd_context, reset_session_id,
  restart_sys, tee_fault, error,
}

-- What stands at the end of a call; `smc_cmd` is the command as it was when it was freed.
pub record CallEnd (S : Type 0) : Type 0 where
  pub ret : Ret
  pub context : Context
  pub pool : S
  pub words : ℕ → ℕ
  pub mems : ℕ → SharedMem

-- `op_params` once its pack is allocated.
unfoldable pub start_work : {S : Type 0} → S → (ℕ → ℕ) → (ℕ → SharedMem) → Work S
start_work pool words mems = record {
  pool = pool;
  words = words;
  mems = mems;
  transfers = [];
  operation = zero_operation;
  local_tmpbuf = λ i. record { temp_buffer = none; size = 0 };
  trans_paramtype = λ i. 0;
  op_inited = false;
}

module _ {S : Type 0} (pool : PoolOps S) (env : CallEnv) (caller : CallerProcess)
    (rewrite : Rewrite) where
  -- What the TEE has done when it returns.
  abbrev pub returned : TeeReturn → Work S → Work S
  returned t w = record w { operation = t.written w.operation }

  -- `handle_ta_pending`, with the answer of the call before; `none` says that no one wakes the thread.
  -- The session's wait flag is not kept.
  unfoldable pub handle_ta_pending :
      List TeeReturn → ℕ → Cmd → Work S → Option (Code × ℕ × Cmd × Work S)
  handle_ta_pending [] tee_ret cmd w =
      if tee_ret == teec_pending then none else some (success, tee_ret, cmd, w)
  handle_ta_pending (t ∷ ts) tee_ret cmd w =
      let later = handle_ta_pending ts t.tee_ret (t.answer cmd) (returned t w) in
      if not (tee_ret == teec_pending) then some (success, tee_ret, cmd, w) else elim t.append [
        | fail e ↦ some (fail e, tee_ret, cmd, w)
        | success ↦ elim t.post [
          | fail e ↦ some (fail e, t.tee_ret, t.answer cmd, returned t w)
          | success ↦ later
        ]
      ]

  unfoldable pub post_proc_smc_return : ℕ → Work S → Ret × Work S
  unfolding update_client_operation
  post_proc_smc_return tee_ret w =
      let (code, updated) = update_client_operation env rewrite true w in
      let short = (update_client_operation env rewrite false w).1 in
      if tee_ret == 0 then (of_code code, updated) else (
        if tee_ret == teec_client_intr then restart_sys else tee_fault,
        if tee_ret == teec_error_short_buffer then short else w,
      )

  -- The label `free_src`, with `release_tc_call_resource`.
  unfoldable pub release_tc_call_resource : Ret → ℕ → ℕ → Context → Cmd → Work S → CallEnd S
  unfolding free_operation
  release_tc_call_resource ret tee_ret pack context cmd w =
      let freed = if w.op_inited then free_operation pool env w else w in
      record {
        ret = ret;
        context = record context {
          code = tee_ret;
          origin = if is_negative ret then teec_origin_comms else cmd.err_origin;
        };
        pool = pool.free (some pack) freed.pool;
        words = freed.words;
        mems = freed.mems;
      }

  -- From the return of `handle_ta_pending` on.
  unfoldable pub pending_over : ℕ → Context → Code × ℕ × Cmd × Work S → CallEnd S
  unfolding post_proc_smc_return release_tc_call_resource
  pending_over pack context (fail e, tee_ret, cmd, w) =
      release_tc_call_resource (error e) tee_ret pack context cmd w
  pending_over pack context (success, tee_ret, cmd, w) =
      let (ret, w') = post_proc_smc_return tee_ret w in
      release_tc_call_resource ret tee_ret pack context cmd w'

  -- From `tc_ns_smc` on.
  unfoldable pub sent_to_tee : List TeeReturn → ℕ → Context → Cmd → Work S → Option (CallEnd S)
  unfolding reset_session_id handle_ta_pending pending_over release_tc_call_resource
  sent_to_tee [] pack context cmd w = none
  sent_to_tee (t ∷ ts) pack context cmd w =
      let answered = t.answer cmd in
      let context' = reset_session_id env answered t.tee_ret context in
      elim t.post [
        | fail e ↦
            some
              (release_tc_call_resource (error e) t.tee_ret pack context' answered (returned t w))
        | success ↦ elim (handle_ta_pending ts t.tee_ret answered (returned t w)) [
          | none ↦ none
          | some r ↦ some (pending_over pack context' r)
        ]
      ]

  -- From `config_smc_cmd_context` on.
  unfoldable pub configured :
      List TeeReturn → ℕ → Context → Code × Cmd → Work S → Option (CallEnd S)
  unfolding sent_to_tee release_tc_call_resource
  configured turns pack context (fail e, cmd) w =
      some (release_tc_call_resource (error e) 0 pack context cmd w)
  configured turns pack context (success, cmd) w = sent_to_tee turns pack context cmd w

  unfoldable pub allocated : List TeeReturn → ℕ → Context → Cmd → Code × Work S → Option (CallEnd S)
  unfolding configured config_smc_cmd_context release_tc_call_resource
  allocated turns pack context cmd (fail e, w) =
      some (release_tc_call_resource (error e) 0 pack context cmd w)
  allocated turns pack context cmd (success, w) =
      configured turns pack context (config_smc_cmd_context env caller context pack cmd) w

  -- `tc_client_call` once `alloc_for_client_call` has asked for the pack.
  unfoldable pub packed :
      List TeeReturn → Context → (ℕ → ℕ) → (ℕ → SharedMem) → Option ℕ × S → Option (CallEnd S)
  unfolding allocated start_work alloc_operation
  packed turns context words mems (none, s) =
      some (record { ret = error enomem; context = context; pool = s; words = words; mems = mems })
  packed turns context words mems (some pack, s) =
      let cmd = start_cmd caller.uid in
      let w = start_work s words mems in
      if env.context.param_types == 0
      then allocated turns pack context cmd (success, w)
      else allocated turns pack context cmd (alloc_operation pool env w)

  -- The call's parameters are not NULL. `none` says that the TEE has not answered for good.
  unfoldable pub tc_client_call :
      List TeeReturn → Context → (ℕ → ℕ) → (ℕ → SharedMem) → S → Option (CallEnd S)
  unfolding packed
  tc_client_call turns context words mems s =
      if not caller.kzalloc
      then some
          (record { ret = error enomem; context = context; pool = s; words = words; mems = mems })
      else packed turns context words mems (pool.cmd_pack s)
