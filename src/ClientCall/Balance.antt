-- ===== src/ClientCall/Balance.antt =====
-- core/gp_ops.c, `tc_client_call`: all that a call takes of the pool and of the shared memories is given
-- back when it returns.
pub mod Whole
use itrustee_tzdriver.Base.{
  ℕ, zero, suc, ◌+◌, ◌<◌, ◌≡◌, refl, sym, ap, subst, ◌∙◌, ◌≢◌, ◌⊎◌, inl, inr, Bool, true, false,
  ◌&&◌, not, Option, none, some, List, [], ◌∷◌, All, arith, ltb, ◌==◌, if◌then◌else◌, if_cases,
  if_cases_of, Bool-cases,
}
use itrustee_tzdriver.Base.Errno.{Code, success, fail}
use itrustee_tzdriver.Base.Nodes.{same, occurs}
use itrustee_tzdriver.Smc.Cmd.{Cmd, teec_pending}
use itrustee_tzdriver.ClientCall.{PoolOps, NsOperation, SharedMem, Transfer, Work, CallEnv}
use itrustee_tzdriver.ClientCall.Alloc.{free_operation, alloc_done, alloc_operation, alloc_loop}
use itrustee_tzdriver.ClientCall.Update.{Rewrite, update_client_operation}
use itrustee_tzdriver.ClientCall.Command.{
  Ret, error, restart_sys, tee_fault, teec_client_intr, of_code, Context, TeeReturn, CallerProcess,
  teec_error_short_buffer, start_cmd, config_smc_cmd_context, reset_session_id,
}
use itrustee_tzdriver.ClientCall.Run.{
  CallEnd, start_work, returned, handle_ta_pending, post_proc_smc_return, release_tc_call_resource,
  pending_over, sent_to_tee, configured, allocated, packed, tc_client_call,
}
use itrustee_tzdriver.ClientCall.Slots.{PoolLaws, Given, Built, BuiltWork, below, Holds_eq}
use itrustee_tzdriver.ClientCall.Built.Whole.{alloc_loop-Built}
use itrustee_tzdriver.ClientCall.Freed.{Restored, free_operation-Restored, free_operation-op_inited}
use itrustee_tzdriver.ClientCall.Inited.{alloc_loop-op_inited}
use itrustee_tzdriver.ClientCall.Quiet.{Quiet, update_client_operation-Quiet}

-- The TEE leaves the driver's pointers in the shared operation alone.
abbrev pub KeepsPointers : TeeReturn → Type 0
KeepsPointers t =
    (op : NsOperation)
    → ((t.written op).sharemem ≡ op.sharemem) × ((t.written op).mb_buffer ≡ op.mb_buffer)

-- After this result, one of the later turns ends the wait.
abbrev pub Answers : ℕ → List TeeReturn → Type 0
Answers tee_ret [] = tee_ret ≢ teec_pending
Answers tee_ret (t ∷ ts) = (tee_ret ≢ teec_pending) ⊎ Answers t.tee_ret ts

-- There is a first turn, and one that ends the wait.
abbrev pub Answered : List TeeReturn → Type 0
Answered [] = ⊥
Answered (t ∷ ts) = Answers t.tee_ret ts

module _ {S : Type 0} (pool : PoolOps S) (laws : PoolLaws pool) (env : CallEnv)
    (mems0 : ℕ → SharedMem) (valid : (a : ℕ) → env.virt_addr_valid a ≡ true) (h : ℕ → ℕ) where
  -- The blocks in use are those of `h`, and the shared memories are used as before.
  abbrev pub Balanced : CallEnd S → Type 0
  Balanced e = laws.Holds h e.pool × ((m : ℕ) → e.mems m ≡ mems0 m)

  -- The call returns, and all is given back.
  abbrev pub Returns : Option (CallEnd S) → Type 0
  Returns none = ⊥
  Returns (some e) = Balanced e

  -- The pack at `p` is in use besides, and what the parameters keep, if they keep anything, is freed in
  -- the end.
  pub data Ready (p : ℕ) (w : Work S) : Type 0 where
    inited :
        w.op_inited ≡ true → BuiltWork pool laws env (λ a. h a + same p a) mems0 4 w → Ready p w
    bare :
        w.op_inited ≡ false → Restored pool laws env (λ a. h a + same p a) mems0 valid w → Ready p w

  module _ (p : ℕ) where
    Ready-words :
        (w : Work S) (words : ℕ → ℕ) (transfers : List Transfer)
        → Ready p w
        → Ready p (record w { words = words; transfers = transfers })
    Ready-words w words transfers (inited e b) = inited e b
    Ready-words w words transfers (bare e b) = bare e (record { holds = b.holds; mems = b.mems })

    pub Ready-Quiet : (w : Work S) (r : Code × Work S) → Quiet w r → Ready p w → Ready p r.1
    Ready-Quiet w r q v = subst (Ready p) (sym q.same) (Ready-words w r.1.words r.1.transfers v)

    pub Ready-written :
        (t : TeeReturn) (w : Work S)
        → KeepsPointers t
        → Ready p w
        → Ready p (record w { operation = t.written w.operation })
    Ready-written t w k (inited e b) = inited e (
        subst
          (λ (sh : ℕ → Option ℕ).
            Built pool laws env (λ a. h a + same p a) mems0 4 w.pool w.mems
              (λ j. (w.local_tmpbuf j).temp_buffer) sh (t.written w.operation).mb_buffer)
          (sym (k w.operation).0)
          (subst
            (λ (mb : ℕ → Option ℕ).
              Built pool laws env (λ a. h a + same p a) mems0 4 w.pool w.mems
                (λ j. (w.local_tmpbuf j).temp_buffer) w.operation.sharemem mb)
            (sym (k w.operation).1) b))
    Ready-written t w k (bare e b) = bare e (record { holds = b.holds; mems = b.mems })
