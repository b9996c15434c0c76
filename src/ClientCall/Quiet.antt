-- ===== src/ClientCall/Quiet.antt =====
-- core/gp_ops.c, `update_client_operation`: it allocates nothing and gives nothing back.
use itrustee_tzdriver.Base.{
  ℕ, zero, suc, ◌≡◌, refl, ap, ◌∙◌, Bool, ◌&&◌, not, Option, none, some, List, arith, ltb, ◌==◌,
  if_cases,
}
use itrustee_tzdriver.Base.Errno.{Code, success, fail, efault}
use itrustee_tzdriver.ClientCall.{
  Transfer, Work, CallEnv, is_failed, and_then, read_from_client, write_word,
}
use itrustee_tzdriver.ClientCall.Alloc.{param_type}
use itrustee_tzdriver.Param.{output, teec_tmpmem_type, teec_memref_type, teec_value_type}
use itrustee_tzdriver.ClientCall.Update.{
  Rewrite, tmp_copied, update_tmp_mem, ref_written, update_for_ref_mem, update_for_value,
  update_param, update_loop, update_client_operation,
}

-- Nothing but the client's words and the copies are changed.
pub record Quiet {S : Type 0} (w : Work S) (r : Code × Work S) : Type 0 where
  pub same : r.1 ≡ record w { words = r.1.words; transfers = r.1.transfers }

module _ {S : Type 0} (env : CallEnv) (rewrite : Rewrite) where
  quiet :
      (code : Code) (words : ℕ → ℕ) (transfers : List Transfer) (w : Work S)
      → Quiet w (code, record w { words = words; transfers = transfers })
  quiet code words transfers w = record { same = refl }

  tmp_copied-Quiet :
      (i : ℕ) (words : ℕ → ℕ) (w : Work S)
      → Quiet w (tmp_copied env rewrite i (record w { words = words }))
  unfolding tmp_copied
  tmp_copied-Quiet i words w = record { same = ground arith }

  ref_written-Quiet :
      (i orig size : ℕ) (src m : Option ℕ) (words : ℕ → ℕ) (w : Work S)
      → Quiet w (ref_written env rewrite i orig size src m (record w { words = words }))
  unfolding ref_written
  ref_written-Quiet i orig size none m words w = quiet success words w.transfers w
  ref_written-Quiet i orig size (some src) none words w = quiet success words w.transfers w
  ref_written-Quiet i orig size (some src) (some m) words w = record { same = ground arith }

  update_tmp_mem-Quiet :
      (i : ℕ) (c : Bool) (w : Work S) → Quiet w (update_tmp_mem env rewrite i c w)
  unfolding update_tmp_mem
  update_tmp_mem-Quiet i c w =
      if_cases (Quiet w) (is_failed written.0) (quiet (fail efault) w.words w.transfers w) (
        if_cases (Quiet w) (ltb (w.local_tmpbuf i).size (w.operation.params i).size)
          (if_cases (Quiet w) (not c) (quiet success written.1 w.transfers w)
            (quiet (fail efault) written.1 w.transfers w))
          (tmp_copied-Quiet i written.1 w))
    where
      written : Code × (ℕ → ℕ)
      written = write_word env (env.context.params i).size_addr (w.operation.params i).size w.words

  update_for_ref_mem-Quiet : (i : ℕ) (w : Work S) → Quiet w (update_for_ref_mem env rewrite i w)
  unfolding update_for_ref_mem
  update_for_ref_mem-Quiet i w =
      if_cases (Quiet w) (is_failed (read_from_client env 4 size_addr 4 env.kernel_api))
        (quiet (fail efault) w.words w.transfers w)
        (if_cases (Quiet w) (is_failed written.0) (quiet (fail efault) w.words w.transfers w) (
          ref_written-Quiet i (w.words size_addr) (w.operation.params i).size
            (w.operation.mb_buffer i) (w.operation.sharemem i) written.1 w))
    where
      size_addr : ℕ
      size_addr = (env.context.params i).size_addr

      written : Code × (ℕ → ℕ)
      written = write_word env size_addr (w.operation.params i).size w.words

  update_for_value-Quiet : (i : ℕ) (w : Work S) → Quiet w (update_for_value env rewrite i w)
  unfolding update_for_value
  update_for_value-Quiet i w = record { same = ground arith }

  update_param-Quiet : (i : ℕ) (c : Bool) (w : Work S) → Quiet w (update_param env rewrite i c w)
  unfolding update_param
  update_param-Quiet i c w =
      if_cases (Quiet w) (teec_tmpmem_type (param_type env i) output) (update_tmp_mem-Quiet i c w) (
        if_cases (Quiet w) (teec_memref_type (param_type env i) output)
          (update_for_ref_mem-Quiet i w)
          (if_cases (Quiet w) (c && teec_value_type (param_type env i) output)
            (update_for_value-Quiet i w) (quiet success w.words w.transfers w)))

  update_loop-Quiet : (n i : ℕ) (c : Bool) (w : Work S) → Quiet w (update_loop env rewrite n i c w)
  unfolding update_loop
  update_loop-Quiet zero i c w = quiet success w.words w.transfers w
  update_loop-Quiet (suc n) i c w =
      go (update_param env rewrite i c w) (update_param-Quiet i c w)
        (λ v. update_loop-Quiet n (suc i) c v)
    where
      go :
          (r : Code × Work S)
          → Quiet w r
          → ((v : Work S) → Quiet v (update_loop env rewrite n (suc i) c v))
          → Quiet w (and_then r (λ v. update_loop env rewrite n (suc i) c v))
      go (success, v) q rest = record {
        same =
            (rest v).same
            ∙ ap (λ (u : Work S). record u { words = next.words; transfers = next.transfers })
                q.same;
      }
        where
          next : Work S
          next = (update_loop env rewrite n (suc i) c v).1
      go (fail e, v) q rest = record { same = q.same }

  pub update_client_operation-Quiet :
      (c : Bool) (w : Work S) → Quiet w (update_client_operation env rewrite c w)
  unfolding update_client_operation
  update_client_operation-Quiet c w =
      if_cases (Quiet w) (not w.op_inited) (quiet success w.words w.transfers w) (
        if_cases (Quiet w) (env.context.param_types == 0) (quiet success w.words w.transfers w)
          (update_loop-Quiet 4 0 c w))
