-- ===== src/ClientCall/Inited.antt =====
-- core/gp_ops.c, `alloc_operation`: an operation is not marked as initialised before all its parameters
-- are allocated.
use itrustee_tzdriver.Base.{ℕ, zero, suc, ◌≡◌, refl, ◌∙◌, Bool, true, Option, none, some, arith}
use itrustee_tzdriver.Base.Errno.{Code, success, fail}
use itrustee_tzdriver.Base.Update.{update}
use itrustee_tzdriver.Param.{
  Alloc, tmp_mem, ref_mem, client_value, ion, ion_sglist, no_alloc, alloc_kind,
}
use itrustee_tzdriver.ClientCall.{PoolOps, Work, CallEnv, and_then}
use itrustee_tzdriver.ClientCall.Alloc.{
  param_type, set_value, tmp_done, tmp_filled, tmp_allocated, alloc_for_tmp_mem, ref_copied,
  ref_found, ref_done, ref_sized, check_buffer_for_ref, find_shared_mem, alloc_for_ref_mem,
  transfer_client_value, alloc_as, alloc_param, alloc_loop,
}

module _ {S : Type 0} (pool : PoolOps S) (env : CallEnv) where
  tmp_allocated-op_inited :
      (k : Bool) (t i size : ℕ) (r : Option ℕ × S) (w : Work S)
      → (tmp_allocated pool env k t i size r w).1.op_inited ≡ w.op_inited
  unfolding tmp_allocated tmp_filled tmp_done
  tmp_allocated-op_inited k t i size (none, s) w = refl
  tmp_allocated-op_inited k t i size (some p, s) w = ground arith

  alloc_for_tmp_mem-op_inited :
      (k : Bool) (t i : ℕ) (w : Work S)
      → (alloc_for_tmp_mem pool env k t i w).1.op_inited ≡ w.op_inited
  unfolding alloc_for_tmp_mem
  alloc_for_tmp_mem-op_inited k t i w = ground (
    arith,
    tmp_allocated-op_inited k t i (w.words (env.context.params i).size_addr)
        (pool.alloc (w.words (env.context.params i).size_addr) true w.pool) w,
  )

  ref_copied-op_inited :
      (i size m : ℕ) (r : Option ℕ × S) (w : Work S)
      → (ref_copied pool env i size m r w).1.op_inited ≡ w.op_inited
  unfolding ref_copied
  ref_copied-op_inited i size m (none, s) w = refl
  ref_copied-op_inited i size m (some p, s) w = refl

  ref_found-op_inited :
      (i size : ℕ) (o : Option ℕ) (w : Work S)
      → (ref_found pool env i size o w).1.op_inited ≡ w.op_inited
  unfolding ref_found
  ref_found-op_inited i size none w = refl
  ref_found-op_inited i size (some m) w = ground (arith, ref_copied-op_inited i size m)

  ref_done-op_inited :
      (t i size : ℕ) (r : Code × Work S)
      → (ref_done pool env t i size r).1.op_inited ≡ r.1.op_inited
  unfolding ref_done
  ref_done-op_inited t i size (success, w) = ground arith
  ref_done-op_inited t i size (fail e, w) = refl

  ref_sized-op_inited :
      (t i : ℕ) (r : Code × ℕ) (w : Work S) → (ref_sized pool env t i r w).1.op_inited ≡ w.op_inited
  unfolding ref_sized
  ref_sized-op_inited t i (fail e, size) w = refl
  ref_sized-op_inited t i (success, size) w =
      ref_done-op_inited t i size (ref_found pool env i size found v)
      ∙ ref_found-op_inited i size found v
    where
      found : Option ℕ
      found = find_shared_mem (env.context.params i).buffer w.mems env.shared_mem_list

      v : Work S
      v = record w {
        operation = record w.operation {
          params = update w.operation.params i (record (w.operation.params i) { buffer = 0 });
        };
      }

  alloc_as-op_inited :
      (kind : Alloc) (k : Bool) (t i : ℕ) (w : Work S)
      → (alloc_as pool env kind k t i w).1.op_inited ≡ w.op_inited
  unfolding alloc_as alloc_for_ref_mem transfer_client_value set_value
  alloc_as-op_inited tmp_mem k t i w = alloc_for_tmp_mem-op_inited k t i w
  alloc_as-op_inited ref_mem k t i w =
      ref_sized-op_inited t i (check_buffer_for_ref pool env k i w) w
  alloc_as-op_inited client_value k t i w = ground arith
  alloc_as-op_inited ion k t i w = refl
  alloc_as-op_inited ion_sglist k t i w = refl
  alloc_as-op_inited no_alloc k t i w = refl

  pub alloc_loop-op_inited :
      (n i : ℕ) (w : Work S) → (alloc_loop pool env n i w).1.op_inited ≡ w.op_inited
  unfolding alloc_loop alloc_param
  alloc_loop-op_inited zero i w = refl
  alloc_loop-op_inited (suc n) i w =
      go (alloc_param pool env i w) (λ v. alloc_loop-op_inited n (suc i) v)
      ∙ alloc_as-op_inited (alloc_kind (param_type env i)) _ (param_type env i) i w
    where
      go :
          (r : Code × Work S)
          → ((v : Work S) → (alloc_loop pool env n (suc i) v).1.op_inited ≡ v.op_inited)
          → (and_then r (λ v. alloc_loop pool env n (suc i) v)).1.op_inited ≡ r.1.op_inited
      go (success, v) rest = rest v
      go (fail e, v) rest = refl
