-- ===== src/ClientCall/Built.antt =====
-- core/gp_ops.c, `alloc_operation`: each parameter keeps what is allocated for it, and nothing else is
-- allocated, also where it fails.
mod Params
pub mod Whole
use native.Mathlib.Decide.{ℕ_discrete}
use itrustee_tzdriver.Base.{
  ℕ, zero, suc, ◌+◌, ◌-◌, ◌%◌, ◌^◌, ◌≤◌, ◌<◌, ◌≡◌, refl, sym, ap, subst, ◌∙◌, ◌≢◌, ◌⊎◌, inl, inr,
  Bool, true, false, ◌&&◌, not, Option, none, some, List, [], ◌∷◌, arith, ltb, leb, ◌==◌,
  if◌then◌else◌, if_cases, if_cases_of, Bool-cases,
}
use itrustee_tzdriver.Base.Errno.{Code, success, fail, eperm, efault, einval}
use itrustee_tzdriver.Base.Nodes.{same, occurs}
use itrustee_tzdriver.Base.Update.{update, update_same, update_other}
use itrustee_tzdriver.Param.{
  ClientParam, Alloc, tmp_mem, ref_mem, client_value, ion, ion_sglist, no_alloc, is_tmp_mem,
  is_ref_mem, teec_param_type_get, alloc_kind, is_refmem_offset_valid,
}
use itrustee_tzdriver.ClientCall.{
  PoolOps, SharedMem, TempBuf, Work, CallEnv, is_failed, and_then, read_from_client, tc_call_login,
  has_flag, get_sharemem_struct,
}
use itrustee_tzdriver.ClientCall.Alloc.{
  param_type, is_input_tempmem, is_opensession_by_index, find_shared_mem, is_phyaddr_valid,
  set_buffer, set_size, set_value, max_shared_size, tmp_done, tmp_filled, tmp_allocated,
  alloc_for_tmp_mem, check_buffer_for_ref, ref_copied, ref_found, ref_done, ref_sized,
  alloc_for_ref_mem, transfer_client_value, alloc_as, alloc_param, alloc_loop,
}
use itrustee_tzdriver.ClientCall.Slots.{
  PoolLaws, Given, count, below, below_eq, block, ref, Built, BuiltWork, Holds_eq, Built-suc,
}

pub tmp_kind : (t : ℕ) → alloc_kind t ≡ tmp_mem → is_tmp_mem t ≡ true
unfolding alloc_kind is_tmp_mem
tmp_kind t e = ground (arith, e)

pub ref_kind : (t : ℕ) → alloc_kind t ≡ ref_mem → (is_tmp_mem t ≡ false) × (is_ref_mem t ≡ true)
unfolding alloc_kind is_tmp_mem is_ref_mem
ref_kind t e = ground (arith, e)

-- A memory that is found is on the list.
pub find_shared_mem-occurs :
    (addr : ℕ) (mems : ℕ → SharedMem) (l : List ℕ) (m : ℕ)
    → find_shared_mem addr mems l ≡ some m
    → 0 < occurs m l
unfolding find_shared_mem occurs
find_shared_mem-occurs addr mems [] m e = absurd (ground (arith, e))
find_shared_mem-occurs addr mems (k ∷ l) m e =
    ground (arith, e, find_shared_mem-occurs addr mems l m)

module _ {S : Type 0} (pool : PoolOps S) (laws : PoolLaws pool) (env : CallEnv) (base : ℕ → ℕ)
    (mems0 : ℕ → SharedMem) (i : ℕ) where
  -- A temporary buffer is allocated.
  pub Built-tmp :
      (p : ℕ) (s s' : S) (mems : ℕ → SharedMem) (tmp tmp' sh mb : ℕ → Option ℕ)
      → is_tmp_mem (param_type env i) ≡ true
      → tmp' i ≡ some p
      → ((j : ℕ) → j ≢ i → tmp' j ≡ tmp j)
      → laws.Holds (λ a. (base a + below (block env tmp mb a) i) + same p a) s'
      → Built pool laws env base mems0 i s mems tmp sh mb
      → Built pool laws env base mems0 (suc i) s' mems tmp' sh mb
  unfolding below block ref count
  Built-tmp p s s' mems tmp tmp' sh mb t new other h b = record {
    holds = Holds_eq pool laws env base mems0 _ _ s' (λ a. ground (arith, kept a, t, new)) h;
    unused = λ j le.
        let (e, f, g) = b.unused j (omega (arith, le)) in (other j (omega (arith, le)) ∙ e, f, g);
    counted = λ m. ground (arith, t, b.counted m);
    used = b.used;
    kind = λ j q e. elim (ℕ_discrete j i) [
      | yes h ↦ subst (λ k. is_tmp_mem (param_type env k) ≡ true) (sym h) t
      | no ne ↦ b.kind j q (sym (other j ne) ∙ e)
    ];
  }
    where
      kept : (a : ℕ) → below (block env tmp mb a) i ≡ below (block env tmp' mb a) i
      kept a =
          below_eq (block env tmp mb a) (block env tmp' mb a) i
            (λ j lt. ground (arith, other j (omega (arith, lt))))

  -- A copy of a shared memory is allocated, and the memory is used once more.
  pub Built-ref :
      (p k : ℕ) (s s' : S) (mems : ℕ → SharedMem) (tmp sh sh' mb mb' : ℕ → Option ℕ)
      → is_tmp_mem (param_type env i) ≡ false
      → is_ref_mem (param_type env i) ≡ true
      → mb' i ≡ some p
      → ((j : ℕ) → j ≢ i → mb' j ≡ mb j)
      → sh' i ≡ some k
      → ((j : ℕ) → j ≢ i → sh' j ≡ sh j)
      → (mems0 k).usage ≢ 0
      → laws.Holds (λ a. (base a + below (block env tmp mb a) i) + same p a) s'
      → Built pool laws env base mems0 i s mems tmp sh mb
      → Built pool laws env base mems0 (suc i) s' (get_sharemem_struct (some k) mems) tmp sh' mb'
  unfolding below block ref count get_sharemem_struct
  Built-ref p k s s' mems tmp sh sh' mb mb' nt t new other newk otherk live h b = record {
    holds = Holds_eq pool laws env base mems0 _ _ s' (λ a. ground (arith, kept a, nt, t, new)) h;
    unused = λ j le.
        let (e, f, g) = b.unused j (omega (arith, le)) in
        (e, otherk j (omega (arith, le)) ∙ f, other j (omega (arith, le)) ∙ g);
    counted = λ m. ground (arith, nt, t, newk, kept_refs m, b.counted m, b.counted k);
    used = λ j m e. elim (ℕ_discrete j i) [
      | yes q ↦ ground (arith, q, e, newk, live)
      | no ne ↦ b.used j m (sym (otherk j ne) ∙ e)
    ];
    kind = b.kind;
  }
    where
      kept : (a : ℕ) → below (block env tmp mb a) i ≡ below (block env tmp mb' a) i
      kept a =
          below_eq (block env tmp mb a) (block env tmp mb' a) i
            (λ j lt. ground (arith, other j (omega (arith, lt))))

      kept_refs : (m : ℕ) → below (ref env sh m) i ≡ below (ref env sh' m) i
      kept_refs m =
          below_eq (ref env sh m) (ref env sh' m) i
            (λ j lt. ground (arith, otherk j (omega (arith, lt))))

  pub Built-pool :
      {s : S} {mems : ℕ → SharedMem} {tmp sh mb : ℕ → Option ℕ} (s' : S)
      → Built pool laws env base mems0 i s mems tmp sh mb
      → laws.Holds (λ a. base a + below (block env tmp mb a) i) s'
      → Built pool laws env base mems0 i s' mems tmp sh mb
  Built-pool s' b h = record {
    holds = h;
    unused = b.unused;
    counted = b.counted;
    used = b.used;
    kind = b.kind;
  }

  -- Whatever a step returns, its state is right for the parameters up to this one.
  pub record Kept (r : Code × Work S) : Type 0 where
    pub built : BuiltWork pool laws env base mems0 (suc i) r.1

  -- A step that allocates nothing.
  pub idle : (code : Code) (w : Work S) → BuiltWork pool laws env base mems0 i w → Kept (code, w)
  idle code w b = record {
    built =
        Built-suc pool laws env base mems0 i w.pool w.mems _ w.operation.sharemem
          w.operation.mb_buffer b;
  }
