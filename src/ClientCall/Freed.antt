-- ===== src/ClientCall/Freed.antt =====
-- core/gp_ops.c, `free_operation`: what the parameters keep is given back, once.
use itrustee_tzdriver.Base.{
  ℕ, zero, suc, ◌+◌, ◌≡◌, refl, ◌∙◌, true, false, Option, none, some, arith, ◌==◌, if◌then◌else◌,
  if_cases, Bool-cases, inl, inr,
}
use itrustee_tzdriver.Base.Nodes.{same}
use itrustee_tzdriver.Param.{teec_ion_sglist_input, is_tmp_mem, is_ref_mem}
use itrustee_tzdriver.ClientCall.{
  PoolOps, SharedMem, Work, CallEnv, tc_mem_free, put_sharemem_struct,
}
use itrustee_tzdriver.ClientCall.Alloc.{
  param_type, free_tmp, free_ref, free_param, free_params, free_operation,
}
use itrustee_tzdriver.ClientCall.Slots.{
  PoolLaws, count, from, block, ref, BuiltWork, FreeingWork, Holds_eq, Built-Freeing,
}

module _ {S : Type 0} (pool : PoolOps S) (laws : PoolLaws pool) (env : CallEnv) (base : ℕ → ℕ)
    (mems0 : ℕ → SharedMem) (valid : (a : ℕ) → env.virt_addr_valid a ≡ true) where
  -- The pool has the blocks in use that it had, and the shared memories are as they were.
  pub record Restored (w : Work S) : Type 0 where
    pub holds : laws.Holds base w.pool
    pub mems : (m : ℕ) → w.mems m ≡ mems0 m

  module _ (n i : ℕ) (w : Work S) (f : FreeingWork pool laws env base mems0 (suc n) i w) where
    -- A block in front of the others is freed.
    front :
        (p : ℕ)
        → ((a : ℕ)
            → block env (λ j. (w.local_tmpbuf j).temp_buffer) w.operation.mb_buffer a i ≡ same p a)
        → laws.Holds
            (λ a.
              base a
              + from
                  (block env (λ j. (w.local_tmpbuf j).temp_buffer) w.operation.mb_buffer a)
                  n
                  (suc i))
            (pool.free (some p) w.pool)
    unfolding from
    front p e =
        laws.free-Holds _ p w.pool
          (Holds_eq pool laws env base mems0 _ _ w.pool (λ a. ground (arith, e a)) f.holds)

    -- Nothing is kept by the parameter.
    idle :
        ((a : ℕ) → block env (λ j. (w.local_tmpbuf j).temp_buffer) w.operation.mb_buffer a i ≡ 0)
        → ((m : ℕ) → ref env w.operation.sharemem m i ≡ 0)
        → FreeingWork pool laws env base mems0 n (suc i) w
    unfolding from
    idle e r = record {
      holds = Holds_eq pool laws env base mems0 _ _ w.pool (λ a. ground (arith, e a)) f.holds;
      counted = λ m. ground (arith, r m, f.counted m);
      used = f.used;
      kind = f.kind;
    }

    free_tmp-Freeing :
        (o : Option ℕ)
        → (w.local_tmpbuf i).temp_buffer ≡ o
        → is_tmp_mem (param_type env i) ≡ true
        → FreeingWork pool laws env base mems0 n (suc i) (free_tmp pool env o w)
    unfolding free_tmp block ref count from
    free_tmp-Freeing none e t = idle (λ a. ground (arith, e, t)) (λ m. ground (arith, t))
    free_tmp-Freeing (some p) e t = rw (valid p) (record {
      holds = front p (λ a. ground (arith, e, t));
      counted = λ m. ground (arith, t, f.counted m);
      used = f.used;
      kind = f.kind;
    })

    put-counted :
        (o : Option ℕ) (m : ℕ)
        → w.operation.sharemem i ≡ o
        → is_tmp_mem (param_type env i) ≡ false
        → is_ref_mem (param_type env i) ≡ true
        → put_sharemem_struct o w.mems m ≡ record (mems0 m) {
          usage = (mems0 m).usage + from (ref env w.operation.sharemem m) n (suc i);
        }
    unfolding put_sharemem_struct tc_mem_free ref count from
    put-counted none m e nt t = ground (arith, e, nt, t, f.counted m)
    put-counted (some k) m e nt t = ground (arith, e, nt, t, f.counted m, f.counted k, f.used i k e)

    free_ref-Freeing :
        (o : Option ℕ)
        → w.operation.mb_buffer i ≡ o
        → is_tmp_mem (param_type env i) ≡ false
        → is_ref_mem (param_type env i) ≡ true
        → FreeingWork pool laws env base mems0 n
            (suc i)
            (free_ref pool env (w.operation.sharemem i) o w)
    unfolding free_ref block count from
    free_ref-Freeing none e nt t = record {
      holds = Holds_eq pool laws env base mems0 _ _ w.pool (λ a. ground (arith, e, nt, t)) f.holds;
      counted = λ m. put-counted (w.operation.sharemem i) m refl nt t;
      used = f.used;
      kind = f.kind;
    }
    free_ref-Freeing (some p) e nt t = record {
      holds = front p (λ a. ground (arith, e, nt, t));
      counted = λ m. put-counted (w.operation.sharemem i) m refl nt t;
      used = f.used;
      kind = f.kind;
    }

    -- A parameter of another kind has no buffer.
    free_other-Freeing :
        (o : Option ℕ)
        → (w.local_tmpbuf i).temp_buffer ≡ o
        → is_tmp_mem (param_type env i) ≡ false
        → is_ref_mem (param_type env i) ≡ false
        → FreeingWork pool laws env base mems0 n
            (suc i)
            (if param_type env i == teec_ion_sglist_input then free_tmp pool env o w else w)
    unfolding free_tmp block ref
    free_other-Freeing none e nt nr =
        if_cases (FreeingWork pool laws env base mems0 n (suc i))
          (param_type env i == teec_ion_sglist_input)
          (idle (λ a. ground (arith, nt, nr)) (λ m. ground (arith, nt, nr)))
          (idle (λ a. ground (arith, nt, nr)) (λ m. ground (arith, nt, nr)))
    free_other-Freeing (some p) e nt nr = absurd (ground (arith, f.kind i p e, nt))

    free_param-Freeing : FreeingWork pool laws env base mems0 n (suc i) (free_param pool env i w)
    unfolding free_param
    free_param-Freeing = elim (Bool-cases (is_tmp_mem (param_type env i))) [
      | inl t ↦ rw t (free_tmp-Freeing _ refl t)
      | inr nt ↦ elim (Bool-cases (is_ref_mem (param_type env i))) [
        | inl t ↦ rw (nt, t) (free_ref-Freeing _ refl nt t)
        | inr nr ↦ rw (nt, nr) (free_other-Freeing _ refl nt nr)
      ]
    ]

  free_params-Freeing :
      (n i : ℕ) (w : Work S)
      → FreeingWork pool laws env base mems0 n i w
      → Restored (free_params pool env n i w)
  unfolding free_params from
  free_params-Freeing zero i w f = record {
    holds = Holds_eq pool laws env base mems0 _ _ w.pool (λ a. omega arith) f.holds;
    mems = λ m. ground (arith, f.counted m);
  }
  free_params-Freeing (suc n) i w f =
      free_params-Freeing n (suc i) (free_param pool env i w) (free_param-Freeing n i w f)

  -- Freeing the operation gives back all that its parameters keep.
  pub free_operation-Restored :
      (w : Work S) → BuiltWork pool laws env base mems0 4 w → Restored (free_operation pool env w)
  unfolding free_operation
  free_operation-Restored w b =
      free_params-Freeing 4 0 w (Built-Freeing pool laws env base mems0 _ _ _ _ _ b)

module _ {S : Type 0} (pool : PoolOps S) (env : CallEnv) where
  free_tmp-op_inited : (o : Option ℕ) (w : Work S) → (free_tmp pool env o w).op_inited ≡ w.op_inited
  unfolding free_tmp
  free_tmp-op_inited none w = refl
  free_tmp-op_inited (some p) w = ground arith

  free_ref-op_inited :
      (m o : Option ℕ) (w : Work S) → (free_ref pool env m o w).op_inited ≡ w.op_inited
  unfolding free_ref
  free_ref-op_inited m none w = refl
  free_ref-op_inited m (some p) w = refl

  free_param-op_inited : (i : ℕ) (w : Work S) → (free_param pool env i w).op_inited ≡ w.op_inited
  unfolding free_param
  free_param-op_inited i w = ground (
    arith,
    free_tmp-op_inited (w.local_tmpbuf i).temp_buffer w,
    free_ref-op_inited (w.operation.sharemem i) (w.operation.mb_buffer i) w,
  )

  free_params-op_inited :
      (n i : ℕ) (w : Work S) → (free_params pool env n i w).op_inited ≡ w.op_inited
  unfolding free_params
  free_params-op_inited zero i w = refl
  free_params-op_inited (suc n) i w =
      free_params-op_inited n (suc i) (free_param pool env i w) ∙ free_param-op_inited i w

  pub free_operation-op_inited : (w : Work S) → (free_operation pool env w).op_inited ≡ w.op_inited
  unfolding free_operation
  free_operation-op_inited w = free_params-op_inited 4 0 w
