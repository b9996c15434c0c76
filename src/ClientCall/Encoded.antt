-- ===== src/ClientCall/Encoded.antt =====
-- core/gp_ops.c, `alloc_operation`: what the TEE finds in the operation when it succeeds.
mod Steps
pub mod Whole
use native.Mathlib.Decide.{ℕ_discrete}
use itrustee_tzdriver.Base.{
  ℕ, zero, suc, ◌+◌, ◌-◌, ◌/◌, ◌%◌, ◌^◌, ◌≤◌, ◌<◌, ◌≡◌, refl, sym, ap, subst, ◌∙◌, ◌≢◌, ◌⊎◌, inl,
  inr, Bool, true, false, ◌&&◌, ◌||◌, not, Option, none, some, List, [], ◌∷◌, arith, ltb, leb, ◌==◌,
  if◌then◌else◌, if_cases_of,
}
use itrustee_tzdriver.Base.Errno.{Code, success, fail}
use itrustee_tzdriver.Base.Update.{update, update_same, update_other}
use itrustee_tzdriver.Param.{
  ClientParam, Alloc, tmp_mem, ref_mem, client_value, ion, ion_sglist, no_alloc, alloc_kind,
  is_refmem_offset_valid, teec_param_types,
}
use itrustee_tzdriver.ClientCall.{
  PoolOps, NsOperation, SharedMem, TempBuf, Work, CallEnv, and_then, is_failed, read_from_client,
  get_sharemem_struct,
}
use itrustee_tzdriver.ClientCall.Run.{start_work}
use itrustee_tzdriver.ClientCall.Alloc.{
  param_type, max_shared_size, set_value, set_buffer, set_size, is_input_tempmem,
  is_opensession_by_index, is_phyaddr_valid, find_shared_mem, tmp_done, tmp_filled, tmp_allocated,
  alloc_for_tmp_mem, check_buffer_for_ref, ref_copied, ref_found, ref_done, ref_sized,
  alloc_for_ref_mem, transfer_client_value, alloc_as, alloc_param, alloc_loop, alloc_done,
  alloc_operation,
}

-- What a step makes of the other parameters.
pub record Same {S : Type 0} (i : ℕ) (w w' : Work S) : Type 0 where
  pub words_same : w'.words ≡ w.words
  pub others :
      (j : ℕ)
      → j ≢ i
      → (w'.operation.params j ≡ w.operation.params j)
        × (w'.operation.buffer_h_addr j ≡ w.operation.buffer_h_addr j)
        × (w'.operation.mb_buffer j ≡ w.operation.mb_buffer j)
        × (w'.local_tmpbuf j ≡ w.local_tmpbuf j)
        × (w'.trans_paramtype j ≡ w.trans_paramtype j)

module _ {S : Type 0} (env : CallEnv) (words : ℕ → ℕ) where
  -- The halves of the physical address of a buffer, and its size, are in the operation.
  abbrev pub At : ℕ → ℕ → ℕ → Work S → Type 0
  At i addr size w =
      (w.operation.params i ≡ record { buffer = env.virt_to_phys addr % 2 ^ 32; size = size })
      × (w.operation.buffer_h_addr i ≡ env.virt_to_phys addr / 2 ^ 32 % 2 ^ 32)

  -- The parameter of a kind as the TEE finds it.
  abbrev pub EncodedAs : Alloc → ℕ → Work S → Type 0
  EncodedAs tmp_mem i w =
      (addr : ℕ) × (w.local_tmpbuf i
        ≡ record { temp_buffer = some addr; size = words (env.context.params i).size_addr })
      × (words (env.context.params i).size_addr ≤ max_shared_size)
      × At i addr (words (env.context.params i).size_addr) w
      × (w.trans_paramtype i ≡ param_type env i)
  EncodedAs ref_mem i w =
      (addr : ℕ) × (w.operation.mb_buffer i ≡ some addr)
      × (words (env.context.params i).size_addr ≢ 0)
      × At i addr (words (env.context.params i).size_addr) w
      × (w.trans_paramtype i ≡ param_type env i - 8)
  EncodedAs client_value i w =
      (w.operation.params i ≡ record {
        buffer = words (env.context.params i).a_addr;
        size = words (env.context.params i).b_addr;
      })
      × (w.trans_paramtype i ≡ param_type env i)
  EncodedAs ion i w = ⊥
  EncodedAs ion_sglist i w = ⊥
  EncodedAs no_alloc i w = w.trans_paramtype i ≡ 0

  pub EncodedAs-Same :
      (kind : Alloc) (i j : ℕ) (w w' : Work S)
      → Same i w w'
      → j ≢ i
      → EncodedAs kind j w
      → EncodedAs kind j w'
  EncodedAs-Same tmp_mem i j w w' s ne (addr, a, b, (c, d), e) =
      let (f, g, h, k, l) = s.others j ne in (addr, k ∙ a, b, (f ∙ c, g ∙ d), l ∙ e)
  EncodedAs-Same ref_mem i j w w' s ne (addr, a, b, (c, d), e) =
      let (f, g, h, k, l) = s.others j ne in (addr, h ∙ a, b, (f ∙ c, g ∙ d), l ∙ e)
  EncodedAs-Same client_value i j w w' s ne (e, f) =
      let (a, b, c, d, g) = s.others j ne in (a ∙ e, g ∙ f)
  EncodedAs-Same ion i j w w' s ne e = e
  EncodedAs-Same ion_sglist i j w w' s ne e = e
  EncodedAs-Same no_alloc i j w w' s ne e = (s.others j ne).4 ∙ e

  -- A step that succeeds has encoded its parameter.
  abbrev pub Done : Alloc → ℕ → Work S → Code × Work S → Type 0
  Done kind i w (fail e, w') = Unit {0}
  Done kind i w (success, w') = EncodedAs kind i w' × Same i w w'

-- What the TEE finds when `alloc_operation` has succeeded.
abbrev pub Encoded : {S : Type 0} → CallEnv → (ℕ → ℕ) → Code × Work S → Type 0
Encoded env words (fail e, w) = Unit {0}
Encoded env words (success, w) =
    ((i : ℕ) → i < 4 → EncodedAs env words (alloc_kind (param_type env i)) i w)
    × (w.operation.paramtypes
        ≡ teec_param_types (w.trans_paramtype 0) (w.trans_paramtype 1) (w.trans_paramtype 2)
            (w.trans_paramtype 3))
