-- ===== src/ClientCall/Encoded/Whole.antt =====
-- core/gp_ops.c: `alloc_operation`, from parameter to parameter.
use native.Mathlib.Decide.{ℕ_discrete}
use itrustee_tzdriver.Base.{
  ℕ, zero, suc, ◌+◌, ◌≤◌, ◌<◌, ◌≡◌, refl, sym, subst, ◌∙◌, ◌≢◌, Bool, Option, arith, ltb, ◌==◌,
  if_cases_of,
}
use itrustee_tzdriver.Base.Errno.{Code, success, fail}
use itrustee_tzdriver.Base.Update.{update}
use itrustee_tzdriver.Param.{
  Alloc, tmp_mem, ref_mem, client_value, ion, ion_sglist, no_alloc, alloc_kind,
}
use itrustee_tzdriver.ClientCall.{
  PoolOps, SharedMem, Work, CallEnv, and_then, is_failed, read_from_client,
}
use itrustee_tzdriver.ClientCall.Run.{start_work}
use itrustee_tzdriver.ClientCall.Alloc.{
  param_type, max_shared_size, find_shared_mem, alloc_for_tmp_mem, check_buffer_for_ref, ref_found,
  ref_sized, alloc_for_ref_mem, alloc_as, alloc_param, alloc_loop, alloc_done, alloc_operation,
}
use itrustee_tzdriver.ClientCall.Encoded.{EncodedAs, EncodedAs-Same, Done, Encoded}
use itrustee_tzdriver.ClientCall.Encoded.Steps.{
  tmp_allocated-Done, transfer_client_value-Done, ref_found-Found, ref_done-Done,
}

module _ {S : Type 0} (pool : PoolOps S) (env : CallEnv) (kernel_params : Bool) (i : ℕ)
    (w : Work S) where
  alloc_for_tmp_mem-Done :
      Done env w.words tmp_mem i w (alloc_for_tmp_mem pool env kernel_params (param_type env i) i w)
  unfolding alloc_for_tmp_mem
  alloc_for_tmp_mem-Done =
      if_cases_of (Done env w.words tmp_mem i w)
        (is_failed (read_from_client env 4 (env.context.params i).size_addr 4 kernel_params))
        (λ _. tt)
        (λ _.
          if_cases_of (Done env w.words tmp_mem i w)
            (ltb max_shared_size (w.words (env.context.params i).size_addr)) (λ _. tt)
            (λ le. tmp_allocated-Done env w.words pool kernel_params i _ w (ground (arith, le))))

  alloc_for_ref_mem-Done :
      w.operation.buffer_h_addr i ≡ 0
      → Done env w.words ref_mem i w
          (alloc_for_ref_mem pool env kernel_params (param_type env i) i w)
  unfolding alloc_for_ref_mem check_buffer_for_ref
  alloc_for_ref_mem-Done z =
      if_cases_of sized
        (is_failed (read_from_client env 4 (env.context.params i).size_addr 4 kernel_params))
        (λ _. tt)
        (λ _.
          if_cases_of sized (w.words (env.context.params i).size_addr == 0) (λ _. tt)
            (λ ne. ref_sized-Done (ground (arith, ne))))
    where
      sized : Code × ℕ → Type 0
      sized r = Done env w.words ref_mem i w (ref_sized pool env (param_type env i) i r w)

      ref_sized-Done :
          w.words (env.context.params i).size_addr ≢ 0
          → sized (success, w.words (env.context.params i).size_addr)
      ref_sized-Done ne =
          ref_done-Done env w.words pool kernel_params i
            (ref_found pool env i (w.words (env.context.params i).size_addr) found v) w ne
            (ref_found-Found env w.words pool kernel_params i
              (w.words (env.context.params i).size_addr) found w v
              (record { words_same = refl; others = λ j far. ground (arith, far) }) (ground arith)
              z)
        where
          found : Option ℕ
          found = find_shared_mem (env.context.params i).buffer w.mems env.shared_mem_list

          v : Work S
          v = record w {
            operation = record w.operation {
              params = update w.operation.params i (record (w.operation.params i) { buffer = 0 });
            };
          }

  alloc_as-Done :
      (kind : Alloc)
      → w.operation.buffer_h_addr i ≡ 0
      → w.trans_paramtype i ≡ 0
      → Done env w.words kind i w (alloc_as pool env kind kernel_params (param_type env i) i w)
  unfolding alloc_as
  alloc_as-Done tmp_mem z y = alloc_for_tmp_mem-Done
  alloc_as-Done ref_mem z y = alloc_for_ref_mem-Done z
  alloc_as-Done client_value z y =
      transfer_client_value-Done env w.words pool kernel_params i w refl
  alloc_as-Done ion z y = tt
  alloc_as-Done ion_sglist z y = tt
  alloc_as-Done no_alloc z y =
      (y, record { words_same = refl; others = λ j ne. (refl, refl, refl, refl, refl) })

module _ {S : Type 0} (pool : PoolOps S) (env : CallEnv) (words : ℕ → ℕ) where
  -- The parameters below `i` are encoded, and those from `i` on have not been touched.
  record Halfway (i : ℕ) (w : Work S) : Type 0 where
    unread : w.words ≡ words
    before : (j : ℕ) → j < i → EncodedAs env words (alloc_kind (param_type env j)) j w
    after : (j : ℕ) → i ≤ j → (w.operation.buffer_h_addr j ≡ 0) × (w.trans_paramtype j ≡ 0)

  -- What success says.
  abbrev HalfwayIf : ℕ → Code × Work S → Type 0
  HalfwayIf i (fail e, w) = Unit {0}
  HalfwayIf i (success, w) = Halfway i w

  Halfway-suc :
      (i : ℕ) (w : Work S) (r : Code × Work S)
      → Halfway i w
      → Done env w.words (alloc_kind (param_type env i)) i w r
      → HalfwayIf (suc i) r
  Halfway-suc i w (fail e, w') h d = tt
  Halfway-suc i w (success, w') h (enc, s) = record {
    unread = s.words_same ∙ h.unread;
    before = λ j lt. elim (ℕ_discrete j i) [
      | yes e ↦
          subst (λ k. EncodedAs env words (alloc_kind (param_type env k)) k w') (sym e)
            (subst (λ (ws : ℕ → ℕ). EncodedAs env ws (alloc_kind (param_type env i)) i w') h.unread
              enc)
      | no ne ↦
          EncodedAs-Same env words (alloc_kind (param_type env j)) i j w w' s ne
            (h.before j (omega (arith, lt, ne)))
    ];
    after = λ j le.
        let (a, b, c, d, e) = s.others j (omega (arith, le)) in
        let (f, g) = h.after j (omega (arith, le)) in (b ∙ f, e ∙ g);
  }

  alloc_loop-Halfway :
      (n i : ℕ) (w : Work S) → Halfway i w → HalfwayIf (n + i) (alloc_loop pool env n i w)
  unfolding alloc_loop alloc_param
  alloc_loop-Halfway zero i w h = subst (λ k. Halfway k w) (omega arith) h
  alloc_loop-Halfway (suc n) i w h =
      go (alloc_param pool env i w)
        (Halfway-suc i w _ h (
          alloc_as-Done pool env _ i w (alloc_kind (param_type env i)) (h.after i (omega arith)).0
            (h.after i (omega arith)).1))
        (λ v. alloc_loop-Halfway n (suc i) v)
    where
      go :
          (r : Code × Work S)
          → HalfwayIf (suc i) r
          → ((v : Work S)
              → Halfway (suc i) v
              → HalfwayIf (n + suc i) (alloc_loop pool env n (suc i) v))
          → HalfwayIf (suc n + i) (and_then r (λ v. alloc_loop pool env n (suc i) v))
      go (success, v) k rest =
          subst (λ m. HalfwayIf m (alloc_loop pool env n (suc i) v)) (omega arith) (rest v k)
      go (fail e, v) k rest = tt

-- When `alloc_operation` succeeds, each parameter is encoded by its type: a value as the client's two
-- words; a temporary buffer as the physical address of a buffer of the client's size, which is not above
-- the limit; a part of a shared memory as that of a copy, of a size that is not 0, with the type of the TEE. No ION
-- parameter is accepted, a parameter of any other type counts as none, and the operation's types are those of the parameters.
pub alloc_operation-Encoded :
    {S : Type 0} (pool : PoolOps S) (env : CallEnv) (s : S) (words : ℕ → ℕ) (mems : ℕ → SharedMem)
    → Encoded env words (alloc_operation pool env (start_work s words mems))
unfolding alloc_operation start_work
alloc_operation-Encoded {S} pool env s words mems =
    go (alloc_loop pool env 4 0 (start_work s words mems)) (
      alloc_loop-Halfway pool env words 4 0 (start_work s words mems) (record {
        unread = refl;
        before = λ j lt. absurd (omega (arith, lt));
        after = λ j le. (refl, refl);
      }))
  where
    go :
        (r : Code × Work S)
        → HalfwayIf pool env words 4 r
        → Encoded env words (alloc_done pool env r)
    go (fail e, w) h = tt
    go (success, w) h = (
      λ j lt.
          EncodedAs-Same env words (alloc_kind (param_type env j)) 4 j w _
            (record { words_same = refl; others = λ k ne. (refl, refl, refl, refl, refl) })
            (omega (arith, lt)) (h.before j lt),
      refl,
    )
