-- ===== src/ClientCall/Built/Params.antt =====
-- core/gp_ops.c, `alloc_operation`: each kind of parameter keeps what is allocated for it.
use itrustee_tzdriver.Base.{
  ℕ, suc, ◌+◌, ◌%◌, ◌^◌, ◌<◌, ◌≡◌, refl, sym, ap, ◌≢◌, inl, inr, Bool, true, false, ◌&&◌, not,
  Option, none, some, ltb, ◌==◌, if_cases, Bool-cases,
}
use itrustee_tzdriver.Base.Errno.{Code, success, fail, eperm, efault, einval}
use itrustee_tzdriver.Base.Nodes.{occurs}
use itrustee_tzdriver.Base.Update.{update_same, update_other}
use itrustee_tzdriver.Param.{
  ClientParam, Alloc, tmp_mem, ref_mem, client_value, ion, ion_sglist, no_alloc, is_tmp_mem,
  is_ref_mem, alloc_kind, is_refmem_offset_valid,
}
use itrustee_tzdriver.ClientCall.{
  PoolOps, SharedMem, TempBuf, Work, CallEnv, is_failed, read_from_client,
}
use itrustee_tzdriver.ClientCall.Alloc.{
  param_type, is_input_tempmem, is_opensession_by_index, is_phyaddr_valid, set_buffer, set_size,
  set_value, max_shared_size, tmp_done, tmp_filled, tmp_allocated, alloc_for_tmp_mem,
  check_buffer_for_ref, ref_copied, ref_found, ref_done, ref_sized, alloc_for_ref_mem,
  transfer_client_value, alloc_as,
}
use itrustee_tzdriver.ClientCall.Slots.{PoolLaws, Given, below, block, BuiltWork, Built-suc}
use itrustee_tzdriver.ClientCall.Built.{
  tmp_kind, ref_kind, find_shared_mem-occurs, Built-tmp, Built-ref, Built-pool, Kept, idle,
}

module _ {S : Type 0} (pool : PoolOps S) (laws : PoolLaws pool) (env : CallEnv) (base : ℕ → ℕ)
    (mems0 : ℕ → SharedMem) (i : ℕ) (kernel_params : Bool) where
  tmp_filled-Kept :
      (t p size : ℕ) (w : Work S)
      → BuiltWork pool laws env base mems0 (suc i) w
      → Kept pool laws env base mems0 i (tmp_filled pool env kernel_params t i p size w)
  unfolding tmp_filled tmp_done set_size set_buffer
  tmp_filled-Kept t p size w b = elim (Bool-cases (is_input_tempmem t)) [
    | inl e ↦ rw e (
        if_cases (Kept pool laws env base mems0 i) copy_fails (record { built = b })
          (if_cases (Kept pool laws env base mems0 i) login_fails (record { built = b })
            (record { built = b })))
    | inr e ↦ rw e (
        if_cases (Kept pool laws env base mems0 i) login_fails (record { built = b })
          (record { built = b }))
  ]
    where
      copy_fails : Bool
      copy_fails =
          is_failed (read_from_client env size (env.context.params i).buffer size kernel_params)

      login_fails : Bool
      login_fails =
          is_opensession_by_index env.flags env.cmd_id i
          && is_failed (env.encrypt_login_info size p)

  tmp_allocated-Kept :
      (t size : ℕ) (r : Option ℕ × S) (w : Work S)
      → is_tmp_mem (param_type env i) ≡ true
      → BuiltWork pool laws env base mems0 i w
      → Given laws.Holds
          (λ a.
            base a
            + below (block env (λ j. (w.local_tmpbuf j).temp_buffer) w.operation.mb_buffer a) i)
          r
      → Kept pool laws env base mems0 i (tmp_allocated pool env kernel_params t i size r w)
  unfolding tmp_allocated
  tmp_allocated-Kept t size (none, s) w k b h = record {
    built =
        Built-suc pool laws env base mems0 i s _ _ _ _
          (Built-pool pool laws env base mems0 i s b h);
  }
  tmp_allocated-Kept t size (some p, s) w k b h = tmp_filled-Kept t p size _ (
      Built-tmp pool laws env base mems0 i p _ s _ _ _ _ _ k
        (ap (λ (x : TempBuf). x.temp_buffer) (update_same w.local_tmpbuf i _))
        (λ j ne.
          ap (λ (x : TempBuf). x.temp_buffer) (update_other w.local_tmpbuf i _ j (λ e. ne (sym e))))
        h b)

  alloc_for_tmp_mem-Kept :
      (t : ℕ) (w : Work S)
      → is_tmp_mem (param_type env i) ≡ true
      → BuiltWork pool laws env base mems0 i w
      → Kept pool laws env base mems0 i (alloc_for_tmp_mem pool env kernel_params t i w)
  unfolding alloc_for_tmp_mem
  alloc_for_tmp_mem-Kept t w k b =
      if_cases (Kept pool laws env base mems0 i)
        (is_failed (read_from_client env 4 size_addr 4 kernel_params))
        (idle pool laws env base mems0 i (fail efault) w b)
        (if_cases (Kept pool laws env base mems0 i) (ltb max_shared_size (w.words size_addr))
          (idle pool laws env base mems0 i (fail efault) w b)
          (tmp_allocated-Kept t (w.words size_addr) _ w k b
            (laws.alloc-Given _ (w.words size_addr) true w.pool b.holds)))
    where
      size_addr : ℕ
      size_addr = (env.context.params i).size_addr

  ref_copied-Kept :
      (size m : ℕ) (r : Option ℕ × S) (w : Work S)
      → is_tmp_mem (param_type env i) ≡ false
      → is_ref_mem (param_type env i) ≡ true
      → (mems0 m).usage ≢ 0
      → BuiltWork pool laws env base mems0 i w
      → Given laws.Holds
          (λ a.
            base a
            + below (block env (λ j. (w.local_tmpbuf j).temp_buffer) w.operation.mb_buffer a) i)
          r
      → Kept pool laws env base mems0 i (ref_copied pool env i size m r w)
  unfolding ref_copied set_buffer
  ref_copied-Kept size m (none, s) w nt t live b h = record {
    built =
        Built-suc pool laws env base mems0 i s _ _ _ _
          (Built-pool pool laws env base mems0 i s b h);
  }
  ref_copied-Kept size m (some p, s) w nt t live b h = record {
    built =
        Built-ref pool laws env base mems0 i p m _ s _ _ _ _ _ _ nt t
          (update_same w.operation.mb_buffer i _)
          (λ j ne. update_other w.operation.mb_buffer i _ j (λ e. ne (sym e)))
          (update_same w.operation.sharemem i _)
          (λ j ne. update_other w.operation.sharemem i _ j (λ e. ne (sym e))) live h b;
  }

  ref_found-Kept :
      (size : ℕ) (found : Option ℕ) (w : Work S)
      → is_tmp_mem (param_type env i) ≡ false
      → is_ref_mem (param_type env i) ≡ true
      → ((m : ℕ) → found ≡ some m → (mems0 m).usage ≢ 0)
      → BuiltWork pool laws env base mems0 i w
      → Kept pool laws env base mems0 i (ref_found pool env i size found w)
  unfolding ref_found
  ref_found-Kept size none w nt t live b = idle pool laws env base mems0 i success w b
  ref_found-Kept size (some m) w nt t live b =
      if_cases (Kept pool laws env base mems0 i)
        (not (is_refmem_offset_valid (w.mems m).len offset size))
        (idle pool laws env base mems0 i success w b)
        (ref_copied-Kept size m _ w nt t (live m refl) b (
          laws.copy_alloc-Given _ (not (((w.mems m).kernel_addr + offset) % 2 ^ 64 == 0)) size
            w.pool b.holds))
    where
      offset : ℕ
      offset = (env.context.params i).offset

  ref_done-Kept :
      (t size : ℕ) (r : Code × Work S)
      → Kept pool laws env base mems0 i r
      → Kept pool laws env base mems0 i (ref_done pool env t i size r)
  unfolding ref_done set_size
  ref_done-Kept t size (fail e, w) k = record { built = k.built }
  ref_done-Kept t size (success, w) k =
      if_cases (Kept pool laws env base mems0 i) (not (is_phyaddr_valid w.operation i))
        (record { built = k.built }) (record { built = k.built })

  alloc_for_ref_mem-Kept :
      (t : ℕ) (w : Work S)
      → is_tmp_mem (param_type env i) ≡ false
      → is_ref_mem (param_type env i) ≡ true
      → ((m : ℕ) → 0 < occurs m env.shared_mem_list → (mems0 m).usage ≢ 0)
      → BuiltWork pool laws env base mems0 i w
      → Kept pool laws env base mems0 i (alloc_for_ref_mem pool env kernel_params t i w)
  unfolding alloc_for_ref_mem
  alloc_for_ref_mem-Kept t w nt k live b = sized (check_buffer_for_ref pool env kernel_params i w)
    where
      sized : (r : Code × ℕ) → Kept pool laws env base mems0 i (ref_sized pool env t i r w)
      sized (fail e, size) = idle pool laws env base mems0 i (fail einval) w b
      sized (success, size) = ref_done-Kept t size _ (
          ref_found-Kept size _ _ nt k
            (λ m e. live m (find_shared_mem-occurs (env.context.params i).buffer w.mems _ m e)) b)

  transfer_client_value-Kept :
      (t : ℕ) (w : Work S)
      → BuiltWork pool laws env base mems0 i w
      → Kept pool laws env base mems0 i (transfer_client_value pool env kernel_params t i w)
  unfolding transfer_client_value set_value set_size
  transfer_client_value-Kept t w b =
      if_cases (Kept pool laws env base mems0 i)
        (is_failed (read_from_client env 4 p.a_addr 4 kernel_params))
        (idle pool laws env base mems0 i (fail efault) w b)
        (if_cases (Kept pool laws env base mems0 i)
          (is_failed (read_from_client env 4 p.b_addr 4 kernel_params))
          (idle pool laws env base mems0 i (fail efault) _ b)
          (idle pool laws env base mems0 i success _ b))
    where
      p : ClientParam
      p = env.context.params i

  pub alloc_as-Kept :
      (kind : Alloc) (w : Work S)
      → alloc_kind (param_type env i) ≡ kind
      → ((m : ℕ) → 0 < occurs m env.shared_mem_list → (mems0 m).usage ≢ 0)
      → BuiltWork pool laws env base mems0 i w
      → Kept pool laws env base mems0 i
          (alloc_as pool env kind kernel_params (param_type env i) i w)
  unfolding alloc_as
  alloc_as-Kept tmp_mem w e live b =
      alloc_for_tmp_mem-Kept (param_type env i) w (tmp_kind (param_type env i) e) b
  alloc_as-Kept ref_mem w e live b =
      let (nt, t) = ref_kind (param_type env i) e in
      alloc_for_ref_mem-Kept (param_type env i) w nt t live b
  alloc_as-Kept client_value w e live b = transfer_client_value-Kept (param_type env i) w b
  alloc_as-Kept ion w e live b = idle pool laws env base mems0 i (fail eperm) w b
  alloc_as-Kept ion_sglist w e live b = idle pool laws env base mems0 i (fail eperm) w b
  alloc_as-Kept no_alloc w e live b = idle pool laws env base mems0 i success w b
