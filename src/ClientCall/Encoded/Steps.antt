-- ===== src/ClientCall/Encoded/Steps.antt =====
-- core/gp_ops.c: one parameter of `alloc_operation`, for each kind of parameter.
use itrustee_tzdriver.Base.{
  ℕ, ◌/◌, ◌%◌, ◌^◌, ◌≤◌, ◌≡◌, refl, sym, ◌≢◌, ◌⊎◌, inl, inr, Bool, ◌&&◌, not, Option, none, some,
  arith, if_cases_of,
}
use itrustee_tzdriver.Base.Errno.{Code, success, fail}
use itrustee_tzdriver.Base.Update.{update_same, update_other}
use itrustee_tzdriver.Param.{tmp_mem, ref_mem, client_value, is_refmem_offset_valid}
use itrustee_tzdriver.ClientCall.{PoolOps, Work, CallEnv, is_failed, read_from_client}
use itrustee_tzdriver.ClientCall.Alloc.{
  param_type, max_shared_size, set_value, set_buffer, set_size, is_input_tempmem,
  is_opensession_by_index, is_phyaddr_valid, tmp_done, tmp_filled, tmp_allocated, ref_copied,
  ref_found, ref_done, transfer_client_value,
}
use itrustee_tzdriver.ClientCall.Encoded.{Same, Done}

module _ {S : Type 0} (env : CallEnv) (words : ℕ → ℕ) (pool : PoolOps S) (kernel_params : Bool)
    (i : ℕ) where
  tmp_filled-Done :
      (addr : ℕ) (w v : Work S)
      → v.local_tmpbuf i
        ≡ record { temp_buffer = some addr; size = words (env.context.params i).size_addr }
      → words (env.context.params i).size_addr ≤ max_shared_size
      → Same i w v
      → Done env words tmp_mem i w (
          tmp_filled pool env kernel_params
            (param_type env i)
            i
            addr
            (words (env.context.params i).size_addr)
            v)
  unfolding tmp_filled tmp_done set_size set_buffer
  tmp_filled-Done addr w v e le s =
      if_cases_of (Done env words tmp_mem i w) copy_fails (λ _. tt)
        (λ _.
          if_cases_of (Done env words tmp_mem i w) login_fails (λ _. tt)
            (λ _. (
              (addr, ground (arith, e), le, (ground arith, ground arith), ground arith),
              record {
                words_same = ground (arith, s.words_same);
                others = λ j ne. ground (arith, ne, s.others j ne);
              },
            )))
    where
      size : ℕ
      size = words (env.context.params i).size_addr

      copy_fails : Bool
      copy_fails =
          is_input_tempmem (param_type env i)
          && is_failed (read_from_client env size (env.context.params i).buffer size kernel_params)

      login_fails : Bool
      login_fails =
          is_opensession_by_index env.flags env.cmd_id i
          && is_failed (env.encrypt_login_info size addr)

  pub transfer_client_value-Done :
      (w : Work S)
      → w.words ≡ words
      → Done env words client_value i w
          (transfer_client_value pool env kernel_params (param_type env i) i w)
  unfolding transfer_client_value set_value set_size
  transfer_client_value-Done w e =
      if_cases_of (Done env words client_value i w)
        (is_failed (read_from_client env 4 (env.context.params i).a_addr 4 kernel_params)) (λ _. tt)
        (λ _.
          if_cases_of (Done env words client_value i w)
            (is_failed (read_from_client env 4 (env.context.params i).b_addr 4 kernel_params))
            (λ _. tt)
            (λ _. (
              (ground (arith, e), ground arith),
              record { words_same = refl; others = λ j ne. ground (arith, ne) },
            )))

  pub tmp_allocated-Done :
      (r : Option ℕ × S) (w : Work S)
      → words (env.context.params i).size_addr ≤ max_shared_size
      → Done env words tmp_mem i w (
          tmp_allocated pool env kernel_params
            (param_type env i)
            i
            (words (env.context.params i).size_addr)
            r
            w)
  unfolding tmp_allocated
  tmp_allocated-Done (none, s) w le = tt
  tmp_allocated-Done (some addr, s) w le =
      tmp_filled-Done addr w _ (update_same w.local_tmpbuf i _) le (record {
        words_same = refl;
        others =
            λ j ne. (refl, refl, refl, update_other w.local_tmpbuf i _ j (λ e. ne (sym e)), refl);
      })

  -- The memory at the client's address, if it was found and copied.
  abbrev pub Found : ℕ → Work S → Code × Work S → Type 0
  Found size w (fail e, w') = Unit {0}
  Found size w (success, w') =
      Same i w w'
      × (((w'.operation.params i).buffer ≡ 0) × (w'.operation.buffer_h_addr i ≡ 0)
          ⊎ (addr : ℕ) × (w'.operation.mb_buffer i ≡ some addr)
            × ((w'.operation.params i).buffer ≡ env.virt_to_phys addr % 2 ^ 32)
            × (w'.operation.buffer_h_addr i ≡ env.virt_to_phys addr / 2 ^ 32 % 2 ^ 32))

  ref_copied-Found :
      (size m : ℕ) (r : Option ℕ × S) (w v : Work S)
      → Same i w v
      → Found size w (ref_copied pool env i size m r v)
  unfolding ref_copied set_buffer
  ref_copied-Found size m (none, s) w v h = tt
  ref_copied-Found size m (some addr, s) w v h = (
    record { words_same = h.words_same; others = λ j ne. ground (arith, ne, h.others j ne) },
    inr (addr, ground arith, ground arith, ground arith),
  )

  pub ref_found-Found :
      (size : ℕ) (o : Option ℕ) (w v : Work S)
      → Same i w v
      → (v.operation.params i).buffer ≡ 0
      → v.operation.buffer_h_addr i ≡ 0
      → Found size w (ref_found pool env i size o v)
  unfolding ref_found
  ref_found-Found size none w v h a b = (h, inl (a, b))
  ref_found-Found size (some m) w v h a b =
      if_cases_of (Found size w)
        (not (is_refmem_offset_valid (v.mems m).len (env.context.params i).offset size))
        (λ _. (h, inl (a, b))) (λ _. ref_copied-Found size m _ w v h)

  pub ref_done-Done :
      (r : Code × Work S) (w : Work S)
      → words (env.context.params i).size_addr ≢ 0
      → Found (words (env.context.params i).size_addr) w r
      → Done env words ref_mem i w
          (ref_done pool env (param_type env i) i (words (env.context.params i).size_addr) r)
  unfolding ref_done is_phyaddr_valid set_size
  ref_done-Done (fail e, v) w ne f = tt
  ref_done-Done (success, v) w ne (s, inl (a, b)) = rw (a, b) tt
  ref_done-Done (success, v) w ne (s, inr (addr, a, b, c)) =
      if_cases_of (Done env words ref_mem i w) (not (is_phyaddr_valid v.operation i)) (λ _. tt)
        (λ _. (
          (addr, a, ne, (ground (arith, b), c), ground arith),
          record {
            words_same = s.words_same;
            others = λ j far. ground (arith, far, s.others j far);
          },
        ))
