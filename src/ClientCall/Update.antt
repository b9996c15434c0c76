-- ===== src/ClientCall/Update.antt =====
-- core/gp_ops.c, `update_client_operation`: what the TEE left in the parameters is brought to the client.
use itrustee_tzdriver.Base.{
  ℕ, zero, suc, ◌+◌, ◌-◌, ◌%◌, ◌^◌, Bool, ◌&&◌, not, Option, none, some, ◌∷◌, ltb, ◌==◌,
  if◌then◌else◌,
}
use itrustee_tzdriver.Base.Errno.{Code, success, fail, enomem, efault}
use itrustee_tzdriver.Param.{
  output, param_num, teec_param_type_get, teec_tmpmem_type, teec_memref_type, teec_value_type,
}
use itrustee_tzdriver.ClientCall.{
  NsOperation, Work, CallEnv, is_failed, and_then, read_from_client, write_to_client, write_word,
}
use itrustee_tzdriver.ClientCall.Alloc.{param_type}

-- The TEE can write the operation at any time: what it has written to the pack when a size has been
-- read and is read again.
abbrev pub Rewrite : Type 0
Rewrite = NsOperation → NsOperation

module _ {S : Type 0} (env : CallEnv) (rewrite : Rewrite) where
  -- The end of `update_tmp_mem`, where the size is read again.
  unfoldable pub tmp_copied : ℕ → Work S → Code × Work S
  unfolding write_to_client
  tmp_copied index w =
      let size = ((rewrite w.operation).params index).size in
      let dest = (env.context.params index).buffer in
      elim (w.local_tmpbuf index).temp_buffer [
        | none ↦ (fail enomem, w)
        | some src ↦
            if is_failed (write_to_client env dest size size env.kernel_api)
            then (fail enomem, w)
            else (
              success,
              record w {
                transfers = record { dest = dest; src = src; count = size } ∷ w.transfers;
              },
            )
      ]

  unfoldable pub update_tmp_mem : ℕ → Bool → Work S → Code × Work S
  unfolding write_word tmp_copied
  update_tmp_mem index is_complete w =
      let size = (w.operation.params index).size in
      let (code, words) = write_word env (env.context.params index).size_addr size w.words in
      let w' = record w { words = words } in
      if is_failed code
      then (fail efault, w)
      else if ltb (w.local_tmpbuf index).size size
      then (if not is_complete then (success, w') else (fail efault, w'))
      else tmp_copied index w'

  -- The copy to the shared memory; without a copy in the pool, or with a larger size than the client
  -- has room for, nothing is copied. Where there is a copy, its shared memory is there too, which the
  -- code relies on. `memcpy_s` refuses a size larger than the rest of the memory.
  unfoldable pub ref_written : ℕ → ℕ → ℕ → Option ℕ → Option ℕ → Work S → Code × Work S
  ref_written index orig_size size (some src) (some m) w =
      let offset = (env.context.params index).offset in
      let rest = ((w.mems m).len + 2 ^ 64 - offset) % 2 ^ 64 in
      let dest = (w.mems m).kernel_addr + offset in
      if ltb orig_size size
      then (success, w)
      else if ltb rest size
      then (fail efault, w)
      else if is_failed (env.memcpy_s rest size)
      then (fail efault, w)
      else (
        success,
        record w { transfers = record { dest = dest; src = src; count = size } ∷ w.transfers },
      )
  ref_written index orig_size size (some src) none w = (success, w)
  ref_written index orig_size size none m w = (success, w)

  unfoldable pub update_for_ref_mem : ℕ → Work S → Code × Work S
  unfolding read_from_client write_word ref_written
  update_for_ref_mem index w =
      let size = (w.operation.params index).size in
      let size_addr = (env.context.params index).size_addr in
      let (code, words) = write_word env size_addr size w.words in
      if is_failed (read_from_client env 4 size_addr 4 env.kernel_api)
      then (fail efault, w)
      else if is_failed code
      then (fail efault, w)
      else ref_written index (w.words size_addr) size (w.operation.mb_buffer index)
          (w.operation.sharemem index) (record w { words = words })

  unfoldable pub update_for_value : ℕ → Work S → Code × Work S
  unfolding write_word
  update_for_value index w =
      let p = env.context.params index in
      let (code, words) = write_word env p.a_addr (w.operation.params index).buffer w.words in
      let (code', words') = write_word env p.b_addr (w.operation.params index).size words in
      if is_failed code
      then (fail efault, w)
      else if is_failed code'
      then (fail efault, record w { words = words })
      else (success, record w { words = words' })

  unfoldable pub update_param : ℕ → Bool → Work S → Code × Work S
  unfolding update_tmp_mem update_for_ref_mem update_for_value teec_tmpmem_type teec_memref_type
      teec_value_type teec_param_type_get
  update_param index is_complete w =
      let t = param_type env index in
      if teec_tmpmem_type t output
      then update_tmp_mem index is_complete w
      else if teec_memref_type t output
      then update_for_ref_mem index w
      else if is_complete && teec_value_type t output
      then update_for_value index w
      else (success, w)

  unfoldable pub update_loop : ℕ → ℕ → Bool → Work S → Code × Work S
  unfolding update_param
  update_loop zero index is_complete w = (success, w)
  update_loop (suc n) index is_complete w =
      and_then (update_param index is_complete w) (λ w'. update_loop n (suc index) is_complete w')

  unfoldable pub update_client_operation : Bool → Work S → Code × Work S
  unfolding update_loop
  update_client_operation is_complete w =
      if not w.op_inited
      then (success, w)
      else if env.context.param_types == 0
      then (success, w)
      else update_loop param_num 0 is_complete w
