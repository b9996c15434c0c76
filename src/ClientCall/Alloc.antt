-- ===== src/ClientCall/Alloc.antt =====
-- core/gp_ops.c, `alloc_operation` and `free_operation`: the parameters of the client are copied to memory
-- that the TEE can read, and that memory is given back.
use itrustee_tzdriver.Base.{
  ℕ, zero, suc, ◌+◌, ◌-◌, ◌/◌, ◌%◌, ◌^◌, Bool, true, false, ◌&&◌, ◌||◌, not, Option, none, some,
  List, [], ◌∷◌, ltb, leb, ◌==◌, if◌then◌else◌,
}
use itrustee_tzdriver.Base.Errno.{Code, success, fail, eperm, enomem, efault, einval}
use itrustee_tzdriver.Base.Update.{update}
use itrustee_tzdriver.Auth.{global_cmd_id_open_session}
use itrustee_tzdriver.Param.{
  Alloc, tmp_mem, ref_mem, client_value, ion, ion_sglist, no_alloc, param_num, teec_param_types,
  teec_param_type_get, teec_memref_temp_input, teec_memref_temp_inout, teec_memref_partial_input,
  teec_ion_sglist_input, is_tmp_mem, is_ref_mem, is_refmem_offset_valid, alloc_kind,
}
use itrustee_tzdriver.ClientCall.{
  PoolOps, NsOperation, SharedMem, Work, CallEnv, is_failed, and_then, read_from_client,
  get_sharemem_struct, put_sharemem_struct, tc_call_global, tc_call_login, has_flag,
}

abbrev pub max_shared_size : ℕ
max_shared_size = 0x100000

abbrev pub tee_param_type_memref_input : ℕ
tee_param_type_memref_input = 5

unfoldable pub is_input_tempmem : ℕ → Bool
is_input_tempmem t = t == teec_memref_temp_input || t == teec_memref_temp_inout

unfoldable pub is_opensession_by_index : ℕ → ℕ → ℕ → Bool
is_opensession_by_index flags cmd_id index =
    has_flag flags tc_call_global && leb 2 index && cmd_id == global_cmd_id_open_session

-- The low and the high half of a physical address, in the parameter of an index.
unfoldable pub set_buffer : CallEnv → ℕ → ℕ → NsOperation → NsOperation
set_buffer env index addr op = record op {
  params =
      update op.params index (record (op.params index) { buffer = env.virt_to_phys addr % 2 ^ 32 });
  buffer_h_addr = update op.buffer_h_addr index (env.virt_to_phys addr / 2 ^ 32 % 2 ^ 32);
}

unfoldable pub set_size : ℕ → ℕ → NsOperation → NsOperation
set_size index size op = record op {
  params = update op.params index (record (op.params index) { size = size });
}

abbrev pub param_type : CallEnv → ℕ → ℕ
param_type env index = teec_param_type_get env.context.param_types index

-- The loop of `alloc_for_ref_mem` looks for the first memory at the client's address.
unfoldable pub find_shared_mem : ℕ → (ℕ → SharedMem) → List ℕ → Option ℕ
find_shared_mem addr mems [] = none
find_shared_mem addr mems (m ∷ ms) =
    let later = find_shared_mem addr mems ms in if (mems m).user_addr == addr then some m else later

unfoldable pub is_phyaddr_valid : NsOperation → ℕ → Bool
is_phyaddr_valid op index =
    if (op.params index).buffer == 0 && op.buffer_h_addr index == 0 then false else true

unfoldable pub set_value : {S : Type 0} → ℕ → ℕ → Work S → Work S
set_value index a w = record w {
  operation = record w.operation {
    params = update w.operation.params index (record (w.operation.params index) { buffer = a });
  };
}

module _ {S : Type 0} (pool : PoolOps S) (env : CallEnv) where
  -- The end of `alloc_for_tmp_mem`.
  unfoldable pub tmp_done : ℕ → ℕ → ℕ → ℕ → Work S → Code × Work S
  unfolding set_buffer set_size
  tmp_done t index addr size w = (
    success,
    record w {
      operation = set_size index size (set_buffer env index addr w.operation);
      trans_paramtype = update w.trans_paramtype index t;
    },
  )

  -- `update_input_data` and what follows it.
  unfoldable pub tmp_filled : Bool → ℕ → ℕ → ℕ → ℕ → Work S → Code × Work S
  unfolding is_input_tempmem read_from_client is_opensession_by_index tmp_done
  tmp_filled kernel_params t index addr size w =
      let src = (env.context.params index).buffer in
      let w' =
        if is_input_tempmem t
        then record w { transfers = record { dest = addr; src = src; count = size } ∷ w.transfers }
        else w in
      if is_input_tempmem t && is_failed (read_from_client env size src size kernel_params)
      then (fail efault, w)
      else if is_opensession_by_index env.flags env.cmd_id index
          && is_failed (env.encrypt_login_info size addr)
      then (fail efault, w')
      else tmp_done t index addr size w'

  unfoldable pub tmp_allocated : Bool → ℕ → ℕ → ℕ → Option ℕ × S → Work S → Code × Work S
  unfolding tmp_filled
  tmp_allocated kernel_params t index size (none, s) w = (fail enomem, record w { pool = s })
  tmp_allocated kernel_params t index size (some addr, s) w =
      tmp_filled kernel_params t index addr size (record w {
        pool = s;
        local_tmpbuf =
            update w.local_tmpbuf index (record { temp_buffer = some addr; size = size });
      })

  -- The index is below TEE_PARAM_NUM, here and in the functions below.
  unfoldable pub alloc_for_tmp_mem : Bool → ℕ → ℕ → Work S → Code × Work S
  unfolding tmp_allocated read_from_client
  alloc_for_tmp_mem kernel_params t index w =
      let size_addr = (env.context.params index).size_addr in
      let size = w.words size_addr in
      if is_failed (read_from_client env 4 size_addr 4 kernel_params)
      then (fail efault, w)
      else if ltb max_shared_size size
      then (fail efault, w)
      else tmp_allocated kernel_params t index size (pool.alloc size true w.pool) w

  -- `check_buffer_for_ref`, with the size that it reads.
  unfoldable pub check_buffer_for_ref : Bool → ℕ → Work S → Code × ℕ
  unfolding read_from_client
  check_buffer_for_ref kernel_params index w =
      let size_addr = (env.context.params index).size_addr in
      let size = w.words size_addr in
      if is_failed (read_from_client env 4 size_addr 4 kernel_params)
      then (fail efault, size)
      else if size == 0
      then (fail enomem, size)
      else (success, size)

  -- The loop's body in `alloc_for_ref_mem` for the memory that it finds, with what `mailbox_copy_alloc` gave.
  unfoldable pub ref_copied : ℕ → ℕ → ℕ → Option ℕ × S → Work S → Code × Work S
  unfolding set_buffer get_sharemem_struct
  ref_copied index size m (none, s) w = (fail enomem, record w { pool = s })
  ref_copied index size m (some addr, s) w =
      let src = (w.mems m).kernel_addr + (env.context.params index).offset in
      let op = set_buffer env index addr w.operation in
      (
        success,
        record w {
          pool = s;
          transfers = record { dest = addr; src = src; count = size } ∷ w.transfers;
          operation = record op {
            mb_buffer = update op.mb_buffer index (some addr);
            sharemem = update op.sharemem index (some m);
          };
          mems = get_sharemem_struct (some m) w.mems;
        },
      )

  unfoldable pub ref_found : ℕ → ℕ → Option ℕ → Work S → Code × Work S
  unfolding ref_copied is_refmem_offset_valid
  ref_found index size none w = (success, w)
  ref_found index size (some m) w =
      let offset = (env.context.params index).offset in
      if not (is_refmem_offset_valid (w.mems m).len offset size)
      then (success, w)
      else ref_copied index size m
          (pool.copy_alloc (not (((w.mems m).kernel_addr + offset) % 2 ^ 64 == 0)) size w.pool) w

  -- The end of `alloc_for_ref_mem`; PARTIAL types become the TEE's types of memory.
  unfoldable pub ref_done : ℕ → ℕ → ℕ → Code × Work S → Code × Work S
  unfolding is_phyaddr_valid set_size
  ref_done t index size (fail e, w) = (fail e, w)
  ref_done t index size (success, w) =
      if not (is_phyaddr_valid w.operation index) then (fail einval, w) else (
        success,
        record w {
          operation = set_size index size w.operation;
          trans_paramtype =
              update w.trans_paramtype index
                (t - (teec_memref_partial_input - tee_param_type_memref_input));
        },
      )

  -- `alloc_for_ref_mem` once the size is read.
  unfoldable pub ref_sized : ℕ → ℕ → Code × ℕ → Work S → Code × Work S
  unfolding ref_found ref_done
  ref_sized t index (fail e, size) w = (fail einval, w)
  ref_sized t index (success, size) w =
      let w' = record w {
        operation = record w.operation {
          params =
              update w.operation.params index (record (w.operation.params index) { buffer = 0 });
        };
      } in
      let found = find_shared_mem (env.context.params index).buffer w.mems env.shared_mem_list in
      ref_done t index size (ref_found index size found w')

  unfoldable pub alloc_for_ref_mem : Bool → ℕ → ℕ → Work S → Code × Work S
  unfolding check_buffer_for_ref ref_sized find_shared_mem
  alloc_for_ref_mem kernel_params t index w =
      ref_sized t index (check_buffer_for_ref kernel_params index w) w

  unfoldable pub transfer_client_value : Bool → ℕ → ℕ → Work S → Code × Work S
  unfolding read_from_client set_size set_value
  transfer_client_value kernel_params t index w =
      let p = env.context.params index in
      let w' = set_value index (w.words p.a_addr) w in
      if is_failed (read_from_client env 4 p.a_addr 4 kernel_params)
      then (fail efault, w)
      else if is_failed (read_from_client env 4 p.b_addr 4 kernel_params)
      then (fail efault, w')
      else (
        success,
        record w' {
          operation = set_size index (w.words p.b_addr) w'.operation;
          trans_paramtype = update w'.trans_paramtype index t;
        },
      )

  -- With TC_CALL_LOGIN the parameters 2 and 3 come from the kernel. The ION kinds are refused by -1.
  unfoldable pub alloc_as : Alloc → Bool → ℕ → ℕ → Work S → Code × Work S
  unfolding alloc_for_tmp_mem alloc_for_ref_mem transfer_client_value
  alloc_as tmp_mem kernel_params t index w = alloc_for_tmp_mem kernel_params t index w
  alloc_as ref_mem kernel_params t index w = alloc_for_ref_mem kernel_params t index w
  alloc_as client_value kernel_params t index w = transfer_client_value kernel_params t index w
  alloc_as ion kernel_params t index w = (fail eperm, w)
  alloc_as ion_sglist kernel_params t index w = (fail eperm, w)
  alloc_as no_alloc kernel_params t index w = (success, w)

  unfoldable pub alloc_param : ℕ → Work S → Code × Work S
  unfolding alloc_as alloc_kind teec_param_type_get
  alloc_param index w =
      let kernel_params =
        if has_flag env.flags tc_call_login && leb 2 index then true else env.kernel_api in
      alloc_as (alloc_kind (param_type env index)) kernel_params (param_type env index) index w

  -- The loop of `alloc_operation`, with the rounds left.
  unfoldable pub alloc_loop : ℕ → ℕ → Work S → Code × Work S
  unfolding alloc_param
  alloc_loop zero index w = (success, w)
  alloc_loop (suc n) index w = and_then (alloc_param index w) (λ w'. alloc_loop n (suc index) w')

  -- The pool's part of a buffer that may be missing.
  unfoldable pub free_tmp : Option ℕ → Work S → Work S
  free_tmp none w = w
  free_tmp (some addr) w =
      if env.virt_addr_valid addr then record w { pool = pool.free (some addr) w.pool } else w

  unfoldable pub free_ref : Option ℕ → Option ℕ → Work S → Work S
  unfolding put_sharemem_struct
  free_ref m none w = record w { mems = put_sharemem_struct m w.mems }
  free_ref m (some addr) w = record w {
    mems = put_sharemem_struct m w.mems;
    pool = pool.free (some addr) w.pool;
  }

  unfoldable pub free_param : ℕ → Work S → Work S
  unfolding free_tmp free_ref is_tmp_mem is_ref_mem teec_param_type_get
  free_param index w =
      let t = param_type env index in
      if is_tmp_mem t
      then free_tmp (w.local_tmpbuf index).temp_buffer w
      else if is_ref_mem t
      then free_ref (w.operation.sharemem index) (w.operation.mb_buffer index) w
      else if t == teec_ion_sglist_input
      then free_tmp (w.local_tmpbuf index).temp_buffer w
      else w

  unfoldable pub free_params : ℕ → ℕ → Work S → Work S
  unfolding free_param
  free_params zero index w = w
  free_params (suc n) index w = free_params n (suc index) (free_param index w)

  unfoldable pub free_operation : Work S → Work S
  unfolding free_params
  free_operation w = free_params param_num 0 w

  -- The end of `alloc_operation`.
  unfoldable pub alloc_done : Code × Work S → Code × Work S
  unfolding free_operation teec_param_types
  alloc_done (fail e, w) = (fail e, free_operation w)
  alloc_done (success, w) =
      let t = w.trans_paramtype in
      (
        success,
        record w {
          operation = record w.operation { paramtypes = teec_param_types (t 0) (t 1) (t 2) (t 3) };
          op_inited = true;
        },
      )

  unfoldable pub alloc_operation : Work S → Code × Work S
  unfolding alloc_loop alloc_done
  alloc_operation w = alloc_done (alloc_loop param_num 0 w)
