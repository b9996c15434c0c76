-- ===== src/ClientCall.antt =====
-- core/gp_ops.c, `tc_client_call`: what a call keeps while the parameters of a client are brought to the
-- TEE and back. The pool of core/mailbox_mempool.c is a parameter.
pub mod Alloc
pub mod Update
pub mod Command
pub mod Run
pub mod Slots
pub mod Built
pub mod Freed
pub mod Inited
pub mod Quiet
pub mod Balance
pub mod Pool
pub mod Copies
pub mod Encoded
mod Tests
use itrustee_tzdriver.Base.{
  ℕ, ◌+◌, ◌-◌, ◌*◌, ◌/◌, ◌%◌, ◌^◌, Bool, true, false, not, Option, none, some, List, ◌∷◌, ltb, ◌==◌,
  if◌then◌else◌,
}
use itrustee_tzdriver.Base.Errno.{Code, success, fail, einval, efault}
use itrustee_tzdriver.Base.Update.{update}
use itrustee_tzdriver.Param.{ClientContext}

-- What core/gp_ops.c calls of the pool: `mailbox_alloc`, `mailbox_copy_alloc` (the source is not NULL),
-- `mailbox_alloc_cmd_pack` and `mailbox_free`.
pub record PoolOps (S : Type 0) : Type 0 where
  pub alloc : ℕ → Bool → S → Option ℕ × S
  pub copy_alloc : Bool → ℕ → S → Option ℕ × S
  pub cmd_pack : S → Option ℕ × S
  pub free : Option ℕ → S → S

-- `union tc_ns_parameter`: `memref.buffer` is `value.a`, and `memref.size` is `value.b`.
pub record NsParameter : Type 0 where
  pub buffer : ℕ
  pub size : ℕ

-- `struct tc_ns_operation`, which lies in the memory shared with the TEE.
pub record NsOperation : Type 0 where
  pub paramtypes : ℕ
  pub params : ℕ → NsParameter
  pub buffer_h_addr : ℕ → ℕ
  pub sharemem : ℕ → Option ℕ
  pub mb_buffer : ℕ → Option ℕ

pub record TempBuf : Type 0 where
  pub temp_buffer : Option ℕ
  pub size : ℕ

-- `struct tc_ns_shared_mem`; `live` says that it is not freed.
pub record SharedMem : Type 0 where
  pub kernel_addr : ℕ
  pub user_addr : ℕ
  pub len : ℕ
  pub usage : ℕ
  pub live : Bool

-- A copy of so many bytes that was made.
pub record Transfer : Type 0 where
  pub dest : ℕ
  pub src : ℕ
  pub count : ℕ

-- `struct tc_op_params` with the operation of its pack, and all that a call changes besides: the pool,
-- the `uint32_t` at each address of the client, the shared memories and the copies of buffers.
pub record Work (S : Type 0) : Type 0 where
  pub pool : S
  pub words : ℕ → ℕ
  pub mems : ℕ → SharedMem
  pub transfers : List Transfer
  pub operation : NsOperation
  pub local_tmpbuf : ℕ → TempBuf
  pub trans_paramtype : ℕ → ℕ
  pub op_inited : Bool

-- The parts of `struct tc_call_params` that the parameters need, and what the kernel and the
-- authentication answer. `memcpy_s` is given the sizes of the destination and of the copy.
pub record CallEnv : Type 0 where
  pub context : ClientContext
  pub cmd_id : ℕ
  pub flags : ℕ
  pub kernel_api : Bool
  pub shared_mem_list : List ℕ
  pub copy_from_user_fails : ℕ → ℕ → Bool
  pub copy_to_user_fails : ℕ → ℕ → Bool
  pub memcpy_s : ℕ → ℕ → Code
  pub virt_to_phys : ℕ → ℕ
  pub virt_addr_valid : ℕ → Bool
  pub encrypt_login_info : ℕ → ℕ → Code

abbrev pub is_failed : Code → Bool
is_failed success = false
is_failed (fail e) = true

-- The rest of a loop that a failure breaks.
abbrev pub and_then : {S : Type 0} → Code × Work S → (Work S → Code × Work S) → Code × Work S
and_then (success, w) f = f w
and_then (fail e, w) f = (fail e, w)

-- For a `dest` that is not NULL.
unfoldable pub read_from_client : CallEnv → ℕ → ℕ → ℕ → Bool → Code
read_from_client env dest_size src size kernel_api =
    if src == 0
    then fail einval
    else if ltb dest_size size
    then fail einval
    else if size == 0
    then success
    else if kernel_api
    then env.memcpy_s dest_size size
    else if env.copy_from_user_fails src size
    then fail efault
    else success

-- For a `src` that is not NULL.
unfoldable pub write_to_client : CallEnv → ℕ → ℕ → ℕ → Bool → Code
write_to_client env dest dest_size size kernel_api =
    if dest == 0
    then fail einval
    else if ltb dest_size size
    then fail einval
    else if size == 0
    then success
    else if kernel_api
    then env.memcpy_s dest_size size
    else if env.copy_to_user_fails dest size
    then fail efault
    else success

-- A `uint32_t` of the client.
unfoldable pub write_word : CallEnv → ℕ → ℕ → (ℕ → ℕ) → Code × (ℕ → ℕ)
unfolding write_to_client
write_word env addr value words =
    let code = write_to_client env addr 4 4 env.kernel_api in
    (code, if is_failed code then words else update words addr value)

-- `get_sharemem_struct` and `put_sharemem_struct` of core/mem.h, the second with `tc_mem_free`.
unfoldable pub get_sharemem_struct : Option ℕ → (ℕ → SharedMem) → ℕ → SharedMem
get_sharemem_struct none mems = mems
get_sharemem_struct (some m) mems = update mems m (record (mems m) { usage = (mems m).usage + 1 })

unfoldable pub tc_mem_free : ℕ → (ℕ → SharedMem) → ℕ → SharedMem
tc_mem_free m mems = update mems m (record (mems m) { kernel_addr = 0; live = false })

unfoldable pub put_sharemem_struct : Option ℕ → (ℕ → SharedMem) → ℕ → SharedMem
unfolding tc_mem_free
put_sharemem_struct none mems = mems
put_sharemem_struct (some m) mems =
    let less = update mems m (record (mems m) { usage = (mems m).usage - 1 }) in
    if (mems m).usage == 1 then tc_mem_free m less else less

abbrev pub tc_call_global : ℕ
tc_call_global = 1

abbrev pub tc_call_login : ℕ
tc_call_login = 4

-- `flags & bit` for one bit.
abbrev pub has_flag : ℕ → ℕ → Bool
has_flag flags bit = flags / bit % 2 == 1
