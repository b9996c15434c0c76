-- ===== src/ClientCall/Tests.antt =====
-- A call with a value, a temporary buffer and a part of a shared memory, on a fresh pool and on one that
-- only counts.
use itrustee_tzdriver.Base.{
  ℕ, ◌+◌, ◌*◌, ◌/◌, ◌≡◌, refl, inr, true, false, some, List, [], ◌∷◌, All, arith, leb, ◌==◌,
  if◌then◌else◌,
}
use itrustee_tzdriver.Base.Errno.{success}
use itrustee_tzdriver.Base.Pow.{pow2}
use itrustee_tzdriver.Mailbox.{MbZone, Kernel, init_zone}
use itrustee_tzdriver.Mailbox.Inv.{Inv}
use itrustee_tzdriver.Mailbox.History.{init_zone-Inv}
use itrustee_tzdriver.Smc.Cmd.{teec_pending}
use itrustee_tzdriver.ClientCall.{
  PoolOps, NsOperation, SharedMem, Work, CallEnv, write_word, write_to_client,
}
use itrustee_tzdriver.ClientCall.Alloc.{alloc_operation}
use itrustee_tzdriver.ClientCall.Update.{tmp_copied, update_tmp_mem, update_client_operation}
use itrustee_tzdriver.ClientCall.Command.{Context, TeeReturn, CallerProcess, zero_operation}
use itrustee_tzdriver.ClientCall.Run.{start_work, tc_client_call}
use itrustee_tzdriver.ClientCall.Balance.{Returns}
use itrustee_tzdriver.ClientCall.Balance.Whole.{tc_client_call-Returns}
use itrustee_tzdriver.ClientCall.Copies.{Fits}
use itrustee_tzdriver.ClientCall.Copies.Loop.{update_client_operation-Fits}
use itrustee_tzdriver.ClientCall.Encoded.{Encoded}
use itrustee_tzdriver.ClientCall.Encoded.Whole.{alloc_operation-Encoded}
use itrustee_tzdriver.ClientCall.Pool.{InUse, pool_ops, pool_laws}

abbrev words : ℕ → ℕ
words a = if a == 100 then 20 else 5

abbrev mems : ℕ → SharedMem
mems m = record { kernel_addr = 70000; user_addr = 9000; len = 4096; usage = 1; live = true }

-- The types 1, 7 and 15: a value for the TEE, and two memories for both sides.
abbrev env : CallEnv
env = record {
  context = record {
    params = λ i. record { buffer = 9000; offset = 8; size_addr = 100; a_addr = 300; b_addr = 304 };
    param_types = 0xF71;
  };
  cmd_id = 7;
  flags = 0;
  kernel_api = false;
  shared_mem_list = 3 ∷ [];
  copy_from_user_fails = λ addr size. false;
  copy_to_user_fails = λ addr size. false;
  memcpy_s = λ dest_size size. success;
  virt_to_phys = λ a. a * 4096;
  virt_addr_valid = λ a. true;
  encrypt_login_info = λ size addr. success;
}

abbrev caller : CallerProcess
caller = record {
  kzalloc = true;
  uid = 1;
  pid = 2;
  has_mm = true;
  dev_file_id = 3;
  pub_key_len = 0;
  has_session = true;
  uuid_copied = success;
  tzmp2_uid = λ cmd. cmd;
  login = success;
  login_data = λ p. p;
  secured = λ cmd. (success, cmd);
}

abbrev context : Context
context = record {
  uuid = [];
  session_id = 4;
  started = true;
  login_method = 0;
  code = 0;
  origin = 0;
}

-- The TEE waits once and then succeeds.
abbrev turns : List TeeReturn
turns =
    record {
      append = success;
      tee_ret = teec_pending;
      answer = λ cmd. cmd;
      written = λ op. op;
      post = success;
    }
    ∷ record {
      append = success;
      tee_ret = 0;
      answer = λ cmd. cmd;
      written = λ op. op;
      post = success;
    }
    ∷ []

abbrev kernel : Kernel
kernel = record {
  get_order = λ size. if leb size 4096 then 0 else 1;
  align = λ size to. (size + 4095) / 4096 * 4096;
  memset_fails = λ size. false;
  memcpy_fails = λ size. false;
}

abbrev fresh : MbZone
fresh = init_zone 10 5000

fresh-Inv : Inv fresh
unfolding pow2
fresh-Inv = init_zone-Inv 10 5000 (omega arith) refl

fresh-InUse : InUse 5000 (λ a. 0) fresh
unfolding init_zone
fresh-InUse = record {
  inv = fresh-Inv;
  place = refl;
  taken = λ q t. absurd (t.marked refl);
  only = λ a ne. absurd (ne refl);
}

tc_client_call-Returns_example :
    Returns
      (pool_ops kernel 5000)
      (pool_laws kernel 5000)
      env
      mems
      (λ a. refl)
      (λ a. 0)
      (tc_client_call
        (pool_ops kernel 5000)
        env
        caller
        (λ op. op)
        turns
        context
        words
        mems
        (some fresh))
tc_client_call-Returns_example =
    tc_client_call-Returns (pool_ops kernel 5000) (pool_laws kernel 5000) env mems (λ a. refl)
      (λ a. 0) (λ m on. omega arith) caller (λ op. op) turns context words
      ((λ op. (refl, refl)), ((λ op. (refl, refl)), tt)) (inr (omega arith)) (some fresh)
      fresh-InUse

-- A pool whose blocks are numbered.
abbrev counter : PoolOps ℕ
counter = record {
  alloc = λ size zeroed s. (some (s + 1), s + 1);
  copy_alloc = λ src size s. (some (s + 1), s + 1);
  cmd_pack = λ s. (some (s + 1), s + 1);
  free = λ p s. s;
}

alloc_operation-Encoded_example :
    Encoded env words (alloc_operation counter env (start_work 0 words mems))
alloc_operation-Encoded_example = alloc_operation-Encoded counter env 0 words mems

types_of_memory :
    (alloc_operation counter env (start_work 0 words mems)).1.operation.paramtypes ≡ 0x771
unfolding alloc_operation start_work
types_of_memory = refl

-- What the TEE has left: 12 bytes in the buffer of the second parameter.
abbrev answered : Work ℕ
answered = record {
  pool = 0;
  words = words;
  mems = mems;
  transfers = [];
  operation = record zero_operation { params = λ i. record { buffer = 0; size = 12 } };
  local_tmpbuf = λ i. record { temp_buffer = some 40; size = 20 };
  trans_paramtype = λ i. 0;
  op_inited = true;
}

update_client_operation-Fits_example :
    All
      (Fits env answered.local_tmpbuf answered.operation answered.mems)
      (update_client_operation env (λ op. op) true answered).1.transfers
update_client_operation-Fits_example =
    update_client_operation-Fits env (λ op. op) (λ op i. refl) true answered refl
      (λ i m e. absurd (ground (arith, e)))

-- The TEE writes 4096 over the 12.
abbrev grown : NsOperation → NsOperation
grown op = record op { params = λ i. record { buffer = 0; size = 4096 } }

-- The size that passes the check is not the one that is copied.
size_rewritten :
    (update_tmp_mem env grown 1 true answered).1.transfers
    ≡ record { dest = 9000; src = 40; count = 4096 } ∷ []
unfolding update_tmp_mem tmp_copied write_word write_to_client
size_rewritten = refl
