-- ===== src/Auth.antt =====
-- auth/security_auth_enhance.c: the time stamp in a token, which both sides count, and the scrambling
-- of a command's operation.
pub mod Stamp
mod Tests
use itrustee_tzdriver.Base.{
  ℕ, zero, suc, ◌+◌, ◌-◌, ◌*◌, ◌/◌, ◌%◌, ◌^◌, Bool, true, false, ◌&&◌, ◌||◌, not, Option, none,
  some, List, [], ◌∷◌, ◌++◌, length, ltb, ◌==◌, if◌then◌else◌,
}
use itrustee_tzdriver.Base.Bind.{◌>>=◌}
use itrustee_tzdriver.Base.Errno.{Code, success, fail, einval, efault}
use itrustee_tzdriver.Base.Xor.{bit_xor}
use itrustee_tzdriver.Smc.Cmd.{Cmd}

abbrev pub cmd_type_ta : ℕ
cmd_type_ta = 1

abbrev pub global_cmd_id_open_session : ℕ
global_cmd_id_open_session = 2

-- The limit of the securec library.
abbrev pub securec_mem_max_len : ℕ
securec_mem_max_len = 0x7fffffff

abbrev pub scrambling_key_len : ℕ
scrambling_key_len = 4

abbrev pub timestamp_len_default : ℕ
timestamp_len_default = 8

abbrev pub inc : ℕ
inc = 1

abbrev pub dec : ℕ
dec = 0

abbrev pub un_synced : ℕ
un_synced = 0x55

abbrev pub is_synced : ℕ
is_synced = 0xaa

-- The 42 bytes of a token: those before the time stamp, the time stamp, the byte at
-- `KERNAL_API_INDEX` and that at `SYNC_INDEX`.
pub record Token : Type 0 where
  pub head : List ℕ
  pub stamp : List ℕ
  pub kernal_api : ℕ
  pub sync : ℕ

-- The words `scrambling` of a `struct session_secure_info`.
pub record SessionSecureInfo : Type 0 where
  pub scrambling : ℕ → ℕ

-- A byte of the first words, on a machine that stores the lowest byte first.
abbrev pub key_byte : SessionSecureInfo → ℕ → ℕ
key_byte info i = info.scrambling (i / 4) / 256 ^ (i % 4) % 256

unfoldable pub all_zero : List ℕ → Bool
all_zero [] = true
all_zero (b ∷ bs) = (b == 0) && all_zero bs

unfoldable pub is_token_empty : Token → Bool
is_token_empty t = all_zero (t.head ++ (t.stamp ++ (t.kernal_api ∷ t.sync ∷ [])))

-- The loop of `scrambling_timestamp` from byte `i` on.
unfoldable pub scramble : (ℕ → ℕ) → ℕ → ℕ → List ℕ → List ℕ
scramble key key_len i [] = []
scramble key key_len i (b ∷ bs) = bit_xor b (key (i % key_len)) ∷ scramble key key_len (suc i) bs

unfoldable pub scrambling_timestamp : List ℕ → (ℕ → ℕ) → ℕ → Option (List ℕ)
scrambling_timestamp input key key_len =
    if length input == 0
      || ltb securec_mem_max_len (length input)
      || ltb securec_mem_max_len key_len
      || key_len == 0
    then none
    else some (scramble key key_len 0 input)

abbrev pub uint64_max : ℕ
uint64_max = 2 ^ 64 - 1

unfoldable pub change_time_stamp : ℕ → ℕ → Option ℕ
change_time_stamp flag time_stamp =
    if flag == inc
    then (if ltb time_stamp uint64_max then some (time_stamp + 1) else none)
    else if flag == dec
    then (if ltb 0 time_stamp then some (time_stamp - 1) else none)
    else none

-- The number in these bytes, the lowest first, and the lowest bytes of a number.
unfoldable pub of_bytes : List ℕ → ℕ
of_bytes [] = 0
of_bytes (b ∷ bs) = b + 256 * of_bytes bs

unfoldable pub to_bytes : ℕ → ℕ → List ℕ
to_bytes zero n = []
to_bytes (suc k) n = n % 256 ∷ to_bytes k (n / 256)

unfoldable pub descrambling_timestamp : Token → SessionSecureInfo → ℕ → Option Token
descrambling_timestamp t info flag = do
  plain ← scrambling_timestamp t.stamp (key_byte info) scrambling_key_len
  time_stamp ← change_time_stamp flag (of_bytes plain)
  stamp ←
      scrambling_timestamp (to_bytes timestamp_len_default time_stamp) (key_byte info)
        scrambling_key_len
  some (record t { stamp = stamp })

-- With what `tc_find_session_by_uuid` finds.
unfoldable pub session_timestamp : Token → Option SessionSecureInfo → ℕ → Option Token
session_timestamp t none flag = none
session_timestamp t (some info) flag = descrambling_timestamp t info flag

-- `session` is what `tc_find_session_by_uuid` finds; the token is `none` where its address is 0.
unfoldable pub update_timestamp :
    Cmd → Option SessionSecureInfo → Option Token → Code × Option Token
update_timestamp cmd session none =
    if cmd.cmd_type == cmd_type_ta then (fail efault, none) else (success, none)
update_timestamp cmd session (some t) =
    if not (cmd.cmd_type == cmd_type_ta)
    then (success, some t)
    else if is_token_empty t
    then (fail efault, some t)
    else elim (session_timestamp t session inc) [
      | none ↦ (fail efault, some t)
      | some t' ↦ (success, some (record t' { sync = un_synced }))
    ]

-- `is_global` is that the command is a global one.
unfoldable pub sync_timestamp : Cmd → Option SessionSecureInfo → Token → Bool → Code × Token
sync_timestamp cmd session t is_global =
    if (cmd.cmd_id == global_cmd_id_open_session) && is_global
    then (success, t)
    else if t.sync == un_synced
    then elim (session_timestamp t session dec) [
      | none ↦ (fail efault, t)
      | some t' ↦ (success, t')
    ]
    else if t.sync == is_synced
    then (success, t)
    else (fail efault, t)

unfoldable pub scrambling_operation : Cmd → ℕ → Cmd
scrambling_operation cmd scrambler =
    let scrambled = record cmd {
      operation_phys = bit_xor cmd.operation_phys scrambler;
      operation_h_phys = bit_xor cmd.operation_h_phys scrambler;
    } in
    let cmd' =
      if not (cmd.operation_phys == 0) || not (cmd.operation_h_phys == 0) then scrambled else cmd in
    record cmd' { pid = bit_xor cmd.pid scrambler }

-- `SCRAMBLING_OPERATION`.
abbrev pub scrambling_operation_word : ℕ
scrambling_operation_word = 1

unfoldable pub update_chksum : Cmd → Option SessionSecureInfo → Cmd
update_chksum cmd session = elim session [
  | none ↦ cmd
  | some info ↦
      if cmd.cmd_type == cmd_type_ta
      then scrambling_operation cmd (info.scrambling scrambling_operation_word)
      else cmd
]

-- Nothing is verified: the function finds the session and gives 0.
unfoldable pub verify_chksum : Cmd → Option SessionSecureInfo → Code
verify_chksum cmd session = success
