-- ===== src/Auth/Tests.antt =====
-- A token that is counted up and down.
use itrustee_tzdriver.Base.{◌+◌, ◌≡◌, refl, false, some, [], ◌∷◌, arith}
use itrustee_tzdriver.Base.Errno.{success}
use itrustee_tzdriver.Smc.Cmd.{Cmd}
use itrustee_tzdriver.Smc.Send.Func.{zero_cmd}
use itrustee_tzdriver.Auth.{
  Token, SessionSecureInfo, un_synced, is_synced, is_token_empty, all_zero, scramble, of_bytes,
  update_timestamp, sync_timestamp,
}
use itrustee_tzdriver.Auth.Stamp.{time_of, sync_timestamp-update_timestamp}

abbrev ta_cmd : Cmd
ta_cmd = record zero_cmd { cmd_type = 1; cmd_id = 7 }

abbrev info : SessionSecureInfo
info = record { scrambling = λ i. 0x11223344 }

abbrev token : Token
token = record {
  head = 1 ∷ 2 ∷ 3 ∷ [];
  stamp = 0x45 ∷ 0x33 ∷ 0x22 ∷ 0x11 ∷ 0x44 ∷ 0x33 ∷ 0x22 ∷ 0x11 ∷ [];
  kernal_api = 0;
  sync = is_synced;
}

time_1 : time_of token info ≡ 1
unfolding scramble of_bytes
time_1 = refl

sync_timestamp-update_timestamp_example :
    (t' : Token) × (update_timestamp ta_cmd (some info) (some token) ≡ (success, some t'))
    × (time_of t' info ≡ time_of token info + 1)
    × (t'.sync ≡ un_synced)
    × (sync_timestamp ta_cmd (some info) t' false ≡ (success, record token { sync = un_synced }))
unfolding is_token_empty all_zero
sync_timestamp-update_timestamp_example =
    sync_timestamp-update_timestamp ta_cmd ta_cmd info token false refl refl refl
      (
        omega arith,
        (
          omega arith,
          (
            omega arith,
            (omega arith, (omega arith, (omega arith, (omega arith, (omega arith, tt))))),
          ),
        ),
      )
      (omega (arith, time_1)) refl
