-- ===== src/Auth/Stamp.antt =====
-- The time stamp of a token: what `update_timestamp` does, `sync_timestamp` undoes.
use itrustee_tzdriver.Base.{
  ℕ, zero, suc, ◌+◌, ◌*◌, ◌/◌, ◌%◌, ◌^◌, ◌<◌, ◌≡◌, refl, ap, subst, ◌∙◌, Bool, true, false, ◌&&◌,
  some, List, [], ◌∷◌, All, length, ◌==◌, arith,
}
use itrustee_tzdriver.Base.Errno.{success}
use itrustee_tzdriver.Base.Pow.{pow2}
use itrustee_tzdriver.Base.Xor.{bit_xor, bit_xor_twice, bit_xor-pow2}
use itrustee_tzdriver.Smc.Cmd.{Cmd}
use itrustee_tzdriver.Auth.{
  cmd_type_ta, global_cmd_id_open_session, scrambling_key_len, timestamp_len_default, inc, dec,
  un_synced, uint64_max, Token, SessionSecureInfo, key_byte, is_token_empty, scramble,
  scrambling_timestamp, change_time_stamp, of_bytes, to_bytes, descrambling_timestamp,
  session_timestamp, update_timestamp, sync_timestamp,
}

abbrev pub Byte : ℕ → Type 0
Byte b = b < 256

length-scramble : (key : ℕ → ℕ) (n i : ℕ) (bs : List ℕ) → length (scramble key n i bs) ≡ length bs
unfolding scramble
length-scramble key n i [] = refl
length-scramble key n i (b ∷ bs) = ap suc (length-scramble key n (suc i) bs)

scramble_twice : (key : ℕ → ℕ) (n i : ℕ) (bs : List ℕ) → scramble key n i (scramble key n i bs) ≡ bs
unfolding scramble
scramble_twice key n i [] = refl
scramble_twice key n i (b ∷ bs) =
    rw (bit_xor_twice b (key (i % n)), scramble_twice key n (suc i) bs) refl

bit_xor-Byte : (a b : ℕ) → Byte a → Byte b → Byte (bit_xor a b)
unfolding pow2
bit_xor-Byte a b p q = bit_xor-pow2 8 a b p q

scramble-Byte :
    (key : ℕ → ℕ) (n i : ℕ) (bs : List ℕ)
    → ((k : ℕ) → Byte (key k))
    → All Byte bs
    → All Byte (scramble key n i bs)
unfolding scramble
scramble-Byte key n i [] small h = tt
scramble-Byte key n i (b ∷ bs) small (p, ps) =
    (bit_xor-Byte b (key (i % n)) p (small (i % n)), scramble-Byte key n (suc i) bs small ps)

of_bytes-to_bytes : (k n : ℕ) → n < 256 ^ k → of_bytes (to_bytes k n) ≡ n
unfolding of_bytes to_bytes
of_bytes-to_bytes zero n h = omega arith
of_bytes-to_bytes (suc k) n h = omega (arith, of_bytes-to_bytes k (n / 256) (omega (arith, h)))

to_bytes-of_bytes : (bs : List ℕ) → All Byte bs → to_bytes (length bs) (of_bytes bs) ≡ bs
unfolding of_bytes to_bytes
to_bytes-of_bytes [] h = refl
to_bytes-of_bytes (b ∷ bs) (p, ps) =
    let low : (b + 256 * of_bytes bs) % 256 ≡ b = omega (arith, p) in
    let high : (b + 256 * of_bytes bs) / 256 ≡ of_bytes bs = omega (arith, p) in
    rw (low, high, to_bytes-of_bytes bs ps) refl

length-to_bytes : (k n : ℕ) → length (to_bytes k n) ≡ k
unfolding to_bytes
length-to_bytes zero n = refl
length-to_bytes (suc k) n = ap suc (length-to_bytes k (n / 256))

scrambling_timestamp_8 :
    (bs : List ℕ) (key : ℕ → ℕ)
    → length bs ≡ timestamp_len_default
    → scrambling_timestamp bs key scrambling_key_len ≡ some (scramble key scrambling_key_len 0 bs)
unfolding scrambling_timestamp
scrambling_timestamp_8 bs key e = rw e refl

-- The number that a token's time stamp stands for.
abbrev pub time_of : Token → SessionSecureInfo → ℕ
time_of t info = of_bytes (scramble (key_byte info) scrambling_key_len 0 t.stamp)

-- A token whose time stamp holds the number `n`.
abbrev stamped : Token → SessionSecureInfo → ℕ → Token
stamped t info n = record t {
  stamp = scramble (key_byte info) scrambling_key_len 0 (to_bytes timestamp_len_default n);
}

length-stamped :
    (t : Token) (info : SessionSecureInfo) (n : ℕ)
    → length (stamped t info n).stamp ≡ timestamp_len_default
length-stamped t info n =
    length-scramble (key_byte info) scrambling_key_len 0 (to_bytes timestamp_len_default n)
    ∙ length-to_bytes timestamp_len_default n

time_of-stamped :
    (t : Token) (info : SessionSecureInfo) (n : ℕ)
    → n < 256 ^ 8
    → time_of (stamped t info n) info ≡ n
time_of-stamped t info n h =
    ap of_bytes
      (scramble_twice (key_byte info) scrambling_key_len 0 (to_bytes timestamp_len_default n))
    ∙ of_bytes-to_bytes timestamp_len_default n h

-- The token with its own time.
stamped-time_of :
    (t : Token) (info : SessionSecureInfo)
    → length t.stamp ≡ timestamp_len_default
    → All Byte t.stamp
    → stamped t info (time_of t info) ≡ t
stamped-time_of t info e small =
    ap (λ bs. record t { stamp = bs })
      (ap (scramble (key_byte info) scrambling_key_len 0) (
          subst (λ k. to_bytes k (time_of t info) ≡ plain)
            (length-scramble (key_byte info) scrambling_key_len 0 t.stamp ∙ e)
            (to_bytes-of_bytes plain (
              scramble-Byte (key_byte info) scrambling_key_len 0 t.stamp (λ k. omega arith) small)))
        ∙ scramble_twice (key_byte info) scrambling_key_len 0 t.stamp)
  where
    plain : List ℕ
    plain = scramble (key_byte info) scrambling_key_len 0 t.stamp

-- `descrambling_timestamp` on a time stamp of eight bytes.
descrambling_timestamp-stamped :
    (t : Token) (info : SessionSecureInfo) (flag m : ℕ)
    → length t.stamp ≡ timestamp_len_default
    → change_time_stamp flag (time_of t info) ≡ some m
    → descrambling_timestamp t info flag ≡ some (stamped t info m)
unfolding descrambling_timestamp
descrambling_timestamp-stamped t info flag m e c =
    rw
      (
        scrambling_timestamp_8 t.stamp (key_byte info) e,
        c,
        scrambling_timestamp_8 (to_bytes timestamp_len_default m) (key_byte info)
            (length-to_bytes timestamp_len_default m),
      )
      refl

next_time : (n : ℕ) → n < uint64_max → change_time_stamp inc n ≡ some (n + 1)
unfolding change_time_stamp
next_time n h = ground (arith, h)

before_next : (m n : ℕ) → m ≡ n + 1 → change_time_stamp dec m ≡ some n
unfolding change_time_stamp
before_next m n h = ground (arith, h)

update_timestamp-stamped :
    (cmd : Cmd) (info : SessionSecureInfo) (t : Token)
    → cmd.cmd_type ≡ cmd_type_ta
    → is_token_empty t ≡ false
    → length t.stamp ≡ timestamp_len_default
    → time_of t info < uint64_max
    → update_timestamp cmd (some info) (some t)
      ≡ (success, some (record (stamped t info (time_of t info + 1)) { sync = un_synced }))
unfolding update_timestamp session_timestamp
update_timestamp-stamped cmd info t ta full e room =
    rw
      (
        is_ta,
        full,
        descrambling_timestamp-stamped t info inc (time_of t info + 1) e
            (next_time (time_of t info) room),
      )
      refl
  where
    is_ta : (cmd.cmd_type == cmd_type_ta) ≡ true
    is_ta = ground (arith, ta)

sync_timestamp-stamped :
    (cmd : Cmd) (info : SessionSecureInfo) (t : Token) (is_global : Bool) (n : ℕ)
    → ((cmd.cmd_id == global_cmd_id_open_session) && is_global) ≡ false
    → t.sync ≡ un_synced
    → length t.stamp ≡ timestamp_len_default
    → time_of t info ≡ n + 1
    → sync_timestamp cmd (some info) t is_global ≡ (success, stamped t info n)
unfolding sync_timestamp session_timestamp
sync_timestamp-stamped cmd info t is_global n other u e h =
    rw
      (
        other,
        is_un,
        descrambling_timestamp-stamped t info dec n e (before_next (time_of t info) n h),
      )
      refl
  where
    is_un : (t.sync == un_synced) ≡ true
    is_un = ground (arith, u)

-- For a command to a TA with a session, and a token that is not empty, whose time stamp has eight bytes
-- and stands for less than the greatest number of 64 bits: `update_timestamp` makes the time one later
-- and marks the token, and `sync_timestamp`, for any command but a global one that opens a session, takes
-- that back, the mark aside.
pub sync_timestamp-update_timestamp :
    (cmd cmd' : Cmd) (info : SessionSecureInfo) (t : Token) (is_global : Bool)
    → cmd.cmd_type ≡ cmd_type_ta
    → is_token_empty t ≡ false
    → length t.stamp ≡ timestamp_len_default
    → All Byte t.stamp
    → time_of t info < uint64_max
    → ((cmd'.cmd_id == global_cmd_id_open_session) && is_global) ≡ false
    → (t' : Token) × (update_timestamp cmd (some info) (some t) ≡ (success, some t'))
      × (time_of t' info ≡ time_of t info + 1)
      × (t'.sync ≡ un_synced)
      × (sync_timestamp cmd' (some info) t' is_global ≡ (success, record t { sync = un_synced }))
sync_timestamp-update_timestamp cmd cmd' info t is_global ta full e small room other = (
  record (stamped t info n) { sync = un_synced },
  update_timestamp-stamped cmd info t ta full e room,
  later,
  refl,
  sync_timestamp-stamped cmd' info (record (stamped t info n) { sync = un_synced }) is_global
        (time_of t info) other refl (length-stamped t info n) later
      ∙ ap (λ (x : Token). (success, record x { sync = un_synced }))
          (stamped-time_of t info e small),
)
  where
    n : ℕ
    n = time_of t info + 1

    later : time_of (stamped t info n) info ≡ n
    later = time_of-stamped t info n (omega (arith, room))
