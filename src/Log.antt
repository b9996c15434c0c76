-- ===== src/Log.antt =====
-- tlogger/tlogger.c: a reader takes the TEE's log items out of the buffer that the TEE writes. The
-- buffer is its bytes, a position an offset from `buffer_start`. The TEE can write at any time, so what
-- the code reads again is an argument of its own.
pub mod Items
pub mod Copied
pub mod Room
pub mod Read
mod Tests
use itrustee_tzdriver.Base.{
  ℕ, zero, suc, ◌+◌, ◌-◌, ◌*◌, ◌%◌, ◌^◌, Bool, true, false, ◌&&◌, ◌||◌, not, Option, none, some,
  List, [], ◌∷◌, ltb, leb, ◌==◌, if◌then◌else◌,
}
use itrustee_tzdriver.Base.Errno.{Errno, einval, eagain, efault}

abbrev pub log_item_magic : ℕ
log_item_magic = 0x5A5A

abbrev pub log_item_len_align : ℕ
log_item_len_align = 64

abbrev pub log_item_max_len : ℕ
log_item_max_len = 1024

abbrev pub log_read_status_error : ℕ
log_read_status_error = 0xFFFF

abbrev pub log_buffer_max_len : ℕ
log_buffer_max_len = 0x100000

-- sizeof(struct log_item)
abbrev pub log_item_size : ℕ
log_item_size = 64

-- The fields of the head that the reader looks at; `real_len` is a signed 16-bit number, as its bits.
pub record LogItem : Type 0 where
  pub magic : ℕ
  pub real_len : ℕ
  pub buffer_len : ℕ

abbrev pub u16_at : (ℕ → ℕ) → ℕ → ℕ
u16_at bytes pos = bytes pos % 256 + 256 * (bytes (suc pos) % 256)

-- The head at a position: 32 unused bytes, the magic, 2 reserved bytes, a serial number of 4 bytes, the
-- two lengths.
unfoldable pub item_at : (ℕ → ℕ) → ℕ → LogItem
item_at bytes pos = record {
  magic = u16_at bytes (pos + 32);
  real_len = u16_at bytes (pos + 40);
  buffer_len = u16_at bytes (pos + 42);
}

unfoldable pub check_log_item_validite : LogItem → ℕ → Bool
check_log_item_validite item item_max_size =
    item.magic == log_item_magic
    && ltb 0 item.buffer_len
    && (ltb 0 item.real_len && ltb item.real_len (2 ^ 15))
    && item.buffer_len % log_item_len_align == 0
    && leb item.real_len item.buffer_len
    && ltb (item.buffer_len - item.real_len) log_item_len_align
    && leb (item.buffer_len + log_item_size) item_max_size

-- The room that an item at `i` of the scope may take.
unfoldable pub max_size_at : ℕ → ℕ → ℕ
max_size_at scope_len i =
    let left = (scope_len + 2 ^ 32 - i) % 2 ^ 32 in
    if ltb log_item_max_len left then log_item_max_len else left

module _ (bytes : ℕ → ℕ) where
  -- The loop of `get_next_log_item`: whether there is an item, and `*pos`.
  unfoldable pub next_scan : ℕ → ℕ → ℕ → ℕ → ℕ → Bool × ℕ
  next_scan zero read_pos scope_len i pos = (false, pos)
  next_scan (suc n) read_pos scope_len i pos =
      let here = (read_pos + i) % 2 ^ 32 in
      let later = next_scan n read_pos scope_len ((i + log_item_len_align) % 2 ^ 32) here in
      if not (leb (i + log_item_size + log_item_len_align) scope_len)
      then (false, pos)
      else if check_log_item_validite (item_at bytes (read_pos + i)) (max_size_at scope_len i)
      then (true, here)
      else later

  -- One round for each unit of the scope is more than the loop has.
  unfoldable pub get_next_log_item : ℕ → ℕ → ℕ → ℕ → Bool × ℕ
  get_next_log_item max_len read_pos scope_len pos =
      if ltb max_len ((read_pos + scope_len) % 2 ^ 32)
      then (false, pos)
      else next_scan scope_len read_pos scope_len 0 pos

-- A copy to the user's buffer that is asked for, `to` counted from its start; whether it works is only
-- logged.
pub record ItemCopy : Type 0 where
  pub to : ℕ
  pub from : ℕ
  pub count : ℕ

-- What `parse_log_item` leaves: `*read_off`, what it returns, `*user_buffer_left`, and the copies, the
-- last one first.
pub record Parse : Type 0 where
  pub read_off : ℕ
  pub buf_written : ℕ
  pub user_buffer_left : Bool
  pub copies : List ItemCopy

-- `bytes` is what stands at each position when `check_log_item_validite` looks at it, `again` when the
-- length of the item found is read once more.
module _ (bytes again : ℕ → ℕ) (max_len : ℕ) (buf : ℕ) where
  -- The loop of `parse_log_item`; `none` says that it has not ended in so many rounds.
  unfoldable pub parse_loop : ℕ → ℕ → ℕ → ℕ → ℕ → List ItemCopy → Option Parse
  parse_loop zero start_pos end_pos buf_left buf_written copies = none
  parse_loop (suc n) start_pos end_pos buf_left buf_written copies =
      let scope_len = (end_pos + 2 ^ 32 - start_pos) % 2 ^ 32 in
      let (found, pos) = get_next_log_item bytes max_len start_pos scope_len start_pos in
      let item_len = (item_at again pos).buffer_len + log_item_size in
      let rest =
        parse_loop n ((pos + item_len) % 2 ^ 32) end_pos (buf_left - item_len)
          ((buf_written + item_len) % 2 ^ 32)
          (record { to = buf + buf_written; from = pos; count = item_len } ∷ copies) in
      if not (ltb start_pos end_pos)
      then some (record {
        read_off = start_pos;
        buf_written = buf_written;
        user_buffer_left = true;
        copies = copies;
      })
      else if not found
      then some (record {
        read_off = pos;
        buf_written = buf_written;
        user_buffer_left = true;
        copies = copies;
      })
      else if ltb buf_left item_len
      then some (record {
        read_off = pos;
        buf_written = buf_written;
        user_buffer_left = false;
        copies = copies;
      })
      else rest

  unfoldable pub parse_log_item : ℕ → ℕ → ℕ → List ItemCopy → Option Parse
  parse_log_item count start_pos end_pos copies =
      parse_loop (suc (count % 2 ^ 32)) start_pos end_pos (count % 2 ^ 32) 0 copies

-- The part of `struct log_buffer_flag` that readers use.
pub record LogBufferFlag : Type 0 where
  pub last_pos : ℕ
  pub write_loops : ℕ
  pub max_len : ℕ

pub record TloggerReader : Type 0 where
  pub r_off : ℕ
  pub r_loops : ℕ

-- `*is_read` is set, or the value that the read returns.
pub data ReadPos : Type 0 where
  is_read nothing_new : ReadPos
  refused : Errno → ReadPos

-- sizeof(struct log_buffer)
abbrev pub log_buffer_size : ℕ
log_buffer_size = 220

unfoldable pub get_last_read_pos : ℕ → LogBufferFlag → TloggerReader → ReadPos
get_last_read_pos g_log_mem_len flag reader =
    let buffer_max_len = (g_log_mem_len + 2 ^ 32 - log_buffer_size) % 2 ^ 32 in
    if ltb log_buffer_max_len buffer_max_len
    then refused einval
    else if flag.last_pos == reader.r_off && flag.write_loops == reader.r_loops
    then nothing_new
    else if ltb flag.max_len flag.last_pos || ltb buffer_max_len flag.max_len
    then refused efault
    else if ltb flag.max_len reader.r_off
    then refused efault
    else is_read

-- What a read leaves: what it returns, the reader and the copies.
pub record ReadEnd : Type 0 where
  pub ret : ℕ
  pub reader : TloggerReader
  pub copies : List ItemCopy

-- `g_last_read_offset` is not kept.
abbrev pub proc_read_ret : ℕ → ℕ
proc_read_ret buf_written = if buf_written == 0 then log_read_status_error else buf_written

-- What `trigger_parse_log` reads of the flag in the buffer, in the order of its text: the two of a
-- reader in the same round, three of `write_loops` for one that is behind, and for its calls of
-- `parse_log_item` the two of `max_len` before the first, the one before the second and the last of
-- `write_loops`.
pub record FlagReads : Type 0 where
  pub loops_same : ℕ
  pub max_len_same : ℕ
  pub loops_over : ℕ
  pub loops_next : ℕ
  pub loops_back : ℕ
  pub max_len_first : ℕ
  pub end_first : ℕ
  pub max_len_second : ℕ
  pub loops_second : ℕ

module _ (bytes again : ℕ → ℕ) (flag : FlagReads) (count : ℕ) where
  -- The end of `trigger_parse_log`, after a second call of `parse_log_item`.
  unfoldable pub wrapped : Parse → Option Parse → Option ReadEnd
  wrapped first none = none
  wrapped first (some p) = some (record {
    ret = proc_read_ret ((first.buf_written + p.buf_written) % 2 ^ 32);
    reader = record { r_off = p.read_off; r_loops = flag.loops_second };
    copies = p.copies;
  })

  -- `trigger_parse_log` after the first of two calls of `parse_log_item`, of which the second begins at
  -- the start of the buffer.
  unfoldable pub second_parse : ℕ → TloggerReader → Parse → Option ReadEnd
  second_parse log_last_pos reader first =
      let second =
        parse_log_item bytes again flag.max_len_second first.buf_written (count - first.buf_written)
          0 log_last_pos first.copies in
      if not (ltb first.buf_written count && first.user_buffer_left)
      then some (record {
        ret = proc_read_ret first.buf_written;
        reader = record reader { r_off = first.read_off };
        copies = first.copies;
      })
      else wrapped first second

  -- A reader that the TEE has overtaken starts at the oldest item.
  unfoldable pub caught_up : ℕ → TloggerReader → TloggerReader
  caught_up log_last_pos reader =
      let following = (reader.r_loops + 1) % 2 ^ 32 in
      if ltb following flag.loops_over
        || (flag.loops_next == following && ltb reader.r_off log_last_pos)
      then record { r_off = log_last_pos; r_loops = (flag.loops_back + 2 ^ 32 - 1) % 2 ^ 32 }
      else reader

  unfoldable pub same_loop : TloggerReader → Option Parse → Option ReadEnd
  same_loop reader none = none
  same_loop reader (some p) = some (record {
    ret = proc_read_ret p.buf_written;
    reader = record reader { r_off = p.read_off };
    copies = p.copies;
  })

  unfoldable pub next_loop : ℕ → TloggerReader → Option Parse → Option ReadEnd
  next_loop log_last_pos reader none = none
  next_loop log_last_pos reader (some p) = second_parse log_last_pos reader p

  unfoldable pub trigger_parse_log : ℕ → TloggerReader → Option ReadEnd
  trigger_parse_log log_last_pos reader =
      let moved = caught_up log_last_pos reader in
      if flag.loops_same == reader.r_loops
      then same_loop reader
          (parse_log_item bytes again flag.max_len_same 0 count reader.r_off log_last_pos [])
      else next_loop log_last_pos moved
          (parse_log_item bytes again flag.max_len_first 0 count moved.r_off flag.end_first [])

-- What a read returns: an error, 0, or what has been read.
pub data ReadResult : Type 0 where
  failed : Errno → ReadResult
  no_more : ReadResult
  read : ReadEnd → ReadResult

abbrev pub read_of : Option ReadEnd → Option ReadResult
read_of none = none
read_of (some e) = some (read e)

-- No pointer is NULL. `flag` is the copy that `memcpy_s` has made of the flag, if it has, and `reads`
-- what is read of the flag afterwards.
unfoldable pub process_tlogger_read :
    (ℕ → ℕ) → (ℕ → ℕ) → FlagReads → ℕ → ℕ → Option LogBufferFlag → TloggerReader → Option ReadResult
process_tlogger_read bytes again reads g_log_mem_len count copy reader =
    if ltb count log_item_max_len then some (failed einval) else elim copy [
      | none ↦ some (failed eagain)
      | some flag ↦ elim (get_last_read_pos g_log_mem_len flag reader) [
        | refused e ↦ some (failed e)
        | nothing_new ↦ some no_more
        | is_read ↦ read_of (trigger_parse_log bytes again reads count flag.last_pos reader)
      ]
    ]
