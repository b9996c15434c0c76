-- ===== src/Log/Tests.antt =====
-- tlogger/tlogger.c on concrete buffers.
use itrustee_tzdriver.Base.{ℕ, ◌≡◌, refl, true, some, [], ◌∷◌, arith, ◌==◌, if◌then◌else◌}
use itrustee_tzdriver.Log.{
  item_at, check_log_item_validite, max_size_at, next_scan, get_next_log_item, parse_loop,
  parse_log_item, LogBufferFlag, FlagReads, TloggerReader, get_last_read_pos, same_loop, next_loop,
  caught_up, wrapped, second_parse, trigger_parse_log, read, process_tlogger_read,
}
use itrustee_tzdriver.Log.Items.{Scanned, get_next_log_item-Scanned}
use itrustee_tzdriver.Log.Read.{Finished, process_tlogger_read-Finished}

-- One item of five bytes at the place 64.
abbrev one_item : ℕ → ℕ
one_item pos =
    if pos == 96
    then 0x5A
    else if pos == 97
    then 0x5A
    else if pos == 104
    then 5
    else if pos == 106
    then 64
    else 0

abbrev flag_of_one : LogBufferFlag
flag_of_one = record { last_pos = 192; write_loops = 0; max_len = 256 }

abbrev fresh_reader : TloggerReader
fresh_reader = record { r_off = 0; r_loops = 0 }

get_next_log_item_skips : get_next_log_item one_item 256 0 192 0 ≡ (true, 64)
unfolding get_next_log_item next_scan check_log_item_validite item_at max_size_at
get_next_log_item_skips = refl

-- What is read of the flag when the TEE leaves it alone.
abbrev reads_of : LogBufferFlag → FlagReads
reads_of flag = record {
  loops_same = flag.write_loops;
  max_len_same = flag.max_len;
  loops_over = flag.write_loops;
  loops_next = flag.write_loops;
  loops_back = flag.write_loops;
  max_len_first = flag.max_len;
  end_first = flag.max_len;
  max_len_second = flag.max_len;
  loops_second = flag.write_loops;
}

process_tlogger_read_one :
    process_tlogger_read one_item one_item
      (reads_of flag_of_one)
      476
      1024
      (some flag_of_one)
      fresh_reader
    ≡ some (
        read (record {
          ret = 128;
          reader = record { r_off = 192; r_loops = 0 };
          copies = record { to = 0; from = 64; count = 128 } ∷ [];
        }))
unfolding process_tlogger_read get_last_read_pos trigger_parse_log same_loop parse_log_item
    parse_loop get_next_log_item next_scan check_log_item_validite item_at max_size_at
process_tlogger_read_one = refl

abbrev second_round : LogBufferFlag
second_round = record flag_of_one { write_loops = 1 }

-- A reader that has read the end of the last round goes on at the start of the buffer.
process_tlogger_read_wraps :
    process_tlogger_read one_item one_item
      (reads_of second_round)
      476
      1024
      (some second_round)
      (record { r_off = 256; r_loops = 0 })
    ≡ some (
        read (record {
          ret = 128;
          reader = record { r_off = 192; r_loops = 1 };
          copies = record { to = 0; from = 64; count = 128 } ∷ [];
        }))
unfolding process_tlogger_read get_last_read_pos trigger_parse_log next_loop caught_up second_parse
    wrapped parse_log_item parse_loop get_next_log_item next_scan check_log_item_validite item_at
    max_size_at
process_tlogger_read_wraps = refl

-- The item of `one_item`, with another length.
abbrev grown : ℕ → ℕ
grown pos = if pos == 106 then 128 else one_item pos

-- The length written after the check is the one that is copied.
length_rewritten :
    process_tlogger_read one_item grown
      (reads_of flag_of_one)
      476
      1024
      (some flag_of_one)
      fresh_reader
    ≡ some (
        read (record {
          ret = 192;
          reader = record { r_off = 256; r_loops = 0 };
          copies = record { to = 0; from = 64; count = 192 } ∷ [];
        }))
unfolding process_tlogger_read get_last_read_pos trigger_parse_log same_loop parse_log_item
    parse_loop get_next_log_item next_scan check_log_item_validite item_at max_size_at
length_rewritten = refl

get_next_log_item-Scanned_example :
    Scanned one_item 0 192 0 0 (get_next_log_item one_item 256 0 192 0)
get_next_log_item-Scanned_example =
    get_next_log_item-Scanned one_item 256 0 192 (omega arith) (omega arith)

process_tlogger_read-Finished_example :
    Finished one_item one_item (reads_of flag_of_one) 1024 flag_of_one (
      process_tlogger_read one_item one_item
        (reads_of flag_of_one)
        476
        1024
        (some flag_of_one)
        fresh_reader)
process_tlogger_read-Finished_example =
    process_tlogger_read-Finished one_item one_item (reads_of flag_of_one) 1024 476 flag_of_one
      fresh_reader
      (record { lengths = λ pos. refl; same = refl; first = refl; end_pos = refl; second = refl })
      (omega arith)
