-- ===== src/Log/Read.antt =====
-- tlogger/tlogger.c, `process_tlogger_read`: what a read gives the user.
use itrustee_tzdriver.Base.{
  ℕ, ◌+◌, ◌-◌, ◌%◌, ◌^◌, ◌≤◌, ◌<◌, ◌≡◌, refl, sym, ap, subst, ◌&&◌, ◌||◌, not, Option, some, List,
  [], All, arith, ltb, ◌==◌, if_cases,
}
use itrustee_tzdriver.Log.{
  item_at, FlagReads, Parse, LogBufferFlag, TloggerReader, ReadPos, is_read, nothing_new, refused,
  ReadEnd, ItemCopy, ReadResult, failed, no_more, read, read_of, proc_read_ret, parse_log_item,
  get_last_read_pos, wrapped, second_parse, caught_up, same_loop, next_loop, trigger_parse_log,
  process_tlogger_read,
}
use itrustee_tzdriver.Log.Copied.{IsItem, Packed, Parsed, Ended, parse_log_item-Ended}

get_last_read_pos-is_read :
    (g : ℕ) (flag : LogBufferFlag) (reader : TloggerReader)
    → get_last_read_pos g flag reader ≡ is_read
    → (flag.last_pos ≤ flag.max_len) × (reader.r_off ≤ flag.max_len) × (flag.max_len < 2 ^ 32)
unfolding get_last_read_pos
get_last_read_pos-is_read g flag reader h =
    (ground (arith, h), ground (arith, h), ground (arith, h))

-- During the read, the TEE writes neither a length of an item nor the length of the buffer.
pub record Still (bytes again : ℕ → ℕ) (flag : LogBufferFlag) (reads : FlagReads) : Type 0 where
  pub lengths : (pos : ℕ) → (item_at again pos).buffer_len ≡ (item_at bytes pos).buffer_len
  pub same : reads.max_len_same ≡ flag.max_len
  pub first : reads.max_len_first ≡ flag.max_len
  pub end_pos : reads.end_first ≡ flag.max_len
  pub second : reads.max_len_second ≡ flag.max_len

module _ (bytes again : ℕ → ℕ) (flag : LogBufferFlag) (reads : FlagReads) (count : ℕ) where
  -- Whole items fill the user's buffer without a gap; their length is returned, or that nothing was
  -- read, and the reader goes on inside the buffer.
  abbrev pub Sound : ReadEnd → Type 0
  Sound e =
      (n : ℕ) × (n ≤ count)
      × (e.ret ≡ proc_read_ret n)
      × Packed bytes e.copies n
      × All (IsItem bytes flag.max_len) e.copies
      × (e.reader.r_off ≤ flag.max_len)

  abbrev SoundOption : Option ReadEnd → Type 0
  SoundOption o = (e : ReadEnd) × (o ≡ some e) × Sound e

  module _ (small : flag.max_len < 2 ^ 32) (count_small : count < 2 ^ 32)
      (last : flag.last_pos ≤ flag.max_len) (still : Still bytes again flag reads) where
    packed0 : (cs : List ItemCopy) (n : ℕ) → Packed bytes cs (0 + n) → Packed bytes cs n
    packed0 cs n h = subst (Packed bytes cs) (omega arith) h

    -- A parse with a length of the buffer that was read again.
    parsed :
        (max_len buf room : ℕ)
        → max_len ≡ flag.max_len
        → room < 2 ^ 32
        → (start end_pos : ℕ) (copies : List ItemCopy) → end_pos ≤ flag.max_len
        → start ≤ flag.max_len
        → Packed bytes copies buf
        → All (IsItem bytes flag.max_len) copies
        → Ended bytes flag.max_len buf room
            (parse_log_item bytes again max_len buf room start end_pos copies)
    parsed max_len buf room e room_small start end_pos copies e_in s_in packed items =
        subst
          (λ m.
            Ended bytes flag.max_len buf room
              (parse_log_item bytes again m buf room start end_pos copies))
          (sym e)
          (parse_log_item-Ended bytes again still.lengths flag.max_len buf room small room_small
            start end_pos copies e_in s_in packed items)

    same_loop-Sound :
        (reader : TloggerReader) (o : Option Parse)
        → Ended bytes flag.max_len 0 count o
        → SoundOption (same_loop bytes again reads count reader o)
    unfolding same_loop
    same_loop-Sound reader o (p, e, k) =
        subst (λ o'. SoundOption (same_loop bytes again reads count reader o')) (sym e)
          (
            _,
            refl,
            (
              p.buf_written,
              k.within,
              refl,
              packed0 p.copies p.buf_written k.packed,
              k.items,
              k.place,
            ),
          )

    wrapped-Sound :
        (p : Parse)
        → Parsed bytes flag.max_len 0 count p
        → (o : Option Parse) → Ended bytes flag.max_len p.buf_written (count - p.buf_written) o
        → SoundOption (wrapped bytes again reads count p o)
    unfolding wrapped
    wrapped-Sound p k o (q, e, l) =
        subst (λ o'. SoundOption (wrapped bytes again reads count p o')) (sym e)
          (
            _,
            refl,
            (
              p.buf_written + q.buf_written,
              omega (arith, k.within, l.within),
              ap proc_read_ret {x = (p.buf_written + q.buf_written) % 2 ^ 32}
                  {y = p.buf_written + q.buf_written}
                  (omega (arith, k.within, l.within, count_small)),
              l.packed,
              l.items,
              l.place,
            ),
          )

    second_parse-Sound :
        (reader : TloggerReader) (p : Parse)
        → Parsed bytes flag.max_len 0 count p
        → SoundOption (second_parse bytes again reads count flag.last_pos reader p)
    unfolding second_parse
    second_parse-Sound reader p k =
        if_cases SoundOption (not (ltb p.buf_written count && p.user_buffer_left))
          (
            _,
            refl,
            (
              p.buf_written,
              k.within,
              refl,
              packed0 p.copies p.buf_written k.packed,
              k.items,
              k.place,
            ),
          )
          (wrapped-Sound p k
            (parse_log_item bytes again reads.max_len_second p.buf_written (count - p.buf_written) 0
              flag.last_pos p.copies)
            (parsed reads.max_len_second p.buf_written (count - p.buf_written) still.second
              (omega (arith, count_small)) 0 flag.last_pos p.copies last (omega arith)
              (packed0 p.copies p.buf_written k.packed) k.items))

    caught_up-inside :
        (reader : TloggerReader)
        → reader.r_off ≤ flag.max_len
        → (caught_up bytes again reads count flag.last_pos reader).r_off ≤ flag.max_len
    unfolding caught_up
    caught_up-inside reader le =
        if_cases (λ (r : TloggerReader). r.r_off ≤ flag.max_len)
          (ltb ((reader.r_loops + 1) % 2 ^ 32) reads.loops_over
            || (reads.loops_next == (reader.r_loops + 1) % 2 ^ 32
                && ltb reader.r_off flag.last_pos))
          last le

    next_loop-Sound :
        (reader : TloggerReader) (o : Option Parse)
        → Ended bytes flag.max_len 0 count o
        → SoundOption (next_loop bytes again reads count flag.last_pos reader o)
    unfolding next_loop
    next_loop-Sound reader o (p, e, k) =
        subst (λ o'. SoundOption (next_loop bytes again reads count flag.last_pos reader o'))
          (sym e) (second_parse-Sound reader p k)

    trigger_parse_log-Sound :
        (reader : TloggerReader)
        → reader.r_off ≤ flag.max_len
        → SoundOption (trigger_parse_log bytes again reads count flag.last_pos reader)
    unfolding trigger_parse_log
    trigger_parse_log-Sound reader le =
        if_cases SoundOption (reads.loops_same == reader.r_loops)
          (same_loop-Sound reader _ (
            parsed reads.max_len_same 0 count still.same count_small reader.r_off flag.last_pos []
              last le refl tt))
          (next_loop-Sound moved _ (
            parsed reads.max_len_first 0 count still.first count_small moved.r_off reads.end_first
              [] (omega (arith, still.end_pos)) (caught_up-inside reader le) refl tt))
      where
        moved : TloggerReader
        moved = caught_up bytes again reads count flag.last_pos reader

module _ (bytes again : ℕ → ℕ) (reads : FlagReads) (count : ℕ) where
  -- What a read that does not fail gives.
  abbrev pub SoundResult : LogBufferFlag → ReadResult → Type 0
  SoundResult flag (failed e) = Unit {0}
  SoundResult flag no_more = Unit {0}
  SoundResult flag (read e) = Sound bytes again flag reads count e

  abbrev pub Finished : LogBufferFlag → Option ReadResult → Type 0
  Finished flag o = (r : ReadResult) × (o ≡ some r) × SoundResult flag r

  -- When, during the read, the TEE writes neither a length of an item nor the length of the buffer in
  -- the flag, a read of less than 4 GiB returns, and what it copies to the user are whole items of the
  -- buffer, each valid, which fill the user's buffer without a gap up to the length that is returned;
  -- the reader then stands inside the buffer.
  pub process_tlogger_read-Finished :
      (g_log_mem_len : ℕ) (flag : LogBufferFlag) (reader : TloggerReader)
      → Still bytes again flag reads
      → count < 2 ^ 32
      → Finished flag
          (process_tlogger_read bytes again reads g_log_mem_len count (some flag) reader)
  unfolding process_tlogger_read
  process_tlogger_read-Finished g flag reader still count_small =
      if_cases (Finished flag) (ltb count 1024) (_, refl, tt)
        (go (get_last_read_pos g flag reader) refl)
    where
      taken :
          (o : Option ReadEnd)
          → (e : ReadEnd) × (o ≡ some e) × Sound bytes again flag reads count e
          → Finished flag (read_of o)
      taken o (e, eq, s) = (read e, ap read_of eq, s)

      go :
          (p : ReadPos)
          → get_last_read_pos g flag reader ≡ p
          → Finished flag (elim p [
            | refused e ↦ some (failed e)
            | nothing_new ↦ some no_more
            | is_read ↦ read_of (trigger_parse_log bytes again reads count flag.last_pos reader)
          ])
      go (refused e) h = (_, refl, tt)
      go nothing_new h = (_, refl, tt)
      go is_read h =
          let (last, place, small) = get_last_read_pos-is_read g flag reader h in
          taken (trigger_parse_log bytes again reads count flag.last_pos reader) (
            trigger_parse_log-Sound bytes again flag reads count small count_small last still reader
              place)
