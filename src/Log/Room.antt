-- ===== src/Log/Room.antt =====
-- tlogger/tlogger.c: the user's buffer during a read, whatever the TEE writes meanwhile.
use itrustee_tzdriver.Base.{ℕ, ◌+◌, ◌≤◌, ◌≡◌, Option, some}
use itrustee_tzdriver.Log.{
  Parse, FlagReads, ReadEnd, ReadResult, failed, no_more, read, proc_read_ret,
}
use itrustee_tzdriver.Log.Copied.{Packed}

module _ (bytes again : ℕ → ℕ) where
  -- The copies fill the user's buffer without a gap up to what is returned, within the room.
  pub record Filled (buf room : ℕ) (p : Parse) : Type 0 where
    pub within : p.buf_written ≤ room
    pub packed : Packed bytes p.copies (buf + p.buf_written)

  abbrev pub FilledOption : ℕ → ℕ → Option Parse → Type 0
  FilledOption buf room o = (p : Parse) × (o ≡ some p) × Filled buf room p

module _ (bytes again : ℕ → ℕ) (reads : FlagReads) (count : ℕ) where
  -- The length of the copies is returned, or that nothing was read.
  abbrev pub InRoom : ReadEnd → Type 0
  InRoom e = (n : ℕ) × (n ≤ count) × (e.ret ≡ proc_read_ret n) × Packed bytes e.copies n

  abbrev InRoomOption : Option ReadEnd → Type 0
  InRoomOption o = (e : ReadEnd) × (o ≡ some e) × InRoom e

  abbrev pub InRoomResult : ReadResult → Type 0
  InRoomResult (failed e) = Unit {0}
  InRoomResult no_more = Unit {0}
  InRoomResult (read e) = InRoom e

  abbrev pub Answered : Option ReadResult → Type 0
  Answered o = (r : ReadResult) × (o ≡ some r) × InRoomResult r
