-- ===== src/Log/Copied.antt =====
-- tlogger/tlogger.c, `parse_log_item`: what it copies to the user.
use itrustee_tzdriver.Base.{
  ℕ, zero, suc, ◌+◌, ◌-◌, ◌*◌, ◌%◌, ◌^◌, ◌≤◌, ◌<◌, ◌≡◌, refl, sym, ap, subst, inl, inr, Bool, true,
  false, not, Option, some, List, [], ◌∷◌, All, arith, ltb, if◌then◌else◌, if_cases_of,
}
use itrustee_tzdriver.Log.{
  log_item_size, LogItem, ItemCopy, Parse, item_at, check_log_item_validite, max_size_at,
  get_next_log_item, parse_loop, parse_log_item,
}
use itrustee_tzdriver.Log.Items.{Scanned, get_next_log_item-Scanned}

-- An item that fits some room fits the room of its own length.
own_size :
    (item : LogItem) (m : ℕ)
    → check_log_item_validite item m ≡ true
    → (check_log_item_validite item (item.buffer_len + 64) ≡ true) × (item.buffer_len + 64 ≤ m)
unfolding check_log_item_validite
own_size item m h = (ground (arith, h), ground (arith, h))

max_size_at_le : (n i : ℕ) → i ≤ n → n < 2 ^ 32 → i + max_size_at n i ≤ n
unfolding max_size_at
max_size_at_le n i le small = ground (arith, le, small)

module _ (bytes : ℕ → ℕ) where
  -- A whole, valid item of the buffer, of the length that is copied.
  abbrev pub IsItem : ℕ → ItemCopy → Type 0
  IsItem max_len c =
      (c.from + c.count ≤ max_len)
      × (c.count ≡ (item_at bytes c.from).buffer_len + 64)
      × (check_log_item_validite (item_at bytes c.from) c.count ≡ true)

  -- The copies, the last one first, fill the user's buffer up to `n` without a gap.
  abbrev pub Packed : List ItemCopy → ℕ → Type 0
  Packed [] n = n ≡ 0
  Packed (c ∷ cs) n = (c.to + c.count ≡ n) × Packed cs c.to

  module _ (read_pos scope_len : ℕ) (inside : read_pos + scope_len < 2 ^ 32) where
    found-bounds :
        (r : Bool × ℕ)
        → Scanned bytes read_pos scope_len 0 read_pos r
        → (read_pos ≤ r.1) × (r.1 ≤ read_pos + scope_len)
    found-bounds (true, p) (k, e, fits, is, before) = (omega (arith, e), omega (arith, e, fits))
    found-bounds (false, p) (inl e, after) = (omega (arith, e), omega (arith, e))
    found-bounds (false, p) (inr (a, b), after) = (a, b)

    found-IsItem :
        (r : Bool × ℕ)
        → Scanned bytes read_pos scope_len 0 read_pos r
        → r.0 ≡ true
        → (r.1 + ((item_at bytes r.1).buffer_len + 64) ≤ read_pos + scope_len)
          × (check_log_item_validite (item_at bytes r.1) ((item_at bytes r.1).buffer_len + 64)
              ≡ true)
    found-IsItem (false, p) s h = absurd (ground (arith, h))
    found-IsItem (true, p) (k, e, fits, is, before) h =
        let at_p : check_log_item_validite (item_at bytes p) (max_size_at scope_len (0 + 64 * k))
            ≡ true =
          subst
            (λ m.
              check_log_item_validite (item_at bytes m) (max_size_at scope_len (0 + 64 * k)) ≡ true)
            (omega (arith, e)) is in
        let (a, b) = own_size (item_at bytes p) (max_size_at scope_len (0 + 64 * k)) at_p in
        let c =
          max_size_at_le scope_len (0 + 64 * k) (omega (arith, fits)) (omega (arith, inside)) in
        (omega (arith, b, c, e), a)

  -- What a parse leaves: copies of whole items that fill the user's buffer without a gap up to what is
  -- returned, and a place in the buffer to go on from.
  pub record Parsed (max_len buf room : ℕ) (p : Parse) : Type 0 where
    pub within : p.buf_written ≤ room
    pub place : p.read_off ≤ max_len
    pub packed : Packed p.copies (buf + p.buf_written)
    pub items : All (IsItem max_len) p.copies

  abbrev pub Ended : ℕ → ℕ → ℕ → Option Parse → Type 0
  Ended max_len buf room o = (p : Parse) × (o ≡ some p) × Parsed max_len buf room p

  -- No item's length is written between the two readings.
  module _ (again : ℕ → ℕ)
      (still : (pos : ℕ) → (item_at again pos).buffer_len ≡ (item_at bytes pos).buffer_len)
      (max_len buf room : ℕ) (small : max_len < 2 ^ 32) (room_small : room < 2 ^ 32) where
    -- That `n` rounds are enough, wherever the parse stands.
    abbrev Enough : ℕ → ℕ → Type 0
    Enough n end_pos =
        (start left written : ℕ) (copies : List ItemCopy)
        → left < n
        → start ≤ max_len
        → left + written ≡ room
        → Packed copies (buf + written)
        → All (IsItem max_len) copies
        → Ended max_len buf room
            (parse_loop bytes again max_len buf n start end_pos left written copies)

    parse_loop-Ended :
        (n start end_pos left written : ℕ) (copies : List ItemCopy)
        → left < n
        → end_pos ≤ max_len
        → start ≤ max_len
        → left + written ≡ room
        → Packed copies (buf + written)
        → All (IsItem max_len) copies
        → Ended max_len buf room
            (parse_loop bytes again max_len buf n start end_pos left written copies)
    unfolding parse_loop
    parse_loop-Ended zero start end_pos left written copies fuel e_in s_in sum packed items =
        absurd (omega (arith, fuel))
    parse_loop-Ended (suc n) start end_pos left written copies fuel e_in s_in sum packed items =
        if_cases_of (Ended max_len buf room) (not (ltb start end_pos)) (λ _. stop start true s_in)
          (λ before.
            let before' : start < end_pos = ground (arith, before) in
            go (λ s l w cs f i su p it. parse_loop-Ended n s end_pos l w cs f e_in i su p it)
              before' (scope_eq before'))
      where
        stop :
            (off : ℕ) (l : Bool)
            → off ≤ max_len
            → Ended max_len buf room (
                some (record {
                  read_off = off;
                  buf_written = written;
                  user_buffer_left = l;
                  copies = copies;
                }))
        stop off l le = (
          _,
          refl,
          record { within = omega (arith, sum); place = le; packed = packed; items = items },
        )

        scope_len : ℕ
        scope_len = (end_pos + 2 ^ 32 - start) % 2 ^ 32

        scope_eq : start < end_pos → start + scope_len ≡ end_pos
        scope_eq before = omega (arith, before, e_in, small)

        r : Bool × ℕ
        r = get_next_log_item bytes max_len start scope_len start

        item_len : ℕ
        item_len = (item_at again r.1).buffer_len + log_item_size

        advance :
            Enough n end_pos
            → start < end_pos
            → r.1 + item_len ≤ end_pos
            → item_len ≤ left
            → start ≤ r.1
            → check_log_item_validite (item_at bytes r.1) item_len ≡ true
            → Ended max_len buf room (
                parse_loop bytes again max_len buf n
                  ((r.1 + item_len) % 2 ^ 32)
                  end_pos
                  (left - item_len)
                  ((written + item_len) % 2 ^ 32)
                  (record { to = buf + written; from = r.1; count = item_len } ∷ copies))
        advance rest before at le lo valid =
            subst
              (λ w. Ended max_len buf room (
                parse_loop bytes again max_len buf n ((r.1 + item_len) % 2 ^ 32) end_pos
                  (left - item_len) w
                  (record { to = buf + written; from = r.1; count = item_len } ∷ copies)))
              (sym written_eq)
              (subst
                (λ s. Ended max_len buf room (
                  parse_loop bytes again max_len buf n s end_pos (left - item_len)
                    (written + item_len)
                    (record { to = buf + written; from = r.1; count = item_len } ∷ copies)))
                (sym start_eq)
                (rest (r.1 + item_len) (left - item_len) (written + item_len)
                  (record { to = buf + written; from = r.1; count = item_len } ∷ copies)
                  (omega (arith, fuel, le)) (omega (arith, at, e_in)) (omega (arith, le, sum))
                  (omega arith, packed)
                  ((omega (arith, at, e_in), ap (λ k. k + 64) (still r.1), valid), items)))
          where
            written_eq : (written + item_len) % 2 ^ 32 ≡ written + item_len
            written_eq = omega (arith, le, sum, room_small)

            start_eq : (r.1 + item_len) % 2 ^ 32 ≡ r.1 + item_len
            start_eq = omega (arith, at, e_in, small)

        go :
            Enough n end_pos
            → start < end_pos
            → start + scope_len ≡ end_pos
            → Ended max_len buf room (
                if not r.0
                then some (record {
                  read_off = r.1;
                  buf_written = written;
                  user_buffer_left = true;
                  copies = copies;
                })
                else if ltb left item_len
                then some (record {
                  read_off = r.1;
                  buf_written = written;
                  user_buffer_left = false;
                  copies = copies;
                })
                else parse_loop bytes again max_len buf n
                    ((r.1 + item_len) % 2 ^ 32)
                    end_pos
                    (left - item_len)
                    ((written + item_len) % 2 ^ 32)
                    (record { to = buf + written; from = r.1; count = item_len } ∷ copies))
        go rest before eq =
            let sc =
              get_next_log_item-Scanned bytes max_len start scope_len (omega (arith, eq, e_in))
                small in
            let inside : start + scope_len < 2 ^ 32 = omega (arith, eq, e_in, small) in
            let (lo, hi) = found-bounds start scope_len inside r sc in
            if_cases_of (Ended max_len buf room) (not r.0)
              (λ _. stop r.1 true (omega (arith, hi, eq, e_in)))
              (λ f.
                if_cases_of (Ended max_len buf room) (ltb left item_len)
                  (λ _. stop r.1 false (omega (arith, hi, eq, e_in)))
                  (λ fits.
                    let (whole, valid) =
                      found-IsItem start scope_len inside r sc (ground (arith, f)) in
                    let at : r.1 + item_len ≤ end_pos = omega (arith, whole, eq, still r.1) in
                    let le : item_len ≤ left = ground (arith, fits) in
                    advance rest before at le lo (
                      subst (λ k. check_log_item_validite (item_at bytes r.1) (k + 64) ≡ true)
                        (sym (still r.1)) valid)))

    -- `parse_log_item` ends, and has copied whole items only, without a gap, within the user's buffer.
    pub parse_log_item-Ended :
        (start end_pos : ℕ) (copies : List ItemCopy)
        → end_pos ≤ max_len
        → start ≤ max_len
        → Packed copies buf
        → All (IsItem max_len) copies
        → Ended max_len buf room (parse_log_item bytes again max_len buf room start end_pos copies)
    unfolding parse_log_item
    parse_log_item-Ended start end_pos copies e_in s_in packed items =
        subst
          (λ c.
            Ended max_len buf room
              (parse_loop bytes again max_len buf (suc c) start end_pos c 0 copies))
          (sym mod_eq)
          (parse_loop-Ended (suc room) start end_pos room 0 copies (omega arith) e_in s_in
            (omega arith) (subst (Packed copies) (omega arith) packed) items)
      where
        mod_eq : room % 2 ^ 32 ≡ room
        mod_eq = omega (arith, room_small)
