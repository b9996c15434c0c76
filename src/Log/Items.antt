-- ===== src/Log/Items.antt =====
-- tlogger/tlogger.c, `get_next_log_item`: it finds the first item.
use itrustee_tzdriver.Base.{
  ℕ, zero, suc, ◌+◌, ◌*◌, ◌%◌, ◌^◌, ◌≤◌, ◌<◌, ◌≡◌, refl, sym, subst, ◌⊎◌, inl, inr, Bool, true,
  false, not, arith, ltb, leb, if_cases_of,
}
use itrustee_tzdriver.Log.{
  log_item_size, item_at, check_log_item_validite, max_size_at, next_scan, get_next_log_item,
}

-- Whether an item stands at `i` of the scope.
abbrev pub is_item_at : (ℕ → ℕ) → ℕ → ℕ → ℕ → Bool
is_item_at bytes read_pos scope_len i =
    check_log_item_validite (item_at bytes (read_pos + i)) (max_size_at scope_len i)

-- From `i` on, the search finds the first item that there is at a multiple of 64 bytes, with room for
-- one more line of 64 bytes after its head, or there is none, and it ends where it began or inside.
abbrev pub Scanned : (ℕ → ℕ) → ℕ → ℕ → ℕ → ℕ → Bool × ℕ → Type 0
Scanned bytes read_pos scope_len i pos (true, p) =
    (k : ℕ) × (p ≡ read_pos + i + 64 * k)
    × (i + 64 * k + 128 ≤ scope_len)
    × (is_item_at bytes read_pos scope_len (i + 64 * k) ≡ true)
    × ((j : ℕ) → j < k → is_item_at bytes read_pos scope_len (i + 64 * j) ≡ false)
Scanned bytes read_pos scope_len i pos (false, p) =
    ((p ≡ pos) ⊎ ((read_pos ≤ p) × (p ≤ read_pos + scope_len)))
    × ((j : ℕ)
        → i + 64 * j + 128 ≤ scope_len
        → is_item_at bytes read_pos scope_len (i + 64 * j) ≡ false)

module _ (bytes : ℕ → ℕ) (read_pos scope_len : ℕ) (inside : read_pos + scope_len < 2 ^ 32) where
  -- One more position that has no item.
  Scanned-later :
      (i pos : ℕ) (r : Bool × ℕ)
      → i + 128 ≤ scope_len
      → is_item_at bytes read_pos scope_len i ≡ false
      → Scanned bytes read_pos scope_len (i + 64) (read_pos + i) r
      → Scanned bytes read_pos scope_len i pos r
  Scanned-later i pos (true, p) room empty (k, e, fits, is, before) = (
    suc k,
    omega (arith, e),
    omega (arith, fits),
    subst (λ m. is_item_at bytes read_pos scope_len m ≡ true) (omega arith) is,
    elim [
      | zero ↦ λ _. subst (λ m. is_item_at bytes read_pos scope_len m ≡ false) (omega arith) empty
      | suc j ↦ λ lt.
          subst (λ m. is_item_at bytes read_pos scope_len m ≡ false) (omega arith)
            (before j (omega (arith, lt)))
    ],
  )
  Scanned-later i pos (false, p) room empty (at, after) = (
    inr (elim at [ inl e ↦ ground (arith, e, inside, room) | inr (a, b) ↦ (a, b) ]),
    elim [
      | zero ↦ λ _. subst (λ m. is_item_at bytes read_pos scope_len m ≡ false) (omega arith) empty
      | suc j ↦ λ le.
          subst (λ m. is_item_at bytes read_pos scope_len m ≡ false) (omega arith)
            (after j (omega (arith, le)))
    ],
  )

  next_scan-Scanned :
      (n i pos : ℕ)
      → scope_len ≤ n + i
      → Scanned bytes read_pos scope_len i pos (next_scan bytes n read_pos scope_len i pos)
  unfolding next_scan
  next_scan-Scanned zero i pos le = (inl refl, λ j h. absurd (omega (arith, le, h)))
  next_scan-Scanned (suc n) i pos le =
      if_cases_of (Scanned bytes read_pos scope_len i pos)
        (not (leb (i + log_item_size + 64) scope_len))
        (λ no_room. (inl refl, λ j h. absurd (ground (arith, no_room, h))))
        (λ room.
          if_cases_of (Scanned bytes read_pos scope_len i pos)
            (is_item_at bytes read_pos scope_len i)
            (λ is. (
              0,
              ground (arith, inside, room),
              ground (arith, room),
              subst (λ m. is_item_at bytes read_pos scope_len m ≡ true) (omega arith) is,
              λ j lt. absurd (omega (arith, lt)),
            ))
            (λ empty. Scanned-later i pos _ (ground (arith, room)) empty (
              subst
                (λ m.
                  Scanned bytes read_pos scope_len (i + 64) (read_pos + i)
                    (next_scan bytes n read_pos scope_len m ((read_pos + i) % 2 ^ 32)))
                (sym (next_i (ground (arith, room))))
                (subst
                  (λ m.
                    Scanned bytes read_pos scope_len (i + 64) (read_pos + i)
                      (next_scan bytes n read_pos scope_len (i + 64) m))
                  (sym (next_pos (ground (arith, room))))
                  (next_scan-Scanned n (i + 64) (read_pos + i) (omega (arith, le)))))))
    where
      next_i : i + 128 ≤ scope_len → (i + 64) % 2 ^ 32 ≡ i + 64
      next_i room = omega (arith, inside, room)

      next_pos : i + 128 ≤ scope_len → (read_pos + i) % 2 ^ 32 ≡ read_pos + i
      next_pos room = omega (arith, inside, room)

module _ (bytes : ℕ → ℕ) where
  -- When the scope is inside the buffer, `get_next_log_item` finds the first item at a multiple of 64
  -- bytes from where it starts; when it finds none, there is none.
  pub get_next_log_item-Scanned :
      (max_len read_pos scope_len : ℕ)
      → read_pos + scope_len ≤ max_len
      → max_len < 2 ^ 32
      → Scanned bytes read_pos scope_len 0 read_pos
          (get_next_log_item bytes max_len read_pos scope_len read_pos)
  unfolding get_next_log_item
  get_next_log_item-Scanned max_len read_pos scope_len le small =
      if_cases_of (Scanned bytes read_pos scope_len 0 read_pos)
        (ltb max_len ((read_pos + scope_len) % 2 ^ 32))
        (λ out. absurd (ground (arith, out, le, small)))
        (λ _.
          next_scan-Scanned bytes read_pos scope_len (omega (arith, le, small)) scope_len 0 read_pos
            (omega arith))
