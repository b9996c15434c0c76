-- ===== src/Smc/Slots/Contract.antt =====
-- What `occupy_free_smc_in_entry` of core/smc_smp.c gives its caller.
use itrustee_tzdriver.Base.{
  ℕ, zero, suc, ◌<◌, ◌≡◌, refl, sym, ap, subst, ◌∙◌, ◌≢◌, true, false, Option, none, some, arith,
  if◌then◌else◌, if_cases,
}
use itrustee_tzdriver.Base.Update.{update, update_same}
use itrustee_tzdriver.Smc.Cmd.{Cmd}
use itrustee_tzdriver.Smc.Slots.{
  max_smc_cmd, find_smc_entry_retry_max_count, Queue, Calls, set_in,
  occupy_setbit_smc_in_doing_entry, occupy_clean_in_doing_entry, clear_doing, free_slot,
  occupy_locked, occupy_retry, occupy_finish, occupy_free_smc_in_entry,
}
use itrustee_tzdriver.Smc.Slots.Scan.{FreeSlot, free_slot-FreeSlot}

-- No slot is taken by the TEE that is not in use.
abbrev pub Tidy : Queue → Type 0
Tidy q = (i : ℕ) → q.doing_bitmap i ≡ true → q.in_bitmap i ≡ true

-- The queues that the caller meets while it sleeps and tries again.
pub data Waited (sleep : ℕ → Queue → Queue) : ℕ → Queue → Queue → Type 0 where
  now : {n : ℕ} {q : Queue} → Waited sleep n q q
  later : {n : ℕ} {q q' : Queue} → Waited sleep n (sleep n q) q' → Waited sleep (suc n) q q'

-- `calls` and the queue `q` at the last attempt gave this result: a slot that was free, filled with
-- the command and ready for the TEE, or a queue whose bitmaps are as they were.
abbrev pub Occupied : Calls → Cmd → Queue → Option ℕ × Queue → Type 0
Occupied calls cmd q (none, q') =
    (j : ℕ)
    → (q'.in_bitmap j ≡ q.in_bitmap j)
      × (q'.doing_bitmap j ≡ q.doing_bitmap j)
      × (q'.out_bitmap j ≡ q.out_bitmap j)
Occupied calls cmd q (some i, q') =
    (i < max_smc_cmd)
    × (q.in_bitmap i ≡ false)
    × (calls.update_chksum (record cmd { event_nr = i }) ≡ some (q'.in_cmds i))
    × (q'.in_bitmap i ≡ true)
    × (q'.doing_bitmap i ≡ false)
    × ((j : ℕ)
        → (q'.out_bitmap j ≡ q.out_bitmap j)
          × (i ≢ j
              → (q'.in_bitmap j ≡ q.in_bitmap j)
                × (q'.doing_bitmap j ≡ q.doing_bitmap j)
                × (q'.in_cmds j ≡ q.in_cmds j)))

-- The queue right after slot `i` was taken for the command.
abbrev filled : ℕ → Cmd → Queue → Queue
filled i cmd q = occupy_setbit_smc_in_doing_entry i (set_in i cmd q)

-- What the slot then holds.
stamped : (i : ℕ) (cmd : Cmd) (q : Queue) → (filled i cmd q).in_cmds i ≡ record cmd { event_nr = i }
unfolding set_in occupy_setbit_smc_in_doing_entry
stamped i cmd q =
    update_same (set_in i cmd q).in_cmds i _
    ∙ ap (λ (c : Cmd). record c { event_nr = i }) (update_same q.in_cmds i cmd)

finish_none :
    (calls : Calls) (cmd : Cmd) (q : Queue) (i : ℕ)
    → Tidy q
    → q.in_bitmap i ≡ false
    → Occupied calls cmd q (none, occupy_clean_in_doing_entry i (filled i cmd q))
unfolding set_in occupy_setbit_smc_in_doing_entry occupy_clean_in_doing_entry
finish_none calls cmd q i tidy free = λ j. ground (arith, tidy i)

finish_some :
    (calls : Calls) (cmd sent : Cmd) (q : Queue) (i : ℕ)
    → i < max_smc_cmd
    → q.in_bitmap i ≡ false
    → calls.update_chksum ((filled i cmd q).in_cmds i) ≡ some sent
    → Occupied calls cmd q (some i, clear_doing i (set_in i sent (filled i cmd q)))
unfolding set_in occupy_setbit_smc_in_doing_entry clear_doing
finish_some calls cmd sent q i lt free e = (
  lt,
  free,
  subst
      (λ c.
        calls.update_chksum c ≡ some ((clear_doing i (set_in i sent (filled i cmd q))).in_cmds i))
      (stamped i cmd q) (e ∙ ap some (sym (update_same (filled i cmd q).in_cmds i sent))),
  ground arith,
  ground arith,
  λ j. ground arith,
)

-- An attempt, with what the scan found.
abbrev attempt : Calls → Cmd → Queue → Option ℕ → Option ℕ × Queue
attempt calls cmd q r = elim r [
  | none ↦ (none, q)
  | some i ↦ if calls.memcpy_fails then (none, q) else (some i, filled i cmd q)
]

occupy_once :
    (calls : Calls) (cmd : Cmd) (q : Queue)
    → Tidy q
    → Occupied calls cmd q (occupy_finish calls (occupy_locked calls cmd q))
unfolding occupy_finish occupy_locked
occupy_once calls cmd q tidy =
    go (free_slot max_smc_cmd 0 q.in_bitmap) (free_slot-FreeSlot max_smc_cmd 0 q.in_bitmap)
  where
    summed :
        (i : ℕ)
        → i < max_smc_cmd
        → q.in_bitmap i ≡ false
        → (r : Option Cmd) → calls.update_chksum ((filled i cmd q).in_cmds i) ≡ r
        → Occupied calls cmd q (elim r [
          | none ↦ (none, occupy_clean_in_doing_entry i (filled i cmd q))
          | some sent ↦ (some i, clear_doing i (set_in i sent (filled i cmd q)))
        ])
    summed i lt free none e = finish_none calls cmd q i tidy free
    summed i lt free (some sent) e = finish_some calls cmd sent q i lt free e

    go :
        (r : Option ℕ)
        → FreeSlot max_smc_cmd 0 q.in_bitmap r
        → Occupied calls cmd q (occupy_finish calls (attempt calls cmd q r))
    go none h = λ j. (refl, refl, refl)
    go (some i) (_, lt, free, _) =
        if_cases (λ r. Occupied calls cmd q (occupy_finish calls r)) calls.memcpy_fails
          (λ j. (refl, refl, refl))
          (if_cases (Occupied calls cmd q) (calls.timestamp_fails ((filled i cmd q).in_cmds i))
            (finish_none calls cmd q i tidy free)
            (summed i (omega (arith, lt)) free (calls.update_chksum ((filled i cmd q).in_cmds i))
              refl))

-- An attempt that finds no slot changes nothing.
occupy_locked-none :
    (calls : Calls) (cmd : Cmd) (q : Queue)
    → (occupy_locked calls cmd q).0 ≡ none
    → (occupy_locked calls cmd q).1 ≡ q
unfolding occupy_locked
occupy_locked-none calls cmd q = go (free_slot max_smc_cmd 0 q.in_bitmap)
  where
    go : (r : Option ℕ) → (attempt calls cmd q r).0 ≡ none → (attempt calls cmd q r).1 ≡ q
    go none = λ e. refl
    go (some i) =
        if_cases (λ (t : Option ℕ × Queue). t.0 ≡ none → t.1 ≡ q) calls.memcpy_fails (λ e. refl)
          (λ e. ground arith)

retry-Occupied :
    (calls : Calls) (sleep : ℕ → Queue → Queue) (cmd : Cmd) (n : ℕ) (q : Queue)
    → Tidy q
    → ((k : ℕ) (y : Queue) → Tidy y → Tidy (sleep k y))
    → (q0 : Queue) × Waited sleep n q q0
      × Occupied calls cmd q0 (occupy_finish calls (occupy_retry calls sleep cmd n q))
unfolding occupy_retry
retry-Occupied calls sleep cmd zero q tidy keep = (q, now, occupy_once calls cmd q tidy)
retry-Occupied calls sleep cmd (suc n) q tidy keep =
    go ((occupy_locked calls cmd q).0) refl (occupy_once calls cmd q tidy)
      (retry-Occupied calls sleep cmd n)
  where
    y : Queue
    y = (occupy_locked calls cmd q).1

    go :
        (r : Option ℕ)
        → (occupy_locked calls cmd q).0 ≡ r
        → Occupied calls cmd q (occupy_finish calls (occupy_locked calls cmd q))
        → ((q1 : Queue)
            → Tidy q1
            → ((k : ℕ) (y : Queue) → Tidy y → Tidy (sleep k y))
            → (q0 : Queue) × Waited sleep n q1 q0
              × Occupied calls cmd q0 (occupy_finish calls (occupy_retry calls sleep cmd n q1)))
        → (q0 : Queue) × Waited sleep (suc n) q q0
          × Occupied calls cmd q0 (
              occupy_finish calls (elim r [
                | none ↦ occupy_retry calls sleep cmd n (sleep n y)
                | some i ↦ occupy_locked calls cmd q
              ]))
    go (some i) e once again = (q, now, once)
    go none e once again =
        let same : y ≡ q = occupy_locked-none calls cmd q e in
        let (q0, w, h) = again (sleep n y) (keep n y (subst Tidy (sym same) tidy)) keep in
        (q0, later (subst (λ t. Waited sleep n (sleep n t) q0) same w), h)

-- When others keep the queue tidy meanwhile, the call ends with a slot that was free at its last
-- attempt, ready for the TEE and holding the command with its sum and its slot number, every other
-- slot being as it was; or it gives no slot, and the bitmaps are as they were.
pub occupy_free_smc_in_entry-Occupied :
    (calls : Calls) (sleep : ℕ → Queue → Queue) (cmd : Cmd) (q : Queue)
    → Tidy q
    → ((k : ℕ) (y : Queue) → Tidy y → Tidy (sleep k y))
    → (q0 : Queue) × Waited sleep (suc find_smc_entry_retry_max_count) q q0
      × Occupied calls cmd q0 (occupy_free_smc_in_entry calls sleep cmd q)
unfolding occupy_free_smc_in_entry
occupy_free_smc_in_entry-Occupied calls sleep cmd q tidy keep =
    retry-Occupied calls sleep cmd (suc find_smc_entry_retry_max_count) q tidy keep

retry_some :
    (calls : Calls) (sleep : ℕ → Queue → Queue) (cmd : Cmd) (n i : ℕ) (q y : Queue)
    → occupy_locked calls cmd q ≡ (some i, y)
    → occupy_retry calls sleep cmd n q ≡ (some i, y)
unfolding occupy_retry
retry_some calls sleep cmd zero i q y e = e
retry_some calls sleep cmd (suc n) i q y e = subst (λ a. next a ≡ (some i, y)) (sym e) refl
  where
    next : Option ℕ × Queue → Option ℕ × Queue
    next a = elim (a.0) [ none ↦ occupy_retry calls sleep cmd n (sleep n a.1) | some _ ↦ a ]

-- The slot that an attempt takes was free, and only its own bits are written.
abbrev pub Grabbed : Queue → Option ℕ × Queue → Type 0
Grabbed q (none, q') = Unit
Grabbed q (some i, q') =
    (q.in_bitmap i ≡ false)
    × (q'.in_bitmap ≡ update q.in_bitmap i true)
    × (q'.doing_bitmap ≡ update q.doing_bitmap i true)

pub occupy_locked-Grabbed :
    (calls : Calls) (cmd : Cmd) (q : Queue) → Grabbed q (occupy_locked calls cmd q)
unfolding occupy_locked set_in occupy_setbit_smc_in_doing_entry
occupy_locked-Grabbed calls cmd q =
    go (free_slot max_smc_cmd 0 q.in_bitmap) (free_slot-FreeSlot max_smc_cmd 0 q.in_bitmap)
  where
    go : (r : Option ℕ) → FreeSlot max_smc_cmd 0 q.in_bitmap r → Grabbed q (attempt calls cmd q r)
    go none h = tt
    go (some k) (_, _, free, _) = if_cases (Grabbed q) calls.memcpy_fails tt (free, refl, refl)

located :
    (calls : Calls) (cmd : Cmd) (q : Queue) (i : ℕ)
    → calls.memcpy_fails ≡ false
    → free_slot max_smc_cmd 0 q.in_bitmap ≡ some i
    → occupy_locked calls cmd q ≡ (some i, filled i cmd q)
unfolding occupy_locked
located calls cmd q i copy e =
    subst (λ r. attempt calls cmd q r ≡ (some i, filled i cmd q)) (sym e) (rw copy refl)

finished :
    (calls : Calls) (sent : Cmd) (q : Queue) (i : ℕ)
    → calls.timestamp_fails (q.in_cmds i) ≡ false
    → calls.update_chksum (q.in_cmds i) ≡ some sent
    → occupy_finish calls (some i, q) ≡ (some i, clear_doing i (set_in i sent q))
unfolding occupy_finish
finished calls sent q i stamp f = rw (stamp, f) refl

-- When a slot is free and neither the copy, the time stamp nor the sum fails, the call gives a slot.
pub occupy_free_smc_in_entry_total :
    (calls : Calls) (sleep : ℕ → Queue → Queue) (cmd : Cmd) (q : Queue) (j : ℕ)
    → j < max_smc_cmd
    → q.in_bitmap j ≡ false
    → calls.memcpy_fails ≡ false
    → ((c : Cmd) → calls.timestamp_fails c ≡ false)
    → ((c : Cmd) → (sent : Cmd) × (calls.update_chksum c ≡ some sent))
    → (i : ℕ) × (q' : Queue) × (occupy_free_smc_in_entry calls sleep cmd q ≡ (some i, q'))
unfolding occupy_free_smc_in_entry
occupy_free_smc_in_entry_total calls sleep cmd q j lt free copy stamp chksum =
    go (free_slot max_smc_cmd 0 q.in_bitmap) refl (free_slot-FreeSlot max_smc_cmd 0 q.in_bitmap)
  where
    go :
        (r : Option ℕ)
        → free_slot max_smc_cmd 0 q.in_bitmap ≡ r
        → FreeSlot max_smc_cmd 0 q.in_bitmap r
        → (i : ℕ) × (q' : Queue) × (occupy_free_smc_in_entry calls sleep cmd q ≡ (some i, q'))
    go none e h = absurd (ground (arith, free, h j (omega arith) (omega arith)))
    go (some i) e h =
        let (sent, f) = chksum ((filled i cmd q).in_cmds i) in
        (
          i,
          clear_doing i (set_in i sent (filled i cmd q)),
          ap (occupy_finish calls) (
                retry_some calls sleep cmd (suc find_smc_entry_retry_max_count) i q (filled i cmd q)
                  (located calls cmd q i copy e))
              ∙ finished calls sent (filled i cmd q) i (stamp _) f,
        )
