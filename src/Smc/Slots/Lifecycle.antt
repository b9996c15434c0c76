-- ===== src/Smc/Slots/Lifecycle.antt =====
-- The slots of core/smc_smp.c while CAs and the TEE work on them: each locked part of the driver's
-- operations is one step, and so is each thing that the TEE does, as smc_smp.h says it of the bitmaps.
use itrustee_tzdriver.Base.{
  ℕ, ◌≡◌, refl, sym, subst, ◌∙◌, Bool, true, false, ◌&&◌, ◌||◌, not, Option, none, some, arith,
  ◌==◌, if_cases, if_cases_of,
}
use itrustee_tzdriver.Base.Errno.{Code, success}
use itrustee_tzdriver.Base.Update.{update}
use itrustee_tzdriver.Smc.Cmd.{Cmd, teec_pending, teec_pending2}
use itrustee_tzdriver.Smc.Slots.{
  Queue, Calls, CmdReuse, clear, resend, set_in, occupy_locked, occupy_clean_in_doing_entry,
  clear_doing, reuse_locked, copy_smc_out_entry, take_out, release_smc_entry, set_abort_cmd,
}
use itrustee_tzdriver.Smc.Slots.Contract.{Tidy, Grabbed, occupy_locked-Grabbed}

-- The queue, the slots that some CA holds, and those that it is still filling.
pub record System : Type 0 where
  pub queue : Queue
  pub owned : ℕ → Bool
  pub filling : ℕ → Bool

pub data Step (s : System) : System → Type 0 where
  -- The first locked part of `occupy_free_smc_in_entry`.
  occupy :
      (calls : Calls) (cmd : Cmd) (i : ℕ) (q : Queue)
      → occupy_locked calls cmd s.queue ≡ (some i, q)
      → Step s
          (record { queue = q; owned = update s.owned i true; filling = update s.filling i true })
  -- Its last locked part, or that of `reuse_smc_in_entry`.
  submit :
      (i : ℕ) (sent : Cmd)
      → s.filling i ≡ true
      → Step s (record s {
        queue = clear_doing i (set_in i sent s.queue);
        filling = update s.filling i false;
      })
  -- The label `clean` of `occupy_free_smc_in_entry`.
  give_up :
      (i : ℕ)
      → s.filling i ≡ true
      → Step s (record {
        queue = occupy_clean_in_doing_entry i s.queue;
        owned = update s.owned i false;
        filling = update s.filling i false;
      })
  -- The TEE gets a command that is in and not yet taken.
  tee_get :
      (i : ℕ)
      → s.queue.in_bitmap i ≡ true
      → s.queue.doing_bitmap i ≡ false
      → Step s (record s {
        queue = record s.queue { doing_bitmap = update s.queue.doing_bitmap i true };
      })
  -- The TEE writes an answer.
  tee_answer :
      (i : ℕ) (cmd : Cmd)
      → s.queue.doing_bitmap i ≡ true
      → Step s (record s {
        queue = record s.queue {
          out_bitmap = update s.queue.out_bitmap i true;
          out_cmds = update s.queue.out_cmds i cmd;
        };
      })
  -- `copy_smc_out_entry`: the slot stays with the CA for another round, or is given back.
  collect_resend :
      (calls : Calls) (i : ℕ) (cmd : Cmd) (q : Queue)
      → s.filling i ≡ false
      → copy_smc_out_entry calls i s.queue ≡ (success, some (cmd, resend), q)
      → Step s (record s { queue = q })
  collect_clear :
      (calls : Calls) (i : ℕ) (cmd : Cmd) (q : Queue)
      → s.filling i ≡ false
      → copy_smc_out_entry calls i s.queue ≡ (success, some (cmd, clear), q)
      → Step s (record s { queue = q; owned = update s.owned i false })
  -- The first locked part of `reuse_smc_in_entry`, when it succeeds.
  reuse :
      (calls : Calls) (i : ℕ) (q : Queue)
      → s.owned i ≡ true
      → reuse_locked calls i s.queue ≡ (true, q)
      → Step s (record s { queue = q; filling = update s.filling i true })
  -- `set_abort_cmd`, whatever it finds.
  abort : (i : ℕ) → s.filling i ≡ false → Step s (record s { queue = (set_abort_cmd i s.queue).1 })
  release :
      (i : ℕ)
      → s.owned i ≡ true
      → Step s (record {
        queue = release_smc_entry i s.queue;
        owned = update s.owned i false;
        filling = update s.filling i false;
      })

-- The steps that lead from `start` to a system.
pub data Reach (start : System) : System → Type 0 where
  here : Reach start start
  next : {s t : System} → Reach start s → Step s t → Reach start t

-- A slot is in use when a CA holds it; the TEE's bit is set on no other, and on each that is filled.
pub record Inv (s : System) : Type 0 where
  pub owned : (j : ℕ) → s.queue.in_bitmap j ≡ s.owned j
  pub tidy : Tidy s.queue
  pub shut : (j : ℕ) → s.filling j ≡ true → s.queue.doing_bitmap j ≡ true

-- What `copy_smc_out_entry` does to the bits of in and doing.
abbrev Collected : ℕ → Queue → Code × Option (Cmd × CmdReuse) × Queue → Type 0
Collected i q (c, none, q') = q' ≡ q
Collected i q (c, some (cmd, resend), q') =
    (q'.in_bitmap ≡ q.in_bitmap) × (q'.doing_bitmap ≡ q.doing_bitmap)
Collected i q (c, some (cmd, clear), q') =
    (q'.in_bitmap ≡ update q.in_bitmap i false) × (q'.doing_bitmap ≡ update q.doing_bitmap i false)

copy_smc_out_entry-Collected :
    (calls : Calls) (i : ℕ) (q : Queue) → Collected i q (copy_smc_out_entry calls i q)
unfolding copy_smc_out_entry take_out occupy_clean_in_doing_entry
copy_smc_out_entry-Collected calls i q = if_cases (Collected i q) (not (q.out_bitmap i)) refl (
    if_cases (Collected i q) calls.memcpy_fails refl (
      if_cases (λ (t : CmdReuse × Queue). Collected i q (success, some (q.out_cmds i, t.0), t.1))
        ((q.out_cmds i).ret_val == teec_pending2 || (q.out_cmds i).ret_val == teec_pending)
        (refl, refl) (refl, refl)))

abbrev Reused : ℕ → Queue → Bool × Queue → Type 0
Reused i q (false, q') = q' ≡ q
Reused i q (true, q') =
    (q.doing_bitmap i ≡ true) × (q'.in_bitmap ≡ q.in_bitmap) × (q'.doing_bitmap ≡ q.doing_bitmap)

reuse_locked-Reused : (calls : Calls) (i : ℕ) (q : Queue) → Reused i q (reuse_locked calls i q)
unfolding reuse_locked set_in
reuse_locked-Reused calls i q =
    if_cases_of (Reused i q) (not (q.in_bitmap i && q.doing_bitmap i) || calls.memcpy_fails)
      (λ e. refl) (λ e. (ground arith, refl, refl))

Step-Inv : {s t : System} → Inv s → Step s t → Inv t
unfolding set_in occupy_clean_in_doing_entry clear_doing release_smc_entry set_abort_cmd
Step-Inv {s} v (occupy calls cmd i q e) =
    let (free, a, b) = subst (Grabbed s.queue) e (occupy_locked-Grabbed calls cmd s.queue) in
    record {
      owned = λ j. rw a (ground (arith, v.owned j));
      tidy = λ j. rw (a, b) (ground (arith, v.tidy j));
      shut = λ j. rw b (ground (arith, v.shut j));
    }
Step-Inv {s} v (submit i sent f) = record {
  owned = λ j. v.owned j;
  tidy = λ j. ground (arith, v.tidy j);
  shut = λ j. ground (arith, v.shut j);
}
Step-Inv {s} v (give_up i f) = record {
  owned = λ j. ground (arith, v.owned j);
  tidy = λ j. ground (arith, v.tidy j);
  shut = λ j. ground (arith, v.shut j);
}
Step-Inv {s} v (tee_get i f g) = record {
  owned = λ j. v.owned j;
  tidy = λ j. ground (arith, v.tidy j);
  shut = λ j. ground (arith, v.shut j);
}
Step-Inv {s} v (tee_answer i cmd f) = record { owned = v.owned; tidy = v.tidy; shut = v.shut }
Step-Inv {s} v (collect_resend calls i cmd q f e) =
    let (a, b) = subst (Collected i s.queue) e (copy_smc_out_entry-Collected calls i s.queue) in
    record {
      owned = λ j. rw a (v.owned j);
      tidy = λ j. rw (a, b) (v.tidy j);
      shut = λ j. rw b (v.shut j);
    }
Step-Inv {s} v (collect_clear calls i cmd q f e) =
    let (a, b) = subst (Collected i s.queue) e (copy_smc_out_entry-Collected calls i s.queue) in
    record {
      owned = λ j. rw a (ground (arith, v.owned j));
      tidy = λ j. rw (a, b) (ground (arith, v.tidy j));
      shut = λ j. rw b (ground (arith, v.shut j));
    }
Step-Inv {s} v (reuse calls i q f e) =
    let (on, a, b) = subst (Reused i s.queue) e (reuse_locked-Reused calls i s.queue) in
    record {
      owned = λ j. rw a (v.owned j);
      tidy = λ j. rw (a, b) (v.tidy j);
      shut = λ j. rw b (ground (arith, v.shut j));
    }
Step-Inv {s} v (abort i f) = record {
  owned = λ j. ground (arith, v.owned j);
  tidy = λ j. ground (arith, v.tidy j);
  shut = λ j. ground (arith, v.shut j);
}
Step-Inv {s} v (release i f) = record {
  owned = λ j. ground (arith, v.owned j);
  tidy = λ j. ground (arith, v.tidy j);
  shut = λ j. ground (arith, v.shut j);
}

Reach-Inv : {start s : System} → Inv start → Reach start s → Inv s
Reach-Inv v here = v
Reach-Inv v (next r step) = Step-Inv (Reach-Inv v r) step

-- As `alloc_cmd_buffer` leaves it: every bit is clear and no CA holds a slot.
pub record Empty (s : System) : Type 0 where
  pub no_in : (j : ℕ) → s.queue.in_bitmap j ≡ false
  pub no_doing : (j : ℕ) → s.queue.doing_bitmap j ≡ false
  pub no_owner : (j : ℕ) → s.owned j ≡ false
  pub no_filling : (j : ℕ) → s.filling j ≡ false

Empty-Inv : {s : System} → Empty s → Inv s
Empty-Inv e = record {
  owned = λ j. e.no_in j ∙ sym (e.no_owner j);
  tidy = λ j h. ground (arith, e.no_doing j);
  shut = λ j h. ground (arith, e.no_filling j);
}

-- Whatever the CAs and the TEE did from an empty queue on, the slot that an attempt takes is held by
-- no CA.
pub occupy_locked_exclusive :
    (start s : System) (calls : Calls) (cmd : Cmd) (i : ℕ) (q : Queue)
    → Empty start
    → Reach start s
    → occupy_locked calls cmd s.queue ≡ (some i, q)
    → s.owned i ≡ false
occupy_locked_exclusive start s calls cmd i q empty r e =
    let (free, _, _) = subst (Grabbed s.queue) e (occupy_locked-Grabbed calls cmd s.queue) in
    sym ((Reach-Inv (Empty-Inv empty) r).owned i) ∙ free

-- Whatever the CAs and the TEE did from an empty queue on, a command that the TEE can get, one that is
-- in and not taken, belongs to a CA that has finished filling it.
pub tee_gets_ready :
    (start s : System) (i : ℕ)
    → Empty start
    → Reach start s
    → s.queue.in_bitmap i ≡ true
    → s.queue.doing_bitmap i ≡ false
    → (s.owned i ≡ true) × (s.filling i ≡ false)
tee_gets_ready start s i empty r e f =
    let v = Reach-Inv (Empty-Inv empty) r in ground (arith, v.owned i, v.shut i)
