-- ===== src/Smc/Pending/Counts.antt =====
-- The counts of users of core/smc_smp.c's pending entries, while threads come, go and are woken.
use itrustee_tzdriver.Base.{
  ℕ, ◌+◌, ◌-◌, ◌<◌, ◌≡◌, ◌≢◌, ◌↔◌, ◌⊎◌, Bool, true, false, some, List, [], ◌∷◌, arith,
  if◌then◌else◌,
}
use itrustee_tzdriver.Base.Update.{update}
use itrustee_tzdriver.Base.Nodes.{occurs, occurs-list_add_tail, occurs-list_del}
use itrustee_tzdriver.Smc.Pending.{
  PendingEntry, Pending, set_entry, get_entry, init_pending_entry, first_of_pid, put_pending_entry,
  release_pending_entry,
}

-- The entries, the ones whose thread has not released them, and how many finders hold each.
pub record System : Type 0 where
  pub pending : Pending
  pub owned : ℕ → Bool
  pub finders : ℕ → ℕ

pub data Step (s : System) : System → Type 0 where
  -- The memory that `kzalloc` gives is not in use.
  init :
      (pe pid : ℕ)
      → (s.pending.entries pe).live ≡ false
      → Step s (record s {
        pending = (init_pending_entry (some pe) pid s.pending).1;
        owned = update s.owned pe true;
      })
  find :
      (pid pe : ℕ)
      → first_of_pid pid s.pending.entries s.pending.head ≡ some pe
      → Step s (record s {
        pending = get_entry pe s.pending;
        finders = update s.finders pe (s.finders pe + 1);
      })
  put :
      (pe : ℕ)
      → s.finders pe ≢ 0
      → Step s (record s {
        pending = put_pending_entry pe s.pending;
        finders = update s.finders pe (s.finders pe - 1);
      })
  release :
      (pe : ℕ)
      → s.owned pe ≡ true
      → Step s (record s {
        pending = release_pending_entry pe s.pending;
        owned = update s.owned pe false;
      })

pub data Reach (start : System) : System → Type 0 where
  here : Reach start start
  next : {s t : System} → Reach start s → Step s t → Reach start t

abbrev users : System → ℕ → ℕ
users s pe = (s.pending.entries pe).users

abbrev live : System → ℕ → Bool
live s pe = (s.pending.entries pe).live

-- Each user is counted, an entry lives as long as it has one, and the list holds those not released.
pub record Inv (s : System) : Type 0 where
  pub counted : (pe : ℕ) → users s pe ≡ s.finders pe + (if s.owned pe then 1 else 0)
  pub living : (pe : ℕ) → (live s pe ≡ true) ↔ (users s pe ≢ 0)
  pub listed : (pe : ℕ) → occurs pe s.pending.head ≡ (if s.owned pe then 1 else 0)

pub first_of_pid-occurs :
    (pid : ℕ) (entries : ℕ → PendingEntry) (head : List ℕ) (pe : ℕ)
    → first_of_pid pid entries head ≡ some pe
    → 0 < occurs pe head
unfolding first_of_pid occurs
first_of_pid-occurs pid entries [] pe e = ground arith
first_of_pid-occurs pid entries (k ∷ head) pe e =
    ground (arith, e, first_of_pid-occurs pid entries head pe)

Step-Inv : {s t : System} → Inv s → Step s t → Inv t
unfolding get_entry set_entry init_pending_entry put_pending_entry release_pending_entry
Step-Inv {s} v (init pe pid e) = record {
  counted = λ k. ground (arith, v.counted k, v.living k);
  living = λ k. ground (arith, v.living k);
  listed = λ k.
      ground (arith, v.listed k, v.counted k, v.living k, occurs-list_add_tail pe k s.pending.head);
}
Step-Inv {s} v (find pid pe e) = record {
  counted = λ k. ground (arith, v.counted k);
  living = λ k. ground (
    arith,
    v.living k,
    v.listed k,
    v.counted k,
    first_of_pid-occurs pid s.pending.entries s.pending.head pe e,
  );
  listed = v.listed;
}
Step-Inv {s} v (put pe e) = record {
  counted = λ k. ground (arith, v.counted k);
  living = λ k. ground (arith, v.living k);
  listed = λ k. ground (arith, v.listed k);
}
Step-Inv {s} v (release pe e) = record {
  counted = λ k. ground (arith, v.counted k);
  living = λ k. ground (arith, v.living k);
  listed = λ k. ground (arith, v.listed k, occurs-list_del pe k s.pending.head);
}

Reach-Inv : {start s : System} → Inv start → Reach start s → Inv s
Reach-Inv v here = v
Reach-Inv v (next r step) = Step-Inv (Reach-Inv v r) step

-- No thread waits.
pub record Idle (s : System) : Type 0 where
  pub no_users : (pe : ℕ) → (s.pending.entries pe).users ≡ 0
  pub no_live : (pe : ℕ) → (s.pending.entries pe).live ≡ false
  pub no_head : s.pending.head ≡ []
  pub no_owner : (pe : ℕ) → s.owned pe ≡ false
  pub no_finder : (pe : ℕ) → s.finders pe ≡ 0

Idle-Inv : {s : System} → Idle s → Inv s
unfolding occurs
Idle-Inv {s} e = record {
  counted = λ pe. ground (arith, e.no_users pe, e.no_owner pe, e.no_finder pe);
  living = λ pe. ground (arith, e.no_users pe, e.no_live pe);
  listed = λ pe. rw e.no_head (ground (arith, e.no_owner pe));
}

-- Whatever threads did from the idle state on, an entry's memory is in use exactly while its own
-- thread has not released it or some finder holds it, and every entry on the list is in use.
pub Reach-live :
    (start s : System) (pe : ℕ)
    → Idle start
    → Reach start s
    → (((s.pending.entries pe).live ≡ true) ↔ ((s.owned pe ≡ true) ⊎ (s.finders pe ≢ 0)))
      × (0 < occurs pe s.pending.head → (s.pending.entries pe).live ≡ true)
Reach-live start s pe idle r =
    let v = Reach-Inv (Idle-Inv idle) r in
    (
      ground (arith, v.counted pe, v.living pe),
      ground (arith, v.counted pe, v.living pe, v.listed pe),
    )
