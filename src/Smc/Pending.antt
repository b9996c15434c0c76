-- ===== src/Smc/Pending.antt =====
-- core/smc_smp.c: the entries of the threads that wait for the TEE, and their counts of users. An entry
-- is named by a number, its address; `entries` is the memory, `head` the list `g_pending_head`.
pub mod Counts
pub mod Wakeup
pub mod Broadcast
mod Tests
use itrustee_tzdriver.Base.{
  ℕ, ◌+◌, ◌-◌, Bool, true, false, Option, none, some, List, [], ◌∷◌, ◌==◌, if◌then◌else◌,
}
use itrustee_tzdriver.Base.Update.{update}
use itrustee_tzdriver.Base.Nodes.{list_add_tail, list_del}

-- `pid` is that of `task`; `live` says that the memory is not freed.
pub record PendingEntry : Type 0 where
  pub users : ℕ
  pub pid : ℕ
  pub run : ℕ
  pub live : Bool

pub record Pending : Type 0 where
  pub entries : ℕ → PendingEntry
  pub head : List ℕ

unfoldable pub set_entry : ℕ → PendingEntry → Pending → Pending
set_entry pe e s = record s { entries = update s.entries pe e }

-- `alloc` is the address that `kzalloc` gives, if it gives one; `pid` that of the current thread.
unfoldable pub init_pending_entry : Option ℕ → ℕ → Pending → Option ℕ × Pending
init_pending_entry none pid s = (none, s)
init_pending_entry (some pe) pid s = (
  some pe,
  record {
    entries = update s.entries pe (record { users = 1; pid = pid; run = 0; live = true });
    head = list_add_tail pe s.head;
  },
)

-- The loop of `find_pending_entry`.
pub first_of_pid : ℕ → (ℕ → PendingEntry) → List ℕ → Option ℕ
first_of_pid pid entries [] = none
first_of_pid pid entries (pe ∷ head) =
    let later = first_of_pid pid entries head in if (entries pe).pid == pid then some pe else later

-- `atomic_inc` of the users.
pub get_entry : ℕ → Pending → Pending
get_entry pe s = set_entry pe (record (s.entries pe) { users = (s.entries pe).users + 1 }) s

pub find_pending_entry : ℕ → Pending → Option ℕ × Pending
unfolding get_entry
find_pending_entry pid s = elim (first_of_pid pid s.entries s.head) [
  | none ↦ (none, s)
  | some pe ↦ (some pe, get_entry pe s)
]

-- The last user frees the entry.
unfoldable pub put_pending_entry : ℕ → Pending → Pending
unfolding set_entry
put_pending_entry pe s =
    let e = record (s.entries pe) { users = (s.entries pe).users - 1 } in
    if e.users == 0 then set_entry pe (record e { live = false }) s else set_entry pe e s

unfoldable pub release_pending_entry : ℕ → Pending → Pending
unfolding put_pending_entry
release_pending_entry pe s = put_pending_entry pe (record s { head = list_del pe s.head })

-- `proc_smc_wakeup_ca`; a `ca` that is not positive is 0, and `false` is -1.
pub proc_smc_wakeup_ca : ℕ → ℕ → Pending → Bool × Pending
unfolding find_pending_entry put_pending_entry set_entry
proc_smc_wakeup_ca ca which s =
    if ca == 0 then (true, s) else elim (first_of_pid ca s.entries s.head) [
      | none ↦ (false, s)
      | some pe ↦
          let found = get_entry pe s in
          (
            true,
            put_pending_entry pe (set_entry pe (record (found.entries pe) { run = which }) found),
          )
    ]

-- `smc_wakeup_ca` and `smc_shadow_exit`.
unfoldable pub smc_wakeup_ca : ℕ → Pending → Bool × Pending
smc_wakeup_ca ca s = proc_smc_wakeup_ca ca 1 s

abbrev pub shadow_exit_run : ℕ
shadow_exit_run = 0x1234dead

unfoldable pub smc_shadow_exit : ℕ → Pending → Bool × Pending
smc_shadow_exit ca s = proc_smc_wakeup_ca ca shadow_exit_run s

-- For the address of an entry.
unfoldable pub wakeup_pe : ℕ → Pending → Pending
wakeup_pe pe s = set_entry pe (record (s.entries pe) { run = 1 }) s

-- The loop of `foreach_pending_entry`.
pub for_each : (ℕ → Pending → Pending) → List ℕ → Pending → Pending
for_each func [] s = s
for_each func (pe ∷ head) s = for_each func head (func pe s)

-- `func` does not change the list.
unfoldable pub foreach_pending_entry : (ℕ → Pending → Pending) → Pending → Pending
foreach_pending_entry func s = for_each func s.head s

unfoldable pub smc_wakeup_broadcast : Pending → Pending
smc_wakeup_broadcast s = foreach_pending_entry wakeup_pe s
