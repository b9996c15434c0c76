-- ===== src/Smc/Pending/Broadcast.antt =====
-- `smc_wakeup_broadcast` of core/smc_smp.c and the loop that it gives `wakeup_pe` to.
use itrustee_tzdriver.Base.{ℕ, ◌≡◌, refl, List, [], ◌∷◌, arith, ◌==◌, if◌then◌else◌}
use itrustee_tzdriver.Base.Nodes.{occurs}
use itrustee_tzdriver.Smc.Pending.{
  Pending, set_entry, wakeup_pe, for_each, foreach_pending_entry, smc_wakeup_broadcast,
}
use itrustee_tzdriver.Smc.Pending.Wakeup.{SameUsers}

for_each-run :
    (l : List ℕ) (s : Pending) (k : ℕ)
    → ((for_each wakeup_pe l s).entries k).run ≡ (if occurs k l == 0 then (s.entries k).run else 1)
unfolding for_each wakeup_pe set_entry occurs
for_each-run [] s k = ground arith
for_each-run (pe ∷ l) s k = ground (arith, for_each-run l (wakeup_pe pe s) k)

for_each-SameUsers : (l : List ℕ) (s : Pending) → SameUsers s (for_each wakeup_pe l s)
unfolding for_each wakeup_pe set_entry
for_each-SameUsers [] s = (refl, λ k. (refl, refl, refl))
for_each-SameUsers (pe ∷ l) s =
    let (head, kept) = for_each-SameUsers l (wakeup_pe pe s) in
    (
      head,
      λ k.
          let (users, pid, live) = kept k in
          (ground (arith, users), ground (arith, pid), ground (arith, live)),
    )

-- Waking everyone sets `run` of the entries on the list to 1 and of no other, and changes nothing else.
pub smc_wakeup_broadcast-run :
    (s : Pending)
    → SameUsers s (smc_wakeup_broadcast s)
      × ((k : ℕ)
          → ((smc_wakeup_broadcast s).entries k).run
            ≡ (if occurs k s.head == 0 then (s.entries k).run else 1))
unfolding smc_wakeup_broadcast foreach_pending_entry
smc_wakeup_broadcast-run s = (for_each-SameUsers s.head s, for_each-run s.head s)
