-- ===== src/Smc/Pending/Tests.antt =====
-- Two threads that wait for the TEE.
use itrustee_tzdriver.Base.{
  ℕ, Option, ◌+◌, ◌<◌, ◌≡◌, ◌≢◌, ◌↔◌, ◌⊎◌, refl, true, false, some, [], ◌∷◌, arith, ◌==◌,
  if◌then◌else◌,
}
use itrustee_tzdriver.Base.Nodes.{occurs}
use itrustee_tzdriver.Smc.Pending.{Pending, init_pending_entry, first_of_pid, proc_smc_wakeup_ca}
use itrustee_tzdriver.Smc.Pending.Counts.{System, here, next, init, Reach-live}
use itrustee_tzdriver.Smc.Pending.Wakeup.{IsFirst, Woken, proc_smc_wakeup_ca-Woken}

abbrev start : System
start = record {
  pending = record {
    entries = λ pe. record { users = 0; pid = 0; run = 0; live = false };
    head = [];
  };
  owned = λ pe. false;
  finders = λ pe. 0;
}

abbrev one_waiting : System
one_waiting = record {
  pending = (init_pending_entry (some 9) 42 start.pending).1;
  owned = λ pe. if 9 == pe then true else false;
  finders = λ pe. 0;
}

Reach-live_example :
    (((one_waiting.pending.entries 9).live ≡ true)
      ↔ ((one_waiting.owned 9 ≡ true) ⊎ (one_waiting.finders 9 ≢ 0)))
    × (0 < occurs 9 one_waiting.pending.head → (one_waiting.pending.entries 9).live ≡ true)
Reach-live_example =
    Reach-live start one_waiting 9
      (record {
        no_users = λ pe. refl;
        no_live = λ pe. refl;
        no_head = refl;
        no_owner = λ pe. refl;
        no_finder = λ pe. refl;
      })
      (next here (init 9 42 refl))

abbrev two_waiting : Pending
two_waiting = record {
  entries = λ pe. record { users = 1; pid = pe + 10; run = 0; live = true };
  head = 1 ∷ 2 ∷ [];
}

proc_smc_wakeup_ca-Woken_example :
    (r : Option ℕ) × IsFirst 12 two_waiting.entries two_waiting.head r
    × Woken two_waiting 12 1 r (proc_smc_wakeup_ca 12 1 two_waiting)
proc_smc_wakeup_ca-Woken_example = proc_smc_wakeup_ca-Woken 12 1 two_waiting (λ pe on. omega arith)

second_found : first_of_pid 12 two_waiting.entries two_waiting.head ≡ some 2
unfolding first_of_pid
second_found = refl
