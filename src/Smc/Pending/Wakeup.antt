-- ===== src/Smc/Pending/Wakeup.antt =====
-- `proc_smc_wakeup_ca` of core/smc_smp.c: it takes a user of the entry and gives it back.
use itrustee_tzdriver.Base.{
  ℕ, ◌<◌, ◌≡◌, refl, ap, ◌≢◌, ◌↔◌, Bool, true, false, Option, none, some, List, [], ◌∷◌, ◌++◌, All,
  arith, ◌==◌, if◌then◌else◌, if_cases_of,
}
use itrustee_tzdriver.Base.Nodes.{occurs}
use itrustee_tzdriver.Smc.Pending.{
  PendingEntry, Pending, set_entry, get_entry, first_of_pid, put_pending_entry, proc_smc_wakeup_ca,
}
use itrustee_tzdriver.Smc.Pending.Counts.{first_of_pid-occurs}

-- Nothing but one entry's `run` changed, if anything.
abbrev pub SameUsers : Pending → Pending → Type 0
SameUsers s s' =
    (s'.head ≡ s.head)
    × ((k : ℕ)
        → ((s'.entries k).users ≡ (s.entries k).users)
          × ((s'.entries k).pid ≡ (s.entries k).pid)
          × ((s'.entries k).live ≡ (s.entries k).live))

-- The first entry of the list that is of the thread, or there is none.
abbrev pub IsFirst : ℕ → (ℕ → PendingEntry) → List ℕ → Option ℕ → Type 0
IsFirst ca entries head none = All (λ k. (entries k).pid ≢ ca) head
IsFirst ca entries head (some pe) =
    (before : List ℕ) × (after : List ℕ) × (head ≡ before ++ pe ∷ after)
    × ((entries pe).pid ≡ ca)
    × All (λ k. (entries k).pid ≢ ca) before

IsFirst-later :
    (ca : ℕ) (entries : ℕ → PendingEntry) (k : ℕ) (head : List ℕ) (r : Option ℕ)
    → (entries k).pid ≢ ca
    → IsFirst ca entries head r
    → IsFirst ca entries (k ∷ head) r
IsFirst-later ca entries k head none ne h = (ne, h)
IsFirst-later ca entries k head (some pe) ne (before, after, e, p, a) =
    (k ∷ before, after, ap (λ l. k ∷ l) e, p, (ne, a))

first_of_pid-IsFirst :
    (ca : ℕ) (entries : ℕ → PendingEntry) (head : List ℕ)
    → IsFirst ca entries head (first_of_pid ca entries head)
unfolding first_of_pid
first_of_pid-IsFirst ca entries [] = tt
first_of_pid-IsFirst ca entries (k ∷ head) =
    if_cases_of (IsFirst ca entries (k ∷ head)) ((entries k).pid == ca)
      (λ e. ([], head, refl, ground (arith, e), tt))
      (λ e.
        IsFirst-later ca entries k head (first_of_pid ca entries head) (ground (arith, e))
          (first_of_pid-IsFirst ca entries head))

-- The outcome for a CA, by the first entry of its thread.
abbrev pub Woken : Pending → ℕ → ℕ → Option ℕ → Bool × Pending → Type 0
Woken s ca which none (ok, s') =
    SameUsers s s' × ((ok ≡ true) ↔ (ca ≡ 0)) × ((k : ℕ) → (s'.entries k).run ≡ (s.entries k).run)
Woken s ca which (some pe) (ok, s') =
    (SameUsers s s')
    × (ok ≡ true)
    × ((s'.entries pe).run ≡ (if ca == 0 then (s.entries pe).run else which))
    × ((k : ℕ) → k ≢ pe → (s'.entries k).run ≡ (s.entries k).run)

Woken-entry :
    (ca which pe : ℕ) (s : Pending)
    → (s.entries pe).users ≢ 0
    → ca ≢ 0
    → Woken s ca which (some pe) (
      true,
      put_pending_entry pe
          (set_entry pe (record ((get_entry pe s).entries pe) { run = which }) (get_entry pe s)),
    )
unfolding put_pending_entry set_entry get_entry
Woken-entry ca which pe s used ne =
    ((ground arith, λ k. ground arith), refl, ground arith, λ k other. ground arith)

-- When the entries on the list have users, waking a CA sets `run` of the first entry of the list that
-- is of its thread, and of no other, or reports that the list has none; no entry's users change and
-- none is freed. A CA that is not positive is left alone.
pub proc_smc_wakeup_ca-Woken :
    (ca which : ℕ) (s : Pending)
    → ((pe : ℕ) → 0 < occurs pe s.head → (s.entries pe).users ≢ 0)
    → (r : Option ℕ) × IsFirst ca s.entries s.head r
      × Woken s ca which r (proc_smc_wakeup_ca ca which s)
unfolding proc_smc_wakeup_ca
proc_smc_wakeup_ca-Woken ca which s used = (
  first_of_pid ca s.entries s.head,
  first_of_pid-IsFirst ca s.entries s.head,
  go (first_of_pid ca s.entries s.head) refl,
)
  where
    wake : Option ℕ → Bool × Pending
    wake r = elim r [
      | none ↦ (false, s)
      | some pe ↦ (
        true,
        put_pending_entry pe
            (set_entry pe (record ((get_entry pe s).entries pe) { run = which }) (get_entry pe s)),
      )
    ]

    go :
        (r : Option ℕ)
        → first_of_pid ca s.entries s.head ≡ r
        → Woken s ca which r (if ca == 0 then (true, s) else wake r)
    go none e =
        if_cases_of (Woken s ca which none) (ca == 0)
          (λ z. ((refl, λ k. (refl, refl, refl)), ground (arith, z), λ k. refl))
          (λ z. ((refl, λ k. (refl, refl, refl)), ground (arith, z), λ k. refl))
    go (some pe) e =
        if_cases_of (Woken s ca which (some pe)) (ca == 0)
          (λ z. ((refl, λ k. (refl, refl, refl)), refl, ground (arith, z), λ k _. refl))
          (λ z.
            Woken-entry ca which pe s (used pe (first_of_pid-occurs ca s.entries s.head pe e))
              (ground (arith, z)))
