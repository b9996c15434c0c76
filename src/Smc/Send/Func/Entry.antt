-- ===== src/Smc/Send/Func/Entry.antt =====
-- `smp_smc_send_func` of core/smc_smp.c: the entry that its thread waits in.
use itrustee_tzdriver.Base.{
  ℕ, ◌-◌, ◌≡◌, refl, sym, subst, Bool, Option, none, some, List, arith, if_cases,
}
use itrustee_tzdriver.Base.Nodes.{occurs, list_add_tail, occurs-list_add_tail, occurs-list_del}
use itrustee_tzdriver.Smc.Cmd.{Cmd}
use itrustee_tzdriver.Smc.Slots.{Queue}
use itrustee_tzdriver.Smc.Pending.{
  Pending, set_entry, init_pending_entry, put_pending_entry, release_pending_entry,
}
use itrustee_tzdriver.Smc.Send.Wait.{Ticks}
use itrustee_tzdriver.Smc.Send.Round.{World, Call, send_loop}
use itrustee_tzdriver.Smc.Send.Func.{
  Caller, Result, start_call, init_for_smc_send, send_func_end, smp_smc_send_func,
}

-- The entry `pe` is on the list at most `n` times when the function has returned.
abbrev Listed : ℕ → ℕ → Result → Type 0
Listed pe n none = Unit
Listed pe n (some (ret, c, p)) = occurs pe p.head ≡ n

-- What `init_for_smc_send` leaves: the entry on the list once, or an error.
abbrev Entered : ℕ → Option (ℕ × Cmd × Cmd) × Pending → Type 0
Entered pe (none, p) = occurs pe p.head ≡ 0
Entered pe (some (pe', input, cmd), p) = (pe' ≡ pe) × (occurs pe p.head ≡ 1)

occurs-release_pending_entry :
    (pe : ℕ) (p : Pending) → occurs pe (release_pending_entry pe p).head ≡ occurs pe p.head - 1
unfolding release_pending_entry put_pending_entry set_entry
occurs-release_pending_entry pe p = ground (arith, occurs-list_del pe pe p.head)

init_for_smc_send-Entered :
    (pe : ℕ) (k : Caller) (reuse : Bool) (input : Cmd) (p : Pending)
    → k.alloc ≡ some pe
    → occurs pe p.head ≡ 0
    → Entered pe (init_for_smc_send k reuse input p)
unfolding init_for_smc_send init_pending_entry
init_for_smc_send-Entered pe k reuse input p e z = rw e (
    if_cases (Entered pe) reuse (refl, once)
      (if_cases (Entered pe) k.copy_fails
        (ground
          (arith, once, occurs-release_pending_entry pe (init_pending_entry (some pe) k.pid p).1))
        (refl, once)))
  where
    once : occurs pe (list_add_tail pe p.head) ≡ 1
    once = ground (arith, occurs-list_add_tail pe pe p.head, z)

send_func_end-Listed :
    (pe : ℕ) (t : Ticks) (k : Caller) (worlds : List World) (reuse : Bool) (q : Queue)
    (r : Option (ℕ × Cmd × Cmd) × Pending)
    → ((p : Pending) → occurs pe (k.others p).head ≡ occurs pe p.head)
    → Entered pe r
    → Listed pe 0 (send_func_end t k worlds reuse q r)
unfolding send_func_end
send_func_end-Listed pe t k worlds reuse q (none, p) o h = h
send_func_end-Listed pe t k worlds reuse q (some (pe', input, cmd), p) o (same, h) =
    go (send_loop k.pid t worlds (start_call reuse input cmd q))
  where
    go :
        (r : Option (ℕ × Call))
        → Listed pe 0 (elim r [
          | none ↦ none
          | some (ret, c) ↦ some (ret, some c, release_pending_entry pe' (k.others p))
        ])
    go none = tt
    go (some (ret, c)) =
        subst (λ x. occurs pe (release_pending_entry x (k.others p)).head ≡ 0) (sym same)
          (omega (arith, occurs-release_pending_entry pe (k.others p), o p, h))

-- When the address that `kzalloc` gives is of no entry on the list, and other threads neither add it
-- nor take it off, the entry is off the list however the function returns.
pub smp_smc_send_func-occurs :
    (pe : ℕ) (t : Ticks) (k : Caller) (worlds : List World) (reuse : Bool) (input : Cmd) (q : Queue)
    (p : Pending) (ret : ℕ) (c : Option Call) (p' : Pending)
    → k.alloc ≡ some pe
    → occurs pe p.head ≡ 0
    → ((p0 : Pending) → occurs pe (k.others p0).head ≡ occurs pe p0.head)
    → smp_smc_send_func t k worlds reuse input q p ≡ some (ret, c, p')
    → occurs pe p'.head ≡ 0
unfolding smp_smc_send_func
smp_smc_send_func-occurs pe t k worlds reuse input q p ret c p' e z o r = subst (Listed pe 0) r (
    send_func_end-Listed pe t k worlds reuse q (init_for_smc_send k reuse input p) o
      (init_for_smc_send-Entered pe k reuse input p e z))
