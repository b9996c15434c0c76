-- ===== src/Smc/Send/Func/Slot.antt =====
-- `smp_smc_send_func` of core/smc_smp.c: who holds the slot when it returns.
use itrustee_tzdriver.Base.{
  ℕ, ◌≡◌, refl, subst, ◌⊎◌, inl, inr, Bool, true, false, Option, none, some, List, All,
  if◌then◌else◌, if_cases,
}
use itrustee_tzdriver.Smc.Cmd.{Cmd}
use itrustee_tzdriver.Smc.Slots.{Queue}
use itrustee_tzdriver.Smc.Pending.{Pending, init_pending_entry, release_pending_entry}
use itrustee_tzdriver.Smc.Send.Wait.{Ticks}
use itrustee_tzdriver.Smc.Send.Round.{World, Call, send_loop}
use itrustee_tzdriver.Smc.Send.Held.{Final, Again, Quiet}
use itrustee_tzdriver.Smc.Send.Held.Loop.{Fresh, FinalOption, send_loop-FinalOption}
use itrustee_tzdriver.Smc.Send.Func.{
  Caller, Result, zero_cmd, start_call, start_info, init_for_smc_send, send_func_end,
  smp_smc_send_func,
}

-- A command that is sent again holds the slot of its event.
abbrev pub HoldsEvent : Bool → Cmd → Queue → Type 0
HoldsEvent reuse input q = reuse ≡ true → q.in_bitmap input.event_nr ≡ true

-- What holds of the function's result.
abbrev FinalResult : ℕ → Result → Type 0
FinalResult i none = Unit
FinalResult i (some (ret, none, p)) = Unit
FinalResult i (some (ret, some c, p)) = Final i ret c

start_call-Ready :
    (i : ℕ) (reuse : Bool) (input cmd : Cmd) (q : Queue)
    → HoldsEvent reuse input q
    → Fresh (start_call reuse input cmd q) ⊎ Again i (start_call reuse input cmd q)
unfolding start_call start_info
start_call-Ready i true input cmd q h =
    inr (λ same. subst (λ k. q.in_bitmap k ≡ true) same (h refl), refl, inl (refl, refl))
start_call-Ready i false input cmd q h = inl (refl, refl)

abbrev HoldsSlot : Bool → Queue → Option (ℕ × Cmd × Cmd) → Type 0
HoldsSlot reuse q none = Unit
HoldsSlot reuse q (some (pe, input, cmd)) = HoldsEvent reuse input q

init_for_smc_send-HoldsSlot :
    (k : Caller) (reuse : Bool) (input : Cmd) (q : Queue) (p : Pending)
    → HoldsEvent reuse input q
    → HoldsSlot reuse q (init_for_smc_send k reuse input p).0
unfolding init_for_smc_send
init_for_smc_send-HoldsSlot k reuse input q p h = go k.alloc
  where
    go :
        (o : Option ℕ)
        → HoldsSlot reuse q
            (elim o as (λ x. Option (ℕ × Cmd × Cmd) × Pending) [
              | none ↦ (none, (init_pending_entry k.alloc k.pid p).1)
              | some pe ↦
                  if reuse
                  then (
                    some (pe, record input { ca_pid = k.pid }, zero_cmd),
                    (init_pending_entry k.alloc k.pid p).1,
                  )
                  else if k.copy_fails
                  then (none, release_pending_entry pe (init_pending_entry k.alloc k.pid p).1)
                  else (
                    some (pe, record input { ca_pid = k.pid }, record input { ca_pid = k.pid }),
                    (init_pending_entry k.alloc k.pid p).1,
                  )
            ]).0
    go none = tt
    go (some pe) =
        if_cases (λ (r : Option (ℕ × Cmd × Cmd) × Pending). HoldsSlot reuse q r.0) reuse h
          (if_cases (λ (r : Option (ℕ × Cmd × Cmd) × Pending). HoldsSlot reuse q r.0) k.copy_fails
            tt h)

send_func_end-FinalResult :
    (i : ℕ) (t : Ticks) (k : Caller) (worlds : List World) (reuse : Bool) (q : Queue)
    (r : Option (ℕ × Cmd × Cmd) × Pending)
    → All (Quiet i) worlds
    → HoldsSlot reuse q r.0
    → FinalResult i (send_func_end t k worlds reuse q r)
unfolding send_func_end
send_func_end-FinalResult i t k worlds reuse q (none, p) v h = tt
send_func_end-FinalResult i t k worlds reuse q (some (pe, input, cmd), p) v h =
    go (send_loop k.pid t worlds (start_call reuse input cmd q)) (
      send_loop-FinalOption i k.pid t worlds (start_call reuse input cmd q) v
        (start_call-Ready i reuse input cmd q h))
  where
    go :
        (r : Option (ℕ × Call))
        → FinalOption i r
        → FinalResult i (elim r [
          | none ↦ none
          | some (ret, c) ↦ some (ret, some c, release_pending_entry pe (k.others p))
        ])
    go none f = tt
    go (some (ret, c)) f = f

-- When what the others do in each turn leaves slot `i` in use, and a command that is sent again holds
-- the slot of its event, then a command that used slot `i` keeps it when the function returns
-- `TEEC_PENDING`, and has given it back when it returns an answer other than that, `TEEC_ERROR_GENERIC`
-- and -1.
pub smp_smc_send_func-Final :
    (i : ℕ) (t : Ticks) (k : Caller) (worlds : List World) (reuse : Bool) (input : Cmd) (q : Queue)
    (p : Pending) (ret : ℕ) (c : Call) (p' : Pending)
    → All (Quiet i) worlds
    → HoldsEvent reuse input q
    → smp_smc_send_func t k worlds reuse input q p ≡ some (ret, some c, p')
    → Final i ret c
unfolding smp_smc_send_func
smp_smc_send_func-Final i t k worlds reuse input q p ret c p' v h e = subst (FinalResult i) e (
    send_func_end-FinalResult i t k worlds reuse q (init_for_smc_send k reuse input p) v
      (init_for_smc_send-HoldsSlot k reuse input q p h))
