-- ===== src/Smc/Send/Resume.antt =====
-- `smp_smc_send` of core/smc_smp.c: what it hands to the TEE after each preemption, and when it ends.
use itrustee_tzdriver.Base.{
  ℕ, ◌≡◌, ◌≢◌, refl, sym, ap, ◌∙◌, Bool-cases, inl, inr, Bool, true, false, ◌||◌, Option, none,
  some, List, [], ◌∷◌, map, ◌==◌, if◌then◌else◌, arith, if_cases,
}
use mathlib.Core.Option
use itrustee_tzdriver.Smc.Send.{
  SmcInParams, SmcCmdRet, Answer, Sent, secret_of, ops_schedto, ops_start_fiqshd, exit_preempted,
  exit_abort, is_ready_to_kill, set_smc_send_arg, send_retry, smp_smc_send,
}

-- The answer ends the loop: it is no preemption, or the thread is to be killed.
unfoldable pub stops : Bool → Answer → Bool
stops need_kill a =
    if a.out.exit_reason == exit_preempted then is_ready_to_kill need_kill a else true

-- The preemptions before the answer that ends the loop, and that answer.
unfoldable pub preemptions : Bool → List Answer → List Answer
preemptions need_kill [] = []
preemptions need_kill (a ∷ later) =
    let rest = preemptions need_kill later in if stops need_kill a then [] else a ∷ rest

unfoldable pub last_answer : Bool → List Answer → Option Answer
last_answer need_kill [] = none
last_answer need_kill (a ∷ later) =
    let rest = last_answer need_kill later in if stops need_kill a then some a else rest

-- The scheduling of a task that was preempted with answer `a`.
abbrev pub resumed : ℕ → ℕ → Answer → SmcInParams
resumed cmd ca a = record { x0 = cmd; x1 = ops_schedto; x2 = ca; x3 = a.out.ta; x4 = a.out.target }

-- What the function gives for the answer that ends the loop; a preemption counts as an abort.
abbrev pub result_of : Answer → ℕ × SmcCmdRet
result_of a = (
  a.out.ret,
  if a.out.exit_reason == exit_preempted
      then record (secret_of a.out) { exit = exit_abort }
      else secret_of a.out,
)

set_smc_send_arg-x0 :
    (p : SmcInParams) (secret : SmcCmdRet) (ops : ℕ)
    → ((set_smc_send_arg p secret ops).x0 ≡ p.x0) × ((set_smc_send_arg p secret ops).x2 ≡ p.x2)
unfolding set_smc_send_arg
set_smc_send_arg-x0 p secret ops =
    if_cases
      (λ (r : SmcInParams).
        let s =
          if ops == ops_schedto || ops == ops_start_fiqshd
          then record r { x4 = secret.target }
          else r in
        (s.x0 ≡ p.x0) × (s.x2 ≡ p.x2))
      (secret.exit == exit_preempted)
      (if_cases (λ (s : SmcInParams). (s.x0 ≡ p.x0) × (s.x2 ≡ p.x2))
        (ops == ops_schedto || ops == ops_start_fiqshd) (refl, refl) (refl, refl))
      (if_cases (λ (s : SmcInParams). (s.x0 ≡ p.x0) × (s.x2 ≡ p.x2))
        (ops == ops_schedto || ops == ops_start_fiqshd) (refl, refl) (refl, refl))

set_smc_send_arg_preempted :
    (p : SmcInParams) (a : Answer) (ops : ℕ)
    → (a.out.exit_reason == exit_preempted) ≡ true
    → set_smc_send_arg p (secret_of a.out) ops ≡ resumed p.x0 p.x2 a
unfolding set_smc_send_arg
set_smc_send_arg_preempted p a ops t = rw t (
    if_cases (λ (s : SmcInParams). s ≡ resumed p.x0 p.x2 a)
      (ops == ops_schedto || ops == ops_start_fiqshd) refl refl)

-- All that the loop does, from parameters and `secret` on.
abbrev AllSent : ℕ → Bool → SmcInParams → SmcCmdRet → List Answer → Sent
AllSent ops need_kill p secret answers = (
  set_smc_send_arg p secret ops ∷ map (resumed p.x0 p.x2) (preemptions need_kill answers),
  Option.map result_of (last_answer need_kill answers),
)

send_retry-all :
    (ops : ℕ) (need_kill : Bool) (p : SmcInParams) (secret : SmcCmdRet) (answers : List Answer)
    → send_retry ops need_kill p secret answers ≡ AllSent ops need_kill p secret answers
unfolding send_retry preemptions last_answer stops
send_retry-all ops need_kill p secret [] = refl
send_retry-all ops need_kill p secret (a ∷ later) =
    elim (Bool-cases (a.out.exit_reason == exit_preempted)) [
      | inr t ↦ rw t (ap (λ r. (set_smc_send_arg p secret ops ∷ [], some r)) (sym (other t)))
      | inl t ↦ elim (Bool-cases (is_ready_to_kill need_kill a)) [
        | inl s ↦
            rw (t, s) (ap (λ r. (set_smc_send_arg p secret ops ∷ [], some r)) (sym (preempted t)))
        | inr s ↦
            rw (t, s)
              (ap (λ (r : Sent). (set_smc_send_arg p secret ops ∷ r.0, r.1))
                (send_retry-all ops need_kill (set_smc_send_arg p secret ops) (secret_of a.out)
                    later
                  ∙ same t))
      ]
    ]
  where
    args : SmcInParams
    args = set_smc_send_arg p secret ops

    same :
        (a.out.exit_reason == exit_preempted) ≡ true
        → AllSent ops need_kill args (secret_of a.out) later ≡ (
          resumed p.x0 p.x2 a ∷ map (resumed p.x0 p.x2) (preemptions need_kill later),
          Option.map result_of (last_answer need_kill later),
        )
    same t =
        let (x0, x2) = set_smc_send_arg-x0 p secret ops in
        rw (set_smc_send_arg_preempted args a ops t, x0, x2) refl

    preempted :
        (a.out.exit_reason == exit_preempted) ≡ true
        → result_of a ≡ (a.out.ret, record (secret_of a.out) { exit = exit_abort })
    preempted t = rw t refl

    other :
        (a.out.exit_reason == exit_preempted) ≡ false → result_of a ≡ (a.out.ret, secret_of a.out)
    other t = rw t refl

-- What is handed to the TEE first, when the call before did not end preempted.
abbrev pub first_params : ℕ → ℕ → ℕ → SmcCmdRet → SmcInParams
first_params cmd ops ca secret = record {
  x0 = cmd;
  x1 = ops;
  x2 = ca;
  x3 = 0;
  x4 = if ops == ops_schedto || ops == ops_start_fiqshd then secret.target else 0;
}

set_smc_send_arg-first_params :
    (cmd ops ca : ℕ) (secret : SmcCmdRet)
    → secret.exit ≢ exit_preempted
    → set_smc_send_arg (record { x0 = cmd; x1 = ops; x2 = ca; x3 = 0; x4 = 0 }) secret ops
      ≡ first_params cmd ops ca secret
unfolding set_smc_send_arg
set_smc_send_arg-first_params cmd ops ca secret ne =
    elim (Bool-cases (ops == ops_schedto || ops == ops_start_fiqshd)) [
      | inl t ↦ rw (fresh, t) refl
      | inr t ↦ rw (fresh, t) refl
    ]
  where
    fresh : (secret.exit == exit_preempted) ≡ false
    fresh = ground (arith, ne)

-- When the call before did not end preempted, the TEE gets the command, and after each preemption
-- the scheduling of the task and the target that the TEE named with it; the first answer that is no
-- preemption, or at which the thread is to be killed, ends the call and is its result, a preemption
-- as an abort, and without such an answer the call has not ended.
pub smp_smc_send-Resumed :
    (cmd ops ca : ℕ) (secret : SmcCmdRet) (need_kill : Bool) (answers : List Answer)
    → secret.exit ≢ exit_preempted
    → smp_smc_send cmd ops ca secret need_kill answers ≡ (
      first_params cmd ops ca secret ∷ map (resumed cmd ca) (preemptions need_kill answers),
      Option.map result_of (last_answer need_kill answers),
    )
unfolding smp_smc_send
smp_smc_send-Resumed cmd ops ca secret need_kill answers ne =
    send_retry-all ops need_kill (record { x0 = cmd; x1 = ops; x2 = ca; x3 = 0; x4 = 0 }) secret
      answers
    ∙ ap
        (λ p. (
          p ∷ map (resumed cmd ca) (preemptions need_kill answers),
          Option.map result_of (last_answer need_kill answers),
        ))
        (set_smc_send_arg-first_params cmd ops ca secret ne)
