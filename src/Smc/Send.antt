-- ===== src/Smc/Send.antt =====
-- core/smc_smp.c: one call into the TEE, which goes on as long as the TEE is preempted.
pub mod Wait
pub mod Round
pub mod Held
pub mod Func
pub mod Resume
mod Tests
use itrustee_tzdriver.Base.{
  ℕ, Bool, true, false, ◌&&◌, ◌||◌, Option, none, some, List, [], ◌∷◌, ◌==◌, if◌then◌else◌,
}

-- `enum smc_ops_exit`, without its prefix.
abbrev pub ops_normal : ℕ
ops_normal = 0

abbrev pub ops_schedto : ℕ
ops_schedto = 1

abbrev pub ops_start_fiqshd : ℕ
ops_start_fiqshd = 3

abbrev pub ops_abort_task : ℕ
ops_abort_task = 5

abbrev pub exit_normal : ℕ
exit_normal = 0

abbrev pub exit_preempted : ℕ
exit_preempted = 1

abbrev pub exit_abort : ℕ
exit_abort = 3

abbrev pub tsp_request : ℕ
tsp_request = 0xB2000008

abbrev pub tsp_crash : ℕ
tsp_crash = 0xB200000B

pub record SmcInParams : Type 0 where
  pub x0 : ℕ
  pub x1 : ℕ
  pub x2 : ℕ
  pub x3 : ℕ
  pub x4 : ℕ

pub record SmcOutParams : Type 0 where
  pub ret : ℕ
  pub exit_reason : ℕ
  pub ta : ℕ
  pub target : ℕ

pub record SmcCmdRet : Type 0 where
  pub exit : ℕ
  pub ta : ℕ
  pub target : ℕ

-- What `sigkill_pending` reads of a thread: the signals SIGKILL and SIGUSR1 of its own, and SIGKILL
-- of the group, which is `none` where `signal` is NULL.
pub record Signals : Type 0 where
  pub sigkill : Bool
  pub sigusr1 : Bool
  pub shared_sigkill : Option Bool

-- `none` is a NULL thread.
unfoldable pub sigkill_pending : Option Signals → Bool
sigkill_pending none = false
sigkill_pending (some tsk) = elim tsk.shared_sigkill [
  | none ↦ tsk.sigkill || tsk.sigusr1
  | some shared ↦ (tsk.sigkill || tsk.sigusr1) || shared
]

-- One `smc` instruction: what the TEE answers, the signals of the thread then, and whether
-- `is_thread_reported` holds of it.
pub record Answer : Type 0 where
  pub out : SmcOutParams
  pub signals : Signals
  pub reported : Bool

unfoldable pub is_ready_to_kill : Bool → Answer → Bool
is_ready_to_kill need_kill a = need_kill && (sigkill_pending (some a.signals) && a.reported)

unfoldable pub set_smc_send_arg : SmcInParams → SmcCmdRet → ℕ → SmcInParams
set_smc_send_arg in_param secret ops =
    let resumed =
      if secret.exit == exit_preempted
      then record in_param { x1 = ops_schedto; x3 = secret.ta; x4 = secret.target }
      else in_param in
    if ops == ops_schedto || ops == ops_start_fiqshd
    then record resumed { x4 = secret.target }
    else resumed

abbrev pub secret_of : SmcOutParams → SmcCmdRet
secret_of out = record { exit = out.exit_reason; ta = out.ta; target = out.target }

-- What the CPU hands over, in order, and the function's result with `secret`, if it returns.
abbrev pub Sent : Type 0
Sent = List SmcInParams × Option (ℕ × SmcCmdRet)

-- The loop from `retry` on. The list holds the answers that the TEE will give; after them it has not
-- answered yet.
unfoldable pub send_retry : ℕ → Bool → SmcInParams → SmcCmdRet → List Answer → Sent
send_retry ops need_kill in_param secret [] = (set_smc_send_arg in_param secret ops ∷ [], none)
send_retry ops need_kill in_param secret (a ∷ later) =
    let args = set_smc_send_arg in_param secret ops in
    let rest = send_retry ops need_kill args (secret_of a.out) later in
    if a.out.exit_reason == exit_preempted
    then (if is_ready_to_kill need_kill a
        then (args ∷ [], some (a.out.ret, record (secret_of a.out) { exit = exit_abort }))
        else (args ∷ rest.0, rest.1))
    else (args ∷ [], some (a.out.ret, secret_of a.out))

unfoldable pub smp_smc_send : ℕ → ℕ → ℕ → SmcCmdRet → Bool → List Answer → Sent
smp_smc_send cmd ops ca secret need_kill answers =
    send_retry ops need_kill (record { x0 = cmd; x1 = ops; x2 = ca; x3 = 0; x4 = 0 }) secret answers
