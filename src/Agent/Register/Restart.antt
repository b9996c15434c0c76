-- ===== src/Agent/Register/Restart.antt =====
-- core/agent.c: an agent that crashes and registers again while a CA waits for it.
use itrustee_tzdriver.Base.{
  ℕ, ◌≡◌, refl, ap, sym, subst, ◌∙◌, Bool, false, ◌&&◌, ◌||◌, not, Option, none, some, List, [],
  ◌∷◌, All, ◌==◌, if◌then◌else◌, arith, if_cases, if_cases_of,
}
use itrustee_tzdriver.Agent.{
  crashed, SmcEventData, Agents, set_event, get_agent_event, put_agent_event, first_event,
  process_send_event_response, crash_event, send_event_response,
}
use itrustee_tzdriver.Agent.Work.{Wait, wait_agent_response, is_crashed}
use itrustee_tzdriver.Agent.Register.{init_restart_agent_node, reuse_agent_node}

-- The search looks at the numbers of the agents only.
first_event-same :
    (agent_id : ℕ) (f g : ℕ → SmcEventData) (events : List ℕ)
    → ((k : ℕ) → (g k).agent_id ≡ (f k).agent_id)
    → first_event agent_id g events ≡ first_event agent_id f events
unfolding first_event
first_event-same agent_id f g [] same = refl
first_event-same agent_id f g (e ∷ later) same =
    rw (same e, first_event-same agent_id f g later same) refl

-- What a crash of the agent `e` leaves: the list, the numbers and its state.
abbrev Crashed : ℕ → Agents → Agents → Type 0
Crashed e s s' =
    (s'.agent_list ≡ s.agent_list)
    × ((k : ℕ) → (s'.events k).agent_id ≡ (s.events k).agent_id)
    × ((s'.events e).agent_ready ≡ crashed)

put_agent_event-Crashed :
    (e : ℕ) (s s' : Agents) → Crashed e s s' → Crashed e s (put_agent_event e s')
unfolding put_agent_event set_event
put_agent_event-Crashed e s s' (a, b, c) =
    if_cases (Crashed e s) ((s'.events e).usage == 1)
      (a, λ k. ground (arith, b k, b e), ground (arith, c))
      (a, λ k. ground (arith, b k, b e), ground (arith, c))

crash_event-Crashed : (e : ℕ) (s : Agents) → Crashed e s (crash_event e s)
unfolding crash_event process_send_event_response get_agent_event set_event
crash_event-Crashed e s = put_agent_event-Crashed e s (process_send_event_response e s2) (
    if_cases (Crashed e s) (s2.events e).ret_flag (refl, λ k. ground arith, ground arith)
      (refl, λ k. ground arith, ground arith))
  where
    s1 : Agents
    s1 = get_agent_event e s

    s2 : Agents
    s2 = set_event e (record (s1.events e) { agent_ready = crashed }) s1

send_event_response-found :
    (agent_id e : ℕ) (s : Agents)
    → first_event agent_id s.events s.agent_list ≡ some e
    → send_event_response agent_id s ≡ crash_event e s
unfolding send_event_response
send_event_response-found agent_id e s h =
    subst (λ o. elim o [ none ↦ s | some e' ↦ crash_event e' s ] ≡ crash_event e s) (sym h) refl

reuse_agent_node-crashed :
    (dev : Option ℕ) (agent_id e : ℕ) (s : Agents)
    → first_event agent_id s.events s.agent_list ≡ some e
    → (s.events e).agent_ready ≡ crashed
    → reuse_agent_node dev agent_id s
      ≡ (some (some e), init_restart_agent_node dev e (get_agent_event e s))
unfolding reuse_agent_node
reuse_agent_node-crashed dev agent_id e s h c =
    subst
      (λ o.
        elim o as (λ x. Option (Option ℕ) × Agents) [
          | none ↦ (some none, s)
          | some e' ↦
              if not (is_crashed (s.events e').agent_ready)
              then (none, s)
              else (some (some e'), init_restart_agent_node dev e' (get_agent_event e' s))
        ]
        ≡ restarted)
      (sym h)
      (if_cases_of (λ r. r ≡ restarted) (not (is_crashed (s.events e).agent_ready))
        (λ t. absurd (ground (arith, ap (λ x. not (is_crashed x)) c, t))) (λ t. refl))
  where
    restarted : Option (Option ℕ) × Agents
    restarted = (some (some e), init_restart_agent_node dev e (get_agent_event e s))

restarted-ca_run :
    (dev : Option ℕ) (e : ℕ) (s : Agents)
    → ((init_restart_agent_node dev e s).events e).ca_run ≡ false
unfolding init_restart_agent_node set_event
restarted-ca_run dev e s = ground arith

-- The agent crashes, and then registers again.
abbrev pub crash_and_restart : Option ℕ → ℕ → Agents → Agents
crash_and_restart dev agent_id s =
    (reuse_agent_node dev agent_id (send_event_response agent_id s)).1

crash_and_restart-ca_run :
    (dev : Option ℕ) (agent_id e : ℕ) (s : Agents)
    → first_event agent_id s.events s.agent_list ≡ some e
    → ((crash_and_restart dev agent_id s).events e).ca_run ≡ false
crash_and_restart-ca_run dev agent_id e s h =
    let (list, ids, state) = crash_event-Crashed e s in
    let found =
      ap (λ l. first_event agent_id (crash_event e s).events l) list
      ∙ first_event-same agent_id s.events (crash_event e s).events s.agent_list ids
      ∙ h in
    subst (λ x. ((reuse_agent_node dev agent_id x).1.events e).ca_run ≡ false)
      (sym (send_event_response-found agent_id e s h))
      (subst (λ (r : Option (Option ℕ) × Agents). (r.1.events e).ca_run ≡ false)
        (sym (reuse_agent_node-crashed dev agent_id e (crash_event e s) found state))
        (restarted-ca_run dev e (get_agent_event e (crash_event e s))))

-- No one answers the agent `e` during the wait, and the CA is not killed.
abbrev pub NoAnswer : ℕ → Wait → Type 0
NoAnswer e w =
    (w.killed ≡ false)
    × ((s : Agents) → (s.events e).ca_run ≡ false → ((w.meanwhile s).events e).ca_run ≡ false)

waits_on :
    (need_freeze sig_pending : Bool) (waits : List Wait) (e : ℕ) (s : Agents)
    → All (NoAnswer e) waits
    → (s.events e).ca_run ≡ false
    → wait_agent_response need_freeze sig_pending waits e s ≡ none
unfolding wait_agent_response
waits_on need_freeze sig_pending [] e s q h = refl
waits_on need_freeze sig_pending (w ∷ later) e s ((alive, keep), q) h =
    let interrupted =
      waits_on need_freeze (sig_pending || w.signal) later e (w.meanwhile s) q (keep s h) in
    let timed_out = waits_on need_freeze sig_pending later e (w.meanwhile s) q (keep s h) in
    rw (keep s h, alive)
      (if_cases (λ r. r ≡ none) (need_freeze && not sig_pending) interrupted timed_out)

-- A CA waits for the agent found under its number. If during a wait the agent crashes, which answers the
-- CA, and has registered again before the CA looks, then the waiting does not end in that wait, nor in
-- the later ones, as long as no one answers again and the CA is not killed.
pub wait_agent_response_lost :
    (need_freeze sig_pending : Bool) (dev : Option ℕ) (agent_id e : ℕ) (s : Agents) (signal : Bool)
    (later : List Wait)
    → first_event agent_id s.events s.agent_list ≡ some e
    → All (NoAnswer e) later
    → wait_agent_response need_freeze sig_pending
        (record { meanwhile = crash_and_restart dev agent_id; signal = signal; killed = false }
          ∷ later)
        e
        s
      ≡ none
unfolding wait_agent_response
wait_agent_response_lost need_freeze sig_pending dev agent_id e s signal later h q =
    let lost = crash_and_restart-ca_run dev agent_id e s h in
    let s' = crash_and_restart dev agent_id s in
    rw lost (
      if_cases (λ r. r ≡ none) (need_freeze && not sig_pending)
        (waits_on need_freeze (sig_pending || signal) later e s' q lost)
        (waits_on need_freeze sig_pending later e s' q lost))
