-- ===== src/ClientCall/Balance/Whole.antt =====
-- core/gp_ops.c, `tc_client_call`: the call from its return back to its start.
use itrustee_tzdriver.Base.{
  ℕ, ◌+◌, ◌<◌, ◌≡◌, refl, ◌∙◌, ◌≢◌, inl, inr, Bool, true, false, not, Option, none, some, List, [],
  ◌∷◌, All, arith, ◌==◌, if◌then◌else◌, if_cases, if_cases_of,
}
use itrustee_tzdriver.Base.Errno.{Code, success, fail}
use itrustee_tzdriver.Base.Nodes.{same, occurs}
use itrustee_tzdriver.Smc.Cmd.{Cmd, teec_pending}
use itrustee_tzdriver.ClientCall.{PoolOps, SharedMem, Work, CallEnv}
use itrustee_tzdriver.ClientCall.Alloc.{free_operation, alloc_done, alloc_operation, alloc_loop}
use itrustee_tzdriver.ClientCall.Update.{Rewrite, update_client_operation}
use itrustee_tzdriver.ClientCall.Command.{
  Ret, error, restart_sys, tee_fault, teec_client_intr, of_code, Context, TeeReturn, CallerProcess,
  teec_error_short_buffer, start_cmd, config_smc_cmd_context, reset_session_id,
}
use itrustee_tzdriver.ClientCall.Run.{
  start_work, handle_ta_pending, post_proc_smc_return, release_tc_call_resource, pending_over,
  sent_to_tee, configured, allocated, packed, tc_client_call,
}
use itrustee_tzdriver.ClientCall.Slots.{PoolLaws, Given, BuiltWork, below, Holds_eq}
use itrustee_tzdriver.ClientCall.Built.Whole.{alloc_loop-Built}
use itrustee_tzdriver.ClientCall.Freed.{Restored, free_operation-Restored, free_operation-op_inited}
use itrustee_tzdriver.ClientCall.Inited.{alloc_loop-op_inited}
use itrustee_tzdriver.ClientCall.Quiet.{update_client_operation-Quiet}
use itrustee_tzdriver.ClientCall.Balance.{
  KeepsPointers, Answers, Answered, Balanced, Returns, Ready, inited, bare, Ready-written,
  Ready-Quiet,
}

module _ {S : Type 0} (pool : PoolOps S) (laws : PoolLaws pool) (env : CallEnv)
    (mems0 : ℕ → SharedMem) (valid : (a : ℕ) → env.virt_addr_valid a ≡ true) (h : ℕ → ℕ) where
  module _ (caller : CallerProcess) (rewrite : Rewrite) (p : ℕ) where
    release-Balanced :
        (ret : Ret) (tee_ret : ℕ) (context : Context) (cmd : Cmd) (w : Work S)
        → Ready pool laws env mems0 valid h p w
        → Balanced pool laws env mems0 valid h
            (release_tc_call_resource pool env caller rewrite ret tee_ret p context cmd w)
    unfolding release_tc_call_resource
    release-Balanced ret tee_ret context cmd w v = freed v
      where
        given :
            (f : Work S)
            → Restored pool laws env (λ a. h a + same p a) mems0 valid f
            → laws.Holds h (pool.free (some p) f.pool) × ((m : ℕ) → f.mems m ≡ mems0 m)
        given f r = (laws.free-Holds h p f.pool r.holds, r.mems)

        freed :
            Ready pool laws env mems0 valid h p w
            → Balanced pool laws env mems0 valid h
                (release_tc_call_resource pool env caller rewrite ret tee_ret p context cmd w)
        freed (inited e b) = given (if w.op_inited then free_operation pool env w else w) (
            if_cases_of (Restored pool laws env (λ a. h a + same p a) mems0 valid) w.op_inited
              (λ _. free_operation-Restored pool laws env (λ a. h a + same p a) mems0 valid w b)
              (λ z. absurd (ground (arith, e, z))))
        freed (bare e b) = given (if w.op_inited then free_operation pool env w else w) (
            if_cases_of (Restored pool laws env (λ a. h a + same p a) mems0 valid) w.op_inited
              (λ z. absurd (ground (arith, e, z))) (λ _. b))

    pending_over-Balanced :
        (context : Context) (r : Code × ℕ × Cmd × Work S)
        → Ready pool laws env mems0 valid h p r.3
        → Balanced pool laws env mems0 valid h (pending_over pool env caller rewrite p context r)
    unfolding pending_over post_proc_smc_return
    pending_over-Balanced context (fail e, tee_ret, cmd, w) v =
        release-Balanced (error e) tee_ret context cmd w v
    pending_over-Balanced context (success, tee_ret, cmd, w) v =
        if_cases_of
          (λ (x : Ret × Work S).
            Balanced pool laws env mems0 valid h
              (release_tc_call_resource pool env caller rewrite x.0 tee_ret p context cmd x.1))
          (tee_ret == 0)
          (λ _.
            release-Balanced (of_code (update_client_operation env rewrite true w).0) tee_ret
              context cmd _ (quiet true))
          (λ _.
            release-Balanced (if tee_ret == teec_client_intr then restart_sys else tee_fault)
              tee_ret context cmd _
              (if_cases (Ready pool laws env mems0 valid h p) (tee_ret == teec_error_short_buffer)
                (quiet false) v))
      where
        quiet :
            (c : Bool)
            → Ready pool laws env mems0 valid h p (update_client_operation env rewrite c w).1
        quiet c =
            Ready-Quiet pool laws env mems0 valid h p w (update_client_operation env rewrite c w)
              (update_client_operation-Quiet env rewrite c w) v

    -- The wait ends, and what is kept is known.
    abbrev Waited : Option (Code × ℕ × Cmd × Work S) → Type 0
    Waited none = ⊥
    Waited (some r) = Ready pool laws env mems0 valid h p r.3

    -- A later turn, if it is reached.
    turn-Waited :
        (t : TeeReturn) (tee_ret : ℕ) (cmd : Cmd) (w : Work S)
        (later : Option (Code × ℕ × Cmd × Work S)) (append post : Code)
        → Ready pool laws env mems0 valid h p w
        → Ready pool laws env mems0 valid h p (record w { operation = t.written w.operation })
        → Waited later
        → Waited (elim append [
          | fail e ↦ some (fail e, tee_ret, cmd, w)
          | success ↦ elim post [
            | fail e ↦
                some
                  (fail e, t.tee_ret, t.answer cmd, record w { operation = t.written w.operation })
            | success ↦ later
          ]
        ])
    turn-Waited t tee_ret cmd w later (fail e) post v v' l = v
    turn-Waited t tee_ret cmd w later success (fail e) v v' l = v'
    turn-Waited t tee_ret cmd w later success success v v' l = l

    handle_ta_pending-Waited :
        (ts : List TeeReturn) (tee_ret : ℕ) (cmd : Cmd) (w : Work S)
        → All KeepsPointers ts
        → Answers tee_ret ts
        → Ready pool laws env mems0 valid h p w
        → Waited (handle_ta_pending pool env caller rewrite ts tee_ret cmd w)
    unfolding handle_ta_pending
    handle_ta_pending-Waited [] tee_ret cmd w k a v =
        if_cases_of Waited (tee_ret == teec_pending) (λ e. absurd (a (ground (arith, e)))) (λ e. v)
    handle_ta_pending-Waited (t ∷ ts) tee_ret cmd w k (inl a) v =
        if_cases_of Waited (not (tee_ret == teec_pending)) (λ e. v)
          (λ e. absurd (a (ground (arith, e))))
    handle_ta_pending-Waited (t ∷ ts) tee_ret cmd w k (inr a) v =
        if_cases_of Waited (not (tee_ret == teec_pending)) (λ e. v)
          (λ e.
            turn-Waited t tee_ret cmd w _ t.append t.post v
              (Ready-written pool laws env mems0 valid h p t w k.0 v)
              (handle_ta_pending-Waited ts t.tee_ret (t.answer cmd) _ k.1 a
                (Ready-written pool laws env mems0 valid h p t w k.0 v)))

    sent_to_tee-Returns :
        (turns : List TeeReturn) (context : Context) (cmd : Cmd) (w : Work S)
        → All KeepsPointers turns
        → Answered turns
        → Ready pool laws env mems0 valid h p w
        → Returns pool laws env mems0 valid h
            (sent_to_tee pool env caller rewrite turns p context cmd w)
    unfolding sent_to_tee
    sent_to_tee-Returns [] context cmd w k a v = a
    sent_to_tee-Returns (t ∷ ts) context cmd w k a v =
        first t.post
          (handle_ta_pending pool env caller rewrite ts t.tee_ret (t.answer cmd)
            (record w { operation = t.written w.operation }))
          (handle_ta_pending-Waited ts t.tee_ret (t.answer cmd) _ k.1 a w')
      where
        w' : Ready pool laws env mems0 valid h p (record w { operation = t.written w.operation })
        w' = Ready-written pool laws env mems0 valid h p t w k.0 v

        context' : Context
        context' = reset_session_id env (t.answer cmd) t.tee_ret context

        first :
            (post : Code) (o : Option (Code × ℕ × Cmd × Work S))
            → Waited o
            → Returns pool laws env mems0 valid h (elim post [
              | fail e ↦ some (
                  release_tc_call_resource pool env caller rewrite
                    (error e)
                    t.tee_ret
                    p
                    context'
                    (t.answer cmd)
                    (record w { operation = t.written w.operation }))
              | success ↦ elim o [
                | none ↦ none
                | some r ↦ some (pending_over pool env caller rewrite p context' r)
              ]
            ])
        first (fail e) o l = release-Balanced (error e) t.tee_ret context' (t.answer cmd) _ w'
        first success none l = l
        first success (some r) l = pending_over-Balanced context' r l

    configured-Returns :
        (turns : List TeeReturn) (context : Context) (r : Code × Cmd) (w : Work S)
        → All KeepsPointers turns
        → Answered turns
        → Ready pool laws env mems0 valid h p w
        → Returns pool laws env mems0 valid h
            (configured pool env caller rewrite turns p context r w)
    unfolding configured
    configured-Returns turns context (fail e, cmd) w k a v =
        release-Balanced (error e) 0 context cmd w v
    configured-Returns turns context (success, cmd) w k a v =
        sent_to_tee-Returns turns context cmd w k a v

    allocated-Returns :
        (turns : List TeeReturn) (context : Context) (cmd : Cmd) (r : Code × Work S)
        → All KeepsPointers turns
        → Answered turns
        → Ready pool laws env mems0 valid h p r.1
        → Returns pool laws env mems0 valid h
            (allocated pool env caller rewrite turns p context cmd r)
    unfolding allocated
    allocated-Returns turns context cmd (fail e, w) k a v =
        release-Balanced (error e) 0 context cmd w v
    allocated-Returns turns context cmd (success, w) k a v =
        configured-Returns turns context (config_smc_cmd_context env caller context p cmd) w k a v

  module _ (live : (m : ℕ) → 0 < occurs m env.shared_mem_list → (mems0 m).usage ≢ 0) where
    alloc_done-Ready :
        (p : ℕ) (r : Code × Work S)
        → r.1.op_inited ≡ false
        → BuiltWork pool laws env (λ a. h a + same p a) mems0 4 r.1
        → Ready pool laws env mems0 valid h p (alloc_done pool env r).1
    unfolding alloc_done
    alloc_done-Ready p (fail e, w) i b =
        bare (free_operation-op_inited pool env w ∙ i)
          (free_operation-Restored pool laws env (λ a. h a + same p a) mems0 valid w b)
    alloc_done-Ready p (success, w) i b = inited refl b

    alloc_operation-Ready :
        (p : ℕ) (w : Work S)
        → w.op_inited ≡ false
        → BuiltWork pool laws env (λ a. h a + same p a) mems0 0 w
        → Ready pool laws env mems0 valid h p (alloc_operation pool env w).1
    unfolding alloc_operation
    alloc_operation-Ready p w i b =
        alloc_done-Ready p (alloc_loop pool env 4 0 w) (alloc_loop-op_inited pool env 4 0 w ∙ i)
          (alloc_loop-Built pool laws env (λ a. h a + same p a) mems0 live 4 0 w b)

    start_work-Built :
        (p : ℕ) (s : S) (words : ℕ → ℕ)
        → laws.Holds (λ a. h a + same p a) s
        → BuiltWork pool laws env (λ a. h a + same p a) mems0 0 (start_work s words mems0)
    unfolding start_work below
    start_work-Built p s words held = record {
      holds = Holds_eq pool laws env (λ a. h a + same p a) mems0 _ _ s (λ a. omega arith) held;
      unused = λ j le. (refl, refl, refl);
      counted = λ m. ground arith;
      used = λ j m e. absurd (ground (arith, e));
      kind = λ j q e. absurd (ground (arith, e));
    }

    module _ (caller : CallerProcess) (rewrite : Rewrite) (turns : List TeeReturn)
        (context : Context) (words : ℕ → ℕ) (keeps : All KeepsPointers turns)
        (answered : Answered turns) where
      packed-Returns :
          (r : Option ℕ × S)
          → Given laws.Holds h r
          → Returns pool laws env mems0 valid h
              (packed pool env caller rewrite turns context words mems0 r)
      unfolding packed start_work
      packed-Returns (none, s) held = (held, λ m. refl)
      packed-Returns (some p, s) held =
          if_cases (Returns pool laws env mems0 valid h) (env.context.param_types == 0)
            (allocated-Returns caller rewrite p turns context (start_cmd caller.uid)
              (success, start_work s words mems0) keeps answered
              (bare refl (record { holds = held; mems = λ m. refl })))
            (allocated-Returns caller rewrite p turns context (start_cmd caller.uid)
              (alloc_operation pool env (start_work s words mems0)) keeps answered
              (alloc_operation-Ready p (start_work s words mems0) refl
                (start_work-Built p s words held)))

      -- When the pool has exactly the blocks `h` in use, the listed shared memories are used, the TEE
      -- leaves the pointers in the operation alone and ends the wait, then, with no other thread at the
      -- pool, `tc_client_call` returns, on every path, with exactly the blocks `h` in use and every shared memory as it was.
      pub tc_client_call-Returns :
          (s : S)
          → laws.Holds h s
          → Returns pool laws env mems0 valid h
              (tc_client_call pool env caller rewrite turns context words mems0 s)
      unfolding tc_client_call
      tc_client_call-Returns s held =
          if_cases (Returns pool laws env mems0 valid h) (not caller.kzalloc) (held, λ m. refl)
            (packed-Returns (pool.cmd_pack s) (laws.cmd_pack-Given h s held))
