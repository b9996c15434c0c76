-- ===== src/ClientCall/Copies/Loop.antt =====
-- core/gp_ops.c, `update_client_operation`: the copies of all parameters.
use itrustee_tzdriver.Base.{ℕ, zero, suc, ◌≡◌, sym, subst, ◌∙◌, Bool, not, [], All, ◌==◌, if_cases}
use itrustee_tzdriver.Base.Errno.{Code, success, fail}
use itrustee_tzdriver.ClientCall.{NsOperation, TempBuf, SharedMem, Work, CallEnv, and_then}
use itrustee_tzdriver.ClientCall.Update.{
  Rewrite, update_param, update_loop, update_client_operation,
}
use itrustee_tzdriver.ClientCall.Copies.{Fits, Inside, Kept, KeptBy, idle, update_param-Kept}

-- The same from what an earlier step has left.
module _ {S : Type 0} (env : CallEnv) (rewrite : Rewrite)
    (still : (op : NsOperation) (i : ℕ) → ((rewrite op).params i).size ≡ (op.params i).size)
    (tmp : ℕ → TempBuf) (op : NsOperation) (mems : ℕ → SharedMem)
    (inside : Inside env tmp op mems) where
  update_param-Kept_after :
      (i : ℕ) (c : Bool) (code : Code) (w : Work S)
      → Kept env tmp op mems (code, w)
      → Kept env tmp op mems (update_param env rewrite i c w)
  update_param-Kept_after i c code w k = record {
    tmp_same = now.tmp_same ∙ k.tmp_same;
    op_same = now.op_same ∙ k.op_same;
    mems_same = now.mems_same ∙ k.mems_same;
    fits =
        subst
          (λ (x : ℕ → TempBuf).
            All (Fits env x op mems) (update_param env rewrite i c w).1.transfers)
          k.tmp_same
          (subst
            (λ (x : NsOperation).
              All (Fits env w.local_tmpbuf x mems) (update_param env rewrite i c w).1.transfers)
            k.op_same
            (subst
              (λ (x : ℕ → SharedMem).
                All (Fits env w.local_tmpbuf w.operation x)
                  (update_param env rewrite i c w).1.transfers)
              k.mems_same now.fits));
  }
    where
      inside_now : Inside env w.local_tmpbuf w.operation w.mems
      inside_now =
          subst (λ (x : NsOperation). Inside env w.local_tmpbuf x w.mems) (sym k.op_same)
            (subst (λ (x : ℕ → SharedMem). Inside env w.local_tmpbuf op x) (sym k.mems_same) inside)

      fits_now : All (Fits env w.local_tmpbuf w.operation w.mems) w.transfers
      fits_now =
          subst (λ (x : ℕ → TempBuf). All (Fits env x w.operation w.mems) w.transfers)
            (sym k.tmp_same)
            (subst (λ (x : NsOperation). All (Fits env tmp x w.mems) w.transfers) (sym k.op_same)
              (subst (λ (x : ℕ → SharedMem). All (Fits env tmp op x) w.transfers) (sym k.mems_same)
                k.fits))

      now : KeptBy env rewrite still w (update_param env rewrite i c w)
      now = update_param-Kept env rewrite still w inside_now fits_now i c

  update_loop-Kept :
      (n i : ℕ) (c : Bool) (code : Code) (w : Work S)
      → Kept env tmp op mems (code, w)
      → Kept env tmp op mems (update_loop env rewrite n i c w)
  unfolding update_loop
  update_loop-Kept zero i c code w k = record {
    tmp_same = k.tmp_same;
    op_same = k.op_same;
    mems_same = k.mems_same;
    fits = k.fits;
  }
  update_loop-Kept (suc n) i c code w k =
      go (update_param env rewrite i c w) (update_param-Kept_after i c code w k)
        (λ v. update_loop-Kept n (suc i) c success v)
    where
      go :
          (r : Code × Work S)
          → Kept env tmp op mems r
          → ((v : Work S)
              → Kept env tmp op mems (success, v)
              → Kept env tmp op mems (update_loop env rewrite n (suc i) c v))
          → Kept env tmp op mems (and_then r (λ v. update_loop env rewrite n (suc i) c v))
      go (success, v) q rest = rest v q
      go (fail e, v) q rest = q

module _ {S : Type 0} (env : CallEnv) (rewrite : Rewrite)
    (still : (op : NsOperation) (i : ℕ) → ((rewrite op).params i).size ≡ (op.params i).size) where
  -- When the TEE does not change a size between its two readings, and the offsets were inside the
  -- shared memories, every copy that is made for the client is of a temporary buffer, within its
  -- size, or to a shared memory, within that memory.
  pub update_client_operation-Fits :
      (c : Bool) (w : Work S)
      → w.transfers ≡ []
      → Inside env w.local_tmpbuf w.operation w.mems
      → All
          (Fits env w.local_tmpbuf w.operation w.mems)
          (update_client_operation env rewrite c w).1.transfers
  unfolding update_client_operation
  update_client_operation-Fits c w e inside = if_cases fits_of (not w.op_inited) none_yet (
      if_cases fits_of (env.context.param_types == 0) none_yet
        (update_loop-Kept env rewrite still w.local_tmpbuf w.operation w.mems inside 4 0 c success w
          (idle env rewrite still w inside none_yet success w.words)).fits)
    where
      fits_of : Code × Work S → Type 0
      fits_of r = All (Fits env w.local_tmpbuf w.operation w.mems) r.1.transfers

      none_yet : All (Fits env w.local_tmpbuf w.operation w.mems) w.transfers
      none_yet = subst (λ l. All (Fits env w.local_tmpbuf w.operation w.mems) l) (sym e) tt
