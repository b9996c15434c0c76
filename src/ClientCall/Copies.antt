-- ===== src/ClientCall/Copies.antt =====
-- core/gp_ops.c, `update_client_operation`: how much is copied back to the client.
pub mod Loop
use itrustee_tzdriver.Base.{
  ℕ, zero, suc, ◌+◌, ◌-◌, ◌%◌, ◌^◌, ◌≤◌, ◌<◌, ◌≡◌, ◌≢◌, refl, sym, subst, ◌∙◌, ◌⊎◌, inl, inr, Bool,
  true, false, ◌&&◌, not, Option, none, some, List, [], ◌∷◌, All, arith, ltb, ◌==◌, if◌then◌else◌,
  if_cases, if_cases_of,
}
use itrustee_tzdriver.Base.Errno.{Code, success, fail, enomem, efault}
use itrustee_tzdriver.Param.{output, teec_tmpmem_type, teec_memref_type, teec_value_type}
use itrustee_tzdriver.ClientCall.{
  NsOperation, TempBuf, SharedMem, Transfer, Work, CallEnv, is_failed, and_then, read_from_client,
  write_to_client, write_word,
}
use itrustee_tzdriver.ClientCall.Alloc.{param_type}
use itrustee_tzdriver.ClientCall.Update.{
  Rewrite, tmp_copied, update_tmp_mem, ref_written, update_for_ref_mem, update_for_value,
  update_param, update_loop, update_client_operation,
}

module _ (env : CallEnv) (tmp : ℕ → TempBuf) (op : NsOperation) (mems : ℕ → SharedMem) where
  -- The copy is of a temporary buffer, within its size, or of a parameter's copy in the pool to the
  -- shared memory, within that memory.
  abbrev pub Fits : Transfer → Type 0
  Fits t =
      (i : ℕ) × ((((tmp i).temp_buffer ≡ some t.src) × (t.count ≤ (tmp i).size))
        ⊎ ((m : ℕ) × (op.mb_buffer i ≡ some t.src)
            × (op.sharemem i ≡ some m)
            × (t.dest ≡ (mems m).kernel_addr + (env.context.params i).offset)
            × ((env.context.params i).offset + t.count ≤ (mems m).len)))

  -- The offsets were inside the memories when these were found.
  abbrev pub Inside : Type 0
  Inside =
      (i m : ℕ)
      → op.sharemem i ≡ some m
      → ((env.context.params i).offset ≤ (mems m).len) × ((mems m).len < 2 ^ 32)

-- What a step leaves: the same buffers, and copies that fit.
pub record Kept {S : Type 0} (env : CallEnv) (tmp : ℕ → TempBuf) (op : NsOperation)
    (mems : ℕ → SharedMem) (r : Code × Work S) : Type 0 where
  pub tmp_same : r.1.local_tmpbuf ≡ tmp
  pub op_same : r.1.operation ≡ op
  pub mems_same : r.1.mems ≡ mems
  pub fits : All (Fits env tmp op mems) r.1.transfers

module _ {S : Type 0} (env : CallEnv) (rewrite : Rewrite)
    (still : (op : NsOperation) (i : ℕ) → ((rewrite op).params i).size ≡ (op.params i).size) where
  abbrev pub KeptBy : Work S → Code × Work S → Type 0
  KeptBy w r = Kept env w.local_tmpbuf w.operation w.mems r

  module _ (w : Work S) (inside : Inside env w.local_tmpbuf w.operation w.mems)
      (f : All (Fits env w.local_tmpbuf w.operation w.mems) w.transfers) where
    pub idle : (code : Code) (words : ℕ → ℕ) → KeptBy w (code, record w { words = words })
    idle code words = record { tmp_same = refl; op_same = refl; mems_same = refl; fits = f }

    one :
        (code : Code) (words : ℕ → ℕ) (t : Transfer)
        → Fits env w.local_tmpbuf w.operation w.mems t
        → KeptBy w (code, record w { words = words; transfers = t ∷ w.transfers })
    one code words t g = record { tmp_same = refl; op_same = refl; mems_same = refl; fits = (g, f) }

    tmp_copied-Kept :
        (i : ℕ) (words : ℕ → ℕ)
        → (w.operation.params i).size ≤ (w.local_tmpbuf i).size
        → KeptBy w (tmp_copied env rewrite i (record w { words = words }))
    unfolding tmp_copied
    tmp_copied-Kept i words le = go (w.local_tmpbuf i).temp_buffer refl
      where
        size : ℕ
        size = ((rewrite w.operation).params i).size

        dest : ℕ
        dest = (env.context.params i).buffer

        go :
            (o : Option ℕ)
            → (w.local_tmpbuf i).temp_buffer ≡ o
            → KeptBy w (elim o [
              | none ↦ (fail enomem, record w { words = words })
              | some src ↦
                  if is_failed (write_to_client env dest size size env.kernel_api)
                  then (fail enomem, record w { words = words })
                  else (
                    success,
                    record w {
                      words = words;
                      transfers = record { dest = dest; src = src; count = size } ∷ w.transfers;
                    },
                  )
            ])
        go none e = idle (fail enomem) words
        go (some src) e =
            if_cases (KeptBy w) (is_failed (write_to_client env dest size size env.kernel_api))
              (idle (fail enomem) words)
              (one success words (record { dest = dest; src = src; count = size })
                (i, inl (e, omega (arith, still w.operation i))))

    ref_written-Kept :
        (i orig : ℕ) (words : ℕ → ℕ) (src m : Option ℕ)
        → w.operation.mb_buffer i ≡ src
        → w.operation.sharemem i ≡ m
        → KeptBy w (
            ref_written env rewrite i orig
              (w.operation.params i).size
              src
              m
              (record w { words = words }))
    unfolding ref_written
    ref_written-Kept i orig words none m e g = idle success words
    ref_written-Kept i orig words (some src) none e g = idle success words
    ref_written-Kept i orig words (some src) (some m) e g =
        if_cases (KeptBy w) (ltb orig size) (idle success words) (
          if_cases_of (KeptBy w) (ltb rest size) (λ _. idle (fail efault) words)
            (λ le.
              if_cases (KeptBy w) (is_failed (env.memcpy_s rest size)) (idle (fail efault) words) (
                one success words
                  (record { dest = (w.mems m).kernel_addr + offset; src = src; count = size })
                  (i, inr (m, e, g, refl, fits_rest le)))))
      where
        size : ℕ
        size = (w.operation.params i).size

        offset : ℕ
        offset = (env.context.params i).offset

        rest : ℕ
        rest = ((w.mems m).len + 2 ^ 64 - offset) % 2 ^ 64

        fits_rest : ltb rest size ≡ false → offset + size ≤ (w.mems m).len
        fits_rest le = let (a, b) = inside i m g in ground (arith, a, b, le)

    update_tmp_mem-Kept : (i : ℕ) (c : Bool) → KeptBy w (update_tmp_mem env rewrite i c w)
    unfolding update_tmp_mem
    update_tmp_mem-Kept i c =
        if_cases (KeptBy w) (is_failed written.0) (idle (fail efault) w.words) (
          if_cases_of (KeptBy w) (ltb (w.local_tmpbuf i).size (w.operation.params i).size)
            (λ _.
              if_cases (KeptBy w) (not c) (idle success written.1) (idle (fail efault) written.1))
            (λ le. tmp_copied-Kept i written.1 (ground (arith, le))))
      where
        written : Code × (ℕ → ℕ)
        written =
            write_word env (env.context.params i).size_addr (w.operation.params i).size w.words

    update_for_ref_mem-Kept : (i : ℕ) → KeptBy w (update_for_ref_mem env rewrite i w)
    unfolding update_for_ref_mem
    update_for_ref_mem-Kept i =
        if_cases (KeptBy w) (is_failed (read_from_client env 4 size_addr 4 env.kernel_api))
          (idle (fail efault) w.words)
          (if_cases (KeptBy w) (is_failed written.0) (idle (fail efault) w.words) (
            ref_written-Kept i (w.words size_addr) written.1 (w.operation.mb_buffer i)
              (w.operation.sharemem i) refl refl))
      where
        size_addr : ℕ
        size_addr = (env.context.params i).size_addr

        written : Code × (ℕ → ℕ)
        written = write_word env size_addr (w.operation.params i).size w.words

    update_for_value-Kept : (i : ℕ) → KeptBy w (update_for_value env rewrite i w)
    unfolding update_for_value
    update_for_value-Kept i =
        if_cases (KeptBy w) (is_failed a.0) (idle (fail efault) w.words)
          (if_cases (KeptBy w) (is_failed b.0) (idle (fail efault) a.1) (idle success b.1))
      where
        a : Code × (ℕ → ℕ)
        a = write_word env (env.context.params i).a_addr (w.operation.params i).buffer w.words

        b : Code × (ℕ → ℕ)
        b = write_word env (env.context.params i).b_addr (w.operation.params i).size a.1

    pub update_param-Kept : (i : ℕ) (c : Bool) → KeptBy w (update_param env rewrite i c w)
    unfolding update_param
    update_param-Kept i c =
        if_cases (KeptBy w) (teec_tmpmem_type (param_type env i) output) (update_tmp_mem-Kept i c) (
          if_cases (KeptBy w) (teec_memref_type (param_type env i) output)
            (update_for_ref_mem-Kept i)
            (if_cases (KeptBy w) (c && teec_value_type (param_type env i) output)
              (update_for_value-Kept i) (idle success w.words)))
