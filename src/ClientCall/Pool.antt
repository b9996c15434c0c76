-- ===== src/ClientCall/Pool.antt =====
-- The pool of core/mailbox_mempool.c is one that core/gp_ops.c can use.
use native.Mathlib.Decide.{ℕ_discrete}
use itrustee_tzdriver.Base.{
  ℕ, ◌+◌, ◌≡◌, sym, ap, subst, ◌∙◌, ◌≢◌, Bool, true, false, ◌||◌, not, Option, none, some, arith,
  ◌==◌, if_cases,
}
use itrustee_tzdriver.Base.Nodes.{same}
use itrustee_tzdriver.Base.Pow.{pow2_pos}
use itrustee_tzdriver.Mailbox.{
  MbZone, Kernel, State, sz_4k, mailbox_free, mailbox_alloc, mailbox_alloc_cmd_pack, copy_in,
  mailbox_copy_alloc,
}
use itrustee_tzdriver.Mailbox.Inv.{Inv, Taken, orders}
use itrustee_tzdriver.Mailbox.Grant.{Granted}
use itrustee_tzdriver.Mailbox.Contract.{
  SameUse, Allocated, Freed, mailbox_alloc-Allocated, mailbox_free-Freed,
}
use itrustee_tzdriver.Mailbox.Base.{SameBase, mailbox_free-SameBase, mailbox_alloc-SameBase}
use itrustee_tzdriver.ClientCall.{PoolOps}
use itrustee_tzdriver.ClientCall.Slots.{PoolLaws, Given}

-- The pool at `base` is sound, and the addresses at which `h` is 1, and no others, are in use.
pub record InUse (base : ℕ) (h : ℕ → ℕ) (z : MbZone) : Type 0 where
  pub inv : Inv z
  pub place : z.all_pages ≡ base
  pub taken : (q : ℕ) → Taken z q → h (base + q) ≡ 1
  pub only : (a : ℕ) → h a ≢ 0 → (q : ℕ) × (a ≡ base + q) × Taken z q × (h a ≡ 1)

abbrev pub HoldsAt : ℕ → (ℕ → ℕ) → State → Type 0
HoldsAt base h none = ⊥
HoldsAt base h (some z) = InUse base h z

module _ (base : ℕ) (h : ℕ → ℕ) (z : MbZone) where
  SameUse-InUse :
      (z' : MbZone) → z'.all_pages ≡ z.all_pages → SameUse z z' → InUse base h z → InUse base h z'
  SameUse-InUse z' p s u = record {
    inv = s.inv;
    place = p ∙ u.place;
    taken = λ q t. u.taken q (s.only q t);
    only = λ a ne. let (q, e, t, o) = u.only a ne in (q, e, (s.keep q t).0, o);
  }

  -- A block that is handed out was not in use.
  fresh :
      (z' : MbZone) (order pos : ℕ) → Granted z z' order pos → InUse base h z → h (base + pos) ≡ 0
  fresh z' order pos g u = elim (ℕ_discrete (h (base + pos)) 0) [
    | yes e ↦ e
    | no ne ↦
        let (q, e, t, o) = u.only (base + pos) ne in
        absurd (ground (arith, e, g.apart q t, pow2_pos order, pow2_pos (orders z q)))
  ]

  Granted-InUse :
      (z' : MbZone) (order pos : ℕ)
      → Granted z z' order pos
      → InUse base h z
      → InUse base (λ a. h a + same (base + pos) a) z'
  Granted-InUse z' order pos g u = record {
    inv = g.inv;
    place = g.pool.0 ∙ u.place;
    taken = λ q t. elim (ℕ_discrete q pos) [
      | yes e ↦ ground (arith, e, fresh z' order pos g u)
      | no ne ↦ ground (arith, ne, u.taken q (g.only q t ne))
    ];
    only = λ a ne. elim (ℕ_discrete a (base + pos)) [
      | yes e ↦ (pos, e, g.taken, ground (arith, e, fresh z' order pos g u))
      | no far ↦
          let (q, e, t, o) = u.only a (ground (arith, ne, far)) in
          (q, e, (g.kept q t).0, ground (arith, o, far))
    ];
  }

  Allocated-Given :
      (kernel : Kernel) (size : ℕ) (r : Option ℕ × State)
      → Allocated kernel size z r
      → SameBase z r.1
      → InUse base h z
      → Given (HoldsAt base) h r
  Allocated-Given kernel size (none, none) a b u = a
  Allocated-Given kernel size (some p, none) a b u = a
  Allocated-Given kernel size (none, some z') a b u = SameUse-InUse z' b a u
  Allocated-Given kernel size (some p, some z') (pos, e, g) b u =
      subst (λ p'. InUse base (λ a. h a + same p' a) z') (sym (e ∙ ap (λ k. k + pos) u.place))
        (Granted-InUse z' _ pos g u)

  Freed-InUse :
      (p : ℕ) → InUse base (λ a. h a + same p a) z → HoldsAt base h (mailbox_free (some p) (some z))
  Freed-InUse p u =
      let (q, e, t, o) = u.only p (ground arith) in
      let at : p ≡ z.all_pages + q = e ∙ ap (λ k. k + q) (sym u.place) in
      subst (λ p'. HoldsAt base h (mailbox_free (some p') (some z))) (sym at)
        (go q e (mailbox_free (some (z.all_pages + q)) (some z)) (mailbox_free-Freed q z u.inv t)
          (mailbox_free-SameBase (some (z.all_pages + q)) z))
    where
      go : (q : ℕ) → p ≡ base + q → (s : State) → Freed z q s → SameBase z s → HoldsAt base h s
      go q e none f b = f
      go q e (some z') (inv, d) b = record {
        inv = inv;
        place = b ∙ u.place;
        taken = λ k t. let (t', ne) = (d k).only t in ground (arith, e, ne, u.taken k t');
        only = λ a ne.
            let (k, e', t, o) = u.only a (ground (arith, ne)) in
            (k, e', ((d k).keep t (ground (arith, o, ne, e, e'))).0, ground (arith, o, ne));
      }

module _ (kernel : Kernel) (base : ℕ) where
  abbrev pub pool_ops : PoolOps State
  pool_ops = record {
    alloc = mailbox_alloc kernel;
    copy_alloc = mailbox_copy_alloc kernel;
    cmd_pack = mailbox_alloc_cmd_pack kernel;
    free = mailbox_free;
  }

  pub mailbox_alloc-Given :
      (h : ℕ → ℕ) (size : ℕ) (zeroed : Bool) (s : State)
      → HoldsAt base h s
      → Given (HoldsAt base) h (mailbox_alloc kernel size zeroed s)
  mailbox_alloc-Given h size zeroed none u = absurd u
  mailbox_alloc-Given h size zeroed (some z) u =
      Allocated-Given base h z kernel size _ (mailbox_alloc-Allocated kernel size zeroed z u.inv)
        (mailbox_alloc-SameBase kernel size zeroed z u.inv) u

  pub mailbox_free-HoldsAt :
      (h : ℕ → ℕ) (p : ℕ) (s : State)
      → HoldsAt base (λ a. h a + same p a) s
      → HoldsAt base h (mailbox_free (some p) s)
  mailbox_free-HoldsAt h p none u = absurd u
  mailbox_free-HoldsAt h p (some z) u = Freed-InUse base h z p u

  copy_in-Given :
      (h : ℕ → ℕ) (size : ℕ) (r : Option ℕ × State)
      → Given (HoldsAt base) h r
      → Given (HoldsAt base) h (copy_in kernel size r)
  unfolding copy_in
  copy_in-Given h size (none, s) g = g
  copy_in-Given h size (some p, s) g =
      if_cases (Given (HoldsAt base) h) (kernel.memcpy_fails size) (mailbox_free-HoldsAt h p s g) g

  pub mailbox_copy_alloc-Given :
      (h : ℕ → ℕ) (src : Bool) (size : ℕ) (s : State)
      → HoldsAt base h s
      → Given (HoldsAt base) h (mailbox_copy_alloc kernel src size s)
  unfolding mailbox_copy_alloc
  mailbox_copy_alloc-Given h src size s u =
      if_cases (Given (HoldsAt base) h) (not src || size == 0) u
        (copy_in-Given h size _ (mailbox_alloc-Given h size false s u))

  pub mailbox_alloc_cmd_pack-Given :
      (h : ℕ → ℕ) (s : State)
      → HoldsAt base h s
      → Given (HoldsAt base) h (mailbox_alloc_cmd_pack kernel s)
  unfolding mailbox_alloc_cmd_pack
  mailbox_alloc_cmd_pack-Given h s u = mailbox_alloc-Given h sz_4k true s u

  abbrev pub pool_laws : PoolLaws pool_ops
  pool_laws = record {
    Holds = HoldsAt base;
    alloc-Given = mailbox_alloc-Given;
    copy_alloc-Given = mailbox_copy_alloc-Given;
    cmd_pack-Given = mailbox_alloc_cmd_pack-Given;
    free-Holds = mailbox_free-HoldsAt;
  }
