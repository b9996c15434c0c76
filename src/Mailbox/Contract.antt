-- ===== src/Mailbox/Contract.antt =====
-- `mailbox_alloc` and `mailbox_free` as their callers see them, in terms of the blocks in use.
use itrustee_tzdriver.Base.{
  ℕ, ◌+◌, ◌-◌, ◌*◌, ◌≤◌, ◌≡◌, refl, sym, ap, subst, ◌∙◌, ◌≢◌, inl, inr, Bool, true, false, ◌&&◌,
  ◌||◌, Option, none, some, arith, ltb, ◌==◌, Bool-cases,
}
use itrustee_tzdriver.Base.Pow.{pow2, pow2_pos}
use itrustee_tzdriver.Mailbox.{
  MbZone, Kernel, State, sz_4k, alloc_order, free_page, is_ptr_valid, mailbox_free, clean_block,
  mailbox_alloc,
}
use itrustee_tzdriver.Mailbox.Inv.{Inv, Taken, orders}
use itrustee_tzdriver.Mailbox.Grant.{Granted, AllocResult, alloc_order-AllocResult}
use itrustee_tzdriver.Mailbox.Free.{free_page-Inv}
use itrustee_tzdriver.Mailbox.Drop.{Dropped, free_page-Dropped}

-- The same blocks are in use.
pub record SameUse (z z' : MbZone) : Type 0 where
  pub inv : Inv z'
  pub keep : (q : ℕ) → Taken z q → Taken z' q × (orders z' q ≡ orders z q)
  pub only : (q : ℕ) → Taken z' q → Taken z q

pub SameUse-refl : (z : MbZone) → Inv z → SameUse z z
SameUse-refl z v = record { inv = v; keep = λ q t. (t, refl); only = λ q t. t }

-- A block handed out and freed again leaves what was in use.
pub Granted-Dropped :
    (z z' z'' : MbZone) (order pos : ℕ)
    → Granted z z' order pos
    → Inv z''
    → ((q : ℕ) → Dropped z' z'' pos q)
    → SameUse z z''
Granted-Dropped z z' z'' order pos g v d = record {
  inv = v;
  keep = λ q t. let (u, e) = g.kept q t in let (w, f) = (d q).keep u (away q t) in (w, f ∙ e);
  only = λ q t. let (u, ne) = (d q).only t in g.only q u ne;
}
  where
    away : (q : ℕ) → Taken z q → q ≢ pos
    away q t e = ground (arith, g.apart q t, e, pow2_pos order, pow2_pos (orders z q))

-- The address of a block in use is in the pool.
pub mailbox_free-Taken :
    (q : ℕ) (z : MbZone)
    → Inv z
    → Taken z q
    → mailbox_free (some (z.all_pages + q)) (some z) ≡ some (free_page q z)
unfolding mailbox_free
mailbox_free-Taken q z v t = rw (valid, index)
  where
    valid : is_ptr_valid z (z.all_pages + q) ≡ true
    valid = ground (arith, v.pool, v.blocks.inside q t.head, pow2_pos (orders z q))

    index : z.all_pages + q - z.all_pages ≡ q
    index = omega arith

-- `mailbox_free` of a block in use, at page `q`, left the state `s`.
abbrev pub Freed : MbZone → ℕ → State → Type 0
Freed z q none = ⊥
Freed z q (some z') = Inv z' × ((p : ℕ) → Dropped z z' q p)

-- In a sound zone, freeing the address of a block in use keeps the invariant, takes that block out of use, and leaves
-- every other block in use, at its order.
pub mailbox_free-Freed :
    (q : ℕ) (z : MbZone)
    → Inv z
    → Taken z q
    → Freed z q (mailbox_free (some (z.all_pages + q)) (some z))
mailbox_free-Freed q z v t =
    rw (mailbox_free-Taken q z v t) (free_page-Inv q z v t, λ p. free_page-Dropped q p z v t)

module _ (kernel : Kernel) where
  -- The order that `mailbox_alloc` asks for.
  abbrev pub wanted : ℕ → ℕ
  wanted size = kernel.get_order (kernel.align size sz_4k)

  -- `mailbox_alloc` gave an address and left a state.
  abbrev pub Allocated : ℕ → MbZone → Option ℕ × State → Type 0
  Allocated size z (a, none) = ⊥
  Allocated size z (none, some z') = SameUse z z'
  Allocated size z (some a, some z') =
      (pos : ℕ) × (a ≡ z.all_pages + pos) × Granted z z' (wanted size) pos

  clean_block-Allocated :
      (size : ℕ) (zeroed : Bool) (z z' : MbZone) (r : Option ℕ)
      → Inv z
      → AllocResult (wanted size) z (r, z')
      → Allocated size z (clean_block kernel size zeroed z' r)
  unfolding clean_block
  clean_block-Allocated size zeroed z z' none v g = subst (SameUse z) (sym g.0) (SameUse-refl z v)
  clean_block-Allocated size zeroed z z' (some pos) v g =
      elim (Bool-cases (zeroed && kernel.memset_fails (kernel.align size sz_4k))) [
        | inl e ↦
            rw (e, mailbox_free-Taken pos z' g.inv g.taken)
              (Granted-Dropped z z' (free_page pos z') (wanted size) pos g
                (free_page-Inv pos z' g.inv g.taken)
                (λ q. free_page-Dropped pos q z' g.inv g.taken))
        | inr e ↦ rw e (pos, ap (λ k. k + pos) g.pool.0, g)
      ]

  -- Whatever `mailbox_alloc` is asked for of a sound zone, it keeps the invariant: it hands out a block
  -- of the wanted order, apart from every block in use, or leaves what was in use.
  pub mailbox_alloc-Allocated :
      (size : ℕ) (zeroed : Bool) (z : MbZone)
      → Inv z
      → Allocated size z (mailbox_alloc kernel size zeroed (some z))
  unfolding mailbox_alloc
  mailbox_alloc-Allocated size zeroed z v =
      elim (Bool-cases (size == 0 || ltb z.max_order (wanted size))) [
        | inl e ↦ rw e (SameUse-refl z v)
        | inr e ↦ rw e (
            clean_block-Allocated size zeroed z (alloc_order (wanted size) z).1
              (alloc_order (wanted size) z).0 v
              (alloc_order-AllocResult (wanted size) z v (ground arith)))
      ]

  -- `mailbox_alloc` succeeds in a sound zone whenever some free block is large enough, the size is not 0 and clearing
  -- the block, if it was asked for, works.
  pub mailbox_alloc_total :
      (size : ℕ) (zeroed : Bool) (z : MbZone) (p : ℕ)
      → Inv z
      → size ≢ 0
      → wanted size ≤ orders z p
      → orders z p ≤ z.max_order
      → ¬ Taken z p
      → (zeroed && kernel.memset_fails (kernel.align size sz_4k)) ≡ false
      → (a : ℕ) × (z' : MbZone) × (mailbox_alloc kernel size zeroed (some z) ≡ (some a, some z'))
  unfolding mailbox_alloc clean_block
  mailbox_alloc_total size zeroed z p v ne small head free clean =
      go (alloc_order (wanted size) z) refl
        (alloc_order-AllocResult (wanted size) z v (omega arith))
    where
      go :
          (r : Option ℕ × MbZone)
          → alloc_order (wanted size) z ≡ r
          → AllocResult (wanted size) z r
          → (a : ℕ) × (z' : MbZone) × (mailbox_alloc kernel size zeroed (some z)
              ≡ (some a, some z'))
      go (none, z') e g = absurd (free (g.1 p small head))
      go (some pos, z') e g = (z'.all_pages + pos, z', ground (arith, e, ne, clean))

  -- The address handed out of a sound zone is that of a page that then heads a block in use; that block,
  -- of the order that is kept for the page, lies in the pool and holds as many bytes as were asked for,
  -- if `align` rounds up and `get_order` gives an order that is large enough.
  pub mailbox_alloc_fits :
      (size : ℕ) (zeroed : Bool) (z z' : MbZone) (a : ℕ)
      → size ≤ kernel.align size sz_4k
      → kernel.align size sz_4k ≤ sz_4k * pow2 (wanted size)
      → Inv z
      → mailbox_alloc kernel size zeroed (some z) ≡ (some a, some z')
      → (pos : ℕ) × (a ≡ z.all_pages + pos)
        × Taken z' pos
        × (size ≤ sz_4k * pow2 (orders z' pos))
        × (a + pow2 (orders z' pos) ≤ z.all_pages + pow2 z.max_order)
  mailbox_alloc_fits size zeroed z z' a up large v e =
      let (pos, at, g) = result in
      (
        pos,
        at,
        g.taken,
        omega (arith, up, large, ap pow2 g.size),
        omega (arith, at, g.inv.blocks.inside pos g.taken.head, ap pow2 g.pool.1),
      )
    where
      result : (pos : ℕ) × (a ≡ z.all_pages + pos) × Granted z z' (wanted size) pos
      result = subst (Allocated size z) e (mailbox_alloc-Allocated size zeroed z v)

  -- Freeing the address just handed out of a sound zone succeeds and leaves in use what was in use
  -- before.
  pub mailbox_free-mailbox_alloc :
      (size : ℕ) (zeroed : Bool) (z z' : MbZone) (a : ℕ)
      → Inv z
      → mailbox_alloc kernel size zeroed (some z) ≡ (some a, some z')
      → (z'' : MbZone) × (mailbox_free (some a) (some z') ≡ some z'') × SameUse z z''
  mailbox_free-mailbox_alloc size zeroed z z' a v e =
      let (pos, at, g) = result in
      (
        free_page pos z',
        ap (λ k. mailbox_free (some k) (some z')) (at ∙ ap (λ k. k + pos) (sym g.pool.0))
            ∙ mailbox_free-Taken pos z' g.inv g.taken,
        Granted-Dropped z z' (free_page pos z') (wanted size) pos g
            (free_page-Inv pos z' g.inv g.taken) (λ q. free_page-Dropped pos q z' g.inv g.taken),
      )
    where
      result : (pos : ℕ) × (a ≡ z.all_pages + pos) × Granted z z' (wanted size) pos
      result = subst (Allocated size z) e (mailbox_alloc-Allocated size zeroed z v)
