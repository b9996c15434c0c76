-- ===== src/Mailbox/Copy.antt =====
-- `mailbox_copy_alloc` of core/mailbox_mempool.c, which gives the block back when copying fails.
use itrustee_tzdriver.Base.{
  false, ℕ, ◌+◌, sym, ap, ◌∙◌, inl, inr, Bool, ◌||◌, not, Option, none, some, ◌==◌, Bool-cases,
}
use itrustee_tzdriver.Mailbox.{MbZone, Kernel, State, free_page, copy_in, mailbox_copy_alloc}
use itrustee_tzdriver.Mailbox.Inv.{Inv}
use itrustee_tzdriver.Mailbox.Free.{free_page-Inv}
use itrustee_tzdriver.Mailbox.Drop.{free_page-Dropped}
use itrustee_tzdriver.Mailbox.Contract.{
  SameUse-refl, Granted-Dropped, Allocated, wanted, mailbox_free-Taken, mailbox_alloc-Allocated,
}

copy_in-Allocated :
    (kernel : Kernel) (size : ℕ) (z : MbZone) (r : Option ℕ × State)
    → Allocated kernel size z r
    → Allocated kernel size z (copy_in kernel size r)
unfolding copy_in
copy_in-Allocated kernel size z (none, none) h = absurd h
copy_in-Allocated kernel size z (some a, none) h = absurd h
copy_in-Allocated kernel size z (none, some z') h = h
copy_in-Allocated kernel size z (some a, some z') (pos, at, g) =
    elim (Bool-cases (kernel.memcpy_fails size)) [
      | inl e ↦
          rw (e, at ∙ ap (λ k. k + pos) (sym g.pool.0), mailbox_free-Taken pos z' g.inv g.taken)
            (Granted-Dropped z z' (free_page pos z') (wanted kernel size) pos g
              (free_page-Inv pos z' g.inv g.taken) (λ q. free_page-Dropped pos q z' g.inv g.taken))
      | inr e ↦ rw e (pos, at, g)
    ]

-- Whatever `mailbox_copy_alloc` is asked for of a sound zone, it keeps the invariant: it hands out a
-- block of the wanted order, apart from every block in use, or leaves what was in use, also when
-- copying into the block fails.
pub mailbox_copy_alloc-Allocated :
    (kernel : Kernel) (src : Bool) (size : ℕ) (z : MbZone)
    → Inv z
    → Allocated kernel size z (mailbox_copy_alloc kernel src size (some z))
unfolding mailbox_copy_alloc
mailbox_copy_alloc-Allocated kernel src size z v = elim (Bool-cases (not src || size == 0)) [
  | inl e ↦ rw e (SameUse-refl z v)
  | inr e ↦ rw e (copy_in-Allocated kernel size z _ (mailbox_alloc-Allocated kernel size false z v))
]
