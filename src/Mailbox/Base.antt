-- ===== src/Mailbox/Base.antt =====
-- core/mailbox_mempool.c: no operation moves the pool.
use itrustee_tzdriver.Base.{
  ℕ, zero, suc, ◌+◌, ◌-◌, ◌≡◌, refl, ap, ◌∙◌, Bool, ◌&&◌, ◌||◌, Option, none, some, ltb, ◌==◌,
  if_cases, if_cases_of, arith,
}
use itrustee_tzdriver.Base.Pow.{flip_bit}
use itrustee_tzdriver.Mailbox.{
  MbZone, Kernel, State, set_page, del, add_tail, sz_4k, alloc_order, free_loop, free_page,
  add_max_order_block, is_ptr_valid, mailbox_free, clean_block, mailbox_alloc,
}
use itrustee_tzdriver.Mailbox.Inv.{Inv}
use itrustee_tzdriver.Mailbox.Grant.{AllocResult, alloc_order-AllocResult}
use itrustee_tzdriver.Mailbox.Contract.{wanted}

-- The state has a zone, at the same address.
abbrev pub SameBase : MbZone → State → Type 0
SameBase z none = ⊥
SameBase z (some z') = z'.all_pages ≡ z.all_pages

free_loop-all_pages : (n i self : ℕ) (z : MbZone) → (free_loop n i self z).all_pages ≡ z.all_pages
unfolding free_loop add_max_order_block add_tail set_page del
free_loop-all_pages zero i self z =
    if_cases (λ (y : MbZone). y.all_pages ≡ z.all_pages) (i == z.max_order) refl refl
free_loop-all_pages (suc n) i self z =
    let buddy = flip_bit self i in
    let b = (set_page self (record (z.pages self) { count = 0 }) z).pages buddy in
    if_cases (λ (y : MbZone). y.all_pages ≡ z.all_pages) (b.order == i && b.count == 0)
      (if_cases (λ (y : MbZone). y.all_pages ≡ z.all_pages) (ltb buddy self)
        (free_loop-all_pages n (suc i) buddy _) (free_loop-all_pages n (suc i) self _))
      refl

-- The zone found at the end of a call is where it was.
pub mailbox_free-SameBase : (ptr : Option ℕ) (z : MbZone) → SameBase z (mailbox_free ptr (some z))
unfolding mailbox_free free_page
mailbox_free-SameBase none z = refl
mailbox_free-SameBase (some ptr) z =
    if_cases (SameBase z) (is_ptr_valid z ptr)
      (if_cases (λ (y : MbZone). y.all_pages ≡ z.all_pages)
        ((z.pages (ptr - z.all_pages)).count == 0) refl
        (free_loop-all_pages (z.max_order - (z.pages (ptr - z.all_pages)).order)
          (z.pages (ptr - z.all_pages)).order (ptr - z.all_pages) z))
      refl

clean_block-SameBase :
    (kernel : Kernel) (size : ℕ) (zeroed : Bool) (z z' : MbZone) (r : Option ℕ)
    → z'.all_pages ≡ z.all_pages
    → SameBase z (clean_block kernel size zeroed z' r).1
unfolding clean_block
clean_block-SameBase kernel size zeroed z z' none e = e
clean_block-SameBase kernel size zeroed z z' (some pos) e =
    if_cases (λ (r : Option ℕ × State). SameBase z r.1)
      (zeroed && kernel.memset_fails (kernel.align size sz_4k))
      (moved (mailbox_free (some (z'.all_pages + pos)) (some z'))
        (mailbox_free-SameBase (some (z'.all_pages + pos)) z'))
      e
  where
    moved : (s : State) → SameBase z' s → SameBase z s
    moved none h = h
    moved (some y) h = h ∙ e

alloc_base :
    (order : ℕ) (z : MbZone) (r : Option ℕ × MbZone)
    → AllocResult order z r
    → r.1.all_pages ≡ z.all_pages
alloc_base order z (none, z') g = ap (λ (y : MbZone). y.all_pages) g.0
alloc_base order z (some pos, z') g = g.pool.0

pub mailbox_alloc-SameBase :
    (kernel : Kernel) (size : ℕ) (zeroed : Bool) (z : MbZone)
    → Inv z
    → SameBase z (mailbox_alloc kernel size zeroed (some z)).1
unfolding mailbox_alloc
mailbox_alloc-SameBase kernel size zeroed z v =
    if_cases_of (λ (r : Option ℕ × State). SameBase z r.1)
      (size == 0 || ltb z.max_order (wanted kernel size)) (λ e. refl)
      (λ e.
        clean_block-SameBase kernel size zeroed z (alloc_order (wanted kernel size) z).1
          (alloc_order (wanted kernel size) z).0
          (alloc_base (wanted kernel size) z (alloc_order (wanted kernel size) z)
            (alloc_order-AllocResult (wanted kernel size) z v (ground (arith, e)))))
