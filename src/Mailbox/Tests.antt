-- ===== src/Mailbox/Tests.antt =====
-- The allocator on a small history: the fresh pool, one page taken, and the whole pool taken.
use itrustee_tzdriver.Base.{
  ℕ, ◌+◌, ◌*◌, ◌/◌, ◌≤◌, ◌<◌, ◌≡◌, ◌↔◌, refl, true, false, some, [], ◌∷◌, arith, leb, if◌then◌else◌,
}
use itrustee_tzdriver.Base.Nodes.{list_add_tail, list_del}
use itrustee_tzdriver.Base.Pow.{pow2, flip_bit}
use itrustee_tzdriver.Mailbox.{
  MbZone, Kernel, mailbox_page_max, mailbox_free, mailbox_alloc, mailbox_copy_alloc, init_zone,
  mailbox_mempool_init, clean_block, first_area, split, take_block, alloc_order, set_page, add_tail,
  del, free_loop, free_page, add_max_order_block,
}
use itrustee_tzdriver.Mailbox.Inv.{Inv, Taken, Apart, orders, counts}
use itrustee_tzdriver.Mailbox.Grant.{Granted, alloc_order-AllocResult}
use itrustee_tzdriver.Mailbox.Contract.{
  SameUse, Freed, Allocated, mailbox_free-Freed, mailbox_alloc-Allocated, mailbox_alloc_total,
  mailbox_alloc_fits, mailbox_free-mailbox_alloc,
}
use itrustee_tzdriver.Mailbox.History.{
  init_zone-Inv, Reach, here, alloc, Initialised, mailbox_mempool_init-Initialised, Reach-Apart,
}
use itrustee_tzdriver.Mailbox.Copy.{mailbox_copy_alloc-Allocated}
use itrustee_tzdriver.Mailbox.Twice.{mailbox_free_twice, mailbox_free_guarded_iff}

abbrev base : ℕ
base = 5000

-- Orders of one page, of two, and of the whole pool.
abbrev order_for : ℕ → ℕ
order_for size = if leb size 4096 then 0 else if leb size 8192 then 1 else 10

abbrev kernel : Kernel
kernel = record {
  get_order = order_for;
  align = λ size to. (size + 4095) / 4096 * 4096;
  memset_fails = λ size. false;
  memcpy_fails = λ size. false;
}

abbrev fresh : MbZone
fresh = init_zone 10 base

fresh-Inv : Inv fresh
unfolding pow2
fresh-Inv = init_zone-Inv 10 base (omega arith) refl

abbrev one_page : MbZone
one_page = take_block 0 10 0 fresh

abbrev whole_pool : MbZone
whole_pool = take_block 10 10 0 fresh

one_page-Granted : Granted fresh one_page 0 0
unfolding alloc_order first_area init_zone
one_page-Granted = alloc_order-AllocResult 0 fresh fresh-Inv (omega arith)

whole_pool-Granted : Granted fresh whole_pool 10 0
unfolding alloc_order first_area init_zone
whole_pool-Granted = alloc_order-AllocResult 10 fresh fresh-Inv (omega arith)

alloc_one_page : mailbox_alloc kernel 100 true (some fresh) ≡ (some 5000, some one_page)
unfolding mailbox_alloc alloc_order first_area init_zone clean_block take_block del split add_tail
    set_page
alloc_one_page = refl

mailbox_alloc-Allocated_example :
    Allocated kernel 100 fresh (mailbox_alloc kernel 100 true (some fresh))
mailbox_alloc-Allocated_example = mailbox_alloc-Allocated kernel 100 true fresh fresh-Inv

mailbox_free-Freed_example :
    Freed one_page 0 (mailbox_free (some (one_page.all_pages + 0)) (some one_page))
mailbox_free-Freed_example =
    mailbox_free-Freed 0 one_page one_page-Granted.inv one_page-Granted.taken

mailbox_free-mailbox_alloc_example :
    (z : MbZone) × (mailbox_free (some 5000) (some one_page) ≡ some z) × SameUse fresh z
mailbox_free-mailbox_alloc_example =
    mailbox_free-mailbox_alloc kernel 100 true fresh one_page 5000 fresh-Inv alloc_one_page

mailbox_alloc_fits_example :
    (pos : ℕ) × (5000 ≡ fresh.all_pages + pos)
    × Taken one_page pos
    × (100 ≤ 4096 * pow2 (orders one_page pos))
    × (5000 + pow2 (orders one_page pos) ≤ fresh.all_pages + pow2 fresh.max_order)
unfolding pow2
mailbox_alloc_fits_example =
    mailbox_alloc_fits kernel 100 true fresh one_page 5000 (omega arith) (omega arith) fresh-Inv
      alloc_one_page

fresh-free : ¬ Taken fresh 0
unfolding init_zone
fresh-free t = t.marked refl

mailbox_alloc_total_example :
    (a : ℕ) × (z : MbZone) × (mailbox_alloc kernel 100 true (some fresh) ≡ (some a, some z))
unfolding init_zone
mailbox_alloc_total_example =
    mailbox_alloc_total kernel 100 true fresh 0 fresh-Inv (omega arith) (omega arith) (omega arith)
      fresh-free refl

mailbox_mempool_init-Initialised_example :
    Initialised (
      mailbox_mempool_init kernel
        (record { zone = true; all_pages = some base; registered = true }))
unfolding pow2
mailbox_mempool_init-Initialised_example =
    mailbox_mempool_init-Initialised kernel
      (record { zone = true; all_pages = some base; registered = true }) refl (omega arith)

-- The second page, taken next to the first.
abbrev two_pages : MbZone
two_pages = take_block 0 0 1 one_page

two_pages-Granted : Granted one_page two_pages 0 1
unfolding alloc_order first_area init_zone take_block split set_page add_tail del list_add_tail
    list_del pow2
two_pages-Granted = alloc_order-AllocResult 0 one_page one_page-Granted.inv (omega arith)

two_pages-Reach : Reach kernel (some fresh) (some two_pages)
unfolding mailbox_alloc alloc_order first_area init_zone clean_block take_block split set_page
    add_tail del list_add_tail list_del pow2
two_pages-Reach = alloc 100 false (alloc 100 true here)

Reach-Apart_example :
    Apart 0 (orders two_pages 0) 1 (orders two_pages 1)
    × (0 + pow2 (orders two_pages 0) ≤ mailbox_page_max)
Reach-Apart_example =
    Reach-Apart kernel fresh two_pages 0 1 fresh-Inv two_pages-Reach
      (two_pages-Granted.kept 0 one_page-Granted.taken).0 two_pages-Granted.taken (omega arith)

one_page-order : orders one_page 0 < one_page.max_order
unfolding init_zone
one_page-order = omega (arith, one_page-Granted.size, one_page-Granted.pool.1, fresh-max)
  where
    fresh-max : fresh.max_order ≡ 10
    fresh-max = refl

mailbox_free_twice_example :
    mailbox_free
      (some (one_page.all_pages + 0))
      (mailbox_free (some (one_page.all_pages + 0)) (some one_page))
    ≡ mailbox_free (some (one_page.all_pages + 0)) (some one_page)
mailbox_free_twice_example =
    mailbox_free_twice 0 one_page one_page-Granted.inv one_page-Granted.taken one_page-order

whole_pool-order : orders whole_pool 0 ≡ whole_pool.max_order
unfolding take_block split set_page del init_zone
whole_pool-order = refl

mailbox_free_guarded_iff_example :
    (z : MbZone) × (mailbox_free (some (whole_pool.all_pages + 0)) (some whole_pool) ≡ some z)
    × (¬ Taken z 0)
    × ((counts z 0 ≡ 0) ↔ (orders whole_pool 0 < whole_pool.max_order))
mailbox_free_guarded_iff_example =
    mailbox_free_guarded_iff 0 whole_pool whole_pool-Granted.inv whole_pool-Granted.taken

-- The pages given back join up to the whole pool again.
freed_list : (free_page 0 (free_page 1 two_pages)).free_areas 10 ≡ 0 ∷ []
unfolding free_page free_loop add_max_order_block take_block split set_page add_tail del init_zone
    list_add_tail list_del pow2 flip_bit
freed_list = refl

-- `flip_bit` is the exclusive or with a bit.
flip_bits : (flip_bit 5 0 ≡ 4) × (flip_bit 5 1 ≡ 7) × (flip_bit 5 2 ≡ 1) × (flip_bit 5 3 ≡ 13)
unfolding flip_bit pow2
flip_bits = (refl, refl, refl, refl)

-- A kernel whose copying fails.
abbrev faulty_kernel : Kernel
faulty_kernel = record kernel { memcpy_fails = λ size. true }

mailbox_copy_alloc-Allocated_example :
    Allocated faulty_kernel 100 fresh (mailbox_copy_alloc faulty_kernel true 100 (some fresh))
mailbox_copy_alloc-Allocated_example =
    mailbox_copy_alloc-Allocated faulty_kernel true 100 fresh fresh-Inv
