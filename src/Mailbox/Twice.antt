-- ===== src/Mailbox/Twice.antt =====
-- A second `mailbox_free` of the same address: the `count` of the page is to show it.
use itrustee_tzdriver.Base.{
  ℕ, zero, suc, ◌+◌, ◌-◌, ◌<◌, ◌≡◌, refl, sym, ap, subst, ◌∙◌, ◌↔◌, Bool-cases, inl, inr, ◌&&◌,
  arith, some, ltb, ◌==◌, if_cases, if_cases_of,
}
use itrustee_tzdriver.Base.Pow.{flip_bit}
use itrustee_tzdriver.Mailbox.{
  MbZone, set_page, add_tail, del, add_max_order_block, free_loop, free_page, mailbox_free,
  is_ptr_valid,
}
use itrustee_tzdriver.Mailbox.Inv.{Inv, Taken, orders, counts}
use itrustee_tzdriver.Mailbox.Free.{clear, join, free_loop-suc}
use itrustee_tzdriver.Mailbox.Drop.{free_page-Dropped}
use itrustee_tzdriver.Mailbox.Contract.{mailbox_free-Taken}

-- A page that is not marked stays so.
pub free_loop-counts :
    (n i self q : ℕ) (z : MbZone) → counts z q ≡ 0 → counts (free_loop n i self z) q ≡ 0
unfolding free_loop add_max_order_block add_tail set_page del
free_loop-counts zero i self q z e = ground arith
free_loop-counts (suc n) i self q z e = subst Unmarked (sym (free_loop-suc n i self z)) (
    if_cases Unmarked ((orders (clear self z) b == i) && (counts (clear self z) b == 0))
      (if_cases Unmarked (ltb b self)
        (free_loop-counts n (suc i) b q (join self b b self i z) (ground arith))
        (free_loop-counts n (suc i) self q (join self b self b i z) (ground arith)))
      (ground arith))
  where
    b : ℕ
    b = flip_bit self i

    Unmarked : MbZone → Type 0
    Unmarked y = counts y q ≡ 0

free_loop-all_pages : (n i self : ℕ) (z : MbZone) → (free_loop n i self z).all_pages ≡ z.all_pages
unfolding free_loop add_max_order_block add_tail set_page del
free_loop-all_pages zero i self z = ground arith
free_loop-all_pages (suc n) i self z = subst Keeps (sym (free_loop-suc n i self z)) (
    if_cases Keeps ((orders (clear self z) b == i) && (counts (clear self z) b == 0))
      (if_cases Keeps (ltb b self) (free_loop-all_pages n (suc i) b (join self b b self i z))
        (free_loop-all_pages n (suc i) self (join self b self b i z)))
      refl)
  where
    b : ℕ
    b = flip_bit self i

    Keeps : MbZone → Type 0
    Keeps y = y.all_pages ≡ z.all_pages

-- The first round unmarks the page.
free_loop-suc-counts : (n i self : ℕ) (z : MbZone) → counts (free_loop (suc n) i self z) self ≡ 0
unfolding set_page del add_tail
free_loop-suc-counts n i self z = subst Unmarked (sym (free_loop-suc n i self z)) (
    if_cases Unmarked ((orders (clear self z) b == i) && (counts (clear self z) b == 0))
      (if_cases Unmarked (ltb b self)
        (free_loop-counts n (suc i) b self (join self b b self i z) (ground arith))
        (free_loop-counts n (suc i) self self (join self b self b i z) (ground arith)))
      (ground arith))
  where
    b : ℕ
    b = flip_bit self i

    Unmarked : MbZone → Type 0
    Unmarked y = counts y self ≡ 0

free_page-counts : (q : ℕ) (z : MbZone) → orders z q < z.max_order → counts (free_page q z) q ≡ 0
unfolding free_page
free_page-counts q z l =
    if_cases_of (λ y. counts y q ≡ 0) (counts z q == 0) (λ t. ground arith)
      (λ t.
        subst (λ n. counts (free_loop n (orders z q) q z) q ≡ 0) (sym more)
          (free_loop-suc-counts (z.max_order - orders z q - 1) (orders z q) q z))
  where
    more : z.max_order - orders z q ≡ suc (z.max_order - orders z q - 1)
    more = omega arith

free_page-all_pages : (q : ℕ) (z : MbZone) → (free_page q z).all_pages ≡ z.all_pages
unfolding free_page
free_page-all_pages q z =
    if_cases (λ (y : MbZone). y.all_pages ≡ z.all_pages) (counts z q == 0) refl
      (free_loop-all_pages (z.max_order - orders z q) (orders z q) q z)

free_page_unmarked : (q : ℕ) (z : MbZone) → counts z q ≡ 0 → free_page q z ≡ z
unfolding free_page
free_page_unmarked q z e = ground arith

-- Freed twice, a block in use of a sound zone below the top order is as if freed once: the second call
-- changes nothing.
pub mailbox_free_twice :
    (q : ℕ) (z : MbZone)
    → Inv z
    → Taken z q
    → orders z q < z.max_order
    → mailbox_free (some (z.all_pages + q)) (mailbox_free (some (z.all_pages + q)) (some z))
      ≡ mailbox_free (some (z.all_pages + q)) (some z)
unfolding mailbox_free
mailbox_free_twice q z v t l = rw (mailbox_free-Taken q z v t) (
    if_cases (λ y. y ≡ some z') (is_ptr_valid z' (z.all_pages + q))
      (ap some (free_page_unmarked _ z' (rw index (free_page-counts q z l)))) refl)
  where
    z' : MbZone
    z' = free_page q z

    index : z.all_pages + q - z'.all_pages ≡ q
    index = omega (arith, free_page-all_pages q z)

-- At the top order no round runs: the page stays marked.
free_page_top-counts :
    (q : ℕ) (z : MbZone) → orders z q ≡ z.max_order → counts (free_page q z) q ≡ counts z q
unfolding free_page free_loop add_max_order_block add_tail
free_page_top-counts q z e = ground (arith, ap (λ k. z.max_order - k) e)

-- A block in use of a sound zone, once freed, is in use no more, and its page has lost the mark by which `mailbox_free`
-- knows a block in use exactly when the block was below the top order. The page of the whole pool keeps
-- it, although the block is free.
pub mailbox_free_guarded_iff :
    (q : ℕ) (z : MbZone)
    → Inv z
    → Taken z q
    → (z' : MbZone) × (mailbox_free (some (z.all_pages + q)) (some z) ≡ some z')
      × (¬ Taken z' q)
      × ((counts z' q ≡ 0) ↔ (orders z q < z.max_order))
mailbox_free_guarded_iff q z v t = (
  free_page q z,
  mailbox_free-Taken q z v t,
  λ u. ((free_page-Dropped q q z v t).only u).1 refl,
  (below, free_page-counts q z),
)
  where
    below : counts (free_page q z) q ≡ 0 → orders z q < z.max_order
    below e = elim (Bool-cases (ltb (orders z q) z.max_order)) [
      | inl lt ↦ ground (arith, lt)
      | inr ge ↦ absurd (t.marked (sym (free_page_top-counts q z (ground (arith, ge, t.head))) ∙ e))
    ]
