-- ===== src/Mailbox/Split.antt =====
-- `mailbox_alloc`'s loop that cuts a block down and puts its upper halves on the free lists.
use mathlib.Core.Path.{fun_ext, subst₂, subst₃}
use native.Mathlib.Nat.{zero-add}
use itrustee_tzdriver.Base.{
  ℕ, zero, suc, ◌+◌, ◌≤◌, ◌<◌, ◌≡◌, refl, sym, ap, subst, ◌∙◌, ◌≢◌, ◌⊎◌, arith,
}
use itrustee_tzdriver.Base.Update.{update}
use itrustee_tzdriver.Base.Nodes.{occurs-list_add_tail}
use itrustee_tzdriver.Base.Pow.{
  pow2, pow2-suc, pow2_pos, pow2_mono, Aligned, Aligned-le, Aligned-pred, Aligned-add,
}
use itrustee_tzdriver.Mailbox.{mailbox_page_max, MbZone, set_page, add_tail, split}
use itrustee_tzdriver.Mailbox.Blocks.{Blocks, carve, gap-no_order}
use itrustee_tzdriver.Mailbox.Areas.{Areas, without, with_tail, add_free}
use itrustee_tzdriver.Mailbox.Inv.{orders, counts, occs, orders-set_page, counts-set_page}

-- The zone while the block at `pos` is split: `a` to `b` is yet to be given out, and `pos` is still
-- on the list from which it will be taken.
pub record Splitting (m pos : ℕ) (z : MbZone) (a b : ℕ) : Type 0 where
  pub max : z.max_order ≡ m
  pub pool : pow2 m ≡ mailbox_page_max
  pub blocks : Blocks m (orders z) a b
  pub areas : Areas m (orders z) (counts z) (without (occs z) pos)

-- One round: the half at `new` becomes a free block of order `j`.
abbrev pub give : ℕ → ℕ → MbZone → MbZone
give j new z = add_tail j new (set_page new (record { order = j; count = 0 }) z)

orders-give : (j new : ℕ) (z : MbZone) → orders (give j new z) ≡ update (orders z) new j
unfolding add_tail
orders-give j new z = orders-set_page new (record { order = j; count = 0 }) z

counts-give : (j new : ℕ) (z : MbZone) → counts (give j new z) ≡ update (counts z) new 0
unfolding add_tail
counts-give j new z = counts-set_page new (record { order = j; count = 0 }) z

occs-give :
    (j new pos : ℕ) (z : MbZone)
    → pos ≢ new
    → without (occs (give j new z)) pos ≡ with_tail (without (occs z) pos) j new
unfolding set_page add_tail
occs-give j new pos z ne =
    fun_ext λ l. fun_ext λ p. ground (arith, occurs-list_add_tail new p (z.free_areas j))

give-Splitting :
    (m j pos b : ℕ) (z : MbZone)
    → j < m
    → Aligned (suc j) pos
    → pos + pow2 (suc j) ≤ b
    → b ≤ pow2 m
    → Splitting m pos z (pos + pow2 j) b
    → Splitting m pos (give j (pos + pow2 j) z) (pos + pow2 (suc j)) b
unfolding add_tail set_page
give-Splitting m j pos b z lt al fits top v = record {
  max = v.max;
  pool = v.pool;
  blocks =
      subst₂ (λ o a. Blocks m o a b) (sym (orders-give j new z)) step
        (carve new b j v.blocks (omega arith) (Aligned-add j pos (Aligned-pred j pos al)) room top);
  areas =
      subst₃ (Areas m) (sym (orders-give j new z)) (sym (counts-give j new z))
        (sym (occs-give j new pos z (omega (arith, pow2_pos j))))
        (add_free v.blocks.small new j v.areas
          (gap-no_order new b new v.blocks (omega arith) (omega (arith, room, pow2_pos j))) lt);
}
  where
    new : ℕ
    new = pos + pow2 j

    step : new + pow2 j ≡ pos + pow2 (suc j)
    step = omega (arith, pow2-suc j)

    room : new + pow2 j ≤ b
    room = omega (arith, step)

-- The loop closes the gap.
pub split-Splitting :
    (m pos n j b : ℕ) (z : MbZone)
    → n + j ≤ m
    → Aligned (n + j) pos
    → b ≡ pos + pow2 (n + j)
    → b ≤ pow2 m
    → Splitting m pos z (pos + pow2 j) b
    → Splitting m pos (split n j pos z) b b
unfolding split
split-Splitting m pos zero j b z le al e top v =
    subst (λ a. Splitting m pos z a b) (sym (e ∙ ap (λ k. pos + pow2 k) (zero-add j))) v
split-Splitting m pos (suc n) j b z le al e top v =
    split-Splitting m pos n (suc j) b (give j (pos + pow2 j) z) (omega arith) (rw shift al)
      (rw shift e) top
      (give-Splitting m j pos b z (omega arith)
        (Aligned-le (suc j) (suc n + j) pos (omega arith) al)
        (omega (arith, e, pow2_mono (suc j) (suc n + j))) top v)
  where
    shift : n + suc j ≡ suc n + j
    shift = omega arith

-- Pages outside the block are as they were, and so is the pool.
pub split-pages :
    (n j pos q : ℕ) (z : MbZone)
    → (q ≤ pos) ⊎ (pos + pow2 (n + j) ≤ q)
    → (split n j pos z).pages q ≡ z.pages q
unfolding split add_tail set_page
split-pages zero j pos q z h = refl
split-pages (suc n) j pos q z h = ground (
  arith,
  split-pages n (suc j) pos q (give j (pos + pow2 j) z),
  pow2_pos j,
  pow2_mono (suc j) (suc n + j),
  pow2-suc j,
  ap pow2 shift,
)
  where
    shift : n + suc j ≡ suc n + j
    shift = omega arith

pub split-all_pages :
    (n j pos : ℕ) (z : MbZone)
    → ((split n j pos z).all_pages ≡ z.all_pages) × ((split n j pos z).max_order ≡ z.max_order)
unfolding split add_tail set_page
split-all_pages zero j pos z = (refl, refl)
split-all_pages (suc n) j pos z = split-all_pages n (suc j) pos (give j (pos + pow2 j) z)

-- The loop marks no page.
pub split-counts : (n j pos q : ℕ) (z : MbZone) → counts z q ≡ 0 → counts (split n j pos z) q ≡ 0
unfolding split add_tail set_page
split-counts zero j pos q z e = e
split-counts (suc n) j pos q z e =
    split-counts n (suc j) pos q (give j (pos + pow2 j) z) (ground arith)
