-- ===== src/Mailbox/Alloc.antt =====
-- The locked part of `mailbox_alloc`: `alloc_order` keeps the invariant, hands out a block that
-- overlaps no other, and fails only when no free block is large enough.
use mathlib.Core.Path.{subst₂}
use native.Mathlib.Decide.{ℕ_discrete}
use itrustee_tzdriver.Base.{
  ℕ, zero, suc, ◌+◌, ◌-◌, ◌≤◌, ◌<◌, ◌≡◌, refl, sym, ap, subst, ◌∙◌, Option, none, some, List, [],
  ◌∷◌, arith,
}
use itrustee_tzdriver.Base.Nodes.{occurs}
use itrustee_tzdriver.Base.Pow.{pow2, Aligned, Aligned-le}
use itrustee_tzdriver.Mailbox.{MbZone, set_page, del, take_block, first_area}
use itrustee_tzdriver.Mailbox.Blocks.{Blocks, shrink, close_gap}
use itrustee_tzdriver.Mailbox.Areas.{Areas, without, take_out, listed_order}
use itrustee_tzdriver.Mailbox.Inv.{
  Inv, orders, counts, occs, orders-set_page, counts-set_page, occs-del,
}
use itrustee_tzdriver.Mailbox.Split.{Splitting, split-Splitting}

-- What the search loop says of the orders from `i` on.
abbrev pub FirstArea : (ℕ → List ℕ) → ℕ → ℕ → Option (ℕ × ℕ) → Type 0
FirstArea areas n i none = (k : ℕ) → i ≤ k → k < n + i → areas k ≡ []
FirstArea areas n i (some (l, pos)) = (i ≤ l) × (l < n + i) × (0 < occurs pos (areas l))

occurs_head : (x : ℕ) (xs ys : List ℕ) → xs ≡ x ∷ ys → 0 < occurs x xs
unfolding occurs
occurs_head x xs ys e = ground arith

pub first_area-FirstArea :
    (areas : ℕ → List ℕ) (n i : ℕ) → FirstArea areas n i (first_area areas n i)
unfolding first_area
first_area-FirstArea areas zero i = λ k h g. absurd (omega arith)
first_area-FirstArea areas (suc n) i = go (areas i) refl (first_area-FirstArea areas n (suc i))
  where
    widen :
        (r : Option (ℕ × ℕ))
        → areas i ≡ []
        → FirstArea areas n (suc i) r
        → FirstArea areas (suc n) i r
    widen none e f = λ k h g. elim (ℕ_discrete i k) [
      | yes q ↦ subst (λ l. areas l ≡ []) q e
      | no ne ↦ f k (omega arith) (omega arith)
    ]
    widen (some (l, pos)) e f = (omega arith, omega arith, f.2)

    go :
        (xs : List ℕ)
        → areas i ≡ xs
        → FirstArea areas n (suc i) (first_area areas n (suc i))
        → FirstArea areas
            (suc n)
            i
            (elim xs [ [] ↦ first_area areas n (suc i) | pos ∷ _ ↦ some (i, pos) ])
    go [] e f = widen _ e f
    go (x ∷ xs) e f = (omega arith, omega arith, occurs_head x _ xs e)

-- Taking a listed block of order `i` for one of order `order` keeps the invariant.
take_block-Splitting :
    (order i pos : ℕ) (z : MbZone)
    → Inv z
    → i ≤ z.max_order
    → order ≤ i
    → 0 < occs z i pos
    → Splitting z.max_order pos
        (set_page pos (record { order = order; count = 1 }) z)
        (pos + pow2 order)
        (pos + pow2 i)
unfolding set_page
take_block-Splitting order i pos z v le lo on = record {
  max = refl;
  pool = v.pool;
  blocks =
      subst₂ (λ o k. Blocks z.max_order o (pos + pow2 order) (pos + pow2 k))
        (sym (orders-set_page pos (record { order = order; count = 1 }) z)) here
        (shrink pos order v.blocks (omega (arith, here)) (omega (arith, here)) (
          Aligned-le order (orders z pos) pos (omega (arith, here))
            (v.blocks.aligned pos (omega (arith, here)))));
  areas =
      subst₂ (λ o c. Areas z.max_order o c (without (occs z) pos))
        (sym (orders-set_page pos (record { order = order; count = 1 }) z))
        (sym (counts-set_page pos (record { order = order; count = 1 }) z))
        (take_out v.blocks.small i pos order v.areas le on lo);
}
  where
    here : orders z pos ≡ i
    here = listed_order v.blocks.small i pos v.areas le on

Splitting-Inv : (m pos b : ℕ) (z : MbZone) → Splitting m pos z b b → Inv (del pos z)
unfolding del
Splitting-Inv m pos b z v = record {
  pool = ap pow2 v.max ∙ v.pool;
  blocks = subst (λ k. Blocks k (orders z) 0 0) (sym v.max) (close_gap b b v.blocks (omega arith));
  areas =
      subst₂ (λ k o. Areas k (orders z) (counts z) o) (sym v.max) (sym (occs-del pos z)) v.areas;
}

pub take_block-Inv :
    (order i pos : ℕ) (z : MbZone)
    → Inv z
    → i ≤ z.max_order
    → order ≤ i
    → 0 < occs z i pos
    → Inv (take_block order i pos z)
unfolding take_block
take_block-Inv order i pos z v le lo on = Splitting-Inv z.max_order pos (pos + pow2 i) _ (
    split-Splitting z.max_order pos (i - order) order (pos + pow2 i) _ (omega arith) (rw span al)
      (rw span) (omega (arith, v.blocks.inside pos (omega (arith, here)), ap pow2 here))
      (take_block-Splitting order i pos z v le lo on))
  where
    here : orders z pos ≡ i
    here = listed_order v.blocks.small i pos v.areas le on

    span : i - order + order ≡ i
    span = omega arith

    al : Aligned i pos
    al = subst (λ k. Aligned k pos) here (v.blocks.aligned pos (omega (arith, here)))
