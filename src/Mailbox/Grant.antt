-- ===== src/Mailbox/Grant.antt =====
-- What `alloc_order` hands out: a whole free block, apart from every block that is taken; and it
-- fails only when no free block is large enough.
use native.Mathlib.Decide.{dec_le}
use itrustee_tzdriver.Base.{
  ℕ, suc, ◌+◌, ◌-◌, ◌≤◌, ◌<◌, ◌≡◌, refl, sym, ap, subst, ◌∙◌, ◌≢◌, ◌⊎◌, inl, inr, Option, none,
  some, List, [], arith,
}
use itrustee_tzdriver.Base.Nodes.{occurs, occurs-list_del}
use itrustee_tzdriver.Base.Pow.{pow2, pow2_pos, pow2_mono}
use itrustee_tzdriver.Mailbox.{
  MbPage, MbZone, set_page, del, split, take_block, first_area, alloc_order,
}
use itrustee_tzdriver.Mailbox.Areas.{listed_order}
use itrustee_tzdriver.Mailbox.Inv.{Inv, Taken, Apart, orders, counts, occs}
use itrustee_tzdriver.Mailbox.Split.{split-pages, split-all_pages, split-counts}
use itrustee_tzdriver.Mailbox.Alloc.{FirstArea, first_area-FirstArea, take_block-Inv}

whole_unlisted :
    (order i pos : ℕ) (z : MbZone)
    → i - order ≡ 0
    → i ≡ z.max_order
    → Inv z
    → occs (take_block order i pos z) (take_block order i pos z).max_order pos ≡ 0
unfolding take_block del set_page split
whole_unlisted order i pos z e f v =
    rw e (ground (arith, occurs-list_del pos pos (z.free_areas z.max_order), v.areas.top_once pos))

module _ (order i pos : ℕ) (z : MbZone) (v : Inv z) where
  take_block-pages :
      i ≤ z.max_order
      → order ≤ i
      → (q : ℕ) → (q < pos) ⊎ (pos + pow2 i ≤ q)
      → (take_block order i pos z).pages q ≡ z.pages q
  unfolding take_block del set_page
  take_block-pages le lo q h = ground (
    arith,
    split-pages (i - order) order pos q (set_page pos (record { order = order; count = 1 }) z),
    ap pow2 span,
    pow2_pos i,
  )
    where
      span : i - order + order ≡ i
      span = omega arith

  take_block-head : (take_block order i pos z).pages pos ≡ record { order = order; count = 1 }
  unfolding take_block del set_page
  take_block-head = split-pages (i - order) order pos pos _ (inl (omega arith)) ∙ ground arith

  take_block-max :
      ((take_block order i pos z).all_pages ≡ z.all_pages)
      × ((take_block order i pos z).max_order ≡ z.max_order)
  unfolding take_block del set_page
  take_block-max = split-all_pages (i - order) order pos _

  module _ (le : i ≤ z.max_order) (lo : order ≤ i) (on : 0 < occs z i pos) where
    here : orders z pos ≡ i
    here = listed_order v.blocks.small i pos v.areas le on

    -- The block handed out is on no list.
    take_block-unlisted :
        occs (take_block order i pos z) (take_block order i pos z).max_order pos ≡ 0
    take_block-unlisted = elim (dec_le z.max_order order) [
      | yes whole ↦ whole_unlisted order i pos z (omega arith) (omega arith) v
      | no part ↦ ground (
        arith,
        (take_block-Inv order i pos z v le lo on).areas.top_order pos,
        take_block-max.1,
        ap (λ (p : MbPage). p.order) take_block-head,
      )
    ]

    -- A block in use lies apart from the whole block that is split.
    take_block-outside :
        (q : ℕ) → Taken z q → (q ≢ pos) × ((q + pow2 (orders z q) ≤ pos) ⊎ (pos + pow2 i ≤ q))
    take_block-outside q t = (
      other,
      ground (arith, other, v.blocks.apart q pos, v.blocks.apart pos q, here, ap pow2 here),
    )
      where
        other : q ≢ pos
        other e =
            let u : Taken z pos = subst (Taken z) e t in
            ground (arith, v.areas.low i pos, u.marked, u.unlisted)

    take_block-kept :
        (q : ℕ)
        → Taken z q
        → Taken (take_block order i pos z) q × (orders (take_block order i pos z) q ≡ orders z q)
    take_block-kept q t = (
      record {
        head = omega (arith, t.head, same_order, max');
        marked = λ e. t.marked (sym (ap (λ (p : MbPage). p.count) same_page) ∙ e);
        unlisted =
            ground (arith, (take_block-Inv order i pos z v le lo on).areas.top_order q, below);
      },
      same_order,
    )
      where
        out : (q ≢ pos) × ((q + pow2 (orders z q) ≤ pos) ⊎ (pos + pow2 i ≤ q))
        out = take_block-outside q t

        max' : (take_block order i pos z).max_order ≡ z.max_order
        max' = take_block-max.1

        same_page : (take_block order i pos z).pages q ≡ z.pages q
        same_page = take_block-pages le lo q (ground (arith, out, pow2_pos (orders z q)))

        same_order : orders (take_block order i pos z) q ≡ orders z q
        same_order = ap (λ (p : MbPage). p.order) same_page

        below : orders (take_block order i pos z) q ≢ (take_block order i pos z).max_order
        below e = ground (
          arith,
          out,
          ap pow2 (sym same_order ∙ e ∙ max'),
          v.blocks.inside q t.head,
          v.blocks.inside pos,
          ap pow2 here,
          here,
          pow2_pos i,
        )

    take_block-counts : (q : ℕ) → q ≢ pos → counts z q ≡ 0 → counts (take_block order i pos z) q ≡ 0
    unfolding take_block del set_page
    take_block-counts q ne e =
        split-counts (i - order) order pos q (set_page pos (record { order = order; count = 1 }) z)
          (ground arith)

    -- No other block comes into use.
    take_block-only : (q : ℕ) → Taken (take_block order i pos z) q → q ≢ pos → Taken z q
    take_block-only q t ne = record {
      head = omega (arith, t.head, same_order, take_block-max.1);
      marked = λ e. t.marked (take_block-counts q ne e);
      unlisted = ground (arith, v.areas.top_order q, top);
    }
      where
        inner : pos < q → q < pos + pow2 i → counts z q ≡ 0
        inner g l =
            v.areas.idle q
              (ground (arith, v.blocks.orders q, v.blocks.apart pos q, here, ap pow2 here))

        out : (q < pos) ⊎ (pos + pow2 i ≤ q)
        out = elim (dec_le (pos + pow2 i) q) [
          | yes above ↦ inr above
          | no below ↦ elim (dec_le (q + 1) pos) [
            | yes under ↦ inl (omega arith)
            | no over ↦
                absurd (t.marked (take_block-counts q ne (inner (omega arith) (omega arith))))
          ]
        ]

        same_order : orders (take_block order i pos z) q ≡ orders z q
        same_order = ap (λ (p : MbPage). p.order) (take_block-pages le lo q out)

        top : orders z q ≢ z.max_order
        top e = ground (
          arith,
          v.blocks.inside q,
          v.blocks.inside pos,
          v.blocks.apart q pos,
          here,
          ap pow2 here,
          ap pow2 e,
          pow2_pos i,
          out,
        )

-- `z'` is `z` with the block of order `order` at `pos` handed out.
pub record Granted (z z' : MbZone) (order pos : ℕ) : Type 0 where
  pub inv : Inv z'
  pub taken : Taken z' pos
  pub size : orders z' pos ≡ order
  pub pool : (z'.all_pages ≡ z.all_pages) × (z'.max_order ≡ z.max_order)
  pub apart : (q : ℕ) → Taken z q → Apart pos order q (orders z q)
  pub kept : (q : ℕ) → Taken z q → Taken z' q × (orders z' q ≡ orders z q)
  pub only : (q : ℕ) → Taken z' q → q ≢ pos → Taken z q

pub take_block-Granted :
    (order i pos : ℕ) (z : MbZone)
    → Inv z
    → i ≤ z.max_order
    → order ≤ i
    → 0 < occs z i pos
    → Granted z (take_block order i pos z) order pos
take_block-Granted order i pos z v le lo on = record {
  inv = take_block-Inv order i pos z v le lo on;
  taken = record {
    head = omega (arith, head, (take_block-max order i pos z v).1);
    marked = λ e. omega (arith, ap (λ (p : MbPage). p.count) (take_block-head order i pos z v), e);
    unlisted = take_block-unlisted order i pos z v le lo on;
  };
  size = head;
  pool = take_block-max order i pos z v;
  apart = λ q t. ground (arith, take_block-outside order i pos z v le lo on q t, pow2_mono order i);
  kept = take_block-kept order i pos z v le lo on;
  only = take_block-only order i pos z v le lo on;
}
  where
    head : orders (take_block order i pos z) pos ≡ order
    head = ap (λ (p : MbPage). p.order) (take_block-head order i pos z v)

occurs_nil : (p : ℕ) (xs : List ℕ) → xs ≡ [] → occurs p xs ≡ 0
unfolding occurs
occurs_nil p xs e = ground arith

-- What a call of `alloc_order` gives: a block, or nothing when no free block is large enough.
abbrev pub AllocResult : ℕ → MbZone → Option ℕ × MbZone → Type 0
AllocResult order z (none, z') =
    (z' ≡ z) × ((p : ℕ) → order ≤ orders z p → orders z p ≤ z.max_order → Taken z p)
AllocResult order z (some pos, z') = Granted z z' order pos

pub alloc_order-AllocResult :
    (order : ℕ) (z : MbZone)
    → Inv z
    → order ≤ z.max_order
    → AllocResult order z (alloc_order order z)
unfolding alloc_order
alloc_order-AllocResult order z v le =
    go (first_area z.free_areas (suc z.max_order - order) order)
      (first_area-FirstArea z.free_areas (suc z.max_order - order) order)
  where
    none_listed :
        (p : ℕ)
        → z.free_areas (orders z p) ≡ []
        → z.free_areas z.max_order ≡ []
        → orders z p ≤ z.max_order
        → Taken z p
    none_listed p e f g = record {
      head = g;
      marked = λ c. ground (
        arith,
        c,
        occurs_nil p (z.free_areas (orders z p)) e,
        occurs_nil p (z.free_areas z.max_order) f,
        v.areas.low (orders z p) p,
        v.areas.top_free p,
      );
      unlisted = occurs_nil p (z.free_areas z.max_order) f;
    }

    go :
        (r : Option (ℕ × ℕ))
        → FirstArea z.free_areas (suc z.max_order - order) order r
        → AllocResult order z
            (elim r [ none ↦ (none, z) | some (i, pos) ↦ (some pos, take_block order i pos z) ])
    go none f = (
      refl,
      λ p h g. none_listed p (f (orders z p) h (omega arith)) (f z.max_order le (omega arith)) g,
    )
    go (some (i, pos)) f = take_block-Granted order i pos z v (omega arith) f.0 f.2
