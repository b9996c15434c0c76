-- ===== src/Mailbox/Free.antt =====
-- `mailbox_free`: freeing a block that is in use keeps the invariant, joins it with its free buddies,
-- and touches no other block that is in use.
use mathlib.Core.Path.{fun_ext, subst₂, subst₃}
use itrustee_tzdriver.Base.{
  ℕ, zero, suc, ◌+◌, ◌-◌, ◌≤◌, ◌<◌, ◌≡◌, refl, sym, ap, subst, ◌∙◌, ◌≢◌, inl, inr, true, ◌&&◌,
  arith, ltb, ◌==◌, if◌then◌else◌, Bool-cases,
}
use itrustee_tzdriver.Base.Update.{update}
use itrustee_tzdriver.Base.Pow.{pow2, pow2_pos, Aligned, flip_bit, Halves, lower, upper, halves}
use itrustee_tzdriver.Mailbox.{
  mailbox_page_max, MbZone, no_order, set_page, add_tail, del, add_max_order_block, free_loop,
  free_page,
}
use itrustee_tzdriver.Mailbox.Blocks.{Blocks, merge, merged}
use itrustee_tzdriver.Mailbox.Areas.{Areas, without, with_tail}
use itrustee_tzdriver.Mailbox.Held
use itrustee_tzdriver.Mailbox.Held.{Held}
use itrustee_tzdriver.Mailbox.Inv.{
  Inv, Taken, orders, counts, occs, counts-set_page, occs-del, occs-add_tail,
}

-- The zone at the head of the loop: the block at `self`, of order `i`, is held.
pub record Holding (m i self : ℕ) (z : MbZone) : Type 0 where
  pub max : z.max_order ≡ m
  pub pool : pow2 m ≡ mailbox_page_max
  pub blocks : Blocks m (orders z) 0 0
  pub held : Held m (orders z) (counts z) (occs z) self
  pub here : orders z self ≡ i
  pub bound : i ≤ m

-- The round's first write.
abbrev pub clear : ℕ → MbZone → MbZone
clear self z = set_page self (record (z.pages self) { count = 0 }) z

-- The zone after a round that joins the block at `lo` with the one at `hi`, `b` being the free one.
abbrev pub join : ℕ → ℕ → ℕ → ℕ → ℕ → MbZone → MbZone
join self b lo hi i z =
    let z2 = del b (clear self z) in
    set_page hi (record (z2.pages hi) { order = no_order })
      (set_page lo (record (z2.pages lo) { order = i + 1 }) z2)

orders-join :
    (self b lo hi i : ℕ) (z : MbZone) → orders (join self b lo hi i z) ≡ merged (orders z) lo hi i
unfolding set_page del
orders-join self b lo hi i z = fun_ext λ p. ground arith

counts-join :
    (self b lo hi i : ℕ) (z : MbZone) → counts (join self b lo hi i z) ≡ update (counts z) self 0
unfolding set_page del
counts-join self b lo hi i z = fun_ext λ p. ground arith

orders-clear : (self : ℕ) (z : MbZone) → orders (clear self z) ≡ orders z
unfolding set_page
orders-clear self z = fun_ext λ p. ground arith

occs-join : (self b lo hi i : ℕ) (z : MbZone) → occs (join self b lo hi i z) ≡ without (occs z) b
unfolding set_page del
occs-join self b lo hi i z = occs-del b z

module _ (m i self : ℕ) (z : MbZone) (v : Holding m i self z) (lt : i < m) where
  -- The free buddy below takes the held block in, or the held block takes in the one above.
  pub join_down-Holding :
      (b : ℕ)
      → Aligned (suc i) b
      → self ≡ b + pow2 i
      → orders z b ≡ i
      → counts z b ≡ 0
      → Holding m (suc i) b (join self b b self i z)
  unfolding set_page del
  join_down-Holding b al e eo ec = record {
    max = v.max;
    pool = v.pool;
    blocks =
        subst (λ o. Blocks m o 0 0) (sym (orders-join self b b self i z))
          (merge b self i v.blocks eo v.here e lt al);
    held =
        subst₃ (λ o c s. Held m o c s b) (sym (orders-join self b b self i z))
          (sym (counts-join self b b self i z)) (sym (occs-join self b b self i z))
          (Held.join_down v.blocks.small self v.held i b lt v.here (omega (arith, e, pow2_pos i)) eo
            ec);
    here = ground (arith, pow2_pos i);
    bound = lt;
  }

  pub join_up-Holding :
      (b : ℕ)
      → Aligned (suc i) self
      → b ≡ self + pow2 i
      → orders z b ≡ i
      → counts z b ≡ 0
      → Holding m (suc i) self (join self b self b i z)
  unfolding set_page del
  join_up-Holding b al e eo ec = record {
    max = v.max;
    pool = v.pool;
    blocks =
        subst (λ o. Blocks m o 0 0) (sym (orders-join self b self b i z))
          (merge self b i v.blocks v.here eo e lt al);
    held =
        subst₃ (λ o c s. Held m o c s self) (sym (orders-join self b self b i z))
          (sym (counts-join self b self b i z)) (sym (occs-join self b self b i z))
          (Held.join_up v.blocks.small self v.held i b lt v.here (omega (arith, e, pow2_pos i)) eo
            ec);
    here = ground (arith, pow2_pos i);
    bound = lt;
  }

  -- With no free buddy the block goes to its list.
  release-Inv : Inv (add_tail i self (clear self z))
  unfolding set_page add_tail
  release-Inv = record {
    pool = ap pow2 v.max ∙ v.pool;
    blocks = subst₂ (λ k o. Blocks k o 0 0) (sym v.max) (sym (orders-clear self z)) v.blocks;
    areas =
        subst (λ k. Areas k (orders tailed) (counts tailed) (occs tailed)) (sym v.max)
          (subst₃ (Areas m) (sym (orders-clear self z))
            (sym (counts-set_page self (record (z.pages self) { count = 0 }) z))
            (sym (occs-add_tail i self z))
            (Held.release v.blocks.small self v.held i self lt v.here));
  }
    where
      tailed : MbZone
      tailed = add_tail i self (clear self z)

-- The held block is the whole pool: it is page 0, and goes to the top list.
release_top-Inv : (m self : ℕ) (z : MbZone) → Holding m m self z → Inv (add_max_order_block m z)
unfolding add_max_order_block add_tail
release_top-Inv m self z v = rw (test, add_max_order_block) whole
  where
    test : (m == z.max_order) ≡ true
    test = ground (arith, v.max)

    first : self ≡ 0
    first = omega (arith, v.blocks.inside self, v.here, ap pow2 v.here)

    whole : Inv (add_tail z.max_order 0 z)
    whole = record {
      pool = ap pow2 v.max ∙ v.pool;
      blocks = subst (λ k. Blocks k (orders z) 0 0) (sym v.max) v.blocks;
      areas =
          subst (Areas z.max_order (orders z) (counts z)) (sym (occs-add_tail z.max_order 0 z)) (
            subst₂ (λ k s. Areas k (orders z) (counts z) (with_tail (occs z) k s)) (sym v.max) first
              (Held.release_top v.blocks.small self v.held v.here));
    }

-- One round of the loop, by what it finds of the buddy.
abbrev pub round : ℕ → ℕ → ℕ → ℕ → MbZone → MbZone
round n i self b z =
    if (orders (clear self z) b == i) && (counts (clear self z) b == 0)
    then (if ltb b self
        then free_loop n (suc i) b (join self b b self i z)
        else free_loop n (suc i) self (join self b self b i z))
    else add_tail i self (clear self z)

pub free_loop-suc :
    (n i self : ℕ) (z : MbZone) → free_loop (suc n) i self z ≡ round n i self (flip_bit self i) z
unfolding free_loop del
free_loop-suc n i self z = refl

pub round_cases {ℓ} :
    (P : MbZone → Type ℓ) (n i self b : ℕ) (z : MbZone)
    → self ≢ b
    → (orders z b ≡ i
        → counts z b ≡ 0
        → b < self
        → P (free_loop n (suc i) b (join self b b self i z)))
    → (orders z b ≡ i
        → counts z b ≡ 0
        → self < b
        → P (free_loop n (suc i) self (join self b self b i z)))
    → P (add_tail i self (clear self z))
    → P (round n i self b z)
unfolding set_page
round_cases P n i self b z ne down up out =
    elim (Bool-cases ((orders (clear self z) b == i) && (counts (clear self z) b == 0))) [
      | inr t ↦ rw t out
      | inl t ↦ elim (Bool-cases (ltb b self)) [
        | inl l ↦ rw (t, l) (down (ground arith) (ground arith) (ground arith))
        | inr l ↦ rw (t, l) (up (ground arith) (ground arith) (ground arith))
      ]
    ]

-- The held block and the place of its buddy.
pub Holding-Halves : (m i self : ℕ) (z : MbZone) → Holding m i self z → Halves i self
Holding-Halves m i self z v =
    halves i self
      (subst (λ k. Aligned k self) v.here (v.blocks.aligned self (omega (arith, v.here, v.bound))))

free_loop-Inv :
    (m n i self : ℕ) (z : MbZone) → n + i ≡ m → Holding m i self z → Inv (free_loop n i self z)
unfolding free_loop
free_loop-Inv m zero i self z e v =
    let f : i ≡ m = omega arith in
    subst (λ k. Inv (add_max_order_block k z)) (sym f)
      (release_top-Inv m self z (subst (λ k. Holding m k self z) f v))
free_loop-Inv m (suc n) i self z e v =
    subst Inv (sym (free_loop-suc n i self z))
      (go (free_loop-Inv m n (suc i)) (flip_bit self i) refl (Holding-Halves m i self z v))
  where
    lt : i < m
    lt = omega arith

    more : n + suc i ≡ m
    more = omega arith

    go :
        ((s : ℕ) (y : MbZone)
          → n + suc i ≡ m
          → Holding m (suc i) s y
          → Inv (free_loop n (suc i) s y))
        → (b : ℕ) → flip_bit self i ≡ b
        → Halves i self
        → Inv (round n i self b z)
    go later b f (lower al g) =
        round_cases Inv n i self b z (omega (arith, f, g, pow2_pos i))
          (λ _ _ l. absurd (omega (arith, f, g)))
          (λ eo ec _.
            later self _ more (join_up-Holding m i self z v lt b al (omega (arith, f, g)) eo ec))
          (release-Inv m i self z v lt)
    go later b f (upper c al g h) =
        round_cases Inv n i self b z (omega (arith, f, g, h, pow2_pos i))
          (λ eo ec _. later b _ more (
            join_down-Holding m i self z v lt b (subst (Aligned (suc i)) (sym g ∙ f) al)
              (omega (arith, f, g, h)) eo ec))
          (λ _ _ l. absurd (omega (arith, f, g, h))) (release-Inv m i self z v lt)

pub Taken-Holding :
    (self : ℕ) (z : MbZone) → Inv z → Taken z self → Holding z.max_order (orders z self) self z
Taken-Holding self z v t = record {
  max = refl;
  pool = v.pool;
  blocks = v.blocks;
  held = Held.hold v.blocks.small self v.areas t.marked t.unlisted;
  here = refl;
  bound = t.head;
}

-- Freeing a block in use keeps the invariant.
pub free_page-Inv : (self : ℕ) (z : MbZone) → Inv z → Taken z self → Inv (free_page self z)
unfolding free_page
free_page-Inv self z v t = elim (Bool-cases (counts z self == 0)) [
  | inl e ↦ absurd (t.marked (ground arith))
  | inr e ↦ rw e (
      free_loop-Inv z.max_order (z.max_order - orders z self) (orders z self) self z
        (omega (arith, t.head)) (Taken-Holding self z v t))
]
