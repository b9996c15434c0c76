-- ===== src/Mailbox/Drop.antt =====
-- What `mailbox_free` does to the blocks in use: the one freed is in use no more, and every other one
-- is as it was.
use itrustee_tzdriver.Base.{
  ℕ, zero, suc, ◌+◌, ◌-◌, ◌<◌, ◌≡◌, refl, sym, ap, subst, ◌∙◌, ◌≢◌, ◌⊎◌, inl, inr, arith, ◌==◌,
  Bool-cases,
}
use itrustee_tzdriver.Base.Nodes.{occurs-list_del, occurs-list_add_tail}
use itrustee_tzdriver.Base.Pow.{pow2, pow2_pos, flip_bit, Halves, lower, upper, Aligned}
use itrustee_tzdriver.Mailbox.{
  MbZone, set_page, add_tail, del, add_max_order_block, free_loop, free_page,
}
use itrustee_tzdriver.Mailbox.Inv.{Inv, Taken, orders, counts}
use itrustee_tzdriver.Mailbox.Free.{
  Holding, clear, join, round, free_loop-suc, round_cases, join_down-Holding, join_up-Holding,
  Holding-Halves, Taken-Holding,
}

-- `z'` is `z` with the block at `self` freed, as seen from page `q`.
pub record Dropped (z z' : MbZone) (self q : ℕ) : Type 0 where
  pub keep : Taken z q → q ≢ self → Taken z' q × (orders z' q ≡ orders z q)
  pub only : Taken z' q → Taken z q × (q ≢ self)

module _ (m i self q : ℕ) (z : MbZone) (v : Holding m i self z) where
  release-Dropped : i < m → Dropped z (add_tail i self (clear self z)) self q
  unfolding add_tail set_page
  release-Dropped lt = record {
    keep = λ t ne. ground (arith, occurs-list_add_tail self q (z.free_areas i), v.max);
    only = λ t. ground (arith, t.marked, t.unlisted, t.head, v.max);
  }

  release_top-Dropped : i ≡ m → Dropped z (add_max_order_block i z) self q
  unfolding add_max_order_block add_tail
  release_top-Dropped e = record {
    keep = λ t ne. ground (
      arith,
      first,
      t.head,
      t.marked,
      t.unlisted,
      occurs-list_add_tail 0 q (z.free_areas i),
      v.max,
    );
    only = λ t. ground (
      arith,
      first,
      t.head,
      t.marked,
      t.unlisted,
      occurs-list_add_tail 0 q (z.free_areas i),
      v.max,
    );
  }
    where
      first : self ≡ 0
      first = omega (arith, v.blocks.inside self, v.here, ap pow2 v.here, ap pow2 e)

module _ (m i self b q : ℕ) (z : MbZone) (v : Holding m i self z) (ne : self ≢ b)
    (free : counts z b ≡ 0) where
  -- A block in use outlives the joining of the held block with the free one.
  join-keep :
      (lo hi : ℕ)
      → ((lo ≡ b) × (hi ≡ self)) ⊎ ((lo ≡ self) × (hi ≡ b))
      → Taken z q
      → q ≢ self
      → Taken (join self b lo hi i z) q × (orders (join self b lo hi i z) q ≡ orders z q)
  unfolding set_page del
  join-keep lo hi s t away =
      let other : q ≢ b = λ e. t.marked (subst (λ k. counts z k ≡ 0) (sym e) free) in
      ground
        (arith, other, t.head, t.marked, t.unlisted, occurs-list_del b q (z.free_areas z.max_order))

  join-only :
      (lo hi : ℕ)
      → ((lo ≡ b) × (hi ≡ self)) ⊎ ((lo ≡ self) × (hi ≡ b))
      → Taken (join self b lo hi i z) q
      → q ≢ lo
      → Taken z q × (q ≢ self)
  unfolding set_page del
  join-only lo hi s t away = ground (
    arith,
    t.head,
    t.marked,
    t.unlisted,
    v.max,
    v.blocks.small,
    occurs-list_del b q (z.free_areas z.max_order),
  )

  join-Dropped :
      (lo hi : ℕ) (z' : MbZone)
      → ((lo ≡ b) × (hi ≡ self)) ⊎ ((lo ≡ self) × (hi ≡ b))
      → Dropped (join self b lo hi i z) z' lo q
      → Dropped z z' self q
  join-Dropped lo hi z' s d = record {
    keep = λ t away.
        let (u, e) = join-keep lo hi s t away in
        let (w, f) = d.keep u (still s t away) in (w, f ∙ e);
    only = λ t. let (u, away) = d.only t in join-only lo hi s u away;
  }
    where
      still : ((lo ≡ b) × (hi ≡ self)) ⊎ ((lo ≡ self) × (hi ≡ b)) → Taken z q → q ≢ self → q ≢ lo
      still (inl (e, _)) t away f = t.marked (subst (λ k. counts z k ≡ 0) (sym (f ∙ e)) free)
      still (inr (e, _)) t away f = away (f ∙ e)

free_loop-Dropped :
    (m n i self q : ℕ) (z : MbZone)
    → n + i ≡ m
    → Holding m i self z
    → Dropped z (free_loop n i self z) self q
unfolding free_loop
free_loop-Dropped m zero i self q z e v = release_top-Dropped m i self q z v (omega arith)
free_loop-Dropped m (suc n) i self q z e v =
    subst (λ z'. Dropped z z' self q) (sym (free_loop-suc n i self z))
      (go (λ s y. free_loop-Dropped m n (suc i) s q y (omega arith)) (flip_bit self i) refl
        (Holding-Halves m i self z v))
  where
    lt : i < m
    lt = omega arith

    go :
        ((s : ℕ) (y : MbZone) → Holding m (suc i) s y → Dropped y (free_loop n (suc i) s y) s q)
        → (b : ℕ) → flip_bit self i ≡ b
        → Halves i self
        → Dropped z (round n i self b z) self q
    go later b f (lower al g) =
        let ne : self ≢ b = omega (arith, f, g, pow2_pos i) in
        round_cases (λ z'. Dropped z z' self q) n i self b z ne
          (λ _ _ l. absurd (omega (arith, f, g)))
          (λ eo ec _.
            join-Dropped m i self b q z v ne ec self b _ (inr (refl, refl))
              (later self _ (join_up-Holding m i self z v lt b al (omega (arith, f, g)) eo ec)))
          (release-Dropped m i self q z v lt)
    go later b f (upper c al g h) =
        let ne : self ≢ b = omega (arith, f, g, h, pow2_pos i) in
        round_cases (λ z'. Dropped z z' self q) n i self b z ne
          (λ eo ec _. join-Dropped m i self b q z v ne ec b self _ (inl (refl, refl)) (
            later b _ (
              join_down-Holding m i self z v lt b (subst (Aligned (suc i)) (sym g ∙ f) al)
                (omega (arith, f, g, h)) eo ec)))
          (λ _ _ l. absurd (omega (arith, f, g, h))) (release-Dropped m i self q z v lt)

-- Freeing a block in use takes it, and nothing else, out of use.
pub free_page-Dropped :
    (self q : ℕ) (z : MbZone) → Inv z → Taken z self → Dropped z (free_page self z) self q
unfolding free_page
free_page-Dropped self q z v t = elim (Bool-cases (counts z self == 0)) [
  | inl e ↦ absurd (t.marked (ground arith))
  | inr e ↦ rw e (
      free_loop-Dropped z.max_order (z.max_order - orders z self) (orders z self) self q z
        (omega (arith, t.head)) (Taken-Holding self z v t))
]
