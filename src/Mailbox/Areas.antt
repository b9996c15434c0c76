-- ===== src/Mailbox/Areas.antt =====
-- The free lists: how often page `p` is on the list of order `k` is `occ k p`. Below the top order a
-- page is on the list of its order, once, if its block is free, and on no other list. The top list
-- holds at most the one block that is the whole pool, whose `count` may be left set.
use itrustee_tzdriver.Base.{ℕ, ◌+◌, ◌-◌, ◌≤◌, ◌<◌, ◌≡◌, ◌&&◌, arith, ◌==◌, if◌then◌else◌}
use itrustee_tzdriver.Base.Update.{update}
use itrustee_tzdriver.Base.Nodes.{same}
use itrustee_tzdriver.Mailbox.{no_order}

pub record Areas (m : ℕ) (ord cnt : ℕ → ℕ) (occ : ℕ → ℕ → ℕ) : Type 0 where
  pub low : (k p : ℕ) → k < m → occ k p ≡ (if (ord p == k) && (cnt p == 0) then 1 else 0)
  pub top_once : (p : ℕ) → occ m p ≤ 1
  pub top_order : (p : ℕ) → 0 < occ m p → ord p ≡ m
  pub top_free : (p : ℕ) → ord p ≡ m → cnt p ≡ 0 → occ m p ≡ 1
  pub idle : (p : ℕ) → ord p ≡ no_order → cnt p ≡ 0

-- The lists after `list_del` of `i`, and after `list_add_tail` of `i` to the list of order `j`.
abbrev pub without : (ℕ → ℕ → ℕ) → ℕ → ℕ → ℕ → ℕ
without occ i k p = occ k p - same i p

abbrev pub with_tail : (ℕ → ℕ → ℕ) → ℕ → ℕ → ℕ → ℕ → ℕ
with_tail occ j i k p = if j == k then occ k p + same i p else occ k p

module _ {m : ℕ} {ord cnt : ℕ → ℕ} {occ : ℕ → ℕ → ℕ} (small : m < no_order) where
  -- A free block leaves its list and is handed out at a lower order.
  pub take_out :
      (i pos k : ℕ)
      → Areas m ord cnt occ
      → i ≤ m
      → 0 < occ i pos
      → k ≤ i
      → Areas m (update ord pos k) (update cnt pos 1) (without occ pos)
  take_out i pos k v le on lk = record {
    low = λ l p lt. ground (arith, v.low l p, v.low i pos, v.top_order pos);
    top_once = λ p. ground (arith, v.top_once p);
    top_order = λ p h. ground (arith, v.top_order p, v.top_once p);
    top_free = λ p e f. ground (arith, v.top_free p);
    idle = λ p e. ground (arith, v.idle p);
  }

  -- The block of order `i` of a listed page is `i`.
  pub listed_order : (i pos : ℕ) → Areas m ord cnt occ → i ≤ m → 0 < occ i pos → ord pos ≡ i
  listed_order i pos v le on = ground (arith, v.low i pos, v.top_order pos)

  -- A page that headed no block heads a free one of order `j`.
  pub add_free :
      (a j : ℕ)
      → Areas m ord cnt occ
      → ord a ≡ no_order
      → j < m
      → Areas m (update ord a j) (update cnt a 0) (with_tail occ j a)
  add_free a j v e lt = record {
    low = λ l p g. ground (arith, v.low l p);
    top_once = λ p. ground (arith, v.top_once p);
    top_order = λ p h. ground (arith, v.top_order p);
    top_free = λ p f g. ground (arith, v.top_free p);
    idle = λ p f. ground (arith, v.idle p);
  }
