-- ===== src/Mailbox/Held.antt =====
-- The free lists while `mailbox_free` holds a block: it counts as taken whatever its `count` says,
-- and is on no list.
use itrustee_tzdriver.Base.{ℕ, ◌<◌, ◌≡◌, ◌≢◌, arith}
use itrustee_tzdriver.Base.Update.{update}
use itrustee_tzdriver.Mailbox.{no_order}
use itrustee_tzdriver.Mailbox.Blocks.{merged}
use itrustee_tzdriver.Mailbox.Areas.{Areas, without, with_tail}

pub record Held (m : ℕ) (ord cnt : ℕ → ℕ) (occ : ℕ → ℕ → ℕ) (self : ℕ) : Type 0 where
  pub areas : Areas m ord (update cnt self 1) occ
  pub off_top : occ m self ≡ 0

module _ {m : ℕ} {ord cnt : ℕ → ℕ} {occ : ℕ → ℕ → ℕ} (small : m < no_order) (self : ℕ) where
  pub hold : Areas m ord cnt occ → cnt self ≢ 0 → occ m self ≡ 0 → Held m ord cnt occ self
  hold v taken off = record {
    areas = record {
      low = λ l p g. ground (arith, v.low l p);
      top_once = λ p. v.top_once p;
      top_order = λ p h. v.top_order p h;
      top_free = λ p f g. ground (arith, v.top_free p);
      idle = λ p f. ground (arith, v.idle p);
    };
    off_top = off;
  }

  module _ (h : Held m ord cnt occ self) (i buddy : ℕ) (lt : i < m) (here : ord self ≡ i) where
    -- The held block and its free buddy become one block, which is held.
    pub join_down :
        self ≢ buddy
        → ord buddy ≡ i
        → cnt buddy ≡ 0
        → Held m (merged ord buddy self i) (update cnt self 0) (without occ buddy) buddy
    join_down ne e f = record {
      areas = record {
        low = λ l p g. ground (arith, h.areas.low l p);
        top_once = λ p. ground (arith, h.areas.top_once p);
        top_order = λ p g. ground (arith, h.areas.top_order p, h.areas.top_order buddy, h.off_top);
        top_free = λ p g k. ground (arith, h.areas.top_free p, h.areas.top_order buddy);
        idle = λ p g. ground (arith, h.areas.idle p);
      };
      off_top = ground (arith, h.areas.top_order buddy);
    }

    pub join_up :
        self ≢ buddy
        → ord buddy ≡ i
        → cnt buddy ≡ 0
        → Held m (merged ord self buddy i) (update cnt self 0) (without occ buddy) self
    join_up ne e f = record {
      areas = record {
        low = λ l p g. ground (arith, h.areas.low l p);
        top_once = λ p. ground (arith, h.areas.top_once p);
        top_order = λ p g. ground (arith, h.areas.top_order p, h.areas.top_order buddy, h.off_top);
        top_free = λ p g k. ground (arith, h.areas.top_free p, h.areas.top_order buddy);
        idle = λ p g. ground (arith, h.areas.idle p);
      };
      off_top = ground (arith, h.off_top);
    }

    -- The held block goes to the list of its order.
    pub release : Areas m ord (update cnt self 0) (with_tail occ i self)
    release = record {
      low = λ l p g. ground (arith, h.areas.low l p);
      top_once = λ p. ground (arith, h.areas.top_once p);
      top_order = λ p g. ground (arith, h.areas.top_order p);
      top_free = λ p g k. ground (arith, h.areas.top_free p);
      idle = λ p g. ground (arith, h.areas.idle p);
    }

  -- The whole pool goes to the top list.
  pub release_top : Held m ord cnt occ self → ord self ≡ m → Areas m ord cnt (with_tail occ m self)
  release_top h here = record {
    low = λ l p g. ground (arith, h.areas.low l p);
    top_once = λ p. ground (arith, h.areas.top_once p, h.off_top);
    top_order = λ p g. ground (arith, h.areas.top_order p);
    top_free = λ p g k. ground (arith, h.areas.top_free p, h.off_top);
    idle = λ p g. ground (arith, h.areas.idle p);
  }
