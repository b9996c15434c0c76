-- ===== src/Mailbox/Inv.antt =====
-- The invariant of the zone, and the zone's writes seen through the three functions it is about.
use mathlib.Core.Path.{fun_ext}
use itrustee_tzdriver.Base.{ℕ, ◌+◌, ◌≤◌, ◌≡◌, ◌≢◌, ◌⊎◌, arith}
use itrustee_tzdriver.Base.Update.{update}
use itrustee_tzdriver.Base.Nodes.{occurs, occurs-list_add_tail, occurs-list_del}
use itrustee_tzdriver.Base.Pow.{pow2}
use itrustee_tzdriver.Mailbox.{mailbox_page_max, MbPage, MbZone, set_page, add_tail, del}
use itrustee_tzdriver.Mailbox.Blocks.{Blocks}
use itrustee_tzdriver.Mailbox.Areas.{Areas, without, with_tail}

abbrev pub orders : MbZone → ℕ → ℕ
orders z p = (z.pages p).order

abbrev pub counts : MbZone → ℕ → ℕ
counts z p = (z.pages p).count

abbrev pub occs : MbZone → ℕ → ℕ → ℕ
occs z k p = occurs p (z.free_areas k)

-- The pool is cut into aligned blocks, and the free lists hold the free ones.
pub record Inv (z : MbZone) : Type 0 where
  pub pool : pow2 z.max_order ≡ mailbox_page_max
  pub blocks : Blocks z.max_order (orders z) 0 0
  pub areas : Areas z.max_order (orders z) (counts z) (occs z)

-- The block that page `q` heads is in use: it is marked so and is on no free list.
pub record Taken (z : MbZone) (q : ℕ) : Type 0 where
  pub head : orders z q ≤ z.max_order
  pub marked : counts z q ≢ 0
  pub unlisted : occs z z.max_order q ≡ 0

-- Two blocks share no page.
abbrev pub Apart : ℕ → ℕ → ℕ → ℕ → Type 0
Apart p j q k = (p + pow2 j ≤ q) ⊎ (q + pow2 k ≤ p)

pub orders-set_page :
    (i : ℕ) (p : MbPage) (z : MbZone) → orders (set_page i p z) ≡ update (orders z) i p.order
unfolding set_page
orders-set_page i p z = fun_ext λ q. ground arith

pub counts-set_page :
    (i : ℕ) (p : MbPage) (z : MbZone) → counts (set_page i p z) ≡ update (counts z) i p.count
unfolding set_page
counts-set_page i p z = fun_ext λ q. ground arith

pub occs-add_tail : (k i : ℕ) (z : MbZone) → occs (add_tail k i z) ≡ with_tail (occs z) k i
unfolding add_tail
occs-add_tail k i z =
    fun_ext λ l. fun_ext λ p. ground (arith, occurs-list_add_tail i p (z.free_areas k))

pub occs-del : (i : ℕ) (z : MbZone) → occs (del i z) ≡ without (occs z) i
unfolding del
occs-del i z = fun_ext λ l. fun_ext λ p. occurs-list_del i p (z.free_areas l)
