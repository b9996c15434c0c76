-- ===== src/Mailbox/History.antt =====
-- The pool over a whole history of calls: the invariant holds from `mailbox_mempool_init` on.
use itrustee_tzdriver.Base.{
  ℕ, ◌+◌, ◌≤◌, ◌<◌, ◌≡◌, refl, ◌≢◌, inr, Bool, true, false, Option, none, some, arith,
}
use itrustee_tzdriver.Base.Errno.{Code, success, fail}
use itrustee_tzdriver.Base.Nodes.{occurs}
use itrustee_tzdriver.Base.Pow.{pow2, pow2_pos}
use itrustee_tzdriver.Mailbox.{
  MbZone, Kernel, State, InitEnv, no_order, mailbox_page_max, mailbox_pool_size, mailbox_free,
  mailbox_alloc, init_zone, mailbox_mempool_init,
}
use itrustee_tzdriver.Mailbox.Inv.{Inv, Taken, Apart, orders}
use itrustee_tzdriver.Mailbox.Contract.{
  Allocated, Freed, mailbox_alloc-Allocated, mailbox_free-Freed,
}

-- What `mailbox_mempool_init` builds meets the invariant, with nothing in use.
pub init_zone-Inv :
    (max_order all_pages : ℕ)
    → max_order < no_order
    → pow2 max_order ≡ mailbox_page_max
    → Inv (init_zone max_order all_pages)
unfolding init_zone occurs
init_zone-Inv m base small pool = record {
  pool = pool;
  blocks = record {
    small = small;
    aligned = λ p h. (0, ground (arith, pow2_pos m));
    inside = λ p h. ground arith;
    apart = λ p q h g l. ground arith;
    beside = λ p h. omega arith;
    covered = λ x h. inr (0, (ground arith, ground arith, ground arith));
    orders = λ p. ground arith;
  };
  areas = record {
    low = λ k p h. ground arith;
    top_once = λ p. ground arith;
    top_order = λ p h. ground arith;
    top_free = λ p e f. ground arith;
    idle = λ p e. ground arith;
  };
}

-- The states that calls of the allocator lead to, when only blocks in use are freed.
pub data Reach (kernel : Kernel) (start : State) : State → Type 0 where
  here : Reach kernel start start
  alloc :
      {s : State} (size : ℕ) (zeroed : Bool)
      → Reach kernel start s
      → Reach kernel start (mailbox_alloc kernel size zeroed s).1
  free :
      {z : MbZone} (q : ℕ)
      → Reach kernel start (some z)
      → Taken z q
      → Reach kernel start (mailbox_free (some (z.all_pages + q)) (some z))

-- A zone that meets the invariant.
abbrev pub IsSound : State → Type 0
IsSound none = ⊥
IsSound (some z) = Inv z

Allocated-IsSound :
    (kernel : Kernel) (size : ℕ) (z : MbZone) (r : Option ℕ × State)
    → Allocated kernel size z r
    → IsSound r.1
Allocated-IsSound kernel size z (none, none) h = h
Allocated-IsSound kernel size z (some a, none) h = h
Allocated-IsSound kernel size z (none, some z') h = h.inv
Allocated-IsSound kernel size z (some a, some z') h = h.2.inv

Freed-IsSound : (z : MbZone) (q : ℕ) (s : State) → Freed z q s → IsSound s
Freed-IsSound z q none h = h
Freed-IsSound z q (some z') h = h.0

mailbox_alloc-IsSound :
    (kernel : Kernel) (size : ℕ) (zeroed : Bool) (s : State)
    → IsSound s
    → IsSound (mailbox_alloc kernel size zeroed s).1
mailbox_alloc-IsSound kernel size zeroed none h = absurd h
mailbox_alloc-IsSound kernel size zeroed (some z) h =
    Allocated-IsSound kernel size z _ (mailbox_alloc-Allocated kernel size zeroed z h)

Reach-IsSound :
    {kernel : Kernel} {start s : State} → IsSound start → Reach kernel start s → IsSound s
Reach-IsSound v here = v
Reach-IsSound {kernel} v (alloc {s = s} size zeroed r) =
    mailbox_alloc-IsSound kernel size zeroed s (Reach-IsSound v r)
Reach-IsSound v (free {z = z} q r t) =
    Freed-IsSound z q _ (mailbox_free-Freed q z (Reach-IsSound v r) t)

-- `mailbox_mempool_init` gives a zone that meets the invariant, or no zone and an error.
abbrev pub Initialised : Code × State → Type 0
Initialised (success, s) = IsSound s
Initialised (fail e, s) = s ≡ none

-- If the pool's order is what `get_order` says it is, and not the mark of a page without a block, `mailbox_mempool_init` gives a sound zone when
-- it succeeds, and none when it fails.
pub mailbox_mempool_init-Initialised :
    (kernel : Kernel) (env : InitEnv)
    → pow2 (kernel.get_order mailbox_pool_size) ≡ mailbox_page_max
    → kernel.get_order mailbox_pool_size < no_order
    → Initialised (mailbox_mempool_init kernel env)
unfolding mailbox_mempool_init
mailbox_mempool_init-Initialised kernel env pool small = go env.zone env.registered env.all_pages
  where
    go :
        (zone registered : Bool) (pages : Option ℕ)
        → Initialised (
            mailbox_mempool_init kernel
              (record { zone = zone; all_pages = pages; registered = registered }))
    go false registered pages = refl
    go true registered none = refl
    go true true (some base) = init_zone-Inv (kernel.get_order mailbox_pool_size) base small pool
    go true false (some base) = refl

-- From a sound zone on, after any history of calls that free only blocks in use, blocks in use at two
-- different pages share no page, and the first of them lies inside the pool.
pub Reach-Apart :
    (kernel : Kernel) (start z : MbZone) (p q : ℕ)
    → Inv start
    → Reach kernel (some start) (some z)
    → Taken z p
    → Taken z q
    → p ≢ q
    → Apart p (orders z p) q (orders z q) × (p + pow2 (orders z p) ≤ mailbox_page_max)
Reach-Apart kernel start z p q v r t u ne =
    let w : Inv z = Reach-IsSound v r in
    ground (
      arith,
      w.pool,
      w.blocks.inside p t.head,
      w.blocks.apart p q t.head u.head,
      w.blocks.apart q p u.head t.head,
    )
