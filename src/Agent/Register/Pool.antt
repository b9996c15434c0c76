-- ===== src/Agent/Register/Pool.antt =====
-- The pool of core/mailbox_mempool.c while core/agent.c registers an agent.
use itrustee_tzdriver.Base.{ℕ, ◌+◌, ◌≡◌, ◌≢◌, sym, subst, ◌∙◌, true, Option, none, some, arith}
use itrustee_tzdriver.Base.Pow.{pow2_pos}
use itrustee_tzdriver.Mailbox.{
  MbZone, Kernel, State, sz_4k, free_page, mailbox_free, mailbox_alloc, mailbox_alloc_cmd_pack,
}
use itrustee_tzdriver.Mailbox.Inv.{Inv, Taken, orders}
use itrustee_tzdriver.Mailbox.Grant.{Granted}
use itrustee_tzdriver.Mailbox.Free.{free_page-Inv}
use itrustee_tzdriver.Mailbox.Drop.{free_page-Dropped}
use itrustee_tzdriver.Mailbox.Contract.{
  SameUse, Allocated, mailbox_free-Taken, mailbox_alloc-Allocated,
}
use itrustee_tzdriver.Mailbox.Base.{SameBase, mailbox_free-SameBase, mailbox_alloc-SameBase}

-- The pool is where it was and has the same blocks in use.
abbrev pub PoolSame : MbZone → State → Type 0
PoolSame z none = ⊥
PoolSame z (some z') = SameUse z z' × (z'.all_pages ≡ z.all_pages)

-- The pool has, besides the blocks that were in use, one of this order at this page.
abbrev pub PoolGranted : MbZone → ℕ → ℕ → State → Type 0
PoolGranted z order pos none = ⊥
PoolGranted z order pos (some z') =
    Inv z'
    × Taken z' pos
    × (orders z' pos ≡ order)
    × ((q : ℕ) → Taken z q → Taken z' q × (orders z' q ≡ orders z q))

pub Granted-SameUse :
    (z z' z2 : MbZone) (order pos : ℕ)
    → Granted z z' order pos
    → SameUse z' z2
    → PoolGranted z order pos (some z2)
Granted-SameUse z z' z2 order pos g s =
    let (t, e) = s.keep pos g.taken in
    (s.inv, t, e ∙ g.size, λ q u. let (v, f) = g.kept q u in let (w, h) = s.keep q v in (w, h ∙ f))

freed_after :
    (z z' z2 : MbZone) (order pos : ℕ)
    → Granted z z' order pos
    → SameUse z' z2
    → SameUse z (free_page pos z2)
freed_after z z' z2 order pos g s = record {
  inv = free_page-Inv pos z2 s.inv taken;
  keep = λ q t.
      let (u, e) = g.kept q t in
      let (u2, e2) = s.keep q u in
      let (w, f) = (free_page-Dropped pos q z2 s.inv taken).keep u2 (away q t) in (w, f ∙ e2 ∙ e);
  only = λ q t.
      let (u, ne) = (free_page-Dropped pos q z2 s.inv taken).only t in g.only q (s.only q u) ne;
}
  where
    taken : Taken z2 pos
    taken = (s.keep pos g.taken).0

    away : (q : ℕ) → Taken z q → q ≢ pos
    away q t e = ground (arith, g.apart q t, e, pow2_pos order, pow2_pos (orders z q))

-- A block that was handed out is freed later: what was in use before is in use.
pub mailbox_free-PoolSame :
    (z z' z2 : MbZone) (order pos : ℕ)
    → Granted z z' order pos
    → SameUse z' z2
    → z2.all_pages ≡ z.all_pages
    → PoolSame z (mailbox_free (some (z.all_pages + pos)) (some z2))
mailbox_free-PoolSame z z' z2 order pos g s e =
    subst (λ a. PoolSame z (mailbox_free (some (a + pos)) (some z2))) e
      (subst (PoolSame z) (sym (mailbox_free-Taken pos z2 s.inv (s.keep pos g.taken).0))
        (freed_after z z' z2 order pos g s, base))
  where
    base : (free_page pos z2).all_pages ≡ z.all_pages
    base =
        subst (λ (r : State). SameBase z2 r)
          (mailbox_free-Taken pos z2 s.inv (s.keep pos g.taken).0)
          (mailbox_free-SameBase (some (z2.all_pages + pos)) z2)
        ∙ e

-- What `mailbox_alloc` gives of a sound pool, with the place of the pool.
abbrev pub Alloc : Kernel → ℕ → MbZone → Option ℕ × State → Type 0
Alloc kernel size z r = Allocated kernel size z r × SameBase z r.1

pub mailbox_alloc-Alloc :
    (kernel : Kernel) (size : ℕ) (z : MbZone)
    → Inv z
    → Alloc kernel size z (mailbox_alloc kernel size true (some z))
mailbox_alloc-Alloc kernel size z v =
    (mailbox_alloc-Allocated kernel size true z v, mailbox_alloc-SameBase kernel size true z v)

pub mailbox_alloc_cmd_pack-Alloc :
    (kernel : Kernel) (z : MbZone)
    → Inv z
    → Alloc kernel sz_4k z (mailbox_alloc_cmd_pack kernel (some z))
unfolding mailbox_alloc_cmd_pack
mailbox_alloc_cmd_pack-Alloc kernel z v = mailbox_alloc-Alloc kernel sz_4k z v
