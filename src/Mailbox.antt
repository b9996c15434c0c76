-- ===== src/Mailbox.antt =====
-- core/mailbox_mempool.c: the buddy allocator of the pages that the driver shares with the TEE.
-- A page is its index in the pool, and an address the number of the page that it points into
-- (`page_address` and `virt_to_page`). Each locked part is one function.
pub mod Blocks
pub mod Areas
pub mod Held
pub mod Inv
pub mod Split
pub mod Alloc
pub mod Grant
pub mod Free
pub mod Drop
pub mod Contract
pub mod History
pub mod Twice
pub mod Copy
pub mod Base
mod Tests
use itrustee_tzdriver.Base.{
  ℕ, zero, suc, ◌+◌, ◌-◌, ◌*◌, Bool, true, false, ◌&&◌, ◌||◌, not, Option, none, some, List, [],
  ◌∷◌, ltb, leb, ◌==◌, if◌then◌else◌,
}
use itrustee_tzdriver.Base.Errno.{Code, success, fail, enomem, eio}
use itrustee_tzdriver.Base.Update.{update}
use itrustee_tzdriver.Base.Pow.{pow2, flip_bit}
use itrustee_tzdriver.Base.Nodes.{list_add_tail, list_del}

-- `(unsigned int)-1`, the order of a page that heads no block.
abbrev pub no_order : ℕ
no_order = 0xFFFFFFFF

-- `order` is read as an `unsigned int`.
pub record MbPage : Type 0 where
  pub order : ℕ
  pub count : ℕ

-- `max_order` is the global `g_max_oder`, set once; `pages[i].page` is `&all_pages[i]` throughout.
pub record MbZone : Type 0 where
  pub max_order : ℕ
  pub all_pages : ℕ
  pub pages : ℕ → MbPage
  pub free_areas : ℕ → List ℕ

-- What the allocator calls in the kernel.
pub record Kernel : Type 0 where
  pub get_order : ℕ → ℕ
  pub align : ℕ → ℕ → ℕ
  -- `memset_s` of so many zero bytes reports an error.
  pub memset_fails : ℕ → Bool
  -- `memcpy_s` of so many bytes reports an error.
  pub memcpy_fails : ℕ → Bool

-- `g_m_zone`, `none` for NULL.
abbrev pub State : Type 0
State = Option MbZone

unfoldable pub set_page : ℕ → MbPage → MbZone → MbZone
set_page i p z = record z { pages = update z.pages i p }

-- `list_add_tail` of a page's node to the list of an order.
unfoldable pub add_tail : ℕ → ℕ → MbZone → MbZone
add_tail k i z = record z { free_areas = update z.free_areas k (list_add_tail i (z.free_areas k)) }

-- `list_del` of a page's node: it leaves whatever list it is on.
unfoldable pub del : ℕ → MbZone → MbZone
del i z = record z { free_areas = λ k. list_del i (z.free_areas k) }

-- The loop over the orders `i`, `i + 1`, …: the first area that is not empty, and its first page.
unfoldable pub first_area : (ℕ → List ℕ) → ℕ → ℕ → Option (ℕ × ℕ)
first_area areas zero i = none
first_area areas (suc n) i = elim (areas i) [
  | [] ↦ first_area areas n (suc i)
  | pos ∷ _ ↦ some (i, pos)
]

-- "split and add free list": the upper halves of the block at `pos`, of orders `j`, `j + 1`, ….
unfoldable pub split : ℕ → ℕ → ℕ → MbZone → MbZone
split zero j pos z = z
split (suc n) j pos z =
    let new_page = pos + pow2 j in
    split n (suc j) pos
      (add_tail j new_page (set_page new_page (record { order = j; count = 0 }) z))

-- The body of the search loop, at the block `pos` of order `i`.
unfoldable pub take_block : ℕ → ℕ → ℕ → MbZone → MbZone
take_block order i pos z =
    del pos (split (i - order) order pos (set_page pos (record { order = order; count = 1 }) z))

-- The locked part of `mailbox_alloc`: the page taken, if there is one.
unfoldable pub alloc_order : ℕ → MbZone → Option ℕ × MbZone
alloc_order order z = elim (first_area z.free_areas (suc z.max_order - order) order) [
  | none ↦ (none, z)
  | some (i, pos) ↦ (some pos, take_block order i pos z)
]

unfoldable pub add_max_order_block : ℕ → MbZone → MbZone
add_max_order_block idex z = if idex == z.max_order then add_tail z.max_order 0 z else z

-- The loop of `mailbox_free` at order `i` with `n` rounds left; `self` is the page's index.
unfoldable pub free_loop : ℕ → ℕ → ℕ → MbZone → MbZone
free_loop zero i self z = add_max_order_block i z
free_loop (suc n) i self z =
    let buddy = flip_bit self i in
    let z1 = set_page self (record (z.pages self) { count = 0 }) z in
    let b = z1.pages buddy in
    let z2 = del buddy z1 in
    let down = free_loop n (suc i) buddy (
      set_page self (record (z2.pages self) { order = no_order })
        (set_page buddy (record b { order = i + 1 }) z2)) in
    let up = free_loop n (suc i) self (
      set_page buddy (record b { order = no_order })
        (set_page self (record (z2.pages self) { order = i + 1 }) z2)) in
    if b.order == i && b.count == 0
    then (if ltb buddy self then down else up)
    else add_tail i self z1

-- The locked part of `mailbox_free`.
unfoldable pub free_page : ℕ → MbZone → MbZone
free_page self z =
    let order = (z.pages self).order in
    if (z.pages self).count == 0 then z else free_loop (z.max_order - order) order self z

-- `MAILBOX_PAGE_MAX`: 4 MiB in pages of 4 KiB.
abbrev pub mailbox_page_max : ℕ
mailbox_page_max = 1024

pub is_ptr_valid : MbZone → ℕ → Bool
is_ptr_valid z page = not (ltb page z.all_pages || leb (z.all_pages + mailbox_page_max) page)

unfoldable pub mailbox_free : Option ℕ → State → State
unfolding free_page is_ptr_valid
mailbox_free none s = s
mailbox_free (some ptr) none = none
mailbox_free (some ptr) (some z) =
    if is_ptr_valid z ptr then some (free_page (ptr - z.all_pages) z) else some z

abbrev pub sz_4k : ℕ
sz_4k = 4096

module _ (kernel : Kernel) where
  -- `if (addr && (flag & MB_FLAG_ZERO)) …`: on a failed `memset_s` the block is freed again.
  pub clean_block : ℕ → Bool → MbZone → Option ℕ → Option ℕ × State
  clean_block size zeroed z none = (none, some z)
  clean_block size zeroed z (some pos) =
      let addr = z.all_pages + pos in
      if zeroed && kernel.memset_fails (kernel.align size sz_4k)
      then (none, mailbox_free (some addr) (some z))
      else (some addr, some z)

  -- `zeroed` is `flag & MB_FLAG_ZERO`.
  pub mailbox_alloc : ℕ → Bool → State → Option ℕ × State
  unfolding clean_block alloc_order
  mailbox_alloc size zeroed none = (none, none)
  mailbox_alloc size zeroed (some z) =
      let order = kernel.get_order (kernel.align size sz_4k) in
      let (found, z') = alloc_order order z in
      if size == 0 || ltb z.max_order order
      then (none, some z)
      else clean_block size zeroed z' found

  -- `mailbox_alloc_cmd_pack`.
  unfoldable pub mailbox_alloc_cmd_pack : State → Option ℕ × State
  mailbox_alloc_cmd_pack s = mailbox_alloc sz_4k true s

  -- The end of `mailbox_copy_alloc`, with what `mailbox_alloc` gave.
  unfoldable pub copy_in : ℕ → Option ℕ × State → Option ℕ × State
  copy_in size (none, s) = (none, s)
  copy_in size (some ptr, s) =
      if kernel.memcpy_fails size then (none, mailbox_free (some ptr) s) else (some ptr, s)

  -- `src` is whether the pointer is not NULL; the bytes are not modelled.
  unfoldable pub mailbox_copy_alloc : Bool → ℕ → State → Option ℕ × State
  unfolding copy_in mailbox_alloc
  mailbox_copy_alloc src size s =
      if not src || size == 0 then (none, s) else copy_in size (mailbox_alloc size false s)

-- The zone as `mailbox_mempool_init` fills it: one block, the whole pool, on the top list.
unfoldable pub init_zone : ℕ → ℕ → MbZone
init_zone max_order all_pages = record {
  max_order = max_order;
  all_pages = all_pages;
  pages = λ i. record { order = if i == 0 then max_order else no_order; count = 0 };
  free_areas = λ i. if i == max_order then 0 ∷ [] else [];
}

abbrev pub mailbox_pool_size : ℕ
mailbox_pool_size = 4 * 1024 * 1024

-- What `mailbox_mempool_init` meets: whether `kzalloc` gives a zone, the pages that
-- `koadpt_alloc_pages` gives, and whether the TEE takes the pool (`mailbox_register`).
pub record InitEnv : Type 0 where
  pub zone : Bool
  pub all_pages : Option ℕ
  pub registered : Bool

init_pages : ℕ → Bool → Option ℕ → Code × State
init_pages max_order registered none = (fail enomem, none)
init_pages max_order registered (some all_pages) =
    if registered then (success, some (init_zone max_order all_pages)) else (fail eio, none)

pub mailbox_mempool_init : Kernel → InitEnv → Code × State
unfolding init_pages
mailbox_mempool_init kernel env =
    if env.zone
    then init_pages (kernel.get_order mailbox_pool_size) env.registered env.all_pages
    else (fail enomem, none)

pub mailbox_mempool_destroy : State → State
mailbox_mempool_destroy s = none
