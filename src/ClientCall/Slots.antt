-- ===== src/ClientCall/Slots.antt =====
-- Whose blocks and shared memories the four parameters of a call keep (core/gp_ops.c), against a pool
-- that says which blocks are in use.
use mathlib.Core.Path.{fun_ext}
use itrustee_tzdriver.Base.{
  ℕ, zero, suc, ◌+◌, ◌≤◌, ◌<◌, ◌≡◌, ◌≢◌, subst, Bool, true, Option, none, some, arith,
  if◌then◌else◌,
}
use itrustee_tzdriver.Base.Nodes.{same}
use itrustee_tzdriver.Param.{is_tmp_mem, is_ref_mem}
use itrustee_tzdriver.ClientCall.{PoolOps, SharedMem, Work, CallEnv}
use itrustee_tzdriver.ClientCall.Alloc.{param_type}

-- The pool's answer: an address is in use once more.
abbrev pub Given : {S : Type 0} → ((ℕ → ℕ) → S → Type 0) → (ℕ → ℕ) → Option ℕ × S → Type 0
Given Holds h (none, s) = Holds h s
Given Holds h (some p, s) = Holds (λ a. h a + same p a) s

-- What a pool promises: `Holds h s` says that the blocks in use are those at which `h` is 1, and no
-- others.
pub record PoolLaws {S : Type 0} (ops : PoolOps S) : Type 1 where
  pub Holds : (ℕ → ℕ) → S → Type 0
  pub alloc-Given :
      (h : ℕ → ℕ) (size : ℕ) (zeroed : Bool) (s : S)
      → Holds h s
      → Given Holds h (ops.alloc size zeroed s)
  pub copy_alloc-Given :
      (h : ℕ → ℕ) (src : Bool) (size : ℕ) (s : S)
      → Holds h s
      → Given Holds h (ops.copy_alloc src size s)
  pub cmd_pack-Given : (h : ℕ → ℕ) (s : S) → Holds h s → Given Holds h (ops.cmd_pack s)
  pub free-Holds :
      (h : ℕ → ℕ) (p : ℕ) (s : S) → Holds (λ a. h a + same p a) s → Holds h (ops.free (some p) s)

unfoldable pub count : Option ℕ → ℕ → ℕ
count none a = 0
count (some p) a = same p a

-- The sums of the first `n` values, and of `n` values from one on.
unfoldable pub below : (ℕ → ℕ) → ℕ → ℕ
below f zero = 0
below f (suc n) = below f n + f n

unfoldable pub from : (ℕ → ℕ) → ℕ → ℕ → ℕ
from f zero i = 0
from f (suc n) i = f i + from f n (suc i)

pub below-from : (f : ℕ → ℕ) → below f 4 ≡ from f 4 0
unfolding below from
below-from f = omega arith

pub below_eq : (f g : ℕ → ℕ) (n : ℕ) → ((j : ℕ) → j < n → f j ≡ g j) → below f n ≡ below g n
unfolding below
below_eq f g zero h = omega arith
below_eq f g (suc n) h =
    omega (arith, below_eq f g n (λ j lt. h j (omega (arith, lt))), h n (omega arith))

module _ (env : CallEnv) where
  -- How often the parameter `i` keeps a block, by its type.
  unfoldable pub block : (ℕ → Option ℕ) → (ℕ → Option ℕ) → ℕ → ℕ → ℕ
  unfolding count
  block tmp mb a i =
      if is_tmp_mem (param_type env i)
      then count (tmp i) a
      else if is_ref_mem (param_type env i)
      then count (mb i) a
      else 0

  -- The same for a shared memory.
  unfoldable pub ref : (ℕ → Option ℕ) → ℕ → ℕ → ℕ
  unfolding count
  ref sh m i =
      if is_tmp_mem (param_type env i)
      then 0
      else if is_ref_mem (param_type env i)
      then count (sh i) m
      else 0

module _ {S : Type 0} (pool : PoolOps S) (laws : PoolLaws pool) (env : CallEnv) (base : ℕ → ℕ)
    (mems0 : ℕ → SharedMem) where
  -- The parameters below `i` are allocated, and nothing else is.
  pub record Built (i : ℕ) (s : S) (mems : ℕ → SharedMem) (tmp sh mb : ℕ → Option ℕ) : Type 0 where
    pub holds : laws.Holds (λ a. base a + below (block env tmp mb a) i) s
    pub unused : (j : ℕ) → i ≤ j → (tmp j ≡ none) × (sh j ≡ none) × (mb j ≡ none)
    pub counted :
        (m : ℕ) → mems m ≡ record (mems0 m) { usage = (mems0 m).usage + below (ref env sh m) i }
    pub used : (j m : ℕ) → sh j ≡ some m → (mems0 m).usage ≢ 0
    pub kind : (j p : ℕ) → tmp j ≡ some p → is_tmp_mem (param_type env j) ≡ true

  abbrev pub BuiltWork : ℕ → Work S → Type 0
  BuiltWork i w =
      Built i w.pool w.mems (λ j. (w.local_tmpbuf j).temp_buffer) w.operation.sharemem
        w.operation.mb_buffer

  -- The parameters from `i` on are still allocated, `n` in number.
  pub record Freeing (n i : ℕ) (s : S) (mems : ℕ → SharedMem) (tmp sh mb : ℕ → Option ℕ)
      : Type 0 where
    pub holds : laws.Holds (λ a. base a + from (block env tmp mb a) n i) s
    pub counted :
        (m : ℕ) → mems m ≡ record (mems0 m) { usage = (mems0 m).usage + from (ref env sh m) n i }
    pub used : (j m : ℕ) → sh j ≡ some m → (mems0 m).usage ≢ 0
    pub kind : (j p : ℕ) → tmp j ≡ some p → is_tmp_mem (param_type env j) ≡ true

  abbrev pub FreeingWork : ℕ → ℕ → Work S → Type 0
  FreeingWork n i w =
      Freeing n i w.pool w.mems (λ j. (w.local_tmpbuf j).temp_buffer) w.operation.sharemem
        w.operation.mb_buffer

  pub Holds_eq : (h g : ℕ → ℕ) (s : S) → ((a : ℕ) → h a ≡ g a) → laws.Holds h s → laws.Holds g s
  Holds_eq h g s e = subst (λ (k : ℕ → ℕ). laws.Holds k s) (fun_ext e)

  -- All four parameters are to be freed.
  pub Built-Freeing :
      (s : S) (mems : ℕ → SharedMem) (tmp sh mb : ℕ → Option ℕ)
      → Built 4 s mems tmp sh mb
      → Freeing 4 0 s mems tmp sh mb
  Built-Freeing s mems tmp sh mb b = record {
    holds = Holds_eq _ _ s (λ a. omega (arith, below-from (block env tmp mb a))) b.holds;
    counted = λ m. ground (arith, below-from (ref env sh m), b.counted m);
    used = b.used;
    kind = b.kind;
  }

  -- A parameter for which nothing is allocated.
  pub Built-suc :
      (i : ℕ) (s : S) (mems : ℕ → SharedMem) (tmp sh mb : ℕ → Option ℕ)
      → Built i s mems tmp sh mb
      → Built (suc i) s mems tmp sh mb
  unfolding below block ref count
  Built-suc i s mems tmp sh mb b =
      let (no_tmp, no_sh, no_mb) = b.unused i (omega arith) in
      record {
        holds = Holds_eq _ _ s (λ a. ground (arith, no_tmp, no_mb)) b.holds;
        unused = λ j le. b.unused j (omega (arith, le));
        counted = λ m. ground (arith, no_sh, b.counted m);
        used = b.used;
        kind = b.kind;
      }
