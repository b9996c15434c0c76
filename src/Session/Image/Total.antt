-- ===== src/Session/Image/Total.antt =====
-- When nothing fails, an image is loaded.
use itrustee_tzdriver.Base.{
  ℕ, zero, suc, ◌+◌, ◌-◌, ◌/◌, ◌%◌, ◌^◌, ◌≤◌, ◌<◌, ◌≡◌, refl, sym, ap, subst, ◌≢◌, Bool, true,
  false, none, some, List, arith, ltb, leb, ◌==◌, if◌then◌else◌, if_cases,
}
use itrustee_tzdriver.Base.Errno.{Code, success, fail, efault}
use itrustee_tzdriver.Base.Pow.{pow2, pow2-zero, pow2-suc}
use itrustee_tzdriver.Session.Image.{
  sz_8m, size_of_int, Frame, Link, is_valid_ta_size, first_load_size, try_load_sizes, frame_at,
  load_frames, load_image_by_frame, tc_ns_load_image,
}
use itrustee_tzdriver.Session.Image.Frames.{Chain, Loaded, load_image_by_frame-Loaded}

try_load_sizes_zero : (has : ℕ → Bool) (k : ℕ) → try_load_sizes has k 0 ≡ none
unfolding try_load_sizes
try_load_sizes_zero has zero = refl
try_load_sizes_zero has (suc k) = refl

-- Rounds past the bits of the size change nothing, so 32 are enough for an `unsigned int`.
pub try_load_sizes_enough :
    (has : ℕ → Bool) (n k size : ℕ)
    → size < pow2 n
    → try_load_sizes has (n + k) size ≡ try_load_sizes has n size
unfolding try_load_sizes
try_load_sizes_enough has zero k size h =
    subst (λ m. try_load_sizes has (0 + k) m ≡ none) (sym nothing) (try_load_sizes_zero has (0 + k))
  where
    nothing : size ≡ 0
    nothing = omega (arith, pow2-zero)
try_load_sizes_enough has (suc n) k size h =
    subst (λ m. try_load_sizes has m size ≡ try_load_sizes has (suc n) size) (sym one_more)
      (ap (λ r. if size == 0 then none else if has size then some size else r)
        (try_load_sizes_enough has n k (size / 2) (omega (arith, pow2-suc n))))
  where
    one_more : suc n + k ≡ suc (n + k)
    one_more = omega arith

-- No code that stands for a failed copy or a refusal of the TEE.
abbrev Unfailed : Code → Type 0
Unfailed success = Unit
Unfailed (fail efault) = ⊥
Unfailed (fail _) = Unit

load_frames-Unfailed :
    (link : Link) (file_size mb_load_size n index offset : ℕ)
    → ((f : Frame) → link.copy_fails f ≡ false)
    → ((f : Frame) → link.smc_ret f ≡ 0)
    → Unfailed (load_frames link file_size mb_load_size n index offset).0
unfolding load_frames
load_frames-Unfailed link file_size mb_load_size zero index offset copy tee = tt
load_frames-Unfailed link file_size mb_load_size (suc n) index offset copy tee =
    rw (copy f, tee f)
      (if_cases (λ (r : Code × List Frame). Unfailed r.0) (ltb (mb_load_size - size_of_int) f.size)
        tt
        (load_frames-Unfailed link file_size mb_load_size n (index + 1) ((offset + f.size) % 2 ^ 32)
          copy tee))
  where
    f : Frame
    f = frame_at file_size mb_load_size n index offset

-- A result that is not a failed copy is a success, with all the frames.
abbrev pub Whole : ℕ → ℕ → Code × List Frame → Type 0
Whole file_size chunk (code, frames) = (code ≡ success) × Chain true file_size chunk 0 0 frames

whole :
    (file_size chunk : ℕ) (r : Code × List Frame)
    → Loaded file_size chunk 0 0 r
    → Unfailed r.0
    → Whole file_size chunk r
whole file_size chunk (success, fs) h u = (refl, h)
whole file_size chunk (fail e, fs) (g, _) u = absurd (subst (λ k. Unfailed (fail k)) g u)

first_load_size_big :
    (align : ℕ → ℕ) (file_size : ℕ)
    → 4096 ≤ align file_size
    → size_of_int < first_load_size align file_size
unfolding first_load_size
first_load_size_big align file_size h = ground arith

is_valid_ta_size-true :
    (file_size : ℕ) → file_size ≢ 0 → file_size ≤ sz_8m → is_valid_ta_size true file_size ≡ true
unfolding is_valid_ta_size
is_valid_ta_size-true file_size ne small = ground arith

try_load_sizes_first :
    (has : ℕ → Bool) (n size : ℕ)
    → size ≢ 0
    → has size ≡ true
    → try_load_sizes has (suc n) size ≡ some size
unfolding try_load_sizes
try_load_sizes_first has n size ne given = ground (arith, given)

-- An image of at most 8 MiB that is not empty is loaded whole, when the pool gives the first block that
-- is asked for and the two others, ALIGN gives at least a page and copying and the TEE do not fail.
pub tc_ns_load_image-Whole :
    (link : Link) (align : ℕ → ℕ) (has : ℕ → Bool) (file_size : ℕ)
    → file_size ≢ 0
    → file_size ≤ sz_8m
    → 4096 ≤ align file_size
    → has (first_load_size align file_size) ≡ true
    → ((f : Frame) → link.copy_fails f ≡ false)
    → ((f : Frame) → link.smc_ret f ≡ 0)
    → Whole file_size
        (first_load_size align file_size - size_of_int)
        (tc_ns_load_image link align has true true file_size)
unfolding tc_ns_load_image load_image_by_frame
tc_ns_load_image-Whole link align has file_size ne small page given copy tee =
    rw (valid, found, large)
      (whole file_size (first_load_size align file_size - size_of_int) _
        (load_image_by_frame-Loaded link file_size (first_load_size align file_size) ne small big)
        (load_frames-Unfailed link file_size (first_load_size align file_size) _ 0 0 copy tee))
  where
    big : size_of_int < first_load_size align file_size
    big = first_load_size_big align file_size page

    valid : is_valid_ta_size true file_size ≡ true
    valid = is_valid_ta_size-true file_size ne small

    found :
        try_load_sizes has 32 (first_load_size align file_size)
        ≡ some (first_load_size align file_size)
    found = try_load_sizes_first has 31 (first_load_size align file_size) (omega (arith, big)) given

    large : leb (first_load_size align file_size) size_of_int ≡ false
    large = ground (arith, big)
