-- ===== src/Session/Image.antt =====
-- core/session_manager.c: how the image of a TA goes to the TEE, in frames through a block of the pool.
pub mod Frames
pub mod Total
mod Tests
use itrustee_tzdriver.Base.{
  ℕ, zero, suc, ◌+◌, ◌-◌, ◌*◌, ◌/◌, ◌%◌, ◌^◌, Bool, true, false, ◌||◌, not, Option, none, some,
  List, [], ◌∷◌, ltb, leb, ◌==◌, if◌then◌else◌,
}
use itrustee_tzdriver.Base.Errno.{Code, success, fail, efault, einval, enomem}

abbrev pub sz_1m : ℕ
sz_1m = 1024 * 1024

abbrev pub sz_8m : ℕ
sz_8m = 8 * 1024 * 1024

abbrev pub size_of_int : ℕ
size_of_int = 4

-- One frame: `load_flag`, `index`, where in the file it starts and how long it is.
pub record Frame : Type 0 where
  pub flag : ℕ
  pub index : ℕ
  pub offset : ℕ
  pub size : ℕ

-- Whether copying a frame from the caller fails, and what `tc_ns_smc` returns for it.
pub record Link : Type 0 where
  pub copy_fails : Frame → Bool
  pub smc_ret : Frame → ℕ

-- `buffer` is whether the pointer is not NULL.
pub is_valid_ta_size : Bool → ℕ → Bool
is_valid_ta_size buffer file_size =
    if not buffer || file_size == 0 then false else if ltb sz_8m file_size then false else true

-- The size that is asked of the pool first; `align` is the kernel's ALIGN to 4 KiB.
pub first_load_size : (ℕ → ℕ) → ℕ → ℕ
first_load_size align file_size =
    if ltb (sz_1m - size_of_int) file_size then sz_1m else align file_size

-- The loop that halves the size until the pool has a block; `n` rounds are left. The size found.
pub try_load_sizes : (ℕ → Bool) → ℕ → ℕ → Option ℕ
try_load_sizes has zero size = none
try_load_sizes has (suc n) size =
    let smaller = try_load_sizes has n (size / 2) in
    if size == 0 then none else if has size then some size else smaller

pub frame_count : ℕ → ℕ → ℕ
frame_count file_size mb_load_size =
    let times = file_size / (mb_load_size - size_of_int) in
    if not (file_size % (mb_load_size - size_of_int) == 0) then times + 1 else times

-- The frame of a round; `n` more are to come.
pub frame_at : ℕ → ℕ → ℕ → ℕ → ℕ → Frame
frame_at file_size mb_load_size n index loaded_size = record {
  flag = if n == 0 then 0 else 1;
  index = index;
  offset = loaded_size;
  size = if n == 0 then (file_size + 2 ^ 32 - loaded_size) % 2 ^ 32 else mb_load_size - size_of_int;
}

-- The loop of `load_image_by_frame` with `n` rounds left: the code, and the frames that the TEE got.
pub load_frames : Link → ℕ → ℕ → ℕ → ℕ → ℕ → Code × List Frame
unfolding frame_at
load_frames link file_size mb_load_size zero index loaded_size = (success, [])
load_frames link file_size mb_load_size (suc n) index loaded_size =
    let frame = frame_at file_size mb_load_size n index loaded_size in
    let (code, later) =
      load_frames link file_size mb_load_size n (index + 1) ((loaded_size + frame.size) % 2 ^ 32) in
    if ltb (mb_load_size - size_of_int) frame.size
    then (fail einval, [])
    else if link.copy_fails frame
    then (fail efault, [])
    else if not (link.smc_ret frame == 0)
    then (fail efault, frame ∷ [])
    else (code, frame ∷ later)

-- `load_image_by_frame`, called with the number of frames.
pub load_image_by_frame : Link → ℕ → ℕ → Code × List Frame
unfolding load_frames frame_count
load_image_by_frame link file_size mb_load_size =
    load_frames link file_size mb_load_size (frame_count file_size mb_load_size) 0 0

-- `tc_ns_load_image`, with what the pool has in its halving loop and whether the two later blocks are
-- given; `buffer` is whether the pointer is not NULL.
pub tc_ns_load_image : Link → (ℕ → ℕ) → (ℕ → Bool) → Bool → Bool → ℕ → Code × List Frame
unfolding is_valid_ta_size first_load_size try_load_sizes load_image_by_frame
tc_ns_load_image link align has packs buffer file_size =
    if not buffer
    then (fail einval, [])
    else if not (is_valid_ta_size buffer file_size)
    then (fail einval, [])
    else elim (try_load_sizes has 32 (first_load_size align file_size)) [
      | none ↦ (fail enomem, [])
      | some mb_load_size ↦
          if not packs
          then (fail enomem, [])
          else if leb mb_load_size size_of_int
          then (fail enomem, [])
          else load_image_by_frame link file_size mb_load_size
    ]
