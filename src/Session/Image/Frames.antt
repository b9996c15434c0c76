-- ===== src/Session/Image/Frames.antt =====
-- The frames of an image cover the file, in order, and each fits its block.
use native.Mathlib.Nat.{mod-add-div', mod-lt}
use itrustee_tzdriver.Base.{
  ℕ, zero, suc, ◌+◌, ◌-◌, ◌*◌, ◌/◌, ◌%◌, ◌^◌, ◌≤◌, ◌<◌, ◌≡◌, refl, sym, subst, ◌≢◌, ◌↔◌, Bool, true,
  false, not, List, [], ◌∷◌, arith, ltb, ◌==◌, if◌then◌else◌, if_cases, if_cases_of,
}
use itrustee_tzdriver.Base.Errno.{Code, success, fail, efault}
use itrustee_tzdriver.Session.Image.{
  sz_8m, size_of_int, Frame, Link, frame_count, frame_at, load_frames, load_image_by_frame,
}

-- The frames from the one of number `index` on, which starts at `offset`: they follow each other, none
-- is longer than `chunk`, and the one that ends the file, and only that one, has the flag 0. `whole`
-- says that the file's end is reached.
abbrev pub Chain : Bool → ℕ → ℕ → ℕ → ℕ → List Frame → Type 0
Chain whole file_size chunk index offset [] = whole ≡ true → offset ≡ file_size
Chain whole file_size chunk index offset (f ∷ fs) =
    (f.index ≡ index)
    × (f.offset ≡ offset)
    × (f.size ≤ chunk)
    × (offset + f.size ≤ file_size)
    × ((f.flag ≡ 0) ↔ (offset + f.size ≡ file_size))
    × Chain whole file_size chunk (index + 1) (offset + f.size) fs

-- A result of the loop: every frame sent is in its place; all are sent when it succeeds; and it never
-- fails for a size.
abbrev pub Loaded : ℕ → ℕ → ℕ → ℕ → Code × List Frame → Type 0
Loaded file_size chunk index offset (success, frames) =
    Chain true file_size chunk index offset frames
Loaded file_size chunk index offset (fail e, frames) =
    (e ≡ efault) × Chain false file_size chunk index offset frames

-- What one round makes of the bounds of the loop.
record Round (file_size chunk n offset : ℕ) (f : Frame) : Type 0 where
  fits : f.size ≤ chunk
  inside : offset + f.size ≤ file_size
  last : (f.flag ≡ 0) ↔ (offset + f.size ≡ file_size)
  enough : file_size - (offset + f.size) ≤ n * chunk
  few : n ≢ 0 → (n - 1) * chunk < file_size - (offset + f.size)

frame_at-Round :
    (file_size mb_load_size n index offset : ℕ)
    → file_size < 2 ^ 32
    → 4 < mb_load_size
    → offset ≤ file_size
    → file_size - offset ≤ suc n * (mb_load_size - 4)
    → n * (mb_load_size - 4) < file_size - offset
    → Round file_size (mb_load_size - 4) n offset (frame_at file_size mb_load_size n index offset)
unfolding frame_at
frame_at-Round file_size mb_load_size zero index offset small big le enough few = record {
  fits = ground arith;
  inside = ground arith;
  last = ground arith;
  enough = ground arith;
  few = λ ne. absurd (ne refl);
}
frame_at-Round file_size mb_load_size (suc m) index offset small big le enough few = record {
  fits = ground arith;
  inside = ground arith;
  last = ground arith;
  enough = ground arith;
  few = λ ne. ground arith;
}

extend :
    (file_size chunk n index offset : ℕ) (f : Frame) (r : Code × List Frame)
    → f.index ≡ index
    → f.offset ≡ offset
    → Round file_size chunk n offset f
    → Loaded file_size chunk (index + 1) (offset + f.size) r
    → Loaded file_size chunk index offset (r.0, f ∷ r.1)
extend file_size chunk n index offset f (success, fs) e g v h = (e, g, v.fits, v.inside, v.last, h)
extend file_size chunk n index offset f (fail c, fs) e g v (d, h) =
    (d, (e, g, v.fits, v.inside, v.last, h))

load_frames-Loaded :
    (link : Link) (file_size mb_load_size n index offset : ℕ)
    → file_size < 2 ^ 32
    → 4 < mb_load_size
    → offset ≤ file_size
    → file_size - offset ≤ n * (mb_load_size - 4)
    → (n ≢ 0 → (n - 1) * (mb_load_size - 4) < file_size - offset)
    → Loaded file_size
        (mb_load_size - 4)
        index
        offset
        (load_frames link file_size mb_load_size n index offset)
unfolding load_frames
load_frames-Loaded link file_size mb_load_size zero index offset small big le enough few =
    λ _. omega arith
load_frames-Loaded link file_size mb_load_size (suc n) index offset small big le enough few =
    let more = few (λ e. absurd (omega (arith, e))) in
    let v =
      frame_at-Round file_size mb_load_size n index offset small big le enough
        (subst (λ k. k * (mb_load_size - 4) < file_size - offset) pred more) in
    if_cases_of Result (ltb (mb_load_size - size_of_int) f.size)
      (λ t. absurd (ground (arith, t, v.fits)))
      (λ _.
        if_cases Result (link.copy_fails f) (refl, λ t. absurd (ground arith))
          (if_cases Result (not (link.smc_ret f == 0))
            (refl, (at_index, at_offset, v.fits, v.inside, v.last, λ t. absurd (ground arith)))
            (extend file_size (mb_load_size - 4) n index offset f
              (load_frames link file_size mb_load_size n (index + 1) ((offset + f.size) % 2 ^ 32))
              at_index at_offset v
              (subst
                (λ o.
                  Loaded file_size (mb_load_size - 4) (index + 1) (offset + f.size)
                    (load_frames link file_size mb_load_size n (index + 1) o))
                (unwrapped v.inside)
                (load_frames-Loaded link file_size mb_load_size n (index + 1) (offset + f.size)
                  small big v.inside v.enough v.few)))))
  where
    f : Frame
    f = frame_at file_size mb_load_size n index offset

    Result : Code × List Frame → Type 0
    Result = Loaded file_size (mb_load_size - 4) index offset

    pred : suc n - 1 ≡ n
    pred = omega arith

    at_index : f.index ≡ index
    at_index = refl

    at_offset : f.offset ≡ offset
    at_offset = refl

    unwrapped : offset + f.size ≤ file_size → offset + f.size ≡ (offset + f.size) % 2 ^ 32
    unwrapped h = omega arith

-- `t` rounds of `c` bytes are enough for `file` bytes, and `t - 1` are not.
rounds :
    (q r c file : ℕ)
    → r + q * c ≡ file
    → r < c
    → file ≢ 0
    → let t = if not (r == 0) then q + 1 else q in (file ≤ t * c) × ((t - 1) * c < file)
rounds zero r c file e lt ne = ground arith
rounds (suc m) r c file e lt ne =
    if_cases_of (λ t. (file ≤ t * c) × ((t - 1) * c < file)) (not (r == 0))
      (λ h. (omega arith, subst (λ k. k * c < file) (sym more) (ground (arith, h))))
      (λ h. (ground (arith, h), subst (λ k. k * c < file) (sym less) (omega arith)))
  where
    more : suc m + 1 - 1 ≡ suc m
    more = omega arith

    less : suc m - 1 ≡ m
    less = omega arith

-- An image of at most 8 MiB, not empty, that goes through a block larger than its flag is loaded in
-- frames that follow each other and end with the file, the last one alone having the flag 0, each
-- fitting the block behind the flag; or copying or the TEE fails, and the frames sent are the first
-- ones. It never fails for a frame's size.
pub load_image_by_frame-Loaded :
    (link : Link) (file_size mb_load_size : ℕ)
    → file_size ≢ 0
    → file_size ≤ sz_8m
    → size_of_int < mb_load_size
    → Loaded file_size
        (mb_load_size - size_of_int)
        0
        0
        (load_image_by_frame link file_size mb_load_size)
unfolding load_image_by_frame frame_count
load_image_by_frame-Loaded link file_size mb_load_size ne small big =
    let (enough, few) =
      rounds (file_size / (mb_load_size - 4)) (file_size % (mb_load_size - 4)) (mb_load_size - 4)
        file_size (mod-add-div' file_size (mb_load_size - 4))
        (mod-lt file_size (omega (arith, big))) ne in
    load_frames-Loaded link file_size mb_load_size (frame_count file_size mb_load_size) 0 0
      (omega (arith, small)) big (omega arith) (omega (arith, enough)) (λ _. omega (arith, few))
