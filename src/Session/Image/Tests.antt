-- ===== src/Session/Image/Tests.antt =====
-- A small image in frames of 4092 bytes.
use itrustee_tzdriver.Base.{ℕ, ◌+◌, ◌-◌, ◌*◌, ◌/◌, ◌≡◌, refl, true, false, [], ◌∷◌, map, arith}
use itrustee_tzdriver.Session.Image.{
  Frame, Link, size_of_int, first_load_size, frame_count, frame_at, load_frames,
  load_image_by_frame, tc_ns_load_image,
}
use itrustee_tzdriver.Session.Image.Frames.{Loaded, load_image_by_frame-Loaded}
use itrustee_tzdriver.Session.Image.Total.{Whole, tc_ns_load_image-Whole}

abbrev link : Link
link = record { copy_fails = λ f. false; smc_ret = λ f. 0 }

abbrev to_page : ℕ → ℕ
to_page n = (n + 4095) / 4096 * 4096

load_image_by_frame-Loaded_example :
    Loaded 10000 (4096 - size_of_int) 0 0 (load_image_by_frame link 10000 4096)
load_image_by_frame-Loaded_example =
    load_image_by_frame-Loaded link 10000 4096 (omega arith) (omega arith) (omega arith)

tc_ns_load_image-Whole_example :
    Whole 10000
      (first_load_size to_page 10000 - size_of_int)
      (tc_ns_load_image link to_page (λ n. true) true true 10000)
tc_ns_load_image-Whole_example =
    tc_ns_load_image-Whole link to_page (λ n. true) 10000 (omega arith) (omega arith) (omega arith)
      refl (λ f. refl) (λ f. refl)

sizes :
    map (λ (f : Frame). f.size) (load_image_by_frame link 10000 4096).1 ≡ 4092 ∷ 4092 ∷ 1816 ∷ []
unfolding load_image_by_frame frame_count load_frames frame_at
sizes = refl
