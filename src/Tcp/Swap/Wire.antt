-- ===== src/Tcp/Swap/Wire.antt =====
-- The parameters as bytes in memory, before and after tcp_params_byte_swap.
use jpl_vision.Common.{
  ℕ, ◌+◌, ◌*◌, ◌/◌, ◌%◌, ◌^◌, ◌≡◌, ◌∙◌, refl, ap, List, [], ◌∷◌, ◌++◌, map, arith,
}
use jpl_vision.Common.Int.{ℤ, pattern32}
use jpl_vision.Tcp.Types.{TcpParams, Floats}
use jpl_vision.Tcp.Swap.{swap32, swap64, htonl, htond, cam_params_byte_swap, tcp_params_byte_swap}
use jpl_vision.Tcp.Swap.RoundTrip.{
  IsParams, with_roi_of, pattern32-htonl, tcp_params_byte_swap-round_trip,
}

-- The bytes of a word in the memory of a little-endian processor, and in the order of the network.
abbrev pub memory : ℕ → List ℕ
memory w = w % 256 ∷ w / 2 ^ 8 % 256 ∷ w / 2 ^ 16 % 256 ∷ w / 2 ^ 24 % 256 ∷ []

abbrev pub network : ℕ → List ℕ
network w = w / 2 ^ 24 % 256 ∷ w / 2 ^ 16 % 256 ∷ w / 2 ^ 8 % 256 ∷ w % 256 ∷ []

-- A double has two words in memory, the low one first.
abbrev pub network64 : ℕ → List ℕ
network64 w = network (w / 2 ^ 32) ++ network (w % 2 ^ 32)

abbrev pub from_memory : List ℕ → ℕ
from_memory [] = 0
from_memory (b ∷ bs) = b + 256 * from_memory bs

-- The ints that are for the network.
abbrev pub ints : TcpParams → List ℤ
ints p =
    let c = p.cam_params in
    c.sharpness ∷ c.contrast ∷ c.brightness ∷ c.saturation ∷ c.iso ∷ c.video_stabilisation
    ∷ c.exposure_compensation ∷ c.exposure_mode ∷ c.exposure_meter_mode ∷ c.awb_mode ∷ c.rotation
    ∷ c.hflip ∷ c.vflip ∷ c.shutter_speed ∷ c.drc_level ∷ p.crosshairs_x ∷ p.crosshairs_y ∷ []

abbrev pub floats_of : TcpParams → List ℕ
floats_of p =
    p.cam_params.awb_gains_r ∷ p.cam_params.awb_gains_b ∷ p.analog_gain_target ∷ p.analog_gain_tol
    ∷ p.digital_gain_target ∷ p.digital_gain_tol ∷ []

abbrev pub region : TcpParams → List ℕ
region p = p.cam_params.roi_x ∷ p.cam_params.roi_y ∷ p.cam_params.roi_w ∷ p.cam_params.roi_h ∷ []

-- The ints that stay in the order of the processor.
abbrev pub kept_ints : TcpParams → List ℤ
kept_ints p =
    let c = p.cam_params in
    c.image_effect ∷ c.colour_enable ∷ c.colour_u ∷ c.colour_v ∷ c.stats_pass ∷ p.test_img_enable
    ∷ p.yuv_write ∷ p.jpg_write ∷ p.detect_yuv ∷ []

memory-swap32 : (w : ℕ) → memory (swap32 w) ≡ network w
unfolding swap32
memory-swap32 w = ground arith

memory-htonl : (z : ℤ) → memory (pattern32 (htonl z)) ≡ network (pattern32 z)
memory-htonl z = ap memory (pattern32-htonl z) ∙ memory-swap32 (pattern32 z)

swap64-network64 : (w : ℕ) → swap64 w ≡ from_memory (network64 w)
unfolding swap64 swap32
swap64-network64 w = omega arith

map-htonl :
    (zs : List ℤ)
    → map (λ z. memory (pattern32 z)) (map htonl zs) ≡ map (λ z. network (pattern32 z)) zs
map-htonl [] = refl
map-htonl (z ∷ zs) = rw (memory-htonl z, map-htonl zs) refl

map-swap32 : (ws : List ℕ) → map memory (map swap32 ws) ≡ map network ws
map-swap32 [] = refl
map-swap32 (w ∷ ws) = rw (memory-swap32 w, map-swap32 ws) refl

htond-network64 : (f : Floats) (w : ℕ) → htond f w ≡ f.narrow (from_memory (network64 w))
unfolding htond
htond-network64 f w = ap f.narrow (swap64-network64 w)

map-htond :
    (f : Floats) (ws : List ℕ)
    → map (htond f) ws ≡ map (λ w. f.narrow (from_memory (network64 w))) ws
map-htond f [] = refl
map-htond f (w ∷ ws) = rw (htond-network64 f w, map-htond f ws) refl

-- Given parameters whose ints and floats have 32 bits, tcp_params_byte_swap puts the four bytes of
-- each int and each float that it treats in memory in the order of the network. It does the same
-- with the eight bytes of the doubles of the region of interest, and what is stored is the number
-- that they make after a conversion to a float and back. The image effect, the color effects, the
-- statistics pass and the four flags for test images, files and detection stay in the order of the
-- processor, as do the bytes of the two colors. A second call restores the parameters, but for the
-- region of interest.
pub tcp_params_byte_swap_lem :
    (f : Floats) (p : TcpParams)
    → IsParams p
    → let q = tcp_params_byte_swap f p in
      let r = tcp_params_byte_swap f q in
      (map (λ z. memory (pattern32 z)) (ints q) ≡ map (λ z. network (pattern32 z)) (ints p))
      × (map memory (floats_of q) ≡ map network (floats_of p))
      × (region q ≡ map (λ w. f.narrow (from_memory (network64 w))) (region p))
      × (kept_ints q ≡ kept_ints p)
      × (q.blob_yuv_min ≡ p.blob_yuv_min)
      × (q.blob_yuv_max ≡ p.blob_yuv_max)
      × (r ≡ record p { cam_params = with_roi_of r.cam_params p.cam_params })
unfolding tcp_params_byte_swap cam_params_byte_swap
tcp_params_byte_swap_lem f p v = (
  map-htonl (ints p),
  map-swap32 (floats_of p),
  map-htond f (region p),
  refl,
  refl,
  refl,
  tcp_params_byte_swap-round_trip f p v,
)
