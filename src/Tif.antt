-- ===== src/Tif.antt =====
-- The tags in the header of a JPEG file: overwrite_tif_tags.c. A float stands for itself as its
-- 32-bit pattern.
pub mod Write
pub mod Reader
pub mod Read
mod Tests
use jpl_vision.Common.{
  ℕ, zero, suc, ◌+◌, ◌-◌, ◌*◌, ◌/◌, ◌%◌, ◌^◌, Bool, true, false, ◌||◌, ◌&&◌, not, List, [], ◌∷◌,
  ltb, ◌==◌, min, if◌then◌else◌,
}
use jpl_vision.Common.Memory.{Array, update}
use jpl_vision.Common.Int.{ℤ, pos, negsuc}

-- An unsigned int or unsigned short in network byte order.
abbrev pub nbo32 : ℕ → List ℕ
nbo32 w = w / 2 ^ 24 % 256 ∷ w / 2 ^ 16 % 256 ∷ w / 2 ^ 8 % 256 ∷ w % 256 ∷ []

abbrev pub nbo16 : ℕ → List ℕ
nbo16 w = w / 2 ^ 8 % 256 ∷ w % 256 ∷ []

-- Assignments to bytes that follow one another, from index `k` on.
pub write_bytes : Array ℕ → ℕ → List ℕ → Array ℕ
write_bytes buf k [] = buf
write_bytes buf k (b ∷ bs) = write_bytes (update buf k b) (k + 1) bs

pub copy_float_to_nbo : Array ℕ → ℕ → ℕ → Array ℕ
unfolding write_bytes
copy_float_to_nbo buf gain addr = write_bytes buf addr (nbo32 gain)

-- The arguments but for the coordinates and the buffer. `scale v w c` is what the processor makes of
-- (unsigned short)(c * ((float)v / w) + 0.5).
pub record TifInfo : Type 0 where
  pub width : ℕ
  pub height : ℕ
  pub vwidth : ℕ
  pub vheight : ℕ
  pub exposure : ℕ
  pub analog_gain : ℕ
  pub digital_gain : ℕ
  pub awb_red_gain : ℕ
  pub awb_blue_gain : ℕ
  pub yuv_0 : ℕ
  pub yuv_1 : ℕ
  pub yuv_2 : ℕ
  pub flags : ℕ
  pub scale : ℕ → ℕ → ℕ → ℕ

abbrev pub tiff_tags_offset : ℕ
tiff_tags_offset = 12

abbrev pub byte_offset_of_gain_data : ℕ
byte_offset_of_gain_data = 62

abbrev pub byte_offset_of_bbox_data : ℕ
byte_offset_of_bbox_data = 78

-- byte[0] to byte[61].
abbrev pub tag_bytes : TifInfo → ℕ → List ℕ
tag_bytes t count =
    77
    ∷ 77
    ∷ 0
    ∷ 42
    ∷ 0
    ∷ 0
    ∷ 0
    ∷ 8
    ∷ 0
    ∷ 4
    ∷ 0x96
    ∷ 0x97
    ∷ 0
    ∷ 4
    ∷ 0
    ∷ 0
    ∷ 0
    ∷ 1
    ∷ t.exposure / 2 ^ 24 % 256
    ∷ t.exposure / 2 ^ 16 % 256
    ∷ t.exposure / 2 ^ 8 % 256
    ∷ t.exposure % 256
    ∷ 0x96
    ∷ 0x99
    ∷ 0
    ∷ 1
    ∷ 0
    ∷ 0
    ∷ 0
    ∷ 4
    ∷ t.yuv_0
    ∷ t.yuv_1
    ∷ t.yuv_2
    ∷ t.flags
    ∷ 0x96
    ∷ 0x98
    ∷ 0
    ∷ 0x0b
    ∷ 0
    ∷ 0
    ∷ 0
    ∷ 4
    ∷ 0
    ∷ 0
    ∷ 0
    ∷ byte_offset_of_gain_data
    ∷ 0x96
    ∷ 0x96
    ∷ 0
    ∷ 3
    ∷ 0
    ∷ 0
    ∷ count / 2 ^ 8 % 256
    ∷ count % 256
    ∷ 0
    ∷ 0
    ∷ 0
    ∷ byte_offset_of_bbox_data
    ∷ 0
    ∷ 0
    ∷ 0
    ∷ 0
    ∷ []

-- The loop over pairs of coordinates, with `n` pairs left, the next one `ii`, to be written at `p`.
pub write_coords : TifInfo → Array ℕ → Array ℕ → ℕ → ℕ → ℕ → Array ℕ
unfolding write_bytes
write_coords t coord buf ii p zero = buf
write_coords t coord buf ii p (suc n) =
    let x = t.scale t.vwidth t.width (coord (2 * ii)) in
    let y = t.scale t.vheight t.height (coord (2 * ii + 1)) in
    write_coords t coord (write_bytes (write_bytes buf p (nbo16 x)) (p + 2) (nbo16 y)) (ii + 1)
      (p + 4) n

-- The loop that clears `n` bytes from `p` on.
pub clear : Array ℕ → ℕ → ℕ → Array ℕ
clear buf p zero = buf
clear buf p (suc n) = clear (update buf p 0) (p + 1) n

abbrev pub is_jpeg : Array ℕ → Bool
is_jpeg buf = (buf 0 == 0xff) && (buf 1 == 0xd8) && (buf 2 == 0xff) && (buf 3 == 0xe1)

-- The unsigned short byte_count.
abbrev pub byte_count : Array ℕ → ℕ
byte_count buf = (buf 4 * 2 ^ 8 + buf 5 + 4 + 2 ^ 32 - tiff_tags_offset) % 2 ^ 16

-- bbox_coord_count after it has been cut down to a multiple of 4 for which there is space
abbrev pub coord_count : ℕ → ℕ → ℕ
coord_count bytes count =
    let fit = min count ((bytes - byte_offset_of_bbox_data) / 2) in fit - fit % 4

pub overwrite_tif_tags : TifInfo → Array ℕ → ℕ → Array ℕ → Array ℕ × ℤ
unfolding write_bytes copy_float_to_nbo write_coords clear
overwrite_tif_tags t coord count buf =
    let bytes = byte_count buf in
    let n = coord_count bytes count in
    let b0 = write_bytes buf tiff_tags_offset (tag_bytes t n) in
    let gains = tiff_tags_offset + byte_offset_of_gain_data in
    let b1 = copy_float_to_nbo b0 t.analog_gain gains in
    let b2 = copy_float_to_nbo b1 t.digital_gain (gains + 4) in
    let b3 = copy_float_to_nbo b2 t.awb_red_gain (gains + 8) in
    let b4 = copy_float_to_nbo b3 t.awb_blue_gain (gains + 12) in
    let p = tiff_tags_offset + byte_offset_of_bbox_data in
    let b5 = write_coords t coord b4 0 p (n / 2) in
    let q = p + 4 * (n / 2) in
    let b6 = clear b5 q (tiff_tags_offset + bytes - q) in
    if not (is_jpeg buf) || ltb bytes byte_offset_of_bbox_data then (buf, negsuc 0) else (b6, pos n)
