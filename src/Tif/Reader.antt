-- ===== src/Tif/Reader.antt =====
-- A reader of TIFF files, and what it finds behind a header of the tags.
use jpl_vision.Common.{
  ℕ, zero, suc, ◌+◌, ◌*◌, ◌/◌, ◌%◌, ◌^◌, ◌<◌, ◌≡◌, ◌∙◌, refl, ap, Option, none, some, List, [], ◌∷◌,
  get_or, ◌==◌, ◌>>=◌, if◌then◌else◌, arith,
}
use jpl_vision.Common.Memory.{Array}
use jpl_vision.Tif.{TifInfo}
use jpl_vision.Tif.Write.{coord_bytes, header_bytes}

-- A reader of TIFF files in Motorola byte order: numbers, the search for a tag in the directory, and
-- the data of the four tags. `b` is the file.
abbrev pub read16 : Array ℕ → ℕ → ℕ
read16 b k = b k * 2 ^ 8 + b (k + 1)

abbrev pub read32 : Array ℕ → ℕ → ℕ
read32 b k = b k * 2 ^ 24 + b (k + 1) * 2 ^ 16 + b (k + 2) * 2 ^ 8 + b (k + 3)

pub find_entry : Array ℕ → ℕ → ℕ → ℕ → Option ℕ
find_entry b tag at zero = none
find_entry b tag at (suc n) =
    let rest = find_entry b tag (at + 12) n in if read16 b at == tag then some at else rest

-- The position of the entry for a tag.
pub tif_entry : Array ℕ → ℕ → Option ℕ
unfolding find_entry
tif_entry b tag = find_entry b tag (read32 b 4 + 2) (read16 b (read32 b 4))

pub read_bytes : Array ℕ → ℕ → ℕ → List ℕ
read_bytes b k zero = []
read_bytes b k (suc n) = b k ∷ read_bytes b (k + 1) n

pub read_shorts : Array ℕ → ℕ → ℕ → List ℕ
read_shorts b k zero = []
read_shorts b k (suc n) = read16 b k ∷ read_shorts b (k + 2) n

pub read_longs : Array ℕ → ℕ → ℕ → List ℕ
read_longs b k zero = []
read_longs b k (suc n) = read32 b k ∷ read_longs b (k + 4) n

pub record Tags : Type 0 where
  pub exposure_tag : ℕ
  pub yuv_tag : List ℕ
  pub gains_tag : List ℕ
  pub bbox_tag : List ℕ

pub read_tags : Array ℕ → Option Tags
unfolding tif_entry read_bytes read_shorts read_longs
read_tags b = do
  e ← tif_entry b 0x9697
  y ← tif_entry b 0x9699
  g ← tif_entry b 0x9698
  c ← tif_entry b 0x9696
  some (record {
    exposure_tag = read32 b (e + 8);
    yuv_tag = read_bytes b (y + 8) (read32 b (y + 4));
    gains_tag = read_longs b (read32 b (g + 8)) (read32 b (g + 4));
    bbox_tag = read_shorts b (read32 b (c + 8)) (read32 b (c + 4));
  })

-- The coordinates in the video image, of `m` pairs from pair `ii` on.
abbrev pub video_coords : TifInfo → Array ℕ → ℕ → ℕ → List ℕ
video_coords t coord ii zero = []
video_coords t coord ii (suc m) =
    t.scale t.vwidth t.width (coord (2 * ii))
    ∷ t.scale t.vheight t.height (coord (2 * ii + 1))
    ∷ video_coords t coord (ii + 1) m

-- The bytes of the tags in a buffer.
abbrev pub tiff_part : Array ℕ → Array ℕ
tiff_part buf i = buf (12 + i)

-- The arguments have the sizes of their types in C.
pub record IsInfo (t : TifInfo) : Type 0 where
  pub exposure_size : t.exposure < 2 ^ 32
  pub analog_size : t.analog_gain < 2 ^ 32
  pub digital_size : t.digital_gain < 2 ^ 32
  pub red_size : t.awb_red_gain < 2 ^ 32
  pub blue_size : t.awb_blue_gain < 2 ^ 32
  pub scale_size : (v w c : ℕ) → t.scale v w c < 2 ^ 16

abbrev pub info_tags : TifInfo → Array ℕ → ℕ → Tags
info_tags t coord n = record {
  exposure_tag = t.exposure;
  yuv_tag = t.yuv_0 ∷ t.yuv_1 ∷ t.yuv_2 ∷ t.flags ∷ [];
  gains_tag = t.analog_gain ∷ t.digital_gain ∷ t.awb_red_gain ∷ t.awb_blue_gain ∷ [];
  bbox_tag = video_coords t coord 0 (n / 2);
}

pub read_shorts-coords :
    (t : TifInfo) (coord b : Array ℕ) (ii p m : ℕ)
    → IsInfo t
    → ((j : ℕ) → j < 4 * m → b (p + j) ≡ get_or (coord_bytes t coord ii m) j 0)
    → read_shorts b p (2 * m) ≡ video_coords t coord ii m
unfolding read_shorts
read_shorts-coords t coord b ii p zero v h = refl
read_shorts-coords t coord b ii p (suc m) v h =
    let x = t.scale t.vwidth t.width (coord (2 * ii)) in
    let y = t.scale t.vheight t.height (coord (2 * ii + 1)) in
    let e : 2 * suc m ≡ suc (suc (2 * m)) = omega arith in
    let first : b p ≡ x / 2 ^ 8 % 256 = ap b (omega arith) ∙ h 0 (omega arith) in
    let second : b (p + 1) ≡ x % 256 = h 1 (omega arith) in
    let third : b (p + 2) ≡ y / 2 ^ 8 % 256 = h 2 (omega arith) in
    let fourth : b (p + 2 + 1) ≡ y % 256 = ap b (omega arith) ∙ h 3 (omega arith) in
    let read_x : read16 b p ≡ x =
      omega (arith, first, second, v.scale_size t.vwidth t.width (coord (2 * ii))) in
    let read_y : read16 b (p + 2) ≡ y =
      omega (arith, third, fourth, v.scale_size t.vheight t.height (coord (2 * ii + 1))) in
    let rest =
      read_shorts-coords t coord b (ii + 1) (p + 2 + 2) m v
        (λ j l. ap b (omega arith) ∙ h (suc (suc (suc (suc j)))) (omega arith)) in
    rw (e, read_x, read_y, rest) refl

read32-nbo :
    (w : ℕ)
    → w < 2 ^ 32
    → w / 2 ^ 24 % 256 * 2 ^ 24 + w / 2 ^ 16 % 256 * 2 ^ 16 + w / 2 ^ 8 % 256 * 2 ^ 8 + w % 256 ≡ w
read32-nbo w h = omega arith

-- The first 78 bytes of `b` are the header.
abbrev pub HasHeader : TifInfo → ℕ → Array ℕ → Type 0
HasHeader t n b = (i : ℕ) → i < 78 → b i ≡ get_or (header_bytes t n) i 0

read32-header :
    (t : TifInfo) (n : ℕ) (b : Array ℕ)
    → HasHeader t n b
    → (i : ℕ) → i + 3 < 78
    → read32 b i ≡ read32 (λ j. get_or (header_bytes t n) j 0) i
read32-header t n b at i h =
    rw
      (
        at i (omega arith),
        at (i + 1) (omega arith),
        at (i + 2) (omega arith),
        at (i + 3) (omega arith),
      )
      refl

read16-header :
    (t : TifInfo) (n : ℕ) (b : Array ℕ)
    → HasHeader t n b
    → (i : ℕ) → i + 1 < 78
    → read16 b i ≡ read16 (λ j. get_or (header_bytes t n) j 0) i
read16-header t n b at i h = rw (at i (omega arith), at (i + 1) (omega arith)) refl

-- What the reader finds behind a header: all that stands in it, and the coordinates behind it.
pub read_tags-header :
    (t : TifInfo) (coord b : Array ℕ) (n : ℕ)
    → IsInfo t
    → n < 2 ^ 16
    → HasHeader t n b
    → read_tags b ≡ some (record (info_tags t coord n) { bbox_tag = read_shorts b 78 n })
unfolding read_tags tif_entry find_entry read_longs read_bytes
read_tags-header t coord b n v l at =
    let word = read32-header t n b at in
    let short = read16-header t n b at in
    let count3 : read32 b 50 ≡ n = word 50 (omega arith) ∙ omega (arith, l) in
    let exposure = word 18 (omega arith) ∙ read32-nbo t.exposure v.exposure_size in
    let analog = word 62 (omega arith) ∙ read32-nbo t.analog_gain v.analog_size in
    let digital = word 66 (omega arith) ∙ read32-nbo t.digital_gain v.digital_size in
    let red = word 70 (omega arith) ∙ read32-nbo t.awb_red_gain v.red_size in
    let blue = word 74 (omega arith) ∙ read32-nbo t.awb_blue_gain v.blue_size in
    rw
      (
        word 4 (omega arith),
        short 8 (omega arith),
        short 10 (omega arith),
        short 22 (omega arith),
        short 34 (omega arith),
        short 46 (omega arith),
      )
      (rw
        (
          word 26 (omega arith),
          word 38 (omega arith),
          word 42 (omega arith),
          count3,
          word 54 (omega arith),
          exposure,
          analog,
          digital,
          red,
          blue,
          at 30 (omega arith),
          at 31 (omega arith),
          at 32 (omega arith),
          at 33 (omega arith),
        )
        refl)
