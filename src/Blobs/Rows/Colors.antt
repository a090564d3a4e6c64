-- ===== src/Blobs/Rows/Colors.antt =====
-- Blobs do not mix colors: any coloring of the runs that is the same on runs that share a column is
-- the same on all of a blob.
use jpl_vision.Common.{
  ℕ, ◌<◌, ◌≡◌, ◌≢◌, refl, ◌∙◌, sym, ◌⊎◌, inl, inr, ltb, if◌then◌else◌, arith, dec_lt,
}
use jpl_vision.Blobs.Types.{BlobList, YuvRun}
use jpl_vision.Blobs.Union.Spec.{United, in_blob?}

-- Entries of one blob have one color.
abbrev pub Pure : BlobList → (ℕ → ℕ) → (ℕ → ℕ) → Type 0
Pure p rep color =
    (i j : ℕ)
    → 0 < i
    → i < p.used_blob_set_count
    → 0 < j
    → j < p.used_blob_set_count
    → rep i ≡ rep j
    → color i ≡ color j

-- The entries of `p` keep their colors.
abbrev pub SameOn : BlobList → (ℕ → ℕ) → (ℕ → ℕ) → Type 0
SameOn p color color' = (i : ℕ) → i < p.used_blob_set_count → color' i ≡ color i

-- The entry of a run, if it has one, has the color `c`.
abbrev pub HasColor : (ℕ → ℕ) → YuvRun → ℕ → Type 0
HasColor color r c = 0 < r.parent_index → color r.parent_index ≡ c

-- The colors after a union of two runs of color `c`.
module _ {p : BlobList} {rep : ℕ → ℕ} {a b : YuvRun} {q : BlobList} {rep' : ℕ → ℕ} {a' b' : YuvRun}
    (la : a.parent_index < p.used_blob_set_count) (lb : b.parent_index < p.used_blob_set_count)
    (u : United p rep a b q rep' a' b') (color : ℕ → ℕ) (c : ℕ) (pure : Pure p rep color)
    (ca : HasColor color a c) (cb : HasColor color b c) where
  abbrev pub color_after : ℕ → ℕ
  color_after i = if ltb i p.used_blob_set_count then color i else c

  -- An entry in the blob of the two runs, or one that is in another.
  abbrev Inside : ℕ → Type 0
  Inside i = (color_after i ≡ c) × (0 < a'.parent_index) × (rep' i ≡ rep' a'.parent_index)

  abbrev Outside : ℕ → Type 0
  Outside i =
      (i < p.used_blob_set_count)
      × (rep' i ≡ rep i)
      × (0 < a'.parent_index → rep' i ≢ rep' a'.parent_index)

  entry_cases : (i : ℕ) → 0 < i → i < q.used_blob_set_count → Inside i ⊎ Outside i
  entry_cases i hi li = elim (dec_lt i p.used_blob_set_count) [
    | no h ↦ let new = u.fresh i (omega arith) li in inl (ground arith, new.0, new.1)
    | yes h ↦ elim (in_blob? rep a i) [
      | yes w ↦ inl (
        ground (arith, h, pure i a.parent_index hi h w.has la w.same, ca w.has),
        ground (arith, u.together, w.has),
        u.takes_a i hi h w,
      )
      | no na ↦ elim (in_blob? rep b i) [
        | yes w ↦ inl (
          ground (arith, h, pure i b.parent_index hi h w.has lb w.same, cb w.has),
          ground (arith, u.together, w.has),
          ground (arith, u.together, w.has, u.takes_b i hi h w),
        )
        | no nb ↦ inr (h, u.others i hi h na nb, λ pa. u.apart i hi h na nb pa)
      ]
    ]
  ]

  pub Pure-after : Pure q rep' color_after
  Pure-after i j hi li hj lj e = elim (entry_cases i hi li) [
    | inl x ↦ elim (entry_cases j hj lj) [
      | inl y ↦ x.0 ∙ sym y.0
      | inr y ↦ absurd (y.2 x.1 (sym e ∙ x.2))
    ]
    | inr x ↦ elim (entry_cases j hj lj) [
      | inl y ↦ absurd (x.2 y.1 (e ∙ y.2))
      | inr y ↦ ground (arith, x.0, y.0, pure i j hi x.0 hj y.0 (sym x.1 ∙ e ∙ y.1))
    ]
  ]

  pub SameOn-after : SameOn p color color_after
  SameOn-after i h = ground (arith, h)

  pub HasColor-after : HasColor color_after a' c × HasColor color_after b' c
  HasColor-after = (
    λ h. elim (entry_cases a'.parent_index h u.a_lt) [ inl x ↦ x.0 | inr y ↦ absurd (y.2 h refl) ],
    λ h.
        let both : (0 < a'.parent_index) × (rep' b'.parent_index ≡ rep' a'.parent_index) =
          ground (arith, u.together, h) in
        elim (entry_cases b'.parent_index h u.b_lt) [
          | inl x ↦ x.0
          | inr y ↦ absurd (y.2 both.0 both.1)
        ],
  )
