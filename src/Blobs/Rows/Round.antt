-- ===== src/Blobs/Rows/Round.antt =====
-- One round of yuv_run_row_union: what it does to the two runs, their blobs and all other entries.
use jpl_vision.Common.{ℕ, ◌+◌, ◌%◌, ◌≤◌, ◌<◌, ◌≡◌, refl, ◌∙◌, sym, arith}
use jpl_vision.Blobs.Types.{BlobList, YuvRun, u32}
use jpl_vision.Blobs.Total.{get_total_blob_pixel_count}
use jpl_vision.Blobs.Total.Changes.{total-sum}
use jpl_vision.Blobs.Union.Spec.{newly, Grown, in_blob?, United}
use jpl_vision.Blobs.Rows.Colors.{HasColor, color_after, Pure-after, SameOn-after, HasColor-after}
use jpl_vision.Blobs.Rows.Recolor.{Recolor, Recolor-refl}
use jpl_vision.Blobs.Rows.Steps.{Evolves, Overlap, OneBlob}

-- There is space for `n` more entries and roots.
abbrev pub Space : BlobList → ℕ → Type 0
Space p n =
    (p.used_blob_set_count + n ≤ p.max_blob_set_count)
    × (p.used_root_list_count + n ≤ p.max_root_list_count)

-- Entries of one blob stay in one blob.
abbrev pub Keeps : BlobList → (ℕ → ℕ) → (ℕ → ℕ) → Type 0
Keeps p rep rep' =
    (i j : ℕ)
    → 0 < i
    → i < p.used_blob_set_count
    → 0 < j
    → j < p.used_blob_set_count
    → rep i ≡ rep j
    → rep' i ≡ rep' j

-- One round: the runs `a` and `b` became `a'` and `b'`.
pub record Round (p : BlobList) (rep : ℕ → ℕ) (a b : YuvRun) (q : BlobList) (rep' : ℕ → ℕ)
    (a' b' : YuvRun) : Type 0 where
  pub grown : Grown p q
  pub a_was : a.parent_index < p.used_blob_set_count
  pub b_was : b.parent_index < p.used_blob_set_count
  pub evolve_a : Evolves rep' a a'
  pub evolve_b : Evolves rep' b b'
  pub a_lt : a'.parent_index < q.used_blob_set_count
  pub b_lt : b'.parent_index < q.used_blob_set_count
  pub keeps : Keeps p rep rep'
  pub counted :
      get_total_blob_pixel_count q ≡ (get_total_blob_pixel_count p + newly a a' + newly b b') % u32
  pub one : Overlap a b → Space p 1 → OneBlob rep' a' b'
  pub colors : Recolor p rep a b q rep' a' b'

-- A round that changes nothing: the two runs share no column.
pub Round-skip :
    (p : BlobList) (rep : ℕ → ℕ) (a b : YuvRun)
    → a.parent_index < p.used_blob_set_count
    → b.parent_index < p.used_blob_set_count
    → ¬ Overlap a b
    → Round p rep a b p rep a b
Round-skip p rep a b la lb no_overlap = record {
  grown = omega arith;
  a_was = la;
  b_was = lb;
  evolve_a = (refl, refl, λ h. (h, refl));
  evolve_b = (refl, refl, λ h. (h, refl));
  a_lt = la;
  b_lt = lb;
  keeps = λ i j hi li hj lj e. e;
  counted = ground (arith, total-sum p);
  one = λ o. absurd (no_overlap o);
  colors = Recolor-refl p rep a b;
}

-- A round that unites the two runs.
module _ {p : BlobList} {rep : ℕ → ℕ} {a b : YuvRun} {q : BlobList} {rep' : ℕ → ℕ} {a' b' : YuvRun}
    (la : a.parent_index < p.used_blob_set_count) (lb : b.parent_index < p.used_blob_set_count)
    (overlap : Overlap a b) (u : United p rep a b q rep' a' b') where
  united-Keeps : Keeps p rep rep'
  united-Keeps i j hi li hj lj e = elim (in_blob? rep a i) [
    | yes w ↦
        u.takes_a i hi li w
        ∙ sym (u.takes_a j hj lj (record { has = w.has; same = sym e ∙ w.same }))
    | no na ↦ elim (in_blob? rep b i) [
      | yes w ↦
          u.takes_b i hi li w
          ∙ sym (u.takes_b j hj lj (record { has = w.has; same = sym e ∙ w.same }))
      | no nb ↦
          u.others i hi li na nb
          ∙ e
          ∙ sym (
              u.others j hj lj (λ w. na (record { has = w.has; same = e ∙ w.same }))
                (λ w. nb (record { has = w.has; same = e ∙ w.same })))
    ]
  ]

  pub Round-united : Round p rep a b q rep' a' b'
  Round-united = record {
    grown = u.grown;
    a_was = la;
    b_was = lb;
    evolve_a = (
      u.a_low,
      u.a_high,
      λ h. (
        ground (arith, u.together),
        sym (u.takes_a a.parent_index h la (record { has = h; same = refl })),
      ),
    );
    evolve_b = (
      u.b_low,
      u.b_high,
      λ h. (
        ground (arith, u.together),
        sym (u.takes_b b.parent_index h lb (record { has = h; same = refl })),
      ),
    );
    a_lt = u.a_lt;
    b_lt = u.b_lt;
    keeps = united-Keeps;
    counted = u.counted;
    one = λ o space. ground (arith, u.together);
    colors = λ color c d same pure ca cb.
        let cb' : HasColor color b c = λ h. cb h ∙ sym (same overlap) in
        let (a_color, b_color) = HasColor-after la lb u color c pure ca cb' in
        (
          color_after la lb u color c pure ca cb',
          Pure-after la lb u color c pure ca cb',
          SameOn-after la lb u color c pure ca cb',
          a_color,
          λ h. b_color h ∙ same overlap,
        );
  }
