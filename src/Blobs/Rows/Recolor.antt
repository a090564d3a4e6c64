-- ===== src/Blobs/Rows/Recolor.antt =====
-- How the colors of entries follow the runs of two rows, from round to round.
use jpl_vision.Common.{ℕ, ◌≤◌, ◌<◌, ◌≡◌, refl, ◌∙◌, sym, ap, ◌⊎◌, inl, inr, List, [], ◌∷◌, arith}
use jpl_vision.Blobs.Types.{BlobList, YuvRun}
use jpl_vision.Blobs.Rows.Steps.{Known, Known-mono, Overlap}
use jpl_vision.Blobs.Rows.Colors.{Pure, SameOn, HasColor}

-- The entries of a row's runs have the colors that `f` gives to their first columns.
abbrev pub AllColored : (ℕ → ℕ) → (ℕ → ℕ) → List YuvRun → Type 0
AllColored color f [] = Unit {0}
AllColored color f (r ∷ rs) = HasColor color r (f r.run_low) × AllColored color f rs

-- The row has a run with the columns of `r`.
abbrev pub HasColumns : YuvRun → List YuvRun → Type 0
HasColumns r [] = ⊥
HasColumns r (s ∷ ss) = ((s.run_low ≡ r.run_low) × (s.run_high ≡ r.run_high)) ⊎ HasColumns r ss

-- Runs of the two rows that share a column have one color.
abbrev pub Agree : (ℕ → ℕ) → (ℕ → ℕ) → List YuvRun → List YuvRun → Type 0
Agree f g xs ys =
    (a b : YuvRun) → HasColumns a xs → HasColumns b ys → Overlap a b → f a.run_low ≡ g b.run_low

-- However two runs are colored, so that the colors agree, their blobs stay pure.
abbrev pub Recolor :
    BlobList → (ℕ → ℕ) → YuvRun → YuvRun → BlobList → (ℕ → ℕ) → YuvRun → YuvRun → Type 0
Recolor p rep a b q rep' a' b' =
    (color : ℕ → ℕ) (c d : ℕ)
    → (Overlap a b → c ≡ d)
    → Pure p rep color
    → HasColor color a c
    → HasColor color b d
    → (color' : ℕ → ℕ) × Pure q rep' color'
      × SameOn p color color'
      × HasColor color' a' c
      × HasColor color' b' d

-- The same of two rows.
abbrev pub Recolors :
    BlobList
    → (ℕ → ℕ)
    → List YuvRun
    → List YuvRun
    → BlobList
    → (ℕ → ℕ)
    → List YuvRun
    → List YuvRun
    → Type 0
Recolors p rep xs ys q rep' xs' ys' =
    (color f g : ℕ → ℕ)
    → Agree f g xs ys
    → Known p.used_blob_set_count xs
    → Known p.used_blob_set_count ys
    → Pure p rep color
    → AllColored color f xs
    → AllColored color g ys
    → (color' : ℕ → ℕ) × Pure q rep' color'
      × SameOn p color color'
      × AllColored color' f xs'
      × AllColored color' g ys'

pub Recolors-refl :
    (p : BlobList) (rep : ℕ → ℕ) (xs ys : List YuvRun) → Recolors p rep xs ys p rep xs ys
Recolors-refl p rep xs ys color f g agree kx ky pure cx cy = (color, pure, λ i h. refl, cx, cy)

pub Recolor-refl : (p : BlobList) (rep : ℕ → ℕ) (a b : YuvRun) → Recolor p rep a b p rep a b
Recolor-refl p rep a b color c d same pure ca cb = (color, pure, λ i h. refl, ca, cb)

pub AllColored-same :
    (p : BlobList) (color color' f : ℕ → ℕ) (rs : List YuvRun)
    → SameOn p color color'
    → Known p.used_blob_set_count rs
    → AllColored color f rs
    → AllColored color' f rs
AllColored-same p color color' f [] s k c = tt
AllColored-same p color color' f (r ∷ rs) s k c =
    (λ h. s r.parent_index k.0 ∙ c.0 h, AllColored-same p color color' f rs s k.1 c.1)

module _ (p : BlobList) (rep : ℕ → ℕ) (q : BlobList) (rep' : ℕ → ℕ) where
  pub Recolor-swap :
      (a b a' b' : YuvRun) → Recolor p rep a b q rep' a' b' → Recolor p rep b a q rep' b' a'
  Recolor-swap a b a' b' h color c d same pure cb ca =
      let (color', pure', old, ca', cb') = h color d c (λ o. sym (same (o.1, o.0))) pure ca cb in
      (color', pure', old, cb', ca')

  pub Recolors-swap :
      (xs ys xs' ys' : List YuvRun)
      → Recolors p rep xs ys q rep' xs' ys'
      → Recolors p rep ys xs q rep' ys' xs'
  Recolors-swap xs ys xs' ys' h color f g agree ky kx pure cy cx =
      let (color', pure', old, cx', cy') =
        h color g f (λ a b ia ib o. sym (agree b a ib ia (o.1, o.0))) kx ky pure cx cy in
      (color', pure', old, cy', cx')

Agree-later :
    (f g : ℕ → ℕ) (a b b' : YuvRun) (xs ys : List YuvRun)
    → b'.run_low ≡ b.run_low
    → b'.run_high ≡ b.run_high
    → Agree f g (a ∷ xs) (b ∷ ys)
    → Agree f g xs (b' ∷ ys)
Agree-later f g a b b' xs ys b_low b_high agree x y ix iy o = agree x y (inr ix) (behind iy) o
  where
    behind : HasColumns y (b' ∷ ys) → HasColumns y (b ∷ ys)
    behind (inl e) = inl (sym b_low ∙ e.0, sym b_high ∙ e.1)
    behind (inr i) = inr i

-- A round that leaves `a` behind, put in front of the later rounds.
module _ (p : BlobList) (rep : ℕ → ℕ) (q : BlobList) (mid : ℕ → ℕ) (r : BlobList) (after : ℕ → ℕ)
    (a b a' b' : YuvRun) (xs ys as' bs : List YuvRun)
    (grown : p.used_blob_set_count ≤ q.used_blob_set_count)
    (la : a'.parent_index < q.used_blob_set_count) (lb : b'.parent_index < q.used_blob_set_count)
    (a_low : a'.run_low ≡ a.run_low) (b_low : b'.run_low ≡ b.run_low)
    (b_high : b'.run_high ≡ b.run_high) where
  pub Recolors-advance :
      Recolor p rep a b q mid a' b'
      → Recolors q mid xs (b' ∷ ys) r after as' bs
      → Recolors p rep (a ∷ xs) (b ∷ ys) r after (a' ∷ as') bs
  Recolors-advance first later color f g agree kx ky pure cx cy =
      let (mid_color, mid_pure, old, ca, cb) =
        first color (f a.run_low) (g b.run_low) (agree a b (inl (refl, refl)) (inl (refl, refl)))
          pure cx.0 cy.0 in
      let (color', pure', old', cas, cbs) =
        later mid_color f g (Agree-later f g a b b' xs ys b_low b_high agree)
          (Known-mono _ _ xs grown kx.1) (lb, Known-mono _ _ ys grown ky.1) mid_pure
          (AllColored-same p color mid_color f xs old kx.1 cx.1)
          (λ h. cb h ∙ ap g (sym b_low), AllColored-same p color mid_color g ys old ky.1 cy.1) in
      (
        color',
        pure',
        λ i h. old' i (omega arith) ∙ old i h,
        (λ h. old' a'.parent_index la ∙ ca h ∙ ap f (sym a_low), cas),
        cbs,
      )
