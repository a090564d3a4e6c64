-- ===== src/Blobs/Rows/Later.antt =====
-- What later rounds leave of the labels that a row has got.
use jpl_vision.Common.{ℕ, ◌≤◌, ◌<◌, ◌≡◌, ◌∙◌, sym, refl, List, [], ◌∷◌, arith, length, inl, inr}
use jpl_vision.Blobs.Types.{BlobList, YuvRun}
use jpl_vision.Blobs.Rows.Steps.{Known, AllEvolve, WithRow, Together}
use jpl_vision.Blobs.Rows.Recolor.{HasColumns}
use jpl_vision.Blobs.Rows.Round.{Keeps}

-- The runs of `ss` have the columns of those of `rs`.
abbrev pub SameColumns : List YuvRun → List YuvRun → Type 0
SameColumns [] [] = Unit {0}
SameColumns [] (s ∷ ss) = ⊥
SameColumns (r ∷ rs) [] = ⊥
SameColumns (r ∷ rs) (s ∷ ss) =
    (s.run_low ≡ r.run_low) × (s.run_high ≡ r.run_high) × SameColumns rs ss

pub AllEvolve-SameColumns :
    (mid after : ℕ → ℕ) (rs ss ts : List YuvRun)
    → AllEvolve mid rs ss
    → AllEvolve after ss ts
    → SameColumns rs ts
AllEvolve-SameColumns mid after [] [] [] e f = tt
AllEvolve-SameColumns mid after [] [] (t ∷ ts) e f = absurd f
AllEvolve-SameColumns mid after [] (s ∷ ss) ts e f = absurd e
AllEvolve-SameColumns mid after (r ∷ rs) [] ts e f = absurd e
AllEvolve-SameColumns mid after (r ∷ rs) (s ∷ ss) [] e f = absurd f
AllEvolve-SameColumns mid after (r ∷ rs) (s ∷ ss) (t ∷ ts) e f =
    (f.0.0 ∙ e.0.0, f.0.1 ∙ e.0.1, AllEvolve-SameColumns mid after rs ss ts e.1 f.1)

pub AllEvolve-length :
    (rep : ℕ → ℕ) (rs ss : List YuvRun) → AllEvolve rep rs ss → length ss ≡ length rs
AllEvolve-length rep [] [] e = refl
AllEvolve-length rep [] (s ∷ ss) e = absurd e
AllEvolve-length rep (r ∷ rs) [] e = absurd e
AllEvolve-length rep (r ∷ rs) (s ∷ ss) e = omega (arith, AllEvolve-length rep rs ss e.1)

pub Keeps-trans :
    (p q : BlobList) (before mid after : ℕ → ℕ)
    → p.used_blob_set_count ≤ q.used_blob_set_count
    → Keeps p before mid
    → Keeps q mid after
    → Keeps p before after
Keeps-trans p q before mid after l h k i j hi li hj lj e =
    k i j hi (omega arith) hj (omega arith) (h i j hi li hj lj e)

module _ (q : BlobList) (mid after : ℕ → ℕ) (keeps : Keeps q mid after) where
  pub AllEvolve-later :
      (rs ss : List YuvRun)
      → Known q.used_blob_set_count rs
      → Known q.used_blob_set_count ss
      → AllEvolve mid rs ss
      → AllEvolve after rs ss
  AllEvolve-later [] [] k l e = tt
  AllEvolve-later [] (s ∷ ss) k l e = absurd e
  AllEvolve-later (r ∷ rs) [] k l e = absurd e
  AllEvolve-later (r ∷ rs) (s ∷ ss) k l e = (
    (
      e.0.0,
      e.0.1,
      λ h. let (hs, same) = e.0.2 h in (hs, keeps s.parent_index r.parent_index hs l.0 h k.0 same),
    ),
    AllEvolve-later rs ss k.1 l.1 e.1,
  )

  WithRow-later :
      (a : YuvRun) (bs cs : List YuvRun)
      → a.parent_index < q.used_blob_set_count
      → Known q.used_blob_set_count bs
      → AllEvolve after bs cs
      → WithRow mid a bs
      → WithRow after a cs
  WithRow-later a [] [] la k e w = tt
  WithRow-later a [] (c ∷ cs) la k e w = absurd e
  WithRow-later a (b ∷ bs) [] la k e w = absurd e
  WithRow-later a (b ∷ bs) (c ∷ cs) la k e w = (
    λ o.
        let (ha, hb, same) = w.0 (omega (arith, o.0, e.0.0), omega (arith, o.1, e.0.1)) in
        let (hc, late) = e.0.2 hb in
        (ha, hc, keeps a.parent_index b.parent_index ha la hb k.0 same ∙ sym late),
    WithRow-later a bs cs la k.1 e.1 w.1,
  )

  pub Together-later :
      (rs bs cs : List YuvRun)
      → Known q.used_blob_set_count rs
      → Known q.used_blob_set_count bs
      → AllEvolve after bs cs
      → Together mid rs bs
      → Together after rs cs
  Together-later [] bs cs ka kb e t = tt
  Together-later (r ∷ rs) bs cs ka kb e t =
      (WithRow-later r bs cs ka.0 kb e t.0, Together-later rs bs cs ka.1 kb e t.1)

-- A run that stands in a row afterwards stood in it before.
pub AllEvolve-HasColumns :
    (rep : ℕ → ℕ) (r : YuvRun) (rs ss : List YuvRun)
    → AllEvolve rep rs ss
    → HasColumns r ss
    → HasColumns r rs
AllEvolve-HasColumns rep r [] [] e h = h
AllEvolve-HasColumns rep r [] (s ∷ ss) e h = absurd e
AllEvolve-HasColumns rep r (x ∷ xs) [] e h = absurd e
AllEvolve-HasColumns rep r (x ∷ xs) (s ∷ ss) e (inl q) = inl (sym e.0.0 ∙ q.0, sym e.0.1 ∙ q.1)
AllEvolve-HasColumns rep r (x ∷ xs) (s ∷ ss) e (inr q) =
    inr (AllEvolve-HasColumns rep r xs ss e.1 q)
