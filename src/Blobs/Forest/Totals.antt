-- ===== src/Blobs/Forest/Totals.antt =====
-- The number of pixels in all blobs under the operations on the forest.
use jpl_vision.Common.{ℕ, suc, some, sym, ◌+◌, ◌-◌, ◌%◌, ◌<◌, ◌≡◌, ◌≢◌, refl, ◌∙◌, inl, inr, arith}
use jpl_vision.Common.Memory.{Array, sum_below}
use jpl_vision.Blobs.Types.{BlobList, BlobStats, RootInfo, YuvRun, u16, u32}
use jpl_vision.Blobs.Stats.{stats_add, run_length}
use jpl_vision.Blobs.Stats.Counts.{count-stats_add, count-stats_init}
use jpl_vision.Blobs.Total.{get_total_blob_pixel_count}
use jpl_vision.Blobs.Total.Changes.{total-sum, total-update, total-append, total-merge, counts}
use jpl_vision.Blobs.Forest.{link, with_stats, with_rank}
use jpl_vision.Blobs.Forest.Valid.{IsForest, IsRoot}
use jpl_vision.Blobs.Forest.Parent.{joined}
use jpl_vision.Blobs.Forest.Joins.{Linked, Distinct, link_lem, added}

-- Only the root entries and their number matter.
pub total-congr :
    (p q : BlobList)
    → ◌≡◌ {A = Array RootInfo} q.root_info p.root_info
    → q.used_root_list_count ≡ p.used_root_list_count
    → get_total_blob_pixel_count q ≡ get_total_blob_pixel_count p
total-congr p q e f = rw (total-sum q, total-sum p, e, f)

pub total-with_stats :
    (p : BlobList) (r : ℕ) (s : BlobStats) (k : ℕ)
    → r < p.used_root_list_count
    → s.count ≡ ((p.root_info r).stats.count + k) % u32
    → get_total_blob_pixel_count (with_stats p r s) ≡ (get_total_blob_pixel_count p + k) % u32
total-with_stats p r s k l h = omega (
  arith,
  total-sum p,
  total-sum (with_stats p r s),
  h,
  total-update p.used_root_list_count p.root_info r (record (p.root_info r) { stats = s }) l,
)

-- A new blob adds the pixels of its run.
pub total-added :
    (p : BlobList) (run : YuvRun) (row : ℕ)
    → get_total_blob_pixel_count (added p run row)
      ≡ (get_total_blob_pixel_count p + run_length run.run_low run.run_high) % u32
unfolding added
total-added p run row = omega (
  arith,
  total-sum p,
  total-sum (added p run row),
  count-stats_init (row % u16) run.run_low run.run_high,
  total-append p.used_root_list_count (added p run row).root_info p.root_info (λ r l. ground arith),
  last,
)
  where
    last :
        ((added p run row).root_info p.used_root_list_count).stats.count
        ≡ run_length run.run_low run.run_high
    last = ground (arith, count-stats_init (row % u16) run.run_low run.run_high)

-- Hanging one root below another moves pixels from one blob to the other.
pub total-joined :
    (p : BlobList) (rep d : ℕ → ℕ) (s t : ℕ)
    → IsRoot p rep d s
    → IsRoot p rep d t
    → s ≢ t
    → get_total_blob_pixel_count (joined p s t) ≡ get_total_blob_pixel_count p
unfolding joined
total-joined p rep d s t rs rt ne = omega (arith, total-sum p, total-sum (joined p s t), merged)
  where
    prx : ℕ
    prx = (p.blob_set t).root_list_index

    crx : ℕ
    crx = (p.blob_set s).root_list_index

    n : ℕ
    n = p.used_root_list_count - 1

    used : suc n ≡ p.used_root_list_count
    used = omega (arith, rs.listed)

    merged :
        sum_below n (counts (joined p s t).root_info) % u32
        ≡ sum_below p.used_root_list_count (counts p.root_info) % u32
    merged =
        total-merge n p.used_root_list_count p.root_info prx crx
          (stats_add (p.root_info prx).stats (p.root_info crx).stats) used rt.listed rs.listed
          (λ e. ne (ground (arith, rs.back, rt.back, e)))
          (count-stats_add (p.root_info prx).stats (p.root_info crx).stats)

pub total-with_rank :
    (p : BlobList) (t k : ℕ)
    → get_total_blob_pixel_count (with_rank p t k) ≡ get_total_blob_pixel_count p
total-with_rank p t k = total-congr p (with_rank p t k) refl refl

-- link keeps the number of pixels in all blobs.
pub total-Linked :
    (p : BlobList) (rep d : ℕ → ℕ) (s t : ℕ) {q : BlobList}
    → IsRoot p rep d s
    → IsRoot p rep d t
    → s ≢ t
    → Linked p rep d s t q
    → get_total_blob_pixel_count q ≡ get_total_blob_pixel_count p
total-Linked p rep d s t rs rt ne l = elim l.state [
  | inl e ↦ rw e (total-joined p rep d s t rs rt ne)
  | inr e ↦ rw e (
      total-joined (with_rank p t l.rank) rep d s t (ground (arith, rs)) (ground (arith, rt)) ne
      ∙ total-with_rank p t l.rank)
]

-- link of two different roots of a valid list fails no assert and keeps the number of pixels in all
-- blobs.
pub link-total :
    (p : BlobList) (rep d : ℕ → ℕ) (s t : ℕ)
    → IsForest p rep d
    → Distinct p s t
    → (q : BlobList) × (root : ℕ) × (link p s t ≡ some (root, q))
      × (get_total_blob_pixel_count q ≡ get_total_blob_pixel_count p)
link-total p rep d s t v w =
    let (q, o) = link_lem p rep d v s t w in
    elim o [
      | inl (e, l) ↦ (q, t, e, total-Linked p rep d s t rs rt w.ne l)
      | inr (e, l) ↦ (q, s, e, total-Linked p rep d t s rt rs (λ h. w.ne (sym h)) l)
    ]
  where
    rs : IsRoot p rep d s
    rs = ground (arith, v.entry s w.s_pos w.s_lt, w.s_root)

    rt : IsRoot p rep d t
    rt = ground (arith, v.entry t w.t_pos w.t_lt, w.t_root)
