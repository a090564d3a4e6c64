-- ===== src/Blobs/Union/Result.antt =====
-- yuv_run_union on every branch.
use jpl_vision.Common.{ℕ, ◌<◌, ◌≡◌, ◌≢◌, refl, arith, ℕ_discrete}
use jpl_vision.Blobs.Types.{BlobList, YuvRun}
use jpl_vision.Blobs.Forest.Valid.{IsForest}
use jpl_vision.Blobs.Union.{attach, start_blob, merge, yuv_run_union}
use jpl_vision.Blobs.Union.Spec.{Outcome}
use jpl_vision.Blobs.Union.Attach.{attach-Outcome}
use jpl_vision.Blobs.Union.Start.{start_blob-Outcome}
use jpl_vision.Blobs.Union.Merge.{merge-Outcome}

-- The outcome with the two runs exchanged.
swapped :
    (p : BlobList) (rep : ℕ → ℕ) (a b : YuvRun) (row : ℕ)
    → a.parent_index ≡ 0
    → 0 < b.parent_index
    → Outcome p rep b a (attach p b row a)
    → (a_row b_row : ℕ) → row ≡ a_row
    → Outcome p rep a b (yuv_run_union p a_row a b_row b)
unfolding yuv_run_union
swapped p rep a b row z h o a_row b_row e = record {
  list = o.list;
  run_a = o.run_b;
  run_b = o.run_a;
  rep' = o.rep';
  depth = o.depth;
  returns = ground (arith, o.returns);
  forest = o.forest;
  united = record {
    grown = o.united.grown;
    a_low = o.united.b_low;
    a_high = o.united.b_high;
    b_low = o.united.a_low;
    b_high = o.united.a_high;
    a_lt = o.united.b_lt;
    b_lt = o.united.a_lt;
    together = ground (arith, o.united.together);
    counted = omega (arith, o.united.counted);
    takes_a = o.united.takes_b;
    takes_b = o.united.takes_a;
    others = λ i m n na nb. o.united.others i m n nb na;
    apart =
        λ i m n na nb pb e. ground (arith, o.united.together, o.united.apart i m n nb na, pb, e);
    fresh = λ i m n. ground (arith, o.united.together, o.united.fresh i m n);
  };
}

-- On a valid list, of two runs whose blobs are entries of it, yuv_run_union fails no assert and
-- leaves a valid list. Afterwards both runs are in one blob, which takes in the blobs that they were
-- in, every other entry keeps its root, and the pixel total grows by the runs that came into a blob;
-- or, if neither was in a blob and there is no space for a new one, nothing changes.
pub yuv_run_union-Outcome :
    (p : BlobList) (rep d : ℕ → ℕ) (a_row : ℕ) (a : YuvRun) (b_row : ℕ) (b : YuvRun)
    → IsForest p rep d
    → a.parent_index < p.used_blob_set_count
    → b.parent_index < p.used_blob_set_count
    → Outcome p rep a b (yuv_run_union p a_row a b_row b)
yuv_run_union-Outcome p rep d a_row a b_row b v la lb = elim (ℕ_discrete a.parent_index 0) [
  | yes za ↦ elim (ℕ_discrete b.parent_index 0) [
    | yes zb ↦ rw (both za zb) (start_blob-Outcome p rep d v a a_row b b_row za zb)
    | no nb ↦
        swapped p rep a b a_row za (omega arith)
          (attach-Outcome p rep d v b a_row a (omega arith) lb za) a_row b_row refl
  ]
  | no na ↦ elim (ℕ_discrete b.parent_index 0) [
    | yes zb ↦ rw (second na zb) (attach-Outcome p rep d v a b_row b (omega arith) la zb)
    | no nb ↦ rw (neither na nb) (merge-Outcome p rep d v a b (omega arith) la (omega arith) lb)
  ]
]
  where
    both :
        a.parent_index ≡ 0
        → b.parent_index ≡ 0
        → yuv_run_union p a_row a b_row b ≡ start_blob p a_row a b_row b
    both za zb = unfold yuv_run_union in ground arith

    second :
        a.parent_index ≢ 0
        → b.parent_index ≡ 0
        → yuv_run_union p a_row a b_row b ≡ attach p a b_row b
    second na zb = unfold yuv_run_union in ground arith

    neither :
        a.parent_index ≢ 0 → b.parent_index ≢ 0 → yuv_run_union p a_row a b_row b ≡ merge p a b
    neither na nb = unfold yuv_run_union in ground arith
