-- ===== src/Blobs/Union/Attach.antt =====
-- attach: a run joins a blob.
use jpl_vision.Common.{ℕ, ◌%◌, ◌<◌, ◌≡◌, refl, inl, some, ◌∙◌, arith}
use jpl_vision.Blobs.Types.{BlobList, BlobStats, YuvRun, u16}
use jpl_vision.Blobs.Stats.{stats_add_singleton, run_length}
use jpl_vision.Blobs.Stats.Counts.{count-stats_add_singleton}
use jpl_vision.Blobs.Forest.Totals.{total-congr, total-with_stats}
use jpl_vision.Blobs.Forest.{with_stats, find_root}
use jpl_vision.Blobs.Forest.Valid.{IsForest, rep-IsRoot}
use jpl_vision.Blobs.Forest.Roots.{Compressed, find_root_lem}
use jpl_vision.Blobs.Union.{add_run, labelled, attach}
use jpl_vision.Blobs.Union.Spec.{Outcome}

-- Statistics do not matter for the invariant.
pub with_stats-IsForest :
    (p : BlobList) (rep d : ℕ → ℕ) (r : ℕ) (s : BlobStats)
    → IsForest p rep d
    → IsForest (with_stats p r s) rep d
with_stats-IsForest p rep d r s v = record {
  zero_self = v.zero_self;
  zero_unlisted = v.zero_unlisted;
  max_sets = v.max_sets;
  max_roots = v.max_roots;
  sets_used = v.sets_used;
  roots_used = v.roots_used;
  roots_lt = v.roots_lt;
  entry = λ j a b. ground (arith, v.entry j a b);
  root_entry = λ k a. ground (arith, v.root_entry k a);
}

module _ (p : BlobList) (rep d : ℕ → ℕ) (v : IsForest p rep d) where
  -- The result of attach, with the forest that find_root leaves.
  pub attach-run :
      (a : YuvRun) (row : ℕ) (b : YuvRun)
      → 0 < a.parent_index
      → a.parent_index < p.used_blob_set_count
      → (q : BlobList) × (attach p a row b
          ≡ some (
            add_run q (q.blob_set (rep a.parent_index)).root_list_index row b,
            labelled a (rep a.parent_index),
            labelled b (rep a.parent_index),
          ))
        × Compressed p rep d q
  unfolding attach
  attach-run a row b h l = go (find_root_lem rep d p a.parent_index v h l)
    where
      go :
          (q : BlobList) × (find_root p a.parent_index ≡ some (rep a.parent_index, q))
            × Compressed p rep d q
          → (q : BlobList) × (attach p a row b
              ≡ some (
                add_run q (q.blob_set (rep a.parent_index)).root_list_index row b,
                labelled a (rep a.parent_index),
                labelled b (rep a.parent_index),
              ))
            × Compressed p rep d q
      go (q, e, c) =
          let own = v.entry a.parent_index h l in
          (
            q,
            ground (
              arith,
              c.same_sets,
              own,
              rep-IsRoot q rep d c.forest a.parent_index h (omega (arith, c.same_sets)),
            ),
            c,
          )

  -- The run joins the blob of `a`, whose pixels it adds to.
  pub attach-Outcome :
      (a : YuvRun) (row : ℕ) (b : YuvRun)
      → 0 < a.parent_index
      → a.parent_index < p.used_blob_set_count
      → b.parent_index ≡ 0
      → Outcome p rep a b (attach p a row b)
  unfolding add_run
  attach-Outcome a row b h l z = go (attach-run a row b h l)
    where
      root : ℕ
      root = rep a.parent_index

      go :
          (q : BlobList) × (attach p a row b
              ≡ some (
                add_run q (q.blob_set root).root_list_index row b,
                labelled a root,
                labelled b root,
              ))
            × Compressed p rep d q
          → Outcome p rep a b (attach p a row b)
      go (q, e, c) =
          let own = v.entry a.parent_index h l in
          let root-IsRoot =
            rep-IsRoot q rep d c.forest a.parent_index h (omega (arith, c.same_sets)) in
          record {
            list = add_run q (q.blob_set root).root_list_index row b;
            run_a = labelled a root;
            run_b = labelled b root;
            rep' = rep;
            depth = d;
            returns = e;
            forest = with_stats-IsForest q rep d _ _ c.forest;
            united = record {
              grown = omega (arith, c.same_sets, c.same_roots, c.same_max_sets, c.same_max_roots);
              a_low = refl;
              a_high = refl;
              b_low = refl;
              b_high = refl;
              a_lt = omega (arith, own.rep_lt, c.same_sets);
              b_lt = omega (arith, own.rep_lt, c.same_sets);
              together = inl (own.rep_pos, own.rep_pos, refl);
              counted = ground (
                arith,
                own.rep_pos,
                total-congr p q c.same_info c.same_roots,
                total-with_stats q (q.blob_set root).root_list_index
                    (stats_add_singleton (q.root_info (q.blob_set root).root_list_index).stats
                      (row % u16) b.run_low b.run_high)
                    (run_length b.run_low b.run_high) root-IsRoot.0.listed
                    (count-stats_add_singleton _ (row % u16) b.run_low b.run_high),
              );
              takes_a = λ i k m w. ground (arith, w.same, root-IsRoot.0.own);
              takes_b = λ i k m w. absurd (omega (arith, w.has));
              others = λ i k m na nb. refl;
              apart = λ i k m na nb pa e. na (record { has = h; same = e ∙ root-IsRoot.0.own });
              fresh = λ i k m. absurd (omega (arith, k, m, c.same_sets));
            };
          }
