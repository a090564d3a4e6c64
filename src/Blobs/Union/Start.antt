-- ===== src/Blobs/Union/Start.antt =====
-- start_blob: two runs start a blob.
use jpl_vision.Common.{ℕ, ◌+◌, ◌%◌, ◌≤◌, ◌<◌, ◌≡◌, refl, ◌⊎◌, inl, inr, arith, dec_lt}
use jpl_vision.Blobs.Types.{BlobList, YuvRun, u16}
use jpl_vision.Blobs.Stats.{stats_add_singleton, run_length}
use jpl_vision.Blobs.Stats.Counts.{count-stats_add_singleton}
use jpl_vision.Blobs.Forest.Totals.{total-with_stats, total-added}
use jpl_vision.Blobs.Total.Changes.{total-sum}
use jpl_vision.Blobs.Forest.Valid.{IsForest}
use jpl_vision.Blobs.Forest.Joins.{make_set-full, make_set-added, added, rep_added, depth_added}
use jpl_vision.Blobs.Union.{add_run, labelled, start_blob}
use jpl_vision.Blobs.Union.Spec.{Outcome}
use jpl_vision.Blobs.Union.Attach.{with_stats-IsForest}

module _ (p : BlobList) (rep d : ℕ → ℕ) (v : IsForest p rep d) where
  -- Without space the list stays as it is, and the runs stay without a blob.
  start_blob-lost :
      (a : YuvRun) (a_row : ℕ) (b : YuvRun) (b_row : ℕ)
      → a.parent_index ≡ 0
      → b.parent_index ≡ 0
      → ((p.max_blob_set_count ≤ p.used_blob_set_count)
          ⊎ (p.max_root_list_count ≤ p.used_root_list_count))
      → Outcome p rep a b (start_blob p a_row a b_row b)
  unfolding start_blob
  start_blob-lost a a_row b b_row za zb full = record {
    list = p;
    run_a = labelled a 0;
    run_b = labelled b 0;
    rep' = rep;
    depth = d;
    returns = ground (arith, make_set-full p rep d v a a_row full, v.zero_unlisted, v.roots_lt);
    forest = v;
    united = record {
      grown = omega arith;
      a_low = refl;
      a_high = refl;
      b_low = refl;
      b_high = refl;
      a_lt = omega (arith, v.roots_lt);
      b_lt = omega (arith, v.roots_lt);
      together = inr (za, zb, refl, refl, refl, full);
      counted = ground (arith, total-sum p);
      takes_a = λ i m n w. absurd (omega (arith, w.has));
      takes_b = λ i m n w. absurd (omega (arith, w.has));
      others = λ i m n na nb. refl;
      apart = λ i m n na nb pa. absurd (omega (arith, pa));
      fresh = λ i m n. absurd (omega (arith, m, n));
    };
  }

  -- With space the two runs start a blob of their own.
  start_blob-added :
      (a : YuvRun) (a_row : ℕ) (b : YuvRun) (b_row : ℕ)
      → a.parent_index ≡ 0
      → b.parent_index ≡ 0
      → p.used_blob_set_count < p.max_blob_set_count
      → p.used_root_list_count < p.max_root_list_count
      → Outcome p rep a b (start_blob p a_row a b_row b)
  unfolding start_blob add_run
  start_blob-added a a_row b b_row za zb h k =
      let made = make_set-added p rep d v a a_row h k in
      record {
        list = add_run q rx b_row b;
        run_a = labelled a bx;
        run_b = labelled b bx;
        rep' = rep_added p rep;
        depth = depth_added p d;
        returns = ground (arith, made.0, entry, v.roots_used, v.max_roots);
        forest = with_stats-IsForest q (rep_added p rep) (depth_added p d) _ _ made.1;
        united = record {
          grown = omega (arith, entry);
          a_low = refl;
          a_high = refl;
          b_low = refl;
          b_high = refl;
          a_lt = omega (arith, entry);
          b_lt = omega (arith, entry);
          together = inl (omega (arith, v.roots_lt), omega (arith, v.roots_lt), refl);
          counted = ground (
            arith,
            v.roots_lt,
            total-added p a a_row,
            total-with_stats q rx
                (stats_add_singleton (q.root_info rx).stats (b_row % u16) b.run_low b.run_high)
                (run_length b.run_low b.run_high) (omega (arith, entry))
                (count-stats_add_singleton (q.root_info rx).stats (b_row % u16) b.run_low
                  b.run_high),
          );
          takes_a = λ i m n w. absurd (omega (arith, w.has));
          takes_b = λ i m n w. absurd (omega (arith, w.has));
          others = λ i m n na nb. ground arith;
          apart = λ i m n na nb pa e. absurd (ground (arith, n, e, v.entry i m n));
          fresh = λ i m n. (omega (arith, v.roots_lt), ground (arith, m, n, entry));
        };
      }
    where
      bx : ℕ
      bx = p.used_blob_set_count

      rx : ℕ
      rx = p.used_root_list_count

      q : BlobList
      q = added p a a_row

      entry :
          (q.used_blob_set_count ≡ p.used_blob_set_count + 1)
          × (q.used_root_list_count ≡ p.used_root_list_count + 1)
          × ((q.blob_set bx).root_list_index ≡ rx)
          × (q.max_blob_set_count ≡ p.max_blob_set_count)
          × (q.max_root_list_count ≡ p.max_root_list_count)
      entry = unfold added in ground arith

  -- Two runs without a blob: they start one, or they are lost for want of space.
  pub start_blob-Outcome :
      (a : YuvRun) (a_row : ℕ) (b : YuvRun) (b_row : ℕ)
      → a.parent_index ≡ 0
      → b.parent_index ≡ 0
      → Outcome p rep a b (start_blob p a_row a b_row b)
  start_blob-Outcome a a_row b b_row za zb =
      elim (dec_lt p.used_blob_set_count p.max_blob_set_count) [
        | yes h ↦ elim (dec_lt p.used_root_list_count p.max_root_list_count) [
          | yes k ↦ start_blob-added a a_row b b_row za zb h k
          | no k ↦ lost (inr (omega arith))
        ]
        | no h ↦ lost (inl (omega arith))
      ]
    where
      lost :
          (p.max_blob_set_count ≤ p.used_blob_set_count)
            ⊎ (p.max_root_list_count ≤ p.used_root_list_count)
          → Outcome p rep a b (start_blob p a_row a b_row b)
      lost full = start_blob-lost a a_row b b_row za zb full
