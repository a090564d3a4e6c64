-- ===== src/Blobs/Rows/Together.antt =====
-- yuv_run_row_union as a whole.
use jpl_vision.Common.{
  ℕ, zero, suc, ◌+◌, ◌≤◌, ◌<◌, ◌≡◌, refl, some, List, [], ◌∷◌, ltb, arith, length, dec_lt, max,
  if◌then◌else◌,
}
use jpl_vision.Blobs.Types.{BlobList, YuvRun}
use jpl_vision.Blobs.Total.Changes.{total-sum}
use jpl_vision.Blobs.Forest.Valid.{IsForest}
use jpl_vision.Blobs.Runs.Covers.{YuvSorted}
use jpl_vision.Blobs.Union.{yuv_run_union}
use jpl_vision.Blobs.Union.Spec.{Outcome}
use jpl_vision.Blobs.Union.Result.{yuv_run_union-Outcome}
use jpl_vision.Blobs.Rows.{Joined, behind_a, behind_b, row_union_from, yuv_run_row_union}
use jpl_vision.Blobs.Rows.Steps.{
  Known-mono, Known, AllEvolve-refl, gain_refl, Together, Together-nil,
}
use jpl_vision.Blobs.Rows.Recolor.{Recolors-refl}
use jpl_vision.Blobs.Rows.Advance.{Rounds, Rounds-advance_a, Rounds-advance_b}
use jpl_vision.Blobs.Rows.Round.{Round, Round-skip, Round-united}

-- Where one of the lists is used up nothing changes any more.
module _ (p : BlobList) (rep d : ℕ → ℕ) (v : IsForest p rep d) where
  Rounds-done :
      (xs ys : List YuvRun) (room : ℕ) {result : Joined}
      → Known p.used_blob_set_count xs
      → Known p.used_blob_set_count ys
      → Together rep xs ys
      → result ≡ some (p, xs, ys)
      → Rounds p rep xs ys room result
  Rounds-done xs ys room ka kb t e = record {
    list = p;
    runs_a = xs;
    runs_b = ys;
    rep' = rep;
    depth = d;
    returns = e;
    forest = v;
    max_sets = refl;
    max_roots = refl;
    sets_from = omega arith;
    sets_to = omega arith;
    roots_to = omega arith;
    known_a = ka;
    known_b = kb;
    evolve_a = AllEvolve-refl rep xs;
    evolve_b = AllEvolve-refl rep ys;
    keeps = λ i j hi li hj lj w. w;
    counted = omega (arith, total-sum p, gain_refl xs, gain_refl ys);
    together = λ space. t;
    colors = Recolors-refl p rep xs ys;
  }

-- While both rows have runs left, the loop has not looked beyond both of the next two.
abbrev NotBeyond : ℕ → List YuvRun → List YuvRun → Type 0
NotBeyond x [] ys = Unit {0}
NotBeyond x (a ∷ xs) [] = Unit {0}
NotBeyond x (a ∷ xs) (b ∷ ys) = x ≤ max a.run_low b.run_low

NotBeyond-tail_a :
    (x lo hi : ℕ) (xs : List YuvRun) (b : YuvRun) (ys : List YuvRun)
    → YuvSorted lo hi xs
    → x ≤ max lo b.run_low
    → NotBeyond x xs (b ∷ ys)
NotBeyond-tail_a x lo hi [] b ys o h = tt
NotBeyond-tail_a x lo hi (a ∷ xs) b ys o h = omega (arith, o.0)

NotBeyond-tail_b :
    (x lo hi : ℕ) (a : YuvRun) (xs ys : List YuvRun)
    → YuvSorted lo hi ys
    → x ≤ max a.run_low lo
    → NotBeyond x (a ∷ xs) ys
NotBeyond-tail_b x lo hi a xs [] o h = tt
NotBeyond-tail_b x lo hi a xs (b ∷ ys) o h = omega (arith, o.0)

-- A run with the same columns stands in the same place of its row.
sorted_like :
    (lo hi : ℕ) (r s : YuvRun) (rs : List YuvRun)
    → s.run_low ≡ r.run_low
    → s.run_high ≡ r.run_high
    → YuvSorted lo hi (r ∷ rs)
    → YuvSorted lo hi (s ∷ rs)
sorted_like lo hi r s rs e f o =
    (omega (arith, o.0), omega (arith, o.1), omega (arith, o.2), rw f o.3)

abbrev Claim : ℕ → Type 0
Claim fuel =
    (p : BlobList) (rep d : ℕ → ℕ) (a_row : ℕ) (xs : List YuvRun) (b_row : ℕ) (ys : List YuvRun)
    (x lo_a lo_b hi : ℕ)
    → IsForest p rep d
    → Known p.used_blob_set_count xs
    → Known p.used_blob_set_count ys
    → YuvSorted lo_a hi xs
    → YuvSorted lo_b hi ys
    → NotBeyond x xs ys
    → length xs + length ys < fuel
    → (room : ℕ) → room ≡ length xs + length ys
    → Rounds p rep xs ys room (row_union_from fuel p a_row xs b_row ys x)

-- A round of the loop on two runs.
module _ (fuel : ℕ) (claim : Claim fuel) (p : BlobList) (rep d : ℕ → ℕ) (a_row : ℕ) (a : YuvRun)
    (xs : List YuvRun) (b_row : ℕ) (b : YuvRun) (ys : List YuvRun) (x lo_a lo_b hi : ℕ)
    (v : IsForest p rep d) (ka : Known p.used_blob_set_count (a ∷ xs))
    (kb : Known p.used_blob_set_count (b ∷ ys)) (oa : YuvSorted lo_a hi (a ∷ xs))
    (ob : YuvSorted lo_b hi (b ∷ ys)) (hx : x ≤ max a.run_low b.run_low)
    (l : suc (length xs) + suc (length ys) < suc fuel) where
  -- The column that this round looks at.
  column : ℕ
  column =
      let x1 = if ltb x a.run_low then a.run_low else x in
      if ltb x1 b.run_low then b.run_low else x1

  column-max : column ≡ max a.run_low b.run_low
  unfolding column
  column-max = ground arith

  room : ℕ
  room = length xs + suc (length ys)

  abbrev Goal : Type 0
  Goal =
      Rounds p rep (a ∷ xs) (b ∷ ys) (suc room)
        (row_union_from (suc fuel) p a_row (a ∷ xs) b_row (b ∷ ys) x)

  skip_a : a.run_high ≤ column → Goal
  unfolding row_union_from room column
  skip_a h = rw eq (
      Rounds-advance_a (Round-skip p rep a b ka.0 kb.0 (λ o. omega (arith, column-max, o))) lo_a
        lo_b hi oa ob (omega (arith, column-max, oa.1, ob.1))
        (claim p rep d a_row xs b_row (b ∷ ys) column (a.run_high + 1) lo_b hi v ka.1 kb oa.3 ob
          (NotBeyond-tail_a column (a.run_high + 1) hi xs b ys oa.3
            (omega (arith, column-max, oa.1)))
          (omega arith) room refl))
    where
      eq :
          row_union_from (suc fuel) p a_row (a ∷ xs) b_row (b ∷ ys) x
          ≡ behind_a a (row_union_from fuel p a_row xs b_row (b ∷ ys) column)
      eq = ground (arith, h)

  skip_b : column < a.run_high → b.run_high ≤ column → Goal
  unfolding row_union_from room column
  skip_b k h = rw eq (
      Rounds-advance_b (Round-skip p rep a b ka.0 kb.0 (λ o. omega (arith, column-max, o))) lo_a
        lo_b hi oa ob (omega (arith, column-max, oa.1, ob.1))
        (claim p rep d a_row (a ∷ xs) b_row ys column lo_a (b.run_high + 1) hi v ka kb.1 oa ob.3
          (NotBeyond-tail_b column (b.run_high + 1) hi a xs ys ob.3
            (omega (arith, column-max, ob.1)))
          (omega arith) room (omega arith)))
    where
      eq :
          row_union_from (suc fuel) p a_row (a ∷ xs) b_row (b ∷ ys) x
          ≡ behind_b b (row_union_from fuel p a_row (a ∷ xs) b_row ys column)
      eq = ground (arith, k, h)

  unite : column < a.run_high → column < b.run_high → Goal
  unite k h = elim (dec_lt a.run_high b.run_high) [
    | yes less ↦ unite_a k h less
    | no more ↦ unite_b k h more
  ]
    where
      o : Outcome p rep a b (yuv_run_union p a_row a b_row b)
      o = yuv_run_union-Outcome p rep d a_row a b_row b v ka.0 kb.0

      round : Round p rep a b o.list o.rep' o.run_a o.run_b
      round = Round-united ka.0 kb.0 (omega (arith, column-max, k, h)) o.united

      eq_a :
          column < a.run_high
          → column < b.run_high
          → a.run_high < b.run_high
          → row_union_from (suc fuel) p a_row (a ∷ xs) b_row (b ∷ ys) x
            ≡ behind_a o.run_a (row_union_from fuel o.list a_row xs b_row (o.run_b ∷ ys) column)
      eq_a k h less = unfold row_union_from column in ground (arith, k, h, less, o.returns)

      eq_b :
          column < a.run_high
          → column < b.run_high
          → ¬ (a.run_high < b.run_high)
          → row_union_from (suc fuel) p a_row (a ∷ xs) b_row (b ∷ ys) x
            ≡ behind_b o.run_b (row_union_from fuel o.list a_row (o.run_a ∷ xs) b_row ys column)
      eq_b k h more = unfold row_union_from column in ground (arith, k, h, more, o.returns)

      unite_a : column < a.run_high → column < b.run_high → a.run_high < b.run_high → Goal
      unite_a k h less = rw (eq_a k h less) (
          Rounds-advance_a round lo_a lo_b hi oa ob (omega arith) (
            claim o.list o.rep' o.depth a_row xs b_row (o.run_b ∷ ys) column (a.run_high + 1) lo_b
              hi o.forest (Known-mono _ _ xs round.grown.sets_from ka.1)
              (round.b_lt, Known-mono _ _ ys round.grown.sets_from kb.1) oa.3
              (sorted_like lo_b hi b o.run_b ys o.united.b_low o.united.b_high ob)
              (NotBeyond-tail_a column (a.run_high + 1) hi xs o.run_b ys oa.3
                (omega (arith, column-max, oa.1, o.united.b_low)))
              (omega arith) room (unfold room in refl)))

      unite_b : column < a.run_high → column < b.run_high → ¬ (a.run_high < b.run_high) → Goal
      unite_b k h more = rw (eq_b k h more) (
          Rounds-advance_b round lo_a lo_b hi oa ob (omega arith) (
            claim o.list o.rep' o.depth a_row (o.run_a ∷ xs) b_row ys column lo_a (b.run_high + 1)
              hi o.forest (round.a_lt, Known-mono _ _ xs round.grown.sets_from ka.1)
              (Known-mono _ _ ys round.grown.sets_from kb.1)
              (sorted_like lo_a hi a o.run_a xs o.united.a_low o.united.a_high oa) ob.3
              (NotBeyond-tail_b column (b.run_high + 1) hi o.run_a xs ys ob.3
                (omega (arith, column-max, ob.1, o.united.a_low)))
              (omega arith) room (unfold room in omega arith)))

  round_of_two : Goal
  round_of_two = elim (dec_lt column a.run_high) [
    | no h ↦ skip_a (omega arith)
    | yes k ↦ elim (dec_lt column b.run_high) [ no h ↦ skip_b k (omega arith) | yes h ↦ unite k h ]
  ]

row_union_from-Rounds : (fuel : ℕ) → Claim fuel
unfolding row_union_from room
row_union_from-Rounds zero p rep d a_row xs b_row ys x lo_a lo_b hi v ka kb oa ob hx l n e =
    absurd (omega arith)
row_union_from-Rounds (suc fuel) p rep d a_row [] b_row ys x lo_a lo_b hi v ka kb oa ob hx l n e =
    Rounds-done p rep d v [] ys n ka kb tt refl
row_union_from-Rounds (suc fuel) p rep d a_row (a ∷ xs) b_row [] x lo_a lo_b hi v ka kb oa ob hx l n
      e =
    Rounds-done p rep d v (a ∷ xs) [] n ka kb (Together-nil rep (a ∷ xs)) refl
row_union_from-Rounds (suc fuel) p rep d a_row (a ∷ xs) b_row (b ∷ ys) x lo_a lo_b hi v ka kb oa ob
      hx l n e =
    let e' : n ≡ suc (length xs + suc (length ys)) = omega arith in
    rw e' (
      round_of_two fuel (row_union_from-Rounds fuel) p rep d a_row a xs b_row b ys x lo_a lo_b hi v
        ka kb oa ob hx l)

-- On a valid list and two rows of sorted runs, yuv_run_row_union fails no assert, ends, and leaves a
-- valid list. Every run keeps its columns and its blob, entries of one blob stay in one blob, and the
-- pixel total grows by the runs that came into a blob. If there is space for as many entries and
-- roots as there are runs, every two runs of the two rows that share a column are in one blob.
pub yuv_run_row_union-Rounds :
    (p : BlobList) (rep d : ℕ → ℕ) (a_row : ℕ) (xs : List YuvRun) (b_row : ℕ) (ys : List YuvRun)
    (cols : ℕ)
    → IsForest p rep d
    → Known p.used_blob_set_count xs
    → Known p.used_blob_set_count ys
    → YuvSorted 0 cols xs
    → YuvSorted 0 cols ys
    → Rounds p rep xs ys (length xs + length ys) (yuv_run_row_union p a_row xs b_row ys)
unfolding yuv_run_row_union
yuv_run_row_union-Rounds p rep d a_row xs b_row ys cols v ka kb oa ob =
    row_union_from-Rounds (length xs + length ys + 1) p rep d a_row xs b_row ys 0 0 0 cols v ka kb
      oa ob (start xs ys) (omega arith) (length xs + length ys) refl
  where
    start : (xs ys : List YuvRun) → NotBeyond 0 xs ys
    start [] ys = tt
    start (x ∷ xs) [] = tt
    start (x ∷ xs) (y ∷ ys) = omega arith
