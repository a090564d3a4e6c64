-- ===== src/Blobs/Union/Spec.antt =====
-- What yuv_run_union promises: how the partition changes, and the runs' places in it.
use jpl_vision.Common.{
  ℕ, ◌+◌, ◌%◌, ◌==◌, if◌then◌else◌, Option, some, ◌≤◌, ◌<◌, ◌≡◌, ◌≢◌, ◌⊎◌, ℕ_discrete, dec_lt,
}
use jpl_vision.Blobs.Types.{BlobList, YuvRun, u32}
use jpl_vision.Blobs.Stats.{run_length}
use jpl_vision.Blobs.Total.{get_total_blob_pixel_count}
use jpl_vision.Blobs.Forest.Valid.{IsForest}

-- `i` is an entry of the blob of the run `r`.
pub record InBlob (rep : ℕ → ℕ) (r : YuvRun) (i : ℕ) : Type 0 where
  pub has : 0 < r.parent_index
  pub same : rep i ≡ rep r.parent_index

pub in_blob? : (rep : ℕ → ℕ) (r : YuvRun) (i : ℕ) → Dec (InBlob rep r i)
in_blob? rep r i = elim (dec_lt 0 r.parent_index) [
  | no h ↦ no (λ w. h w.has)
  | yes h ↦ elim (ℕ_discrete (rep i) (rep r.parent_index)) [
    | yes e ↦ yes (record { has = h; same = e })
    | no ne ↦ no (λ w. ne w.same)
  ]
]

-- The pixels of a run that has come into a blob.
abbrev pub newly : YuvRun → YuvRun → ℕ
newly r r' =
    if r.parent_index == 0
    then (if r'.parent_index == 0 then 0 else run_length r.run_low r.run_high)
    else 0

-- The limits stay, and at most one entry and one root are added.
pub record Grown (p q : BlobList) : Type 0 where
  pub max_sets : q.max_blob_set_count ≡ p.max_blob_set_count
  pub max_roots : q.max_root_list_count ≡ p.max_root_list_count
  pub sets_from : p.used_blob_set_count ≤ q.used_blob_set_count
  pub sets_to : q.used_blob_set_count ≤ p.used_blob_set_count + 1
  pub roots_to : q.used_root_list_count ≤ p.used_root_list_count + 1

-- The runs `a` and `b` became `a'` and `b'`: both are in one blob, which takes in the blobs that
-- they were in and a new entry, if there is one; every other entry keeps its root and stays in
-- another blob. Or both are in no blob, and nothing changed.
pub record United (p : BlobList) (rep : ℕ → ℕ) (a b : YuvRun) (q : BlobList) (rep' : ℕ → ℕ)
    (a' b' : YuvRun) : Type 0 where
  pub grown : Grown p q
  pub a_low : a'.run_low ≡ a.run_low
  pub a_high : a'.run_high ≡ a.run_high
  pub b_low : b'.run_low ≡ b.run_low
  pub b_high : b'.run_high ≡ b.run_high
  pub a_lt : a'.parent_index < q.used_blob_set_count
  pub b_lt : b'.parent_index < q.used_blob_set_count
  pub together :
      (0 < a'.parent_index) × (0 < b'.parent_index) × (rep' a'.parent_index ≡ rep' b'.parent_index)
      ⊎ (a.parent_index ≡ 0)
        × (b.parent_index ≡ 0)
        × (a'.parent_index ≡ 0)
        × (b'.parent_index ≡ 0)
        × (q ≡ p)
        × ((p.max_blob_set_count ≤ p.used_blob_set_count)
            ⊎ (p.max_root_list_count ≤ p.used_root_list_count))
  pub counted :
      get_total_blob_pixel_count q ≡ (get_total_blob_pixel_count p + newly a a' + newly b b') % u32
  pub takes_a :
      (i : ℕ) → 0 < i → i < p.used_blob_set_count → InBlob rep a i → rep' i ≡ rep' a'.parent_index
  pub takes_b :
      (i : ℕ) → 0 < i → i < p.used_blob_set_count → InBlob rep b i → rep' i ≡ rep' b'.parent_index
  pub others :
      (i : ℕ)
      → 0 < i
      → i < p.used_blob_set_count
      → ¬ InBlob rep a i
      → ¬ InBlob rep b i
      → rep' i ≡ rep i
  pub apart :
      (i : ℕ)
      → 0 < i
      → i < p.used_blob_set_count
      → ¬ InBlob rep a i
      → ¬ InBlob rep b i
      → 0 < a'.parent_index
      → rep' i ≢ rep' a'.parent_index
  pub fresh :
      (i : ℕ)
      → p.used_blob_set_count ≤ i
      → i < q.used_blob_set_count
      → (0 < a'.parent_index) × (rep' i ≡ rep' a'.parent_index)

-- A call that fails no assert, with the partition after it.
pub record Outcome (p : BlobList) (rep : ℕ → ℕ) (a b : YuvRun)
    (result : Option (BlobList × YuvRun × YuvRun)) : Type 0 where
  pub list : BlobList
  pub run_a : YuvRun
  pub run_b : YuvRun
  pub rep' : ℕ → ℕ
  pub depth : ℕ → ℕ
  pub returns : result ≡ some (list, run_a, run_b)
  pub forest : IsForest list rep' depth
  pub united : United p rep a b list rep' run_a run_b
