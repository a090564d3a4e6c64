-- ===== src/Blobs/Report/Purge.antt =====
-- blob_list_purge_small_bboxes keeps the large blobs, in their order.
use native.Mathlib.Numerals.{add-one}
use jpl_vision.Common.{
  ℕ, zero, suc, ◌+◌, ◌-◌, ◌≤◌, ◌<◌, ◌≡◌, refl, ◌∙◌, ap, some, List, [], ◌∷◌, ◌++◌, leb, ◌==◌, arith,
  if◌then◌else◌, Bool-cases, inl, inr, true, false,
}
use jpl_vision.Common.Memory.{Array, update}
use jpl_vision.Blobs.Types.{BlobList, RootInfo}
use jpl_vision.Blobs.Forest.{set_root_list_entry, with_root, with_set}
use jpl_vision.Blobs.Forest.Valid.{IsForest, RootEntry}
use jpl_vision.Blobs.Report.{large_prefix, compact, blob_list_purge_small_bboxes}

-- The first `n` root entries.
pub entries : Array RootInfo → ℕ → List RootInfo
entries info zero = []
entries info (suc n) = entries info n ++ info n ∷ []

-- Those of at least `min_pixels` pixels.
pub large : ℕ → List RootInfo → List RootInfo
large min_pixels [] = []
large min_pixels (e ∷ es) =
    if leb min_pixels e.stats.count then e ∷ large min_pixels es else large min_pixels es

large-append :
    (m : ℕ) (xs : List RootInfo) (e : RootInfo)
    → large m (xs ++ e ∷ []) ≡ (if leb m e.stats.count then large m xs ++ e ∷ [] else large m xs)
unfolding large
large-append m [] e = ground arith
large-append m (x ∷ xs) e = ground (arith, large-append m xs e)

entries-congr :
    (n : ℕ) (f g : Array RootInfo) → ((r : ℕ) → r < n → f r ≡ g r) → entries f n ≡ entries g n
unfolding entries
entries-congr zero f g h = refl
entries-congr (suc n) f g h = rw (entries-congr n f g (λ r l. h r (omega arith)), h n (omega arith))

-- `ok` of the first `rx` entries were large; they stand in front, and the rest is as it was.
record Compacted (m : ℕ) (p q : BlobList) (ok rx : ℕ) : Type 0 where
  before : ok ≤ rx
  front : entries q.root_info ok ≡ large m (entries p.root_info rx)
  rest : (r : ℕ) → rx ≤ r → q.root_info r ≡ p.root_info r
  sets : q.used_blob_set_count ≡ p.used_blob_set_count
  roots : q.used_root_list_count ≡ p.used_root_list_count

-- The state after a large entry has been moved to the front.
kept : BlobList → ℕ → ℕ → BlobList
kept q ok rx =
    let moved = record q { root_info = update q.root_info ok (q.root_info rx) } in
    let s = (moved.root_info rx).set_index in with_root (with_set moved ok s) s ok

kept-at :
    (q : BlobList) (ok rx r : ℕ)
    → (kept q ok rx).root_info r ≡ (if r == ok then q.root_info rx else q.root_info r)
unfolding kept
kept-at q ok rx r = ground arith

kept-counts :
    (q : BlobList) (ok rx : ℕ)
    → ((kept q ok rx).used_blob_set_count ≡ q.used_blob_set_count)
      × ((kept q ok rx).used_root_list_count ≡ q.used_root_list_count)
unfolding kept
kept-counts q ok rx = (refl, refl)

module _ (m : ℕ) (p : BlobList) (rep d : ℕ → ℕ) (v : IsForest p rep d) where
  Compacted-keep :
      (q : BlobList) (ok rx : ℕ)
      → leb m (p.root_info rx).stats.count ≡ true
      → Compacted m p q ok rx
      → Compacted m p (kept q ok rx) (ok + 1) (rx + 1)
  unfolding entries
  Compacted-keep q ok rx t c = record {
    before = omega (arith, c.before);
    front =
        rw
          (
            add-one,
            add-one,
            large-append m (entries p.root_info rx) (p.root_info rx),
            t,
            same,
            last,
          )
          (rw c.front refl);
    rest = λ r l. ground (arith, kept-at q ok rx r, c.rest r, c.before);
    sets = (kept-counts q ok rx).0 ∙ c.sets;
    roots = (kept-counts q ok rx).1 ∙ c.roots;
  }
    where
      same : entries (kept q ok rx).root_info ok ≡ entries q.root_info ok
      same = entries-congr ok _ _ (λ r l. ground (arith, kept-at q ok rx r))

      last : (kept q ok rx).root_info ok ≡ p.root_info rx
      last = ground (arith, kept-at q ok rx ok, c.rest rx)

  Compacted-skip :
      (q : BlobList) (ok rx : ℕ)
      → leb m (p.root_info rx).stats.count ≡ false
      → Compacted m p q ok rx
      → Compacted m p q ok (rx + 1)
  unfolding entries
  Compacted-skip q ok rx f c = record {
    before = omega (arith, c.before);
    front = rw (add-one, large-append m (entries p.root_info rx) (p.root_info rx), f) c.front;
    rest = λ r l. c.rest r (omega arith);
    sets = c.sets;
    roots = c.roots;
  }

  compact-Compacted :
      (n : ℕ) (q : BlobList) (ok rx end : ℕ)
      → n + rx ≡ end
      → end ≤ p.used_root_list_count
      → Compacted m p q ok rx
      → (q' : BlobList) × (ok' : ℕ) × (compact n q m ok rx ≡ some (q', ok'))
        × Compacted m p q' ok' end
  unfolding compact
  compact-Compacted zero q ok rx end e l c =
      let e' : end ≡ rx = omega arith in (q, ok, refl, rw e' c)
  compact-Compacted (suc n) q ok rx end e l c =
      elim (Bool-cases (leb m (p.root_info rx).stats.count)) [
        | inl t ↦
            let (q', ok', eq, c') =
              compact-Compacted n (kept q ok rx) (ok + 1) (rx + 1) end (omega arith) l
                (Compacted-keep q ok rx t c) in
            (q', ok', moved t eq, c')
        | inr f ↦
            let (q', ok', eq, c') =
              compact-Compacted n q ok (rx + 1) end (omega arith) l (Compacted-skip q ok rx f c) in
            (q', ok', ground (arith, c.rest rx, eq), c')
      ]
    where
      here : q.root_info rx ≡ p.root_info rx
      here = c.rest rx (omega arith)

      entry : RootEntry p rep d rx
      entry = v.root_entry rx (omega arith)

      set_ok :
          set_root_list_entry
            (record q { root_info = update q.root_info ok (q.root_info rx) })
            ok
            (update q.root_info ok (q.root_info rx) rx).set_index
          ≡ some (kept q ok rx)
      set_ok =
          unfold set_root_list_entry kept in ground (arith, here, entry, c.sets, c.roots, c.before)

      moved :
          {q' : BlobList} {ok' : ℕ}
          → leb m (p.root_info rx).stats.count ≡ true
          → compact n (kept q ok rx) m (ok + 1) (rx + 1) ≡ some (q', ok')
          → compact (suc n) q m ok rx ≡ some (q', ok')
      moved t eq = ground (arith, here, set_ok, eq)

  -- The first loop stops within the root list, and all entries before its result are large.
  large_prefix-Compacted :
      (n ok : ℕ)
      → Compacted m p p ok ok
      → (k : ℕ) × (large_prefix n p.root_info m ok ≡ k) × (k ≤ ok + n) × Compacted m p p k k
  unfolding large_prefix
  large_prefix-Compacted zero ok c = (ok, refl, omega arith, c)
  large_prefix-Compacted (suc n) ok c = elim (Bool-cases (leb m (p.root_info ok).stats.count)) [
    | inl t ↦
        let (k, e, l, c') = large_prefix-Compacted n (ok + 1) (next t) in
        (k, ground (arith, e), omega arith, c')
    | inr f ↦ (ok, ground arith, omega arith, c)
  ]
    where
      next : leb m (p.root_info ok).stats.count ≡ true → Compacted m p p (ok + 1) (ok + 1)
      next t =
          unfold entries in
          record {
            before = omega arith;
            front =
                rw (add-one, large-append m (entries p.root_info ok) (p.root_info ok), t)
                  (ap (λ l. l ++ p.root_info ok ∷ []) c.front);
            rest = λ r l. refl;
            sets = refl;
            roots = refl;
          }

  -- On a valid list blob_list_purge_small_bboxes fails no assert and ends: the root list is then that
  -- of the blobs of at least `m` pixels, in the order in which they stood.
  pub purge_lem :
      (q : BlobList) × (blob_list_purge_small_bboxes p m ≡ some q)
      × (entries q.root_info q.used_root_list_count
          ≡ large m (entries p.root_info p.used_root_list_count))
      × (q.used_root_list_count ≤ p.used_root_list_count)
  unfolding blob_list_purge_small_bboxes
  purge_lem =
      let (k, e, l, c) = large_prefix-Compacted p.used_root_list_count 0 start in
      let (q, ok, eq, c') =
        compact-Compacted (p.used_root_list_count - k) p k k p.used_root_list_count (omega arith)
          (omega arith) c in
      (record q { used_root_list_count = ok }, ground (arith, e, eq), c'.front, c'.before)
    where
      start : Compacted m p p 0 0
      start =
          unfold entries large in
          record {
            before = omega arith;
            front = refl;
            rest = λ r l. refl;
            sets = refl;
            roots = refl;
          }
