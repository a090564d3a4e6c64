-- ===== src/Blobs/Forest.antt =====
-- Operations on the disjoint-set forest of a Blob_List in detect_color_blobs.c: entries of the root
-- list, new sets, parents, roots and links. `none` stands for a failed assert, or, in the recursion
-- of find_root, for fuel that ran out.
pub mod Valid
pub mod Parent
pub mod Roots
pub mod Joins
pub mod Totals
pub mod Tests
use jpl_vision.Common.{
  ℕ, zero, suc, ◌+◌, ◌-◌, ◌%◌, Bool, true, false, not, ◌||◌, ◌&&◌, Option, none, some, ltb, leb,
  ◌==◌, if◌then◌else◌, ◌>>=◌, ◌>>◌, assert,
}
use jpl_vision.Common.Memory.{Array, update}
use jpl_vision.Blobs.Types.{BlobStats, BlobSetEntry, RootInfo, BlobList, YuvRun, u16, not_a_root}
use jpl_vision.Blobs.Stats.{stats_init, stats_add}

-- p->blob_set[i].f = v, for each of the fields
abbrev pub with_parent : BlobList → ℕ → ℕ → BlobList
with_parent p i v = record p {
  blob_set = update p.blob_set i (record (p.blob_set i) { parent_index = v });
}

abbrev pub with_root : BlobList → ℕ → ℕ → BlobList
with_root p i v = record p {
  blob_set = update p.blob_set i (record (p.blob_set i) { root_list_index = v });
}

abbrev pub with_rank : BlobList → ℕ → ℕ → BlobList
with_rank p i v = record p { blob_set = update p.blob_set i (record (p.blob_set i) { rank = v }) }

-- p->root_info[r].f = v
abbrev pub with_set : BlobList → ℕ → ℕ → BlobList
with_set p r v = record p {
  root_info = update p.root_info r (record (p.root_info r) { set_index = v });
}

abbrev pub with_stats : BlobList → ℕ → BlobStats → BlobList
with_stats p r v = record p {
  root_info = update p.root_info r (record (p.root_info r) { stats = v });
}

unfoldable pub set_root_list_entry : BlobList → ℕ → ℕ → Option BlobList
set_root_list_entry p rx bx = do
  assert (ltb rx p.used_root_list_count)
  assert (ltb bx p.used_blob_set_count)
  some (with_root (with_set p rx bx) bx rx)

-- The index of the new set, 0 if there is no space for it.
pub make_set : BlobList → YuvRun → ℕ → Option (ℕ × BlobList)
unfolding set_root_list_entry
make_set p run row =
    if leb p.max_blob_set_count p.used_blob_set_count
      || leb p.max_root_list_count p.used_root_list_count
    then some (0, p)
    else do
      let bx = p.used_blob_set_count
      let rx = p.used_root_list_count
      let fresh = record p {
        used_blob_set_count = (p.used_blob_set_count + 1) % u16;
        blob_set = update p.blob_set bx (record (p.blob_set bx) { parent_index = bx; rank = 0 });
        used_root_list_count = (p.used_root_list_count + 1) % u16;
      }
      q ← set_root_list_entry fresh rx bx
      some (bx, with_stats q rx (stats_init (row % u16) run.run_low run.run_high))

pub delete_root_list_entry : BlobList → ℕ → Option BlobList
unfolding set_root_list_entry
delete_root_list_entry p ix = do
  assert (ltb ix p.used_root_list_count)
  let last = (p.used_root_list_count + u16 - 1) % u16
  let moved = record p { root_info = update p.root_info ix (p.root_info last) }
  q ← set_root_list_entry moved ix (p.root_info last).set_index
  some (record q { used_root_list_count = (q.used_root_list_count + u16 - 1) % u16 })

-- The part of set_parent for a child that is a root: its statistics go to the new parent's root
-- entry, and its own root entry is deleted.
pub absorb_root : BlobList → ℕ → ℕ → ℕ → Option BlobList
unfolding delete_root_list_entry
absorb_root p child prx crx = do
  assert ((p.blob_set child).parent_index == child)
  let stats = stats_add (p.root_info prx).stats (p.root_info crx).stats
  q ← delete_root_list_entry (with_stats p prx stats) crx
  some (with_root q child not_a_root)

pub set_parent : BlobList → ℕ → ℕ → Option BlobList
unfolding absorb_root
set_parent p child new_parent = do
  assert (ltb child p.used_blob_set_count)
  assert (ltb new_parent p.used_blob_set_count)
  let prx = (p.blob_set new_parent).root_list_index
  assert (not (prx == not_a_root))
  let crx = (p.blob_set child).root_list_index
  q ← if crx == not_a_root then some p else absorb_root p child prx crx
  some (with_parent q child new_parent)

-- The recursive call is made only if the entry is no root.
pub find_root_recursive : ℕ → BlobList → ℕ → Option (ℕ × BlobList)
find_root_recursive zero p index = none
find_root_recursive (suc fuel) p index = do
  assert (ltb index p.used_blob_set_count)
  let compressed = (do
    (root, q) ← find_root_recursive fuel p (p.blob_set index).parent_index
    q' ← set_parent q index root
    some (root, q'))
  if (p.blob_set index).parent_index == index then some (index, p) else compressed

-- The fuel is the number of entries: a path to a root is shorter.
pub find_root : BlobList → ℕ → Option (ℕ × BlobList)
unfolding find_root_recursive set_parent
find_root p index = do
  assert (ltb index p.used_blob_set_count)
  let parent = (p.blob_set index).parent_index
  if parent == index then some (index, p) else do
    (root, q) ← find_root_recursive p.used_blob_set_count p parent
    q' ← set_parent q index root
    some (root, q')

pub link : BlobList → ℕ → ℕ → Option (ℕ × BlobList)
link p s_index t_index = do
  assert (ltb 0 s_index)
  assert (ltb s_index p.used_blob_set_count)
  assert (ltb 0 t_index)
  assert (ltb t_index p.used_blob_set_count)
  let s_rank = (p.blob_set s_index).rank
  let t_rank = (p.blob_set t_index).rank
  if ltb t_rank s_rank then (do q ← set_parent p t_index s_index; some (s_index, q)) else do
    let ranked = if s_rank == t_rank then with_rank p t_index ((t_rank + 1) % u16) else p
    q ← set_parent ranked s_index t_index
    some (t_index, q)
