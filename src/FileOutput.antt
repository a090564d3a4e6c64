-- ===== src/FileOutput.antt =====
-- The pictures that plugins/output_file keeps, maintain_ringbuffer and worker_thread of output_file.c
-- in the mode of single files. `sorted` stands for the order in which scandir with alphasort gives the names that
-- check_for_filename lets through; strftime and localtime give a name, or fail.
pub mod Bound
mod Tests
use jpl_vision.Common.{
  ℕ, zero, suc, ◌+◌, ◌-◌, ◌%◌, ◌^◌, Bool, true, false, not, ◌&&◌, ◌||◌, Option, none, some, List,
  [], ◌∷◌, ◌++◌, length, leb, ◌==◌, if◌then◌else◌,
}
use jpl_vision.Common.Int.{ℤ, pos, negsuc, ltb_ℤ}

abbrev pub Name : Type 0
Name = List ℕ

-- The settings: ringbuffer_size, negative for no limit, and ringbuffer_exceed.
pub record Settings : Type 0 where
  pub ringbuffer_size : ℤ
  pub ringbuffer_exceed : ℤ

-- The loop over the names: the first `n` are unlinked, and those stay for which unlink fails.
unfoldable pub delete_first : (Name → Bool) → ℕ → List Name → List Name
delete_first can_unlink zero names = names
delete_first can_unlink (suc n) [] = []
delete_first can_unlink (suc n) (name ∷ names) =
    let rest = delete_first can_unlink n names in if can_unlink name then rest else name ∷ rest

-- The names that are left; `none` for `sorted` is an error of scandir.
unfoldable pub maintain_ringbuffer :
    (List Name → Option (List Name)) → (Name → Bool) → ℤ → List Name → List Name
unfolding delete_first
maintain_ringbuffer sorted can_unlink (negsuc n) folder = folder
maintain_ringbuffer sorted can_unlink (pos size) folder = delete_listed (sorted folder)
  where
    delete_listed : Option (List Name) → List Name
    delete_listed none = folder
    delete_listed (some names) = delete_first can_unlink (length names - size) names

-- What happens in one turn of the loop: pglobal->stop, or ok is negative; whether there is memory; the
-- name, and whether open and write succeed; how scandir and unlink behave.
pub record Turn : Type 0 where
  pub stop : Bool
  pub has_memory : Bool
  pub name : Option Name
  pub opened : Bool
  pub written : Bool
  pub sorted : List Name → Option (List Name)
  pub can_unlink : Name → Bool

-- A file that is opened is there, once.
unfoldable pub same_name : Name → Name → Bool
same_name [] [] = true
same_name [] (d ∷ ds) = false
same_name (c ∷ cs) [] = false
same_name (c ∷ cs) (d ∷ ds) = c == d && same_name cs ds

is_there : Name → List Name → Bool
unfolding same_name
is_there name [] = false
is_there name (other ∷ names) = same_name name other || is_there name names

unfoldable pub create : Name → List Name → List Name
unfolding is_there
create name folder = if is_there name folder then folder else name ∷ folder

-- Whether the names are cleaned up after picture `counter`.
unfoldable pub cleans_up : ℤ → ℕ → Bool
cleans_up (pos (suc e)) counter = counter == 1 || counter % (suc e + 1) == 0
cleans_up _ counter = true

-- The pictures in the folder, the counter of 64 bits, and whether the loop goes on.
pub record Worker : Type 0 where
  pub folder : List Name
  pub counter : ℕ
  pub running : Bool

-- With the name and the file open.
unfoldable pub store_picture : Settings → Turn → Worker → Name → Worker
unfolding maintain_ringbuffer create cleans_up
store_picture s t w name =
    let folder = create name w.folder in
    let counter = (w.counter + 1) % 2 ^ 64 in
    if not t.written
    then record { folder = folder; counter = counter; running = false }
    else record {
      folder =
          if cleans_up s.ringbuffer_exceed counter
          then maintain_ringbuffer t.sorted t.can_unlink s.ringbuffer_size folder
          else folder;
      counter = counter;
      running = true;
    }

unfoldable pub turn_with : Settings → Turn → Worker → Option Name → Worker
unfolding store_picture
turn_with s t w none = record w { running = false }
turn_with s t w (some name) =
    if not t.opened then record w { running = false } else store_picture s t w name

unfoldable pub worker_turn : Settings → Turn → Worker → Worker
unfolding turn_with
worker_turn s t w =
    if t.stop || not t.has_memory then record w { running = false } else turn_with s t w t.name

unfoldable pub worker_thread : Settings → List Turn → Worker → Worker
unfolding worker_turn
worker_thread s [] w = w
worker_thread s (t ∷ ts) w = if w.running then worker_thread s ts (worker_turn s t w) else w

abbrev pub start : List Name → Worker
start folder = record { folder = folder; counter = 0; running = true }
