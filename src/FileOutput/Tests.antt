-- ===== src/FileOutput/Tests.antt =====
-- Three pictures with a ring of one picture, one more, and the second name used twice.
use jpl_vision.Common.{◌+◌, ◌≤◌, ◌≡◌, refl, true, false, some, List, [], ◌∷◌, length, arith, codes}
use jpl_vision.Common.Int.{pos}
use jpl_vision.FileOutput.{Name, Settings, Turn, worker_thread, start}
use jpl_vision.FileOutput.Bound.{excess, worker_thread-bound}

abbrev settings : Settings
settings = record { ringbuffer_size = pos 1; ringbuffer_exceed = pos 1 }

-- The newest name is the first of a folder here.
reverse_onto : List Name → List Name → List Name
reverse_onto [] done = done
reverse_onto (name ∷ names) done = reverse_onto names (name ∷ done)

length-reverse_onto :
    (names done : List Name) → length (reverse_onto names done) ≡ length names + length done
unfolding reverse_onto
length-reverse_onto [] done = omega arith
length-reverse_onto (name ∷ names) done = omega (arith, length-reverse_onto names (name ∷ done))

abbrev turn : Name → Turn
turn name = record {
  stop = false;
  has_memory = true;
  name = some name;
  opened = true;
  written = true;
  sorted = λ folder. some (reverse_onto folder []);
  can_unlink = λ other. true;
}

abbrev pictures : List Turn
pictures = turn (codes "a.jpg") ∷ turn (codes "b.jpg") ∷ turn (codes "b.jpg") ∷ []

lists :
    (folder : List Name)
    → (names : List Name) × ((turn []).sorted folder ≡ some names) × (length names ≡ length folder)
lists folder = (reverse_onto folder [], refl, omega (arith, length-reverse_onto folder []))

kept_pictures : (worker_thread settings pictures (start [])).folder ≡ codes "b.jpg" ∷ []
unfolding worker_thread reverse_onto
kept_pictures = refl

worker_thread-bound_example :
    ((worker_thread settings pictures (start [])).running ≡ true
      → length (worker_thread settings pictures (start [])).folder ≤ 1 + excess settings)
    × (length (worker_thread settings pictures (start [])).folder ≤ 1 + excess settings + 1)
worker_thread-bound_example =
    worker_thread-bound settings pictures [] 1 refl
      ((lists, (λ n. refl)), ((lists, (λ n. refl)), ((lists, (λ n. refl)), tt))) (omega arith)
