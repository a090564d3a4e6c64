-- ===== src/FileOutput/Bound.antt =====
-- How many pictures there are, and which ones are kept.
use native.Mathlib.Nat.{suc-mod, zero-mod, mod-lt, mod-eq_of_lt, mod_self}
use jpl_vision.Common.{
  ℕ, zero, suc, ◌+◌, ◌-◌, ◌%◌, ◌^◌, ◌≤◌, ◌<◌, ◌≡◌, ◌≢◌, refl, ap, sym, ◌∙◌, inl, inr, ◌⊎◌, Bool,
  true, false, not, ◌||◌, Option, none, some, List, [], ◌∷◌, length, ◌==◌, Bool-cases, if_cases,
  if_both, arith,
}
use jpl_vision.Common.Int.{ℤ, pos, negsuc, pos_part}
use jpl_vision.FileOutput.{
  Name, Settings, Turn, Worker, delete_first, maintain_ringbuffer, create, is_there, cleans_up,
  store_picture, turn_with, worker_turn, worker_thread, start,
}

length-delete_first :
    (can_unlink : Name → Bool) (n : ℕ) (names : List Name)
    → ((name : Name) → can_unlink name ≡ true)
    → length (delete_first can_unlink n names) ≡ length names - n
unfolding delete_first
length-delete_first can_unlink zero names h = omega arith
length-delete_first can_unlink (suc n) [] h = omega arith
length-delete_first can_unlink (suc n) (name ∷ names) h =
    rw (h name) (omega (arith, length-delete_first can_unlink n names h))

-- scandir lists what is in the folder, and unlink removes.
abbrev pub Works : Turn → Type 0
Works t =
    ((folder : List Name)
      → (names : List Name) × (t.sorted folder ≡ some names) × (length names ≡ length folder))
    × ((name : Name) → t.can_unlink name ≡ true)

maintain_ringbuffer-bound :
    (t : Turn) (size : ℕ) (folder : List Name)
    → Works t
    → length (maintain_ringbuffer t.sorted t.can_unlink (pos size) folder) ≤ size
unfolding maintain_ringbuffer
maintain_ringbuffer-bound t size folder (lists, unlinks) =
    let (names, e, l) = lists folder in
    rw (e) (omega (arith, length-delete_first t.can_unlink (length names - size) names unlinks))

length-create : (name : Name) (folder : List Name) → length (create name folder) ≤ length folder + 1
unfolding create
length-create name folder =
    if_both (λ f. length f ≤ length folder + 1) (is_there name folder) folder (name ∷ folder)
      (omega arith) (omega arith)

last_or_not : (r e : ℕ) → r < e + 1 → (r + 1 ≡ e + 1) ⊎ (r + 1 < e + 1)
last_or_not r e h = ground arith

-- One more than a remainder, unless the next number has no remainder.
remainder_grows : (c e : ℕ) → ((c + 1) % (e + 1) ≡ 0) ⊎ ((c + 1) % (e + 1) ≡ c % (e + 1) + 1)
remainder_grows c e =
    let step : (c + 1) % (e + 1) ≡ (c % (e + 1) + 1) % (e + 1) =
      ap (λ n. n % (e + 1)) (plus_one c)
      ∙ suc-mod c (e + 1)
      ∙ ap (λ n. n % (e + 1)) (sym (plus_one (c % (e + 1)))) in
    elim (last_or_not (c % (e + 1)) e (mod-lt c (omega arith))) [
      | inl last ↦ inl (step ∙ ap (λ n. n % (e + 1)) last ∙ mod_self (e + 1))
      | inr below ↦ inr (step ∙ mod-eq_of_lt below)
    ]
  where
    plus_one : (n : ℕ) → n + 1 ≡ suc n
    plus_one n = omega arith

-- The exceed as it counts: none if it is not positive.
abbrev pub excess : Settings → ℕ
excess s = pos_part s.ringbuffer_exceed

-- A worker that has not more pictures than the size and the exceed, after the first one than what has
-- been added since the last time that it cleaned up.
abbrev pub Good : ℕ → ℕ → Worker → Type 0
Good size e w =
    (w.counter < 2 ^ 64)
    × (length w.folder ≤ size + e)
    × ((w.counter ≡ 0) ⊎ (length w.folder ≤ size + w.counter % (e + 1)))

-- While it runs it is good; when it has stopped there may be one picture more.
abbrev pub Within : ℕ → ℕ → Worker → Type 0
Within size e w = (w.running ≡ true → Good size e w) × (length w.folder ≤ size + e + 1)

or_false : (a b : Bool) → (a || b) ≡ false → (a ≡ false) × (b ≡ false)
or_false true b h = absurd (cc h)
or_false false b h = (refl, h)

differs : (a b : ℕ) → (a == b) ≡ false → a ≢ b
differs a b h = ground arith

wraps : (c : ℕ) → c < 2 ^ 64 → ((c + 1) % 2 ^ 64 ≡ 0) ⊎ ((c + 1) % 2 ^ 64 ≡ c + 1)
wraps c h = omega arith

counted :
    (e size c len next : ℕ)
    → (next ≡ 0) ⊎ (next ≡ c + 1)
    → (c ≡ 0) ⊎ (len ≤ size + c % (e + 1))
    → next ≢ 1
    → next % (e + 1) ≢ 0
    → (len + 1 ≤ size + next % (e + 1)) × (0 < next)
counted e size c len next (inl z) h first some_left =
    absurd (some_left (ap (λ n. n % (e + 1)) z ∙ zero-mod (e + 1)))
counted e size c len next (inr g) (inl z) first some_left = absurd (first (omega (arith, g, z)))
counted e size c len next (inr g) (inr l) first some_left =
    let same : next % (e + 1) ≡ (c + 1) % (e + 1) = ap (λ n. n % (e + 1)) g in
    elim (remainder_grows c e) [
      | inl z ↦ absurd (some_left (same ∙ z))
      | inr more ↦ (omega (arith, l, more, same), omega (arith, g))
    ]

-- Between two times of cleaning up, the remainder grows by one.
kept_grows :
    (exceed : ℤ) (size c len : ℕ)
    → c < 2 ^ 64
    → (c ≡ 0) ⊎ (len ≤ size + c % (pos_part exceed + 1))
    → cleans_up exceed ((c + 1) % 2 ^ 64) ≡ false
    → (len + 1 ≤ size + (c + 1) % 2 ^ 64 % (pos_part exceed + 1)) × (0 < (c + 1) % 2 ^ 64)
unfolding cleans_up
kept_grows (pos zero) size c len lc h e = absurd (cc e)
kept_grows (negsuc n) size c len lc h e = absurd (cc e)
kept_grows (pos (suc x)) size c len lc h e =
    let (first, cleaned) =
      or_false ((c + 1) % 2 ^ 64 == 1) ((c + 1) % 2 ^ 64 % (suc x + 1) == 0) e in
    counted (suc x) size c len ((c + 1) % 2 ^ 64) (wraps c lc) h
      (differs ((c + 1) % 2 ^ 64) 1 first) (differs ((c + 1) % 2 ^ 64 % (suc x + 1)) 0 cleaned)

remainder_fits : (c e : ℕ) → c % (e + 1) ≤ e
remainder_fits c e =
    let below : c % (e + 1) < e + 1 = mod-lt c (omega arith) in omega (arith, below)

fits :
    (size e counter len : ℕ)
    → counter < 2 ^ 64
    → len ≤ size + counter % (e + 1)
    → (true ≡ true
        → (counter < 2 ^ 64)
          × (len ≤ size + e)
          × ((counter ≡ 0) ⊎ (len ≤ size + counter % (e + 1))))
      × (len ≤ size + e + 1)
fits size e counter len lc l =
    let small = remainder_fits counter e in
    ((λ r. (lc, omega (arith, l, small), inr l)), omega (arith, l, small))

store_picture-Within :
    (s : Settings) (t : Turn) (w : Worker) (name : Name) (size : ℕ)
    → s.ringbuffer_size ≡ pos size
    → Works t
    → Good size (excess s) w
    → Within size (excess s) (store_picture s t w name)
unfolding store_picture
store_picture-Within s t w name size es works (lc, ll, h) =
    let grown = length-create name w.folder in
    let counter = (w.counter + 1) % 2 ^ 64 in
    if_cases (Within size (excess s)) (not t.written) _ _
      (λ u. ((λ r. absurd (cc r)), omega (arith, grown, ll)))
      (λ u. elim (Bool-cases (cleans_up s.ringbuffer_exceed counter)) [
        | inl b ↦
            rw (b, es)
              (fits size (excess s) ((w.counter + 1) % 2 ^ 64)
                (length
                  (maintain_ringbuffer t.sorted t.can_unlink (pos size) (create name w.folder)))
                (omega arith)
                (omega (arith, maintain_ringbuffer-bound t size (create name w.folder) works)))
        | inr b ↦
            let (more, positive) =
              kept_grows s.ringbuffer_exceed size w.counter (length w.folder) lc h b in
            rw (b) (
              fits size (excess s) ((w.counter + 1) % 2 ^ 64) (length (create name w.folder))
                (omega arith) (omega (arith, grown, more)))
      ])

-- A worker that stops without another picture.
stopped-Within :
    (s : Settings) (w : Worker) (size : ℕ)
    → Good size (excess s) w
    → Within size (excess s) (record w { running = false })
stopped-Within s w size (lc, ll, h) = ((λ r. absurd (cc r)), omega (arith, ll))

turn_with-Within :
    (s : Settings) (t : Turn) (w : Worker) (name : Option Name) (size : ℕ)
    → s.ringbuffer_size ≡ pos size
    → Works t
    → Good size (excess s) w
    → Within size (excess s) (turn_with s t w name)
unfolding turn_with
turn_with-Within s t w none size es works g = stopped-Within s w size g
turn_with-Within s t w (some name) size es works g =
    if_both (Within size (excess s)) (not t.opened) (record w { running = false })
      (store_picture s t w name) (stopped-Within s w size g)
      (store_picture-Within s t w name size es works g)

worker_turn-Within :
    (s : Settings) (t : Turn) (w : Worker) (size : ℕ)
    → s.ringbuffer_size ≡ pos size
    → Works t
    → Good size (excess s) w
    → Within size (excess s) (worker_turn s t w)
unfolding worker_turn
worker_turn-Within s t w size es works g =
    if_both (Within size (excess s)) (t.stop || not t.has_memory) (record w { running = false })
      (turn_with s t w t.name) (stopped-Within s w size g)
      (turn_with-Within s t w t.name size es works g)

abbrev pub AllWork : List Turn → Type 0
AllWork [] = Unit {0}
AllWork (t ∷ ts) = Works t × AllWork ts

worker_thread-Within :
    (s : Settings) (ts : List Turn) (w : Worker) (size : ℕ)
    → s.ringbuffer_size ≡ pos size
    → AllWork ts
    → Within size (excess s) w
    → Within size (excess s) (worker_thread s ts w)
unfolding worker_thread
worker_thread-Within s [] w size es works g = g
worker_thread-Within s (t ∷ ts) w size es works g =
    if_cases (Within size (excess s)) w.running (worker_thread s ts (worker_turn s t w)) w
      (λ r.
        worker_thread-Within s ts (worker_turn s t w) size es works.1
          (worker_turn-Within s t w size es works.0 (g.0 r)))
      (λ r. g)

-- With a size of the ring of pictures, and if scandir lists what is there and unlink works, a folder of at
-- most ringbuffer_size + ringbuffer_exceed pictures never gets more while the thread runs, whatever it
-- stores and however often; if it stops because a write fails, there may be one more. A negative
-- ringbuffer_exceed counts as 0.
pub worker_thread-bound :
    (s : Settings) (ts : List Turn) (folder : List Name) (size : ℕ)
    → s.ringbuffer_size ≡ pos size
    → AllWork ts
    → length folder ≤ size + excess s
    → ((worker_thread s ts (start folder)).running ≡ true
        → length (worker_thread s ts (start folder)).folder ≤ size + excess s)
      × (length (worker_thread s ts (start folder)).folder ≤ size + excess s + 1)
worker_thread-bound s ts folder size es works l =
    let within =
      worker_thread-Within s ts (start folder) size es works
        ((λ r. (omega arith, l, inl refl)), omega (arith, l)) in
    ((λ r. (within.0 r).1), within.1)
