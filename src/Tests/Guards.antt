-- ===== src/Tests/Guards.antt =====
-- The guarded queue: one thread pushes a connection.
use yeyj_tcp_server.Base.{ℕ, ◌≡◌, refl, Option, none, some, [], ◌∷◌, ◌++◌}
use yeyj_tcp_server.Mutex.Guarding.{pushed, IsGuarded, Reached-IsGuarded, Reached-pushed}
use yeyj_tcp_server.Mutex.Turns.{Reached-begins, Leads}
use yeyj_tcp_server.Mutex.{
  PthreadMutex, push, swap, left_by, given_by, inside, has_read, finished, outside, MutexLock,
  Shared, at_first, Reached, first, next, enters, reads, writes, lock, new_mutex_lock,
}
use yeyj_tcp_server.Worker.{put_at}

-- a mutex that is the number of its owner
take_it : ℕ → Option ℕ → Option (Option ℕ)
take_it t none = some (some t)
take_it t (some u) = none

taken_once : (t : ℕ) (m m' : Option ℕ) → take_it t m ≡ some m' → (m ≡ none) × (m' ≡ some t)
unfolding take_it
taken_once t none m' h = (refl, cc h)
taken_once t (some u) m' h = absurd (cc h)

can_take : (t : ℕ) (m : Option ℕ) → m ≡ none → (m' : Option ℕ) × (take_it t m ≡ some m')
unfolding take_it
can_take t none free = (some t, refl)
can_take t (some u) free = absurd (cc free)

abbrev by_owner : PthreadMutex
by_owner = record {
  M = Option ℕ;
  initial = none;
  acquire = take_it;
  release = λ t m. none;
  owner = λ m. m;
  initially_free = refl;
  needs_free = taken_once;
  can_acquire = can_take;
  frees = λ t m h. refl;
}

abbrev held : MutexLock by_owner
held = record { mutex = some 3; holder = 0 }

-- the thread 3 is inside, has read the queue, and has written it
abbrev is_inside : Shared by_owner
is_inside = record (at_first by_owner) {
  guard = held;
  points = put_at 3 (inside (push (some 0))) (λ t. outside);
}

abbrev knows : Shared by_owner
knows = record is_inside { points = put_at 3 (has_read (push (some 0)) []) is_inside.points }

abbrev wrote : Shared by_owner
wrote = record knows {
  queue = left_by (push (some 0)) [];
  taken = [] ++ given_by (push (some 0)) [];
  done = [] ++ push (some 0) ∷ [];
  points = put_at 3 finished knows.points;
}

is_inside-Reached : Reached by_owner is_inside
unfolding lock new_mutex_lock take_it
is_inside-Reached =
    next (at_first by_owner) is_inside first
      (enters 3 (push (some 0)) (at_first by_owner) held refl refl)

wrote-Reached : Reached by_owner wrote
unfolding put_at
wrote-Reached =
    next knows wrote
      (next is_inside knows is_inside-Reached (reads 3 (push (some 0)) is_inside refl))
      (writes 3 (push (some 0)) [] knows refl)

Reached-IsGuarded_example : IsGuarded by_owner wrote
Reached-IsGuarded_example = Reached-IsGuarded by_owner wrote wrote-Reached

Reached-pushed_example : wrote.taken ++ wrote.queue ≡ pushed wrote.done
Reached-pushed_example = Reached-pushed by_owner wrote wrote-Reached

Reached-begins_example :
    (s' : Shared by_owner) × Leads by_owner wrote s' × (s'.points 4 ≡ inside swap)
Reached-begins_example = Reached-begins by_owner 4 swap wrote wrote-Reached
