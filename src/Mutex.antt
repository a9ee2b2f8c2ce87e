-- ===== src/Mutex.antt =====
-- mutex.h: `MutexLock` and `MutexLockGuard`, and the queue of a worker that they guard: the threads
-- that call the two `registerNewConnection` of worker.cpp. The mutex of the system is a parameter.
pub mod Guarding
pub mod Turns
use yeyj_tcp_server.Base.{ℕ, ◌≡◌, Option, none, some, List, [], ◌∷◌, ◌++◌}
use yeyj_tcp_server.Worker.{Pointer, put_at}

-- A `pthread_mutex_t`: what `pthread_mutex_lock` and `pthread_mutex_unlock` do to it when the thread
-- with the given number calls them, where `none` is that the thread waits.
pub record PthreadMutex : Type 1 where
  pub M : Type 0
  pub initial : M
  pub acquire : ℕ → M → Option M
  pub release : ℕ → M → M
  pub owner : M → Option ℕ
  -- a mutex is free at first, can be locked exactly while it is free, and then belongs to the thread
  pub initially_free : owner initial ≡ none
  pub needs_free :
      (t : ℕ) (m m' : M) → acquire t m ≡ some m' → (owner m ≡ none) × (owner m' ≡ some t)
  pub can_acquire : (t : ℕ) (m : M) → owner m ≡ none → (m' : M) × (acquire t m ≡ some m')
  pub frees : (t : ℕ) (m : M) → owner m ≡ some t → owner (release t m) ≡ none

-- A call of one of the two functions: `push(conn)`, or `swap(temp)` with an empty queue.
pub data Operation : Type 0 where
  push : Pointer → Operation
  swap : Operation

-- The queue afterwards, and what the caller has in its own queue.
unfoldable pub left_by : Operation → List Pointer → List Pointer
left_by (push p) queue = queue ++ p ∷ []
left_by swap queue = []

unfoldable pub given_by : Operation → List Pointer → List Pointer
given_by (push p) queue = []
given_by swap queue = queue

-- Where a thread is: outside of the two functions; behind the constructor of the guard; with the queue
-- read, and not yet written; or before the destructor of the guard.
pub data Point : Type 0 where
  outside : Point
  inside : Operation → Point
  has_read : Operation → List Pointer → Point
  finished : Point

module _ (system : PthreadMutex) where
  open system use {M, initial, acquire, release, owner}

  -- The class `MutexLock`; `_holder` is never anything but 0.
  pub record MutexLock : Type 0 where
    pub mutex : M
    pub holder : ℕ

  unfoldable pub new_mutex_lock : MutexLock
  new_mutex_lock = record { mutex = initial; holder = 0 }

  unfoldable pub lock : ℕ → MutexLock → Option MutexLock
  lock t l = elim (acquire t l.mutex) [ none ↦ none | some m ↦ some (record l { mutex = m }) ]

  unfoldable pub unlock : ℕ → MutexLock → MutexLock
  unlock t l = record l { mutex = release t l.mutex }

  -- The queue and its lock, where the threads are, what has been swapped out so far, and the calls in
  -- the order in which they wrote the queue.
  pub record Shared : Type 0 where
    pub guard : MutexLock
    pub queue : List Pointer
    pub points : ℕ → Point
    pub taken : List Pointer
    pub done : List Operation

  abbrev pub at_first : Shared
  at_first = record {
    guard = new_mutex_lock;
    queue = [];
    points = λ t. outside;
    taken = [];
    done = [];
  }

  -- A step of the thread `t`. The guard locks in its constructor, and unlocks in its destructor; in
  -- between the queue is read and written in two steps, with those of other threads in between.
  pub data Step : Shared → Shared → Type 0 where
    enters :
        (t : ℕ) (op : Operation) (s : Shared) (l : MutexLock)
        → s.points t ≡ outside
        → lock t s.guard ≡ some l
        → Step s (record s { guard = l; points = put_at t (inside op) s.points })
    reads :
        (t : ℕ) (op : Operation) (s : Shared)
        → s.points t ≡ inside op
        → Step s (record s { points = put_at t (has_read op s.queue) s.points })
    writes :
        (t : ℕ) (op : Operation) (queue : List Pointer) (s : Shared)
        → s.points t ≡ has_read op queue
        → Step s (record s {
          queue = left_by op queue;
          taken = s.taken ++ given_by op queue;
          done = s.done ++ op ∷ [];
          points = put_at t finished s.points;
        })
    leaves :
        (t : ℕ) (s : Shared)
        → s.points t ≡ finished
        → Step s (record s { guard = unlock t s.guard; points = put_at t outside s.points })

  pub data Reached : Shared → Type 0 where
    first : Reached at_first
    next : (s s' : Shared) → Reached s → Step s s' → Reached s'

-- The calls one after the other: the queue, and what has been swapped out.
unfoldable pub run_calls :
    List Operation → List Pointer × List Pointer → List Pointer × List Pointer
unfolding left_by given_by
run_calls [] (queue, out) = (queue, out)
run_calls (op ∷ ops) (queue, out) = run_calls ops (left_by op queue, out ++ given_by op queue)
