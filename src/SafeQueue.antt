-- ===== src/SafeQueue.antt =====
-- thread.h, thread.cc: SafeQueue, the blocking queue between threads.
--
-- Each member holds the mutex, so it is one step on the queue; while `wait_ready` waits, the other
-- threads change the queue. What they do is a list of wake-ups: each is the queue as the waiting
-- thread finds it when it holds the mutex again, and whether the time ran out. A wait is `none` if
-- the thread is still waiting after all of them. `list<T>` is a list, and `wait_infinite` is the
-- largest int; a `waitMs` below 1 does not wait.
pub mod Laws
mod Tests
use net_library.Base.{
  ℕ, ◌+◌, ◌-◌, ◌^◌, Bool, true, false, not, ◌&&◌, ◌||◌, Option, none, some, List, [], ◌∷◌, ◌++◌,
  length, leb, ◌==◌, if◌then◌else◌,
}

pub record SafeQueue {ℓ} (A : Type ℓ) : Type ℓ where
  pub items : List A
  pub capacity : ℕ
  pub exited : Bool

abbrev pub wait_infinite : ℕ
wait_infinite = 2 ^ 31 - 1

pub record Wake {ℓ} (A : Type ℓ) : Type ℓ where
  pub timeout : Bool
  pub found : SafeQueue A

module _ {ℓ} {A : Type ℓ} where
  -- SafeQueue(size_t capacity)
  abbrev pub init : ℕ → SafeQueue A
  init capacity = record { items = []; capacity = capacity; exited = false }

  abbrev pub is_empty : List A → Bool
  is_empty [] = true
  is_empty (_ ∷ _) = false

  unfoldable pub push : SafeQueue A → A → Bool × SafeQueue A
  push q v =
      if q.exited || (not (q.capacity == 0) && leb q.capacity (length q.items))
      then (false, q)
      else (true, record q { items = q.items ++ v ∷ [] })

  -- The predicate of the wait, `m_exit || !m_items.empty()`.
  abbrev pub is_ready : SafeQueue A → Bool
  is_ready q = q.exited || not (is_empty q.items)

  -- m_ready.wait(lock, is_ready)
  pub wait_forever : List (Wake A) → Option (SafeQueue A × List (Wake A))
  wait_forever [] = none
  wait_forever (w ∷ ws) =
      let again = wait_forever ws in if is_ready w.found then some (w.found, ws) else again

  -- while(wait_until(lock, tp) == timeout && m_items.empty() && !m_exit);
  pub wait_timed : List (Wake A) → Option (SafeQueue A × List (Wake A))
  wait_timed [] = none
  wait_timed (w ∷ ws) =
      let again = wait_timed ws in
      if w.timeout && is_empty w.found.items && not w.found.exited
      then again
      else some (w.found, ws)

  pub wait_ready : SafeQueue A → ℕ → List (Wake A) → Option (SafeQueue A × List (Wake A))
  unfolding wait_forever wait_timed
  wait_ready q wait_ms ws =
      if is_ready q
      then some (q, ws)
      else if wait_ms == wait_infinite
      then wait_forever ws
      else if not (wait_ms == 0)
      then wait_timed ws
      else some (q, ws)

  -- What `pop_wait` does with the queue that its wait leaves.
  abbrev pub pop_front : List A → SafeQueue A → Option A × SafeQueue A
  pop_front [] q = (none, q)
  pop_front (x ∷ xs) q = (some x, record q { items = xs })

  -- bool pop_wait(T* v, int waitMs); the inner option is `*v`, where it returns true.
  pub pop_wait : SafeQueue A → ℕ → List (Wake A) → Option (Option A × SafeQueue A)
  unfolding wait_ready
  pop_wait q wait_ms ws = elim (wait_ready q wait_ms ws) [
    | none ↦ none
    | some (q', ws') ↦ some (pop_front q'.items q')
  ]

  unfoldable pub size : SafeQueue A → ℕ
  size q = length q.items

  unfoldable pub exit : SafeQueue A → SafeQueue A
  exit q = record q { exited = true }
