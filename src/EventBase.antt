-- ===== src/EventBase.antt =====
-- eventbase.h, eventbase.cc: the timers and the task queue of an event loop.
--
-- `int64_t` values are integers, and `m_timerNum` counts from 0: neither overflows. A `Task` is a
-- number, and `calls` says which calls of this event base it makes when it runs; `ran` records the
-- tasks that ran. The closure that `runAt` stores for a repeated timer holds a pointer to an entry
-- of `m_timerRepeats`: it is that entry's key, since the nodes of a std::map do not move. `clock`
-- gives the readings of `util::timeMilli()`, in order. `poll` is the poller's `loop_once`, given
-- the time that it may wait. A `Fault` is where the code follows a pointer to nothing.
pub mod Keys
pub mod Inv
pub mod Safety
pub mod Firing
pub mod Order
pub mod Cancel
pub mod Wait
pub mod Wake
mod Tests
use mathlib.Core.Option
use net_library.Base.{
  ℕ, zero, suc, ◌+◌, ◌-◌, ◌*◌, ◌^◌, Bool, true, false, not, ◌&&◌, ◌||◌, Option, none, some, List,
  [], ◌∷◌, ◌++◌, ltb, if◌then◌else◌,
}
use net_library.Base.Int.{ℤ, pos, negsuc, ◌+ℤ◌, ◌-ℤ◌, neg, ltb_ℤ, is_neg, to_int}
use net_library.Base.SortedMap
use net_library.SafeQueue
use net_library.SafeQueue.{SafeQueue}

pub record TimerId : Type 0 where
  pub first : ℤ
  pub second : ℕ

-- TimerId()
abbrev pub no_timer : TimerId
no_timer = record { first = pos 0; second = 0 }

-- The order of pair<int64_t, int64_t>.
pub lt : TimerId → TimerId → Bool
lt a b = ltb_ℤ a.first b.first || (not (ltb_ℤ b.first a.first) && ltb a.second b.second)

pub record TimerRepeatable : Type 0 where
  pub at : ℤ
  pub interval : ℤ
  pub tid : TimerId
  pub task : ℕ

-- What `m_timers` holds: a task, or the closure of a repeated timer.
pub data Timer : Type 0 where
  once : ℕ → Timer
  repeats : TimerId → Timer

pub record EventBase : Type 0 where
  pub exited : Bool
  pub tasks : SafeQueue ℕ
  pub wakeups : ℕ
  pub next_timeout : ℤ
  pub timer_num : ℕ
  pub timers : List (TimerId × Timer)
  pub timer_repeats : List (TimerId × TimerRepeatable)
  pub reads : ℕ
  pub ran : List ℕ

pub data Fault : Type 0 where
  dangling_timer end_of_repeats double_delete : Fault

pub data Result {ℓ} (A : Type ℓ) : Type ℓ where
  ok : A → Result A
  fault : Fault → Result A

infixl 5 ◌>>=◌
abbrev pub ◌>>=◌ {ℓ κ} : {A : Type ℓ} {B : Type κ} → Result A → (A → Result B) → Result B
ok a >>= f = f a
fault e >>= f = fault e

abbrev pub far : ℤ
far = pos (2 ^ 30)

-- EventBase(int taskCapacity)
abbrev pub init : ℕ → EventBase
init capacity = record {
  exited = false;
  tasks = SafeQueue.init capacity;
  wakeups = 0;
  next_timeout = far;
  timer_num = 0;
  timers = [];
  timer_repeats = [];
  reads = 0;
  ran = [];
}

pub data Call : Type 0 where
  run_at : ℤ → ℕ → ℤ → Call
  cancel : TimerId → Call
  exit : Call
  safe_call : ℕ → Call

-- What `read` on the wake-up pipe returns: more than 0, 0 (also for a closed channel), or less, with
-- `errno` EINTR or another.
pub data WakeupRead : Type 0 where
  bytes closed interrupted failed : WakeupRead

-- write(m_wakeupfd[1], "", 1)
unfoldable pub wakeup : EventBase → EventBase
wakeup s = record s { wakeups = s.wakeups + 1 }

pub do_exit : EventBase → EventBase
unfolding wakeup
do_exit s = wakeup (record s { exited = true })

unfoldable pub do_safe_call : EventBase → ℕ → EventBase
unfolding wakeup SafeQueue.push
do_safe_call s task = wakeup (record s { tasks = (SafeQueue.push s.tasks task).1 })

abbrev pub is_zero : ℤ → Bool
is_zero (pos zero) = true
is_zero _ = false

-- The result, and whether the call returned true.
pub do_cancel : EventBase → TimerId → Result (EventBase × Bool)
do_cancel s id =
    if is_neg id.first
    then elim (SortedMap.find lt id s.timer_repeats) [
      | none ↦ fault end_of_repeats
      | some tr ↦ ok (
        record s {
          timers = SortedMap.erase lt tr.tid s.timers;
          timer_repeats = SortedMap.erase lt id s.timer_repeats;
        },
        true,
      )
    ]
    else elim (SortedMap.find lt id s.timers) [
      | none ↦ ok (s, false)
      | some t ↦ ok (record s { timers = SortedMap.erase lt id s.timers }, true)
    ]

module _ (clock : ℕ → ℤ) where
  abbrev pub nearest : List (TimerId × Timer) → ℤ → ℤ
  nearest [] now = far
  nearest ((t, _) ∷ _) now =
      let wait = to_int (t.first -ℤ now) in if is_neg wait then pos 0 else wait

  -- The clock is read only where there is a timer.
  abbrev pub reads_for : List (TimerId × Timer) → ℕ
  reads_for [] = 0
  reads_for (_ ∷ _) = 1

  pub refresh_nearest : EventBase → EventBase
  refresh_nearest s = record s {
    next_timeout = nearest s.timers (clock s.reads);
    reads = s.reads + reads_for s.timers;
  }

  abbrev pub add_repeat : EventBase → ℤ → ℕ → ℤ → EventBase
  add_repeat s wait_us task interval =
      let tid : TimerId = record { first = neg wait_us; second = s.timer_num + 1 } in
      let first : TimerId = record { first = wait_us; second = s.timer_num + 2 } in
      let tr : TimerRepeatable = record {
        at = wait_us;
        interval = interval;
        tid = first;
        task = task;
      } in
      record s {
        timer_num = s.timer_num + 2;
        timer_repeats = SortedMap.put lt tid tr s.timer_repeats;
        timers = SortedMap.put lt first (repeats tid) s.timers;
      }

  abbrev pub add_once : EventBase → ℤ → ℕ → EventBase
  add_once s wait_us task =
      let tid : TimerId = record { first = wait_us; second = s.timer_num + 1 } in
      record s {
        timer_num = s.timer_num + 1;
        timers = SortedMap.insert lt tid (once task) s.timers;
      }

  pub do_run_at : EventBase → ℤ → ℕ → ℤ → EventBase × TimerId
  unfolding refresh_nearest
  do_run_at s wait_us task interval =
      if s.exited
      then (s, no_timer)
      else if is_zero interval
      then (
        refresh_nearest (add_once s wait_us task),
        record { first = wait_us; second = s.timer_num + 1 },
      )
      else (
        refresh_nearest (add_repeat s wait_us task interval),
        record { first = neg wait_us; second = s.timer_num + 1 },
      )

  pub do_call : EventBase → Call → Result EventBase
  unfolding do_run_at do_cancel do_exit do_safe_call
  do_call s (run_at wait_us task interval) = ok (do_run_at s wait_us task interval).0
  do_call s (cancel id) = do_cancel s id >>= λ r. ok r.0
  do_call s exit = ok (do_exit s)
  do_call s (safe_call task) = ok (do_safe_call s task)

  pub do_calls : EventBase → List Call → Result EventBase
  unfolding do_call
  do_calls s [] = ok s
  do_calls s (c ∷ cs) = do_call s c >>= λ s'. do_calls s' cs

  module _ (calls : ℕ → List Call) where
    -- task()
    pub run_task : EventBase → ℕ → Result EventBase
    unfolding do_calls
    run_task s task = do_calls (record s { ran = s.ran ++ task ∷ [] }) (calls task)

    abbrev pub rearmed : EventBase → TimerId → TimerRepeatable → EventBase
    rearmed s id tr =
        let at = tr.at +ℤ tr.interval in
        let tid : TimerId = record { first = at; second = s.timer_num + 1 } in
        record s {
          timer_num = s.timer_num + 1;
          timer_repeats = SortedMap.put lt id (record tr { at = at; tid = tid }) s.timer_repeats;
          timers = SortedMap.put lt tid (repeats id) s.timers;
        }

    -- The task runs in place in its entry, which is taken to stay until it has returned: a task that
    -- cancels its own timer destroys the function object that is running, and is not modelled further.
    pub repeatable_timeout : EventBase → TimerId → Result EventBase
    unfolding run_task refresh_nearest
    repeatable_timeout s id = elim (SortedMap.find lt id s.timer_repeats) [
      | none ↦ fault dangling_timer
      | some tr ↦ run_task (refresh_nearest (rearmed s id tr)) tr.task
    ]

    pub run_timer : EventBase → Timer → Result EventBase
    unfolding run_task repeatable_timeout
    run_timer s (once task) = run_task s task
    run_timer s (repeats id) = repeatable_timeout s id

    abbrev pub and_then :
        (EventBase → Option (Result EventBase)) → Result EventBase → Option (Result EventBase)
    and_then rest (ok s) = rest s
    and_then rest (fault e) = some (fault e)

    -- One round of the loop of handleTimeout: the first timer, if it is due, is taken out and run.
    abbrev pub fire_first :
        (EventBase → Option (Result EventBase))
        → EventBase
        → TimerId
        → List (TimerId × Timer)
        → Option (Result EventBase)
    fire_first rest s limit [] = some (ok s)
    fire_first rest s limit ((k, t) ∷ m) =
        if lt k limit then and_then rest (run_timer (record s { timers = m }) t) else some (ok s)

    -- The loop, with fuel; `none` means that it ran out.
    pub fire : ℕ → EventBase → TimerId → Option (Result EventBase)
    unfolding run_timer
    fire zero s limit = none
    fire (suc n) s limit = fire_first (λ s'. fire n s' limit) s limit s.timers

    -- TimerId{now, 1L << 62}
    abbrev pub limit_of : ℤ → TimerId
    limit_of now = record { first = now; second = 2 ^ 62 }

    pub handle_timeout : ℕ → EventBase → Option (Result EventBase)
    unfolding fire refresh_nearest
    handle_timeout fuel s =
        Option.map (λ r. r >>= λ s'. ok (refresh_nearest s'))
          (fire fuel (record s { reads = s.reads + 1 }) (limit_of (clock s.reads)))

    -- A round of the loop, with what pop_wait(&task, 0) has returned.
    abbrev pub drain_next :
        (EventBase → Option (Result EventBase))
        → EventBase
        → Option ℕ × SafeQueue ℕ
        → Option (Result EventBase)
    drain_next rest s (none, q) = some (ok (record s { tasks = q }))
    drain_next rest s (some task, q) = and_then rest (run_task (record s { tasks = q }) task)

    -- while(m_tasks.pop_wait(&task, 0)) task(), with fuel.
    pub drain : ℕ → EventBase → Option (Result EventBase)
    unfolding run_task
    drain zero s = none
    drain (suc n) s = Option.bind (SafeQueue.pop_wait s.tasks 0 []) (drain_next (drain n) s)

    -- The read handler of the wake-up channel. At its end it deletes the channel, whose close calls the
    -- handler again, which deletes it again. `fatal` only writes to the log.
    pub handle_wakeup : ℕ → EventBase → WakeupRead → Option (Result EventBase)
    unfolding drain
    handle_wakeup fuel s bytes = drain fuel s
    handle_wakeup fuel s closed = some (fault double_delete)
    handle_wakeup fuel s interrupted = some (ok s)
    handle_wakeup fuel s failed = some (ok s)

    -- The smaller of two ints.
    abbrev pub min_ℤ : ℤ → ℤ → ℤ
    min_ℤ a b = if ltb_ℤ b a then b else a

    module _ (poll : ℤ → EventBase → Result EventBase) where
      pub loop_once : ℕ → EventBase → ℤ → Option (Result EventBase)
      unfolding handle_timeout
      loop_once fuel s wait_us =
          and_then (handle_timeout fuel) (poll (min_ℤ wait_us s.next_timeout) s)

      -- while(!m_exit) loop_once(1000), with the rounds that it may make.
      pub loop_rounds : ℕ → ℕ → EventBase → Option (Result EventBase)
      unfolding loop_once
      loop_rounds zero fuel s = none
      loop_rounds (suc rounds) fuel s =
          let again =
            Option.bind (loop_once fuel s (pos 1000)) (and_then (loop_rounds rounds fuel)) in
          if s.exited then some (ok s) else again

      pub loop : ℕ → ℕ → EventBase → Option (Result EventBase)
      unfolding loop_rounds loop_once
      loop rounds fuel s =
          Option.bind (loop_rounds rounds fuel s) (
            and_then (λ s'. loop_once fuel (record s' { timers = []; timer_repeats = [] }) (pos 0)))
