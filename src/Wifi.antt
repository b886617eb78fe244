-- ===== src/Wifi.antt =====
-- exsamene/src/wifi_connect.c: the event handler, `wifi_connect`, and the semaphore for which the
-- three network threads wait. The semaphore is the kernel's: `Semaphore` is what it documents of
-- one that counts up to 1. Threads are the three of main.c; a step is what one of them does between
-- two waits.
pub mod Address
pub mod Counting
pub mod View
pub mod Queue
pub mod Tokens
pub mod Stuck
pub mod First
pub mod Race
pub mod TooEarly
mod Examples
use ikt104_eksamen_oppgave.Base.{
  ℕ, zero, suc, ◌≡◌, ℤ, pos, ◌==ℤ◌, Bool, true, false, not, Option, none, some, List, [], ◌∷◌,
  if◌then◌else◌,
}

-- `t_wifi`, `t_info_web` and `t_news_web`.
pub data Thread : Type 0 where
  wifi info news : Thread

-- A thread joins those that wait: `t_wifi` has the higher priority, and the other two are served in
-- the order in which they came.
unfoldable pub enqueue : Thread → List Thread → List Thread
enqueue wifi ts = wifi ∷ ts
enqueue info [] = info ∷ []
enqueue info (t ∷ ts) = t ∷ enqueue info ts
enqueue news [] = news ∷ []
enqueue news (t ∷ ts) = t ∷ enqueue news ts

abbrev pub same_thread : Thread → Thread → Bool
same_thread wifi wifi = true
same_thread info info = true
same_thread news news = true
same_thread _ _ = false

-- A thread no longer waits.
unfoldable pub leave : Thread → List Thread → List Thread
leave t [] = []
leave t (t' ∷ ts) = let rest = leave t ts in if same_thread t t' then ts else t' ∷ rest

-- `k_sem_give` returns the thread that it wakes, `k_sem_take` whether it took at once.
pub record Semaphore : Type 1 where
  pub Sem : Type 0
  pub wifi_ready_sem : Sem
  pub give : Sem → Option Thread × Sem
  pub take : Thread → Sem → Bool × Sem
  pub time_out : Thread → Sem → Sem
  pub count : Sem → ℕ
  pub waiting : Sem → List Thread
  pub count_at_start : count wifi_ready_sem ≡ 0
  pub waiting_at_start : waiting wifi_ready_sem ≡ []
  pub give_wakes :
      (s : Sem) (t : Thread) (ts : List Thread)
      → waiting s ≡ t ∷ ts
      → ((give s).0 ≡ some t) × (waiting (give s).1 ≡ ts) × (count (give s).1 ≡ count s)
  pub give_counts :
      (s : Sem)
      → waiting s ≡ []
      → ((give s).0 ≡ none) × (waiting (give s).1 ≡ []) × (count (give s).1 ≡ 1)
  pub take_at_once :
      (t : Thread) (s : Sem) (n : ℕ)
      → count s ≡ suc n
      → ((take t s).0 ≡ true) × (waiting (take t s).1 ≡ waiting s) × (count (take t s).1 ≡ n)
  pub take_waits :
      (t : Thread) (s : Sem)
      → count s ≡ 0
      → ((take t s).0 ≡ false)
        × (waiting (take t s).1 ≡ enqueue t (waiting s))
        × (count (take t s).1 ≡ 0)
  pub time_out_leaves : (t : Thread) (s : Sem) → waiting (time_out t s) ≡ leave t (waiting s)
  pub time_out_counts : (t : Thread) (s : Sem) → count (time_out t s) ≡ count s

-- Where a thread stands: in front of `k_sem_take`, in it, behind it with the semaphore, or behind
-- it without. `t_wifi` first `starts`, has `returned` if it does not come to the wait, and has
-- `given` when it has made its two calls of `k_sem_give`.
pub data Place : Type 0 where
  starts before waits passed timed_out returned given : Place

-- What happens: an event for the handler; `t_wifi` looks for a network interface and asks it to
-- connect, where the flag says whether there is one and the number is the code of `net_mgmt`; a
-- thread's call of `k_sem_take`, the end of its time, or
-- the two calls of `k_sem_give` at the end of `wifi_connect`.
pub data Event : Type 0 where
  connect_result : ℤ → Event
  addr_add : Event
  other_event : Event
  connects : Bool → ℤ → Event
  takes : Thread → Event
  runs_out : Thread → Event
  gives : Event

module _ (k : Semaphore) where
  open k use {Sem, wifi_ready_sem, give, take, time_out}

  pub record System : Type 0 where
    pub ip_handled : Bool
    pub sem : Sem
    pub wifi_at : Place
    pub info_at : Place
    pub news_at : Place

  unfoldable pub at_start : System
  at_start = record {
    ip_handled = false;
    sem = wifi_ready_sem;
    wifi_at = starts;
    info_at = before;
    news_at = before;
  }

  unfoldable pub set_place : Thread → Place → System → System
  set_place wifi p s = record s { wifi_at = p }
  set_place info p s = record s { info_at = p }
  set_place news p s = record s { news_at = p }

  unfoldable pub place : Thread → System → Place
  place wifi s = s.wifi_at
  place info s = s.info_at
  place news s = s.news_at

  -- The thread that was woken goes on.
  unfoldable pub woken : Option Thread × Sem → System → System
  woken (none, sem) s = record s { sem = sem }
  woken (some t, sem) s = set_place t passed (record s { sem = sem })

  -- `k_sem_give(&wifi_ready_sem)`
  unfoldable pub sem_give : System → System
  sem_give s = woken (give s.sem) s

  -- The `NET_EVENT_IPV4_ADDR_ADD` case.
  unfoldable pub handle_addr_add : System → System
  handle_addr_add s = if not s.ip_handled then sem_give (record s { ip_handled = true }) else s

  unfoldable pub take_outcome : Thread → Bool × Sem → System → System
  take_outcome t (taken, sem) s =
      set_place t (if taken then passed else waits) (record s { sem = sem })

  -- A thread calls `k_sem_take` once.
  unfoldable pub sem_take : Thread → Place → System → System
  sem_take t before s = take_outcome t (take t s.sem) s
  sem_take t _ s = s

  unfoldable pub sem_time_out : Thread → Place → System → System
  sem_time_out t waits s = set_place t timed_out (record s { sem = time_out t s.sem })
  sem_time_out t _ s = s

  -- The end of `wifi_connect`, once its own wait is over.
  unfoldable pub give_twice : Place → System → System
  give_twice passed s = sem_give (sem_give (record s { wifi_at = given }))
  give_twice _ s = s

  -- The start of `wifi_connect`, with its two early returns.
  unfoldable pub ask_to_connect : Bool → ℤ → Place → System → System
  ask_to_connect iface ret starts s =
      if not iface
      then record s { wifi_at = returned }
      else if not (ret ==ℤ pos 0)
      then record s { wifi_at = returned }
      else record s { wifi_at = before }
  ask_to_connect iface ret _ s = s

  -- `event_handler` for the first three; the last four are the threads'.
  unfoldable pub step : Event → System → System
  step (connect_result status) s = s
  step other_event s = s
  step addr_add s = handle_addr_add s
  step (connects iface ret) s = ask_to_connect iface ret s.wifi_at s
  step (takes t) s = sem_take t (place t s) s
  step (runs_out t) s = sem_time_out t (place t s) s
  step gives s = give_twice s.wifi_at s

  unfoldable pub steps : List Event → System → System
  steps [] s = s
  steps (e ∷ es) s = steps es (step e s)
