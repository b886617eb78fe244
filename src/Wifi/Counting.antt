-- ===== src/Wifi/Counting.antt =====
-- A semaphore that counts up to 1, as a number and the threads that wait.
use ikt104_eksamen_oppgave.Base.{
  ℕ, zero, suc, ◌≡◌, refl, Bool, true, false, Option, none, some, List, [], ◌∷◌,
}
use ikt104_eksamen_oppgave.Wifi.{Thread, Semaphore, enqueue, leave}

pub record Counter : Type 0 where
  pub count : ℕ
  pub waiting : List Thread

abbrev give_to : ℕ → List Thread → Option Thread × Counter
give_to n [] = (none, record { count = 1; waiting = [] })
give_to n (t ∷ ts) = (some t, record { count = n; waiting = ts })

abbrev take_from : Thread → ℕ → List Thread → Bool × Counter
take_from t zero ts = (false, record { count = 0; waiting = enqueue t ts })
take_from t (suc n) ts = (true, record { count = n; waiting = ts })

abbrev pub counter_give : Counter → Option Thread × Counter
counter_give c = give_to c.count c.waiting

abbrev pub counter_take : Thread → Counter → Bool × Counter
counter_take t c = take_from t c.count c.waiting

abbrev pub counter_time_out : Thread → Counter → Counter
counter_time_out t c = record c { waiting = leave t c.waiting }

pub counter_give_wakes :
    (c : Counter) (t : Thread) (ts : List Thread)
    → c.waiting ≡ t ∷ ts
    → ((counter_give c).0 ≡ some t)
      × ((counter_give c).1.waiting ≡ ts)
      × ((counter_give c).1.count ≡ c.count)
counter_give_wakes c t ts e = rw e (refl, refl, refl)

pub counter_give_counts :
    (c : Counter)
    → c.waiting ≡ []
    → ((counter_give c).0 ≡ none)
      × ((counter_give c).1.waiting ≡ [])
      × ((counter_give c).1.count ≡ 1)
counter_give_counts c e = rw e (refl, refl, refl)

pub counter_take_at_once :
    (t : Thread) (c : Counter) (n : ℕ)
    → c.count ≡ suc n
    → ((counter_take t c).0 ≡ true)
      × ((counter_take t c).1.waiting ≡ c.waiting)
      × ((counter_take t c).1.count ≡ n)
counter_take_at_once t c n e = rw e (refl, refl, refl)

pub counter_take_waits :
    (t : Thread) (c : Counter)
    → c.count ≡ 0
    → ((counter_take t c).0 ≡ false)
      × ((counter_take t c).1.waiting ≡ enqueue t c.waiting)
      × ((counter_take t c).1.count ≡ 0)
counter_take_waits t c e = rw e (refl, refl, refl)

abbrev pub counting : Semaphore
counting = record {
  Sem = Counter;
  wifi_ready_sem = record { count = 0; waiting = [] };
  give = counter_give;
  take = counter_take;
  time_out = counter_time_out;
  count = λ c. c.count;
  waiting = λ c. c.waiting;
  count_at_start = refl;
  waiting_at_start = refl;
  give_wakes = counter_give_wakes;
  give_counts = counter_give_counts;
  take_at_once = counter_take_at_once;
  take_waits = counter_take_waits;
  time_out_leaves = λ t c. refl;
  time_out_counts = λ t c. refl;
}
