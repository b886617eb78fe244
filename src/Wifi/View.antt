-- ===== src/Wifi/View.antt =====
-- Every semaphore that keeps to `Semaphore` runs the program as the counting one does.
use ikt104_eksamen_oppgave.Base.{
  ℤ, arith, ℕ, zero, suc, ◌≡◌, refl, ap, ◌∙◌, Bool, true, false, Bool-cases, inl, inr, Option, none,
  some, List, [], ◌∷◌, if◌then◌else◌,
}
use ikt104_eksamen_oppgave.Wifi.{
  Thread, wifi, info, news, Semaphore, Place, starts, returned, before, waits, passed, timed_out,
  given, Event, connect_result, addr_add, other_event, connects, takes, runs_out, gives, System,
  at_start, set_place, place, woken, sem_give, handle_addr_add, take_outcome, sem_take,
  sem_time_out, give_twice, ask_to_connect, step, steps,
}
use ikt104_eksamen_oppgave.Wifi.Counting.{Counter, counter_give, counter_take, counting}

module _ (k : Semaphore) where
  abbrev pub counter_of : k.Sem → Counter
  counter_of s = record { count = k.count s; waiting = k.waiting s }

  -- What the program's behaviour depends on.
  abbrev pub view : System k → System counting
  view s = record {
    ip_handled = s.ip_handled;
    sem = counter_of s.sem;
    wifi_at = s.wifi_at;
    info_at = s.info_at;
    news_at = s.news_at;
  }

  module _ (s : k.Sem) where
    give_as :
        (ts : List Thread)
        → k.waiting s ≡ ts
        → ((k.give s).0, counter_of (k.give s).1)
          ≡ counter_give (record { count = k.count s; waiting = ts })
    give_as [] e =
        let g = k.give_counts s e in λ i. (g.0 i, record { count = g.2 i; waiting = g.1 i })
    give_as (t ∷ ts) e =
        let g = k.give_wakes s t ts e in λ i. (g.0 i, record { count = g.2 i; waiting = g.1 i })

    take_as :
        (t : Thread) (n : ℕ)
        → k.count s ≡ n
        → ((k.take t s).0, counter_of (k.take t s).1)
          ≡ counter_take t (record { count = n; waiting = k.waiting s })
    take_as t zero e =
        let g = k.take_waits t s e in λ i. (g.0 i, record { count = g.2 i; waiting = g.1 i })
    take_as t (suc n) e =
        let g = k.take_at_once t s n e in λ i. (g.0 i, record { count = g.2 i; waiting = g.1 i })

  view-set_place :
      (t : Thread) (p : Place) (s : System k)
      → view (set_place k t p s) ≡ set_place counting t p (view s)
  unfolding set_place
  view-set_place wifi p s = refl
  view-set_place info p s = refl
  view-set_place news p s = refl

  view-woken :
      (o : Option Thread × k.Sem) (s : System k)
      → view (woken k o s) ≡ woken counting (o.0, counter_of o.1) (view s)
  unfolding woken
  view-woken (none, sem) s = refl
  view-woken (some t, sem) s = view-set_place t passed (record s { sem = sem })

  view-sem_give : (s : System k) → view (sem_give k s) ≡ sem_give counting (view s)
  unfolding sem_give
  view-sem_give s =
      view-woken (k.give s.sem) s
      ∙ ap (λ o. woken counting o (view s)) (give_as s.sem (k.waiting s.sem) refl)

  view-take_outcome :
      (t : Thread) (o : Bool × k.Sem) (s : System k)
      → view (take_outcome k t o s) ≡ take_outcome counting t (o.0, counter_of o.1) (view s)
  unfolding take_outcome
  view-take_outcome t (taken, sem) s =
      view-set_place t (if taken then passed else waits) (record s { sem = sem })

  view-sem_take :
      (t : Thread) (p : Place) (s : System k)
      → view (sem_take k t p s) ≡ sem_take counting t p (view s)
  unfolding sem_take
  view-sem_take t before s =
      view-take_outcome t (k.take t s.sem) s
      ∙ ap (λ o. take_outcome counting t o (view s)) (take_as s.sem t (k.count s.sem) refl)
  view-sem_take t waits s = refl
  view-sem_take t passed s = refl
  view-sem_take t timed_out s = refl
  view-sem_take t starts s = refl
  view-sem_take t returned s = refl
  view-sem_take t given s = refl

  view-sem_time_out :
      (t : Thread) (p : Place) (s : System k)
      → view (sem_time_out k t p s) ≡ sem_time_out counting t p (view s)
  unfolding sem_time_out
  view-sem_time_out t waits s =
      view-set_place t timed_out (record s { sem = k.time_out t s.sem }) ∙ λ i.
      set_place counting t timed_out (record (view s) {
        sem = record { count = k.time_out_counts t s.sem i; waiting = k.time_out_leaves t s.sem i };
      })
  view-sem_time_out t before s = refl
  view-sem_time_out t passed s = refl
  view-sem_time_out t timed_out s = refl
  view-sem_time_out t starts s = refl
  view-sem_time_out t returned s = refl
  view-sem_time_out t given s = refl

  view-give_twice :
      (p : Place) (s : System k) → view (give_twice k p s) ≡ give_twice counting p (view s)
  unfolding give_twice
  view-give_twice passed s =
      view-sem_give (sem_give k (record s { wifi_at = given }))
      ∙ ap (sem_give counting) (view-sem_give (record s { wifi_at = given }))
  view-give_twice before s = refl
  view-give_twice waits s = refl
  view-give_twice timed_out s = refl
  view-give_twice starts s = refl
  view-give_twice returned s = refl
  view-give_twice given s = refl

  view-place : (t : Thread) (s : System k) → place k t s ≡ place counting t (view s)
  unfolding place
  view-place wifi s = refl
  view-place info s = refl
  view-place news s = refl

  view-handle_addr_add :
      (s : System k) → view (handle_addr_add k s) ≡ handle_addr_add counting (view s)
  unfolding handle_addr_add
  view-handle_addr_add s = elim (Bool-cases s.ip_handled) [
    | inl e ↦ rw e refl
    | inr e ↦ rw e (view-sem_give (record s { ip_handled = true }))
  ]

  view-ask_to_connect :
      (iface : Bool) (ret : ℤ) (p : Place) (s : System k)
      → view (ask_to_connect k iface ret p s) ≡ ask_to_connect counting iface ret p (view s)
  unfolding ask_to_connect
  view-ask_to_connect iface ret starts s = ground arith
  view-ask_to_connect iface ret before s = refl
  view-ask_to_connect iface ret waits s = refl
  view-ask_to_connect iface ret passed s = refl
  view-ask_to_connect iface ret timed_out s = refl
  view-ask_to_connect iface ret returned s = refl
  view-ask_to_connect iface ret given s = refl

  view-step : (e : Event) (s : System k) → view (step k e s) ≡ step counting e (view s)
  unfolding step
  view-step (connect_result status) s = refl
  view-step other_event s = refl
  view-step addr_add s = view-handle_addr_add s
  view-step (connects iface ret) s = view-ask_to_connect iface ret s.wifi_at s
  view-step (takes t) s =
      view-sem_take t (place k t s) s ∙ ap (λ p. sem_take counting t p (view s)) (view-place t s)
  view-step (runs_out t) s =
      view-sem_time_out t (place k t s) s
      ∙ ap (λ p. sem_time_out counting t p (view s)) (view-place t s)
  view-step gives s = view-give_twice s.wifi_at s

  -- Whatever the kernel's semaphore is like inside, in every order of events the flag and the three
  -- threads stand as they stand with a number and a list of waiting threads in its place.
  pub view-steps :
      (es : List Event) (s : System k) → view (steps k es s) ≡ steps counting es (view s)
  unfolding steps
  view-steps [] s = refl
  view-steps (e ∷ es) s = view-steps es (step k e s) ∙ ap (steps counting es) (view-step e s)

  pub start_view : view (at_start k) ≡ at_start counting
  unfolding at_start
  start_view = λ i. record {
    ip_handled = false;
    sem = record { count = k.count_at_start i; waiting = k.waiting_at_start i };
    wifi_at = starts;
    info_at = before;
    news_at = before;
  }

  -- What the view of a run from the start is.
  pub view_of_run :
      (es : List Event) → view (steps k es (at_start k)) ≡ steps counting es (at_start counting)
  view_of_run es = view-steps es (at_start k) ∙ ap (steps counting es) start_view
