-- ===== src/Wifi/Address.antt =====
-- No network thread passes the semaphore before there is an address.
use ikt104_eksamen_oppgave.Base.{
  ℤ, pos, ◌==ℤ◌, ◌≡◌, refl, ap, ◌∙◌, arith, Bool, Bool-cases, inl, inr, true, false, List, [], ◌∷◌,
  All,
}
use ikt104_eksamen_oppgave.Wifi.{
  Thread, wifi, info, news, Semaphore, Place, starts, returned, before, waits, passed, timed_out,
  given, Event, connect_result, addr_add, other_event, connects, takes, runs_out, gives, System,
  at_start, set_place, place, take_outcome, sem_take, sem_time_out, give_twice, ask_to_connect,
  step, steps,
}

-- A thread that has not got the semaphore.
abbrev pub HasNot : Place → Type 0
HasNot passed = ⊥
HasNot given = ⊥
HasNot _ = Unit

-- An event that is not that of an address.
abbrev pub NotAddress : Event → Type 0
NotAddress addr_add = ⊥
NotAddress _ = Unit

module _ (k : Semaphore) where
  -- The semaphore counts 0, and the threads of `Who` have not got it.
  pub record IsClosed (Who : Thread → Type 0) (s : System k) : Type 0 where
    pub counts : k.count s.sem ≡ 0
    pub has_not : (t : Thread) → Who t → HasNot (place k t s)

  set_place-HasNot :
      (t : Thread) (p : Place) (t' : Thread) (s : System k)
      → HasNot p
      → HasNot (place k t' s)
      → HasNot (place k t' (set_place k t p s))
  unfolding place set_place
  set_place-HasNot wifi p wifi s hp h = hp
  set_place-HasNot wifi p info s hp h = h
  set_place-HasNot wifi p news s hp h = h
  set_place-HasNot info p wifi s hp h = h
  set_place-HasNot info p info s hp h = hp
  set_place-HasNot info p news s hp h = h
  set_place-HasNot news p wifi s hp h = h
  set_place-HasNot news p info s hp h = h
  set_place-HasNot news p news s hp h = hp

  pub sem-set_place : (t : Thread) (p : Place) (s : System k) → (set_place k t p s).sem ≡ s.sem
  unfolding set_place
  sem-set_place wifi p s = refl
  sem-set_place info p s = refl
  sem-set_place news p s = refl

  pub ip_handled-set_place :
      (t : Thread) (p : Place) (s : System k) → (set_place k t p s).ip_handled ≡ s.ip_handled
  unfolding set_place
  ip_handled-set_place wifi p s = refl
  ip_handled-set_place info p s = refl
  ip_handled-set_place news p s = refl

  module _ (Who : Thread → Type 0) where
    -- A thread goes to a place without the semaphore.
    moved-IsClosed :
        (t : Thread) (p : Place) (sem : k.Sem) (s : System k)
        → HasNot p
        → k.count sem ≡ 0
        → IsClosed Who s
        → IsClosed Who (set_place k t p (record s { sem = sem }))
    unfolding place
    moved-IsClosed t p sem s hp c h = record {
      counts = ap k.count (sem-set_place t p (record s { sem = sem })) ∙ c;
      has_not =
          λ t' w. set_place-HasNot t p t' (record s { sem = sem }) hp (same t' (h.has_not t' w));
    }
      where
        same : (t' : Thread) → HasNot (place k t' s) → HasNot (place k t' (record s { sem = sem }))
        same wifi q = q
        same info q = q
        same news q = q

    take_outcome-IsClosed :
        (t : Thread) (o : Bool × k.Sem) (s : System k)
        → o.0 ≡ false
        → k.count o.1 ≡ 0
        → IsClosed Who s
        → IsClosed Who (take_outcome k t o s)
    unfolding take_outcome
    take_outcome-IsClosed t (true, sem) s no_take c h = ground arith
    take_outcome-IsClosed t (false, sem) s no_take c h = moved-IsClosed t waits sem s tt c h

    pub sem_take-IsClosed :
        (t : Thread) (p : Place) (s : System k) → IsClosed Who s → IsClosed Who (sem_take k t p s)
    unfolding sem_take
    sem_take-IsClosed t before s h =
        let w = k.take_waits t s.sem h.counts in
        take_outcome-IsClosed t (k.take t s.sem) s w.0 w.2 h
    sem_take-IsClosed t waits s h = h
    sem_take-IsClosed t passed s h = h
    sem_take-IsClosed t timed_out s h = h
    sem_take-IsClosed t starts s h = h
    sem_take-IsClosed t returned s h = h
    sem_take-IsClosed t given s h = h

    pub sem_time_out-IsClosed :
        (t : Thread) (p : Place) (s : System k)
        → IsClosed Who s
        → IsClosed Who (sem_time_out k t p s)
    unfolding sem_time_out
    sem_time_out-IsClosed t before s h = h
    sem_time_out-IsClosed t waits s h =
        moved-IsClosed t timed_out (k.time_out t s.sem) s tt (k.time_out_counts t s.sem ∙ h.counts)
          h
    sem_time_out-IsClosed t passed s h = h
    sem_time_out-IsClosed t timed_out s h = h
    sem_time_out-IsClosed t starts s h = h
    sem_time_out-IsClosed t returned s h = h
    sem_time_out-IsClosed t given s h = h

    -- While `t_wifi` has not got the semaphore, it does not give it.
    pub give_twice-IsClosed :
        (p : Place) (s : System k) → HasNot p → IsClosed Who s → IsClosed Who (give_twice k p s)
    unfolding give_twice
    give_twice-IsClosed before s w h = h
    give_twice-IsClosed waits s w h = h
    give_twice-IsClosed passed s w h = elim w [ ]
    give_twice-IsClosed timed_out s w h = h
    give_twice-IsClosed starts s w h = h
    give_twice-IsClosed returned s w h = h
    give_twice-IsClosed given s w h = elim w [ ]

    wifi_at-IsClosed :
        (p : Place) (s : System k)
        → HasNot p
        → IsClosed Who s
        → IsClosed Who (record s { wifi_at = p })
    unfolding place
    wifi_at-IsClosed p s hp h = record { counts = h.counts; has_not = has_not }
      where
        has_not : (t : Thread) → Who t → HasNot (place k t (record s { wifi_at = p }))
        has_not wifi w = hp
        has_not info w = h.has_not info w
        has_not news w = h.has_not news w

    pub ask_to_connect-IsClosed :
        (iface : Bool) (ret : ℤ) (p : Place) (s : System k)
        → IsClosed Who s
        → IsClosed Who (ask_to_connect k iface ret p s)
    unfolding ask_to_connect
    ask_to_connect-IsClosed iface ret starts s h = elim (Bool-cases iface) [
      | inl e ↦ elim (Bool-cases (ret ==ℤ pos 0)) [
        | inl e' ↦ rw (e, e') (wifi_at-IsClosed before s tt h)
        | inr e' ↦ rw (e, e') (wifi_at-IsClosed returned s tt h)
      ]
      | inr e ↦ rw e (wifi_at-IsClosed returned s tt h)
    ]
    ask_to_connect-IsClosed iface ret before s h = h
    ask_to_connect-IsClosed iface ret waits s h = h
    ask_to_connect-IsClosed iface ret passed s h = h
    ask_to_connect-IsClosed iface ret timed_out s h = h
    ask_to_connect-IsClosed iface ret returned s h = h
    ask_to_connect-IsClosed iface ret given s h = h

    step-IsClosed :
        Who wifi
        → (e : Event) → NotAddress e
        → (s : System k) → IsClosed Who s
        → IsClosed Who (step k e s)
    unfolding step place
    step-IsClosed w (connect_result status) n s h = h
    step-IsClosed w other_event n s h = h
    step-IsClosed w addr_add n s h = elim n [ ]
    step-IsClosed w (connects iface ret) n s h = ask_to_connect-IsClosed iface ret s.wifi_at s h
    step-IsClosed w (takes t) n s h = sem_take-IsClosed t (place k t s) s h
    step-IsClosed w (runs_out t) n s h = sem_time_out-IsClosed t (place k t s) s h
    step-IsClosed w gives n s h = give_twice-IsClosed s.wifi_at s (h.has_not wifi w) h

    steps-IsClosed :
        Who wifi
        → (es : List Event) → All NotAddress es
        → (s : System k) → IsClosed Who s
        → IsClosed Who (steps k es s)
    unfolding steps
    steps-IsClosed w [] n s h = h
    steps-IsClosed w (e ∷ es) (n, ns) s h =
        steps-IsClosed w es ns (step k e s) (step-IsClosed w e n s h)

  pub start-IsClosed : IsClosed (λ t. Unit) (at_start k)
  unfolding at_start place
  start-IsClosed = record { counts = k.count_at_start; has_not = has_not }
    where
      has_not : (t : Thread) → Unit {0} → HasNot (place k t (at_start k))
      has_not wifi w = tt
      has_not info w = tt
      has_not news w = tt

  -- Before there is an address, no thread gets past the semaphore, in whatever order the threads
  -- wait and run out of time, and whatever other events come: nothing is requested too early.
  pub no_address-HasNot :
      (es : List Event)
      → All NotAddress es
      → (t : Thread) → HasNot (place k t (steps k es (at_start k)))
  no_address-HasNot es n t =
      (steps-IsClosed (λ t. Unit) tt es n (at_start k) start-IsClosed).has_not t tt
