-- ===== src/Wifi/Stuck.antt =====
-- The flag `ip_handled`, together with threads that do not get the semaphore: before there is an
-- address, and behind the first address while `t_wifi` has not got the semaphore.
use mathlib.Core.Path.{subst}
use ikt104_eksamen_oppgave.Base.{
  ℤ, arith, ◌≡◌, refl, sym, ◌∙◌, Bool, true, List, [], ◌∷◌, if◌then◌else◌,
}
use ikt104_eksamen_oppgave.Wifi.{
  Thread, wifi, Semaphore, Place, starts, returned, before, waits, passed, timed_out, given, Event,
  connect_result, addr_add, other_event, connects, takes, runs_out, gives, System, place,
  handle_addr_add, take_outcome, sem_take, sem_time_out, give_twice, ask_to_connect, step, steps,
}
use ikt104_eksamen_oppgave.Wifi.Address.{
  HasNot, NotAddress, IsClosed, ip_handled-set_place, sem_take-IsClosed, sem_time_out-IsClosed,
  give_twice-IsClosed, ask_to_connect-IsClosed,
}

module _ (k : Semaphore) where
  handled-take_outcome :
      (t : Thread) (o : Bool × k.Sem) (s : System k)
      → (take_outcome k t o s).ip_handled ≡ s.ip_handled
  unfolding take_outcome
  handled-take_outcome t (taken, sem) s =
      ip_handled-set_place k t (if taken then passed else waits) (record s { sem = sem })

  handled-sem_take :
      (t : Thread) (p : Place) (s : System k) → (sem_take k t p s).ip_handled ≡ s.ip_handled
  unfolding sem_take
  handled-sem_take t before s = handled-take_outcome t (k.take t s.sem) s
  handled-sem_take t waits s = refl
  handled-sem_take t passed s = refl
  handled-sem_take t timed_out s = refl
  handled-sem_take t starts s = refl
  handled-sem_take t returned s = refl
  handled-sem_take t given s = refl

  handled-sem_time_out :
      (t : Thread) (p : Place) (s : System k) → (sem_time_out k t p s).ip_handled ≡ s.ip_handled
  unfolding sem_time_out
  handled-sem_time_out t waits s =
      ip_handled-set_place k t timed_out (record s { sem = k.time_out t s.sem })
  handled-sem_time_out t before s = refl
  handled-sem_time_out t passed s = refl
  handled-sem_time_out t timed_out s = refl
  handled-sem_time_out t starts s = refl
  handled-sem_time_out t returned s = refl
  handled-sem_time_out t given s = refl

  handled-give_twice :
      (p : Place) (s : System k) → HasNot p → (give_twice k p s).ip_handled ≡ s.ip_handled
  unfolding give_twice
  handled-give_twice before s w = refl
  handled-give_twice waits s w = refl
  handled-give_twice passed s w = elim w [ ]
  handled-give_twice timed_out s w = refl
  handled-give_twice starts s w = refl
  handled-give_twice returned s w = refl
  handled-give_twice given s w = elim w [ ]

  handled-ask_to_connect :
      (iface : Bool) (ret : ℤ) (p : Place) (s : System k)
      → (ask_to_connect k iface ret p s).ip_handled ≡ s.ip_handled
  unfolding ask_to_connect
  handled-ask_to_connect iface ret starts s = ground arith
  handled-ask_to_connect iface ret before s = refl
  handled-ask_to_connect iface ret waits s = refl
  handled-ask_to_connect iface ret passed s = refl
  handled-ask_to_connect iface ret timed_out s = refl
  handled-ask_to_connect iface ret returned s = refl
  handled-ask_to_connect iface ret given s = refl

  module _ (Who : Thread → Type 0) (has_wifi : Who wifi) where
    -- The flag, and who has not got the semaphore.
    abbrev pub IsStuck : Bool → System k → Type 0
    IsStuck b s = (s.ip_handled ≡ b) × IsClosed k Who s

    pub step-IsStuck :
        (b : Bool) (e : Event) (s : System k) → NotAddress e → IsStuck b s → IsStuck b (step k e s)
    unfolding step place
    step-IsStuck b (connect_result status) s n h = h
    step-IsStuck b other_event s n h = h
    step-IsStuck b addr_add s n h = elim n [ ]
    step-IsStuck b (connects iface ret) s n (e, h) = (
      handled-ask_to_connect iface ret s.wifi_at s ∙ e,
      ask_to_connect-IsClosed k Who iface ret s.wifi_at s h,
    )
    step-IsStuck b (takes t) s n (e, h) =
        (handled-sem_take t (place k t s) s ∙ e, sem_take-IsClosed k Who t (place k t s) s h)
    step-IsStuck b (runs_out t) s n (e, h) = (
      handled-sem_time_out t (place k t s) s ∙ e,
      sem_time_out-IsClosed k Who t (place k t s) s h,
    )
    step-IsStuck b gives s n (e, h) = (
      handled-give_twice s.wifi_at s (h.has_not wifi has_wifi) ∙ e,
      give_twice-IsClosed k Who s.wifi_at s (h.has_not wifi has_wifi) h,
    )

    -- A second address changes nothing.
    addr_add-IsStuck : (s : System k) → IsStuck true s → IsStuck true (step k addr_add s)
    unfolding step handle_addr_add
    addr_add-IsStuck s (e, h) = subst (IsStuck true) (sym kept) (e, h)
      where
        kept : handle_addr_add k s ≡ s
        kept = rw e refl

    step_later : (e : Event) (s : System k) → IsStuck true s → IsStuck true (step k e s)
    step_later addr_add s h = addr_add-IsStuck s h
    step_later (connect_result status) s h = step-IsStuck true (connect_result status) s tt h
    step_later other_event s h = step-IsStuck true other_event s tt h
    step_later (connects iface ret) s h = step-IsStuck true (connects iface ret) s tt h
    step_later (takes t) s h = step-IsStuck true (takes t) s tt h
    step_later (runs_out t) s h = step-IsStuck true (runs_out t) s tt h
    step_later gives s h = step-IsStuck true gives s tt h

    pub steps_later :
        (es : List Event) (s : System k) → IsStuck true s → IsStuck true (steps k es s)
    unfolding steps
    steps_later [] s h = h
    steps_later (e ∷ es) s h = steps_later es (step k e s) (step_later e s h)
