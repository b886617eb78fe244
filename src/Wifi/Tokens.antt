-- ===== src/Wifi/Tokens.antt =====
-- How often the semaphore is given bounds how many threads get past it.
use mathlib.Core.Path.{subst}
use ikt104_eksamen_oppgave.Base.{
  ℕ, suc, ◌+◌, ◌≤◌, ◌≡◌, refl, sym, ap, ◌∙◌, arith, ℤ, pos, ◌==ℤ◌, Bool, true, false, Bool-cases,
  inl, inr, List, [], ◌∷◌, if◌then◌else◌,
}
use ikt104_eksamen_oppgave.Wifi.{
  Thread, wifi, info, news, Semaphore, Place, starts, before, waits, passed, timed_out, returned,
  given, Event, connect_result, addr_add, other_event, connects, takes, runs_out, gives, System,
  at_start, place, sem_give, handle_addr_add, sem_take, sem_time_out, give_twice, ask_to_connect,
  step, steps,
}
use ikt104_eksamen_oppgave.Wifi.Counting.{counting}
use ikt104_eksamen_oppgave.Wifi.View.{view_of_run}
use ikt104_eksamen_oppgave.Wifi.Queue.{
  got, gave, in_queue, occurs, Accounted, place_of, given-Accounted, take_outcome-Accounted,
  time_out-Accounted,
}

-- Of the times that the handler and `t_wifi` gave the semaphore.
abbrev once : Bool → ℕ
once b = if b then 1 else 0

abbrev pub IsAccounted : System counting → Type 0
IsAccounted s = Accounted (once s.ip_handled + gave s.wifi_at) s.ip_handled (gave s.wifi_at) s

settled : (b : Bool) (g : ℕ) (s : System counting) → Accounted (once b + g) b g s → IsAccounted s
settled b g s h =
    subst (λ (y : ℕ). Accounted (once s.ip_handled + y) s.ip_handled y s) (sym h.gave_now)
      (subst (λ (y : Bool). Accounted (once y + g) y g s) (sym h.handled_now) h)

sem_take-IsAccounted :
    (t : Thread) (p : Place) (s : System counting)
    → place_of t s ≡ p
    → IsAccounted s
    → IsAccounted (sem_take counting t p s)
unfolding sem_take
sem_take-IsAccounted t before s e h =
    settled s.ip_handled (gave s.wifi_at) (sem_take counting t before s) (
      take_outcome-Accounted (once s.ip_handled + gave s.wifi_at) s.ip_handled (gave s.wifi_at) t
        s.sem.count s.sem.waiting s e h)
sem_take-IsAccounted t starts s e h = h
sem_take-IsAccounted t waits s e h = h
sem_take-IsAccounted t passed s e h = h
sem_take-IsAccounted t timed_out s e h = h
sem_take-IsAccounted t returned s e h = h
sem_take-IsAccounted t given s e h = h

sem_time_out-IsAccounted :
    (t : Thread) (p : Place) (s : System counting)
    → place_of t s ≡ p
    → IsAccounted s
    → IsAccounted (sem_time_out counting t p s)
unfolding sem_time_out
sem_time_out-IsAccounted t waits s e h =
    settled s.ip_handled (gave s.wifi_at) (sem_time_out counting t waits s) (
      time_out-Accounted (once s.ip_handled + gave s.wifi_at) s.ip_handled (gave s.wifi_at) t s e h)
sem_time_out-IsAccounted t starts s e h = h
sem_time_out-IsAccounted t before s e h = h
sem_time_out-IsAccounted t passed s e h = h
sem_time_out-IsAccounted t timed_out s e h = h
sem_time_out-IsAccounted t returned s e h = h
sem_time_out-IsAccounted t given s e h = h

first_given :
    (s : System counting)
    → s.ip_handled ≡ false
    → IsAccounted s
    → IsAccounted (sem_give counting (record s { ip_handled = true }))
first_given s e h =
    let s' : System counting = record s { ip_handled = true } in
    let g = gave s.wifi_at in
    let h' : Accounted g true g s' = record {
      handled_now = refl;
      gave_now = refl;
      wifi_queued = h.wifi_queued;
      info_queued = h.info_queued;
      news_queued = h.news_queued;
      spent = omega (arith, rw e at h.spent);
    } in
    settled true g (sem_give counting s') (
      subst (λ (n : ℕ). Accounted n true g (sem_give counting s')) (omega arith)
        (given-Accounted g true g s.sem.count s.sem.waiting s' h'))

handle_addr_add-IsAccounted :
    (s : System counting) → IsAccounted s → IsAccounted (handle_addr_add counting s)
unfolding handle_addr_add
handle_addr_add-IsAccounted s h = elim (Bool-cases s.ip_handled) [
  | inl e ↦ subst IsAccounted (rw e refl) h
  | inr e ↦ rw e (first_given s e h)
]

-- The end of `wifi_connect`.
give_twice-IsAccounted :
    (p : Place) (s : System counting)
    → s.wifi_at ≡ p
    → IsAccounted s
    → IsAccounted (give_twice counting p s)
unfolding give_twice
give_twice-IsAccounted passed s e h = settled s.ip_handled 2 (give_twice counting passed s) (
    let s' : System counting = record s { wifi_at = given } in
    let h' : Accounted (once s.ip_handled) s.ip_handled 2 s' = record {
      handled_now = refl;
      gave_now = refl;
      wifi_queued = h.wifi_queued ∙ ap in_queue e;
      info_queued = h.info_queued;
      news_queued = h.news_queued;
      spent = omega (arith, h.spent, ap got e, ap gave e);
    } in
    let s'' = sem_give counting s' in
    let h'' = given-Accounted (once s.ip_handled) s.ip_handled 2 s.sem.count s.sem.waiting s' h' in
    subst (λ (n : ℕ). Accounted n s.ip_handled 2 (sem_give counting s'')) (omega arith)
      (given-Accounted (suc (once s.ip_handled)) s.ip_handled 2 s''.sem.count s''.sem.waiting s''
        h''))
give_twice-IsAccounted starts s e h = h
give_twice-IsAccounted before s e h = h
give_twice-IsAccounted waits s e h = h
give_twice-IsAccounted timed_out s e h = h
give_twice-IsAccounted returned s e h = h
give_twice-IsAccounted given s e h = h

-- `t_wifi` stays without the semaphore.
moved_on :
    (p : Place) (s : System counting)
    → s.wifi_at ≡ starts
    → (in_queue p ≡ 0) × (got p ≡ 0) × (gave p ≡ 0)
    → IsAccounted s
    → IsAccounted (record s { wifi_at = p })
moved_on p s e (q, r, g) h = record {
  handled_now = refl;
  gave_now = refl;
  wifi_queued = h.wifi_queued ∙ ap in_queue e ∙ sym q;
  info_queued = h.info_queued;
  news_queued = h.news_queued;
  spent = omega (arith, h.spent, ap got e, ap gave e);
}

ask_to_connect-IsAccounted :
    (iface : Bool) (ret : ℤ) (p : Place) (s : System counting)
    → s.wifi_at ≡ p
    → IsAccounted s
    → IsAccounted (ask_to_connect counting iface ret p s)
unfolding ask_to_connect
ask_to_connect-IsAccounted iface ret starts s e h = elim (Bool-cases iface) [
  | inl x ↦ elim (Bool-cases (ret ==ℤ pos 0)) [
    | inl y ↦ rw (x, y) (moved_on before s e (refl, refl, refl) h)
    | inr y ↦ rw (x, y) (moved_on returned s e (refl, refl, refl) h)
  ]
  | inr x ↦ rw x (moved_on returned s e (refl, refl, refl) h)
]
ask_to_connect-IsAccounted iface ret before s e h = h
ask_to_connect-IsAccounted iface ret waits s e h = h
ask_to_connect-IsAccounted iface ret passed s e h = h
ask_to_connect-IsAccounted iface ret timed_out s e h = h
ask_to_connect-IsAccounted iface ret returned s e h = h
ask_to_connect-IsAccounted iface ret given s e h = h

pub place_of-place : (t : Thread) (s : System counting) → place_of t s ≡ place counting t s
unfolding place
place_of-place wifi s = refl
place_of-place info s = refl
place_of-place news s = refl

pub step-IsAccounted :
    (e : Event) (s : System counting) → IsAccounted s → IsAccounted (step counting e s)
unfolding step
step-IsAccounted (connect_result status) s h = h
step-IsAccounted addr_add s h = handle_addr_add-IsAccounted s h
step-IsAccounted other_event s h = h
step-IsAccounted (connects iface ret) s h = ask_to_connect-IsAccounted iface ret s.wifi_at s refl h
step-IsAccounted (takes t) s h =
    sem_take-IsAccounted t (place counting t s) s (place_of-place t s) h
step-IsAccounted (runs_out t) s h =
    sem_time_out-IsAccounted t (place counting t s) s (place_of-place t s) h
step-IsAccounted gives s h = give_twice-IsAccounted s.wifi_at s refl h

steps-IsAccounted :
    (es : List Event) (s : System counting) → IsAccounted s → IsAccounted (steps counting es s)
unfolding steps
steps-IsAccounted [] s h = h
steps-IsAccounted (e ∷ es) s h = steps-IsAccounted es (step counting e s) (step-IsAccounted e s h)

pub start-IsAccounted : IsAccounted (at_start counting)
unfolding at_start occurs
start-IsAccounted = record {
  handled_now = refl;
  gave_now = refl;
  wifi_queued = refl;
  info_queued = refl;
  news_queued = refl;
  spent = omega arith;
}

-- The semaphore's count and the threads that have got it, against how often it was given.
abbrev pub IsPaidFor : {k : Semaphore} → System k → Type 0
IsPaidFor {k} s =
    k.count s.sem + got s.wifi_at + got s.info_at + got s.news_at
    ≤ (if s.ip_handled then 1 else 0) + gave s.wifi_at

-- In whatever order the threads and the events come, and however the connection is refused, the
-- threads that have got the semaphore and its count are together at most the times that it was
-- given: once by the handler, if an address was handled, and twice by `t_wifi`, if that has come to
-- its end.
pub steps-IsPaidFor : (k : Semaphore) (es : List Event) → IsPaidFor (steps k es (at_start k))
steps-IsPaidFor k es =
    let h = steps-IsAccounted es (at_start counting) start-IsAccounted in
    let e = view_of_run k es in
    subst
      (λ (v : System counting).
        v.sem.count + got v.wifi_at + got v.info_at + got v.news_at
        ≤ once v.ip_handled + gave v.wifi_at)
      (sym e) h.spent
