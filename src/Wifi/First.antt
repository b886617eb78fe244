-- ===== src/Wifi/First.antt =====
-- `t_wifi` stands in front of the network threads in the queue, and what the queue is like when an
-- address comes.
use mathlib.Core.Path.{subst}
use ikt104_eksamen_oppgave.Base.{
  ℕ, zero, suc, ◌≤◌, ◌≡◌, refl, sym, ap, ◌∙◌, arith, Bool, false, Bool-cases, inl, inr, ◌⊎◌, List,
  [], ◌∷◌, All, ℤ,
}
use ikt104_eksamen_oppgave.Wifi.{
  Thread, wifi, info, news, same_thread, enqueue, leave, Place, starts, before, waits, passed,
  timed_out, returned, given, Event, connect_result, addr_add, other_event, connects, takes,
  runs_out, gives, System, at_start, place, set_place, take_outcome, sem_take, sem_time_out,
  give_twice, ask_to_connect, step, steps,
}
use ikt104_eksamen_oppgave.Wifi.Counting.{Counter, counter_take, counting}
use ikt104_eksamen_oppgave.Wifi.Queue.{in_queue, occurs, queued, occurs-enqueue}
use ikt104_eksamen_oppgave.Wifi.Tokens.{
  IsAccounted, step-IsAccounted, start-IsAccounted, place_of-place,
}
use ikt104_eksamen_oppgave.Wifi.Address.{HasNot, NotAddress, sem-set_place, start-IsClosed}
use ikt104_eksamen_oppgave.Wifi.Stuck.{IsStuck, step-IsStuck}

-- `t_wifi` is not behind another thread.
unfoldable pub IsFirst : List Thread → Type 0
unfolding occurs
IsFirst [] = Unit
IsFirst (t ∷ ts) = occurs wifi ts ≡ 0

enqueue-IsFirst :
    (t : Thread) (ts : List Thread) → occurs t ts ≡ 0 → IsFirst ts → IsFirst (enqueue t ts)
unfolding IsFirst enqueue occurs
enqueue-IsFirst wifi ts e h = e
enqueue-IsFirst info [] e h = refl
enqueue-IsFirst info (x ∷ ts) e h = omega (arith, occurs-enqueue wifi info ts)
enqueue-IsFirst news [] e h = refl
enqueue-IsFirst news (x ∷ ts) e h = omega (arith, occurs-enqueue wifi news ts)

occurs-leave_le : (t : Thread) (ts : List Thread) → occurs wifi (leave t ts) ≤ occurs wifi ts
unfolding occurs leave
occurs-leave_le t [] = omega arith
occurs-leave_le t (x ∷ ts) = elim (Bool-cases (same_thread t x)) [
  | inl h ↦ rw h (omega arith)
  | inr h ↦ rw h (omega (arith, occurs-leave_le t ts))
]

IsFirst-of_none : (ts : List Thread) → occurs wifi ts ≡ 0 → IsFirst ts
unfolding IsFirst occurs
IsFirst-of_none [] e = tt
IsFirst-of_none (x ∷ ts) e = omega arith

leave-IsFirst : (t : Thread) (ts : List Thread) → IsFirst ts → IsFirst (leave t ts)
unfolding IsFirst leave
leave-IsFirst t [] h = tt
leave-IsFirst t (x ∷ ts) h = elim (Bool-cases (same_thread t x)) [
  | inl e ↦ rw e (IsFirst-of_none ts h)
  | inr e ↦ rw e (omega (arith, occurs-leave_le t ts))
]

-- The semaphore of a state after a step.
moved_sem :
    (t : Thread) (p : Place) (c : Counter) (s : System counting)
    → IsFirst c.waiting
    → IsFirst (set_place counting t p (record s { sem = c })).sem.waiting
moved_sem t p c s h =
    subst (λ (x : Counter). IsFirst x.waiting)
      (sym (sem-set_place counting t p (record s { sem = c }))) h

take_outcome-IsFirst :
    (t : Thread) (c : ℕ) (ts : List Thread) (s : System counting)
    → occurs t ts ≡ 0
    → IsFirst ts
    → IsFirst
        (take_outcome counting t
          (counter_take t (record { count = c; waiting = ts }))
          s).sem.waiting
unfolding take_outcome
take_outcome-IsFirst t zero ts s e h =
    moved_sem t waits (record { count = 0; waiting = enqueue t ts }) s (enqueue-IsFirst t ts e h)
take_outcome-IsFirst t (suc c) ts s e h =
    moved_sem t passed (record { count = c; waiting = ts }) s h

sem_take-IsFirst :
    (t : Thread) (p : Place) (s : System counting)
    → occurs t s.sem.waiting ≡ in_queue p
    → IsFirst s.sem.waiting
    → IsFirst (sem_take counting t p s).sem.waiting
unfolding sem_take
sem_take-IsFirst t before s e h = take_outcome-IsFirst t s.sem.count s.sem.waiting s e h
sem_take-IsFirst t starts s e h = h
sem_take-IsFirst t waits s e h = h
sem_take-IsFirst t passed s e h = h
sem_take-IsFirst t timed_out s e h = h
sem_take-IsFirst t returned s e h = h
sem_take-IsFirst t given s e h = h

sem_time_out-IsFirst :
    (t : Thread) (p : Place) (s : System counting)
    → IsFirst s.sem.waiting
    → IsFirst (sem_time_out counting t p s).sem.waiting
unfolding sem_time_out
sem_time_out-IsFirst t waits s h =
    moved_sem t timed_out (counting.time_out t s.sem) s (leave-IsFirst t s.sem.waiting h)
sem_time_out-IsFirst t starts s h = h
sem_time_out-IsFirst t before s h = h
sem_time_out-IsFirst t passed s h = h
sem_time_out-IsFirst t timed_out s h = h
sem_time_out-IsFirst t returned s h = h
sem_time_out-IsFirst t given s h = h

give_twice-IsFirst :
    (p : Place) (s : System counting)
    → HasNot p
    → IsFirst s.sem.waiting
    → IsFirst (give_twice counting p s).sem.waiting
unfolding give_twice
give_twice-IsFirst passed s w h = elim w [ ]
give_twice-IsFirst given s w h = h
give_twice-IsFirst starts s w h = h
give_twice-IsFirst before s w h = h
give_twice-IsFirst waits s w h = h
give_twice-IsFirst timed_out s w h = h
give_twice-IsFirst returned s w h = h

ask_to_connect-IsFirst :
    (iface : Bool) (ret : ℤ) (p : Place) (s : System counting)
    → IsFirst s.sem.waiting
    → IsFirst (ask_to_connect counting iface ret p s).sem.waiting
unfolding ask_to_connect
ask_to_connect-IsFirst iface ret starts s h = ground arith
ask_to_connect-IsFirst iface ret before s h = h
ask_to_connect-IsFirst iface ret waits s h = h
ask_to_connect-IsFirst iface ret passed s h = h
ask_to_connect-IsFirst iface ret timed_out s h = h
ask_to_connect-IsFirst iface ret returned s h = h
ask_to_connect-IsFirst iface ret given s h = h

-- A state before there is an address.
abbrev AllThreads : Thread → Type 0
AllThreads t = Unit

pub record IsEarly (s : System counting) : Type 0 where
  pub stuck : IsStuck counting AllThreads tt false s
  pub accounted : IsAccounted s
  pub first : IsFirst s.sem.waiting

step-IsFirst :
    (e : Event) (s : System counting)
    → NotAddress e
    → IsEarly s
    → IsFirst (step counting e s).sem.waiting
unfolding step place
step-IsFirst (connect_result status) s n h = h.first
step-IsFirst other_event s n h = h.first
step-IsFirst addr_add s n h = elim n [ ]
step-IsFirst (connects iface ret) s n h = ask_to_connect-IsFirst iface ret s.wifi_at s h.first
step-IsFirst (takes t) s n h =
    sem_take-IsFirst t (place counting t s) s
      (queued _ _ _ t s h.accounted ∙ ap in_queue (place_of-place t s)) h.first
step-IsFirst (runs_out t) s n h = sem_time_out-IsFirst t (place counting t s) s h.first
step-IsFirst gives s n h = give_twice-IsFirst s.wifi_at s (h.stuck.1.has_not wifi tt) h.first

steps-IsEarly :
    (es : List Event) (s : System counting)
    → All NotAddress es
    → IsEarly s
    → IsEarly (steps counting es s)
unfolding steps
steps-IsEarly [] s n h = h
steps-IsEarly (e ∷ es) s (n, ns) h = steps-IsEarly es (step counting e s) ns (record {
  stuck = step-IsStuck counting AllThreads tt false e s n h.stuck;
  accounted = step-IsAccounted e s h.accounted;
  first = step-IsFirst e s n h;
})

pub no_address-IsEarly :
    (es : List Event) → All NotAddress es → IsEarly (steps counting es (at_start counting))
unfolding IsFirst
no_address-IsEarly es n = steps-IsEarly es (at_start counting) n (record {
  stuck = (unfold at_start in refl, start-IsClosed counting);
  accounted = start-IsAccounted;
  first = unfold at_start in tt;
})

empty : (ts : List Thread) → occurs wifi ts ≡ 0 → occurs info ts ≡ 0 → occurs news ts ≡ 0 → ts ≡ []
unfolding occurs
empty [] a b c = refl
empty (wifi ∷ ts) a b c = absurd (omega arith)
empty (info ∷ ts) a b c = absurd (omega arith)
empty (news ∷ ts) a b c = absurd (omega arith)

-- The network threads alone.
pub two_queued :
    (ts : List Thread)
    → occurs wifi ts ≡ 0
    → occurs info ts ≡ 1
    → occurs news ts ≡ 1
    → (ts ≡ info ∷ news ∷ []) ⊎ (ts ≡ news ∷ info ∷ [])
unfolding occurs
two_queued [] a b c = absurd (omega arith)
two_queued (wifi ∷ ts) a b c = absurd (omega arith)
two_queued (info ∷ []) a b c = absurd (omega arith)
two_queued (info ∷ wifi ∷ ts) a b c = absurd (omega arith)
two_queued (info ∷ info ∷ ts) a b c = absurd (omega arith)
two_queued (info ∷ news ∷ ts) a b c =
    inl (ap (λ x. info ∷ news ∷ x) (empty ts (omega arith) (omega arith) (omega arith)))
two_queued (news ∷ []) a b c = absurd (omega arith)
two_queued (news ∷ wifi ∷ ts) a b c = absurd (omega arith)
two_queued (news ∷ news ∷ ts) a b c = absurd (omega arith)
two_queued (news ∷ info ∷ ts) a b c =
    inr (ap (λ x. news ∷ info ∷ x) (empty ts (omega arith) (omega arith) (omega arith)))

-- All three.
pub three_queued :
    (ts : List Thread)
    → IsFirst ts
    → occurs wifi ts ≡ 1
    → occurs info ts ≡ 1
    → occurs news ts ≡ 1
    → (ts ≡ wifi ∷ info ∷ news ∷ []) ⊎ (ts ≡ wifi ∷ news ∷ info ∷ [])
unfolding IsFirst occurs
three_queued [] h a b c = absurd (omega arith)
three_queued (info ∷ ts) h a b c = absurd (omega arith)
three_queued (news ∷ ts) h a b c = absurd (omega arith)
three_queued (wifi ∷ ts) h a b c = elim (two_queued ts h (omega arith) (omega arith)) [
  | inl e ↦ inl (ap (λ x. wifi ∷ x) e)
  | inr e ↦ inr (ap (λ x. wifi ∷ x) e)
]
