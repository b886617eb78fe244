-- ===== src/Wifi/Queue.antt =====
-- The queue of the semaphore, and what the threads have got of it.
use mathlib.Core.Path.{subst}
use ikt104_eksamen_oppgave.Base.{
  ℕ, zero, suc, ◌+◌, ◌≤◌, ◌≡◌, refl, sym, ap, ◌∙◌, arith, Bool, true, false, Bool-cases, inl, inr,
  List, [], ◌∷◌, if◌then◌else◌,
}
use ikt104_eksamen_oppgave.Wifi.{
  Thread, wifi, info, news, same_thread, enqueue, leave, Place, starts, before, waits, passed,
  timed_out, returned, given, System, set_place, woken, sem_give, take_outcome,
}
use ikt104_eksamen_oppgave.Wifi.Counting.{Counter, counter_take, counting}

-- What a thread has got of the semaphore, and what `t_wifi` has given.
abbrev pub got : Place → ℕ
got passed = 1
got given = 1
got _ = 0

abbrev pub gave : Place → ℕ
gave given = 2
gave _ = 0

abbrev pub in_queue : Place → ℕ
in_queue waits = 1
in_queue _ = 0

unfoldable pub occurs : Thread → List Thread → ℕ
occurs t [] = 0
occurs t (t' ∷ ts) = (if same_thread t t' then 1 else 0) + occurs t ts

-- A thread stands once in the queue if it waits, and not at all if it does not; of the `n` times
-- that the semaphore was given, no more are with the threads and in the semaphore.
pub record Accounted (n : ℕ) (handled : Bool) (g : ℕ) (s : System counting) : Type 0 where
  pub handled_now : s.ip_handled ≡ handled
  pub gave_now : gave s.wifi_at ≡ g
  pub wifi_queued : occurs wifi s.sem.waiting ≡ in_queue s.wifi_at
  pub info_queued : occurs info s.sem.waiting ≡ in_queue s.info_at
  pub news_queued : occurs news s.sem.waiting ≡ in_queue s.news_at
  pub spent : s.sem.count + got s.wifi_at + got s.info_at + got s.news_at ≤ n

abbrev pub place_of : Thread → System counting → Place
place_of wifi s = s.wifi_at
place_of info s = s.info_at
place_of news s = s.news_at

pub queued :
    (n : ℕ) (b : Bool) (g : ℕ) (t : Thread) (s : System counting)
    → Accounted n b g s
    → occurs t s.sem.waiting ≡ in_queue (place_of t s)
queued n b g wifi s h = h.wifi_queued
queued n b g info s h = h.info_queued
queued n b g news s h = h.news_queued

pub occurs-enqueue :
    (t t' : Thread) (ts : List Thread)
    → occurs t (enqueue t' ts) ≡ (if same_thread t t' then 1 else 0) + occurs t ts
unfolding occurs enqueue
occurs-enqueue t wifi ts = refl
occurs-enqueue t info [] = refl
occurs-enqueue t info (x ∷ ts) = omega (arith, occurs-enqueue t info ts)
occurs-enqueue t news [] = refl
occurs-enqueue t news (x ∷ ts) = omega (arith, occurs-enqueue t news ts)

same : (t t' : Thread) → (same_thread t t' ≡ true) → t ≡ t'
same wifi wifi e = refl
same info info e = refl
same news news e = refl
same wifi info e = ground arith
same wifi news e = ground arith
same info wifi e = ground arith
same info news e = ground arith
same news wifi e = ground arith
same news info e = ground arith

same_refl : (t : Thread) → same_thread t t ≡ true
same_refl wifi = refl
same_refl info = refl
same_refl news = refl

-- The end of a thread's time takes one of its places in the queue.
occurs-leave :
    (t t' : Thread) (ts : List Thread)
    → occurs t' ts ≡ 1
    → occurs t (leave t' ts) + (if same_thread t t' then 1 else 0) ≡ occurs t ts
unfolding occurs leave
occurs-leave t t' [] e = absurd (omega arith)
occurs-leave t t' (x ∷ ts) e = elim (Bool-cases (same_thread t' x)) [
  | inl h ↦
      let q = same t' x h in
      rw h (
        subst
          (λ (y : Thread).
            occurs t ts + (if same_thread t t' then 1 else 0)
            ≡ (if same_thread t y then 1 else 0) + occurs t ts)
          q (omega arith))
  | inr h ↦ rw h (let ih = occurs-leave t t' ts (omega (arith, rw h at e)) in omega arith)
]

abbrev total : System counting → ℕ
total s = got s.wifi_at + got s.info_at + got s.news_at

-- A thread goes to another place, with another semaphore.
moved-Accounted :
    (n : ℕ) (b : Bool) (g : ℕ) (t : Thread) (p : Place) (sem : Counter) (s : System counting)
    → ((t' : Thread)
        → occurs t' sem.waiting
          ≡ (if same_thread t' t then in_queue p else in_queue (place_of t' s)))
    → sem.count + got p + total s ≤ n + got (place_of t s)
    → (gave p ≡ 0) × (gave (place_of t s) ≡ 0)
    → s.ip_handled ≡ b
    → gave s.wifi_at ≡ g
    → Accounted n b g (set_place counting t p (record s { sem = sem }))
unfolding set_place
moved-Accounted n b g wifi p sem s q h (z, z') eb eg = record {
  handled_now = eb;
  gave_now = omega arith;
  wifi_queued = q wifi;
  info_queued = q info;
  news_queued = q news;
  spent = omega arith;
}
moved-Accounted n b g info p sem s q h z eb eg = record {
  handled_now = eb;
  gave_now = eg;
  wifi_queued = q wifi;
  info_queued = q info;
  news_queued = q news;
  spent = omega arith;
}
moved-Accounted n b g news p sem s q h z eb eg = record {
  handled_now = eb;
  gave_now = eg;
  wifi_queued = q wifi;
  info_queued = q info;
  news_queued = q news;
  spent = omega arith;
}

-- The first of the queue is a thread that waits.
first_waits : (p : Place) (m : ℕ) → 1 + m ≡ in_queue p → (gave p ≡ 0) × (m ≡ 0)
first_waits starts m e = absurd (omega arith)
first_waits before m e = absurd (omega arith)
first_waits waits m e = omega arith
first_waits passed m e = absurd (omega arith)
first_waits timed_out m e = absurd (omega arith)
first_waits returned m e = absurd (omega arith)
first_waits given m e = absurd (omega arith)

popped :
    (b : Bool) (p : Place) (m : ℕ)
    → (if b then 1 else 0) + m ≡ in_queue p
    → m ≡ (if b then 0 else in_queue p)
popped true p m e = (first_waits p m e).1
popped false p m e = omega arith

-- What a thread's old place says of the queue, where it stays as it is.
unmoved :
    (t t' : Thread) (x : ℕ) (s : System counting)
    → in_queue (place_of t s) ≡ x
    → in_queue (place_of t' s) ≡ (if same_thread t' t then x else in_queue (place_of t' s))
unmoved t t' x s e = elim (Bool-cases (same_thread t' t)) [
  | inl h ↦ rw h (subst (λ (y : Thread). in_queue (place_of y s) ≡ x) (sym (same t' t h)) e)
  | inr h ↦ rw h refl
]

abbrev with_sem : ℕ → List Thread → System counting → System counting
with_sem c ts s = record s { sem = record { count = c; waiting = ts } }

-- The semaphore is given.
pub given-Accounted :
    (n : ℕ) (b : Bool) (g c : ℕ) (ts : List Thread) (s : System counting)
    → Accounted n b g (with_sem c ts s)
    → Accounted (suc n) b g (sem_give counting (with_sem c ts s))
unfolding sem_give woken
given-Accounted n b g c [] s h = record {
  handled_now = h.handled_now;
  gave_now = h.gave_now;
  wifi_queued = h.wifi_queued;
  info_queued = h.info_queued;
  news_queued = h.news_queued;
  spent = omega (arith, h.spent);
}
given-Accounted n b g c (t ∷ ts) s h =
    let s' = with_sem c (t ∷ ts) s in
    let q : (t' : Thread)
        → (if same_thread t' t then 1 else 0) + occurs t' ts ≡ in_queue (place_of t' s') =
      λ t'. unfold occurs in queued n b g t' s' h in
    let first : (if same_thread t t then 1 else 0) + occurs t ts ≡ in_queue (place_of t s') = q t in
    moved-Accounted (suc n) b g t passed (record { count = c; waiting = ts }) s'
      (λ t'. popped (same_thread t' t) (place_of t' s') (occurs t' ts) (q t'))
      (omega (arith, h.spent))
      (refl, (first_waits (place_of t s') (occurs t ts) (rw (same_refl t) at first)).0)
      h.handled_now h.gave_now

-- A thread takes the semaphore, or joins the queue.
joined :
    (x : Bool) (k m n : ℕ)
    → k ≡ (if x then 1 else 0) + m
    → m ≡ n
    → n ≡ (if x then 0 else n)
    → k ≡ (if x then 1 else n)
joined true k m n e e' e'' = omega arith
joined false k m n e e' e'' = omega arith

left :
    (x : Bool) (k m n : ℕ)
    → k + (if x then 1 else 0) ≡ m
    → m ≡ n
    → n ≡ (if x then 1 else n)
    → k ≡ (if x then 0 else n)
left true k m n e e' e'' = omega arith
left false k m n e e' e'' = omega arith

pub take_outcome-Accounted :
    (n : ℕ) (b : Bool) (g : ℕ) (t : Thread) (c : ℕ) (ts : List Thread) (s : System counting)
    → place_of t (with_sem c ts s) ≡ before
    → Accounted n b g (with_sem c ts s)
    → Accounted n b g (
        take_outcome counting t
          (counter_take t (record { count = c; waiting = ts }))
          (with_sem c ts s))
unfolding take_outcome
take_outcome-Accounted n b g t zero ts s e h =
    let s' = with_sem zero ts s in
    moved-Accounted n b g t waits (record { count = 0; waiting = enqueue t ts }) s'
      (λ t'.
        joined (same_thread t' t) (occurs t' (enqueue t ts)) (occurs t' ts)
          (in_queue (place_of t' s')) (occurs-enqueue t' t ts) (queued n b g t' s' h)
          (unmoved t t' 0 s' (ap in_queue e)))
      (omega (arith, h.spent)) (refl, ap gave e) h.handled_now h.gave_now
take_outcome-Accounted n b g t (suc c) ts s e h =
    let s' = with_sem (suc c) ts s in
    moved-Accounted n b g t passed (record { count = c; waiting = ts }) s'
      (λ t'. queued n b g t' s' h ∙ unmoved t t' 0 s' (ap in_queue e)) (omega (arith, h.spent))
      (refl, ap gave e) h.handled_now h.gave_now

pub time_out-Accounted :
    (n : ℕ) (b : Bool) (g : ℕ) (t : Thread) (s : System counting)
    → place_of t s ≡ waits
    → Accounted n b g s
    → Accounted n b g
        (set_place counting t timed_out (record s { sem = counting.time_out t s.sem }))
time_out-Accounted n b g t s e h =
    let ts = s.sem.waiting in
    let once = queued n b g t s h ∙ ap in_queue e in
    moved-Accounted n b g t timed_out (counting.time_out t s.sem) s
      (λ t'.
        left (same_thread t' t) (occurs t' (leave t ts)) (occurs t' ts) (in_queue (place_of t' s))
          (occurs-leave t' t ts once) (queued n b g t' s h) (unmoved t t' 1 s (ap in_queue e)))
      (omega (arith, h.spent)) (refl, ap gave e) h.handled_now h.gave_now
