-- ===== src/Locks/Progress.antt =====
-- As long as a thread has something to do, one of them can go on.
use mathlib.Core.Path.{subst}
use ikt104_eksamen_oppgave.Base.{
  ℕ, zero, suc, ◌+◌, ◌<◌, ◌≤◌, ◌≡◌, refl, sym, arith, ◌⊎◌, inl, inr, Bool, true, Bool-cases, List,
  [], ◌∷◌, length, All,
}
use ikt104_eksamen_oppgave.Locks.{
  Mutex, http_mutex, info_mutex, news_mutex, Op, acquire, release, NewsRound, Thread, threads,
  same_mutex, holds, IsFree, Mutexes, Moves, acquires, releases, StepIn, here, there, Reaches,
  stays, goes_on,
}
use ikt104_eksamen_oppgave.Locks.Order.{
  rank, IsAbove, InOrder, IsInOrder, threads-InOrder, reaches-InOrder,
}

data In (t : Thread) : List Thread → Type 0 where
  first : (ts : List Thread) → In t (t ∷ ts)
  later : (u : Thread) (ts : List Thread) → In t ts → In t (u ∷ ts)

-- A thread of the list can move.
abbrev pub CanStep : Mutexes → List Thread → Type 0
CanStep k ts = (ts' : List Thread) × StepIn k ts ts ts'

step_at :
    (k : Mutexes)
    → (all : List Thread) (t t' : Thread) (ts : List Thread) → In t ts
    → Moves k all t t'
    → (ts' : List Thread) × StepIn k all ts ts'
step_at k all t t' ts (first rest) mv = (t' ∷ rest, here t t' rest mv)
step_at k all t t' ts (later u rest i) mv =
    let (ts', st) = step_at k all t t' rest i mv in (u ∷ ts', there u rest ts' st)

-- A mutex is free, or one of the threads holds it.
holder :
    (m : Mutex) (ts : List Thread)
    → IsFree m ts ⊎ ((t : Thread) × In t ts × (holds m t.held ≡ true))
holder m [] = inl tt
holder m (t ∷ ts) = elim (Bool-cases (holds m t.held)) [
  | inl e ↦ inr (t, first ts, e)
  | inr e ↦ elim (holder m ts) [
    | inl free ↦ inl (e, free)
    | inr (u, i, h) ↦ inr (u, later t ts i, h)
  ]
]

of_In : (t : Thread) (ts : List Thread) → In t ts → All IsInOrder ts → IsInOrder t
of_In t ts (first rest) (h, hs) = h
of_In t ts (later u rest i) (h, hs) = of_In t rest i hs

same : (m m' : Mutex) → same_mutex m m' ≡ true → m ≡ m'
same http_mutex http_mutex e = refl
same info_mutex info_mutex e = refl
same news_mutex news_mutex e = refl
same http_mutex info_mutex e = ground arith
same http_mutex news_mutex e = ground arith
same info_mutex http_mutex e = ground arith
same info_mutex news_mutex e = ground arith
same news_mutex http_mutex e = ground arith
same news_mutex info_mutex e = ground arith

above_held :
    (m m' : Mutex) (held : List Mutex) → IsAbove m' held → holds m held ≡ true → rank m < rank m'
unfolding holds
above_held m m' [] h e = absurd (ground arith)
above_held m m' (x ∷ held) (h, hs) e = elim (Bool-cases (same_mutex m x)) [
  | inl s ↦ subst (λ (y : Mutex). rank y < rank m') (sym (same m x s)) h
  | inr s ↦ above_held m m' held hs (ground arith)
]

rank_le : (m : Mutex) → rank m ≤ 1
rank_le http_mutex = omega arith
rank_le info_mutex = omega arith
rank_le news_mutex = omega arith

holds_first : (m : Mutex) (held : List Mutex) → holds m (m ∷ held) ≡ true
unfolding holds
holds_first http_mutex held = refl
holds_first info_mutex held = refl
holds_first news_mutex held = refl

-- What is still to be done, and how many moves a run has.
abbrev pub left : List Thread → ℕ
left [] = 0
left (t ∷ ts) = length t.ops + left ts

unfoldable pub moves_of : {k : Mutexes} {ts ts' : List Thread} → Reaches k ts ts' → ℕ
moves_of (stays ts) = 0
moves_of (goes_on ts ts' ts'' st rest) = suc (moves_of rest)

moved_left :
    (k : Mutexes)
    → (all : List Thread) (t t' : Thread) → Moves k all t t'
    → length t.ops ≡ suc (length t'.ops)
moved_left k all t t' (acquires m held ops free) = omega arith
moved_left k all t t' (releases m held ops) = omega arith

step-left :
    (k : Mutexes) → (all ts ts' : List Thread) → StepIn k all ts ts' → left ts ≡ suc (left ts')
step-left k all ts ts' (here t t' rest mv) = omega (arith, moved_left k all t t' mv)
step-left k all ts ts' (there t rest rest' st) = omega (arith, step-left k all rest rest' st)

reaches-left :
    (k : Mutexes) → (ts ts' : List Thread) (r : Reaches k ts ts') → moves_of r + left ts' ≡ left ts
unfolding moves_of
reaches-left k ts ts' (stays us) = omega arith
reaches-left k ts ts' (goes_on ts₁ ts₂ ts₃ st rest) =
    omega (arith, step-left k ts₁ ts₁ ts₂ st, reaches-left k ts₂ ts₃ rest)

abbrev thread : List Mutex → List Op → Thread
thread held ops = record { held = held; ops = ops }

module _ (k : Mutexes) (ts : List Thread) (ordered : All IsInOrder ts) where
  -- A thread that holds a mutex can move, or waits for one of a higher rank.
  held_by :
      (m : Mutex)
      (next : (held : List Mutex) (m' : Mutex) (ops : List Op)
        → In (thread held (acquire m' ∷ ops)) ts
        → rank m < rank m'
        → CanStep k ts)
      (held : List Mutex) (ops : List Op)
      → In (thread held ops) ts
      → InOrder held ops
      → holds m held ≡ true
      → CanStep k ts
  unfolding holds
  held_by m next [] ops i h e = absurd (ground arith)
  held_by m next (x ∷ held) [] i h e = absurd (ground arith)
  held_by m next (x ∷ held) (release m' ∷ ops) i h e =
      step_at k ts (thread (x ∷ held) (release m' ∷ ops)) (thread held ops) ts i (
        subst (λ (y : Mutex). Moves k ts (thread (x ∷ held) (release y ∷ ops)) (thread held ops))
          (sym h.0) (releases x held ops))
  held_by m next (x ∷ held) (acquire m' ∷ ops) i h e =
      next (x ∷ held) m' ops i (above_held m m' (x ∷ held) h.0 (unfold holds in e))

  -- A thread that waits leads to one that can move.
  advance :
      (n : ℕ) (held : List Mutex) (m : Mutex) (ops : List Op)
      → In (thread held (acquire m ∷ ops)) ts
      → 2 ≤ rank m + n
      → CanStep k ts
  advance zero held m ops i fuel = absurd (omega (arith, rank_le m))
  advance (suc n) held m ops i fuel = elim (holder m ts) [
    | inl free ↦
        step_at k ts (thread held (acquire m ∷ ops)) (thread (m ∷ held) ops) ts i
          (acquires m held ops (k.free_may_take m ts free))
    | inr (t, j, e) ↦
        held_by m (λ held' m' ops' i' lt. advance n held' m' ops' i' (omega arith)) t.held t.ops j
          (of_In t ts j ordered) e
  ]

  goes :
      (held : List Mutex) (ops : List Op)
      → In (thread held ops) ts
      → InOrder held ops
      → (ops ≡ []) ⊎ CanStep k ts
  goes held [] i h = inl refl
  goes held (acquire m ∷ ops) i h = inr (advance 2 held m ops i (omega arith))
  goes [] (release m ∷ ops) i h = elim h [ ]
  goes (x ∷ held) (release m ∷ ops) i h = inr (
      held_by x (λ held' m' ops' i' lt. advance 2 held' m' ops' i' (omega arith)) (x ∷ held)
        (release m ∷ ops) i h (holds_first x held))

  look :
      (us : List Thread)
      → ((t : Thread) → In t us → In t ts)
      → All (λ t. t.ops ≡ []) us ⊎ CanStep k ts
  look [] inside = inl tt
  look (t ∷ us) inside =
      elim (goes t.held t.ops (inside t (first us)) (of_In t ts (inside t (first us)) ordered)) [
        | inl e ↦ elim (look us (λ u i. inside u (later t us i))) [
          | inl es ↦ inl (e, es)
          | inr st ↦ inr st
        ]
        | inr st ↦ inr st
      ]

-- Every thread is through.
abbrev pub IsFinished : List Thread → Type 0
IsFinished ts = All (λ t. t.ops ≡ []) ts

-- The threads for /info and /news and the screen's thread never block each other for good: in
-- whatever order they have moved, for any number of rounds of each, however the requests go and
-- whichever locks of the screen run out of time, if a free mutex can be taken, all are through or
-- one of them can go on; and each move is one of the operations that they had to do, so that they
-- are through at last.
pub threads-CanStep :
    (k : Mutexes) (infos : List Bool) (news : List NewsRound) (snapshots : List Bool)
    (ts : List Thread)
    → (r : Reaches k (threads infos news snapshots) ts)
    → (IsFinished ts ⊎ CanStep k ts) × (moves_of r + left ts ≡ left (threads infos news snapshots))
threads-CanStep k infos news snapshots ts r =
    let ordered =
      reaches-InOrder k (threads infos news snapshots) ts r
        (threads-InOrder infos news snapshots) in
    (look k ts ordered ts (λ t i. i), reaches-left k (threads infos news snapshots) ts r)
