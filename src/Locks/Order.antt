-- ===== src/Locks/Order.antt =====
-- Each thread takes the mutexes in one order, and gives them back in the opposite one.
use ikt104_eksamen_oppgave.Base.{
  ℕ, ◌<◌, ◌≡◌, refl, arith, Bool, true, false, List, [], ◌∷◌, ◌++◌, All,
}
use ikt104_eksamen_oppgave.Locks.{
  Mutex, http_mutex, info_mutex, news_mutex, Op, acquire, release, info_round_ops, NewsRound,
  returned_early, failed, received, news_round_ops, snapshot_ops, all_ops, Mutexes, Thread, threads,
  Moves, acquires, releases, StepIn, here, there, Reaches, stays, goes_on,
}

abbrev pub rank : Mutex → ℕ
rank http_mutex = 0
rank info_mutex = 1
rank news_mutex = 1

abbrev pub IsAbove : Mutex → List Mutex → Type 0
IsAbove m held = All (λ h. rank h < rank m) held

-- From what is held, the operations take only mutexes above it, give back the last one first, and
-- leave nothing.
abbrev pub InOrder : List Mutex → List Op → Type 0
InOrder held [] = held ≡ []
InOrder held (acquire m ∷ ops) = IsAbove m held × InOrder (m ∷ held) ops
InOrder [] (release m ∷ ops) = ⊥
InOrder (h ∷ held) (release m ∷ ops) = (m ≡ h) × InOrder held ops

abbrev pub IsInOrder : Thread → Type 0
IsInOrder t = InOrder t.held t.ops

info_round_ops-InOrder :
    (body : Bool) (ops : List Op) → InOrder [] ops → InOrder [] (info_round_ops body ++ ops)
unfolding info_round_ops
info_round_ops-InOrder true ops h = (tt, ((omega arith, tt), (refl, (refl, h))))
info_round_ops-InOrder false ops h = (tt, (refl, h))

news_round_ops-InOrder :
    (r : NewsRound) (ops : List Op) → InOrder [] ops → InOrder [] (news_round_ops r ++ ops)
unfolding news_round_ops
news_round_ops-InOrder returned_early ops h = h
news_round_ops-InOrder failed ops h = (tt, (refl, h))
news_round_ops-InOrder (received true) ops h = (tt, (refl, (tt, (refl, h))))
news_round_ops-InOrder (received false) ops h = (tt, (refl, h))

snapshot_ops-InOrder :
    (got : Bool) (ops : List Op) → InOrder [] ops → InOrder [] (snapshot_ops got ++ ops)
unfolding snapshot_ops
snapshot_ops-InOrder true ops h = (tt, (refl, h))
snapshot_ops-InOrder false ops h = h

all_ops-InOrder :
    {A : Type 0} (f : A → List Op)
    → ((x : A) (ops : List Op) → InOrder [] ops → InOrder [] (f x ++ ops))
    → (xs : List A) → InOrder [] (all_ops f xs)
unfolding all_ops
all_ops-InOrder f h [] = refl
all_ops-InOrder f h (x ∷ xs) = h x (all_ops f xs) (all_ops-InOrder f h xs)

pub threads-InOrder :
    (infos : List Bool) (news : List NewsRound) (snapshots : List Bool)
    → All IsInOrder (threads infos news snapshots)
unfolding threads
threads-InOrder infos news snapshots = (
  all_ops-InOrder info_round_ops info_round_ops-InOrder infos,
  (
    all_ops-InOrder news_round_ops news_round_ops-InOrder news,
    (all_ops-InOrder snapshot_ops snapshot_ops-InOrder snapshots, tt),
  ),
)

Moves-InOrder :
    (k : Mutexes)
    → (ts : List Thread) (t t' : Thread) → Moves k ts t t'
    → IsInOrder t
    → IsInOrder t'
Moves-InOrder k ts t t' (acquires m held ops free) h = h.1
Moves-InOrder k ts t t' (releases m held ops) h = h.1

step-InOrder :
    (k : Mutexes)
    → (all ts ts' : List Thread) → StepIn k all ts ts'
    → All IsInOrder ts
    → All IsInOrder ts'
step-InOrder k all ts ts' (here t t' rest mv) (h, hs) = (Moves-InOrder k all t t' mv h, hs)
step-InOrder k all ts ts' (there t rest rest' st) (h, hs) = (h, step-InOrder k all rest rest' st hs)

pub reaches-InOrder :
    (k : Mutexes) → (ts ts' : List Thread) → Reaches k ts ts' → All IsInOrder ts → All IsInOrder ts'
reaches-InOrder k ts ts' (stays us) h = h
reaches-InOrder k ts ts' (goes_on ts₁ ts₂ ts₃ st rest) h =
    reaches-InOrder k ts₂ ts₃ rest (step-InOrder k ts₁ ts₁ ts₂ st h)
