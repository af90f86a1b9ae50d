-- ===== src/Init/Progress.antt =====
-- All cores of pre_kernel/src/init.c get into the kernel: some core can go on until then, and each step
-- leaves fewer to go.
use native.Mathlib.Decide.{dec_lt}
use lunar_prekernel.Init.Cores.{
  Phase, waits_for_lock, waits_for_cores, preparing, parked, spinning, Sync, counted, ready,
  entered, Step, Goes, store_core_count, keep, count_cores, leave_lock, hand_off, open_lock, arrive,
  unlock, join, Reach,
}
use lunar_prekernel.Base.{
  ℕ, suc, ◌^◌, ◌≤◌, ◌<◌, ◌≡◌, refl, ap, ◌⊎◌, inl, inr, List, [], ◌∷◌, ◌++◌, arith, All,
}
use lunar_prekernel.Init.Handoff.{
  sum_by, lockers, arrived, IsOrderly, sum_by-Goes, sum_by_le, Reach-IsOrderly, preparers,
}

-- The steps that a core has left.
abbrev pub steps_left : Phase → ℕ
steps_left preparing = 4
steps_left counted = 3
steps_left parked = 3
steps_left ready = 2
steps_left spinning = 1
steps_left entered = 0

-- A core in a phase, from the sum that the phase counts in.
found :
    (f : Phase → ℕ) (xs : List Phase)
    → 0 < sum_by f xs
    → (before : List Phase) × (p : Phase) × (after : List Phase) × (xs ≡ before ++ (p ∷ after))
      × (0 < f p)
found f [] h = absurd (omega arith)
found f (x ∷ xs) h = elim (dec_lt 0 (f x)) [
  | yes here ↦ ([], x, xs, refl, here)
  | no other ↦
      let (before, p, after, e, at) = found f xs (omega arith) in
      (x ∷ before, p, after, ap (◌∷◌ x) e, at)
]

abbrev waiting : Phase → ℕ
waiting parked = 1
waiting ready = 1
waiting _ = 0

abbrev spinners : Phase → ℕ
spinners spinning = 1
spinners _ = 0

all_entered : (xs : List Phase) → sum_by steps_left xs ≡ 0 → All (λ p. p ≡ entered) xs
all_entered [] h = tt
all_entered (p ∷ ps) h = (grind arith, all_entered ps (omega arith))

abbrev CanGo : ℕ → Sync → Type 0
CanGo others s = (s' : Sync) × Step (suc others) s s'

go :
    (others : ℕ) (s : Sync) (from to : Phase) (change : Sync → Sync) (before after : List Phase)
    → s.cores ≡ before ++ (from ∷ after)
    → (s' : Sync) × Goes from to change s s'
go others s from to change before after e =
    (_, record { before = before; after = after; was = e; is = refl })

boot_goes :
    (others : ℕ) (s : Sync) (before : List Phase) (p : Phase) (after : List Phase)
    → s.cores ≡ before ++ (p ∷ after)
    → 0 < lockers p
    → CanGo others s
boot_goes others s before preparing after e h =
    let (s', g) = go others s preparing counted (store_core_count (suc others)) before after e in
    (s', count_cores g)
boot_goes others s before counted after e h =
    let (s', g) = go others s counted ready open_lock before after e in (s', unlock g)
boot_goes others s before parked after e h = absurd (omega arith)
boot_goes others s before ready after e h = absurd (omega arith)
boot_goes others s before spinning after e h = absurd (omega arith)
boot_goes others s before entered after e h = absurd (omega arith)

waiter_goes :
    (others : ℕ) (s : Sync) (before : List Phase) (p : Phase) (after : List Phase)
    → s.ap_init_lock ≡ 1
    → s.cores ≡ before ++ (p ∷ after)
    → 0 < waiting p
    → CanGo others s
unfolding waits_for_lock
waiter_goes others s before preparing after unlocked e h = absurd (omega arith)
waiter_goes others s before counted after unlocked e h = absurd (omega arith)
waiter_goes others s before parked after unlocked e h =
    let (s', g) = go others s parked ready keep before after e in (s', leave_lock (ground arith) g)
waiter_goes others s before ready after unlocked e h =
    let (s', g) = go others s ready spinning arrive before after e in (s', join g)
waiter_goes others s before spinning after unlocked e h = absurd (omega arith)
waiter_goes others s before entered after unlocked e h = absurd (omega arith)

spinner_goes :
    (others : ℕ) (s : Sync) (before : List Phase) (p : Phase) (after : List Phase)
    → s.core_count ≤ s.running_cores
    → s.cores ≡ before ++ (p ∷ after)
    → 0 < spinners p
    → CanGo others s
unfolding waits_for_cores
spinner_goes others s before preparing after all e h = absurd (omega arith)
spinner_goes others s before counted after all e h = absurd (omega arith)
spinner_goes others s before parked after all e h = absurd (omega arith)
spinner_goes others s before ready after all e h = absurd (omega arith)
spinner_goes others s before spinning after all e h =
    let (s', g) = go others s spinning entered keep before after e in
    (s', hand_off (ground arith) g)
spinner_goes others s before entered after all e h = absurd (omega arith)

-- Three sums that are 0 leave no step.
none_left :
    (xs : List Phase)
    → sum_by lockers xs ≡ 0
    → sum_by waiting xs ≡ 0
    → sum_by spinners xs ≡ 0
    → sum_by steps_left xs ≡ 0
none_left [] a b c = refl
none_left (p ∷ ps) a b c =
    let rest = none_left ps (omega arith) (omega arith) (omega arith) in
    let here : steps_left p ≡ 0 = grind arith in omega arith

-- Where no core waits, those that passed the lock arrived.
no_waiters :
    (xs : List Phase)
    → sum_by lockers xs ≡ 0
    → sum_by waiting xs ≡ 0
    → sum_by arrived xs ≡ sum_by (λ _. 1) xs
no_waiters [] a b = refl
no_waiters (p ∷ ps) a b =
    let rest = no_waiters ps (omega arith) (omega arith) in
    let here : arrived p ≡ 1 = grind arith in omega arith

can_go :
    (others : ℕ) (s : Sync) → IsOrderly others s → All (λ p. p ≡ entered) s.cores ⊎ CanGo others s
can_go others s o = elim (dec_lt 0 (sum_by lockers s.cores)) [
  | yes boot ↦
      let (before, p, after, e, h) = found lockers s.cores boot in
      inr (boot_goes others s before p after e h)
  | no unlocked ↦ elim (dec_lt 0 (sum_by waiting s.cores)) [
    | yes some_wait ↦
        let (before, p, after, e, h) = found waiting s.cores some_wait in
        inr (waiter_goes others s before p after (ground (arith, o)) e h)
    | no none_wait ↦ elim (dec_lt 0 (sum_by spinners s.cores)) [
      | yes some_spin ↦
          let (before, p, after, e, h) = found spinners s.cores some_spin in
          let prepares = sum_by_le preparers lockers s.cores (λ p. grind arith) in
          let arrivals = no_waiters s.cores (omega arith) (omega arith) in
          inr (spinner_goes others s before p after (ground (arith, o, arrivals, prepares)) e h)
      | no none_spin ↦
          inl (all_entered s.cores (none_left s.cores (omega arith) (omega arith) (omega arith)))
    ]
  ]
]

Step-steps_left :
    (count : ℕ) (s s' : Sync)
    → Step count s s'
    → suc (sum_by steps_left s'.cores) ≡ sum_by steps_left s.cores
Step-steps_left count s s' (count_cores g) =
    omega (arith, sum_by-Goes steps_left preparing counted (store_core_count count) s s' g)
Step-steps_left count s s' (unlock g) =
    omega (arith, sum_by-Goes steps_left counted ready open_lock s s' g)
Step-steps_left count s s' (leave_lock unlocked g) =
    omega (arith, sum_by-Goes steps_left parked ready keep s s' g)
Step-steps_left count s s' (join g) =
    omega (arith, sum_by-Goes steps_left ready spinning arrive s s' g)
Step-steps_left count s s' (hand_off all g) =
    omega (arith, sum_by-Goes steps_left spinning entered keep s s' g)

-- However the steps of the cores interleave, with fewer than 2 ^ 32 cores: all cores are in the kernel,
-- or some core can take a step; and any step leaves one step fewer to all cores together.
pub handoff_progress :
    (others : ℕ) (s : Sync)
    → suc others < 2 ^ 32
    → Reach others s
    → (All (λ p. p ≡ entered) s.cores ⊎ ((s' : Sync) × Step (suc others) s s'))
      × ((s' : Sync)
          → Step (suc others) s s'
          → suc (sum_by steps_left s'.cores) ≡ sum_by steps_left s.cores)
handoff_progress others s few r =
    (can_go others s (Reach-IsOrderly others s few r), Step-steps_left (suc others) s)
