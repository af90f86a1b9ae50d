-- ===== src/Init/Handoff.antt =====
-- No core of pre_kernel/src/init.c enters the kernel before all cores have arrived: an invariant of the
-- cores' steps.
use lunar_prekernel.Init.Cores.{
  Phase, store_core_count, Sync, start, open_lock, Goes, parked, arrive, waits_for_lock,
  waits_for_cores, Step, count_cores, preparing, counted, spinning, ready, entered, unlock,
  leave_lock, join, hand_off, keep, Reach, next, here,
}
use lunar_prekernel.Base.{
  ℕ, zero, suc, ◌+◌, ◌*◌, ◌^◌, ◌≤◌, ◌<◌, ◌≡◌, refl, ap, ◌⊎◌, inl, List, [], ◌∷◌, ◌++◌, arith,
  length, replicate, All,
}

abbrev pub arrived : Phase → ℕ
arrived spinning = 1
arrived entered = 1
arrived _ = 0

abbrev pub preparers : Phase → ℕ
preparers preparing = 1
preparers _ = 0

abbrev pub lockers : Phase → ℕ
lockers preparing = 1
lockers counted = 1
lockers _ = 0

abbrev pub passed : Phase → ℕ
passed ready = 1
passed spinning = 1
passed entered = 1
passed _ = 0

abbrev pub handed : Phase → ℕ
handed entered = 1
handed _ = 0

-- The sum of a number for each core's phase.
abbrev pub sum_by : (Phase → ℕ) → List Phase → ℕ
sum_by f [] = 0
sum_by f (p ∷ ps) = f p + sum_by f ps

pub sum_by-append :
    (f : Phase → ℕ) (xs ys : List Phase) → sum_by f (xs ++ ys) ≡ sum_by f xs + sum_by f ys
sum_by-append f [] ys = omega arith
sum_by-append f (x ∷ xs) ys = omega (arith, sum_by-append f xs ys)

pub sum_by-replicate : (f : Phase → ℕ) (p : Phase) (n : ℕ) → sum_by f (replicate n p) ≡ n * f p
sum_by-replicate f p zero = omega arith
sum_by-replicate f p (suc n) = grind (arith, sum_by-replicate f p n)

pub sum_by_le :
    (f g : Phase → ℕ) (xs : List Phase) → ((p : Phase) → f p ≤ g p) → sum_by f xs ≤ sum_by g xs
sum_by_le f g [] h = omega arith
sum_by_le f g (x ∷ xs) h = omega (arith, h x, sum_by_le f g xs h)

pub sum_by_one : (xs : List Phase) → sum_by (λ _. 1) xs ≡ length xs
sum_by_one [] = refl
sum_by_one (x ∷ xs) = omega (arith, sum_by_one xs)

-- A core's move changes a sum by what its two phases count for.
pub sum_by-Goes :
    (f : Phase → ℕ) (from to : Phase) (change : Sync → Sync) (s s' : Sync)
    → Goes from to change s s'
    → sum_by f s'.cores + f from ≡ sum_by f s.cores + f to
sum_by-Goes f from to change s s' g = omega (
  arith,
  ap (sum_by f) g.was,
  ap (λ (x : Sync). sum_by f x.cores) g.is,
  sum_by-append f g.before (from ∷ g.after),
  sum_by-append f g.before (to ∷ g.after),
)

pub record IsOrderly (others : ℕ) (s : Sync) : Type 0 where
  pub all_cores : sum_by (λ _. 1) s.cores ≡ suc others
  pub running : s.running_cores ≡ sum_by arrived s.cores
  pub one_boot_core : sum_by lockers s.cores ≤ 1
  pub count_stored :
      ((sum_by preparers s.cores ≡ 1) × (s.core_count ≡ 0))
      ⊎ ((sum_by preparers s.cores ≡ 0) × (s.core_count ≡ suc others))
  pub lock :
      ((sum_by lockers s.cores ≡ 1) × (s.ap_init_lock ≡ 0) × (sum_by passed s.cores ≡ 0))
      ⊎ ((sum_by lockers s.cores ≡ 0) × (s.ap_init_lock ≡ 1))
  pub together : (sum_by handed s.cores ≡ 0) ⊎ (sum_by arrived s.cores ≡ suc others)

start-IsOrderly : (others : ℕ) → IsOrderly others (start others)
start-IsOrderly others = record {
  all_cores = omega (arith, sum_by-replicate (λ _. 1) parked others);
  running = omega (arith, sum_by-replicate arrived parked others);
  one_boot_core = omega (arith, sum_by-replicate lockers parked others);
  count_stored = inl (omega (arith, sum_by-replicate preparers parked others), refl);
  lock = inl (
    omega (arith, sum_by-replicate lockers parked others),
    refl,
    omega (arith, sum_by-replicate passed parked others),
  );
  together = inl (omega (arith, sum_by-replicate handed parked others));
}

-- How the sums that the invariant names change.
record Sums (from to : Phase) (change : Sync → Sync) (s s' : Sync) : Type 0 where
  cores : sum_by (λ _. 1) s'.cores ≡ sum_by (λ _. 1) s.cores
  arrivals : sum_by arrived s'.cores + arrived from ≡ sum_by arrived s.cores + arrived to
  preparing_cores :
      sum_by preparers s'.cores + preparers from ≡ sum_by preparers s.cores + preparers to
  locking : sum_by lockers s'.cores + lockers from ≡ sum_by lockers s.cores + lockers to
  passing : sum_by passed s'.cores + passed from ≡ sum_by passed s.cores + passed to
  handing : sum_by handed s'.cores + handed from ≡ sum_by handed s.cores + handed to
  within : sum_by arrived s.cores ≤ sum_by (λ _. 1) s.cores
  within' : sum_by arrived s'.cores ≤ sum_by (λ _. 1) s'.cores
  prepares : sum_by preparers s.cores ≤ sum_by lockers s.cores
  stored : s'.core_count ≡ (change s).core_count
  runs : s'.running_cores ≡ (change s).running_cores
  locks : s'.ap_init_lock ≡ (change s).ap_init_lock
  some_from : (f : Phase → ℕ) → f from ≤ sum_by f s.cores

sums :
    (from to : Phase) (change : Sync → Sync) (s s' : Sync)
    → Goes from to change s s'
    → Sums from to change s s'
sums from to change s s' g = record {
  cores = omega (arith, sum_by-Goes (λ _. 1) from to change s s' g);
  arrivals = sum_by-Goes arrived from to change s s' g;
  preparing_cores = sum_by-Goes preparers from to change s s' g;
  locking = sum_by-Goes lockers from to change s s' g;
  passing = sum_by-Goes passed from to change s s' g;
  handing = sum_by-Goes handed from to change s s' g;
  within = sum_by_le arrived (λ _. 1) s.cores (λ p. grind arith);
  within' = sum_by_le arrived (λ _. 1) s'.cores (λ p. grind arith);
  prepares = sum_by_le preparers lockers s.cores (λ p. grind arith);
  stored = ap (λ (x : Sync). x.core_count) g.is;
  runs = ap (λ (x : Sync). x.running_cores) g.is;
  locks = ap (λ (x : Sync). x.ap_init_lock) g.is;
  some_from = λ f. omega (arith, ap (sum_by f) g.was, sum_by-append f g.before (from ∷ g.after));
}

Step-IsOrderly :
    (others : ℕ) (s s' : Sync)
    → suc others < 2 ^ 32
    → IsOrderly others s
    → Step (suc others) s s'
    → IsOrderly others s'
unfolding store_core_count open_lock arrive waits_for_lock waits_for_cores
Step-IsOrderly others s s' few o (count_cores g) =
    let k = sums preparing counted (store_core_count (suc others)) s s' g in
    ground (arith, k, o, k.some_from preparers)
Step-IsOrderly others s s' few o (unlock g) =
    let k = sums counted ready open_lock s s' g in ground (arith, k, o, k.some_from lockers)
Step-IsOrderly others s s' few o (leave_lock unlocked g) =
    let k = sums parked ready keep s s' g in ground (arith, k, o)
Step-IsOrderly others s s' few o (join g) =
    let k = sums ready spinning arrive s s' g in ground (arith, k, o, k.some_from passed)
Step-IsOrderly others s s' few o (hand_off all g) =
    let k = sums spinning entered keep s s' g in ground (arith, k, o, k.some_from passed)

pub Reach-IsOrderly :
    (others : ℕ) (s : Sync) → suc others < 2 ^ 32 → Reach others s → IsOrderly others s
Reach-IsOrderly others s few here = start-IsOrderly others
Reach-IsOrderly others s few (next t s' r step) =
    Step-IsOrderly others t s few (Reach-IsOrderly others t few r) step

-- All cores have arrived where their count says so.
all_arrived :
    (xs : List Phase)
    → sum_by arrived xs ≡ sum_by (λ _. 1) xs
    → All (λ p. (p ≡ spinning) ⊎ (p ≡ entered)) xs
all_arrived [] h = tt
all_arrived (p ∷ ps) h =
    let within = sum_by_le arrived (λ _. 1) ps (λ p. grind arith) in
    (grind arith, all_arrived ps (grind arith))

-- However the steps of the cores interleave, with fewer than 2 ^ 32 cores: when a core is in the
-- kernel, every core has been initialised and has arrived, the lock is open and the count is stored.
pub handoff_together :
    (others : ℕ) (s : Sync)
    → suc others < 2 ^ 32
    → Reach others s
    → 0 < sum_by handed s.cores
    → All (λ p. (p ≡ spinning) ⊎ (p ≡ entered)) s.cores
      × (s.ap_init_lock ≡ 1)
      × (s.core_count ≡ suc others)
      × (s.running_cores ≡ suc others)
handoff_together others s few r some_core =
    let o = Reach-IsOrderly others s few r in
    let arrivals : sum_by arrived s.cores ≡ suc others = ground (arith, o) in
    let inside = sum_by_le arrived passed s.cores (λ p. grind arith) in
    let prepares = sum_by_le preparers lockers s.cores (λ p. grind arith) in
    (
      all_arrived s.cores (omega (arith, arrivals, o)),
      ground (arith, o, inside),
      ground (arith, o, inside, prepares),
      omega (arith, arrivals, o),
    )
