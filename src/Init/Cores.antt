-- ===== src/Init/Cores.antt =====
-- How the cores wait for one another in pre_kernel/src/init.c: `sync_and_handoff`, `prekernel_init_ap`
-- and the end of `prekernel_init`. Each step is one access to the shared variables.
use lunar_prekernel.Base.{
  ◌+◌, ℕ, suc, ◌+◌, ◌%◌, ◌^◌, ◌≡◌, Bool, false, List, ◌∷◌, ◌++◌, ltb, ◌==◌, replicate,
}

-- Where a core is. Only the boot core prepares and has stored the count; the others start before the
-- loop on `g_ap_init_lock`. A core that is ready has `g_running_cores` still to raise, one that spins
-- is in the loop of `sync_and_handoff`, and one that entered is in the kernel.
pub data Phase : Type 0 where
  preparing counted parked ready spinning entered : Phase

-- The globals `g_ap_init_lock`, `g_running_cores` and `g_core_count`, and the cores.
pub record Sync : Type 0 where
  pub ap_init_lock : ℕ
  pub running_cores : ℕ
  pub core_count : ℕ
  pub cores : List Phase

-- `g_core_count = boot_info->core_count`
unfoldable pub store_core_count : ℕ → Sync → Sync
store_core_count count s = record s { core_count = count % 2 ^ 32 }

-- `ATOMIC_STORE(&g_ap_init_lock, 1, ATOMIC_RELEASE)`
unfoldable pub open_lock : Sync → Sync
open_lock s = record s { ap_init_lock = 1 }

-- `ATOMIC_LOAD_ADD(&g_running_cores, 1, ATOMIC_RELEASE)`
unfoldable pub arrive : Sync → Sync
arrive s = record s { running_cores = (s.running_cores + 1) % 2 ^ 32 }

-- The conditions on which the loops go on
unfoldable pub waits_for_lock : Sync → Bool
waits_for_lock s = s.ap_init_lock == 0

unfoldable pub waits_for_cores : Sync → Bool
waits_for_cores s = ltb s.running_cores s.core_count

-- A core goes from a phase to the next, where the globals change as given.
pub record Goes (from to : Phase) (change : Sync → Sync) (s s' : Sync) : Type 0 where
  pub before : List Phase
  pub after : List Phase
  pub was : s.cores ≡ before ++ (from ∷ after)
  pub is : s' ≡ record (change s) { cores = before ++ (to ∷ after) }

abbrev pub keep : Sync → Sync
keep s = s

-- A step of a core. `count` is the core count of the boot info.
pub data Step (count : ℕ) (s s' : Sync) : Type 0 where
  count_cores : Goes preparing counted (store_core_count count) s s' → Step count s s'
  unlock : Goes counted ready open_lock s s' → Step count s s'
  leave_lock : waits_for_lock s ≡ false → Goes parked ready keep s s' → Step count s s'
  join : Goes ready spinning arrive s s' → Step count s s'
  hand_off : waits_for_cores s ≡ false → Goes spinning entered keep s s' → Step count s s'

-- The boot core and the `others`, before any of this.
abbrev pub start : ℕ → Sync
start others = record {
  ap_init_lock = 0;
  running_cores = 0;
  core_count = 0;
  cores = preparing ∷ replicate others parked;
}

pub data Reach (others : ℕ) : Sync → Type 0 where
  here : Reach others (start others)
  next : (s s' : Sync) → Reach others s → Step (suc others) s s' → Reach others s'
