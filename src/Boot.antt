-- ===== src/Boot.antt =====
-- The entries from the boot loaders, pre_kernel/src/boot/limine.c and pre_kernel/src/boot/tartarus.c
-- with pre_kernel/include/boot/boot.h: what the two have in common. What the loader hands over is an
-- argument, since its headers are not part of the repository; what goes to the log is left out.
pub mod Limine
pub mod Tartarus
pub mod Regions
pub mod Block
mod Tests
use lunar_prekernel.Base.{
  ℕ, Outcome, List, Option, suc, ◌∷◌, add64, length, ok, [], zero, ◌>>=◌, none, some, mul64,
}
use lunar_prekernel.Pmm.{MapType, PmmMap, pmm_map_add}
use lunar_prekernel.Mem.{Memory, write}
use lunar_prekernel.Bootinfo.{framebuffer_size, module_size}
use lunar_prekernel.Math.{math_align_up}
use lunar_prekernel.Pmm.Alloc.{page}

-- An entry of the boot loader's memory map, with the loader's type
pub record Region (T : Type 0) : Type 0 where
  pub base : ℕ
  pub length : ℕ
  pub type : T

-- The loop over the memory map, with the `switch` on the type
unfoldable pub add_regions :
    {T : Type 0} → (T → Outcome MapType) → List (Region T) → PmmMap → Outcome PmmMap
add_regions convert [] m = ok m
add_regions convert (r ∷ rs) m =
    convert r.type >>= λ t. pmm_map_add r.base r.length t m >>= λ m'. add_regions convert rs m'

-- `strlen(name) + 1` for the names of the modules, added to a size. A name is its bytes before the 0.
unfoldable pub add_names : List (List ℕ) → ℕ → ℕ
add_names [] size = size
add_names (name ∷ names) size = add_names names (add64 size (add64 (length name) 1))

-- The size of the boot info block; the first argument is `sizeof(bootinfo_t)`, and no count stands for
-- a response that is missing.
unfoldable pub boot_info_block_size : ℕ → Option ℕ → List (List ℕ) → ℕ
boot_info_block_size bootinfo_size framebuffer_count names =
    let base : ℕ = elim framebuffer_count [
      | none ↦ bootinfo_size
      | some count ↦ add64 bootinfo_size (mul64 framebuffer_size count)
    ] in
    math_align_up (add_names names (add64 base (mul64 module_size (length names)))) page

-- Where the boot info block goes on behind the framebuffers, over the rounds left
unfoldable pub skip_framebuffers : ℕ → ℕ → ℕ
skip_framebuffers zero pointer = pointer
skip_framebuffers (suc k) pointer = skip_framebuffers k (add64 pointer framebuffer_size)

-- Where it goes on behind a module
unfoldable pub skip_module : List ℕ → ℕ → ℕ
skip_module name pointer = add64 pointer (add64 (add64 module_size (length name)) 1)

-- The copy of a name with its 0
unfoldable pub store_name : ℕ → List ℕ → Memory → Memory
store_name at [] m = write m at 0
store_name at (c ∷ cs) m = store_name (suc at) cs (write m at c)
