-- ===== src/Boot/Block.antt =====
-- The boot info block of pre_kernel/src/boot/limine.c and pre_kernel/src/boot/tartarus.c is large enough
-- for what is written behind the boot info.
use lunar_prekernel.Boot.{
  add_names, boot_info_block_size, skip_framebuffers, skip_module, store_name,
}
use lunar_prekernel.Boot.Limine.{limine_modules, file_names, LimineFile}
use lunar_prekernel.Base.{
  ℕ, zero, suc, ◌+◌, ◌*◌, ◌/◌, ◌%◌, ◌≤◌, ◌<◌, ◌≡◌, ap, ◌∙◌, some, List, [], ◌∷◌, arith, length,
  u64_mod, add64, mul64, add64-eq-add, mul64-eq-mul, ok, bind_ok, subst,
}
use lunar_prekernel.Bootinfo.{module_size, framebuffer_size, Module, World}
use lunar_prekernel.Pmm.Alloc.{page, pmm_alloc}
use lunar_prekernel.Math.Align.{math_ceil_lem}
use lunar_prekernel.Math.Masks.{math_align_up_lem}
use lunar_prekernel.Math.{math_align_up}
use lunar_prekernel.Mem.{memcpy, Memory}
use lunar_prekernel.Boot.Tartarus.{tartarus_modules, TartarusModule, module_names}

-- What the modules take up: a record and a name with its 0 each.
abbrev pub module_bytes : List (List ℕ) → ℕ
module_bytes [] = 0
module_bytes (name ∷ names) = module_size + length name + 1 + module_bytes names

-- What is written in all.
abbrev pub block_bytes : ℕ → ℕ → List (List ℕ) → ℕ
block_bytes bootinfo_size framebuffers names =
    bootinfo_size + framebuffer_size * framebuffers + module_bytes names

-- What the names take up.
abbrev name_bytes : List (List ℕ) → ℕ
name_bytes [] = 0
name_bytes (name ∷ names) = length name + 1 + name_bytes names

module_bytes-split :
    (names : List (List ℕ)) → module_bytes names ≡ module_size * length names + name_bytes names
module_bytes-split [] = omega arith
module_bytes-split (name ∷ names) = omega (arith, module_bytes-split names)

add_names_lem :
    (names : List (List ℕ)) (size : ℕ)
    → size + name_bytes names < u64_mod
    → add_names names size ≡ size + name_bytes names
unfolding add_names
add_names_lem [] size fits = omega arith
add_names_lem (name ∷ names) size fits =
    let e : add64 size (add64 (length name) 1) ≡ size + (length name + 1) =
      ap (add64 size) (add64-eq-add (length name) 1 (omega arith))
      ∙ add64-eq-add size (length name + 1) (omega arith) in
    rw e (omega (arith, add_names_lem names (size + (length name + 1)) (omega arith)))

-- The block holds all that is written.
block_size_lem :
    (bootinfo_size count : ℕ) (names : List (List ℕ))
    → block_bytes bootinfo_size count names + page ≤ u64_mod
    → (block_bytes bootinfo_size count names
        ≤ boot_info_block_size bootinfo_size (some count) names)
      × (boot_info_block_size bootinfo_size (some count) names % page ≡ 0)
unfolding boot_info_block_size
block_size_lem bootinfo_size count names fits =
    let split = module_bytes-split names in
    let total = block_bytes bootinfo_size count names in
    let e : add_names names (
          add64 (add64 bootinfo_size (mul64 framebuffer_size count))
            (mul64 module_size (length names)))
        ≡ total =
      ap (λ k. add_names names (add64 (add64 bootinfo_size k) (mul64 module_size (length names))))
        (mul64-eq-mul framebuffer_size count (omega arith))
      ∙ ap (λ k. add_names names (add64 (add64 bootinfo_size (framebuffer_size * count)) k))
          (mul64-eq-mul module_size (length names) (omega (arith, split)))
      ∙ ap (λ k. add_names names (add64 k (module_size * length names)))
          (add64-eq-add bootinfo_size (framebuffer_size * count) (omega arith))
      ∙ ap (add_names names) (
          add64-eq-add (bootinfo_size + framebuffer_size * count) (module_size * length names)
            (omega (arith, split)))
      ∙ add_names_lem names (bootinfo_size + framebuffer_size * count + module_size * length names)
          (omega (arith, split))
      ∙ omega (arith, split) in
    let high = math_ceil_lem total page (omega arith) fits in
    rw (e, math_align_up_lem 12 (omega arith) total fits) (high.0, high.2)

skip_framebuffers_lem :
    (k pointer : ℕ)
    → pointer + framebuffer_size * k < u64_mod
    → skip_framebuffers k pointer ≡ pointer + framebuffer_size * k
unfolding skip_framebuffers
skip_framebuffers_lem zero pointer fits = omega arith
skip_framebuffers_lem (suc k) pointer fits =
    rw (add64-eq-add pointer framebuffer_size (omega arith))
      (skip_framebuffers_lem k (pointer + framebuffer_size) (omega arith) ∙ omega arith)

skip_module_lem :
    (name : List ℕ) (pointer : ℕ)
    → pointer + (module_size + length name + 1) < u64_mod
    → skip_module name pointer ≡ pointer + (module_size + length name + 1)
unfolding skip_module
skip_module_lem name pointer fits =
    ap (λ k. add64 pointer (add64 k 1)) (add64-eq-add module_size (length name) (omega arith))
    ∙ ap (add64 pointer) (add64-eq-add (module_size + length name) 1 (omega arith))
    ∙ add64-eq-add pointer (module_size + length name + 1) (omega arith)

-- The records stand in turn from an address up to another one, with the room for a name and its 0 right
-- behind each of them, where the record leads to, and the next record starts behind that room.
abbrev pub Within : ℕ → ℕ → List (List ℕ) → List (ℕ × Module) → Type 0
Within start end [] [] = start ≤ end
Within start end (name ∷ names) ((at, item) ∷ rest) =
    (start ≤ at)
    × (item.name ≡ at + module_size)
    × Within (at + module_size + length name + 1) end names rest
Within start end _ _ = ⊥

Within-start :
    (start start' end : ℕ) (names : List (List ℕ)) (modules : List (ℕ × Module))
    → start ≡ start'
    → Within start end names modules
    → Within start' end names modules
Within-start start start' end names modules same w = subst (λ x. Within x end names modules) same w

limine_modules_end :
    (hhdm_offset : ℕ) (fs : List LimineFile) (pointer : ℕ) (w : World) (modules : List (ℕ × Module))
    (last : ℕ) (w' : World)
    → pointer + module_bytes (file_names fs) < u64_mod
    → limine_modules hhdm_offset fs pointer w ≡ ok (modules, (last, w'))
    → (last ≡ pointer + module_bytes (file_names fs)) × Within pointer last (file_names fs) modules
unfolding limine_modules file_names
limine_modules_end hhdm_offset [] pointer w modules last w' fits e =
    let same : ([], (pointer, w)) ≡ (modules, (last, w')) = cc e in
    let none_left : [] ≡ modules = ap (λ (x : List (ℕ × Module) × (ℕ × World)). x.0) same in
    let here : pointer ≡ last = ap (λ (x : List (ℕ × Module) × (ℕ × World)). x.1.0) same in
    rw (← none_left) (omega arith, omega arith)
limine_modules_end hhdm_offset (f ∷ fs) pointer w modules last w' fits e =
    let name = add64 pointer module_size in
    let ((phys, m), _, e₁) =
      bind_ok (pmm_alloc (math_align_up f.size page / page) w.machine.pmm) _ (modules, (last, w'))
        e in
    let copied =
      memcpy (add64 phys hhdm_offset) f.address f.size (store_name name f.path w.bytes) in
    let w₁ : World = record { machine = record (w.machine) { pmm = m }; bytes = copied } in
    let head : ℕ × Module = (pointer, record { name = name; phys_addr = phys; size = f.size }) in
    let ((rest, (last', w₂)), e₂, e₃) =
      bind_ok (limine_modules hhdm_offset fs (skip_module f.path pointer) w₁) _
        (modules, (last, w')) e₁ in
    let same : (head ∷ rest, (last', w₂)) ≡ (modules, (last, w')) = cc e₃ in
    let all : head ∷ rest ≡ modules = ap (λ (x : List (ℕ × Module) × (ℕ × World)). x.0) same in
    let end : last' ≡ last = ap (λ (x : List (ℕ × Module) × (ℕ × World)). x.1.0) same in
    let on = skip_module_lem f.path pointer (omega arith) in
    let (stop, records) =
      limine_modules_end hhdm_offset fs (skip_module f.path pointer) w₁ rest last' w₂
        (omega (arith, on)) e₂ in
    rw (← all) (
      omega (arith, end, stop, on),
      (
        omega arith,
        add64-eq-add pointer module_size (omega arith),
        Within-start (skip_module f.path pointer) (pointer + module_size + length f.path + 1) last
            (file_names fs) rest (omega (arith, on)) (rw end at records),
      ),
    )

-- The pointer behind the framebuffers, and how far the block reaches.
block_room :
    (at bootinfo_size count : ℕ) (names : List (List ℕ))
    → at + block_bytes bootinfo_size count names + page ≤ u64_mod
    → (skip_framebuffers count (add64 at bootinfo_size)
        ≡ at + bootinfo_size + framebuffer_size * count)
      × (at + block_bytes bootinfo_size count names
          ≤ at + boot_info_block_size bootinfo_size (some count) names)
block_room at bootinfo_size count names fits =
    let size = block_size_lem bootinfo_size count names (omega arith) in
    (
      ap (skip_framebuffers count) (add64-eq-add at bootinfo_size (omega arith))
          ∙ skip_framebuffers_lem count (at + bootinfo_size) (omega arith),
      omega (arith, size),
    )

-- What `prekernel_entry_limine` writes behind the boot info, in a block that ends a page before the end
-- of the address space: the modules' records stand behind the framebuffers, each followed by the room
-- for its name with a 0, where it leads to; no record lies over another or over the room of a name, and
-- all of it ends within the block that was allocated.
pub limine_modules-Within :
    (at bootinfo_size count hhdm_offset : ℕ) (fs : List LimineFile) (w : World)
    (modules : List (ℕ × Module)) (last : ℕ) (w' : World)
    → at + block_bytes bootinfo_size count (file_names fs) + page ≤ u64_mod
    → limine_modules hhdm_offset fs (skip_framebuffers count (add64 at bootinfo_size)) w
      ≡ ok (modules, (last, w'))
    → Within (at + bootinfo_size + framebuffer_size * count) last (file_names fs) modules
      × (last ≤ at + boot_info_block_size bootinfo_size (some count) (file_names fs))
limine_modules-Within at bootinfo_size count hhdm_offset fs w modules last w' fits e =
    let (first, room) = block_room at bootinfo_size count (file_names fs) fits in
    let (stop, records) =
      limine_modules_end hhdm_offset fs (at + bootinfo_size + framebuffer_size * count) w modules
        last w' (omega arith) (rw first at e) in
    (records, omega (arith, stop, room))

tartarus_modules_end :
    (ts : List TartarusModule) (pointer : ℕ) (m : Memory)
    → pointer + module_bytes (module_names ts) < u64_mod
    → ((tartarus_modules ts pointer m).1.0 ≡ pointer + module_bytes (module_names ts))
      × Within pointer
          (pointer + module_bytes (module_names ts))
          (module_names ts)
          (tartarus_modules ts pointer m).0
unfolding tartarus_modules module_names
tartarus_modules_end [] pointer m fits = (omega arith, omega arith)
tartarus_modules_end (t ∷ ts) pointer m fits =
    let on = skip_module_lem t.name pointer (omega arith) in
    let named = store_name (add64 pointer module_size) t.name m in
    let next = skip_module t.name pointer in
    let (stop, records) = tartarus_modules_end ts next named (omega (arith, on)) in
    let last : next + module_bytes (module_names ts)
        ≡ pointer + module_bytes (module_names (t ∷ ts)) =
      omega (arith, on) in
    (
      stop ∙ last,
      (
        omega arith,
        add64-eq-add pointer module_size (omega arith),
        subst
            (λ x.
              Within (pointer + module_size + length t.name + 1) x (module_names ts)
                (tartarus_modules ts next named).0)
            last
            (Within-start next (pointer + module_size + length t.name + 1)
              (next + module_bytes (module_names ts)) (module_names ts)
              (tartarus_modules ts next named).0 (omega (arith, on)) records),
      ),
    )

-- What `prekernel_entry_tartarus` writes behind the boot info, in a block that ends a page before the
-- end of the address space: the modules' records stand behind the framebuffers, each followed by the
-- room for its name with a 0, where it leads to; no record lies over another or over the room of a
-- name, and all of it ends within the block that was allocated.
pub tartarus_modules-Within :
    (at bootinfo_size count : ℕ) (ts : List TartarusModule) (m : Memory)
    → at + block_bytes bootinfo_size count (module_names ts) + page ≤ u64_mod
    → (let out = tartarus_modules ts (skip_framebuffers count (add64 at bootinfo_size)) m in
        Within (at + bootinfo_size + framebuffer_size * count) out.1.0 (module_names ts) out.0
        × (out.1.0 ≤ at + boot_info_block_size bootinfo_size (some count) (module_names ts)))
tartarus_modules-Within at bootinfo_size count ts m fits =
    let (first, room) = block_room at bootinfo_size count (module_names ts) fits in
    let (stop, records) =
      tartarus_modules_end ts (at + bootinfo_size + framebuffer_size * count) m (omega arith) in
    rw (first, stop) (records, omega (arith, room))
