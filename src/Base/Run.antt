-- ===== src/Base/Run.antt =====
-- What a run of the prekernel's code comes to: a value, a call of `panic` (which never returns),
-- an access outside an array or through a null pointer, or the end of the fuel of a modelled loop.
use mathlib.Core.Path.{◌≡◌, refl}

-- The calls of `panic`, one constructor for each message.
pub data Panic : Type 0 where
  memory_map_overflow out_of_memory snapshot_alloc_failed snapshot_too_big : Panic
  unaligned_mapping remap_over_large_page : Panic
  no_paging_mode invalid_target_level walked_into_leaf : Panic
  pagedb_overlaps_kernel acpi_setup_failed kernel_load_failed extentions_failed : Panic
  invalid_base_revision unsupported_base_revision unsupported_version : Panic
  invalid_memory_map_type fxsr_missing unsupported_satp_mode unsupported_mmu_type : Panic

pub data Outcome {ℓ} (A : Type ℓ) : Type ℓ where
  ok : A → Outcome A
  panic : Panic → Outcome A
  fault : Outcome A
  out_of_fuel : Outcome A

infixl 5 ◌>>=◌
abbrev pub ◌>>=◌ {ℓ κ} : {A : Type ℓ} {B : Type κ} → Outcome A → (A → Outcome B) → Outcome B
ok a >>= f = f a
panic p >>= f = panic p
fault >>= f = fault
out_of_fuel >>= f = out_of_fuel

-- Continuations that agree on every value may stand for one another.
pub bind_same {ℓ κ} :
    {A : Type ℓ} {B : Type κ} (o : Outcome A) (f g : A → Outcome B)
    → ((a : A) → f a ≡ g a)
    → (o >>= f) ≡ (o >>= g)
bind_same (ok a) f g h = h a
bind_same (panic p) f g h = refl
bind_same fault f g h = refl
bind_same out_of_fuel f g h = refl

-- A chain that gives a value has one at each step.
pub bind_ok {ℓ κ} :
    {A : Type ℓ} {B : Type κ} (o : Outcome A) (f : A → Outcome B) (b : B)
    → (o >>= f) ≡ ok b
    → (a : A) × (o ≡ ok a) × (f a ≡ ok b)
bind_ok (ok a) f b h = (a, refl, h)
bind_ok (panic p) f b h = absurd (cc)
bind_ok fault f b h = absurd (cc)
bind_ok out_of_fuel f b h = absurd (cc)
