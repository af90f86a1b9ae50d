-- ===== src/X86/Cpuid.antt =====
-- What pre_kernel/src/arch/x86_64/cpuid.c and pre_kernel/include/arch/x86_64/arch/cpuid.h ask of the
-- processor. The instruction itself is an argument.
use lunar_prekernel.Base.{ℕ, ◌^◌, bit_and, Bool, not, ◌==◌}

-- `arch_cpuid_reg_t`
pub data Reg : Type 0 where
  eax ebx ecx edx : Reg

-- `arch_cpuid_feature_t`
pub record Feature : Type 0 where
  pub leaf : ℕ
  pub subleaf : ℕ
  pub reg : Reg
  pub mask : ℕ

abbrev get_features : ℕ
get_features = 0x1

abbrev get_extended_features : ℕ
get_extended_features = 0x7

abbrev extended_processor_info : ℕ
extended_processor_info = 0x8000_0001

-- `CPUID_FEATURE_DEFINE`
abbrev feature : ℕ → ℕ → Reg → ℕ → Feature
feature leaf subleaf reg bit = record { leaf = leaf; subleaf = subleaf; reg = reg; mask = 2 ^ bit }

-- The features, by the names of the table
pub data Name : Type 0 where
  x2apic la57 global_pages pdpe1gb_pages nx_pages pat fxsr xsave : Name
  osxsave avx avx512 smap smep umip fred lkgs : Name

unfoldable pub feature_of : Name → Feature
feature_of x2apic = feature get_features 0 ecx 21
feature_of la57 = feature get_extended_features 0 ecx 16
feature_of global_pages = feature get_features 0 edx 13
feature_of pdpe1gb_pages = feature extended_processor_info 0 edx 26
feature_of nx_pages = feature extended_processor_info 0 edx 20
feature_of pat = feature get_features 0 edx 16
feature_of fxsr = feature get_features 0 edx 24
feature_of xsave = feature get_features 0 ecx 26
feature_of osxsave = feature get_features 0 ecx 27
feature_of avx = feature get_features 0 ecx 28
feature_of avx512 = feature get_extended_features 0 ebx 16
feature_of smap = feature get_extended_features 0 ebx 20
feature_of smep = feature get_extended_features 0 ebx 7
feature_of umip = feature get_extended_features 0 ecx 2
feature_of fred = feature get_extended_features 1 eax 17
feature_of lkgs = feature get_extended_features 1 eax 18

unfoldable pub arch_cpuid_get_feature_value : (ℕ → ℕ → Reg → ℕ) → Feature → ℕ
arch_cpuid_get_feature_value arch_cpuid f = bit_and (arch_cpuid f.leaf f.subleaf f.reg) f.mask

unfoldable pub arch_cpuid_is_feature_supported : (ℕ → ℕ → Reg → ℕ) → Feature → Bool
arch_cpuid_is_feature_supported arch_cpuid f =
    not (bit_and (arch_cpuid f.leaf f.subleaf f.reg) f.mask == 0)
