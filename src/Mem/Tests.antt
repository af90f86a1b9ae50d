-- ===== src/Mem/Tests.antt =====
-- The functions of pre_kernel/src/runtime/mem.c on a memory with two strings: "ab" at 0, "bab" at 3.
use lunar_prekernel.Base.{
  ℕ, zero, suc, ◌+◌, ◌≤◌, ◌<◌, ◌≡◌, ◌≢◌, refl, ◌⊎◌, arith, List, [], ◌∷◌, get_elem?, none, some, ok,
}
use lunar_prekernel.Mem.{
  Memory, negsuc, byte_difference, memmove, memcmp, strcmp, strstr, compare_from, strstr_from,
  matches,
}
use lunar_prekernel.Mem.Copy.{memmove_lem}
use lunar_prekernel.Mem.Match.{Agree, Compares, memcmp_lem}
use lunar_prekernel.Mem.Str.{EndsAt, strcmp_lem}
use lunar_prekernel.Mem.Search.{Locates, strstr_lem}

abbrev byte_at : List ℕ → ℕ → ℕ
byte_at l x = elim (get_elem? l x) [ some b ↦ b | none ↦ 0 ]

abbrev text : Memory
text = byte_at (97 ∷ 98 ∷ 0 ∷ 98 ∷ 97 ∷ 98 ∷ 0 ∷ [])

ab_ends : EndsAt 0 2 text
ab_ends = (bytes, refl)
  where
    bytes : (j : ℕ) → 0 ≤ j → j < 2 → ¬ (text (0 + j) ≡ 0)
    bytes zero low high e = omega arith
    bytes (suc zero) low high e = omega arith
    bytes (suc (suc j)) low high e = omega arith

bab_ends : EndsAt 3 3 text
bab_ends = (bytes, refl)
  where
    bytes : (j : ℕ) → 0 ≤ j → j < 3 → ¬ (text (3 + j) ≡ 0)
    bytes zero low high e = omega arith
    bytes (suc zero) low high e = omega arith
    bytes (suc (suc zero)) low high e = omega arith
    bytes (suc (suc (suc j))) low high e = omega arith

memmove_lem_example : memmove 4 3 3 text 5 ≡ 97
memmove_lem_example = memmove_lem 4 3 3 text 5

memcmp_lem_example : Compares 0 3 0 2 text (memcmp 0 3 2 text)
memcmp_lem_example = memcmp_lem 0 3 2 text

memcmp_runs : memcmp 3 0 2 text ≡ negsuc 0
unfolding memcmp compare_from
memcmp_runs = refl

strcmp_lem_example :
    (i : ℕ) × (i ≤ 2)
    × Agree 0 3 0 i text
    × ((i ≡ 2) ⊎ (text (0 + i) ≢ text (3 + i)))
    × (strcmp 10 0 3 text ≡ ok (byte_difference (text (0 + i)) (text (3 + i))))
strcmp_lem_example = strcmp_lem 10 0 3 2 text (omega arith) ab_ends

strstr_lem_example : Locates 3 0 2 4 text (strstr 10 3 0 text)
strstr_lem_example = strstr_lem 10 3 0 3 2 text (omega arith) (omega arith) bab_ends ab_ends

strstr_runs : strstr 10 3 0 text ≡ ok (some 4)
unfolding strstr strstr_from matches
strstr_runs = refl
