-- ===== src/Mem/Copy.antt =====
-- What the functions of pre_kernel/src/runtime/mem.c that write memory leave in it.
use lunar_prekernel.Base.{
  ℕ, zero, suc, ◌+◌, ◌-◌, ◌%◌, ◌≤◌, ◌≡◌, ◌∙◌, ◌⊎◌, inl, true, false, ◌&&◌, leb, ltb, ◌==◌,
  if◌then◌else◌, arith,
}
use native.Mathlib.Decide.{dec_lt}
use lunar_prekernel.Mem.{Memory, write, fill_up, memset, copy_up, copy_down, memcpy, memmove}

-- The bytes of `m`, but those from `dest` on are the ones from `src` on.
abbrev pub moved : ℕ → ℕ → ℕ → Memory → ℕ → ℕ
moved dest src count m x = if leb dest x && ltb x (dest + count) then m (src + (x - dest)) else m x

write_at : (m : Memory) (at byte : ℕ) → write m at byte at ≡ byte
unfolding write
write_at m at byte = ground arith

write_off : (m : Memory) (at byte x : ℕ) → ¬ (x ≡ at) → write m at byte x ≡ m x
unfolding write
write_off m at byte x h = ground arith

fill_up_lem :
    (k i dest ch : ℕ) (m : Memory) (x : ℕ)
    → fill_up k i dest ch m x ≡ (if leb (dest + i) x && ltb x (dest + i + k) then ch % 256 else m x)
unfolding fill_up
fill_up_lem zero i dest ch m x = ground arith
fill_up_lem (suc k) i dest ch m x =
    fill_up_lem k (suc i) dest ch (write m (dest + i) (ch % 256)) x
    ∙ ground (arith, write_at m (dest + i) (ch % 256), write_off m (dest + i) (ch % 256) x)

-- `memset` puts the low byte of `ch` at each of the `count` addresses, and changes no other byte.
pub memset_lem :
    (dest ch count : ℕ) (m : Memory) (x : ℕ)
    → memset dest ch count m x ≡ (if leb dest x && ltb x (dest + count) then ch % 256 else m x)
unfolding memset
memset_lem dest ch count m x = fill_up_lem count 0 dest ch m x ∙ ground arith

-- A copy from the low end on is right where what it writes is not read later.
copy_up_lem :
    (k i dest src : ℕ) (m : Memory) (x : ℕ)
    → (dest ≤ src) ⊎ (src + k ≤ dest)
    → copy_up k i dest src m x
      ≡ (if leb (dest + i) x && ltb x (dest + i + k) then m (src + (x - dest)) else m x)
unfolding copy_up
copy_up_lem zero i dest src m x h = ground arith
copy_up_lem (suc k) i dest src m x h =
    copy_up_lem k (suc i) dest src (write m (dest + i) (m (src + i))) x (ground arith)
    ∙ elim (dec_lt x (dest + i)) [
      | yes p ↦ ground (arith, write_off m (dest + i) (m (src + i)) x)
      | no p ↦ elim (dec_lt (dest + i) x) [
        | yes q ↦ ground (
          arith,
          write_off m (dest + i) (m (src + i)) x,
          write_off m (dest + i) (m (src + i)) (src + (x - dest)),
        )
        | no q ↦
            let here : x ≡ dest + i = omega arith in
            let read : src + (x - dest) ≡ src + i = omega arith in
            rw (read, here) (ground (arith, write_at m (dest + i) (m (src + i))))
      ]
    ]

copy_down_lem :
    (k dest src : ℕ) (m : Memory) (x : ℕ)
    → src ≤ dest
    → copy_down k dest src m x ≡ moved dest src k m x
unfolding copy_down
copy_down_lem zero dest src m x h = ground arith
copy_down_lem (suc i) dest src m x h =
    copy_down_lem i dest src (write m (dest + i) (m (src + i))) x h ∙ elim (dec_lt x (dest + i)) [
      | yes p ↦ ground (
        arith,
        write_off m (dest + i) (m (src + i)) x,
        write_off m (dest + i) (m (src + i)) (src + (x - dest)),
      )
      | no p ↦ elim (dec_lt (dest + i) x) [
        | yes q ↦ ground (arith, write_off m (dest + i) (m (src + i)) x)
        | no q ↦
            let here : x ≡ dest + i = omega arith in
            let read : src + (x - dest) ≡ src + i = omega arith in
            rw (read, here) (ground (arith, write_at m (dest + i) (m (src + i))))
      ]
    ]

-- `memcpy` of ranges that do not overlap: the destination holds the bytes of the source, and no
-- other byte changes.
pub memcpy_lem :
    (dest src count : ℕ) (m : Memory) (x : ℕ)
    → (dest + count ≤ src) ⊎ (src + count ≤ dest)
    → memcpy dest src count m x ≡ moved dest src count m x
unfolding memcpy
memcpy_lem dest src count m x h = copy_up_lem count 0 dest src m x (ground arith) ∙ ground arith

-- `memmove` of any two ranges, which may overlap: the destination holds the bytes that the source
-- had, and no other byte changes.
pub memmove_lem :
    (dest src count : ℕ) (m : Memory) (x : ℕ)
    → memmove dest src count m x ≡ moved dest src count m x
unfolding memmove
memmove_lem dest src count m x = elim (dec_lt dest src) [
  | yes p ↦
      let differ : (src == dest) ≡ false = ground arith in
      let below : ltb dest src ≡ true = ground arith in
      rw (differ, below) (copy_up_lem count 0 dest src m x (inl (omega arith)) ∙ ground arith)
  | no p ↦ elim (dec_lt src dest) [
    | yes q ↦
        let differ : (src == dest) ≡ false = ground arith in
        let above : ltb dest src ≡ false = ground arith in
        rw (differ, above) (copy_down_lem count dest src m x (omega arith))
    | no q ↦
        let same : src ≡ dest = omega arith in
        let equal : (dest == dest) ≡ true = ground arith in rw (same, equal) (stay dest count m x)
  ]
]
  where
    stay : (dest count : ℕ) (m : Memory) (x : ℕ) → m x ≡ moved dest dest count m x
    stay dest count m x = elim (dec_lt x dest) [
      | yes p ↦ ground arith
      | no p ↦ let back : dest + (x - dest) ≡ x = omega arith in rw back (ground arith)
    ]
