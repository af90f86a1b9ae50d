-- ===== src/Ptm/Chunks.antt =====
-- How `ptm_map` and `ptm_map_at` (pre_kernel/src/arch/x86_64/ptm.c) cut a mapping into pages.
use native.Mathlib.Decide.{dec_lt}
use lunar_prekernel.Base.{
  zero, suc, ℕ, ◌+◌, ◌-◌, ◌%◌, ◌≤◌, ◌<◌, ◌≡◌, refl, inl, inr, Bool, true, ◌&&◌, List, [], ◌∷◌, leb,
  ◌==◌, arith, Outcome, ok, ◌>>=◌, Bool-cases, u64_mod, suc, not, ltb, bit_and, sub64, sub64-eq-sub,
  add64, add64-eq-add, ◌*◌, ◌/◌, ◌||◌, false, ◌∙◌, bind_same, subst,
}
use lunar_prekernel.Pmm.Alloc.{page}
use lunar_prekernel.Ptm.{
  PageSize, size_4k, size_2m, size_1g, page_bytes, Machine, map_page, pick_size, map_from, Paging,
  ptm_map_at,
}

-- One call of `map_page`
pub record Chunk : Type 0 where
  pub vaddr : ℕ
  pub paddr : ℕ
  pub size : PageSize

-- The calls of `map_page` for a list of pages, one after another
unfoldable pub map_all : ℕ → ℕ → Bool → Bool → List Chunk → Machine → Outcome Machine
map_all cr3 level_count writable nx [] s = ok s
map_all cr3 level_count writable nx (c ∷ cs) s =
    map_page cr3 level_count c.vaddr c.paddr c.size writable nx s >>= λ s'.
    map_all cr3 level_count writable nx cs s'

-- The processor supports pages of the size.
abbrev pub Supported : Bool → PageSize → Type 0
Supported pdpe1gb size_4k = Unit
Supported pdpe1gb size_2m = Unit
Supported pdpe1gb size_1g = pdpe1gb ≡ true

-- The pages follow one another from both addresses on and make up the length, each aligned to its
-- size at both addresses.
abbrev pub Tiles : Bool → ℕ → ℕ → ℕ → List Chunk → Type 0
Tiles pdpe1gb vaddr paddr length [] = length ≡ 0
Tiles pdpe1gb vaddr paddr length (c ∷ cs) =
    (c.vaddr ≡ vaddr)
    × (c.paddr ≡ paddr)
    × Supported pdpe1gb c.size
    × (vaddr % page_bytes c.size ≡ 0)
    × (paddr % page_bytes c.size ≡ 0)
    × (page_bytes c.size ≤ length)
    × Tiles pdpe1gb (vaddr + page_bytes c.size) (paddr + page_bytes c.size)
        (length - page_bytes c.size) cs

-- The next page fits, and what is left behind it is made up of whole pages.
abbrev Fitting : Bool → ℕ → ℕ → ℕ → PageSize → Type 0
Fitting pdpe1gb vaddr paddr left size =
    Supported pdpe1gb size
    × (vaddr % page_bytes size ≡ 0)
    × (paddr % page_bytes size ≡ 0)
    × (page_bytes size ≤ left)
    × (page_bytes size % page ≡ 0)
    × (0 < page_bytes size)

pick_size-Fitting :
    (pdpe1gb : Bool) (vaddr paddr left : ℕ)
    → vaddr % page ≡ 0
    → paddr % page ≡ 0
    → left % page ≡ 0
    → 0 < left
    → Fitting pdpe1gb vaddr paddr left (pick_size pdpe1gb vaddr paddr left)
unfolding pick_size
pick_size-Fitting pdpe1gb vaddr paddr left v p l pos =
    elim (Bool-cases
      (pdpe1gb && (paddr % 1073741824 == 0 && vaddr % 1073741824 == 0 && leb 1073741824 left))) [
        | inl giant ↦
            rw giant (ground arith, ground arith, ground arith, ground arith, refl, omega arith)
        | inr not_giant ↦
            elim (Bool-cases (paddr % 2097152 == 0 && vaddr % 2097152 == 0 && leb 2097152 left)) [
              | inl large ↦
                  rw (not_giant, large)
                    (tt, ground arith, ground arith, ground arith, refl, omega arith)
              | inr not_large ↦ rw (not_giant, not_large) (tt, v, p, omega arith, refl, omega arith)
            ]
      ]

-- What the loop does is the calls of `map_page` for a list of pages that tiles the rest.
abbrev Chunked : ℕ → Bool → ℕ → ℕ → ℕ → ℕ → ℕ → ℕ → Bool → Bool → Type 0
Chunked fuel pdpe1gb cr3 level_count vaddr paddr offset length writable nx =
    (cs : List Chunk) × Tiles pdpe1gb vaddr paddr (length - offset) cs
    × ((s : Machine)
        → map_from fuel pdpe1gb cr3 level_count vaddr paddr offset length writable nx s
          ≡ map_all cr3 level_count writable nx cs s)

module _ (pdpe1gb : Bool) (cr3 level_count length : ℕ) (writable nx : Bool)
    (whole : length % page ≡ 0) (fits : length < u64_mod) where
  map_from_step :
      (fuel vaddr paddr offset : ℕ) (s : Machine)
      → offset < length
      → vaddr + (length - offset) < u64_mod
      → paddr + (length - offset) < u64_mod
      → (size : PageSize) → pick_size pdpe1gb vaddr paddr (length - offset) ≡ size
      → page_bytes size ≤ length - offset
      → map_from (suc fuel) pdpe1gb cr3 level_count vaddr paddr offset length writable nx s ≡ (
          map_page cr3 level_count vaddr paddr size writable nx s >>= λ s'.
          map_from fuel pdpe1gb cr3 level_count
            (vaddr + page_bytes size)
            (paddr + page_bytes size)
            (offset + page_bytes size)
            length
            writable
            nx
            s')
  unfolding map_from
  map_from_step fuel vaddr paddr offset s more v_fits p_fits size picked small =
      let test : ltb offset length ≡ true = ground arith in
      let left : sub64 length offset ≡ length - offset =
        sub64-eq-sub length offset (omega arith) fits in
      let v : add64 vaddr (page_bytes size) ≡ vaddr + page_bytes size =
        add64-eq-add _ _ (omega arith) in
      let p : add64 paddr (page_bytes size) ≡ paddr + page_bytes size =
        add64-eq-add _ _ (omega arith) in
      let o : add64 offset (page_bytes size) ≡ offset + page_bytes size =
        add64-eq-add _ _ (omega arith) in
      rw (test, left, picked, v, p, o, map_from)

  -- One page in front of what the rest of the loop does.
  Chunked-step :
      (fuel vaddr paddr offset : ℕ) (size : PageSize)
      → offset < length
      → vaddr + (length - offset) < u64_mod
      → paddr + (length - offset) < u64_mod
      → pick_size pdpe1gb vaddr paddr (length - offset) ≡ size
      → Fitting pdpe1gb vaddr paddr (length - offset) size
      → Chunked fuel pdpe1gb cr3 level_count
          (vaddr + page_bytes size)
          (paddr + page_bytes size)
          (offset + page_bytes size)
          length
          writable
          nx
      → Chunked (suc fuel) pdpe1gb cr3 level_count vaddr paddr offset length writable nx
  unfolding map_all
  Chunked-step fuel vaddr paddr offset size more v_fits p_fits picked f (cs, tiles, same) =
      let rest : length - (offset + page_bytes size) ≡ length - offset - page_bytes size =
        omega arith in
      (
        record { vaddr = vaddr; paddr = paddr; size = size } ∷ cs,
        (
          refl,
          refl,
          f.0,
          f.1,
          f.2,
          f.3,
          subst (λ n. Tiles pdpe1gb (vaddr + page_bytes size) (paddr + page_bytes size) n cs) rest
              tiles,
        ),
        λ s.
            map_from_step fuel vaddr paddr offset s more v_fits p_fits size picked f.3
            ∙ bind_same (map_page cr3 level_count vaddr paddr size writable nx s) _ _ same,
      )

  map_from_lem :
      (fuel vaddr paddr offset : ℕ)
      → offset ≤ length
      → length - offset < fuel * page
      → vaddr % page ≡ 0
      → paddr % page ≡ 0
      → offset % page ≡ 0
      → vaddr + (length - offset) < u64_mod
      → paddr + (length - offset) < u64_mod
      → Chunked fuel pdpe1gb cr3 level_count vaddr paddr offset length writable nx
  unfolding map_from map_all
  map_from_lem zero vaddr paddr offset low enough v p o v_fits p_fits = absurd (omega arith)
  map_from_lem (suc fuel) vaddr paddr offset low enough v p o v_fits p_fits =
      elim (dec_lt offset length) [
        | no q ↦ (
          [],
          omega arith,
          λ s. let done : ltb offset length ≡ false = ground arith in rw (done, map_from),
        )
        | yes q ↦
            let size = pick_size pdpe1gb vaddr paddr (length - offset) in
            let f =
              pick_size-Fitting pdpe1gb vaddr paddr (length - offset) v p (omega arith)
                (omega arith) in
            Chunked-step fuel vaddr paddr offset size q v_fits p_fits refl f (
              map_from_lem fuel (vaddr + page_bytes size) (paddr + page_bytes size)
                (offset + page_bytes size) (omega (arith, f.3)) (omega (arith, f.3, f.4, f.5))
                (omega (arith, f.4)) (omega (arith, f.4)) (omega (arith, f.4)) (omega (arith, f.3))
                (omega (arith, f.3)))
      ]

-- The calls of `map_page` that a call of `ptm_map_at` comes to.
abbrev pub MapsBy : Paging → ℕ → ℕ → ℕ → ℕ → ℕ → ℕ → List Chunk → Type 0
MapsBy g cr3 level_count vaddr paddr length flags cs =
    (s : Machine)
    → ptm_map_at g cr3 level_count vaddr paddr length flags s
      ≡ map_all cr3 level_count (not (bit_and flags 2 == 0)) (g.nx_support && bit_and flags 1 == 0)
          cs s

-- `ptm_map_at` of whole pages at page boundaries, where neither range reaches the end of the address
-- space, is a sequence of calls of `map_page`, the same in every state: its pages, of sizes that the
-- processor supports and each aligned to its size at both addresses, follow one another and make up
-- the length.
pub ptm_map_at_lem :
    (g : Paging) (cr3 level_count vaddr paddr length flags : ℕ)
    → vaddr % page ≡ 0
    → paddr % page ≡ 0
    → length % page ≡ 0
    → vaddr + length < u64_mod
    → paddr + length < u64_mod
    → (cs : List Chunk) × Tiles g.pdpe1gb_support vaddr paddr length cs
      × MapsBy g cr3 level_count vaddr paddr length flags cs
unfolding ptm_map_at
ptm_map_at_lem g cr3 level_count vaddr paddr length flags v p l v_fits p_fits =
    let (cs, tiles, same) =
      map_from_lem g.pdpe1gb_support cr3 level_count length (not (bit_and flags 2 == 0))
        (g.nx_support && bit_and flags 1 == 0) l (omega arith) (suc (length / page)) vaddr paddr 0
        (omega arith) (omega arith) v p refl (omega arith) (omega arith) in
    let aligned : (not (paddr % page == 0) || not (vaddr % page == 0) || not (length % page == 0))
        ≡ false =
      ground arith in
    let all_left : length - 0 ≡ length = omega arith in
    (cs, rw all_left at tiles, λ s. rw aligned (same s))
