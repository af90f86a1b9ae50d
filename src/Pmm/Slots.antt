-- ===== src/Pmm/Slots.antt =====
-- The accesses of pre_kernel/src/memory/pmm.c to the array `g_pmm_map`, for an array that is cut
-- into the entries in use and the stale slots behind them: reads, writes, and the shifting loops.
use lunar_prekernel.Base.{
  ℕ, zero, suc, ◌-◌, ◌≤◌, ◌<◌, ◌≡◌, refl, ap, List, [], ◌∷◌, ◌++◌, append_assoc, arith, length, set,
  length-append, get_elem?-middle, set-middle, ok, add64-eq-add, sub64-eq-sub,
}
use lunar_prekernel.Pmm.{
  Entry, PmmMap, load, store, copy_slot, shift_up, shift_down, map_insert, map_delete,
  pmm_map_max_entries,
}

-- The map with the entries `live` in use and the slots `stale` behind them.
abbrev pub holding : List Entry → List Entry → PmmMap
holding live stale = record { slots = live ++ stale; size = length live }

-- The last of a list with a first element.
abbrev pub last_of : Entry → List Entry → Entry
last_of e [] = e
last_of e (x ∷ xs) = last_of x xs

pub length-middle :
    (pre : List Entry) (e v : Entry) (post : List Entry)
    → length (pre ++ (e ∷ post)) ≡ length (pre ++ (v ∷ post))
length-middle [] e v post = refl
length-middle (x ∷ pre) e v post = ap suc (length-middle pre e v post)

module _ (pre : List Entry) (e : Entry) (post stale : List Entry) where
  pub load-holding : load (holding (pre ++ (e ∷ post)) stale) (length pre) ≡ ok e
  unfolding load
  load-holding = rw (append_assoc, get_elem?-middle pre e (post ++ stale), load)

  pub store-holding :
      (v : Entry)
      → store (holding (pre ++ (e ∷ post)) stale) (length pre) v ≡ holding (pre ++ (v ∷ post)) stale
  unfolding store
  store-holding v = rw (append_assoc, set-middle, append_assoc, length-middle pre v e post)

-- The slot behind the entries in use.
pub load_behind :
    (live : List Entry) (s : Entry) (stale : List Entry)
    → load (holding live (s ∷ stale)) (length live) ≡ ok s
unfolding load
load_behind live s stale = rw (get_elem?-middle live s stale, load)

copy_slot_cons :
    (x : Entry) (a : List Entry) (i j : ℕ) → copy_slot (x ∷ a) (suc i) (suc j) ≡ x ∷ copy_slot a i j
unfolding copy_slot
copy_slot_cons x a i j = ground arith

shift_up_cons :
    (x : Entry) (n j : ℕ) (a : List Entry) → shift_up (suc n) (suc j) (x ∷ a) ≡ x ∷ shift_up n j a
unfolding shift_up
shift_up_cons x zero j a = ground arith
shift_up_cons x (suc n) j a =
    ground (arith, copy_slot_cons x a (suc n) n, shift_up_cons x n j (copy_slot a (suc n) n))

shift_up_first :
    (x : Entry) (n : ℕ) (a : List Entry) → shift_up (suc n) 0 (x ∷ a) ≡ x ∷ set (shift_up n 0 a) 0 x
unfolding shift_up copy_slot
shift_up_first x zero a = ground arith
shift_up_first x (suc n) a =
    ground (arith, copy_slot_cons x a (suc n) n, shift_up_first x n (copy_slot a (suc n) n))

-- Shifted up by one, an array takes the new element in front.
shift_up_front :
    (ys : List Entry) (s e : Entry) (zs : List Entry)
    → set (shift_up (length ys) 0 (ys ++ (s ∷ zs))) 0 e ≡ e ∷ ys ++ zs
unfolding shift_up
shift_up_front [] s e zs = refl
shift_up_front (y ∷ ys) s e zs =
    rw (shift_up_first y (length ys) (ys ++ (s ∷ zs)), shift_up_front ys s y zs)

shift_up_middle :
    (xs ys : List Entry) (s e : Entry) (zs : List Entry)
    → set (shift_up (length (xs ++ ys)) (length xs) (xs ++ ys ++ (s ∷ zs))) (length xs) e
      ≡ xs ++ (e ∷ ys ++ zs)
shift_up_middle [] ys s e zs = shift_up_front ys s e zs
shift_up_middle (x ∷ xs) ys s e zs =
    rw (shift_up_cons x (length (xs ++ ys)) (length xs) (xs ++ ys ++ (s ∷ zs)))
      (ap (◌∷◌ x) (shift_up_middle xs ys s e zs))

module _ (pre post : List Entry) (s v : Entry) (stale : List Entry) where
  -- With a free slot, `map_insert` puts the entry at its index and keeps the others in order.
  pub map_insert-holding :
      length (pre ++ post) < pmm_map_max_entries
      → map_insert (holding (pre ++ post) (s ∷ stale)) (length pre) v
        ≡ ok (holding (pre ++ (v ∷ post)) stale)
  unfolding map_insert
  map_insert-holding h = ground (
    arith,
    shift_up_middle pre post s v stale,
    append_assoc pre (v ∷ post) stale,
    length-append pre post,
    length-append pre (v ∷ post),
    add64-eq-add (length (pre ++ post)) 1,
  )

shift_down_cons :
    (x : Entry) (n j : ℕ) (a : List Entry) → shift_down n (suc j) (x ∷ a) ≡ x ∷ shift_down n j a
unfolding shift_down
shift_down_cons x zero j a = refl
shift_down_cons x (suc n) j a =
    rw (copy_slot_cons x a j (suc j)) (shift_down_cons x n (suc j) (copy_slot a j (suc j)))

shift_down_front :
    (e : Entry) (post stale : List Entry)
    → shift_down (length post) 0 (e ∷ post ++ stale) ≡ post ++ (last_of e post ∷ stale)
unfolding shift_down copy_slot
shift_down_front e [] stale = refl
shift_down_front e (x ∷ post) stale =
    rw (shift_down_cons x (length post) 0 (x ∷ post ++ stale))
      (ap (◌∷◌ x) (shift_down_front x post stale))

shift_down_middle :
    (pre : List Entry) (e : Entry) (post stale : List Entry)
    → shift_down (length post) (length pre) (pre ++ (e ∷ post) ++ stale)
      ≡ pre ++ post ++ (last_of e post ∷ stale)
shift_down_middle [] e post stale = shift_down_front e post stale
shift_down_middle (x ∷ pre) e post stale =
    rw (shift_down_cons x (length post) (length pre) (pre ++ (e ∷ post) ++ stale))
      (ap (◌∷◌ x) (shift_down_middle pre e post stale))

-- `map_delete` takes the entry out, and leaves a copy of the last one behind the others.
pub map_delete-holding :
    (pre : List Entry) (e : Entry) (post stale : List Entry)
    → length (pre ++ (e ∷ post)) ≤ pmm_map_max_entries
    → map_delete (holding (pre ++ (e ∷ post)) stale) (length pre)
      ≡ holding (pre ++ post) (last_of e post ∷ stale)
unfolding map_delete
map_delete-holding pre e post stale h =
    let rounds : length (pre ++ (e ∷ post)) - 1 - length pre ≡ length post =
      omega (arith, length-append pre (e ∷ post)) in
    let size : length (pre ++ (e ∷ post)) - 1 ≡ length (pre ++ post) =
      omega (arith, length-append pre (e ∷ post), length-append pre post) in
    rw (
      sub64-eq-sub (length (pre ++ (e ∷ post))) 1 (omega (arith, length-append pre (e ∷ post)))
          (omega arith),
      rounds,
      shift_down_middle pre e post stale,
      size,
    )
