-- ===== src/Mem.antt =====
-- The byte and string functions of pre_kernel/src/runtime/mem.c. The memory is a function from
-- addresses to bytes; a function that writes it returns the new one. A pointer is an address, and
-- what the code adds to it does not pass the end of the address space.
pub mod Copy
pub mod Match
pub mod Str
pub mod Search
pub mod Text
pub mod Fields
mod Tests
use lunar_prekernel.Base.{
  ℕ, zero, suc, ◌+◌, ◌-◌, ◌%◌, Bool, true, false, not, ◌&&◌, Option, none, some, ltb, ◌==◌,
  if◌then◌else◌, Outcome, ok, out_of_fuel, ◌>>=◌,
}

-- The bytes at all addresses.
abbrev pub Memory : Type 0
Memory = ℕ → ℕ

-- `*(uint8_t*) at = byte`
unfoldable pub write : Memory → ℕ → ℕ → Memory
write m at byte x = if x == at then byte else m x

-- A C `int`, as far as the comparisons return one.
pub data ℤ : Type 0 where
  pos : ℕ → ℤ
  negsuc : ℕ → ℤ

-- `a - b` of two bytes
unfoldable pub byte_difference : ℕ → ℕ → ℤ
byte_difference a b = if ltb a b then negsuc (b - a - 1) else pos (a - b)

-- The loops take the rounds left and the index.
unfoldable pub fill_up : ℕ → ℕ → ℕ → ℕ → Memory → Memory
fill_up zero i dest ch m = m
fill_up (suc k) i dest ch m = fill_up k (suc i) dest ch (write m (dest + i) (ch % 256))

unfoldable pub memset : ℕ → ℕ → ℕ → Memory → Memory
memset dest ch count m = fill_up count 0 dest ch m

unfoldable pub copy_up : ℕ → ℕ → ℕ → ℕ → Memory → Memory
copy_up zero i dest src m = m
copy_up (suc k) i dest src m = copy_up k (suc i) dest src (write m (dest + i) (m (src + i)))

unfoldable pub copy_down : ℕ → ℕ → ℕ → Memory → Memory
copy_down zero dest src m = m
copy_down (suc i) dest src m = copy_down i dest src (write m (dest + i) (m (src + i)))

unfoldable pub memcpy : ℕ → ℕ → ℕ → Memory → Memory
memcpy dest src count m = copy_up count 0 dest src m

unfoldable pub memmove : ℕ → ℕ → ℕ → Memory → Memory
memmove dest src count m =
    if src == dest
    then m
    else if ltb dest src
    then copy_up count 0 dest src m
    else copy_down count dest src m

unfoldable pub compare_from : ℕ → ℕ → ℕ → ℕ → Memory → ℤ
compare_from zero i lhs rhs m = pos 0
compare_from (suc k) i lhs rhs m =
    let rest = compare_from k (suc i) lhs rhs m in
    if ltb (m (rhs + i)) (m (lhs + i))
    then negsuc 0
    else if ltb (m (lhs + i)) (m (rhs + i))
    then pos 1
    else rest

unfoldable pub memcmp : ℕ → ℕ → ℕ → Memory → ℤ
memcmp lhs rhs count m = compare_from count 0 lhs rhs m

unfoldable pub find_byte : ℕ → ℕ → ℕ → ℕ → Memory → Option ℕ
find_byte zero i s c m = none
find_byte (suc k) i s c m =
    let rest = find_byte k (suc i) s c m in if m (s + i) == c % 256 then some (s + i) else rest

unfoldable pub memchr : ℕ → ℕ → ℕ → Memory → Option ℕ
memchr s c n m = find_byte n 0 s c m

-- The strings end with a 0 byte; their loops run on fuel, one unit for a byte.
unfoldable pub strlen_from : ℕ → ℕ → ℕ → Memory → Outcome ℕ
strlen_from zero length str m = out_of_fuel
strlen_from (suc fuel) length str m =
    let rest = strlen_from fuel (suc length) str m in
    if not (m (str + length) == 0) then rest else ok length

unfoldable pub strlen : ℕ → ℕ → Memory → Outcome ℕ
strlen fuel str m = strlen_from fuel 0 str m

unfoldable pub strnlen_from : ℕ → ℕ → ℕ → Memory → ℕ
strnlen_from zero len s m = len
strnlen_from (suc k) len s m =
    let rest = strnlen_from k (suc len) s m in if m (s + len) == 0 then len else rest

unfoldable pub strnlen : ℕ → ℕ → Memory → ℕ
strnlen s maxlen m = strnlen_from maxlen 0 s m

-- The `do` loop of `strrchr` from `s` on, with `last` before it
unfoldable pub last_from : ℕ → ℕ → ℕ → Option ℕ → Memory → Outcome (Option ℕ)
last_from zero s c last m = out_of_fuel
last_from (suc fuel) s c last m =
    let found = if m s == c % 256 then some s else last in
    let rest = last_from fuel (suc s) c found m in if not (m s == 0) then rest else ok found

unfoldable pub strrchr : ℕ → ℕ → ℕ → Memory → Outcome (Option ℕ)
strrchr fuel s c m = last_from fuel s c none m

unfoldable pub strcmp : ℕ → ℕ → ℕ → Memory → Outcome ℤ
strcmp zero s1 s2 m = out_of_fuel
strcmp (suc fuel) s1 s2 m =
    let rest = strcmp fuel (suc s1) (suc s2) m in
    if not (m s1 == 0) && m s1 == m s2 then rest else ok (byte_difference (m s1) (m s2))

-- `while(*h && *n && *h == *n) { h++; n++; }`, and then `!*n`
unfoldable pub matches : ℕ → ℕ → ℕ → Memory → Outcome Bool
matches zero h n m = out_of_fuel
matches (suc fuel) h n m =
    let rest = matches fuel (suc h) (suc n) m in
    if not (m h == 0) && not (m n == 0) && m h == m n then rest else ok (m n == 0)

-- The outer loop of `strstr`; each run of the inner one has all the fuel.
unfoldable pub strstr_from : ℕ → ℕ → ℕ → ℕ → Memory → Outcome (Option ℕ)
strstr_from zero inner haystack needle m = out_of_fuel
strstr_from (suc fuel) inner haystack needle m =
    let rest = strstr_from fuel inner (suc haystack) needle m in
    if m haystack == 0
    then ok none
    else matches inner haystack needle m >>= λ found. if found then ok (some haystack) else rest

unfoldable pub strstr : ℕ → ℕ → ℕ → Memory → Outcome (Option ℕ)
strstr fuel haystack needle m =
    if m needle == 0 then ok (some haystack) else strstr_from fuel fuel haystack needle m
