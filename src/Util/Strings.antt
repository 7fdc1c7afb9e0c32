-- ===== src/Util/Strings.antt =====
-- util/string.c: copying and searching in a memory of bytes. A loop over a C string takes fuel, which
-- is enough when it is more than the number of bytes before the NUL.
pub mod Copy
mod Tests
use huster_experiment_pke.Base.{
  ℕ, zero, suc, ◌+◌, ◌-◌, ◌*◌, ◌/◌, ◌%◌, ◌^◌, Bool, true, false, not, ◌&&◌, ◌||◌, List, [], ◌∷◌,
  Option, none, some, arith, ltb, leb, ◌==◌, if◌then◌else◌,
}
use huster_experiment_pke.Base.Int.{ℤ, pos, negsuc, ◌-ℤ◌}
use huster_experiment_pke.Kernel.Process.{update}

abbrev pub Bytes : Type 0
Bytes = ℕ → ℕ

-- `*(uintptr_t *)d = *(const uintptr_t *)s`: the word is read before it is written
abbrev pub copy_word : Bytes → ℕ → ℕ → Bytes
copy_word m d s x = if leb d x && ltb x (d + 8) then m (s + (x - d)) else m x

-- the loop over words, `n` of them
unfoldable pub copy_words : ℕ → ℕ → ℕ → Bytes → Bytes
copy_words zero d s m = m
copy_words (suc n) d s m = copy_words n (d + 8) (s + 8) (copy_word m d s)

-- the loop over bytes, upwards
unfoldable pub copy_bytes : ℕ → ℕ → ℕ → Bytes → Bytes
copy_bytes zero d s m = m
copy_bytes (suc n) d s m = copy_bytes n (d + 1) (s + 1) (update m d (m s))

-- Whole words are copied while eight bytes are left, if both addresses are multiples of 8.
unfoldable pub memcpy : ℕ → ℕ → ℕ → Bytes → Bytes
unfolding copy_words copy_bytes
memcpy dest src len m =
    let words = len / 8 in
    if (dest % 8 == 0) && (src % 8 == 0)
    then copy_bytes (len - 8 * words) (dest + 8 * words) (src + 8 * words)
        (copy_words words dest src m)
    else copy_bytes len dest src m

-- the loop of memmove that goes down from the ends `d` and `s`
unfoldable pub copy_down : ℕ → ℕ → ℕ → Bytes → Bytes
copy_down zero d s m = m
copy_down (suc n) d s m = copy_down n (d - 1) (s - 1) (update m (d - 1) (m (s - 1)))

unfoldable pub memmove : ℕ → ℕ → ℕ → Bytes → Bytes
unfolding copy_down copy_bytes
memmove dst src n m =
    if ltb src dst && ltb dst (src + n)
    then copy_down n (dst + n) (src + n) m
    else copy_bytes n dst src m

unfoldable pub strlen : ℕ → Bytes → ℕ → ℕ
strlen zero m p = 0
strlen (suc n) m p = let rest = strlen n m (p + 1) in if m p == 0 then 0 else suc rest

unfoldable pub strcmp : ℕ → Bytes → ℕ → ℕ → ℤ
strcmp zero m p q = pos 0
strcmp (suc n) m p q =
    let rest = strcmp n m (p + 1) (q + 1) in
    if not (m p == 0) && (m p == m q) then rest else pos (m p) -ℤ pos (m q)

unfoldable pub strcpy : ℕ → ℕ → ℕ → Bytes → Bytes
strcpy zero d s m = m
strcpy (suc n) d s m =
    let rest = strcpy n (d + 1) (s + 1) (update m d (m s)) in
    if m s == 0 then update m d 0 else rest

-- the address of the first byte `ch`, or NULL
unfoldable pub strchr : ℕ → Bytes → ℕ → ℕ → Option ℕ
strchr zero m p ch = none
strchr (suc n) m p ch =
    let rest = strchr n m (p + 1) ch in
    if m p == ch then some p else (if m p == 0 then none else rest)

unfoldable pub safe_copy : ℕ → ℕ → ℕ → Bytes → Bytes
safe_copy zero s t m = update m s 0
safe_copy (suc n) s t m =
    let m' = update m s (m t) in
    let rest = safe_copy n (s + 1) (t + 1) m' in if m t == 0 then update m' (s + 1) 0 else rest

-- At most `n` bytes are written, the last of them NUL; for a string that fits, the code writes a
-- second NUL behind the first.
unfoldable pub safestrcpy : ℕ → ℕ → ℕ → Bytes → Bytes
unfolding safe_copy
safestrcpy s t n m = if n == 0 then m else safe_copy (n - 1) s t m
