-- ===== src/Util/Strings/Copy.antt =====
-- memcpy and memmove copy; the word loop and the byte loop agree.
use huster_experiment_pke.Base.{
  ℕ, zero, suc, ◌+◌, ◌-◌, ◌*◌, ◌/◌, ◌%◌, ◌≤◌, ◌<◌, ◌≡◌, ◌≢◌, sym, ◌∙◌, false, ◌&&◌, arith, ltb, leb,
  ◌==◌, if◌then◌else◌, Bool-cases, inl, inr, ◌⊎◌,
}
use huster_experiment_pke.Kernel.Process.{update}
use huster_experiment_pke.Util.Strings.{
  Bytes, copy_word, copy_words, copy_bytes, memcpy, copy_down, memmove, strcpy,
}

-- the memory `m` with the `n` bytes at `s` copied to `d`, all at once
abbrev pub copied : ℕ → ℕ → ℕ → Bytes → Bytes
copied d s n m x = if leb d x && ltb x (d + n) then m (s + (x - d)) else m x

-- no byte is written before it has been read by a loop that goes up
abbrev pub Upward : ℕ → ℕ → ℕ → Type 0
Upward d s n = (d ≤ s) ⊎ (s + n ≤ d)

copy_bytes-copied :
    (n d s x : ℕ) (m : Bytes) → Upward d s n → copy_bytes n d s m x ≡ copied d s n m x
unfolding copy_bytes
copy_bytes-copied zero d s x m up = ground arith
copy_bytes-copied (suc n) d s x m up =
    let next : Upward (d + 1) (s + 1) n = ground arith in
    copy_bytes-copied n (d + 1) (s + 1) x (update m d (m s)) next ∙ ground arith

copy_down-copied :
    (n d s x : ℕ) (m : Bytes) → n ≤ s → s ≤ d → copy_down n d s m x ≡ copied (d - n) (s - n) n m x
unfolding copy_down
copy_down-copied zero d s x m le down = ground arith
copy_down-copied (suc n) d s x m le down =
    let far : d - 1 - n ≡ d - suc n = omega arith in
    let near : s - 1 - n ≡ s - suc n = omega arith in
    copy_down-copied n (d - 1) (s - 1) x (update m (d - 1) (m (s - 1))) (omega arith) (omega arith)
    ∙ rw (far, near) (ground arith)

-- memmove copies the bytes as they were before the call, whether or not the two regions overlap.
pub memmove-copied : (dst src n x : ℕ) (m : Bytes) → memmove dst src n m x ≡ copied dst src n m x
unfolding memmove
memmove-copied dst src n x m = elim (Bool-cases (ltb src dst && ltb dst (src + n))) [
  | inl over ↦
      let d : dst + n - n ≡ dst = omega arith in
      let s : src + n - n ≡ src = omega arith in
      let down = copy_down-copied n (dst + n) (src + n) x m (omega arith) (ground arith) in
      rw over (down ∙ rw (d, s))
  | inr clear ↦ rw clear (copy_bytes-copied n dst src x m (ground arith))
]

-- two regions of `n` bytes without a common byte
abbrev pub Disjoint : ℕ → ℕ → ℕ → Type 0
Disjoint d s n = (d + n ≤ s) ⊎ (s + n ≤ d)

copy_words-copied :
    (n d s x : ℕ) (m : Bytes) → Disjoint d s (8 * n) → copy_words n d s m x ≡ copied d s (8 * n) m x
unfolding copy_words
copy_words-copied zero d s x m apart = ground arith
copy_words-copied (suc n) d s x m apart =
    copy_words-copied n (d + 8) (s + 8) x (copy_word m d s) (ground arith) ∙ ground arith

-- copying the first `w` bytes and then the rest is copying all of them
copied_twice :
    (dest src len w x : ℕ) (m f : Bytes)
    → w ≤ len
    → Disjoint dest src len
    → f x ≡ copied dest src w m x
    → f (src + w + (x - (dest + w))) ≡ copied dest src w m (src + w + (x - (dest + w)))
    → copied (dest + w) (src + w) (len - w) f x ≡ copied dest src len m x
copied_twice dest src len w x m f le apart here there = elim (Bool-cases (leb (dest + w) x)) [
  | inl late ↦
      let from : src + w + (x - (dest + w)) ≡ src + (x - dest) = ground arith in
      let e : f (src + (x - dest)) ≡ copied dest src w m (src + (x - dest)) = rw (← from) there in
      rw from (ground arith)
  | inr early ↦ ground arith
]

-- memcpy copies between regions that do not overlap, by words or by bytes alike.
pub memcpy-copied :
    (dest src len x : ℕ) (m : Bytes)
    → Disjoint dest src len
    → memcpy dest src len m x ≡ copied dest src len m x
unfolding memcpy
memcpy-copied dest src len x m apart = elim (Bool-cases ((dest % 8 == 0) && (src % 8 == 0))) [
  | inl aligned ↦
      let w = 8 * (len / 8) in
      let words : (y : ℕ) → copy_words (len / 8) dest src m y ≡ copied dest src w m y =
        λ y. copy_words-copied (len / 8) dest src y m (ground arith) in
      let bytes =
        copy_bytes-copied (len - w) (dest + w) (src + w) x (copy_words (len / 8) dest src m)
          (ground arith) in
      rw aligned (
        bytes
        ∙ copied_twice dest src len w x m (copy_words (len / 8) dest src m) (omega arith) apart
            (words x) (words (src + w + (x - (dest + w)))))
  | inr odd ↦ rw odd (copy_bytes-copied len dest src x m (ground arith))
]

-- With enough fuel strcpy copies a string of `n` bytes and its NUL, and nothing else, to a place that
-- does not overlap it.
pub strcpy-copied :
    (fuel n d s x : ℕ) (m : Bytes)
    → n < fuel
    → m (s + n) ≡ 0
    → ((i : ℕ) → i < n → m (s + i) ≢ 0)
    → Disjoint d s (n + 1)
    → strcpy fuel d s m x ≡ copied d s (n + 1) m x
unfolding strcpy
strcpy-copied zero n d s x m lt z nz apart = absurd (omega arith)
strcpy-copied (suc fuel) zero d s x m lt z nz apart =
    let start : s + 0 ≡ s = omega arith in let z' : m s ≡ 0 = rw start at z in ground arith
strcpy-copied (suc fuel) (suc n) d s x m lt z nz apart =
    let start : s + 0 ≡ s = omega arith in
    let first : m s ≢ 0 = rw start at (nz 0 (omega arith)) in
    let more : (m s == 0) ≡ false = ground arith in
    let m' = update m d (m s) in
    let from : (i : ℕ) → s + 1 + i ≡ s + suc i = λ i. omega arith in
    let kept : (i : ℕ) → i ≤ n → m' (s + 1 + i) ≡ m (s + suc i) =
      λ i le. rw (from i) (ground arith) in
    rw more (
      strcpy-copied fuel n (d + 1) (s + 1) x m' (omega arith) (kept n (omega arith) ∙ z)
        (λ i l e. nz (suc i) (omega arith) (sym (kept i (omega arith)) ∙ e)) (ground arith)
      ∙ ground arith)
