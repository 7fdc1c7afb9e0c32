-- ===== src/Kernel/Rfs/File/Read.antt =====
-- rfs_read against the contents of the file as one sequence of bytes.
use native.Mathlib.Decide.{ℕ_discrete}
use huster_experiment_pke.Base.{
  ℕ, zero, suc, ◌+◌, ◌/◌, ◌%◌, ◌≤◌, ◌<◌, ◌≡◌, ◌≢◌, refl, sym, ◌∙◌, false, arith, ltb, ◌==◌,
}
use huster_experiment_pke.Base.Run.{ok}
use huster_experiment_pke.Kernel.Process.{update}
use huster_experiment_pke.Kernel.Ramdev.{Block, Fs}
use huster_experiment_pke.Kernel.Rfs.File.{Vinode, Transfer, read_count, strcpy_from, rfs_read}
use huster_experiment_pke.Kernel.Rfs.File.Buffer.{content, Backed, read_buffer-Gathered}

-- strcpy copies the bytes up to and including the first NUL, and no byte behind it
strcpy_from_before : (n i j : ℕ) (dst src : Block) → j < i → strcpy_from n i dst src j ≡ dst j
unfolding strcpy_from
strcpy_from_before zero i j dst src lt = refl
strcpy_from_before (suc n) i j dst src lt =
    ground (arith, strcpy_from_before n (i + 1) j (update dst i (src i)) src)

strcpy_from_copied :
    (n i j : ℕ) (dst src : Block)
    → i ≤ j
    → j < i + n
    → ((m : ℕ) → i ≤ m → m < j → src m ≢ 0)
    → strcpy_from n i dst src j ≡ src j
unfolding strcpy_from
strcpy_from_copied zero i j dst src le lt h = absurd (omega arith)
strcpy_from_copied (suc n) i j dst src le lt h = elim (ℕ_discrete i j) [
  | yes e ↦ ground (arith, strcpy_from_before n (i + 1) j (update dst i (src i)) src)
  | no ne ↦
      let test : (src i == 0) ≡ false = ground (arith, h i) in
      rw test (
        strcpy_from_copied n (i + 1) j (update dst i (src i)) src (omega arith) (omega arith)
          (λ m lo hi. h m (omega arith) hi))
]

strcpy_from_behind :
    (n i m j : ℕ) (dst src : Block) → i ≤ m → m < j → src m ≡ 0 → strcpy_from n i dst src j ≡ dst j
unfolding strcpy_from
strcpy_from_behind zero i m j dst src le lt z = refl
strcpy_from_behind (suc n) i m j dst src le lt z = elim (ℕ_discrete i m) [
  | yes e ↦ ground arith
  | no ne ↦ ground (arith, strcpy_from_behind n (i + 1) m j (update dst i (src i)) src)
]

-- rfs_read at an offset within the file reads up to the end of the file at most, and moves the offset
-- on by what it has read. The reader's buffer gets the bytes of the file up to the first NUL among
-- them; behind that NUL it keeps its old contents.
pub rfs_read-content :
    (f : Vinode) (r_buf : Block) (len offset : ℕ) (s : Fs)
    → offset ≤ f.size
    → f.addrs (offset / 4096) < 128
    → Backed f.addrs f.size
    → (r : Transfer) × (s' : Fs) × (rfs_read f r_buf len offset s ≡ ok r s')
      × (r.count ≡ read_count f len offset)
      × (r.offset ≡ offset + r.count)
      × (s'.disk ≡ s.disk)
      × ((j : ℕ)
          → j < r.count
          → ((m : ℕ) → m < j → content s.disk f.addrs (offset + m) ≢ 0)
          → r.buf j ≡ content s.disk f.addrs (offset + j))
      × ((m j : ℕ)
          → m < r.count
          → m < j
          → content s.disk f.addrs (offset + m) ≡ 0
          → r.buf j ≡ r_buf j)
unfolding rfs_read
rfs_read-content f r_buf len offset s le here back =
    let count = read_count f len offset in
    let within : offset + count ≤ f.size = ground arith in
    let g =
      read_buffer-Gathered ((offset % 4096 + count) / 4096) f.addrs offset count (λ _. 0) s refl
        here (λ i lt. back i (omega arith)) in
    let test : ltb f.size offset ≡ false = ground arith in
    let src = update g.buffer count 0 in
    let byte : (j : ℕ) → j < count → src j ≡ content s.disk f.addrs (offset + j) =
      λ j lt. ground (arith, g.filled j lt) in
    (
      record { buf = strcpy_from (count + 1) 0 r_buf src; count = count; offset = offset + count },
      g.after,
      rw (test, g.run),
      refl,
      refl,
      g.kept,
      λ j lt clean.
          strcpy_from_copied (count + 1) 0 j r_buf src (omega arith) (omega arith)
            (λ m lo hi z. clean m hi (sym (byte m (omega arith)) ∙ z))
          ∙ byte j lt,
      λ m j lt below z.
          strcpy_from_behind (count + 1) 0 m j r_buf src (omega arith) below (byte m lt ∙ z),
    )
