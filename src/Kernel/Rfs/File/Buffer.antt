-- ===== src/Kernel/Rfs/File/Buffer.antt =====
-- The bytes that rfs_read collects in its buffer: the contents of the file from the offset on.
use mathlib.Core.Path.{subst}
use huster_experiment_pke.Base.{
  ℕ, zero, suc, ◌+◌, ◌-◌, ◌*◌, ◌/◌, ◌%◌, ◌≤◌, ◌<◌, ◌≡◌, refl, sym, ◌∙◌, ap, true, false, arith, ltb,
  leb, ◌==◌, Bool-cases, inl, inr,
}
use huster_experiment_pke.Base.Run.{Run, ok, and_then}
use huster_experiment_pke.Kernel.Ramdev.{Block, Fs}
use huster_experiment_pke.Kernel.Rfs.{copy_in}
use huster_experiment_pke.Kernel.Rfs.File.{Cursor, read_blocks, read_remain, read_buffer}

-- byte `i` of the file whose blocks are `addrs`
abbrev pub content : (ℕ → Block) → (ℕ → ℕ) → ℕ → ℕ
content disk addrs i = disk (addrs (i / 4096)) (i % 4096)

-- the blocks that hold the bytes below `size` are blocks of the device
abbrev pub Backed : (ℕ → ℕ) → ℕ → Type 0
Backed addrs size = (i : ℕ) → i < size → addrs (i / 4096) < 128

-- the first `k` bytes of `b` are those of the file from `offset` on
abbrev pub Filled : (ℕ → Block) → (ℕ → ℕ) → ℕ → ℕ → Block → Type 0
Filled disk addrs offset k b = (j : ℕ) → j < k → b j ≡ content disk addrs (offset + j)

Filled-copy :
    (disk : ℕ → Block) (addrs : ℕ → ℕ) (offset k n q : ℕ) (b : Block)
    → Filled disk addrs offset k b
    → (offset + k) % 4096 ≡ 0
    → q ≡ (offset + k) / 4096
    → n ≤ 4096
    → Filled disk addrs offset (k + n) (copy_in b k (disk (addrs q)) n)
Filled-copy disk addrs offset k n q b f al e le j lt = elim (Bool-cases (leb k j)) [
  | inl ge ↦
      let hi : ltb j (k + n) ≡ true = ground arith in
      let d : (offset + j) / 4096 ≡ q = ground arith in
      let m : (offset + j) % 4096 ≡ j - k = ground arith in rw (ge, hi, d, m)
  | inr below ↦ rw below (f j (ground arith))
]

copy_in_first : (b : Block) (src : ℕ → ℕ) (n j : ℕ) → j < n → copy_in b 0 src n j ≡ src j
copy_in_first b src n j lt = ground arith

Filled-first :
    (disk : ℕ → Block) (addrs : ℕ → ℕ) (offset n : ℕ) (b : Block)
    → offset % 4096 + n ≤ 4096
    → Filled disk addrs offset n
        (copy_in b 0 (λ j. disk (addrs (offset / 4096)) (offset % 4096 + j)) n)
Filled-first disk addrs offset n b le j lt =
    let d : offset / 4096 ≡ (offset + j) / 4096 = omega arith in
    let m : offset % 4096 + j ≡ (offset + j) % 4096 = omega arith in
    copy_in_first b (λ j. disk (addrs (offset / 4096)) (offset % 4096 + j)) n j lt
    ∙ ap (λ q. disk (addrs q) (offset % 4096 + j)) d
    ∙ ap (disk (addrs ((offset + j) / 4096))) m

-- what one round of the loop makes of the local variables and of the device
next_cursor : Block → Cursor → Cursor
next_cursor block c = record {
  buffer = copy_in c.buffer c.buf_offset block 4096;
  buf_offset = c.buf_offset + 4096;
  block_offset = c.block_offset + 1;
}

abbrev loaded : Fs → ℕ → Fs
loaded s a = record s { iobuffer = s.disk a }

read_blocks-suc :
    (n : ℕ) (addrs : ℕ → ℕ) (c : Cursor) (s : Fs)
    → addrs c.block_offset < 128
    → read_blocks (suc n) addrs c s
      ≡ read_blocks n addrs
          (next_cursor (s.disk (addrs c.block_offset)) c)
          (loaded s (addrs c.block_offset))
unfolding read_blocks next_cursor
read_blocks-suc n addrs c s lt =
    let test : leb 128 (addrs c.block_offset) ≡ false = ground arith in rw test

-- The loop of `n` rounds ends with the bytes of `n` more blocks in the buffer.
record Collected (disk : ℕ → Block) (addrs : ℕ → ℕ) (offset k : ℕ) (r : Run Fs Cursor)
    : Type 0 where
  cursor : Cursor
  after : Fs
  run : r ≡ ok cursor after
  kept : after.disk ≡ disk
  position : cursor.buf_offset ≡ k
  place : cursor.block_offset ≡ (offset + k) / 4096
  filled : Filled disk addrs offset k cursor.buffer

read_blocks-Collected :
    (n : ℕ) (addrs : ℕ → ℕ) (offset k : ℕ) (c : Cursor) (s : Fs)
    → Filled s.disk addrs offset k c.buffer
    → (offset + k) % 4096 ≡ 0
    → c.buf_offset ≡ k
    → c.block_offset ≡ (offset + k) / 4096
    → Backed addrs (offset + k + 4096 * n)
    → Collected s.disk addrs offset (k + 4096 * n) (read_blocks n addrs c s)
unfolding read_blocks next_cursor
read_blocks-Collected zero addrs offset k c s f al bo q back = record {
  cursor = c;
  after = s;
  run = refl;
  kept = refl;
  position = omega arith;
  place = omega arith;
  filled = λ j lt. f j (omega arith);
}
read_blocks-Collected (suc n) addrs offset k c s f al bo q back =
    let back' : addrs ((offset + k) / 4096) < 128 = back (offset + k) (omega arith) in
    let here : addrs c.block_offset < 128 = rw q back' in
    let full =
      Filled-copy s.disk addrs offset k 4096 c.block_offset c.buffer f al q (omega arith) in
    let e : k + 4096 * suc n ≡ k + 4096 + 4096 * n = omega arith in
    rw (read_blocks-suc n addrs c s here, e)
      (read_blocks-Collected n addrs offset (k + 4096)
        (next_cursor (s.disk (addrs c.block_offset)) c) (loaded s (addrs c.block_offset))
        (rw bo full) (omega arith) (omega arith) (omega arith) (λ i lt. back i (omega arith)))

-- a buffer with the first `n` bytes from `offset` on
pub record Gathered (disk : ℕ → Block) (addrs : ℕ → ℕ) (offset n : ℕ) (r : Run Fs Block)
    : Type 0 where
  pub buffer : Block
  pub after : Fs
  pub run : r ≡ ok buffer after
  pub kept : after.disk ≡ disk
  pub filled : Filled disk addrs offset n buffer

read_remain-Gathered :
    (addrs : ℕ → ℕ) (offset k remain : ℕ) (c : Cursor) (s : Fs)
    → Filled s.disk addrs offset k c.buffer
    → (offset + k) % 4096 ≡ 0
    → c.buf_offset ≡ k
    → c.block_offset ≡ (offset + k) / 4096
    → remain < 4096
    → Backed addrs (offset + k + remain)
    → Gathered s.disk addrs offset (k + remain) (read_remain addrs remain c s)
unfolding read_remain
read_remain-Gathered addrs offset k zero c s f al bo q lt back = record {
  buffer = c.buffer;
  after = s;
  run = refl;
  kept = refl;
  filled = λ j lt. f j (omega arith);
}
read_remain-Gathered addrs offset k (suc r) c s f al bo q lt back =
    let back' : addrs ((offset + k) / 4096) < 128 = back (offset + k) (omega arith) in
    let here : addrs c.block_offset < 128 = rw q back' in
    let test : leb 128 (addrs c.block_offset) ≡ false = ground arith in
    let some_left : ltb 0 (suc r) ≡ true = ground arith in
    record {
      buffer = copy_in c.buffer c.buf_offset (s.disk (addrs c.block_offset)) (suc r);
      after = loaded s (addrs c.block_offset);
      run = rw (some_left, test);
      kept = refl;
      filled =
          rw bo (
            Filled-copy s.disk addrs offset k (suc r) c.block_offset c.buffer f al q (omega arith));
    }

finish :
    (addrs : ℕ → ℕ) (offset k remain : ℕ) (disk : ℕ → Block) (r : Run Fs Cursor)
    → Collected disk addrs offset k r
    → (offset + k) % 4096 ≡ 0
    → remain < 4096
    → Backed addrs (offset + k + remain)
    → Gathered disk addrs offset (k + remain) (and_then r (read_remain addrs remain))
finish addrs offset k remain disk r c al lt back =
    let f : Filled c.after.disk addrs offset k c.cursor.buffer =
      λ j lt'. c.filled j lt' ∙ ap (λ (d : ℕ → Block). content d addrs (offset + j)) (sym c.kept) in
    let g =
      read_remain-Gathered addrs offset k remain c.cursor c.after f al c.position c.place lt back in
    record {
      buffer = g.buffer;
      after = g.after;
      run = rw c.run g.run;
      kept = g.kept ∙ c.kept;
      filled =
          λ j lt'. g.filled j lt' ∙ ap (λ (d : ℕ → Block). content d addrs (offset + j)) c.kept;
    }

-- the local variables behind the first block
first_cursor : (ℕ → ℕ) → ℕ → Block → Block → Cursor
first_cursor addrs offset b block = record {
  buffer = copy_in b 0 (λ j. block (offset % 4096 + j)) (4096 - offset % 4096);
  buf_offset = 4096 - offset % 4096;
  block_offset = offset / 4096 + 1;
}

read_buffer-long :
    (n : ℕ) (addrs : ℕ → ℕ) (offset len : ℕ) (b : Block) (s : Fs)
    → (offset % 4096 + len) / 4096 ≡ suc n
    → addrs (offset / 4096) < 128
    → read_buffer addrs offset len b s
      ≡ and_then
          (read_blocks n addrs
            (first_cursor addrs offset b (s.disk (addrs (offset / 4096))))
            (loaded s (addrs (offset / 4096))))
          (read_remain addrs ((offset % 4096 + len) % 4096))
unfolding read_buffer first_cursor
read_buffer-long n addrs offset len b s e here =
    let test : leb 128 (addrs (offset / 4096)) ≡ false = ground arith in
    let more : (suc n == 0) ≡ false = ground arith in
    let rounds : suc n - 1 ≡ n = omega arith in rw (test, e, more, rounds)

-- read_buffer collects the bytes of the file
pub read_buffer-Gathered :
    (n : ℕ) (addrs : ℕ → ℕ) (offset len : ℕ) (b : Block) (s : Fs)
    → (offset % 4096 + len) / 4096 ≡ n
    → addrs (offset / 4096) < 128
    → Backed addrs (offset + len)
    → Gathered s.disk addrs offset len (read_buffer addrs offset len b s)
unfolding read_buffer first_cursor
read_buffer-Gathered zero addrs offset len b s e here back =
    let test : leb 128 (addrs (offset / 4096)) ≡ false = ground arith in
    let block = s.disk (addrs (offset / 4096)) in
    record {
      buffer = copy_in b 0 (λ j. block (offset % 4096 + j)) len;
      after = loaded s (addrs (offset / 4096));
      run = rw (test, e);
      kept = refl;
      filled = Filled-first s.disk addrs offset len b (omega arith);
    }
read_buffer-Gathered (suc n) addrs offset len b s e here back =
    let block = s.disk (addrs (offset / 4096)) in
    let first = 4096 - offset % 4096 in
    let remain = (offset % 4096 + len) % 4096 in
    let c = first_cursor addrs offset b block in
    let more =
      read_blocks-Collected n addrs offset first c (loaded s (addrs (offset / 4096)))
        (Filled-first s.disk addrs offset first b (omega arith)) (omega arith) refl (omega arith)
        (λ i lt. back i (omega arith)) in
    let total : len ≡ first + 4096 * n + remain = omega arith in
    rw (read_buffer-long n addrs offset len b s e here) (
      subst
        (λ (m : ℕ). Gathered s.disk addrs offset m (
          and_then (read_blocks n addrs c (loaded s (addrs (offset / 4096))))
            (read_remain addrs remain)))
        (sym total)
        (finish addrs offset (first + 4096 * n) remain s.disk
          (read_blocks n addrs c (loaded s (addrs (offset / 4096)))) more (omega arith)
          (omega arith) (λ i lt. back i (omega arith))))
