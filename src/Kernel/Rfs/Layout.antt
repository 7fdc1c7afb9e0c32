-- ===== src/Kernel/Rfs/Layout.antt =====
-- The inode region and the bitmap: what one operation writes, the others read back.
use huster_experiment_pke.Base.{
  ℕ, zero, suc, ◌+◌, ◌-◌, ◌*◌, ◌/◌, ◌%◌, ◌^◌, ◌≤◌, ◌<◌, ◌≡◌, ◌≢◌, sym, ◌∙◌, true, false, ap, ◌⊎◌,
  arith, ltb, leb,
}
use huster_experiment_pke.Base.Run.{Run, ok}
use huster_experiment_pke.Kernel.Process.{update}
use huster_experiment_pke.Kernel.Ramdev.{Block, Fs}
use huster_experiment_pke.Kernel.Rfs.{
  Dinode, get_int, int_byte, field, copy_in, dinode_byte, dinode_at, inode_block, inode_offset,
  rfs_read_dinode, rfs_write_dinode,
}

value_of : Dinode → Run Fs Dinode → Dinode
value_of d (ok e s) = e
value_of d _ = d

ok_value : {d e : Dinode} {s t : Fs} → ok d s ≡ ok e t → d ≡ e
unfolding value_of
ok_value {d} p = ap (value_of d) p

pub get_int_bytes :
    (v off : ℕ) (b : Block)
    → v < 2 ^ 32
    → b off ≡ int_byte v 0
    → b (off + 1) ≡ int_byte v 1
    → b (off + 2) ≡ int_byte v 2
    → b (off + 3) ≡ int_byte v 3
    → get_int b off ≡ v
get_int_bytes v off b lt e f g h = omega arith

copied_byte :
    (b : Block) (off k i : ℕ) (d : Dinode)
    → k < 14
    → i < 4
    → copy_in b off (dinode_byte d) 56 (off + 4 * k + i) ≡ int_byte (field d k) i
copied_byte b off k i d lk li =
    let q : (off + 4 * k + i - off) / 4 ≡ k = omega arith in
    let r : (off + 4 * k + i - off) % 4 ≡ i = omega arith in
    let lo : leb off (off + 4 * k + i) ≡ true = ground arith in
    let hi : ltb (off + 4 * k + i) (off + 56) ≡ true = ground arith in rw (lo, hi, q, r)

field_at : (b : Block) (off k : ℕ) → field (dinode_at b off) k ≡ get_int b (off + 4 * k)
field_at b off zero = ap (get_int b) (omega arith)
field_at b off (suc zero) = ap (get_int b) (omega arith)
field_at b off (suc (suc zero)) = ap (get_int b) (omega arith)
field_at b off (suc (suc (suc zero))) = ap (get_int b) (omega arith)
field_at b off (suc (suc (suc (suc i)))) = ap (get_int b) (omega arith)

-- the inode that has been copied in is read back, field by field
pub field_copied :
    (b : Block) (off k : ℕ) (d : Dinode)
    → k < 14
    → field d k < 2 ^ 32
    → field (dinode_at (copy_in b off (dinode_byte d) 56) off) k ≡ field d k
field_copied b off k d lk lv =
    let c = copy_in b off (dinode_byte d) 56 in
    let at : (i : ℕ) → i < 4 → c (off + 4 * k + i) ≡ int_byte (field d k) i =
      λ i li. copied_byte b off k i d lk li in
    let start : off + 4 * k + 0 ≡ off + 4 * k = omega arith in
    field_at c off k
    ∙ get_int_bytes (field d k) (off + 4 * k) c lv (ap c (omega arith) ∙ at 0 (omega arith))
        (at 1 (omega arith)) (at 2 (omega arith)) (at 3 (omega arith))

-- a block that agrees on the bytes of an inode holds the same inode
field_frame :
    (b c : Block) (off k : ℕ)
    → k < 14
    → ((x : ℕ) → off ≤ x → x < off + 56 → c x ≡ b x)
    → field (dinode_at c off) k ≡ field (dinode_at b off) k
field_frame b c off k lk same =
    let e : get_int c (off + 4 * k) ≡ get_int b (off + 4 * k) = omega (
      arith,
      same (off + 4 * k),
      same (off + 4 * k + 1),
      same (off + 4 * k + 2),
      same (off + 4 * k + 3),
    ) in
    rw (field_at c off k, field_at b off k) e

-- reading inode `n` succeeds and gives the fields of `d`
pub record Reads (s : Fs) (n : ℕ) (d : Dinode) : Type 0 where
  pub found : Dinode
  pub after : Fs
  pub run : rfs_read_dinode n s ≡ ok found after
  pub same : (k : ℕ) → k < 14 → field found k ≡ field d k

-- what is read is what the inode's block holds
pub read_dinode-run :
    (s : Fs) (n : ℕ)
    → n < 320
    → rfs_read_dinode n s
      ≡ ok
          (dinode_at (s.disk (inode_block n)) (inode_offset n))
          (record s { iobuffer = s.disk (inode_block n) })
unfolding rfs_read_dinode
read_dinode-run s n lt = let test : leb 128 (inode_block n) ≡ false = ground arith in rw test

unfoldable pub written : Fs → Dinode → ℕ → Fs
written s d n =
    let b = copy_in (s.disk (inode_block n)) (inode_offset n) (dinode_byte d) 56 in
    record s { iobuffer = b; disk = update s.disk (inode_block n) b }

pub write_dinode-run :
    (s : Fs) (d : Dinode) (n : ℕ) → n < 320 → rfs_write_dinode d n s ≡ ok 0 (written s d n)
unfolding rfs_write_dinode written
write_dinode-run s d n lt = let test : leb 128 (inode_block n) ≡ false = ground arith in rw test

written_same :
    (s : Fs) (d : Dinode) (m n k : ℕ)
    → m < 320
    → m ≢ n
    → k < 14
    → field (dinode_at ((written s d n).disk (inode_block m)) (inode_offset m)) k
      ≡ field (dinode_at (s.disk (inode_block m)) (inode_offset m)) k
unfolding written
written_same s d m n k lm ne lk =
    field_frame (s.disk (inode_block m)) ((written s d n).disk (inode_block m)) (inode_offset m) k
      lk (λ x lo hi. ground arith)

-- a read that has succeeded found what the inode's block holds
was_found :
    (s : Fs) (m : ℕ) (e : Dinode)
    → m < 320
    → Reads s m e
    → (k : ℕ) → k < 14
    → field (dinode_at (s.disk (inode_block m)) (inode_offset m)) k ≡ field e k
was_found s m e lm r k lk =
    let run = read_dinode-run s m lm in
    let here : dinode_at (s.disk (inode_block m)) (inode_offset m) ≡ r.found =
      ok_value (sym run ∙ r.run) in
    ap (λ (d : Dinode). field d k) here ∙ r.same k lk

-- An inode whose fields fit in 32 bits is read back as it was written; the other inodes read as before,
-- and no block outside the inode region changes.
pub rfs_read_dinode-rfs_write_dinode :
    (s : Fs) (d : Dinode) (n : ℕ)
    → n < 320
    → ((k : ℕ) → k < 14 → field d k < 2 ^ 32)
    → (s' : Fs) × (rfs_write_dinode d n s ≡ ok 0 s')
      × Reads s' n d
      × ((m : ℕ) (e : Dinode) → m < 320 → m ≢ n → Reads s m e → Reads s' m e)
      × ((b : ℕ) → (b < 1) ⊎ (11 ≤ b) → s'.disk b ≡ s.disk b)
unfolding written
rfs_read_dinode-rfs_write_dinode s d n lt fits =
    let s' = written s d n in
    let own : (update s.disk (inode_block n)
            (copy_in (s.disk (inode_block n)) (inode_offset n) (dinode_byte d) 56))
          (inode_block n)
        ≡ copy_in (s.disk (inode_block n)) (inode_offset n) (dinode_byte d) 56 =
      ground arith in
    (
      s',
      write_dinode-run s d n lt,
      record {
        found = dinode_at (s'.disk (inode_block n)) (inode_offset n);
        after = record s' { iobuffer = s'.disk (inode_block n) };
        run = read_dinode-run s' n lt;
        same = λ k lk.
            rw own (field_copied (s.disk (inode_block n)) (inode_offset n) k d lk (fits k lk));
      },
      λ m e lm ne r. still_reads s d m n e lm ne r,
      λ b out. ground arith,
    )
  where
    still_reads :
        (s : Fs) (d : Dinode) (m n : ℕ) (e : Dinode)
        → m < 320
        → m ≢ n
        → Reads s m e
        → Reads (written s d n) m e
    still_reads s d m n e lm ne r = record {
      found = dinode_at ((written s d n).disk (inode_block m)) (inode_offset m);
      after = record (written s d n) { iobuffer = (written s d n).disk (inode_block m) };
      run = read_dinode-run (written s d n) m lm;
      same = λ k lk. written_same s d m n k lm ne lk ∙ was_found s m e lm r k lk;
    }
