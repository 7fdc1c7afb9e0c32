-- ===== src/Kernel/Vfs/Walk/Rcwd.antt =====
-- The path that vfs_rcwd gives leads back to the directory, where its buffers can hold it.
use huster_experiment_pke.Base.{
  ℕ, suc, sym, ◌+◌, ◌-◌, ◌<◌, ◌≡◌, ◌≢◌, refl, ◌∙◌, ap, true, false, List, [], ◌∷◌, ◌++◌, Option,
  some, arith, ltb, ◌==◌, if◌then◌else◌, length, length-append, ==_refl, All, ◌≤◌, Bool-cases, inl,
  inr,
}
use huster_experiment_pke.Base.Run.{ok, fault}
use huster_experiment_pke.Kernel.Vfs.{hash_get_dentry}
use huster_experiment_pke.Kernel.Vfs.Walk.{
  Node, Vfs, Result, max_path_len, fits, slash, in_word, prefix, tokens, lookup_tokens, lookup_rest,
  lookup_final_dentry, path_of, vfs_rcwd,
}

-- a name in a path: not empty, and without a slash
abbrev pub NoSlash : List ℕ → Type 0
NoSlash cs = All (λ c. c ≢ slash) cs

abbrev pub IsName : List ℕ → Type 0
IsName cs = NoSlash cs × (cs ≢ [])

-- every name with a slash in front of it
abbrev pub path : List (List ℕ) → List ℕ
path [] = []
path (n ∷ ns) = slash ∷ n ++ path ns

-- from the dentry `a` the names lead through the dentry table to `c`
pub data Cached (v : Vfs) (c : ℕ) : ℕ → List (List ℕ) → Type 0 where
  here : Cached v c c []
  down :
      (a b : ℕ) (n : List ℕ) {ns : List (List ℕ)}
      → hash_get_dentry v.dentry_hash_table a n ≡ some b
      → (v.dentries b).parent ≡ some a
      → (v.dentries b).name ≡ n
      → b ≢ v.root
      → IsName n
      → Cached v c b ns
      → Cached v c a (n ∷ ns)

ends : (ns : List (List ℕ)) → in_word (path ns) ≡ false
ends [] = refl
ends (n ∷ ns) = refl

-- the rest of a word, with what stands behind it
tokens-word :
    (c : ℕ) (cs : List ℕ) (ns : List (List ℕ))
    → c ≢ slash
    → NoSlash cs
    → tokens (path ns) ≡ ns
    → tokens (c ∷ cs ++ path ns) ≡ (c ∷ cs) ∷ ns
unfolding tokens
tokens-word c [] ns far named ih =
    let other : (c == slash) ≡ false = ground arith in rw (other, ends ns, ih) refl
tokens-word c (d ∷ cs) ns far named ih =
    let other : (c == slash) ≡ false = ground arith in
    let other' : (d == slash) ≡ false = ground (arith, named.0) in
    let rest : tokens (d ∷ cs ++ path ns) ≡ (d ∷ cs) ∷ ns =
      tokens-word d cs ns named.0 named.1 ih in
    let rest' : prefix d (in_word (cs ++ path ns)) (tokens (cs ++ path ns)) ≡ (d ∷ cs) ∷ ns =
      rw other' at rest in
    rw (other, other', rest') refl

pub tokens-path : {v : Vfs} {a c : ℕ} (ns : List (List ℕ)) → Cached v c a ns → tokens (path ns) ≡ ns
unfolding tokens
tokens-path [] w = refl
tokens-path ([] ∷ ns) (down a b n got up same far named w) = absurd (named.1 refl)
tokens-path ((d ∷ ds) ∷ ns) (down a b n got up same far named w) =
    tokens-word d ds ns named.0.0 named.0.1 (tokens-path ns w)

append_assoc : (xs ys zs : List ℕ) → (xs ++ ys) ++ zs ≡ xs ++ (ys ++ zs)
append_assoc [] ys zs = refl
append_assoc (x ∷ xs) ys zs = ap (λ (l : List ℕ). x ∷ l) (append_assoc xs ys zs)

fits_short : (cs : List ℕ) → length cs < max_path_len → fits cs ≡ true
unfolding fits
fits_short cs lt = ground arith

fits_long : (cs : List ℕ) → max_path_len ≤ length cs → fits cs ≡ false
unfolding fits
fits_long cs le = ground arith

step :
    (v : Vfs) (a b : ℕ) (n : List ℕ) (ns : List (List ℕ)) (more : ℕ) (buf : List ℕ)
    → (v.dentries b).parent ≡ some a
    → (v.dentries b).name ≡ n
    → b ≢ v.root
    → length (path (n ∷ ns) ++ buf) < max_path_len
    → path_of (suc more) (some b) (path ns ++ buf) v
      ≡ path_of more (some a) (path (n ∷ ns) ++ buf) v
unfolding path_of
step v a b n ns more buf up same far short =
    let below : (b == v.root) ≡ false = ground arith in
    let assoc = append_assoc n (path ns) buf in
    let whole : fits (slash ∷ n ++ (path ns ++ buf)) ≡ true =
      ap (λ (l : List ℕ). fits (slash ∷ l)) (sym assoc) ∙ fits_short (path (n ∷ ns) ++ buf) short in
    rw (below, path_of, same, whole, up, assoc, same) refl

step_over :
    (v : Vfs) (b : ℕ) (n : List ℕ) (ns : List (List ℕ)) (more : ℕ) (buf : List ℕ)
    → (v.dentries b).name ≡ n
    → b ≢ v.root
    → max_path_len ≤ length (path (n ∷ ns) ++ buf)
    → path_of (suc more) (some b) (path ns ++ buf) v ≡ fault
unfolding path_of
step_over v b n ns more buf same far long =
    let below : (b == v.root) ≡ false = ground arith in
    let over : fits (slash ∷ n ++ (path ns ++ buf)) ≡ false =
      ap (λ (l : List ℕ). fits (slash ∷ l)) (sym (append_assoc n (path ns) buf))
      ∙ fits_long (path (n ∷ ns) ++ buf) long in
    rw (below, path_of, same, over) refl

-- one name more
longer :
    (n : List ℕ) (ns : List (List ℕ)) (buf : List ℕ)
    → length (path (n ∷ ns) ++ buf) ≡ 1 + length n + length (path ns ++ buf)
longer n ns buf = omega (
  arith,
  length-append (path (n ∷ ns)) buf,
  length-append n (path ns),
  length-append (path ns) buf,
)

-- the path grows at the front, from `c` up to `a`, while it fits
climb :
    (v : Vfs) (c a : ℕ) (ns : List (List ℕ)) (fuel more : ℕ) (buf : List ℕ)
    → Cached v c a ns
    → fuel ≡ length ns + more
    → length (path ns ++ buf) < max_path_len
    → path_of fuel (some c) buf v ≡ path_of more (some a) (path ns ++ buf) v
climb v c a [] fuel more buf here e short = let same : fuel ≡ more = omega arith in rw same refl
climb v c a (n ∷ ns) fuel more buf (down _ b _ got up same far named w) e short =
    climb v c b ns fuel (suc more) buf w (omega arith) (omega (arith, longer n ns buf))
    ∙ step v a b n ns more buf up same far short

-- or until it does not fit
climb_over :
    (v : Vfs) (c a : ℕ) (ns : List (List ℕ)) (fuel more : ℕ) (buf : List ℕ)
    → Cached v c a ns
    → fuel ≡ length ns + more
    → length buf < max_path_len
    → max_path_len ≤ length (path ns ++ buf)
    → path_of fuel (some c) buf v ≡ fault
climb_over v c a [] fuel more buf here e short long = absurd (omega arith)
climb_over v c a (n ∷ ns) fuel more buf (down _ b _ got up same far named w) e short long =
    elim (Bool-cases (ltb (length (path ns ++ buf)) max_path_len)) [
      | inl fine ↦
          climb v c b ns fuel (suc more) buf w (omega arith) (ground arith)
          ∙ step_over v b n ns more buf same far long
      | inr over ↦ climb_over v c b ns fuel (suc more) buf w (omega arith) short (ground arith)
    ]

-- the walk down again
follow :
    (look : Node → List ℕ → Option Node) (v : Vfs) (c a : ℕ) (ns : List (List ℕ)) (p : Option ℕ)
    → Cached v c a ns
    → (r : Result) × (lookup_tokens look ns (some a) p v ≡ ok r v) × (r.dentry ≡ some c)
unfolding lookup_tokens
follow look v c a [] p here = (record { dentry = some a; parent = p; miss_name = [] }, refl, refl)
follow look v c a (n ∷ ns) p (down _ b _ got up same far named w) =
    rw (got, lookup_tokens) (follow look v c b ns (some a) w)

-- an absolute path has no prefix, and is neither "." nor ".."
absolute :
    (look : Node → List ℕ → Option Node) (cs : List ℕ) (p : ℕ) (v : Vfs)
    → length (slash ∷ cs) < max_path_len
    → lookup_final_dentry look (slash ∷ cs) p v
      ≡ lookup_tokens look (tokens (slash ∷ cs)) (some p) (some p) v
unfolding lookup_final_dentry lookup_rest
absolute look [] p v short = rw (fits_short (slash ∷ []) short) refl
absolute look (x ∷ []) p v short = rw (fits_short (slash ∷ x ∷ []) short) refl
absolute look (x ∷ y ∷ zs) p v short = rw (fits_short (slash ∷ x ∷ y ∷ zs) short) refl

slash_only : tokens (slash ∷ []) ≡ []
unfolding tokens
slash_only = refl

at_root : (more : ℕ) (buf : List ℕ) (v : Vfs) → path_of (suc more) (some v.root) buf v ≡ ok buf v
unfolding path_of
at_root more buf v =
    let same : (v.root == v.root) ≡ true = ==_refl v.root in rw (same, path_of) refl

below_root : {v : Vfs} {c b : ℕ} (ns : List (List ℕ)) → b ≢ v.root → Cached v c b ns → c ≢ v.root
below_root [] far here = far
below_root (n ∷ ns) far (down _ b _ got up same far' named w) = below_root ns far' w

append_nil : (xs : List ℕ) → xs ++ [] ≡ xs
append_nil [] = refl
append_nil (x ∷ xs) = ap (λ (l : List ℕ). x ∷ l) (append_nil xs)

-- vfs_rcwd of a directory whose ancestors stand in the dentry table, where the names from the root down,
-- each with a slash in front, are shorter than MAX_PATH_LEN, writes them ("/" for the root itself), and
-- lookup_final_dentry of that path from the root finds the directory again, without a look at the disk
-- or a change of the tables.
pub lookup_final_dentry-vfs_rcwd :
    (look : Node → List ℕ → Option Node) (v : Vfs) (c : ℕ) (ns : List (List ℕ)) (fuel : ℕ)
    → Cached v c v.root ns
    → length ns < fuel
    → length (path ns) < max_path_len
    → (p : List ℕ) × (r : Result) × (vfs_rcwd fuel c v ≡ ok p v)
      × (p ≡ (if c == v.root then slash ∷ [] else path ns))
      × (lookup_final_dentry look p v.root v ≡ ok r v)
      × (r.dentry ≡ some c)
unfolding vfs_rcwd
lookup_final_dentry-vfs_rcwd look v c [] fuel here enough short =
    let same : (v.root == v.root) ≡ true = ==_refl v.root in
    let (r, run, found) = follow look v v.root v.root [] (some v.root) here in
    (
      slash ∷ [],
      r,
      rw same refl,
      rw same refl,
      rw (absolute look [] v.root v (omega arith), slash_only) run,
      found,
    )
lookup_final_dentry-vfs_rcwd look v c (n ∷ ns) fuel (down _ b _ got up same far named w) enough
      short =
    let whole : Cached v c v.root (n ∷ ns) = down v.root b n got up same far named w in
    let other : (c == v.root) ≡ false = ground (arith, below_root ns far w) in
    let more = fuel - length (n ∷ ns) - 1 in
    let nil = append_nil (path (n ∷ ns)) in
    let written : path_of fuel (some c) [] v ≡ ok (path (n ∷ ns)) v =
      climb v c v.root (n ∷ ns) fuel (suc more) [] whole (omega arith)
        (omega (arith, length-append (path (n ∷ ns)) []))
      ∙ at_root more (path (n ∷ ns) ++ []) v
      ∙ ap (λ (l : List ℕ). ok l v) nil in
    let words : tokens (path (n ∷ ns)) ≡ n ∷ ns = tokens-path (n ∷ ns) whole in
    let (r, run, found) = follow look v c v.root (n ∷ ns) (some v.root) whole in
    (
      path (n ∷ ns),
      r,
      rw other written,
      rw other refl,
      rw (absolute look (n ++ path ns) v.root v short, words) run,
      found,
    )

-- vfs_rcwd of a directory whose ancestors stand in the dentry table, where the names from the root down,
-- each with a slash in front, are not shorter than MAX_PATH_LEN, writes behind the end of its buffer.
pub vfs_rcwd_overruns :
    (v : Vfs) (c : ℕ) (ns : List (List ℕ)) (fuel : ℕ)
    → Cached v c v.root ns
    → length ns < fuel
    → max_path_len ≤ length (path ns)
    → vfs_rcwd fuel c v ≡ fault
unfolding vfs_rcwd
vfs_rcwd_overruns v c [] fuel here enough long = absurd (omega arith)
vfs_rcwd_overruns v c (n ∷ ns) fuel (down _ b _ got up same far named w) enough long =
    let whole : Cached v c v.root (n ∷ ns) = down v.root b n got up same far named w in
    let other : (c == v.root) ≡ false = ground (arith, below_root ns far w) in
    rw other (
      climb_over v c v.root (n ∷ ns) fuel (fuel - length (n ∷ ns)) [] whole (omega arith)
        (omega arith) (omega (arith, length-append (path (n ∷ ns)) [])))
