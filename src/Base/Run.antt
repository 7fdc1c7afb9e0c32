-- ===== src/Base/Run.antt =====
-- Outcomes of kernel code over a state, and the commands that produce them.

-- `killed`: kill_current_process() was called, which never comes back to its caller (schedule()
-- leaves the kernel by `sret` or idles). `panic`: the machine stops. `fault`: behaviour that C
-- leaves undefined, such as a read through NULL.
pub data Run (S A : Type 0) : Type 0 where
  ok : A → S → Run S A
  killed : S → Run S A
  panic : Run S A
  fault : Run S A

abbrev pub Cmd : Type 0 → Type 0 → Type 0
Cmd S A = S → Run S A

module _ {S A B : Type 0} where
  abbrev pub and_then : Run S A → (A → Cmd S B) → Run S B
  and_then (ok a s) k = k a s
  and_then (killed s) k = killed s
  and_then panic k = panic
  and_then fault k = fault

  infixl 5 ◌>>=◌ ◌>>◌
  abbrev pub ◌>>=◌ : Cmd S A → (A → Cmd S B) → Cmd S B
  m >>= k = λ s. and_then (m s) k

  abbrev pub ◌>>◌ : Cmd S A → Cmd S B → Cmd S B
  m >> n = m >>= λ _. n

abbrev pub pure : {S A : Type 0} → A → Cmd S A
pure = ok

abbrev pub done : {S : Type 0} → S → Run S (Unit {0})
done s = ok tt s
