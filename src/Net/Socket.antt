-- ===== src/Net/Socket.antt =====
-- What the calls of the system promise. `pending` is what the other side has sent and nobody has read,
-- `delivered` what has been taken for the other side. `patience` bounds how often in a row a call fails:
-- without a bound a loop that tries again may go on for ever.
use com_richard_test.Base.{ℕ, ◌≤◌, ◌<◌, List, [], ◌++◌, ◌⊎◌, inl, inr, ◌≡◌, refl, length, take}
use com_richard_test.Net.{ReadReply, got, read_failed, WriteReply, wrote, write_failed}

-- `read` puts the next bytes that are pending into the buffer, no more than it may; none at all only at
-- the end. A call that fails takes nothing.
pub record IsSource {W : Type 0} (read : W → ℕ → ReadReply W) (pending : W → List ℕ)
    (patience : W → ℕ) : Type 0 where
  pub delivers :
      (w : W) (n : ℕ) (v : List ℕ) (u : W) → read w n ≡ got v u → pending w ≡ v ++ pending u
  pub bounded : (w : W) (n : ℕ) (v : List ℕ) (u : W) → read w n ≡ got v u → length v ≤ n
  pub ends :
      (w : W) (n : ℕ) (v : List ℕ) (u : W)
      → 0 < n
      → read w n ≡ got v u
      → length v ≡ 0
      → pending w ≡ []
  pub steady : (w : W) (n : ℕ) (v : List ℕ) (u : W) → read w n ≡ got v u → patience u ≤ patience w
  pub retries :
      (w : W) (n e : ℕ) (u : W)
      → read w n ≡ read_failed e u
      → (pending u ≡ pending w) × (patience u < patience w)

pub reply_cases :
    {W : Type 0} (r : ReadReply W)
    → ((v : List ℕ) × (u : W) × (r ≡ got v u)) ⊎ ((e : ℕ) × (u : W) × (r ≡ read_failed e u))
reply_cases (got v u) = inl (v, u, refl)
reply_cases (read_failed e u) = inr (e, u, refl)

-- `write` takes the first bytes of the buffer, no more than there are. A call that fails takes none.
pub record IsSink {W : Type 0} (write : W → List ℕ → WriteReply W) (delivered : W → List ℕ)
    (patience : W → ℕ) : Type 0 where
  pub takes :
      (w : W) (v : List ℕ) (k : ℕ) (u : W)
      → write w v ≡ wrote k u
      → (k ≤ length v) × (delivered u ≡ delivered w ++ take k v)
  pub steady :
      (w : W) (v : List ℕ) (k : ℕ) (u : W) → write w v ≡ wrote k u → patience u ≤ patience w
  pub retries :
      (w : W) (v : List ℕ) (e : ℕ) (u : W)
      → write w v ≡ write_failed e u
      → (delivered u ≡ delivered w) × (patience u < patience w)

pub written_cases :
    {W : Type 0} (r : WriteReply W)
    → ((k : ℕ) × (u : W) × (r ≡ wrote k u)) ⊎ ((e : ℕ) × (u : W) × (r ≡ write_failed e u))
written_cases (wrote k u) = inl (k, u, refl)
written_cases (write_failed e u) = inr (e, u, refl)
