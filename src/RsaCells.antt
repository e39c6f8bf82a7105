-- ===== src/RsaCells.antt =====
-- The RSA of cpp/algorithm/rsa_algorithm.c over 20 cells, and `dec` of cpp/algorithm/rsa_deploy.c, which
-- decrypts with fixed keys. A text is the list of the cells that can be read: a read outside is `none`. A
-- character is its code below 128. An `int` is a natural number below 2 ^ 31, and a product that does not
-- fit is `none`; a product of `unsigned long` wraps around. A modulus is not 0.
pub mod Power
pub mod Keys
mod Tests
use com_richard_test.Base.{
  ◌>>=◌, ℕ, zero, suc, ◌*◌, ◌%◌, ◌^◌, List, [], ◌∷◌, map, Option, none, some, ltb, if◌then◌else◌,
}

-- SIZE
abbrev pub size : ℕ
size = 20

-- The first `n` cells.
unfoldable pub read : ℕ → List ℕ → Option (List ℕ)
read zero s = some []
read (suc n) [] = none
read (suc n) (c ∷ s) = do v ← read n s; some (c ∷ v)

-- A result for each cell.
unfoldable pub each : (ℕ → Option ℕ) → List ℕ → Option (List ℕ)
each f [] = some []
each f (c ∷ s) = do r ← f c; v ← each f s; some (r ∷ v)

-- `for(int j=0;j<e;j++) flag=(flag*x)%n` with an `int` flag
unfoldable pub int_loop : ℕ → ℕ → ℕ → ℕ → Option ℕ
int_loop zero flag x n = some flag
int_loop (suc e) flag x n = do
  product ← (if ltb (flag * x) (2 ^ 31) then some (flag * x) else none)
  int_loop e (product % n) x n

-- `for (int j=0;j<d;j++) flag=flag * x % n` with an `unsigned long` flag
unfoldable pub long_loop : ℕ → ℕ → ℕ → ℕ → ℕ
long_loop zero flag x n = flag
long_loop (suc d) flag x n = long_loop d (flag * x % 2 ^ 64 % n) x n

unfoldable pub encrypt_dt : ℕ → ℕ → List ℕ → Option (List ℕ)
encrypt_dt e n plain_txt = do
  plain_num ← read size plain_txt
  each (λ c. int_loop e 1 c n) plain_num

-- The results are stored to `char`.
unfoldable pub decrypt_dt : ℕ → ℕ → List ℕ → Option (List ℕ)
decrypt_dt d n cypher = do num ← read size cypher; some (map (λ c. long_loop d 1 c n % 2 ^ 8) num)

-- `dec`, with D and N of rsa_deploy.c, whose `decrypt_dt` is the one above.
unfoldable pub dec : List ℕ → Option (List ℕ)
dec cypher = decrypt_dt 3989 4171 cypher
