-- ===== src/Pool.antt =====
-- The connection pool of cpp/mysql/dbpool.c. A connection is the number of its address, 0 is NULL; the
-- `int` counter `busy` is its 32-bit pattern. The MySQL client library is a parameter: `connect i` is
-- what the i-th call of `init_con` returns, `none` if the program exits there.
pub mod Loops
pub mod Leases
pub mod Create
pub mod Clients
mod Tests
use com_richard_test.Base.{
  ℕ, zero, suc, ◌+◌, ◌-◌, ◌%◌, ◌^◌, List, [], ◌∷◌, ◌++◌, ◌==◌, if◌then◌else◌, Option, none, some,
  get_or, set, replicate,
}

pub record ConPool : Type 0 where
  pub size : ℕ
  pub busy : ℕ
  pub flag : List ℕ
  pub cons : List ℕ

abbrev pub max_connections : ℕ
max_connections = 10

-- `createConPool`: the array of connections is not filled yet, and no cell of it is read before it is.
unfoldable pub create_con_pool : ConPool
create_con_pool = record {
  size = max_connections;
  busy = 0;
  flag = replicate max_connections 0;
  cons = [];
}

-- `for (i = ...; i < size; i++) ppool->cons[i] = init_con()`, with `n` rounds left.
unfoldable pub connect_loop : (ℕ → Option ℕ) → ℕ → ℕ → List ℕ → Option (List ℕ)
connect_loop connect zero i cons = some cons
connect_loop connect (suc n) i cons = elim (connect i) [
  | none ↦ none
  | some my ↦ connect_loop connect n (i + 1) (cons ++ my ∷ [])
]

unfoldable pub init_pool : (ℕ → Option ℕ) → Option ConPool
init_pool connect =
    let p = create_con_pool in
    elim (connect_loop connect p.size 0 p.cons) [
      | none ↦ none
      | some cons ↦ some (record p { cons = cons })
    ]

-- A connection and the pool behind the call.
pub record Got : Type 0 where
  pub con : ℕ
  pub pool : ConPool

-- The search of `get_con` at slot `i`, with `n` slots left.
unfoldable pub get_loop : ℕ → ℕ → ConPool → Got
get_loop zero i p = record { con = 0; pool = p }
get_loop (suc n) i p =
    let rest = get_loop n (i + 1) p in
    if get_or p.flag i 0 == 0
    then record {
      con = get_or p.cons i 0;
      pool = record p { flag = set p.flag i 1; busy = (p.busy + 1) % 2 ^ 32 };
    }
    else rest

unfoldable pub get_con : ConPool → Got
get_con p = get_loop p.size 0 p

-- The search of `release_con` at slot `i`, with `n` slots left.
unfoldable pub release_loop : ℕ → ℕ → ℕ → ConPool → ConPool
release_loop zero i con p = p
release_loop (suc n) i con p =
    let rest = release_loop n (i + 1) con p in
    if con == get_or p.cons i 0
    then record p { flag = set p.flag i 0; busy = (p.busy + 2 ^ 32 - 1) % 2 ^ 32 }
    else rest

unfoldable pub release_con : ConPool → ℕ → ConPool
release_con p con = release_loop p.size 0 con p
