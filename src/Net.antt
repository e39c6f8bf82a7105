-- ===== src/Net.antt =====
-- The functions of cpp/tcp_concurrent.cc that read from a socket and write to one. The calls of the
-- system are parameters: on a state of the world they return what the call returns, and the state
-- behind it. `eintr` is the number of the error EINTR. A loop has fuel, `none` is that it has run out.
pub mod Socket
pub mod Reads
pub mod Writes
pub mod Bytes
pub mod Lines
mod Tests
use com_richard_test.Base.{
  ◌>>=◌, ℕ, zero, suc, ◌+◌, ◌-◌, ◌%◌, ◌^◌, ◌<◌, List, [], ◌∷◌, ◌++◌, Bool, true, false, ◌||◌,
  Option, none, some, ltb, leb, ◌==◌, if◌then◌else◌, length, get_or, take, drop,
}

-- What `read` returns: the bytes that it has put into the buffer, or -1 with an error in errno.
pub data ReadReply (W : Type 0) : Type 0 where
  got : List ℕ → W → ReadReply W
  read_failed : ℕ → W → ReadReply W

-- What `write` returns: how many bytes it has taken, or -1 with an error.
pub data WriteReply (W : Type 0) : Type 0 where
  wrote : ℕ → W → WriteReply W
  write_failed : ℕ → W → WriteReply W

-- What a function of this file returns: a count, or -1.
pub data Result : Type 0 where
  count : ℕ → Result
  failure : Result

-- A result, the bytes that a read has put into the caller's buffer, or that a write has left, and the
-- world behind the call.
pub record Returned (W : Type 0) : Type 0 where
  pub result : Result
  pub bytes : List ℕ
  pub world : W

-- The static variables of `my_read`, and the world. The `int` counter is its 32-bit pattern.
pub record Reader (W : Type 0) : Type 0 where
  pub read_cnt : ℕ
  pub read_ptr : ℕ
  pub read_buf : List ℕ
  pub world : W

-- What `my_read` returns: 1, 0 or -1, and the character for 1.
pub record Char (W : Type 0) : Type 0 where
  pub result : Result
  pub c : ℕ
  pub reader : Reader W

-- What `Readline` returns, and the cells that it has written from the start of the buffer on.
pub record Line (W : Type 0) : Type 0 where
  pub result : Result
  pub bytes : List ℕ
  pub reader : Reader W

unfoldable pub less : ℕ → Result → Result
less n failure = failure
less n (count nleft) = count ((n + 2 ^ 64 - nleft) % 2 ^ 64)

-- `read_cnt--; *ptr = *read_ptr++; return 1`
unfoldable pub take_char : {W : Type 0} → Reader W → Char W
take_char r = record {
  result = count 1;
  c = get_or r.read_buf r.read_ptr 0;
  reader = record r { read_cnt = (r.read_cnt + 2 ^ 32 - 1) % 2 ^ 32; read_ptr = r.read_ptr + 1 };
}

module _ {W : Type 0} (read : W → ℕ → ReadReply W) where
  -- The loop of `Readn`, with the bytes before `ptr` and `nleft` bytes left. The test `errno=EINTR` is an
  -- assignment of a number that is not 0: each error counts as 0 bytes.
  unfoldable pub readn_loop : ℕ → W → ℕ → List ℕ → Option (Returned W)
  readn_loop zero w nleft bytes = none
  readn_loop (suc fuel) w nleft bytes = elim (nleft == 0) [
    | true ↦ some (record { result = count nleft; bytes = bytes; world = w })
    | false ↦ elim (read w nleft) [
      | got v w' ↦ elim (length v == 0) [
        | true ↦ some (record { result = count nleft; bytes = bytes; world = w' })
        | false ↦ readn_loop fuel w' ((nleft + 2 ^ 64 - length v) % 2 ^ 64) (bytes ++ v)
      ]
      | read_failed errno w' ↦ readn_loop fuel w' nleft bytes
    ]
  ]

  -- `Readn`: the loop returns what is left, and `n` less that is returned.
  unfoldable pub readn : ℕ → W → ℕ → Option (Returned W)
  readn fuel w n = do r ← readn_loop fuel w n []; some (record r { result = less n r.result })

module _ {W : Type 0} (eintr : ℕ) (read : W → ℕ → ReadReply W) where
  -- `Read`
  unfoldable pub read_again : ℕ → W → ℕ → Option (Returned W)
  read_again zero w nbytes = none
  read_again (suc fuel) w nbytes = elim (read w nbytes) [
    | got v w' ↦ some (record { result = count (length v); bytes = v; world = w' })
    | read_failed errno w' ↦ elim (errno == eintr) [
      | true ↦ read_again fuel w' nbytes
      | false ↦ some (record { result = failure; bytes = []; world = w' })
    ]
  ]

  -- The label `again` of `my_read`.
  unfoldable pub refill : ℕ → Reader W → Option (Char W)
  refill zero r = none
  refill (suc fuel) r = elim (read r.world 100) [
    | got v w' ↦ elim (length v == 0) [
      | true ↦
          some (record { result = count 0; c = 0; reader = record r { read_cnt = 0; world = w' } })
      | false ↦ some (
          take_char (record {
            read_cnt = length v;
            read_ptr = 0;
            read_buf = v ++ drop (length v) r.read_buf;
            world = w';
          }))
    ]
    | read_failed errno w' ↦ elim (errno == eintr) [
      | true ↦ refill fuel (record r { read_cnt = 2 ^ 32 - 1; world = w' })
      | false ↦ some (record {
        result = failure;
        c = 0;
        reader = record r { read_cnt = 2 ^ 32 - 1; world = w' };
      })
    ]
  ]

  unfoldable pub my_read : ℕ → Reader W → Option (Char W)
  my_read fuel r =
      if (r.read_cnt == 0) || leb (2 ^ 31) r.read_cnt then refill fuel r else some (take_char r)

  -- The loop of `Readline` at `n`, with `m` rounds left. `newline` is the address of the literal "\n",
  -- to which the character is compared.
  unfoldable pub readline_loop : ℕ → ℕ → ℕ → ℕ → List ℕ → Reader W → Option (Line W)
  readline_loop newline fuel zero n bytes r =
      some (record { result = count n; bytes = bytes ++ 0 ∷ []; reader = r })
  readline_loop newline fuel (suc m) n bytes r = elim (my_read fuel r) [
    | none ↦ none
    | some g ↦ elim (g.result) [
      | failure ↦ some (record { result = failure; bytes = bytes; reader = g.reader })
      | count rc ↦ elim (rc == 1) [
        | true ↦ elim (g.c == newline) [
          | true ↦
              some (record { result = count n; bytes = bytes ++ g.c ∷ 0 ∷ []; reader = g.reader })
          | false ↦ readline_loop newline fuel m (n + 1) (bytes ++ g.c ∷ []) g.reader
        ]
        | false ↦ elim (rc == 0) [
          | true ↦
              some (record { result = count (n - 1); bytes = bytes ++ 0 ∷ []; reader = g.reader })
          | false ↦ some (record { result = failure; bytes = bytes; reader = g.reader })
        ]
      ]
    ]
  ]

  -- `for (n=1; n<maxlen; n++)`
  unfoldable pub readline : ℕ → ℕ → Reader W → ℕ → Option (Line W)
  readline newline fuel r maxlen = readline_loop newline fuel (maxlen - 1) 1 [] r

module _ {W : Type 0} (eintr : ℕ) (write : W → List ℕ → WriteReply W) where
  -- `Write`
  unfoldable pub write_again : ℕ → W → List ℕ → Option (Returned W)
  write_again zero w v = none
  write_again (suc fuel) w v = elim (write w v) [
    | wrote k w' ↦ some (record { result = count k; bytes = v; world = w' })
    | write_failed errno w' ↦ elim (errno == eintr) [
      | true ↦ write_again fuel w' v
      | false ↦ some (record { result = failure; bytes = v; world = w' })
    ]
  ]

  -- The loop of `Writen`, whose buffer from `ptr` on is `v`: its `nleft` is the length of `v`. The whole
  -- count `n` is returned at the end.
  unfoldable pub writen_loop : ℕ → ℕ → W → List ℕ → Option (Returned W)
  writen_loop zero n w v = none
  writen_loop (suc fuel) n w v = elim (length v == 0) [
    | true ↦ some (record { result = count n; bytes = v; world = w })
    | false ↦ elim (write w v) [
      | wrote k w' ↦ elim (k == 0) [
        | true ↦ some (record { result = failure; bytes = v; world = w' })
        | false ↦ writen_loop fuel n w' (drop k v)
      ]
      | write_failed errno w' ↦ elim (errno == eintr) [
        | true ↦ writen_loop fuel n w' v
        | false ↦ some (record { result = failure; bytes = v; world = w' })
      ]
    ]
  ]

  unfoldable pub writen : ℕ → W → List ℕ → Option (Returned W)
  writen fuel w v = writen_loop fuel (length v) w v
