-- ===== src/Net/Reads.antt =====
-- `Readn`: it reads on until it has as many bytes as it should, or the other side has ended.
use com_richard_test.Base.{
  ℕ, zero, suc, ◌+◌, ◌-◌, ◌%◌, ◌^◌, ◌≤◌, ◌<◌, List, [], ◌++◌, false, Bool-cases, Option, none, some,
  ◌==◌, inl, inr, ◌≡◌, ◌≢◌, refl, sym, ap, ◌∙◌, arith, length, take, drop, length-append,
  length-take, take-nil, drop-nil, take-append, drop-append, drop_all, take_add, drop_add,
}
use mathlib.Core.List.{append-nil, append_assoc}
use com_richard_test.Net.{ReadReply, read_failed, count, Returned, less, readn_loop, readn}
use com_richard_test.Net.Socket.{IsSource, reply_cases}

take-append_long :
    (n : ℕ) (v q : List ℕ) → length v ≤ n → take n (v ++ q) ≡ v ++ take (n - length v) q
take-append_long n v q le =
    let parts : length v + (n - length v) ≡ n = omega arith in
    ap (λ k. take k (v ++ q)) (sym parts)
    ∙ take_add (length v) (n - length v) (v ++ q)
    ∙ rw (take-append (length v) v q refl, drop-append (length v) v q refl) refl

drop-append_long : (n : ℕ) (v q : List ℕ) → length v ≤ n → drop n (v ++ q) ≡ drop (n - length v) q
drop-append_long n v q le =
    let parts : length v + (n - length v) ≡ n = omega arith in
    ap (λ k. drop k (v ++ q)) (sym parts)
    ∙ drop_add (length v) (n - length v) (v ++ q)
    ∙ ap (drop (n - length v)) (drop-append (length v) v q refl)

module _ {W : Type 0} {read : W → ℕ → ReadReply W} {pending : W → List ℕ} {patience : W → ℕ}
    (s : IsSource read pending patience) where
  -- What the loop of `Readn` leaves: the next `nleft` bytes behind those that are there, or all that
  -- come before the end, and the rest still pending.
  record Filled (w : W) (nleft : ℕ) (bytes : List ℕ) (o : Option (Returned W)) : Type 0 where
    out : Returned W
    returns : o ≡ some out
    filled : out.bytes ≡ bytes ++ take nleft (pending w)
    left : out.result ≡ count (nleft - length (take nleft (pending w)))
    rest : pending out.world ≡ drop nleft (pending w)

  -- Nothing more is to be read, or nothing more comes.
  stops :
      (w u : W) (nleft : ℕ) (bytes : List ℕ)
      → take nleft (pending w) ≡ []
      → pending u ≡ drop nleft (pending w)
      → Filled w nleft bytes (some (record { result = count nleft; bytes = bytes; world = u }))
  stops w u nleft bytes none_taken rest = record {
    out = record { result = count nleft; bytes = bytes; world = u };
    returns = refl;
    filled = rw none_taken (sym (append-nil bytes));
    left = rw none_taken (ap count (omega arith));
    rest = rest;
  }

  -- Some bytes have come.
  goes_on :
      (w u : W) (nleft : ℕ) (bytes v : List ℕ) (o : Option (Returned W))
      → pending w ≡ v ++ pending u
      → length v ≤ nleft
      → Filled u (nleft - length v) (bytes ++ v) o
      → Filled w nleft bytes o
  goes_on w u nleft bytes v o came fits f =
      let taken : take nleft (pending w) ≡ v ++ take (nleft - length v) (pending u) =
        ap (take nleft) came ∙ take-append_long nleft v (pending u) fits in
      record {
        out = f.out;
        returns = f.returns;
        filled = f.filled ∙ append_assoc bytes v _ ∙ ap (λ t. bytes ++ t) (sym taken);
        left =
            f.left
            ∙ ap count (
                omega
                  (arith, ap length taken, length-append v (take (nleft - length v) (pending u))));
        rest = f.rest ∙ sym (ap (drop nleft) came ∙ drop-append_long nleft v (pending u) fits);
      }

  readn_loop-Filled :
      (fuel : ℕ) (w : W) (nleft : ℕ) (bytes : List ℕ)
      → nleft < 2 ^ 63
      → nleft + patience w < fuel
      → Filled w nleft bytes (readn_loop read fuel w nleft bytes)
  unfolding readn_loop
  readn_loop-Filled zero w nleft bytes small enough = absurd (omega arith)
  readn_loop-Filled (suc fuel) w nleft bytes small enough = elim (Bool-cases (nleft == 0)) [
    | inl done ↦
        let z : nleft ≡ 0 = ground arith in
        rw (readn_loop, done)
          (stops w w nleft bytes (ap (λ k. take k (pending w)) z)
            (ap (λ k. drop k (pending w)) (sym z)))
    | inr more ↦ elim (reply_cases (read w nleft)) [
      | inl (v, u, reply) ↦ elim (Bool-cases (length v == 0)) [
        | inl ended ↦
            let at_end = s.ends w nleft v u (ground arith) reply (ground arith) in
            let came = s.delivers w nleft v u reply in
            let no_more : pending u ≡ [] =
              drop_all 0 (pending u)
                (omega (arith, ap length came, ap length at_end, length-append v (pending u))) in
            rw (readn_loop, more, reply, ended)
              (stops w u nleft bytes (ap (take nleft) at_end ∙ take-nil nleft)
                (no_more ∙ sym (ap (drop nleft) at_end ∙ drop-nil nleft)))
        | inr some_came ↦
            let fits = s.bounded w nleft v u reply in
            let now : (nleft + 2 ^ 64 - length v) % 2 ^ 64 ≡ nleft - length v = omega arith in
            rw (readn_loop, more, reply, some_came, now)
              (goes_on w u nleft bytes v _ (s.delivers w nleft v u reply) fits (
                readn_loop-Filled fuel u (nleft - length v) (bytes ++ v) (omega arith)
                  (ground (arith, s.steady w nleft v u reply))))
      ]
      | inr (e, u, reply) ↦
          let (same, fewer) = s.retries w nleft e u reply in
          let all_left : nleft - 0 ≡ nleft = omega arith in
          rw (readn_loop, more, reply)
            (goes_on w u nleft bytes [] _ (sym same) (omega arith) (
              rw (all_left, append-nil bytes)
                (readn_loop-Filled fuel u nleft bytes small (omega (arith, fewer)))))
    ]
  ]

  -- The bytes that `Readn` stores, what it returns, and what is still pending.
  pub record ReadsOn (w : W) (n : ℕ) (o : Option (Returned W)) : Type 0 where
    pub out : Returned W
    pub returns : o ≡ some out
    pub stored : out.bytes ≡ take n (pending w)
    pub counted : out.result ≡ count (length (take n (pending w)))
    pub rest : pending out.world ≡ drop n (pending w)

  -- `Readn` returns, within a number of calls that the count and the patience of the socket bound, with
  -- the next `n` bytes, or all that come before the end, and with their number.
  pub readn-ReadsOn :
      (fuel : ℕ) (w : W) (n : ℕ)
      → n < 2 ^ 63
      → n + patience w < fuel
      → ReadsOn w n (readn read fuel w n)
  unfolding readn less
  readn-ReadsOn fuel w n small enough =
      let f = readn_loop-Filled fuel w n [] small enough in
      let k = length (take n (pending w)) in
      let done : (n + 2 ^ 64 - (n - k)) % 2 ^ 64 ≡ k = omega (arith, length-take n (pending w)) in
      rw f.returns (record {
        out = record f.out { result = less n f.out.result };
        returns = refl;
        stored = f.filled;
        counted = rw f.left (ap count done);
        rest = f.rest;
      })

-- A socket on which every call fails, with whatever error: `Readn` never returns.
pub readn_stuck :
    {W : Type 0} (read : W → ℕ → ReadReply W) (errno : W → ℕ) (after : W → W)
    → ((w : W) (n : ℕ) → read w n ≡ read_failed (errno w) (after w))
    → (fuel : ℕ) (w : W) (n : ℕ) → n ≢ 0
    → readn read fuel w n ≡ none
unfolding readn readn_loop
readn_stuck {W = W} read errno after fails fuel w n ne = rw (loop_stuck fuel w []) refl
  where
    loop_stuck : (fuel : ℕ) (w : W) (bytes : List ℕ) → readn_loop read fuel w n bytes ≡ none
    loop_stuck zero w bytes = refl
    loop_stuck (suc fuel) w bytes =
        let more : (n == 0) ≡ false = ground arith in
        rw (readn_loop, more, fails w n) (loop_stuck fuel (after w) bytes)
