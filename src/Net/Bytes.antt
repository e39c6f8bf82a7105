-- ===== src/Net/Bytes.antt =====
-- `my_read`, which gives the bytes of a socket one by one.
use com_richard_test.Base.{
  drop-get_or, ℕ, zero, suc, ◌+◌, ◌-◌, ◌%◌, ◌^◌, ◌≤◌, ◌<◌, List, [], ◌∷◌, ◌++◌, true, ◌||◌,
  Bool-cases, Option, some, leb, ◌==◌, if◌then◌else◌, ◌⊎◌, inl, inr, ◌≡◌, ◌≢◌, refl, sym, ap, ◌∙◌,
  arith, length, get_or, take, drop, ==_iff, length-append, take-append, drop_all,
}
use com_richard_test.Net.{ReadReply, read_failed, count, Reader, Char, take_char, refill, my_read}
use com_richard_test.Net.Socket.{IsSource, reply_cases}

-- The value of the counter as an `int`, or 0 if that is negative.
abbrev pub left : ℕ → ℕ
left cnt = if leb (2 ^ 31) cnt then 0 else cnt

-- The bytes of the buffer that are not given yet.
abbrev pub unread : {W : Type 0} → Reader W → List ℕ
unread r = take (left r.read_cnt) (drop r.read_ptr r.read_buf)

-- The counter counts bytes that stand in the buffer.
pub record IsReader {W : Type 0} (r : Reader W) : Type 0 where
  pub small : left r.read_cnt ≤ 100
  pub inside : r.read_ptr + left r.read_cnt ≤ length r.read_buf

unread-take_char :
    {W : Type 0} (r : Reader W)
    → IsReader r
    → left r.read_cnt ≢ 0
    → IsReader (take_char r).reader × (unread r ≡ (take_char r).c ∷ unread (take_char r).reader)
unfolding take_char
unread-take_char r v some_left =
    let same : left r.read_cnt ≡ r.read_cnt = ground arith in
    let fewer : (r.read_cnt + 2 ^ 32 - 1) % 2 ^ 32 ≡ r.read_cnt - 1 = ground (arith, v.small) in
    let next : left (r.read_cnt - 1) ≡ r.read_cnt - 1 = ground (arith, v.small) in
    let one_more : r.read_cnt ≡ suc (r.read_cnt - 1) = ground arith in
    let here = drop-get_or r.read_buf r.read_ptr 0 (omega (arith, v.inside, some_left)) in
    (
      rw (fewer) (record {
        small = omega (arith, v.small, same, next);
        inside = omega (arith, v.inside, same, next);
      }),
      ap (λ k. take k (drop r.read_ptr r.read_buf)) (same ∙ one_more)
          ∙ ap (take (suc (r.read_cnt - 1))) here
          ∙ ap (λ k. get_or r.read_buf r.read_ptr 0 ∷ take k (drop (r.read_ptr + 1) r.read_buf))
              (sym (ap left fewer ∙ next)),
    )

-- All bytes that `my_read` will give.
abbrev pub stream : {W : Type 0} → (W → List ℕ) → Reader W → List ℕ
stream pending r = unread r ++ pending r.world

module _ {W : Type 0} (eintr : ℕ) {read : W → ℕ → ReadReply W} {pending : W → List ℕ}
    {patience : W → ℕ} (s : IsSource read pending patience)
    (interrupted : (w : W) (n e : ℕ) (u : W) → read w n ≡ read_failed e u → e ≡ eintr) where
  -- Either the next byte is given, or there is none.
  pub record GivesNext (r : Reader W) (o : Option (Char W)) : Type 0 where
    pub out : Char W
    pub returns : o ≡ some out
    pub valid : IsReader out.reader
    pub steady : patience out.reader.world ≤ patience r.world
    pub given :
        ((out.result ≡ count 1) × (stream pending r ≡ out.c ∷ stream pending out.reader))
        ⊎ ((out.result ≡ count 0) × (stream pending r ≡ []) × (stream pending out.reader ≡ []))

  take_char-GivesNext :
      (r : Reader W) → IsReader r → left r.read_cnt ≢ 0 → GivesNext r (some (take_char r))
  unfolding take_char
  take_char-GivesNext r v some_left =
      let (valid, next) = unread-take_char r v some_left in
      record {
        out = take_char r;
        returns = refl;
        valid = valid;
        steady = omega arith;
        given = inl (refl, ap (λ t. t ++ pending r.world) next);
      }

  nothing_left : (r : Reader W) → left r.read_cnt ≡ 0 → unread r ≡ []
  nothing_left r z = ap (λ k. take k (drop r.read_ptr r.read_buf)) z

  stream_empty : (r : Reader W) → left r.read_cnt ≡ 0 → stream pending r ≡ pending r.world
  stream_empty r z = ap (λ t. t ++ pending r.world) (nothing_left r z)

  same_stream :
      (r q : Reader W) (o : Option (Char W))
      → stream pending r ≡ stream pending q
      → patience q.world ≤ patience r.world
      → GivesNext q o
      → GivesNext r o
  same_stream r q o same le g = record {
    out = g.out;
    returns = g.returns;
    valid = g.valid;
    steady = omega (arith, g.steady);
    given = elim (g.given) [
      | inl (one, next) ↦ inl (one, same ∙ next)
      | inr (zero_given, ended, after) ↦ inr (zero_given, same ∙ ended, after)
    ];
  }

  -- What `read` has put into the buffer.
  filled : Reader W → List ℕ → W → Reader W
  filled r v u = record {
    read_cnt = length v;
    read_ptr = 0;
    read_buf = v ++ drop (length v) r.read_buf;
    world = u;
  }

  filled-GivesNext :
      (r : Reader W) (v : List ℕ) (u : W)
      → left r.read_cnt ≡ 0
      → length v ≢ 0
      → length v ≤ 100
      → pending r.world ≡ v ++ pending u
      → patience u ≤ patience r.world
      → GivesNext r (some (take_char (filled r v u)))
  unfolding filled
  filled-GivesNext r v u z some_came fits came le =
      let whole : left (length v) ≡ length v = ground arith in
      let there : unread (filled r v u) ≡ v =
        ap (λ k. take k (v ++ drop (length v) r.read_buf)) whole
        ∙ take-append (length v) v (drop (length v) r.read_buf) refl in
      same_stream r (filled r v u) _
        (stream_empty r z ∙ came ∙ ap (λ t. t ++ pending u) (sym there)) le
        (take_char-GivesNext (filled r v u)
          (record {
            small = omega (arith, whole);
            inside = omega (arith, whole, length-append v (drop (length v) r.read_buf));
          })
          (λ e. some_came (sym whole ∙ e)))

  refill-GivesNext :
      (fuel : ℕ) (r : Reader W)
      → left r.read_cnt ≡ 0
      → r.read_ptr ≤ length r.read_buf
      → patience r.world < fuel
      → GivesNext r (refill eintr read fuel r)
  unfolding refill filled
  refill-GivesNext zero r z inside enough = absurd (omega arith)
  refill-GivesNext (suc fuel) r z inside enough = elim (reply_cases (read r.world 100)) [
    | inl (v, u, reply) ↦
        let came = s.delivers r.world 100 v u reply in
        let fits = s.bounded r.world 100 v u reply in
        elim (Bool-cases (length v == 0)) [
          | inl ended ↦
              let at_end = s.ends r.world 100 v u (omega arith) reply (ground arith) in
              let no_more : pending u ≡ [] =
                drop_all 0 (pending u)
                  (omega (arith, ap length came, ap length at_end, length-append v (pending u))) in
              rw (refill, reply, ended)
                (record {
                  out = record {
                    result = count 0;
                    c = 0;
                    reader = record r { read_cnt = 0; world = u };
                  };
                  returns = refl;
                  valid = record { small = omega arith; inside = omega arith };
                  steady = s.steady r.world 100 v u reply;
                  given = inr (refl, stream_empty r z ∙ at_end, no_more);
                })
          | inr some_came ↦
              rw (refill, reply, some_came)
                (filled-GivesNext r v u z (ground arith) fits came (s.steady r.world 100 v u reply))
        ]
    | inr (e, u, reply) ↦
        let (same, fewer) = s.retries r.world 100 e u reply in
        let again : (e == eintr) ≡ true = (==_iff e eintr).1 (interrupted r.world 100 e u reply) in
        let q = record r { read_cnt = 2 ^ 32 - 1; world = u } in
        rw (refill, reply, again)
          (same_stream r q _ (stream_empty r z ∙ sym same) (omega (arith, fewer))
            (refill-GivesNext fuel q refl inside (omega (arith, fewer))))
  ]

  -- `my_read` gives the next byte, whether it is in the buffer or not.
  pub my_read-GivesNext :
      (fuel : ℕ) (r : Reader W)
      → IsReader r
      → patience r.world < fuel
      → GivesNext r (my_read eintr read fuel r)
  unfolding my_read
  my_read-GivesNext fuel r v enough =
      elim (Bool-cases ((r.read_cnt == 0) || leb (2 ^ 31) r.read_cnt)) [
        | inl empty ↦
            rw empty (refill-GivesNext fuel r (ground arith) (omega (arith, v.inside)) enough)
        | inr some_left ↦ rw some_left (take_char-GivesNext r v (ground arith))
      ]
