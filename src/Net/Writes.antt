-- ===== src/Net/Writes.antt =====
-- `Writen`: it writes on until all bytes are taken, or a call takes none.
use com_richard_test.Base.{
  ℕ, zero, suc, ◌+◌, ◌≤◌, ◌<◌, List, [], ◌++◌, Bool-cases, Option, some, ◌==◌, ◌⊎◌, inl, inr, ◌≡◌,
  ◌≢◌, refl, sym, ap, ◌∙◌, arith, length, take, drop, length-drop, take-append-drop, take_add,
  drop_all,
}
use mathlib.Core.List.{append-nil, append_assoc}
use com_richard_test.Net.{
  WriteReply, wrote, write_failed, count, failure, Returned, writen_loop, writen,
}
use com_richard_test.Net.Socket.{IsSink, written_cases}

module _ {W : Type 0} (eintr : ℕ) {write : W → List ℕ → WriteReply W} {delivered : W → List ℕ}
    {patience : W → ℕ} (s : IsSink write delivered patience) where
  -- A call that gives `Writen` a reason to stop: it takes none of some bytes, or fails with an error that
  -- is not EINTR. `u` is the world behind it.
  pub data Refused (u : W) : Type 0 where
    none_taken : (w : W) (v : List ℕ) → length v ≢ 0 → write w v ≡ wrote 0 u → Refused u
    broken : (w : W) (v : List ℕ) (e : ℕ) → e ≢ eintr → write w v ≡ write_failed e u → Refused u

  -- Either all of `v` is delivered and `n` is returned, or -1, some call has been refused, and only the
  -- first `k` bytes are delivered.
  pub record WritesOn (n : ℕ) (w : W) (v : List ℕ) (o : Option (Returned W)) : Type 0 where
    pub out : Returned W
    pub returns : o ≡ some out
    pub outcome :
        ((out.result ≡ count n) × (delivered out.world ≡ delivered w ++ v))
        ⊎ ((k : ℕ) × (k < length v)
            × (out.result ≡ failure)
            × (delivered out.world ≡ delivered w ++ take k v)
            × Refused out.world)

  refused :
      (n : ℕ) (w u : W) (v rest : List ℕ)
      → length v ≢ 0
      → delivered u ≡ delivered w
      → Refused u
      → WritesOn n w v (some (record { result = failure; bytes = rest; world = u }))
  refused n w u v rest some_left same r = record {
    out = record { result = failure; bytes = rest; world = u };
    returns = refl;
    outcome = inr (0, omega (arith, some_left), refl, same ∙ sym (append-nil (delivered w)), r);
  }

  -- The call took `k` bytes.
  goes_on :
      (n k : ℕ) (w u : W) (v : List ℕ) (o : Option (Returned W))
      → k ≤ length v
      → delivered u ≡ delivered w ++ take k v
      → WritesOn n u (drop k v) o
      → WritesOn n w v o
  goes_on n k w u v o le took r = record {
    out = r.out;
    returns = r.returns;
    outcome = elim (r.outcome) [
      | inl (all, came) ↦ inl (
        all,
        came
            ∙ ap (λ t. t ++ drop k v) took
            ∙ append_assoc (delivered w) (take k v) (drop k v)
            ∙ ap (λ t. delivered w ++ t) (take-append-drop k v),
      )
      | inr (m, lt, failed, came, why) ↦ inr (
        k + m,
        omega (arith, length-drop k v),
        failed,
        came
            ∙ ap (λ t. t ++ take m (drop k v)) took
            ∙ append_assoc (delivered w) (take k v) (take m (drop k v))
            ∙ ap (λ t. delivered w ++ t) (sym (take_add k m v)),
        why,
      )
    ];
  }

  writen_loop-WritesOn :
      (fuel n : ℕ) (w : W) (v : List ℕ)
      → length v + patience w < fuel
      → WritesOn n w v (writen_loop eintr write fuel n w v)
  unfolding writen_loop
  writen_loop-WritesOn zero n w v enough = absurd (omega arith)
  writen_loop-WritesOn (suc fuel) n w v enough = elim (Bool-cases (length v == 0)) [
    | inl done ↦
        let empty : v ≡ [] = drop_all 0 v (ground arith) in
        rw (writen_loop, done)
          (record {
            out = record { result = count n; bytes = v; world = w };
            returns = refl;
            outcome =
                inl (refl, sym (append-nil (delivered w)) ∙ ap (λ t. delivered w ++ t) (sym empty));
          })
    | inr more ↦
        let some_left : length v ≢ 0 = ground arith in
        elim (written_cases (write w v)) [
          | inl (k, u, reply) ↦
              let (le, took) = s.takes w v k u reply in
              elim (Bool-cases (k == 0)) [
                | inl zero_taken ↦
                    let z : k ≡ 0 = ground arith in
                    rw (writen_loop, more, reply, zero_taken)
                      (refused n w u v v some_left
                        (took ∙ ap (λ t. delivered w ++ take t v) z ∙ append-nil (delivered w))
                        (none_taken w v some_left (reply ∙ ap (λ t. wrote t u) z)))
                | inr some_taken ↦
                    rw (writen_loop, more, reply, some_taken)
                      (goes_on n k w u v _ le took (
                        writen_loop-WritesOn fuel n u (drop k v)
                          (ground (arith, s.steady w v k u reply, length-drop k v))))
              ]
          | inr (e, u, reply) ↦
              let (same, fewer) = s.retries w v e u reply in
              elim (Bool-cases (e == eintr)) [
                | inl again ↦
                    rw (writen_loop, more, reply, again)
                      (goes_on n 0 w u v _ (omega arith) (same ∙ sym (append-nil (delivered w)))
                        (writen_loop-WritesOn fuel n u v (omega (arith, fewer))))
                | inr other ↦
                    rw (writen_loop, more, reply, other)
                      (refused n w u v v some_left same (broken w v e (ground arith) reply))
              ]
        ]
  ]

  -- `Writen` returns, within a number of calls that the length and the patience of the socket bound:
  -- either with the length, and the other side gets all bytes, or with -1, and it gets less, since a call
  -- took none of them or failed with an error that is not EINTR.
  pub writen-WritesOn :
      (fuel : ℕ) (w : W) (v : List ℕ)
      → length v + patience w < fuel
      → WritesOn (length v) w v (writen eintr write fuel w v)
  unfolding writen
  writen-WritesOn fuel w v enough = writen_loop-WritesOn fuel (length v) w v enough
