-- ===== src/Net/Tests.antt =====
-- A socket on which the theorems and some runs are tried: it gives at most two bytes at a time, or takes
-- at most two, and some calls are interrupted.
use com_richard_test.Base.{
  ℕ, zero, suc, Bool, true, ltb, ◌&&◌, ◌≤◌, ◌<◌, List, [], ◌∷◌, ◌++◌, none, ◌≡◌, refl, sym, ap, ◌∙◌,
  arith, length, take, drop, replicate, length-take, take-append-drop,
}
use com_richard_test.Net.{
  ReadReply, got, read_failed, WriteReply, wrote, write_failed, Reader, readn, writen, readline,
}
use com_richard_test.Net.Socket.{IsSource, IsSink}
use com_richard_test.Net.Reads.{ReadsOn, readn-ReadsOn, readn_stuck}
use com_richard_test.Net.Writes.{WritesOn, writen-WritesOn}
use com_richard_test.Net.Bytes.{IsReader}
use com_richard_test.Net.Lines.{Avoids, ReadsLine, readline-ReadsLine}

-- How many interruptions are to come, and what is pending or delivered.
abbrev World : Type 0
World = ℕ × List ℕ

abbrev room : ℕ → ℕ
room zero = 0
room (suc zero) = 1
room (suc (suc n)) = 2

room-le : (n : ℕ) → room n ≤ n
room-le zero = omega arith
room-le (suc zero) = omega arith
room-le (suc (suc n)) = omega arith

abbrev eintr : ℕ
eintr = 4

read_two : World → ℕ → ReadReply World
read_two (zero, t) n = got (take (room n) t) (0, drop (room n) t)
read_two (suc k, t) n = read_failed eintr (k, t)

abbrev held : World → List ℕ
held w = w.1

abbrev patience : World → ℕ
patience w = w.0

abbrev bytes_read : ReadReply World → List ℕ
bytes_read (got v u) = v
bytes_read (read_failed e u) = []

abbrev error_of : ReadReply World → ℕ
error_of (got v u) = 0
error_of (read_failed e u) = e

abbrev behind_read : ReadReply World → World
behind_read (got v u) = u
behind_read (read_failed e u) = u

take_none : (n : ℕ) (t : List ℕ) → 0 < n → length (take (room n) t) ≡ 0 → t ≡ []
take_none zero t lt h = absurd (omega arith)
take_none (suc zero) [] lt h = refl
take_none (suc zero) (c ∷ t) lt h = absurd (omega arith)
take_none (suc (suc n)) [] lt h = refl
take_none (suc (suc n)) (c ∷ t) lt h = absurd (omega arith)

read_two-IsSource : IsSource read_two held patience
unfolding read_two
read_two-IsSource = record {
  delivers = delivers;
  bounded = bounded;
  ends = ends;
  steady = steady;
  retries = retries;
}
  where
    delivers :
        (w : World) (n : ℕ) (v : List ℕ) (u : World) → read_two w n ≡ got v u → held w ≡ v ++ held u
    delivers (zero, t) n v u e =
        sym (take-append-drop (room n) t)
        ∙ ap (λ x. x ++ drop (room n) t) (ap bytes_read e)
        ∙ ap (λ q. v ++ held q) (ap behind_read e)
    delivers (suc k, t) n v u e = cc

    bounded : (w : World) (n : ℕ) (v : List ℕ) (u : World) → read_two w n ≡ got v u → length v ≤ n
    bounded (zero, t) n v u e =
        omega (arith, length-take (room n) t, room-le n, ap length (ap bytes_read e))
    bounded (suc k, t) n v u e = cc

    ends :
        (w : World) (n : ℕ) (v : List ℕ) (u : World)
        → 0 < n
        → read_two w n ≡ got v u
        → length v ≡ 0
        → held w ≡ []
    ends (zero, t) n v u lt e h = take_none n t lt (ap length (ap bytes_read e) ∙ h)
    ends (suc k, t) n v u lt e h = cc

    steady :
        (w : World) (n : ℕ) (v : List ℕ) (u : World)
        → read_two w n ≡ got v u
        → patience u ≤ patience w
    steady (zero, t) n v u e = omega (arith, ap patience (ap behind_read e))
    steady (suc k, t) n v u e = cc

    retries :
        (w : World) (n e : ℕ) (u : World)
        → read_two w n ≡ read_failed e u
        → (held u ≡ held w) × (patience u < patience w)
    retries (zero, t) n x u e = cc
    retries (suc k, t) n x u e =
        (sym (ap held (ap behind_read e)), omega (arith, ap patience (ap behind_read e)))

read_two_interrupted :
    (w : World) (n e : ℕ) (u : World) → read_two w n ≡ read_failed e u → e ≡ eintr
unfolding read_two
read_two_interrupted (zero, t) n x u e = cc
read_two_interrupted (suc k, t) n x u e = sym (ap error_of e)

write_two : World → List ℕ → WriteReply World
write_two (zero, t) v = wrote (room (length v)) (0, t ++ take (room (length v)) v)
write_two (suc k, t) v = write_failed eintr (k, t)

abbrev bytes_taken : WriteReply World → ℕ
bytes_taken (wrote k u) = k
bytes_taken (write_failed e u) = 0

abbrev behind_write : WriteReply World → World
behind_write (wrote k u) = u
behind_write (write_failed e u) = u

write_two-IsSink : IsSink write_two held patience
unfolding write_two
write_two-IsSink = record { takes = takes; steady = steady; retries = retries }
  where
    takes :
        (w : World) (v : List ℕ) (k : ℕ) (u : World)
        → write_two w v ≡ wrote k u
        → (k ≤ length v) × (held u ≡ held w ++ take k v)
    takes (zero, t) v k u e = (
      omega (arith, room-le (length v), ap bytes_taken e),
      sym (ap held (ap behind_write e)) ∙ ap (λ j. t ++ take j v) (ap bytes_taken e),
    )
    takes (suc m, t) v k u e = cc

    steady :
        (w : World) (v : List ℕ) (k : ℕ) (u : World)
        → write_two w v ≡ wrote k u
        → patience u ≤ patience w
    steady (zero, t) v k u e = omega (arith, ap patience (ap behind_write e))
    steady (suc m, t) v k u e = cc

    retries :
        (w : World) (v : List ℕ) (e : ℕ) (u : World)
        → write_two w v ≡ write_failed e u
        → (held u ≡ held w) × (patience u < patience w)
    retries (zero, t) v x u e = cc
    retries (suc m, t) v x u e =
        (sym (ap held (ap behind_write e)), omega (arith, ap patience (ap behind_write e)))

-- The letters a and b, a line end, and c
abbrev two_lines : List ℕ
two_lines = 97 ∷ 98 ∷ 10 ∷ 99 ∷ []

abbrev all_bytes : List ℕ → Bool
all_bytes [] = true
all_bytes (c ∷ t) = ltb c 256 && all_bytes t

fresh : Reader World
fresh = record { read_cnt = 0; read_ptr = 0; read_buf = replicate 100 0; world = (1, two_lines) }

fresh-IsReader : IsReader fresh
unfolding fresh
fresh-IsReader = record { small = omega arith; inside = omega arith }

readn-ReadsOn_example :
    ReadsOn read_two-IsSource (2, two_lines) 3 (readn read_two 6 (2, two_lines) 3)
readn-ReadsOn_example =
    readn-ReadsOn read_two-IsSource 6 (2, two_lines) 3 (omega arith) (omega arith)

abbrev reset : World → ℕ → ReadReply World
reset w n = read_failed 104 w

readn_stuck_example : readn reset 8 (0, []) 3 ≡ none
readn_stuck_example =
    readn_stuck reset (λ w. 104) (λ w. w) (λ w n. refl) 8 (0, []) 3 (λ e. absurd (omega (arith, e)))

writen-WritesOn_example :
    WritesOn eintr write_two-IsSink 4 (1, []) two_lines (writen eintr write_two 6 (1, []) two_lines)
writen-WritesOn_example = writen-WritesOn eintr write_two-IsSink 6 (1, []) two_lines (omega arith)

avoids : (t : List ℕ) → all_bytes t ≡ true → Avoids 4096 t
avoids [] h = tt
avoids (c ∷ t) h = (ground arith, avoids t (ground arith))

readline-ReadsLine_example :
    ReadsLine eintr read_two-IsSource read_two_interrupted fresh 4
      (readline eintr read_two 4096 3 fresh 4)
unfolding fresh
readline-ReadsLine_example =
    readline-ReadsLine eintr read_two-IsSource read_two_interrupted 4096 3 4 fresh fresh-IsReader
      (omega arith) (omega arith) (avoids two_lines refl)
