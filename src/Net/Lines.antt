-- ===== src/Net/Lines.antt =====
-- `Readline`, which does not see the end of a line: it compares each character with the address of a
-- text.
use com_richard_test.Base.{
  ℕ, zero, suc, ◌+◌, ◌-◌, ◌≤◌, ◌<◌, List, [], ◌∷◌, ◌++◌, false, Option, some, ◌==◌, inl, inr, ◌≡◌,
  ◌≢◌, refl, sym, ap, ◌∙◌, arith, length, take, drop,
}
use mathlib.Core.List.{append_assoc}
use com_richard_test.Net.{ReadReply, read_failed, count, Reader, Line, readline_loop, readline}
use mathlib.Core.Path.{subst}
use com_richard_test.Net.Bytes.{IsReader, stream, my_read-GivesNext}
use com_richard_test.Net.Socket.{IsSource}

-- No byte is the number of the address.
abbrev pub Avoids : ℕ → List ℕ → Type 0
Avoids newline [] = Unit
Avoids newline (c ∷ t) = (c ≢ newline) × Avoids newline t

module _ {W : Type 0} (eintr : ℕ) {read : W → ℕ → ReadReply W} {pending : W → List ℕ}
    {patience : W → ℕ} (s : IsSource read pending patience)
    (interrupted : (w : W) (n e : ℕ) (u : W) → read w n ≡ read_failed e u → e ≡ eintr) where
  -- What the loop of `Readline` leaves: the next `m` bytes behind those that are there, or all that come
  -- before the end, and a 0.
  record Filled (m n : ℕ) (bytes : List ℕ) (r : Reader W) (o : Option (Line W)) : Type 0 where
    out : Line W
    returns : o ≡ some out
    stored : out.bytes ≡ bytes ++ (take m (stream pending r) ++ 0 ∷ [])
    full : m ≤ length (stream pending r) → out.result ≡ count (n + m)
    short : length (stream pending r) < m → out.result ≡ count (n - 1 + length (stream pending r))
    rest : stream pending out.reader ≡ drop m (stream pending r)

  -- One byte more.
  goes_on :
      (m n c : ℕ) (bytes : List ℕ) (r q : Reader W) (o : Option (Line W))
      → 1 ≤ n
      → stream pending r ≡ c ∷ stream pending q
      → Filled m (n + 1) (bytes ++ c ∷ []) q o
      → Filled (suc m) n bytes r o
  goes_on m n c bytes r q o le next f = record {
    out = f.out;
    returns = f.returns;
    stored =
        f.stored
        ∙ append_assoc bytes (c ∷ []) _
        ∙ ap (λ t. bytes ++ (take (suc m) t ++ 0 ∷ [])) (sym next);
    full = λ h. f.full (omega (arith, ap length next)) ∙ ap count (omega arith);
    short = λ h. f.short (omega (arith, ap length next)) ∙ ap count (omega (arith, ap length next));
    rest = f.rest ∙ ap (drop (suc m)) (sym next);
  }

  readline_loop-Filled :
      (newline fuel m n : ℕ) (bytes : List ℕ) (r : Reader W)
      → IsReader r
      → patience r.world < fuel
      → 1 ≤ n
      → Avoids newline (stream pending r)
      → Filled m n bytes r (readline_loop eintr read newline fuel m n bytes r)
  unfolding readline_loop
  readline_loop-Filled newline fuel zero n bytes r v enough le h = record {
    out = record { result = count n; bytes = bytes ++ 0 ∷ []; reader = r };
    returns = refl;
    stored = refl;
    full = λ h. ap count (omega arith);
    short = λ h. absurd (omega arith);
    rest = refl;
  }
  readline_loop-Filled newline fuel (suc m) n bytes r v enough le h =
      let g = my_read-GivesNext eintr s interrupted fuel r v enough in
      elim (g.given) [
        | inl (one, next) ↦
            let tail : Avoids newline (g.out.c ∷ stream pending g.out.reader) =
              subst (Avoids newline) next h in
            let other : (g.out.c == newline) ≡ false = ground (arith, tail.0) in
            rw (readline_loop, g.returns, one, other)
              (goes_on m n g.out.c bytes r g.out.reader _ le next (
                readline_loop-Filled newline fuel m (n + 1) (bytes ++ g.out.c ∷ []) g.out.reader
                  g.valid (omega (arith, g.steady)) (omega arith) tail.1))
        | inr (none_given, ended, after) ↦
            rw (readline_loop, g.returns, none_given)
              (record {
                out = record {
                  result = count (n - 1);
                  bytes = bytes ++ 0 ∷ [];
                  reader = g.out.reader;
                };
                returns = refl;
                stored = ap (λ t. bytes ++ (take (suc m) t ++ 0 ∷ [])) (sym ended);
                full = λ h. absurd (omega (arith, ap length ended));
                short = λ h. ap count (omega (arith, ap length ended));
                rest = after ∙ ap (drop (suc m)) (sym ended);
              })
      ]

  -- The text that `Readline` stores, what it returns, and what comes behind.
  pub record ReadsLine (r : Reader W) (maxlen : ℕ) (o : Option (Line W)) : Type 0 where
    pub out : Line W
    pub returns : o ≡ some out
    pub stored : out.bytes ≡ take (maxlen - 1) (stream pending r) ++ 0 ∷ []
    pub full : maxlen ≤ length (stream pending r) + 1 → out.result ≡ count maxlen
    pub short :
        length (stream pending r) + 1 < maxlen → out.result ≡ count (length (stream pending r))
    pub rest : stream pending out.reader ≡ drop (maxlen - 1) (stream pending r)

  -- On a socket whose calls fail with EINTR only, and if no byte is the number of the address of the
  -- text "\n", `Readline` with room for a character returns: it stores `maxlen - 1` bytes, line ends or
  -- not, and a 0, and returns `maxlen`; or all bytes, and their number, if the other side ends before.
  pub readline-ReadsLine :
      (newline fuel maxlen : ℕ) (r : Reader W)
      → IsReader r
      → patience r.world < fuel
      → 1 ≤ maxlen
      → Avoids newline (stream pending r)
      → ReadsLine r maxlen (readline eintr read newline fuel r maxlen)
  unfolding readline
  readline-ReadsLine newline fuel maxlen r v enough room h =
      let f = readline_loop-Filled newline fuel (maxlen - 1) 1 [] r v enough (omega arith) h in
      record {
        out = f.out;
        returns = f.returns;
        stored = f.stored;
        full = λ h. f.full (omega arith) ∙ ap count (omega arith);
        short = λ h. f.short (omega arith) ∙ ap count (omega arith);
        rest = f.rest;
      }
