-- ===== src/Peer/Pieces.antt =====
-- What `writemsg` of cpp/http/peer.c makes of an answer that comes in pieces of any sizes.
use com_richard_test.Base.{
  ℕ, suc, ◌-◌, ◌^◌, ◌*◌, ◌≤◌, ◌<◌, List, [], ◌∷◌, ◌++◌, Bool, true, false, ◌||◌, if◌then◌else◌,
  Bool-cases, inl, inr, some, ltb, ◌≡◌, refl, ◌∙◌, arith, length, take,
}
use mathlib.Core.Bool.{false≢true}
use mathlib.Core.List.{append-nil}
use com_richard_test.Web.Parts.{NonZero}
use com_richard_test.Peer.{Connection, connected, RecvReply, received, recv_failed, writemsg}
use com_richard_test.Peer.Receive.{
  short_piece, broken, Receives, last, fails, more, outcome, writemsg-Receives,
}

-- The pieces, of any sizes up to 256, that calls of `recv` from `w` on deliver, and the world behind them.
pub data Pieces {W : Type 0} (recv : W → ℕ → RecvReply W) : W → List (List ℕ) → W → Type 0 where
  no_piece : {w : W} → Pieces recv w [] w
  piece :
      {w w' w'' : W} {v : List ℕ} {pieces : List (List ℕ)}
      → recv w 256 ≡ received v w'
      → length v ≤ 256
      → Pieces recv w' pieces w''
      → Pieces recv w (v ∷ pieces) w''

-- Some piece is shorter than the buffer of 256 bytes.
abbrev pub has_short : List (List ℕ) → Bool
has_short [] = false
has_short (v ∷ pieces) = ltb (length v) 256 || has_short pieces

-- The bytes of the pieces up to the first that is shorter than 256, this one included.
abbrev pub kept : List (List ℕ) → List ℕ
kept [] = []
kept (v ∷ pieces) = v ++ (if ltb (length v) 256 then [] else kept pieces)

-- The pieces behind it.
abbrev pub unread : List (List ℕ) → List (List ℕ)
unread [] = []
unread (v ∷ pieces) = if ltb (length v) 256 then pieces else unread pieces

kept-Receives :
    {W : Type 0} {recv : W → ℕ → RecvReply W} {w w' : W} {pieces : List (List ℕ)}
    → Pieces recv w pieces w'
    → has_short pieces ≡ true
    → (v : W) × Receives recv w (kept pieces) short_piece v × Pieces recv v (unread pieces) w'
kept-Receives no_piece h = absurd (false≢true h)
kept-Receives (piece {w' = u} {v = v} {pieces = pieces} reply le p) h =
    elim (Bool-cases (ltb (length v) 256)) [
      | inl short ↦ rw (short, append-nil v) (u, last reply (ground arith), p)
      | inr full ↦
          let (x, r, rest) = kept-Receives p (ground arith) in
          rw full (x, more reply (ground arith) refl r, rest)
    ]

broken-Receives :
    {W : Type 0} {recv : W → ℕ → RecvReply W} {w w' x : W} {pieces : List (List ℕ)}
    → Pieces recv w pieces w'
    → has_short pieces ≡ false
    → recv w' 256 ≡ recv_failed x
    → Receives recv w (kept pieces) broken x
broken-Receives no_piece h failed = fails failed
broken-Receives (piece {v = v} {pieces = pieces} reply le p) h failed =
    let full : ltb (length v) 256 ≡ false = ground arith in
    rw full (more reply (ground arith) refl (broken-Receives p (ground arith) failed))

module _ {W : Type 0} (connect : List ℕ → ℕ → W → Connection W) (write : W → List ℕ → W)
    (recv : W → ℕ → RecvReply W) (close : W → W) where
  pub writemsg-kept :
      (fuel cells : ℕ) (ip : List ℕ) (port : ℕ) (message : List ℕ) {w u w' : W}
      {pieces : List (List ℕ)}
      → connect ip port w ≡ connected u
      → Pieces recv (write u message) pieces w'
      → has_short pieces ≡ true
      → NonZero (kept pieces)
      → length (kept pieces) < cells
      → cells ≤ 2 ^ 31
      → length (kept pieces) < 256 * fuel
      → (v : W) × (writemsg connect write recv close fuel cells ip port message [] w
          ≡ some (record { n = length (kept pieces); resp = kept pieces; world = close v }))
        × Pieces recv v (unread pieces) w'
  writemsg-kept fuel cells ip port message there p short h fits small enough =
      let (v, r, rest) = kept-Receives p short in
      (
        v,
        writemsg-Receives connect write recv close fuel cells ip port message there r h fits small
            enough,
        rest,
      )

  outcome_cut :
      (bytes : List ℕ) (x : W)
      → 0 < length bytes
      → outcome close bytes broken x
        ≡ some
            (record { n = length bytes - 1; resp = take (length bytes - 1) bytes; world = close x })
  outcome_cut [] x some_byte = absurd (omega arith)
  outcome_cut (c ∷ bytes) x some_byte =
      let one : suc (length bytes) - 1 ≡ length bytes = omega arith in rw one refl

  -- If `recv` fails behind pieces of exactly 256 bytes each, at least one of them, `writemsg` loses the
  -- last byte: it returns one less than the number of the bytes, and the buffer holds those before the
  -- last. The connection is there, and the bytes have no 0 and fit into the buffer of the caller.
  pub writemsg_broken :
      (fuel cells : ℕ) (ip : List ℕ) (port : ℕ) (message : List ℕ) {w u w' x : W}
      {pieces : List (List ℕ)}
      → connect ip port w ≡ connected u
      → Pieces recv (write u message) pieces w'
      → has_short pieces ≡ false
      → recv w' 256 ≡ recv_failed x
      → 0 < length (kept pieces)
      → NonZero (kept pieces)
      → length (kept pieces) < cells
      → cells ≤ 2 ^ 31
      → length (kept pieces) < 256 * fuel
      → writemsg connect write recv close fuel cells ip port message [] w
        ≡ some (record {
          n = length (kept pieces) - 1;
          resp = take (length (kept pieces) - 1) (kept pieces);
          world = close x;
        })
  writemsg_broken fuel cells ip port message {x = x} {pieces = pieces} there p none_short failed
        some_byte h fits small enough =
      writemsg-Receives connect write recv close fuel cells ip port message there
        (broken-Receives p none_short failed) h fits small enough
      ∙ outcome_cut (kept pieces) x some_byte
