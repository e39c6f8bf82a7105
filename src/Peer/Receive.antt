-- ===== src/Peer/Receive.antt =====
-- The loop of `writemsg` in cpp/http/peer.c, round by round.
use com_richard_test.Base.{
  ℕ, zero, suc, ◌+◌, ◌-◌, ◌%◌, ◌^◌, ◌*◌, ◌≤◌, ◌<◌, List, [], ◌∷◌, ◌++◌, true, false, Option, none,
  some, ltb, ◌==◌, ◌≡◌, refl, ap, ◌∙◌, arith, length, length-append, take, take_all,
}
use mathlib.Core.List.{append-nil, append_assoc}
use com_richard_test.Report.{strcat}
use com_richard_test.Web.Parts.{NonZero}
use com_richard_test.Peer.{
  Connection, connected, RecvReply, received, recv_failed, Reply, ended, recv_loop, writemsg,
}
use com_richard_test.Peer.Lines.{text-NonZero}

-- How the reception ends: with a piece of fewer than 256 bytes, or with an error.
pub data Ending : Type 0 where
  short_piece : Ending
  broken : Ending

-- What the loop takes from `w` on: pieces of exactly 256 bytes up to a shorter one or an error.
pub data Receives {W : Type 0} (recv : W → ℕ → RecvReply W) : W → List ℕ → Ending → W → Type 0 where
  last :
      {w w' : W} {v : List ℕ}
      → recv w 256 ≡ received v w'
      → length v < 256
      → Receives recv w v short_piece w'
  fails : {w w' : W} → recv w 256 ≡ recv_failed w' → Receives recv w [] broken w'
  more :
      {w w' w'' : W} {v bytes rest : List ℕ} {e : Ending}
      → recv w 256 ≡ received v w'
      → length v ≡ 256
      → bytes ≡ v ++ rest
      → Receives recv w' rest e w''
      → Receives recv w bytes e w''

-- All that was taken, when the reception ends with a short piece; the last byte is lost when it ends with
-- an error, and without a byte there is no result.
abbrev pub outcome : {W : Type 0} → (W → W) → List ℕ → Ending → W → Option (Reply W)
outcome close bytes short_piece w =
    some (record { n = length bytes; resp = bytes; world = close w })
outcome close [] broken w = none
outcome close (c ∷ bytes) broken w =
    some (record { n = length bytes; resp = take (length bytes) (c ∷ bytes); world = close w })

NonZero-left : (s t : List ℕ) → NonZero (s ++ t) → NonZero s
NonZero-left [] t h = tt
NonZero-left (c ∷ s) t (c0, h) = (c0, NonZero-left s t h)

NonZero-right : (s t : List ℕ) → NonZero (s ++ t) → NonZero t
NonZero-right [] t h = h
NonZero-right (c ∷ s) t (c0, h) = NonZero-right s t h

module _ {W : Type 0} (connect : List ℕ → ℕ → W → Connection W) (write : W → List ℕ → W)
    (recv : W → ℕ → RecvReply W) (close : W → W) where
  ended_all :
      (cells n : ℕ) (out : List ℕ) (w : W)
      → n ≡ length out
      → n < cells
      → ended connect write recv close cells n out w ≡ outcome close out short_piece w
  unfolding ended
  ended_all cells n out w e lt =
      let fits : ltb (length out) cells ≡ true = ground (arith, e) in
      rw (e, fits, take_all (length out) out (omega arith)) refl

  ended_broken :
      (cells : ℕ) (out : List ℕ) (w : W)
      → length out < cells
      → cells ≤ 2 ^ 31
      → ended connect write recv close cells ((length out + 2 ^ 32 - 1) % 2 ^ 32) out w
        ≡ outcome close out broken w
  unfolding ended
  ended_broken cells [] w lt small =
      let outside : ltb (2 ^ 32 - 1) cells ≡ false = ground arith in rw outside refl
  ended_broken cells (c ∷ out) w lt small =
      let count : (suc (length out) + 2 ^ 32 - 1) % 2 ^ 32 ≡ length out = omega arith in
      let fits : ltb (length out) cells ≡ true = ground arith in rw (count, fits) refl

  recv_loop-Receives :
      (fuel cells : ℕ) (out : List ℕ) {w w' : W} {bytes : List ℕ} {e : Ending}
      → Receives recv w bytes e w'
      → NonZero bytes
      → length out + length bytes < cells
      → cells ≤ 2 ^ 31
      → length bytes < 256 * fuel
      → recv_loop connect write recv close fuel cells (length out) out w
        ≡ outcome close (out ++ bytes) e w'
  unfolding recv_loop strcat
  recv_loop-Receives zero cells out r h fits small enough = absurd (omega arith)
  recv_loop-Receives (suc fuel) cells out (last {w' = w'} {v = v} reply short) h fits small enough =
      let room : ltb (length out + length v) cells ≡ true = ground arith in
      let ends : (length v == 256) ≡ false = ground arith in
      rw (recv_loop, reply, text-NonZero v h, room, ends)
        (ended_all cells _ (out ++ v) w' (omega (arith, length-append out v)) (omega arith))
  recv_loop-Receives (suc fuel) cells out (fails {w' = w'} reply) h fits small enough =
      rw (recv_loop, reply, append-nil out) (ended_broken cells out w' (omega arith) small)
  recv_loop-Receives (suc fuel) cells out {e = e}
        (more {w'' = end} {v = v} {rest = rest} reply full split r) h fits small enough =
      let parts : NonZero (v ++ rest) = rw split at h in
      let room : ltb (length out + length v) cells ≡ true =
        ground (arith, ap length split, length-append v rest) in
      let goes_on : (length v == 256) ≡ true = ground arith in
      let counted : (length out + length v) % 2 ^ 32 ≡ length (out ++ v) =
        omega (arith, ap length split, length-append v rest, length-append out v) in
      rw
        (
          recv_loop,
          reply,
          text-NonZero v (NonZero-left v rest parts),
          room,
          goes_on,
          counted,
          split,
        )
        (recv_loop-Receives fuel cells (out ++ v) r (NonZero-right v rest parts)
            (omega (arith, ap length split, length-append v rest, length-append out v)) small
            (omega (arith, ap length split, length-append v rest))
          ∙ ap (λ t. outcome close t e end) (append_assoc out v rest))

  pub writemsg-Receives :
      (fuel cells : ℕ) (ip : List ℕ) (port : ℕ) (message : List ℕ) {w u w' : W} {bytes : List ℕ}
      {e : Ending}
      → connect ip port w ≡ connected u
      → Receives recv (write u message) bytes e w'
      → NonZero bytes
      → length bytes < cells
      → cells ≤ 2 ^ 31
      → length bytes < 256 * fuel
      → writemsg connect write recv close fuel cells ip port message [] w ≡ outcome close bytes e w'
  unfolding writemsg
  writemsg-Receives fuel cells ip port message there r h fits small enough =
      rw (writemsg, there) (recv_loop-Receives fuel cells [] r h (omega arith) small enough)
