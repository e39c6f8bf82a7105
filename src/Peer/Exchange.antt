-- ===== src/Peer/Exchange.antt =====
-- What `req` of cpp/http/http.c cuts out of the answer.
use com_richard_test.Base.{
  ℕ, zero, suc, ◌*◌, ◌<◌, List, ◌∷◌, ◌++◌, true, some, ltb, ◌≡◌, refl, ◌∙◌, arith, length, take,
  drop, replicate, take_all,
}
use com_richard_test.Web.{text}
use com_richard_test.Web.Cut.{write_fits}
use com_richard_test.Web.Line.{line, getln-write}
use com_richard_test.Web.Body.{behind_blank, getbody-write}
use com_richard_test.Web.Parts.{
  NonZero, text-append, held, buffer_fits, behind_blank-NonZero, before-NonZero, behind-NonZero,
}
use com_richard_test.Peer.{
  Connection, connected, RecvReply, Answer, sprintf, debug_text, header_text, request_text, req,
}
use com_richard_test.Peer.Lines.{length-behind_blank}
use com_richard_test.Peer.Pieces.{Pieces, has_short, kept, unread, writemsg-kept}

line-NonZero : (l : ℕ) (s : List ℕ) → NonZero s → NonZero (line l s)
line-NonZero zero s h = before-NonZero _ s h
line-NonZero (suc l) s h = line-NonZero l _ (behind-NonZero _ s h)

sprintf_fits : (cells : ℕ) (s : List ℕ) → length s < cells → sprintf cells s ≡ some s
unfolding sprintf
sprintf_fits cells s lt = let fits : ltb (length s) cells ≡ true = ground arith in rw fits refl

-- The texts that `req` prints are shorter than its buffers.
abbrev pub Prints : List ℕ → ℕ → List ℕ → List ℕ → List ℕ → Type 0
Prints ip port method path body =
    (length (debug_text ip port method path body) < 1024)
    × (length (header_text ip port method path) < 512)
    × (length (request_text (header_text ip port method path) method body) < 1024)

module _ {W : Type 0} (connect : List ℕ → ℕ → W → Connection W) (write : W → List ℕ → W)
    (recv : W → ℕ → RecvReply W) (close : W → W) where
  -- Let the texts of the request fit, the connection be there, and `recv` deliver pieces of any sizes up
  -- to 256 bytes behind the request, one of them shorter than 256. If the bytes up to the first such
  -- piece have no 0 and are fewer than 4096, and line `bodyline` of the body in them is shorter than `n`
  -- and than the buffer of the caller, `req` returns: the buffer holds exactly that one line, without
  -- the lines behind it. The pieces behind the first short one are still to be read when the connection
  -- is closed.
  pub req-line :
      (fuel : ℕ) (ip : List ℕ) (port : ℕ) (method path body resp : List ℕ) (n bodyline : ℕ)
      {w u w' : W} {pieces : List (List ℕ)}
      → Prints ip port method path body
      → connect ip port w ≡ connected u
      → Pieces recv (write u (request_text (header_text ip port method path) method body)) pieces w'
      → has_short pieces ≡ true
      → NonZero (kept pieces)
      → length (kept pieces) < 4096
      → length (kept pieces) < 256 * fuel
      → length (line bodyline (behind_blank (kept pieces))) < n
      → length (line bodyline (behind_blank (kept pieces))) < length resp
      → (a : Answer W) × (v : W) × (req connect write recv close fuel ip port method path body resp
            n bodyline w
          ≡ some a)
        × (text a.resp ≡ line bodyline (behind_blank (kept pieces)))
        × (a.world ≡ close v)
        × Pieces recv v (unread pieces) w'
  unfolding req
  req-line fuel ip port method path body resp n bodyline {pieces = pieces}
        (debug_fits, header_fits, message_fits) there p short h small enough in_n in_resp =
      let bytes = kept pieces in
      let b = behind_blank bytes in
      let b_h : NonZero b = behind_blank-NonZero bytes h in
      let l = line bodyline b in
      let (v, reply, rest) =
        writemsg-kept connect write recv close fuel 4096 ip port
          (request_text (header_text ip port method path) method body) there p short h small
          (omega arith) enough in
      let b_eq =
        getbody-write bytes (replicate 4096 0) 4096
        ∙ buffer_fits b 4096 (omega (arith, length-behind_blank bytes)) in
      let b_text : text (held b 4096) ≡ b = text-append _ _ b_h in
      let l_eq = getln-write b resp n bodyline in
      let taken : take n l ≡ l = take_all n l (omega arith) in
      (
        record { resp = l ++ 0 ∷ drop (suc (length l)) resp; world = close v },
        v,
        rw
            (
              sprintf_fits 1024 _ debug_fits,
              sprintf_fits 512 _ header_fits,
              sprintf_fits 1024 _ message_fits,
              reply,
              b_eq,
              b_text,
              l_eq,
              taken,
              write_fits l resp in_resp,
            )
            refl,
        text-append l _ (line-NonZero bodyline b b_h),
        refl,
        rest,
      )
