-- ===== src/Serve/Route.antt =====
-- Client and server together: `req` of cpp/http/http.c prints a request, `dispatch` answers it.
use com_richard_test.Base.{
  ◌>>=◌, ℕ, ◌*◌, ◌<◌, List, ◌∷◌, ◌++◌, true, false, Option, none, some, ltb, Bool-cases, inl, inr,
  sym, ◌≡◌, refl, ap, ◌∙◌, arith, length, codes,
}
use com_richard_test.Web.{starts_with, text, is_eol, Request, cut_request}
use com_richard_test.Web.Line.{line}
use com_richard_test.Web.Body.{behind_blank}
use com_richard_test.Web.Parts.{NonZero}
use com_richard_test.Report.{parsedt}
use com_richard_test.Peer.{
  Connection, connected, RecvReply, Answer, print_long, sprintf, header_text, request_text, req,
}
use com_richard_test.Peer.Lines.{
  free, is_mark, free-append, free_wider, behind_blank-crlf, behind_blank_last, crlf,
  print_long-free,
}
use com_richard_test.Peer.Request.{is_break, sent_body, request-cut, mark_eol}
use com_richard_test.Peer.Pieces.{Pieces, has_short, kept}
use mathlib.Core.Option.{some-injective}
use com_richard_test.Peer.Exchange.{Prints, req-line}
use com_richard_test.Serve.{response_body, answer_text, dispatch}

-- The body of an answer is behind its blank line.
pub answer_text-body : (respbd : List ℕ) → behind_blank (answer_text respbd) ≡ respbd
answer_text-body respbd =
    behind_blank-crlf (codes "HTTP/1.1 200 OK") 67
      (crlf (codes "ontent-Length: " ++ print_long (length respbd)) (13 ∷ 10 ∷ respbd)) refl refl
    ∙ behind_blank_last (codes "Content-Length: " ++ print_long (length respbd)) respbd (
        free-append is_eol (codes "Content-Length: ") (print_long (length respbd)) refl (
          free_wider is_mark is_eol mark_eol (print_long (length respbd))
            (print_long-free (length respbd))))

to_parser :
    (cells : ℕ) (message method path : List ℕ) (p : Request)
    → cut_request message ≡ some p
    → text p.method ≡ method
    → text p.uri ≡ path
    → starts_with method (codes "GET") ≡ false
    → starts_with path (codes "/prs/dt") ≡ true
    → dispatch cells message ≡ (parsedt p.body >>= (λ respbd. sprintf cells (answer_text respbd)))
unfolding dispatch response_body
to_parser cells message method path p cut m u other route = rw (cut, m, u, other, route) refl

-- `dispatch` answers a report that `req` sends to /prs/dt with another method than GET, if the method
-- and the path are words, the name of the host has no line end, no text has a 0, and the parts are
-- shorter than the buffers: what the parser makes of a buffer whose string is the body of the request
-- is printed as the body of the answer, if it fits, and there is no result where the parser has none.
pub dispatch-request :
    (cells : ℕ) (ip : List ℕ) (port : ℕ) (method path body : List ℕ)
    → free is_mark method ≡ true
    → free is_mark path ≡ true
    → free is_break ip ≡ true
    → NonZero body
    → length method < 5
    → length path < 50
    → length body < 1024
    → starts_with method (codes "GET") ≡ false
    → starts_with path (codes "/prs/dt") ≡ true
    → (report : List ℕ) × (text report ≡ body)
      × (dispatch cells (request_text (header_text ip port method path) method body)
          ≡ (parsedt report >>= (λ respbd. sprintf cells (answer_text respbd))))
dispatch-request cells ip port method path body hm hp hi hb lm lp lb other route =
    let same : sent_body method body ≡ body = rw other refl in
    let (p, cut, (m, u, b)) =
      request-cut ip port method path body hm hp hi hb lm lp (omega (arith, ap length same)) in
    (p.body, b ∙ same, to_parser cells _ method path p cut m u other route)

-- What stands in an answer that fits.
answer-parts :
    (cells : ℕ) (parsed : Option (List ℕ)) (answer : List ℕ)
    → (parsed >>= (λ respbd. sprintf cells (answer_text respbd))) ≡ some answer
    → (respbd : List ℕ) × (parsed ≡ some respbd) × (answer_text respbd ≡ answer)
unfolding sprintf
answer-parts cells none answer e = absurd (cc)
answer-parts cells (some respbd) answer e =
    elim (Bool-cases (ltb (length (answer_text respbd)) cells)) [
      | inl fits ↦ (respbd, refl, some-injective _ _ (rw fits at e))
      | inr over ↦ let none_printed : none ≡ some answer = rw over at e in absurd (cc)
    ]

-- A report goes to the server and the parsed text comes back. Let a request of `req` to /prs/dt meet the
-- conditions of dispatch-request, its texts fit, the connection be there, and `recv` deliver pieces of
-- any sizes up to 256 bytes, one of them shorter than 256, such that the bytes up to the first of these
-- are what `dispatch` answers to this very request. If they have no 0 and are fewer than 4096, and the
-- wanted line is shorter than `n` and than the buffer of the caller, the parser has a result for a buffer
-- whose string is the body of the request, and `req` returns exactly line `bodyline` of that result.
pub req-report :
    {W : Type 0} (connect : List ℕ → ℕ → W → Connection W) (write : W → List ℕ → W)
    (recv : W → ℕ → RecvReply W) (close : W → W) (cells fuel : ℕ) (ip : List ℕ) (port : ℕ)
    (method path body resp : List ℕ) (n bodyline : ℕ) {w u w' : W} {pieces : List (List ℕ)}
    → free is_mark method ≡ true
    → free is_mark path ≡ true
    → free is_break ip ≡ true
    → NonZero body
    → length method < 5
    → length path < 50
    → length body < 1024
    → starts_with method (codes "GET") ≡ false
    → starts_with path (codes "/prs/dt") ≡ true
    → Prints ip port method path body
    → connect ip port w ≡ connected u
    → Pieces recv (write u (request_text (header_text ip port method path) method body)) pieces w'
    → has_short pieces ≡ true
    → dispatch cells (request_text (header_text ip port method path) method body)
      ≡ some (kept pieces)
    → NonZero (kept pieces)
    → length (kept pieces) < 4096
    → length (kept pieces) < 256 * fuel
    → length (line bodyline (behind_blank (kept pieces))) < n
    → length (line bodyline (behind_blank (kept pieces))) < length resp
    → (report : List ℕ) × (respbd : List ℕ) × (text report ≡ body)
      × (parsedt report ≡ some respbd)
      × (a : Answer W) × (req connect write recv close fuel ip port method path body resp n bodyline
            w
          ≡ some a)
      × (text a.resp ≡ line bodyline respbd)
req-report connect write recv close cells fuel ip port method path body resp n bodyline
      {pieces = pieces} hm hp hi hb lm lp lb other route fit there p short served h small enough
      in_n in_resp =
    let (report, holds_body, answered) =
      dispatch-request cells ip port method path body hm hp hi hb lm lp lb other route in
    let (respbd, parsed, printed) =
      answer-parts cells (parsedt report) (kept pieces) (sym answered ∙ served) in
    let (a, v, returns, cut, closed, rest) =
      req-line connect write recv close fuel ip port method path body resp n bodyline fit there p
        short h small enough in_n in_resp in
    let back : line bodyline (behind_blank (kept pieces)) ≡ line bodyline respbd =
      ap (λ t. line bodyline (behind_blank t)) (sym printed)
      ∙ ap (line bodyline) (answer_text-body respbd) in
    (report, respbd, holds_body, parsed, a, returns, cut ∙ back)
