-- ===== src/Peer/Tests.antt =====
-- Runs of the client of cpp/http on short texts, and the theorems at concrete inputs.
use com_richard_test.Base.{
  ℕ, ◌<◌, List, [], ◌∷◌, ◌++◌, some, ◌≡◌, refl, arith, replicate, codes, length,
}
use com_richard_test.Report.{strcat}
use com_richard_test.Web.{starts_with, Request, text, cut_request}
use com_richard_test.Peer.{
  Connection, connected, RecvReply, received, recv_failed, Answer, decimal, print_int, header_text,
  request_text, ended, recv_loop, writemsg, req,
}
use com_richard_test.Peer.Lines.{free-NonZero}
use com_richard_test.Peer.Request.{IsSent, sent_body, request-cut}
use com_richard_test.Peer.Pieces.{Pieces, piece, no_piece}
use com_richard_test.Peer.Exchange.{Prints, req-line}

-- The world is the pieces that are to come; behind them `recv` fails.
abbrev World : Type 0
World = List (List ℕ)

abbrev connect : List ℕ → ℕ → World → Connection World
connect ip port w = connected w

abbrev write : World → List ℕ → World
write w message = w

abbrev recv : World → ℕ → RecvReply World
recv [] n = recv_failed []
recv (v ∷ w) n = received v w

abbrev close : World → World
close w = w

printed : print_int 8083 ≡ codes "8083"
unfolding print_int decimal
printed = refl

printed_minus : print_int 0xffffffff ≡ codes "-1"
unfolding print_int decimal
printed_minus = refl

-- The first piece is short: what comes behind it is not read.
piece_lost :
    writemsg connect write recv close 9 4096 (codes "ip") 80 [] [] (codes "ab" ∷ codes "cd" ∷ [])
    ≡ some (record { n = 2; resp = codes "ab"; world = codes "cd" ∷ [] })
unfolding writemsg recv_loop ended strcat
piece_lost = refl

abbrev host : List ℕ
host = codes "10.0.0.1"

abbrev message : List ℕ
message =
    request_text (header_text host 8083 (codes "POST") (codes "/prs/dt")) (codes "POST")
      (codes "00")

post_fits : length (sent_body (codes "POST") (codes "00")) < 1024
unfolding starts_with
post_fits = omega arith

request-cut_example :
    (p : Request) × (cut_request message ≡ some p)
    × IsSent (codes "POST") (codes "/prs/dt") (codes "00") p
unfolding starts_with
request-cut_example =
    request-cut host 8083 (codes "POST") (codes "/prs/dt") (codes "00") refl refl refl
      (free-NonZero (codes "00") refl) (omega arith) (omega arith) post_fits

abbrev long_answer : List ℕ
long_answer = replicate 256 97 ++ 98 ∷ []

-- `recv` fails behind a piece of 256 bytes: the last one is lost.
last_byte_lost :
    writemsg connect write recv close 2 4096 host 80 (codes "hi") [] (replicate 256 97 ∷ [])
    ≡ some (record { n = 255; resp = replicate 255 97; world = [] })
unfolding writemsg recv_loop ended strcat
last_byte_lost = refl

abbrev answer : List ℕ
answer = codes "HTTP/1.1 200 OK\r\n\r\nab\ncd"

get_fits : Prints host 8083 (codes "GET") (codes "/a") []
unfolding print_int decimal starts_with
get_fits = (omega arith, omega arith, omega arith)

req-line_example :
    (a : Answer World) × (v : World) × (req connect write recv close 1 host 8083
        (codes "GET")
        (codes "/a")
        []
        (replicate 8 0)
        8
        1
        (answer ∷ [])
      ≡ some a)
    × (text a.resp ≡ codes "cd")
    × (a.world ≡ close v)
    × Pieces recv v [] []
req-line_example =
    req-line connect write recv close 1 host 8083 (codes "GET") (codes "/a") [] (replicate 8 0) 8 1
      get_fits refl (piece refl (omega arith) no_piece) refl (free-NonZero answer refl)
      (omega arith) (omega arith) (omega arith) (omega arith)
