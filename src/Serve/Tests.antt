-- ===== src/Serve/Tests.antt =====
-- Runs of `dispatch` of cpp/http/dispatcher.c, and client and server together at concrete inputs.
use com_richard_test.Base.{
  ◌∷◌, ◌++◌, ◌>>=◌, ℕ, List, [], true, false, none, some, codes, ◌≡◌, refl, arith, replicate,
}
use com_richard_test.Web.{
  put, method_loop, getmethod, uri_loop, geturi, line_loop, getln, body_loop, getbody, starts_with,
  text, cut_request,
}
use com_richard_test.Report.{
  parsedt, prs_up_rpt_dt, prs_dt_u, prs_up_rpt_dt_obj, fields, head_fields, union_fields,
  obj_fields, read, read_all, strcat, cell,
}
use com_richard_test.Peer.{
  Connection, connected, RecvReply, received, recv_failed, Answer, decimal, print_int, print_long,
  sprintf, header_text, request_text, req,
}
use com_richard_test.Peer.Lines.{free-NonZero}
use com_richard_test.Peer.Pieces.{piece, no_piece}
use com_richard_test.Web.Line.{line}
use com_richard_test.Peer.Exchange.{Prints}
use com_richard_test.Serve.{response_body, answer_text, dispatch}
use com_richard_test.Serve.Route.{dispatch-request, req-report}

-- Another path: the fixed answer.
other_path :
    dispatch 1024 (codes "POST /x HTTP/1.1\r\n\r\n")
    ≡ some (codes "HTTP/1.1 200 OK\r\nContent-Length: 14\r\n\r\n{\"status\":200}")
unfolding dispatch response_body cut_request put getmethod method_loop geturi uri_loop getln
    line_loop getbody body_loop starts_with sprintf print_long decimal
other_path = refl

-- The answer to the method GET stands in an array that has ended.
get_undefined : dispatch 1024 (codes "GET /x HTTP/1.1\r\n\r\n") ≡ none
unfolding dispatch response_body cut_request put getmethod method_loop geturi uri_loop getln
    line_loop getbody body_loop starts_with sprintf
get_undefined = refl

abbrev host : List ℕ
host = codes "10.0.0.1"

to_prs_dt : starts_with (codes "/prs/dt") (codes "/prs/dt") ≡ true
unfolding starts_with
to_prs_dt = refl

not_get : starts_with (codes "POST") (codes "GET") ≡ false
unfolding starts_with
not_get = refl

dispatch-request_example :
    (report : List ℕ) × (text report ≡ codes "00")
    × (dispatch 1024 (
          request_text
            (header_text host 8083 (codes "POST") (codes "/prs/dt"))
            (codes "POST")
            (codes "00"))
        ≡ (parsedt report >>= (λ respbd. sprintf 1024 (answer_text respbd))))
dispatch-request_example =
    dispatch-request 1024 host 8083 (codes "POST") (codes "/prs/dt") (codes "00") refl refl refl
      (free-NonZero (codes "00") refl) (omega arith) (omega arith) (omega arith) not_get to_prs_dt

-- The world is the pieces that are to come; behind them `recv` fails.
abbrev World : Type 0
World = List (List ℕ)

abbrev connect : List ℕ → ℕ → World → Connection World
connect ip port w = connected w

abbrev write : World → List ℕ → World
write w message = w

abbrev recv : World → ℕ → RecvReply World
recv [] n = recv_failed []
recv (v ∷ w) n = received v w

abbrev close : World → World
close w = w

-- The answer to the body 00: all fields are empty.
abbrev printed : List ℕ
printed =
    codes
      "{\"time\":\"\",\"sts\":\"\",\"iVStd\":\"\",\"iV\":\"\",\"fVStd\":\"\",\"fV\":\"\",\"flwRtStd\":\"\",\"flwRt\":\"\",\"t\":\"\",\"p\":\"\",\"engSum\":\"\",\"engDst\":\"\",\"acsV\":\"\",\"vlt\":\"\",\"pwr\":\"\",\"nb\":\"\",\"ecl\":\"\",\"cid\":\"\",\"rnf\":\"\",\"ext\":}"

abbrev answer : List ℕ
answer = codes "HTTP/1.1 200 OK\r\nContent-Length: 191\r\n\r\n" ++ printed

abbrev message : List ℕ
message =
    request_text (header_text host 8083 (codes "POST") (codes "/prs/dt")) (codes "POST")
      (codes "00")

message_fits : Prints host 8083 (codes "POST") (codes "/prs/dt") (codes "00")
unfolding print_int print_long decimal starts_with
message_fits = (omega arith, omega arith, omega arith)

served : dispatch 1024 message ≡ some answer
unfolding dispatch response_body cut_request put getmethod method_loop geturi uri_loop getln
    line_loop getbody body_loop starts_with sprintf print_int print_long decimal parsedt
    prs_up_rpt_dt prs_dt_u prs_up_rpt_dt_obj fields head_fields union_fields obj_fields read
    read_all strcat cell
served = refl

req-report_example :
    (report : List ℕ) × (respbd : List ℕ) × (text report ≡ codes "00")
    × (parsedt report ≡ some respbd)
    × (a : Answer World) × (req connect write recv close 1 host 8083
          (codes "POST")
          (codes "/prs/dt")
          (codes "00")
          (replicate 300 0)
          300
          0
          (answer ∷ [])
        ≡ some a)
    × (text a.resp ≡ line 0 respbd)
req-report_example =
    req-report connect write recv close 1024 1 host 8083 (codes "POST") (codes "/prs/dt")
      (codes "00") (replicate 300 0) 300 0 refl refl refl (free-NonZero (codes "00") refl)
      (omega arith) (omega arith) (omega arith) not_get to_prs_dt message_fits refl
      (piece refl (omega arith) no_piece) refl served (free-NonZero answer refl) (omega arith)
      (omega arith) (omega arith) (omega arith)
