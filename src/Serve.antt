-- ===== src/Serve.antt =====
-- The answer of `dispatch` in cpp/http/dispatcher.c, behind the cuts of Web. Where the pointer to the
-- body of the answer points to an array that has ended (for the method GET and for /up/dt), or was never
-- set (for /dn/dt), printing it is undefined in C: here the result is `none`.
pub mod Route
mod Tests
use com_richard_test.Base.{
  ◌>>=◌, ℕ, List, ◌++◌, true, false, Option, none, some, if◌then◌else◌, length, codes,
}
use com_richard_test.Web.{starts_with, text, Request, cut_request}
use com_richard_test.Report.{parsedt}
use com_richard_test.Peer.{print_long, sprintf}

-- `respbd`, by the method and the URI.
unfoldable pub response_body : Request → Option (List ℕ)
response_body p =
    if starts_with (text p.method) (codes "GET")
    then none
    else (if starts_with (text p.uri) (codes "/prs/dt")
        then parsedt p.body
        else (if starts_with (text p.uri) (codes "/up/dt")
            then none
            else (if starts_with (text p.uri) (codes "/dn/dt")
                then none
                else some (codes "{\"status\":200}"))))

abbrev pub answer_text : List ℕ → List ℕ
answer_text respbd =
    codes "HTTP/1.1 200 OK\r\nContent-Length: "
    ++ (print_long (length respbd) ++ (codes "\r\n\r\n" ++ respbd))

-- `dispatch` with a buffer of `cells` cells for the answer: what it holds, whose length is returned.
unfoldable pub dispatch : ℕ → List ℕ → Option (List ℕ)
dispatch cells req = do
  p ← cut_request req
  respbd ← response_body p
  sprintf cells (answer_text respbd)
