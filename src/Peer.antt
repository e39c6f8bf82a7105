-- ===== src/Peer.antt =====
-- The client of cpp/http: `writemsg` of peer.c, which sends a text and collects the answer, and `req` of
-- http.c, which prints a request, sends it and cuts a line out of the answer. The calls of the system
-- are parameters: on a state of the world they return what the call returns, and the state behind it. A
-- text is the list of its characters without the 0 at the end. What C leaves undefined, and a loop that
-- has run out of fuel, are `none`.
pub mod Lines
pub mod Request
pub mod Receive
pub mod Pieces
pub mod Exchange
mod Tests
use Prim.Native.String.{String}
use com_richard_test.Base.{
  ◌>>=◌, ℕ, zero, suc, ◌+◌, ◌-◌, ◌/◌, ◌%◌, ◌^◌, List, [], ◌∷◌, ◌++◌, true, false, Option, none,
  some, ltb, leb, ◌==◌, if◌then◌else◌, length, take, replicate, codes,
}
use com_richard_test.Report.{strcat}
use com_richard_test.Web.{getln, getbody, starts_with, text}

-- What `connect` returns: 0, or -1.
pub data Connection (W : Type 0) : Type 0 where
  connected : W → Connection W
  refused : W → Connection W

-- What `recv` returns: the bytes that it has put into the buffer, or -1.
pub data RecvReply (W : Type 0) : Type 0 where
  received : List ℕ → W → RecvReply W
  recv_failed : W → RecvReply W

-- What `writemsg` returns, the string in the caller's buffer, and the world behind the call.
pub record Reply (W : Type 0) : Type 0 where
  pub n : ℕ
  pub resp : List ℕ
  pub world : W

-- The buffer that `req` returns, and the world.
pub record Answer (W : Type 0) : Type 0 where
  pub resp : List ℕ
  pub world : W

-- The decimal digits of a number, at most as many as the fuel.
unfoldable pub decimal : ℕ → ℕ → List ℕ
decimal zero n = []
decimal (suc fuel) n =
    let rest = decimal fuel (n / 10) in
    if ltb n 10 then (48 + n) ∷ [] else rest ++ (48 + n % 10) ∷ []

-- `%d` of an `int`, given by its 32-bit pattern; it has at most 10 digits.
unfoldable pub print_int : ℕ → List ℕ
print_int d = if leb (2 ^ 31) d then 45 ∷ decimal 10 (2 ^ 32 - d) else decimal 10 d

-- `%ld` of what `strlen` returns; a `long` has at most 19 digits.
unfoldable pub print_long : ℕ → List ℕ
print_long d = decimal 19 d

-- `sprintf` into a buffer of `cells` cells.
unfoldable pub sprintf : ℕ → List ℕ → Option (List ℕ)
sprintf cells s = if ltb (length s) cells then some s else none

abbrev pub debug_text : List ℕ → ℕ → List ℕ → List ℕ → List ℕ → List ℕ
debug_text ip port method path body =
    codes "curl -X"
    ++ (method
        ++ (codes " --noproxy '*' 'http://"
            ++ (ip
                ++ (codes ":"
                    ++ (print_int port
                        ++ (path
                            ++ (codes "' -H 'Content-Type: application/json;charset=UTF-8' -d'"
                                ++ (body ++ codes "'"))))))))

abbrev pub header_text : List ℕ → ℕ → List ℕ → List ℕ → List ℕ
header_text ip port method path =
    method
    ++ (codes " "
        ++ (path
            ++ (codes " HTTP/1.1\r\nHost: "
                ++ (ip
                    ++ (codes ":"
                        ++ (print_int port ++ codes "\r\nContent-Type: application/json\r\n"))))))

abbrev pub request_text : List ℕ → List ℕ → List ℕ → List ℕ
request_text header method body =
    if starts_with method (codes "GET")
    then header ++ codes "Content-Length:0\r\n\r\n"
    else header
      ++ (codes "Content-Length:" ++ (print_long (length body) ++ (codes "\r\n\r\n" ++ body)))

module _ {W : Type 0} (connect : List ℕ → ℕ → W → Connection W) (write : W → List ℕ → W)
    (recv : W → ℕ → RecvReply W) (close : W → W) where
  -- `resp[n]='\0'`, where `resp` has `cells` cells; an index is an `int`.
  unfoldable pub ended : ℕ → ℕ → List ℕ → W → Option (Reply W)
  ended cells n out w =
      if ltb n cells then some (record { n = n; resp = take n out; world = close w }) else none

  -- The loop of `writemsg`: each round takes up to 256 bytes, and strncat appends them up to a 0. When
  -- `recv` fails, -1 is added to `n`, and the buffer, all 0, appends nothing.
  unfoldable pub recv_loop : ℕ → ℕ → ℕ → List ℕ → W → Option (Reply W)
  recv_loop zero cells n out w = none
  recv_loop (suc fuel) cells n out w = elim (recv w 256) [
    | recv_failed w' ↦ ended cells ((n + 2 ^ 32 - 1) % 2 ^ 32) out w'
    | received v w' ↦ elim (strcat cells out (text v)) [
      | none ↦ none
      | some out' ↦ elim (length v == 256) [
        | true ↦ recv_loop fuel cells ((n + length v) % 2 ^ 32) out' w'
        | false ↦ ended cells ((n + length v) % 2 ^ 32) out' w'
      ]
    ]
  ]

  -- `writemsg` on a buffer of `cells` cells that holds `out`. A refused connection returns 1.
  unfoldable pub writemsg : ℕ → ℕ → List ℕ → ℕ → List ℕ → List ℕ → W → Option (Reply W)
  writemsg fuel cells ip port message out w = elim (connect ip port w) [
    | refused w' ↦ some (record { n = 1; resp = out; world = w' })
    | connected w' ↦ recv_loop fuel cells 0 out (write w' message)
  ]

  -- `req`: line `bodyline` of the body of the answer goes into `resp`, a buffer of `n` cells.
  unfoldable pub req :
      ℕ → List ℕ → ℕ → List ℕ → List ℕ → List ℕ → List ℕ → ℕ → ℕ → W → Option (Answer W)
  req fuel ip port method path body resp n bodyline w = do
    debug ← sprintf 1024 (debug_text ip port method path body)
    header ← sprintf 512 (header_text ip port method path)
    message ← sprintf 1024 (request_text header method body)
    raw_resp ← writemsg fuel 4096 ip port message [] w
    raw_body ← getbody raw_resp.resp (replicate 4096 0) 4096
    resp' ← getln (text raw_body) resp n bodyline
    some (record { resp = resp'; world = raw_resp.world })
