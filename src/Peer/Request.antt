-- ===== src/Peer/Request.antt =====
-- The request that `req` of cpp/http/http.c prints, and how `dispatch` of cpp/http/dispatcher.c cuts it.
use com_richard_test.Base.{
  ℕ, ◌+◌, ◌<◌, List, [], ◌∷◌, ◌++◌, Bool, true, false, ◌||◌, ◌==◌, some, Bool-cases, inl, inr, ◌≡◌,
  refl, ap, ◌∙◌, arith, if◌then◌else◌, length, length-append, codes,
}
use mathlib.Core.List.{append-nil, append_assoc}
use com_richard_test.Web.{is_eol, is_end, starts_with, text, Request, cut_request}
use com_richard_test.Web.Cut.{before, is_space}
use com_richard_test.Web.Line.{line}
use com_richard_test.Web.Body.{behind_blank}
use com_richard_test.Web.Parts.{NonZero, Fits, first_word, second_word, cut_request-Fits}
use com_richard_test.Peer.{print_int, print_long, header_text, request_text}
use com_richard_test.Peer.Lines.{
  free, is_mark, free-append, free_wider, free-NonZero, NonZero-append, before-append,
  behind-append, crlf, behind_blank-crlf, behind_blank_last, print_int-free, print_long-free,
}

-- A character that cannot stand in the name of a host.
abbrev pub is_break : ℕ → Bool
is_break c = is_eol c || (c == 0)

abbrev first_line : List ℕ → List ℕ → List ℕ
first_line method path = method ++ (32 ∷ path ++ codes " HTTP/1.1")

abbrev host_line : List ℕ → ℕ → List ℕ
host_line ip port = codes "Host: " ++ (ip ++ (58 ∷ print_int port))

-- The length that the header names, and the body behind it.
abbrev named_length : List ℕ → List ℕ → List ℕ
named_length method body =
    if starts_with method (codes "GET") then codes "0" else print_long (length body)

-- A request with the method GET has no body.
abbrev pub sent_body : List ℕ → List ℕ → List ℕ
sent_body method body = if starts_with method (codes "GET") then [] else body

abbrev in_lines : List ℕ → ℕ → List ℕ → List ℕ → List ℕ → List ℕ → List ℕ
in_lines ip port method path len body = crlf (first_line method path) (
    crlf (host_line ip port) (
      crlf (codes "Content-Type: application/json")
        (crlf (codes "Content-Length:" ++ len) (13 ∷ 10 ∷ body))))

request-lines :
    (ip : List ℕ) (port : ℕ) (method path body : List ℕ)
    → request_text (header_text ip port method path) method body
      ≡ in_lines ip port method path (named_length method body) (sent_body method body)
request-lines ip port method path body = elim (Bool-cases (starts_with method (codes "GET"))) [
  | inl get ↦ rw get (simp append_assoc refl)
  | inr other ↦ rw other (simp append_assoc refl)
]

mark_end : (c : ℕ) → is_mark c ≡ false → is_end c ≡ false
mark_end c h = ground arith

pub mark_eol : (c : ℕ) → is_mark c ≡ false → is_eol c ≡ false
mark_eol c h = ground arith

mark_space : (c : ℕ) → is_mark c ≡ false → is_space c ≡ false
mark_space c h = ground arith

abbrev pub is_zero : ℕ → Bool
is_zero c = c == 0

pub mark_zero : (c : ℕ) → is_mark c ≡ false → is_zero c ≡ false
mark_zero c h = ground arith

mark_break : (c : ℕ) → is_mark c ≡ false → is_break c ≡ false
mark_break c h = ground arith

break_eol : (c : ℕ) → is_break c ≡ false → is_eol c ≡ false
break_eol c h = ground arith

break_zero : (c : ℕ) → is_break c ≡ false → is_zero c ≡ false
break_zero c h = ground arith

crlf-NonZero : (l t : List ℕ) → free is_zero l ≡ true → NonZero t → NonZero (crlf l t)
crlf-NonZero l t hl ht =
    NonZero-append l (13 ∷ 10 ∷ t) (free-NonZero l hl) (omega arith, (omega arith, ht))

module _ (method path : List ℕ) (method_word : free is_mark method ≡ true)
    (path_word : free is_mark path ≡ true) where
  first_line-free :
      (stop : ℕ → Bool)
      → ((c : ℕ) → is_mark c ≡ false → stop c ≡ false)
      → free stop (codes " ") ≡ true
      → free stop (codes " HTTP/1.1") ≡ true
      → free stop (first_line method path) ≡ true
  first_line-free stop le space rest =
      free-append stop method _ (free_wider is_mark stop le method method_word) (
        free-append stop (codes " ") _ space
          (free-append stop path _ (free_wider is_mark stop le path path_word) rest))

  line-first_line : (t : List ℕ) → line 0 (crlf (first_line method path) t) ≡ first_line method path
  line-first_line t =
      before-append is_eol (first_line method path) (13 ∷ 10 ∷ t)
        (first_line-free is_eol mark_eol refl refl)
      ∙ append-nil (first_line method path)

  first_word-first_line : first_word (first_line method path) ≡ method
  first_word-first_line =
      before-append is_end method _ (free_wider is_mark is_end mark_end method method_word)
      ∙ append-nil method

  second_word-first_line : second_word (first_line method path) ≡ path
  second_word-first_line =
      ap (before is_space) (
        behind-append is_space method _ (free_wider is_mark is_space mark_space method method_word))
      ∙ before-append is_space path (codes " HTTP/1.1")
          (free_wider is_mark is_space mark_space path path_word)
      ∙ append-nil path

  length-first_line : length (first_line method path) ≡ length method + length path + 10
  length-first_line = omega (
    arith,
    length-append method (32 ∷ path ++ codes " HTTP/1.1"),
    length-append path (codes " HTTP/1.1"),
  )

  module _ (ip len body : List ℕ) (port : ℕ) (ip_line : free is_break ip ≡ true)
      (len_word : free is_mark len ≡ true) (body_text : NonZero body) where
    host-free : free is_break (host_line ip port) ≡ true
    host-free = free-append is_break (codes "Host: ") (ip ++ (58 ∷ print_int port)) refl (
        free-append is_break ip (58 ∷ print_int port) ip_line (
          free-append is_break (58 ∷ []) (print_int port) refl
            (free_wider is_mark is_break mark_break (print_int port) (print_int-free port))))

    behind_blank-in_lines : behind_blank (in_lines ip port method path len body) ≡ body
    behind_blank-in_lines =
        behind_blank-crlf (first_line method path) 72 _ (first_line-free is_eol mark_eol refl refl)
          refl
        ∙ behind_blank-crlf (host_line ip port) 67
            (crlf (codes "ontent-Type: application/json")
              (crlf (codes "Content-Length:" ++ len) (13 ∷ 10 ∷ body)))
            (free_wider is_break is_eol break_eol (host_line ip port) host-free) refl
        ∙ behind_blank-crlf (codes "Content-Type: application/json") 67
            (crlf (codes "ontent-Length:" ++ len) (13 ∷ 10 ∷ body)) refl refl
        ∙ behind_blank_last (codes "Content-Length:" ++ len) body (
            free-append is_eol (codes "Content-Length:") len refl
              (free_wider is_mark is_eol mark_eol len len_word))

    in_lines-NonZero : NonZero (in_lines ip port method path len body)
    in_lines-NonZero =
        let t4 : List ℕ = 13 ∷ 10 ∷ body in
        let t3 = crlf (codes "Content-Length:" ++ len) t4 in
        let t2 = crlf (codes "Content-Type: application/json") t3 in
        crlf-NonZero (first_line method path) (crlf (host_line ip port) t2)
          (first_line-free is_zero mark_zero refl refl)
          (crlf-NonZero (host_line ip port) t2
            (free_wider is_break is_zero break_zero (host_line ip port) host-free)
            (crlf-NonZero (codes "Content-Type: application/json") t3 refl (
              crlf-NonZero (codes "Content-Length:" ++ len) t4
                (free-append is_zero (codes "Content-Length:") len refl
                  (free_wider is_mark is_zero mark_zero len len_word))
                (omega arith, (omega arith, body_text)))))

-- What `dispatch` finds in a request: the method, the path and the body.
abbrev pub IsSent : List ℕ → List ℕ → List ℕ → Request → Type 0
IsSent method path body p = (text p.method ≡ method) × (text p.uri ≡ path) × (text p.body ≡ body)

in_lines-cut :
    (method path ip len body : List ℕ) (port : ℕ)
    → free is_mark method ≡ true
    → free is_mark path ≡ true
    → free is_break ip ≡ true
    → free is_mark len ≡ true
    → NonZero body
    → length method < 5
    → length path < 50
    → length body < 1024
    → (p : Request) × (cut_request (in_lines ip port method path len body) ≡ some p)
      × IsSent method path body p
in_lines-cut method path ip len body port hm hp hi hl hb lm lp lb =
    let first : line 0 (in_lines ip port method path len body) ≡ first_line method path =
      line-first_line method path hm hp _ in
    let word1 = ap first_word first ∙ first_word-first_line method path hm hp in
    let word2 = ap second_word first ∙ second_word-first_line method path hm hp in
    let rest = behind_blank-in_lines method path hm hp ip len body port hi hl hb in
    let fits : Fits (in_lines ip port method path len body) = (
      omega (arith, ap length first, length-first_line method path hm hp),
      omega (arith, ap length rest),
      omega (arith, ap length word1),
      omega (arith, ap length word2),
    ) in
    let (p, returns, (_, cut_body, cut_method, cut_uri)) =
      cut_request-Fits (in_lines ip port method path len body)
        (in_lines-NonZero method path hm hp ip len body port hi hl hb) fits in
    (p, returns, (cut_method ∙ word1, cut_uri ∙ word2, cut_body ∙ rest))

named_length-free : (method body : List ℕ) → free is_mark (named_length method body) ≡ true
named_length-free method body = elim (Bool-cases (starts_with method (codes "GET"))) [
  | inl get ↦ rw get refl
  | inr other ↦ rw other (print_long-free (length body))
]

pub sent_body-NonZero : (method body : List ℕ) → NonZero body → NonZero (sent_body method body)
sent_body-NonZero method body h = elim (Bool-cases (starts_with method (codes "GET"))) [
  | inl get ↦ rw get tt
  | inr other ↦ rw other h
]

-- `dispatch` cuts a request that `req` has printed into the method, the path and, behind the method GET
-- nothing, else the body, if the method and the path are words, the name of the host has no line end, no
-- text has a 0, and the three parts are shorter than the buffers of `dispatch`.
pub request-cut :
    (ip : List ℕ) (port : ℕ) (method path body : List ℕ)
    → free is_mark method ≡ true
    → free is_mark path ≡ true
    → free is_break ip ≡ true
    → NonZero body
    → length method < 5
    → length path < 50
    → length (sent_body method body) < 1024
    → (p : Request) × (cut_request (request_text (header_text ip port method path) method body)
        ≡ some p)
      × IsSent method path (sent_body method body) p
request-cut ip port method path body hm hp hi hb lm lp lb =
    rw (request-lines ip port method path body) (
      in_lines-cut method path ip (named_length method body) (sent_body method body) port hm hp hi
        (named_length-free method body) (sent_body-NonZero method body hb) lm lp lb)
