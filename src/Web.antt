-- ===== src/Web.antt =====
-- The functions of cpp/http/util.c that cut an HTTP request into parts. A text is the list of its
-- characters without the 0 at the end, a buffer the list of its cells. A write outside a buffer is
-- undefined in C: here the result is `none`.
pub mod Cut
pub mod Line
pub mod Body
pub mod Json
pub mod Parts
mod Tests
use com_richard_test.Base.{
  ◌>>=◌, ℕ, zero, suc, ◌+◌, ◌-◌, ◌*◌, ◌%◌, ◌^◌, List, [], ◌∷◌, Bool, true, false, ◌&&◌, ◌||◌, not,
  Option, none, some, ltb, leb, ◌==◌, if◌then◌else◌, length, get_or, drop, replicate,
}

unfoldable pub put : List ℕ → ℕ → ℕ → Option (List ℕ)
put [] i v = none
put (c ∷ t) zero v = some (v ∷ t)
put (c ∷ t) (suc i) v = do t' ← put t i v; some (c ∷ t')

abbrev pub is_eol : ℕ → Bool
is_eol c = (c == 10) || (c == 13)

abbrev pub is_end : ℕ → Bool
is_end c = (c == 10) || (c == 13) || (c == 32)

-- The loop of `getmethod` at the rest of the text and index `i`.
unfoldable pub method_loop : List ℕ → ℕ → ℕ → List ℕ → Option (List ℕ)
method_loop [] i n t = put t i 0
method_loop (c ∷ s) i n t =
    if leb n i
    then put t i 0
    else (if is_end c then put t i 0 else (do t' ← put t i c; method_loop s (i + 1) n t'))

unfoldable pub getmethod : List ℕ → List ℕ → ℕ → Option (List ℕ)
getmethod s t n = method_loop s 0 n t

-- The loop of `geturi`, with `j` spaces before and `k` characters written.
unfoldable pub uri_loop : List ℕ → ℕ → ℕ → ℕ → List ℕ → Option (List ℕ)
uri_loop [] j k n t = put t k 0
uri_loop (c ∷ s) j k n t =
    if j == 1
    then (if c == 32
        then put t k 0
        else (if ltb k n then (do t' ← put t k c; uri_loop s j (k + 1) n t') else put t k 0))
    else uri_loop s (if c == 32 then j + 1 else j) k n t

unfoldable pub geturi : List ℕ → List ℕ → ℕ → Option (List ℕ)
geturi s t n = uri_loop s 0 0 n t

-- The loop of `getln`, with `j` line ends before and `k` characters written.
unfoldable pub line_loop : List ℕ → ℕ → ℕ → ℕ → ℕ → List ℕ → Option (List ℕ)
line_loop [] l j k n t = put t k 0
line_loop (c ∷ s) l j k n t =
    if j == l
    then (if is_eol c
        then put t k 0
        else (if ltb k n then (do t' ← put t k c; line_loop s l j (k + 1) n t') else put t k 0))
    else line_loop s l (if is_eol c then j + 1 else j) k n t

unfoldable pub getln : List ℕ → List ℕ → ℕ → ℕ → Option (List ℕ)
getln s t n l = line_loop s l 0 0 n t

abbrev pub blank_before : List ℕ → ℕ → Bool
blank_before s i =
    (get_or s (i - 3) 0 == 13)
    && (get_or s (i - 2) 0 == 10)
    && (get_or s (i - 1) 0 == 13)
    && (get_or s i 0 == 10)

-- The loop of `getbody` at index `i`, with `m` characters left; `k` is the start flag, and `j` characters
-- are written.
unfoldable pub body_loop : List ℕ → ℕ → ℕ → ℕ → Bool → ℕ → List ℕ → Option (List ℕ)
body_loop s zero i j k n t = put t j 0
body_loop s (suc m) i j k n t =
    if ltb i 3
    then body_loop s m (i + 1) j k n t
    else (if leb n j
        then put t j 0
        else (if k
            then (do t' ← put t j (get_or s i 0); body_loop s m (i + 1) (j + 1) k n t')
            else body_loop s m (i + 1) j (blank_before s i) n t))

unfoldable pub getbody : List ℕ → List ℕ → ℕ → Option (List ℕ)
getbody s t n = body_loop s (length s) 0 0 false n t

-- `strncmp(s, key, strlen(key)) == 0`
unfoldable pub starts_with : List ℕ → List ℕ → Bool
starts_with s [] = true
starts_with [] (k ∷ key) = false
starts_with (c ∷ s) (k ∷ key) = (c == k) && starts_with s key

-- The loop of `getjsonv` at index `i`, with `fuel` rounds left: the index also leaps behind the key. The
-- 0 is written at the index of the source.
unfoldable pub json_loop : ℕ → List ℕ → List ℕ → ℕ → ℕ → ℕ → ℕ → List ℕ → Option (List ℕ)
json_loop zero s key i j k n t = put t i 0
json_loop (suc fuel) s key i j k n t =
    let c = get_or s i 0 in
    let stay = json_loop fuel s key (i + 1) j k n t in
    if leb (length s) i
    then put t i 0
    else (if k == 0
        then (if not (starts_with (drop i s) key)
            then stay
            else (if ltb i ((length s + 2 ^ 64 - length key) % 2 ^ 64)
                then json_loop fuel s key (i + length key + 1) j 1 n t
                else put t i 0))
        else (if ltb k 3 && ((c == 58) || (c == 34))
            then json_loop fuel s key (i + 1) j (k + 1) n t
            else (if ltb j n && not (c == 34)
                then (do t' ← put t j c; json_loop fuel s key (i + 1) (j + 1) k n t')
                else put t i 0)))

-- The fuel is one round for each character and one to end.
unfoldable pub getjsonv : List ℕ → List ℕ → List ℕ → ℕ → Option (List ℕ)
getjsonv s t key n = json_loop (length s + 1) s key 0 0 0 n t

-- What a buffer holds as a string: the characters before the first 0.
abbrev pub text : List ℕ → List ℕ
text [] = []
text (c ∷ t) = if c == 0 then [] else c ∷ text t

-- The buffers of `dispatch`.
pub record Request : Type 0 where
  pub l0 : List ℕ
  pub body : List ℕ
  pub method : List ℕ
  pub uri : List ℕ

-- How `dispatch` of cpp/http/dispatcher.c cuts the request.
unfoldable pub cut_request : List ℕ → Option Request
cut_request req = do
  l0 ← getln req (replicate 100 0) 100 0
  body ← getbody req (replicate 1024 0) 1024
  method ← getmethod (text l0) (replicate 5 0) 5
  uri ← geturi (text l0) (replicate 50 0) 50
  some (record { l0 = l0; body = body; method = method; uri = uri })
