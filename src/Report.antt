-- ===== src/Report.antt =====
-- The parser of cpp/http/dtparser.c, which prints a report as JSON. An array is the list of its cells,
-- and a report stands in it up to the first 0; a read behind the last cell is undefined in C: here the
-- result is `none`. A static buffer, which memset clears first, is the string that it holds: a string
-- that its cells do not take is `none`.
pub mod Overflow
pub mod Fields
pub mod Json
mod Tests
use Prim.Native.String.{String}
use com_richard_test.Base.{
  ◌>>=◌, ℕ, zero, suc, ◌+◌, List, [], ◌∷◌, ◌++◌, Bool, true, false, ◌&&◌, Option, none, some, ltb,
  leb, ◌==◌, if◌then◌else◌, length, get_or, drop, codes,
}

-- At most `n` characters, as strncat reads them.
unfoldable pub read : ℕ → List ℕ → Option (List ℕ)
read zero s = some []
read (suc n) [] = none
read (suc n) (c ∷ s) = if c == 0 then some [] else (do v ← read n s; some (c ∷ v))

-- All characters, as strcat reads them.
unfoldable pub read_all : List ℕ → Option (List ℕ)
read_all [] = none
read_all (c ∷ s) = if c == 0 then some [] else (do v ← read_all s; some (c ∷ v))

-- A string behind the one that a buffer of `cells` cells holds.
unfoldable pub strcat : ℕ → List ℕ → List ℕ → Option (List ℕ)
strcat cells out v = if ltb (length out + length v) cells then some (out ++ v) else none

-- `n` zeros into a buffer of `cells` cells
unfoldable pub memset : ℕ → ℕ → Option (List ℕ)
memset cells n = if leb n cells then some [] else none

pub record Field : Type 0 where
  pub label : List ℕ
  pub width : ℕ

abbrev pub field : String → ℕ → Field
field s n = record { label = codes s; width = n }

-- What is printed, and the index behind what is read.
pub record Cursor : Type 0 where
  pub out : List ℕ
  pub at : ℕ

abbrev pub start : Cursor
start = record { out = []; at = 0 }

-- strcat of the label, strncat of the characters at the index, and the index moved, for each field.
unfoldable pub fields : ℕ → List ℕ → List Field → Cursor → Option Cursor
fields cells s [] c = some c
fields cells s (f ∷ fs) c = do
  out ← strcat cells c.out f.label
  v ← read f.width (drop c.at s)
  out' ← strcat cells out v
  fields cells s fs (record { out = out'; at = c.at + f.width })

unfoldable pub head_fields : List Field
head_fields =
    field "{\"cr\":\"" 2
    ∷ field "\",\"ctrl\":\"" 2
    ∷ field "\",\"l\":\"" 2
    ∷ field "\",\"c\":\"" 4
    ∷ field "\",\"r\":\"" 4
    ∷ field "\",\"seq\":\"" 2
    ∷ []

unfoldable pub app_field : List Field
app_field = field "\",\"appId\":\"" 46 ∷ []

unfoldable pub union_fields : List Field
union_fields = field "{\"ctrl\":\"" 2 ∷ field "\",\"n\":\"" 2 ∷ field "\",\"id\":\"" 4 ∷ []

unfoldable pub obj_fields : List Field
obj_fields =
    field "{\"time\":\"" 12
    ∷ field "\",\"sts\":\"" 8
    ∷ field "\",\"iVStd\":\"" 16
    ∷ field "\",\"iV\":\"" 16
    ∷ field "\",\"fVStd\":\"" 16
    ∷ field "\",\"fV\":\"" 16
    ∷ field "\",\"flwRtStd\":\"" 8
    ∷ field "\",\"flwRt\":\"" 8
    ∷ field "\",\"t\":\"" 8
    ∷ field "\",\"p\":\"" 8
    ∷ field "\",\"engSum\":\"" 16
    ∷ field "\",\"engDst\":\"" 8
    ∷ field "\",\"acsV\":\"" 4
    ∷ field "\",\"vlt\":\"" 4
    ∷ field "\",\"pwr\":\"" 2
    ∷ field "\",\"nb\":\"" 8
    ∷ field "\",\"ecl\":\"" 4
    ∷ field "\",\"cid\":\"" 12
    ∷ field "\",\"rnf\":\"" 4
    ∷ []

unfoldable pub evt_fields : List Field
evt_fields = field "{\"evt\":\"" 2 ∷ field "\",\"fvStdS1\":\"" 16 ∷ []

unfoldable pub dated_fields : List Field
dated_fields = field "{\"date\":\"" 6 ∷ field "\",\"fVStd\":\"" 16 ∷ field "\",\"fV\":\"" 16 ∷ []

unfoldable pub at_fields : List Field
at_fields = field "{\"date\":\"" 6 ∷ []

-- `s[i]`
unfoldable pub cell : List ℕ → ℕ → Option ℕ
cell [] i = none
cell (c ∷ s) zero = some c
cell (c ∷ s) (suc i) = cell s i

-- The three dated values of an event, with `n` of them left.
unfoldable pub dated_loop : ℕ → ℕ → List ℕ → Cursor → Option Cursor
dated_loop zero j s c = some c
dated_loop (suc n) j s c = do
  tmp ← if ltb 0 j then strcat 128 [] (codes ",") else some []
  r ← fields 128 s dated_fields (record { out = tmp; at = c.at })
  tmp' ← strcat 128 r.out (codes "\"}")
  out ← strcat 1024 c.out tmp'
  dated_loop n (j + 1) s (record { out = out; at = r.at })

unfoldable pub prs_evt_ext : List ℕ → Option (List ℕ)
prs_evt_ext s = do
  c ← fields 1024 s evt_fields start
  out ← strcat 1024 c.out (codes "\",\"dt\":[")
  r ← dated_loop 3 0 s (record { out = out; at = c.at })
  strcat 1024 r.out (codes "]}")

unfoldable pub prs_at_ext : List ℕ → Option (List ℕ)
prs_at_ext s = do
  c ← fields 1024 s at_fields start
  out ← strcat 1024 c.out (codes "\",\"dt\":\"")
  v ← read_all (drop c.at s)
  out' ← strcat 1024 out v
  strcat 1024 out' (codes "\"}")

unfoldable pub prs_up_rpt_dt_obj : List ℕ → List ℕ → Option (List ℕ)
prs_up_rpt_dt_obj id s = do
  c ← fields 1024 s obj_fields start
  out ← strcat 1024 c.out (codes "\",\"ext\":")
  let kind = get_or id 3 0
  let ext =
      if kind == 51
      then prs_evt_ext (drop c.at s)
      else (if kind == 50 then prs_at_ext (drop c.at s) else some [])
  v ← ext
  out' ← strcat 1024 out v
  strcat 1024 out' (codes "}")

-- The printed union is not used, only whether it fits.
unfoldable pub prs_dt_u : List ℕ → Option (List ℕ)
prs_dt_u s = do
  c ← fields 1024 s union_fields start
  id ← read 4 (drop 4 s)
  out ← strcat 1024 c.out (codes "\",\"dt\":\"")
  v ← read_all (drop c.at s)
  out' ← strcat 1024 out v
  dt_u ← strcat 1024 out' (codes "\"}")
  prs_up_rpt_dt_obj id (drop c.at s)

-- The object of an alarm, in a buffer of 512 cells that memset clears with the size of another one.
unfoldable pub alarm_obj : List ℕ → Option (List ℕ)
alarm_obj s = do
  clean ← memset 512 1024
  out ← strcat 512 clean (codes "{\"ext\":{\"dt\":\"")
  v ← read_all s
  out' ← strcat 512 out v
  strcat 512 out' (codes "\"}}")

-- The copies `ctrl` and `seq` are taken behind the six fields. The printed head is not used, only
-- whether it fits.
unfoldable pub prs_up_rpt_dt : List ℕ → Option (List ℕ)
prs_up_rpt_dt s = do
  c ← fields 1024 s head_fields start
  ctrl ← read 2 (drop 2 s)
  seq ← read 2 (drop 14 s)
  last ← cell s 15
  r ← if last == 48 then fields 1024 s app_field c else some c
  out ← strcat 1024 r.out (codes "\",\"dt\":\"")
  v ← read_all (drop r.at s)
  out' ← strcat 1024 out v
  dt ← strcat 1024 out' (codes "\"}")
  if (get_or ctrl 1 0 == 50) && (get_or seq 1 0 == 49)
      then alarm_obj (drop r.at s)
      else prs_dt_u (drop r.at s)

unfoldable pub parsedt : List ℕ → Option (List ℕ)
parsedt s = prs_up_rpt_dt s
