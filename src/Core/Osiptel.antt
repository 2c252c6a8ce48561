-- ===== src/Core/Osiptel.antt =====
-- packages/core/core/sites/osiptel: the page of lines that the site answers (parser.py), the form
-- that asks for it (payload.py), and the requests of a lookup (site.py).
pub mod Paging
pub mod Complete
pub mod Ready
pub mod Carriers
use docs_pe.Common.{
  ℕ, Bool, false, not, ◌&&◌, Option, none, some, List, [], ◌∷◌, ◌++◌, Text, text, text_eq,
  if◌then◌else◌, is_empty, all, length,
}
use docs_pe.Common.Unicode.{Unicode, strip}
use docs_pe.Core.Doc.{Doc, DocKind, dni}
use docs_pe.Core.Types.{Row, word}
use docs_pe.Core.Policy.{ErrorClass, provider_schema, parse, exception, classify_status}

-- What json.loads gives. A negative number and a fraction hold nothing that the code reads.
mutual
  pub data Json : Type 0 where
    null : Json
    boolean : Bool → Json
    number : ℕ → Json
    other_number : Json
    string : Text → Json
    array : Items → Json
    object : Fields → Json

  pub data Items : Type 0 where
    nil : Items
    item : Json → Items → Items

  pub data Fields : Type 0 where
    done : Fields
    field : Text → Json → Fields → Fields

pub data Fetched {ℓ} (A : Type ℓ) : Type ℓ where
  ok : A → Fetched A
  err : ErrorClass → Fetched A

infixl 5 ◌>>=◌
abbrev pub ◌>>=◌ : {A B : Type 0} → Fetched A → (A → Fetched B) → Fetched B
ok a >>= f = f a
err e >>= f = err e

-- `payload.get(key)`, where no key comes twice
unfoldable pub get : Text → Fields → Json
get key done = null
get key (field k v fs) = if text_eq k key then v else get key fs

-- `str.isdigit` of one code point, and `int` of a text of such; `none` is its ValueError.
pub record Digits : Type 0 where
  pub is_digit : ℕ → Bool
  pub int : Text → Option ℕ

pub record ParsedPage : Type 0 where
  pub total_records : ℕ
  pub rows : List Row

module _ (u : Unicode) (d : Digits) where
  abbrev int_of : Text → Fetched ℕ
  int_of t = elim (d.int t) [ none ↦ err exception | some n ↦ ok n ]

  -- `_total_records`; True and False are the integers 1 and 0
  unfoldable pub total_records : Json → Fetched ℕ
  total_records (number n) = ok n
  total_records (boolean b) = ok (if b then 1 else 0)
  total_records (string t) =
      if not (is_empty t) && all d.is_digit t then int_of t else err provider_schema
  total_records v = err provider_schema

  -- `_required_text`
  unfoldable pub required_text : Json → Fetched Text
  required_text (string t) = if is_empty (strip u t) then err provider_schema else ok (strip u t)
  required_text v = err provider_schema

  -- `_line_from_row`
  unfoldable pub line_from_row : Json → Fetched Row
  unfolding required_text get
  line_from_row (object fs) = do
    modalidad ← required_text (get (text "modalidad") fs)
    numero ← required_text (get (text "numeroServicio") fs)
    operador ← required_text (get (text "operador") fs)
    ok (word modalidad ∷ word numero ∷ word operador ∷ [])
  line_from_row v = err provider_schema

  unfoldable pub lines_of : Items → Fetched (List Row)
  unfolding line_from_row
  lines_of nil = ok []
  lines_of (item v vs) =
      let rest = lines_of vs in line_from_row v >>= λ row. rest >>= λ rows. ok (row ∷ rows)

  -- `_rows`, with its rows read
  unfoldable pub rows_of : Json → Fetched (List Row)
  unfolding lines_of
  rows_of (array vs) = lines_of vs
  rows_of v = err provider_schema

  abbrev pub is_rejection : Json → Bool
  is_rejection (boolean b) = b
  is_rejection v = false

  -- `parse_page`
  unfoldable pub parse_page : Json → Fetched ParsedPage
  unfolding get total_records rows_of
  parse_page (object fs) =
      if is_rejection (get (text "estado") fs)
      then err provider_schema
      else total_records (get (text "iTotalRecords") fs) >>= λ total.
          rows_of (get (text "data") fs) >>= λ rows.
          ok (record { total_records = total; rows = rows })
  parse_page v = err provider_schema

pub record PageRequest : Type 0 where
  pub numero : Text
  pub id_tipo_doc : Text
  pub draw : ℕ
  pub start : ℕ
  pub length : ℕ

abbrev pub id_tipo_doc : DocKind → Text
id_tipo_doc DocKind.dni = text "1"
id_tipo_doc DocKind.ruc = text "2"

-- `PageRequest.for_doc`
unfoldable pub for_doc : Doc → ℕ → ℕ → ℕ → PageRequest
for_doc doc draw start length = record {
  numero = doc.value;
  id_tipo_doc = id_tipo_doc doc.kind;
  draw = draw;
  start = start;
  length = length;
}

-- The six entries of one column, by its index as a text.
abbrev column_entries : Text → Text → List (Text × Text)
column_entries index name =
    let key = λ (rest : Text). text "columns[" ++ (index ++ rest) in
    (key (text "][data]"), name)
    ∷ (key (text "][name]"), name)
    ∷ (key (text "][searchable]"), text "false")
    ∷ (key (text "][orderable]"), text "false")
    ∷ (key (text "][search][value]"), [])
    ∷ (key (text "][search][regex]"), text "false")
    ∷ []

-- `build_payload`, with `str` of a number as an argument
unfoldable pub build_payload : (ℕ → Text) → PageRequest → List (Text × Text)
build_payload str req =
    ((text "order[0][column]", text "0")
      ∷ (text "order[0][dir]", text "asc")
      ∷ (text "draw", str req.draw)
      ∷ (text "start", str req.start)
      ∷ (text "length", str req.length)
      ∷ (text "search[value]", [])
      ∷ (text "search[regex]", text "false")
      ∷ (text "IdTipoDoc", req.id_tipo_doc)
      ∷ (text "NumeroDocumento", req.numero)
      ∷ (text "HCaptchaTokenCon", [])
      ∷ (text "BoolConsulta", text "true")
      ∷ [])
    ++ (column_entries (text "0") (text "indice")
        ++ (column_entries (text "1") (text "modalidad")
            ++ (column_entries (text "2") (text "numeroServicio")
                ++ column_entries (text "3") (text "operador"))))

-- An answer of the site: its status and its JSON, if it is JSON; or the error of the transport.
pub data Response : Type 0 where
  answered : ℕ → Option Json → Response
  broken : ErrorClass → Response

-- `_fetch_page`, from the answer on
unfoldable pub fetch_page : Response → Fetched Json
unfolding classify_status
fetch_page (broken e) = err e
fetch_page (answered status body) = elim (classify_status status) [
  | some fault ↦ err fault
  | none ↦ elim body [ none ↦ err parse | some payload ↦ ok payload ]
]
