-- ===== src/Server/Paging.antt =====
-- internal/server/pagination.go, and the pages that handleDiffTree cuts (handlers_diff.go).
pub mod Search
pub mod Order
pub mod Cursor
pub mod Walk
pub mod Directory
use layerlens.Base.{
  ℕ, suc, zero, ◌+◌, ◌/◌, Bool, true, false, Option, none, some, List, [], ◌∷◌, ◌++◌, Bytes, codes,
  ◌&&◌, not, if◌then◌else◌, bytes_eq, bytes_lt, ltb, leb, ◌==◌, length, get_elem?, take, drop,
  select, Result, ok, err, ◌>>=◌,
}
use layerlens.Domain.Tree.{DiffNode, unchanged, status_eq, row_name, row_status}
use layerlens.Analyze.Diff.{is_dir_row}

abbrev pub section_dir : Bytes
section_dir = codes "dir"

abbrev pub section_file : Bytes
section_file = codes "file"

pub record CursorPayload : Type 0 where
  pub section : Bytes
  pub last_name : Bytes
  pub query : Bytes

-- The messages of ErrBadCursor.
pub data CursorError : Type 0 where
  not_base64 not_a_cursor : CursorError
  unknown_section : Bytes → CursorError
  other_query : CursorError

-- encoding/base64 and encoding/json on a cursor.
pub record CursorCodec : Type 0 where
  pub encode : Bytes → Bytes
  pub decode : Bytes → Option Bytes
  pub marshal : CursorPayload → Option Bytes
  pub unmarshal : Bytes → Option CursorPayload

abbrev pub section_of : DiffNode → Bytes
section_of n = if is_dir_row n then section_dir else section_file

unfoldable pub section_rank : Bytes → ℕ
section_rank section = if bytes_eq section section_dir then 0 else 1

abbrev pub payload_of : Bytes → DiffNode → CursorPayload
payload_of query row = record { section = section_of row; last_name = row_name row; query = query }

unfoldable pub encode_cursor : CursorCodec → Bytes → DiffNode → Bytes
encode_cursor codec query row = elim (codec.marshal (payload_of query row)) [
  | none ↦ []
  | some raw ↦ codec.encode raw
]

-- The two tests on what was parsed.
unfoldable pub check_payload : Bytes → CursorPayload → Result CursorError CursorPayload
unfolding bytes_eq
check_payload query p =
    if not (bytes_eq p.section section_dir) && not (bytes_eq p.section section_file)
    then err (unknown_section p.section)
    else if not (bytes_eq p.query query)
    then err other_query
    else ok p

-- The two steps of the parsing.
abbrev pub or_error {ℓ} : {A : Type ℓ} → CursorError → Option A → Result CursorError A
or_error e none = err e
or_error e (some a) = ok a

unfoldable pub decode_cursor :
    CursorCodec → Bytes → Bytes → Result CursorError (Option CursorPayload)
unfolding check_payload
decode_cursor codec [] query = ok none
decode_cursor codec (c ∷ raw) query = or_error not_base64 (codec.decode (c ∷ raw)) >>= λ decoded.
    or_error not_a_cursor (codec.unmarshal decoded) >>= λ p.
    check_payload query p >>= λ p. ok (some p)

-- sort.Search: the loop on `i < j`, with fuel for its rounds.
unfoldable pub search_loop : ℕ → (ℕ → Bool) → ℕ → ℕ → ℕ
search_loop zero f i j = i
search_loop (suc fuel) f i j =
    let h = (i + j) / 2 in
    let upper = search_loop fuel f (suc h) j in
    let lower = search_loop fuel f i h in if ltb i j then (if f h then lower else upper) else i

unfoldable pub search : ℕ → (ℕ → Bool) → ℕ
unfolding search_loop
search n f = search_loop n f 0 n

-- The test of the search: the row sorts strictly after the cursor.
unfoldable pub is_after : CursorPayload → DiffNode → Bool
unfolding section_rank
is_after cur row =
    let rank = section_rank cur.section in
    let r = section_rank (section_of row) in
    if not (r == rank) then ltb rank r else bytes_lt cur.last_name (row_name row)

-- The search does not ask beyond the rows.
abbrev pub test_at {ℓ} : {A : Type ℓ} → (A → Bool) → List A → ℕ → Bool
test_at p l i = elim (get_elem? l i) [ none ↦ false | some a ↦ p a ]

unfoldable pub page_start : List DiffNode → Option CursorPayload → ℕ
unfolding search is_after
page_start rows none = 0
page_start rows (some cur) = search (length rows) (test_at (is_after cur) rows)

-- filterRows; the flag is `filter == FilterChanged`.
abbrev pub is_changed : DiffNode → Bool
is_changed row = not (status_eq (row_status row) unchanged)

unfoldable pub filter_rows : Bool → List DiffNode → List DiffNode
filter_rows only_changed rows = if only_changed then select is_changed rows else rows

-- The rows of one answer, and its next cursor, empty on the last page.
pub record Page : Type 0 where
  pub shown : List DiffNode
  pub next_cursor : Bytes

-- `rows[end-1]`, of the rows that are shown.
abbrev pub cursor_after : CursorCodec → Bytes → List DiffNode → Bytes
cursor_after codec query [] = []
cursor_after codec query (x ∷ []) = encode_cursor codec query x
cursor_after codec query (x ∷ y ∷ l) = cursor_after codec query (y ∷ l)

unfoldable pub page_from : CursorCodec → Bytes → ℕ → List DiffNode → ℕ → Page
unfolding encode_cursor
page_from codec query limit rows start = record {
  shown = take limit (drop start rows);
  next_cursor =
      if ltb (start + limit) (length rows)
      then cursor_after codec query (take limit (drop start rows))
      else [];
}

unfoldable pub tree_page : CursorCodec → Bytes → ℕ → List DiffNode → Bytes → Result CursorError Page
unfolding decode_cursor page_start page_from
tree_page codec query limit rows raw = decode_cursor codec raw query >>= λ cur.
    ok (page_from codec query limit rows (page_start rows cur))

abbrev pub shown_first : List DiffNode → Option (List DiffNode) → Option (List DiffNode)
shown_first shown none = none
shown_first shown (some rest) = some (shown ++ rest)

-- A client that pages from `raw` on, until there is no next cursor; `none` when `fuel` requests do not
-- suffice.
unfoldable pub walk_pages :
    ℕ
    → CursorCodec
    → Bytes
    → ℕ
    → List DiffNode
    → Bytes
    → Result CursorError (Option (List DiffNode))
walk_pages zero codec query limit rows raw = ok none
walk_pages (suc fuel) codec query limit rows raw = tree_page codec query limit rows raw >>= λ page.
    if bytes_eq page.next_cursor []
    then ok (some page.shown)
    else (walk_pages fuel codec query limit rows page.next_cursor >>= λ rest.
        ok (shown_first page.shown rest))
