-- ===== src/Server/Paging/Walk.antt =====
-- Paging through a directory shows each of its rows once.
use layerlens.Base.{
  take_all, ℕ, suc, zero, ◌+◌, ◌≤◌, ◌<◌, ◌≡◌, ◌∙◌, sym, ap, refl, true, false, Option, none, some,
  List, [], ◌∷◌, ◌++◌, Bytes, arith, ltb, length, length-append, take, drop, take-append-drop, All,
  Bool-cases, inl, inr, bytes_eq, ok, if◌then◌else◌,
}
use mathlib.Core.List.{append_assoc}
use layerlens.Domain.Tree.{DiffNode}
use layerlens.Server.Paging.{
  CursorPayload, CursorCodec, payload_of, encode_cursor, decode_cursor, page_start, page_from,
  cursor_after, Page, tree_page, walk_pages,
}
use layerlens.Server.Paging.Order.{Ascending, All-middle, page_start-payload_of}
use layerlens.Server.Paging.Cursor.{
  CodecLaws, Marshals, encode_cursor-nonempty, decode-encode_cursor,
}

drop_append : (xs ys : List DiffNode) → drop (length xs) (xs ++ ys) ≡ ys
drop_append [] ys = refl
drop_append (x ∷ xs) ys = drop_append xs ys

length-take : (n : ℕ) (xs : List DiffNode) → n ≤ length xs → length (take n xs) ≡ n
length-take zero xs h = refl
length-take (suc n) [] h = absurd (omega arith)
length-take (suc n) (x ∷ xs) h = ap suc (length-take n xs (omega arith))

-- A client that gets the last page, and one that gets another.
module _ (fuel : ℕ) (codec : CursorCodec) (query : Bytes) (limit : ℕ) (rows : List DiffNode)
    (raw : Bytes) (page : Page) (answer : tree_page codec query limit rows raw ≡ ok page) where
  walk_last :
      page.next_cursor ≡ []
      → walk_pages (suc fuel) codec query limit rows raw ≡ ok (some page.shown)
  unfolding walk_pages bytes_eq
  walk_last h = rw (answer, h) refl

  walk_more :
      (rest : List DiffNode)
      → bytes_eq page.next_cursor [] ≡ false
      → walk_pages fuel codec query limit rows page.next_cursor ≡ ok (some rest)
      → walk_pages (suc fuel) codec query limit rows raw ≡ ok (some (page.shown ++ rest))
  unfolding walk_pages
  walk_more rest h k = rw (answer, h, k) refl

record Last (codec : CursorCodec) (query : Bytes) (l : List DiffNode) : Type 0 where
  pub init : List DiffNode
  pub last : DiffNode
  pub split : l ≡ init ++ last ∷ []
  pub cursor : cursor_after codec query l ≡ encode_cursor codec query last

cursor_after-Last :
    (codec : CursorCodec) (query : Bytes) (l : List DiffNode) → 0 < length l → Last codec query l
cursor_after-Last codec query [] h = absurd (omega arith)
cursor_after-Last codec query (x ∷ []) h = record {
  init = [];
  last = x;
  split = refl;
  cursor = refl;
}
cursor_after-Last codec query (x ∷ y ∷ l) h =
    let rest = cursor_after-Last codec query (y ∷ l) (omega arith) in
    record {
      init = x ∷ rest.init;
      last = rest.last;
      split = ap (λ t. x ∷ t) rest.split;
      cursor = rest.cursor;
    }

module _ (codec : CursorCodec) (laws : CodecLaws codec) (query : Bytes) where
  module _ (rows : List DiffNode) (ascending : Ascending rows)
      (carried : All (λ x. Marshals codec (payload_of query x)) rows) (limit : ℕ)
      (positive : 1 ≤ limit) where
    -- The cursor `raw` resumes behind `done`.
    abbrev Resumes : Bytes → List DiffNode → Type 0
    Resumes raw done =
        (cur : Option CursorPayload) × (decode_cursor codec raw query ≡ ok cur)
        × (page_start rows cur ≡ length done)

    resumed_page :
        (raw : Bytes) (done rest : List DiffNode)
        → rows ≡ done ++ rest
        → Resumes raw done
        → tree_page codec query limit rows raw ≡ ok (page_from codec query limit rows (length done))
    unfolding tree_page
    resumed_page raw done rest e (cur, d, s) = rw (d, s) refl

    -- Where the last shown row stands.
    last_place :
        (done shown rest : List DiffNode) (l : Last codec query shown)
        → rows ≡ (done ++ shown) ++ rest
        → rows ≡ (done ++ l.init) ++ l.last ∷ rest
    last_place done shown rest l e =
        e
        ∙ (ap (λ t. (done ++ t) ++ rest) l.split
            ∙ (ap (λ t. t ++ rest) (sym (append_assoc done l.init (l.last ∷ [])))
                ∙ append_assoc (done ++ l.init) (l.last ∷ []) rest))

    last_carried :
        (done shown rest : List DiffNode) (l : Last codec query shown)
        → rows ≡ (done ++ shown) ++ rest
        → Marshals codec (payload_of query l.last)
    last_carried done shown rest l e =
        All-middle (λ x. Marshals codec (payload_of query x)) (done ++ l.init) l.last rest
          (rw (last_place done shown rest l e) at carried)

    next-Resumes :
        (done shown rest : List DiffNode) (l : Last codec query shown)
        → rows ≡ (done ++ shown) ++ rest
        → Resumes (encode_cursor codec query l.last) (done ++ shown)
    next-Resumes done shown rest l e =
        let place = last_place done shown rest l e in
        (
          some (payload_of query l.last),
          decode-encode_cursor codec laws query l.last (last_carried done shown rest l e),
          ap (λ r. page_start r (some (payload_of query l.last))) place
              ∙ (page_start-payload_of query (done ++ l.init) l.last rest (rw place at ascending)
                  ∙ omega (
                    arith,
                    length-append done l.init,
                    length-append done shown,
                    length-append l.init (l.last ∷ []),
                    ap length l.split,
                  )),
        )

    page_shown :
        (done rest : List DiffNode)
        → rows ≡ done ++ rest
        → (page_from codec query limit rows (length done)).shown ≡ take limit rest
    unfolding page_from
    page_shown done rest e =
        ap (λ r. take limit (drop (length done) r)) e ∙ ap (take limit) (drop_append done rest)

    page_next :
        (done rest : List DiffNode)
        → rows ≡ done ++ rest
        → (page_from codec query limit rows (length done)).next_cursor
          ≡ (if ltb limit (length rest) then cursor_after codec query (take limit rest) else [])
    unfolding page_from
    page_next done rest e =
        let shown = page_shown done rest e in
        let count = length-append done rest in
        elim (Bool-cases (ltb limit (length rest))) [
          | inl p ↦
              let q : ltb (length done + limit) (length rows) ≡ true =
                ground (arith, ap length e) in
              rw (q, p) (ap (cursor_after codec query) shown)
          | inr p ↦
              let q : ltb (length done + limit) (length rows) ≡ false =
                ground (arith, ap length e) in
              rw (q, p) refl
        ]

    -- One request, and those that follow it.
    walk_lem :
        (fuel : ℕ) (raw : Bytes) (done rest : List DiffNode)
        → rows ≡ done ++ rest
        → Resumes raw done
        → length rest < fuel
        → walk_pages fuel codec query limit rows raw ≡ ok (some rest)
    walk_lem zero raw done rest e r f = absurd (omega arith)
    walk_lem (suc fuel) raw done rest e r f =
        let page = page_from codec query limit rows (length done) in
        let answer = resumed_page raw done rest e r in
        let shown = page_shown done rest e in
        let next = page_next done rest e in
        elim (Bool-cases (ltb limit (length rest))) [
          | inl p ↦
              let count = length-take limit rest (ground arith) in
              let parts = take-append-drop limit rest in
              let l = cursor_after-Last codec query (take limit rest) (omega arith) in
              let place : rows ≡ (done ++ take limit rest) ++ drop limit rest =
                e
                ∙ (ap (λ t. done ++ t) (sym parts)
                    ∙ sym (append_assoc done (take limit rest) (drop limit rest))) in
              let cursor : page.next_cursor ≡ encode_cursor codec query l.last =
                next ∙ rw p l.cursor in
              let ih =
                walk_lem fuel (encode_cursor codec query l.last) (done ++ take limit rest)
                  (drop limit rest) place
                  (next-Resumes done (take limit rest) (drop limit rest) l place)
                  (omega
                    (arith, ap length parts, length-append (take limit rest) (drop limit rest))) in
              walk_more fuel codec query limit rows raw page answer (drop limit rest)
                (ap (λ c. bytes_eq c []) cursor
                  ∙ encode_cursor-nonempty codec laws query l.last
                      (last_carried done (take limit rest) (drop limit rest) l place))
                (ap (walk_pages fuel codec query limit rows) cursor ∙ ih)
              ∙ ap (λ t. ok (some t)) (ap (λ t. t ++ drop limit rest) shown ∙ parts)
          | inr p ↦
              walk_last fuel codec query limit rows raw page answer (next ∙ rw p refl)
              ∙ ap (λ t. ok (some t)) (shown ∙ take_all limit rest (ground arith))
        ]

    -- From the first page on, a client that follows the cursors gets every row, once and in order.
    pub walk_pages-rows :
        (fuel : ℕ) → length rows < fuel → walk_pages fuel codec query limit rows [] ≡ ok (some rows)
    walk_pages-rows fuel f =
        walk_lem fuel [] [] rows refl
          (none, unfold decode_cursor in refl, unfold page_start in refl) f
