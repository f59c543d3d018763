-- ===== src/Server/Paging/Cursor.antt =====
-- A cursor that the server issued is one that it accepts.
use layerlens.Base.{
  ℕ, ◌≡◌, refl, false, some, [], ◌∷◌, Bytes, arith, Bool-cases, inl, inr, bytes_eq, bytes_eq_refl,
  ok,
}
use layerlens.Domain.Tree.{DiffNode}
use layerlens.Analyze.Diff.{is_dir_row}
use layerlens.Server.Paging.{
  CursorPayload, CursorCodec, payload_of, encode_cursor, check_payload, decode_cursor,
}

-- The laws of base64 that a cursor needs.
pub record CodecLaws (codec : CursorCodec) : Type 0 where
  pub round : (s : Bytes) → codec.decode (codec.encode s) ≡ some s
  pub nonempty : (c : ℕ) (s : Bytes) → bytes_eq (codec.encode (c ∷ s)) [] ≡ false

-- JSON carries the payload: it is written as something that reads back.
abbrev pub Marshals : CursorCodec → CursorPayload → Type 0
Marshals codec p =
    (c : ℕ) × (s : Bytes) × (codec.marshal p ≡ some (c ∷ s)) × (codec.unmarshal (c ∷ s) ≡ some p)

check_payload-payload_of :
    (query : Bytes) (x : DiffNode)
    → check_payload query (payload_of query x) ≡ ok (payload_of query x)
unfolding check_payload bytes_eq
check_payload-payload_of query x = elim (Bool-cases (is_dir_row x)) [
  | inl p ↦ rw (p, bytes_eq_refl query) refl
  | inr p ↦ rw (p, bytes_eq_refl query) refl
]

decode_cursor_nonempty :
    (codec : CursorCodec) (raw query : Bytes) (decoded : Bytes) (p : CursorPayload)
    → bytes_eq raw [] ≡ false
    → codec.decode raw ≡ some decoded
    → codec.unmarshal decoded ≡ some p
    → check_payload query p ≡ ok p
    → decode_cursor codec raw query ≡ ok (some p)
unfolding decode_cursor
decode_cursor_nonempty codec [] query decoded p n d u c = absurd (ground (arith, bytes_eq_refl []))
decode_cursor_nonempty codec (b ∷ raw) query decoded p n d u c = rw (d, u, c) refl

module _ (codec : CursorCodec) (laws : CodecLaws codec) (query : Bytes) where
  encode_cursor_marshalled :
      (x : DiffNode) (raw : Bytes)
      → codec.marshal (payload_of query x) ≡ some raw
      → encode_cursor codec query x ≡ codec.encode raw
  unfolding encode_cursor
  encode_cursor_marshalled x raw m = rw (m, encode_cursor) refl

  pub encode_cursor-nonempty :
      (x : DiffNode)
      → Marshals codec (payload_of query x)
      → bytes_eq (encode_cursor codec query x) [] ≡ false
  encode_cursor-nonempty x (c, s, m, u) =
      rw (encode_cursor_marshalled x (c ∷ s) m) (laws.nonempty c s)

  pub decode-encode_cursor :
      (x : DiffNode)
      → Marshals codec (payload_of query x)
      → decode_cursor codec (encode_cursor codec query x) query ≡ ok (some (payload_of query x))
  decode-encode_cursor x (c, s, m, u) = rw (encode_cursor_marshalled x (c ∷ s) m) (
      decode_cursor_nonempty codec (codec.encode (c ∷ s)) query (c ∷ s) (payload_of query x)
        (laws.nonempty c s) (laws.round (c ∷ s)) u (check_payload-payload_of query x))
