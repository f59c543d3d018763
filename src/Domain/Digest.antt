-- ===== src/Domain/Digest.antt =====
-- internal/domain/digest.go: content digests in canonical string form.
pub mod Shape
use layerlens.Base.{
  ℕ, suc, ◌+◌, ◌-◌, ◌/◌, ◌%◌, Bool, Option, none, some, List, [], ◌∷◌, ◌++◌, Bytes, codes, Result,
  ok, err, ltb, leb, ◌==◌, ◌&&◌, ◌||◌, if◌then◌else◌, length, take, drop, bytes_eq,
}

pub data DigestError : Type 0 where
  bad_length bad_prefix : DigestError
  bad_byte : ℕ → DigestError

abbrev pub digest_prefix : Bytes
digest_prefix = codes "sha256:"

abbrev pub digest_hex_len : ℕ
digest_hex_len = 64

-- `(c < '0' || c > '9') && (c < 'a' || c > 'f')`
abbrev pub is_bad_hex : ℕ → Bool
is_bad_hex c = (ltb c b'0' || ltb b'9' c) && (ltb c b'a' || ltb b'f' c)

-- The loop over `s[i:]`, with its counter `i`.
unfoldable pub check_hex : ℕ → Bytes → Option DigestError
check_hex i [] = none
check_hex i (c ∷ s) = if is_bad_hex c then some (bad_byte i) else check_hex (suc i) s

unfoldable pub validate : Bytes → Option DigestError
unfolding check_hex bytes_eq
validate s =
    if length s == length digest_prefix + digest_hex_len
    then (if bytes_eq (take (length digest_prefix) s) digest_prefix
        then check_hex (length digest_prefix) (drop (length digest_prefix) s)
        else some bad_prefix)
    else some bad_length

unfoldable pub is_valid : Bytes → Bool
is_valid d = elim (validate d) [ none ↦ Bool.true | some _ ↦ Bool.false ]

unfoldable pub parse_digest : Bytes → Result DigestError Bytes
parse_digest s = elim (validate s) [ none ↦ ok s | some e ↦ err e ]

abbrev pub hex_digit : ℕ → ℕ
hex_digit n = if ltb n 10 then b'0' + n else b'a' + (n - 10)

-- `hex.EncodeToString`
unfoldable pub hex_encode : Bytes → Bytes
hex_encode [] = []
hex_encode (b ∷ bs) = hex_digit (b / 16) ∷ hex_digit (b % 16) ∷ hex_encode bs

unfoldable pub digest_from_bytes : Bytes → Bytes
unfolding hex_encode
digest_from_bytes sum = digest_prefix ++ hex_encode sum

unfoldable pub hex : Bytes → Bytes
unfolding is_valid
hex d = if is_valid d then drop (length digest_prefix) d else []

unfoldable pub short : Bytes → Bytes
unfolding hex bytes_eq
short d = let h = hex d in if bytes_eq h [] then [] else take 12 h
