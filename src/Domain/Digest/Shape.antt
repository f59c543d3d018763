-- ===== src/Domain/Digest/Shape.antt =====
-- Which strings internal/domain/digest.go accepts, and that what it renders is accepted.
use layerlens.Base.{
  All-append, All-imp, ℕ, suc, ◌*◌, ◌/◌, ◌%◌, ◌<◌, ◌≤◌, ◌≡◌, refl, ap, ◌∙◌, some, Option-cases, ◌⊎◌,
  inl, inr, ◌↔◌, false, none, [], ◌∷◌, ◌++◌, Bytes, ok, All, arith, length, take, drop,
  bytes_eq_iff, take-append-drop, bytes_eq,
}
use layerlens.Domain.Digest.{
  DigestError, digest_prefix, is_bad_hex, check_hex, validate, parse_digest, hex_digit, hex_encode,
  digest_from_bytes, hex,
}

-- A lower-case hexadecimal digit.
abbrev pub IsHexDigit : ℕ → Type 0
IsHexDigit c = ((b'0' ≤ c) × (c ≤ b'9')) ⊎ ((b'a' ≤ c) × (c ≤ b'f'))

-- ^sha256:[a-f0-9]{64}$
abbrev pub IsDigest : Bytes → Type 0
IsDigest s = (h : Bytes) × (s ≡ digest_prefix ++ h) × (length h ≡ 64) × All IsHexDigit h

good_hex : (c : ℕ) → is_bad_hex c ≡ false → IsHexDigit c
good_hex c h = ground arith

hex_good : (c : ℕ) → IsHexDigit c → is_bad_hex c ≡ false
hex_good c h = ground arith

check_hex-none : (i : ℕ) (s : Bytes) → check_hex i s ≡ none → All IsHexDigit s
unfolding check_hex
check_hex-none i [] h = tt
check_hex-none i (c ∷ s) h = (good_hex c (ground arith), check_hex-none (suc i) s (ground arith))

none-check_hex : (i : ℕ) (s : Bytes) → All IsHexDigit s → check_hex i s ≡ none
unfolding check_hex
none-check_hex i [] h = refl
none-check_hex i (c ∷ s) h = rw (hex_good c h.0) (none-check_hex (suc i) s h.1)

pub validate→ : (s : Bytes) → validate s ≡ none → IsDigest s
unfolding validate
validate→ s h =
    let pre : take 7 s ≡ digest_prefix = ground (arith, bytes_eq_iff (take 7 s) digest_prefix) in
    let joined : s ≡ digest_prefix ++ drop 7 s = cc (take-append-drop 7 s, pre) in
    let full : length s ≡ 71 = ground arith in
    (drop 7 s, joined, omega (arith, ap length joined), check_hex-none 7 (drop 7 s) (ground arith))

validate← : (s : Bytes) → IsDigest s → validate s ≡ none
unfolding validate bytes_eq
validate← s (h, e, l, digits) = rw e (ground (arith, none-check_hex 7 h digits))

-- ParseDigest accepts exactly the strings of the canonical form, and returns them unchanged.
pub parse_digest_iff : (s d : Bytes) → (parse_digest s ≡ ok d) ↔ ((d ≡ s) × IsDigest s)
unfolding parse_digest
parse_digest_iff s d = elim (Option-cases (validate s)) [
  | inl good ↦ rw (good, parse_digest) (λ h. (cc, validate→ s good), λ h. cc (h.0))
  | inr (e, bad) ↦
      rw (bad, parse_digest)
        (λ h. absurd (ground arith), λ h. absurd (ground (arith, validate← s h.1)))
]

hex_valid : (d : Bytes) → validate d ≡ none → hex d ≡ drop 7 d
unfolding hex
hex_valid d h = ground arith

hex_invalid : (d : Bytes) {e : DigestError} → validate d ≡ some e → hex d ≡ []
unfolding hex
hex_invalid d h = ground arith

-- Hex yields 64 hexadecimal digits, those behind the prefix of the digest, or else the empty string,
-- and then the digest is not well formed.
pub hex_safe :
    (d : Bytes)
    → ((¬ IsDigest d) × (hex d ≡ []))
      ⊎ ((length (hex d) ≡ 64) × All IsHexDigit (hex d) × (d ≡ digest_prefix ++ hex d))
hex_safe d = elim (Option-cases (validate d)) [
  | inl good ↦
      let (h, e, l, digits) = validate→ d good in
      let same : hex d ≡ h = hex_valid d good ∙ ap (drop 7) e in
      inr (rw same l, rw same digits, rw same e)
  | inr (e, bad) ↦ inl (λ h. absurd (ground (arith, validate← d h)), hex_invalid d bad)
]

hex_digit-IsHexDigit : (n : ℕ) → n < 16 → IsHexDigit (hex_digit n)
hex_digit-IsHexDigit n h = ground arith

hex_encode-IsHexDigit : (s : Bytes) → All (λ b. b < 256) s → All IsHexDigit (hex_encode s)
unfolding hex_encode
hex_encode-IsHexDigit [] h = tt
hex_encode-IsHexDigit (b ∷ s) h = (
  hex_digit-IsHexDigit _ (omega arith),
  (hex_digit-IsHexDigit _ (omega arith), hex_encode-IsHexDigit s h.1),
)

length-hex_encode : (s : Bytes) → length (hex_encode s) ≡ 2 * length s
unfolding hex_encode
length-hex_encode [] = refl
length-hex_encode (b ∷ s) = omega (arith, length-hex_encode s)

-- The rendering of a sum of 32 bytes is a well-formed digest.
pub digest_from_bytes-IsDigest :
    (sum : Bytes) → length sum ≡ 32 → All (λ b. b < 256) sum → IsDigest (digest_from_bytes sum)
unfolding digest_from_bytes
digest_from_bytes-IsDigest sum l h =
    (hex_encode sum, refl, omega (arith, length-hex_encode sum), hex_encode-IsHexDigit sum h)

hex_digit-injective : (m n : ℕ) → m < 16 → n < 16 → hex_digit m ≡ hex_digit n → m ≡ n
hex_digit-injective m n h k e = ground arith

hex_encode-injective :
    (s t : Bytes)
    → All (λ b. b < 256) s
    → All (λ b. b < 256) t
    → hex_encode s ≡ hex_encode t
    → s ≡ t
unfolding hex_encode
hex_encode-injective [] [] h k e = refl
hex_encode-injective [] (b ∷ t) h k e = cc
hex_encode-injective (a ∷ s) [] h k e = cc
hex_encode-injective (a ∷ s) (b ∷ t) h k e = grind (
  arith,
  hex_digit-injective (a / 16) (b / 16),
  hex_digit-injective (a % 16) (b % 16),
  hex_encode-injective s t h.1 k.1,
)

-- Two strings of bytes that are rendered alike are the same.
pub digest_from_bytes-injective :
    (s t : Bytes)
    → All (λ b. b < 256) s
    → All (λ b. b < 256) t
    → digest_from_bytes s ≡ digest_from_bytes t
    → s ≡ t
unfolding digest_from_bytes
digest_from_bytes-injective s t h k e = hex_encode-injective s t h k (ap (drop 7) e)

abbrev pub IsByte : ℕ → Type 0
IsByte b = b < 256

digit-IsByte : (c : ℕ) → IsHexDigit c → IsByte c
digit-IsByte c (inl h) = omega arith
digit-IsByte c (inr h) = omega arith

-- A digest consists of bytes, and so does what is rendered.
pub IsDigest-bytes : (s : Bytes) → IsDigest s → All IsByte s
IsDigest-bytes s (h, e, l, digits) =
    rw e (All-append IsByte digest_prefix h (omega arith) (All-imp h digit-IsByte digits))

pub digest_from_bytes-bytes : (s : Bytes) → All IsByte s → All IsByte (digest_from_bytes s)
unfolding digest_from_bytes
digest_from_bytes-bytes s h =
    All-append IsByte digest_prefix (hex_encode s) (omega arith)
      (All-imp (hex_encode s) digit-IsByte (hex_encode-IsHexDigit s h))
