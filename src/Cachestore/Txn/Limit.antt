-- ===== src/Cachestore/Txn/Limit.antt =====
-- What the limit of a staged write bounds.
use layerlens.Base.{
  ℕ, ◌+◌, ◌^◌, ◌≤◌, ◌<◌, ◌≡◌, refl, Bool, true, false, leb, Bool-cases, inl, inr, Option, none,
  some, List, [], ◌∷◌, Bytes, arith, All, if◌then◌else◌, Result, ok, err, ◌>>=◌, ◌>>◌, sub64, lt64,
}
use layerlens.Cachestore.State.{CacheError, Store, get_txn}
use layerlens.Cachestore.State.CacheError.{cache_full}
use layerlens.Cachestore.Lru.{reserve_ceiling, pinned_bytes}
use layerlens.Cachestore.Txn.{Staging, checked, budget_write, write_staged_limit}

-- The lengths of the chunks are int64 that are not negative.
abbrev pub HasSizes : Staging → Type 0
HasSizes f = All (λ c. c.0 < 2 ^ 63) f.chunks

at_most : (c : ℕ) → c < 2 ^ 64 → (if lt64 c 0 then 0 else c) < 2 ^ 63
at_most c h = ground arith

-- A chunk that was written fits, and the rest was written.
chunk_written :
    (remaining n c : ℕ) (x : Option Bytes) (rest : Result CacheError ℕ)
    → (if lt64 remaining c then err cache_full else do checked x; m ← rest; ok (c + m)) ≡ ok n
    → (m : ℕ) × (lt64 remaining c ≡ false) × (rest ≡ ok m) × (n ≡ c + m)
chunk_written remaining n c (some x) rest e = absurd (ground (arith, e))
chunk_written remaining n c none (err x) e = absurd (ground (arith, e))
chunk_written remaining n c none (ok m) e = (m, ground (arith, e), refl, ground (arith, e))

budget_write-le :
    (remaining n : ℕ) (cs : List (ℕ × Option Bytes))
    → All (λ c. c.0 < 2 ^ 63) cs
    → remaining < 2 ^ 63
    → budget_write remaining cs ≡ ok n
    → n ≤ remaining
unfolding budget_write
budget_write-le remaining n [] z r e = ground (arith, e)
budget_write-le remaining n ((c, x) ∷ cs) z r e =
    let (m, fits, f, same) =
      chunk_written remaining n c x (budget_write (sub64 remaining c) cs) e in
    let le : c ≤ remaining = ground (arith, fits, z.0) in
    let ih = budget_write-le (sub64 remaining c) m cs z.1 (omega (arith, le)) f in
    omega (arith, le, ih, same)

staged_written :
    (a b : Option Bytes) (w : Result CacheError ℕ) (n : ℕ)
    → (do checked a; m ← w; checked b; ok m) ≡ ok n
    → w ≡ ok n
staged_written (some x) b w n e = absurd (ground (arith, e))
staged_written none b (err x) n e = absurd (ground (arith, e))
staged_written none (some x) (ok m) n e = absurd (ground (arith, e))
staged_written none none (ok m) n e = e

-- A file that is staged under a limit that is not negative, in chunks whose lengths are int64 that
-- are not negative, is no longer than the limit.
pub write_staged_limit-le :
    (limit n : ℕ) (f : Staging)
    → HasSizes f
    → limit < 2 ^ 63
    → write_staged_limit limit f ≡ ok n
    → n ≤ limit
unfolding write_staged_limit
write_staged_limit-le limit n f z l e =
    let w = staged_written f.open_error f.close_error _ n e in
    let positive : lt64 limit 0 ≡ false = ground arith in
    budget_write-le limit n f.chunks z l (rw positive at w)

pub reserve_ceiling-lt : (h : ℕ) (s : Store) → reserve_ceiling h s < 2 ^ 63
unfolding reserve_ceiling
reserve_ceiling-lt h s =
    at_most (sub64 (sub64 s.max (pinned_bytes s)) (get_txn s.txns h).own_bytes) (omega arith)

-- The length of a file, by its chunks.
unfoldable pub file_size : List (ℕ × Option Bytes) → ℕ
file_size [] = 0
file_size ((n, _) ∷ cs) = n + file_size cs

-- Every chunk reaches the file, and its length is an int64 that is not negative.
abbrev pub IsFaultless : Staging → Type 0
IsFaultless f =
    (f.open_error ≡ none)
    × (f.close_error ≡ none)
    × All (λ c. (c.0 < 2 ^ 63) × (c.1 ≡ none)) f.chunks

too_long : (remaining c n : ℕ) → remaining < c → leb (c + n) remaining ≡ false
too_long remaining c n h = ground arith

next_chunk :
    (remaining c n : ℕ)
    → c ≤ remaining
    → remaining < 2 ^ 63
    → ((if leb n (sub64 remaining c) then ok n else err cache_full) >>= λ m. ok (c + m))
      ≡ (if leb (c + n) remaining then ok (c + n) else err cache_full)
next_chunk remaining c n h r = ground arith

budget_write-eq :
    (remaining : ℕ) (cs : List (ℕ × Option Bytes))
    → remaining < 2 ^ 63
    → All (λ c. (c.0 < 2 ^ 63) × (c.1 ≡ none)) cs
    → budget_write remaining cs
      ≡ (if leb (file_size cs) remaining then ok (file_size cs) else err cache_full)
unfolding budget_write file_size
budget_write-eq remaining [] r z = ground arith
budget_write-eq remaining ((c, some x) ∷ cs) r z = absurd (ground (arith, z.0.1))
budget_write-eq remaining ((c, none) ∷ cs) r z = elim (Bool-cases (lt64 remaining c)) [
  | inl over ↦
      let more : remaining < c = ground (arith, over, z.0.0) in
      rw (over, too_long remaining c (file_size cs) more) refl
  | inr fits ↦
      let le : c ≤ remaining = ground (arith, fits, z.0.0) in
      rw (fits, budget_write-eq (sub64 remaining c) cs (omega (arith, le)) z.1)
        (next_chunk remaining c (file_size cs) le r)
]

staged_whole :
    (b : Bool) (n : ℕ)
    → ((if b then ok n else err cache_full) >>= λ m. ok m) ≡ (if b then ok n else err cache_full)
staged_whole true n = refl
staged_whole false n = refl

-- Under a limit that is not negative, a file that meets no fault of the disk and is written in
-- chunks whose lengths are int64 that are not negative is staged, with its size, exactly if it is
-- no longer than the limit, and is refused as ErrCacheFull otherwise.
pub write_staged_limit-eq :
    (limit : ℕ) (f : Staging)
    → limit < 2 ^ 63
    → IsFaultless f
    → write_staged_limit limit f
      ≡ (if leb (file_size f.chunks) limit then ok (file_size f.chunks) else err cache_full)
unfolding write_staged_limit
write_staged_limit-eq limit f l z =
    let positive : lt64 limit 0 ≡ false = ground arith in
    rw (z.0, z.1, positive, budget_write-eq limit f.chunks l z.2)
      (staged_whole (leb (file_size f.chunks) limit) (file_size f.chunks))
