-- ===== src/Analyze/Changeset/Order.antt =====
-- The digest does not depend on the order in which the entries are supplied.
use layerlens.Base.{
  ℕ, ◌≡◌, sym, ◌∙◌, length-sort, ap, inl, inr, false, List, Bytes, arith, bytes_eq_iff,
  bytes_lt_asymm, bytes_lt_total, AllPairs, AllPairs-imp, Apart, IsWeakOrder, sort, sort-eq_of_perm,
  length, bytes_lt_irrefl, bytes_lt-IsWeakOrder, Bool-cases,
}
use mathlib.Core.List.{Perm}
use native.Mathlib.Nat.{ℕ_set}
use layerlens.Domain.Entry.{Entry, EntryKind, kind_code}
use layerlens.Analyze.Changeset.{entry_less, changeset_stream, changeset_digest_at}

pub entry_less-IsWeakOrder : IsWeakOrder entry_less
unfolding entry_less
entry_less-IsWeakOrder = record {
  asymm = λ x y h.
      ground (
        arith,
        bytes_eq_iff x.path y.path,
        bytes_eq_iff y.path x.path,
        bytes_lt_asymm x.path y.path,
      );
  chain = λ x y z h k. ground (
    arith,
    bytes_eq_iff x.path y.path,
    bytes_eq_iff y.path x.path,
    bytes_eq_iff z.path y.path,
    bytes_eq_iff z.path x.path,
    bytes_lt-IsWeakOrder.chain x.path y.path z.path,
    bytes_lt_total x.path y.path,
    bytes_lt_total y.path z.path,
    bytes_lt_total z.path x.path,
    bytes_lt_asymm x.path y.path,
    bytes_lt_asymm y.path z.path,
    bytes_lt_asymm z.path x.path,
    bytes_lt_irrefl x.path,
  );
}

-- No two entries have both the path and the kind in common.
abbrev pub SameKey : Entry → Entry → Type 0
SameKey x y = (x.path ≡ y.path) × (x.kind ≡ y.kind)

abbrev pub DistinctKeys : List Entry → Type 0
DistinctKeys = AllPairs (λ x y. ¬ SameKey x y)

kind_code-injective : (j k : EntryKind) → kind_code j ≡ kind_code k → j ≡ k
kind_code-injective j k e = ground arith

entry_less_total : (x y : Entry) → entry_less x y ≡ false → entry_less y x ≡ false → SameKey x y
unfolding entry_less
entry_less_total x y h k =
    let same : x.path ≡ y.path = ground (
      arith,
      bytes_eq_iff x.path y.path,
      bytes_eq_iff y.path x.path,
      bytes_lt_total x.path y.path,
    ) in
    (
      same,
      kind_code-injective x.kind y.kind
          (ground (arith, bytes_eq_iff x.path y.path, bytes_eq_iff y.path x.path, same)),
    )

entries-Apart : (x y : Entry) → ¬ SameKey x y → Apart entry_less x y
entries-Apart x y h = elim (Bool-cases (entry_less x y)) [
  | inl p ↦ inl p
  | inr p ↦ elim (Bool-cases (entry_less y x)) [
    | inl q ↦ inr q
    | inr q ↦ absurd (h (entry_less_total x y p q))
  ]
]

sort-Perm : {l m : List Entry} → Perm l m → DistinctKeys l → sort entry_less l ≡ sort entry_less m
sort-Perm {l} p d =
    sort-eq_of_perm entry_less entry_less-IsWeakOrder (hlevel ℕ_set) p
      (AllPairs-imp l entries-Apart d)

-- Entries of distinct path and kind, supplied in another order, hash to the same digest.
pub changeset_digest-perm :
    (sha256 : Bytes → Bytes) (version : ℕ) {l m : List Entry}
    → DistinctKeys l
    → Perm l m
    → changeset_digest_at sha256 version l ≡ changeset_digest_at sha256 version m
unfolding changeset_digest_at changeset_stream
changeset_digest-perm sha256 version {l} {m} d p =
    let same = sort-Perm p d in
    let count : length l ≡ length m =
      sym (length-sort entry_less l) ∙ (ap length same ∙ length-sort entry_less m) in
    rw (same, count)
