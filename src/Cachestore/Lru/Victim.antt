-- ===== src/Cachestore/Lru/Victim.antt =====
-- Which image evictLRULocked evicts.
use layerlens.Base.{
  ◌≡◌, refl, ap, ◌∙◌, Bool, true, false, Option, none, some, [], ◌∷◌, Bytes, arith, All, Bool-cases,
  inl, inr, ◌⊎◌, ◌<◌, bytes_lt, if◌then◌else◌, bytes_lt_irrefl, bytes_lt_trans,
}
use layerlens.Base.Dict.{Dict, find, IsDict, IsDict-find, find-All}
use layerlens.Cachestore.State.{ImageEntry}
use layerlens.Cachestore.Lru.{evicts_before, better_victim, victim}

-- A predicate holds of the victim, if there is one.
abbrev pub Chosen : (ImageEntry → Type 0) → Option ImageEntry → Type 0
Chosen P none = Unit
Chosen P (some v) = P v

better_victim-Chosen :
    (P : ImageEntry → Type 0) (e : ImageEntry) (best : Option ImageEntry)
    → P e
    → Chosen P best
    → Chosen P (better_victim e best)
unfolding better_victim
better_victim-Chosen P e none h k = h
better_victim-Chosen P e (some v) h k = elim (Bool-cases (evicts_before e v)) [
  | inl p ↦ rw p h
  | inr p ↦ rw p k
]

considered-Chosen :
    (P : ImageEntry → Type 0) (e : ImageEntry) (best : Option ImageEntry) (pinned : Bool)
    → (pinned ≡ false → P e)
    → Chosen P best
    → Chosen P (if pinned then best else better_victim e best)
considered-Chosen P e best true h k = k
considered-Chosen P e best false h k = better_victim-Chosen P e best (h refl) k

victim-Chosen :
    (P : ImageEntry → Type 0) (d : Dict ImageEntry) (best : Option ImageEntry)
    → All (λ p. p.1.rec.pinned ≡ false → P p.1) d
    → Chosen P best
    → Chosen P (victim d best)
unfolding victim
victim-Chosen P [] best h k = k
victim-Chosen P ((_, e) ∷ d) best h k =
    victim-Chosen P d _ h.1 (considered-Chosen P e best e.rec.pinned h.0 k)

-- No better victim than the one chosen.
abbrev pub Behind : ImageEntry → Option ImageEntry → Type 0
Behind e none = ⊥
Behind e (some v) = evicts_before e v ≡ false

evicts_before_trans :
    (x y z : ImageEntry)
    → evicts_before x y ≡ true
    → evicts_before y z ≡ true
    → evicts_before x z ≡ true
evicts_before_trans x y z h k = ground (arith, bytes_lt_trans x.rec.id y.rec.id z.rec.id)

evicts_before_irrefl : (x : ImageEntry) → evicts_before x x ≡ false
evicts_before_irrefl x = ground (arith, bytes_lt_irrefl x.rec.id)

better_victim-Behind :
    (x e : ImageEntry) (best : Option ImageEntry) → Behind x best → Behind x (better_victim e best)
unfolding better_victim
better_victim-Behind x e none h = elim h [ ]
better_victim-Behind x e (some v) h = elim (Bool-cases (evicts_before e v)) [
  | inl p ↦ rw p (elim (Bool-cases (evicts_before x e)) [
    | inl q ↦ absurd (cc (evicts_before_trans x e v q p))
    | inr q ↦ q
  ])
  | inr p ↦ rw p h
]

better_victim_self : (e : ImageEntry) (best : Option ImageEntry) → Behind e (better_victim e best)
unfolding better_victim
better_victim_self e none = evicts_before_irrefl e
better_victim_self e (some v) = elim (Bool-cases (evicts_before e v)) [
  | inl p ↦ rw p (evicts_before_irrefl e)
  | inr p ↦ rw p p
]

considered-Behind :
    (x e : ImageEntry) (best : Option ImageEntry) (pinned : Bool)
    → Behind x best
    → Behind x (if pinned then best else better_victim e best)
considered-Behind x e best true h = h
considered-Behind x e best false h = better_victim-Behind x e best h

considered_self :
    (e : ImageEntry) (best : Option ImageEntry) (pinned : Bool)
    → pinned ≡ false
    → Behind e (if pinned then best else better_victim e best)
considered_self e best true h = absurd (cc)
considered_self e best false h = better_victim_self e best

victim-Behind :
    (x : ImageEntry) (d : Dict ImageEntry) (best : Option ImageEntry)
    → Behind x best
    → Behind x (victim d best)
unfolding victim
victim-Behind x [] best h = h
victim-Behind x ((_, e) ∷ d) best h =
    victim-Behind x d _ (considered-Behind x e best e.rec.pinned h)

victim_least :
    (d : Dict ImageEntry) (best : Option ImageEntry)
    → All (λ p. p.1.rec.pinned ≡ false → Behind p.1 (victim d best)) d
unfolding victim
victim_least [] best = tt
victim_least ((_, e) ∷ d) best =
    (λ h. victim-Behind e d _ (considered_self e best e.rec.pinned h), victim_least d _)

-- Every entry stands under its own id, and no id is listed twice.
pub record IsKeyed (d : Dict ImageEntry) : Type 0 where
  pub distinct : IsDict d
  pub keyed : (k : Bytes) (e : ImageEntry) → find k d ≡ some e → e.rec.id ≡ k

-- The first was used before the other, or at the same time and its id does not come after.
abbrev pub UsedFirst : ImageEntry → ImageEntry → Type 0
UsedFirst v e =
    (v.rec.last_used_at < e.rec.last_used_at)
    ⊎ ((v.rec.last_used_at ≡ e.rec.last_used_at) × (bytes_lt e.rec.id v.rec.id ≡ false))

behind-UsedFirst : (e v : ImageEntry) → evicts_before e v ≡ false → UsedFirst v e
behind-UsedFirst e v h = ground arith

-- The least recently used image that is not pinned, the one of the least id among equals; none if
-- every image is pinned.
abbrev pub IsLru : Dict ImageEntry → Option ImageEntry → Type 0
IsLru d none = (k : Bytes) (e : ImageEntry) → find k d ≡ some e → e.rec.pinned ≡ true
IsLru d (some v) =
    (find v.rec.id d ≡ some v)
    × (v.rec.pinned ≡ false)
    × ((k : Bytes) (e : ImageEntry) → find k d ≡ some e → e.rec.pinned ≡ false → UsedFirst v e)

abbrev IsListed : Dict ImageEntry → ImageEntry → Type 0
IsListed d v = (find v.rec.id d ≡ some v) × (v.rec.pinned ≡ false)

each_keyed :
    (d l : Dict ImageEntry)
    → IsKeyed d
    → All (λ p. find p.0 d ≡ some p.1) l
    → All (λ p. p.1.rec.pinned ≡ false → IsListed d p.1) l
each_keyed d [] h a = tt
each_keyed d ((k, e) ∷ l) h a =
    (λ p. (ap (λ i. find i d) (h.keyed k e a.0) ∙ a.0, p), each_keyed d l h a.1)

victim-IsListed : (d : Dict ImageEntry) → IsKeyed d → Chosen (IsListed d) (victim d none)
victim-IsListed d h =
    victim-Chosen (IsListed d) d none (each_keyed d d h (IsDict-find d h.distinct)) tt

least-IsLru :
    (d : Dict ImageEntry) (o : Option ImageEntry)
    → Chosen (IsListed d) o
    → All (λ p. p.1.rec.pinned ≡ false → Behind p.1 o) d
    → IsLru d o
least-IsLru d none c a = λ k e h.
    let f : e.rec.pinned ≡ false → ⊥ =
      find-All (λ _ x. x.rec.pinned ≡ false → Behind x none) k e d a h in
    elim (Bool-cases e.rec.pinned) [ inl p ↦ p | inr p ↦ absurd (f p) ]
least-IsLru d (some v) c a = (
  c.0,
  c.1,
  λ k e h p.
      behind-UsedFirst e v (find-All (λ _ x. x.rec.pinned ≡ false → Behind x (some v)) k e d a h p),
)

-- Among images under their own ids, evictLRULocked chooses one that is not pinned, and no image
-- that is not pinned was used before it, or at the same time with a lesser id; it chooses none
-- only if every image is pinned.
pub victim-IsLru : (d : Dict ImageEntry) → IsKeyed d → IsLru d (victim d none)
victim-IsLru d h = least-IsLru d (victim d none) (victim-IsListed d h) (victim_least d none)
