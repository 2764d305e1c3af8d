-- ===== src/Core/Nonces/Monotone.antt =====
-- The order of the nonces that `NonceCache` of src/near/_core.py hands out.
use near_kit_py.Base.{
  ◌+◌, ◌<◌, ◌≡◌, sym, ap, ◌∙◌, ◌≢◌, inl, inr, Option, none, some, List, [], ◌∷◌, arith,
  if◌then◌else◌, Bool-cases,
}
use mathlib.Core.Path.{subst}
use near_kit_py.Base.Int.{ℤ, pos, pos_part, neg_part, ◌+ℤ◌, ◌≤ℤ◌, +ℤ_parts}
use near_kit_py.Py.Text.{Str, str_eq, str_eq_iff, str_eq_refl}
use near_kit_py.Py.Dict.{insert, lookup-insert}
use near_kit_py.Core.Nonces.{Cache, max_ℤ, current, reserve, sync_to}

infix 50 ◌<ℤ◌
abbrev pub ◌<ℤ◌ : ℤ → ℤ → Type 0
a <ℤ b = pos_part a + neg_part b < pos_part b + neg_part a

-- The fetched nonce, if there is one, is below `n`.
abbrev pub AboveFetched : Option ℤ → ℤ → Type 0
AboveFetched none n = Unit
AboveFetched (some m) n = m <ℤ n

current-insert :
    (k j : Str) (v : ℤ) (c : Cache)
    → current k (insert j v c) ≡ (if str_eq j k then v else current k c)
current-insert k j v c = elim (Bool-cases (str_eq j k)) [
  | inl e ↦ ap (λ o. elim o [ none ↦ pos 0 | some w ↦ w ]) (lookup-insert j k v c) ∙ rw e
  | inr e ↦ ap (λ o. elim o [ none ↦ pos 0 | some w ↦ w ]) (lookup-insert j k v c) ∙ rw e
]

current-insert_same : (k : Str) (v : ℤ) (c : Cache) → current k (insert k v c) ≡ v
current-insert_same k v c =
    current-insert k k v c ∙ ap (λ b. if b then v else current k c) (str_eq_refl k)

current-insert_other :
    (k j : Str) (v : ℤ) (c : Cache) → j ≢ k → current k (insert j v c) ≡ current k c
current-insert_other k j v c ne = elim (Bool-cases (str_eq j k)) [
  | inl e ↦ elim (ne ((str_eq_iff j k).0 e)) [ ]
  | inr e ↦ current-insert k j v c ∙ rw e
]

≤ℤ-refl : (a : ℤ) → a ≤ℤ a
≤ℤ-refl a = omega arith

≤ℤ-eq : (a b d : ℤ) → b ≡ d → a ≤ℤ d → a ≤ℤ b
≤ℤ-eq a b d e h = rw e h

insert-raises :
    (k j : Str) (v : ℤ) (c : Cache) → current j c ≤ℤ v → current k c ≤ℤ current k (insert j v c)
insert-raises k j v c h =
    ≤ℤ-eq (current k c) (current k (insert j v c)) (if str_eq j k then v else current k c)
      (current-insert k j v c)
      (elim (Bool-cases (str_eq j k)) [
        | inl e ↦ rw e (rw (sym ((str_eq_iff j k).0 e)) h)
        | inr e ↦ rw e (≤ℤ-refl (current k c))
      ])

max_ℤ-left : (a b : ℤ) → a ≤ℤ max_ℤ a b
max_ℤ-left a b = ground arith

max_ℤ-right : (a b : ℤ) → b ≤ℤ max_ℤ a b
max_ℤ-right a b = ground arith

≤ℤ-of_< : (a b : ℤ) → a <ℤ b → a ≤ℤ b
≤ℤ-of_< a b h = omega arith

<ℤ-suc : (a b : ℤ) → a ≤ℤ b → a <ℤ b +ℤ pos 1
<ℤ-suc a b h = omega (arith, +ℤ_parts b (pos 1))

pub reserve-above_current :
    (k : Str) (fetched : Option ℤ) (c : Cache) → current k c <ℤ (reserve k fetched c).0
unfolding reserve
reserve-above_current k none c = <ℤ-suc (current k c) (current k c) (omega arith)
reserve-above_current k (some n) c =
    <ℤ-suc (current k c) (max_ℤ (current k c) n) (max_ℤ-left (current k c) n)

reserve-AboveFetched :
    (k : Str) (fetched : Option ℤ) (c : Cache) → AboveFetched fetched (reserve k fetched c).0
unfolding reserve
reserve-AboveFetched k none c = tt
reserve-AboveFetched k (some n) c = <ℤ-suc n (max_ℤ (current k c) n) (max_ℤ-right (current k c) n)

reserve-current :
    (k : Str) (fetched : Option ℤ) (c : Cache)
    → current k (reserve k fetched c).1 ≡ (reserve k fetched c).0
unfolding reserve
reserve-current k fetched c = current-insert_same k (reserve k fetched c).0 c

-- One call on the shared cache, by any thread or task.
pub data Op : Type 0 where
  reserve_op : Str → Option ℤ → Op
  sync_op : Str → ℤ → Op

abbrev pub step : Op → Cache → Cache
step (reserve_op k fetched) c = (reserve k fetched c).1
step (sync_op k n) c = sync_to k n c

-- The nonces that a run of calls hands out under the key `k`, in order.
unfoldable pub handed : Str → List Op → Cache → List ℤ
handed k [] c = []
handed k (reserve_op j fetched ∷ ops) c =
    let rest : List ℤ = handed k ops (step (reserve_op j fetched) c) in
    if str_eq j k then (reserve j fetched c).0 ∷ rest else rest
handed k (sync_op j n ∷ ops) c = handed k ops (step (sync_op j n) c)

-- Every entry is above the one before it, the first above `b`.
abbrev pub Ascending : ℤ → List ℤ → Type 0
Ascending b [] = Unit
Ascending b (x ∷ xs) = (b <ℤ x) × Ascending x xs

Ascending-weaken : (b b2 : ℤ) (xs : List ℤ) → b ≤ℤ b2 → Ascending b2 xs → Ascending b xs
Ascending-weaken b b2 [] h a = tt
Ascending-weaken b b2 (x ∷ xs) h a = (omega (arith, h, a.0), a.1)

-- A call on another key leaves the nonce of `k`; none lowers it.
pub step-raises : (k : Str) (o : Op) (c : Cache) → current k c ≤ℤ current k (step o c)
unfolding reserve sync_to
step-raises k (reserve_op j fetched) c =
    insert-raises k j (reserve j fetched c).0 c
      (≤ℤ-of_< (current j c) (reserve j fetched c).0 (reserve-above_current j fetched c))
step-raises k (sync_op j n) c =
    insert-raises k j (max_ℤ (current j c) n) c (max_ℤ-left (current j c) n)

reserve-Ascending :
    (k j : Str) (fetched : Option ℤ) (c : Cache) (xs : List ℤ)
    → j ≡ k
    → Ascending (current k (reserve j fetched c).1) xs
    → Ascending (current k c) ((reserve j fetched c).0 ∷ xs)
reserve-Ascending k j fetched c xs p a = rw (sym p) (
  reserve-above_current j fetched c,
  subst (λ z. Ascending z xs) (reserve-current j fetched c)
      (subst (λ z. Ascending (current z (reserve j fetched c).1) xs) (sym p) a),
)

-- However calls of threads and tasks interleave, the nonces handed out under one key rise strictly
-- from the nonce the cache had, so no nonce is given twice.
pub handed-Ascending :
    (k : Str) (ops : List Op) (c : Cache) → Ascending (current k c) (handed k ops c)
unfolding handed
handed-Ascending k [] c = tt
handed-Ascending k (reserve_op j fetched ∷ ops) c =
    let c' = (reserve j fetched c).1 in
    let rest = handed-Ascending k ops c' in
    elim (Bool-cases (str_eq j k)) [
      | inl e ↦ rw e (reserve-Ascending k j fetched c (handed k ops c') ((str_eq_iff j k).0 e) rest)
      | inr e ↦ rw e (
          Ascending-weaken (current k c) (current k c') (handed k ops c')
            (step-raises k (reserve_op j fetched) c) rest)
    ]
handed-Ascending k (sync_op j n ∷ ops) c =
    Ascending-weaken (current k c) (current k (step (sync_op j n) c))
      (handed k ops (step (sync_op j n) c)) (step-raises k (sync_op j n) c)
      (handed-Ascending k ops (step (sync_op j n) c))

-- A reserved nonce is above the nonce fetched for the reservation, if one was, and above the nonce
-- the cache had; it is the key's nonce from then on, and no other key's nonce changes.
pub reserve_lem :
    (k : Str) (fetched : Option ℤ) (c : Cache)
    → AboveFetched fetched (reserve k fetched c).0
      × (current k c <ℤ (reserve k fetched c).0)
      × (current k (reserve k fetched c).1 ≡ (reserve k fetched c).0)
      × ((j : Str) → k ≢ j → current j (reserve k fetched c).1 ≡ current j c)
unfolding reserve
reserve_lem k fetched c = (
  reserve-AboveFetched k fetched c,
  reserve-above_current k fetched c,
  reserve-current k fetched c,
  λ j ne. current-insert_other j k (reserve k fetched c).0 c ne,
)

pub sync_to-raises : (k : Str) (n : ℤ) (c : Cache) → current k c ≤ℤ current k (sync_to k n c)
sync_to-raises k n c = step-raises k (sync_op k n) c
