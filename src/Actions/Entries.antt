-- ===== src/Actions/Entries.antt =====
-- `_canonical_entries` of src/near/wire.py: the entries of a state init are sorted by key, and two
-- entries with one key are refused.
use near_kit_py.Base.{
  ◌≡◌, refl, inl, inr, Bool, true, false, ◌||◌, List, [], ◌∷◌, arith, ltb, ◌==◌, if◌then◌else◌,
  Bool-cases,
}
use near_kit_py.Errors.{value_error, Result, ok, err}
use near_kit_py.Py.Text.{str_eq}
use near_kit_py.Wire.Codec.{Bytes}

-- `k < l` on bytes
unfoldable pub bytes_lt : Bytes → Bytes → Bool
bytes_lt s [] = false
bytes_lt [] (d ∷ t) = true
bytes_lt (c ∷ s) (d ∷ t) =
    let rest = bytes_lt s t in if ltb c d then true else if c == d then rest else false

abbrev pub Entry : Type 0
Entry = Bytes × Bytes

-- `sorted(entries, key=lambda kv: kv[0])`, which is stable.
unfoldable pub insert_entry : Entry → List Entry → List Entry
insert_entry e [] = e ∷ []
insert_entry e (x ∷ xs) =
    let rest = insert_entry e xs in if bytes_lt x.0 e.0 then x ∷ rest else e ∷ x ∷ xs

unfoldable pub sorted_entries : List Entry → List Entry
sorted_entries [] = []
sorted_entries (e ∷ es) = insert_entry e (sorted_entries es)

-- `for (left, _), (right, _) in pairwise(ordered)`
unfoldable pub repeats : List Entry → Bool
repeats [] = false
repeats (x ∷ []) = false
repeats (x ∷ y ∷ ys) = str_eq x.0 y.0 || repeats (y ∷ ys)

unfoldable pub canonical_entries : List Entry → Result (List Entry)
canonical_entries es =
    let ordered = sorted_entries es in if repeats ordered then err value_error else ok ordered

-- Keys that rise strictly.
abbrev pub Increasing : List Entry → Type 0
Increasing [] = Unit
Increasing (x ∷ []) = Unit
Increasing (x ∷ y ∷ ys) = (bytes_lt x.0 y.0 ≡ true) × Increasing (y ∷ ys)

-- No key is below the one before it.
abbrev pub NoneBelow : List Entry → Type 0
NoneBelow [] = Unit
NoneBelow (x ∷ []) = Unit
NoneBelow (x ∷ y ∷ ys) = (bytes_lt y.0 x.0 ≡ false) × NoneBelow (y ∷ ys)

bytes_lt_total : (s t : Bytes) → bytes_lt t s ≡ false → str_eq s t ≡ false → bytes_lt s t ≡ true
unfolding bytes_lt str_eq
bytes_lt_total [] [] h e = cc
bytes_lt_total [] (d ∷ t) h e = refl
bytes_lt_total (c ∷ s) [] h e = cc
bytes_lt_total (c ∷ s) (d ∷ t) h e = ground (arith, bytes_lt_total s t)

bytes_lt_asym : (s t : Bytes) → bytes_lt s t ≡ true → bytes_lt t s ≡ false
unfolding bytes_lt
bytes_lt_asym [] [] h = refl
bytes_lt_asym [] (d ∷ t) h = refl
bytes_lt_asym (c ∷ s) [] h = cc
bytes_lt_asym (c ∷ s) (d ∷ t) h = ground (arith, bytes_lt_asym s t)

insert_entry-NoneBelow :
    (e : Entry) (xs : List Entry) → NoneBelow xs → NoneBelow (insert_entry e xs)
unfolding insert_entry
insert_entry-NoneBelow e [] h = tt
insert_entry-NoneBelow e (x ∷ []) h = elim (Bool-cases (bytes_lt x.0 e.0)) [
  | inl b ↦ rw b (bytes_lt_asym x.0 e.0 b, tt)
  | inr b ↦ rw b (b, tt)
]
insert_entry-NoneBelow e (x ∷ y ∷ ys) h = elim (Bool-cases (bytes_lt x.0 e.0)) [
  | inl b ↦ elim (Bool-cases (bytes_lt y.0 e.0)) [
    | inl d ↦ rw b (rw d (h.0, rw d at (insert_entry-NoneBelow e (y ∷ ys) h.1)))
    | inr d ↦ rw b (rw d (bytes_lt_asym x.0 e.0 b, (d, h.1)))
  ]
  | inr b ↦ rw b (b, h)
]

pub sorted_entries-NoneBelow : (es : List Entry) → NoneBelow (sorted_entries es)
unfolding sorted_entries
sorted_entries-NoneBelow [] = tt
sorted_entries-NoneBelow (e ∷ es) =
    insert_entry-NoneBelow e (sorted_entries es) (sorted_entries-NoneBelow es)

pub Increasing-of_distinct : (xs : List Entry) → NoneBelow xs → repeats xs ≡ false → Increasing xs
unfolding repeats
Increasing-of_distinct [] h d = tt
Increasing-of_distinct (x ∷ []) h d = tt
Increasing-of_distinct (x ∷ y ∷ ys) h d =
    let apart : str_eq x.0 y.0 ≡ false = ground arith in
    let more : repeats (y ∷ ys) ≡ false = ground arith in
    (bytes_lt_total x.0 y.0 h.0 apart, Increasing-of_distinct (y ∷ ys) h.1 more)
