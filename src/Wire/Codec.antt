-- ===== src/Wire/Codec.antt =====
-- The Borsh format as wire.py relies on it. pyborsh writes and reads the primitive types and is a
-- parameter, `Pyborsh`; its laws are the published format. Structs are the fields one after the
-- other, enums a one-byte discriminant in declaration order, lists a u32 count, options a flag.
use near_kit_py.Base.{
  ℕ, zero, suc, ◌*◌, ◌/◌, ◌%◌, ◌^◌, ◌≤◌, ◌<◌, ◌≡◌, refl, Option, none, some, List, [], ◌∷◌, ◌++◌,
  append_assoc, length,
}
use near_kit_py.Base.Int.{ℤ, pos, negsuc}
use near_kit_py.Py.Text.{Str}

abbrev pub Bytes : Type 0
Bytes = List ℕ

-- What a reader returns: the value and the rest of the input.
abbrev pub Reader : Type 0 → Type 0
Reader A = Bytes → Option (A × Bytes)

-- Reading gives back what was written, whatever follows.
abbrev pub ReadsBack : {A : Type 0} → (A → Option Bytes) → Reader A → Type 0
ReadsBack {A} put get = (a : A) (b rest : Bytes) → put a ≡ some b → get (b ++ rest) ≡ some (a, rest)

-- A serializer with its reader. `put` is none where pyborsh raises, as for a number out of range.
pub record Codec (A : Type 0) : Type 0 where
  pub put : A → Option Bytes
  pub get : Reader A
  pub reads_back : ReadsBack put get

-- The little-endian bytes of a number in the given width.
unfoldable pub le_bytes : ℕ → ℕ → Bytes
le_bytes zero n = []
le_bytes (suc w) n = (n % 256) ∷ le_bytes w (n / 256)

-- pyborsh's primitives: fixed-width integers, byte arrays of a fixed length, strings and bytes.
pub record Pyborsh : Type 1 where
  pub int_of : ℕ → Codec ℤ
  pub fixed : ℕ → Codec Bytes
  pub string : Codec Str
  pub bytes : Codec Bytes
  -- Integers are little-endian, and only those that fit are written.
  pub int_fits : (w n : ℕ) → n < 256 ^ w → (int_of w).put (pos n) ≡ some (le_bytes w n)
  pub int_range :
      (w : ℕ) (z : ℤ) (b : Bytes)
      → (int_of w).put z ≡ some b
      → (n : ℕ) × (z ≡ pos n) × (n < 256 ^ w)
  -- A string is the length of its UTF-8 bytes as a u32, and the bytes.
  pub string_layout :
      (s : Str) (b : Bytes)
      → string.put s ≡ some b
      → (body : Bytes) × (b ≡ le_bytes 4 (length body) ++ body)
        × (length s ≤ length body)
        × (length body ≤ 4 * length s)
  pub fixed_layout : (n : ℕ) (v b : Bytes) → (fixed n).put v ≡ some b → (b ≡ v) × (length v ≡ n)

-- One value behind another.
infixr 20 ◌<+>◌
abbrev pub ◌<+>◌ : Option Bytes → Option Bytes → Option Bytes
none <+> y = none
some a <+> y = elim y [ none ↦ none | some b ↦ some (a ++ b) ]

infixl 5 ◌>>=◌
abbrev pub ◌>>=◌ : {A B : Type 0} → Option A → (A → Option B) → Option B
none >>= f = none
some a >>= f = f a

-- The parts of a text that was written in two.
pub <+>-some :
    (x y : Option Bytes) (c : Bytes)
    → (x <+> y) ≡ some c
    → (a : Bytes) × (b : Bytes) × (x ≡ some a) × (y ≡ some b) × (c ≡ a ++ b)
<+>-some none y c h = absurd (cc)
<+>-some (some a) none c h = absurd (cc)
<+>-some (some a) (some b) c h = (a, b, refl, refl, cc)

-- Two fields of a struct.

module _ {A B : Type 0} (ca : Codec A) (cb : Codec B) where
  abbrev put_pair : A × B → Option Bytes
  put_pair p = ca.put p.0 <+> cb.put p.1

  abbrev get_pair : Reader (A × B)
  get_pair bytes = do (a, rest) ← ca.get bytes; (b, rest') ← cb.get rest; some ((a, b), rest')

  pub pair-ReadsBack : ReadsBack put_pair get_pair
  pair-ReadsBack (a, b) c rest h =
      let (x, y, hx, hy, e) = <+>-some (ca.put a) (cb.put b) c h in
      rw (e, append_assoc x y rest, ca.reads_back a x (y ++ rest) hx, cb.reads_back b y rest hy)

  infixr 30 ◌⊗◌
  abbrev pub ◌⊗◌ : Codec (A × B)
  ◌⊗◌ = record { put = put_pair; get = get_pair; reads_back = pair-ReadsBack }

-- A struct from the tuple of its fields.
module _ {A B : Type 0} (make : A → B) (fields : B → A) (same : (b : B) → make (fields b) ≡ b)
    (c : Codec A) where
  abbrev get_struct : Reader B
  get_struct bytes = do (a, rest) ← c.get bytes; some (make a, rest)

  pub struct-ReadsBack : ReadsBack (λ b. c.put (fields b)) get_struct
  struct-ReadsBack b d rest h = rw (c.reads_back (fields b) d rest h, same b)

  abbrev pub struct : Codec B
  struct = record { put = λ b. c.put (fields b); get = get_struct; reads_back = struct-ReadsBack }

-- `T | None`: a flag, and the value behind a 1.
module _ (p : Pyborsh) {A : Type 0} (c : Codec A) where
  abbrev put_option : Option A → Option Bytes
  put_option none = (p.int_of 1).put (pos 0)
  put_option (some a) = (p.int_of 1).put (pos 1) <+> c.put a

  abbrev get_some : Reader (Option A)
  get_some bytes = do (a, rest) ← c.get bytes; some (some a, rest)

  abbrev get_flagged : ℤ → Reader (Option A)
  get_flagged (pos zero) bytes = some (none, bytes)
  get_flagged (pos (suc zero)) bytes = get_some bytes
  get_flagged _ bytes = none

  abbrev get_option : Reader (Option A)
  get_option bytes = do (flag, rest) ← (p.int_of 1).get bytes; get_flagged flag rest

  pub option-ReadsBack : ReadsBack put_option get_option
  option-ReadsBack none b rest h = rw ((p.int_of 1).reads_back (pos 0) b rest h)
  option-ReadsBack (some a) b rest h =
      let (x, y, hx, hy, e) = <+>-some ((p.int_of 1).put (pos 1)) (c.put a) b h in
      rw (
        e,
        append_assoc x y rest,
        (p.int_of 1).reads_back (pos 1) x (y ++ rest) hx,
        c.reads_back a y rest hy,
      )

  abbrev pub option : Codec (Option A)
  option = record { put = put_option; get = get_option; reads_back = option-ReadsBack }

-- `list[T]`: the number of the items as a u32, and the items.
module _ (p : Pyborsh) {A : Type 0} (c : Codec A) where
  unfoldable pub put_items : List A → Option Bytes
  put_items [] = some []
  put_items (a ∷ items) = c.put a <+> put_items items

  unfoldable pub get_items : ℕ → Reader (List A)
  get_items zero bytes = some ([], bytes)
  get_items (suc n) bytes = do
    (a, rest) ← c.get bytes
    (items, rest') ← get_items n rest
    some (a ∷ items, rest')

  items_read_back :
      (items : List A) (b rest : Bytes)
      → put_items items ≡ some b
      → get_items (length items) (b ++ rest) ≡ some (items, rest)
  unfolding put_items get_items
  items_read_back [] b rest h = let e : b ≡ [] = cc in rw e
  items_read_back (a ∷ items) b rest h =
      let (x, y, hx, hy, e) = <+>-some (c.put a) (put_items items) b h in
      rw
        (e, append_assoc x y rest, c.reads_back a x (y ++ rest) hx, items_read_back items y rest hy)

  abbrev put_list : List A → Option Bytes
  put_list items = (p.int_of 4).put (pos (length items)) <+> put_items items

  abbrev get_counted : ℤ → Reader (List A)
  get_counted (pos n) bytes = get_items n bytes
  get_counted (negsuc n) bytes = none

  abbrev get_list : Reader (List A)
  get_list bytes = do (count, rest) ← (p.int_of 4).get bytes; get_counted count rest

  pub list-ReadsBack : ReadsBack put_list get_list
  list-ReadsBack items b rest h =
      let n = pos (length items) in
      let (x, y, hx, hy, e) = <+>-some ((p.int_of 4).put n) (put_items items) b h in
      rw (e, append_assoc x y rest, (p.int_of 4).reads_back n x (y ++ rest) hx)
        (items_read_back items y rest hy)

  abbrev pub list : Codec (List A)
  list = record { put = put_list; get = get_list; reads_back = list-ReadsBack }

-- The reader at a discriminant, which is the position in the declaration.
abbrev pub variant_at : {A : Type 0} → ℕ → List (Reader A) → Reader A
variant_at n [] bytes = none
variant_at zero (get ∷ readers) bytes = get bytes
variant_at (suc n) (get ∷ readers) bytes = variant_at n readers bytes

-- A `BorshEnum`: the discriminant of each variant, and the variants' structs behind it.
pub record Variants (A : Type 0) : Type 0 where
  pub tag : A → ℕ
  pub put_body : A → Option Bytes
  pub readers : List (Reader A)
  pub body_reads_back :
      (a : A) (b rest : Bytes)
      → put_body a ≡ some b
      → variant_at (tag a) readers (b ++ rest) ≡ some (a, rest)

module _ (p : Pyborsh) {A : Type 0} (v : Variants A) where
  abbrev put_enum : A → Option Bytes
  put_enum a = (p.int_of 1).put (pos (v.tag a)) <+> v.put_body a

  abbrev get_variant : ℤ → Reader A
  get_variant (pos n) bytes = variant_at n v.readers bytes
  get_variant (negsuc n) bytes = none

  abbrev get_enum : Reader A
  get_enum bytes = do (tag, rest) ← (p.int_of 1).get bytes; get_variant tag rest

  pub enum-ReadsBack : ReadsBack put_enum get_enum
  enum-ReadsBack a b rest h =
      let n = pos (v.tag a) in
      let (x, y, hx, hy, e) = <+>-some ((p.int_of 1).put n) (v.put_body a) b h in
      rw (e, append_assoc x y rest, (p.int_of 1).reads_back n x (y ++ rest) hx)
        (v.body_reads_back a y rest hy)

  abbrev pub enum : Codec A
  enum = record { put = put_enum; get = get_enum; reads_back = enum-ReadsBack }

-- One variant with a payload, and one without.
abbrev pub variant : {A B : Type 0} → Codec A → (A → B) → Reader B
variant c make bytes = do (a, rest) ← c.get bytes; some (make a, rest)

abbrev pub unit_variant : {B : Type 0} → B → Reader B
unit_variant b bytes = some (b, bytes)

pub variant_reads_back :
    {A B : Type 0} (c : Codec A) (make : A → B) (a : A) (b rest : Bytes)
    → c.put a ≡ some b
    → variant c make (b ++ rest) ≡ some (make a, rest)
variant_reads_back c make a b rest h = rw (c.reads_back a b rest h)

pub unit_reads_back :
    {B : Type 0} (v : B) (b rest : Bytes)
    → some [] ≡ some b
    → unit_variant v (b ++ rest) ≡ some (v, rest)
unit_reads_back v b rest h = let e : b ≡ [] = cc in rw e
