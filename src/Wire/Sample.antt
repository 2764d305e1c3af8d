-- ===== src/Wire/Sample.antt =====
-- A small implementation of the primitives that wire.py takes from pyborsh, for the runs of the
-- model: a character of a string is one byte.
use near_kit_py.Base.{
  ℕ, zero, suc, ◌+◌, ◌*◌, ◌/◌, ◌%◌, ◌^◌, ◌<◌, ◌≡◌, refl, sym, ap, inl, inr, true, Option, none,
  some, [], ◌∷◌, ◌++◌, append_assoc, arith, ltb, leb, ◌==◌, if◌then◌else◌, ltb→lt, lt→ltb, ==_iff,
  Bool-cases, length, take, drop, length-append, take-length-append, drop-length-append,
}
use near_kit_py.Base.Int.{ℤ, pos, negsuc}
use native.Mathlib.Nat.{pow-suc}
use near_kit_py.Py.Text.{Str}
use near_kit_py.Wire.Codec.{Bytes, Reader, Codec, Pyborsh, le_bytes, ◌>>=◌}

unfoldable pub read_le : ℕ → Bytes → Option (ℕ × Bytes)
read_le zero b = some (0, b)
read_le (suc w) [] = none
read_le (suc w) (x ∷ b) = do p ← read_le w b; some (x + 256 * p.0, p.1)

read_le-le_bytes :
    (w n : ℕ) (rest : Bytes) → n < 256 ^ w → read_le w (le_bytes w n ++ rest) ≡ some (n, rest)
unfolding read_le le_bytes
read_le-le_bytes zero n rest h = ground arith
read_le-le_bytes (suc w) n rest h =
    let small : n / 256 < 256 ^ w = omega (arith, h, pow-suc 256 w) in
    let whole : n % 256 + 256 * (n / 256) ≡ n = omega arith in
    rw (read_le-le_bytes w (n / 256) rest small) (ap (λ (m : ℕ). some (m, rest)) whole)

unfoldable pub put_int : ℕ → ℤ → Option Bytes
put_int w (pos n) = if ltb n (256 ^ w) then some (le_bytes w n) else none
put_int w (negsuc n) = none

unfoldable pub get_int : ℕ → Reader ℤ
unfolding read_le
get_int w b = do p ← read_le w b; some (pos p.0, p.1)

pub int-reads_back :
    (w : ℕ) (z : ℤ) (b rest : Bytes) → put_int w z ≡ some b → get_int w (b ++ rest) ≡ some (z, rest)
unfolding put_int get_int
int-reads_back w (negsuc n) b rest h = ground arith
int-reads_back w (pos n) b rest h = elim (Bool-cases (ltb n (256 ^ w))) [
  | inl e ↦
      let hb : some (le_bytes w n) ≡ some b = rw e at h in
      let eb : le_bytes w n ≡ b = cc in
      rw (sym eb, read_le-le_bytes w n rest (ltb→lt n (256 ^ w) e))
  | inr e ↦ let hb : none ≡ some b = rw e at h in absurd (cc)
]

unfoldable pub put_fixed : ℕ → Bytes → Option Bytes
put_fixed n v = if length v == n then some v else none

unfoldable pub get_fixed : ℕ → Reader Bytes
get_fixed n b = if leb n (length b) then some (take n b, drop n b) else none

unfoldable pub put_text : Str → Option Bytes
put_text s = if ltb (length s) (256 ^ 4) then some (le_bytes 4 (length s) ++ s) else none

unfoldable pub get_text : Reader Str
unfolding read_le get_fixed
get_text b = do p ← read_le 4 b; get_fixed p.0 p.1

get_fixed-length : (v rest : Bytes) → get_fixed (length v) (v ++ rest) ≡ some (v, rest)
unfolding get_fixed
get_fixed-length v rest =
    let long : leb (length v) (length (v ++ rest)) ≡ true = ground (arith, length-append v rest) in
    rw (long, take-length-append v rest, drop-length-append v rest)

pub fixed-layout : (n : ℕ) (v b : Bytes) → put_fixed n v ≡ some b → (b ≡ v) × (length v ≡ n)
unfolding put_fixed
fixed-layout n v b h = ground (arith, ==_iff (length v) n)

pub fixed-reads_back :
    (n : ℕ) (v b rest : Bytes) → put_fixed n v ≡ some b → get_fixed n (b ++ rest) ≡ some (v, rest)
fixed-reads_back n v b rest h =
    let (same, sized) = fixed-layout n v b h in rw (same, sym sized) (get_fixed-length v rest)

pub text-layout :
    (s : Str) (b : Bytes)
    → put_text s ≡ some b
    → (b ≡ le_bytes 4 (length s) ++ s) × (length s < 256 ^ 4)
unfolding put_text
text-layout s b h = elim (Bool-cases (ltb (length s) (256 ^ 4))) [
  | inl e ↦
      let hb : some (le_bytes 4 (length s) ++ s) ≡ some b = rw e at h in
      (cc, ltb→lt (length s) (256 ^ 4) e)
  | inr e ↦ let hb : none ≡ some b = rw e at h in absurd (cc)
]

pub text-reads_back :
    (s : Str) (b rest : Bytes) → put_text s ≡ some b → get_text (b ++ rest) ≡ some (s, rest)
unfolding get_text
text-reads_back s b rest h =
    let (same, small) = text-layout s b h in
    rw
      (
        same,
        append_assoc (le_bytes 4 (length s)) s rest,
        read_le-le_bytes 4 (length s) (s ++ rest) small,
      )
      (get_fixed-length s rest)

pub int-range :
    (w : ℕ) (z : ℤ) (b : Bytes) → put_int w z ≡ some b → (n : ℕ) × (z ≡ pos n) × (n < 256 ^ w)
unfolding put_int
int-range w (negsuc n) b h = ground arith
int-range w (pos n) b h = elim (Bool-cases (ltb n (256 ^ w))) [
  | inl e ↦ (n, refl, ltb→lt n (256 ^ w) e)
  | inr e ↦ let hb : none ≡ some b = rw e at h in absurd (cc)
]

pub int-fits : (w n : ℕ) → n < 256 ^ w → put_int w (pos n) ≡ some (le_bytes w n)
unfolding put_int
int-fits w n h = rw (lt→ltb n (256 ^ w) h)

abbrev pub text_codec : Codec Str
text_codec = record { put = put_text; get = get_text; reads_back = text-reads_back }

abbrev pub sample : Pyborsh
sample = record {
  int_of = λ w. record { put = put_int w; get = get_int w; reads_back = int-reads_back w };
  fixed = λ n. record { put = put_fixed n; get = get_fixed n; reads_back = fixed-reads_back n };
  string = text_codec;
  bytes = text_codec;
  int_fits = int-fits;
  int_range = int-range;
  string_layout = λ s b h. (s, (text-layout s b h).0, omega arith, omega arith);
  fixed_layout = fixed-layout;
}
