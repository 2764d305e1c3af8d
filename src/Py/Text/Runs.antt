-- ===== src/Py/Text/Runs.antt =====
-- Runs of characters: how `span` and `strip` cut a text made of parts.
use near_kit_py.Base.{
  ℕ, suc, ◌-◌, ◌≤◌, ◌≡◌, refl, inl, inr, Bool, true, false, some, [], ◌∷◌, ◌++◌, arith, ◌==◌,
  Bool-cases, replicate, All, List-cases,
}
use near_kit_py.Py.Text.{Str, span, rstrip_by, strip, is_space, is_decimal, decimal_value}

-- An ASCII digit.
abbrev pub IsAscii : ℕ → Type 0
IsAscii c = (b'0' ≤ c) × (c ≤ b'9')

pub decimal_value-IsAscii : (c : ℕ) → IsAscii c → decimal_value c ≡ some (c - b'0')
unfolding decimal_value
decimal_value-IsAscii c h = ground arith

pub is_decimal-IsAscii : (c : ℕ) → IsAscii c → is_decimal c ≡ true
unfolding is_decimal
is_decimal-IsAscii c h = ground arith

pub is_space-IsAscii : (c : ℕ) → IsAscii c → is_space c ≡ false
unfolding is_space
is_space-IsAscii c h = ground arith

-- A run that a character outside it follows.
pub span_stops :
    (p : ℕ → Bool) (s : Str) (c : ℕ) (t : Str)
    → All (λ d. p d ≡ true) s
    → p c ≡ false
    → span p (s ++ (c ∷ t)) ≡ (s, c ∷ t)
unfolding span
span_stops p [] c t h e = rw e
span_stops p (d ∷ s) c t (hd, hs) e = rw (span_stops p s c t hs e, hd)

-- A run to the end of the text.
pub span_whole : (p : ℕ → Bool) (s : Str) → All (λ d. p d ≡ true) s → span p s ≡ (s, [])
unfolding span
span_whole p [] h = refl
span_whole p (d ∷ s) (hd, hs) = rw (span_whole p s hs, hd)

pub All-is_decimal : (s : Str) → All IsAscii s → All (λ d. is_decimal d ≡ true) s
All-is_decimal [] h = tt
All-is_decimal (c ∷ s) (hc, hs) = (is_decimal-IsAscii c hc, All-is_decimal s hs)

-- Nothing is cut from a text whose last character stays.
pub rstrip_by_last :
    (p : ℕ → Bool) (s : Str) (c : ℕ) → p c ≡ false → rstrip_by p (s ++ (c ∷ [])) ≡ s ++ (c ∷ [])
unfolding rstrip_by
rstrip_by_last p [] c e = rw e
rstrip_by_last p (d ∷ []) c e = rw (e, rstrip_by)
rstrip_by_last p (d ∷ x ∷ s) c e = rw (rstrip_by_last p (x ∷ s) c e)

-- A text that begins and ends with no white space is its own `strip`.
pub strip_id :
    (c : ℕ) (s : Str) (d : ℕ)
    → is_space c ≡ false
    → is_space d ≡ false
    → strip ((c ∷ s) ++ (d ∷ [])) ≡ (c ∷ s) ++ (d ∷ [])
unfolding strip
strip_id c s d hc hd = rw hc (rstrip_by_last is_space (c ∷ s) d hd)

-- Nothing is cut where no character is one to cut.
pub rstrip_by_none : (p : ℕ → Bool) (s : Str) → All (λ c. p c ≡ false) s → rstrip_by p s ≡ s
unfolding rstrip_by
rstrip_by_none p [] h = refl
rstrip_by_none p (c ∷ []) (hc, hs) = rw (hc, rstrip_by)
rstrip_by_none p (c ∷ d ∷ s) (hc, hs) = rw (rstrip_by_none p (d ∷ s) hs)

All-is_space : (s : Str) → All IsAscii s → All (λ c. is_space c ≡ false) s
All-is_space [] h = tt
All-is_space (c ∷ s) (hc, hs) = (is_space-IsAscii c hc, All-is_space s hs)

pub strip-IsAscii : (s : Str) → All IsAscii s → strip s ≡ s
unfolding strip
strip-IsAscii [] h = refl
strip-IsAscii (c ∷ s) (hc, hs) =
    rw (is_space-IsAscii c hc) (rstrip_by_none is_space (c ∷ s) (All-is_space (c ∷ s) (hc, hs)))

-- What is cut from the end is a run of the character cut.
pub rstrip_by_split : (z : ℕ) (s : Str) → (k : ℕ) × (s ≡ rstrip_by (λ c. c == z) s ++ replicate k z)
unfolding rstrip_by
rstrip_by_split z [] = (0, refl)
rstrip_by_split z (c ∷ s) =
    let (k, e) = rstrip_by_split z s in
    elim (List-cases (rstrip_by (λ c. c == z) s)) [
      | inl none_left ↦ elim (Bool-cases (c == z)) [
        | inl same ↦ (suc k, ground (arith, e, none_left))
        | inr other ↦ (k, ground (arith, e, none_left))
      ]
      | inr (d, t, left) ↦ (k, ground (arith, e, left))
    ]
