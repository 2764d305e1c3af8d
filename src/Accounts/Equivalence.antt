-- ===== src/Accounts/Equivalence.antt =====
-- The scanner for account ids accepts what the regular expression matches, and nothing else.
use near_kit_py.Base.{
  ℕ, ◌≡◌, refl, sym, ap, ◌∙◌, ◌↔◌, inl, inr, Bool, true, false, ◌||◌, [], ◌∷◌, ◌++◌, append_assoc,
  arith, ◌==◌, ==_iff, Bool-cases,
}
use near_kit_py.Py.Text.{Str, is_decimal}
use near_kit_py.Units.Pattern.{at_end}
use near_kit_py.Accounts.{is_alnum, is_joiner, is_dot, account_match}
use near_kit_py.Accounts.Pattern.{
  Language, One, Then, Star, stop, more, Word, Part, Account, Matches,
}

module _ (c : ℕ) (letter : is_alnum c ≡ true) where
  one_letter : One is_alnum (c ∷ [])
  one_letter = (c, refl, letter)

  one_Word : Word (c ∷ [])
  one_Word = (c ∷ [], [], refl, one_letter, stop)

  one_Part : Part (c ∷ [])
  one_Part = ([], c ∷ [], refl, stop, one_Word)

  one_Account : Account (c ∷ [])
  one_Account = ([], c ∷ [], refl, stop, one_Part)

  longer_Word : (s : Str) → Word s → Word (c ∷ s)
  longer_Word s (u, v, e, a, b) = (c ∷ [], s, refl, one_letter, more u v s e a b)

  -- A letter in front of a first block, or of the only one.
  longer :
      (P Q : Language)
      → ((s : Str) → P s → P (c ∷ s))
      → ((s : Str) → Q s → Q (c ∷ s))
      → (s : Str) → Then (Star P) Q s
      → Then (Star P) Q (c ∷ s)
  longer P Q hp hq s (_, v, e, stop, b) = ([], c ∷ v, ap (λ l. c ∷ l) e, stop, hq v b)
  longer P Q hp hq s (u, v, e, more x y _ d a bs, b) =
      (c ∷ u, v, ap (λ l. c ∷ l) e, more (c ∷ x) y (c ∷ u) (ap (λ l. c ∷ l) d) (hp x a) bs, b)

  longer_block :
      (P Q : Language) → ((s : Str) → P s → P (c ∷ s)) → (s : Str) → Then P Q s → Then P Q (c ∷ s)
  longer_block P Q hp s (u, v, e, a, b) = (c ∷ u, v, ap (λ l. c ∷ l) e, hp u a, b)

  longer_Part : (s : Str) → Part s → Part (c ∷ s)
  longer_Part =
      longer (Then Word (One is_joiner)) Word (longer_block Word (One is_joiner) longer_Word)
        longer_Word

  longer_Account : (s : Str) → Account s → Account (c ∷ s)
  longer_Account =
      longer (Then Part (One is_dot)) Part (longer_block Part (One is_dot) longer_Part) longer_Part

  -- A block in front.
  new_block : (P Q : Language) (s t : Str) → P s → Then (Star P) Q t → Then (Star P) Q (s ++ t)
  new_block P Q s t a (u, v, e, bs, b) =
      (s ++ u, v, ap (λ l. s ++ l) e ∙ sym (append_assoc s u v), more s u (s ++ u) refl a bs, b)

  module _ (d : ℕ) where
    joined_Part : is_joiner d ≡ true → (s : Str) → Part s → Part (c ∷ d ∷ s)
    joined_Part h s =
        new_block (Then Word (One is_joiner)) Word (c ∷ d ∷ []) s
          (c ∷ [], d ∷ [], refl, one_Word, (d, refl, h))

    joined_Account : is_joiner d ≡ true → (s : Str) → Account s → Account (c ∷ d ∷ s)
    joined_Account h s (_, v, e, stop, b) =
        ([], c ∷ d ∷ v, ap (λ l. c ∷ d ∷ l) e, stop, joined_Part h v b)
    joined_Account h s (u, v, e, more x y _ f (p, q, g, a, b) bs, z) = (
      c ∷ d ∷ u,
      v,
      ap (λ l. c ∷ d ∷ l) e,
      more (c ∷ d ∷ x) y (c ∷ d ∷ u) (ap (λ l. c ∷ d ∷ l) f)
          (c ∷ d ∷ p, q, ap (λ l. c ∷ d ∷ l) g, joined_Part h p a, b) bs,
      z,
    )

    dotted_Account : is_dot d ≡ true → (s : Str) → Account s → Account (c ∷ d ∷ s)
    dotted_Account h s =
        new_block (Then Part (One is_dot)) Part (c ∷ d ∷ []) s
          (c ∷ [], d ∷ [], refl, one_Part, (d, refl, h))

-- What the scanner has still to find, behind a letter or at the start of a part.
Found : Bool → Str → Type 0
Found true s = (c : ℕ) → is_alnum c ≡ true → Matches (c ∷ s)
Found false s = Matches s

lifted : (w s : Str) → ((t : Str) → Account t → Account (w ++ t)) → Matches s → Matches (w ++ s)
lifted w s f (u, v, e, a, b) = (w ++ u, v, ap (λ l. w ++ l) e ∙ sym (append_assoc w u v), f u a, b)

account_match-Found : (after : Bool) (s : Str) → account_match after s ≡ true → Found after s
unfolding account_match Found
account_match-Found true [] h = λ c letter. (c ∷ [], [], refl, one_Account c letter, refl)
account_match-Found false [] h = absurd (cc)
account_match-Found false (d ∷ s) h = elim (Bool-cases (is_alnum d)) [
  | inl l ↦ account_match-Found true s (ground arith) d l
  | inr nl ↦ absurd (ground arith)
]
account_match-Found true (d ∷ s) h = λ c letter. elim (Bool-cases (is_alnum d)) [
  | inl l ↦
      lifted (c ∷ []) (d ∷ s) (longer_Account c letter)
        (account_match-Found true s (ground arith) d l)
  | inr nl ↦ elim (Bool-cases (is_joiner d)) [
    | inl j ↦
        lifted (c ∷ d ∷ []) s (joined_Account c letter d j)
          (account_match-Found false s (ground arith))
    | inr nj ↦ elim (Bool-cases (is_dot d)) [
      | inl p ↦
          lifted (c ∷ d ∷ []) s (dotted_Account c letter d p)
            (account_match-Found false s (ground arith))
      | inr np ↦ (c ∷ [], d ∷ s, refl, one_Account c letter, ground arith)
    ]
  ]
]

-- The scanner runs over what a part of the expression matches.
abbrev Skips : Bool → Language → Bool → Type 0
Skips before P after =
    (s rest : Str) → P s → account_match before (s ++ rest) ≡ account_match after rest

letters-Skips : Skips true (Star (One is_alnum)) true
unfolding account_match
letters-Skips _ rest stop = refl
letters-Skips s rest (more u v _ e (c, f, h) bs) = rw (e, f, h) (letters-Skips v rest bs)

Word-Skips : (before : Bool) → Skips before Word true
unfolding account_match
Word-Skips before s rest (u, v, e, (c, f, h), bs) = rw (e, f, h) (letters-Skips v rest bs)

separators_no_letters : (is_alnum b'-' ≡ false) × (is_alnum b'_' ≡ false) × (is_alnum b'.' ≡ false)
unfolding is_alnum is_decimal
separators_no_letters = (refl, refl, refl)

separator_no_letter : (c : ℕ) → (is_joiner c || is_dot c) ≡ true → is_alnum c ≡ false
unfolding is_joiner is_dot
separator_no_letter c h = elim (Bool-cases (c == b'-')) [
  | inl e ↦ rw ((==_iff c b'-').0 e) separators_no_letters.0
  | inr ne ↦ elim (Bool-cases (c == b'_')) [
    | inl e ↦ rw ((==_iff c b'_').0 e) separators_no_letters.1
    | inr nf ↦ elim (Bool-cases (c == b'.')) [
      | inl e ↦ rw ((==_iff c b'.').0 e) separators_no_letters.2
      | inr ng ↦ absurd (ground arith)
    ]
  ]
]

One-Skips :
    (test : ℕ → Bool)
    → ((c : ℕ) → test c ≡ true → (is_joiner c || is_dot c) ≡ true)
    → Skips true (One test) false
unfolding account_match
One-Skips test sep s rest (c, e, h) = rw (e, separator_no_letter c (sep c h), sep c h)

Then-Skips : (a b c : Bool) (P Q : Language) → Skips a P b → Skips b Q c → Skips a (Then P Q) c
Then-Skips a b c P Q hp hq s rest (u, v, e, x, y) =
    rw (e, append_assoc u v rest, hp u (v ++ rest) x, hq v rest y)

Star-Skips : (a : Bool) (P : Language) → Skips a P a → Skips a (Star P) a
Star-Skips a P h _ rest stop = refl
Star-Skips a P h s rest (more u v _ e x bs) =
    rw (e, append_assoc u v rest, h u (v ++ rest) x, Star-Skips a P h v rest bs)

Part-Skips : Skips false Part true
Part-Skips =
    let joiner = One-Skips is_joiner (λ c h. rw h) in
    Then-Skips false false true (Star (Then Word (One is_joiner))) Word
      (Star-Skips false (Then Word (One is_joiner))
        (Then-Skips false true false Word (One is_joiner) (Word-Skips false) joiner))
      (Word-Skips false)

Account-Skips : Skips false Account true
Account-Skips =
    let dot = One-Skips is_dot (λ c h. ground arith) in
    Then-Skips false false true (Star (Then Part (One is_dot))) Part
      (Star-Skips false (Then Part (One is_dot))
        (Then-Skips false true false Part (One is_dot) Part-Skips dot))
      Part-Skips

newline_ends : account_match true (b'\n' ∷ []) ≡ true
unfolding account_match is_alnum is_decimal is_joiner is_dot
newline_ends = refl

end_found : (s : Str) → at_end s ≡ true → account_match true s ≡ true
unfolding at_end account_match
end_found [] h = refl
end_found (c ∷ []) h = rw ((==_iff c b'\n').0 h) newline_ends
end_found (c ∷ d ∷ s) h = absurd (cc)

-- The scanner accepts a text exactly when the regular expression matches it.
pub account_match-Matches : (s : Str) → (account_match false s ≡ true) ↔ Matches s
unfolding Found
account_match-Matches s =
    (account_match-Found false s, λ (u, v, e, a, h). rw (e, Account-Skips u v a) (end_found v h))
