-- ===== src/Client/Post.antt =====
-- Rules for what a computation of the client leaves behind: the results and the states after it, and
-- the nonces that it sends.
use near_kit_py.Base.{
  ℕ, ◌+◌, ◌≤◌, ◌≡◌, refl, sym, ap, ◌∙◌, ◌⊎◌, ◌≢◌, inl, inr, List, [], ◌∷◌, ◌++◌, append_assoc,
  append-nil, arith, length, length-append,
}
use mathlib.Core.Path.{subst}
use near_kit_py.Base.Int.{ℤ, ◌≤ℤ◌}
use near_kit_py.Errors.{Error, Result, ok, err}
use near_kit_py.Py.Text.{Str}
use near_kit_py.Core.Nonces.{current}
use near_kit_py.Core.Nonces.Monotone.{◌<ℤ◌}
use near_kit_py.Client.Monad.{Session, M, continue, ◌>>=◌}

-- What a computation does from a state: the result and the state after it.
abbrev pub Post : Type 0 → Type 0 → Type 1
Post N A = Session N → Result A → Session N → Type 0

abbrev pub Does : {N A : Type 0} → Post N A → M N A → Type 0
Does P m = (s : Session _) → P s (m s).0 (m s).1

-- The rule for a step and what follows it.
pub bind-Does :
    {N A B : Type 0} (P : Post N A) (R : Post N B) (m : M N A) (f : A → M N B)
    → Does P m
    → ((s : Session N) (a : A) (t : Session N) → P s (ok a) t → R s (f a t).0 (f a t).1)
    → ((s : Session N) (e : Error) (t : Session N) → P s (err e) t → R s (err e) t)
    → Does R (m >>= f)
bind-Does {N} {A} {B} P R m f does follows fails s = go (m s) (does s)
  where
    go : (x : Result A × Session N) → P s x.0 x.1 → R s (continue f x).0 (continue f x).1
    go (ok a, t) h = follows s a t h
    go (err e, t) h = fails s e t h

pub Result-cases :
    {A : Type 0} → (r : Result A) → ((a : A) × (r ≡ ok a)) ⊎ ((e : Error) × (r ≡ err e))
Result-cases (ok a) = inl (a, refl)
Result-cases (err e) = inr (e, refl)

ok-ne-err : {A : Type 0} (a : A) (e : Error) → ok a ≢ err e
ok-ne-err a e h = absurd (cc)

-- A step that leaves the cache and the record of what was sent alone.
abbrev pub Keeps : {N A : Type 0} → Post N A
Keeps s r t = (t.nonces ≡ s.nonces) × (t.sent ≡ s.sent)

pub Keeps-bind :
    {N A B : Type 0} (m : M N A) (f : A → M N B)
    → Does Keeps m
    → ((a : A) → Does Keeps (f a))
    → Does Keeps (m >>= f)
Keeps-bind m f hm hf =
    bind-Does Keeps Keeps m f hm (λ s a t h. let g = hf a t in (g.0 ∙ h.0, g.1 ∙ h.1))
      (λ s e t h. h)

-- A computation that returns has steps that return.
pub bind-returns :
    {N A B : Type 0} (m : M N A) (f : A → M N B) (s : Session N) (b : B) (u : Session N)
    → (m >>= f) s ≡ (ok b, u)
    → (a : A) × (t : Session N) × (m s ≡ (ok a, t)) × (f a t ≡ (ok b, u))
bind-returns {N} {A} {B} m f s b u h = go (m s) refl
  where
    go :
        (x : Result A × Session N)
        → m s ≡ x
        → (a : A) × (t : Session N) × (m s ≡ (ok a, t)) × (f a t ≡ (ok b, u))
    go (ok a, t) e = (a, t, e, ap (continue f) (sym e) ∙ h)
    go (err x, t) e =
        absurd (ok-ne-err b x (ap (λ (y : Result B × Session N). y.0) (sym h ∙ ap (continue f) e)))

-- Rising nonces from `b` to `e`.
abbrev pub Chain : ℤ → List ℤ → ℤ → Type 0
Chain b [] e = b ≤ℤ e
Chain b (x ∷ xs) e = (b <ℤ x) × Chain x xs e

-- At most `n` transactions are sent more, their nonces rise strictly from the key's nonce in the
-- cache, and the cache ends with a nonce no smaller than the last of them.
abbrev pub Rises : {N : Type 0} → Str → ℕ → Session N → Session N → Type 0
Rises k n s t =
    (new : List ℤ) × (t.sent ≡ s.sent ++ new)
    × (length new ≤ n)
    × Chain (current k s.nonces) new (current k t.nonces)

Chain-weaken : (b c e : ℤ) (xs : List ℤ) → b ≤ℤ c → Chain c xs e → Chain b xs e
Chain-weaken b c e [] h a = omega (arith, h, a)
Chain-weaken b c e (x ∷ xs) h a = (omega (arith, h, a.0), a.1)

Chain-append : (b c e : ℤ) (xs ys : List ℤ) → Chain b xs c → Chain c ys e → Chain b (xs ++ ys) e
Chain-append b c e [] ys h a = Chain-weaken b c e ys h a
Chain-append b c e (x ∷ xs) ys h a = (h.0, Chain-append x c e xs ys h.1 a)

pub Rises-trans :
    {N : Type 0} (k : Str) (m n : ℕ) (s t u : Session N)
    → Rises k m s t
    → Rises k n t u
    → Rises k (m + n) s u
Rises-trans k m n s t u (xs, ex, lx, cx) (ys, ey, ly, cy) = (
  xs ++ ys,
  ey ∙ (ap (λ l. l ++ ys) ex ∙ append_assoc s.sent xs ys),
  omega (arith, lx, ly, length-append xs ys),
  Chain-append (current k s.nonces) (current k t.nonces) (current k u.nonces) xs ys cx cy,
)

pub Rises-weaken :
    {N : Type 0} (k : Str) (m n : ℕ) (s t : Session N) → m ≤ n → Rises k m s t → Rises k n s t
Rises-weaken k m n s t h (xs, ex, lx, cx) = (xs, ex, omega (arith, h, lx), cx)

pub Rises-quiet :
    {N : Type 0} (k : Str) (s t : Session N)
    → t.sent ≡ s.sent
    → current k s.nonces ≤ℤ current k t.nonces
    → Rises k 0 s t
Rises-quiet k s t h c = ([], h ∙ sym (append-nil s.sent), omega arith, c)

pub ≤ℤ-refl : (a : ℤ) → a ≤ℤ a
≤ℤ-refl a = omega arith

pub Rises-of_Keeps :
    {N : Type 0} (k : Str) (s t : Session N)
    → (t.nonces ≡ s.nonces) × (t.sent ≡ s.sent)
    → Rises k 0 s t
Rises-of_Keeps k s t h =
    Rises-quiet k s t h.1
      (subst (λ c. current k s.nonces ≤ℤ current k c) (sym h.0) (≤ℤ-refl (current k s.nonces)))

abbrev pub RisesBy : {N A : Type 0} → Str → ℕ → Post N A
RisesBy k n s r t = Rises k n s t

-- A nonce that is returned has been reserved, above the cache's; otherwise nothing happened.
unfoldable pub Reserved : {N : Type 0} → Str → Post N ℤ
Reserved k s (ok x) t = (t.sent ≡ s.sent) × (current k t.nonces ≡ x) × (current k s.nonces <ℤ x)
Reserved k s (err e) t = (t.nonces ≡ s.nonces) × (t.sent ≡ s.sent)

-- The attempt's transaction under a reserved nonce.
unfoldable pub SentOnce : {N A : Type 0} → Str → ℤ → Post N A
SentOnce k x s r t = (t.nonces ≡ s.nonces) × ((t.sent ≡ s.sent) ⊎ (t.sent ≡ s.sent ++ (x ∷ [])))

pub Rises-once :
    {N A : Type 0} (k : Str) (x : ℤ) (s t u : Session N) (r : Result A)
    → (t.sent ≡ s.sent) × (current k t.nonces ≡ x) × (current k s.nonces <ℤ x)
    → SentOnce k x t r u
    → Rises k 1 s u
unfolding SentOnce
Rises-once k x s t u r (same, now, above) (kept, which) =
    let ends : current k u.nonces ≡ x = ap (current k) kept ∙ now in
    elim which [
      | inl e ↦
          ([], e ∙ (same ∙ sym (append-nil s.sent)), omega arith, rw ends (omega (arith, above)))
      | inr e ↦
          (x ∷ [], e ∙ ap (λ l. l ++ (x ∷ [])) same, omega arith, (above, rw ends (≤ℤ-refl x)))
    ]

pub SentOnce-after :
    {N A : Type 0} (k : Str) (x : ℤ) (r : Result A) (s t u : Session N)
    → (t.nonces ≡ s.nonces) × (t.sent ≡ s.sent)
    → SentOnce k x t r u
    → SentOnce k x s r u
unfolding SentOnce
SentOnce-after k x r s t u h (kept, which) = (
  kept ∙ h.0,
  elim which [ inl e ↦ inl (e ∙ h.1) | inr e ↦ inr (e ∙ ap (λ l. l ++ (x ∷ [])) h.1) ],
)

-- Steps that send nothing, and then a computation that sends.
pub Rises-behind_Keeps :
    {N A B : Type 0} (k : Str) (n : ℕ) (m : M N A) (f : A → M N B)
    → Does Keeps m
    → ((a : A) → Does (RisesBy k n) (f a))
    → Does (RisesBy k n) (m >>= f)
Rises-behind_Keeps k n m f hm hf =
    bind-Does Keeps (RisesBy k n) m f hm
      (λ s a t h.
        Rises-weaken k (0 + n) n s (f a t).1 (omega arith)
          (Rises-trans k 0 n s t (f a t).1 (Rises-of_Keeps k s t h) (hf a t)))
      (λ s e t h. Rises-weaken k 0 n s t (omega arith) (Rises-of_Keeps k s t h))
