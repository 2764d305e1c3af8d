-- ===== src/Async/Pool/Exclusive.antt =====
-- Strict calls of `AsyncNear.send_transaction`, src/near/aclient.py, take turns under their key's lock.
use near_kit_py.Base.{
  ℕ, ◌≡◌, refl, sym, ap, ◌∙◌, ◌≢◌, ◌⊎◌, inl, inr, Bool, true, false, Option, none, some, List, [],
  ◌∷◌, arith, ◌==◌, ==_iff, Bool-cases,
}
use mathlib.Core.Path.{subst}
use near_kit_py.Errors.{Result}
use near_kit_py.Py.Text.{Str, str_eq_iff, str_eq, str_mem}
use near_kit_py.Py.Json.{Json}
use near_kit_py.Async.Program.{Program, done, ask, submit, has, reserve, sync, enter, leave}
use near_kit_py.Async.Pool.{Shared, release, move, Tasks, set, Turn, turn, run_pool}
use near_kit_py.Async.Pool.Locks.{Locked}

-- What a step does to the lock that its task holds.
data Change (h h' : Option Str) (s t : Shared) : Type 0 where
  kept : h' ≡ h → t.held ≡ s.held → Change h h' s t
  entered :
      (k : Str) → h' ≡ some k → str_mem k s.held ≡ false → t.held ≡ k ∷ s.held → Change h h' s t
  left : (k : Str) → h ≡ some k → h' ≡ none → t.held ≡ release k s.held → Change h h' s t

Moved : {A : Type 0} → Bool → Option Str → Shared → Program A × Shared → Type 0
Moved b h s (q, t) = (h' : Option Str) × Locked b h' q × Change h h' s t

move-Moved :
    {A : Type 0} (b : Bool) (h : Option Str) (q : Program A) (r : Result Json) (s : Shared)
    → Locked b h q
    → Moved b h s (move q r s)
unfolding Locked move Moved
move-Moved b h (done a) r s l = (h, l, kept refl refl)
move-Moved b h (ask method params next) r s l = (h, l r, kept refl refl)
move-Moved b h (submit k n params next) r s l = (h, l.1, kept refl refl)
move-Moved b h (has k next) r s l = (h, l _, kept refl refl)
move-Moved b h (reserve k fetched next) r s l = (h, l _, kept refl refl)
move-Moved b h (sync k n q) r s l = (h, l, kept refl refl)
move-Moved b h (enter k q) r s l = elim (Bool-cases (str_mem k s.held)) [
  | inl e ↦ rw e (h, l, kept refl refl)
  | inr e ↦ rw e (some k, l.1, entered k refl e refl)
]
move-Moved b h (leave k q) r s l = (none, l.1, left k l.0 refl refl)

-- Letting a lock go leaves the others held.
release-held :
    (k j : Str) (ks : List Str) → k ≢ j → str_mem j ks ≡ true → str_mem j (release k ks) ≡ true
unfolding release str_mem
release-held k j [] apart h = h
release-held k j (x ∷ xs) apart h = elim (Bool-cases (str_eq k x)) [
  | inl e ↦
      let same : k ≡ x = (str_eq_iff k x).0 e in
      elim (Bool-cases (str_eq j x)) [
        | inl e' ↦ absurd (apart (same ∙ sym ((str_eq_iff j x).0 e')))
        | inr e' ↦ let h' : str_mem j xs ≡ true = rw e' at h in rw e (release-held k j xs apart h')
      ]
  | inr e ↦ elim (Bool-cases (str_eq j x)) [
    | inl e' ↦ rw (e, e') refl
    | inr e' ↦
        let h' : str_mem j xs ≡ true = rw e' at h in rw (e, e') (release-held k j xs apart h')
  ]
]

-- Every lock that a task holds is held, and by no other task.
pub record Held {A : Type 0} (strict : ℕ → Bool) (tasks : Tasks A) (s : Shared)
    (hold : ℕ → Option Str) : Type 0 where
  pub locked : (i : ℕ) → Locked (strict i) (hold i) (tasks i)
  pub taken : (i : ℕ) (k : Str) → hold i ≡ some k → str_mem k s.held ≡ true
  pub apart : (i j : ℕ) (k : Str) → hold i ≡ some k → hold j ≡ some k → i ≡ j

-- The lock of a task after one task's was set.
hold-set :
    (i : ℕ) (h' : Option Str) (hold : ℕ → Option Str) (j : ℕ) (k : Str)
    → set i h' hold j ≡ some k
    → ((j ≡ i) × (h' ≡ some k)) ⊎ ((j ≢ i) × (hold j ≡ some k))
hold-set i h' hold j k = elim (Bool-cases (j == i)) [
  | inl e ↦ rw e (λ h. inl ((==_iff j i).0 e, h))
  | inr e ↦ rw e (λ h. inr ((λ same. cc (e, (==_iff j i).1 same)), h))
]

module _ {A : Type 0} (strict : ℕ → Bool) (tasks : Tasks A) (s u : Shared) (hold : ℕ → Option Str)
    (inv : Held strict tasks s hold) (i : ℕ) (q : Program A) (h' : Option Str)
    (locked : Locked (strict i) h' q) where
  Locked-set : (j : ℕ) → Locked (strict j) (set i h' hold j) (set i q tasks j)
  Locked-set j = elim (Bool-cases (j == i)) [
    | inl e ↦ rw (e, (==_iff j i).0 e) locked
    | inr e ↦ rw e (inv.locked j)
  ]

  kept-Held : h' ≡ hold i → u.held ≡ s.held → Held strict (set i q tasks) u (set i h' hold)
  kept-Held same unchanged =
      let before : (j : ℕ) (k : Str) → set i h' hold j ≡ some k → hold j ≡ some k = λ j k e.
        elim (hold-set i h' hold j k e) [
          | inl here ↦ ap hold here.0 ∙ sym same ∙ here.1
          | inr there ↦ there.1
        ] in
      record {
        locked = Locked-set;
        taken = λ j k e. rw unchanged (inv.taken j k (before j k e));
        apart = λ j l k e e'. inv.apart j l k (before j k e) (before l k e');
      }

  entered-Held :
      (k : Str)
      → h' ≡ some k
      → str_mem k s.held ≡ false
      → u.held ≡ k ∷ s.held
      → Held strict (set i q tasks) u (set i h' hold)
  unfolding str_mem
  entered-Held k now free held =
      let clash : (j : ℕ) (x : Str) → h' ≡ some x → hold j ≡ some x → ⊥ = λ j x e e'.
        let same : some k ≡ some x = sym now ∙ e in
        let taken : str_mem x s.held ≡ true = inv.taken j x e' in
        let equal : k ≡ x = cc in
        let not_taken : str_mem x s.held ≡ false =
          subst (λ y. str_mem y s.held ≡ false) equal free in
        cc in
      record {
        locked = Locked-set;
        taken = λ j x e. rw held (elim (hold-set i h' hold j x e) [
          | inl here ↦
              let same : some k ≡ some x = sym now ∙ here.1 in
              let equal : x ≡ k = cc in
              let e' : str_eq x k ≡ true = (str_eq_iff x k).1 equal in rw e' refl
          | inr there ↦ let e' : str_mem x s.held ≡ true = inv.taken j x there.1 in ground arith
        ]);
        apart = λ j l x e e'. elim (hold-set i h' hold j x e) [
          | inl here ↦ elim (hold-set i h' hold l x e') [
            | inl here' ↦ here.0 ∙ sym here'.0
            | inr there' ↦ absurd (clash l x here.1 there'.1)
          ]
          | inr there ↦ elim (hold-set i h' hold l x e') [
            | inl here' ↦ absurd (clash j x here'.1 there.1)
            | inr there' ↦ inv.apart j l x there.1 there'.1
          ]
        ];
      }

  left-Held :
      (k : Str)
      → hold i ≡ some k
      → h' ≡ none
      → u.held ≡ release k s.held
      → Held strict (set i q tasks) u (set i h' hold)
  left-Held k holding now held =
      let before : (j : ℕ) (x : Str) → set i h' hold j ≡ some x → (j ≢ i) × (hold j ≡ some x) =
        λ j x e. elim (hold-set i h' hold j x e) [
          | inl here ↦ let e' : none ≡ some x = sym now ∙ here.1 in absurd (cc)
          | inr there ↦ there
        ] in
      record {
        locked = Locked-set;
        taken = λ j x e. rw held (
            release-held k x s.held
              (λ same. (before j x e).0 (inv.apart j i x (before j x e).1 (holding ∙ ap some same)))
              (inv.taken j x (before j x e).1));
        apart = λ j l x e e'. inv.apart j l x (before j x e).1 (before l x e').1;
      }

  changed-Held : Change (hold i) h' s u → Held strict (set i q tasks) u (set i h' hold)
  changed-Held (kept same unchanged) = kept-Held same unchanged
  changed-Held (entered k now free held) = entered-Held k now free held
  changed-Held (left k holding now held) = left-Held k holding now held

pub run_pool-Held :
    {A : Type 0} (strict : ℕ → Bool) (ts : List Turn) (tasks : Tasks A) (s : Shared)
    (hold : ℕ → Option Str)
    → Held strict tasks s hold
    → (hold' : ℕ → Option Str) × Held strict
        (run_pool ts (tasks, s)).0
        (run_pool ts (tasks, s)).1
        hold'
unfolding run_pool turn Moved
run_pool-Held strict [] tasks s hold inv = (hold, inv)
run_pool-Held strict (t ∷ ts) tasks s hold inv =
    let i = t.task in
    let (h', locked, change) = move-Moved (strict i) (hold i) (tasks i) t.answer s (inv.locked i) in
    let (q, u) = move (tasks i) t.answer s in
    run_pool-Held strict ts (set i q tasks) u (set i h' hold)
      (changed-Held strict tasks s u hold inv i q h' locked change)
