-- ===== src/Async/Pool/Invariant.antt =====
-- What holds of a pool of tasks that keep the discipline, after any schedule: every nonce that is owed
-- or sent is at most the cache's, and no two of them are the same under one key.
use near_kit_py.Base.{
  ℕ, ◌≡◌, refl, sym, ap, ◌∙◌, ◌≢◌, ◌⊎◌, inl, inr, none, some, List, [], ◌∷◌, arith, ◌==◌, ==_iff,
  Bool-cases, All,
}
use mathlib.Core.Path.{subst}
use near_kit_py.Base.Int.{ℤ, ◌≤ℤ◌}
use near_kit_py.Errors.{Result, ok, err}
use near_kit_py.Py.Text.{Str, str_mem}
use near_kit_py.Py.Json.{Json}
use near_kit_py.Core.Nonces
use near_kit_py.Core.Nonces.{current}
use near_kit_py.Core.Nonces.Monotone.{◌<ℤ◌, reserve_lem, step-raises, reserve_op, sync_op}
use near_kit_py.Async.Program.{Program, done, ask, submit, has, reserve, sync, enter, leave}
use near_kit_py.Async.Pool.{Shared, move, Tasks, set, Turn, turn, run_pool}
use near_kit_py.Async.Pool.Discipline.{Owed, Any, Obeys}

-- No key's nonce in the cache goes down.
abbrev Grows : Shared → Shared → Type 0
Grows s t = (k : Str) → current k s.nonces ≤ℤ current k t.nonces

-- What a step does to the nonce that its task owes.
data Change (o o' : Owed) (s t : Shared) : Type 0 where
  quiet : o' ≡ o → t.sent ≡ s.sent → Change o o' s t
  fresh :
      (k : Str) (n : ℤ)
      → o' ≡ some (k, n)
      → current k s.nonces <ℤ n
      → n ≤ℤ current k t.nonces
      → t.sent ≡ s.sent
      → Change o o' s t
  spent : (x : Str × ℤ) → o ≡ some x → o' ≡ none → t.sent ≡ x ∷ s.sent → Change o o' s t

≤ℤ-refl : (a : ℤ) → a ≤ℤ a
≤ℤ-refl a = omega arith

-- A task that keeps the discipline keeps it.
Moved : {A : Type 0} → Owed → Shared → Program A × Shared → Type 0
Moved o s (q, t) = (o' : Owed) × Obeys o' Any q × Change o o' s t × Grows s t

move-Moved :
    {A : Type 0} (o : Owed) (q : Program A) (r : Result Json) (s : Shared)
    → Obeys o Any q
    → Moved o s (move q r s)
unfolding Obeys move Moved
move-Moved o (done (ok a)) r s h = (o, tt, quiet refl refl, λ k. ≤ℤ-refl (current k s.nonces))
move-Moved o (done (err e)) r s h = (o, tt, quiet refl refl, λ k. ≤ℤ-refl (current k s.nonces))
move-Moved o (ask method params next) r s h =
    (o, h r, quiet refl refl, λ k. ≤ℤ-refl (current k s.nonces))
move-Moved o (submit k n params next) r s h =
    (none, h.1, spent (k, n) h.0 refl refl, λ j. ≤ℤ-refl (current j s.nonces))
move-Moved o (has k next) r s h = (o, h _, quiet refl refl, λ j. ≤ℤ-refl (current j s.nonces))
move-Moved o (reserve k fetched next) r s h =
    let (f, above, now, others) = reserve_lem k fetched s.nonces in
    let n = (Nonces.reserve k fetched s.nonces).0 in
    (
      some (k, n),
      h n,
      fresh k n refl above (rw now (≤ℤ-refl n)) refl,
      λ j. step-raises j (reserve_op k fetched) s.nonces,
    )
move-Moved o (sync k n q) r s h = (o, h, quiet refl refl, λ j. step-raises j (sync_op k n) s.nonces)
move-Moved o (enter k q) r s h = elim (Bool-cases (str_mem k s.held)) [
  | inl e ↦ rw e (o, h, quiet refl refl, λ j. ≤ℤ-refl (current j s.nonces))
  | inr e ↦ rw e (o, h, quiet refl refl, λ j. ≤ℤ-refl (current j s.nonces))
]
move-Moved o (leave k q) r s h = (o, h, quiet refl refl, λ j. ≤ℤ-refl (current j s.nonces))

-- An entry of the tasks' debts after one was set.
owed-set :
    (i : ℕ) (o' : Owed) (owed : ℕ → Owed) (j : ℕ) (x : Str × ℤ)
    → set i o' owed j ≡ some x
    → ((j ≡ i) × (o' ≡ some x)) ⊎ ((j ≢ i) × (owed j ≡ some x))
owed-set i o' owed j x = elim (Bool-cases (j == i)) [
  | inl e ↦ rw e (λ h. inl ((==_iff j i).0 e, h))
  | inr e ↦ rw e (λ h. inr ((λ same. cc (e, (==_iff j i).1 same)), h))
]

All-map :
    {X : Type 0} {P Q : X → Type 0} (xs : List X) → ((x : X) → P x → Q x) → All P xs → All Q xs
All-map [] f h = tt
All-map (x ∷ xs) f h = (f x h.0, All-map xs f h.1)

abbrev pub Distinct : List (Str × ℤ) → Type 0
Distinct [] = Unit
Distinct (x ∷ xs) = All (λ y. x ≢ y) xs × Distinct xs

abbrev pub Below : Shared → Str × ℤ → Type 0
Below s x = x.1 ≤ℤ current x.0 s.nonces

pub record Sound {A : Type 0} (tasks : Tasks A) (s : Shared) (owed : ℕ → Owed) : Type 0 where
  pub obeys : (i : ℕ) → Obeys (owed i) Any (tasks i)
  pub owed_below : (i : ℕ) (x : Str × ℤ) → owed i ≡ some x → Below s x
  pub sent_below : All (Below s) s.sent
  pub apart : (i j : ℕ) (x : Str × ℤ) → owed i ≡ some x → owed j ≡ some x → i ≡ j
  pub unsent : (i : ℕ) (x : Str × ℤ) → owed i ≡ some x → All (λ y. x ≢ y) s.sent
  pub distinct : Distinct s.sent

-- A nonce above the cache's is neither owed nor sent.
above-Unused :
    (s : Shared) (k : Str) (n : ℤ)
    → current k s.nonces <ℤ n
    → (y : Str × ℤ) → Below s y
    → (k, n) ≢ y
above-Unused s k n above y below same =
    let at : n ≤ℤ current k s.nonces = subst (λ z. Below s z) (sym same) below in
    omega (arith, at, above)

Grows-Below : (s t : Shared) → Grows s t → (y : Str × ℤ) → Below s y → Below t y
Grows-Below s t grows y h = let up = grows y.0 in omega (arith, h, up)

module _ {A : Type 0} (tasks : Tasks A) (s u : Shared) (owed : ℕ → Owed)
    (sound : Sound tasks s owed) (i : ℕ) (q : Program A) (o' : Owed) (obeys : Obeys o' Any q)
    (grows : Grows s u) where
  Obeys-set : (j : ℕ) → Obeys (set i o' owed j) Any (set i q tasks j)
  Obeys-set j = elim (Bool-cases (j == i)) [ inl e ↦ rw e obeys | inr e ↦ rw e (sound.obeys j) ]

  Below-later : (xs : List (Str × ℤ)) → All (Below s) xs → All (Below u) xs
  Below-later xs h = All-map xs (λ y. Grows-Below s u grows y) h

  -- A step that leaves every debt as it was.
  quiet-Sound : o' ≡ owed i → u.sent ≡ s.sent → Sound (set i q tasks) u (set i o' owed)
  quiet-Sound same unchanged =
      let before : (j : ℕ) (x : Str × ℤ) → set i o' owed j ≡ some x → owed j ≡ some x = λ j x h.
        elim (owed-set i o' owed j x h) [
          | inl here ↦ ap owed here.0 ∙ sym same ∙ here.1
          | inr there ↦ there.1
        ] in
      record {
        obeys = Obeys-set;
        owed_below = λ j x h. Grows-Below s u grows x (sound.owed_below j x (before j x h));
        sent_below = rw unchanged (Below-later s.sent sound.sent_below);
        apart = λ j l x h h'. sound.apart j l x (before j x h) (before l x h');
        unsent = λ j x h. rw unchanged (sound.unsent j x (before j x h));
        distinct = rw unchanged sound.distinct;
      }

  -- A step that reserves a nonce.
  fresh-Sound :
      (k : Str) (n : ℤ)
      → o' ≡ some (k, n)
      → current k s.nonces <ℤ n
      → n ≤ℤ current k u.nonces
      → u.sent ≡ s.sent
      → Sound (set i q tasks) u (set i o' owed)
  fresh-Sound k n now above below unchanged =
      let this : (x : Str × ℤ) → o' ≡ some x → (k, n) ≡ x =
        λ x h. let e : some (k, n) ≡ some x = sym now ∙ h in cc in
      let clash : (j : ℕ) (x : Str × ℤ) → o' ≡ some x → owed j ≡ some x → ⊥ =
        λ j x h h'. above-Unused s k n above x (sound.owed_below j x h') (this x h) in
      record {
        obeys = Obeys-set;
        owed_below = λ j x h. elim (owed-set i o' owed j x h) [
          | inl here ↦ subst (λ y. Below u y) (this x here.1) below
          | inr there ↦ Grows-Below s u grows x (sound.owed_below j x there.1)
        ];
        sent_below = rw unchanged (Below-later s.sent sound.sent_below);
        apart = λ j l x h h'. elim (owed-set i o' owed j x h) [
          | inl here ↦ elim (owed-set i o' owed l x h') [
            | inl here' ↦ here.0 ∙ sym here'.0
            | inr there' ↦ absurd (clash l x here.1 there'.1)
          ]
          | inr there ↦ elim (owed-set i o' owed l x h') [
            | inl here' ↦ absurd (clash j x here'.1 there.1)
            | inr there' ↦ sound.apart j l x there.1 there'.1
          ]
        ];
        unsent = λ j x h. rw unchanged (elim (owed-set i o' owed j x h) [
          | inl here ↦
              subst (λ y. All (λ z. y ≢ z) s.sent) (this x here.1)
                (All-map s.sent (above-Unused s k n above) sound.sent_below)
          | inr there ↦ sound.unsent j x there.1
        ]);
        distinct = rw unchanged sound.distinct;
      }

  -- A step that hands a transaction over.
  spent-Sound :
      (x : Str × ℤ)
      → owed i ≡ some x
      → o' ≡ none
      → u.sent ≡ x ∷ s.sent
      → Sound (set i q tasks) u (set i o' owed)
  spent-Sound x owing now sent =
      let before : (j : ℕ) (y : Str × ℤ) → set i o' owed j ≡ some y → (j ≢ i) × (owed j ≡ some y) =
        λ j y h. elim (owed-set i o' owed j y h) [
          | inl here ↦ let e : none ≡ some y = sym now ∙ here.1 in absurd (cc)
          | inr there ↦ there
        ] in
      record {
        obeys = Obeys-set;
        owed_below = λ j y h. Grows-Below s u grows y (sound.owed_below j y (before j y h).1);
        sent_below = rw sent (
          Grows-Below s u grows x (sound.owed_below i x owing),
          Below-later s.sent sound.sent_below,
        );
        apart = λ j l y h h'. sound.apart j l y (before j y h).1 (before l y h').1;
        unsent = λ j y h. rw sent (
          (λ same.
              (before j y h).0 (sound.apart j i y (before j y h).1 (owing ∙ ap some (sym same)))),
          sound.unsent j y (before j y h).1,
        );
        distinct = rw sent (sound.unsent i x owing, sound.distinct);
      }

  changed-Sound : Change (owed i) o' s u → Sound (set i q tasks) u (set i o' owed)
  changed-Sound (quiet same unchanged) = quiet-Sound same unchanged
  changed-Sound (fresh k n now above below unchanged) = fresh-Sound k n now above below unchanged
  changed-Sound (spent x owing now sent) = spent-Sound x owing now sent

-- One turn keeps the pool sound, and so does a schedule.
pub run_pool-Sound :
    {A : Type 0} (ts : List Turn) (tasks : Tasks A) (s : Shared) (owed : ℕ → Owed)
    → Sound tasks s owed
    → (owed' : ℕ → Owed) × Sound (run_pool ts (tasks, s)).0 (run_pool ts (tasks, s)).1 owed'
unfolding run_pool turn Moved
run_pool-Sound [] tasks s owed sound = (owed, sound)
run_pool-Sound (t ∷ ts) tasks s owed sound =
    let (o', obeys, change, grows) =
      move-Moved (owed t.task) (tasks t.task) t.answer s (sound.obeys t.task) in
    let (q, u) = move (tasks t.task) t.answer s in
    run_pool-Sound ts (set t.task q tasks) u (set t.task o' owed)
      (changed-Sound tasks s u owed sound t.task q o' obeys grows change)
