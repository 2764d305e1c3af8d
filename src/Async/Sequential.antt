-- ===== src/Async/Sequential.antt =====
-- One call of the asynchronous client that runs alone does what the synchronous client does: the two
-- are compared step by step, on the state of the synchronous client.
use near_kit_py.Base.{◌≡◌, refl, ap, ◌∙◌, [], ◌∷◌, ◌++◌}
use near_kit_py.Errors
use near_kit_py.Errors.{Result, ok, err}
use near_kit_py.Py.Text.{Str, codes}
use near_kit_py.Py.Json.{Json}
use near_kit_py.Core.Nonces
use near_kit_py.Client.Monad
use near_kit_py.Client.Monad.{Session, M, continue, lift}
use near_kit_py.Async.Program.{
  Program, done, ask, submit, has, reserve, sync, enter, leave, ◌>>=◌, finally_leave,
}

-- The steps of a call in a row; a lock that no other task holds is taken at once.
unfoldable pub run : {N A : Type 0} → (Str → Json → N → Result Json × N) → Program A → M N A
run call (done r) s = (r, s)
run call (ask method params next) s =
    let (r, net) = call method params s.net in run call (next r) (record s { net = net })
run call (submit k nonce params next) s =
    let (r, net) = call (codes "send_tx") params s.net in
    run call (next r) (record s { net = net; sent = s.sent ++ (nonce ∷ []) })
run call (has k next) s = run call (next (Nonces.has k s.nonces)) s
run call (reserve k fetched next) s =
    let (nonce, nonces) = Nonces.reserve k fetched s.nonces in
    run call (next nonce) (record s { nonces = nonces })
run call (sync k nonce q) s = run call q (record s { nonces = Nonces.sync_to k nonce s.nonces })
run call (enter k q) s = run call q s
run call (leave k q) s = run call q s

module _ {N : Type 0} (call : Str → Json → N → Result Json × N) where
  run-bind :
      {A B : Type 0} (q : Program A) (f : A → Program B) (s : Session N)
      → run call (q >>= f) s ≡ continue (λ a. run call (f a)) (run call q s)
  unfolding run ◌>>=◌
  run-bind (done (ok a)) f s = refl
  run-bind (done (err e)) f s = refl
  run-bind (ask method params next) f s = run-bind (next _) f _
  run-bind (submit k nonce params next) f s = run-bind (next _) f _
  run-bind (has k next) f s = run-bind (next _) f s
  run-bind (reserve k fetched next) f s = run-bind (next _) f _
  run-bind (sync k nonce q) f s = run-bind q f _
  run-bind (enter k q) f s = run-bind q f s
  run-bind (leave k q) f s = run-bind q f s

  -- A call that does the same as a method of the synchronous client.
  abbrev pub Same : {A : Type 0} → Program A → M N A → Type 0
  Same q m = (s : Session N) → run call q s ≡ m s

  continue-Same :
      {A B : Type 0} (f : A → Program B) (g : A → M N B) (x : Result A × Session N)
      → ((a : A) → Same (f a) (g a))
      → continue (λ a. run call (f a)) x ≡ continue g x
  continue-Same f g (ok a, s) h = h a s
  continue-Same f g (err e, s) h = refl

  pub Same-bind :
      {A B : Type 0} (q : Program A) (m : M N A) (f : A → Program B) (g : A → M N B)
      → Same q m
      → ((a : A) → Same (f a) (g a))
      → Same (q >>= f) (Monad.◌>>=◌ m g)
  Same-bind q m f g h k s =
      run-bind q f s ∙ (ap (continue (λ a. run call (f a))) (h s) ∙ continue-Same f g (m s) k)

  pub Same-done : {A : Type 0} (r : Result A) → Same (done r) (lift r)
  unfolding run
  Same-done r s = refl

  pub Same-finally :
      {A : Type 0} (k : Str) (q : Program A) (s : Session N)
      → run call (finally_leave k q) s ≡ run call q s
  unfolding run finally_leave
  Same-finally k (done r) s = refl
  Same-finally k (ask method params next) s = Same-finally k (next _) _
  Same-finally k (submit j nonce params next) s = Same-finally k (next _) _
  Same-finally k (has j next) s = Same-finally k (next _) s
  Same-finally k (reserve j fetched next) s = Same-finally k (next _) _
  Same-finally k (sync j nonce q) s = Same-finally k q _
  Same-finally k (enter j q) s = Same-finally k q s
  Same-finally k (leave j q) s = Same-finally k q s

  pub continue-lift :
      {A B : Type 0} (f : A → Result B) (r : Result A) (s : Session N)
      → continue (λ a. lift (f a)) (r, s) ≡ (near_kit_py.Errors.◌>>=◌ r f, s)
  continue-lift f (ok a) s = refl
  continue-lift f (err e) s = refl
