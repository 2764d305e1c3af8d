-- ===== src/Client/Monad.antt =====
-- A client call as a computation on the client's state that may raise.
use near_kit_py.Base.{List}
use near_kit_py.Base.Int.{ℤ}
use near_kit_py.Errors.{Result, ok, err}
use near_kit_py.Py.Dict.{Dict}
use near_kit_py.Core.Nonces.{Cache}
use near_kit_py.Core.Queries.{ViewResult}
use near_kit_py.Tokens.{FtMetadata}

-- The nonce cache, the transport's state, the two caches of token metadata, and a record of the
-- nonces of the transactions that were handed to `send_tx`, in order.
pub record Session (N : Type 0) : Type 0 where
  pub nonces : Cache
  pub net : N
  pub ft_meta : Dict FtMetadata
  pub nft_meta : Dict ViewResult
  pub sent : List ℤ

abbrev pub M : Type 0 → Type 0 → Type 0
M N A = Session N → Result A × Session N

-- What follows a step on its result.
abbrev pub continue : {N A B : Type 0} → (A → M N B) → Result A × Session N → Result B × Session N
continue f (ok a, s) = f a s
continue f (err e, s) = (err e, s)

infixl 5 ◌>>=◌
abbrev pub ◌>>=◌ : {N A B : Type 0} → M N A → (A → M N B) → M N B
(m >>= f) s = continue f (m s)

infixl 5 ◌>>◌
abbrev pub ◌>>◌ : {N B : Type 0} → M N (Unit {0}) → M N B → M N B
m >> k = m >>= λ _. k

abbrev pub pure : {N A : Type 0} → A → M N A
pure a s = (ok a, s)

abbrev pub lift : {N A : Type 0} → Result A → M N A
lift r s = (r, s)
