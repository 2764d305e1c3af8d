-- ===== src/Samples.antt =====
-- Runs of the model at concrete inputs. Base58, the signature schemes and the network are stood in
-- for by small functions that satisfy what the model asks of them.
pub mod Units
pub mod Rpc
pub mod Keys
pub mod Core
pub mod Wire
pub mod Client
pub mod Async
pub mod Actions
pub mod Accounts
pub mod Tokens
pub mod Messages
use near_kit_py.Base.{ℕ, refl, some, replicate, length-replicate}
use near_kit_py.Py.Json
use near_kit_py.Wire.Codec
use near_kit_py.Rpc.Classify
use near_kit_py.Errors.{ok}
use near_kit_py.Py.Text.{codes}
use near_kit_py.Py.Json.{Json}
use near_kit_py.Units.Amount
use near_kit_py.Units.Gas
use near_kit_py.Keys.PublicKey.{PublicKey, Base58, ed25519}
use near_kit_py.Keys.KeyPair.{Schemes, Signer}
use near_kit_py.Wire.Codec.{Bytes}

abbrev pub plain_text : Base58
plain_text = record { encode = λ b. b; decode = λ s. some s; decode-encode = λ b. refl }

abbrev pub schemes : Schemes
schemes = record {
  ed25519_public = λ seed. replicate 32 7;
  ml_dsa_public = λ seed. replicate 1952 9;
  sign = λ t seed message. message;
  ed25519_public_length = λ seed. length-replicate {A = ℕ} 32 7;
}

abbrev pub seed : Bytes
seed = replicate 32 5

abbrev pub public_key : PublicKey
public_key = record { key_type = ed25519; key_data = replicate 32 7 }

abbrev pub alice : Signer
alice = record { account_id = codes "alice.near"; public_key = public_key; sign = λ m. ok m }
