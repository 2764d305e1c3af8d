-- ===== src/Samples/Core.antt =====
-- Runs of the model of src/near/_core.py.
use near_kit_py.Base.{ℕ, ◌≡◌, refl, ◌≢◌, ◌↔◌, false, Option, none, some, [], ◌∷◌}
use near_kit_py.Base.Int.{pos}
use near_kit_py.Py.Text.{Str, codes, str_eq}
use near_kit_py.Wire.Types.{AnyTransaction}
use near_kit_py.Core.Nonces.{current, reserve}
use near_kit_py.Core.Nonces.Monotone.{
  reserve_op, sync_op, handed, Ascending, ◌<ℤ◌, AboveFetched, handed-Ascending, reserve_lem,
}
use near_kit_py.Core.Build.{
  number, validate_gas_key_index, lane_nonce, transaction_nonce, with_block_hash, build_transaction,
}
use near_kit_py.Core.Build.Laws.{
  IsV0, nonce_of, parties, LaneJudged, NonceJudged, validate_gas_key_index_lem, lane_nonce_lem,
  build_transaction_lem,
}
use near_kit_py.Samples.{plain_text, alice}

handed-Ascending_example : Ascending (pos 4) (
    handed
      (codes "k")
      (reserve_op (codes "k") (some (pos 9))
        ∷ sync_op (codes "k") (pos 6)
        ∷ reserve_op (codes "k") none
        ∷ [])
      ((codes "k", pos 4) ∷ []))
unfolding near_kit_py.Py.Dict.lookup str_eq
handed-Ascending_example =
    handed-Ascending (codes "k")
      (reserve_op (codes "k") (some (pos 9))
        ∷ sync_op (codes "k") (pos 6)
        ∷ reserve_op (codes "k") none
        ∷ [])
      ((codes "k", pos 4) ∷ [])

reserve_lem_example :
    AboveFetched (some (pos 9)) (reserve (codes "k") (some (pos 9)) []).0
    × (current (codes "k") [] <ℤ (reserve (codes "k") (some (pos 9)) []).0)
    × (current (codes "k") (reserve (codes "k") (some (pos 9)) []).1
        ≡ (reserve (codes "k") (some (pos 9)) []).0)
    × ((j : Str)
        → codes "k" ≢ j
        → current j (reserve (codes "k") (some (pos 9)) []).1 ≡ current j [])
reserve_lem_example = reserve_lem (codes "k") (some (pos 9)) []

validate_gas_key_index_example :
    LaneJudged (number (pos 65536)) (validate_gas_key_index (number (pos 65536)))
validate_gas_key_index_example = validate_gas_key_index_lem (number (pos 65536))

lane_nonce_example : NonceJudged (pos 4 ∷ pos 6 ∷ []) 1 (lane_nonce (pos 4 ∷ pos 6 ∷ []) 1)
lane_nonce_example = lane_nonce_lem (pos 4 ∷ pos 6 ∷ []) 1

abbrev lane : Option ℕ
lane = some 2

abbrev built : AnyTransaction
unfolding with_block_hash transaction_nonce
built = with_block_hash alice (codes "bob.near") [] (pos 7) lane false []

build_transaction_example :
    (IsV0 built ↔ ((lane ≡ none) × (false ≡ false)))
    × (nonce_of built ≡ (pos 7, some (pos 2)))
    × (parties built ≡ (codes "alice.near", codes "bob.near", []))
unfolding build_transaction
build_transaction_example =
    build_transaction_lem plain_text alice (codes "bob.near") [] (pos 7) [] lane false built refl
