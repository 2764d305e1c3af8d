-- ===== src/Samples/Keys.antt =====
-- Runs of the model of src/near/keys.py.
use near_kit_py.Base.{◌≡◌, refl, none, ◌++◌, replicate}
use near_kit_py.Errors.{ok}
use near_kit_py.Py.Text.{strip_prefix}
use near_kit_py.Keys.PublicKey.{
  KeyType, ed25519, prefix_of, hash_prefix, parse, parse_data, parse_types, to_text, key_length,
  Parsed, parse-to_text, parse_sound,
}
use near_kit_py.Keys.KeyPair.{
  KeyPair, ed25519_of, ed25519_pair, ml_dsa_of, parse_key, parse_key-ed25519_of,
  parse_key-ml_dsa_of,
}
use near_kit_py.Samples.{plain_text, schemes, seed, public_key}

parse-to_text_example : parse plain_text (to_text plain_text public_key) ≡ ok public_key
unfolding key_length
parse-to_text_example = parse-to_text plain_text public_key refl

parse_sound_example :
    Parsed plain_text (prefix_of ed25519 ++ replicate 32 7) public_key
    × (strip_prefix hash_prefix (prefix_of ed25519 ++ replicate 32 7) ≡ none)
unfolding parse strip_prefix prefix_of parse_types parse_data key_length
parse_sound_example = parse_sound plain_text (prefix_of ed25519 ++ replicate 32 7) public_key refl

abbrev pair : KeyPair
pair = record {
  seed = seed;
  public_key = public_key;
  secret_key = prefix_of ed25519 ++ (seed ++ replicate 32 7);
}

abbrev ml_dsa_pair : KeyPair
ml_dsa_pair = record {
  seed = seed;
  public_key = record { key_type = KeyType.ml_dsa_65; key_data = replicate 1952 9 };
  secret_key = prefix_of KeyType.ml_dsa_65 ++ seed;
}

parse_key-ed25519_of_example : parse_key plain_text schemes pair.secret_key ≡ ok pair
unfolding ed25519_of ed25519_pair
parse_key-ed25519_of_example = parse_key-ed25519_of plain_text schemes seed pair refl

parse_key-ml_dsa_of_example : parse_key plain_text schemes ml_dsa_pair.secret_key ≡ ok ml_dsa_pair
unfolding ml_dsa_of
parse_key-ml_dsa_of_example = parse_key-ml_dsa_of plain_text schemes seed ml_dsa_pair refl
