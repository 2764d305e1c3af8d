-- ===== src/Wire/Schema/Contracts.antt =====
-- The layout of global contract references and of the NEP-616 state init.
use near_kit_py.Base.{
  ℕ, ◌≡◌, refl, Option, none, some, List, [], ◌∷◌, ◌++◌, append_assoc, ◌==◌, if◌then◌else◌, ==_iff,
}
use near_kit_py.Base.Int.{ℤ, pos, negsuc}
use near_kit_py.Wire.Codec.{
  Bytes, Reader, ReadsBack, Codec, Pyborsh, ◌⊗◌, struct, list, variant_at, enum, variant,
  unit_variant, variant_reads_back, unit_reads_back, ◌<+>◌, <+>-some, ◌>>=◌,
}
use near_kit_py.Wire.Types.{
  GlobalContractDeployMode, GlobalContractIdentifier, StateInit, by_code_hash, by_account_id,
  code_hash, account_id,
}
use near_kit_py.Wire.Schema.Keys.{deploy_mode_tag, identifier_tag}

-- A leading version byte, pinned to one number.
module _ (p : Pyborsh) (version : ℕ) {A : Type 0} (c : Codec A) where
  abbrev pub put_versioned : A → Option Bytes
  put_versioned a = (p.int_of 1).put (pos version) <+> c.put a

  abbrev pub get_pinned : ℤ → Reader A
  get_pinned (pos v) bytes = if v == version then c.get bytes else none
  get_pinned (negsuc v) bytes = none

  abbrev pub get_versioned : Reader A
  get_versioned bytes = do (v, rest) ← (p.int_of 1).get bytes; get_pinned v rest

  pub versioned-ReadsBack : ReadsBack put_versioned get_versioned
  versioned-ReadsBack a b rest h =
      let (x, y, hx, hy, e) = <+>-some ((p.int_of 1).put (pos version)) (c.put a) b h in
      rw
        (
          e,
          append_assoc x y rest,
          (p.int_of 1).reads_back (pos version) x (y ++ rest) hx,
          (==_iff version version).1 refl,
        )
        (c.reads_back a y rest hy)

  abbrev pub versioned : Codec A
  versioned = record { put = put_versioned; get = get_versioned; reads_back = versioned-ReadsBack }

module _ (p : Pyborsh) where
  abbrev pub deploy_mode_readers : List (Reader GlobalContractDeployMode)
  deploy_mode_readers = unit_variant by_code_hash ∷ unit_variant by_account_id ∷ []

  pub deploy_mode_body :
      (k : GlobalContractDeployMode) (b rest : Bytes)
      → some [] ≡ some b
      → variant_at (deploy_mode_tag k) deploy_mode_readers (b ++ rest) ≡ some (k, rest)
  deploy_mode_body by_code_hash = unit_reads_back by_code_hash
  deploy_mode_body by_account_id = unit_reads_back by_account_id

  abbrev pub deploy_mode_codec : Codec GlobalContractDeployMode
  deploy_mode_codec = enum p (record {
    tag = deploy_mode_tag;
    put_body = λ k. some [];
    readers = deploy_mode_readers;
    body_reads_back = deploy_mode_body;
  })

  abbrev pub put_identifier : GlobalContractIdentifier → Option Bytes
  put_identifier (code_hash h) = (p.fixed 32).put h
  put_identifier (account_id a) = p.string.put a

  abbrev pub identifier_readers : List (Reader GlobalContractIdentifier)
  identifier_readers = variant (p.fixed 32) code_hash ∷ variant p.string account_id ∷ []

  pub identifier_body :
      (k : GlobalContractIdentifier) (b rest : Bytes)
      → put_identifier k ≡ some b
      → variant_at (identifier_tag k) identifier_readers (b ++ rest) ≡ some (k, rest)
  identifier_body (code_hash h) = variant_reads_back (p.fixed 32) code_hash h
  identifier_body (account_id a) = variant_reads_back p.string account_id a

  abbrev pub identifier_codec : Codec GlobalContractIdentifier
  identifier_codec = enum p (record {
    tag = identifier_tag;
    put_body = put_identifier;
    readers = identifier_readers;
    body_reads_back = identifier_body;
  })

  -- A borsh map is the list of its entries in key order.
  abbrev pub state_init_codec : Codec StateInit
  state_init_codec = versioned p 0 (
      struct (λ t. record { code = t.0; entries = t.1 }) (λ s. (s.code, s.entries)) (λ s. refl)
        (identifier_codec ⊗ list p (p.bytes ⊗ p.bytes)))
