-- ===== src/Client/Quiet.antt =====
-- The methods of src/near/client.py that send nothing: they leave the nonce cache and the record of
-- what was sent alone, and the metadata of a token is asked for once.
use near_kit_py.Base.{◌≡◌, refl, sym, ap, ◌∙◌, inl, inr, Option, some, Option-cases}
use near_kit_py.Errors.{Result, ok, ok-injective}
use near_kit_py.Py.Text.{Str, codes, str_eq_refl}
use near_kit_py.Py.Dict.{lookup, lookup-insert}
use near_kit_py.Py.Json.{Json, Fields, obj}
use near_kit_py.Keys.PublicKey.{Base58}
use near_kit_py.Wire.Codec.{Bytes, Pyborsh}
use near_kit_py.Core.Build.{BlockRef, unset, view_params}
use near_kit_py.Py.Base64.{b64encode}
use near_kit_py.Core.Queries.{ViewResult, decode_view_result}
use near_kit_py.Actions.{Args, no_args, encode_args}
use near_kit_py.Tokens.{FtMetadata}
use near_kit_py.Client.Monad.{Session, M, ◌>>=◌, lift}
use near_kit_py.Client.Post.{Does, Keeps, Keeps-bind, bind-returns}
use near_kit_py.Client.Send.Steps.{transport-Keeps}
use near_kit_py.Client.Reads.{query, view}
use near_kit_py.Client.Tokens.{store_ft, fetch_ft_metadata, ft_metadata}

module _ {N R : Type 0} (p : Pyborsh) (b58 : Base58) (sha256 : Bytes → Bytes) (repr : Json → Str)
    (validate : Json → Result R) (call : Str → Json → N → Result Json × N) where
  query-Keeps : (fields : Fields) → Does Keeps (query p b58 sha256 repr validate call fields)
  unfolding query
  query-Keeps fields = transport-Keeps p b58 sha256 repr validate call (codes "query") (obj fields)

  module _ (dumps : Json → Result Bytes) (loads : Bytes → Option Json) where
    pub view-Keeps :
        (contract_id method : Str) (args : Args) (block : BlockRef)
        → Does Keeps
            (view p b58 sha256 repr validate call dumps loads contract_id method args block)
    unfolding view
    view-Keeps contract_id method args block =
        let ask : Bytes → M N Json = λ raw.
          query p b58 sha256 repr validate call
            (view_params contract_id method (b64encode raw) block) in
        let read : Json → M N ViewResult = λ result. lift (decode_view_result loads result) in
        Keeps-bind {A = Bytes} {B = ViewResult} (lift (encode_args dumps args))
          (λ raw. ask raw >>= read) (λ s. (refl, refl))
          (λ raw.
            Keeps-bind (ask raw) read
              (query-Keeps (view_params contract_id method (b64encode raw) block))
              (λ result s. (refl, refl)))

    module _ (read_metadata : ViewResult → Result FtMetadata) where
      abbrev fetch : Str → M N FtMetadata
      fetch = fetch_ft_metadata p b58 sha256 repr validate call dumps loads read_metadata

      abbrev metadata_of : Str → M N FtMetadata
      metadata_of = ft_metadata p b58 sha256 repr validate call dumps loads read_metadata

      asked : Str → M N ViewResult
      asked token_id =
          view p b58 sha256 repr validate call dumps loads token_id (codes "ft_metadata") no_args
            unset

      stored : Str → FtMetadata → M N FtMetadata
      stored = store_ft p b58 sha256 repr validate call dumps loads

      read_and_store : Str → ViewResult → M N FtMetadata
      read_and_store token_id result = do
        metadata ← lift (read_metadata result)
        stored token_id metadata

      fetch_ft_metadata-Keeps : (token_id : Str) → Does Keeps (fetch token_id)
      unfolding fetch_ft_metadata asked stored read_and_store store_ft
      fetch_ft_metadata-Keeps token_id =
          Keeps-bind (asked token_id) (read_and_store token_id)
            (view-Keeps token_id (codes "ft_metadata") no_args unset)
            (λ result.
              Keeps-bind {A = FtMetadata} {B = FtMetadata} (lift (read_metadata result))
                (stored token_id) (λ s. (refl, refl)) (λ metadata s. (refl, refl)))

      pub ft_metadata-Keeps : (token_id : Str) → Does Keeps (metadata_of token_id)
      unfolding ft_metadata
      ft_metadata-Keeps token_id s = elim (Option-cases (lookup token_id s.ft_meta)) [
        | inl e ↦ rw (ft_metadata, e) (fetch_ft_metadata-Keeps token_id s)
        | inr (m, e) ↦ rw (ft_metadata, e) (refl, refl)
      ]

      -- What was fetched is in the cache.
      fetch_ft_metadata-stored :
          (token_id : Str) (s t : Session N) (m : FtMetadata)
          → fetch token_id s ≡ (ok m, t)
          → lookup token_id t.ft_meta ≡ some m
      unfolding fetch_ft_metadata asked stored read_and_store store_ft
      fetch_ft_metadata-stored token_id s t m h =
          let (result, s1, h1, e1) =
            bind-returns (asked token_id) (read_and_store token_id) s m t h in
          let (metadata, s2, h2, e2) =
            bind-returns {A = FtMetadata} {B = FtMetadata} (lift (read_metadata result))
              (stored token_id) s1 m t e1 in
          let cache = ap (λ (x : Result FtMetadata × Session N). (x.1).ft_meta) e2 in
          let same : metadata ≡ m =
            ok-injective metadata m (ap (λ (x : Result FtMetadata × Session N). x.0) e2) in
          rw (← cache, lookup-insert token_id token_id metadata s2.ft_meta, str_eq_refl token_id)
            (ap some same)

      -- Once `ft_metadata` has returned a token's metadata, it returns the same again with no request
      -- and no change of state.
      pub ft_metadata-cached :
          (token_id : Str) (s t : Session N) (m : FtMetadata)
          → metadata_of token_id s ≡ (ok m, t)
          → metadata_of token_id t ≡ (ok m, t)
      unfolding ft_metadata
      ft_metadata-cached token_id s t m h = elim (Option-cases (lookup token_id s.ft_meta)) [
        | inl missing ↦
            rw (
              ft_metadata,
              fetch_ft_metadata-stored token_id s t m (rw (ft_metadata, missing) at h),
            )
        | inr (m', e) ↦
            let reached : (ok m', s) ≡ (ok m, t) = rw (ft_metadata, e) at h in
            let same =
              ok-injective m' m (ap (λ (x : Result FtMetadata × Session N). x.0) reached) in
            let found : lookup token_id t.ft_meta ≡ some m =
              ap (λ (x : Result FtMetadata × Session N). lookup token_id (x.1).ft_meta)
                (sym reached)
              ∙ (e ∙ ap some same) in
            rw (ft_metadata, found)
      ]
