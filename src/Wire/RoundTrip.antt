-- ===== src/Wire/RoundTrip.antt =====
-- The bytes of a signed delegate action are read back.
use near_kit_py.Base.{◌≡◌, some, [], append-nil}
use near_kit_py.Wire.Codec.{Bytes, Pyborsh}
use near_kit_py.Wire.Types.{SignedDelegate}
use near_kit_py.Wire.Schema.Actions.{signed_delegate_codec}

-- A relayer reads back exactly the delegate action and the signature that a user encoded.
pub delegate_round_trip :
    (p : Pyborsh) (s : SignedDelegate) (b : Bytes)
    → (signed_delegate_codec p).put s ≡ some b
    → (signed_delegate_codec p).get b ≡ some (s, [])
delegate_round_trip p s b h = rw append-nil at ((signed_delegate_codec p).reads_back s b [] h)
