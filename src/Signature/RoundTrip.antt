-- ===== src/Signature/RoundTrip.antt =====
-- The timestamp in front of signed data, and that what is signed is what is unpacked.
use aries_framework_javascri.Prelude.{
  ℕ, ◌+◌, ◌*◌, ◌^◌, ◌<◌, ◌≡◌, refl, String, true, List, [], ◌∷◌, ◌++◌, length, All, arith,
}
use aries_framework_javascri.Exec.{Result, ok, err, ◌>>=◌}
use aries_framework_javascri.Connections.Messages.{SignatureDecorator}
use aries_framework_javascri.Signature.{
  WalletKeys, Encoder, timestamp, drop, sign_data, unpack_and_verify,
}

-- The number that bytes stand for, the high byte first.
abbrev pub big_endian : ℕ → List ℕ → ℕ
big_endian acc [] = acc
big_endian acc (b ∷ bytes) = big_endian (acc * 256 + b) bytes

-- What `timestamp` puts before the signed data is eight numbers, each of which fits a byte, and they
-- are the time, big-endian, for every time below 2 ^ 64.
pub timestamp_value :
    (now : ℕ)
    → now < 2 ^ 64
    → (length (timestamp now) ≡ 8)
      × All (λ b. b < 256) (timestamp now)
      × (big_endian 0 (timestamp now) ≡ now)
unfolding timestamp
timestamp_value now h = (
  refl,
  (
    omega arith,
    (
      omega arith,
      (omega arith, (omega arith, (omega arith, (omega arith, (omega arith, (omega arith, tt)))))),
    ),
  ),
  omega arith,
)

pub drop-timestamp : (now : ℕ) (rest : List ℕ) → drop 8 (timestamp now ++ rest) ≡ rest
unfolding timestamp drop
drop-timestamp now rest = refl

-- What the round trip relies on: base64 and JSON text are read back as written, and the wallet
-- accepts the signatures that it made and stays as it is.
pub record IsFaithful {W J : Type 0} (keys : WalletKeys W) (encoder : Encoder J) : Type 0 where
  pub base64_lem : (bytes : List ℕ) → encoder.from_base64 (encoder.to_base64_url bytes) ≡ bytes
  pub json_lem : (j : J) → encoder.from_buffer (encoder.to_buffer j) ≡ ok j
  pub verify_lem :
      (bytes signature : List ℕ) (key : String) (s s' : W)
      → keys.sign bytes key s ≡ (ok signature, s')
      → keys.verify key bytes signature s' ≡ (ok true, s')

module _ {W J : Type 0} (keys : WalletKeys W) (encoder : Encoder J)
    (law : IsFaithful keys encoder) where
  signed :
      (now : ℕ) (payload : J) (key : String) (s : W) (out : Result (List ℕ) × W)
      → keys.sign (timestamp now ++ encoder.to_buffer payload) key s ≡ out
      → {decorator : SignatureDecorator} {s' : W}
      → sign_data keys encoder now payload key s ≡ (ok decorator, s')
      → unpack_and_verify keys encoder decorator s' ≡ (ok payload, s')
  unfolding sign_data unpack_and_verify ◌>>=◌
  signed now payload key s (err e, s1) same {decorator} {s'} made = absurd (ground arith)
  signed now payload key s (ok signature, s1) same {decorator} {s'} made =
      let bytes = timestamp now ++ encoder.to_buffer payload in
      ground (
        arith,
        law.base64_lem bytes,
        law.base64_lem signature,
        law.json_lem payload,
        law.verify_lem bytes signature key s s1,
        drop-timestamp now (encoder.to_buffer payload),
      )

  -- Over a wallet that accepts its own signatures, with base64 and JSON read back as written: unpacking
  -- what `signData` made returns the data that was signed, without the timestamp.
  unpack-sign :
      (now : ℕ) (payload : J) (key : String) (s s' : W) {decorator : SignatureDecorator}
      → sign_data keys encoder now payload key s ≡ (ok decorator, s')
      → unpack_and_verify keys encoder decorator s' ≡ (ok payload, s')
  unpack-sign now payload key s s' made =
      signed now payload key s (keys.sign (timestamp now ++ encoder.to_buffer payload) key s) refl
        made
