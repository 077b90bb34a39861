-- ===== src/Signature.antt =====
-- decorators/signature/SignatureDecoratorUtils.ts, utils/timestamp.ts. Signing and verifying are the
-- wallet's, base64 is Buffer's, and JSON is JavaScript's: parameters.
pub mod RoundTrip
use aries_framework_javascri.Prelude.{
  ℕ, zero, suc, ◌/◌, ◌%◌, String, Bool, true, false, List, [], ◌∷◌, ◌++◌,
}
use aries_framework_javascri.Exec.{
  Exec, Result, ok, err, lift, pure, require, invalid_signature, ◌>>=◌, ◌>>◌,
}
use aries_framework_javascri.Connections.Messages.{SignatureDecorator}

-- The wallet's keys: `createDid` returns a did and its verkey.
pub record WalletKeys (W : Type 0) : Type 0 where
  pub create_did : Exec W (String × String)
  pub sign : List ℕ → String → Exec W (List ℕ)
  pub verify : String → List ℕ → List ℕ → Exec W Bool

-- utils/JsonEncoder.ts and utils/BufferEncoder.ts, over plain JSON values `J`.
pub record Encoder (J : Type 0) : Type 0 where
  pub to_buffer : J → List ℕ
  pub from_buffer : List ℕ → Result J
  pub to_base64_url : List ℕ → String
  pub from_base64 : String → List ℕ

-- The loop of `timestamp`: the low byte first. `time & 0xff` is `time % 256`, so `time - byte` is a
-- multiple of 256.
bytes_of : ℕ → ℕ → List ℕ
bytes_of zero time = []
bytes_of (suc rounds) time = time % 256 ∷ bytes_of rounds (time / 256)

reverse_onto : List ℕ → List ℕ → List ℕ
reverse_onto [] out = out
reverse_onto (b ∷ bytes) out = reverse_onto bytes (b ∷ out)

unfoldable pub timestamp : ℕ → List ℕ
unfolding bytes_of reverse_onto
timestamp now = reverse_onto (bytes_of 8 now) []

-- `signedData.slice(n)`
pub drop : ℕ → List ℕ → List ℕ
drop zero bytes = bytes
drop (suc n) [] = []
drop (suc n) (_ ∷ bytes) = drop n bytes

module _ {W J : Type 0} (keys : WalletKeys W) (encoder : Encoder J) where
  unfoldable pub sign_data : ℕ → J → String → Exec W SignatureDecorator
  sign_data now payload signer_key = do
    let data_buffer = timestamp now ++ encoder.to_buffer payload
    signature ← keys.sign data_buffer signer_key
    pure (record {
      signature_type = "https://didcomm.org/signature/1.0/ed25519Sha512_single";
      signature = encoder.to_base64_url signature;
      signature_data = encoder.to_base64_url data_buffer;
      signer = signer_key;
    })

  unfoldable pub unpack_and_verify : SignatureDecorator → Exec W J
  unpack_and_verify decorator = do
    let signed_data = encoder.from_base64 decorator.signature_data
    let signature = encoder.from_base64 decorator.signature
    is_valid ← keys.verify decorator.signer signed_data signature
    require is_valid invalid_signature
    lift (encoder.from_buffer (drop 8 signed_data))
