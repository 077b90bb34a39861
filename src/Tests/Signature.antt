-- ===== src/Tests/Signature.antt =====
-- Signing with a wallet that makes one signature, and a text for bytes that counts with a letter.
use Prim.Native.Char.{Char}
use Prim.Native.String.{[] as empty, ◌∷◌ as push}
use aries_framework_javascri.Prelude.{
  All, ◌<◌, ℕ, ◌+◌, suc, zero, ◌≡◌, refl, arith, List, [], ◌∷◌, true, String, ◌==◌, ap, ◌∙◌, length,
  if◌then◌else◌,
}
use aries_framework_javascri.Exec.{ok, ◌>>=◌}
use aries_framework_javascri.Connections.Messages.{SignatureDecorator}
use aries_framework_javascri.Signature.{WalletKeys, Encoder, sign_data, timestamp}
use aries_framework_javascri.Signature.RoundTrip.{IsFaithful, timestamp_value, big_endian}

abbrev mark : Char
mark = "a"

abbrev end : Char
end = "b"

tally : ℕ → String → String
tally zero t = push end t
tally (suc n) t = push mark (tally n t)

pub text_of : List ℕ → String
unfolding tally
text_of [] = ""
text_of (b ∷ bytes) = tally b (text_of bytes)

pub bytes_of_text : ℕ → String → List ℕ
bytes_of_text n empty = []
bytes_of_text n (push c t) =
    if push c "" == "a" then bytes_of_text (suc n) t else n ∷ bytes_of_text 0 t

bytes-tally : (n b : ℕ) (t : String) → bytes_of_text n (tally b t) ≡ (n + b) ∷ bytes_of_text 0 t
unfolding tally bytes_of_text
bytes-tally n zero t = ap (λ k. k ∷ bytes_of_text 0 t) (omega arith)
bytes-tally n (suc b) t = bytes-tally (suc n) b t ∙ ap (λ k. k ∷ bytes_of_text 0 t) (omega arith)

pub bytes-text : (bytes : List ℕ) → bytes_of_text 0 (text_of bytes) ≡ bytes
unfolding text_of bytes_of_text
bytes-text [] = refl
bytes-text (b ∷ bytes) =
    bytes-tally 0 b (text_of bytes)
    ∙ ap (λ k. k ∷ bytes_of_text 0 (text_of bytes)) (omega arith)
    ∙ ap (λ l. b ∷ l) (bytes-text bytes)

abbrev pub encoder : Encoder (List ℕ)
encoder = record {
  to_buffer = λ j. j;
  from_buffer = λ bytes. ok bytes;
  to_base64_url = text_of;
  from_base64 = bytes_of_text 0;
}

abbrev keys : WalletKeys Unit
keys = record {
  create_did = λ s. (ok ("did", "key"), s);
  sign = λ bytes key s. (ok (1 ∷ []), s);
  verify = λ key bytes signature s. (ok true, s);
}

keys-IsFaithful : IsFaithful keys encoder
keys-IsFaithful = record {
  base64_lem = bytes-text;
  json_lem = λ j. refl;
  verify_lem = λ bytes signature key s s' e. refl;
}

abbrev payload : List ℕ
payload = 3 ∷ 4 ∷ []

abbrev decorator : SignatureDecorator
unfolding text_of timestamp
decorator = record {
  signature_type = "https://didcomm.org/signature/1.0/ed25519Sha512_single";
  signature = text_of (1 ∷ []);
  signature_data = text_of (0 ∷ 0 ∷ 0 ∷ 0 ∷ 0 ∷ 0 ∷ 3 ∷ 232 ∷ 3 ∷ 4 ∷ []);
  signer = "key";
}

signing_run : sign_data keys encoder 1000 payload "key" tt ≡ (ok decorator, tt)
unfolding sign_data timestamp ◌>>=◌ decorator
signing_run = refl

timestamp_value_example :
    (length (timestamp 1000) ≡ 8)
    × All (λ b. b < 256) (timestamp 1000)
    × (big_endian 0 (timestamp 1000) ≡ 1000)
timestamp_value_example = timestamp_value 1000 (omega arith)
