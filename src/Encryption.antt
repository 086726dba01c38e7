-- ===== src/Encryption.antt =====
-- internal/utils/encryption/encryption.go: AES-256-CBC with the IV in front and PKCS#7 padding,
-- and internal/datastore/storage/encryption.go: the manager that encrypts what the datastore keeps.
-- crypto/aes, crypto/cipher, crypto/sha256 and crypto/rand are the parameter `Crypto`.
pub mod Padding
pub mod RoundTrip
use burrito.Base.{
  ℕ, suc, ◌-◌, ◌%◌, String, Bool, true, false, not, ◌||◌, Option, none, some, List, [], ◌∷◌, ◌++◌,
  ltb, eqb, if◌then◌else◌, any, length, ◌==◌, take, drop, replicate, last,
}
use burrito.Base.Effect.{Result, ok, err, other, Effect, pure, ◌>>=◌}
use burrito.Base.Text.{bytes}

-- A slice of bytes is a list of numbers.
abbrev pub Bytes : Type 0
Bytes = List ℕ

-- `aes.BlockSize`
abbrev pub block_size : ℕ
block_size = 16

pub record Crypto (S : Type 0) : Type 0 where
  -- `sha256.Sum256`
  pub sum256 : Bytes → Bytes
  -- whether `aes.NewCipher(key)` succeeds
  pub accepts_key : Bytes → Bool
  -- `CryptBlocks` of `cipher.NewCBCEncrypter` and `cipher.NewCBCDecrypter`, by key and IV
  pub encrypt_blocks : (key iv input : Bytes) → Bytes
  pub decrypt_blocks : (key iv input : Bytes) → Bytes
  -- `io.ReadFull(rand.Reader, iv)` for an `iv` of `block_size` bytes
  pub read_iv : Effect S (Result Bytes)

-- `[]byte{...}` padded to whole blocks: `byte(padding)` is the remainder modulo 2 ^ 8.
unfoldable pub pkcs7_pad : (input : Bytes) (size : ℕ) → Bytes
pkcs7_pad input size =
    let padding = size - length input % size in input ++ replicate padding (padding % 256)

-- The checks of `pkcs7Unpad` once the last byte, `padding`, is read.
unfoldable pub strip : (input : Bytes) (padding : ℕ) → Result Bytes
strip input padding =
    let start = length input - padding in
    if eqb padding 0 || ltb (length input) padding
    then err other
    else if any (λ b. not (eqb b (padding % 256))) (drop start input)
    then err other
    else ok (take start input)

-- An empty slice has no last byte.
unfoldable pub pkcs7_unpad : (input : Bytes) → Result Bytes
unfolding strip
pkcs7_unpad input = elim (last input) [ none ↦ err other | some padding ↦ strip input padding ]

pub record Encryptor : Type 0 where
  pub key : Bytes

module _ {S : Type 0} (crypto : Crypto S) where
  unfoldable pub new_encryptor : (key : String) → Result Encryptor
  new_encryptor key =
      if key == "" then err other else ok (record { key = crypto.sum256 (bytes key) })

  -- What `Encrypt` does once the IV is read.
  unfoldable pub seal : (e : Encryptor) (plaintext iv : Bytes) → Bytes
  unfolding pkcs7_pad
  seal e plaintext iv = iv ++ crypto.encrypt_blocks e.key iv (pkcs7_pad plaintext block_size)

  unfoldable pub encrypt : (e : Encryptor) (plaintext : Bytes) → Effect S (Result Bytes)
  unfolding seal
  encrypt e plaintext s =
      let read = crypto.read_iv s in
      if crypto.accepts_key e.key
      then elim read.0 [ err x ↦ (err other, read.1) | ok iv ↦ (ok (seal e plaintext iv), read.1) ]
      else (err other, s)

  unfoldable pub decrypt : (e : Encryptor) (ciphertext : Bytes) → Result Bytes
  unfolding pkcs7_unpad
  decrypt e ciphertext =
      if eqb (length ciphertext) 0
      then ok ciphertext
      else if not (crypto.accepts_key e.key)
      then err other
      else if ltb (length ciphertext) block_size
      then err other
      else if not (eqb (length ciphertext % block_size) 0)
      then err other
      else pkcs7_unpad
          (crypto.decrypt_blocks e.key (take block_size ciphertext) (drop block_size ciphertext))

  -- `NewEncryptionManager`: the manager is its `DefaultEncryptor`, nil when encryption is off.
  -- `key` is the environment variable, empty when it is not set.
  unfoldable pub new_encryption_manager :
      (enabled : Bool) (key : String) → Result (Option Encryptor)
  unfolding new_encryptor
  new_encryption_manager enabled key =
      if enabled
      then (if key == ""
          then err other
          else elim (new_encryptor key) [ err x ↦ err other | ok e ↦ ok (some e) ])
      else ok none

  -- `EncryptionManager.Encrypt` and `EncryptionManager.Decrypt`, which ignore the namespace.
  unfoldable pub protect :
      (manager : Option Encryptor) (plaintext : Bytes) → Effect S (Result Bytes)
  unfolding encrypt
  protect none plaintext = pure (ok plaintext)
  protect (some e) plaintext = encrypt e plaintext

  unfoldable pub reveal : (manager : Option Encryptor) (ciphertext : Bytes) → Bytes
  unfolding decrypt
  reveal none ciphertext = ciphertext
  reveal (some e) ciphertext = elim (decrypt e ciphertext) [ err x ↦ ciphertext | ok plain ↦ plain ]
