-- ===== src/Encryption/RoundTrip.antt =====
-- Decryption undoes encryption, and what the removal of padding accepts.
use burrito.Base.{
  ℕ, zero, suc, ◌+◌, ◌-◌, ◌*◌, ◌%◌, ◌≤◌, ◌<◌, ◌≡◌, ◌↔◌, refl, sym, ap, subst, ◌∙◌, inl, inr, true,
  false, not, any, eqb, [], ◌∷◌, ◌++◌, arith, length, length-append, length-replicate, take-append,
  drop-append, take-drop, length-drop, last-append, last-replicate, All, take, drop, replicate,
  last, none, some, Option-cases, Bool-cases, Option,
}
use Prim.Native.Nat.{◌/◌}
use burrito.Base.Effect.{ok, Result-cases}
use burrito.Encryption.{
  Bytes, Crypto, Encryptor, block_size, pkcs7_pad, strip, pkcs7_unpad, seal, encrypt, decrypt,
  protect, reveal,
}
use burrito.Encryption.Padding.{pkcs7_pad_bounds}

-- No byte of `n` copies differs from the copied one.
none_differs : (n b : ℕ) → any (λ x. not (eqb x b)) (replicate n b) ≡ false
none_differs zero b = refl
none_differs (suc n) b = ground (arith, none_differs n b)

strip-replicate :
    (plain : Bytes) (n : ℕ) → n < 256 → 0 < n → strip (plain ++ replicate n n) n ≡ ok plain
unfolding strip
strip-replicate plain n small positive =
    let len = length-append plain (replicate n n) in
    let rep = length-replicate n n in
    let start : length (plain ++ replicate n n) - n ≡ length plain = omega (arith, len, rep) in
    let byte : n % 256 ≡ n = omega (arith, small) in
    rw (start, byte, take-append, drop-append, none_differs) (ground (arith, len, rep))

last_padded : (plain : Bytes) (n : ℕ) → 0 < n → last (plain ++ replicate n n) ≡ some n
last_padded plain zero h = absurd (omega (arith, h))
last_padded plain (suc n) h =
    last-append plain (replicate n (suc n)) (suc n) ∙ last-replicate n (suc n)

pkcs7_unpad-replicate :
    (plain : Bytes) (n : ℕ) → n < 256 → 0 < n → pkcs7_unpad (plain ++ replicate n n) ≡ ok plain
unfolding pkcs7_unpad
pkcs7_unpad-replicate plain n small positive =
    rw (pkcs7_unpad, last_padded plain n positive) (strip-replicate plain n small positive)

-- Removing the padding gives back the padded bytes, for every block size below 256.
pub pkcs7_unpad-pkcs7_pad :
    (plain : Bytes) (size : ℕ)
    → 0 < size
    → size < 256
    → pkcs7_unpad (pkcs7_pad plain size) ≡ ok plain
unfolding pkcs7_pad
pkcs7_unpad-pkcs7_pad plain size positive small =
    let n = size - length plain % size in
    let le : n < 256 = omega (arith, small) in
    let byte : n % 256 ≡ n = omega (arith, le) in
    rw byte (pkcs7_unpad-replicate plain n le (omega (arith, positive)))

all_equal :
    (b : ℕ) (xs : Bytes) → any (λ x. not (eqb x b)) xs ≡ false → xs ≡ replicate (length xs) b
all_equal b [] h = refl
all_equal b (x ∷ xs) h = ground (arith, all_equal b xs, h)

pieces :
    (input : Bytes) (n : ℕ)
    → n < 256
    → n ≤ length input
    → any (λ x. not (eqb x (n % 256))) (drop (length input - n) input) ≡ false
    → input ≡ take (length input - n) input ++ replicate n n
pieces input n small le same =
    let start = length input - n in
    let byte : n % 256 ≡ n = omega (arith, small) in
    let rest : length (drop start input) ≡ n = length-drop start input ∙ omega (arith, le) in
    let tail : drop start input ≡ replicate n n =
      all_equal n (drop start input) (rw byte at same) ∙ ap (λ k. replicate k n) rest in
    take-drop start input ∙ ap (λ xs. take start input ++ xs) tail

strip-inv :
    (input : Bytes) (n : ℕ) (plain : Bytes)
    → n < 256
    → strip input n ≡ ok plain
    → (0 < n) × (input ≡ plain ++ replicate n n)
unfolding strip
strip-inv input n plain byte h = let checked = pieces input n byte in ground (arith, h, checked)

last-All : (input : Bytes) (n : ℕ) → All (λ b. b < 256) input → last input ≡ some n → n < 256
last-All [] n bytes e = cc
last-All (x ∷ []) n bytes e = ground (arith, bytes, e)
last-All (x ∷ y ∷ input) n bytes e = last-All (y ∷ input) n bytes.1 e

-- The removal of padding succeeds exactly on a text followed by n bytes of value n, n from 1 to 255,
-- and gives that text.
pub pkcs7_unpad_iff :
    (input plain : Bytes)
    → All (λ b. b < 256) input
    → (pkcs7_unpad input ≡ ok plain)
      ↔ ((n : ℕ) × (0 < n) × (n < 256) × (input ≡ plain ++ replicate n n))
unfolding pkcs7_unpad
pkcs7_unpad_iff input plain bytes = (
  λ e. elim (Option-cases (last input)) [
    | inl empty ↦ cc (rw (pkcs7_unpad, empty) at e)
    | inr (n, found) ↦
        let small = last-All input n bytes found in
        let (positive, shape) = strip-inv input n plain small (rw (pkcs7_unpad, found) at e) in
        (n, positive, small, shape)
  ],
  λ (n, positive, small, shape). rw shape (pkcs7_unpad-replicate plain n small positive),
)

-- What is documented of crypto/cipher: whole blocks come out as whole blocks of the same length, and
-- CBC decryption under the same key and IV undoes CBC encryption.
pub record CryptoLaws {S : Type 0} (crypto : Crypto S) : Type 0 where
  pub length-read_iv : (s : S) (iv : Bytes) → (crypto.read_iv s).0 ≡ ok iv → length iv ≡ block_size
  pub length-encrypt_blocks :
      (key iv input : Bytes)
      → length iv ≡ block_size
      → length input % block_size ≡ 0
      → length (crypto.encrypt_blocks key iv input) ≡ length input
  pub decrypt_blocks-encrypt_blocks :
      (key iv input : Bytes)
      → length iv ≡ block_size
      → length input % block_size ≡ 0
      → crypto.decrypt_blocks key iv (crypto.encrypt_blocks key iv input) ≡ input

module _ {S : Type 0} (crypto : Crypto S) (laws : CryptoLaws crypto) where
  length-seal_padded :
      (e : Encryptor) (plain iv : Bytes)
      → length iv ≡ block_size
      → length (seal crypto e plain iv) ≡ block_size + length (pkcs7_pad plain block_size)
  unfolding seal
  length-seal_padded e plain iv h =
      let (lo, hi, whole) = pkcs7_pad_bounds plain in
      let padded = pkcs7_pad plain block_size in
      length-append iv (crypto.encrypt_blocks e.key iv padded)
      ∙ omega (arith, laws.length-encrypt_blocks e.key iv padded h whole, h)

  decrypt-split :
      (e : Encryptor) (iv body : Bytes)
      → crypto.accepts_key e.key ≡ true
      → length iv ≡ block_size
      → length body % block_size ≡ 0
      → decrypt crypto e (iv ++ body) ≡ pkcs7_unpad (crypto.decrypt_blocks e.key iv body)
  unfolding decrypt
  decrypt-split e iv body key h whole =
      let front : take block_size (iv ++ body) ≡ iv =
        subst (λ n. take n (iv ++ body) ≡ iv) h (take-append iv body) in
      let back : drop block_size (iv ++ body) ≡ body =
        subst (λ n. drop n (iv ++ body) ≡ body) h (drop-append iv body) in
      rw (front, back) (ground (arith, key, h, whole, length-append iv body))

  decrypt-seal :
      (e : Encryptor) (plain iv : Bytes)
      → crypto.accepts_key e.key ≡ true
      → length iv ≡ block_size
      → decrypt crypto e (seal crypto e plain iv) ≡ ok plain
  unfolding seal
  decrypt-seal e plain iv key h =
      let padded = pkcs7_pad plain block_size in
      let (lo, hi, whole) = pkcs7_pad_bounds plain in
      let same = laws.length-encrypt_blocks e.key iv padded h whole in
      decrypt-split e iv (crypto.encrypt_blocks e.key iv padded) key h (rw same whole)
      ∙ ap pkcs7_unpad (laws.decrypt_blocks-encrypt_blocks e.key iv padded h whole)
      ∙ pkcs7_unpad-pkcs7_pad plain block_size (omega arith) (omega arith)

  -- When the key is accepted and an IV is read, `Encrypt` gives bytes from which `Decrypt` gives back
  -- the plaintext.
  pub decrypt-encrypt :
      (e : Encryptor) (plain iv : Bytes) (s : S)
      → crypto.accepts_key e.key ≡ true
      → (crypto.read_iv s).0 ≡ ok iv
      → (cipher : Bytes) × ((encrypt crypto e plain s).0 ≡ ok cipher)
        × (decrypt crypto e cipher ≡ ok plain)
  unfolding encrypt
  decrypt-encrypt e plain iv s key read =
      let h = laws.length-read_iv s iv read in
      (seal crypto e plain iv, rw (key, read) refl, decrypt-seal e plain iv key h)

  -- The bytes that encryption adds: the IV, and what fills the last block, which is never nothing.
  pub length-seal :
      (e : Encryptor) (plain iv : Bytes)
      → length iv ≡ block_size
      → length (seal crypto e plain iv) ≡ block_size * (length plain / block_size + 2)
  length-seal e plain iv h = omega (arith, length-seal_padded e plain iv h, pkcs7_pad_bounds plain)

  -- With or without an encryptor, what the manager stores it can read back.
  pub reveal-protect :
      (manager : Option Encryptor) (plain cipher : Bytes) (s : S)
      → (protect crypto manager plain s).0 ≡ ok cipher
      → reveal crypto manager cipher ≡ plain
  unfolding protect reveal encrypt
  reveal-protect none plain cipher s e = ground (arith, e)
  reveal-protect (some e) plain cipher s h = elim (Bool-cases (crypto.accepts_key e.key)) [
    | inr bad ↦ cc (rw (encrypt, bad) at h)
    | inl good ↦ elim (Result-cases (crypto.read_iv s).0) [
      | inr (x, failed) ↦ cc (rw (encrypt, good, failed) at h)
      | inl (iv, read) ↦
          let same : seal crypto e plain iv ≡ cipher =
            ground (arith, rw (encrypt, good, read) at h) in
          rw (reveal, sym same, decrypt-seal e plain iv good (laws.length-read_iv s iv read)) refl
    ]
  ]
