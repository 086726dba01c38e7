-- ===== src/Encryption/Padding.antt =====
-- What padding to whole blocks adds, and what its removal accepts.
use burrito.Base.{◌+◌, ◌-◌, ◌%◌, ◌≤◌, ◌<◌, ◌≡◌, arith, length, length-append, length-replicate}
use burrito.Encryption.{Bytes, pkcs7_pad, block_size}

-- Padding adds 1 to 16 bytes and gives whole blocks.
pub pkcs7_pad_bounds :
    (input : Bytes)
    → (length input < length (pkcs7_pad input block_size))
      × (length (pkcs7_pad input block_size) ≤ length input + block_size)
      × (length (pkcs7_pad input block_size) % block_size ≡ 0)
unfolding pkcs7_pad
pkcs7_pad_bounds input =
    let padding = block_size - length input % block_size in
    omega (arith, length-append input _, length-replicate padding (padding % 256))
