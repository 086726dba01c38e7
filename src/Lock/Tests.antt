-- ===== src/Lock/Tests.antt =====
-- The hash and the decimal printer at known values.
use burrito.Base.{◌≡◌, refl}
use burrito.Base.Text.{itoa}
use burrito.Lock.{hash}

hash_a : hash "a" ≡ 0xE40C292C
unfolding hash
hash_a = refl

hash_foobar : hash "foobar" ≡ 0xBF9CF968
unfolding hash
hash_foobar = refl

itoa_large : itoa 3826002220 ≡ "3826002220"
unfolding itoa
itoa_large = refl
