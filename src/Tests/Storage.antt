-- ===== src/Tests/Storage.antt =====
-- The theorems on encryption and on the datastore, at concrete inputs.
use burrito.Base.{
  ◌≤◌, All, map, contains, ◌+◌, ◌*◌, String, ◌≡◌, refl, sym, true, some, List, [], ◌∷◌, ◌==◌, ◌&&◌,
  if◌then◌else◌, length, replicate,
}
use Prim.Native.Nat.{◌/◌}
use burrito.Base.Dict.{Dict}
use burrito.Base.Effect.{ok}
use burrito.Encryption.{Bytes, Crypto, Encryptor, block_size, seal, encrypt, decrypt, protect}
use burrito.Encryption.RoundTrip.{CryptoLaws, length-seal, decrypt-encrypt}
use burrito.Datastore.{Backend, run_key}
use burrito.Datastore.Storage.{get_logs, put_logs, attempt_of, get_latest_attempt}
use burrito.Datastore.Attempts.{number, get_latest_attempt_highest}
use burrito.Base.Text.{has_prefix, trim_suffix, trim_prefix, split, atoi}
use burrito.Datastore.Stored.{get_logs-put_logs}
use burrito.Datastore.Mock.{set, list, mock, beside}
use burrito.Datastore.Memory.{mock-BackendLaws}
use burrito.Datastore.Migration.{encrypt_all_files}
use burrito.Datastore.Unchanged.{SameRead, encrypt_all_files-SameRead}

-- Ciphers that change nothing, and IVs of zeros.
abbrev pub crypto : Crypto (Unit {0})
crypto = record {
  sum256 = λ bytes. bytes;
  accepts_key = λ key. true;
  encrypt_blocks = λ key iv input. input;
  decrypt_blocks = λ key iv input. input;
  read_iv = λ s. (ok (replicate 16 0), s);
}

ok_injective : {A : Type 0} {a b : A} → ok a ≡ ok b → a ≡ b
ok_injective e = cc

iv_length : (iv : Bytes) → ok (replicate 16 0) ≡ ok iv → length iv ≡ block_size
iv_length iv e = rw (sym (ok_injective e)) refl

crypto-CryptoLaws : CryptoLaws crypto
crypto-CryptoLaws = record {
  length-read_iv = λ s iv e. iv_length iv e;
  length-encrypt_blocks = λ key iv input h k. refl;
  decrypt_blocks-encrypt_blocks = λ key iv input h k. refl;
}

abbrev store : Backend
store = mock (Unit {0})

abbrev pub source : Crypto (Dict Bytes × Unit {0})
source = beside crypto

pub source-CryptoLaws : CryptoLaws source
source-CryptoLaws = record {
  length-read_iv = λ s iv e. iv_length iv e;
  length-encrypt_blocks = λ key iv input h k. refl;
  decrypt_blocks-encrypt_blocks = λ key iv input h k. refl;
}

abbrev e : Encryptor
e = record { key = 1 ∷ [] }

abbrev logs : Bytes
logs = 72 ∷ 105 ∷ []

decrypt-encrypt_example :
    (cipher : Bytes) × ((encrypt crypto e logs tt).0 ≡ ok cipher)
    × (decrypt crypto e cipher ≡ ok logs)
decrypt-encrypt_example =
    decrypt-encrypt crypto crypto-CryptoLaws e logs (replicate 16 0) tt refl refl

length-seal_example :
    length (seal crypto e logs (replicate 16 0)) ≡ block_size * (length logs / block_size + 2)
length-seal_example = length-seal crypto crypto-CryptoLaws e logs (replicate 16 0) refl

-- Two attempts of a run are stored, and the logs of one of them are encrypted.
abbrev files : Dict Bytes × Unit {0}
files = (
  ("/layers/team/network/run/2/run.log", logs) ∷ ("/layers/team/network/run/10/run.log", logs) ∷ [],
  tt,
)

get_logs-put_logs_example :
    (get_logs store source
      (some e)
      "team"
      "network"
      "run"
      "2"
      (put_logs store source (some e) "team" "network" "run" "10" logs files).1).0
    ≡ (if ("team" == "team") && (("network" == "network") && (("run" == "run") && ("10" == "2")))
        then ok logs
        else (get_logs store source (some e) "team" "network" "run" "2" files).0)
unfolding put_logs protect set
get_logs-put_logs_example =
    get_logs-put_logs store source (mock-BackendLaws crypto) source-CryptoLaws (some e) "team"
      "team" "network" "network" "run" "run" "10" "2" logs files refl refl refl refl refl refl refl

abbrev key : String
key = run_key "team" "network" "run"

abbrev paths : List String
paths = "/layers/team/network/run/2" ∷ "/layers/team/network/run/10" ∷ []

encrypt_all_files-SameRead_example :
    SameRead store source
      (mock-BackendLaws crypto)
      source-CryptoLaws
      e
      "layers/team/network/run/2/run.log"
      files
      (encrypt_all_files store source (some e) files).1
encrypt_all_files-SameRead_example =
    encrypt_all_files-SameRead store source (mock-BackendLaws crypto) source-CryptoLaws e
      "layers/team/network/run/2/run.log" files

get_latest_attempt_highest_example :
    (a : String) × (((get_latest_attempt store "team" "network" "run" files).0 ≡ ok a)
      × ((contains (map (attempt_of key) paths) a ≡ true)
          × All (λ c. number c ≤ number a) (map (attempt_of key) paths)))
unfolding list has_prefix trim_suffix trim_prefix run_key split atoi attempt_of
get_latest_attempt_highest_example =
    get_latest_attempt_highest store "team" "network" "run" files "/layers/team/network/run/2"
      ("/layers/team/network/run/10" ∷ []) refl (refl, (refl, tt))
