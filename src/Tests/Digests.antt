-- ===== src/Tests/Digests.antt =====
-- Digests of concrete strings.
use bitgate.Base.{◌≡◌, refl, arith, true, all, length}
use bitgate.Base.Text.{codes, is_hex_unit}
use bitgate.Core.Fingerprint.{start, mix_all, hex_digits, hash_string}
use bitgate.Core.Fingerprint.Digest.{hash_string_lem, AreWords}

-- The first half is the digest of the string by FNV-1a.
hash_string_of_a : hash_string (codes "a") ≡ codes "e40c292cefafc426"
unfolding hash_string
hash_string_of_a = refl

hash_string_lem_example :
    AreWords (mix_all start 0 (codes "a"))
    × (hex_digits 20 (mix_all start 0 (codes "a")).high
        ≡ hex_digits 8 (mix_all start 0 (codes "a")).high)
    × (hex_digits 20 (mix_all start 0 (codes "a")).low
        ≡ hex_digits 8 (mix_all start 0 (codes "a")).low)
    × (length (hash_string (codes "a")) ≡ 16)
    × (all is_hex_unit (hash_string (codes "a")) ≡ true)
hash_string_lem_example = hash_string_lem (codes "a") 20 (omega arith)
