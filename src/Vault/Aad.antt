-- ===== src/Vault/Aad.antt =====
-- The associated data of internal/vault/vault.go, which binds a ciphertext to its role.
pub mod Roles
mod Tests
use grafted_keys.Prelude.{
  ℕ, zero, suc, ◌+◌, ◌/◌, ◌%◌, [], ◌∷◌, ◌++◌, ltb, if◌then◌else◌, Bytes, Text, codes,
}
use grafted_keys.Crypto.{KdfParams}

-- `%d`, on fuel: a number has at most as many digits as its value and one more.
digits_fuel : ℕ → ℕ → Text → Text
digits_fuel zero n acc = acc
digits_fuel (suc f) n acc =
    let more = digits_fuel f (n / 10) ((48 + n % 10) ∷ acc) in
    if ltb n 10 then (48 + n) ∷ acc else more

unfoldable pub decimal : ℕ → Text
unfolding digits_fuel
decimal n = digits_fuel (suc n) n []

hex_digit : ℕ → ℕ
hex_digit d = if ltb d 10 then 48 + d else 87 + d

-- `%x` of a byte slice
unfoldable pub hex : Bytes → Text
unfolding hex_digit
hex [] = []
hex (b ∷ bs) = hex_digit (b / 16) ∷ hex_digit (b % 16) ∷ hex bs

unfoldable pub wrap_aad : ℕ → KdfParams → Bytes
unfolding decimal hex
wrap_aad epoch p =
    codes "gs-dek/v1/epoch="
    ++ (decimal epoch
        ++ (codes "/t="
            ++ (decimal p.time_t
                ++ (codes "/m="
                    ++ (decimal p.mem_kib
                        ++ (codes "/p=" ++ (decimal p.par ++ (codes "/salt=" ++ hex p.salt))))))))

unfoldable pub field_aad : Text → Text → Text → Bytes
field_aad entity id field = codes "gs/" ++ (entity ++ (codes "/" ++ (id ++ (codes "/" ++ field))))
