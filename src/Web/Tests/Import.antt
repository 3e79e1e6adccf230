-- ===== src/Web/Tests/Import.antt =====
-- A .env file that names one key twice, imported into a folder.
use grafted_keys.Prelude.{◌≡◌, refl, false, ◌++◌, [], ◌∷◌, Text, codes, text_dec, take}
use grafted_keys.Crypto.{base32}
use grafted_keys.Vault.Secrets
use grafted_keys.Vault.Secrets.{SecretMeta}
use grafted_keys.Web.Server.{Request}
use grafted_keys.Web.EnvFile.{parse_env, unquote_env}
use grafted_keys.Web.EnvFile.Quoting.{HasNoBackslash, quote, unquote_env-quote}
use grafted_keys.Web.Tests.{library, mine, server, posted}

abbrev upload : Request
upload = posted mine ((codes "folder_id", codes "f1") ∷ [])

abbrev file : Text
file = codes "export A='1'" ++ 10 ∷ codes "A=2"

abbrev added : SecretMeta
added = record {
  id = base32 (take 16 server.entropy);
  folder_id = codes "f1";
  environment_id = [];
  name = codes "A";
  has_notes = false;
  updated_at = 0;
}

parsed :
    parse_env library.trim_space file
    ≡ record { key = codes "A"; value = codes "1" }
      ∷ record { key = codes "A"; value = codes "2" }
      ∷ []
unfolding parse_env text_dec
parsed = refl

abbrev two_lines : Text
two_lines = codes "say \"a\"" ++ 10 ∷ codes "b"

unquote_env-quote_example : unquote_env (quote two_lines) ≡ two_lines
unfolding HasNoBackslash
unquote_env-quote_example =
    unquote_env-quote two_lines
      (refl, (refl, (refl, (refl, (refl, (refl, (refl, (refl, (refl, tt)))))))))
