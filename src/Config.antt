-- ===== src/Config.antt =====
-- py-processor/config.py: the settings that the modelled code reads, with their defaults.

use webspider.Prelude.{ℕ, List, [], ◌∷◌, Text, codes}

pub record Config : Type 0 where
  pub stream : Text
  pub dlq_stream : Text
  pub dlq_seen_key : Text
  pub dlq_maxlen : ℕ
  pub batch_size : ℕ
  pub lang_keep : List Text
  pub simhash_bits : ℕ
  pub simhash_hamming : ℕ
  pub simhash_bands : ℕ
  pub neardup_ttl : ℕ

abbrev pub defaults : Config
defaults = record {
  stream = codes "articles";
  dlq_stream = codes "articles_dlq";
  dlq_seen_key = codes "dlq:seen";
  dlq_maxlen = 20000;
  batch_size = 100;
  lang_keep = codes "en" ∷ [];
  simhash_bits = 64;
  simhash_hamming = 3;
  simhash_bands = 4;
  neardup_ttl = 0;
}
