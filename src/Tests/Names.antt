-- ===== src/Tests/Names.antt =====
-- Witnesses for phonetic keys.
use hawiya_ai.Text.{text}
use hawiya_ai.Matching.Phonetic.{phonetic_key}
use hawiya_ai.Matching.Phonetic.Keys.{IsKey, phonetic_key-IsKey}
use hawiya_ai.Tests.Sample.{ascii}

phonetic_key-IsKey_example : IsKey (phonetic_key ascii (text "ERIKSSON"))
phonetic_key-IsKey_example = phonetic_key-IsKey ascii (text "ERIKSSON")
