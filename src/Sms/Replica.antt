-- ===== src/Sms/Replica.antt =====
-- The queue handed to the HA peer and taken from it (src/sms_center.rs, `export` and `import`). The
-- JSON library is a parameter: what it writes, and what it reads, each an option where it may fail.
-- The version in the file is never read.
use brew_server.Common.{ℕ, Bool, true, false, Option, none, some, List, []}
use brew_server.Sms.{SmsCenter, SmsFile, persist}

unfoldable pub export_queue : (SmsFile → Option (List ℕ)) → SmsCenter → List ℕ
export_queue to_json center =
    elim (to_json
      (record { version = 1; known_issis = center.known_issis; messages = center.messages })) [
        | none ↦ []
        | some json ↦ json
      ]

-- Whether the import succeeded, too.
unfoldable pub import_queue : (List ℕ → Option SmsFile) → SmsCenter → List ℕ → SmsCenter × Bool
import_queue of_json center json = elim (of_json json) [
  | none ↦ (center, false)
  | some file ↦
      (persist (record center { known_issis = file.known_issis; messages = file.messages }), true)
]
