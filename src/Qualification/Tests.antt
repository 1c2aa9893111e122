-- ===== src/Qualification/Tests.antt =====
-- qualification.go on concrete texts.
use leadflow_v3_server.Base.{true, ◌≡◌, ◌⊎◌, trim_space}
use leadflow_v3_server.Qualification.{
  normalize_qualification, is_listed, code_of_key, allowed_qualifications,
}
use leadflow_v3_server.Qualification.Canonical.{normalize-by_key, by_key}
use leadflow_v3_server.Qualification.Idempotent.{normalize_qualification_idem}

normalize-by_key_example : normalize_qualification " qualified - chat" ≡ by_key "qualified - chat"
unfolding trim_space code_of_key is_listed
normalize-by_key_example = normalize-by_key " qualified - chat"

normalize_qualification_idem_example :
    (normalize_qualification (normalize_qualification "Not Qualified")
      ≡ normalize_qualification "Not Qualified")
    × ((normalize_qualification "Not Qualified" ≡ trim_space "Not Qualified")
        ⊎ (is_listed (normalize_qualification "Not Qualified") allowed_qualifications ≡ true))
normalize_qualification_idem_example = normalize_qualification_idem "Not Qualified"
