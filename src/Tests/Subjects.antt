-- ===== src/Tests/Subjects.antt =====
-- Subjects from request data.
use greenwave.Prelude.{String, ◌≡◌, refl, [], ◌∷◌, some}
use greenwave.Subject.{SubjectType}
use greenwave.Subject.Factory.{create_subject_from_data}
use greenwave.Tests.Samples.{koji_build}

abbrev nvr : String
nvr = "python-ansi2html-1.1.1-114.el8"

-- A type that the data name no item of.
abbrev compose : SubjectType
compose = record koji_build { id = "compose"; aliases = []; item_key = some "productmd.compose.id" }

unnamed_type_skipped :
    create_subject_from_data (compose ∷ koji_build ∷ []) (("original_spec_nvr", nvr) ∷ [])
    ≡ some (record { subject_type = koji_build; item = nvr })
unfolding create_subject_from_data
unnamed_type_skipped = refl
