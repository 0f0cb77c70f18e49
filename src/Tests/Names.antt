-- ===== src/Tests/Names.antt =====
-- Identifiers and patterns.
use greenwave.Prelude.{◌≡◌, refl, ◌↔◌, true, false, [], ◌∷◌}
use greenwave.Fnmatch.{fnmatch}
use greenwave.Tests.Samples.{local_policy}
use greenwave.Policy.{Policy, matches_product_version}
use greenwave.Policy.Versions.{IsMeant, matches_product_version_iff}

fnmatch_runs :
    (fnmatch "fedora-32" "fedora-*" ≡ true)
    × (fnmatch "fedora-32" "fedora-3[!0-1]" ≡ true)
    × (fnmatch "fedora-31" "fedora-3[!0-1]" ≡ false)
    × (fnmatch "a[b" "a[b" ≡ true)
    × (fnmatch "rhel-8" "rhel-?" ≡ true)
    × (fnmatch "a]" "a[]x]" ≡ true)
unfolding fnmatch
fnmatch_runs = (refl, refl, refl, refl, refl, refl)

abbrev for_rhel : Policy
for_rhel = record local_policy { product_versions = "fedora-*" ∷ "rhel-?" ∷ [] }

matches_product_version_iff_example :
    (matches_product_version for_rhel "rhel-8" ≡ true) ↔ IsMeant "rhel-8" for_rhel.product_versions
matches_product_version_iff_example =
    matches_product_version_iff for_rhel "rhel-8" (refl, (refl, tt))
