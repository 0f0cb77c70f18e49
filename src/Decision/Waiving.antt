-- ===== src/Decision/Waiving.antt =====
-- Waiving the answers of a decision: what WaiverDB is asked for, and when the policies are satisfied.
use greenwave.Prelude.{
  ◌+◌, ◌&&◌, some, ◌==◌, String, ◌≡◌, refl, sym, Bool, true, false, not, inl, inr, List, [], ◌∷◌,
  ◌++◌, map, arith, length, all, any, select, is_empty, All, Bool-cases, ==_iff, ==_refl, string_eq,
  option_eq, any-append,
}
use greenwave.Outcome.{ok, bind-eq-ok}
use greenwave.Answer.{
  Answer, satisfied, unsatisfied, is_satisfied, to_json, RuleNotSatisfied, subject, test_case_name,
}
use greenwave.Waiver.{Waiver, WaiverFilter, waive_answers}
use greenwave.Waiver.Laws.{covered, all_satisfied_iff_covered}
use greenwave.Policy.Services.{Services}
use greenwave.Decision.{
  Decision, same_filter, filter_for, add_filter, collect_filters, filters_to_ask, fetch_waivers,
  waive, policies_satisfied, satisfied_requirements, unsatisfied_requirements,
}

same_filter_refl : (f : WaiverFilter) → same_filter f f ≡ true
same_filter_refl f = simp ==_refl

same_filter_comm : (f g : WaiverFilter) → same_filter f g ≡ true → same_filter g f ≡ true
same_filter_comm f g h = ground (
  arith,
  ==_iff f.subject_type g.subject_type,
  ==_iff g.subject_type f.subject_type,
  ==_iff f.subject_identifier g.subject_identifier,
  ==_iff g.subject_identifier f.subject_identifier,
  ==_iff f.product_version g.product_version,
  ==_iff g.product_version f.product_version,
  ==_iff f.testcase g.testcase,
  ==_iff g.testcase f.testcase,
)

-- No filter is asked for twice.
abbrev pub DistinctFilters : List WaiverFilter → Type 0
DistinctFilters [] = Unit
DistinctFilters (f ∷ fs) = (any (same_filter f) fs ≡ false) × DistinctFilters fs

-- A filter for the subject and the test case of an answer, and the product version.
abbrev pub asks_for : String → RuleNotSatisfied → WaiverFilter → Bool
asks_for version a f =
    ((subject a).subject_type.id == f.subject_type)
    && ((subject a).item == f.subject_identifier)
    && (version == f.product_version)
    && (some (test_case_name a) == f.testcase)

-- Some filter is for the answer, if it is unsatisfied.
abbrev pub Asked : String → List WaiverFilter → Answer → Type 0
Asked version filters (satisfied a) = Unit
Asked version filters (unsatisfied a) = any (asks_for version a) filters ≡ true

DistinctFilters-concat :
    (fs : List WaiverFilter) (f : WaiverFilter)
    → any (same_filter f) fs ≡ false
    → DistinctFilters fs
    → DistinctFilters (fs ++ f ∷ [])
DistinctFilters-concat [] f new h = (refl, tt)
DistinctFilters-concat (g ∷ fs) f new h = (
  ground (arith, any-append (same_filter g) fs (f ∷ []), h.0, same_filter_comm g f),
  DistinctFilters-concat fs f (ground arith) h.1,
)

add_filter-DistinctFilters :
    (f : WaiverFilter) (fs : List WaiverFilter)
    → DistinctFilters fs
    → DistinctFilters (add_filter f fs)
add_filter-DistinctFilters f fs h = elim (Bool-cases (any (same_filter f) fs)) [
  | inl old ↦ rw old h
  | inr new ↦ rw new (DistinctFilters-concat fs f new h)
]

any-add_filter :
    (f g : WaiverFilter) (fs : List WaiverFilter)
    → any (same_filter g) fs ≡ true
    → any (same_filter g) (add_filter f fs) ≡ true
any-add_filter f g fs h = ground (arith, any-append (same_filter g) fs (f ∷ []))

any-add_filter_self :
    (f : WaiverFilter) (fs : List WaiverFilter) → any (same_filter f) (add_filter f fs) ≡ true
any-add_filter_self f fs =
    ground (arith, any-append (same_filter f) fs (f ∷ []), same_filter_refl f)

collect_filters-keeps :
    (version : String) (answers : List Answer) (fs : List WaiverFilter) (g : WaiverFilter)
    → any (same_filter g) fs ≡ true
    → any (same_filter g) (collect_filters version answers fs) ≡ true
unfolding collect_filters
collect_filters-keeps version [] fs g h = h
collect_filters-keeps version (satisfied a ∷ rest) fs g h =
    collect_filters-keeps version rest fs g h
collect_filters-keeps version (unsatisfied a ∷ rest) fs g h =
    collect_filters-keeps version rest (add_filter (filter_for version a) fs) g
      (any-add_filter (filter_for version a) g fs h)

collect_filters-DistinctFilters :
    (version : String) (answers : List Answer) (fs : List WaiverFilter)
    → DistinctFilters fs
    → DistinctFilters (collect_filters version answers fs)
unfolding collect_filters
collect_filters-DistinctFilters version [] fs h = h
collect_filters-DistinctFilters version (satisfied a ∷ rest) fs h =
    collect_filters-DistinctFilters version rest fs h
collect_filters-DistinctFilters version (unsatisfied a ∷ rest) fs h =
    collect_filters-DistinctFilters version rest (add_filter (filter_for version a) fs)
      (add_filter-DistinctFilters (filter_for version a) fs h)

collect_filters-Asked :
    (version : String) (answers : List Answer) (fs : List WaiverFilter)
    → All (Asked version (collect_filters version answers fs)) answers
unfolding collect_filters
collect_filters-Asked version [] fs = tt
collect_filters-Asked version (satisfied a ∷ rest) fs = (tt, collect_filters-Asked version rest fs)
collect_filters-Asked version (unsatisfied a ∷ rest) fs =
    let more = add_filter (filter_for version a) fs in
    (
      collect_filters-keeps version rest more (filter_for version a)
          (any-add_filter_self (filter_for version a) fs),
      collect_filters-Asked version rest more,
    )

-- Where verbose output is not requested, the filters for WaiverDB name every unsatisfied answer, and
-- none of them is there twice if none was before.
pub collect_filters_complete :
    (version : String) (answers : List Answer) (fs : List WaiverFilter)
    → DistinctFilters fs
    → All (Asked version (collect_filters version answers fs)) answers
      × DistinctFilters (collect_filters version answers fs)
collect_filters_complete version answers fs h =
    (collect_filters-Asked version answers fs, collect_filters-DistinctFilters version answers fs h)

abbrev pub waived : Decision → List Waiver → Decision
waived d waivers = record d {
  waiver_filters = filters_to_ask d;
  waivers = waivers;
  answers = waive_answers d.answers waivers;
}

-- When waiving succeeds, the policies are satisfied exactly if each of the earlier answers is
-- satisfied or matched by one of the waivers that the decision keeps.
pub policies_satisfied-waive :
    (services : Services) (d d' : Decision)
    → waive services d ≡ ok d'
    → policies_satisfied d' ≡ all (covered d'.waivers) d.answers
unfolding waive policies_satisfied
policies_satisfied-waive services d d' h =
    let (waivers, fetched, e) =
      bind-eq-ok (fetch_waivers services (filters_to_ask d)) (λ waivers. ok (waived d waivers)) h in
    let same : waived d waivers ≡ d' = ground arith in
    rw (← same) (all_satisfied_iff_covered d.answers waivers)

map-empty :
    (p : Answer → Bool) (answers : List Answer)
    → is_empty (map to_json (select (λ a. not (p a)) answers)) ≡ all p answers
map-empty p [] = refl
map-empty p (a ∷ rest) = ground (arith, map-empty p rest)

-- The policies are satisfied exactly when no unsatisfied requirement is reported.
pub policies_satisfied_iff :
    (d : Decision) → policies_satisfied d ≡ is_empty (unsatisfied_requirements d)
unfolding policies_satisfied unsatisfied_requirements
policies_satisfied_iff d = sym (map-empty is_satisfied d.answers)

requirements_split :
    (answers : List Answer)
    → length (map to_json (select is_satisfied answers))
        + length (map to_json (select (λ a. not (is_satisfied a)) answers))
      ≡ length answers
requirements_split [] = refl
requirements_split (a ∷ rest) = ground (arith, requirements_split rest)

-- Every answer is reported once: among the satisfied or among the unsatisfied requirements.
pub requirements_partition :
    (d : Decision)
    → length (satisfied_requirements d) + length (unsatisfied_requirements d) ≡ length d.answers
unfolding satisfied_requirements unsatisfied_requirements
requirements_partition d = requirements_split d.answers
