-- ===== src/Computation/Oversight/Effectiveness.antt =====
-- What the report of services/computation/oversight.py says of an action.
use evidence_control_plane.Prelude.{
  ltb, leb, Bool-cases, ok, raise_if, block_returned, ◌==◌, ==→eq, ==-refl, string_eq, nat_eq,
  String, ◌≡◌, refl, sym, ap, ◌∙◌, inl, inr, Bool, true, false, not, ◌&&◌, ◌||◌, Option, none, some,
  List, [], ◌∷◌, arith,
}
use evidence_control_plane.Prelude.Lists.{any, all, keep, is_empty}
use evidence_control_plane.Prelude.Sets.{
  contains, to_set, is_distinct, contains-to_set, contains-append, add_to_set,
}
use evidence_control_plane.Prelude.Sort.{sort_by, any-sort_by}
use evidence_control_plane.Computation.Oversight.{
  OversightReport, required_empty, required_repeated, window_not_ordered, Scope, reason_of,
  is_effective, evaluate_review, in_scope, in_window, OversightProgress, record_review, review_step,
  review_all, str_le, report_of, no_progress, evaluate_oversight,
}
use evidence_control_plane.Evidence.Schema.{ActionState, committed, irreversible, HumanReview}

-- The review could still change the outcome: the action was neither committed nor irreversible.
abbrev pub could_intervene : ActionState → Bool
could_intervene committed = false
could_intervene irreversible = false
could_intervene state = true

-- The evidence was shown by the client, or nothing says otherwise.
abbrev pub shown_to_reviewer : Option String → Bool
shown_to_reviewer none = true
shown_to_reviewer (some p) = p == "client_rendered"

-- The review is of the tenant and the boundary of the scope and of an action that it requires, and
-- was decided in its window.
abbrev pub counts : Scope → HumanReview → Bool
counts scope review =
    review.tenant_id == scope.tenant_id
    && review.boundary_ref == scope.boundary_ref
    && contains review.action_id scope.required_action_ids
    && leb scope.window_start review.decided_at
    && ltb review.decided_at scope.window_end

abbrev pub reviews_action : Scope → String → HumanReview → Bool
reviews_action scope a review = counts scope review && review.action_id == a

abbrev pub oversees_action : Scope → String → HumanReview → Bool
oversees_action scope a review =
    reviews_action scope a review
    && could_intervene review.action_state_at_review
    && shown_to_reviewer review.provenance

pub is_effective-reason_of :
    (state : ActionState) (provenance : Option String)
    → is_effective (reason_of state provenance)
      ≡ (could_intervene state && shown_to_reviewer provenance)
is_effective-reason_of state none = ground arith
is_effective-reason_of state (some p) = elim (Bool-cases (p == "server_reconstructed")) [
  | inl server ↦ rw (==→eq p _ server) (ground arith)
  | inr other ↦ ground arith
]

pub contains-add_to_set :
    (a b : String) (xs : List String) → contains b (add_to_set a xs) ≡ (contains b xs || a == b)
contains-add_to_set a b xs = elim (Bool-cases (contains a xs)) [
  | inl old ↦ elim (Bool-cases (a == b)) [
    | inl same ↦ rw (old, same) (ground (arith, ==→eq a b same))
    | inr other ↦ rw (old, other) (ground arith)
  ]
  | inr new ↦ rw new (ground (arith, contains-append b xs (a ∷ [])))
]

pub contains-any : (a : String) (xs : List String) → contains a xs ≡ any (λ x. x == a) xs
contains-any a [] = refl
contains-any a (x ∷ xs) = ap (λ rest. x == a || rest) (contains-any a xs)

pub contains-sort_by :
    (a : String) (xs : List String) → contains a (sort_by str_le xs) ≡ contains a xs
contains-sort_by a xs =
    contains-any a (sort_by str_le xs)
    ∙ any-sort_by str_le (λ x. x == a) xs
    ∙ sym (contains-any a xs)

pub contains-keep :
    (p : String → Bool) (a : String) (xs : List String)
    → contains a (keep p xs) ≡ (contains a xs && p a)
contains-keep p a [] = refl
contains-keep p a (x ∷ xs) = elim (Bool-cases (x == a)) [
  | inl same ↦ rw (==→eq x a same) (ground (arith, contains-keep p a xs, ==-refl a))
  | inr other ↦ ground (arith, contains-keep p a xs)
]

counts_lem :
    (scope : Scope) (review : HumanReview)
    → counts scope review ≡ (in_scope scope review && in_window scope review)
counts_lem scope review = ground (arith, contains-to_set review.action_id scope.required_action_ids)

-- One review that is taken adds its action to those reviewed and overseen, where it counts.
pub review_step_lem :
    (scope : Scope) (progress next : OversightProgress) (review : HumanReview) (a : String)
    → review_step scope progress review ≡ ok next
    → (contains a next.reviewed ≡ (contains a progress.reviewed || reviews_action scope a review))
      × (contains a next.effective
          ≡ (contains a progress.effective || oversees_action scope a review))
unfolding review_step evaluate_review record_review
review_step_lem scope progress next review a h = ground (
  arith,
  h,
  counts_lem scope review,
  contains-add_to_set review.action_id a progress.reviewed,
  contains-add_to_set review.action_id a progress.effective,
  is_effective-reason_of review.action_state_at_review review.provenance,
)

pub review_all_lem :
    (scope : Scope) (progress last : OversightProgress) (reviews : List HumanReview) (a : String)
    → review_all scope progress reviews ≡ ok last
    → (contains a last.reviewed
        ≡ (contains a progress.reviewed || any (reviews_action scope a) reviews))
      × (contains a last.effective
          ≡ (contains a progress.effective || any (oversees_action scope a) reviews))
unfolding review_all
review_all_lem scope progress last [] a h = ground arith
review_all_lem scope progress last (review ∷ reviews) a h =
    let (next, step, rest) = block_returned (review_step scope progress review) _ h in
    ground (
      arith,
      review_step_lem scope progress next review a step,
      review_all_lem scope next last reviews a rest,
    )

-- What a report says of each action, against the reviews that it was made from.
pub record IsFaithful (scope : Scope) (reviews : List HumanReview) (report : OversightReport)
    : Type 0 where
  pub required :
      (a : String) → contains a report.required_action_ids ≡ contains a scope.required_action_ids
  pub reviewed :
      (a : String) → contains a report.reviewed_action_ids ≡ any (reviews_action scope a) reviews
  pub effective :
      (a : String) → contains a report.effective_action_ids ≡ any (oversees_action scope a) reviews
  pub missing :
      (a : String)
      → contains a report.missing_action_ids
        ≡ (contains a scope.required_action_ids && not (any (reviews_action scope a) reviews))

pub report_of-IsFaithful :
    (scope : Scope) (reviews : List HumanReview) (last : OversightProgress)
    → review_all scope no_progress reviews ≡ ok last
    → IsFaithful scope reviews (report_of scope last)
unfolding report_of
report_of-IsFaithful scope reviews last h = record {
  required = λ a. contains-sort_by a _ ∙ contains-to_set a scope.required_action_ids;
  reviewed = λ a. contains-sort_by a _ ∙ (review_all_lem scope no_progress last reviews a h).0;
  effective = λ a. contains-sort_by a _ ∙ (review_all_lem scope no_progress last reviews a h).1;
  missing = λ a.
      contains-sort_by a _
      ∙ contains-keep _ a (to_set scope.required_action_ids)
      ∙ ground (
        arith,
        contains-to_set a scope.required_action_ids,
        review_all_lem scope no_progress last reviews a h,
      );
}

pub evaluate_oversight_parts :
    (scope : Scope) (reviews : List HumanReview) (report : OversightReport)
    → evaluate_oversight scope reviews ≡ ok report
    → (last : OversightProgress) × (review_all scope no_progress reviews ≡ ok last)
      × (report_of scope last ≡ report)
unfolding evaluate_oversight
evaluate_oversight_parts scope reviews report h =
    let required = scope.required_action_ids in
    let (_, _, distinct) =
      block_returned (raise_if (is_empty required || any (λ a. a == "") required) required_empty) _
        h in
    let (_, _, ordered) =
      block_returned (raise_if (not (is_distinct required)) required_repeated) _ distinct in
    let (_, _, looped) =
      block_returned (raise_if (leb scope.window_end scope.window_start) window_not_ordered) _
        ordered in
    let (last, all, made) =
      block_returned (review_all scope no_progress reviews) (λ p. ok (report_of scope p)) looped in
    (last, all, cc)

-- Where evaluate_oversight returns a report, an action is reviewed in it exactly when the scope
-- requires it and some review of the tenant and the boundary of the scope, decided in the window,
-- is of that action; it is effective exactly when some such review took place before commitment
-- and irreversibility, on evidence whose provenance is the client's or not marked; it is missing
-- exactly when it is required and not reviewed.
pub evaluate_oversight-IsFaithful :
    (scope : Scope) (reviews : List HumanReview) (report : OversightReport)
    → evaluate_oversight scope reviews ≡ ok report
    → IsFaithful scope reviews report
evaluate_oversight-IsFaithful scope reviews report h =
    let (last, all, made) = evaluate_oversight_parts scope reviews report h in
    rw (← made) (report_of-IsFaithful scope reviews last all)
