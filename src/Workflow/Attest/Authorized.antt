-- ===== src/Workflow/Attest/Authorized.antt =====
-- What an attested resolution says of the approvals that it comes with.
use mathlib.Core.Path.{subst}
use qualityci.Text.{TextOps}
use qualityci.Case.{Case}
use qualityci.Prelude.Sorting.{sorted_set}
use qualityci.Rules.HighRiskApproval.{is_risk_level}
use qualityci.Rules.RevisionDates.{has_required_roles}
use qualityci.Engine.{Hashes}
use qualityci.Loader.Validate.{validate_case}
use qualityci.Workflow.Approvals.{
  GateError, artifact_gate, uncaught, Approval, Binding, role_of, validate_resolution_approvals,
}
use qualityci.Workflow.Approvals.Bound.{IsBound, AllNew, validate_resolution_approvals_iff}
use qualityci.Workflow.Operations.{
  Operation, validate_resolution_operations, validate_resolution_operation_paths,
}
use qualityci.Workflow.Attest.{
  Resolution, Subject, Services, ArtifactContext, Attested, GivenContext, require_text,
  artifact_context, checked_context, resolve_error, subject_from_context, approved,
  attest_approved_resolution,
}
use qualityci.Prelude.{
  String, ◌≡◌, refl, sym, ap, ◌∙◌, ◌≢◌, ◌↔◌, ◌⊎◌, inl, inr, Bool, true, false, not, ◌&&◌, ◌||◌,
  Option, none, some, List, [], map, arith, eq_iff, ◌==◌, nat_eq, string_eq, pair_eq, Bool-cases,
  is_some_eq, is_some_eq_iff, is_empty, All, Any, contains, iff_trans, not-false, contains-map_iff,
  Any-iff, Result, ok, err, >>-eq-ok, raise_if-eq-ok, >>=-eq-ok, on_error, on_error-eq-ok, ok_inj,
}

-- Some approval has the role.
abbrev pub SignedBy : List Approval → String → Type 0
SignedBy approvals role = Any (λ item. role_of item ≡ role) approvals

-- The risk of the event is LOW or MEDIUM, or it is HIGH and both roles have approved.
abbrev pub EnoughRoles : Option String → List Approval → Type 0
EnoughRoles risk_level approvals =
    ((risk_level ≡ some "LOW") ⊎ (risk_level ≡ some "MEDIUM"))
    ⊎ ((risk_level ≡ some "HIGH")
        × SignedBy approvals "QUALITY_MANAGER"
        × SignedBy approvals "PROCESS_OWNER")

-- The approvals behind a set of roles: each is bound to the subject and its hash, with one approval
-- for a role.
pub record AreBound (binding : Binding) (patch_hash : String) (approvals : List Approval)
    (roles : List String) : Type 0 where
  pub some_there : is_empty approvals ≡ false
  pub one_per_role : AllNew [] (map role_of approvals)
  pub all_bound : All (IsBound binding patch_hash) approvals
  pub roles_of_all : roles ≡ sorted_set (map role_of approvals)

signed_iff :
    (approvals : List Approval) (role : String)
    → (contains (map role_of approvals) role ≡ true) ↔ SignedBy approvals role
signed_iff approvals role =
    iff_trans (contains-map_iff role_of approvals role)
      (Any-iff (λ item. eq_iff (role_of item) role) approvals)

enough_of :
    (risk_level : Option String) (approvals : List Approval)
    → is_risk_level risk_level ≡ true
    → (is_some_eq risk_level "HIGH" && not (has_required_roles (map role_of approvals))) ≡ false
    → EnoughRoles risk_level approvals
enough_of none approvals h k = cc
enough_of (some level) approvals h k =
    let manager = signed_iff approvals "QUALITY_MANAGER" in
    let owner = signed_iff approvals "PROCESS_OWNER" in
    let low = eq_iff level "LOW" in
    let medium = eq_iff level "MEDIUM" in
    let high = eq_iff level "HIGH" in
    elim (Bool-cases (level == "HIGH")) [
      | inl e ↦
          let both = high_roles (level == "HIGH") _ _ e k in
          inr (ap some (high.0 e), manager.0 both.0, owner.0 both.1)
      | inr e ↦ elim (low_level (level == "LOW") (level == "MEDIUM") (level == "HIGH") h e) [
        | inl l ↦ inl (inl (ap some (low.0 l)))
        | inr m ↦ inl (inr (ap some (medium.0 m)))
      ]
    ]
  where
    high_roles : (h m o : Bool) → h ≡ true → (h && not (m && o)) ≡ false → (m ≡ true) × (o ≡ true)
    high_roles h m o e k = ground arith

    low_level : (l m h : Bool) → (l || m || h) ≡ true → h ≡ false → (l ≡ true) ⊎ (m ≡ true)
    low_level l m h e k = ground arith

module _ (text : TextOps) (hashes : Hashes) (services : Services) where
  -- What the subject of an attested resolution is about.
  pub record IsAbout (case : Case) (resolution : Resolution) (attested : Attested) : Type 0 where
    pub of_event : attested.subject.binding.event_id ≡ case.event.event_id
    pub of_revision : attested.subject.binding.event_revision ≡ case.event.revision
    pub of_snapshot : attested.subject.binding.approved_case_hash ≡ hashes.canonical_hash case
    pub of_resolution : attested.subject.resolution_id ≡ resolution.resolution_id
    pub hashed : attested.patch_hash ≡ services.subject_hash attested.subject
    pub in_context : attested.subject.context ≡ attested.context
    pub in_set : resolution.replacement_set_id ≡ some attested.context.replacement_set_id
    pub resolution_id : String
    pub named : resolution.resolution_id ≡ some resolution_id
    pub listed : resolution.operations ≡ some attested.subject.operations
    pub rebuilt :
        services.resolve_case case resolution_id attested.subject.operations attested.context
        ≡ ok attested.resolved_case
    pub of_policy :
        attested.subject.validation_policy ≡ services.validation_policy case attested.resolved_case

  approved-AreBound :
      (risk_level : Option String) (given_approvals : Option (List Approval)) (subject : Subject)
      (roles : List String)
      → is_risk_level risk_level ≡ true
      → approved text hashes services risk_level given_approvals subject ≡ ok roles
      → (approvals : List Approval) × (given_approvals ≡ some approvals)
        × AreBound subject.binding (services.subject_hash subject) approvals roles
        × EnoughRoles risk_level approvals
  unfolding approved validate_resolution_approvals
  approved-AreBound risk_level none subject roles known h = absurd (raised h)
    where
      raised : {e : GateError} → ◌≢◌ {A = Result GateError (List String)} (err e) (ok roles)
      raised h = cc
  approved-AreBound risk_level (some approvals) subject roles known h =
      let binding = subject.binding in
      let patch_hash = services.subject_hash subject in
      let (found, validated, h1) =
        >>=-eq-ok (validate_resolution_approvals binding patch_hash (some approvals)) _ h in
      let (there, h2) = (raise_if-eq-ok (is_empty found) _ _).0 h1 in
      let (enough, h3) =
        (raise_if-eq-ok (is_some_eq risk_level "HIGH" && not (has_required_roles found)) _ _).0
          h2 in
      let (nonempty, new, bound, same) =
        (validate_resolution_approvals_iff binding patch_hash approvals found).0 validated in
      (
        approvals,
        refl,
        record {
          some_there = nonempty;
          one_per_role = new;
          all_bound = bound;
          roles_of_all = sym (ok_inj h3) ∙ ap sorted_set (sym same);
        },
        enough_of risk_level approvals known
            (ap (λ rs. is_some_eq risk_level "HIGH" && not (has_required_roles rs)) same ∙ enough),
      )

  require_text-eq-ok :
      (o : Option String) (message : String) {value : String}
      → require_text text o message ≡ ok value
      → o ≡ some value
  require_text-eq-ok none message h = cc
  require_text-eq-ok (some found) message h = ap some (ok_inj ((>>-eq-ok _ _).0 h).1)

  operations_listed :
      (o : Option (List Operation)) {operations : List Operation}
      → validate_resolution_operations text o ≡ ok operations
      → o ≡ some operations
  unfolding validate_resolution_operations
  operations_listed none h = cc
  operations_listed (some found) h =
      let (_, h1) = (raise_if-eq-ok (is_empty found) _ _).0 h in
      let (_, same) = (>>-eq-ok _ _).0 h1 in ap some (ok_inj same)

  set_of :
      (case : Case) (resolution : Resolution) (operations : List Operation)
      (given_context : GivenContext) (context : ArtifactContext)
      → on_error artifact_gate
          (checked_context text hashes services case resolution operations given_context)
        ≡ ok context
      → resolution.replacement_set_id ≡ some context.replacement_set_id
  unfolding checked_context
  set_of case resolution operations given_context context h =
      let h0 =
        on_error-eq-ok artifact_gate
          (checked_context text hashes services case resolution operations given_context) h in
      let (touched, _, h1) = >>=-eq-ok (validate_resolution_operation_paths text operations) _ h0 in
      let (found, _, h2) =
        >>=-eq-ok (artifact_context text hashes services case operations given_context) _ h1 in
      let (same, h3) =
        (raise_if-eq-ok (not (is_some_eq resolution.replacement_set_id found.replacement_set_id)) _
            _).0
          h2 in
      subst (λ (c : ArtifactContext). resolution.replacement_set_id ≡ some c.replacement_set_id)
        (ok_inj h3) ((is_some_eq_iff _ _).0 ((not-false _).0 same))

  -- If a resolution is attested, then it comes with approvals, no two of the same role, each of which
  -- repeats the case and the event of the attested subject and the hash of that subject; the roles
  -- recorded are theirs; the event has risk LOW or MEDIUM, or risk HIGH and approvals of both roles;
  -- the subject is about the event, the exact case and the context that was attested, and carries the
  -- operations of the resolution; and the resolved case is the one that these operations give.
  pub attest_approved_resolution-AreBound :
      (case : Case) (resolution : Resolution) (given_context : GivenContext) (attested : Attested)
      → attest_approved_resolution text hashes services case resolution given_context ≡ ok attested
      → (approvals : List Approval) × (resolution.approvals ≡ some approvals)
        × AreBound attested.subject.binding attested.patch_hash approvals attested.roles
        × EnoughRoles case.event.risk_level approvals
        × IsAbout case resolution attested
  unfolding attest_approved_resolution
  attest_approved_resolution-AreBound case resolution given_context attested h =
      let (valid, h1) = (>>-eq-ok (on_error uncaught (validate_case text case)) _).0 h in
      let (before, prepared, h2) =
        >>=-eq-ok (on_error uncaught services.prepare_reference_context) _ h1 in
      let (known, h3) = (raise_if-eq-ok (not (is_risk_level case.event.risk_level)) _ _).0 h2 in
      let (name, named, h4) =
        >>=-eq-ok (require_text text resolution.resolution_id "resolution_id is missing") _ h3 in
      let (words, described, h5) =
        >>=-eq-ok
          (require_text text resolution.description "description must be a non-empty string") _
          h4 in
      let (operations, listed, h6) =
        >>=-eq-ok (validate_resolution_operations text resolution.operations) _ h5 in
      let (context, checked, h7) =
        >>=-eq-ok
          (on_error artifact_gate
            (checked_context text hashes services case resolution operations given_context))
          _ h6 in
      let (resolved, rebuilt, h8) =
        >>=-eq-ok (on_error resolve_error (services.resolve_case case name operations context)) _
          h7 in
      let subject =
        subject_from_context text hashes services resolution case resolved operations context in
      let (roles, signed, h9) =
        >>=-eq-ok (approved text hashes services case.event.risk_level resolution.approvals subject)
          _ h8 in
      let (approvals, given_them, bound, enough) =
        approved-AreBound case.event.risk_level resolution.approvals subject roles
          ((not-false _).0 known) signed in
      subst
        (λ (a : Attested).
          (approvals : List Approval) × (resolution.approvals ≡ some approvals)
          × AreBound a.subject.binding a.patch_hash approvals a.roles
          × EnoughRoles case.event.risk_level approvals
          × IsAbout case resolution a)
        (ok_inj h9)
        (
          approvals,
          given_them,
          bound,
          enough,
          record {
            of_event = refl;
            of_revision = refl;
            of_snapshot = refl;
            of_resolution = refl;
            hashed = refl;
            in_context = refl;
            in_set = set_of case resolution operations given_context context checked;
            resolution_id = name;
            named = require_text-eq-ok resolution.resolution_id _ named;
            listed = operations_listed resolution.operations listed;
            rebuilt =
                on_error-eq-ok resolve_error (services.resolve_case case name operations context)
                  rebuilt;
            of_policy = refl;
          },
        )
