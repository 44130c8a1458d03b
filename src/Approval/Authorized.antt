-- ===== src/Approval/Authorized.antt =====
-- What the validation of a native approval has established: the subject, and the assertions together.
use mathlib.Core.Path.{subst}
use mathlib.Core.Bool.{false≢true}
use qualityci.Text.{TextOps, normalized_identity, is_blank}
use qualityci.Workflow.Approvals.Bound.{AllNew}
use qualityci.Approval.Subject.{
  ApprovalSubject, ApprovalAssertion, Codes, AuthorizationRecordContext,
  StatelessApprovalValidation, required_role_claims, is_lower_sha, same_texts, check_keys,
  check_source, subject_texts, subject_hashes, canonical_roles, Seen, are_unique,
  validate_approval_subject, approval_subject_hash,
}
use qualityci.Approval.{index_records, check_assertions, validate_approval_assertions}
use qualityci.Prelude.{
  same_iff, String, ◌≡◌, refl, ap, ◌∙◌, inl, inr, true, not, ◌&&◌, List, [], ◌∷◌, ◌++◌, map, ◌==◌,
  nat_eq, string_eq, pair_eq, is_empty, any, all, All, Any, contains, all_iff, &&-true, not-false,
  ok, >>-eq-ok, raise_if-eq-ok, >>=-eq-ok, ok_inj,
}
use qualityci.Approval.Joined.{
  All-member, index_records-All, IsAuthorized, check_assertions-AreAuthorized,
}

module _ (text : TextOps) (codes : Codes) where
  same_texts_sound : (ss ts : List String) → same_texts ss ts ≡ true → ss ≡ ts
  same_texts_sound [] [] h = refl
  same_texts_sound [] (t ∷ ts) h = absurd (false≢true h)
  same_texts_sound (s ∷ ss) [] h = absurd (false≢true h)
  same_texts_sound (s ∷ ss) (t ∷ ts) h =
      let (here, later) = (&&-true (s == t) _).0 h in
      ap (λ u. u ∷ ss) ((same_iff s t).0 here) ∙ ap (λ us. t ∷ us) (same_texts_sound ss ts later)

  -- A valid subject has the purpose and the scope of the policy, and asks for the two roles.
  pub validate_approval_subject-IsPolicy :
      (s : ApprovalSubject)
      → validate_approval_subject text codes s ≡ ok tt
      → (s.purpose_code ≡ "APPLY_APPROVED_RESOLUTION")
        × (s.scope_code ≡ "EXACT_SUBJECT")
        × (s.required_role_claims ≡ required_role_claims)
  unfolding validate_approval_subject
  validate_approval_subject-IsPolicy s h =
      let (_, h1) = (>>-eq-ok (check_keys text codes s) _).0 h in
      let (_, h2) =
        (raise_if-eq-ok
            (any (subject_texts text codes s ++ subject_hashes text codes s) (is_blank text)) _ _).0
          h1 in
      let (_, h3) =
        (raise_if-eq-ok (not (all (subject_hashes text codes s) (is_lower_sha text codes))) _ _).0
          h2 in
      let (_, h4) = (>>-eq-ok (check_source text codes s.pre_case_source) _).0 h3 in
      let (purpose, h5) =
        (raise_if-eq-ok (not (s.purpose_code == "APPLY_APPROVED_RESOLUTION")) _ _).0 h4 in
      let (scope, h6) = (raise_if-eq-ok (not (s.scope_code == "EXACT_SUBJECT")) _ _).0 h5 in
      let (_, h7) =
        (raise_if-eq-ok (not (s.approval_policy_version == "qualityci-approval-policy-0.1")) _ _).0
          h6 in
      let (_, h8) = (raise_if-eq-ok (not (s.use_policy == "SINGLE_REPLAY")) _ _).0 h7 in
      let (_, h9) = (raise_if-eq-ok (any s.required_role_claims (is_blank text)) _ _).0 h8 in
      let (_, h10) =
        (raise_if-eq-ok
            (not (
              same_texts s.required_role_claims (canonical_roles text codes s.required_role_claims)
              && are_unique (map (normalized_identity text) s.required_role_claims)))
            _ _).0
          h9 in
      let (roles, _) =
        (raise_if-eq-ok (not (same_texts s.required_role_claims required_role_claims)) _ _).0 h10 in
      (
        (same_iff _ _).0 ((not-false _).0 purpose),
        (same_iff _ _).0 ((not-false _).0 scope),
        same_texts_sound s.required_role_claims required_role_claims ((not-false _).0 roles),
      )

  -- The assertions of a native approval: they name the hash of the subject, each is authorized, their roles and ids are all different, and
  -- both roles have one.
  pub record AreAuthorized (s : ApprovalSubject) (assertions : List ApprovalAssertion)
      (context : AuthorizationRecordContext) (subject_hash : String) : Type 0 where
    pub hashed : approval_subject_hash text codes s ≡ ok subject_hash
    pub sealed : context.is_sealed ≡ true
    pub authorized : All (IsAuthorized text codes s subject_hash context.records) assertions
    pub roles_differ : AllNew [] (map (λ a. a.role_claim) assertions)
    pub ids_differ : AllNew [] (map (λ a. normalized_identity text a.approval_id) assertions)
    pub by_owner : Any (λ a. a.role_claim ≡ "PROCESS_OWNER") assertions
    pub by_manager : Any (λ a. a.role_claim ≡ "QUALITY_MANAGER") assertions

  -- Assertions that are validated come from a sealed context and approve the subject by its hash: the
  -- hash that the validation reports is the subject's own, every assertion names it, and each
  -- has a record of the context with its id, hash, person, role and times, for the purpose and the scope
  -- of the subject, and was issued within its window. No role and no normalized approval id stands
  -- twice, and the process owner and the quality manager both approve.
  pub validate_approval_assertions-AreAuthorized :
      (s : ApprovalSubject) (assertions : List ApprovalAssertion)
      (context : AuthorizationRecordContext) (validation : StatelessApprovalValidation)
      → validate_approval_assertions text codes s assertions context ≡ ok validation
      → AreAuthorized s assertions context validation.subject_hash
  unfolding validate_approval_assertions
  validate_approval_assertions-AreAuthorized s assertions context validation h =
      let none_seen : Seen = record { approval_ids = []; roles = []; hashes = [] } in
      let (valid, h1) = (>>-eq-ok (validate_approval_subject text codes s) _).0 h in
      let (subject_hash, hashed, h2) = >>=-eq-ok (approval_subject_hash text codes s) _ h1 in
      let (_, h3) = (raise_if-eq-ok (is_empty assertions) _ _).0 h2 in
      let (sealed, h4) = (raise_if-eq-ok (not context.is_sealed) _ _).0 h3 in
      let (found, indexed, h5) = >>=-eq-ok (index_records text codes context.records []) _ h4 in
      let (seen, looped, h6) =
        >>=-eq-ok (check_assertions text codes s subject_hash found none_seen assertions) _ h5 in
      let (complete, h7) =
        (raise_if-eq-ok
            (not (
              all s.required_role_claims (contains seen.roles)
              && all seen.roles (contains s.required_role_claims)))
            _ _).0
          h6 in
      let (_, h8) = (raise_if-eq-ok (not (are_unique seen.hashes)) _ _).0 h7 in
      let stands =
        index_records-All text codes (λ r. Any (λ y. y ≡ r) context.records) context.records []
          found (All-member context.records) tt indexed in
      let (all_authorized, roles, ids, claimed) =
        check_assertions-AreAuthorized text codes s subject_hash context.records found stands
          none_seen seen assertions looped in
      let (wanted, _) = (&&-true _ _).0 ((not-false _).0 complete) in
      let both = (all_iff (contains seen.roles) required_role_claims).0 (
        subst (λ roles. all roles (contains seen.roles) ≡ true)
          (validate_approval_subject-IsPolicy s valid).2 wanted) in
      let by : (role : String)
          → contains seen.roles role ≡ true
          → Any (λ a. a.role_claim ≡ role) assertions =
        λ role k. elim (claimed role k) [ inl e ↦ absurd (false≢true e) | inr a ↦ a ] in
      subst (AreAuthorized s assertions context) (ap (λ v. v.subject_hash) (ok_inj h8)) (record {
        hashed = hashed;
        sealed = (not-false _).0 sealed;
        authorized = all_authorized;
        roles_differ = roles;
        ids_differ = ids;
        by_owner = by "PROCESS_OWNER" both.0;
        by_manager = by "QUALITY_MANAGER" both.1.0;
      })
