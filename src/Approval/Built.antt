-- ===== src/Approval/Built.antt =====
-- The assertion that `build_approval_assertion` gives is one that the validation accepts as authorized.
use mathlib.Core.Path.{subst}
use qualityci.Text.{TextOps, is_blank}
use qualityci.Approval.Subject.{
  ApprovalSubject, ApprovalAssertion, Codes, AuthorizationRecordClaim, AuthorizationRecordContext,
  is_lower_sha, validate_approval_subject, approval_subject_hash,
}
use qualityci.Approval.{
  time_or_error, validate_approval_assertion_shape, only_record, authorization_record_binding,
  assertion_of, build_approval_assertion,
}
use qualityci.Approval.Joined.{IsJoined, IsAuthorized, validate_approval_assertion_shape-IsTimed}
use qualityci.Approval.Authorized.{validate_approval_subject-IsPolicy}
use qualityci.Prelude.{
  same_iff, String, ◌≡◌, refl, sym, ◌∙◌, inl, inr, Bool, true, not, ◌&&◌, ◌||◌, List, [], ◌∷◌, ltb,
  ◌==◌, nat_eq, string_eq, pair_eq, Bool-cases, keep, Any, &&-true, not-false, Any-map, ok,
  >>-eq-ok, raise_if-eq-ok, >>=-eq-ok, ok_inj,
}

Any-kept :
    {A : Type 0} (p : A → Bool) (xs : List A) (x : A)
    → Any (λ y. y ≡ x) (keep p xs)
    → Any (λ y. y ≡ x) xs
Any-kept p [] x h = h
Any-kept p (y ∷ ys) x h = elim (Bool-cases (p y)) [
  | inl e ↦ elim (rw e at h) [ inl same ↦ inl same | inr later ↦ inr (Any-kept p ys x later) ]
  | inr e ↦ inr (Any-kept p ys x (rw e at h))
]

module _ (text : TextOps) (codes : Codes) where
  only_record-eq-ok :
      (records : List AuthorizationRecordClaim) {r : AuthorizationRecordClaim}
      → only_record text codes records ≡ ok r
      → Any (λ y. y ≡ r) records
  only_record-eq-ok [] h = cc
  only_record-eq-ok (r ∷ []) h = inl (ok_inj h)
  only_record-eq-ok (r ∷ q ∷ records) h = cc

  -- The context is sealed, and the record that is found is one of it, for the purpose and the scope of the policy.
  authorization_record_binding-IsFound :
      (context : AuthorizationRecordContext) (record_id content_hash : String)
      (r : AuthorizationRecordClaim)
      → authorization_record_binding text codes context record_id content_hash ≡ ok r
      → (context.is_sealed ≡ true)
        × Any (λ y. y ≡ r) context.records
        × (r.purpose_code ≡ "APPLY_APPROVED_RESOLUTION")
        × (r.scope_code ≡ "EXACT_SUBJECT")
  unfolding authorization_record_binding
  authorization_record_binding-IsFound context record_id content_hash r h =
      let (sealed, h1) = (raise_if-eq-ok (not context.is_sealed) _ _).0 h in
      let (_, h2) =
        (raise_if-eq-ok (is_blank text record_id || not (is_lower_sha text codes content_hash)) _
            _).0
          h1 in
      let test : AuthorizationRecordClaim → Bool =
        λ q. q.record_id == record_id && q.content_hash == content_hash in
      let (q, only, h3) = >>=-eq-ok (only_record text codes (keep test context.records)) _ h2 in
      let (policy, h4) =
        (raise_if-eq-ok
            (not (q.purpose_code == "APPLY_APPROVED_RESOLUTION" && q.scope_code == "EXACT_SUBJECT"))
            _ _).0
          h3 in
      let (x, _, h5) =
        >>=-eq-ok (time_or_error text codes (codes.parse_rfc3339_utc q.effective_from)) _ h4 in
      let (y, _, h6) =
        >>=-eq-ok (time_or_error text codes (codes.parse_rfc3339_utc q.expires_at)) _ h5 in
      let (_, h7) = (raise_if-eq-ok (ltb y x) _ _).0 h6 in
      let (purpose, scope) = (&&-true _ _).0 ((not-false _).0 policy) in
      subst
        (λ z.
          (context.is_sealed ≡ true)
          × Any (λ y. y ≡ z) context.records
          × (z.purpose_code ≡ "APPLY_APPROVED_RESOLUTION")
          × (z.scope_code ≡ "EXACT_SUBJECT"))
        (ok_inj h7)
        (
          (not-false _).0 sealed,
          Any-kept test context.records q (only_record-eq-ok _ only),
          (same_iff _ _).0 purpose,
          (same_iff _ _).0 scope,
        )

  -- An assertion that is built is authorized: it approves the subject that it names by its hash, the
  -- context that it is built from is sealed, it is joined to a record of that context, and it was issued within its window.
  pub build_approval_assertion-IsAuthorized :
      (s : ApprovalSubject) (id : String) (context : AuthorizationRecordContext)
      (record_id record_hash issued decision : String) (a : ApprovalAssertion)
      → build_approval_assertion text codes s id context record_id record_hash issued decision
        ≡ ok a
      → (approval_subject_hash text codes s ≡ ok a.approval_subject_hash)
        × (context.is_sealed ≡ true)
        × IsAuthorized text codes s a.approval_subject_hash context.records a
  unfolding build_approval_assertion approval_subject_hash
  build_approval_assertion-IsAuthorized s id context record_id record_hash issued decision a h =
      let (subject_hash, hashed, h1) = >>=-eq-ok (approval_subject_hash text codes s) _ h in
      let (r, bound, h2) =
        >>=-eq-ok (authorization_record_binding text codes context record_id record_hash) _ h1 in
      let (_, h3) = (raise_if-eq-ok (is_blank text id) _ _).0 h2 in
      let built = assertion_of text codes subject_hash id issued decision r in
      let (shaped, h4) = (>>-eq-ok (validate_approval_assertion_shape text codes built) _).0 h3 in
      let (sealed, there, purpose, scope) =
        authorization_record_binding-IsFound context record_id record_hash r bound in
      let (s_purpose, s_scope, _) =
        validate_approval_subject-IsPolicy text codes s
          ((>>-eq-ok (validate_approval_subject text codes s) _).0 hashed).0 in
      let (approved, x, y, z, from, at, until, begun, current) =
        validate_approval_assertion_shape-IsTimed text codes built shaped in
      let joined : IsJoined text codes s built r = record {
        id = refl;
        hash = refl;
        approver = refl;
        role = refl;
        purpose = purpose ∙ sym s_purpose;
        scope = scope ∙ sym s_scope;
        effective = refl;
        expires = refl;
      } in
      subst
        (λ b.
          (approval_subject_hash text codes s ≡ ok b.approval_subject_hash)
          × (context.is_sealed ≡ true)
          × IsAuthorized text codes s b.approval_subject_hash context.records b)
        (ok_inj h4)
        (
          hashed,
          sealed,
          record {
            approved = approved;
            bound = refl;
            recorded =
                Any-map (λ q same. subst (IsJoined text codes s built) (sym same) joined)
                  context.records there;
            effective = x;
            issued = y;
            expires = z;
            effective_from = from;
            issued_at = at;
            expires_at = until;
            begun = begun;
            current = current;
          },
        )
