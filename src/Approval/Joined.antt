-- ===== src/Approval/Joined.antt =====
-- What validated assertions are known to be: one for each role, each joined to a record.
use mathlib.Core.Path.{subst}
use qualityci.Text.{TextOps, normalized_identity, is_blank}
use qualityci.Workflow.Approvals.Bound.{AllNew}
use qualityci.Prelude.Dict.{lookup, insert}
use qualityci.Approval.Subject.{
  ApprovalSubject, ApprovalAssertion, Codes, AuthorizationRecordClaim, required_role_claims,
  is_lower_sha, Seen,
}
use qualityci.Approval.{
  assertion_texts, time_or_error, validate_approval_assertion_shape, approval_assertion_hash,
  index_records, claim_or_error, is_joined, check_assertion, check_assertions,
}
use qualityci.Prelude.{
  same_iff, ℕ, ◌≤◌, String, ◌≡◌, refl, sym, ap, ◌∙◌, ◌⊎◌, inl, inr, Bool, true, false, not, ◌&&◌,
  Option, none, some, List, [], ◌∷◌, map, arith, ◌==◌, nat_eq, string_eq, pair_eq, Bool-cases, any,
  All, Any, contains, All-map, &&-true, not-false, Any-map, leb→le, ok, raise_if, >>-eq-ok,
  raise_if-eq-ok, >>=-eq-ok, ok_inj,
}

All-insert :
    {A : Type 0} (P : A → Type 0) (k : String) (a : A) (d : List (String × A))
    → P a
    → All (λ e. P e.1) d
    → All (λ e. P e.1) (insert k a d)
unfolding insert
All-insert P k a [] p h = (p, tt)
All-insert P k a ((j, b) ∷ d) p h = elim (Bool-cases (j == k)) [
  | inl same ↦ rw same (p, h.1)
  | inr other ↦ rw other (h.0, All-insert P k a d p h.1)
]

All-lookup :
    {A : Type 0} (P : A → Type 0) (k : String) (d : List (String × A)) {a : A}
    → All (λ e. P e.1) d
    → lookup k d ≡ some a
    → P a
unfolding lookup
All-lookup P k [] h found = cc
All-lookup P k ((j, b) ∷ d) {a = a} h found = elim (Bool-cases (j == k)) [
  | inl same ↦
      let here : some b ≡ some a = rw same at found in let this : b ≡ a = cc in subst P this h.0
  | inr other ↦ All-lookup P k d h.1 (rw other at found)
]

pub All-member : {A : Type 0} (xs : List A) → All (λ x. Any (λ y. y ≡ x) xs) xs
All-member [] = tt
All-member (x ∷ xs) = (inl refl, All-map (λ y h. inr h) xs (All-member xs))

claim_or_error-eq-ok :
    (text : TextOps) (codes : Codes) (o : Option AuthorizationRecordClaim)
    {r : AuthorizationRecordClaim}
    → claim_or_error text codes o ≡ ok r
    → o ≡ some r
claim_or_error-eq-ok text codes none h = cc
claim_or_error-eq-ok text codes (some s) h = ap some (ok_inj h)

eight_hold :
    (a b c d e f g h : Bool)
    → (a && b && c && d && e && f && g && h) ≡ true
    → (a ≡ true)
      × (b ≡ true)
      × (c ≡ true)
      × (d ≡ true)
      × (e ≡ true)
      × (f ≡ true)
      × (g ≡ true)
      × (h ≡ true)
eight_hold a b c d e f g h k = ground arith

module _ (text : TextOps) (codes : Codes) where
  pub index_records-All :
      (P : AuthorizationRecordClaim → Type 0) (records : List AuthorizationRecordClaim)
      (found after : List (String × AuthorizationRecordClaim))
      → All P records
      → All (λ e. P e.1) found
      → index_records text codes records found ≡ ok after
      → All (λ e. P e.1) after
  unfolding index_records
  index_records-All P [] found after p h done = subst (All (λ e. P e.1)) (ok_inj done) h
  index_records-All P (r ∷ records) found after p h done =
      index_records-All P records (insert (normalized_identity text r.record_id) r found) after p.1
        (All-insert P (normalized_identity text r.record_id) r found p.0 h)
        ((raise_if-eq-ok _ _ _).0 done).1

  -- The record of an assertion: the same id, hash, person, role and times, for the purpose and the scope
  -- of the subject.
  pub record IsJoined (s : ApprovalSubject) (a : ApprovalAssertion) (r : AuthorizationRecordClaim)
      : Type 0 where
    pub id : a.authorization_record_id ≡ r.record_id
    pub hash : a.authorization_record_hash ≡ r.content_hash
    pub approver : a.approver_id_claim ≡ r.approver_id_claim
    pub role : a.role_claim ≡ r.role_claim
    pub purpose : r.purpose_code ≡ s.purpose_code
    pub scope : r.scope_code ≡ s.scope_code
    pub effective : a.effective_from ≡ r.effective_from
    pub expires : a.expires_at ≡ r.expires_at

  is_joined-IsJoined :
      (s : ApprovalSubject) (a : ApprovalAssertion) (r : AuthorizationRecordClaim)
      → is_joined text codes s a r ≡ true
      → IsJoined s a r
  unfolding is_joined
  is_joined-IsJoined s a r h =
      let (i, k, p, o, u, c, e, x) = eight_hold _ _ _ _ _ _ _ _ h in
      record {
        id = (same_iff _ _).0 i;
        hash = (same_iff _ _).0 k;
        approver = (same_iff _ _).0 p;
        role = (same_iff _ _).0 o;
        purpose = (same_iff _ _).0 u;
        scope = (same_iff _ _).0 c;
        effective = (same_iff _ _).0 e;
        expires = (same_iff _ _).0 x;
      }

  -- An assertion that approves the subject, at a time in its window, by a record of the context.
  pub record IsAuthorized (s : ApprovalSubject) (subject_hash : String)
      (records : List AuthorizationRecordClaim) (a : ApprovalAssertion) : Type 0 where
    pub approved : a.decision ≡ "APPROVED"
    pub bound : a.approval_subject_hash ≡ subject_hash
    pub recorded : Any (IsJoined s a) records
    pub effective : ℕ
    pub issued : ℕ
    pub expires : ℕ
    pub effective_from : codes.parse_rfc3339_utc a.effective_from ≡ some effective
    pub issued_at : codes.parse_rfc3339_utc a.issued_at ≡ some issued
    pub expires_at : codes.parse_rfc3339_utc a.expires_at ≡ some expires
    pub begun : effective ≤ issued
    pub current : issued ≤ expires

  time_or_error-eq-ok : (o : Option ℕ) {n : ℕ} → time_or_error text codes o ≡ ok n → o ≡ some n
  time_or_error-eq-ok none h = cc
  time_or_error-eq-ok (some m) h = ap some (ok_inj h)

  raised : (b : Bool) (e : String) → raise_if b e ≡ ok tt → b ≡ false
  raised true e h = cc
  raised false e h = refl

  -- The shape of an assertion: its decision and its times.
  pub validate_approval_assertion_shape-IsTimed :
      (a : ApprovalAssertion)
      → validate_approval_assertion_shape text codes a ≡ ok tt
      → (a.decision ≡ "APPROVED")
        × (x : ℕ) × (y : ℕ) × (z : ℕ) × (codes.parse_rfc3339_utc a.effective_from ≡ some x)
        × (codes.parse_rfc3339_utc a.issued_at ≡ some y)
        × (codes.parse_rfc3339_utc a.expires_at ≡ some z)
        × (x ≤ y)
        × (y ≤ z)
  unfolding validate_approval_assertion_shape
  validate_approval_assertion_shape-IsTimed a h =
      let (_, h1) = (raise_if-eq-ok (any (assertion_texts text codes a) (is_blank text)) _ _).0 h in
      let (_, h2) =
        (raise_if-eq-ok (not (a.assertion_contract_version == "qualityci-approval-assertion-0.1")) _
            _).0
          h1 in
      let (decided, h3) = (raise_if-eq-ok (not (a.decision == "APPROVED")) _ _).0 h2 in
      let (_, h4) = (raise_if-eq-ok (not (contains required_role_claims a.role_claim)) _ _).0 h3 in
      let (_, h5) =
        (raise_if-eq-ok
            (not (
              is_lower_sha text codes a.approval_subject_hash
              && is_lower_sha text codes a.authorization_record_hash))
            _ _).0
          h4 in
      let (x, from, h6) =
        >>=-eq-ok (time_or_error text codes (codes.parse_rfc3339_utc a.effective_from)) _ h5 in
      let (y, at, h7) =
        >>=-eq-ok (time_or_error text codes (codes.parse_rfc3339_utc a.issued_at)) _ h6 in
      let (z, until, h8) =
        >>=-eq-ok (time_or_error text codes (codes.parse_rfc3339_utc a.expires_at)) _ h7 in
      let (begun, current) = (&&-true _ _).0 ((not-false _).0 (raised _ _ h8)) in
      (
        (same_iff a.decision "APPROVED").0 ((not-false _).0 decided),
        x,
        y,
        z,
        time_or_error-eq-ok _ from,
        time_or_error-eq-ok _ at,
        time_or_error-eq-ok _ until,
        leb→le x y begun,
        leb→le y z current,
      )

  module _ (s : ApprovalSubject) (subject_hash : String) (records : List AuthorizationRecordClaim)
      (found : List (String × AuthorizationRecordClaim))
      (stands : All (λ e. Any (λ r. r ≡ e.1) records) found) where
    -- One round of the loop.
    check_assertion-IsAuthorized :
        (seen next : Seen) (a : ApprovalAssertion)
        → check_assertion text codes s subject_hash found seen a ≡ ok next
        → IsAuthorized s subject_hash records a
          × (contains seen.roles a.role_claim ≡ false)
          × (contains seen.approval_ids (normalized_identity text a.approval_id) ≡ false)
          × (next.roles ≡ a.role_claim ∷ seen.roles)
          × (next.approval_ids ≡ normalized_identity text a.approval_id ∷ seen.approval_ids)
    unfolding check_assertion
    check_assertion-IsAuthorized seen next a h =
        let (shaped, h1) = (>>-eq-ok (validate_approval_assertion_shape text codes a) _).0 h in
        let (new_id, h2) =
          (raise_if-eq-ok (contains seen.approval_ids (normalized_identity text a.approval_id)) _
              _).0
            h1 in
        let (bound, h3) =
          (raise_if-eq-ok (not (a.approval_subject_hash == subject_hash)) _ _).0 h2 in
        let (_, h4) =
          (raise_if-eq-ok (not (contains s.required_role_claims a.role_claim)) _ _).0 h3 in
        let (new_role, h5) = (raise_if-eq-ok (contains seen.roles a.role_claim) _ _).0 h4 in
        let (r, claimed, h6) =
          >>=-eq-ok
            (claim_or_error text codes
              (lookup (normalized_identity text a.authorization_record_id) found))
            _ h5 in
        let (joins, h7) = (raise_if-eq-ok (not (is_joined text codes s a r)) _ _).0 h6 in
        let (hash, _, h8) = >>=-eq-ok (approval_assertion_hash text codes a) _ h7 in
        let (approved, x, y, z, from, at, until, begun, current) =
          validate_approval_assertion_shape-IsTimed a shaped in
        let joined = is_joined-IsJoined s a r ((not-false _).0 joins) in
        let there =
          All-lookup (λ e. Any (λ r. r ≡ e) records)
            (normalized_identity text a.authorization_record_id) found stands
            (claim_or_error-eq-ok text codes _ claimed) in
        (
          record {
            approved = approved;
            bound = (same_iff a.approval_subject_hash subject_hash).0 ((not-false _).0 bound);
            recorded = Any-map (λ e same. subst (IsJoined s a) (sym same) joined) records there;
            effective = x;
            issued = y;
            expires = z;
            effective_from = from;
            issued_at = at;
            expires_at = until;
            begun = begun;
            current = current;
          },
          new_role,
          new_id,
          ap (λ n. n.roles) (sym (ok_inj h8)),
          ap (λ n. n.approval_ids) (sym (ok_inj h8)),
        )

    -- The whole loop: every assertion is authorized, the roles and the ids are new each time, and the
    -- roles seen are those claimed.
    pub check_assertions-AreAuthorized :
        (seen last : Seen) (assertions : List ApprovalAssertion)
        → check_assertions text codes s subject_hash found seen assertions ≡ ok last
        → All (IsAuthorized s subject_hash records) assertions
          × AllNew seen.roles (map (λ a. a.role_claim) assertions)
          × AllNew seen.approval_ids (map (λ a. normalized_identity text a.approval_id) assertions)
          × ((role : String)
              → contains last.roles role ≡ true
              → (contains seen.roles role ≡ true) ⊎ Any (λ a. a.role_claim ≡ role) assertions)
    unfolding check_assertions
    check_assertions-AreAuthorized seen last [] h =
        (tt, tt, tt, λ role k. inl (ap (λ l. contains l.roles role) (ok_inj h) ∙ k))
    check_assertions-AreAuthorized seen last (a ∷ assertions) h =
        let (next, first, rest) =
          >>=-eq-ok (check_assertion text codes s subject_hash found seen a) _ h in
        let (here, new_role, new_id, roles, ids) = check_assertion-IsAuthorized seen next a first in
        let (all_later, roles_later, ids_later, claimed) =
          check_assertions-AreAuthorized next last assertions rest in
        (
          (here, all_later),
          (new_role, subst (λ l. AllNew l (map (λ b. b.role_claim) assertions)) roles roles_later),
          (
            new_id,
            subst (λ l. AllNew l (map (λ b. normalized_identity text b.approval_id) assertions)) ids
                ids_later,
          ),
          λ role k. elim (claimed role k) [
            | inl before ↦ elim (Bool-cases (a.role_claim == role)) [
              | inl same ↦ inr (inl ((same_iff a.role_claim role).0 same))
              | inr other ↦
                  let split : contains (a.role_claim ∷ seen.roles) role ≡ true =
                    ap (λ l. contains l role) (sym roles) ∙ before in
                  inl (rw other at split)
            ]
            | inr later ↦ inr (inr later)
          ],
        )
