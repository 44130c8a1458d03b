-- ===== src/Rules/References/Passes.antt =====
-- When QCI-R005 passes over a sealed context.
use qualityci.Prelude.Dict.{lookup}
use mathlib.Core.Path.{subst}
use qualityci.Text.{concat}
use qualityci.Case.{Case, Document, Identity, References, native, identity_eq, document_by_type}
use qualityci.Model.{pass, contradicted, EvidenceRef, ImpactPlan}
use qualityci.Rules.Evidence.{finding}
use qualityci.Rules.References.{
  ReferenceContext, first_inspection, identity_of, artifact_consistent, is_extra,
  inspection_differs, role_differs, compare_references, check_context, check_roles,
  check_references, with_documents, rule_inspection_current_references,
}
use qualityci.Prelude.{
  same_iff, String, ◌≡◌, refl, sym, ap, ◌↔◌, Bool, true, false, not, ◌||◌, Option, none, some, List,
  [], ◌∷◌, arith, eq_iff, if◌then◌else◌, Eq, ◌==◌, nat_eq, string_eq, pair_eq, is_some_eq, any, All,
  any-false_iff,
}

some_inj {ℓ} : {A : Type ℓ} {a b : A} → some a ≡ some b → a ≡ b
some_inj h = cc

is_some_eq_iff {ℓ} :
    {A : Type ℓ} ⦃e : Eq A⦄ (o : Option A) (a : A) → (is_some_eq o a ≡ true) ↔ (o ≡ some a)
is_some_eq_iff ⦃e = e⦄ none a = (λ h. cc, λ h. cc)
is_some_eq_iff ⦃e = e⦄ (some b) a =
    (λ h. ap some ((same_iff b a).0 h), λ h. (same_iff b a).1 (some_inj h))

-- A revision artifact, if the document has one, is named after the hash of the document.
abbrev pub ArtifactAgrees : Document → Type 0
ArtifactAgrees target =
    (id : Option String)
    → target.revision_artifact ≡ some id
    → id ≡ some (concat ("sha256:" ∷ target.source_hash ∷ []))

artifact_of_iff :
    (artifact : Option (Option String)) (name : String)
    → (elim artifact [ none ↦ true | some id ↦ is_some_eq id name ] ≡ true)
      ↔ ((id : Option String) → artifact ≡ some id → id ≡ some name)
artifact_of_iff none name = (λ h id e. cc, λ h. refl)
artifact_of_iff (some id) name =
    (λ h other e. cc (e, (is_some_eq_iff id name).0 h), λ h. (is_some_eq_iff id name).1 (h id refl))

artifact_consistent_iff :
    (target : Document) → (artifact_consistent target ≡ true) ↔ ArtifactAgrees target
unfolding artifact_consistent
artifact_consistent_iff target = artifact_of_iff target.revision_artifact _

module _ (inspection : Document) (context : ReferenceContext) where
  -- The inspection record, the context and the document name the same identity.
  pub record IsCited (role : String) (identity : Identity) (target : Document) : Type 0 where
    pub sealed_identity : lookup role context.references ≡ some identity
    pub of_target : identity ≡ identity_of target
    pub artifact : ArtifactAgrees target

  pub record IsSealedOver : Type 0 where
    pub of_document : context.inspection_document_id ≡ inspection.document_id
    pub of_revision : (first_inspection context.evidence).revision ≡ some inspection.revision
    pub of_source : (first_inspection context.evidence).source_hash ≡ some inspection.source_hash

  three :
      (a b c : Bool) → ((not a || not b || not c) ≡ false) ↔ ((a ≡ true) × (b ≡ true) × (c ≡ true))
  three a b c = ground arith

  role_differs_iff :
      (role : String) (identity : Identity) (target : Document)
      → (role_differs inspection context role identity target ≡ false)
        ↔ IsCited role identity target
  unfolding role_differs
  role_differs_iff role identity target =
      let tests =
        three (is_some_eq (lookup role context.references) identity)
          (identity == identity_of target) (artifact_consistent target) in
      let cited = is_some_eq_iff (lookup role context.references) identity in
      let same = same_iff identity (identity_of target) in
      let artifact = artifact_consistent_iff target in
      (
        λ h.
            let t = tests.0 h in
            record {
              sealed_identity = cited.0 t.0;
              of_target = same.0 t.1;
              artifact = artifact.0 t.2;
            },
        λ c. tests.1 (cited.1 c.sealed_identity, same.1 c.of_target, artifact.1 c.artifact),
      )

  inspection_differs_iff : (inspection_differs inspection context ≡ false) ↔ IsSealedOver
  unfolding inspection_differs
  inspection_differs_iff =
      let first = first_inspection context.evidence in
      let tests =
        three (context.inspection_document_id == inspection.document_id)
          (is_some_eq first.revision inspection.revision)
          (is_some_eq first.source_hash inspection.source_hash) in
      let id = eq_iff context.inspection_document_id inspection.document_id in
      let revision = is_some_eq_iff first.revision inspection.revision in
      let source = is_some_eq_iff first.source_hash inspection.source_hash in
      (
        λ h.
            let t = tests.0 h in
            record {
              of_document = id.0 t.0;
              of_revision = revision.0 t.1;
              of_source = source.0 t.2;
            },
        λ s. tests.1 (id.1 s.of_document, revision.1 s.of_revision, source.1 s.of_source),
      )

  -- What QCI-R005 asks of the references, given the identities under the two roles.
  pub record IsCurrentlyCited (references : List (String × Identity)) (s c : Option Identity)
      (sop control : Document) : Type 0 where
    pub sealed_over : IsSealedOver
    pub only_two : All (λ (r : String × Identity). is_extra r ≡ false) references
    pub sop_cited : (i : Identity) × (s ≡ some i) × IsCited "SOP" i sop
    pub control_cited : (i : Identity) × (c ≡ some i) × IsCited "CONTROL_PLAN" i control

  four :
      (a b c d : Bool) (refs : List EvidenceRef)
      → ((if a || b || c || d
            then finding "QCI-R005" contradicted "HIGH" refs
            else finding "QCI-R005" pass "LOW" refs).status
          ≡ pass)
        ↔ ((a ≡ false) × (b ≡ false) × (c ≡ false) × (d ≡ false))
  unfolding finding
  four a b c d refs = ground arith

  compare_tests :
      (references : List (String × Identity)) (s c : Identity) (sop control : Document)
      → ((compare_references inspection context references s c sop control).status ≡ pass) ↔ (
          (inspection_differs inspection context ≡ false)
          × (any references is_extra ≡ false)
          × (role_differs inspection context "SOP" s sop ≡ false)
          × (role_differs inspection context "CONTROL_PLAN" c control ≡ false))
  unfolding compare_references
  compare_tests references s c sop control = four _ _ _ _ _

  module _ (sealed : context.sealed ≡ true) (references : List (String × Identity))
      (sop control : Document) where
    over_context :
        (s c : Identity)
        → check_context inspection references s c sop control (some context)
          ≡ compare_references inspection context references s c sop control
    unfolding check_context
    over_context s c = rw sealed refl

    compare-pass_iff :
        (s c : Identity)
        → ((check_context inspection references s c sop control (some context)).status ≡ pass)
          ↔ IsCurrentlyCited references (some s) (some c) sop control
    compare-pass_iff s c =
        let tests = compare_tests references s c sop control in
        let over = inspection_differs_iff in
        let two = any-false_iff is_extra references in
        let s_cited = role_differs_iff "SOP" s sop in
        let c_cited = role_differs_iff "CONTROL_PLAN" c control in
        rw (over_context s c) (
          λ h.
              let t = tests.0 h in
              record {
                sealed_over = over.0 t.0;
                only_two = two.0 t.1;
                sop_cited = (s, refl, s_cited.0 t.2);
                control_cited = (c, refl, c_cited.0 t.3);
              },
          λ p. tests.1 (
            over.1 p.sealed_over,
            two.1 p.only_two,
            s_cited.1 (named "SOP" p.sop_cited),
            c_cited.1 (named "CONTROL_PLAN" p.control_cited),
          ),
        )
      where
        named :
            {i : Identity} {target : Document} (role : String)
            → ((j : Identity) × (some i ≡ some j) × IsCited role j target)
            → IsCited role i target
        named {target = target} role (j, e, cited) =
            subst (λ k. IsCited role k target) (sym (some_inj e)) cited

    check_roles-pass_iff :
        (s c : Option Identity)
        → ((check_roles (some context) inspection sop control references s c).status ≡ pass)
          ↔ IsCurrentlyCited references s c sop control
    unfolding check_roles finding
    check_roles-pass_iff (some s) (some c) = compare-pass_iff s c
    check_roles-pass_iff none c = (λ h. cc, λ p. cc (p.sop_cited.1))
    check_roles-pass_iff (some s) none = (λ h. cc, λ p. cc (p.control_cited.1))

    check_references-pass_iff :
        (cited : Option References)
        → cited ≡ some (native references)
        → ((check_references (some context) inspection sop control cited).status ≡ pass)
          ↔ IsCurrentlyCited references
              (lookup "SOP" references)
              (lookup "CONTROL_PLAN" references)
              sop
              control
    unfolding check_references
    check_references-pass_iff cited e = rw e (check_roles-pass_iff _ _)

-- With exactly one approved inspection record, SOP and control plan, an inspection record that cites
-- identities and a sealed context, QCI-R005 passes exactly when the context was sealed over the
-- inspection record, no role but the two is cited, and under each role the record cites the identity
-- that the context holds, which is that of the document, whose revision artifact agrees with its hash.
pub rule_inspection_current_references-pass_iff :
    (case : Case) (plan : ImpactPlan) (context : ReferenceContext)
    (inspection sop control : Document) (references : List (String × Identity))
    → document_by_type case "INSPECTION_RECORD" ≡ some inspection
    → document_by_type case "SOP" ≡ some sop
    → document_by_type case "CONTROL_PLAN" ≡ some control
    → inspection.fields.references ≡ some (native references)
    → context.sealed ≡ true
    → ((rule_inspection_current_references case plan (some context)).status ≡ pass)
      ↔ IsCurrentlyCited inspection context references
          (lookup "SOP" references)
          (lookup "CONTROL_PLAN" references)
          sop
          control
unfolding rule_inspection_current_references with_documents check_references
rule_inspection_current_references-pass_iff case plan context inspection sop control references i s
      c r sealed =
    rw (i, s, c)
      (check_references-pass_iff inspection context sealed references sop control
        inspection.fields.references r)
