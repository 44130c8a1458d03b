-- ===== src/Workflow/Approvals/Bound.antt =====
-- What the approvals of a resolution say once `_validate_resolution_approvals` lets them through.
use qualityci.Workflow.Approvals.{
  GateError, Approval, Binding, required_roles, role_of, counts, approved_roles, lacks_field,
  check_approval, check_approvals, validate_resolution_approvals,
}
use qualityci.Rules.Evidence.{get_or}
use qualityci.Prelude.{
  String, ◌≡◌, refl, sym, ap, ◌∙◌, ◌↔◌, ◌⊎◌, inl, inr, Bool, true, false, not, ◌&&◌, ◌||◌, Option,
  none, some, List, [], ◌∷◌, map, arith, eq_iff, nat_eq, string_eq, pair_eq, given, is_some_eq,
  is_some_eq_iff, is_empty, all, keep, All, contains, All-iff, ok, ◌>>◌, raise_if, >>-eq-ok,
  raise_if-eq-ok, ok_inj,
}

given_of : (o : Option String) (s : String) → is_some_eq o s ≡ true → given o ≡ true
given_of none s h = cc
given_of (some t) s h = refl

-- The chain of tests of one round.
chain :
    (l r s d c v w h p : Bool) (e1 e2 e3 e4 e5 e6 e7 e8 : GateError)
    → ((do
      raise_if l e1
      raise_if (not r) e2
      raise_if s e3
      raise_if (not d) e4
      raise_if (not c || not v) e5
      raise_if (not w) e6
      raise_if (not h) e7
      raise_if (not p) e8)
        ≡ ok tt)
      ↔ ((l ≡ false)
          × (s ≡ false)
          × (r ≡ true)
          × (d ≡ true)
          × (c ≡ true)
          × (v ≡ true)
          × (w ≡ true)
          × (h ≡ true)
          × (p ≡ true))
chain l r s d c v w h p e1 e2 e3 e4 e5 e6 e7 e8 = ground arith

seven_given :
    (a b c d e f g : Bool)
    → (not (a && b && c && d && e && f && g) ≡ false)
      ↔ ((a ≡ true) × (b ≡ true) × (c ≡ true) × (d ≡ true) × (e ≡ true) × (f ≡ true) × (g ≡ true))
seven_given a b c d e f g = ground arith

eight :
    (a b c d e f g h : Bool)
    → ((a && b && c && d && e && f && g && h) ≡ true) ↔ (
        (a ≡ true)
        × (b ≡ true)
        × (c ≡ true)
        × (d ≡ true)
        × (e ≡ true)
        × (f ≡ true)
        × (g ≡ true)
        × (h ≡ true))
eight a b c d e f g h = ground arith

module _ (subject : Binding) (patch_hash : String) where
  -- An approval by one of the two roles that repeats the subject and the patch hash.
  pub record IsBound (item : Approval) : Type 0 where
    pub by_role : (item.role ≡ some "QUALITY_MANAGER") ⊎ (item.role ≡ some "PROCESS_OWNER")
    pub decision : item.decision ≡ some "APPROVED"
    pub of_case : item.case_id ≡ some subject.case_id
    pub of_event : item.event_id ≡ some subject.event_id
    pub of_revision : item.event_revision ≡ some subject.event_revision
    pub of_snapshot : item.approved_case_hash ≡ some subject.approved_case_hash
    pub of_patch : item.approved_patch_hash ≡ some patch_hash

  -- One round passes exactly when the role is new and the record counts.
  check_approval_iff :
      (seen : List String) (item : Approval)
      → (check_approval subject patch_hash seen item ≡ ok tt)
        ↔ ((contains seen (role_of item) ≡ false) × (counts subject patch_hash item ≡ true))
  unfolding check_approval counts
  check_approval_iff seen item =
      let tests =
        chain (lacks_field subject patch_hash item) (contains required_roles (role_of item))
          (contains seen (role_of item)) (is_some_eq item.decision "APPROVED")
          (is_some_eq item.case_id subject.case_id) (is_some_eq item.event_id subject.event_id)
          (is_some_eq item.event_revision subject.event_revision)
          (is_some_eq item.approved_case_hash subject.approved_case_hash)
          (is_some_eq item.approved_patch_hash patch_hash) _ _ _ _ _ _ _ _ in
      let fields =
        seven_given (given item.role) (given item.decision) (given item.case_id)
          (given item.event_id) (given item.event_revision) (given item.approved_case_hash)
          (given item.approved_patch_hash) in
      let counted =
        eight (given item.role) (contains required_roles (role_of item))
          (is_some_eq item.decision "APPROVED") (is_some_eq item.case_id subject.case_id)
          (is_some_eq item.event_id subject.event_id)
          (is_some_eq item.event_revision subject.event_revision)
          (is_some_eq item.approved_case_hash subject.approved_case_hash)
          (is_some_eq item.approved_patch_hash patch_hash) in
      (
        λ h.
            let (l, s, r, d, i, v, w, k, p) = tests.0 h in
            (s, counted.1 ((fields.0 l).0, r, d, i, v, w, k, p)),
        λ (s, c).
            let (g, r, d, i, v, w, k, p) = counted.0 c in
            tests.1 (
              fields.1 (
                g,
                given_of item.decision _ d,
                given_of item.case_id _ i,
                given_of item.event_id _ v,
                given_of item.event_revision _ w,
                given_of item.approved_case_hash _ k,
                given_of item.approved_patch_hash _ p,
              ),
              s,
              r,
              d,
              i,
              v,
              w,
              k,
              p,
            ),
      )

  required_role_iff :
      (o : Option String)
      → ((given o ≡ true) × (contains required_roles (get_or o "") ≡ true))
        ↔ ((o ≡ some "QUALITY_MANAGER") ⊎ (o ≡ some "PROCESS_OWNER"))
  required_role_iff none = (λ h. cc (h.0), λ h. elim h [ inl e ↦ cc | inr e ↦ cc ])
  required_role_iff (some r) = (
    λ h. ground (arith, h.1, eq_iff "QUALITY_MANAGER" r, eq_iff "PROCESS_OWNER" r),
    λ h. ground (arith, eq_iff "QUALITY_MANAGER" r, eq_iff "PROCESS_OWNER" r),
  )

  counts_iff : (item : Approval) → (counts subject patch_hash item ≡ true) ↔ IsBound item
  unfolding counts
  counts_iff item =
      let tests =
        eight (given item.role) (contains required_roles (role_of item))
          (is_some_eq item.decision "APPROVED") (is_some_eq item.case_id subject.case_id)
          (is_some_eq item.event_id subject.event_id)
          (is_some_eq item.event_revision subject.event_revision)
          (is_some_eq item.approved_case_hash subject.approved_case_hash)
          (is_some_eq item.approved_patch_hash patch_hash) in
      (
        λ h.
            let (g, r, d, i, v, w, k, p) = tests.0 h in
            record {
              by_role = (required_role_iff item.role).0 (g, r);
              decision = (is_some_eq_iff item.decision "APPROVED").0 d;
              of_case = (is_some_eq_iff item.case_id subject.case_id).0 i;
              of_event = (is_some_eq_iff item.event_id subject.event_id).0 v;
              of_revision = (is_some_eq_iff item.event_revision subject.event_revision).0 w;
              of_snapshot = (is_some_eq_iff item.approved_case_hash subject.approved_case_hash).0 k;
              of_patch = (is_some_eq_iff item.approved_patch_hash patch_hash).0 p;
            },
        λ b.
            let (g, r) = (required_role_iff item.role).1 b.by_role in
            tests.1 (
              g,
              r,
              (is_some_eq_iff item.decision "APPROVED").1 b.decision,
              (is_some_eq_iff item.case_id subject.case_id).1 b.of_case,
              (is_some_eq_iff item.event_id subject.event_id).1 b.of_event,
              (is_some_eq_iff item.event_revision subject.event_revision).1 b.of_revision,
              (is_some_eq_iff item.approved_case_hash subject.approved_case_hash).1 b.of_snapshot,
              (is_some_eq_iff item.approved_patch_hash patch_hash).1 b.of_patch,
            ),
      )

-- No role of the list stands before in it, or in `seen`.
abbrev pub AllNew : List String → List String → Type 0
AllNew seen [] = Unit
AllNew seen (role ∷ roles) = (contains seen role ≡ false) × AllNew (role ∷ seen) roles

keep_all {ℓ} : {A : Type ℓ} (p : A → Bool) (xs : List A) → All (λ x. p x ≡ true) xs → keep p xs ≡ xs
keep_all p [] h = refl
keep_all p (x ∷ xs) h = rw h.0 (ap (λ ys. x ∷ ys) (keep_all p xs h.1))

module _ (subject : Binding) (patch_hash : String) where
  check_approvals_iff :
      (seen : List String) (items : List Approval)
      → (check_approvals subject patch_hash seen items ≡ ok tt) ↔ (
          AllNew seen (map role_of items)
          × All (λ item. counts subject patch_hash item ≡ true) items)
  unfolding check_approvals
  check_approvals_iff seen [] = (λ h. (tt, tt), λ h. refl)
  check_approvals_iff seen (item ∷ items) =
      let here = check_approval_iff subject patch_hash seen item in
      let ih = check_approvals_iff (role_of item ∷ seen) items in
      let both =
        >>-eq-ok (check_approval subject patch_hash seen item)
          (check_approvals subject patch_hash (role_of item ∷ seen) items) in
      (
        λ h.
            let (a, b) = both.0 h in
            let (new, counted) = here.0 a in
            let (news, all) = ih.0 b in ((new, news), (counted, all)),
        λ h. both.1 (here.1 (h.0.0, h.1.0), ih.1 (h.0.1, h.1.1)),
      )

  -- The approvals of a resolution are let through exactly when there are some, no two have the same
  -- role, and each is an approval by a quality manager or a process owner that repeats the case, the
  -- event, its revision, the case hash and the patch hash; the roles found are then those of all of
  -- them.
  pub validate_resolution_approvals_iff :
      (approvals : List Approval) (roles : List String)
      → (validate_resolution_approvals subject patch_hash (some approvals) ≡ ok roles) ↔ (
          (is_empty approvals ≡ false)
          × AllNew [] (map role_of approvals)
          × All (IsBound subject patch_hash) approvals
          × (map role_of approvals ≡ roles))
  unfolding validate_resolution_approvals approved_roles
  validate_resolution_approvals_iff approvals roles =
      let some_there = raise_if-eq-ok (is_empty approvals) _ (
        check_approvals subject patch_hash [] approvals
        >> ok (approved_roles subject patch_hash approvals)) in
      let checked =
        >>-eq-ok (check_approvals subject patch_hash [] approvals)
          (ok (approved_roles subject patch_hash approvals)) in
      let loop = check_approvals_iff [] approvals in
      let bound = All-iff (counts_iff subject patch_hash) approvals in
      (
        λ h.
            let (there, rest) = some_there.0 h in
            let (loop_ok, result) = checked.0 rest in
            let (new, counted) = loop.0 loop_ok in
            (
              there,
              new,
              bound.0 counted,
              ap (map role_of) (sym (keep_all _ approvals counted)) ∙ ok_inj result,
            ),
        λ (there, new, b, same).
            let counted = bound.1 b in
            some_there.1 (
              there,
              checked.1 (
                loop.1 (new, counted),
                ap ok (ap (map role_of) (keep_all _ approvals counted) ∙ same),
              ),
            ),
      )
