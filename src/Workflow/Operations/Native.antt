-- ===== src/Workflow/Operations/Native.antt =====
-- Which operations a native resolution may have.
use qualityci.Json.{Json}
use qualityci.Text.{TextOps}
use qualityci.Rules.Evidence.{get_or}
use qualityci.Rules.RevisionDates.{nonblank}
use qualityci.Rules.RevisionDates.Passes.{IsWritten, nonblank_iff}
use qualityci.Workflow.Approvals.{GateError}
use qualityci.Workflow.Operations.{
  Operation, has_path, check_operation, validate_resolution_operations, check_native_operation,
  validate_native_resolution_operations,
}
use qualityci.Prelude.{
  same_iff, String, ◌≡◌, refl, ap, ◌≢◌, ◌↔◌, inl, inr, Bool, true, false, not, ◌&&◌, ◌||◌, Option,
  none, some, List, arith, ◌==◌, nat_eq, string_eq, pair_eq, Bool-cases, given, is_some_eq,
  is_empty, all, All, All-map, All-zip, Result, ok, err, ◌>>=◌, ◌>>◌, raise_if, each, each-eq-ok,
}

-- A set operation on a document, with a path and a value, and no other key.
pub record IsNativeSet (text : TextOps) (operation : Operation) : Type 0 where
  pub sets : operation.op ≡ some "set"
  pub no_target : operation.target ≡ none
  pub document : IsWritten text operation.document_id
  pub path : (p : String) × (operation.path ≡ some p) × (p ≢ "")
  pub value : (v : Json) × (operation.value ≡ some v)
  pub no_other_key : is_empty operation.other_keys ≡ true

set_iff : (o : Option String) (s : String) → (is_some_eq o s ≡ true) ↔ (o ≡ some s)
set_iff none s = (λ h. cc, λ h. cc)
set_iff (some t) s = (λ h. ap some ((same_iff t s).0 h), λ h. (same_iff t s).1 (cc))

absent_iff : (o : Option String) → (not (given o) ≡ true) ↔ (o ≡ none)
absent_iff none = (λ h. refl, λ h. refl)
absent_iff (some s) = (λ h. cc, λ h. cc)

given_iff {ℓ} : {A : Type ℓ} (o : Option A) → (given o ≡ true) ↔ ((a : A) × (o ≡ some a))
given_iff none = (λ h. cc, λ h. cc (h.1))
given_iff (some a) = (λ h. (a, refl), λ h. refl)

has_path_iff : (o : Option String) → (has_path o ≡ true) ↔ ((p : String) × (o ≡ some p) × (p ≢ ""))
has_path_iff none = (λ h. cc, λ h. cc (h.1))
has_path_iff (some p) = (
  λ h. (p, refl, λ e. cc (h, (same_iff p "").1 e)),
  λ (q, e, n). elim (Bool-cases (p == "")) [
    | inl b ↦ absurd (n (cc (e, (same_iff p "").0 b)))
    | inr b ↦ rw b refl
  ],
)

-- The tests of both loops together.
tests :
    (t d s x p v go nt gd gp o : Bool) (e1 e2 e3 e4 e5 e6 e7 : GateError)
    → (((do
      raise_if (not t) e1
      raise_if (not d) e2
      raise_if (not (s || x)) e3
      raise_if (not p) e4
      raise_if (s && not v) e5)
          ≡ ok tt)
        × ((do raise_if (not (go && nt && gd && gp && v && o)) e6; raise_if (not s) e7) ≡ ok tt))
      ↔ ((t ≡ true)
          × (d ≡ true)
          × (p ≡ true)
          × (v ≡ true)
          × (go ≡ true)
          × (nt ≡ true)
          × (gd ≡ true)
          × (gp ≡ true)
          × (o ≡ true)
          × (s ≡ true))
tests t d s x p v go nt gd gp o e1 e2 e3 e4 e5 e6 e7 = ground arith

-- Two loops over a list that is then returned.
two_loops :
    {A : Type 0} (test : Bool) (e : GateError) (first second : Result GateError (Unit {0}))
    (xs ys : A)
    → (((raise_if test e >> (first >> ok xs)) >>= λ _. (second >> ok xs)) ≡ ok ys)
      ↔ ((test ≡ false) × (first ≡ ok tt) × (second ≡ ok tt) × (xs ≡ ys))
two_loops true e first second xs ys = (λ h. cc, λ h. cc (h.0))
two_loops false e (err f) second xs ys = (λ h. cc, λ h. cc (h.1))
two_loops false e (ok u) (err f) xs ys = (λ h. cc, λ h. cc (h.2))
two_loops false e (ok u) (ok v) xs ys = (λ h. (refl, refl, refl, cc), λ h. ap ok h.3)

module _ (text : TextOps) where
  both_checks_iff :
      (operation : Operation)
      → ((check_operation text operation ≡ ok tt) × (check_native_operation text operation ≡ ok tt))
        ↔ IsNativeSet text operation
  unfolding check_operation check_native_operation
  both_checks_iff operation =
      let all =
        tests (get_or operation.target "document" == "document")
          (nonblank text operation.document_id) (is_some_eq operation.op "set")
          (is_some_eq operation.op "delete") (has_path operation.path) (given operation.value)
          (given operation.op) (not (given operation.target)) (given operation.document_id)
          (given operation.path) (is_empty operation.other_keys) _ _ _ _ _ _ _ in
      (
        λ h.
            let (t, d, p, v, go, nt, gd, gp, o, s) = all.0 h in
            record {
              sets = (set_iff operation.op "set").0 s;
              no_target = (absent_iff operation.target).0 nt;
              document = (nonblank_iff text operation.document_id).0 d;
              path = (has_path_iff operation.path).0 p;
              value = (given_iff operation.value).0 v;
              no_other_key = o;
            },
        λ n.
            let (d, d_is, _) = n.document in
            let (p, p_is, _) = n.path in
            all.1 (
              rw n.no_target refl,
              (nonblank_iff text operation.document_id).1 n.document,
              (has_path_iff operation.path).1 n.path,
              (given_iff operation.value).1 n.value,
              (given_iff operation.op).1 ("set", n.sets),
              (absent_iff operation.target).1 n.no_target,
              (given_iff operation.document_id).1 (d, d_is),
              (given_iff operation.path).1 (p, p_is),
              n.no_other_key,
              (set_iff operation.op "set").1 n.sets,
            ),
      )

  -- The operations of a native resolution are let through exactly when there are some and each sets a
  -- value at a path of a document that it names, and has no target and no other key; they are
  -- returned unchanged.
  pub validate_native_resolution_operations_iff :
      (operations result : List Operation)
      → (validate_native_resolution_operations text (some operations) ≡ ok result) ↔ (
          (is_empty operations ≡ false) × All (IsNativeSet text) operations × (operations ≡ result))
  unfolding validate_native_resolution_operations validate_resolution_operations
  validate_native_resolution_operations_iff operations result =
      let loops =
        two_loops (is_empty operations) _ (each (check_operation text) operations)
          (each (check_native_operation text) operations) operations result in
      let first = each-eq-ok (check_operation text) operations in
      let second = each-eq-ok (check_native_operation text) operations in
      (
        λ h.
            let (there, f, s, same) = loops.0 h in
            (
              there,
              All-zip (λ x a b. (both_checks_iff x).0 (a, b)) operations (first.0 f) (second.0 s),
              same,
            ),
        λ (there, all, same). loops.1 (
          there,
          first.1 (All-map (λ x n. ((both_checks_iff x).1 n).0) operations all),
          second.1 (All-map (λ x n. ((both_checks_iff x).1 n).1) operations all),
          same,
        ),
      )
