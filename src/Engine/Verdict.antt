-- ===== src/Engine/Verdict.antt =====
-- The verdict of a run against the statuses of its findings.
use qualityci.Model.{CheckStatus, pass, contradicted, unverifiable, status_beq}
use qualityci.Engine.{occurs, overall_status}
use qualityci.Prelude.{
  ◌≡◌, refl, ◌≢◌, ◌↔◌, inl, inr, Bool, true, false, List, [], ◌∷◌, arith, if◌then◌else◌, nat_eq,
  string_eq, pair_eq, Bool-cases, All, Any, All-map, All-zip, iff_trans, ×_iff,
}

status_beq_iff : (a b : CheckStatus) → (status_beq a b ≡ true) ↔ (b ≡ a)
unfolding status_beq
status_beq_iff a b = ground arith

occurs_iff :
    (s : CheckStatus) (statuses : List CheckStatus)
    → ((occurs s statuses ≡ true) ↔ Any (λ t. t ≡ s) statuses)
      × ((occurs s statuses ≡ false) ↔ All (λ t. t ≢ s) statuses)
occurs_iff s [] = ((λ h. cc, λ h. absurd h), (λ h. tt, λ h. refl))
occurs_iff s (t ∷ statuses) =
    let (some_iff, none_iff) = occurs_iff s statuses in
    let same = status_beq_iff s t in
    elim (Bool-cases (status_beq s t)) [
      | inl e ↦ rw e ((λ h. inl (same.0 e), λ h. refl), (λ h. cc, λ h. absurd (h.0 (same.0 e))))
      | inr e ↦ rw e (
        (
          λ h. inr (some_iff.0 h),
          λ h. elim h [ inl eq ↦ cc (e, same.1 eq) | inr r ↦ some_iff.1 r ],
        ),
        (λ h. (λ eq. cc (e, same.1 eq), none_iff.0 h), λ h. none_iff.1 h.1),
      )
    ]

only_pass : (t : CheckStatus) → t ≢ contradicted → t ≢ unverifiable → t ≡ pass
only_pass pass c u = refl
only_pass contradicted c u = absurd (c refl)
only_pass unverifiable c u = absurd (u refl)

All-pass_iff :
    (statuses : List CheckStatus)
    → (All (λ t. t ≢ contradicted) statuses × All (λ t. t ≢ unverifiable) statuses)
      ↔ All (λ t. t ≡ pass) statuses
All-pass_iff statuses = (
  λ h. All-zip only_pass statuses h.0 h.1,
  λ h. (All-map (λ t e. cc) statuses h, All-map (λ t e. cc) statuses h),
)

-- `_overall_status` as a function of its two tests.
abbrev verdict : Bool → Bool → CheckStatus
verdict c u = if c then contradicted else if u then unverifiable else pass

verdict_iff :
    (c u : Bool)
    → ((verdict c u ≡ pass) ↔ ((c ≡ false) × (u ≡ false)))
      × ((verdict c u ≡ contradicted) ↔ (c ≡ true))
      × ((verdict c u ≡ unverifiable) ↔ ((c ≡ false) × (u ≡ true)))
verdict_iff c u = ground arith

-- A run passes exactly when every finding passes; it is contradicted exactly when some finding is;
-- and it is unverifiable exactly when no finding is contradicted and some finding is unverifiable.
pub overall_status_iff :
    (statuses : List CheckStatus)
    → ((overall_status statuses ≡ pass) ↔ All (λ s. s ≡ pass) statuses)
      × ((overall_status statuses ≡ contradicted) ↔ Any (λ s. s ≡ contradicted) statuses)
      × ((overall_status statuses ≡ unverifiable)
          ↔ (All (λ s. s ≢ contradicted) statuses × Any (λ s. s ≡ unverifiable) statuses))
unfolding overall_status
overall_status_iff statuses =
    let (c_some, c_none) = occurs_iff contradicted statuses in
    let (u_some, u_none) = occurs_iff unverifiable statuses in
    let tests = verdict_iff (occurs contradicted statuses) (occurs unverifiable statuses) in
    (
      iff_trans tests.0 (iff_trans (×_iff c_none u_none) (All-pass_iff statuses)),
      iff_trans tests.1 c_some,
      iff_trans tests.2 (×_iff c_none u_some),
    )
