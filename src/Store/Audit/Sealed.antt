-- ===== src/Store/Audit/Sealed.antt =====
-- The last hash of a log seals every row before it.
use Prim.Native.Char.{Char, code}
use Prim.Native.String.{◌++◌ as text_append}
use text.Mathlib.TextLemmas.{nil-append, cons-append}
use mathlib.Core.Path.{subst}
use mathlib.Core.Bool.{true≢false}
use qualityci.Text.{join}
use qualityci.Store.Audit.{AuditEvent, seed_of, last_hash, Services}
use qualityci.Store.Audit.Linked.{IsChain}
use qualityci.Prelude.{
  ℕ, suc, String, ◌≡◌, refl, sym, ap, ◌∙◌, ◌≢◌, ◌⊎◌, inl, inr, Bool, true, false, List, [], ◌∷◌,
  arith, eqb, if◌then◌else◌, nat_eq, string_eq, pair_eq, length,
}

-- What stands before the first bar.
unfoldable pub before_bar : String → String
before_bar String.[] = ""
before_bar (String.◌∷◌ c s) =
    let rest = before_bar s in if eqb (code c) b'|' then "" else String.◌∷◌ c rest

-- A text without a bar.
abbrev pub HasNoBar : String → Type 0
HasNoBar s = before_bar s ≡ s

tail : String → String
tail String.[] = ""
tail (String.◌∷◌ c s) = s

is_nil : String → Bool
is_nil String.[] = true
is_nil (String.◌∷◌ c s) = false

no_bar_head :
    (c : Char) (s : String) → HasNoBar (String.◌∷◌ c s) → (eqb (code c) b'|' ≡ false) × HasNoBar s
unfolding before_bar tail is_nil
no_bar_head c s h = go (eqb (code c) b'|') refl h
  where
    go :
        (b : Bool)
        → eqb (code c) b'|' ≡ b
        → (if b then "" else String.◌∷◌ c (before_bar s)) ≡ String.◌∷◌ c s
        → (eqb (code c) b'|' ≡ false) × HasNoBar s
    go true e h = absurd (true≢false (ap is_nil h))
    go false e h = (e, ap tail h)

bar_next : (s t : String) → HasNoBar s → before_bar (text_append s (text_append "|" t)) ≡ s
unfolding before_bar
bar_next String.[] t h =
    ap before_bar (nil-append (text_append "|" t)) ∙ ap before_bar (cons-append "|" "" t)
bar_next (String.◌∷◌ c s) t h =
    let (e, rest) = no_bar_head c s h in
    ap before_bar (cons-append c s (text_append "|" t))
    ∙ rw e (ap (String.◌∷◌ c) (bar_next s t rest))

-- The seed of an event tells the hash that it names, when that hash has no bar.
previous_of :
    (e f : AuditEvent)
    → HasNoBar e.previous_hash
    → HasNoBar f.previous_hash
    → seed_of e ≡ seed_of f
    → e.previous_hash ≡ f.previous_hash
unfolding seed_of join
previous_of e f he hf h =
    sym (bar_next e.previous_hash _ he) ∙ ap before_bar h ∙ bar_next f.previous_hash _ hf

no_zero : {n : ℕ} → 0 ≢ suc n
no_zero h = omega (arith, h)

-- The seeds of two logs, row by row.
abbrev pub SameSeeds : List AuditEvent → List AuditEvent → Type 0
SameSeeds [] [] = Unit
SameSeeds (e ∷ es) (f ∷ fs) = (seed_of e ≡ seed_of f) × SameSeeds es fs
SameSeeds _ _ = ⊥

module _ (services : Services) (hex : (s : String) → HasNoBar (services.sha256 s)) where
  open services use {sha256}

  -- Row by row, the hashes of the two seeds differ or the seeds are the same.
  abbrev pub NoCollision : List AuditEvent → List AuditEvent → Type 0
  NoCollision (e ∷ es) (f ∷ fs) =
      ((sha256 (seed_of e) ≢ sha256 (seed_of f)) ⊎ (seed_of e ≡ seed_of f)) × NoCollision es fs
  NoCollision _ _ = Unit

  same_seeds :
      (n m : ℕ) (p q : String) (es fs : List AuditEvent)
      → HasNoBar p
      → HasNoBar q
      → length es ≡ length fs
      → NoCollision es fs
      → IsChain services n p es
      → IsChain services m q fs
      → last_hash p es ≡ last_hash q fs
      → (p ≡ q) × SameSeeds es fs
  unfolding last_hash
  same_seeds n m p q [] [] hp hq l k c d h = (h, tt)
  same_seeds n m p q [] (f ∷ fs) hp hq l k c d h = absurd (no_zero l)
  same_seeds n m p q (e ∷ es) [] hp hq l k c d h = absurd (no_zero (sym l))
  same_seeds n m p q (e ∷ es) (f ∷ fs) hp hq l (k, ks) (_, ep, eh, ec) (_, fp, fh, fc) h =
      let (hashes, rest) =
        same_seeds (suc n) (suc m) e.event_hash f.event_hash es fs
          (subst HasNoBar eh (hex (seed_of e))) (subst HasNoBar fh (hex (seed_of f)))
          (omega (arith, l)) ks ec fc h in
      let seeds : seed_of e ≡ seed_of f = elim k [
        | inl differ ↦ absurd (differ (eh ∙ hashes ∙ sym fh))
        | inr same ↦ same
      ] in
      let previous =
        previous_of e f (subst HasNoBar (sym ep) hp) (subst HasNoBar (sym fp) hq) seeds in
      (sym ep ∙ previous ∙ fp, (seeds, rest))

  -- The last hash seals the log, for a hash whose digests have no bar: two chains of the same length
  -- from GENESIS with the same last hash, of whose rows no two at the same place have different seeds
  -- with the same hash, have the same seed in every row.
  pub IsChain-SameSeeds :
      (es fs : List AuditEvent)
      → length es ≡ length fs
      → NoCollision es fs
      → IsChain services 1 "GENESIS" es
      → IsChain services 1 "GENESIS" fs
      → last_hash "GENESIS" es ≡ last_hash "GENESIS" fs
      → SameSeeds es fs
  unfolding before_bar
  IsChain-SameSeeds es fs l k c d h =
      (same_seeds 1 1 "GENESIS" "GENESIS" es fs refl refl l k c d h).1
