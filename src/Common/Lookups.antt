-- ===== src/Common/Lookups.antt =====
-- What a map with distinct keys adds up to, which its lookups determine.
use codeweaknesses.Common.{
  inr, inl, ◌==◌, Bool-cases, All, true, ℕ, ◌+◌, String, ◌≡◌, refl, ap, ◌∙◌, sym, Bool, false, none,
  some, [], ◌∷◌, eq_iff, eq_refl, arith, if◌then◌else◌, count, sum,
}
use codeweaknesses.Common.Assoc.{Assoc, lookup, erase, has, HasDistinctKeys, lookup-erase}

module _ {ℓ} {V : Type ℓ} where
  has-erase : (k j : String) (m : Assoc V) → has j m ≡ false → has j (erase k m) ≡ false
  unfolding has erase
  has-erase k j [] h = refl
  has-erase k j ((i, v) ∷ m) h = ground (arith, has-erase k j m)

  erase-HasDistinctKeys :
      (k : String) (m : Assoc V) → HasDistinctKeys m → HasDistinctKeys (erase k m)
  unfolding erase
  erase-HasDistinctKeys k [] d = tt
  erase-HasDistinctKeys k ((j, v) ∷ m) d =
      ground (arith, has-erase k j m, erase-HasDistinctKeys k m)

  -- A key that is not there.
  pub lookup_of_missing : (k : String) (m : Assoc V) → has k m ≡ false → lookup k m ≡ none
  unfolding has lookup
  lookup_of_missing k [] h = refl
  lookup_of_missing k ((j, v) ∷ m) h = ground (arith, lookup_of_missing k m)

  erase_missing : (k : String) (m : Assoc V) → has k m ≡ false → erase k m ≡ m
  unfolding has erase
  erase_missing k [] h = refl
  erase_missing k ((j, v) ∷ m) h = ground (arith, erase_missing k m)

  has_of_lookup : (k : String) (m : Assoc V) {v : V} → lookup k m ≡ some v → has k m ≡ true
  unfolding lookup has
  has_of_lookup k [] h = cc
  has_of_lookup k ((j, w) ∷ m) h = elim (Bool-cases (j == k)) [
    | inl e ↦ rw e
    | inr e ↦ rw e (has_of_lookup k m (rw e at h))
  ]

  lookups_cons :
      (j : String) (v : V) (m es : Assoc V)
      → has j m ≡ false
      → All (λ kv. lookup kv.0 m ≡ some kv.1) es
      → All (λ kv. lookup kv.0 ((j, v) ∷ m) ≡ some kv.1) es
  unfolding lookup
  lookups_cons j v m [] new h = tt
  lookups_cons j v m ((k, w) ∷ es) new h =
      (ground (arith, eq_iff j k, has_of_lookup k m h.0), lookups_cons j v m es new h.1)

  -- With distinct keys, every pair of a map is what its key looks up.
  pub lookups : (m : Assoc V) → HasDistinctKeys m → All (λ kv. lookup kv.0 m ≡ some kv.1) m
  unfolding lookup
  lookups [] d = tt
  lookups ((j, v) ∷ m) d = (rw (eq_refl j), lookups_cons j v m m d.0 (lookups m d.1))

  module _ (f : String × V → ℕ) where
    sum-erase :
        (k : String) (v : V) (m : Assoc V)
        → HasDistinctKeys m
        → lookup k m ≡ some v
        → sum f m ≡ f (k, v) + sum f (erase k m)
    unfolding erase lookup
    sum-erase k v [] d h = cc
    sum-erase k v ((j, w) ∷ m) d h =
        grind (arith, eq_iff j k, erase_missing j m d.0, sum-erase k v m d.1)

    -- Maps with the same lookups have the same sums, in whatever order their keys stand.
    pub sum-same :
        (m m' : Assoc V)
        → HasDistinctKeys m
        → HasDistinctKeys m'
        → ((k : String) → lookup k m ≡ lookup k m')
        → sum f m ≡ sum f m'
    unfolding lookup
    sum-same [] [] d d' h = refl
    sum-same [] ((k, v) ∷ m') d d' h = let there = h k in grind (arith, there, eq_refl k)
    sum-same ((k, v) ∷ m) m' d d' h =
        let there : lookup k m' ≡ some v = sym (h k) ∙ ground (arith, eq_refl k) in
        let rest : (j : String) → lookup j m ≡ lookup j (erase k m') =
          λ j. grind (arith, h j, lookup-erase k j m', eq_iff k j, lookup_of_missing k m d.0) in
        omega (
          arith,
          sum-erase k v m' d' there,
          sum-same m (erase k m') d.1 (erase-HasDistinctKeys k m' d') rest,
        )

  sum_of_count :
      (P : String × V → Bool) (m : Assoc V) → count P m ≡ sum (λ kv. if P kv then 1 else 0) m
  sum_of_count P [] = refl
  sum_of_count P (kv ∷ m) = ap (λ n. (if P kv then 1 else 0) + n) (sum_of_count P m)

  pub count-same :
      (P : String × V → Bool) (m m' : Assoc V)
      → HasDistinctKeys m
      → HasDistinctKeys m'
      → ((k : String) → lookup k m ≡ lookup k m')
      → count P m ≡ count P m'
  count-same P m m' d d' h =
      sum_of_count P m
      ∙ sum-same (λ kv. if P kv then 1 else 0) m m' d d' h
      ∙ sym (sum_of_count P m')
