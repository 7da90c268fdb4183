-- ===== src/Node/Policy/Accept.antt =====
-- What is accepted, and why.
use ghost_cache.Common.{
  ℕ, ◌≤◌, ◌≡◌, ◌⊎◌, refl, arith, inl, inr, Bool, true, false, not, ◌&&◌, List, Option, none, some,
  ltb, Bool-cases, Result, ok, err, Error,
}
use ghost_cache.Publication.Manifest.{Manifest, Signature}
use ghost_cache.Publication.Signing.{verify_signature, verify_manifest_signature}
use ghost_cache.Node.Policy.{
  trusted, AcquisitionPolicy, is_signed, is_trusted, is_valid, satisfies, accept,
}

verify_signature-none :
    (verify : List ℕ → List ℕ → List ℕ → Bool) (m : Manifest)
    → verify_signature verify m none ≡ ok tt
unfolding verify_signature
verify_signature-none verify m = refl

is_valid→ok : (r : Result (Unit {0})) → is_valid r ≡ true → r ≡ ok tt
unfolding is_valid
is_valid→ok (ok tt) h = refl
is_valid→ok (err e) h = cc

unsigned_valid :
    (verify : List ℕ → List ℕ → List ℕ → Bool) (m : Manifest) (sig : Option Signature)
    → (is_signed sig && not (is_valid (verify_signature verify m sig))) ≡ false
    → verify_signature verify m sig ≡ ok tt
unsigned_valid verify m none h = verify_signature-none verify m
unsigned_valid verify m (some s) h =
    is_valid→ok (verify_signature verify m (some s)) (ground (arith, h))

-- The size limit, read off its test.
within_limit :
    (p : AcquisitionPolicy) (m : Manifest) (partial : Bool)
    → (not partial && (p.has_max_size && ltb p.max_auto_size m.length)) ≡ false
    → (partial ≡ true) ⊎ ((p.has_max_size ≡ false) ⊎ (m.length ≤ p.max_auto_size))
within_limit p m partial h = ground (arith, Bool-cases partial, Bool-cases p.has_max_size)

-- Whatever is accepted has a signature that verifies, or none. What nobody asked for is within the
-- size limit, unless it has been begun, and satisfies the signature policy.
pub accept_sound :
    (verify : List ℕ → List ℕ → List ℕ → Bool) (p : AcquisitionPolicy) (m : Manifest)
    (partial wanted : Bool)
    → accept verify p m partial wanted ≡ true
    → (verify_manifest_signature verify m ≡ ok tt)
      × ((wanted ≡ true)
          ⊎ (((partial ≡ true) ⊎ ((p.has_max_size ≡ false) ⊎ (m.length ≤ p.max_auto_size)))
              × (satisfies p.signature p.trust m.signature ≡ true)))
unfolding accept verify_manifest_signature
accept_sound verify p m partial wanted h =
    elim (Bool-cases
      (is_signed m.signature && not (is_valid (verify_signature verify m m.signature)))) [
        | inl bad ↦ absurd (ground (arith, bad))
        | inr good ↦ (
          unsigned_valid verify m m.signature good,
          elim (Bool-cases wanted) [
            | inl asked ↦ inl asked
            | inr unasked ↦
                elim (Bool-cases
                  (not partial && (p.has_max_size && ltb p.max_auto_size m.length))) [
                    | inl big ↦ absurd (ground (arith, good, unasked, big))
                    | inr fits ↦
                        inr (within_limit p m partial fits, ground (arith, good, unasked, fits))
                  ]
          ],
        )
      ]

signed_of_error :
    (verify : List ℕ → List ℕ → List ℕ → Bool) (m : Manifest) (sig : Option Signature) (e : Error)
    → verify_signature verify m sig ≡ err e
    → is_signed sig ≡ true
signed_of_error verify m none e h = absurd (let good = verify_signature-none verify m in cc)
signed_of_error verify m (some s) e h = refl

-- Nothing with a broken signature is fetched, not even on request.
pub accept_refuses :
    (verify : List ℕ → List ℕ → List ℕ → Bool) (p : AcquisitionPolicy) (m : Manifest)
    (partial wanted : Bool) (e : Error)
    → verify_manifest_signature verify m ≡ err e
    → accept verify p m partial wanted ≡ false
unfolding accept is_valid verify_manifest_signature
accept_refuses verify p m partial wanted e h =
    let signed : is_signed m.signature ≡ true = signed_of_error verify m m.signature e h in
    rw (signed, h) refl

trusted_key :
    (trust : Option (List ℕ → Bool)) (sig : Option Signature)
    → satisfies trusted trust sig ≡ true
    → (s : Signature) × (trusts : List ℕ → Bool) × (sig ≡ some s)
      × (trust ≡ some trusts)
      × (trusts s.public_key ≡ true)
unfolding satisfies is_trusted
trusted_key trust none h = cc
trusted_key none (some s) h = cc
trusted_key (some trusts) (some s) h = (s, trusts, refl, refl, h)

-- Under the trusted policy only publications of trusted keys are fetched unasked.
pub accept_trusted :
    (verify : List ℕ → List ℕ → List ℕ → Bool) (p : AcquisitionPolicy) (m : Manifest)
    (partial : Bool)
    → p.signature ≡ trusted
    → accept verify p m partial false ≡ true
    → (s : Signature) × (trusts : List ℕ → Bool) × (m.signature ≡ some s)
      × (p.trust ≡ some trusts)
      × (trusts s.public_key ≡ true)
accept_trusted verify p m partial t h = elim (accept_sound verify p m partial false h).1 [
  | inl asked ↦ absurd (ground (arith, asked))
  | inr (size, good) ↦ trusted_key p.trust m.signature (rw t at good)
]
