-- ===== src/Node/Policy.antt =====
-- internal/node/policy.go: which publications a node fetches by itself.
pub mod Accept
use ghost_cache.Common.{
  ℕ, Bool, true, false, not, ◌&&◌, ◌||◌, List, [], ◌∷◌, Option, none, some, ltb, if◌then◌else◌,
  bytes_eq, Result, ok, err, refused,
}
use ghost_cache.Publication.Manifest.{Manifest, Signature}
use ghost_cache.Publication.Signing.{verify_manifest_signature}

pub data SignaturePolicy : Type 0 where
  permissive required trusted : SignaturePolicy

-- The value is its bytes: "", "permissive", "signed" or "trusted".
unfoldable pub parse_signature_policy : List ℕ → Result SignaturePolicy
parse_signature_policy value =
    if bytes_eq value []
      || bytes_eq value (b'p' ∷ b'e' ∷ b'r' ∷ b'm' ∷ b'i' ∷ b's' ∷ b's' ∷ b'i' ∷ b'v' ∷ b'e' ∷ [])
    then ok permissive
    else if bytes_eq value (b's' ∷ b'i' ∷ b'g' ∷ b'n' ∷ b'e' ∷ b'd' ∷ [])
    then ok required
    else if bytes_eq value (b't' ∷ b'r' ∷ b'u' ∷ b's' ∷ b't' ∷ b'e' ∷ b'd' ∷ [])
    then ok trusted
    else err refused

-- The trust store, when there is one, is what its `Trusted` answers for each key.
pub record AcquisitionPolicy : Type 0 where
  pub max_auto_size : ℕ
  pub has_max_size : Bool
  pub signature : SignaturePolicy
  pub trust : Option (List ℕ → Bool)

abbrev pub is_signed : Option Signature → Bool
is_signed none = false
is_signed (some s) = true

-- `p.Trust != nil && p.Trust.Trusted(key)`, for the key of a signature.
unfoldable pub is_trusted : Option (List ℕ → Bool) → Option Signature → Bool
is_trusted trust none = false
is_trusted none (some s) = false
is_trusted (some trusts) (some s) = trusts s.public_key

-- Whether the check of the signature found no error.
unfoldable pub is_valid : Result (Unit {0}) → Bool
is_valid (ok u) = true
is_valid (err e) = false

-- The switch on the signature policy.
unfoldable pub satisfies : SignaturePolicy → Option (List ℕ → Bool) → Option Signature → Bool
satisfies permissive trust sig = true
satisfies required trust sig = is_signed sig
satisfies trusted trust sig = is_signed sig && is_trusted trust sig

unfoldable pub accept :
    (List ℕ → List ℕ → List ℕ → Bool) → AcquisitionPolicy → Manifest → Bool → Bool → Bool
accept verify p m partial wanted =
    if is_signed m.signature && not (is_valid (verify_manifest_signature verify m))
    then false
    else if wanted
    then true
    else if not partial && (p.has_max_size && ltb p.max_auto_size m.length)
    then false
    else satisfies p.signature p.trust m.signature
