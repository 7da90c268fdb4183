-- ===== src/Publication/Catalog/Resolve.antt =====
-- A prefix that is resolved stands for one publication.
use ghost_cache.Common.{
  ℕ, ◌≡◌, ◌⊎◌, refl, sym, subst, inl, inr, true, ◌||◌, Bool-cases, List, [], ◌∷◌, ltb, length,
  trim_space, to_lower, has_prefix, ok, refused, >>=-eq-ok, fail_if,
}
use ghost_cache.Publication.Packet.{PublicationId}
use ghost_cache.Publication.Catalog.{Entries, id_string, matching, only_match, resolve}

-- An entry of the catalog.
unfoldable pub HasEntry : PublicationId → Entries → Type 0
HasEntry id [] = ⊥
HasEntry id (e ∷ entries) = (e.1.manifest.id ≡ id) ⊎ HasEntry id entries

unfoldable pub Among : PublicationId → List PublicationId → Type 0
Among id [] = ⊥
Among id (x ∷ xs) = (x ≡ id) ⊎ Among id xs

matching-Among :
    (id : PublicationId) (entries : Entries) (prefix : List ℕ)
    → HasEntry id entries
    → has_prefix (id_string id) prefix ≡ true
    → Among id (matching entries prefix)
unfolding HasEntry Among matching
matching-Among id [] prefix h m = h
matching-Among id (e ∷ entries) prefix (inl here) m = rw (here, m) (inl refl)
matching-Among id (e ∷ entries) prefix (inr later) m =
    let rest = matching-Among id entries prefix later m in
    elim (Bool-cases (has_prefix (id_string e.1.manifest.id) prefix)) [
      | inl also ↦ rw also (inr rest)
      | inr other ↦ rw other rest
    ]

matching_sound :
    (id : PublicationId) (entries : Entries) (prefix : List ℕ)
    → Among id (matching entries prefix)
    → HasEntry id entries × (has_prefix (id_string id) prefix ≡ true)
unfolding HasEntry Among matching
matching_sound id [] prefix h = elim h [ ]
matching_sound id (e ∷ entries) prefix h =
    elim (Bool-cases (has_prefix (id_string e.1.manifest.id) prefix)) [
      | inl also ↦ elim (rw also at h) [
        | inl here ↦ (
          inl here,
          subst (λ (x : PublicationId). has_prefix (id_string x) prefix ≡ true) here also,
        )
        | inr later ↦ let (there, m) = matching_sound id entries prefix later in (inr there, m)
      ]
      | inr other ↦
          let (there, m) = matching_sound id entries prefix (rw other at h) in (inr there, m)
    ]

only_match-ok :
    (ids : List PublicationId) (id : PublicationId) → only_match ids ≡ ok id → ids ≡ id ∷ []
unfolding only_match
only_match-ok [] id h = cc
only_match-ok (x ∷ []) id h = cc
only_match-ok (x ∷ y ∷ more) id h = cc

-- What a prefix that was resolved leaves as the only match.
resolve-ok :
    (entries : Entries) (text : List ℕ) (id : PublicationId)
    → resolve entries text ≡ ok id
    → matching entries (to_lower (trim_space text)) ≡ id ∷ []
unfolding resolve
resolve-ok entries text id h =
    let prefix = to_lower (trim_space text) in
    let (u, size, rest) =
      >>=-eq-ok (fail_if (ltb (length prefix) 4 || ltb 32 (length prefix)) refused) _ h in
    only_match-ok (matching entries prefix) id rest

-- A prefix that is resolved is the prefix of an ID in the catalog.
pub resolve_sound :
    (entries : Entries) (text : List ℕ) (id : PublicationId)
    → resolve entries text ≡ ok id
    → HasEntry id entries × (has_prefix (id_string id) (to_lower (trim_space text)) ≡ true)
unfolding Among
resolve_sound entries text id h =
    matching_sound id entries (to_lower (trim_space text))
      (rw (resolve-ok entries text id h) (inl refl))

-- A prefix that is resolved stands for one publication: every ID of the catalog that begins with it,
-- in lower case and without the blanks around it, is the one that is returned.
pub resolve_unique :
    (entries : Entries) (text : List ℕ) (id other : PublicationId)
    → resolve entries text ≡ ok id
    → HasEntry other entries
    → has_prefix (id_string other) (to_lower (trim_space text)) ≡ true
    → other ≡ id
unfolding Among
resolve_unique entries text id other h has fits =
    elim (rw (resolve-ok entries text id h) at
      (matching-Among other entries (to_lower (trim_space text)) has fits)) [
        | inl same ↦ sym same
        | inr never ↦ elim never [ ]
      ]
