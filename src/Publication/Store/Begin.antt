-- ===== src/Publication/Store/Begin.antt =====
-- `Begin`, `LoadPartial`, `DiscardPartial`, `Restart` and `ReadChunk` of
-- internal/publication/store.go.
use ghost_cache.Common.{
  ℕ, zero, suc, ◌+◌, ◌-◌, ◌*◌, Bool, false, not, ◌||◌, List, [], ◌∷◌, Option, none, some, ltb, leb,
  ◌==◌, if◌then◌else◌, length, slice, bytes_eq, Result, ok, err, malformed, io_error, refused,
  ◌>>=◌, ◌>>◌, fail_if,
}
use ghost_cache.Publication.Packet.{PublicationId}
use ghost_cache.Publication.Manifest.{Manifest}
use ghost_cache.Publication.Assembly.{Assembly, new_assembly, add}
use ghost_cache.Publication.Store.{
  Files, read_file, remove_all, World, write_all, read_manifest, load_manifest, is_some,
  object_content, partial_manifest, partial_chunk,
}
use ghost_cache.Publication.Store.Writes.{stored_form}

-- `filepath.Base`, on the reversed name: "." for an empty path, "/" for slashes only.
unfoldable pub skip_slashes : List ℕ → List ℕ
skip_slashes [] = []
skip_slashes (c ∷ cs) = let rest = skip_slashes cs in if c == b'/' then rest else c ∷ cs

unfoldable pub until_slash : List ℕ → List ℕ
until_slash [] = []
until_slash (c ∷ cs) = let rest = until_slash cs in if c == b'/' then [] else c ∷ rest

unfoldable pub reverse_onto : List ℕ → List ℕ → List ℕ
reverse_onto acc [] = acc
reverse_onto acc (c ∷ cs) = reverse_onto (c ∷ acc) cs

unfoldable pub base_name : List ℕ → List ℕ
base_name [] = b'.' ∷ []
base_name (c ∷ cs) =
    let last = skip_slashes (reverse_onto [] (c ∷ cs)) in
    if length last == 0 then b'/' ∷ [] else reverse_onto [] (until_slash last)

unfoldable pub is_unsafe : List ℕ → Bool
is_unsafe name =
    not (bytes_eq (base_name name) name) || bytes_eq name (b'.' ∷ []) || length name == 0

-- The loop of `Begin` over the chunk files, with n chunks left; a chunk without a file is skipped.
unfoldable pub add_stored : Assembly → ℕ → Option (List ℕ) → Result Assembly
add_stored a i none = ok a
add_stored a i (some bytes) = add a i bytes

unfoldable pub resume_loop : ℕ → Files → ℕ → Assembly → Result Assembly
resume_loop zero files i a = ok a
resume_loop (suc n) files i a =
    add_stored a i (read_file files (partial_chunk a.manifest.id i)) >>= λ b.
    resume_loop n files (i + 1) b

abbrev pub conflicts : Option (List ℕ) → List ℕ → Bool
conflicts none raw = false
conflicts (some old) raw = not (bytes_eq old raw)

unfoldable pub resume : Manifest → Files × Result (Unit {0}) → Files × Result Assembly
resume m (files, err e) = (files, err e)
resume m (files, ok u) = (files, resume_loop m.chunk_count files 0 (new_assembly m))

-- `Begin`.
unfoldable pub begin_assembly : World → Manifest → Files → Files × Result Assembly
begin_assembly w m files =
    let stored = read_file files (partial_manifest m.id) in
    let written = write_all w ((partial_manifest m.id, stored_form w m) ∷ []) files in
    if is_unsafe m.filename
    then (files, err malformed)
    else if conflicts stored (stored_form w m)
    then (files, err refused)
    else resume m (if is_some stored then (files, ok tt) else written)

unfoldable pub begin_read : World → Files → Result Manifest → Files × Result Assembly
begin_read w files (err e) = (files, err e)
begin_read w files (ok m) = begin_assembly w m files

unfoldable pub load_partial : World → PublicationId → Files → Files × Result Assembly
load_partial w id files =
    begin_read w files (read_manifest w (read_file files (partial_manifest id)))

unfoldable pub discard_partial : World → PublicationId → Files → Files × Result (Unit {0})
discard_partial w id files = remove_all w id files

unfoldable pub begin_again : World → Manifest → Files × Result (Unit {0}) → Files × Result Assembly
begin_again w m (files, err e) = (files, err e)
begin_again w m (files, ok u) = begin_assembly w m files

unfoldable pub restart : World → Manifest → Files → Files × Result Assembly
restart w m files = begin_again w m (discard_partial w m.id files)

-- `ReadChunk` reads as many bytes as the chunk has, or fails at the end of the file.
unfoldable pub chunk_of_content : Manifest → ℕ → Option (List ℕ) → Result (List ℕ)
chunk_of_content m index none = err io_error
chunk_of_content m index (some whole) =
    let start = index * m.chunk_size in
    let size = if index == m.chunk_count - 1 then m.length - start else m.chunk_size in
    if ltb (length whole) (start + size)
    then err io_error
    else ok (slice start (start + size) whole)

unfoldable pub read_chunk : World → Files → PublicationId → ℕ → Result (List ℕ)
read_chunk w files id index = do
  m ← load_manifest w files id
  fail_if (leb m.chunk_count index) malformed
  chunk_of_content m index (read_file files (object_content id))
