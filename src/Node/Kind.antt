-- ===== src/Node/Kind.antt =====
-- The packet types of internal/node/protocol.go.
use ghost_cache.Common.{ℕ}

abbrev pub inventory : ℕ
inventory = 1

abbrev pub get_manifest : ℕ
get_manifest = 2

abbrev pub manifest : ℕ
manifest = 3

abbrev pub get_chunks : ℕ
get_chunks = 4

abbrev pub chunk : ℕ
chunk = 5

abbrev pub summary_request : ℕ
summary_request = 7

abbrev pub summary : ℕ
summary = 8

abbrev pub leaf : ℕ
leaf = 9

abbrev pub get_signature : ℕ
get_signature = 10

abbrev pub signature : ℕ
signature = 11
