-- ===== src/Limits/Cache.antt =====
-- response_cache.go: the in-memory cache of encoded responses. A negative or zero ttl is 0; the data is
-- its list of bytes.
pub mod History
use leadflow_v3_server.Base.{
  ℕ, ◌+◌, String, Option, none, some, Bool, true, false, ◌||◌, List, [], ◌∷◌, eqb, ltb, leb, length,
  is_nil, lookup, insert, if◌then◌else◌,
}

pub record Entry : Type 0 where
  pub bytes : List ℕ
  pub expires : ℕ

abbrev pub Entries : Type 0
Entries = List (String × Entry)

abbrev pub response_cache_max_entries : ℕ
response_cache_max_entries = 4096

abbrev pub fresh_data : ℕ → Option Entry → Option (List ℕ)
fresh_data now none = none
fresh_data now (some e) = if ltb e.expires now then none else some e.bytes

unfoldable pub get : ℕ → String → Entries → Option (List ℕ)
unfolding lookup
get now key c = fresh_data now (lookup key c)

-- The map after the full reset, if one is due.
abbrev pub make_room : Entries → Entries
make_room c = if leb response_cache_max_entries (length c) then [] else c

unfoldable pub set : ℕ → String → List ℕ → ℕ → Entries → Entries
unfolding insert
set now key bytes ttl c =
    if eqb ttl 0 || is_nil bytes
    then c
    else insert key (record { bytes = bytes; expires = now + ttl }) (make_room c)

unfoldable pub clear : Entries → Entries
clear c = []
