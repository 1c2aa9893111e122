-- ===== src/Limits/Cache/History.antt =====
-- response_cache.go: the cache against the history of its calls.
use leadflow_v3_server.Base.{
  ap, sym, ◌∙◌, ℕ, ◌+◌, ◌≤◌, String, Option, none, some, false, ◌||◌, List, [], ◌∷◌, ◌==◌, ◌≡◌,
  refl, inl, inr, leb, eqb, length, is_nil, lookup, lookup-insert, length-insert-le, if◌then◌else◌,
  arith, Bool-cases, ◌⊎◌, ◌<◌, ltb, ltb→lt,
}
use leadflow_v3_server.Limits.Cache.{
  Entry, Entries, response_cache_max_entries, get, set, clear, fresh_data, make_room,
}

pub data Call : Type 0 where
  sets : ℕ → String → List ℕ → ℕ → Call
  clears : Call

abbrev pub applied : Call → Entries → Entries
applied (sets now key bytes ttl) c = set now key bytes ttl c
applied clears c = clear c

-- The cache after a history, newest call first.
unfoldable pub after : List Call → Entries
after [] = []
after (call ∷ calls) = applied call (after calls)

-- The specification: the newest effective `Set` of the key since the last `Clear`.
abbrev pub newest : String → List Call → Option Entry
newest key [] = none
newest key (clears ∷ calls) = none
newest key (sets now k bytes ttl ∷ calls) =
    if eqb ttl 0 || is_nil bytes
    then newest key calls
    else if k == key
    then some (record { bytes = bytes; expires = now + ttl })
    else newest key calls

set-length :
    (now : ℕ) (key : String) (bytes : List ℕ) (ttl : ℕ) (c : Entries)
    → length c ≤ response_cache_max_entries
    → length (set now key bytes ttl c) ≤ response_cache_max_entries
unfolding set
set-length now key bytes ttl c h =
    ground (arith, length-insert-le key (record { bytes = bytes; expires = now + ttl }) c)

after-length : (calls : List Call) → length (after calls) ≤ response_cache_max_entries
unfolding after clear
after-length [] = omega arith
after-length (clears ∷ calls) = omega arith
after-length (sets now key bytes ttl ∷ calls) =
    set-length now key bytes ttl (after calls) (after-length calls)

lookup-make_room :
    (key : String) (c : Entries) (e : Entry)
    → lookup key (make_room c) ≡ some e
    → lookup key c ≡ some e
unfolding lookup
lookup-make_room key c e h = ground arith

-- What a lookup after a `Set` finds.
lookup-set :
    (now : ℕ) (k key : String) (bytes : List ℕ) (ttl : ℕ) (c : Entries)
    → lookup key (set now k bytes ttl c) ≡ (
        if eqb ttl 0 || is_nil bytes
        then lookup key c
        else if k == key
        then some (record { bytes = bytes; expires = now + ttl })
        else lookup key (make_room c))
unfolding set
lookup-set now k key bytes ttl c = elim (Bool-cases (eqb ttl 0 || is_nil bytes)) [
  | inl e ↦ rw e
  | inr e ↦ rw e (lookup-insert k key _ (make_room c))
]

lookup-after :
    (calls : List Call) (key : String) (e : Entry)
    → lookup key (after calls) ≡ some e
    → newest key calls ≡ some e
unfolding after clear lookup
lookup-after [] key e h = cc
lookup-after (clears ∷ calls) key e h = cc
lookup-after (sets now k bytes ttl ∷ calls) key e h = ground (
  arith,
  lookup-set now k key bytes ttl (after calls),
  lookup-make_room key (after calls) e,
  lookup-after calls key e,
)

-- What a `Get` at `now` is to serve of an entry.
abbrev pub served : ℕ → Option Entry → Option (List ℕ)
served now none = none
served now (some e) = if leb now e.expires then some e.bytes else none

fresh_data-served : (now : ℕ) (o : Option Entry) → fresh_data now o ≡ served now o
fresh_data-served now none = refl
fresh_data-served now (some e) = ground arith

-- With fewer calls than entries there is no reset.
after-few : (calls : List Call) → length (after calls) ≤ length calls
unfolding after clear set
after-few [] = omega arith
after-few (clears ∷ calls) = omega arith
after-few (sets now key bytes ttl ∷ calls) = ground (
  arith,
  after-few calls,
  length-insert-le key (record { bytes = bytes; expires = now + ttl }) (make_room (after calls)),
)

lookup-few :
    (calls : List Call) (key : String)
    → length calls ≤ response_cache_max_entries
    → lookup key (after calls) ≡ newest key calls
unfolding after clear lookup
lookup-few [] key h = refl
lookup-few (clears ∷ calls) key h = refl
lookup-few (sets now k bytes ttl ∷ calls) key h =
    let room : leb response_cache_max_entries (length (after calls)) ≡ false =
      ground (arith, after-few calls) in
    lookup-set now k key bytes ttl (after calls)
    ∙ (rw room (rw (lookup-few calls key (omega arith)) refl))

-- What a `Get` answers: what the newest effective `Set` stored, or nothing, the latter only after more calls
-- than the cache has entries.
abbrev pub IsAnswer : List Call → String → ℕ → Option (List ℕ) → Type 0
IsAnswer calls key now got =
    (got ≡ served now (newest key calls)) ⊎ ((got ≡ none) × (4_096 < length calls))

-- Whatever was called before, the cache holds at most 4096 entries, and a `Get` returns the data of the
-- newest effective `Set` of that key since the last `Clear` until its time to live has passed, and nothing
-- without such a `Set`; or it returns nothing and there were more than 4096 calls before, so that the cache
-- may have been reset.
pub get-newest :
    (calls : List Call) (now : ℕ) (key : String)
    → (length (after calls) ≤ 4_096) × IsAnswer calls key now (get now key (after calls))
unfolding get
get-newest calls now key = (after-length calls, answer (lookup key (after calls)) refl)
  where
    answer :
        (o : Option Entry)
        → lookup key (after calls) ≡ o
        → IsAnswer calls key now (fresh_data now (lookup key (after calls)))
    answer (some e) p = inl (
        fresh_data-served now (lookup key (after calls))
        ∙ ap (λ o. served now o) (p ∙ sym (lookup-after calls key e p)))
    answer none p = elim (Bool-cases (ltb 4_096 (length calls))) [
      | inl many ↦ inr (ap (λ o. fresh_data now o) p, ltb→lt _ _ many)
      | inr few ↦ inl (
          fresh_data-served now (lookup key (after calls))
          ∙ ap (λ o. served now o) (lookup-few calls key (ground arith)))
    ]
