-- ===== src/Registry.antt =====
-- src/registry/mod.rs: whether a package exists, with a cache of the answers. The registries are an
-- argument, and so are the moments of the look-up and of the insertion.
pub mod Cached
pub mod Sized
use codasaurus.Prelude.{
  ℕ, ◌+◌, ◌-◌, ◌/◌, String, Text, codes, text_eq, List, [], ◌∷◌, ◌++◌, map, Option, none, some,
  Bool, not, ◌||◌, ltb, leb, if◌then◌else◌, one_of, length, take, retain, sort_by,
}

pub data PkgCacheVal : Type 0 where
  known : Bool → PkgCacheVal
  soft_fail : PkgCacheVal

-- `Result<Option<bool>>`.
pub data Checked : Type 0 where
  ok : Option Bool → Checked
  err : Checked

-- Entries under distinct keys.
abbrev pub Cache : Type 0
Cache = List (Text × (PkgCacheVal × ℕ))

abbrev pub cache_max_size : ℕ
cache_max_size = 10_000

abbrev pub soft_fail_ttl_secs : ℕ
soft_fail_ttl_secs = 120

abbrev pub is_key : Text → Text × (PkgCacheVal × ℕ) → Bool
is_key k e = text_eq e.0 k

abbrev pub get : Text → Cache → Option (PkgCacheVal × ℕ)
get k [] = none
get k (e ∷ c) = if is_key k e then some e.1 else get k c

abbrev pub insert : Text → PkgCacheVal × ℕ → Cache → Cache
insert k v [] = (k, v) ∷ []
insert k v (e ∷ c) = if is_key k e then (k, v) ∷ c else e ∷ insert k v c

abbrev pub remove_all : List Text → Cache → Cache
remove_all [] c = c
remove_all (k ∷ ks) c = remove_all ks (retain (λ e. not (is_key k e)) c)

abbrev pub is_fresh : ℕ → ℕ → PkgCacheVal × ℕ → Bool
is_fresh ttl now (soft_fail, time) = ltb (now - time) soft_fail_ttl_secs
is_fresh ttl now (known b, time) = ltb (now - time) ttl

abbrev pub is_older : Text × (PkgCacheVal × ℕ) → Text × (PkgCacheVal × ℕ) → Bool
is_older a b = leb a.1.1 b.1.1

abbrev pub oldest_keys : Cache → List Text
oldest_keys c = map (λ e. e.0) (sort_by is_older c)

-- What has expired goes, and then the oldest entries until half of the size is left; among equal
-- moments the order is that of the list, where the code leaves it open.
unfoldable pub evict_cache : ℕ → ℕ → Cache → Cache
evict_cache ttl now cache =
    let fresh = retain (λ e. is_fresh ttl now e.1) cache in
    if leb (length fresh) (cache_max_size / 2)
    then fresh
    else remove_all (take (length fresh - cache_max_size / 2) (oldest_keys fresh)) fresh

abbrev pub cache_key : String → Text → Text
cache_key registry pkg = codes registry ++ b':' ∷ pkg

-- Offline an answer never expires, but a failure does.
unfoldable pub cached : ℕ → Bool → ℕ → Option (PkgCacheVal × ℕ) → Option Checked
cached ttl offline now none = none
cached ttl offline now (some (known exists, time)) =
    if ltb (now - time) ttl || offline then some (ok (some exists)) else none
cached ttl offline now (some (soft_fail, time)) =
    if ltb (now - time) soft_fail_ttl_secs then some (ok none) else none

abbrev pub kept : Checked → PkgCacheVal
kept (ok (some exists)) = known exists
kept (ok none) = soft_fail
kept err = soft_fail

unfoldable pub store : ℕ → ℕ → Text → Checked → Cache → Cache
store ttl now key result cache =
    let cache = insert key (kept result, now) cache in
    if ltb cache_max_size (length cache) then evict_cache ttl now cache else cache

-- `fetch` asks a registry.
module _ (fetch : String → Text → Checked) (ttl : ℕ) (offline : Bool) where
  abbrev pub asked : ℕ → String → Text → Cache → Checked × Cache
  asked later registry pkg cache =
      if offline || not (one_of registry ("npm" ∷ "pypi" ∷ "crates.io" ∷ "go" ∷ []))
      then (ok none, cache)
      else (fetch registry pkg, store ttl later (cache_key registry pkg) (fetch registry pkg) cache)

  abbrev pub or_asked : Option Checked → ℕ → String → Text → Cache → Checked × Cache
  or_asked (some answer) later registry pkg cache = (answer, cache)
  or_asked none later registry pkg cache = asked later registry pkg cache

  unfoldable pub check_package_async : ℕ → ℕ → String → Text → Cache → Checked × Cache
  check_package_async now later registry pkg cache =
      or_asked (cached ttl offline now (get (cache_key registry pkg) cache)) later registry pkg
        cache
