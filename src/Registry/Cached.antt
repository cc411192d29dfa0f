-- ===== src/Registry/Cached.antt =====
-- src/registry/mod.rs: what the cache answers.
use codasaurus.Registry.{
  PkgCacheVal, Checked, ok, err, Cache, cache_max_size, soft_fail_ttl_secs, is_key, get, insert,
  cache_key, cached, kept, store, asked, or_asked, check_package_async,
}
use codasaurus.Prelude.{
  ℕ, ◌+◌, ◌-◌, ◌≤◌, ◌<◌, String, Text, text_eq_refl, [], ◌∷◌, Option, none, some, Bool, true, false,
  ltb, lt→ltb, Bool-cases, one_of, length, ◌≡◌, refl, ap, ◌∙◌, inl, inr, arith,
}

pub length-insert :
    (k : Text) (v : PkgCacheVal × ℕ) (c : Cache) → length (insert k v c) ≤ length c + 1
length-insert k v [] = omega arith
length-insert k v (e ∷ c) = elim (Bool-cases (is_key k e)) [
  | inl q ↦ rw q (omega arith)
  | inr q ↦ rw q (omega (arith, length-insert k v c))
]

get-insert : (k : Text) (v : PkgCacheVal × ℕ) (c : Cache) → get k (insert k v c) ≡ some v
get-insert k v [] = rw (text_eq_refl k) refl
get-insert k v (e ∷ c) = elim (Bool-cases (is_key k e)) [
  | inl q ↦ rw (q, text_eq_refl k) refl
  | inr q ↦ rw (q, q) (get-insert k v c)
]

store-room :
    (ttl now : ℕ) (k : Text) (r : Checked) (c : Cache)
    → length c < cache_max_size
    → store ttl now k r c ≡ insert k (kept r, now) c
unfolding store
store-room ttl now k r c room =
    let size = length-insert k (kept r, now) c in
    let fits : ltb cache_max_size (length (insert k (kept r, now) c)) ≡ false =
      ground (arith, size, room) in
    rw fits refl

-- What the cache says of an answer: nothing is known of a package whose registry failed.
abbrev pub seen : Checked → Checked
seen (ok answer) = ok answer
seen err = ok none

cached-kept :
    (ttl : ℕ) (offline : Bool) (now time : ℕ) (r : Checked)
    → now - time < ttl
    → now - time < soft_fail_ttl_secs
    → cached ttl offline now (some (kept r, time)) ≡ some (seen r)
unfolding cached
cached-kept ttl offline now time (ok (some b)) t s = rw (lt→ltb _ _ t) refl
cached-kept ttl offline now time (ok none) t s = rw (lt→ltb _ _ s) refl
cached-kept ttl offline now time err t s = rw (lt→ltb _ _ s) refl

module _ (fetch : String → Text → Checked) (ttl : ℕ) (offline : Bool) (now later : ℕ)
    (registry : String) (pkg : Text) (c : Cache) where
  pub check_package_async-cached :
      (o : Option Checked)
      → cached ttl offline now (get (cache_key registry pkg) c) ≡ o
      → check_package_async fetch ttl offline now later registry pkg c
        ≡ or_asked fetch ttl offline o later registry pkg c
  unfolding check_package_async
  check_package_async-cached o e = ap (λ x. or_asked fetch ttl offline x later registry pkg c) e

module _ (fetch again : String → Text → Checked) (ttl now later : ℕ) (registry : String)
    (pkg : Text) (c : Cache) where
  -- A package of a known registry that the cache does not answer for is asked for, and if the cache
  -- has room, then for as long as neither the lifetime of an answer nor that of a failure is over the
  -- same question gets that answer, a failure as `unknown`, from the cache alone, whatever a registry
  -- says by then, and leaves the cache as it is.
  pub check_package_async-again :
      (offline : Bool) (now' later' : ℕ)
      → cached ttl false now (get (cache_key registry pkg) c) ≡ none
      → one_of registry ("npm" ∷ "pypi" ∷ "crates.io" ∷ "go" ∷ []) ≡ true
      → length c < cache_max_size
      → now' - later < ttl
      → now' - later < soft_fail_ttl_secs
      → ((check_package_async fetch ttl false now later registry pkg c).0 ≡ fetch registry pkg)
        × (check_package_async again ttl offline now' later' registry pkg
              (check_package_async fetch ttl false now later registry pkg c).1
            ≡ (
              seen (fetch registry pkg),
              (check_package_async fetch ttl false now later registry pkg c).1,
            ))
  check_package_async-again offline now' later' miss reg room t s =
      let k = cache_key registry pkg in
      let r = fetch registry pkg in
      let missed : asked fetch ttl false later registry pkg c ≡ (r, insert k (kept r, later) c) =
        rw (reg, store-room ttl later k r c room) refl in
      let first =
        check_package_async-cached fetch ttl false now later registry pkg c none miss ∙ missed in
      let found : cached ttl offline now' (get k (insert k (kept r, later) c)) ≡ some (seen r) =
        rw (get-insert k (kept r, later) c) (cached-kept ttl offline now' later r t s) in
      rw first (
        refl,
        check_package_async-cached again ttl offline now' later' registry pkg
            (insert k (kept r, later) c) (some (seen r)) found,
      )

  -- Offline no registry is asked: the answer depends on the cache only, which stays as it is.
  pub check_package_async-offline :
      (check_package_async fetch ttl true now later registry pkg c
        ≡ check_package_async again ttl true now later registry pkg c)
      × ((check_package_async fetch ttl true now later registry pkg c).1 ≡ c)
  check_package_async-offline = each (cached ttl true now (get (cache_key registry pkg) c)) refl
    where
      each :
          (o : Option Checked)
          → cached ttl true now (get (cache_key registry pkg) c) ≡ o
          → (check_package_async fetch ttl true now later registry pkg c
              ≡ check_package_async again ttl true now later registry pkg c)
            × ((check_package_async fetch ttl true now later registry pkg c).1 ≡ c)
      each none e =
          rw
            (
              check_package_async-cached fetch ttl true now later registry pkg c none e,
              check_package_async-cached again ttl true now later registry pkg c none e,
            )
            (refl, refl)
      each (some a) e =
          rw
            (
              check_package_async-cached fetch ttl true now later registry pkg c (some a) e,
              check_package_async-cached again ttl true now later registry pkg c (some a) e,
            )
            (refl, refl)
