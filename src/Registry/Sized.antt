-- ===== src/Registry/Sized.antt =====
-- src/registry/mod.rs: the size of the cache.
use codasaurus.Registry.{
  PkgCacheVal, Checked, ok, Cache, cache_max_size, is_key, get, insert, remove_all, is_fresh,
  is_older, oldest_keys, evict_cache, cache_key, cached, kept, store, check_package_async,
}
use codasaurus.Registry.Cached.{check_package_async-cached}
use codasaurus.Prelude.{
  ℕ, zero, suc, ◌+◌, ◌-◌, ◌≤◌, String, Text, text_eq, text_eq_iff, text_eq_refl, List, [], ◌∷◌, map,
  Option, none, some, Bool, true, false, not, ◌||◌, ltb, leb, if◌then◌else◌, leb→le, Bool-cases,
  one_of, length, take, retain, any, All, length-take, Distinct, All-retain, sort_by, sort_by-All,
  sort_by-Distinct, length-sort_by, ◌≡◌, refl, sym, ◌∙◌, subst, ◌≢◌, ◌⊎◌, inl, inr, arith,
}

abbrev pub key_of : Text × (PkgCacheVal × ℕ) → Text
key_of e = e.0

abbrev pub HasDistinctKeys : Cache → Type 0
HasDistinctKeys c = Distinct (map key_of c)

All_keys : (P : Text → Type 0) (c : Cache) → All P (map key_of c) → All (λ e. P (key_of e)) c
All_keys P [] h = tt
All_keys P (e ∷ c) h = (h.0, All_keys P c h.1)

keys_All : (P : Text → Type 0) (c : Cache) → All (λ e. P (key_of e)) c → All P (map key_of c)
keys_All P [] h = tt
keys_All P (e ∷ c) h = (h.0, keys_All P c h.1)

retain-HasDistinctKeys :
    (p : Text × (PkgCacheVal × ℕ) → Bool) (c : Cache)
    → HasDistinctKeys c
    → HasDistinctKeys (retain p c)
retain-HasDistinctKeys p [] d = tt
retain-HasDistinctKeys p (e ∷ c) d = elim (Bool-cases (p e)) [
  | inl q ↦ rw q (
    keys_All (λ k. key_of e ≢ k) (retain p c)
        (All-retain (λ x. key_of e ≢ key_of x) p c (All_keys (λ k. key_of e ≢ k) c d.0)),
    retain-HasDistinctKeys p c d.1,
  )
  | inr q ↦ rw q (retain-HasDistinctKeys p c d.1)
]

remove_all-HasDistinctKeys :
    (ks : List Text) (c : Cache) → HasDistinctKeys c → HasDistinctKeys (remove_all ks c)
remove_all-HasDistinctKeys [] c d = d
remove_all-HasDistinctKeys (k ∷ ks) c d =
    remove_all-HasDistinctKeys ks (retain (λ e. not (is_key k e)) c)
      (retain-HasDistinctKeys (λ e. not (is_key k e)) c d)

insert-apart :
    (j k : Text) (v : PkgCacheVal × ℕ) (c : Cache)
    → j ≢ k
    → All (λ e. j ≢ key_of e) c
    → All (λ e. j ≢ key_of e) (insert k v c)
insert-apart j k v [] n h = (n, tt)
insert-apart j k v (e ∷ c) n h = elim (Bool-cases (is_key k e)) [
  | inl q ↦ rw q (n, h.1)
  | inr q ↦ rw q (h.0, insert-apart j k v c n h.1)
]

insert-HasDistinctKeys :
    (k : Text) (v : PkgCacheVal × ℕ) (c : Cache)
    → HasDistinctKeys c
    → HasDistinctKeys (insert k v c)
insert-HasDistinctKeys k v [] d = (tt, tt)
insert-HasDistinctKeys k v (e ∷ c) d = elim (Bool-cases (is_key k e)) [
  | inl q ↦ rw q (subst (λ j. All (λ i. j ≢ i) (map key_of c)) ((text_eq_iff e.0 k).0 q) d.0, d.1)
  | inr q ↦ rw q (
    keys_All (λ i. key_of e ≢ i) (insert k v c)
        (insert-apart (key_of e) k v c (λ same. absurd (clash same q))
          (All_keys (λ i. key_of e ≢ i) c d.0)),
    insert-HasDistinctKeys k v c d.1,
  )
]
  where
    clash : e.0 ≡ k → text_eq e.0 k ≡ false → ⊥
    clash same q = cc (sym ((text_eq_iff e.0 k).1 same) ∙ q)

-- A key that is there is removed with its entry.
retain-shorter :
    (k : Text) (c : Cache)
    → any (is_key k) c ≡ true
    → length (retain (λ e. not (is_key k e)) c) + 1 ≤ length c
retain-shorter k [] h = absurd (cc h)
retain-shorter k (e ∷ c) h = elim (Bool-cases (is_key k e)) [
  | inl q ↦ rw q (omega (arith, length-retain (λ e. not (is_key k e)) c))
  | inr q ↦ let rest = retain-shorter k c (rw q at h) in rw q (omega (arith, rest))
]
  where
    length-retain :
        (p : Text × (PkgCacheVal × ℕ) → Bool) (c : Cache) → length (retain p c) ≤ length c
    length-retain p [] = omega arith
    length-retain p (e ∷ c) = elim (Bool-cases (p e)) [
      | inl q ↦ rw q (omega (arith, length-retain p c))
      | inr q ↦ rw q (omega (arith, length-retain p c))
    ]

any-kept :
    (j k : Text) (c : Cache)
    → k ≢ j
    → any (is_key j) c ≡ true
    → any (is_key j) (retain (λ e. not (is_key k e)) c) ≡ true
any-kept j k [] n h = h
any-kept j k (e ∷ c) n h = elim (Bool-cases (is_key k e)) [
  | inl q ↦
      let other : is_key j e ≡ false = apart (Bool-cases (is_key j e)) q in
      rw q (any-kept j k c n (rw other at h))
  | inr q ↦ rw q (each (Bool-cases (is_key j e)) (any-kept j k c n))
]
  where
    apart : (is_key j e ≡ true) ⊎ (is_key j e ≡ false) → is_key k e ≡ true → is_key j e ≡ false
    apart (inl a) q = absurd (n (sym ((text_eq_iff e.0 k).0 q) ∙ (text_eq_iff e.0 j).0 a))
    apart (inr a) q = a

    each :
        (is_key j e ≡ true) ⊎ (is_key j e ≡ false)
        → (any (is_key j) c ≡ true → any (is_key j) (retain (λ e. not (is_key k e)) c) ≡ true)
        → (is_key j e || any (is_key j) (retain (λ e. not (is_key k e)) c)) ≡ true
    each (inl a) f = rw a refl
    each (inr a) f = rw a (f (rw a at h))

-- Distinct keys that are there take as many entries away.
pub length-remove_all :
    (ks : List Text) (c : Cache)
    → Distinct ks
    → All (λ k. any (is_key k) c ≡ true) ks
    → length (remove_all ks c) + length ks ≤ length c
length-remove_all [] c d h = omega arith
length-remove_all (k ∷ ks) c d h = omega (
  arith,
  retain-shorter k c h.0,
  length-remove_all ks (retain (λ e. not (is_key k e)) c) d.1 (still ks d.0 h.1),
)
  where
    still :
        (js : List Text)
        → All (λ j. k ≢ j) js
        → All (λ j. any (is_key j) c ≡ true) js
        → All (λ j. any (is_key j) (retain (λ e. not (is_key k e)) c) ≡ true) js
    still [] a b = tt
    still (j ∷ js) a b = (any-kept j k c a.0 b.0, still js a.1 b.1)

any-own :
    (c d : Cache)
    → All (λ e. any (is_key (key_of e)) c ≡ true) d
    → All (λ k. any (is_key k) c ≡ true) (map key_of d)
any-own c [] h = tt
any-own c (e ∷ d) h = (h.0, any-own c d h.1)

-- Each entry is found under its key.
own : (c : Cache) → All (λ e. any (is_key (key_of e)) c ≡ true) c
own c = go c (λ e k. k)
  where
    later : (b : Bool) → (b || true) ≡ true
    later true = refl
    later false = refl

    go :
        (d : Cache)
        → ((e : Text × (PkgCacheVal × ℕ))
            → any (is_key (key_of e)) d ≡ true
            → any (is_key (key_of e)) c ≡ true)
        → All (λ e. any (is_key (key_of e)) c ≡ true) d
    go [] f = tt
    go (e ∷ d) f =
        (f e (rw (text_eq_refl e.0) refl), go d (λ x k. f x (rw k (later (is_key (key_of x) e)))))

take-All : (P : Text → Type 0) (n : ℕ) (ks : List Text) → All P ks → All P (take n ks)
take-All P zero ks h = tt
take-All P (suc n) [] h = tt
take-All P (suc n) (k ∷ ks) h = (h.0, take-All P n ks h.1)

take-Distinct : (n : ℕ) (ks : List Text) → Distinct ks → Distinct (take n ks)
take-Distinct zero ks d = tt
take-Distinct (suc n) [] d = tt
take-Distinct (suc n) (k ∷ ks) d = (take-All (λ j. k ≢ j) n ks d.0, take-Distinct n ks d.1)

length-keys : (c : Cache) → length (map key_of c) ≡ length c
length-keys [] = refl
length-keys (e ∷ c) = omega (arith, length-keys c)

-- What is left is at most half of the size, and no key stands twice.
evict_cache-half :
    (ttl now : ℕ) (c : Cache)
    → HasDistinctKeys c
    → (length (evict_cache ttl now c) ≤ 5_000) × HasDistinctKeys (evict_cache ttl now c)
unfolding evict_cache
evict_cache-half ttl now c d = elim (Bool-cases (leb (length fresh) 5_000)) [
  | inl e ↦ rw e (leb→le (length fresh) 5_000 e, distinct)
  | inr e ↦ rw e (
    omega (
      arith,
      taken,
      length-take n (oldest_keys fresh),
      length-keys (sort_by is_older fresh),
      length-sort_by is_older fresh,
    ),
    remove_all-HasDistinctKeys (take n (oldest_keys fresh)) fresh distinct,
  )
]
  where
    fresh : Cache
    fresh = retain (λ e. is_fresh ttl now e.1) c

    n : ℕ
    n = length fresh - 5_000

    distinct : HasDistinctKeys fresh
    distinct = retain-HasDistinctKeys (λ e. is_fresh ttl now e.1) c d

    taken :
        length (remove_all (take n (oldest_keys fresh)) fresh) + length (take n (oldest_keys fresh))
        ≤ length fresh
    taken =
        length-remove_all (take n (oldest_keys fresh)) fresh
          (take-Distinct n (oldest_keys fresh) (sort_by-Distinct is_older key_of fresh distinct))
          (take-All (λ k. any (is_key k) fresh ≡ true) n (oldest_keys fresh)
            (any-own fresh (sort_by is_older fresh)
              (sort_by-All is_older (λ e. any (is_key (key_of e)) fresh ≡ true) fresh (own fresh))))

-- No key stands twice, and the size is within its bound.
abbrev pub Fits : Cache → Type 0
Fits c = HasDistinctKeys c × (length c ≤ cache_max_size)

store-Fits :
    (ttl now : ℕ) (k : Text) (r : Checked) (c : Cache) → Fits c → Fits (store ttl now k r c)
unfolding store
store-Fits ttl now k r c h =
    let more = insert-HasDistinctKeys k (kept r, now) c h.0 in
    let half = evict_cache-half ttl now (insert k (kept r, now) c) more in
    elim (Bool-cases (ltb cache_max_size (length (insert k (kept r, now) c)))) [
      | inl e ↦ rw e (half.1, omega (arith, half.0))
      | inr e ↦ rw e (more, ground (arith, e))
    ]

-- A question, the settings at that moment, and what the registries would say.
pub record Query : Type 0 where
  pub fetch : String → Text → Checked
  pub ttl : ℕ
  pub offline : Bool
  pub now : ℕ
  pub later : ℕ
  pub registry : String
  pub pkg : Text

abbrev pub answer : Query → Cache → Checked × Cache
answer q c = check_package_async q.fetch q.ttl q.offline q.now q.later q.registry q.pkg c

unfoldable pub ask_all : List Query → Cache → Cache
ask_all [] c = c
ask_all (q ∷ qs) c = ask_all qs (answer q c).1

answer-Fits : (q : Query) (c : Cache) → Fits c → Fits (answer q c).1
answer-Fits q c h = each (cached q.ttl q.offline q.now (get (cache_key q.registry q.pkg) c)) refl
  where
    asking :
        (b : Bool)
        → Fits
            (if◌then◌else◌ {A = Checked × Cache} b
              (ok none, c)
              (
                q.fetch q.registry q.pkg,
                store q.ttl q.later (cache_key q.registry q.pkg) (q.fetch q.registry q.pkg) c,
              )).1
    asking true = h
    asking false =
        store-Fits q.ttl q.later (cache_key q.registry q.pkg) (q.fetch q.registry q.pkg) c h

    each :
        (o : Option Checked)
        → cached q.ttl q.offline q.now (get (cache_key q.registry q.pkg) c) ≡ o
        → Fits (answer q c).1
    each (some a) e =
        rw
          (check_package_async-cached q.fetch q.ttl q.offline q.now q.later q.registry q.pkg c
            (some a) e)
          h
    each none e =
        rw
          (check_package_async-cached q.fetch q.ttl q.offline q.now q.later q.registry q.pkg c none
            e)
          (asking (q.offline || not (one_of q.registry ("npm" ∷ "pypi" ∷ "crates.io" ∷ "go" ∷ []))))

ask_from-Fits : (qs : List Query) (c : Cache) → Fits c → Fits (ask_all qs c)
unfolding ask_all
ask_from-Fits [] c h = h
ask_from-Fits (q ∷ qs) c h = ask_from-Fits qs (answer q c).1 (answer-Fits q c h)

-- After any questions, at any moments, under any settings and whatever the registries say, the cache
-- that was empty at the start has no key twice and at most ten thousand entries.
pub ask_all-Fits : (qs : List Query) → Fits (ask_all qs [])
ask_all-Fits qs = ask_from-Fits qs [] (tt, omega arith)
