-- ===== src/Auth/Keys.antt =====
-- crates/garret-server/src/auth.rs: an issuer's cached keys and their refresh. A fetch is a task of its
-- own, whose end is a step; times are in seconds.
pub mod Floor
use garret.Common.{
  ℕ, ◌+◌, Bool, true, false, Option, none, some, List, if◌then◌else◌, Text, text_eq, ltb, leb, [],
  ◌∷◌,
}

abbrev pub min_refresh : ℕ
min_refresh = 10

abbrev pub key_ttl : ℕ
key_ttl = 3600

-- `KeyCache` and `RefreshState`; what is in flight is one fetch that callers share.
pub record KeySet (K : Type 0) : Type 0 where
  pub by_kid : List (Text × K)
  pub expires_at : Option ℕ
  pub in_flight : Bool
  pub next_attempt : Option ℕ

abbrev pub no_keys : {K : Type 0} → KeySet K
no_keys = record { by_kid = []; expires_at = none; in_flight = false; next_attempt = none }

abbrev pub key_of : {K : Type 0} → Text → List (Text × K) → Option K
key_of kid [] = none
key_of kid ((k, key) ∷ keys) = if text_eq k kid then some key else key_of kid keys

-- An instant that has come.
abbrev pub is_past : ℕ → Option ℕ → Bool
is_past now none = true
is_past now (some t) = leb t now

unfoldable pub cached_key : {K : Type 0} → Text → ℕ → KeySet K → Option K × Bool
cached_key kid now s = (key_of kid s.by_kid, is_past now s.expires_at)

-- The fetch that a caller waits for: one in flight, or one that it starts.
pub data Attempt : Type 0 where
  joined_fetch started_fetch : Attempt

unfoldable pub refresh : {K : Type 0} → ℕ → KeySet K → Option Attempt × KeySet K
refresh now s =
    if s.in_flight
    then (some joined_fetch, s)
    else if is_past now s.next_attempt
    then (some started_fetch, record s { in_flight = true })
    else (none, s)

abbrev pub cache_fetched : {K : Type 0} → ℕ → Option (List (Text × K)) → KeySet K → KeySet K
cache_fetched now none s = s
cache_fetched now (some by_kid) s = record s { by_kid = by_kid; expires_at = some (now + key_ttl) }

-- The end of the task that fetches: `none` for a fetch that failed.
unfoldable pub fetch_ends : {K : Type 0} → ℕ → Option (List (Text × K)) → KeySet K → KeySet K
fetch_ends now fetched s = record (cache_fetched now fetched s) {
  in_flight = false;
  next_attempt = some (now + min_refresh);
}
