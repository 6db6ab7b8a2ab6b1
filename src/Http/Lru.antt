-- ===== src/Http/Lru.antt =====
-- The crate lru, whose caches hold the nonces of server and client.
use localsend_uyava.Prelude.{ℕ, Text-Eq, ◌≡◌, ◌≢◌, ◌⊎◌, Option, none, some, Text, Bytes}

pub record Lru : Type 1 where
  pub Cache : Type 0
  pub new : ℕ → Cache
  pub put : Text → Bytes → Cache → Cache
  pub get : Text → Cache → Option Bytes

-- What is documented: a value that was put is there, and no other is changed, though it may have
-- been evicted.
pub record LruLaws (l : Lru) : Type 0 where
  pub get-put : (k : Text) (v : Bytes) (m : l.Cache) → l.get k (l.put k v m) ≡ some v
  pub get-put_other :
      (k j : Text) (v : Bytes) (m : l.Cache)
      → j ≢ k
      → (l.get j (l.put k v m) ≡ none) ⊎ (l.get j (l.put k v m) ≡ l.get j m)
