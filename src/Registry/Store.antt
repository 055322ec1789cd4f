-- ===== src/Registry/Store.antt =====
-- registry/skills/base.go: MapStore, a map behind a mutex. Each operation runs under the lock, so it
-- is one step on the map.
use openbotstack_core.Base.{
  eq_iff, ℕ, String, Bool, true, false, Option, [], ◌∷◌, Dict, lookup, insert, erase, is_some,
  if◌then◌else◌, length, ◌≡◌, ◌==◌, lookup-insert, lookup-erase, arith,
}

module _ {ℓ} {T : Type ℓ} where
  -- `NewMapStore`
  abbrev pub new_map_store : Dict T
  new_map_store = []

  -- `Put`
  abbrev pub put : Dict T → String → T → Dict T
  put s key val = insert key val s

  -- `PutIfAbsent`
  unfoldable pub put_if_absent : Dict T → String → T → Dict T × Bool
  put_if_absent s key val = if is_some (lookup key s) then (s, false) else (insert key val s, true)

  -- `Get`
  abbrev pub get : Dict T → String → Option T
  get s key = lookup key s

  -- `Delete`
  abbrev pub delete : Dict T → String → Dict T
  delete s key = erase key s

  -- `DeleteIfExists`
  unfoldable pub delete_if_exists : Dict T → String → Dict T × Bool
  delete_if_exists s key = if is_some (lookup key s) then (erase key s, true) else (s, false)

  -- `Len`
  abbrev pub len : Dict T → ℕ
  len s = length s

  -- `ForEach`, as a fold of the callback over the entries in the order of the visit.
  unfoldable pub for_each {κ} : {A : Type κ} → (A → String → T → A) → A → Dict T → A
  for_each fn acc [] = acc
  for_each fn acc ((k, v) ∷ s) = for_each fn (fn acc k v) s

  -- `Snapshot`
  unfoldable pub snapshot : Dict T → Dict T
  snapshot s = for_each (λ cp k v. insert k v cp) [] s

  -- After PutIfAbsent a key has its old value, or the new one if it is the key that was put and had
  -- none; the answer says whether it had none.
  pub put_if_absent_lem :
      (s : Dict T) (key other : String) (val : T)
      → ((put_if_absent s key val).1 ≡ (if is_some (lookup key s) then false else true))
        × (lookup other (put_if_absent s key val).0 ≡ (
            if is_some (lookup other s)
            then lookup other s
            else if key == other
            then Option.some val
            else Option.none))
  unfolding put_if_absent
  put_if_absent_lem s key other val =
      ground (arith, lookup-insert key other val s, eq_iff key other)

  -- After DeleteIfExists the key is gone and every other key has its value; the answer says whether
  -- the key was there.
  pub delete_if_exists_lem :
      (s : Dict T) (key other : String)
      → ((delete_if_exists s key).1 ≡ is_some (lookup key s))
        × (lookup other (delete_if_exists s key).0
            ≡ (if key == other then Option.none else lookup other s))
  unfolding delete_if_exists
  delete_if_exists_lem s key other = ground (arith, lookup-erase key other s, eq_iff key other)
