-- ===== src/Policy/Engine/Snapshot.antt =====
-- packages/policy/src/engine.ts: copies of objects and arrays that no accessor, symbol, foreign
-- prototype or disagreeing proxy survives.
use touchmyapi.Common.{
  ℕ, zero, suc, Bool, true, false, List, [], ◌∷◌, ◌++◌, String, Option, none, some, Text, length,
  all, any, ◌==◌, ◌&&◌, not, if◌then◌else◌, codes, is_digit, is_empty, mem_text,
}
use touchmyapi.Common.Maybe.{◌>>=◌, ◌>>◌, check}
use touchmyapi.Js.{
  Value, Key, Descriptor, props, Snapshot, is_name, key_in, name, index, symbol, obj, arr, num, nan,
  plain, other_proto, str,
}
use touchmyapi.Policy.Patterns.{is_safe_version}

-- A data property that `Reflect.get` confirms; NaN does not equal itself.
unfoldable pub confirmed : Descriptor → Option Value
confirmed (plain (num nan)) = none
confirmed (plain v) = some v
confirmed _ = none

abbrev pub is_symbol : Key → Bool
is_symbol symbol = true
is_symbol _ = false

-- `allowedKeys && !allowedKeys.includes(key)`, negated.
abbrev pub allows : Option (List String) → Key → Bool
allows none k = true
allows (some names) k = key_in names k

unfoldable pub snapshot_props : Option (List String) → List (Key × Descriptor) → Option Snapshot
snapshot_props allowed [] = some []
snapshot_props allowed ((k, d) ∷ rest) = do
  check (not (is_symbol k) && allows allowed k)
  v ← confirmed d
  more ← snapshot_props allowed rest
  some ((k, v) ∷ more)

-- `snapshotObject`; `none` is `{ ok: false }`. A hostile object throws, which is caught.
unfoldable pub snapshot_object : Value → Option (List String) → Option Snapshot
snapshot_object (obj id other_proto ps) allowed = none
snapshot_object (obj id _ ps) allowed = snapshot_props allowed (props ps)
snapshot_object _ allowed = none

unfoldable pub find_index : ℕ → List (Key × Descriptor) → Option Descriptor
find_index i [] = none
find_index i ((index k, d) ∷ rest) = if k == i then some d else find_index i rest
find_index i (_ ∷ rest) = find_index i rest

-- The loop of `snapshotArray`, `left` elements from the index `i` on.
unfoldable pub snapshot_elems : (left i : ℕ) → List (Key × Descriptor) → Option (List Value)
snapshot_elems zero i ps = some []
snapshot_elems (suc left) i ps = do
  d ← find_index i ps
  v ← confirmed d
  more ← snapshot_elems left (suc i) ps
  some (v ∷ more)

-- `typeof key === "string" && /^\d+$/.test(key)`
unfoldable pub is_digit_key : Key → Bool
is_digit_key (index k) = true
is_digit_key (name s) = all is_digit (codes s) && not (is_empty (codes s))
is_digit_key symbol = false

-- `snapshotArray`; the own keys are those of `ps` and `length`.
unfoldable pub snapshot_array : Value → Option (List Value)
snapshot_array (arr id len ps) = do
  check (length (props ps) == len)
  values ← snapshot_elems len 0 (props ps)
  check (all (λ p. is_digit_key p.0) (props ps))
  some values
snapshot_array _ = none

-- `exactKeys`.
unfoldable pub exact_keys : Snapshot → List String → Bool
exact_keys s required =
    length s == length required && all (λ key. any (λ p. is_name key p.0) s) required

-- `snapshotObject(input, keys)` followed by `exactKeys(snapshot, keys)`.
unfoldable pub exact_snapshot : Value → List String → Option Snapshot
exact_snapshot input keys = do
  s ← snapshot_object input (some keys)
  check (exact_keys s keys)
  some s

abbrev pub allowed_text : Option (List Text) → Text → Bool
allowed_text none t = true
allowed_text (some ts) t = mem_text t ts

-- The loop of `uniqueSafeStrings`; `allowed` is the optional set.
unfoldable pub unique_safe : Option (List Text) → List Value → List Text → Option (List Text)
unique_safe allowed [] found = some found
unique_safe allowed (str t ∷ rest) found = do
  check (is_safe_version t && allowed_text allowed t && not (mem_text t found))
  unique_safe allowed rest (found ++ t ∷ [])
unique_safe allowed (_ ∷ rest) found = none

unfoldable pub unique_safe_strings : Value → Option (List Text) → Option (List Text)
unique_safe_strings input allowed = do
  values ← snapshot_array input
  check (not (is_empty values))
  unique_safe allowed values []
