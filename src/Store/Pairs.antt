-- ===== src/Store/Pairs.antt =====
-- utils/kv_store.go, KVPairs and KVKeys: the maps and lists of keys that the batches take.
use brokernode.Store.Refine.{Carried, all_of, delete_of, first_of, set_of}
use brokernode.Prelude.Bytes.{Bytes, bytes_eq, bytes_eq_sound}
use brokernode.Prelude.{
  All, Bool, Bool-cases, List, Option, [], arith, false, if◌then◌else◌, inl, inr, map, none, refl,
  some, true, ℕ, ◌∙◌, ◌∷◌, ◌≡◌,
}
use brokernode.Store.{Entry, Contents, Write, put_entry, replay}
use mathlib.Core.Path.{subst}

-- The value of a Go map at a key.
abbrev pub lookup_pair : Bytes → List (Bytes × Bytes) → Option Bytes
lookup_pair q [] = none
lookup_pair q ((k, v) ∷ kvs) = if bytes_eq k q then some v else lookup_pair q kvs

-- No pair has the key.
abbrev pub Apart : Bytes → List (Bytes × Bytes) → Type 0
Apart k kvs = All (λ (kv : Bytes × Bytes). bytes_eq k (kv.0) ≡ false) kvs

-- The keys of a Go map are distinct.
abbrev pub DistinctKeys : List (Bytes × Bytes) → Type 0
DistinctKeys [] = Unit
DistinctKeys (kv ∷ kvs) = Apart (kv.0) kvs × DistinctKeys kvs

-- A value that has just been written, or the entry before.
abbrev pub over : ℕ → Option Bytes → Option Entry → Option Entry
over ttl none before = before
over ttl (some v) before = some (record { value = v; ttl = ttl })

pub bytes_eq_comm : (x y : Bytes) → bytes_eq x y ≡ bytes_eq y x
unfolding bytes_eq
bytes_eq_comm [] [] = refl
bytes_eq_comm [] (y ∷ ys) = refl
bytes_eq_comm (x ∷ xs) [] = refl
bytes_eq_comm (x ∷ xs) (y ∷ ys) = ground (arith, bytes_eq_comm xs ys)

Apart-lookup_pair :
    (q : Bytes) (kvs : List (Bytes × Bytes)) → Apart q kvs → lookup_pair q kvs ≡ none
Apart-lookup_pair q [] h = refl
Apart-lookup_pair q ((k, v) ∷ kvs) h =
    let other : bytes_eq k q ≡ false = bytes_eq_comm k q ∙ h.0 in
    rw (other, lookup_pair) (Apart-lookup_pair q kvs h.1)

-- All pairs written, whichever order the map is ranged over in.
pub replay-lookup_pair :
    (ttl : ℕ) (kvs : List (Bytes × Bytes)) (f : Contents) (q : Bytes)
    → DistinctKeys kvs
    → replay (map (set_of ttl) kvs) f q ≡ over ttl (lookup_pair q kvs) (f q)
replay-lookup_pair ttl [] f q d = refl
replay-lookup_pair ttl ((k, v) ∷ kvs) f q d = elim (Bool-cases (bytes_eq k q)) [
  | inl same ↦
      let later : lookup_pair q kvs ≡ none =
        Apart-lookup_pair q kvs (subst (λ x. Apart x kvs) (bytes_eq_sound k q same) d.0) in
      replay-lookup_pair ttl kvs (put_entry f k (some (record { value = v; ttl = ttl }))) q d.1
      ∙ rw (later, same, put_entry, lookup_pair) refl
  | inr other ↦
      replay-lookup_pair ttl kvs (put_entry f k (some (record { value = v; ttl = ttl }))) q d.1
      ∙ rw (other, put_entry, lookup_pair) refl
]

-- Whether a key is among some.
abbrev pub mem_key : Bytes → List Bytes → Bool
mem_key q [] = false
mem_key q (k ∷ ks) = if bytes_eq k q then true else mem_key q ks

pub replay-mem_key :
    (ks : List Bytes) (f : Contents) (q : Bytes)
    → replay (map delete_of ks) f q ≡ (if mem_key q ks then none else f q)
replay-mem_key [] f q = refl
replay-mem_key (k ∷ ks) f q = elim (Bool-cases (bytes_eq k q)) [
  | inl same ↦
      replay-mem_key ks (put_entry f k none) q
      ∙ rw (same, put_entry, mem_key) (both (mem_key q ks) none)
  | inr other ↦ replay-mem_key ks (put_entry f k none) q ∙ rw (other, put_entry, mem_key) refl
]
  where
    both : (b : Bool) (e : Option Entry) → (if b then e else e) ≡ e
    both true e = refl
    both false e = refl

-- A batch without an error.
pub Carried-true :
    {ws : List Write} {f g : Contents} {ok : Bool} → Carried ws f g ok → ok ≡ true → g ≡ replay ws f
Carried-true (all_of e) h = e
Carried-true (first_of n e) h = absurd cc
