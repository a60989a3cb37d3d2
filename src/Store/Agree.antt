-- ===== src/Store/Agree.antt =====
-- utils/kv_store.go: batches whose pairs agree on what a key is to have.
use brokernode.Store.Refine.{Carried, all_of, first_of, set_of}
use brokernode.Store.Pairs.{Carried-true, lookup_pair}
use brokernode.Prelude.Table.{Any, here, there}
use brokernode.Prelude.Bytes.{Bytes, bytes_eq, bytes_eq_refl, bytes_eq_sound}
use brokernode.Prelude.{
  All, All-take, Bool, Bool-cases, List, [], ap, false, inl, inr, map, refl, some, sym, take, true,
  ℕ, ◌∙◌, ◌∷◌, ◌≡◌,
}
use brokernode.Store.{Entry, Contents, Write, put_entry, put_pair, replay}
use mathlib.Core.Path.{subst}

-- Every write to q writes e.
record AgreesW (q : Bytes) (e : Entry) (w : Write) : Type 0 where
  writes_it : bytes_eq w.key q ≡ true → w.entry ≡ some e

stays :
    (q : Bytes) (e : Entry) (ws : List Write) (f : Contents)
    → All (AgreesW q e) ws
    → f q ≡ some e
    → replay ws f q ≡ some e
stays q e [] f a h = h
stays q e (w ∷ ws) f a h =
    stays q e ws (put_entry f w.key w.entry) a.1 (elim (Bool-cases (bytes_eq w.key q)) [
      | inl same ↦ rw (same, put_entry) ((a.0).writes_it same)
      | inr other ↦ rw (other, put_entry) h
    ])

sets :
    (q : Bytes) (e : Entry) (ws : List Write) (f : Contents)
    → All (AgreesW q e) ws
    → Any (λ w. bytes_eq w.key q ≡ true) ws
    → replay ws f q ≡ some e
sets q e [] f a h = elim h [ ]
sets q e (w ∷ ws) f a (here same) =
    stays q e ws (put_entry f w.key w.entry) a.1 (rw (same, put_entry) ((a.0).writes_it same))
sets q e (w ∷ ws) f a (there h) = sets q e ws (put_entry f w.key w.entry) a.1 h

-- A pair that has v where its key is q.
pub record Agrees (q v : Bytes) (kv : Bytes × Bytes) : Type 0 where
  pub has_it : bytes_eq (kv.0) q ≡ true → kv.1 ≡ v

agreeing_writes :
    (q v : Bytes) (ttl : ℕ) (kvs : List (Bytes × Bytes))
    → All (Agrees q v) kvs
    → All (AgreesW q (record { value = v; ttl = ttl })) (map (set_of ttl) kvs)
agreeing_writes q v ttl [] a = tt
agreeing_writes q v ttl (kv ∷ kvs) a = (
  record {
    writes_it = λ same. ap (λ x. some (record { value = x; ttl = ttl })) ((a.0).has_it same);
  },
  agreeing_writes q v ttl kvs a.1,
)

found_write :
    (q v : Bytes) (ttl : ℕ) (kvs : List (Bytes × Bytes))
    → lookup_pair q kvs ≡ some v
    → Any (λ w. bytes_eq w.key q ≡ true) (map (set_of ttl) kvs)
found_write q v ttl [] h = absurd cc
found_write q v ttl ((k, x) ∷ kvs) h = elim (Bool-cases (bytes_eq k q)) [
  | inl same ↦ here same
  | inr other ↦
      let rest : lookup_pair q kvs ≡ some v = rw (other, lookup_pair) at h in
      there (found_write q v ttl kvs rest)
]

-- A batch of agreeing pairs, whether or not it is carried out as a whole, leaves what was right.
pub Carried-stays :
    {q v : Bytes} {ttl : ℕ} (kvs : List (Bytes × Bytes)) {f g : Contents} {ok : Bool}
    → Carried (map (set_of ttl) kvs) f g ok
    → All (Agrees q v) kvs
    → f q ≡ some (record { value = v; ttl = ttl })
    → g q ≡ some (record { value = v; ttl = ttl })
Carried-stays {q = q} {v = v} {ttl = ttl} kvs {f = f} (all_of e) a h =
    ap (λ (x : Contents). x q) e
    ∙ stays q _ (map (set_of ttl) kvs) f (agreeing_writes q v ttl kvs a) h
Carried-stays {q = q} {v = v} {ttl = ttl} kvs {f = f} (first_of n e) a h =
    ap (λ (x : Contents). x q) e
    ∙ stays q _ (take n (map (set_of ttl) kvs)) f
        (All-take _ n (map (set_of ttl) kvs) (agreeing_writes q v ttl kvs a)) h

-- One that is carried out as a whole leaves what its pairs have.
pub Carried-sets :
    {q v : Bytes} {ttl : ℕ} (kvs : List (Bytes × Bytes)) {f g : Contents} {ok : Bool}
    → Carried (map (set_of ttl) kvs) f g ok
    → ok ≡ true
    → All (Agrees q v) kvs
    → lookup_pair q kvs ≡ some v
    → g q ≡ some (record { value = v; ttl = ttl })
Carried-sets {q = q} {v = v} {ttl = ttl} kvs {f = f} c ok a h =
    ap (λ (x : Contents). x q) (Carried-true c ok)
    ∙ sets q _ (map (set_of ttl) kvs) f (agreeing_writes q v ttl kvs a) (found_write q v ttl kvs h)

-- The map after (*kvs)[k] = x.
pub lookup_pair-put_pair_self :
    (k x : Bytes) (kvs : List (Bytes × Bytes)) → lookup_pair k (put_pair k x kvs) ≡ some x
lookup_pair-put_pair_self k x [] = rw (bytes_eq_refl k, lookup_pair) refl
lookup_pair-put_pair_self k x ((k', v') ∷ kvs) = elim (Bool-cases (bytes_eq k' k)) [
  | inl same ↦ rw (same, put_pair) (rw (bytes_eq_refl k, lookup_pair) refl)
  | inr other ↦ rw (other, put_pair) (rw (other, lookup_pair) (lookup_pair-put_pair_self k x kvs))
]

pub lookup_pair-put_pair_ne :
    (q k x : Bytes) (kvs : List (Bytes × Bytes))
    → bytes_eq k q ≡ false
    → lookup_pair q (put_pair k x kvs) ≡ lookup_pair q kvs
lookup_pair-put_pair_ne q k x [] ne = rw (ne, lookup_pair) refl
lookup_pair-put_pair_ne q k x ((k', v') ∷ kvs) ne = elim (Bool-cases (bytes_eq k' k)) [
  | inl same ↦
      let gone : bytes_eq k' q ≡ false =
        subst (λ z. bytes_eq z q ≡ false) (sym (bytes_eq_sound k' k same)) ne in
      rw (same, put_pair) (rw (ne, gone, lookup_pair) refl)
  | inr other ↦
      rw (other, put_pair)
        (elim (Bool-cases (bytes_eq k' q)) [
          | inl found_it ↦ rw (found_it, lookup_pair) refl
          | inr not_it ↦ rw (not_it, lookup_pair) (lookup_pair-put_pair_ne q k x kvs ne)
        ])
]

pub put_pair-Agrees :
    (q v k x : Bytes) (kvs : List (Bytes × Bytes))
    → Agrees q v (k, x)
    → All (Agrees q v) kvs
    → All (Agrees q v) (put_pair k x kvs)
put_pair-Agrees q v k x [] new a = (new, tt)
put_pair-Agrees q v k x ((k', v') ∷ kvs) new a = elim (Bool-cases (bytes_eq k' k)) [
  | inl same ↦ rw (same, put_pair) (new, a.1)
  | inr other ↦ rw (other, put_pair) (a.0, put_pair-Agrees q v k x kvs new a.1)
]
