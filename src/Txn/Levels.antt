-- ===== src/Txn/Levels.antt =====
-- One entity of a transaction: what its entries do to the levels of the after map.
use sfc_controller.Common.{
  ℕ, suc, ◌≤◌, ◌<◌, ◌≡◌, refl, ap, ◌∙◌, inl, inr, Text, false, Option, none, some, List, [], ◌∷◌,
  arith, ◌==◌, text_eq, text_eq_iff, if◌then◌else◌, Bool-cases,
}
use sfc_controller.Common.Maps.{
  Map, lookup, insert, lookup-insert, lookup-empty, lookup-cons, IsMap, insert-IsMap,
}
use sfc_controller.Entry.{Messages, Kv}
use sfc_controller.Datastore.{Broker}
use sfc_controller.Txn.{
  Txn, Rendered, set_level, entity_start, entity_end, end_at, entity_remove_entries, add_vpp_entry,
  add_vpp_entries, merge, note_rendered, closed,
}

module _ ⦃M : Messages⦄ ⦃B : Broker⦄ where
  -- The last entry of a list under a key.
  unfoldable pub last_under : Text → List Kv → Option Kv
  last_under k [] = none
  last_under k (kv ∷ rest) = elim (last_under k rest) [
    | some later ↦ some later
    | none ↦ if text_eq kv.vpp_key k then some kv else none
  ]

  abbrev pub or_else : Option Kv → Option Kv → Option Kv
  or_else (some kv) o = some kv
  or_else none o = o

  abbrev insert_all : List Kv → Map Kv → Map Kv
  insert_all [] m = m
  insert_all (kv ∷ rest) m = insert_all rest (insert kv.vpp_key kv m)

  lookup-insert_all :
      (k : Text) (kvs : List Kv) (m : Map Kv)
      → lookup k (insert_all kvs m) ≡ or_else (last_under k kvs) (lookup k m)
  unfolding last_under
  lookup-insert_all k [] m = refl
  lookup-insert_all k (kv ∷ rest) m =
      ground
        (arith, lookup-insert_all k rest (insert kv.vpp_key kv m), lookup-insert kv.vpp_key k kv m)

  lookup-merge :
      (k : Text) (a m : Map Kv) → IsMap a → lookup k (merge a m) ≡ or_else (lookup k a) (lookup k m)
  unfolding merge lookup
  lookup-merge k [] m h = refl
  lookup-merge k ((key, kv) ∷ rest) m h = elim (Bool-cases (text_eq key k)) [
    | inl e ↦
        let here : lookup k rest ≡ none = rw ((text_eq_iff key k).0 e) at h.0 in
        ground (
          arith,
          e,
          here,
          lookup-merge k rest (insert key kv m) h.1,
          lookup-insert key k kv m,
          lookup-cons k key kv rest,
        )
    | inr e ↦ ground (
      arith,
      e,
      lookup-merge k rest (insert key kv m) h.1,
      lookup-insert key k kv m,
      lookup-cons k key kv rest,
    )
  ]

  insert_all-IsMap : (kvs : List Kv) (m : Map Kv) → IsMap m → IsMap (insert_all kvs m)
  insert_all-IsMap [] m h = h
  insert_all-IsMap (kv ∷ rest) m h =
      insert_all-IsMap rest (insert kv.vpp_key kv m) (insert-IsMap kv.vpp_key kv m h)

  merge-IsMap : (a m : Map Kv) → IsMap m → IsMap (merge a m)
  merge-IsMap [] m h = unfold merge in h
  merge-IsMap ((key, kv) ∷ rest) m h =
      merge_step key kv rest m (merge-IsMap rest (insert key kv m) (insert-IsMap key kv m h))
    where
      merge_step :
          (key : Text) (kv : Kv) (rest m : Map Kv)
          → IsMap (merge rest (insert key kv m))
          → IsMap (merge ((key, kv) ∷ rest) m)
      merge_step key kv rest m h = unfold merge in h

  -- `t'` differs from `t` in the after map of its level, which is `m`.
  record IsAdded (t t' : Txn) (m : Map Kv) : Type 0 where
    level : t'.txn_level ≡ t.txn_level
    cache : t'.vpp_entries ≡ t.vpp_entries
    etcd : t'.db ≡ t.db
    before : t'.before_map ≡ t.before_map
    here : t'.after_map t.txn_level ≡ some m
    elsewhere : (i : ℕ) → (i == t.txn_level) ≡ false → t'.after_map i ≡ t.after_map i

  abbrev added_one : Kv → Map Kv → Txn → Txn
  added_one kv m t = record t {
    after_map = set_level t.txn_level (some (insert kv.vpp_key kv m)) t.after_map;
  }

  add_vpp_entry_lem :
      (r : Map Rendered) (kv : Kv) (t : Txn) (m : Map Kv)
      → t.after_map t.txn_level ≡ some m
      → (r' : Map Rendered) × (add_vpp_entry r kv t ≡ some (r', added_one kv m t))
  unfolding add_vpp_entry
  add_vpp_entry_lem r kv t m e = (note_rendered kv m r, rw (e, add_vpp_entry))

  add_vpp_entries_lem :
      (r : Map Rendered) (kvs : List Kv) (t : Txn) (m : Map Kv)
      → t.after_map t.txn_level ≡ some m
      → (r' : Map Rendered) × (t' : Txn) × (add_vpp_entries r kvs t ≡ some (r', t'))
        × IsAdded t t' (insert_all kvs m)
  add_vpp_entries_lem r [] t m e = (
    r,
    t,
    unfold add_vpp_entries in refl,
    record {
      level = refl;
      cache = refl;
      etcd = refl;
      before = refl;
      here = e;
      elsewhere = λ i h. refl;
    },
  )
  add_vpp_entries_lem r (kv ∷ rest) t m e =
      let (r1, p) = add_vpp_entry_lem r kv t m e in
      let t1 = added_one kv m t in
      let (r2, t2, q, a) = add_vpp_entries_lem r1 rest t1 (insert kv.vpp_key kv m) (ground arith) in
      (
        r2,
        t2,
        entries_step r kv rest t t1 r1 (r2, t2) p q,
        record {
          level = a.level;
          cache = a.cache;
          etcd = a.etcd;
          before = a.before;
          here = a.here;
          elsewhere = λ i h. ground (arith, a.elsewhere i h);
        },
      )
    where
      entries_step :
          (r : Map Rendered) (kv : Kv) (rest : List Kv) (t t1 : Txn) (r1 : Map Rendered)
          (out : Map Rendered × Txn)
          → add_vpp_entry r kv t ≡ some (r1, t1)
          → add_vpp_entries r1 rest t1 ≡ some out
          → add_vpp_entries r (kv ∷ rest) t ≡ some out
      entries_step r kv rest t t1 r1 out p q = unfold add_vpp_entries in ground (arith, p, q)

  entity_end_lem : (l : ℕ) (t : Txn) → t.txn_level ≡ suc l → entity_end t ≡ end_at (suc l) t
  unfolding entity_end
  entity_end_lem l t e = ap (λ n. end_at n t) e

  end_at_empty :
      (l : ℕ) (t : Txn)
      → t.after_map (suc l) ≡ some []
      → end_at (suc l) t ≡ some (closed l t.after_map t)
  unfolding end_at
  end_at_empty l t e = ground (arith, e)

  end_at_merges :
      (l : ℕ) (t : Txn) (a m : Map Kv)
      → t.after_map (suc l) ≡ some a
      → t.after_map l ≡ some m
      → (t' : Txn) × (end_at (suc l) t ≡ some t')
        × (t'.txn_level ≡ l)
        × (t'.vpp_entries ≡ t.vpp_entries)
        × (t'.db ≡ t.db)
        × (t'.before_map ≡ set_level (suc l) none t.before_map)
        × (t'.after_map l ≡ some (merge a m))
        × ((i : ℕ) → (i == l) ≡ false → (i == suc l) ≡ false → t'.after_map i ≡ t.after_map i)
  unfolding end_at merge
  end_at_merges l t [] m e e' = (
    closed l t.after_map t,
    ground (arith, e),
    refl,
    refl,
    refl,
    refl,
    ground (arith, e'),
    λ i p q. ground arith,
  )
  end_at_merges l t (x ∷ rest) m e e' = (
    closed l (set_level l (some (merge (x ∷ rest) m)) t.after_map) t,
    ground (arith, e, e'),
    refl,
    refl,
    refl,
    refl,
    ground arith,
    λ i p q. ground arith,
  )

  started : (t : Txn) → (entity_start t).after_map (entity_start t).txn_level ≡ some []
  unfolding entity_start
  started t = ground arith

  -- An entity that adds entries and then removes them, because its rendering failed, leaves the
  -- transaction as it was: its level, the before and after maps of this level and of those below,
  -- the cache and etcd.
  pub entity_rolled_back :
      (r : Map Rendered) (kvs : List Kv) (t : Txn)
      → (r' : Map Rendered) × (t1 t2 : Txn) × (add_vpp_entries r kvs (entity_start t)
          ≡ some (r', t1))
        × (entity_end (entity_remove_entries t1) ≡ some t2)
        × (t2.txn_level ≡ t.txn_level)
        × (t2.vpp_entries ≡ t.vpp_entries)
        × (t2.db ≡ t.db)
        × ((i : ℕ) → i ≤ t.txn_level → t2.after_map i ≡ t.after_map i)
        × ((i : ℕ) → i ≤ t.txn_level → t2.before_map i ≡ t.before_map i)
  unfolding entity_start entity_remove_entries
  entity_rolled_back r kvs t =
      let l = t.txn_level in
      let (r', t1, p, a) = add_vpp_entries_lem r kvs (entity_start t) [] (started t) in
      let removed = entity_remove_entries t1 in
      (
        r',
        t1,
        closed l removed.after_map removed,
        p,
        entity_end_lem l removed a.level ∙ end_at_empty l removed (ground (arith, a.level)),
        refl,
        a.cache,
        a.etcd,
        λ i h. ground (arith, a.level, a.elsewhere i),
        λ i h. ground (arith, a.before),
      )

  -- An entity that adds entries leaves in the after map of its level, under each key, the last
  -- entry that it added there, and the entries of the map under its other keys. The map is a
  -- map still. The lower levels, the before maps, the cache and etcd are as they were.
  pub entity_merged :
      (r : Map Rendered) (kvs : List Kv) (t : Txn) (m : Map Kv)
      → t.after_map t.txn_level ≡ some m
      → IsMap m
      → (r' : Map Rendered) × (t1 t2 : Txn) × (m' : Map Kv) × (add_vpp_entries r kvs
            (entity_start t)
          ≡ some (r', t1))
        × (entity_end t1 ≡ some t2)
        × (t2.txn_level ≡ t.txn_level)
        × (t2.vpp_entries ≡ t.vpp_entries)
        × (t2.db ≡ t.db)
        × (t2.after_map t.txn_level ≡ some m')
        × IsMap m'
        × ((k : Text) → lookup k m' ≡ or_else (last_under k kvs) (lookup k m))
        × ((i : ℕ) → i < t.txn_level → t2.after_map i ≡ t.after_map i)
        × ((i : ℕ) → i ≤ t.txn_level → t2.before_map i ≡ t.before_map i)
  unfolding entity_start
  entity_merged r kvs t m e hm =
      let l = t.txn_level in
      let a' = insert_all kvs [] in
      let (r', t1, p, a) = add_vpp_entries_lem r kvs (entity_start t) [] (started t) in
      let below : t1.after_map l ≡ some m = ground (arith, a.elsewhere l, e) in
      let (t2, q, lv, c, d, bf, here, else') = end_at_merges l t1 a' m a.here below in
      (
        r',
        t1,
        t2,
        merge a' m,
        p,
        entity_end_lem l t1 a.level ∙ q,
        lv,
        c ∙ a.cache,
        d ∙ a.etcd,
        here,
        merge-IsMap a' m hm,
        λ k. ground (
          arith,
          lookup-merge k a' m (insert_all-IsMap kvs [] tt),
          lookup-insert_all k kvs [],
          lookup-empty {V = Kv} k,
        ),
        λ i h. ground (arith, else' i, a.elsewhere i),
        λ i h. ground (arith, bf, a.before),
      )
