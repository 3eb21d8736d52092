-- ===== src/Txn/Whole.antt =====
-- A whole transaction with one entity: RenderTxnConfigStart, the entity's calls, and ConfigEnd.
use sfc_controller.Common.{
  ◌≡◌, refl, ◌∙◌, ap, sym, inl, inr, Text, Bool, true, false, Option, none, some, List, [], ◌∷◌,
  arith, text_eq, text_eq_iff, Bool-cases, Option-cases, ◌>>=◌,
}
use mathlib.Core.Path.{subst}
use sfc_controller.Common.{All}
use sfc_controller.Common.Maps.{Map, lookup, lookup-empty, IsMap}
use sfc_controller.Entry.{Messages, Kv, Value, value_of, equal, HasRoute}
use sfc_controller.Datastore.{Broker}
use sfc_controller.Txn.{
  Txn, Rendered, entries, config_end, config_start, entity_start, entity_end, add_vpp_entries,
}
use sfc_controller.Txn.Levels.{or_else, last_under, entity_merged}
use sfc_controller.Txn.Sweep.{Deletes, Comparable, still_new, kept}
use sfc_controller.Txn.Commit.{Puts, Keyed, Known, written, config_end_lem}
use sfc_controller.Txn.Start.{equal_total, config_start_lem}

module _ ⦃M : Messages⦄ ⦃B : Broker⦄ where
  -- The entries, the entity and the end of a transaction.
  unfoldable pub one_entity : Map Rendered → List Kv → Txn → Option (Txn × Bool)
  one_entity r kvs t = do
    t1 ← config_start t
    (r', t2) ← add_vpp_entries r kvs (entity_start t1)
    t3 ← entity_end t2
    config_end t3

  -- What a transaction leaves in the cache under a key, by what was there and what was rendered.
  abbrev pub settled : Option Kv → Option Kv → Option Kv
  settled none a = a
  settled (some b) none = none
  settled (some b) (some a) = elim (equal b a) [ some true ↦ some b | _ ↦ some a ]

  -- An entry that was rendered has its route, a type that is known, and any key.
  abbrev pub IsGood : Kv → Type 0
  IsGood kv = HasRoute kv × ((v : Value) × (value_of kv ≡ some v))

  last_under-IsGood :
      (k : Text) (kvs : List Kv) (kv : Kv)
      → All IsGood kvs
      → last_under k kvs ≡ some kv
      → (kv.vpp_key ≡ k) × IsGood kv
  unfolding last_under
  last_under-IsGood k [] kv h e = ground (arith, e)
  last_under-IsGood k (x ∷ rest) kv h e = elim (Option-cases (last_under k rest)) [
    | inl n ↦ elim (Bool-cases (text_eq x.vpp_key k)) [
      | inl c ↦
          let same : x ≡ kv = ground (arith, e, n, c) in
          subst (λ z. (z.vpp_key ≡ k) × IsGood z) same ((text_eq_iff x.vpp_key k).0 c, h.0)
      | inr c ↦ ground (arith, e, n, c)
    ]
    | inr (y, n) ↦ last_under-IsGood k rest kv h.1 (ground (arith, e, n))
  ]

  one_entity_step :
      (r r' : Map Rendered) (kvs : List Kv) (t t1 t2 t3 : Txn) (out : Txn × Bool)
      → config_start t ≡ some t1
      → add_vpp_entries r kvs (entity_start t1) ≡ some (r', t2)
      → entity_end t2 ≡ some t3
      → config_end t3 ≡ some out
      → one_entity r kvs t ≡ some out
  unfolding one_entity
  one_entity_step r r' kvs t t1 t2 t3 out q1 q2 q3 q4 = rw (q1, q2, q3, q4, one_entity) refl

  settled_lem :
      (b a : Option Kv)
      → (or_else (still_new b a) (kept b a b) ≡ settled b a)
        × (written (still_new b a) (kept b a (written b none)) ≡ written (settled b a) none)
  settled_lem none none = (refl, refl)
  settled_lem none (some y) = (refl, refl)
  settled_lem (some x) none = (refl, refl)
  settled_lem (some x) (some y) = elim (Option-cases (equal x y)) [
    | inl e ↦ (ground (arith, e), ground (arith, e))
    | inr (true, e) ↦ (ground (arith, e), ground (arith, e))
    | inr (false, e) ↦ (ground (arith, e), ground (arith, e))
  ]

  settled_at :
      {b a b' a' c o : Option Kv} {v v' : Option Value}
      → b ≡ b'
      → a ≡ a'
      → c ≡ b'
      → o ≡ or_else (still_new b a) (kept b a c)
      → v' ≡ written (still_new b a) (kept b a v)
      → (o ≡ settled b' a') × (v ≡ written b' none → v' ≡ written o none)
  settled_at {b' = b'} {a' = a'} {o = o} eb ea ec eo ev =
      let (p, q) = settled_lem b' a' in
      let here : o ≡ settled b' a' = eo ∙ rw (eb, ea, ec) p in
      (here, λ w. ev ∙ (rw (eb, ea, w) q) ∙ ap (λ z. written z none) (sym here))

  -- Etcd holds the messages of the entries of the cache, and nothing under other keys.
  abbrev pub InStep : Txn → Type 0
  InStep t = (k : Text) → B.get k t.db ≡ written (lookup k t.vpp_entries) none

  -- A transaction with one entity, when etcd takes every call, on a cache whose entries stand
  -- under their own keys and have their routes, where etcd is in step with the cache, and the
  -- rendered entries have their routes and known types: it neither panics nor fails. Then the
  -- cache holds exactly the keys that were rendered, each with its last entry, or with the entry of
  -- before if that is equal to it; and etcd is in step with the cache again.
  pub one_entity_lem :
      (r : Map Rendered) (kvs : List Kv) (t : Txn)
      → Deletes
      → Puts
      → IsMap t.vpp_entries
      → Keyed t.vpp_entries
      → ((k : Text) (kv : Kv) → lookup k t.vpp_entries ≡ some kv → HasRoute kv)
      → InStep t
      → All IsGood kvs
      → (t' : Txn) × (one_entity r kvs t ≡ some (t', false))
        × ((k : Text)
            → lookup k t'.vpp_entries ≡ settled (lookup k t.vpp_entries) (last_under k kvs))
        × InStep t'
  one_entity_lem r kvs t d p h own routes in_step good =
      let (t1, copy, q1, b1, hc, same, a1, others, l1, c1, e1) = config_start_lem t h own in
      let (r', t2, t3, m, q2, q3, l3, c3, e3, a3, hm, under, low, b3) =
        entity_merged r kvs t1 [] (rw l1 a1) tt in
      let before : entries (t3.before_map 0) ≡ copy = ground (arith, b3 0, l1, b1) in
      let after : entries (t3.after_map 0) ≡ m = ground (arith, a3, l1) in
      let rendered : (k : Text) → lookup k m ≡ last_under k kvs =
        λ k. ground (arith, under k, lookup-empty {V = Kv} k, last_under k kvs) in
      let from : (k : Text) (kv : Kv) → lookup k m ≡ some kv → (kv.vpp_key ≡ k) × IsGood kv =
        λ k kv e. last_under-IsGood k kvs kv good (sym (rendered k) ∙ e) in
      let comparable : Comparable copy m =
        λ k x y ex ey. equal_total x y (routes k x (sym (same k) ∙ ex)) (from k y ey).1.0 in
      let (t', q4, end) =
        config_end_lem t3 d p (subst IsMap (sym before) hc) (subst IsMap (sym after) hm)
          (subst (λ b. Comparable b (entries (t3.after_map 0))) (sym before)
            (subst (Comparable copy) (sym after) comparable))
          (subst Keyed (sym after) (λ k kv e. (from k kv e).0))
          (subst Known (sym after) (λ k kv e. (from k kv e).1.1)) in
      let both = λ (k : Text).
        settled_at (ap (lookup k) before ∙ same k) (ap (lookup k) after ∙ rendered k)
          (ap (lookup k) (c3 ∙ c1)) (end k).0 (end k).1 in
      (
        t',
        one_entity_step r r' kvs t t1 t2 t3 (t', false) q1 q2 q3 q4,
        λ k. (both k).0,
        λ k. (both k).1 (ap (B.get k) (e3 ∙ e1) ∙ in_step k),
      )
