-- ===== src/Txn/Sweep.antt =====
-- The first loop of ConfigEnd: which entries it deletes, and which it leaves to be written.
use sfc_controller.Common.{
  ◌≡◌, refl, ◌∙◌, ap, inl, inr, Text, Bool, true, false, Option, none, some, [], ◌∷◌, arith,
  text_eq, text_eq_iff, text_eq_refl, Bool-cases, Option-cases,
}
use mathlib.Core.Path.{subst}
use sfc_controller.Common.Maps.{
  Map, lookup, erase, lookup-erase, lookup-cons, lookup-empty, IsMap, erase-IsMap,
}
use sfc_controller.Entry.{Messages, Kv, equal}
use sfc_controller.Datastore.{Broker}
use sfc_controller.Txn.{Txn, Levels, entries, set_level, sweep}

module _ ⦃M : Messages⦄ ⦃B : Broker⦄ where
  -- The broker answers every delete without an error.
  abbrev pub Deletes : Type 0
  Deletes = (k : Text) (s : B.Store) → (B.delete k s).1 ≡ false

  -- The entries of two maps under one key can be compared without a panic.
  abbrev pub Comparable : Map Kv → Map Kv → Type 0
  Comparable b a =
      (k : Text) (x y : Kv)
      → lookup k b ≡ some x
      → lookup k a ≡ some y
      → (r : Bool) × (equal x y ≡ some r)

  -- What the sweep makes of the after map: an entry that equals its predecessor goes.
  abbrev pub still_new : Option Kv → Option Kv → Option Kv
  still_new (some b) (some a) = elim (equal b a) [ some true ↦ none | _ ↦ some a ]
  still_new none o = o
  still_new (some b) none = none

  -- What is left of a map of the cache or of etcd: an entry with no successor goes.
  abbrev pub kept {ℓ} : {V : Type ℓ} → Option Kv → Option Kv → Option V → Option V
  kept (some b) none v = none
  kept _ _ v = v

  abbrev after0 : Txn → Map Kv
  after0 t = entries (t.after_map 0)

  -- `t'` is `t` with the entries `b` swept.
  pub record IsSwept (b : Map Kv) (t t' : Txn) : Type 0 where
    pub after : (k : Text) → lookup k (after0 t') ≡ still_new (lookup k b) (lookup k (after0 t))
    pub after_map : IsMap (after0 t')
    pub cache :
        (k : Text)
        → lookup k t'.vpp_entries ≡ kept (lookup k b) (lookup k (after0 t)) (lookup k t.vpp_entries)
    pub etcd : (k : Text) → B.get k t'.db ≡ kept (lookup k b) (lookup k (after0 t)) (B.get k t.db)

  -- A map without its first entry.
  module _ (key : Text) (x : Kv) (rest : Map Kv) (fresh : lookup key rest ≡ none) where
    lookup-tail_self : (k : Text) → text_eq key k ≡ true → lookup k rest ≡ none
    lookup-tail_self k e = rw ((text_eq_iff key k).0 e) at fresh

    Comparable-tail :
        (a a' : Map Kv)
        → Comparable ((key, x) ∷ rest) a
        → ((k : Text) (y : Kv) → lookup k a' ≡ some y → lookup k a ≡ some y)
        → Comparable rest a'
    Comparable-tail a a' c sub k z y e e' =
        c k z y (ground (arith, lookup-cons k key x rest, lookup-tail_self k, e)) (sub k y e')

    present :
        (a : Map Kv) (y : Kv)
        → lookup key a ≡ some y
        → (k : Text) → text_eq key k ≡ true
        → lookup k a ≡ some y
    present a y e k h = rw ((text_eq_iff key k).0 h) at e

    -- The entry has no successor.
    gone_IsSwept :
        (t t' : Txn) (b : Levels)
        → Deletes
        → lookup key (after0 t) ≡ none
        → IsSwept rest
            (record t {
              db = (B.delete key t.db).0;
              vpp_entries = erase key t.vpp_entries;
              before_map = b;
            })
            t'
        → IsSwept ((key, x) ∷ rest) t t'
    gone_IsSwept t t' b d gone s = record {
      after = λ k. elim (Bool-cases (text_eq key k)) [
        | inl e ↦
            let g : lookup k (after0 t) ≡ none = rw ((text_eq_iff key k).0 e) at gone in
            ground (arith, s.after k, lookup-cons k key x rest, lookup-tail_self k e, g)
        | inr e ↦ ground (arith, s.after k, lookup-cons k key x rest, e)
      ];
      after_map = s.after_map;
      cache = λ k. elim (Bool-cases (text_eq key k)) [
        | inl e ↦
            let g : lookup k (after0 t) ≡ none = rw ((text_eq_iff key k).0 e) at gone in
            ground (
              arith,
              s.cache k,
              lookup-cons k key x rest,
              lookup-tail_self k e,
              g,
              lookup-erase key k t.vpp_entries,
            )
        | inr e ↦
            ground (arith, s.cache k, lookup-cons k key x rest, e, lookup-erase key k t.vpp_entries)
      ];
      etcd = λ k. elim (Bool-cases (text_eq key k)) [
        | inl e ↦
            let g : lookup k (after0 t) ≡ none = rw ((text_eq_iff key k).0 e) at gone in
            let g' : B.get k (B.delete key t.db).0 ≡ none =
              subst (λ j. B.get j (B.delete key t.db).0 ≡ none) ((text_eq_iff key k).0 e)
                (B.get-delete_self key t.db (d key t.db)) in
            ground (arith, s.etcd k, lookup-cons k key x rest, lookup-tail_self k e, g, g')
        | inr e ↦
            ground (arith, s.etcd k, lookup-cons k key x rest, e, B.get-delete_ne key k t.db e)
      ];
    }

    -- The entry stays as it was, and leaves the after map.
    same_IsSwept :
        (t t' : Txn) (y : Kv)
        → lookup key (after0 t) ≡ some y
        → equal x y ≡ some true
        → IsSwept rest
            (record t { after_map = set_level 0 (some (erase key (after0 t))) t.after_map })
            t'
        → IsSwept ((key, x) ∷ rest) t t'
    same_IsSwept t t' y e q s = record {
      after = λ k. elim (Bool-cases (text_eq key k)) [
        | inl h ↦
            let g = present (after0 t) y e k h in
            ground (
              arith,
              s.after k,
              lookup-cons k key x rest,
              lookup-tail_self k h,
              g,
              q,
              h,
              lookup-erase key k (after0 t),
            )
        | inr h ↦
            ground (arith, s.after k, lookup-cons k key x rest, h, lookup-erase key k (after0 t))
      ];
      after_map = s.after_map;
      cache = λ k. elim (Bool-cases (text_eq key k)) [
        | inl h ↦
            let g = present (after0 t) y e k h in
            ground (
              arith,
              s.cache k,
              lookup-cons k key x rest,
              lookup-tail_self k h,
              g,
              h,
              lookup-erase key k (after0 t),
            )
        | inr h ↦
            ground (arith, s.cache k, lookup-cons k key x rest, h, lookup-erase key k (after0 t))
      ];
      etcd = λ k. elim (Bool-cases (text_eq key k)) [
        | inl h ↦
            let g = present (after0 t) y e k h in
            ground (
              arith,
              s.etcd k,
              lookup-cons k key x rest,
              lookup-tail_self k h,
              g,
              h,
              lookup-erase key k (after0 t),
            )
        | inr h ↦
            ground (arith, s.etcd k, lookup-cons k key x rest, h, lookup-erase key k (after0 t))
      ];
    }

    -- The entry has changed, and stays in the after map.
    changed_IsSwept :
        (t t' : Txn) (y : Kv)
        → lookup key (after0 t) ≡ some y
        → equal x y ≡ some false
        → IsSwept rest t t'
        → IsSwept ((key, x) ∷ rest) t t'
    changed_IsSwept t t' y e q s = record {
      after = λ k. elim (Bool-cases (text_eq key k)) [
        | inl h ↦
            let g = present (after0 t) y e k h in
            ground (arith, s.after k, lookup-cons k key x rest, lookup-tail_self k h, g, q, h)
        | inr h ↦ ground (arith, s.after k, lookup-cons k key x rest, h)
      ];
      after_map = s.after_map;
      cache = λ k. elim (Bool-cases (text_eq key k)) [
        | inl h ↦
            let g = present (after0 t) y e k h in
            ground (arith, s.cache k, lookup-cons k key x rest, lookup-tail_self k h, g, h)
        | inr h ↦ ground (arith, s.cache k, lookup-cons k key x rest, h)
      ];
      etcd = λ k. elim (Bool-cases (text_eq key k)) [
        | inl h ↦
            let g = present (after0 t) y e k h in
            ground (arith, s.etcd k, lookup-cons k key x rest, lookup-tail_self k h, g, h)
        | inr h ↦ ground (arith, s.etcd k, lookup-cons k key x rest, h)
      ];
    }

  -- The steps of the sweep.
  module _ (key : Text) (x : Kv) (rest : Map Kv) (t : Txn) where
    abbrev without_key : Txn
    without_key = record t {
      db = (B.delete key t.db).0;
      vpp_entries = erase key t.vpp_entries;
      before_map = set_level 0 (some (erase key (entries (t.before_map 0)))) t.before_map;
    }

    abbrev without_after : Txn
    without_after = record t { after_map = set_level 0 (some (erase key (after0 t))) t.after_map }

    sweep_gone : lookup key (after0 t) ≡ none → sweep ((key, x) ∷ rest) t ≡ sweep rest without_key
    sweep_gone e = unfold sweep in ground (arith, e)

    sweep_same :
        (y : Kv)
        → lookup key (after0 t) ≡ some y
        → equal x y ≡ some true
        → sweep ((key, x) ∷ rest) t ≡ sweep rest without_after
    sweep_same y e q = unfold sweep in ground (arith, e, q)

    sweep_changed :
        (y : Kv)
        → lookup key (after0 t) ≡ some y
        → equal x y ≡ some false
        → sweep ((key, x) ∷ rest) t ≡ sweep rest t
    sweep_changed y e q = unfold sweep in ground (arith, e, q)

  pub sweep_lem :
      (b : Map Kv) (t : Txn)
      → Deletes
      → IsMap b
      → IsMap (after0 t)
      → Comparable b (after0 t)
      → (t' : Txn) × (sweep b t ≡ some t') × IsSwept b t t'
  sweep_lem [] t d h ha c = (
    t,
    unfold sweep in refl,
    record {
      after = λ k. ground (arith, lookup-empty {V = Kv} k);
      after_map = ha;
      cache = λ k. ground (arith, lookup-empty {V = Kv} k);
      etcd = λ k. ground (arith, lookup-empty {V = Kv} k);
    },
  )
  sweep_lem ((key, x) ∷ rest) t d h ha c = elim (Option-cases (lookup key (after0 t))) [
    | inl e ↦
        let t0 = without_key key x rest t in
        let c1 = Comparable-tail key x rest h.0 (after0 t) (after0 t) c (λ k y p. p) in
        let (t', p, s) = sweep_lem rest t0 d h.1 ha c1 in
        (t', sweep_gone key x rest t e ∙ p, gone_IsSwept key x rest h.0 t t' t0.before_map d e s)
    | inr (y, e) ↦
        let (r, q) = c key x y (ground (arith, lookup-cons key key x rest, text_eq_refl key)) e in
        elim (Bool-cases r) [
          | inl w ↦
              let q' : equal x y ≡ some true = q ∙ ap some w in
              let t0 = without_after key x rest t in
              let c1 =
                Comparable-tail key x rest h.0 (after0 t) (after0 t0) c
                  (λ k z p. ground (arith, p, lookup-erase key k (after0 t))) in
              let (t', p, s) = sweep_lem rest t0 d h.1 (erase-IsMap key (after0 t) ha) c1 in
              (t', sweep_same key x rest t y e q' ∙ p, same_IsSwept key x rest h.0 t t' y e q' s)
          | inr w ↦
              let q' : equal x y ≡ some false = q ∙ ap some w in
              let c1 = Comparable-tail key x rest h.0 (after0 t) (after0 t) c (λ k z p. p) in
              let (t', p, s) = sweep_lem rest t d h.1 ha c1 in
              (
                t',
                sweep_changed key x rest t y e q' ∙ p,
                changed_IsSwept key x rest h.0 t t' y e q' s,
              )
        ]
  ]
