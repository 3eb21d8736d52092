-- ===== src/Txn/Commit.antt =====
-- ConfigEnd as a whole: what it writes to etcd, and what the cache of entries is afterwards.
use sfc_controller.Common.{
  ◌≡◌, refl, ◌∙◌, ap, sym, ◌⊎◌, inl, inr, Text, Bool, true, false, Option, none, some, [], ◌∷◌,
  arith, text_eq, text_eq_iff, text_eq_refl, if◌then◌else◌, Bool-cases, Option-cases,
}
use mathlib.Core.Path.{subst}
use sfc_controller.Common.Maps.{
  Map, lookup, insert, lookup-insert, lookup-cons, lookup-empty, IsMap,
}
use sfc_controller.Entry.{Messages, Kv, Value, value_of, equal}
use sfc_controller.Datastore.{Broker}
use sfc_controller.Txn.{Txn, entries, sweep, write_all, keep_all, config_end}
use sfc_controller.Txn.Levels.{or_else}
use sfc_controller.Txn.Sweep.{Deletes, Comparable, still_new, kept, sweep_lem}

module _ ⦃M : Messages⦄ ⦃B : Broker⦄ where
  -- The broker answers every write without an error.
  abbrev pub Puts : Type 0
  Puts = (k : Text) (v : Value) (s : B.Store) → (B.put k v s).1 ≡ false

  -- Each entry stands under its own key.
  abbrev pub Keyed : Map Kv → Type 0
  Keyed a = (k : Text) (kv : Kv) → lookup k a ≡ some kv → kv.vpp_key ≡ k

  -- Each entry is of a type that WriteToEtcd knows.
  abbrev pub Known : Map Kv → Type 0
  Known a = (k : Text) (kv : Kv) → lookup k a ≡ some kv → (v : Value) × (value_of kv ≡ some v)

  -- What etcd holds under a key once the entry there, if there is one, is written.
  abbrev pub written : Option Kv → Option Value → Option Value
  written (some kv) v = value_of kv
  written none v = v

  module _ (key : Text) (x : Kv) (rest : Map Kv) where
    abbrev all : Map Kv
    all = (key, x) ∷ rest

    pub lookup_first : lookup key all ≡ some x
    lookup_first = ground (arith, lookup-cons key key x rest, text_eq_refl key)

    -- What holds of each entry of a map holds of each entry of its tail.
    pub tail_of :
        {P : Text → Kv → Type 0}
        → lookup key rest ≡ none
        → ((k : Text) (kv : Kv) → lookup k all ≡ some kv → P k kv)
        → (k : Text) (kv : Kv) → lookup k rest ≡ some kv
        → P k kv
    tail_of fresh f k kv e = f k kv (elim (Bool-cases (text_eq key k)) [
      | inl h ↦
          let g : lookup k rest ≡ none = rw ((text_eq_iff key k).0 h) at fresh in
          ground (arith, e, g)
      | inr h ↦ ground (arith, lookup-cons k key x rest, e, h)
    ])

    keep_step :
        (k : Text) (m : Map Kv)
        → lookup key rest ≡ none
        → x.vpp_key ≡ key
        → lookup k (keep_all rest (insert x.vpp_key x m))
          ≡ or_else (lookup k rest) (lookup k (insert x.vpp_key x m))
        → lookup k (keep_all all m) ≡ or_else (lookup k all) (lookup k m)
    unfolding keep_all
    keep_step k m fresh own ih = elim (Bool-cases (text_eq key k)) [
      | inl h ↦
          let g : lookup k rest ≡ none = rw ((text_eq_iff key k).0 h) at fresh in
          let i = lookup-insert x.vpp_key k x m in
          ground (arith, ih, i, g, h, own, lookup-cons k key x rest)
      | inr h ↦
          let i = lookup-insert x.vpp_key k x m in
          ground (arith, ih, i, h, own, lookup-cons k key x rest)
    ]

    write_step :
        (db : B.Store) (v : Value) (out : B.Store)
        → Puts
        → value_of x ≡ some v
        → write_all rest (B.put x.vpp_key v db).0 ≡ (out, false)
        → write_all all db ≡ (out, false)
    unfolding write_all
    write_step db v out p e h = rw (e, p x.vpp_key v db, write_all) h

  pub lookup-keep_all :
      (k : Text) (a m : Map Kv)
      → IsMap a
      → Keyed a
      → lookup k (keep_all a m) ≡ or_else (lookup k a) (lookup k m)
  lookup-keep_all k [] m h own = unfold keep_all in ground (arith, lookup-empty {V = Kv} k)
  lookup-keep_all k ((key, x) ∷ rest) m h own =
      keep_step key x rest k m h.0 (own key x (lookup_first key x rest))
        (lookup-keep_all k rest (insert x.vpp_key x m) h.1 (tail_of key x rest h.0 own))

  write_all_lem :
      (a : Map Kv) (db : B.Store)
      → Puts
      → IsMap a
      → Keyed a
      → Known a
      → (db' : B.Store) × (write_all a db ≡ (db', false))
        × ((k : Text) → B.get k db' ≡ written (lookup k a) (B.get k db))
  write_all_lem [] db p h own known =
      (db, unfold write_all in refl, λ k. ground (arith, lookup-empty {V = Kv} k))
  write_all_lem ((key, x) ∷ rest) db p h own known =
      let (v, e) = known key x (lookup_first key x rest) in
      let own_key = own key x (lookup_first key x rest) in
      let (db', q, g) =
        write_all_lem rest (B.put x.vpp_key v db).0 p h.1 (tail_of key x rest h.0 own)
          (tail_of key x rest h.0 known) in
      (
        db',
        write_step key x rest db v db' p e q,
        λ k. elim (Bool-cases (text_eq key k)) [
          | inl w ↦
              let gone : lookup k rest ≡ none = rw ((text_eq_iff key k).0 w) at h.0 in
              let put_here : B.get k (B.put x.vpp_key v db).0 ≡ some v =
                subst (λ j. B.get j (B.put x.vpp_key v db).0 ≡ some v)
                  (own_key ∙ (text_eq_iff key k).0 w)
                  (B.get-put_self x.vpp_key v db (p x.vpp_key v db)) in
              ground (arith, g k, gone, put_here, e, w, lookup-cons k key x rest)
          | inr w ↦ ground (
            arith,
            g k,
            w,
            lookup-cons k key x rest,
            B.get-put_ne x.vpp_key k v db (ap (λ j. text_eq j k) own_key ∙ w),
          )
        ],
      )

  end_step :
      (t s : Txn) (db' : B.Store)
      → sweep (entries (t.before_map 0)) t ≡ some s
      → write_all (entries (s.after_map 0)) s.db ≡ (db', false)
      → config_end t
        ≡ some (
          record s { db = db'; vpp_entries = keep_all (entries (s.after_map 0)) s.vpp_entries },
          false,
        )
  unfolding config_end
  end_step t s db' q r = rw (q, r, config_end) refl

  -- An entry that is left by the sweep is one of the after map.
  still_new_from : (b a : Option Kv) (kv : Kv) → still_new b a ≡ some kv → a ≡ some kv
  still_new_from none a kv h = h
  still_new_from (some x) none kv h = h
  still_new_from (some x) (some y) kv h = elim (Option-cases (equal x y)) [
    | inl e ↦ ground (arith, e, h)
    | inr (true, e) ↦ ground (arith, e, h)
    | inr (false, e) ↦ ground (arith, e, h)
  ]

  -- ConfigEnd neither panics nor returns an error when etcd takes every call, no entry of the before
  -- map makes Equal panic on its successor, and each entry of the after map stands under its own key
  -- and is of a type that WriteToEtcd knows. Under each key,
  -- the cache then holds the new entry, where there is one that differs from its predecessor; no
  -- entry, where a predecessor has no successor; and what it held before otherwise. Etcd holds
  -- the message of the new entry, nothing, and what it held before in these cases.
  pub config_end_lem :
      (t : Txn)
      → Deletes
      → Puts
      → IsMap (entries (t.before_map 0))
      → IsMap (entries (t.after_map 0))
      → Comparable (entries (t.before_map 0)) (entries (t.after_map 0))
      → Keyed (entries (t.after_map 0))
      → Known (entries (t.after_map 0))
      → (t' : Txn) × (config_end t ≡ some (t', false))
        × ((k : Text)
            → let b = lookup k (entries (t.before_map 0)) in
              let a = lookup k (entries (t.after_map 0)) in
              (lookup k t'.vpp_entries
                ≡ or_else (still_new b a) (kept b a (lookup k t.vpp_entries)))
              × (B.get k t'.db ≡ written (still_new b a) (kept b a (B.get k t.db))))
  config_end_lem t d p hb ha c own known =
      let b = entries (t.before_map 0) in
      let (s, q, w) = sweep_lem b t d hb ha c in
      let left = entries (s.after_map 0) in
      let own' : Keyed left = λ k kv e. own k kv (
        still_new_from (lookup k b) (lookup k (entries (t.after_map 0))) kv
          (sym (w.after k) ∙ e)) in
      let known' : Known left = λ k kv e. known k kv (
        still_new_from (lookup k b) (lookup k (entries (t.after_map 0))) kv
          (sym (w.after k) ∙ e)) in
      let (db', r, g) = write_all_lem left s.db p w.after_map own' known' in
      (
        record s { db = db'; vpp_entries = keep_all left s.vpp_entries },
        end_step t s db' q r,
        λ k. (
          ground
              (arith, lookup-keep_all k left s.vpp_entries w.after_map own', w.after k, w.cache k),
          ground (arith, g k, w.after k, w.etcd k),
        ),
      )

  end_any :
      (t s : Txn)
      → sweep (entries (t.before_map 0)) t ≡ some s
      → (t' : Txn) × (failed : Bool) × (config_end t ≡ some (t', failed))
        × (failed ≡ true → t'.vpp_entries ≡ s.vpp_entries)
  unfolding config_end
  end_any t s q =
      let left = entries (s.after_map 0) in
      let failed = (write_all left s.db).1 in
      (
        record s {
          db = (write_all left s.db).0;
          vpp_entries = if failed then s.vpp_entries else keep_all left s.vpp_entries;
        },
        failed,
        rw (q, config_end) refl,
        λ e. rw e refl,
      )

  -- ConfigEnd, when a write may fail, deletes do not, and no entry of the before map makes Equal panic
  -- on its successor: it does not panic. If it returns an error, none of the new entries is in the cache: under each key the cache holds what it held
  -- before, but nothing where a predecessor has no successor.
  pub config_end_failed :
      (t : Txn)
      → Deletes
      → IsMap (entries (t.before_map 0))
      → IsMap (entries (t.after_map 0))
      → Comparable (entries (t.before_map 0)) (entries (t.after_map 0))
      → (t' : Txn) × (failed : Bool) × (config_end t ≡ some (t', failed))
        × ((failed ≡ false)
            ⊎ ((k : Text)
                → lookup k t'.vpp_entries
                  ≡ kept
                      (lookup k (entries (t.before_map 0)))
                      (lookup k (entries (t.after_map 0)))
                      (lookup k t.vpp_entries)))
  config_end_failed t d hb ha c =
      let (s, q, w) = sweep_lem (entries (t.before_map 0)) t d hb ha c in
      let (t', failed, e, keep) = end_any t s q in
      (
        t',
        failed,
        e,
        elim (Bool-cases failed) [
          | inl f ↦ inr λ k. ap (lookup k) (keep f) ∙ w.cache k
          | inr f ↦ inl f
        ],
      )
