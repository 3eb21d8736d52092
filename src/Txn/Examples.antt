-- ===== src/Txn/Examples.antt =====
-- Tests of the transaction, and its theorems at a broker that keeps its messages in a map.
use mathlib.Core.Option
use mathlib.Core.Path.{subst}
use sfc_controller.Common.{
  ℕ, ◌≡◌, refl, ◌⊎◌, inl, inr, Bool, true, false, Option, none, some, [], ◌∷◌, arith, ◌≤◌, ◌<◌,
  Text, codes, text_eq, text_eq_refl, text_eq_iff, suc, Bool-cases,
}
use sfc_controller.Common.Maps.{
  Map, lookup, insert, erase, has, lookup-insert, lookup-erase, lookup-cons, lookup-empty, IsMap,
}
use sfc_controller.Entry.{Messages, Kv, Value, equal, value_of, type_l2xc, HasRoute}
use sfc_controller.Datastore.{Broker}
use sfc_controller.Txn.{
  Txn, Rendered, entries, set_level, config_start, copy_entries, entity_start, entity_end, end_at,
  merge, sweep, entity_remove_entries, add_vpp_entry, add_vpp_entries, write_all, keep_all,
  config_end,
}
use sfc_controller.Txn.Levels.{last_under, or_else, entity_rolled_back, entity_merged}
use sfc_controller.Txn.Sweep.{Deletes, Comparable, still_new, kept}
use sfc_controller.Txn.Commit.{Puts, Keyed, written, config_end_lem, config_end_failed}
use sfc_controller.Txn.Start.{config_start_lem, equal_total}
use sfc_controller.Txn.Whole.{one_entity, one_entity_lem, settled, InStep}

-- Messages that are their own texts.
instance abbrev texts : Messages
texts = record {
  Iface = Text;
  LinuxIface = Text;
  BridgeDomain = Text;
  Route = Text;
  CrossConnect = Text;
  ArpEntry = Text;
  iface_text = text_of;
  linux_iface_text = text_of;
  bridge_domain_text = text_of;
  route_text = λ r. r;
  cross_connect_text = text_of;
  arp_entry_text = text_of;
  without_description = λ r. r;
}
  where
    text_of : Option Text → Text
    text_of none = codes "<nil>"
    text_of (some t) = t

put_self : (k : Text) (v : Value) (s : Map Value) → lookup k (insert k v s) ≡ some v
put_self k v s = ground (arith, lookup-insert k k v s, text_eq_refl k)

put_ne :
    (k j : Text) (v : Value) (s : Map Value)
    → text_eq k j ≡ false
    → lookup j (insert k v s) ≡ lookup j s
put_ne k j v s e = ground (arith, lookup-insert k j v s, e)

delete_self : (k : Text) (s : Map Value) → lookup k (erase k s) ≡ none
delete_self k s = ground (arith, lookup-erase k k s, text_eq_refl k)

delete_ne : (k j : Text) (s : Map Value) → text_eq k j ≡ false → lookup j (erase k s) ≡ lookup j s
delete_ne k j s e = ground (arith, lookup-erase k j s, e)

-- A broker that never fails.
instance abbrev memory : Broker
memory = record {
  Store = Map Value;
  get = lookup;
  put = λ k v s. (insert k v s, false);
  delete = λ k s. (erase k s, false);
  get-put_self = λ k v s e. put_self k v s;
  get-put_ne = put_ne;
  get-delete_self = λ k s e. delete_self k s;
  get-delete_ne = delete_ne;
}

abbrev cross : Text → Text → Kv
cross key text = record {
  vpp_key = key;
  vpp_entry_type = type_l2xc;
  iface = none;
  l2bd = none;
  l3_route = none;
  x_conn = some text;
  linux_iface = none;
  arp_entry = none;
}

abbrev key_a : Text
key_a = codes "a"

abbrev key_b : Text
key_b = codes "b"

abbrev old_a : Kv
old_a = cross key_a (codes "1")

abbrev new_a : Kv
new_a = cross key_a (codes "2")

abbrev new_b : Kv
new_b = cross key_b (codes "1")

-- The cache and etcd hold one entry.
abbrev one : Txn
one = record {
  before_map = λ l. none;
  after_map = λ l. none;
  txn_level = 0;
  vpp_entries = (key_a, old_a) ∷ [];
  db = (key_a, Value.x_conn (some (codes "1"))) ∷ [];
}

abbrev cache_and_db : Option (Txn × Bool) → Option (Map Kv × (Map Value × Bool))
cache_and_db none = none
cache_and_db (some (t, failed)) = some (t.vpp_entries, (t.db, failed))

one_entity_test :
    cache_and_db (one_entity [] (new_a ∷ new_b ∷ []) one)
    ≡ some (
      (key_a, new_a) ∷ (key_b, new_b) ∷ [],
      (
        (key_a, Value.x_conn (some (codes "2"))) ∷ (key_b, Value.x_conn (some (codes "1"))) ∷ [],
        false,
      ),
    )
unfolding one_entity config_start copy_entries entity_start add_vpp_entries add_vpp_entry entity_end
    end_at merge config_end sweep write_all keep_all lookup insert erase has text_eq equal value_of
one_entity_test = refl

never_fails : Deletes
never_fails k s = refl

always_puts : Puts
always_puts k v s = refl

-- The entries of a map of one entry.
only :
    (P : Text → Kv → Type 0) (key : Text) (x : Kv)
    → P key x
    → (k : Text) (kv : Kv) → lookup k ((key, x) ∷ []) ≡ some kv
    → P k kv
only P key x p k kv e = elim (Bool-cases (text_eq key k)) [
  | inl h ↦
      let same : x ≡ kv = ground (arith, lookup-cons k key x [], e, h) in
      subst (λ j. P j kv) ((text_eq_iff key k).0 h) (subst (P key) same p)
  | inr h ↦ absurd (ground (arith, lookup-cons k key x [], lookup-empty {V = Kv} k, e, h))
]

one-IsMap : IsMap one.vpp_entries
one-IsMap = (lookup-empty {V = Kv} key_a, tt)

one-Keyed : Keyed one.vpp_entries
one-Keyed = only (λ k kv. kv.vpp_key ≡ k) key_a old_a refl

config_start_lem_test :
    (t' : Txn) × (copy : Map Kv) × (config_start one ≡ some t')
    × (t'.before_map 0 ≡ some copy)
    × IsMap copy
    × ((k : Text) → lookup k copy ≡ lookup k one.vpp_entries)
    × (t'.after_map 0 ≡ some [])
    × ((l : ℕ) → (t'.before_map (suc l) ≡ none) × (t'.after_map (suc l) ≡ none))
    × (t'.txn_level ≡ 0)
    × (t'.vpp_entries ≡ one.vpp_entries)
    × (t'.db ≡ one.db)
config_start_lem_test = config_start_lem one one-IsMap one-Keyed

cross-HasRoute : (key text : Text) → HasRoute (cross key text)
unfolding text_eq
cross-HasRoute key text h = absurd (ground (arith, h))

cross-Known : (key text : Text) → (v : Value) × (value_of (cross key text) ≡ some v)
unfolding value_of text_eq
cross-Known key text = (_, refl)

one-Routes : (k : Text) (kv : Kv) → lookup k one.vpp_entries ≡ some kv → HasRoute kv
one-Routes = only (λ k kv. HasRoute kv) key_a old_a (cross-HasRoute key_a (codes "1"))

one-InStep : InStep one
unfolding lookup value_of text_eq
one-InStep k = elim (Bool-cases (text_eq key_a k)) [
  | inl h ↦ ground (arith, h)
  | inr h ↦ ground (arith, h)
]

one_entity_lem_example :
    (t' : Txn) × (one_entity [] (new_a ∷ new_b ∷ []) one ≡ some (t', false))
    × ((k : Text)
        → lookup k t'.vpp_entries
          ≡ settled (lookup k one.vpp_entries) (last_under k (new_a ∷ new_b ∷ [])))
    × InStep t'
one_entity_lem_example =
    one_entity_lem [] (new_a ∷ new_b ∷ []) one never_fails always_puts one-IsMap one-Keyed
      one-Routes one-InStep
      (
        (cross-HasRoute key_a (codes "2"), cross-Known key_a (codes "2")),
        ((cross-HasRoute key_b (codes "1"), cross-Known key_b (codes "1")), tt),
      )

-- Inside a transaction, before its end: the entry "a" has changed.
abbrev open_one : Txn
open_one = record one {
  before_map = set_level 0 (some ((key_a, old_a) ∷ [])) (λ l. none);
  after_map = set_level 0 (some ((key_a, new_a) ∷ [])) (λ l. none);
}

new-IsMap : IsMap (entries (open_one.after_map 0))
new-IsMap = (lookup-empty {V = Kv} key_a, tt)

open_one-Comparable : Comparable (entries (open_one.before_map 0)) (entries (open_one.after_map 0))
open_one-Comparable k x y ex ey =
    equal_total x y (one-Routes k x ex)
      (only (λ k kv. HasRoute kv) key_a new_a (cross-HasRoute key_a (codes "2")) k y ey)

config_end_lem_example :
    (t' : Txn) × (config_end open_one ≡ some (t', false))
    × ((k : Text)
        → let b = lookup k (entries (open_one.before_map 0)) in
          let a = lookup k (entries (open_one.after_map 0)) in
          (lookup k t'.vpp_entries
            ≡ or_else (still_new b a) (kept b a (lookup k open_one.vpp_entries)))
          × (memory.get k t'.db ≡ written (still_new b a) (kept b a (memory.get k open_one.db))))
config_end_lem_example =
    config_end_lem open_one never_fails always_puts one-IsMap new-IsMap open_one-Comparable
      (only (λ k kv. kv.vpp_key ≡ k) key_a new_a refl)
      (only (λ k kv. (v : Value) × (value_of kv ≡ some v)) key_a new_a
        (cross-Known key_a (codes "2")))

-- A broker that refuses every write.
abbrev refusing : Broker
refusing = record {
  Store = Map Value;
  get = lookup;
  put = λ k v s. (s, true);
  delete = λ k s. (erase k s, false);
  get-put_self = λ k v s e. absurd (ground (arith, e));
  get-put_ne = λ k j v s e. refl;
  get-delete_self = λ k s e. delete_self k s;
  get-delete_ne = delete_ne;
}

abbrev refused : Txn ⦃B = refusing⦄
refused = record {
  before_map = open_one.before_map;
  after_map = open_one.after_map;
  txn_level = 0;
  vpp_entries = open_one.vpp_entries;
  db = open_one.db;
}

refused_test : Option.map (λ r. r.1) (config_end ⦃B = refusing⦄ refused) ≡ some true
unfolding config_end sweep write_all lookup text_eq equal value_of
refused_test = refl

config_end_failed_example :
    (t' : Txn ⦃B = refusing⦄) × (failed : Bool) × (config_end ⦃B = refusing⦄ refused
      ≡ some (t', failed))
    × ((failed ≡ false)
        ⊎ ((k : Text)
            → lookup k t'.vpp_entries
              ≡ kept
                  (lookup k (entries (refused.before_map 0)))
                  (lookup k (entries (refused.after_map 0)))
                  (lookup k refused.vpp_entries)))
config_end_failed_example =
    config_end_failed ⦃B = refusing⦄ refused (λ k s. refl) one-IsMap new-IsMap open_one-Comparable

entity_rolled_back_example :
    (r' : Map Rendered) × (t1 t2 : Txn) × (add_vpp_entries [] (new_b ∷ []) (entity_start open_one)
      ≡ some (r', t1))
    × (entity_end (entity_remove_entries t1) ≡ some t2)
    × (t2.txn_level ≡ open_one.txn_level)
    × (t2.vpp_entries ≡ open_one.vpp_entries)
    × (t2.db ≡ open_one.db)
    × ((i : ℕ) → i ≤ open_one.txn_level → t2.after_map i ≡ open_one.after_map i)
    × ((i : ℕ) → i ≤ open_one.txn_level → t2.before_map i ≡ open_one.before_map i)
entity_rolled_back_example = entity_rolled_back [] (new_b ∷ []) open_one

entity_merged_example :
    (r' : Map Rendered) × (t1 t2 : Txn) × (m' : Map Kv) × (add_vpp_entries []
        (new_b ∷ [])
        (entity_start open_one)
      ≡ some (r', t1))
    × (entity_end t1 ≡ some t2)
    × (t2.txn_level ≡ open_one.txn_level)
    × (t2.vpp_entries ≡ open_one.vpp_entries)
    × (t2.db ≡ open_one.db)
    × (t2.after_map open_one.txn_level ≡ some m')
    × IsMap m'
    × ((k : Text)
        → lookup k m' ≡ or_else (last_under k (new_b ∷ [])) (lookup k ((key_a, new_a) ∷ [])))
    × ((i : ℕ) → i < open_one.txn_level → t2.after_map i ≡ open_one.after_map i)
    × ((i : ℕ) → i ≤ open_one.txn_level → t2.before_map i ≡ open_one.before_map i)
entity_merged_example = entity_merged [] (new_b ∷ []) open_one ((key_a, new_a) ∷ []) refl new-IsMap
