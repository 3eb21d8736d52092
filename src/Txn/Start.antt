-- ===== src/Txn/Start.antt =====
-- ConfigStart: the copy of the cache; and which entries Equal can compare.
use sfc_controller.Common.{
  ℕ, suc, ◌≡◌, refl, Text, Bool, true, false, Option, none, some, [], ◌∷◌, arith, text_eq,
  text_eq_iff, text_eq_refl, if◌then◌else◌, not,
}
use mathlib.Core.Path.{subst}
use sfc_controller.Common.Maps.{Map, lookup, insert, lookup-empty, IsMap, insert-IsMap}
use sfc_controller.Entry.{
  Messages, Kv, equal, equal_routes, HasRoute, type_l3_route, type_interface, type_l2bd, type_l2xc,
  type_linux_interface, type_arp,
}
use sfc_controller.Datastore.{Broker}
use sfc_controller.Txn.{Txn, set_level, keep_all, config_start, copy_entries}
use sfc_controller.Txn.Commit.{Keyed, lookup-keep_all, tail_of, lookup_first}

module _ ⦃M : Messages⦄ where
  equal_l3 :
      (x y : Kv)
      → HasRoute x
      → HasRoute y
      → text_eq x.vpp_entry_type y.vpp_entry_type ≡ true
      → text_eq x.vpp_entry_type type_l3_route ≡ true
      → (r : Bool) × (equal_routes x.l3_route y.l3_route ≡ some r)
  unfolding equal_routes
  equal_l3 x y hx hy e l =
      let (r, p) = hx l in
      let (r2, q) = hy (
        subst (λ j. text_eq j type_l3_route ≡ true)
          ((text_eq_iff x.vpp_entry_type y.vpp_entry_type).0 e) l) in
      (
        text_eq (M.route_text (M.without_description r)) (M.route_text (M.without_description r2)),
        rw (p, q, equal_routes) refl,
      )

  abbrev Answers : Option Bool → Type 0
  Answers o = (r : Bool) × (o ≡ some r)

  Answers-if :
      (c : Bool) {a b : Option Bool}
      → (c ≡ true → Answers a)
      → (c ≡ false → Answers b)
      → Answers (if c then a else b)
  Answers-if true f g = f refl
  Answers-if false f g = g refl

  -- Two entries whose routes are there where their type says so can be compared.
  pub equal_total : (x y : Kv) → HasRoute x → HasRoute y → Answers (equal x y)
  unfolding equal
  equal_total x y hx hy =
      let t = x.vpp_entry_type in
      Answers-if (not (text_eq t y.vpp_entry_type)) (λ c. (false, refl))
        (λ same.
          Answers-if (not (text_eq x.vpp_key y.vpp_key)) (λ c. (false, refl))
            (λ c.
              Answers-if (text_eq t type_interface) (λ c. (_, refl))
                (λ c.
                  Answers-if (text_eq t type_l2bd) (λ c. (_, refl))
                    (λ c.
                      Answers-if (text_eq t type_l2xc) (λ c. (_, refl))
                        (λ c.
                          Answers-if (text_eq t type_linux_interface) (λ c. (_, refl))
                            (λ c.
                              Answers-if (text_eq t type_l3_route)
                                (equal_l3 x y hx hy (ground (arith, same)))
                                (λ c.
                                  Answers-if (text_eq t type_arp) (λ c. (_, refl))
                                    (λ c. (false, refl)))))))))

module _ ⦃M : Messages⦄ ⦃B : Broker⦄ where
  copy_step :
      (key : Text) (x : Kv) (rest c : Map Kv)
      → x.vpp_key ≡ key
      → copy_entries rest (insert x.vpp_key x c) ≡ some (keep_all rest (insert x.vpp_key x c))
      → copy_entries ((key, x) ∷ rest) c ≡ some (keep_all ((key, x) ∷ rest) c)
  unfolding copy_entries keep_all
  copy_step key x rest c own h = ground (arith, own, h, text_eq_refl key)

  copy_entries_lem : (m c : Map Kv) → IsMap m → Keyed m → copy_entries m c ≡ some (keep_all m c)
  copy_entries_lem [] c h own = unfold copy_entries keep_all in refl
  copy_entries_lem ((key, x) ∷ rest) c h own =
      copy_step key x rest c (own key x (lookup_first key x rest))
        (copy_entries_lem rest (insert x.vpp_key x c) h.1 (tail_of key x rest h.0 own))

  keep_all-IsMap : (m c : Map Kv) → IsMap c → IsMap (keep_all m c)
  keep_all-IsMap [] c h = unfold keep_all in h
  keep_all-IsMap ((key, x) ∷ rest) c h =
      keep_step key x rest c
        (keep_all-IsMap rest (insert x.vpp_key x c) (insert-IsMap x.vpp_key x c h))
    where
      keep_step :
          (key : Text) (x : Kv) (rest c : Map Kv)
          → IsMap (keep_all rest (insert x.vpp_key x c))
          → IsMap (keep_all ((key, x) ∷ rest) c)
      keep_step key x rest c h = unfold keep_all in h

  -- ConfigStart on a cache in which each entry stands under its own key does not end the process:
  -- the before map of level 0 agrees with the cache under each key, the after map of level 0 is
  -- empty, and the maps of the other levels are nil. The cache and etcd are as they were.
  pub config_start_lem :
      (t : Txn)
      → IsMap t.vpp_entries
      → Keyed t.vpp_entries
      → (t' : Txn) × (copy : Map Kv) × (config_start t ≡ some t')
        × (t'.before_map 0 ≡ some copy)
        × IsMap copy
        × ((k : Text) → lookup k copy ≡ lookup k t.vpp_entries)
        × (t'.after_map 0 ≡ some [])
        × ((l : ℕ) → (t'.before_map (suc l) ≡ none) × (t'.after_map (suc l) ≡ none))
        × (t'.txn_level ≡ 0)
        × (t'.vpp_entries ≡ t.vpp_entries)
        × (t'.db ≡ t.db)
  unfolding config_start
  config_start_lem t h own =
      let copy = keep_all t.vpp_entries [] in
      let e = copy_entries_lem t.vpp_entries [] h own in
      (
        record t {
          before_map = set_level 0 (some copy) (λ l. none);
          after_map = set_level 0 (some []) (λ l. none);
          txn_level = 0;
        },
        copy,
        rw e refl,
        refl,
        keep_all-IsMap t.vpp_entries [] tt,
        λ k. ground (arith, lookup-keep_all k t.vpp_entries [] h own, lookup-empty {V = Kv} k),
        refl,
        λ l. (ground arith, ground arith),
        refl,
        refl,
        refl,
      )
