-- ===== src/Txn/Removed.antt =====
-- DeleteRenderedVppAgentEntries: what it takes out of the cache of entries and out of etcd.
use mathlib.Core.Path.{subst}
use sfc_controller.Common.{
  ◌≡◌, refl, inl, inr, Text, Bool, false, ◌||◌, none, [], ◌∷◌, arith, text_eq, text_eq_iff,
  if◌then◌else◌, Bool-cases,
}
use sfc_controller.Common.Maps.{Map, lookup, erase, lookup-erase}
use sfc_controller.Entry.{Messages}
use sfc_controller.Datastore.{Broker}
use sfc_controller.Txn.{Txn, Rendered, delete_rendered}
use sfc_controller.Txn.Sweep.{Deletes}

-- Whether a rendered entry has the key.
abbrev pub is_rendered : Map Rendered → Text → Bool
is_rendered [] k = false
is_rendered ((name, r) ∷ rest) k = text_eq r.vpp_agent_key k || is_rendered rest k

module _ ⦃M : Messages⦄ ⦃B : Broker⦄ where
  get-delete :
      (key k : Text) (db : B.Store)
      → Deletes
      → B.get k (B.delete key db).0 ≡ (if text_eq key k then none else B.get k db)
  get-delete key k db d = elim (Bool-cases (text_eq key k)) [
    | inl e ↦
        let gone : B.get k (B.delete key db).0 ≡ none =
          subst (λ j. B.get j (B.delete key db).0 ≡ none) ((text_eq_iff key k).0 e)
            (B.get-delete_self key db (d key db)) in
        ground (arith, gone, e)
    | inr e ↦ ground (arith, B.get-delete_ne key k db e, e)
  ]

  -- The state after the first of the entries.
  abbrev first_gone : Rendered → Txn → Txn
  first_gone r t = record t {
    vpp_entries = erase r.vpp_agent_key t.vpp_entries;
    db = (B.delete r.vpp_agent_key t.db).0;
  }

  delete_rendered_step :
      (name : Text) (r : Rendered) (rest : Map Rendered) (t : Txn)
      → delete_rendered ((name, r) ∷ rest) t ≡ delete_rendered rest (first_gone r t)
  delete_rendered_step name r rest t = unfold delete_rendered in refl

  -- The cache and etcd lose what they hold under the keys of the entries, and nothing else.
  pub delete_rendered_lem :
      (rs : Map Rendered) (t : Txn) (k : Text)
      → Deletes
      → let t' = delete_rendered rs t in
        (lookup k t'.vpp_entries ≡ (if is_rendered rs k then none else lookup k t.vpp_entries))
        × (B.get k t'.db ≡ (if is_rendered rs k then none else B.get k t.db))
  delete_rendered_lem [] t k d = (unfold delete_rendered in refl, unfold delete_rendered in refl)
  delete_rendered_lem ((name, r) ∷ rest) t k d =
      let (cache, etcd) = delete_rendered_lem rest (first_gone r t) k d in
      rw (delete_rendered_step name r rest t) (
        ground (arith, cache, lookup-erase r.vpp_agent_key k t.vpp_entries),
        ground (arith, etcd, get-delete r.vpp_agent_key k t.db d),
      )
