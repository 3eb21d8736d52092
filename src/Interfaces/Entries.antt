-- ===== src/Interfaces/Entries.antt =====
-- plugins/controller/interfaces.go: a status that is stored is found, and a delete leaves none.
use sfc_controller.Common.{
  ◌≡◌, ◌≢◌, refl, sym, inl, inr, Text, true, false, none, some, [], ◌∷◌, ◌++◌, arith, text_eq,
  text_eq_iff, text_eq_refl, if◌then◌else◌, Bool-cases,
}
use sfc_controller.Common.Texts.{HasNoSlash}
use sfc_controller.Common.Maps.{
  Map, lookup, insert, erase, lookup-insert, lookup-erase, lookup-cons, has,
}
use sfc_controller.Model.{InterfaceStatus}
use sfc_controller.Names.{conn_pod_name, conn_interface_name}
use sfc_controller.Names.Parts.{conn_pod_interface_names_lem}
use sfc_controller.Interfaces.{
  StatusStore, Ram, interface_status_key_prefix, entity_interface_name, persist_interface_status,
  retrieve_interface_status_from_ram_cache, remove_interface_status, delete_each,
  delete_interface_entries,
}

-- Each status stands under its name, which is that of a pod without a slash, and an interface.
abbrev pub IsNamed : Map InterfaceStatus → Type 0
IsNamed [] = Unit
IsNamed ((key, st) ∷ rest) =
    ((pod : Text) × (i : Text) × HasNoSlash pod
      × (st.name ≡ entity_interface_name pod i)
      × (key ≡ st.name))
    × IsNamed rest

has-empty : (k : Text) → has {V = InterfaceStatus} k [] ≡ false
unfolding has lookup
has-empty k = refl

has-cons :
    (k key : Text) (st : InterfaceStatus) (m : Map InterfaceStatus)
    → has k ((key, st) ∷ m) ≡ (if text_eq key k then true else has k m)
unfolding has
has-cons k key st m = ground (arith, lookup-cons k key st m)

not_there : (k : Text) (m : Map InterfaceStatus) → has k m ≡ false → lookup k m ≡ none
unfolding has
not_there k m h = ground (arith, h)

module _ ⦃S : StatusStore⦄ where
  -- A status that PersistInterfaceStatus stores for an interface of a pod is the one that is found
  -- under the name of the interface, in the map of the entity and in the cache; the other entries of
  -- both are as they were. RemoveInterfaceStatus then takes it out of both.
  pub persist_interface_status_lem :
      (pod i : Text) (st : InterfaceStatus) (interfaces : Map InterfaceStatus) (r : Ram) (k : Text)
      → let name = entity_interface_name pod i in
        let (m, r1) = persist_interface_status pod i st interfaces r in
        let (m', r2) = remove_interface_status pod i m r1 in
        (retrieve_interface_status_from_ram_cache name m ≡ some st)
        × (lookup name r1.interface_states ≡ some st)
        × (lookup name m' ≡ none)
        × (lookup name r2.interface_states ≡ none)
        × (k ≢ name
            → (lookup k m' ≡ lookup k interfaces)
              × (lookup k r2.interface_states ≡ lookup k r.interface_states)
              × (lookup k m ≡ lookup k interfaces))
  unfolding persist_interface_status remove_interface_status
      retrieve_interface_status_from_ram_cache
  persist_interface_status_lem pod i st interfaces r k =
      let name = entity_interface_name pod i in
      let t = text_eq_refl name in
      let m = insert name st interfaces in
      let states = insert name st r.interface_states in
      (
        ground (arith, lookup-insert name name st interfaces, t),
        ground (arith, lookup-insert name name st r.interface_states, t),
        ground (arith, lookup-erase name name m, t),
        ground (arith, lookup-erase name name states, t),
        (λ ne.
            let t' : text_eq name k ≡ false = elim (Bool-cases (text_eq name k)) [
              | inl e ↦ absurd (ne (sym ((text_eq_iff name k).0 e)))
              | inr e ↦ e
            ] in
            (
              ground (arith, lookup-erase name k m, lookup-insert name k st interfaces, t'),
              ground (
                arith,
                lookup-erase name k states,
                lookup-insert name k st r.interface_states,
                t',
              ),
              ground (arith, lookup-insert name k st interfaces, t'),
            )),
      )

  named_again :
      (key pod i : Text) (st : InterfaceStatus)
      → HasNoSlash pod
      → st.name ≡ entity_interface_name pod i
      → key ≡ st.name
      → entity_interface_name (conn_pod_name st.name) (conn_interface_name st.name) ≡ key
  named_again key pod i st h e e' =
      let (names, p, n, u) = conn_pod_interface_names_lem pod i h in rw (e', e, p, n) refl

  -- What is left without one key.
  abbrev without : Text → Ram → Ram
  without key r = record r {
    interface_states = erase key r.interface_states;
    store = S.delete (interface_status_key_prefix ++ key) r.store;
  }

  delete_each_step :
      (key : Text) (st : InterfaceStatus) (rest interfaces : Map InterfaceStatus) (r : Ram)
      → entity_interface_name (conn_pod_name st.name) (conn_interface_name st.name) ≡ key
      → delete_each ((key, st) ∷ rest) interfaces r
        ≡ delete_each rest (erase key interfaces) (without key r)
  unfolding delete_each remove_interface_status
  delete_each_step key st rest interfaces r e = rw e refl

  -- The state after the walk: what a map holds without the keys of the walk.
  delete_each_lem :
      (rest interfaces : Map InterfaceStatus) (r : Ram) (k : Text)
      → IsNamed rest
      → let (m, r') = delete_each rest interfaces r in
        (lookup k m ≡ (if has k rest then none else lookup k interfaces))
        × (lookup k r'.interface_states
            ≡ (if has k rest then none else lookup k r.interface_states))
  delete_each_lem [] interfaces r k h =
      let e : has k [] ≡ false = has-empty k in rw e (unfold delete_each in (refl, refl))
  delete_each_lem ((key, st) ∷ rest) interfaces r k h =
      let (pod, i, ns, e, e') = h.0 in
      let (m, c) = delete_each_lem rest (erase key interfaces) (without key r) k h.1 in
      rw
        (
          delete_each_step key st rest interfaces r (named_again key pod i st ns e e'),
          has-cons k key st rest,
        )
        (
          ground (arith, m, lookup-erase key k interfaces),
          ground (arith, c, lookup-erase key k r.interface_states),
        )

  -- DeleteInterfaceEntries on a map whose entries stand under their names, which are those of a pod
  -- without a slash and an interface: the map is empty afterwards, and the cache holds no entry under
  -- a key of the map, and what it held under every other key.
  pub delete_interface_entries_lem :
      (interfaces : Map InterfaceStatus) (r : Ram) (k : Text)
      → IsNamed interfaces
      → let (m, r') = delete_interface_entries interfaces r in
        (lookup k m ≡ none)
        × (lookup k r'.interface_states
            ≡ (if has k interfaces then none else lookup k r.interface_states))
  unfolding delete_interface_entries
  delete_interface_entries_lem interfaces r k h =
      let (m, c) = delete_each_lem interfaces interfaces r k h in
      (ground (arith, m, not_there k interfaces), c)

  delete_each_pools :
      (rest interfaces : Map InterfaceStatus) (r : Ram)
      → (delete_each rest interfaces r).1.pools ≡ r.pools
  unfolding delete_each remove_interface_status
  delete_each_pools [] interfaces r = refl
  delete_each_pools ((key, st) ∷ rest) interfaces r = delete_each_pools rest _ _

  pub delete_interface_entries-pools :
      (interfaces : Map InterfaceStatus) (r : Ram)
      → (delete_interface_entries interfaces r).1.pools ≡ r.pools
  unfolding delete_interface_entries
  delete_interface_entries-pools interfaces r = delete_each_pools interfaces interfaces r
