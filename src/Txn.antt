-- ===== src/Txn.antt =====
-- plugins/controller/rendertxn.go: the transaction that collects the entries of one rendering and
-- brings etcd and the cache of entries in line with them. A Go map that is nil is `none`; an
-- operation that panics, or ends the process by log.Fatal, is `none`.
pub mod Levels
pub mod Sweep
pub mod Commit
pub mod Start
pub mod Whole
pub mod Removed
mod Examples
use mathlib.Core.Option
use sfc_controller.Common.{
  ℕ, zero, suc, ◌+◌, ◌-◌, Text, Bool, true, false, not, Option, none, some, List, [], ◌∷◌, ◌==◌,
  codes, text_eq, if◌then◌else◌,
}
use sfc_controller.Common.Maps.{Map, lookup, insert, erase, has}
use sfc_controller.Entry.{Messages, Kv, Value, equal, value_of}
use sfc_controller.Datastore.{Broker}

-- controller.RenderedVppAgentEntry
pub record Rendered : Type 0 where
  pub vpp_agent_key : Text
  pub vpp_agent_type : Text

module _ ⦃M : Messages⦄ ⦃B : Broker⦄ where
  open B use {Store, put, delete}

  -- map[int]map[string]*vppagent.KVType
  abbrev pub Levels : Type 0
  Levels = ℕ → Option (Map Kv)

  abbrev pub set_level : ℕ → Option (Map Kv) → Levels → Levels
  set_level l m f i = if i == l then m else f i

  abbrev pub entries : Option (Map Kv) → Map Kv
  entries none = []
  entries (some m) = m

  -- The variables of the file, the cache of vpp entries, and etcd.
  pub record Txn : Type 0 where
    pub before_map : Levels
    pub after_map : Levels
    pub txn_level : ℕ
    pub vpp_entries : Map Kv
    pub db : Store

  unfoldable pub get_after_map : Text → Txn → Option Kv
  get_after_map key t = lookup key (entries (t.after_map 0))

  abbrev pub init_level_map : ℕ → Txn → Txn
  init_level_map l t = record t {
    before_map = set_level l (some []) t.before_map;
    after_map = set_level l (some []) t.after_map;
  }

  abbrev pub remove_level_map : ℕ → Txn → Txn
  remove_level_map l t = record t {
    before_map = set_level l none t.before_map;
    after_map = set_level l none t.after_map;
  }

  -- The copy of the cache; log.Fatal on an entry under a key that is not its own.
  unfoldable pub copy_entries : Map Kv → Map Kv → Option (Map Kv)
  copy_entries [] copy = some copy
  copy_entries ((key, kv) ∷ rest) copy =
      let more = copy_entries rest (insert kv.vpp_key kv copy) in
      if text_eq key kv.vpp_key then more else none

  unfoldable pub config_start : Txn → Option Txn
  config_start t =
      Option.map
        (λ copy. record t {
          before_map = set_level 0 (some copy) (λ l. none);
          after_map = set_level 0 (some []) (λ l. none);
          txn_level = 0;
        })
        (copy_entries t.vpp_entries [])

  unfoldable pub entity_start : Txn → Txn
  entity_start t = init_level_map (suc t.txn_level) (record t { txn_level = suc t.txn_level })

  unfoldable pub merge : Map Kv → Map Kv → Map Kv
  merge [] m = m
  merge ((key, kv) ∷ rest) m = merge rest (insert key kv m)

  abbrev pub closed : ℕ → Levels → Txn → Txn
  closed l m t = remove_level_map (suc l) (record t { after_map = m; txn_level = l })

  -- A write to the map of the level below panics if that map is nil, unless there is nothing to
  -- write. Level 0 has none below: the calls are bracketed, and the model stops there.
  unfoldable pub end_at : ℕ → Txn → Option Txn
  end_at zero t = none
  end_at (suc l) t = elim (entries (t.after_map (suc l))) [
    | [] ↦ some (closed l t.after_map t)
    | e ∷ rest ↦ elim (t.after_map l) [
      | none ↦ none
      | some m ↦ some (closed l (set_level l (some (merge (e ∷ rest) m)) t.after_map) t)
    ]
  ]

  unfoldable pub entity_end : Txn → Option Txn
  entity_end t = end_at t.txn_level t

  unfoldable pub entity_remove_entries : Txn → Txn
  entity_remove_entries t = record t { after_map = set_level t.txn_level (some []) t.after_map }

  -- A key that is new to the after map is noted among the rendered entries of the entity.
  abbrev pub note_rendered : Kv → Map Kv → Map Rendered → Map Rendered
  note_rendered kv m rendered =
      let entry : Rendered = record {
        vpp_agent_key = kv.vpp_key;
        vpp_agent_type = kv.vpp_entry_type;
      } in
      if has kv.vpp_key m then rendered else insert kv.vpp_key entry rendered

  -- The first argument is the map of rendered entries of the entity, which renderConfig makes at the
  -- start of each rendering: it is not nil.
  unfoldable pub add_vpp_entry : Map Rendered → Kv → Txn → Option (Map Rendered × Txn)
  add_vpp_entry rendered kv t = elim (t.after_map t.txn_level) [
    | none ↦ none
    | some m ↦ some (
      note_rendered kv m rendered,
      record t { after_map = set_level t.txn_level (some (insert kv.vpp_key kv m)) t.after_map },
    )
  ]

  unfoldable pub add_vpp_entries : Map Rendered → List Kv → Txn → Option (Map Rendered × Txn)
  add_vpp_entries rendered [] t = some (rendered, t)
  add_vpp_entries rendered (kv ∷ rest) t = elim (add_vpp_entry rendered kv t) [
    | none ↦ none
    | some (rendered', t') ↦ add_vpp_entries rendered' rest t'
  ]

  -- The first loop of ConfigEnd over the entries of the before map: an entry with no successor is
  -- deleted from etcd, from the cache and from the before map, whatever etcd answers; an entry
  -- that stays as it was is taken out of the after map.
  unfoldable pub sweep : Map Kv → Txn → Option Txn
  sweep [] t = some t
  sweep ((key, before) ∷ rest) t = elim (lookup key (entries (t.after_map 0))) [
    | none ↦ sweep rest (record t {
      db = (delete key t.db).0;
      vpp_entries = erase key t.vpp_entries;
      before_map = set_level 0 (some (erase key (entries (t.before_map 0)))) t.before_map;
    })
    | some after ↦ elim (equal before after) [
      | none ↦ none
      | some true ↦ sweep rest (record t {
        after_map = set_level 0 (some (erase key (entries (t.after_map 0)))) t.after_map;
      })
      | some false ↦ sweep rest t
    ]
  ]

  -- The second loop: the entries that are left are written; the result says that one failed, and
  -- then the rest is not written.
  unfoldable pub write_all : Map Kv → Store → Store × Bool
  write_all [] db = (db, false)
  write_all ((key, kv) ∷ rest) db = elim (value_of kv) [
    | none ↦ (db, true)
    | some v ↦ elim (put kv.vpp_key v db).1 [
      | true ↦ ((put kv.vpp_key v db).0, true)
      | false ↦ write_all rest (put kv.vpp_key v db).0
    ]
  ]

  -- The third loop: the written entries join the cache.
  unfoldable pub keep_all : Map Kv → Map Kv → Map Kv
  keep_all [] m = m
  keep_all ((key, kv) ∷ rest) m = keep_all rest (insert kv.vpp_key kv m)

  -- The second result says that ConfigEnd returned an error.
  unfoldable pub config_end : Txn → Option (Txn × Bool)
  config_end t = elim (sweep (entries (t.before_map 0)) t) [
    | none ↦ none
    | some s ↦
        let left = entries (s.after_map 0) in
        let (db, failed) = write_all left s.db in
        some (
          record s {
            db = db;
            vpp_entries = if failed then s.vpp_entries else keep_all left s.vpp_entries;
          },
          failed,
        )
  ]

  -- DeleteRenderedVppAgentEntries
  unfoldable pub delete_rendered : Map Rendered → Txn → Txn
  delete_rendered [] t = t
  delete_rendered ((name, r) ∷ rest) t = delete_rendered rest (record t {
    vpp_entries = erase r.vpp_agent_key t.vpp_entries;
    db = (delete r.vpp_agent_key t.db).0;
  })
