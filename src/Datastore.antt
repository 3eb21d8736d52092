-- ===== src/Datastore.antt =====
-- plugins/controller/database/database.go over the key-value broker of cn-infra, which is an
-- interface: a state, the operations on it, and what the controller relies on. The second result
-- of an operation says that it failed.
use sfc_controller.Common.{Text, Bool, false, Option, none, some, ◌≡◌, text_eq}
use sfc_controller.Entry.{Messages, Value}

module _ ⦃M : Messages⦄ where
  pub record Broker : Type 1 where
    pub Store : Type 0
    pub get : Text → Store → Option Value
    pub put : Text → Value → Store → Store × Bool
    pub delete : Text → Store → Store × Bool
    -- What a successful call does to its own key; no call touches another key.
    pub get-put_self :
        (k : Text) (v : Value) (s : Store) → (put k v s).1 ≡ false → get k (put k v s).0 ≡ some v
    pub get-put_ne :
        (k j : Text) (v : Value) (s : Store) → text_eq k j ≡ false → get j (put k v s).0 ≡ get j s
    pub get-delete_self :
        (k : Text) (s : Store) → (delete k s).1 ≡ false → get k (delete k s).0 ≡ none
    pub get-delete_ne :
        (k j : Text) (s : Store) → text_eq k j ≡ false → get j (delete k s).0 ≡ get j s
