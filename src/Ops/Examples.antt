-- ===== src/Ops/Examples.antt =====
-- The theorems of the loop at one manager that keeps a number, where a rendering doubles it.
use sfc_controller.Common.{
  ℕ, ◌+◌, ◌*◌, ◌≡◌, refl, ◌++◌, inl, codes, Bool, true, false, Option, some, [], ◌∷◌, text_eq,
}
use sfc_controller.Ops.{
  create_update, enable_renderer, Msg, Manager, Loop, find_model_manager,
  process_operational_messages, start,
}
use sfc_controller.Ops.Rendering.{changed_by, changed_by_all, enable_renders_once, change_renders}

abbrev counter : Manager ℕ ℕ
counter = record {
  model_type_name = codes "counter";
  handle_cu = λ n s. some (s + n);
  handle_d = λ n s. some 0;
}

abbrev double : ℕ → Option ℕ
double s = some (s * 2)

abbrev sync : ℕ → Option (ℕ × Bool)
sync s = some (s, false)

abbrev add_three : Msg ℕ
add_three = record { model = codes "counter"; op_code = create_update; payload = 3 }

abbrev enable : Msg ℕ
enable = record { model = []; op_code = enable_renderer; payload = 0 }

added : changed_by_all (counter ∷ []) ((add_three, 1) ∷ (add_three, 2) ∷ []) 0 ≡ some 6
unfolding find_model_manager text_eq
added = refl

added_once : changed_by (counter ∷ []) add_three 5 ≡ some 8
unfolding find_model_manager text_eq
added_once = refl

enable_renders_once_example :
    process_operational_messages
      (counter ∷ [])
      sync
      double
      0
      (((add_three, 1) ∷ (add_three, 2) ∷ []) ++ (enable, 3) ∷ [])
      (start 0 0)
    ≡ some (record {
      then_second = 3;
      is_rendering_enabled = true;
      is_rendering_pending = false;
      system = 12;
    })
enable_renders_once_example =
    enable_renders_once (counter ∷ []) sync double 0 (add_three, 1) ((add_three, 2) ∷ []) enable 0 3
      0 6 12 (inl refl, (inl refl, tt)) added refl refl

abbrev enabled : Loop ℕ
enabled = record {
  then_second = 3;
  is_rendering_enabled = true;
  is_rendering_pending = false;
  system = 5;
}

change_renders_test :
    process_operational_messages
      (counter ∷ [])
      sync
      double
      0
      ((add_three, 4) ∷ (enable, 5) ∷ [])
      enabled
    ≡ process_operational_messages (counter ∷ []) sync double 0 ((enable, 5) ∷ []) (record {
      then_second = 4;
      is_rendering_enabled = true;
      is_rendering_pending = false;
      system = 16;
    })
change_renders_test =
    change_renders (counter ∷ []) sync double 0 add_three 4 ((enable, 5) ∷ []) enabled 8 16 refl
      (inl refl) added_once refl
